-- ===== src/WorkOrders/Lifecycle.antt =====
-- The life of a work order: what each operation checks and writes.
pub mod History
pub mod Log
pub mod Origins
use Prim.Native.String.{String}
use forgeos_web.Base.{
  ℕ, ◌≡◌, ◌⊎◌, inl, inr, refl, sym, ap, ◌∙◌, Bool, true, false, not, ◌&&◌, ◌||◌, Option, none, some,
  List, [], ◌∷◌, ◌==◌, arith, Bool-cases, Option-cases, includes, if◌then◌else◌,
}
use forgeos_web.Base.Result.{Result, ok, err, Error, not_found, conflict, bad_request, Exec}
use forgeos_web.Domain.{Database, World}
use forgeos_web.Domain.Work.{WorkOrder, WorkOrderEvent, WorkOrderEventType, WorkOrderStatus}
use forgeos_web.WorkOrders.Advancing.{
  advanced, advance_event, event_type_after, HasAssignee, HasComment, comment_refused-HasComment,
  transition_data-advanced,
}
use forgeos_web.WorkOrders.{
  WorkOrderTransition, TransitionInput, CreateWorkOrderInput, find_own, require_own,
  update_work_order, create, assert_valid_transition, assert_assignee, transition_eq,
  valid_transitions, comment_refused, transition_data, event_type, apply_transition, transition,
  schedule, is_closed, is_active_member, new_work_order, assign, start, comment, resolve, cancel,
  owned_station, assert_assignee_if_assigning,
}

module _ {db : Database} where
  abbrev pub order_at : World db → ℕ → Option WorkOrder
  order_at w id = db.work_orders.find_unique w.work_orders id

  -- One row written and one event appended.
  abbrev pub stepped : World db → WorkOrder → WorkOrderEvent → World db
  stepped w o e = record w {
    work_orders = db.work_orders.put w.work_orders o;
    work_order_events = e ∷ w.work_order_events;
  }

  pub find_own_sound :
      (w : World db) (org id : ℕ) (o : WorkOrder)
      → find_own w org id ≡ some o
      → (order_at w id ≡ some o) × (o.organization_id ≡ org) × (o.id ≡ id)
  unfolding find_own
  find_own_sound w org id o e = elim (Option-cases (order_at w id)) [
    | inl none_there ↦ ground (arith, none_there, e)
    | inr (r, there) ↦
        let same : r ≡ o = ground (arith, there, e) in
        (
          there ∙ rw same refl,
          ground (arith, there, e),
          rw (sym same) (db.work_orders.find_unique_key w.work_orders id r there),
        )
  ]

  require_own_found :
      (w : World db) (org id : ℕ) (o : WorkOrder)
      → find_own w org id ≡ some o
      → require_own org id w ≡ (ok o, w)
  unfolding require_own
  require_own_found w org id o e = rw (e, require_own) refl

  require_own_missing :
      (w : World db) (org id : ℕ)
      → find_own w org id ≡ none
      → require_own org id w ≡ (err not_found, w)
  unfolding require_own
  require_own_missing w org id e = rw (e, require_own) refl

  pub update_work_order_found :
      (id : ℕ) (change : WorkOrder → WorkOrder) (w : World db) (o : WorkOrder)
      → order_at w id ≡ some o
      → update_work_order id change w
        ≡ (ok (change o), record w { work_orders = db.work_orders.put w.work_orders (change o) })
  unfolding update_work_order
  update_work_order_found id change w o e = rw (e, update_work_order) refl

  valid_checked :
      (w : World db) (from : WorkOrderStatus) (t : WorkOrderTransition)
      → ((includes transition_eq (valid_transitions from) t ≡ true)
          × (assert_valid_transition {db = db} from t w ≡ (ok tt, w)))
        ⊎ (assert_valid_transition {db = db} from t w ≡ (err conflict, w))
  unfolding assert_valid_transition
  valid_checked w from t = elim (Bool-cases (includes transition_eq (valid_transitions from) t)) [
    | inl fits ↦ inl (fits, rw fits refl)
    | inr unfit ↦ inr (rw unfit refl)
  ]

  assignee-Checked :
      (w : World db) (org : ℕ) (member : Option ℕ)
      → (HasAssignee w assign org member × (assert_assignee org member w ≡ (ok tt, w)))
        ⊎ ((e : Error) × (assert_assignee org member w ≡ (err e, w)))
  unfolding assert_assignee
  assignee-Checked w org none = inr (bad_request, refl)
  assignee-Checked w org (some user) =
      elim (Option-cases (db.memberships.find_first w.memberships (is_active_member user org))) [
        | inl stranger ↦ inr (bad_request, rw (stranger, assert_assignee) refl)
        | inr (m, member) ↦
            let (there, fits) =
              db.memberships.find_first_sound w.memberships (is_active_member user org) m member in
            inl (
              (m, there, ground (arith, fits), ground (arith, fits), ground (arith, fits)),
              rw (member, assert_assignee) refl,
            )
      ]

  if_assigning-Checked :
      (w : World db) (t : WorkOrderTransition) (org : ℕ) (member : Option ℕ)
      → (HasAssignee w t org member × (assert_assignee_if_assigning t org member w ≡ (ok tt, w)))
        ⊎ ((e : Error) × (assert_assignee_if_assigning t org member w ≡ (err e, w)))
  unfolding assert_assignee_if_assigning
  if_assigning-Checked w assign org member = assignee-Checked w org member
  if_assigning-Checked w start org member = inl (tt, refl)
  if_assigning-Checked w comment org member = inl (tt, refl)
  if_assigning-Checked w resolve org member = inl (tt, refl)
  if_assigning-Checked w cancel org member = inl (tt, refl)

  apply_transition_found :
      (w : World db) (o : WorkOrder) (input : TransitionInput)
      → order_at w o.id ≡ some o
      → let o' = advanced w.now input o in
        apply_transition o input w ≡ (ok o', stepped w o' (advance_event o input))
  unfolding apply_transition
  apply_transition_found w o input there = rw (← event_type_after input.transition) (
      rw (← transition_data-advanced w.now o input)
        (rw (update_work_order_found o.id (transition_data w.now o input) w o there) refl))

  -- What a transition that is carried out has found and written.
  pub record Advances (tl : String → ℕ) (w : World db) (org id : ℕ) (input : TransitionInput)
      (o : WorkOrder) : Type 0 where
    pub there : order_at w id ≡ some o
    pub own : o.organization_id ≡ org
    pub named : o.id ≡ id
    pub valid : includes transition_eq (valid_transitions o.status) input.transition ≡ true
    pub assignee : HasAssignee w input.transition org input.assigned_member_id
    pub commented : HasComment tl input.transition input.comment
    pub done :
        transition tl org id input w
        ≡ (ok (advanced w.now input o), stepped w (advanced w.now input o) (advance_event o input))

  abbrev Refuses : (String → ℕ) → World db → (org id : ℕ) → TransitionInput → Type 0
  Refuses tl w org id input = (e : Error) × (transition tl org id input w ≡ (err e, w))

  -- A transition is refused and changes nothing, or is carried out on the organization's own work
  -- order, in a status whose table lists it, with the comment it asks for and, where it assigns, to
  -- a user with an ACTIVE membership of the organization. It then writes the row of which only the
  -- fields of that transition are new, and appends its one event.
  pub transition_outcome :
      (tl : String → ℕ) (w : World db) (org id : ℕ) (input : TransitionInput)
      → ((e : Error) × (transition tl org id input w ≡ (err e, w)))
        ⊎ ((o : WorkOrder) × Advances tl w org id input o)
  unfolding transition
  transition_outcome tl w org id input = elim (Option-cases (find_own w org id)) [
    | inl missing ↦ inl (not_found, rw (require_own_missing w org id missing) refl)
    | inr (o, found) ↦
        let (there, own, named) = find_own_sound w org id o found in
        let loaded = require_own_found w org id o found in
        elim (valid_checked w o.status input.transition) [
          | inr refused ↦ inl (conflict, rw (loaded, refused) refl)
          | inl (valid, passed) ↦
              elim (if_assigning-Checked w input.transition org input.assigned_member_id) [
                | inr (e, refused) ↦ inl (e, rw (loaded, passed, refused) refl)
                | inl (who, assigned) ↦ elim (Bool-cases (comment_refused tl input)) [
                  | inl refused ↦ inl (bad_request, rw (loaded, passed, assigned, refused) refl)
                  | inr commented ↦ inr (
                    o,
                    record {
                      there = there;
                      own = own;
                      named = named;
                      valid = valid;
                      assignee = who;
                      commented = comment_refused-HasComment tl input commented;
                      done =
                          rw (loaded, passed, assigned, commented)
                            (apply_transition_found w o input (ap (order_at w) named ∙ there));
                    },
                  )
                ]
              ]
        ]
  ]

  pub schedule_outcome :
      (w : World db) (org id : ℕ) (at : Option ℕ) (actor : ℕ)
      → ((e : Error) × (schedule org id at actor w ≡ (err e, w)))
        ⊎ ((o : WorkOrder) × (order_at w id ≡ some o)
            × (o.id ≡ id)
            × (is_closed o.status ≡ false)
            × (schedule org id at actor w ≡ (
              ok (record o { scheduled_at = at }),
              stepped w
                  (record o { scheduled_at = at })
                  (record {
                    work_order_id = o.id;
                    type = WorkOrderEventType.scheduled;
                    actor_id = some actor;
                  }),
            )))
  unfolding schedule
  schedule_outcome w org id at actor = elim (Option-cases (find_own w org id)) [
    | inl missing ↦ inl (not_found, rw (require_own_missing w org id missing) refl)
    | inr (o, found) ↦
        let (there, own, named) = find_own_sound w org id o found in
        let loaded = require_own_found w org id o found in
        let updated =
          update_work_order_found o.id (λ r. record r { scheduled_at = at }) w o
            (ap (order_at w) named ∙ there) in
        elim (Bool-cases (is_closed o.status)) [
          | inl closed ↦ inl (bad_request, rw (loaded, closed) refl)
          | inr active ↦ inr (o, there, named, active, rw (loaded, active, updated) refl)
        ]
  ]

  abbrev pub created_from : World db → ℕ → CreateWorkOrderInput → WorkOrder
  created_from w org input = new_work_order org (db.work_orders.fresh w.work_orders) w.now input

  pub create_outcome :
      (w : World db) (org : ℕ) (input : CreateWorkOrderInput)
      → (create org input w ≡ (err not_found, w))
        ⊎ (create org input w ≡ (
          ok (created_from w org input),
          stepped w (created_from w org input) (record {
            work_order_id = db.work_orders.fresh w.work_orders;
            type = WorkOrderEventType.created;
            actor_id = input.actor_id;
          }),
        ))
  unfolding create
  create_outcome w org input = elim (Bool-cases (owned_station w org input.station_id)) [
    | inl owned ↦ inr (rw owned refl)
    | inr foreign ↦ inl (rw foreign refl)
  ]
