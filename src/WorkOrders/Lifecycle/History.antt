-- ===== src/WorkOrders/Lifecycle/History.antt =====
-- The operations on work orders in sequence, the event log and the closed orders.
use Prim.Native.String.{String}
use forgeos_web.Base.{
  ℕ, ◌≡◌, inl, inr, refl, ap, ◌∙◌, true, Option, some, List, [], ◌∷◌, ◌==◌, arith, Bool-cases,
  includes,
}
use forgeos_web.Domain.{Database, World}
use forgeos_web.Domain.Work.{WorkOrder, WorkOrderEventType, WorkOrderStatus}
use forgeos_web.WorkOrders.Advancing.{advanced, advance_event}
use forgeos_web.WorkOrders.Automation.{resolve_recovered_connectivity_work_orders}
use forgeos_web.WorkOrders.Automation.Resolution.{resolve_recovered_outcome, closed_is_left}
use forgeos_web.WorkOrders.Automation.Logging.{resolve_recovered-IsRecorded}
use forgeos_web.WorkOrders.Lifecycle.Log.{after, IsRecorded, stepped-IsRecorded}
use forgeos_web.WorkOrders.{
  WorkOrderTransition, TransitionInput, CreateWorkOrderInput, create, transition, schedule,
  is_closed, transition_eq, valid_transitions,
}
use forgeos_web.WorkOrders.Lifecycle.{
  order_at, transition_outcome, schedule_outcome, create_outcome, created_from,
}

pub data WorkOrderOp : Type 0 where
  creates : (organization_id : ℕ) → CreateWorkOrderInput → WorkOrderOp
  transitions : (organization_id id : ℕ) → TransitionInput → WorkOrderOp
  schedules : (organization_id id : ℕ) → Option ℕ → (actor_id : ℕ) → WorkOrderOp
  resolves_recovered : WorkOrderOp

advance-agrees :
    (now : ℕ) (o : WorkOrder) (input : TransitionInput)
    → after (advance_event o input).type o.status ≡ (advanced now input o).status
advance-agrees now o input = ground arith

valid_none :
    (s : WorkOrderStatus) (t : WorkOrderTransition)
    → is_closed s ≡ true
    → includes transition_eq (valid_transitions s) t ≡ true
    → ⊥
valid_none s t closed valid = ground arith

module _ {db : Database} where
  module _ (tl : String → ℕ) where
    abbrev pub run_work_op : WorkOrderOp → World db → World db
    run_work_op (creates org input) w = (create org input w).1
    run_work_op (transitions org id input) w = (transition tl org id input w).1
    run_work_op (schedules org id at actor) w = (schedule org id at actor w).1
    run_work_op resolves_recovered w = (resolve_recovered_connectivity_work_orders w).1

    transitions-IsRecorded :
        (w : World db) (org id : ℕ) (input : TransitionInput)
        → IsRecorded w
        → IsRecorded (transition tl org id input w).1
    transitions-IsRecorded w org id input recorded = elim (transition_outcome tl w org id input) [
      | inl (e, refused) ↦ rw refused recorded
      | inr (o, done) ↦ rw done.done (
          stepped-IsRecorded w (advanced w.now input o) (advance_event o input) refl
            (ap (after (advance_event o input).type)
                (recorded o.id o (ap (order_at w) done.named ∙ done.there))
              ∙ advance-agrees w.now o input)
            recorded)
    ]

    -- Whatever one operation does, the log tells every work order's status afterwards if it did
    -- before.
    pub run_work_op-IsRecorded :
        (op : WorkOrderOp) (w : World db) → IsRecorded w → IsRecorded (run_work_op op w)
    run_work_op-IsRecorded (creates org input) w recorded = elim (create_outcome w org input) [
      | inl refused ↦ rw (refused, run_work_op) recorded
      | inr made ↦
          rw (made, run_work_op)
            (stepped-IsRecorded w (created_from w org input)
              (record {
                work_order_id = (created_from w org input).id;
                type = WorkOrderEventType.created;
                actor_id = input.actor_id;
              })
              refl refl recorded)
    ]
    run_work_op-IsRecorded (transitions org id input) w recorded =
        transitions-IsRecorded w org id input recorded
    run_work_op-IsRecorded (schedules org id at actor) w recorded =
        elim (schedule_outcome w org id at actor) [
          | inl (e, refused) ↦ rw (refused, run_work_op) recorded
          | inr (o, there, named, active, done) ↦
              rw (done, run_work_op)
                (stepped-IsRecorded w (record o { scheduled_at = at })
                  (record {
                    work_order_id = o.id;
                    type = WorkOrderEventType.scheduled;
                    actor_id = some actor;
                  })
                  refl (recorded o.id o (ap (order_at w) named ∙ there)) recorded)
        ]
    run_work_op-IsRecorded resolves_recovered w recorded = resolve_recovered-IsRecorded w recorded

    abbrev pub run_work_ops : List WorkOrderOp → World db → World db
    run_work_ops [] w = w
    run_work_ops (op ∷ ops) w = run_work_ops ops (run_work_op op w)

    -- From a state in which the event log tells every work order's status (an empty table, say),
    -- any sequence of creations, transitions, schedulings and sweeps of recovered outages leads to one
    -- in which it does.
    pub run_work_ops-IsRecorded :
        (ops : List WorkOrderOp) (w : World db) → IsRecorded w → IsRecorded (run_work_ops ops w)
    run_work_ops-IsRecorded [] w recorded = recorded
    run_work_ops-IsRecorded (op ∷ ops) w recorded =
        run_work_ops-IsRecorded ops (run_work_op op w) (run_work_op-IsRecorded op w recorded)

    -- A RESOLVED or CANCELLED work order is final: its row stays as it is under every creation,
    -- transition, scheduling and sweep of recovered outages.
    pub closed_is_final :
        (op : WorkOrderOp) (w : World db) (id : ℕ) (o : WorkOrder)
        → order_at w id ≡ some o
        → is_closed o.status ≡ true
        → order_at (run_work_op op w) id ≡ some o
    closed_is_final (creates org input) w id o there closed = elim (create_outcome w org input) [
      | inl refused ↦ rw (refused, run_work_op) there
      | inr made ↦
          rw (made, run_work_op)
            (ground (
              arith,
              there,
              db.work_orders.fresh_free w.work_orders,
              db.work_orders.find_unique-put w.work_orders (created_from w org input) id,
            ))
    ]
    closed_is_final (transitions org k input) w id o there closed =
        elim (transition_outcome tl w org k input) [
          | inl (e, refused) ↦ rw (refused, run_work_op) there
          | inr (r, done) ↦
              rw (done.done, run_work_op)
                (elim (Bool-cases (r.id == id)) [
                  | inl same ↦ absurd (
                      valid_none r.status input.transition
                        (ground (arith, done.there, done.named, there, closed)) done.valid)
                  | inr other ↦ ground (
                    arith,
                    there,
                    db.work_orders.find_unique-put w.work_orders (advanced w.now input r) id,
                  )
                ])
        ]
    closed_is_final (schedules org k at actor) w id o there closed =
        elim (schedule_outcome w org k at actor) [
          | inl (e, refused) ↦ rw (refused, run_work_op) there
          | inr (r, at_k, named, active, done) ↦
              rw (done, run_work_op)
                (ground (
                  arith,
                  there,
                  at_k,
                  named,
                  active,
                  closed,
                  db.work_orders.find_unique-put w.work_orders (record r { scheduled_at = at }) id,
                ))
        ]
    closed_is_final resolves_recovered w id o there closed =
        let (done, w', swept, rows) = resolve_recovered_outcome w in
        rw (swept, run_work_op) (rows id ∙ rw there (ap some (closed_is_left w o closed)))
