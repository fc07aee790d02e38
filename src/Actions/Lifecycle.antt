-- ===== src/Actions/Lifecycle.antt =====
-- What requests do to the stored actions.
use Prim.Native.String.{String}
use forgeos_web.Base.{
  ℕ, ◌≤◌, ◌∙◌, ◌≡◌, refl, sym, ap, inl, inr, true, false, ◌||◌, not, Option, none, some, ◌==◌, ltb,
  arith, Bool-cases, ==_iff,
}
use forgeos_web.Base.JsMap.{nat_eq, string_eq}
use forgeos_web.Base.Result.{ok, Exec, ◌>>◌}
use forgeos_web.Domain.{Database, World}
use forgeos_web.Domain.Recommendation.{Action, ActionStatus}
use forgeos_web.Actions.{
  has_member, is_assigning, assert_action_assignee, transition_action, transition_found,
  assert_action_transition, apply_by, ActionInput, apply_action_transition, ActionTransition,
  allows, acknowledged_when_open, week_minutes, is_missing, snooze_action, close_action,
  update_action, action_at, is_terminal_action,
}

abbrev rank : ActionStatus → ℕ
rank ActionStatus.opened = 0
rank ActionStatus.acknowledged = 1
rank ActionStatus.assigned = 2
rank ActionStatus.resolved = 3
rank ActionStatus.dismissed = 3

-- The copy of the recommendation stays, the status does not go back, and a closed action stays as it is.
pub record GoesOn (a b : Action) : Type 0 where
  pub same_id : b.id ≡ a.id
  pub same_organization : b.organization_id ≡ a.organization_id
  pub same_station : b.charging_station_id ≡ a.charging_station_id
  pub same_type : b.recommendation_type ≡ a.recommendation_type
  pub same_content : b.content ≡ a.content
  pub forward : rank a.status ≤ rank b.status
  pub closed_stays : is_terminal_action a.status ≡ true → b ≡ a

pub GoesOn-refl : (a : Action) → GoesOn a a
GoesOn-refl a = record {
  same_id = refl;
  same_organization = refl;
  same_station = refl;
  same_type = refl;
  same_content = refl;
  forward = omega arith;
  closed_stays = λ e. refl;
}

GoesOn-trans : (a b c : Action) → GoesOn a b → GoesOn b c → GoesOn a c
GoesOn-trans a b c h g = record {
  same_id = g.same_id ∙ h.same_id;
  same_organization = g.same_organization ∙ h.same_organization;
  same_station = g.same_station ∙ h.same_station;
  same_type = g.same_type ∙ h.same_type;
  same_content = g.same_content ∙ h.same_content;
  forward = omega (arith, h.forward, g.forward);
  closed_stays = λ e.
      let still = h.closed_stays e in
      let over : is_terminal_action b.status ≡ true =
        ap (λ x. is_terminal_action x.status) still ∙ e in
      g.closed_stays over ∙ still;
}

clash : (s : ActionStatus) → is_terminal_action s ≡ true → is_terminal_action s ≡ false → ⊥
clash s e f = cc

-- A write to an action that is not closed, of any fields but those of the copy.
going-GoesOn :
    (a b : Action)
    → is_terminal_action a.status ≡ false
    → rank a.status ≤ rank b.status
    → b.id ≡ a.id
    → b.organization_id ≡ a.organization_id
    → b.charging_station_id ≡ a.charging_station_id
    → b.recommendation_type ≡ a.recommendation_type
    → b.content ≡ a.content
    → GoesOn a b
going-GoesOn a b going forward p q r s t = record {
  same_id = p;
  same_organization = q;
  same_station = r;
  same_type = s;
  same_content = t;
  forward = forward;
  closed_stays = λ e. absurd (clash a.status e going);
}

rank_bounded : (s : ActionStatus) → rank s ≤ 3
rank_bounded s = ground arith

rank-acknowledged_when_open : (s : ActionStatus) → rank s ≤ rank (acknowledged_when_open s)
rank-acknowledged_when_open s = ground arith

acknowledging : (s : ActionStatus) → allows s ActionTransition.acknowledges ≡ true → rank s ≤ 1
acknowledging s h = ground arith

assigning : (s : ActionStatus) → allows s ActionTransition.assigns ≡ true → rank s ≤ 2
assigning s h = ground arith

allowed_going :
    (s : ActionStatus) (t : ActionTransition) → allows s t ≡ true → is_terminal_action s ≡ false
allowed_going s t h = ground arith

module _ {db : Database} where
  abbrev pub Moves : World db → World db → Type 0
  Moves w w' =
      (i : ℕ) (a : Action)
      → action_at w i ≡ some a
      → (b : Action) × (action_at w' i ≡ some b) × GoesOn a b

  pub Moves-refl : (w : World db) → Moves w w
  Moves-refl w i a there = (a, there, GoesOn-refl a)

  pub Moves-trans : (u v w : World db) → Moves u v → Moves v w → Moves u w
  Moves-trans u v w h g i a there =
      let (b, at_b, on) = h i a there in
      let (c, at_c, on') = g i b at_b in (c, at_c, GoesOn-trans a b c on on')

  pub update_action_found :
      (id : ℕ) (change : Action → Action) (w : World db) (a : Action)
      → action_at w id ≡ some a
      → let row : Action = record (change a) { updated_at = w.now } in
        update_action id change w ≡ (ok row, record w { actions = db.actions.put w.actions row })
  unfolding update_action
  update_action_found id change w a there = rw (there, update_action) refl

  update_action-Moves :
      (id : ℕ) (change : Action → Action) (w : World db) (a : Action)
      → action_at w id ≡ some a
      → GoesOn a (record (change a) { updated_at = w.now })
      → Moves w (update_action id change w).1
  update_action-Moves id change w a there on i b at_b =
      let row : Action = record (change a) { updated_at = w.now } in
      let own : a.id ≡ id = db.actions.find_unique_key w.actions id a there in
      rw (update_action_found id change w a there) (elim (Bool-cases (row.id == i)) [
        | inl e ↦
            let here : id ≡ i = sym own ∙ (sym on.same_id ∙ (==_iff row.id i).0 e) in
            let same : b ≡ a = cc (here, there, at_b) in
            (row, db.actions.find_unique-put w.actions row i ∙ rw e refl, rw same on)
        | inr e ↦ (b, db.actions.find_unique-put w.actions row i ∙ rw e at_b, GoesOn-refl b)
      ])

  close_action-Moves :
      (a : Action) (status : ActionStatus) (notes : Option String) (w : World db)
      → action_at w a.id ≡ some a
      → is_terminal_action a.status ≡ false
      → rank status ≡ 3
      → Moves w (close_action a status notes w).1
  unfolding close_action
  close_action-Moves a status notes w there going last_ = elim (Bool-cases (is_missing notes)) [
    | inl e ↦ rw e (Moves-refl w)
    | inr e ↦ rw e (
        update_action-Moves a.id _ w a there (
          going-GoesOn a _ going (omega (arith, rank_bounded a.status, last_)) refl refl refl refl
            refl))
  ]

  snooze_action-Moves :
      (a : Action) (minutes : ℕ) (w : World db)
      → action_at w a.id ≡ some a
      → is_terminal_action a.status ≡ false
      → Moves w (snooze_action a minutes w).1
  unfolding snooze_action
  snooze_action-Moves a minutes w there going =
      elim (Bool-cases (ltb minutes 1 || ltb week_minutes minutes)) [
        | inl e ↦ rw e (Moves-refl w)
        | inr e ↦ rw e (
            update_action-Moves a.id _ w a there (
              going-GoesOn a _ going (rank-acknowledged_when_open a.status) refl refl refl refl
                refl))
      ]

  apply_by-Moves :
      (t : ActionTransition) (a : Action) (input : ActionInput) (w : World db)
      → action_at w a.id ≡ some a
      → allows a.status t ≡ true
      → Moves w (apply_by t a input w).1
  unfolding apply_by
  apply_by-Moves ActionTransition.acknowledges a input w there allowed =
      update_action-Moves a.id _ w a there (
        going-GoesOn a _ (allowed_going a.status ActionTransition.acknowledges allowed)
          (acknowledging a.status allowed) refl refl refl refl refl)
  apply_by-Moves ActionTransition.assigns a input w there allowed =
      update_action-Moves a.id _ w a there (
        going-GoesOn a _ (allowed_going a.status ActionTransition.assigns allowed)
          (assigning a.status allowed) refl refl refl refl refl)
  apply_by-Moves ActionTransition.snoozes a input w there allowed =
      snooze_action-Moves a _ w there (allowed_going a.status ActionTransition.snoozes allowed)
  apply_by-Moves ActionTransition.resolves a input w there allowed =
      close_action-Moves a _ _ w there (allowed_going a.status ActionTransition.resolves allowed)
        refl
  apply_by-Moves ActionTransition.dismisses a input w there allowed =
      close_action-Moves a _ _ w there (allowed_going a.status ActionTransition.dismisses allowed)
        refl

  pub apply-Moves :
      (a : Action) (input : ActionInput) (w : World db)
      → action_at w a.id ≡ some a
      → allows a.status input.transition ≡ true
      → Moves w (apply_action_transition a input w).1
  unfolding apply_action_transition
  apply-Moves a input w there allowed = apply_by-Moves input.transition a input w there allowed

  -- The two checks change nothing: what follows them runs in the same state or not at all.
  pub checked-Moves :
      (organization_id : ℕ) (from : ActionStatus) (input : ActionInput) (k : Exec (World db) Action)
      (w : World db)
      → (allows from input.transition ≡ true → Moves w (k w).1)
      → Moves w
          ((do
            assert_action_transition from input.transition
            assert_action_assignee organization_id input
            k)
            w).1
  unfolding assert_action_transition assert_action_assignee
  checked-Moves organization_id from input k w h =
      elim (Bool-cases (allows from input.transition)) [
        | inr refused ↦ rw refused (Moves-refl w)
        | inl allowed ↦
            rw allowed
              (elim (Bool-cases (
                not (is_assigning input.transition)
                || has_member organization_id input.assigned_to_user_id w)) [
                  | inl known ↦ rw known (h allowed)
                  | inr unknown ↦ rw unknown (Moves-refl w)
                ])
      ]

  transition_found-Moves :
      (organization_id : ℕ) (found : Option Action) (input : ActionInput) (w : World db)
      → ((a : Action) → found ≡ some a → action_at w a.id ≡ some a)
      → Moves w (transition_found organization_id found input w).1
  unfolding transition_found
  transition_found-Moves organization_id none input w there = Moves-refl w
  transition_found-Moves organization_id (some a) input w there =
      checked-Moves organization_id a.status input (apply_action_transition a input) w
        (apply-Moves a input w (there a refl))

  pub transition_action-Moves :
      (organization_id action_id : ℕ) (input : ActionInput) (w : World db)
      → Moves w (transition_action organization_id action_id input w).1
  unfolding transition_action
  transition_action-Moves organization_id action_id input w =
      transition_found-Moves organization_id _ input w
        (λ a e. (db.actions.find_first_sound w.actions _ a e).0)
