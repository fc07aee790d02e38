-- ===== src/Actions.antt =====
-- apps/movos-api/src/recommendations/action.service.ts: what operators do about recommendations. The
-- live recommendations are a parameter: their derivation is another service.
pub mod Lifecycle
pub mod Opening
use Prim.Native.String.{String}
use forgeos_web.Base.{
  ℕ, zero, suc, ◌+◌, ◌-◌, ◌*◌, ◌≤◌, ◌<◌, ◌∙◌, ◌≡◌, ◌≢◌, refl, sym, ap, ◌⊎◌, inl, inr, ◌↔◌, Bool,
  true, false, ◌&&◌, ◌||◌, not, Option, none, some, List, [], ◌∷◌, ◌++◌, ◌==◌, ltb, leb, includes,
  length, is_none, is_some_of, if◌then◌else◌, arith, Bool-cases, Option-cases, ==_iff, ==_self, All,
}
use forgeos_web.Base.Int.{ℤ, pos, negsuc, ◌-ℤ◌, ◌≤ℤ◌, ltb_ℤ}
use forgeos_web.Base.Decimal.{Decimal}
use forgeos_web.Base.JsMap
use forgeos_web.Base.JsMap.{JsMap, nat_eq, string_eq, get-put, get-remove}
use forgeos_web.Base.Result.{
  Result, ok, err, Error, not_found, conflict, bad_request, invalid_transition, Exec, ◌>>=◌, ◌>>◌,
  pure, throw, gets, modify, Result-cases, ok_inj, ok_ne_err, bind_result,
}
use forgeos_web.Domain.{Database, World, record_audit}
use forgeos_web.Domain.Work.{is_active}
use forgeos_web.Domain.Recommendation.{
  Action, ActionStatus, Recommendation, RecommendationType, type_eq,
}

-- sixty minutes
abbrev cooldown_ms : ℕ
cooldown_ms = 3600000

abbrev pub week_minutes : ℕ
week_minutes = 10080

pub data ActionTransition : Type 0 where
  acknowledges assigns snoozes resolves dismisses : ActionTransition

pub record ActionInput : Type 0 where
  pub transition : ActionTransition
  pub assigned_to_user_id : Option ℕ
  pub notes : Option String
  pub snooze_minutes : Option ℕ

abbrev pub is_terminal_action : ActionStatus → Bool
is_terminal_action ActionStatus.resolved = true
is_terminal_action ActionStatus.dismissed = true
is_terminal_action status = false

abbrev is_acknowledging : ActionTransition → Bool
is_acknowledging ActionTransition.acknowledges = true
is_acknowledging t = false

abbrev pub is_assigning : ActionTransition → Bool
is_assigning ActionTransition.assigns = true
is_assigning t = false

-- The table of transitions.
abbrev pub allows : ActionStatus → ActionTransition → Bool
allows ActionStatus.opened t = true
allows ActionStatus.acknowledged t = not (is_acknowledging t)
allows ActionStatus.assigned t = not (is_acknowledging t) && not (is_assigning t)
allows ActionStatus.resolved t = false
allows ActionStatus.dismissed t = false

abbrev pub or_sixty : Option ℕ → ℕ
or_sixty none = 60
or_sixty (some minutes) = minutes

-- `!notes`
abbrev pub is_missing : Option String → Bool
is_missing none = true
is_missing (some t) = string_eq.beq t ""

abbrev pub acknowledged_when_open : ActionStatus → ActionStatus
acknowledged_when_open ActionStatus.opened = ActionStatus.acknowledged
acknowledged_when_open status = status

abbrev pub concerns : ℕ → ℕ → RecommendationType → Action → Bool
concerns organization_id station_id type a =
    a.organization_id == organization_id
    && (a.charging_station_id == station_id && type_eq a.recommendation_type type)

-- The first of the newest rows.
newest : List Action → Option Action
newest [] = none
newest (a ∷ rest) = elim (newest rest) [
  | none ↦ some a
  | some b ↦ if leb b.created_at a.created_at then some a else some b
]

abbrev closed_at : Action → ℕ
closed_at a = elim a.resolved_at [ none ↦ a.updated_at | some t ↦ t ]

abbrev pub still_relevant : ℕ → Option Action → Option Action
still_relevant now none = none
still_relevant now (some a) =
    if not (is_terminal_action a.status)
    then some a
    else if ltb now (closed_at a + cooldown_ms)
    then some a
    else none

abbrev pub find_match : ℕ → RecommendationType → List Recommendation → Option Recommendation
find_match station_id type [] = none
find_match station_id type (r ∷ rest) =
    if type_eq r.type type && r.station_id == station_id
    then some r
    else find_match station_id type rest

-- The row that a request works on further, if there is one.
abbrev pub open_one : Option Action → Option Action
open_one none = none
open_one (some a) = if is_terminal_action a.status then none else some a

module _ {db : Database} where
  abbrev pub action_at : World db → ℕ → Option Action
  action_at w id = db.actions.find_unique w.actions id

  unfoldable pub find_relevant :
      (organization_id station_id : ℕ) → RecommendationType → World db → Option Action
  unfolding newest
  find_relevant organization_id station_id type w =
      still_relevant w.now
        (newest (db.actions.find_many w.actions (concerns organization_id station_id type)))

  unfoldable pub update_action : ℕ → (Action → Action) → Exec (World db) Action
  update_action id change w = elim (action_at w id) [
    | none ↦ (err not_found, w)
    | some row ↦
        let row' = record (change row) { updated_at = w.now } in
        (ok row', record w { actions = db.actions.put w.actions row' })
  ]

  unfoldable pub close_action : Action → ActionStatus → Option String → Exec (World db) Action
  close_action action status notes = do
    now ← gets (λ w. w.now)
    if is_missing notes
        then throw bad_request
        else update_action action.id
            (λ a. record a { status = status; notes = notes; resolved_at = some now })

  unfoldable pub snooze_action : Action → (minutes : ℕ) → Exec (World db) Action
  snooze_action action minutes = do
    now ← gets (λ w. w.now)
    if ltb minutes 1 || ltb week_minutes minutes
        then throw bad_request
        else update_action action.id (λ a. record a {
          snoozed_until = some (now + minutes * 60000);
          status = acknowledged_when_open action.status;
        })

  unfoldable pub apply_by : ActionTransition → Action → ActionInput → Exec (World db) Action
  apply_by ActionTransition.acknowledges action input =
      update_action action.id (λ a. record a { status = ActionStatus.acknowledged })
  apply_by ActionTransition.assigns action input = update_action action.id (λ a. record a {
    status = ActionStatus.assigned;
    assigned_to_user_id = input.assigned_to_user_id;
  })
  apply_by ActionTransition.snoozes action input =
      snooze_action action (or_sixty input.snooze_minutes)
  apply_by ActionTransition.resolves action input =
      close_action action ActionStatus.resolved input.notes
  apply_by ActionTransition.dismisses action input =
      close_action action ActionStatus.dismissed input.notes

  unfoldable pub apply_action_transition : Action → ActionInput → Exec (World db) Action
  unfolding apply_by
  apply_action_transition action input = apply_by input.transition action input

  unfoldable pub assert_action_transition :
      ActionStatus → ActionTransition → Exec (World db) (Unit {0})
  assert_action_transition from t = if allows from t then pure tt else throw conflict

  abbrev pub has_member : (organization_id : ℕ) → Option ℕ → World db → Bool
  has_member organization_id none w = false
  has_member organization_id (some user) w = not (
      is_none (
        db.memberships.find_first w.memberships
          (λ m. m.user_id == user && (m.organization_id == organization_id && is_active m.status))))

  unfoldable pub assert_action_assignee :
      (organization_id : ℕ) → ActionInput → Exec (World db) (Unit {0})
  assert_action_assignee organization_id input = do
    known ← gets (has_member organization_id input.assigned_to_user_id)
    if not (is_assigning input.transition) || known then pure tt else throw bad_request

  unfoldable pub transition_found :
      (organization_id : ℕ) → Option Action → ActionInput → Exec (World db) Action
  transition_found organization_id none input = throw not_found
  transition_found organization_id (some action) input = do
    assert_action_transition action.status input.transition
    assert_action_assignee organization_id input
    apply_action_transition action input

  unfoldable pub transition_action :
      (organization_id action_id : ℕ) → ActionInput → Exec (World db) Action
  transition_action organization_id action_id input = do
    action ← gets (λ w.
        db.actions.find_first w.actions
          (λ a. a.id == action_id && a.organization_id == organization_id))
    transition_found organization_id action input

  unfoldable pub insert_action :
      (organization_id : ℕ) → RecommendationType → Recommendation → Exec (World db) Action
  insert_action organization_id type r w =
      let row : Action = record {
        id = db.actions.fresh w.actions;
        organization_id = organization_id;
        charging_station_id = r.station_id;
        recommendation_type = type;
        content = r.content;
        status = ActionStatus.opened;
        assigned_to_user_id = none;
        snoozed_until = none;
        notes = none;
        created_at = w.now;
        updated_at = w.now;
        resolved_at = none;
      } in
      (ok row, record w { actions = db.actions.put w.actions row })

  unfoldable pub create_from :
      (organization_id : ℕ)
      → RecommendationType
      → Option Recommendation
      → ActionInput
      → Exec (World db) Action
  create_from organization_id type none input = throw not_found
  create_from organization_id type (some r) input = do
    assert_action_transition ActionStatus.opened input.transition
    assert_action_assignee organization_id input
    created ← insert_action organization_id type r
    apply_action_transition created input

  unfoldable pub create_or_transition :
      (live : World db → List Recommendation)
      → (organization_id station_id : ℕ) → RecommendationType
      → Option Action
      → ActionInput
      → Exec (World db) Action
  create_or_transition live organization_id station_id type (some a) input =
      transition_action organization_id a.id input
  create_or_transition live organization_id station_id type none input = do
    found ← gets (λ w. find_match station_id type (live w))
    create_from organization_id type found input

  unfoldable pub create_action :
      (live : World db → List Recommendation)
      → (organization_id station_id : ℕ) → RecommendationType
      → ActionInput
      → Exec (World db) Action
  create_action live organization_id station_id type input = do
    existing ← gets (find_relevant organization_id station_id type)
    create_or_transition live organization_id station_id type (open_one existing) input
