-- ===== src/Actions/Opening.antt =====
-- The first request about a recommendation, and all requests in sequence.
use forgeos_web.Base.{
  ℕ, ◌∙◌, ◌≡◌, refl, ap, inl, inr, true, Option, none, some, List, [], ◌∷◌, ◌==◌, Bool-cases,
  ==_iff, ==_self,
}
use forgeos_web.Base.JsMap.{nat_eq, string_eq}
use forgeos_web.Base.Result.{ok, err, bad_request, ◌>>=◌}
use forgeos_web.Domain.{Database, World}
use forgeos_web.Domain.Recommendation.{Action, ActionStatus, Recommendation, RecommendationType}
use forgeos_web.Actions.{
  is_missing, ActionTransition, find_match, find_relevant, close_action, apply_by,
  apply_action_transition, assert_action_assignee, assert_action_transition, transition_action,
  create_action, create_or_transition, create_from, insert_action, action_at, ActionInput,
}
use forgeos_web.Actions.Lifecycle.{
  apply-Moves, Moves-trans, checked-Moves, GoesOn, transition_action-Moves, Moves-refl, GoesOn-refl,
  Moves,
}

-- The row that is inserted.
abbrev pub opened_row :
    {db : Database} → World db → ℕ → RecommendationType → Recommendation → Action
opened_row {db} w organization_id type r = record {
  id = db.actions.fresh w.actions;
  organization_id = organization_id;
  charging_station_id = r.station_id;
  recommendation_type = type;
  content = r.content;
  status = ActionStatus.opened;
  assigned_to_user_id = none;
  snoozed_until = none;
  notes = none;
  created_at = w.now;
  updated_at = w.now;
  resolved_at = none;
}

pub data ActionOp : Type 0 where
  creates : (organization_id station_id : ℕ) → RecommendationType → ActionInput → ActionOp
  transitions : (organization_id action_id : ℕ) → ActionInput → ActionOp

fresh_clash : {o : Option Action} (a : Action) → o ≡ none → o ≡ some a → ⊥
fresh_clash a e f = cc

module _ {db : Database} where
  abbrev pub with_action : World db → Action → World db
  with_action w a = record w { actions = db.actions.put w.actions a }

  with_opened-Moves :
      (w : World db) (organization_id : ℕ) (type : RecommendationType) (r : Recommendation)
      → Moves w (with_action w (opened_row w organization_id type r))
  with_opened-Moves w organization_id type r i a there =
      let row = opened_row w organization_id type r in
      elim (Bool-cases (row.id == i)) [
        | inl e ↦ absurd (
            fresh_clash a (db.actions.fresh_free w.actions)
              (ap (action_at w) ((==_iff row.id i).0 e) ∙ there))
        | inr e ↦ (a, db.actions.find_unique-put w.actions row i ∙ rw e there, GoesOn-refl a)
      ]

  opened_there : (w : World db) (row : Action) → action_at (with_action w row) row.id ≡ some row
  opened_there w row = db.actions.find_unique-put w.actions row row.id ∙ rw (==_self row.id) refl

  insert_run :
      (organization_id : ℕ) (type : RecommendationType) (r : Recommendation) (w : World db)
      → let row = opened_row w organization_id type r in
        insert_action organization_id type r w ≡ (ok row, with_action w row)
  unfolding insert_action
  insert_run organization_id type r w = refl

  create_from-Moves :
      (organization_id : ℕ) (type : RecommendationType) (found : Option Recommendation)
      (input : ActionInput) (w : World db)
      → Moves w (create_from organization_id type found input w).1
  unfolding create_from
  create_from-Moves organization_id type none input w = Moves-refl w
  create_from-Moves organization_id type (some r) input w =
      let row = opened_row w organization_id type r in
      let v = with_action w row in
      checked-Moves organization_id ActionStatus.opened input
        (insert_action organization_id type r >>= λ created. apply_action_transition created input)
        w
        (λ allowed. rw (insert_run organization_id type r w) (
          Moves-trans w v (apply_action_transition row input v).1
            (with_opened-Moves w organization_id type r)
            (apply-Moves row input v (opened_there w row) allowed)))

  module _ (live : World db → List Recommendation) where
    create_or_transition-Moves :
        (organization_id station_id : ℕ) (type : RecommendationType) (found : Option Action)
        (input : ActionInput) (w : World db)
        → Moves w (create_or_transition live organization_id station_id type found input w).1
    unfolding create_or_transition
    create_or_transition-Moves organization_id station_id type (some a) input w =
        transition_action-Moves organization_id a.id input w
    create_or_transition-Moves organization_id station_id type none input w =
        create_from-Moves organization_id type _ input w

    abbrev pub run_action_op : ActionOp → World db → World db
    run_action_op (creates organization_id station_id type input) w =
        (create_action live organization_id station_id type input w).1
    run_action_op (transitions organization_id action_id input) w =
        (transition_action organization_id action_id input w).1

    run_action_op-Moves : (op : ActionOp) (w : World db) → Moves w (run_action_op op w)
    unfolding create_action
    run_action_op-Moves (creates organization_id station_id type input) w =
        create_or_transition-Moves organization_id station_id type _ input w
    run_action_op-Moves (transitions organization_id action_id input) w =
        transition_action-Moves organization_id action_id input w

    abbrev pub run_action_ops : List ActionOp → World db → World db
    run_action_ops [] w = w
    run_action_ops (op ∷ ops) w = run_action_ops ops (run_action_op op w)

    -- Whatever operators request, in whatever order and whether it succeeds or throws, no action is
    -- lost, its copy of the recommendation is never written again, its status only goes on from
    -- open to acknowledged to assigned to closed, and a closed action stays as it is.
    pub run_action_ops-Moves :
        (ops : List ActionOp) (w : World db) (i : ℕ) (a : Action)
        → action_at w i ≡ some a
        → (b : Action) × (action_at (run_action_ops ops w) i ≡ some b) × GoesOn a b
    run_action_ops-Moves [] w i a there = (a, there, GoesOn-refl a)
    run_action_ops-Moves (op ∷ ops) w i a there =
        Moves-trans w (run_action_op op w) (run_action_ops ops (run_action_op op w))
          (run_action_op-Moves op w) (run_action_ops-Moves ops (run_action_op op w)) i a there

    -- A first request to resolve a live recommendation without a note throws, but only after its row was
    -- inserted: the row stays stored as OPEN.
    pub create_action_leaves_open :
        (organization_id station_id : ℕ) (type : RecommendationType) (input : ActionInput)
        (w : World db) (r : Recommendation)
        → find_relevant organization_id station_id type w ≡ none
        → find_match station_id type (live w) ≡ some r
        → input.transition ≡ ActionTransition.resolves
        → is_missing input.notes ≡ true
        → create_action live organization_id station_id type input w
          ≡ (err bad_request, with_action w (opened_row w organization_id type r))
    unfolding create_action create_or_transition create_from assert_action_transition
        assert_action_assignee insert_action apply_action_transition apply_by close_action
    create_action_leaves_open organization_id station_id type input w r fresh_ matched resolving
          missing =
        rw (fresh_, matched, resolving, missing) refl
