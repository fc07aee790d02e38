-- ===== src/Examples/Acting.antt =====
-- The properties of actions at concrete states.
use forgeos_web.Base.{◌≡◌, refl, none, some, List, [], ◌∷◌}
use forgeos_web.Base.JsMap.{nat_eq, string_eq}
use forgeos_web.Base.Result.{err, bad_request}
use forgeos_web.Domain.{World}
use forgeos_web.Domain.Recommendation.{Action, ActionStatus, Recommendation, RecommendationType}
use forgeos_web.Examples.{sample_db, sample}
use forgeos_web.Actions.{ActionTransition, create_action, action_at, ActionInput}
use forgeos_web.Actions.Opening.{
  run_action_ops-Moves, create_action_leaves_open, transitions, with_action, run_action_ops,
  creates, ActionOp, opened_row,
}
use forgeos_web.Actions.Lifecycle.{GoesOn}

abbrev seen : Recommendation
seen = record { station_id = 5; type = RecommendationType.idle_connector; content = "idle" }

abbrev live : World sample_db → List Recommendation
live w = seen ∷ []

abbrev acknowledging : ActionInput
acknowledging = record {
  transition = ActionTransition.acknowledges;
  assigned_to_user_id = none;
  notes = none;
  snooze_minutes = none;
}

abbrev unexplained : ActionInput
unexplained = record acknowledging { transition = ActionTransition.resolves }

abbrev done_row : Action
done_row = record (opened_row sample 1 RecommendationType.idle_connector seen) {
  status = ActionStatus.dismissed;
}

abbrev requests : List ActionOp
requests =
    creates 1 5 RecommendationType.idle_connector acknowledging ∷ transitions 1 0 acknowledging ∷ []

run_action_ops-Moves_example :
    (b : Action) × (action_at (run_action_ops live requests (with_action sample done_row)) 0
      ≡ some b)
    × GoesOn done_row b
run_action_ops-Moves_example =
    run_action_ops-Moves live requests (with_action sample done_row) 0 done_row refl

create_action_leaves_open_example :
    create_action live 1 5 RecommendationType.idle_connector unexplained sample ≡ (
      err bad_request,
      with_action sample (opened_row sample 1 RecommendationType.idle_connector seen),
    )
unfolding forgeos_web.Actions.find_relevant
create_action_leaves_open_example =
    create_action_leaves_open live 1 5 RecommendationType.idle_connector unexplained sample seen
      refl refl refl refl
