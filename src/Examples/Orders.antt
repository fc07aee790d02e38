-- ===== src/Examples/Orders.antt =====
-- The properties of work orders at concrete states.
use forgeos_web.Base.{ℕ, ◌≡◌, ◌⊎◌, refl, none, some, List, [], ◌∷◌, arith}
use mathlib.Core.Option
use Prim.Native.String.{String}
use forgeos_web.Base.Result.{ok, err, Error}
use forgeos_web.Domain.{World}
use forgeos_web.Domain.Station.{ChargingStation, ConnectivityStatus}
use forgeos_web.Domain.Work.{WorkOrder, WorkOrderStatus, WorkOrderSource}
use forgeos_web.WorkOrders.{TransitionInput, WorkOrderTransition, transition}
use forgeos_web.WorkOrders.Lifecycle.{Advances, order_at, transition_outcome}
use forgeos_web.WorkOrders.Lifecycle.History.{
  WorkOrderOp, run_work_op, run_work_ops, run_work_ops-IsRecorded, closed_is_final,
}
use forgeos_web.WorkOrders.Lifecycle.Log.{IsRecorded}
use forgeos_web.WorkOrders.Automation.{
  create_if_not_duplicate, resolve_recovered_connectivity_work_orders,
}
use forgeos_web.WorkOrders.Automation.Resolution.{after_sweep, resolve_recovered_outcome}
use forgeos_web.WorkOrders.Automation.Episodes.{
  EpisodeStep, works, passes, run_episode, create_if_not_duplicate_once,
}
use forgeos_web.Examples.{sample_db, station_of, order_of, sample}

abbrev text_length : String → ℕ
text_length t = 30

abbrev cancelling : TransitionInput
cancelling = record {
  transition = WorkOrderTransition.cancel;
  assigned_member_id = none;
  comment = some "duplicada";
  actor_id = some 9;
}

transition_outcome_example :
    ((e : Error) × (transition text_length 1 1 cancelling sample ≡ (err e, sample)))
    ⊎ ((o : WorkOrder) × Advances text_length sample 1 1 cancelling o)
transition_outcome_example = transition_outcome text_length sample 1 1 cancelling

abbrev some_ops : List WorkOrderOp
some_ops =
    WorkOrderOp.transitions 1 1 cancelling
    ∷ WorkOrderOp.schedules 1 2 (some 2000) 9
    ∷ WorkOrderOp.resolves_recovered
    ∷ []

sample-IsRecorded : IsRecorded sample
sample-IsRecorded id o there = ground arith

run_work_ops-IsRecorded_example : IsRecorded (run_work_ops text_length some_ops sample)
run_work_ops-IsRecorded_example =
    run_work_ops-IsRecorded text_length some_ops sample sample-IsRecorded

closed_is_final_example :
    order_at (run_work_op text_length (WorkOrderOp.transitions 1 2 cancelling) sample) 2
    ≡ some (order_of 2 WorkOrderStatus.resolved)
closed_is_final_example =
    closed_is_final text_length (WorkOrderOp.transitions 1 2 cancelling) sample 2
      (order_of 2 WorkOrderStatus.resolved) refl refl

resolve_recovered_outcome_example :
    (done : List WorkOrder) × (w' : World sample_db) × (resolve_recovered_connectivity_work_orders
        sample
      ≡ (ok done, w'))
    × ((j : ℕ) → order_at w' j ≡ Option.map (after_sweep sample) (order_at sample j))
resolve_recovered_outcome_example = resolve_recovered_outcome sample

abbrev named_text : ChargingStation → String
named_text s = "Estación"

abbrev lost : ChargingStation
lost = record (station_of ConnectivityStatus.offline) { last_disconnected_at = some 50 }

abbrev later_steps : List EpisodeStep
later_steps =
    works (WorkOrderOp.transitions 1 1 cancelling)
    ∷ passes 2000
    ∷ works WorkOrderOp.resolves_recovered
    ∷ []

create_if_not_duplicate_once_example :
    let w' = (create_if_not_duplicate named_text named_text lost sample).1 in
    let later = run_episode named_text named_text text_length later_steps w' in
    ((id : ℕ) × (o : WorkOrder) × (order_at w' id ≡ some o)
      × (o.station_id ≡ lost.id)
      × (o.source ≡ WorkOrderSource.connectivity_loss))
    × (create_if_not_duplicate named_text named_text lost later ≡ (ok tt, later))
create_if_not_duplicate_once_example =
    create_if_not_duplicate_once named_text named_text text_length sample lost later_steps refl refl

abbrev as_listed : List WorkOrder → List WorkOrder
as_listed xs = xs
