-- ===== src/WorkOrders/Automation.antt =====
-- The sweeps that open and resolve work orders for lost connectivity: work-order-automation.service.ts
-- and `resolveRecoveredConnectivityWorkOrders` of work-order.service.ts.
pub mod Episodes
pub mod Logging
pub mod Resolution
use Prim.Native.String.{String}
use forgeos_web.Base.{
  ℕ, ◌+◌, Bool, true, false, ◌&&◌, ◌||◌, not, Option, none, some, List, [], ◌∷◌, ◌==◌, ltb, leb,
  is_none, if◌then◌else◌,
}
use forgeos_web.Base.Result.{Result, ok, err, Exec, ◌>>=◌, ◌>>◌, pure, throw, gets}
use forgeos_web.Domain.{Database, World}
use forgeos_web.Domain.Station.{ConnectivityStatus, ChargingStation}
use forgeos_web.Domain.Work.{
  WorkOrderStatus, WorkOrderPriority, WorkOrderSource, WorkOrderEventType, WorkOrder, source_eq,
}
use forgeos_web.WorkOrders.{
  CreateWorkOrderInput, create, is_unresolved, is_before, update_work_order, record_event,
}

abbrev pub offline_threshold_ms : ℕ
offline_threshold_ms = 900000

abbrev is_connected : ConnectivityStatus → Bool
is_connected ConnectivityStatus.online = true
is_connected _ = false

abbrev is_disconnected : ConnectivityStatus → Bool
is_disconnected ConnectivityStatus.offline = true
is_disconnected _ = false

abbrev connected_after : ℕ → Option ℕ → Bool
connected_after created_at none = false
connected_after created_at (some t) = ltb created_at t

-- The station is online again, since an instant after the work order was made.
abbrev pub has_recovered : Option ChargingStation → WorkOrder → Bool
has_recovered none o = false
has_recovered (some s) o =
    is_connected s.connectivity_status && connected_after o.created_at s.last_connected_at

abbrev pub is_open_outage : WorkOrder → Bool
is_open_outage o = source_eq o.source WorkOrderSource.connectivity_loss && is_unresolved o.status

abbrev pub recovered_comment : String
recovered_comment = "Conectividad restablecida automáticamente."

abbrev pub resolved_at_instant : ℕ → WorkOrder → WorkOrder
resolved_at_instant now o = record o {
  status = WorkOrderStatus.resolved;
  resolved_at = some now;
  notes = some recovered_comment;
}

unfoldable pub resolve_one : {db : Database} → WorkOrder → Exec (World db) WorkOrder
resolve_one o = do
  now ← gets (λ w. w.now)
  updated ← update_work_order o.id (resolved_at_instant now)
  record_event o.id WorkOrderEventType.resolved none
  pure updated

-- The loop over the candidates; their stations were read with them.
unfoldable pub resolve_each :
    {db : Database} → db.stations.Rows → List WorkOrder → Exec (World db) (List WorkOrder)
resolve_each stations [] = pure []
resolve_each {db} stations (o ∷ rest) = do
  let recovered = has_recovered (db.stations.find_unique stations o.station_id) o
  let others_after = resolve_each stations rest
  if not recovered
      then others_after
      else do updated ← resolve_one o; others ← others_after; pure (updated ∷ others)

unfoldable pub resolve_recovered_connectivity_work_orders :
    {db : Database} → Exec (World db) (List WorkOrder)
resolve_recovered_connectivity_work_orders {db} = do
  candidates ← gets (λ w. db.work_orders.find_many w.work_orders is_open_outage)
  stations ← gets (λ w. w.stations)
  resolve_each stations candidates

-- `{ createdAt: { gte } }`, when the station has a disconnection on record
abbrev pub created_since : Option ℕ → ℕ → Bool
created_since none created_at = true
created_since (some t) created_at = leb t created_at

abbrev pub covers_episode : ChargingStation → WorkOrder → Bool
covers_episode s o =
    o.organization_id == s.organization_id
    && (o.station_id == s.id
        && (source_eq o.source WorkOrderSource.connectivity_loss
            && created_since s.last_disconnected_at o.created_at))

-- In service, offline, and disconnected for longer than the threshold.
abbrev pub is_stale_station : (now : ℕ) → ChargingStation → Bool
is_stale_station now s =
    s.is_in_service
    && (is_disconnected s.connectivity_status && elim s.last_disconnected_at [
      | none ↦ false
      | some t ↦ ltb (t + offline_threshold_ms) now
    ])

-- The texts are made from the station's name.
module _ (title description : ChargingStation → String) where
  abbrev pub outage_input : ChargingStation → CreateWorkOrderInput
  outage_input s = record {
    title = title s;
    description = description s;
    priority = WorkOrderPriority.high;
    source = WorkOrderSource.connectivity_loss;
    station_id = s.id;
    actor_id = none;
    scheduled_at = none;
  }

  unfoldable pub create_if_not_duplicate :
      {db : Database} → ChargingStation → Exec (World db) (Unit {0})
  create_if_not_duplicate {db} s = do
    existing ← gets (λ w. db.work_orders.find_first w.work_orders (covers_episode s))
    let covered = not (is_none existing)
    if covered then pure tt else do _ ← create s.organization_id (outage_input s); pure tt

  -- An error for one station is caught, and the loop goes on.
  unfoldable pub sweep_stations : {db : Database} → List ChargingStation → World db → World db
  sweep_stations [] w = w
  sweep_stations (s ∷ rest) w = sweep_stations rest (create_if_not_duplicate s w).1

  unfoldable pub sweep_offline_stations : {db : Database} → World db → World db
  sweep_offline_stations {db} w =
      sweep_stations (db.stations.find_many w.stations (is_stale_station w.now)) w
