-- ===== src/WorkOrders/Automation/Logging.antt =====
-- The events of the sweep of recovered outages.
use forgeos_web.Base.{DistinctBy, refl, inl, inr, none, List, [], ◌∷◌, Bool-cases}
use forgeos_web.Base.JsMap.{nat_eq, string_eq}
use forgeos_web.Domain.{Database, World}
use forgeos_web.Domain.Work.{WorkOrder, WorkOrderEventType}
use forgeos_web.WorkOrders.Lifecycle.Log.{IsRecorded, stepped-IsRecorded}
use forgeos_web.WorkOrders.Automation.{
  has_recovered, is_open_outage, resolved_at_instant, resolve_each,
  resolve_recovered_connectivity_work_orders,
}
use forgeos_web.WorkOrders.Automation.Resolution.{
  order_id, Present, Present-resolution, Present-of, resolution, resolve_one_found,
  resolve_each_all,
}

module _ {db : Database} where
  resolution-IsRecorded :
      (w : World db) (o : WorkOrder) → IsRecorded w → IsRecorded (resolution w o)
  resolution-IsRecorded w o recorded =
      stepped-IsRecorded w (resolved_at_instant w.now o)
        (record { work_order_id = o.id; type = WorkOrderEventType.resolved; actor_id = none }) refl
        refl recorded

  resolve_each-IsRecorded :
      (xs : List WorkOrder) (w : World db)
      → Present w xs
      → DistinctBy order_id xs
      → IsRecorded w
      → IsRecorded (resolve_each w.stations xs w).1
  unfolding resolve_each
  resolve_each-IsRecorded [] w h d recorded = recorded
  resolve_each-IsRecorded (x ∷ xs) w h d recorded =
      elim (Bool-cases (has_recovered (db.stations.find_unique w.stations x.station_id) x)) [
        | inr waiting ↦ rw waiting (resolve_each-IsRecorded xs w h.1 d.1 recorded)
        | inl recovered ↦
            let there = Present-resolution w x xs d.0 h.1 in
            let (done, w', swept, rows) = resolve_each_all xs (resolution w x) there d.1 in
            let rest =
              resolve_each-IsRecorded xs (resolution w x) there d.1
                (resolution-IsRecorded w x recorded) in
            rw (recovered, resolve_one_found w x h.0, swept) (rw swept at rest)
      ]

  pub resolve_recovered-IsRecorded :
      (w : World db) → IsRecorded w → IsRecorded (resolve_recovered_connectivity_work_orders w).1
  unfolding resolve_recovered_connectivity_work_orders
  resolve_recovered-IsRecorded w recorded =
      let xs = db.work_orders.find_many w.work_orders is_open_outage in
      resolve_each-IsRecorded xs w
        (Present-of w xs (db.work_orders.find_many_sound w.work_orders is_open_outage))
        (db.work_orders.find_many_distinct w.work_orders is_open_outage) recorded
