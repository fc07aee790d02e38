-- ===== src/WorkOrders/Lifecycle/Log.antt =====
-- The status that the event log of the work orders tells.
use forgeos_web.Base.{ℕ, ◌≡◌, some, List, [], ◌∷◌, ◌==◌, if◌then◌else◌, arith}
use forgeos_web.Base.JsMap.{nat_eq, string_eq}
use forgeos_web.Domain.{Database, World}
use forgeos_web.Domain.Work.{WorkOrder, WorkOrderEvent, WorkOrderEventType, WorkOrderStatus}
use forgeos_web.WorkOrders.Lifecycle.{order_at, stepped}

-- What an event makes of a status.
abbrev pub after : WorkOrderEventType → WorkOrderStatus → WorkOrderStatus
after WorkOrderEventType.created s = WorkOrderStatus.opened
after WorkOrderEventType.assigned WorkOrderStatus.opened = WorkOrderStatus.assigned
after WorkOrderEventType.assigned s = s
after WorkOrderEventType.started s = WorkOrderStatus.in_progress
after WorkOrderEventType.resolved s = WorkOrderStatus.resolved
after WorkOrderEventType.cancelled s = WorkOrderStatus.cancelled
after _ s = s

-- The status that the log, newest first, tells of one work order.
abbrev pub replay : ℕ → List WorkOrderEvent → WorkOrderStatus
replay id [] = WorkOrderStatus.opened
replay id (e ∷ es) = if e.work_order_id == id then after e.type (replay id es) else replay id es

module _ {db : Database} where
  abbrev pub IsRecorded : World db → Type 0
  IsRecorded w =
      (id : ℕ) (o : WorkOrder) → order_at w id ≡ some o → replay id w.work_order_events ≡ o.status

  pub stepped-IsRecorded :
      (w : World db) (o : WorkOrder) (e : WorkOrderEvent)
      → e.work_order_id ≡ o.id
      → after e.type (replay o.id w.work_order_events) ≡ o.status
      → IsRecorded w
      → IsRecorded (stepped w o e)
  stepped-IsRecorded w o e named agrees recorded i r at_i =
      ground (arith, db.work_orders.find_unique-put w.work_orders o i, recorded i r)
