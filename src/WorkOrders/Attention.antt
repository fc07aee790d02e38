-- ===== src/WorkOrders/Attention.antt =====
-- `listAttentionItems` of work-order.service.ts: the page of work orders that want attention, and the
-- reasons it gives. The order in which the database lists the rows is a parameter.
use mathlib.Core.List.{Memᴰ}
use forgeos_web.Base.{
  map, ℕ, zero, suc, ◌-◌, ◌≡◌, ◌↔◌, Bool, true, false, ◌&&◌, ◌||◌, Option, none, some, List, [],
  ◌∷◌, ◌==◌, ltb, is_none,
}
use forgeos_web.Base.JsMap.{nat_eq, string_eq}
use forgeos_web.Domain.{Database, World}
use forgeos_web.Domain.Work.{WorkOrder, WorkOrderStatus, WorkOrderPriority}
use forgeos_web.WorkOrders.{
  AttentionReason, high_priority_unresolved, scheduled_overdue, unassigned, stalled_in_progress,
  matches_attention_filter, compute_attention_reasons, in_progress_stall_ms,
}
use forgeos_web.WorkOrders.Lifecycle.{order_at}

pub record AttentionItem : Type 0 where
  pub work_order : WorkOrder
  pub reasons : List AttentionReason

abbrev attention_page_size : ℕ
attention_page_size = 100

abbrev pub is_attention_item : (organization_id now : ℕ) → WorkOrder → Bool
is_attention_item organization_id now o =
    o.organization_id == organization_id
    && matches_attention_filter now (now - in_progress_stall_ms) o

abbrev pub with_reasons : (now : ℕ) → WorkOrder → AttentionItem
with_reasons now o = record {
  work_order = o;
  reasons = compute_attention_reasons now (now - in_progress_stall_ms) o;
}

-- `take: n`
pub take : ℕ → List WorkOrder → List WorkOrder
take zero xs = []
take (suc n) [] = []
take (suc n) (x ∷ xs) = x ∷ take n xs

-- `newest_first` is the order of `orderBy: { createdAt: 'desc' }`.
unfoldable pub list_attention_items :
    {db : Database}
    → (newest_first : List WorkOrder → List WorkOrder) → (organization_id : ℕ) → World db
    → List AttentionItem
unfolding take
list_attention_items {db} newest_first organization_id w =
    let rows = db.work_orders.find_many w.work_orders (is_attention_item organization_id w.now) in
    map (with_reasons w.now) (take attention_page_size (newest_first rows))

-- When a reason holds.
abbrev is_going : WorkOrderStatus → Bool
is_going WorkOrderStatus.opened = true
is_going WorkOrderStatus.assigned = true
is_going WorkOrderStatus.in_progress = true
is_going WorkOrderStatus.resolved = false
is_going WorkOrderStatus.cancelled = false

abbrev is_open : WorkOrderStatus → Bool
is_open WorkOrderStatus.opened = true
is_open _ = false

abbrev is_under_way : WorkOrderStatus → Bool
is_under_way WorkOrderStatus.in_progress = true
is_under_way _ = false

abbrev is_pressing : WorkOrderPriority → Bool
is_pressing WorkOrderPriority.low = false
is_pressing WorkOrderPriority.medium = false
is_pressing WorkOrderPriority.high = true
is_pressing WorkOrderPriority.critical = true

abbrev is_past : ℕ → Option ℕ → Bool
is_past limit none = false
is_past limit (some t) = ltb t limit

abbrev pub holds : (now : ℕ) → AttentionReason → WorkOrder → Bool
holds now high_priority_unresolved o = is_going o.status && is_pressing o.priority
holds now scheduled_overdue o = is_going o.status && is_past now o.scheduled_at
holds now unassigned o = is_open o.status && is_none o.assigned_member_id
holds now stalled_in_progress o = is_under_way o.status && is_past (now - 14400000) o.started_at

abbrev reason_ordinal : AttentionReason → ℕ
reason_ordinal high_priority_unresolved = 0
reason_ordinal scheduled_overdue = 1
reason_ordinal unassigned = 2
reason_ordinal stalled_in_progress = 3

abbrev pub gives : AttentionReason → List AttentionReason → Bool
gives r [] = false
gives r (x ∷ xs) = reason_ordinal x == reason_ordinal r || gives r xs

module _ {db : Database} (newest_first : List WorkOrder → List WorkOrder)
    (listing : (xs : List WorkOrder) (o : WorkOrder) → Memᴰ o xs ↔ Memᴰ o (newest_first xs)) where
  -- An item of the list: a stored order of the organization, with exactly the reasons that hold, and
  -- at least one.
  abbrev pub Justified : ℕ → World db → AttentionItem → Type 0
  Justified org w item =
      (order_at w item.work_order.id ≡ some item.work_order)
      × (item.work_order.organization_id ≡ org)
      × ((r : AttentionReason) → gives r item.reasons ≡ holds w.now r item.work_order)
      × ((r : AttentionReason) × (holds w.now r item.work_order ≡ true))
