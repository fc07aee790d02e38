-- ===== src/WorkOrders/Advancing.antt =====
-- What a transition is to make of a work order, told field by field, and who may be assigned.
use Prim.Native.String.{String}
use forgeos_web.Base.{ℕ, ◌≡◌, refl, ap, ◌≤◌, arith, true, false, Option, none, some}
use forgeos_web.Base.JsMap.{string_eq}
use forgeos_web.Domain.{Database, World}
use forgeos_web.Domain.Work.{
  WorkOrder, WorkOrderStatus, WorkOrderEvent, WorkOrderEventType, Membership, is_active,
}
use forgeos_web.WorkOrders.{
  WorkOrderTransition, TransitionInput, assign, start, comment, resolve, cancel, transition_data,
  event_type, assigned_status, comment_refused,
}

abbrev pub status_after : WorkOrderTransition → WorkOrderStatus → WorkOrderStatus
status_after assign WorkOrderStatus.opened = WorkOrderStatus.assigned
status_after assign WorkOrderStatus.assigned = WorkOrderStatus.assigned
status_after assign WorkOrderStatus.in_progress = WorkOrderStatus.in_progress
status_after assign WorkOrderStatus.resolved = WorkOrderStatus.resolved
status_after assign WorkOrderStatus.cancelled = WorkOrderStatus.cancelled
status_after start s = WorkOrderStatus.in_progress
status_after comment s = s
status_after resolve s = WorkOrderStatus.resolved
status_after cancel s = WorkOrderStatus.cancelled

abbrev member_after : WorkOrderTransition → (new old : Option ℕ) → Option ℕ
member_after assign new old = new
member_after start new old = old
member_after comment new old = old
member_after resolve new old = old
member_after cancel new old = old

abbrev notes_after : WorkOrderTransition → (new old : Option String) → Option String
notes_after assign new old = old
notes_after start new old = old
notes_after comment new old = new
notes_after resolve new old = new
notes_after cancel new old = new

abbrev assigned_at_after : WorkOrderTransition → ℕ → Option ℕ → Option ℕ
assigned_at_after assign now old = some now
assigned_at_after start now old = old
assigned_at_after comment now old = old
assigned_at_after resolve now old = old
assigned_at_after cancel now old = old

abbrev started_at_after : WorkOrderTransition → ℕ → Option ℕ → Option ℕ
started_at_after assign now old = old
started_at_after start now old = some now
started_at_after comment now old = old
started_at_after resolve now old = old
started_at_after cancel now old = old

abbrev resolved_at_after : WorkOrderTransition → ℕ → Option ℕ → Option ℕ
resolved_at_after assign now old = old
resolved_at_after start now old = old
resolved_at_after comment now old = old
resolved_at_after resolve now old = some now
resolved_at_after cancel now old = old

-- The row that is to be there after a transition.
abbrev pub advanced : (now : ℕ) → TransitionInput → WorkOrder → WorkOrder
advanced now input o = record {
  id = o.id;
  organization_id = o.organization_id;
  station_id = o.station_id;
  title = o.title;
  description = o.description;
  priority = o.priority;
  source = o.source;
  status = status_after input.transition o.status;
  assigned_member_id = member_after input.transition input.assigned_member_id o.assigned_member_id;
  notes = notes_after input.transition input.comment o.notes;
  scheduled_at = o.scheduled_at;
  assigned_at = assigned_at_after input.transition now o.assigned_at;
  started_at = started_at_after input.transition now o.started_at;
  resolved_at = resolved_at_after input.transition now o.resolved_at;
  created_at = o.created_at;
}

abbrev event_after : WorkOrderTransition → WorkOrderEventType
event_after assign = WorkOrderEventType.assigned
event_after start = WorkOrderEventType.started
event_after comment = WorkOrderEventType.commented
event_after resolve = WorkOrderEventType.resolved
event_after cancel = WorkOrderEventType.cancelled

abbrev pub advance_event : WorkOrder → TransitionInput → WorkOrderEvent
advance_event o input = record {
  work_order_id = o.id;
  type = event_after input.transition;
  actor_id = input.actor_id;
}

pub event_type_after : (t : WorkOrderTransition) → event_type t ≡ event_after t
event_type_after assign = refl
event_type_after start = refl
event_type_after comment = refl
event_type_after resolve = refl
event_type_after cancel = refl

-- An assignment names a user with an ACTIVE membership of the organization.
abbrev pub HasAssignee : {db : Database} → World db → WorkOrderTransition → ℕ → Option ℕ → Type 0
HasAssignee w assign org none = ⊥
HasAssignee {db} w assign org (some user) =
    (m : Membership) × (db.memberships.find_unique w.memberships m.id ≡ some m)
    × (m.user_id ≡ user)
    × (m.organization_id ≡ org)
    × (is_active m.status ≡ true)
HasAssignee w start org member = Unit
HasAssignee w comment org member = Unit
HasAssignee w resolve org member = Unit
HasAssignee w cancel org member = Unit

-- The comment that a transition asks for; a resolution's has twenty characters at least.
abbrev pub HasComment : (trimmed_length : String → ℕ) → WorkOrderTransition → Option String → Type 0
HasComment tl assign said = Unit
HasComment tl start said = Unit
HasComment tl comment none = ⊥
HasComment tl comment (some t) = string_eq.beq t "" ≡ false
HasComment tl resolve none = ⊥
HasComment tl resolve (some t) = (string_eq.beq t "" ≡ false) × (20 ≤ tl t)
HasComment tl cancel none = ⊥
HasComment tl cancel (some t) = string_eq.beq t "" ≡ false

comment_found :
    (tl : String → ℕ) (t : WorkOrderTransition) (member : Option ℕ) (said : Option String)
    (actor : Option ℕ)
    → comment_refused tl
        (record { transition = t; assigned_member_id = member; comment = said; actor_id = actor })
      ≡ false
    → HasComment tl t said
comment_found tl assign member said actor e = tt
comment_found tl start member said actor e = tt
comment_found tl comment member none actor e = ground arith
comment_found tl comment member (some t) actor e = e
comment_found tl resolve member none actor e = ground arith
comment_found tl resolve member (some t) actor e = (ground arith, ground arith)
comment_found tl cancel member none actor e = ground arith
comment_found tl cancel member (some t) actor e = e

pub comment_refused-HasComment :
    (tl : String → ℕ) (input : TransitionInput)
    → comment_refused tl input ≡ false
    → HasComment tl input.transition input.comment
comment_refused-HasComment tl input e =
    comment_found tl input.transition input.assigned_member_id input.comment input.actor_id e

assigned_status_after : (s : WorkOrderStatus) → assigned_status s ≡ status_after assign s
assigned_status_after WorkOrderStatus.opened = refl
assigned_status_after WorkOrderStatus.assigned = refl
assigned_status_after WorkOrderStatus.in_progress = refl
assigned_status_after WorkOrderStatus.resolved = refl
assigned_status_after WorkOrderStatus.cancelled = refl

data_after :
    (now : ℕ) (o : WorkOrder) (t : WorkOrderTransition) (member : Option ℕ) (said : Option String)
    (actor : Option ℕ)
    → let input : TransitionInput = record {
      transition = t;
      assigned_member_id = member;
      comment = said;
      actor_id = actor;
    } in
      transition_data now o input o ≡ advanced now input o
data_after now o assign member said actor =
    ap (λ s. record o { status = s; assigned_member_id = member; assigned_at = some now })
      (assigned_status_after o.status)
data_after now o start member said actor = refl
data_after now o comment member said actor = refl
data_after now o resolve member said actor = refl
data_after now o cancel member said actor = refl

pub transition_data-advanced :
    (now : ℕ) (o : WorkOrder) (input : TransitionInput)
    → transition_data now o input o ≡ advanced now input o
transition_data-advanced now o input =
    data_after now o input.transition input.assigned_member_id input.comment input.actor_id
