-- ===== src/Domain/Work.antt =====
-- WorkOrder, WorkOrderEvent and Membership of schema.prisma.
use Prim.Native.String.{String}
use forgeos_web.Base.{ℕ, Bool, true, false, Option, ◌==◌}

pub data WorkOrderStatus : Type 0 where
  -- OPEN
  opened assigned in_progress resolved cancelled : WorkOrderStatus

pub data WorkOrderPriority : Type 0 where
  low medium high critical : WorkOrderPriority

pub data WorkOrderSource : Type 0 where
  connectivity_loss recommendation manual : WorkOrderSource

pub data WorkOrderEventType : Type 0 where
  created assigned started commented resolved cancelled scheduled : WorkOrderEventType
  arrival_confirmed diagnosis_recorded intervention_recorded : WorkOrderEventType
  validation_recorded : WorkOrderEventType

pub record WorkOrder : Type 0 where
  pub id : ℕ
  pub organization_id : ℕ
  pub station_id : ℕ
  pub title : String
  pub description : String
  pub priority : WorkOrderPriority
  pub source : WorkOrderSource
  pub status : WorkOrderStatus
  pub assigned_member_id : Option ℕ
  pub notes : Option String
  pub scheduled_at : Option ℕ
  pub assigned_at : Option ℕ
  pub started_at : Option ℕ
  pub resolved_at : Option ℕ
  pub created_at : ℕ

pub record WorkOrderEvent : Type 0 where
  pub work_order_id : ℕ
  pub type : WorkOrderEventType
  pub actor_id : Option ℕ

pub data MemberRole : Type 0 where
  owner admin operator support analyst viewer technician : MemberRole

pub data MemberStatus : Type 0 where
  invited active suspended : MemberStatus

abbrev pub is_active : MemberStatus → Bool
is_active MemberStatus.invited = false
is_active MemberStatus.active = true
is_active MemberStatus.suspended = false

pub record Membership : Type 0 where
  pub id : ℕ
  pub user_id : ℕ
  pub organization_id : ℕ
  pub role : MemberRole
  pub status : MemberStatus

abbrev source_ordinal : WorkOrderSource → ℕ
source_ordinal WorkOrderSource.connectivity_loss = 0
source_ordinal WorkOrderSource.recommendation = 1
source_ordinal WorkOrderSource.manual = 2

abbrev pub source_eq : WorkOrderSource → WorkOrderSource → Bool
source_eq a b = source_ordinal a == source_ordinal b

abbrev status_ordinal : WorkOrderStatus → ℕ
status_ordinal WorkOrderStatus.opened = 0
status_ordinal WorkOrderStatus.assigned = 1
status_ordinal WorkOrderStatus.in_progress = 2
status_ordinal WorkOrderStatus.resolved = 3
status_ordinal WorkOrderStatus.cancelled = 4

abbrev pub status_eq : WorkOrderStatus → WorkOrderStatus → Bool
status_eq a b = status_ordinal a == status_ordinal b
