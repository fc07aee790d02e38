-- ===== src/WorkOrders.antt =====
-- apps/movos-api/src/work-orders: the work order service. A handler here runs from its first read
-- to its last write with no other request's write between them.
pub mod Advancing
pub mod Attention
pub mod Lifecycle
pub mod Automation
use Prim.Native.String.{String}
use forgeos_web.Base.{
  ℕ, ◌+◌, Bool, true, false, ◌&&◌, ◌||◌, not, Option, none, some, List, [], ◌∷◌, ◌++◌, ◌==◌, ltb,
  leb, includes, is_none, is_some_of, if◌then◌else◌,
}
use forgeos_web.Base.JsMap.{string_eq}
use forgeos_web.Base.Result.{
  Result, ok, err, not_found, conflict, bad_request, Exec, ◌>>=◌, ◌>>◌, pure, throw, gets, modify,
}
use forgeos_web.Domain.{Database, World}
use forgeos_web.Domain.Station.{ConnectivityStatus, ChargingStation}
use forgeos_web.Domain.Work.{
  WorkOrderStatus, WorkOrderPriority, WorkOrderSource, WorkOrderEventType, WorkOrder,
  WorkOrderEvent, Membership, is_active, source_eq, status_eq,
}

pub data WorkOrderTransition : Type 0 where
  assign start comment resolve cancel : WorkOrderTransition

pub record TransitionInput : Type 0 where
  pub transition : WorkOrderTransition
  pub assigned_member_id : Option ℕ
  pub comment : Option String
  pub actor_id : Option ℕ

pub record CreateWorkOrderInput : Type 0 where
  pub title : String
  pub description : String
  pub priority : WorkOrderPriority
  pub source : WorkOrderSource
  pub station_id : ℕ
  pub actor_id : Option ℕ
  pub scheduled_at : Option ℕ

pub data AttentionReason : Type 0 where
  high_priority_unresolved scheduled_overdue unassigned stalled_in_progress : AttentionReason

abbrev pub in_progress_stall_ms : ℕ
in_progress_stall_ms = 14400000

abbrev pub resolution_summary_min_length : ℕ
resolution_summary_min_length = 20

abbrev transition_ordinal : WorkOrderTransition → ℕ
transition_ordinal assign = 0
transition_ordinal start = 1
transition_ordinal comment = 2
transition_ordinal resolve = 3
transition_ordinal cancel = 4

abbrev pub transition_eq : WorkOrderTransition → WorkOrderTransition → Bool
transition_eq a b = transition_ordinal a == transition_ordinal b

abbrev pub valid_transitions : WorkOrderStatus → List WorkOrderTransition
valid_transitions WorkOrderStatus.opened = assign ∷ comment ∷ cancel ∷ []
valid_transitions WorkOrderStatus.assigned = assign ∷ start ∷ comment ∷ cancel ∷ []
valid_transitions WorkOrderStatus.in_progress = assign ∷ resolve ∷ comment ∷ cancel ∷ []
valid_transitions WorkOrderStatus.resolved = []
valid_transitions WorkOrderStatus.cancelled = []

-- `TERMINAL_STATUSES.includes(status)`
abbrev pub is_closed : WorkOrderStatus → Bool
is_closed s = includes status_eq (WorkOrderStatus.resolved ∷ WorkOrderStatus.cancelled ∷ []) s

-- `NON_TERMINAL_STATUSES.includes(status)`
abbrev pub is_unresolved : WorkOrderStatus → Bool
is_unresolved s =
    includes status_eq
      (WorkOrderStatus.opened ∷ WorkOrderStatus.assigned ∷ WorkOrderStatus.in_progress ∷ []) s

abbrev pub is_urgent : WorkOrderPriority → Bool
is_urgent WorkOrderPriority.high = true
is_urgent WorkOrderPriority.critical = true
is_urgent _ = false

-- `date && date < limit`
abbrev pub is_before : Option ℕ → ℕ → Bool
is_before none limit = false
is_before (some t) limit = ltb t limit

-- The filter of `listAttentionItems`; the times are those of one `now`.
unfoldable pub matches_attention_filter : (now stalled_before : ℕ) → WorkOrder → Bool
matches_attention_filter now stalled_before o =
    (is_urgent o.priority && not (is_closed o.status))
    || ((is_before o.scheduled_at now && not (is_closed o.status))
        || ((status_eq o.status WorkOrderStatus.opened && is_none o.assigned_member_id)
            || (status_eq o.status WorkOrderStatus.in_progress
                && is_before o.started_at stalled_before)))

abbrev when : Bool → AttentionReason → List AttentionReason
when c r = if c then r ∷ [] else []

unfoldable pub compute_attention_reasons :
    (now stalled_before : ℕ) → WorkOrder → List AttentionReason
compute_attention_reasons now stalled_before o =
    let not_terminal = not (is_closed o.status) in
    when (not_terminal && is_urgent o.priority) high_priority_unresolved
    ++ (when (not_terminal && is_before o.scheduled_at now) scheduled_overdue
        ++ (when (status_eq o.status WorkOrderStatus.opened && is_none o.assigned_member_id)
              unassigned
            ++ when
                (status_eq o.status WorkOrderStatus.in_progress
                  && is_before o.started_at stalled_before)
                stalled_in_progress))

-- `findFirst({ where: { id, organizationId } })`
unfoldable pub find_own : {db : Database} → World db → (organization_id id : ℕ) → Option WorkOrder
find_own {db} w organization_id id = elim (db.work_orders.find_unique w.work_orders id) [
  | none ↦ none
  | some o ↦ if o.organization_id == organization_id then some o else none
]

unfoldable pub require_own : {db : Database} → (organization_id id : ℕ) → Exec (World db) WorkOrder
require_own organization_id id w = elim (find_own w organization_id id) [
  | none ↦ (err not_found, w)
  | some o ↦ (ok o, w)
]

unfoldable pub update_work_order :
    {db : Database} → ℕ → (WorkOrder → WorkOrder) → Exec (World db) WorkOrder
update_work_order {db} id change w = elim (db.work_orders.find_unique w.work_orders id) [
  | none ↦ (err not_found, w)
  | some row ↦
      (ok (change row), record w { work_orders = db.work_orders.put w.work_orders (change row) })
]

abbrev pub record_event :
    {db : Database} → ℕ → WorkOrderEventType → Option ℕ → Exec (World db) (Unit {0})
record_event id type actor w = (
  ok tt,
  record w {
    work_order_events =
        record { work_order_id = id; type = type; actor_id = actor } ∷ w.work_order_events;
  },
)

abbrev pub owned_station : {db : Database} → World db → (organization_id station_id : ℕ) → Bool
owned_station {db} w organization_id station_id =
    elim (db.stations.find_unique w.stations station_id) [
      | none ↦ false
      | some s ↦ s.organization_id == organization_id
    ]

abbrev pub new_work_order : (organization_id id now : ℕ) → CreateWorkOrderInput → WorkOrder
new_work_order organization_id id now input = record {
  id = id;
  organization_id = organization_id;
  station_id = input.station_id;
  title = input.title;
  description = input.description;
  priority = input.priority;
  source = input.source;
  status = WorkOrderStatus.opened;
  assigned_member_id = none;
  notes = none;
  scheduled_at = input.scheduled_at;
  assigned_at = none;
  started_at = none;
  resolved_at = none;
  created_at = now;
}

abbrev insert : {db : Database} → WorkOrder → Exec (World db) (Unit {0})
insert {db} o w = (ok tt, record w { work_orders = db.work_orders.put w.work_orders o })

unfoldable pub create :
    {db : Database} → (organization_id : ℕ) → CreateWorkOrderInput → Exec (World db) WorkOrder
create {db} organization_id input = do
  owned ← gets (λ w. owned_station w organization_id input.station_id)
  if not owned then throw not_found else do
    id ← gets (λ w. db.work_orders.fresh w.work_orders)
    now ← gets (λ w. w.now)
    let made = new_work_order organization_id id now input
    insert made
    record_event made.id WorkOrderEventType.created input.actor_id
    pure made

unfoldable pub assert_valid_transition :
    {db : Database} → WorkOrderStatus → WorkOrderTransition → Exec (World db) (Unit {0})
assert_valid_transition from t =
    if includes transition_eq (valid_transitions from) t then pure tt else throw conflict

abbrev pub is_active_member : (user organization_id : ℕ) → Membership → Bool
is_active_member user organization_id m =
    m.user_id == user && (m.organization_id == organization_id && is_active m.status)

unfoldable pub assert_assignee :
    {db : Database} → (organization_id : ℕ) → Option ℕ → Exec (World db) (Unit {0})
assert_assignee organization_id none w = (err bad_request, w)
assert_assignee {db} organization_id (some user) w =
    elim (db.memberships.find_first w.memberships (is_active_member user organization_id)) [
      | none ↦ (err bad_request, w)
      | some m ↦ (ok tt, w)
    ]

-- `!comment`
abbrev pub is_blank : Option String → Bool
is_blank none = true
is_blank (some t) = string_eq.beq t ""

abbrev pub assigned_status : WorkOrderStatus → WorkOrderStatus
assigned_status WorkOrderStatus.opened = WorkOrderStatus.assigned
assigned_status s = s

-- The data of each transition's update, and the type of its event.
abbrev pub transition_data : (now : ℕ) → WorkOrder → TransitionInput → WorkOrder → WorkOrder
transition_data now loaded input row = elim input.transition [
  | assign ↦ record row {
    status = assigned_status loaded.status;
    assigned_member_id = input.assigned_member_id;
    assigned_at = some now;
  }
  | start ↦ record row { status = WorkOrderStatus.in_progress; started_at = some now }
  | comment ↦ record row { notes = input.comment }
  | resolve ↦ record row {
    status = WorkOrderStatus.resolved;
    resolved_at = some now;
    notes = input.comment;
  }
  | cancel ↦ record row { status = WorkOrderStatus.cancelled; notes = input.comment }
]

abbrev pub event_type : WorkOrderTransition → WorkOrderEventType
event_type assign = WorkOrderEventType.assigned
event_type start = WorkOrderEventType.started
event_type comment = WorkOrderEventType.commented
event_type resolve = WorkOrderEventType.resolved
event_type cancel = WorkOrderEventType.cancelled

unfoldable pub apply_transition :
    {db : Database} → WorkOrder → TransitionInput → Exec (World db) WorkOrder
apply_transition loaded input = do
  now ← gets (λ w. w.now)
  updated ← update_work_order loaded.id (transition_data now loaded input)
  record_event loaded.id (event_type input.transition) input.actor_id
  pure updated

-- `if (transition === 'assign') assertAssignee(...)`
unfoldable pub assert_assignee_if_assigning :
    {db : Database} → WorkOrderTransition → ℕ → Option ℕ → Exec (World db) (Unit {0})
assert_assignee_if_assigning assign organization_id member = assert_assignee organization_id member
assert_assignee_if_assigning _ organization_id member = pure tt

-- `trimmed_length` is `comment.trim().length`.
module _ (trimmed_length : String → ℕ) where
  abbrev is_short : Option String → Bool
  is_short none = false
  is_short (some t) =
      not (string_eq.beq t "") && ltb (trimmed_length t) resolution_summary_min_length

  -- The checks on the comment, which all answer with a bad request.
  abbrev pub comment_refused : TransitionInput → Bool
  comment_refused input = elim input.transition [
    | resolve ↦ is_blank input.comment || is_short input.comment
    | cancel ↦ is_blank input.comment
    | comment ↦ is_blank input.comment
    | _ ↦ false
  ]

  unfoldable pub transition :
      {db : Database} → (organization_id id : ℕ) → TransitionInput → Exec (World db) WorkOrder
  transition organization_id id input = do
    work_order ← require_own organization_id id
    assert_valid_transition work_order.status input.transition
    assert_assignee_if_assigning input.transition organization_id input.assigned_member_id
    if comment_refused input then throw bad_request else apply_transition work_order input

unfoldable pub schedule :
    {db : Database}
    → (organization_id id : ℕ) → Option ℕ
    → (actor_id : ℕ) → Exec (World db) WorkOrder
schedule organization_id id scheduled_at actor_id = do
  work_order ← require_own organization_id id
  let closed = is_closed work_order.status
  if closed then throw bad_request else do
    updated ← update_work_order work_order.id (λ o. record o { scheduled_at = scheduled_at })
    record_event work_order.id WorkOrderEventType.scheduled (some actor_id)
    pure updated
