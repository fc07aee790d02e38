-- ===== src/Sessions.antt =====
-- apps/movos-api/src/sessions: the session lifecycle service. `this.prisma` is the `World`; the
-- writes of other requests between two awaits are the functions of an `Interleaving`.
pub mod Outcome
pub mod Rows
pub mod Lifetime
pub mod Evolution
pub mod Stopping
pub mod Occupancy
pub mod Creation
pub mod Meters
use forgeos_web.Base.{
  ℕ, ◌+◌, ◌%◌, Bool, true, false, ◌&&◌, ◌||◌, not, Option, none, some, List, [], ◌∷◌, ◌==◌, leb,
  includes, is_none, if◌then◌else◌,
}
use forgeos_web.Base.Int.{ℤ, pos, ◌-ℤ◌, max_zero}
use forgeos_web.Base.Result.{
  Result, ok, err, Error, not_found, invalid_transition, serialization_failure, Exec, ◌>>=◌, ◌>>◌,
  pure, throw, gets, modify,
}
use forgeos_web.Domain.{Database, World, record_audit}
use forgeos_web.Domain.Audit.{session_abandoned_on_new_transaction}
use forgeos_web.Domain.Session.{
  SessionStatus, pending, authorized, starting, active, suspended, offline, stopping, completed,
  failed, cancelled, status_eq, TerminationReason, network_failure, ProtocolVersion,
  ChargingSession, BillingAccount,
}

-- three heartbeat intervals of 300 s
abbrev pub offline_recovery_window_ms : ℕ
offline_recovery_window_ms = 900000

abbrev pub non_terminal_statuses : List SessionStatus
non_terminal_statuses =
    pending ∷ authorized ∷ starting ∷ active ∷ suspended ∷ offline ∷ stopping ∷ []

abbrev pub allowed_transitions : SessionStatus → List SessionStatus
allowed_transitions pending = authorized ∷ cancelled ∷ failed ∷ []
allowed_transitions authorized = starting ∷ cancelled ∷ failed ∷ []
allowed_transitions starting = active ∷ failed ∷ cancelled ∷ []
allowed_transitions active = stopping ∷ offline ∷ suspended ∷ failed ∷ cancelled ∷ []
allowed_transitions offline = active ∷ suspended ∷ failed ∷ stopping ∷ cancelled ∷ []
allowed_transitions suspended = active ∷ offline ∷ failed ∷ stopping ∷ cancelled ∷ []
allowed_transitions stopping = completed ∷ failed ∷ []
allowed_transitions completed = []
allowed_transitions failed = []
allowed_transitions cancelled = []

abbrev pub terminal_statuses : List SessionStatus
terminal_statuses = completed ∷ failed ∷ cancelled ∷ []

abbrev pub is_non_terminal : SessionStatus → Bool
is_non_terminal s = includes status_eq non_terminal_statuses s

abbrev pub is_terminal : SessionStatus → Bool
is_terminal s = includes status_eq terminal_statuses s

abbrev pub can_transition : SessionStatus → SessionStatus → Bool
can_transition from to = includes status_eq (allowed_transitions from) to

pub record CreateSessionInput : Type 0 where
  pub organization_id : ℕ
  pub site_id : ℕ
  pub charging_station_id : ℕ
  pub evse_id : ℕ
  pub connector_id : ℕ
  pub authorization_credential_id : ℕ
  pub protocol_version : ProtocolVersion
  pub meter_start : ℤ
  pub started_at : ℕ

pub record StopSessionInput : Type 0 where
  pub meter_stop : ℤ
  pub reason : TerminationReason
  pub ended_at : Option ℕ

-- The row of `findUnique({ where: { id } })`.
abbrev pub session_at : {db : Database} → World db → ℕ → Option ChargingSession
session_at {db} w id = db.sessions.find_unique w.sessions id

unfoldable pub is_offline_session_recoverable : ℕ → ChargingSession → Bool
is_offline_session_recoverable now session =
    if status_eq session.status offline
    then leb now (session.updated_at + offline_recovery_window_ms)
    else false

unfoldable pub assert_transition_allowed :
    {db : Database} → SessionStatus → SessionStatus → Exec (World db) (Unit {0})
assert_transition_allowed from to =
    if can_transition from to then pure tt else throw invalid_transition

unfoldable pub require_session : {db : Database} → ℕ → Exec (World db) ChargingSession
require_session id w = elim (session_at w id) [
  | none ↦ (err not_found, w)
  | some session ↦ (ok session, w)
]

-- `chargingSession.update`: the client throws on a missing row and stamps `updatedAt`.
unfoldable pub update_session :
    {db : Database} → ℕ → (ChargingSession → ChargingSession) → Exec (World db) ChargingSession
update_session {db} id change w = elim (session_at w id) [
  | none ↦ (err not_found, w)
  | some row ↦
      let row' = record (change row) { updated_at = w.now } in
      (ok row', record w { sessions = db.sessions.put w.sessions row' })
]

unfoldable pub transition : {db : Database} → ℕ → SessionStatus → Exec (World db) ChargingSession
transition id target = do
  session ← require_session id
  assert_transition_allowed session.status target
  update_session id (λ s. record s { status = target })

unfoldable pub end_session :
    {db : Database} → ℕ → SessionStatus → TerminationReason → Exec (World db) ChargingSession
end_session id target reason = do
  session ← require_session id
  assert_transition_allowed session.status target
  now ← gets (λ w. w.now)
  update_session id
      (λ s. record s { status = target; termination_reason = some reason; ended_at = some now })

unfoldable pub activate_session : {db : Database} → ℕ → Exec (World db) ChargingSession
activate_session id = transition id active

-- `to_offline` is `targetStatus === 'OFFLINE'`; the default target is SUSPENDED.
unfoldable pub suspend_session : {db : Database} → ℕ → Bool → Exec (World db) ChargingSession
suspend_session id to_offline = transition id (if to_offline then offline else suspended)

unfoldable pub resume_session : {db : Database} → ℕ → Exec (World db) ChargingSession
resume_session id = transition id active

unfoldable pub fail_session :
    {db : Database} → ℕ → TerminationReason → Exec (World db) ChargingSession
fail_session id reason = end_session id failed reason

unfoldable pub cancel_session :
    {db : Database} → ℕ → TerminationReason → Exec (World db) ChargingSession
cancel_session id reason = end_session id cancelled reason

abbrev or_now : Option ℕ → ℕ → ℕ
or_now none now = now
or_now (some t) now = t

pub stop_session : {db : Database} → ℕ → StopSessionInput → Exec (World db) ChargingSession
stop_session id input = do
  session ← require_session id
  assert_transition_allowed session.status stopping
  assert_transition_allowed stopping completed
  let energy = max_zero (input.meter_stop -ℤ session.meter_start)
  now ← gets (λ w. w.now)
  update_session id (λ s. record s {
    status = completed;
    meter_stop = some input.meter_stop;
    energy_wh = energy;
    termination_reason = some input.reason;
    ended_at = some (or_now input.ended_at now);
  })

pub update_energy : {db : Database} → ℕ → ℤ → Exec (World db) ChargingSession
update_energy id energy = do
  session ← require_session id
  if is_terminal session.status
      then throw invalid_transition
      else update_session id (λ s. record s { energy_wh = energy })

-- The operations on one existing session; `createSession` is in Sessions/Creation.
pub data SessionOp : Type 0 where
  activates resumes : ℕ → SessionOp
  suspends : ℕ → Bool → SessionOp
  fails cancels : ℕ → TerminationReason → SessionOp
  stops : ℕ → StopSessionInput → SessionOp
  updates_energy : ℕ → ℤ → SessionOp

pub run_op : {db : Database} → SessionOp → Exec (World db) ChargingSession
unfolding activate_session suspend_session resume_session fail_session cancel_session
run_op (activates id) = activate_session id
run_op (resumes id) = resume_session id
run_op (suspends id to_offline) = suspend_session id to_offline
run_op (fails id reason) = fail_session id reason
run_op (cancels id reason) = cancel_session id reason
run_op (stops id input) = stop_session id input
run_op (updates_energy id energy) = update_energy id energy
