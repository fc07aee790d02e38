-- ===== src/Commands/Confirmation.antt =====
-- apps/movos-api/src/ocpp/remote-commands/remote-command-confirmation.service.ts: an accepted
-- command waits for the event that shows its effect, or for the end of its window.
pub mod Timers
pub mod Watched
pub mod Windows
pub mod Apart
use Prim.Native.String.{String}
use forgeos_web.Base.{
  ℕ, suc, ◌+◌, ◌-◌, ◌*◌, ◌≤◌, ◌≡◌, ◌≢◌, refl, sym, ap, ◌⊎◌, inl, inr, ◌↔◌, Bool, true, false, ◌&&◌,
  ◌||◌, not, Option, none, some, List, [], ◌∷◌, ◌++◌, ◌==◌, ltb, leb, includes, length, is_none,
  is_some_of, if◌then◌else◌, arith, Bool-cases, Option-cases, ==_iff, ==_self, All,
}
use forgeos_web.Base.Int.{ℤ, pos, negsuc, ◌-ℤ◌, ◌≤ℤ◌, ltb_ℤ}
use forgeos_web.Base.Decimal.{Decimal}
use forgeos_web.Base.JsMap
use forgeos_web.Base.JsMap.{JsMap, nat_eq, string_eq, get-put, get-remove}
use forgeos_web.Base.Result.{
  Result, ok, err, Error, not_found, conflict, bad_request, invalid_transition, Exec, ◌>>=◌, ◌>>◌,
  pure, throw, gets, modify, Result-cases, ok_inj, ok_ne_err, bind_result,
}
use forgeos_web.Domain.{Database, World, record_audit}
use forgeos_web.Domain.Confirmation.{Confirmations}
use forgeos_web.Domain.Command.{CommandType, RemoteCommand}
use forgeos_web.Domain.Session.{SessionStatus, status_eq, ChargingSession}
use forgeos_web.Commands.{mark_unconfirmed, CommandState, command_at, state_eq, confirm_command}
use forgeos_web.Sessions.{session_at}

-- The map and the timers that run.
unfoldable pub start_window : ℕ → Confirmations → Confirmations
start_window command_id c = record {
  timers = JsMap.put c.timers command_id c.next_timer;
  running = JsMap.put c.running c.next_timer command_id;
  next_timer = c.next_timer + 1;
}

unfoldable pub clear : ℕ → Confirmations → Confirmations
clear command_id c = elim (JsMap.get c.timers command_id) [
  | none ↦ c
  | some timer ↦ record c {
    timers = JsMap.remove c.timers command_id;
    running = JsMap.remove c.running timer;
  }
]

-- The timer has fired, and `timers.delete` is run for its command.
unfoldable pub fired : (timer command_id : ℕ) → Confirmations → Confirmations
fired timer command_id c = record c {
  timers = JsMap.remove c.timers command_id;
  running = JsMap.remove c.running timer;
}

abbrev is_start : CommandType → Bool
is_start CommandType.remote_start = true
is_start type = false

abbrev is_stop : CommandType → Bool
is_stop CommandType.remote_stop = true
is_stop type = false

abbrev pub starts_on : (station_id connector_id : ℕ) → RemoteCommand → Bool
starts_on station_id connector_id c =
    c.charging_station_id == station_id
    && (is_some_of c.connector_id connector_id
        && (is_start c.command_type && state_eq c.state CommandState.accepted))

abbrev pub stops_session : ℕ → RemoteCommand → Bool
stops_session session_id c =
    is_some_of c.charging_session_id session_id
    && (is_stop c.command_type && state_eq c.state CommandState.accepted)

abbrev started_since : (connector_id since : ℕ) → ChargingSession → Bool
started_since connector_id since s =
    s.connector_id == connector_id
    && (status_eq s.status SessionStatus.active && leb since s.started_at)

module _ {db : Database} where
  abbrev pub on_timers : (Confirmations → Confirmations) → World db → World db
  on_timers f w = record w { confirmations = f w.confirmations }

  unfoldable pub schedule_expiry : ℕ → World db → World db
  schedule_expiry command_id = on_timers (start_window command_id)

  unfoldable pub clear_timer : ℕ → World db → World db
  clear_timer command_id = on_timers (clear command_id)

  -- `try { await m } catch { log }`
  abbrev ignore_error : {A : Type 0} → Exec (World db) A → World db → World db
  ignore_error m w = (m w).1

  unfoldable pub confirm : ℕ → (linked_session_id : Option ℕ) → World db → World db
  unfolding clear_timer
  confirm command_id session w =
      ignore_error (confirm_command command_id session) (clear_timer command_id w)

  abbrev pub confirm_found : Option ℕ → Option RemoteCommand → World db → World db
  confirm_found session none w = w
  confirm_found session (some command) w = confirm command.id session w

  unfoldable pub on_start_transaction_observed :
      (station_id connector_id session_id : ℕ) → World db → World db
  on_start_transaction_observed station_id connector_id session_id w =
      confirm_found (some session_id)
        (db.commands.find_first w.commands (starts_on station_id connector_id)) w

  unfoldable pub on_stop_transaction_observed : (session_id : ℕ) → World db → World db
  on_stop_transaction_observed session_id w =
      confirm_found none (db.commands.find_first w.commands (stops_session session_id)) w

  unfoldable pub check_started : RemoteCommand → Option ChargingSession → World db → World db
  unfolding confirm
  check_started command none w = w
  check_started command (some session) w = confirm command.id (some session.id) w

  unfoldable pub check_stopped : RemoteCommand → Option ChargingSession → World db → World db
  check_stopped command none w = w
  check_stopped command (some session) w =
      if status_eq session.status SessionStatus.completed then confirm command.id none w else w

  abbrev pub check_start : RemoteCommand → Option ℕ → World db → World db
  check_start command none w = w
  check_start command (some connector_id) w =
      check_started command
        (db.sessions.find_first w.sessions (started_since connector_id command.requested_at)) w

  abbrev pub check_stop : RemoteCommand → Option ℕ → World db → World db
  check_stop command none w = w
  check_stop command (some session_id) w = check_stopped command (session_at w session_id) w

  unfoldable pub check_immediately : RemoteCommand → World db → World db
  unfolding check_started check_stopped
  check_immediately command w = elim command.command_type [
    | CommandType.remote_start ↦ check_start command command.connector_id w
    | CommandType.remote_stop ↦ check_stop command command.charging_session_id w
    | _ ↦ w
  ]

  unfoldable pub register_accepted : RemoteCommand → World db → World db
  register_accepted command w =
      if state_eq command.state CommandState.accepted
      then check_immediately command (schedule_expiry command.id w)
      else w

  unfoldable pub expire_found : Option RemoteCommand → World db → World db
  expire_found none w = w
  expire_found (some command) w =
      if state_eq command.state CommandState.accepted
      then ignore_error (mark_unconfirmed command.id) w
      else w

  unfoldable pub expire_of : (timer : ℕ) → Option ℕ → World db → World db
  unfolding expire_found
  expire_of timer none w = w
  expire_of timer (some command_id) w =
      let w' = on_timers (fired timer command_id) w in expire_found (command_at w' command_id) w'

  -- The timer fires, if it still runs.
  unfoldable pub expire_window : (timer : ℕ) → World db → World db
  unfolding expire_of
  expire_window timer w = expire_of timer (JsMap.get w.confirmations.running timer) w
