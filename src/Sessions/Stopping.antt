-- ===== src/Sessions/Stopping.antt =====
-- `stopSession` of session-lifecycle.service.ts: when it succeeds and what it stores.
use forgeos_web.Base.{
  ℕ, ◌≡◌, sym, ◌∙◌, if◌then◌else◌, Bool, true, false, some, inl, inr, arith, Bool-cases,
}
use forgeos_web.Base.Result.{ok, err, invalid_transition}
use forgeos_web.Domain.{Database, World}
use forgeos_web.Domain.Session.{
  SessionStatus, active, suspended, offline, stopping, ChargingSession,
}
use forgeos_web.Sessions.{can_transition, session_at, StopSessionInput, stop_session}
use forgeos_web.Sessions.Outcome.{
  stored, with_row, stopped, stop_session_refused, stop_session_allowed, update_session_found,
}

-- The vehicle is plugged in and its transaction runs, with or without energy or connection.
abbrev pub is_running : SessionStatus → Bool
is_running active = true
is_running suspended = true
is_running offline = true
is_running _ = false

running_stops : (s : SessionStatus) → can_transition s stopping ≡ is_running s
running_stops s = ground arith

module _ {db : Database} where
  -- A running session is stopped: the row stored is completed, has the final reading, the reason
  -- and the end time given (or now), and as energy the final reading less the first, at least 0.
  -- A session in any other status is left alone, and the call throws.
  pub stop_session_outcome :
      (id : ℕ) (input : StopSessionInput) (w : World db) (a : ChargingSession)
      → session_at w id ≡ some a
      → let row = stored w (stopped w input a) a in
        stop_session id input w
        ≡ (if is_running a.status then (ok row, with_row w row) else (err invalid_transition, w))
  stop_session_outcome id input w a e = elim (Bool-cases (can_transition a.status stopping)) [
    | inl allowed ↦
        rw (sym (running_stops a.status), allowed)
          (stop_session_allowed id input w a e allowed
            ∙ update_session_found id (stopped w input a) w a e)
    | inr refused ↦
        rw (sym (running_stops a.status), refused) (stop_session_refused id input w a e refused)
  ]
