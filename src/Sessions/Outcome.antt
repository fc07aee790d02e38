-- ===== src/Sessions/Outcome.antt =====
-- The results of the lifecycle operations, case by case.
use forgeos_web.Base.{ℕ, ◌≡◌, true, false, none, some}
use forgeos_web.Base.Int.{ℤ, ◌-ℤ◌, max_zero}
use forgeos_web.Base.Result.{ok, err, not_found, invalid_transition}
use forgeos_web.Domain.{Database, World}
use forgeos_web.Domain.Session.{
  SessionStatus, stopping, completed, ChargingSession, TerminationReason,
}
use forgeos_web.Sessions.{
  is_terminal, can_transition, session_at, require_session, assert_transition_allowed,
  update_session, transition, end_session, StopSessionInput, stop_session, or_now, update_energy,
}

module _ {db : Database} where
  -- The row that an update stores.
  abbrev pub stored :
      World db → (ChargingSession → ChargingSession) → ChargingSession → ChargingSession
  stored w change a = record (change a) { updated_at = w.now }

  abbrev pub with_row : World db → ChargingSession → World db
  with_row w row = record w { sessions = db.sessions.put w.sessions row }

  pub update_session_found :
      (id : ℕ) (change : ChargingSession → ChargingSession) (w : World db) (a : ChargingSession)
      → session_at w id ≡ some a
      → update_session id change w ≡ (ok (stored w change a), with_row w (stored w change a))
  unfolding update_session
  update_session_found id change w a e = rw (e, update_session)

  pub require_session_found :
      (id : ℕ) (w : World db) (a : ChargingSession)
      → session_at w id ≡ some a
      → require_session id w ≡ (ok a, w)
  unfolding require_session
  require_session_found id w a e = rw (e, require_session)

  pub require_session_missing :
      (id : ℕ) (w : World db) → session_at w id ≡ none → require_session id w ≡ (err not_found, w)
  unfolding require_session
  require_session_missing id w e = rw (e, require_session)

  pub transition_missing :
      (id : ℕ) (target : SessionStatus) (w : World db)
      → session_at w id ≡ none
      → transition id target w ≡ (err not_found, w)
  unfolding transition
  transition_missing id target w e = rw (require_session_missing id w e)

  pub transition_refused :
      (id : ℕ) (target : SessionStatus) (w : World db) (a : ChargingSession)
      → session_at w id ≡ some a
      → can_transition a.status target ≡ false
      → transition id target w ≡ (err invalid_transition, w)
  unfolding transition assert_transition_allowed
  transition_refused id target w a e refused = rw (require_session_found id w a e, refused)

  pub transition_allowed :
      (id : ℕ) (target : SessionStatus) (w : World db) (a : ChargingSession)
      → session_at w id ≡ some a
      → can_transition a.status target ≡ true
      → transition id target w ≡ update_session id (λ s. record s { status = target }) w
  unfolding transition assert_transition_allowed
  transition_allowed id target w a e allowed = rw (require_session_found id w a e, allowed)

  abbrev pub ended :
      World db → SessionStatus → TerminationReason → ChargingSession → ChargingSession
  ended w target reason s = record s {
    status = target;
    termination_reason = some reason;
    ended_at = some w.now;
  }

  pub end_session_missing :
      (id : ℕ) (target : SessionStatus) (reason : TerminationReason) (w : World db)
      → session_at w id ≡ none
      → end_session id target reason w ≡ (err not_found, w)
  unfolding end_session
  end_session_missing id target reason w e = rw (require_session_missing id w e)

  pub end_session_refused :
      (id : ℕ) (target : SessionStatus) (reason : TerminationReason) (w : World db)
      (a : ChargingSession)
      → session_at w id ≡ some a
      → can_transition a.status target ≡ false
      → end_session id target reason w ≡ (err invalid_transition, w)
  unfolding end_session assert_transition_allowed
  end_session_refused id target reason w a e refused = rw (require_session_found id w a e, refused)

  pub end_session_allowed :
      (id : ℕ) (target : SessionStatus) (reason : TerminationReason) (w : World db)
      (a : ChargingSession)
      → session_at w id ≡ some a
      → can_transition a.status target ≡ true
      → end_session id target reason w ≡ update_session id (ended w target reason) w
  unfolding end_session assert_transition_allowed
  end_session_allowed id target reason w a e allowed = rw (require_session_found id w a e, allowed)

  abbrev pub stopped :
      World db → StopSessionInput → ChargingSession → ChargingSession → ChargingSession
  stopped w input a s = record s {
    status = completed;
    meter_stop = some input.meter_stop;
    energy_wh = max_zero (input.meter_stop -ℤ a.meter_start);
    termination_reason = some input.reason;
    ended_at = some (or_now input.ended_at w.now);
  }

  pub stop_session_missing :
      (id : ℕ) (input : StopSessionInput) (w : World db)
      → session_at w id ≡ none
      → stop_session id input w ≡ (err not_found, w)
  unfolding stop_session
  stop_session_missing id input w e = rw (require_session_missing id w e)

  pub stop_session_refused :
      (id : ℕ) (input : StopSessionInput) (w : World db) (a : ChargingSession)
      → session_at w id ≡ some a
      → can_transition a.status stopping ≡ false
      → stop_session id input w ≡ (err invalid_transition, w)
  unfolding stop_session assert_transition_allowed
  stop_session_refused id input w a e refused = rw (require_session_found id w a e, refused)

  pub stop_session_allowed :
      (id : ℕ) (input : StopSessionInput) (w : World db) (a : ChargingSession)
      → session_at w id ≡ some a
      → can_transition a.status stopping ≡ true
      → stop_session id input w ≡ update_session id (stopped w input a) w
  unfolding stop_session assert_transition_allowed
  stop_session_allowed id input w a e allowed = rw (require_session_found id w a e, allowed)

  pub update_energy_missing :
      (id : ℕ) (energy : ℤ) (w : World db)
      → session_at w id ≡ none
      → update_energy id energy w ≡ (err not_found, w)
  unfolding update_energy
  update_energy_missing id energy w e = rw (require_session_missing id w e)

  pub update_energy_refused :
      (id : ℕ) (energy : ℤ) (w : World db) (a : ChargingSession)
      → session_at w id ≡ some a
      → is_terminal a.status ≡ true
      → update_energy id energy w ≡ (err invalid_transition, w)
  unfolding update_energy
  update_energy_refused id energy w a e closed = rw (require_session_found id w a e, closed)

  pub update_energy_allowed :
      (id : ℕ) (energy : ℤ) (w : World db) (a : ChargingSession)
      → session_at w id ≡ some a
      → is_terminal a.status ≡ false
      → update_energy id energy w ≡ update_session id (λ s. record s { energy_wh = energy }) w
  unfolding update_energy
  update_energy_allowed id energy w a e open_ = rw (require_session_found id w a e, open_)
