-- ===== src/Ocpp/Handlers/Ending.antt =====
-- What StopTransaction does, by the status of its session.
use forgeos_web.Base.{◌≡◌, refl, inl, inr, true, false, some, if◌then◌else◌, Bool-cases}
use forgeos_web.Base.Decimal.{Decimal}
use forgeos_web.Base.JsMap.{nat_eq, string_eq}
use forgeos_web.Base.Result.{Result, ok, err, invalid_transition}
use forgeos_web.Domain.{Database, World}
use forgeos_web.Ocpp.Events.{plain, TransactionEnd, DomainResult}
use forgeos_web.Ocpp.Handlers.{
  on_stop_transaction_observed, SessionStatus, has_transaction, ChargingStation, has_ended,
  map_stop_reason, end_for, find_session, ChargingSession, StopSessionInput,
  transaction_end_handler, stop_observed,
}
use forgeos_web.Sessions.{can_transition, session_at}
use forgeos_web.Sessions.Outcome.{
  update_session_found, stop_session_allowed, stopped, stored, with_row, stop_session_refused,
}

abbrev pub stop_input : TransactionEnd → StopSessionInput
stop_input event = record {
  meter_stop = event.meter_stop;
  reason = map_stop_reason event.reason;
  ended_at = some event.timestamp;
}

module _ {db : Database} where
  -- The row and the answer, for a session that is found.
  abbrev pub end_result :
      TransactionEnd → ChargingSession → World db → Result DomainResult × World db
  end_result event s w =
      if has_ended s.status
      then (ok (plain true), w)
      else if can_transition s.status SessionStatus.stopping
      then (
        ok (plain true),
        on_stop_transaction_observed s.id
            (with_row w (stored w (stopped w (stop_input event) s) s)),
      )
      else (err invalid_transition, w)

  stop_observed_done :
      (s : ChargingSession) (input : StopSessionInput) (w : World db)
      → session_at w s.id ≡ some s
      → can_transition s.status SessionStatus.stopping ≡ true
      → stop_observed s.id input w ≡ (
        ok (plain true),
        on_stop_transaction_observed s.id (with_row w (stored w (stopped w input s) s)),
      )
  unfolding stop_observed
  stop_observed_done s input w there allowed =
      rw
        (
          stop_session_allowed s.id input w s there allowed,
          update_session_found s.id (stopped w input s) w s there,
        )
        refl

  stop_observed_refused :
      (s : ChargingSession) (input : StopSessionInput) (w : World db)
      → session_at w s.id ≡ some s
      → can_transition s.status SessionStatus.stopping ≡ false
      → stop_observed s.id input w ≡ (err invalid_transition, w)
  unfolding stop_observed
  stop_observed_refused s input w there refused =
      rw (stop_session_refused s.id input w s there refused) refl

  find_session_sound :
      (station : ChargingStation) (ref : Decimal) (w : World db) (s : ChargingSession)
      → find_session station ref w ≡ some s
      → session_at w s.id ≡ some s
  unfolding find_session
  find_session_sound station ref w s found =
      (db.sessions.find_first_sound w.sessions (has_transaction station ref) s found).0

  -- A StopTransaction whose session is COMPLETED or FAILED is accepted and changes nothing, so a
  -- retransmission is harmless. One whose session is ACTIVE, SUSPENDED or OFFLINE completes it and
  -- then tells the confirmation service. On a session of any other status, CANCELLED among them, the
  -- handler throws and changes nothing, so that the charger gets no answer.
  pub transaction_end_handler_outcome :
      (event : TransactionEnd) (station : ChargingStation) (w : World db) (s : ChargingSession)
      → find_session station event.transaction_ref w ≡ some s
      → transaction_end_handler event station w ≡ end_result event s w
  unfolding transaction_end_handler end_for
  transaction_end_handler_outcome event station w s found =
      let there = find_session_sound station event.transaction_ref w s found in
      elim (Bool-cases (has_ended s.status)) [
        | inl over ↦ rw (found, over) refl
        | inr going ↦ elim (Bool-cases (can_transition s.status SessionStatus.stopping)) [
          | inl allowed ↦
              rw (found, going, allowed) (stop_observed_done s (stop_input event) w there allowed)
          | inr refused ↦
              rw (found, going, refused)
                (stop_observed_refused s (stop_input event) w there refused)
        ]
      ]
