-- ===== src/Examples/Charging.antt =====
-- The properties of charging sessions at concrete states.
use forgeos_web.Base.{◌≡◌, refl, true, false, some, arith}
use forgeos_web.Base.Int.{pos}
use forgeos_web.Base.Result.{ok}
use forgeos_web.Domain.Session.{SessionStatus, ChargingSession, ProtocolVersion, TerminationReason}
use forgeos_web.Sessions.{CreateSessionInput, StopSessionInput, SessionOp, stop_session}
use forgeos_web.Sessions.Outcome.{stored, stopped, with_row}
use forgeos_web.Sessions.Lifetime.{
  LifecycleOp, changes, creates, run_lifecycle, has_creation, Keeps, Keeps-refl, IsConsiderate,
  run_lifecycle-Keeps,
}
use forgeos_web.Sessions.Stopping.{stop_session_outcome}
use forgeos_web.Sessions.Occupancy.{SingleOccupancy}
use forgeos_web.Sessions.Creation.{Interleaving, create_session}
use forgeos_web.Sessions.Creation.Exclusive.{IsTame, create_session-SingleOccupancy}
use forgeos_web.Base.{ℕ, ◌⊎◌, List, is_none, true, some, [], ◌∷◌, ◌≡◌, none, refl}
use forgeos_web.Domain.{World}
use forgeos_web.Sessions.{session_at, is_non_terminal}
use forgeos_web.Sessions.Creation
use forgeos_web.Sessions.Creation.Returned.{create_session_served}
use forgeos_web.Examples.{sample_db, session_of, sample}

abbrev pub calm : Interleaving sample_db
calm = record { before_insert = λ w. w; before_transaction = λ w. w; refused = false }

pub calm-IsTame : IsTame calm
calm-IsTame = record { insert_keeps = λ w h. h; transaction_keeps = λ w h. h }

pub sample-SingleOccupancy : SingleOccupancy sample
sample-SingleOccupancy i j a b at_a at_b open_a open_b same = ground arith

abbrev sample_input : CreateSessionInput
sample_input = record {
  organization_id = 1;
  site_id = 1;
  charging_station_id = 5;
  evse_id = 3;
  connector_id = 3;
  authorization_credential_id = 1;
  protocol_version = ProtocolVersion.ocpp1_6j;
  meter_start = pos 500;
  started_at = 900;
}

create_session-SingleOccupancy_example : SingleOccupancy (create_session calm sample_input sample).1
create_session-SingleOccupancy_example =
    create_session-SingleOccupancy calm sample_input sample calm-IsTame sample-SingleOccupancy

abbrev stopping_input : StopSessionInput
stopping_input = record {
  meter_stop = pos 4200;
  reason = TerminationReason.normal_completion;
  ended_at = some 990;
}

abbrev life : List (LifecycleOp sample_db)
life =
    changes (SessionOp.suspends 1 true)
    ∷ creates calm sample_input
    ∷ changes (SessionOp.stops 1 stopping_input)
    ∷ []

calm-IsConsiderate : IsConsiderate calm
calm-IsConsiderate = record { insert_keeps = Keeps-refl; transaction_keeps = Keeps-refl }

run_lifecycle-Keeps_example :
    Keeps sample (run_lifecycle life sample)
    × ((i : ℕ)
        → (has_creation life ≡ true)
          ⊎ (is_none (session_at (run_lifecycle life sample) i) ≡ is_none (session_at sample i)))
run_lifecycle-Keeps_example = run_lifecycle-Keeps life sample (calm-IsConsiderate, tt)

abbrev stopped_row : ChargingSession
stopped_row =
    stored sample (stopped sample stopping_input (session_of 1 1 SessionStatus.active))
      (session_of 1 1 SessionStatus.active)

stop_session_outcome_example :
    stop_session 1 stopping_input sample ≡ (ok stopped_row, with_row sample stopped_row)
stop_session_outcome_example =
    stop_session_outcome 1 stopping_input sample (session_of 1 1 SessionStatus.active) refl

abbrev created : ChargingSession
created = record {
  id = 3;
  organization_id = 1;
  site_id = 1;
  charging_station_id = 5;
  evse_id = 3;
  connector_id = 3;
  authorization_credential_id = 1;
  billing_account_id = 0;
  protocol_version = ProtocolVersion.ocpp1_6j;
  protocol_transaction_id = 42;
  status = SessionStatus.active;
  termination_reason = none;
  meter_start = pos 500;
  meter_stop = none;
  energy_wh = pos 0;
  started_at = 900;
  ended_at = none;
  updated_at = 1000;
}

abbrev after_creation : World sample_db
after_creation = record sample {
  sessions = created ∷ sample.sessions;
  accounts = record { id = 0; organization_id = 1; system_default = true } ∷ [];
  counter = 42;
}

creation_done : create_session calm sample_input sample ≡ (ok created, after_creation)
unfolding Creation.create_session Creation.create_fresh
    Creation.resolve_system_default_billing_account_id Creation.resolve_account
    Creation.create_or_winner Creation.insert_account Creation.find_account Creation.in_transaction
    Creation.settle Creation.create_in_transaction Creation.create_or_reuse Creation.supersede
    Creation.next_transaction_id Creation.insert_session Creation.new_session Creation.reusable
    Creation.find_non_terminal_session_for_connector
creation_done = refl

create_session_served_example :
    (session_at after_creation 3 ≡ some created)
    × (created.connector_id ≡ 3)
    × (is_non_terminal SessionStatus.active ≡ true)
create_session_served_example =
    create_session_served calm sample_input sample after_creation created creation_done
