-- ===== src/Sessions/Meters/Outcome.antt =====
-- What one reading leaves behind.
use forgeos_web.Base.{
  ℕ, ◌∙◌, ◌≡◌, refl, ◌⊎◌, inl, inr, true, false, ◌&&◌, not, Option, none, some, ◌∷◌, ◌==◌,
  if◌then◌else◌, arith, Bool-cases,
}
use forgeos_web.Base.Int.{◌≤ℤ◌, ltb_ℤ}
use forgeos_web.Base.JsMap.{nat_eq, string_eq}
use forgeos_web.Base.Result.{Result, ok, err, invalid_transition}
use forgeos_web.Domain.{Database, World}
use forgeos_web.Domain.Session.{ChargingSession}
use forgeos_web.Domain.Telemetry.{MeterValue}
use forgeos_web.Sessions.{is_terminal, session_at}
use forgeos_web.Sessions.Outcome.{stored}
use forgeos_web.Sessions.Rows.{session_at-put}
use forgeos_web.Sessions.Meters.{RecordMeterValueInput, row_of, record_meter_value}
use forgeos_web.Sessions.Meters.Monotone.{raised, reading_result, record_meter_value_lem}

-- The stored row has every measurement as it was read.
pub record IsReading (row : MeterValue) (input : RecordMeterValueInput) : Type 0 where
  pub same_session : row.session_id ≡ input.session_id
  pub same_timestamp : row.timestamp ≡ input.timestamp
  pub same_energy : row.energy_wh ≡ input.energy_wh
  pub same_power : row.power_w ≡ input.power_w
  pub same_voltage : row.voltage ≡ input.voltage
  pub same_current : row.current ≡ input.current
  pub same_frequency : row.frequency ≡ input.frequency
  pub same_temperature : row.temperature ≡ input.temperature

row_of-IsReading : (input : RecordMeterValueInput) → IsReading (row_of input) input
row_of-IsReading input = record {
  same_session = refl;
  same_timestamp = refl;
  same_energy = refl;
  same_power = refl;
  same_voltage = refl;
  same_current = refl;
  same_frequency = refl;
  same_temperature = refl;
}

module _ {db : Database} where
  -- A reading that is stored: its row is the newest, and the energy is taken over where it is above
  -- that of a session that has not ended.
  pub record IsStored (input : RecordMeterValueInput) (a : ChargingSession) (w : World db)
      (r : Result (Option MeterValue) × World db) : Type 0 where
    pub row : MeterValue
    pub reading : IsReading row input
    pub not_below : a.energy_wh ≤ℤ input.energy_wh
    pub newest : r.1.meter_values ≡ row ∷ w.meter_values
    pub answer : r.0 ≡ (
        if ltb_ℤ a.energy_wh input.energy_wh && is_terminal a.status
        then err invalid_transition
        else ok (some row))
    pub sessions :
        (i : ℕ)
        → session_at r.1 i ≡ (
            if a.id == i && (ltb_ℤ a.energy_wh input.energy_wh && not (is_terminal a.status))
            then some (record a { energy_wh = input.energy_wh; updated_at = w.now })
            else session_at w i)

  reading_result-IsStored :
      (input : RecordMeterValueInput) (a : ChargingSession) (w : World db)
      → ltb_ℤ input.energy_wh a.energy_wh ≡ false
      → IsStored input a w (reading_result a input w)
  reading_result-IsStored input a w rest =
      rw rest (elim (Bool-cases (ltb_ℤ a.energy_wh input.energy_wh)) [
        | inr same ↦ rw same (record {
          row = row_of input;
          reading = row_of-IsReading input;
          not_below = ground (arith, rest);
          newest = refl;
          answer = ground (arith, same);
          sessions = λ i. ground (arith, same);
        })
        | inl more ↦ rw more (elim (Bool-cases (is_terminal a.status)) [
          | inl closed ↦ rw closed (record {
            row = row_of input;
            reading = row_of-IsReading input;
            not_below = ground (arith, rest);
            newest = refl;
            answer = ground (arith, more, closed);
            sessions = λ i. ground (arith, more, closed);
          })
          | inr going ↦ rw going (record {
            row = row_of input;
            reading = row_of-IsReading input;
            not_below = ground (arith, rest);
            newest = refl;
            answer = ground (arith, more, going);
            sessions = λ i.
                session_at-put w (stored w (raised input.energy_wh) a) i
                ∙ ground (arith, more, going);
          })
        ])
      ])

  -- A reading below the energy of its session is dropped, and nothing changes. Any other is stored:
  -- a row with every measurement as it was read is the newest of the readings. If the reading is
  -- above the session's energy, then a session that has not ended takes it over, and on one that has
  -- ended the call throws, with the row stored all the same. No other session is touched.
  pub record_meter_value_outcome :
      (input : RecordMeterValueInput) (w : World db) (a : ChargingSession)
      → session_at w input.session_id ≡ some a
      → ((ltb_ℤ input.energy_wh a.energy_wh ≡ true) × (record_meter_value input w ≡ (ok none, w)))
        ⊎ IsStored input a w (record_meter_value input w)
  record_meter_value_outcome input w a there =
      elim (Bool-cases (ltb_ℤ input.energy_wh a.energy_wh)) [
        | inl below ↦ inl (below, record_meter_value_lem input w a there ∙ rw below refl)
        | inr rest ↦
            inr
              (rw (record_meter_value_lem input w a there) (reading_result-IsStored input a w rest))
      ]
