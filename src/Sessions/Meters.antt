-- ===== src/Sessions/Meters.antt =====
-- apps/movos-api/src/sessions/meter-values.service.ts
pub mod Monotone
pub mod Outcome
pub mod Sequence
use Prim.Native.String.{String}
use forgeos_web.Base.{
  ℕ, suc, ◌+◌, ◌-◌, ◌*◌, ◌≤◌, ◌≡◌, ◌≢◌, refl, sym, ap, ◌⊎◌, inl, inr, ◌↔◌, Bool, true, false, ◌&&◌,
  ◌||◌, not, Option, none, some, List, [], ◌∷◌, ◌++◌, ◌==◌, ltb, leb, includes, length, is_none,
  is_some_of, if◌then◌else◌, arith, Bool-cases, Option-cases, ==_iff, ==_self, All,
}
use forgeos_web.Base.Int.{ℤ, pos, negsuc, ◌-ℤ◌, ◌≤ℤ◌, ltb_ℤ}
use forgeos_web.Base.Decimal.{Decimal}
use forgeos_web.Base.JsMap
use forgeos_web.Base.JsMap.{JsMap, nat_eq, string_eq, get-put, get-remove}
use forgeos_web.Base.Result.{
  Result, ok, err, Error, not_found, conflict, bad_request, invalid_transition, Exec, ◌>>=◌, ◌>>◌,
  pure, throw, gets, modify, Result-cases, ok_inj, ok_ne_err, bind_result,
}
use forgeos_web.Domain.{Database, World, record_audit}
use forgeos_web.Domain.Telemetry.{MeterValue}
use forgeos_web.Sessions.{session_at, update_energy}
use forgeos_web.Domain.Session.{ChargingSession}

pub record RecordMeterValueInput : Type 0 where
  pub session_id : ℕ
  pub timestamp : ℕ
  pub energy_wh : ℤ
  pub power_w : Option ℤ
  pub voltage : Option Decimal
  pub current : Option Decimal
  pub frequency : Option Decimal
  pub temperature : Option Decimal

abbrev pub row_of : RecordMeterValueInput → MeterValue
row_of input = record {
  session_id = input.session_id;
  timestamp = input.timestamp;
  energy_wh = input.energy_wh;
  power_w = input.power_w;
  voltage = input.voltage;
  current = input.current;
  frequency = input.frequency;
  temperature = input.temperature;
}

abbrev pub with_meter_value : {db : Database} → MeterValue → World db → World db
with_meter_value row w = record w { meter_values = row ∷ w.meter_values }

unfoldable pub raise_energy : {db : Database} → ℕ → (old new : ℤ) → Exec (World db) (Unit {0})
raise_energy id old new = if ltb_ℤ old new then (do _ ← update_energy id new; pure tt) else pure tt

unfoldable pub append_reading :
    {db : Database} → ChargingSession → RecordMeterValueInput → Exec (World db) (Option MeterValue)
append_reading session input = do
  modify (with_meter_value (row_of input))
  raise_energy session.id session.energy_wh input.energy_wh
  pure (some (row_of input))

unfoldable pub record_reading :
    {db : Database}
    → Option ChargingSession
    → RecordMeterValueInput
    → Exec (World db) (Option MeterValue)
record_reading none input = pure none
record_reading (some session) input =
    if ltb_ℤ input.energy_wh session.energy_wh then pure none else append_reading session input

unfoldable pub record_meter_value :
    {db : Database} → RecordMeterValueInput → Exec (World db) (Option MeterValue)
record_meter_value input = do
  session ← gets (λ w. session_at w input.session_id)
  record_reading session input
