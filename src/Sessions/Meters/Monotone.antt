-- ===== src/Sessions/Meters/Monotone.antt =====
-- What readings do to a session's energy.
use forgeos_web.Base.{
  ℕ, ◌∙◌, ◌≡◌, refl, ap, inl, inr, true, false, Option, none, some, if◌then◌else◌, Bool-cases,
}
use forgeos_web.Base.Int.{ℤ, ltb_ℤ}
use forgeos_web.Base.JsMap.{nat_eq, string_eq}
use forgeos_web.Base.Result.{Result, ok, err, invalid_transition}
use forgeos_web.Domain.{Database, World}
use forgeos_web.Sessions.Meters.{
  row_of, record_reading, with_meter_value, MeterValue, record_meter_value, append_reading,
  RecordMeterValueInput, session_at, raise_energy,
}
use forgeos_web.Domain.Session.{ChargingSession}
use forgeos_web.Sessions.{is_terminal}
use forgeos_web.Sessions.Outcome.{
  update_session_found, update_energy_allowed, stored, with_row, update_energy_refused,
}

abbrev pub raised : ℤ → ChargingSession → ChargingSession
raised new s = record s { energy_wh = new }

module _ {db : Database} where
  raise_energy_same :
      (id : ℕ) (old new : ℤ) (w : World db)
      → ltb_ℤ old new ≡ false
      → raise_energy id old new w ≡ (ok tt, w)
  unfolding raise_energy
  raise_energy_same id old new w e = rw e refl

  raise_energy_refused :
      (a : ChargingSession) (id : ℕ) (new : ℤ) (w : World db)
      → session_at w id ≡ some a
      → ltb_ℤ a.energy_wh new ≡ true
      → is_terminal a.status ≡ true
      → raise_energy id a.energy_wh new w ≡ (err invalid_transition, w)
  unfolding raise_energy
  raise_energy_refused a id new w there more closed =
      rw (more, update_energy_refused id new w a there closed) refl

  raise_energy_kept :
      (a : ChargingSession) (id : ℕ) (new : ℤ) (w : World db)
      → session_at w id ≡ some a
      → ltb_ℤ a.energy_wh new ≡ true
      → is_terminal a.status ≡ false
      → raise_energy id a.energy_wh new w ≡ (ok tt, with_row w (stored w (raised new) a))
  unfolding raise_energy
  raise_energy_kept a id new w there more going =
      rw
        (
          more,
          update_energy_allowed id new w a there going,
          update_session_found id (raised new) w a there,
        )
        refl

  -- The result of a reading of a session that is there.
  abbrev pub reading_result :
      ChargingSession → RecordMeterValueInput → World db → Result (Option MeterValue) × World db
  reading_result a input w =
      let w' = with_meter_value (row_of input) w in
      if ltb_ℤ input.energy_wh a.energy_wh
      then (ok none, w)
      else if ltb_ℤ a.energy_wh input.energy_wh
      then if is_terminal a.status
        then (err invalid_transition, w')
        else (ok (some (row_of input)), with_row w' (stored w' (raised input.energy_wh) a))
      else (ok (some (row_of input)), w')

  append_reading_outcome :
      (a : ChargingSession) (input : RecordMeterValueInput) (w : World db)
      → session_at w a.id ≡ some a
      → append_reading a input w ≡ (
          let w' = with_meter_value (row_of input) w in
          if ltb_ℤ a.energy_wh input.energy_wh
          then if is_terminal a.status
            then (err invalid_transition, w')
            else (ok (some (row_of input)), with_row w' (stored w' (raised input.energy_wh) a))
          else (ok (some (row_of input)), w'))
  unfolding append_reading
  append_reading_outcome a input w there =
      let w' = with_meter_value (row_of input) w in
      elim (Bool-cases (ltb_ℤ a.energy_wh input.energy_wh)) [
        | inr same ↦ rw (same, raise_energy_same a.id a.energy_wh input.energy_wh w' same) refl
        | inl more ↦ elim (Bool-cases (is_terminal a.status)) [
          | inl closed ↦
              rw (more, closed, raise_energy_refused a a.id input.energy_wh w' there more closed)
                refl
          | inr going ↦
              rw (more, going, raise_energy_kept a a.id input.energy_wh w' there more going) refl
        ]
      ]

  pub record_meter_value_lem :
      (input : RecordMeterValueInput) (w : World db) (a : ChargingSession)
      → session_at w input.session_id ≡ some a
      → record_meter_value input w ≡ reading_result a input w
  unfolding record_meter_value record_reading
  record_meter_value_lem input w a there =
      let own : a.id ≡ input.session_id =
        db.sessions.find_unique_key w.sessions input.session_id a there in
      let there' : session_at w a.id ≡ some a = ap (session_at w) own ∙ there in
      elim (Bool-cases (ltb_ℤ input.energy_wh a.energy_wh)) [
        | inl less ↦ rw (there, less) refl
        | inr rest ↦ rw (there, rest) (append_reading_outcome a input w there')
      ]
