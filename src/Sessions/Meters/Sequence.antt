-- ===== src/Sessions/Meters/Sequence.antt =====
-- A whole sequence of readings.
use forgeos_web.Base.{
  ℕ, ◌∙◌, ◌≡◌, refl, sym, ap, inl, inr, none, some, List, [], ◌∷◌, ◌==◌, arith, Bool-cases,
  Option-cases, ==_iff,
}
use forgeos_web.Base.Int.{◌≤ℤ◌, ltb_ℤ}
use forgeos_web.Base.JsMap.{nat_eq, string_eq}
use forgeos_web.Base.Result.{ok}
use forgeos_web.Domain.{Database, World}
use forgeos_web.Domain.Session.{ChargingSession}
use forgeos_web.Sessions.Meters.{
  record_reading, record_meter_value, session_at, RecordMeterValueInput,
}
use forgeos_web.Sessions.Meters.Monotone.{raised, record_meter_value_lem, reading_result}
use forgeos_web.Sessions.{is_terminal}
use forgeos_web.Sessions.Outcome.{stored, with_row}
use forgeos_web.Sessions.Rows.{session_at-put, with_row-hit}

-- The session of one row after another: its energy has not gone down, and nothing else of it but the
-- time of its update has changed.
abbrev pub Rises : ChargingSession → ChargingSession → Type 0
Rises a b =
    (a.energy_wh ≤ℤ b.energy_wh)
    × (b ≡ record a { energy_wh = b.energy_wh; updated_at = b.updated_at })

Rises-refl : (a : ChargingSession) → Rises a a
Rises-refl a = (omega arith, refl)

Rises-trans : (a b c : ChargingSession) → Rises a b → Rises b c → Rises a c
Rises-trans a b c (h, e) (g, f) = (
  omega (arith, h, g),
  f
      ∙ ap {A = ChargingSession}
          (λ x. record x { energy_wh = c.energy_wh; updated_at = c.updated_at }) e,
)

module _ {db : Database} where
  abbrev StillThere : ℕ → ChargingSession → World db → Type 0
  StillThere i a w = (b : ChargingSession) × (session_at w i ≡ some b) × Rises a b

  abbrev pub record_all : List RecordMeterValueInput → World db → World db
  record_all [] w = w
  record_all (r ∷ rs) w = record_all rs (record_meter_value r w).1

  unique :
      (w : World db) (i j : ℕ) (s a : ChargingSession)
      → i ≡ j
      → session_at w i ≡ some s
      → session_at w j ≡ some a
      → a ≡ s
  unique w i j s a e own there = cc

  put-StillThere :
      (w : World db) (s row : ChargingSession) (i : ℕ) (a : ChargingSession)
      → row.id ≡ s.id
      → session_at w s.id ≡ some s
      → session_at w i ≡ some a
      → Rises s row
      → StillThere i a (with_row w row)
  put-StillThere w s row i a same own there rises = elim (Bool-cases (row.id == i)) [
    | inl e ↦
        let at_i : s.id ≡ i = sym same ∙ (==_iff row.id i).0 e in
        let is_s : a ≡ s = unique w s.id i s a at_i own there in
        (row, with_row-hit w row i ((==_iff row.id i).0 e), rw is_s rises)
    | inr e ↦ (a, session_at-put w row i ∙ rw e there, Rises-refl a)
  ]

  reading_result-StillThere :
      (s : ChargingSession) (r : RecordMeterValueInput) (w : World db) (i : ℕ) (a : ChargingSession)
      → session_at w s.id ≡ some s
      → session_at w i ≡ some a
      → StillThere i a (reading_result s r w).1
  reading_result-StillThere s r w i a own there =
      elim (Bool-cases (ltb_ℤ r.energy_wh s.energy_wh)) [
        | inl less ↦ rw less (a, there, Rises-refl a)
        | inr rest ↦ rw rest (elim (Bool-cases (ltb_ℤ s.energy_wh r.energy_wh)) [
          | inr same ↦ rw same (a, there, Rises-refl a)
          | inl more ↦ rw more (elim (Bool-cases (is_terminal s.status)) [
            | inl closed ↦ rw closed (a, there, Rises-refl a)
            | inr going ↦ rw going (
                put-StillThere w s (stored w (raised r.energy_wh) s) i a refl own there
                  (ground (arith, more), refl))
          ])
        ])
      ]

  reading_missing :
      (r : RecordMeterValueInput) (w : World db)
      → session_at w r.session_id ≡ none
      → record_meter_value r w ≡ (ok none, w)
  unfolding record_meter_value record_reading
  reading_missing r w missing = rw missing refl

  reading-StillThere :
      (r : RecordMeterValueInput) (w : World db) (i : ℕ) (a : ChargingSession)
      → session_at w i ≡ some a
      → StillThere i a (record_meter_value r w).1
  reading-StillThere r w i a there = elim (Option-cases (session_at w r.session_id)) [
    | inl missing ↦ rw (reading_missing r w missing) (a, there, Rises-refl a)
    | inr (s, own) ↦
        let key : s.id ≡ r.session_id = db.sessions.find_unique_key w.sessions r.session_id s own in
        rw (record_meter_value_lem r w s own)
          (reading_result-StillThere s r w i a (ap (session_at w) key ∙ own) there)
  ]

  -- Whatever readings come, for whatever sessions and in whatever order, no session's energy goes
  -- down, and no other field of a session is written but the time of its update.
  pub record_all-Rises :
      (rs : List RecordMeterValueInput) (w : World db) (i : ℕ) (a : ChargingSession)
      → session_at w i ≡ some a
      → (b : ChargingSession) × (session_at (record_all rs w) i ≡ some b) × Rises a b
  record_all-Rises [] w i a there = (a, there, Rises-refl a)
  record_all-Rises (r ∷ rs) w i a there =
      let (b, stays, rises) = reading-StillThere r w i a there in
      let (c, stays', rises') = record_all-Rises rs (record_meter_value r w).1 i b stays in
      (c, stays', Rises-trans a b c rises rises')
