-- ===== src/Sessions/Occupancy.antt =====
-- The sessions of a connector that have not ended.
use forgeos_web.Base.{ℕ, ◌≡◌, ◌≢◌, sym, ◌∙◌, true, none, some, inl, inr, arith, Option-cases}
use forgeos_web.Domain.{Database, World}
use forgeos_web.Domain.Session.{ChargingSession}
use forgeos_web.Sessions.{is_non_terminal, session_at}
use forgeos_web.Sessions.Evolution.{Continues, Evolves}

abbrev pub SingleOccupancy : {db : Database} → World db → Type 0
SingleOccupancy w =
    (i j : ℕ) (a b : ChargingSession)
    → session_at w i ≡ some a
    → session_at w j ≡ some b
    → is_non_terminal a.status ≡ true
    → is_non_terminal b.status ≡ true
    → a.connector_id ≡ b.connector_id
    → i ≡ j

-- No session that is not ended stands on the connector.
abbrev pub IsFree : {db : Database} → ℕ → World db → Type 0
IsFree connector w =
    (i : ℕ) (a : ChargingSession)
    → session_at w i ≡ some a
    → is_non_terminal a.status ≡ true
    → a.connector_id ≢ connector

pub Continues-non_terminal :
    (a b : ChargingSession)
    → Continues a b
    → is_non_terminal b.status ≡ true
    → is_non_terminal a.status ≡ true
Continues-non_terminal a b c h = ground arith

module _ {db : Database} where
  -- Where each session comes from.
  pub Evolves-origin :
      (w w' : World db) (i : ℕ) (b : ChargingSession)
      → Evolves w w'
      → session_at w' i ≡ some b
      → (a : ChargingSession) × (session_at w i ≡ some a) × Continues a b
  Evolves-origin w w' i b h e = elim (Option-cases (session_at w i)) [
    | inl missing ↦ let gone : none ≡ some b = cc (h.no_new i missing) in absurd (cc gone)
    | inr (a, there) ↦
        let (d, f, c) = h.kept i a there in let same : d ≡ b = cc in (a, there, rw (← same) c)
  ]

  pub Evolves-SingleOccupancy :
      (w w' : World db) → Evolves w w' → SingleOccupancy w → SingleOccupancy w'
  Evolves-SingleOccupancy w w' h single i j a b at_a at_b open_a open_b same =
      let (a', at_a', ca) = Evolves-origin w w' i a h at_a in
      let (b', at_b', cb) = Evolves-origin w w' j b h at_b in
      single i j a' b' at_a' at_b' (Continues-non_terminal a' a ca open_a)
        (Continues-non_terminal b' b cb open_b) (ca.same_connector ∙ same ∙ sym cb.same_connector)

  pub Evolves-IsFree :
      (w w' : World db) (connector : ℕ) → Evolves w w' → IsFree connector w → IsFree connector w'
  Evolves-IsFree w w' connector h free i b at_b open_b same =
      let (a, at_a, c) = Evolves-origin w w' i b h at_b in
      free i a at_a (Continues-non_terminal a b c open_b) (c.same_connector ∙ same)
