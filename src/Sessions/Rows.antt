-- ===== src/Sessions/Rows.antt =====
-- What a write of one session's row shows of every row.
use forgeos_web.Base.{ℕ, ◌≡◌, ◌⊎◌, inl, inr, some, ◌==◌, ==_iff, Bool-cases, if◌then◌else◌}
use forgeos_web.Domain.{Database, World}
use forgeos_web.Domain.Session.{ChargingSession}
use forgeos_web.Sessions.{session_at}
use forgeos_web.Sessions.Outcome.{with_row}

module _ {db : Database} where
  -- What a write does to each row.
  pub session_at-put :
      (w : World db) (row : ChargingSession) (i : ℕ)
      → db.sessions.find_unique (db.sessions.put w.sessions row) i
        ≡ (if row.id == i then some row else session_at w i)
  session_at-put w row i = db.sessions.find_unique-put w.sessions row i

  -- A row after a write is the one written or an old one.
  pub with_row-origin :
      (w : World db) (row : ChargingSession) (i : ℕ) (a : ChargingSession)
      → session_at (with_row w row) i ≡ some a
      → ((row.id ≡ i) × (row ≡ a)) ⊎ (session_at w i ≡ some a)
  with_row-origin w row i a h = elim (Bool-cases (row.id == i)) [
    | inl e ↦
        let hit : some row ≡ some a = rw (session_at-put w row i, e) at h in
        inl ((==_iff row.id i).0 e, cc)
    | inr e ↦ inr (rw (session_at-put w row i, e) at h)
  ]

  pub with_row-hit :
      (w : World db) (row : ChargingSession) (i : ℕ)
      → row.id ≡ i
      → session_at (with_row w row) i ≡ some row
  with_row-hit w row i e = rw (session_at-put w row i, (==_iff row.id i).1 e)
