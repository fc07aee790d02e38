-- ===== src/Sessions/Evolution.antt =====
-- How the sessions of the database may change while handlers of the lifecycle service run.
use forgeos_web.Base.{
  ℕ, ◌≤◌, ◌≡◌, refl, true, false, Option, none, some, inl, inr, ◌==◌, ==_iff, arith, Bool-cases,
  Option-cases,
}
use forgeos_web.Base.Int.{ℤ}
use forgeos_web.Domain.{Database, World}
use forgeos_web.Domain.Session.{
  SessionStatus, pending, authorized, starting, active, suspended, offline, stopping, completed,
  failed, cancelled, ChargingSession, TerminationReason,
}
use forgeos_web.Sessions.Outcome.{
  transition_missing, transition_refused, transition_allowed, end_session_missing,
  end_session_refused, end_session_allowed, ended, stop_session_missing, stop_session_refused,
  stop_session_allowed, stopped, update_energy_missing, update_energy_refused,
  update_energy_allowed,
}
use forgeos_web.Sessions.Rows.{session_at-put}
use forgeos_web.Sessions.{
  SessionOp, run_op, StopSessionInput, stop_session, update_energy, is_terminal, can_transition,
  session_at, update_session, transition, end_session,
}

-- How far a session is: before, during and after charging.
abbrev pub phase : SessionStatus → ℕ
phase pending = 0
phase authorized = 1
phase starting = 2
phase active = 3
phase suspended = 3
phase offline = 3
phase stopping = 4
phase completed = 5
phase failed = 5
phase cancelled = 5

-- `b` is a later state of the session `a`: the same session, no earlier in its life, and the very
-- same row if `a` has ended.
pub record Continues (a b : ChargingSession) : Type 0 where
  pub same_id : a.id ≡ b.id
  pub same_organization : a.organization_id ≡ b.organization_id
  pub same_station : a.charging_station_id ≡ b.charging_station_id
  pub same_connector : a.connector_id ≡ b.connector_id
  pub same_credential : a.authorization_credential_id ≡ b.authorization_credential_id
  pub same_account : a.billing_account_id ≡ b.billing_account_id
  pub same_transaction : a.protocol_transaction_id ≡ b.protocol_transaction_id
  pub same_meter_start : a.meter_start ≡ b.meter_start
  pub forward : phase a.status ≤ phase b.status
  pub ended_stays : is_terminal a.status ≡ true → a ≡ b

pub Continues-refl : (a : ChargingSession) → Continues a a
Continues-refl a = ground arith

pub Continues-trans : (a b c : ChargingSession) → Continues a b → Continues b c → Continues a c
Continues-trans a b c h k = ground arith

-- No session is lost or made, and each goes on.
pub record Evolves {db : Database} (w w' : World db) : Type 0 where
  pub kept :
      (i : ℕ) (a : ChargingSession)
      → session_at w i ≡ some a
      → (b : ChargingSession) × (session_at w' i ≡ some b) × Continues a b
  pub no_new : (i : ℕ) → session_at w i ≡ none → session_at w' i ≡ none

-- Each transition that the table allows leads forward, and none leaves a final status.
pub can_transition_forward :
    (s t : SessionStatus)
    → can_transition s t ≡ true
    → (phase s ≤ phase t) × (is_terminal s ≡ false)
can_transition_forward s t h = ground arith

module _ {db : Database} where
  pub Evolves-same : (w w' : World db) → w.sessions ≡ w'.sessions → Evolves w w'
  Evolves-same w w' e = record {
    kept = λ i a h. (a, rw (← e) h, Continues-refl a);
    no_new = λ i h. rw (← e) h;
  }

  pub Evolves-trans : (u v w : World db) → Evolves u v → Evolves v w → Evolves u w
  Evolves-trans u v w h k = record {
    kept = λ i a e.
        let (b, f, c) = h.kept i a e in
        let (d, g, c') = k.kept i b f in (d, g, Continues-trans a b d c c');
    no_new = λ i e. k.no_new i (h.no_new i e);
  }

  module _ (w : World db) (id : ℕ) (a row : ChargingSession) (at_a : session_at w id ≡ some a)
      (c : Continues a row) where
    after : ℕ → Option ChargingSession
    after i = db.sessions.find_unique (db.sessions.put w.sessions row) i

    written : (i : ℕ) → (row.id == i) ≡ true → id ≡ i
    written i e =
        omega (
          arith,
          (==_iff row.id i).0 e,
          c.same_id,
          db.sessions.find_unique_key w.sessions id a at_a,
        )

    after_kept :
        (i : ℕ) (b : ChargingSession)
        → session_at w i ≡ some b
        → (d : ChargingSession) × (after i ≡ some d) × Continues b d
    unfolding after
    after_kept i b h = elim (Bool-cases (row.id == i)) [
      | inl e ↦
          let b_is_a : a ≡ b = cc (written i e) in
          (row, rw (session_at-put w row i, e) refl, rw (← b_is_a) c)
      | inr e ↦ (b, rw (session_at-put w row i, e) h, Continues-refl b)
    ]

    after_no_new : (i : ℕ) → session_at w i ≡ none → after i ≡ none
    unfolding after
    after_no_new i h = elim (Bool-cases (row.id == i)) [
      | inl e ↦ cc (written i e)
      | inr e ↦ rw (session_at-put w row i, e) h
    ]

    pub put-Evolves : Evolves w (record w { sessions = db.sessions.put w.sessions row })
    unfolding after
    put-Evolves = record { kept = after_kept; no_new = after_no_new }

  -- A write of a row that goes on from the one that is there.
  pub update_session-Evolves :
      (id : ℕ) (change : ChargingSession → ChargingSession) (w : World db)
      → ((a : ChargingSession)
          → session_at w id ≡ some a
          → Continues a (record (change a) { updated_at = w.now }))
      → Evolves w (update_session id change w).1
  unfolding update_session
  update_session-Evolves id change w goes_on = elim (Option-cases (session_at w id)) [
    | inl e ↦ rw (e, update_session) (Evolves-same w w refl)
    | inr (a, e) ↦
        rw (e, update_session)
          (put-Evolves w id a (record (change a) { updated_at = w.now }) e (goes_on a e))
  ]

  pub transition-Evolves :
      (id : ℕ) (target : SessionStatus) (w : World db) → Evolves w (transition id target w).1
  transition-Evolves id target w = elim (Option-cases (session_at w id)) [
    | inl e ↦ rw (transition_missing id target w e) (Evolves-same w w refl)
    | inr (a, e) ↦ elim (Bool-cases (can_transition a.status target)) [
      | inl allowed ↦ rw (transition_allowed id target w a e allowed) (
          update_session-Evolves id (λ s. record s { status = target }) w
            (λ b f.
              let same : a ≡ b = cc in ground (arith, can_transition_forward a.status target)))
      | inr refused ↦ rw (transition_refused id target w a e refused) (Evolves-same w w refl)
    ]
  ]

  pub end_session-Evolves :
      (id : ℕ) (target : SessionStatus) (reason : TerminationReason) (w : World db)
      → Evolves w (end_session id target reason w).1
  end_session-Evolves id target reason w = elim (Option-cases (session_at w id)) [
    | inl e ↦ rw (end_session_missing id target reason w e) (Evolves-same w w refl)
    | inr (a, e) ↦ elim (Bool-cases (can_transition a.status target)) [
      | inl allowed ↦ rw (end_session_allowed id target reason w a e allowed) (
          update_session-Evolves id (ended w target reason) w (λ b f.
            let same : a ≡ b = cc in ground (arith, can_transition_forward a.status target)))
      | inr refused ↦
          rw (end_session_refused id target reason w a e refused) (Evolves-same w w refl)
    ]
  ]

  pub stop_session-Evolves :
      (id : ℕ) (input : StopSessionInput) (w : World db) → Evolves w (stop_session id input w).1
  stop_session-Evolves id input w = elim (Option-cases (session_at w id)) [
    | inl e ↦ rw (stop_session_missing id input w e) (Evolves-same w w refl)
    | inr (a, e) ↦ elim (Bool-cases (can_transition a.status stopping)) [
      | inl allowed ↦ rw (stop_session_allowed id input w a e allowed) (
          update_session-Evolves id (stopped w input a) w (λ b f.
            let same : a ≡ b = cc in ground (arith, can_transition_forward a.status stopping)))
      | inr refused ↦ rw (stop_session_refused id input w a e refused) (Evolves-same w w refl)
    ]
  ]

  pub update_energy-Evolves :
      (id : ℕ) (energy : ℤ) (w : World db) → Evolves w (update_energy id energy w).1
  update_energy-Evolves id energy w = elim (Option-cases (session_at w id)) [
    | inl e ↦ rw (update_energy_missing id energy w e) (Evolves-same w w refl)
    | inr (a, e) ↦ elim (Bool-cases (is_terminal a.status)) [
      | inl closed ↦ rw (update_energy_refused id energy w a e closed) (Evolves-same w w refl)
      | inr running ↦ rw (update_energy_allowed id energy w a e running) (
          update_session-Evolves id (λ s. record s { energy_wh = energy }) w
            (λ b f. let same : a ≡ b = cc in ground arith))
    ]
  ]

  pub run_op-Evolves : (op : SessionOp) (w : World db) → Evolves w (run_op op w).1
  unfolding run_op
  run_op-Evolves (SessionOp.activates id) w = transition-Evolves id active w
  run_op-Evolves (SessionOp.suspends id to_offline) w = transition-Evolves id _ w
  run_op-Evolves (SessionOp.resumes id) w = transition-Evolves id active w
  run_op-Evolves (SessionOp.fails id reason) w = end_session-Evolves id failed reason w
  run_op-Evolves (SessionOp.cancels id reason) w = end_session-Evolves id cancelled reason w
  run_op-Evolves (SessionOp.stops id input) w = stop_session-Evolves id input w
  run_op-Evolves (SessionOp.updates_energy id energy) w = update_energy-Evolves id energy w
