-- ===== src/Connectivity/Recovery.antt =====
-- What a station's new connection does to its sessions.
use forgeos_web.Base.{
  ℕ, ◌≡◌, ◌⊎◌, refl, ◌∙◌, true, false, Option, none, some, ◌==◌, ◌∷◌, arith, inl, inr, Bool-cases,
  Option-cases, if◌then◌else◌,
}
use forgeos_web.Base.Result.{ok}
use forgeos_web.Domain.{Database, World}
use forgeos_web.Domain.Audit.{AuditAction, session_recovered, session_recovery_rejected}
use forgeos_web.Domain.Session.{active, offline, ChargingSession}
use forgeos_web.Domain.Station.{ChargingStation}
use forgeos_web.Sessions.{session_at, resume_session, is_offline_session_recoverable}
use forgeos_web.Sessions.Outcome.{stored, with_row, transition_allowed, update_session_found}
use forgeos_web.Sessions.Rows.{session_at-put}
use forgeos_web.Connectivity.Closing.{update_station_found}
use forgeos_web.Connectivity.{
  is_offline_at, conflicts_with, attempt_recovery, recover_if_any, ConnectionEstablishedInput,
  handle_connection_established, brought_online, established_action,
}

abbrev with_audit : {db : Database} → AuditAction → ChargingSession → World db → World db
with_audit action s w = record w { audit = record { action = action; subject_id = s.id } ∷ w.audit }

module _ {db : Database} where
  abbrev pub resumed : World db → ChargingSession → ChargingSession
  resumed w s = stored w (λ r. record r { status = active }) s

  -- One OFFLINE session of the station, left recently enough and with no rival on its connector,
  -- is ACTIVE again; all other rows are as they were.
  pub record Resumes (w w' : World db) (station_id : ℕ) (s : ChargingSession) : Type 0 where
    pub there : session_at w s.id ≡ some s
    pub here : s.charging_station_id ≡ station_id
    pub was_offline : s.status ≡ offline
    pub recent : is_offline_session_recoverable w.now s ≡ true
    pub no_rival :
        (i : ℕ) (r : ChargingSession) → session_at w i ≡ some r → conflicts_with s r ≡ false
    pub rows :
        (j : ℕ) → session_at w' j ≡ (if s.id == j then some (resumed w s) else session_at w j)

  abbrev pub Untouched : World db → World db → Type 0
  Untouched w w' = (j : ℕ) → session_at w' j ≡ session_at w j

  abbrev Outcome : World db → World db → ℕ → Type 0
  Outcome w w' station_id = Untouched w w' ⊎ ((s : ChargingSession) × Resumes w w' station_id s)

  resume_found :
      (w : World db) (s : ChargingSession)
      → session_at w s.id ≡ some s
      → s.status ≡ offline
      → resume_session s.id w ≡ (ok (resumed w s), with_row w (resumed w s))
  unfolding resume_session
  resume_found w s there was_offline =
      transition_allowed s.id active w s there (ground arith)
      ∙ update_session_found s.id (λ r. record r { status = active }) w s there

  attempt_recovery-Outcome :
      (w : World db) (station_id : ℕ) (s : ChargingSession)
      → session_at w s.id ≡ some s
      → s.charging_station_id ≡ station_id
      → s.status ≡ offline
      → (w' : World db) × (attempt_recovery s w ≡ (ok tt, w')) × Outcome w w' station_id
  unfolding attempt_recovery
  attempt_recovery-Outcome w station_id s there here was_offline =
      elim (Option-cases (db.sessions.find_first w.sessions (conflicts_with s))) [
        | inl none_found ↦ elim (Bool-cases (is_offline_session_recoverable w.now s)) [
          | inl recent ↦ (
            with_audit session_recovered s (with_row w (resumed w s)),
            rw (none_found, recent, resume_found w s there was_offline) refl,
            inr (
              s,
              record {
                there = there;
                here = here;
                was_offline = was_offline;
                recent = recent;
                no_rival =
                    λ i r. db.sessions.find_first_none w.sessions (conflicts_with s) i r none_found;
                rows = session_at-put w (resumed w s);
              },
            ),
          )
          | inr late ↦ (
            with_audit session_recovery_rejected s w,
            rw (none_found, late) refl,
            inl (λ j. refl),
          )
        ]
        | inr (rival, found) ↦
            (with_audit session_recovery_rejected s w, rw found refl, inl (λ j. refl))
      ]

  recover_if_any-Outcome :
      (w : World db) (station_id : ℕ) (o : Option ChargingSession)
      → db.sessions.find_first w.sessions (is_offline_at station_id) ≡ o
      → (w' : World db) × (recover_if_any o w ≡ (ok tt, w')) × Outcome w w' station_id
  unfolding recover_if_any
  recover_if_any-Outcome w station_id none found = (w, refl, inl (λ j. refl))
  recover_if_any-Outcome w station_id (some s) found =
      let (there, passes) =
        db.sessions.find_first_sound w.sessions (is_offline_at station_id) s found in
      attempt_recovery-Outcome w station_id s there (ground arith) (ground arith)

  -- The state in which the handler turns to the session that it found.
  abbrev reached : ConnectionEstablishedInput → World db → ChargingStation → World db
  reached input w station = record w {
    stations = db.stations.put w.stations (brought_online input w.now station);
    audit =
        record {
          action =
              established_action
                (db.sessions.find_first w.sessions (is_offline_at input.charging_station_id));
          subject_id = input.charging_station_id;
        }
        ∷ w.audit;
  }

  handle_connection_established-reached :
      (input : ConnectionEstablishedInput) (w : World db) (station : ChargingStation)
      → db.stations.find_unique w.stations input.charging_station_id ≡ some station
      → handle_connection_established input w
        ≡ recover_if_any
            (db.sessions.find_first w.sessions (is_offline_at input.charging_station_id))
            (reached input w station)
  unfolding handle_connection_established
  handle_connection_established-reached input w station e =
      rw (update_station_found input.charging_station_id (brought_online input w.now) w station e)
        refl

  Outcome-reached :
      (input : ConnectionEstablishedInput) (w w' : World db) (station : ChargingStation) (id : ℕ)
      → Outcome (reached input w station) w' id
      → Outcome w w' id
  Outcome-reached input w w' station id (inl same) = inl same
  Outcome-reached input w w' station id (inr (s, r)) = inr (
    s,
    record {
      there = r.there;
      here = r.here;
      was_offline = r.was_offline;
      recent = r.recent;
      no_rival = r.no_rival;
      rows = r.rows;
    },
  )

  -- For a station that exists, the handler of a new connection succeeds. Either every session's row
  -- stays as it was, or exactly one session of the station is resumed: one that was OFFLINE, within
  -- the recovery window, with no other session in progress on its connector.
  pub handle_connection_established_outcome :
      (input : ConnectionEstablishedInput) (w : World db) (station : ChargingStation)
      → db.stations.find_unique w.stations input.charging_station_id ≡ some station
      → (w' : World db) × (handle_connection_established input w ≡ (ok tt, w'))
        × (Untouched w w' ⊎ ((s : ChargingSession) × Resumes w w' input.charging_station_id s))
  handle_connection_established_outcome input w station e =
      let (w', done, outcome) =
        recover_if_any-Outcome (reached input w station) input.charging_station_id
          (db.sessions.find_first w.sessions (is_offline_at input.charging_station_id)) refl in
      (
        w',
        handle_connection_established-reached input w station e ∙ done,
        Outcome-reached input w w' station input.charging_station_id outcome,
      )
