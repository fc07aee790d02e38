-- ===== src/Connectivity/Closing.antt =====
-- `handleConnectionClosed` and the sessions of its station.
use mathlib.Core.List.{Memᴰ}
use mathlib.Core.Option
use forgeos_web.Base.{
  ℕ, ◌≡◌, ◌≢◌, refl, ap, ◌∙◌, Bool, true, false, ◌||◌, some, List, [], ◌∷◌, ◌==◌, ==_iff, All,
  DistinctBy, arith, inl, inr, Bool-cases, Option-cases, if◌then◌else◌,
}
use forgeos_web.Base.Result.{ok}
use forgeos_web.Domain.{Database, World}
use forgeos_web.Domain.Audit.{session_moved_offline}
use forgeos_web.Domain.Session.{offline, ChargingSession}
use forgeos_web.Domain.Station.{ChargingStation}
use forgeos_web.Sessions.{session_at, can_transition, suspend_session}
use forgeos_web.Sessions.Outcome.{stored, with_row, transition_allowed, update_session_found}
use forgeos_web.Sessions.Rows.{session_at-put}
use forgeos_web.Connectivity.{
  is_affected, move_offline, reconcile_sessions_offline, update_station, ConnectionClosedInput,
  handle_connection_closed,
}

abbrev listed : ℕ → List ChargingSession → Bool
listed j [] = false
listed j (x ∷ xs) = x.id == j || listed j xs

not-listed :
    (i j : ℕ) (xs : List ChargingSession)
    → All (λ (y : ChargingSession). i ≢ y.id) xs
    → i ≡ j
    → listed j xs ≡ false
not-listed i j [] h e = refl
not-listed i j (x ∷ xs) h e = ground (arith, not-listed i j xs h.1 e, ==_iff x.id j, h.0)

listed_of_mem :
    (a : ChargingSession) (j : ℕ) (xs : List ChargingSession)
    → Memᴰ a xs
    → a.id ≡ j
    → listed j xs ≡ true
listed_of_mem a j [] m e = elim m [ ]
listed_of_mem a j (x ∷ xs) (Memᴰ.head same) e =
    ground (arith, ap (λ (s : ChargingSession). s.id) same, ==_iff x.id j)
listed_of_mem a j (x ∷ xs) (Memᴰ.tail m) e = ground (arith, listed_of_mem a j xs m e)

affected_movable :
    (s : ChargingSession) (station_id : ℕ)
    → is_affected station_id s ≡ true
    → can_transition s.status offline ≡ true
affected_movable s station_id h = ground arith

module _ {db : Database} where
  abbrev pub off : World db → ChargingSession → ChargingSession
  off w s = stored w (λ r. record r { status = offline }) s

  -- What the loss of the station's connection makes of a session.
  abbrev pub taken_offline : World db → ℕ → ChargingSession → ChargingSession
  taken_offline w station_id s = if is_affected station_id s then off w s else s

  abbrev IsMovable : World db → ChargingSession → Type 0
  IsMovable w s = (session_at w s.id ≡ some s) × (can_transition s.status offline ≡ true)

  listed_sound :
      (w : World db) (j : ℕ) (xs : List ChargingSession) (p : ChargingSession → Bool)
      → All (λ a. (session_at w a.id ≡ some a) × (p a ≡ true)) xs
      → listed j xs ≡ true
      → (a : ChargingSession) × (session_at w j ≡ some a) × (p a ≡ true)
  listed_sound w j [] p h e = absurd (cc e)
  listed_sound w j (x ∷ xs) p h e = elim (Bool-cases (x.id == j)) [
    | inl here ↦ (x, rw (← (==_iff x.id j).0 here) h.0.0, h.0.1)
    | inr later ↦ listed_sound w j xs p h.1 (rw later at e)
  ]

  suspend_offline :
      (w : World db) (s : ChargingSession)
      → IsMovable w s
      → suspend_session s.id true w ≡ (ok (off w s), with_row w (off w s))
  unfolding suspend_session
  suspend_offline w s (there, allowed) =
      transition_allowed s.id offline w s there allowed
      ∙ update_session_found s.id (λ r. record r { status = offline }) w s there

  abbrev moved : World db → ChargingSession → World db
  moved w s =
      let w' = with_row w (off w s) in
      record w' { audit = record { action = session_moved_offline; subject_id = s.id } ∷ w.audit }

  IsMovable-moved :
      (w : World db) (x : ChargingSession) (xs : List ChargingSession)
      → All (λ (y : ChargingSession). x.id ≢ y.id) xs
      → All (IsMovable w) xs
      → All (IsMovable (moved w x)) xs
  IsMovable-moved w x [] d h = tt
  IsMovable-moved w x (y ∷ ys) d h = (
    (ground (arith, session_at-put w (off w x) y.id, d.0, h.0), h.0.1),
    IsMovable-moved w x ys d.1 h.1,
  )

  Moved : World db → World db → List ChargingSession → Type 0
  Moved w w' xs =
      (j : ℕ)
      → session_at w' j
        ≡ (if listed j xs then Option.map (off w) (session_at w j) else session_at w j)

  move_offline-All :
      (xs : List ChargingSession) (w : World db)
      → All (IsMovable w) xs
      → DistinctBy (λ (s : ChargingSession). s.id) xs
      → (w' : World db) × (move_offline xs w ≡ (ok tt, w')) × Moved w w' xs
  unfolding move_offline Moved
  move_offline-All [] w h d = (w, refl, λ j. refl)
  move_offline-All (x ∷ xs) w h d =
      let (w', done, rows) = move_offline-All xs (moved w x) (IsMovable-moved w x xs d.0 h.1) d.1 in
      (
        w',
        rw (suspend_offline w x h.0) done,
        λ j.
            let e = session_at-put w (off w x) j in
            let r = rows j in
            ground (
              arith,
              e,
              r,
              not-listed x.id j xs d.0,
              ==_iff x.id j,
              ap (session_at w) ((==_iff x.id j).0 _),
            ),
      )

  All-IsMovable :
      (w : World db) (station_id : ℕ) (xs : List ChargingSession)
      → All (λ s. (session_at w s.id ≡ some s) × (is_affected station_id s ≡ true)) xs
      → All (IsMovable w) xs
  All-IsMovable w station_id [] h = tt
  All-IsMovable w station_id (x ∷ xs) h =
      ((h.0.0, affected_movable x station_id h.0.1), All-IsMovable w station_id xs h.1)

  -- The rows that the query lists are those that pass its test.
  Option-map-listed :
      (w : World db) (station_id j : ℕ)
      → let xs = db.sessions.find_many w.sessions (is_affected station_id) in
        (if listed j xs then Option.map (off w) (session_at w j) else session_at w j)
        ≡ Option.map (taken_offline w station_id) (session_at w j)
  Option-map-listed w station_id j = elim (Option-cases (session_at w j)) [
    | inl missing ↦ ground (arith, missing)
    | inr (s, there) ↦ elim (Bool-cases (is_affected station_id s)) [
      | inl affected ↦ ground (
        arith,
        there,
        affected,
        listed_of_mem s j _
            (db.sessions.find_many_complete w.sessions (is_affected station_id) j s there affected)
            (db.sessions.find_unique_key w.sessions j s there),
      )
      | inr apart ↦
          elim (Bool-cases (listed j (db.sessions.find_many w.sessions (is_affected station_id)))) [
            | inl in_list ↦
                let (a, at_a, passes) =
                  listed_sound w j _ (is_affected station_id)
                    (db.sessions.find_many_sound w.sessions (is_affected station_id)) in_list in
                let same : a ≡ s = cc in absurd (cc (ap (is_affected station_id) same))
            | inr out ↦ ground (arith, there, apart, out)
          ]
    ]
  ]

  reconcile_all :
      (station_id : ℕ) (w : World db)
      → (w' : World db) × (reconcile_sessions_offline station_id w ≡ (ok tt, w'))
        × ((j : ℕ) → session_at w' j ≡ Option.map (taken_offline w station_id) (session_at w j))
  unfolding reconcile_sessions_offline Moved
  reconcile_all station_id w =
      let xs = db.sessions.find_many w.sessions (is_affected station_id) in
      let (w', done, rows) =
        move_offline-All xs w
          (All-IsMovable w station_id xs
            (db.sessions.find_many_sound w.sessions (is_affected station_id)))
          (db.sessions.find_many_distinct w.sessions (is_affected station_id)) in
      (w', done, λ j. rows j ∙ Option-map-listed w station_id j)

  pub update_station_found :
      (id : ℕ) (change : ChargingStation → ChargingStation) (w : World db)
      (station : ChargingStation)
      → db.stations.find_unique w.stations id ≡ some station
      → update_station id change w
        ≡ (ok tt, record w { stations = db.stations.put w.stations (change station) })
  unfolding update_station
  update_station_found id change w station e = rw (e, update_station)

  -- For a station that exists, the handler of a closed connection (clean or stale alike) succeeds,
  -- and afterwards every session of the station that was ACTIVE or SUSPENDED is OFFLINE, written
  -- at this instant and otherwise unchanged, and every other session's row is what it was.
  pub handle_connection_closed_outcome :
      (input : ConnectionClosedInput) (w : World db) (station : ChargingStation)
      → db.stations.find_unique w.stations input.charging_station_id ≡ some station
      → (w' : World db) × (handle_connection_closed input w ≡ (ok tt, w'))
        × ((j : ℕ)
            → session_at w' j
              ≡ Option.map (taken_offline w input.charging_station_id) (session_at w j))
  unfolding handle_connection_closed
  handle_connection_closed_outcome input w station e =
      rw (update_station_found input.charging_station_id _ w station e)
        (reconcile_all input.charging_station_id _)
