-- ===== src/Sessions/Creation/Returned.antt =====
-- What `createSession` returns, beside what is stored.
use forgeos_web.Base.{
  ℕ, ◌≡◌, refl, ◌∙◌, Bool, true, false, Option, none, some, inl, inr, arith, Option-cases, ==_self,
}
use forgeos_web.Base.Result.{ok, conflict, serialization_failure, Result-cases, ok_ne_err, ok_inj}
use forgeos_web.Domain.{Database, World}
use forgeos_web.Domain.Session.{ChargingSession}
use forgeos_web.Sessions.{is_non_terminal, session_at, CreateSessionInput}
use forgeos_web.Sessions.Creation.{
  same_transaction, Interleaving, occupies, find_non_terminal_session_for_connector, reusable,
  resolve_system_default_billing_account_id, new_session, insert_session, supersede,
  create_or_reuse, create_in_transaction, settle, in_transaction, create_fresh, create_session,
  next_transaction_id, rolled_back,
}

reusable_same :
    (now : ℕ) (o : Option ChargingSession) (s : ChargingSession)
    → reusable now o ≡ some s
    → o ≡ some s
unfolding reusable
reusable_same now none s e = ground arith
reusable_same now (some r) s e = ground arith

module _ {db : Database} where
  abbrev IsServed : CreateSessionInput → ChargingSession → World db → Type 0
  IsServed input s w =
      (session_at w s.id ≡ some s)
      × (s.connector_id ≡ input.connector_id)
      × (is_non_terminal s.status ≡ true)

  reusable-IsServed :
      (input : CreateSessionInput) (w : World db) (s : ChargingSession)
      → reusable w.now (find_non_terminal_session_for_connector input.connector_id w) ≡ some s
      → IsServed input s w
  unfolding find_non_terminal_session_for_connector
  reusable-IsServed input w s e =
      let found =
        reusable_same w.now (db.sessions.find_first w.sessions (occupies input.connector_id)) s e in
      let (there, occupied) =
        db.sessions.find_first_sound w.sessions (occupies input.connector_id) s found in
      (there, ground (arith, occupied), ground (arith, occupied))

  abbrev inserted : ℕ → CreateSessionInput → ℕ → World db → ChargingSession
  inserted account input transaction_id w =
      new_session (db.sessions.fresh w.sessions) account transaction_id w.now input

  insert_free :
      (account : ℕ) (input : CreateSessionInput) (transaction_id : ℕ) (w : World db)
      → db.sessions.find_first w.sessions
          (same_transaction input.charging_station_id transaction_id)
        ≡ none
      → insert_session account input transaction_id w ≡ (
        ok (inserted account input transaction_id w),
        record w {
          sessions = db.sessions.put w.sessions (inserted account input transaction_id w);
        },
      )
  unfolding insert_session
  insert_free account input transaction_id w free = rw (free, insert_session) refl

  kept_as_is :
      (account : ℕ) (input : CreateSessionInput) (w : World db) (r : ChargingSession)
      → reusable w.now (find_non_terminal_session_for_connector input.connector_id w) ≡ some r
      → create_in_transaction account input w ≡ (ok r, w)
  unfolding create_in_transaction create_or_reuse
  kept_as_is account input w r kept = rw kept refl

  insert-IsServed :
      (account : ℕ) (input : CreateSessionInput) (transaction_id : ℕ) (w w' : World db)
      (s : ChargingSession)
      → insert_session account input transaction_id w ≡ (ok s, w')
      → IsServed input s w'
  unfolding insert_session new_session
  insert-IsServed account input transaction_id w w' s e =
      elim (Option-cases (
        db.sessions.find_first w.sessions
          (same_transaction input.charging_station_id transaction_id))) [
            | inr (r, taken) ↦
                absurd (ok_ne_err _ s conflict w' w e (rw (taken, insert_session) refl))
            | inl free ↦
                let row = inserted account input transaction_id w in
                let (same_row, same_world) =
                  ok_inj _ _ _ _ _ (insert_free account input transaction_id w free) e in
                rw (same_row, same_world)
                  (
                    ground
                        (arith, db.sessions.find_unique-put w.sessions row row.id, ==_self row.id),
                    refl,
                    refl,
                  )
          ]

  create_or_reuse-IsServed :
      (account : ℕ) (input : CreateSessionInput) (existing : Option ChargingSession)
      (w w' : World db) (s : ChargingSession)
      → create_or_reuse account input existing none w ≡ (ok s, w')
      → IsServed input s w'
  unfolding create_or_reuse next_transaction_id
  create_or_reuse-IsServed account input existing w w' s e =
      elim (Result-cases (supersede existing w)) [
        | inr (x, u, failed) ↦ absurd (ok_ne_err _ s x w' u e (rw failed refl))
        | inl (done, v, cleared) ↦ insert-IsServed account input _ _ w' s (rw cleared at e)
      ]

  transaction-IsServed :
      (account : ℕ) (input : CreateSessionInput) (w w' : World db) (s : ChargingSession)
      → create_in_transaction account input w ≡ (ok s, w')
      → IsServed input s w'
  unfolding create_in_transaction create_or_reuse
  transaction-IsServed account input w w' s e =
      elim (Option-cases
        (reusable w.now (find_non_terminal_session_for_connector input.connector_id w))) [
          | inr (r, kept) ↦
              let (same, still) = ok_inj _ _ _ _ _ (kept_as_is account input w r kept) e in
              rw (same, still) (reusable-IsServed input w r kept)
          | inl fresh ↦
              create_or_reuse-IsServed account input
                (find_non_terminal_session_for_connector input.connector_id w) w w' s
                (rw fresh at e)
        ]

  in_transaction-IsServed :
      (refused : Bool) (account : ℕ) (input : CreateSessionInput) (w w' : World db)
      (s : ChargingSession)
      → in_transaction refused (create_in_transaction account input) w ≡ (ok s, w')
      → IsServed input s w'
  unfolding in_transaction settle
  in_transaction-IsServed true account input w w' s e =
      absurd (ok_ne_err _ s serialization_failure w' _ e refl)
  in_transaction-IsServed false account input w w' s e =
      elim (Result-cases (create_in_transaction account input w)) [
        | inr (x, u, failed) ↦ absurd (ok_ne_err _ s x w' (rolled_back w u) e (rw failed refl))
        | inl (r, v, made) ↦ transaction-IsServed account input w w' s (made ∙ (rw made at e))
      ]

  create_fresh-IsServed :
      (env : Interleaving db) (input : CreateSessionInput) (w w' : World db) (s : ChargingSession)
      → create_fresh env input none w ≡ (ok s, w')
      → IsServed input s w'
  unfolding create_fresh
  create_fresh-IsServed env input w w' s e =
      elim (Result-cases (resolve_system_default_billing_account_id env input.organization_id w)) [
        | inr (x, u, failed) ↦ absurd (ok_ne_err _ s x w' u e (rw failed refl))
        | inl (account, v, billed) ↦
            in_transaction-IsServed env.refused account input (env.before_transaction v) w' s
              (rw billed at e)
      ]

  kept_first :
      (env : Interleaving db) (input : CreateSessionInput) (w : World db) (r : ChargingSession)
      → reusable w.now (find_non_terminal_session_for_connector input.connector_id w) ≡ some r
      → create_session env input w ≡ (ok r, w)
  unfolding create_session create_fresh
  kept_first env input w r kept = rw kept refl

  -- A session that `createSession` returns is on the connector asked for, has not ended, and is the
  -- row that is stored, whichever path it was returned on and whatever other requests did meanwhile.
  pub create_session_served :
      (env : Interleaving db) (input : CreateSessionInput) (w w' : World db) (s : ChargingSession)
      → create_session env input w ≡ (ok s, w')
      → (session_at w' s.id ≡ some s)
        × (s.connector_id ≡ input.connector_id)
        × (is_non_terminal s.status ≡ true)
  unfolding create_session
  create_session_served env input w w' s e =
      elim (Option-cases
        (reusable w.now (find_non_terminal_session_for_connector input.connector_id w))) [
          | inr (r, kept) ↦
              let (same, still) = ok_inj _ _ _ _ _ (kept_first env input w r kept) e in
              rw (same, still) (reusable-IsServed input w r kept)
          | inl fresh ↦ create_fresh-IsServed env input w w' s (rw fresh at e)
        ]
