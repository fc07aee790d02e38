-- ===== src/Sessions/Creation/Exclusive.antt =====
-- The sessions of a connector across `createSession`.
use forgeos_web.Base.{
  ℕ, ◌≡◌, refl, sym, ap, ◌∙◌, ◌∷◌, Bool, true, false, Option, none, some, inl, inr, arith,
  Option-cases,
}
use forgeos_web.Base.Result.{Result, ok, err, Exec, bind_result}
use forgeos_web.Domain.{Database, World}
use forgeos_web.Domain.Session.{failed, offline, network_failure, ChargingSession, BillingAccount}
use forgeos_web.Sessions.{
  is_non_terminal, can_transition, session_at, CreateSessionInput, fail_session,
}
use forgeos_web.Sessions.Outcome.{
  ended, stored, with_row, end_session_allowed, update_session_found,
}
use forgeos_web.Sessions.Rows.{with_row-origin, with_row-hit}
use forgeos_web.Sessions.Evolution.{end_session-Evolves}
use forgeos_web.Sessions.Occupancy.{SingleOccupancy, IsFree, Evolves-SingleOccupancy}
use forgeos_web.Sessions.Creation.{
  same_transaction, abandoned, insert_account, create_or_winner, resolve_account, Interleaving,
  occupies, find_non_terminal_session_for_connector, reusable,
  resolve_system_default_billing_account_id, next_transaction_id, new_session, insert_session,
  supersede, create_or_reuse, create_in_transaction, settle, in_transaction, create_fresh,
  create_session,
}

-- Only an expired OFFLINE session is not returned as it is.
not_reusable : (now : ℕ) (s : ChargingSession) → reusable now (some s) ≡ none → s.status ≡ offline
unfolding reusable
not_reusable now s e = ground arith

module _ {db : Database} where
  -- A new row on a free connector.
  insert-SingleOccupancy :
      (w : World db) (row : ChargingSession)
      → IsFree row.connector_id w
      → SingleOccupancy w
      → SingleOccupancy (with_row w row)
  insert-SingleOccupancy w row free single i j a b at_a at_b open_a open_b same =
      elim (with_row-origin w row i a at_a) [
        | inl (ei, ra) ↦ elim (with_row-origin w row j b at_b) [
          | inl (ej, rb) ↦ sym ei ∙ ej
          | inr old_b ↦
              absurd (free j b old_b open_b (sym same ∙ ap (λ s. s.connector_id) (sym ra)))
        ]
        | inr old_a ↦ elim (with_row-origin w row j b at_b) [
          | inl (ej, rb) ↦ absurd (free i a old_a open_a (same ∙ ap (λ s. s.connector_id) (sym rb)))
          | inr old_b ↦ single i j a b old_a old_b open_a open_b same
        ]
      ]

  insert_session-SingleOccupancy :
      (account : ℕ) (input : CreateSessionInput) (transaction_id : ℕ) (w : World db)
      → IsFree input.connector_id w
      → SingleOccupancy w
      → SingleOccupancy (insert_session account input transaction_id w).1
  unfolding insert_session
  insert_session-SingleOccupancy account input transaction_id w free single =
      elim (Option-cases (
        db.sessions.find_first w.sessions
          (same_transaction input.charging_station_id transaction_id))) [
            | inl e ↦
                rw (e, insert_session)
                  (insert-SingleOccupancy w
                    (new_session (db.sessions.fresh w.sessions) account transaction_id w.now input)
                    (unfold new_session in free) single)
            | inr (taken, e) ↦ rw (e, insert_session) single
          ]

  -- The state after Case C.
  abbrev superseded : World db → ChargingSession → World db
  superseded w expired =
      let w' = with_row w (stored w (ended w failed network_failure) expired) in
      record w' { audit = abandoned expired ∷ w.audit }

  supersede_nothing : (w : World db) → supersede none w ≡ (ok tt, w)
  unfolding supersede
  supersede_nothing w = refl

  supersede_found :
      (w : World db) (expired : ChargingSession)
      → session_at w expired.id ≡ some expired
      → can_transition expired.status failed ≡ true
      → supersede (some expired) w ≡ (ok tt, superseded w expired)
  unfolding supersede fail_session
  supersede_found w expired there allowed = rw (
    end_session_allowed expired.id failed network_failure w expired there allowed,
    update_session_found expired.id (ended w failed network_failure) w expired there,
  )

  superseded-IsFree :
      (w : World db) (expired : ChargingSession) (connector : ℕ)
      → SingleOccupancy w
      → session_at w expired.id ≡ some expired
      → expired.connector_id ≡ connector
      → is_non_terminal expired.status ≡ true
      → IsFree connector (superseded w expired)
  superseded-IsFree w expired connector single there placed open_ i a h open_a same =
      elim (with_row-origin w (stored w (ended w failed network_failure) expired) i a h) [
        | inl (e, written) ↦ cc (ap (λ s. is_non_terminal s.status) written)
        | inr old ↦
            let here : expired.id ≡ i =
              single expired.id i expired a there old open_ open_a (placed ∙ sym same) in
            let written : some (stored w (ended w failed network_failure) expired) ≡ some a =
              sym (with_row-hit w (stored w (ended w failed network_failure) expired) i here) ∙ h in
            let row_is_a : stored w (ended w failed network_failure) expired ≡ a = cc in
            cc (ap (λ s. is_non_terminal s.status) row_is_a)
      ]

  superseded-SingleOccupancy :
      (w : World db) (expired : ChargingSession)
      → session_at w expired.id ≡ some expired
      → can_transition expired.status failed ≡ true
      → SingleOccupancy w
      → SingleOccupancy (superseded w expired)
  superseded-SingleOccupancy w expired there allowed single =
      Evolves-SingleOccupancy w (with_row w (stored w (ended w failed network_failure) expired))
        (rw
          (
            end_session_allowed expired.id failed network_failure w expired there allowed,
            update_session_found expired.id (ended w failed network_failure) w expired there,
          )
          at (end_session-Evolves expired.id failed network_failure w))
        single

  find_occupant :
      (connector : ℕ) (w : World db) (s : ChargingSession)
      → find_non_terminal_session_for_connector connector w ≡ some s
      → (session_at w s.id ≡ some s)
        × (s.connector_id ≡ connector)
        × (is_non_terminal s.status ≡ true)
  unfolding find_non_terminal_session_for_connector
  find_occupant connector w s e =
      let (there, passes) = db.sessions.find_first_sound w.sessions (occupies connector) s e in
      (there, ground arith, ground arith)

  find_none-IsFree :
      (connector : ℕ) (w : World db)
      → find_non_terminal_session_for_connector connector w ≡ none
      → IsFree connector w
  unfolding find_non_terminal_session_for_connector
  find_none-IsFree connector w e i a there open_ same =
      let fails = db.sessions.find_first_none w.sessions (occupies connector) i a e there in
      ground arith

  create_or_reuse-SingleOccupancy :
      (account : ℕ) (input : CreateSessionInput) (w : World db)
      (existing reused : Option ChargingSession)
      → find_non_terminal_session_for_connector input.connector_id w ≡ existing
      → reusable w.now existing ≡ reused
      → SingleOccupancy w
      → SingleOccupancy (create_or_reuse account input existing reused w).1
  unfolding create_or_reuse next_transaction_id
  create_or_reuse-SingleOccupancy account input w existing (some s) e r single = single
  create_or_reuse-SingleOccupancy account input w none none e r single = rw supersede_nothing (
      insert_session-SingleOccupancy account input _ _ (find_none-IsFree input.connector_id w e)
        single)
  create_or_reuse-SingleOccupancy account input w (some s) none e r single =
      let (there, here, open_) = find_occupant input.connector_id w s e in
      let is_offline : s.status ≡ offline = not_reusable w.now s r in
      let allowed : can_transition s.status failed ≡ true = ground arith in
      rw (supersede_found w s there allowed) (
        insert_session-SingleOccupancy account input _ _
          (superseded-IsFree w s input.connector_id single there here open_)
          (superseded-SingleOccupancy w s there allowed single))

  create_in_transaction-SingleOccupancy :
      (account : ℕ) (input : CreateSessionInput) (w : World db)
      → SingleOccupancy w
      → SingleOccupancy (create_in_transaction account input w).1
  unfolding create_in_transaction
  create_in_transaction-SingleOccupancy account input w single =
      create_or_reuse-SingleOccupancy account input w _ _ refl refl single

  settle-SingleOccupancy :
      (refused : Bool) (w : World db) (r : Result ChargingSession × World db)
      → SingleOccupancy w
      → SingleOccupancy r.1
      → SingleOccupancy (settle refused w r).1
  unfolding settle
  settle-SingleOccupancy true w (r, w') single single' = single
  settle-SingleOccupancy false w (ok s, w') single single' = single'
  settle-SingleOccupancy false w (err e, w') single single' = single

  -- The other requests keep the invariant too.
  pub record IsTame (env : Interleaving db) : Type 0 where
    pub insert_keeps : (w : World db) → SingleOccupancy w → SingleOccupancy (env.before_insert w)
    pub transaction_keeps :
        (w : World db) → SingleOccupancy w → SingleOccupancy (env.before_transaction w)

  pub bind-SingleOccupancy :
      {A B : Type 0} (p : Result A × World db) (k : A → Exec (World db) B)
      → SingleOccupancy p.1
      → ((a : A) (w : World db) → SingleOccupancy w → SingleOccupancy (k a w).1)
      → SingleOccupancy (bind_result p k).1
  bind-SingleOccupancy (ok a, w) k single keeps = keeps a w single
  bind-SingleOccupancy (err e, w) k single keeps = single

  create_or_winner-SingleOccupancy :
      (organization_id : ℕ) (winner : Option BillingAccount) (w : World db)
      → SingleOccupancy w
      → SingleOccupancy (create_or_winner organization_id winner w).1
  unfolding create_or_winner insert_account
  create_or_winner-SingleOccupancy organization_id none w single = single
  create_or_winner-SingleOccupancy organization_id (some a) w single = single

  resolve_account-SingleOccupancy :
      (env : Interleaving db) (organization_id : ℕ) (existing : Option BillingAccount)
      (w : World db)
      → IsTame env
      → SingleOccupancy w
      → SingleOccupancy (resolve_account env organization_id existing w).1
  unfolding resolve_account
  resolve_account-SingleOccupancy env organization_id (some a) w tame single = single
  resolve_account-SingleOccupancy env organization_id none w tame single =
      create_or_winner-SingleOccupancy organization_id _ _ (tame.insert_keeps w single)

  resolve-SingleOccupancy :
      (env : Interleaving db) (organization_id : ℕ) (w : World db)
      → IsTame env
      → SingleOccupancy w
      → SingleOccupancy (resolve_system_default_billing_account_id env organization_id w).1
  unfolding resolve_system_default_billing_account_id
  resolve-SingleOccupancy env organization_id w tame single =
      resolve_account-SingleOccupancy env organization_id _ w tame single

  create_fresh-SingleOccupancy :
      (env : Interleaving db) (input : CreateSessionInput) (reused : Option ChargingSession)
      (w : World db)
      → IsTame env
      → SingleOccupancy w
      → SingleOccupancy (create_fresh env input reused w).1
  unfolding create_fresh in_transaction
  create_fresh-SingleOccupancy env input (some s) w tame single = single
  create_fresh-SingleOccupancy env input none w tame single =
      bind-SingleOccupancy (resolve_system_default_billing_account_id env input.organization_id w) _
        (resolve-SingleOccupancy env input.organization_id w tame single)
        (λ account v h.
          let v' = env.before_transaction v in
          let h' = tame.transaction_keeps v h in
          settle-SingleOccupancy env.refused v' _ h'
            (create_in_transaction-SingleOccupancy account input v' h'))

  -- If at most one session on each connector is not ended, then so it is after `createSession`,
  -- on each of its paths: the session is returned as it is, an expired OFFLINE one is superseded,
  -- a new one is made, or an error is thrown. What other requests commit meanwhile is arbitrary,
  -- as long as it keeps the same invariant.
  pub create_session-SingleOccupancy :
      (env : Interleaving db) (input : CreateSessionInput) (w : World db)
      → IsTame env
      → SingleOccupancy w
      → SingleOccupancy (create_session env input w).1
  unfolding create_session
  create_session-SingleOccupancy env input w tame single =
      create_fresh-SingleOccupancy env input _ w tame single
