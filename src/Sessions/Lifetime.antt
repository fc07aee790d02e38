-- ===== src/Sessions/Lifetime.antt =====
-- All operations of session-lifecycle.service.ts in sequence, `createSession` included.
use forgeos_web.Base.{
  ℕ, ◌∙◌, ◌≡◌, refl, ap, ◌⊎◌, inl, inr, Bool, true, false, Option, none, some, List, [], ◌∷◌, ◌==◌,
  is_none, Bool-cases, Option-cases, ==_iff,
}
use forgeos_web.Base.JsMap.{nat_eq, string_eq}
use forgeos_web.Base.Result.{Result, ok, err, Exec, bind_result}
use forgeos_web.Domain.{Database, World}
use forgeos_web.Domain.Session.{failed, network_failure, ChargingSession, BillingAccount}
use forgeos_web.Sessions.{SessionOp, run_op, session_at, CreateSessionInput, fail_session}
use forgeos_web.Sessions.Outcome.{with_row}
use forgeos_web.Sessions.Rows.{session_at-put}
use forgeos_web.Sessions.Evolution.{
  Continues, Continues-refl, Continues-trans, Evolves, end_session-Evolves, run_op-Evolves,
}
use forgeos_web.Sessions.Creation.{
  same_transaction, create_or_winner, resolve_account, Interleaving, insert_account,
  resolve_system_default_billing_account_id, next_transaction_id, new_session, insert_session,
  supersede, create_or_reuse, create_in_transaction, settle, in_transaction, create_fresh,
  create_session,
}

module _ {db : Database} where
  -- Each session that was there is there still, and goes on from where it was.
  abbrev pub Keeps : World db → World db → Type 0
  Keeps u w =
      (i : ℕ) (a : ChargingSession)
      → session_at u i ≡ some a
      → (b : ChargingSession) × (session_at w i ≡ some b) × Continues a b

  pub Keeps-refl : (w : World db) → Keeps w w
  Keeps-refl w i a there = (a, there, Continues-refl a)

  Keeps-trans : (u v w : World db) → Keeps u v → Keeps v w → Keeps u w
  Keeps-trans u v w h k i a there =
      let (b, at_b, goes) = h i a there in
      let (c, at_c, on) = k i b at_b in (c, at_c, Continues-trans a b c goes on)

  -- What other requests commit while `createSession` waits keeps the sessions too.
  pub record IsConsiderate (env : Interleaving db) : Type 0 where
    pub insert_keeps : (w : World db) → Keeps w (env.before_insert w)
    pub transaction_keeps : (w : World db) → Keeps w (env.before_transaction w)

  bind-Keeps :
      {A B : Type 0} (u : World db) (p : Result A × World db) (k : A → Exec (World db) B)
      → Keeps u p.1
      → ((a : A) (w : World db) → Keeps u w → Keeps u (k a w).1)
      → Keeps u (bind_result p k).1
  bind-Keeps u (ok a, w) k h keeps = keeps a w h
  bind-Keeps u (err e, w) k h keeps = h

  insert-Keeps :
      (w : World db) (row : ChargingSession) → session_at w row.id ≡ none → Keeps w (with_row w row)
  insert-Keeps w row free i a there = elim (Bool-cases (row.id == i)) [
    | inl e ↦
        let same : row.id ≡ i = (==_iff row.id i).0 e in
        let clash : session_at w row.id ≡ some a = ap (session_at w) same ∙ there in absurd cc
    | inr e ↦ (a, session_at-put w row i ∙ rw e there, Continues-refl a)
  ]

  insert_session-Keeps :
      (account : ℕ) (input : CreateSessionInput) (transaction_id : ℕ) (w : World db)
      → Keeps w (insert_session account input transaction_id w).1
  unfolding insert_session
  insert_session-Keeps account input transaction_id w =
      elim (Option-cases (
        db.sessions.find_first w.sessions
          (same_transaction input.charging_station_id transaction_id))) [
            | inl e ↦
                rw (e, insert_session)
                  (insert-Keeps w
                    (new_session (db.sessions.fresh w.sessions) account transaction_id w.now input)
                    (unfold new_session in db.sessions.fresh_free w.sessions))
            | inr (taken, e) ↦ rw (e, insert_session) (Keeps-refl w)
          ]

  supersede-Keeps :
      (existing : Option ChargingSession) (w : World db) → Keeps w (supersede existing w).1
  unfolding supersede fail_session
  supersede-Keeps none w = Keeps-refl w
  supersede-Keeps (some expired) w =
      bind-Keeps w (fail_session expired.id network_failure w) _
        (end_session-Evolves expired.id failed network_failure w).kept (λ s v h. h)

  create_or_reuse-Keeps :
      (account : ℕ) (input : CreateSessionInput) (existing reused : Option ChargingSession)
      (w : World db)
      → Keeps w (create_or_reuse account input existing reused w).1
  unfolding create_or_reuse next_transaction_id
  create_or_reuse-Keeps account input existing (some s) w = Keeps-refl w
  create_or_reuse-Keeps account input existing none w =
      bind-Keeps w (supersede existing w) _ (supersede-Keeps existing w) (λ _ v h.
        let v' = (next_transaction_id v).1 in
        Keeps-trans w v' (insert_session account input v'.counter v').1 h
          (insert_session-Keeps account input v'.counter v'))

  settle-Keeps :
      (refused : Bool) (u w : World db) (r : Result ChargingSession × World db)
      → Keeps u w
      → Keeps u r.1
      → Keeps u (settle refused w r).1
  unfolding settle
  settle-Keeps true u w (r, w') h h' = h
  settle-Keeps false u w (ok s, w') h h' = h'
  settle-Keeps false u w (err e, w') h h' = h

  create_or_winner-Keeps :
      (organization_id : ℕ) (winner : Option BillingAccount) (u w : World db)
      → Keeps u w
      → Keeps u (create_or_winner organization_id winner w).1
  unfolding create_or_winner insert_account
  create_or_winner-Keeps organization_id none u w h = h
  create_or_winner-Keeps organization_id (some a) u w h = h

  resolve_account-Keeps :
      (env : Interleaving db) (organization_id : ℕ) (existing : Option BillingAccount)
      (w : World db)
      → IsConsiderate env
      → Keeps w (resolve_account env organization_id existing w).1
  unfolding resolve_account
  resolve_account-Keeps env organization_id (some a) w mild = Keeps-refl w
  resolve_account-Keeps env organization_id none w mild =
      create_or_winner-Keeps organization_id _ w _ (mild.insert_keeps w)

  create_fresh-Keeps :
      (env : Interleaving db) (input : CreateSessionInput) (reused : Option ChargingSession)
      (w : World db)
      → IsConsiderate env
      → Keeps w (create_fresh env input reused w).1
  unfolding create_fresh in_transaction create_in_transaction
      resolve_system_default_billing_account_id
  create_fresh-Keeps env input (some s) w mild = Keeps-refl w
  create_fresh-Keeps env input none w mild =
      bind-Keeps w (resolve_system_default_billing_account_id env input.organization_id w) _
        (resolve_account-Keeps env input.organization_id _ w mild)
        (λ account v h.
          let v' = env.before_transaction v in
          let h' = Keeps-trans w v v' h (mild.transaction_keeps v) in
          settle-Keeps env.refused w v' (create_in_transaction account input v') h' (
            Keeps-trans w v' (create_in_transaction account input v').1 h'
              (create_or_reuse-Keeps account input _ _ v')))

  create_session-Keeps :
      (env : Interleaving db) (input : CreateSessionInput) (w : World db)
      → IsConsiderate env
      → Keeps w (create_session env input w).1
  unfolding create_session
  create_session-Keeps env input w mild = create_fresh-Keeps env input _ w mild

-- The operations of the lifecycle service.
pub data LifecycleOp (db : Database) : Type 0 where
  changes : SessionOp → LifecycleOp db
  creates : Interleaving db → CreateSessionInput → LifecycleOp db

module _ {db : Database} where
  abbrev pub run_lifecycle : List (LifecycleOp db) → World db → World db
  run_lifecycle [] w = w
  run_lifecycle (changes op ∷ ops) w = run_lifecycle ops (run_op op w).1
  run_lifecycle (creates env input ∷ ops) w = run_lifecycle ops (create_session env input w).1

  abbrev pub AreConsiderate : List (LifecycleOp db) → Type 0
  AreConsiderate [] = Unit
  AreConsiderate (changes op ∷ ops) = AreConsiderate ops
  AreConsiderate (creates env input ∷ ops) = IsConsiderate env × AreConsiderate ops

  abbrev pub has_creation : List (LifecycleOp db) → Bool
  has_creation [] = false
  has_creation (changes op ∷ ops) = has_creation ops
  has_creation (creates env input ∷ ops) = true

  same_place :
      (u w : World db) (i : ℕ) → Evolves u w → is_none (session_at w i) ≡ is_none (session_at u i)
  same_place u w i h = elim (Option-cases (session_at u i)) [
    | inl none_there ↦ rw (none_there, h.no_new i none_there) refl
    | inr (a, there) ↦ let (b, at_b, goes) = h.kept i a there in rw (there, at_b) refl
  ]

  -- Whatever operations of the lifecycle service run, in whatever order and whether each succeeds or
  -- throws, `createSession` with all it does included: each session that was there is there still,
  -- keeps its identity, place, credential, account and meter start, has not gone back to an earlier
  -- phase, and has exactly the same row if it had ended. No session appears where none of the
  -- operations is `createSession`. What other requests commit while `createSession` waits is
  -- arbitrary, as long as it keeps the sessions in the same way.
  pub run_lifecycle-Keeps :
      (ops : List (LifecycleOp db)) (w : World db)
      → AreConsiderate ops
      → Keeps w (run_lifecycle ops w)
        × ((i : ℕ)
            → (has_creation ops ≡ true)
              ⊎ (is_none (session_at (run_lifecycle ops w) i) ≡ is_none (session_at w i)))
  run_lifecycle-Keeps [] w mild = (Keeps-refl w, λ i. inr refl)
  run_lifecycle-Keeps (changes op ∷ ops) w mild =
      let v = (run_op op w).1 in
      let evolves = run_op-Evolves op w in
      let (keeps, places) = run_lifecycle-Keeps ops v mild in
      (
        Keeps-trans w v (run_lifecycle ops v) evolves.kept keeps,
        λ i. elim (places i) [ inl e ↦ inl e | inr e ↦ inr (e ∙ same_place w v i evolves) ],
      )
  run_lifecycle-Keeps (creates env input ∷ ops) w mild =
      let v = (create_session env input w).1 in
      let (keeps, places) = run_lifecycle-Keeps ops v mild.1 in
      (
        Keeps-trans w v (run_lifecycle ops v) (create_session-Keeps env input w mild.0) keeps,
        λ i. inl refl,
      )
