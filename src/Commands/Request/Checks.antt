-- ===== src/Commands/Request/Checks.antt =====
-- What must hold for a RemoteStart to be sent.
use forgeos_web.Base.{
  ℕ, ◌≡◌, ◌⊎◌, inl, inr, refl, true, Option, none, some, arith, ltb, Bool-cases, Option-cases, ◌≤◌,
}
use forgeos_web.Base.Result.{ok, err, bad_request, not_found, conflict, ok_ne_err, ok_inj}
use forgeos_web.Domain.{Database, World}
use forgeos_web.Domain.Station.{Connector, Credential}
use forgeos_web.Sessions.Occupancy.{IsFree}
use forgeos_web.Sessions.Creation.{find_non_terminal_session_for_connector, occupies}
use forgeos_web.Commands.Request.{
  utf16_length, RequestRemoteCommandInput, get_owned_active_credential, check_remote_start,
  is_usable, is_free_status, found_or_404, owned_credential,
}

module _ {db : Database} where
  credential_checked :
      (w : World db) (org id : ℕ)
      → ((q : Credential) × (get_owned_active_credential org id w ≡ (ok q, w))
          × (is_usable w.now q ≡ true)
          × (q.organization_id ≡ org))
        ⊎ ((x : _) × (get_owned_active_credential org id w ≡ (err x, w)))
  unfolding get_owned_active_credential found_or_404
  credential_checked w org id = elim (Option-cases (owned_credential w org id)) [
    | inl missing ↦ inr (not_found, rw missing refl)
    | inr (q, found) ↦ elim (Bool-cases (is_usable w.now q)) [
      | inl usable ↦
          let (there, owned) = db.credentials.find_first_sound w.credentials _ q found in
          inl (q, rw (found, usable) refl, usable, ground (arith, owned))
      | inr spent ↦ inr (bad_request, rw (found, spent) refl)
    ]
  ]

  find-IsFree :
      (w : World db) (connector : ℕ)
      → find_non_terminal_session_for_connector connector w ≡ none
      → IsFree connector w
  unfolding find_non_terminal_session_for_connector
  find-IsFree w connector nothing i a there open_a same = ground (
    arith,
    open_a,
    same,
    db.sessions.find_first_none w.sessions (occupies connector) i a nothing there,
  )

  -- The checks of a RemoteStart pass only for a connector that is AVAILABLE and has no session that
  -- is not ended, and a credential of the organization that is ACTIVE, not expired and short enough
  -- for the protocol. They change nothing.
  pub check_remote_start_sound :
      (input : RequestRemoteCommandInput) (k : Connector) (credential_id : ℕ) (w w' : World db)
      (r : Option Credential)
      → check_remote_start input (some k) (some credential_id) w ≡ (ok r, w')
      → (q : Credential) × (r ≡ some q)
        × (w' ≡ w)
        × (is_usable w.now q ≡ true)
        × (q.organization_id ≡ input.organization_id)
        × (is_free_status k.status ≡ true)
        × IsFree k.id w
        × (utf16_length q.external_identifier ≤ 20)
  unfolding check_remote_start
  check_remote_start_sound input k credential_id w w' r e =
      elim (credential_checked w input.organization_id credential_id) [
        | inr (x, refused) ↦ absurd (ok_ne_err _ r x w' w e (rw refused refl))
        | inl (q, taken, usable, owned) ↦ elim (Bool-cases (is_free_status k.status)) [
          | inr busy ↦ absurd (ok_ne_err _ r bad_request w' w e (rw (taken, busy) refl))
          | inl free ↦ elim (Option-cases (find_non_terminal_session_for_connector k.id w)) [
            | inr (s, found) ↦ absurd (ok_ne_err _ r conflict w' w e (rw (taken, free, found) refl))
            | inl nothing ↦ elim (Bool-cases (ltb 20 (utf16_length q.external_identifier))) [
              | inl long ↦
                  absurd (ok_ne_err _ r bad_request w' w e (rw (taken, free, nothing, long) refl))
              | inr short ↦
                  let fits : utf16_length q.external_identifier ≤ 20 = ground (arith, short) in
                  let (same, still) = ok_inj _ _ _ _ _ (rw (taken, free, nothing, short) refl) e in
                  (q, same, still, usable, owned, free, find-IsFree w k.id nothing, fits)
            ]
          ]
        ]
      ]
