-- ===== src/Authorization/Attempts.antt =====
-- An attempt that is accepted names a credential that may be used.
use Prim.Native.String.{String}
use forgeos_web.Base.{
  ℕ, ◌∙◌, ◌≡◌, refl, sym, ap, inl, inr, Bool, true, false, none, some, arith, Bool-cases,
  Option-cases,
}
use forgeos_web.Base.JsMap.{nat_eq, string_eq}
use forgeos_web.Base.Result.{ok, ok_inj}
use forgeos_web.Domain.{Database, World}
use forgeos_web.Authorization.{
  attempt_of, find_credential, with_attempt, AuthorizationAttempt, has_expired, RecordAttemptInput,
  is_accepted, CredentialStatus, record_attempt, resolve_active, Credential, resolve,
}

-- A credential as `resolve` wants it.
abbrev pub IsUsable : ℕ → Credential → Type 0
IsUsable now c = (c.status ≡ CredentialStatus.active) × (has_expired now c.expires_at ≡ false)

resolve_active-IsUsable :
    (now : ℕ) (c : Credential) (offline : Bool)
    → is_accepted (resolve_active now c offline) ≡ true
    → has_expired now c.expires_at ≡ false
unfolding resolve_active
resolve_active-IsUsable now c offline h = elim (Bool-cases (has_expired now c.expires_at)) [
  | inl late ↦ ground (arith, late, h)
  | inr e ↦ e
]

resolve-IsUsable :
    (now : ℕ) (c : Credential) (offline : Bool)
    → is_accepted (resolve now (some c) offline) ≡ true
    → IsUsable now c
unfolding resolve resolve_active
resolve-IsUsable now c offline h = ground (arith, h)

unknown_refused :
    (now : ℕ) (input : RecordAttemptInput) → is_accepted (attempt_of now input none).result ≡ false
unfolding attempt_of resolve
unknown_refused now input = refl

known-IsUsable :
    (now : ℕ) (input : RecordAttemptInput) (c : Credential)
    → is_accepted (attempt_of now input (some c)).result ≡ true
    → IsUsable now c
unfolding attempt_of
known-IsUsable now input c h = resolve-IsUsable now c input.offline h

known_named :
    (now : ℕ) (input : RecordAttemptInput) (c : Credential)
    → (attempt_of now input (some c)).authorization_credential_id ≡ some c.id
unfolding attempt_of
known_named now input c = refl

module _ {db : Database} where
  find_credential_sound :
      (organization_id : ℕ) (text : String) (w : World db) (c : Credential)
      → find_credential organization_id text w ≡ some c
      → (db.credentials.find_unique w.credentials c.id ≡ some c)
        × (c.organization_id ≡ organization_id)
        × (c.external_identifier ≡ text)
  unfolding find_credential
  find_credential_sound organization_id text w c e =
      let (there, passes) = db.credentials.find_first_sound w.credentials _ c e in
      (
        there,
        ground (arith, passes),
        (string_eq.beq_iff c.external_identifier text).0 (ground (arith, passes)),
      )

  -- A call leaves one new attempt and nothing else, whatever it finds. It is accepted only for a stored
  -- credential of the organization with the presented text, which is ACTIVE and not past its
  -- expiry, and the attempt names that credential.
  pub record_attempt_sound :
      (input : RecordAttemptInput) (w w' : World db) (a : AuthorizationAttempt)
      → record_attempt input w ≡ (ok a, w')
      → (w' ≡ with_attempt a w)
        × (is_accepted a.result ≡ true
            → (c : Credential) × (db.credentials.find_unique w.credentials c.id ≡ some c)
              × (c.organization_id ≡ input.organization_id)
              × (c.external_identifier ≡ input.presented_identifier)
              × IsUsable w.now c
              × (a.authorization_credential_id ≡ some c.id))
  unfolding record_attempt
  record_attempt_sound input w w' a e =
      let found = find_credential input.organization_id input.presented_identifier w in
      let attempt = attempt_of w.now input found in
      let run : record_attempt input w ≡ (ok attempt, with_attempt attempt w) = refl in
      let (same, after) = ok_inj _ _ _ _ _ run e in
      (
        after ∙ ap (λ x. with_attempt x w) (sym same),
        λ good. elim (Option-cases found) [
          | inl nothing ↦
              let none_found = same ∙ ap (attempt_of w.now input) nothing in
              absurd (cc (none_found, good, unknown_refused w.now input))
          | inr (c, there) ↦
              let one_found = same ∙ ap (attempt_of w.now input) there in
              let good' = sym (ap (λ x. is_accepted x.result) one_found) ∙ good in
              let (stored, org, text) = find_credential_sound _ _ w c there in
              (
                c,
                stored,
                org,
                text,
                known-IsUsable w.now input c good',
                ap (λ x. x.authorization_credential_id) one_found ∙ known_named w.now input c,
              )
        ],
      )
