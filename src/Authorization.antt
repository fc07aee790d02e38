-- ===== src/Authorization.antt =====
-- apps/movos-api/src/authorization/authorization-attempts.service.ts: what a presented identifier
-- resolves to, and the row that each attempt leaves.
pub mod Attempts
use Prim.Native.String.{String}
use forgeos_web.Base.{
  ℕ, suc, ◌+◌, ◌-◌, ◌*◌, ◌≤◌, ◌≡◌, ◌≢◌, refl, sym, ap, ◌⊎◌, inl, inr, ◌↔◌, Bool, true, false, ◌&&◌,
  ◌||◌, not, Option, none, some, List, [], ◌∷◌, ◌++◌, ◌==◌, ltb, leb, includes, length, is_none,
  is_some_of, if◌then◌else◌, arith, Bool-cases, Option-cases, ==_iff, ==_self, All,
}
use forgeos_web.Base.Int.{ℤ, pos, negsuc, ◌-ℤ◌, ◌≤ℤ◌, ltb_ℤ}
use forgeos_web.Base.Decimal.{Decimal}
use forgeos_web.Base.JsMap
use forgeos_web.Base.JsMap.{JsMap, nat_eq, string_eq, get-put, get-remove}
use forgeos_web.Base.Result.{
  Result, ok, err, Error, not_found, conflict, bad_request, invalid_transition, Exec, ◌>>=◌, ◌>>◌,
  pure, throw, gets, modify, Result-cases, ok_inj, ok_ne_err, bind_result,
}
use forgeos_web.Domain.{Database, World, record_audit}
use forgeos_web.Domain.Station.{CredentialStatus, Credential}
use forgeos_web.Domain.Telemetry.{AuthAttemptResult, AuthorizationAttempt}

pub record RecordAttemptInput : Type 0 where
  pub organization_id : ℕ
  pub charging_station_id : ℕ
  pub evse_id : Option ℕ
  pub connector_id : Option ℕ
  pub presented_identifier : String
  -- false where the caller leaves it out
  pub offline : Bool

abbrev pub has_expired : ℕ → Option ℕ → Bool
has_expired now none = false
has_expired now (some expires_at) = ltb expires_at now

unfoldable pub resolve_active : ℕ → Credential → (offline : Bool) → AuthAttemptResult
resolve_active now credential offline =
    if has_expired now credential.expires_at
    then AuthAttemptResult.expired
    else elim credential.status [
      | CredentialStatus.expired ↦ AuthAttemptResult.expired
      | _ ↦ if offline then AuthAttemptResult.offline_accepted else AuthAttemptResult.accepted
    ]

unfoldable pub resolve : ℕ → Option Credential → (offline : Bool) → AuthAttemptResult
unfolding resolve_active
resolve now none offline = AuthAttemptResult.unknown
resolve now (some credential) offline = elim credential.status [
  | CredentialStatus.revoked ↦ AuthAttemptResult.revoked
  | CredentialStatus.blocked ↦ AuthAttemptResult.rejected
  | _ ↦ resolve_active now credential offline
]

-- The row of the unique index on organization and identifier.
unfoldable pub find_credential : {db : Database} → ℕ → String → World db → Option Credential
find_credential {db} organization_id identifier w =
    db.credentials.find_first w.credentials
      (λ c. c.organization_id == organization_id && string_eq.beq c.external_identifier identifier)

abbrev pub id_of : Option Credential → Option ℕ
id_of none = none
id_of (some credential) = some credential.id

unfoldable pub attempt_of : ℕ → RecordAttemptInput → Option Credential → AuthorizationAttempt
attempt_of now input credential = record {
  organization_id = input.organization_id;
  charging_station_id = input.charging_station_id;
  evse_id = input.evse_id;
  connector_id = input.connector_id;
  authorization_credential_id = id_of credential;
  presented_identifier = input.presented_identifier;
  result = resolve now credential input.offline;
}

abbrev pub with_attempt : {db : Database} → AuthorizationAttempt → World db → World db
with_attempt attempt w = record w { attempts = attempt ∷ w.attempts }

unfoldable pub record_attempt :
    {db : Database} → RecordAttemptInput → Exec (World db) AuthorizationAttempt
record_attempt input = do
  credential ← gets (find_credential input.organization_id input.presented_identifier)
  now ← gets (λ w. w.now)
  modify (with_attempt (attempt_of now input credential))
  pure (attempt_of now input credential)

abbrev pub is_accepted : AuthAttemptResult → Bool
is_accepted AuthAttemptResult.accepted = true
is_accepted AuthAttemptResult.offline_accepted = true
is_accepted result = false
