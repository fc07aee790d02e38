-- ===== src/Sessions/Creation.antt =====
-- `createSession` of apps/movos-api/src/sessions/session-lifecycle.service.ts and the generator of
-- transaction ids.
pub mod Exclusive
pub mod Returned
use forgeos_web.Base.{
  ℕ, ◌+◌, ◌%◌, Bool, true, false, ◌&&◌, ◌||◌, not, Option, none, some, ◌==◌, is_none, if◌then◌else◌,
}
use forgeos_web.Base.Int.{pos}
use forgeos_web.Base.Result.{
  Result, ok, err, conflict, serialization_failure, Exec, ◌>>=◌, ◌>>◌, pure, throw, gets, modify,
}
use forgeos_web.Domain.{Database, World, record_audit}
use forgeos_web.Domain.Audit.{AuditEvent, session_abandoned_on_new_transaction}
use forgeos_web.Domain.Session.{
  active, offline, status_eq, network_failure, ChargingSession, BillingAccount,
}
use forgeos_web.Sessions.{
  is_non_terminal, CreateSessionInput, is_offline_session_recoverable, fail_session,
}

-- What other requests commit while `createSession` waits, and whether the database refuses the
-- SERIALIZABLE transaction for a conflict with them.
pub record Interleaving (db : Database) : Type 0 where
  pub before_insert : World db → World db
  pub before_transaction : World db → World db
  pub refused : Bool

abbrev pub occupies : ℕ → ChargingSession → Bool
occupies connector_id s = s.connector_id == connector_id && is_non_terminal s.status

unfoldable pub find_non_terminal_session_for_connector :
    {db : Database} → ℕ → World db → Option ChargingSession
find_non_terminal_session_for_connector {db} connector_id w =
    db.sessions.find_first w.sessions (occupies connector_id)

-- Case A or B: the session that is returned as it is.
unfoldable pub reusable : ℕ → Option ChargingSession → Option ChargingSession
unfolding is_offline_session_recoverable
reusable now none = none
reusable now (some s) =
    if not (status_eq s.status offline) || is_offline_session_recoverable now s
    then some s
    else none

abbrev is_system_default : ℕ → BillingAccount → Bool
is_system_default organization_id a = a.organization_id == organization_id && a.system_default

unfoldable pub insert_account : {db : Database} → ℕ → Exec (World db) ℕ
insert_account {db} organization_id w =
    let id = db.accounts.fresh w.accounts in
    let row : BillingAccount = record {
      id = id;
      organization_id = organization_id;
      system_default = true;
    } in
    (ok id, record w { accounts = db.accounts.put w.accounts row })

unfoldable pub find_account : {db : Database} → ℕ → World db → Option BillingAccount
find_account {db} organization_id w =
    db.accounts.find_first w.accounts (is_system_default organization_id)

-- The insert throws P2002 just when another request has made the organization's default account;
-- then the winner's is read.
unfoldable pub create_or_winner : {db : Database} → ℕ → Option BillingAccount → Exec (World db) ℕ
create_or_winner organization_id none = insert_account organization_id
create_or_winner organization_id (some winner) = pure winner.id

unfoldable pub resolve_account :
    {db : Database} → Interleaving db → ℕ → Option BillingAccount → Exec (World db) ℕ
resolve_account env organization_id (some existing) = pure existing.id
resolve_account env organization_id none = do
  modify env.before_insert
  winner ← gets (find_account organization_id)
  create_or_winner organization_id winner

unfoldable pub resolve_system_default_billing_account_id :
    {db : Database} → Interleaving db → ℕ → Exec (World db) ℕ
unfolding resolve_account create_or_winner insert_account find_account
resolve_system_default_billing_account_id env organization_id = do
  existing ← gets (find_account organization_id)
  resolve_account env organization_id existing

-- `TransactionIdGeneratorService.next`
unfoldable pub next_transaction_id : {db : Database} → Exec (World db) ℕ
next_transaction_id w = let id = (w.counter + 1) % 0x7fffffff in (ok id, record w { counter = id })

unfoldable pub new_session : ℕ → ℕ → ℕ → ℕ → CreateSessionInput → ChargingSession
new_session id account transaction_id now input = record {
  id = id;
  organization_id = input.organization_id;
  site_id = input.site_id;
  charging_station_id = input.charging_station_id;
  evse_id = input.evse_id;
  connector_id = input.connector_id;
  authorization_credential_id = input.authorization_credential_id;
  billing_account_id = account;
  protocol_version = input.protocol_version;
  protocol_transaction_id = transaction_id;
  status = active;
  termination_reason = none;
  meter_start = input.meter_start;
  meter_stop = none;
  energy_wh = pos 0;
  started_at = input.started_at;
  ended_at = none;
  updated_at = now;
}

abbrev pub same_transaction : ℕ → ℕ → ChargingSession → Bool
same_transaction station_id transaction_id s =
    s.charging_station_id == station_id && s.protocol_transaction_id == transaction_id

-- The insert throws where the station already has a session of this transaction id (the unique
-- index of the schema).
unfoldable pub insert_session :
    {db : Database} → ℕ → CreateSessionInput → ℕ → Exec (World db) ChargingSession
insert_session {db} account input transaction_id w =
    let row = new_session (db.sessions.fresh w.sessions) account transaction_id w.now input in
    elim (db.sessions.find_first w.sessions
      (same_transaction input.charging_station_id transaction_id)) [
        | some taken ↦ (err conflict, w)
        | none ↦ (ok row, record w { sessions = db.sessions.put w.sessions row })
      ]

abbrev pub abandoned : ChargingSession → AuditEvent
abandoned expired = record {
  action = session_abandoned_on_new_transaction;
  subject_id = expired.id;
}

-- Case C.
unfoldable pub supersede : {db : Database} → Option ChargingSession → Exec (World db) (Unit {0})
supersede none = pure tt
supersede (some expired) = do
  _ ← fail_session expired.id network_failure
  record_audit (abandoned expired)

unfoldable pub create_or_reuse :
    {db : Database}
    → ℕ
    → CreateSessionInput
    → Option ChargingSession
    → Option ChargingSession
    → Exec (World db) ChargingSession
create_or_reuse account input existing (some s) = pure s
create_or_reuse account input existing none = do
  supersede existing
  transaction_id ← next_transaction_id
  insert_session account input transaction_id

unfoldable pub create_in_transaction :
    {db : Database} → ℕ → CreateSessionInput → Exec (World db) ChargingSession
create_in_transaction account input = do
  existing ← gets (find_non_terminal_session_for_connector input.connector_id)
  now ← gets (λ w. w.now)
  create_or_reuse account input existing (reusable now existing)

-- A failed transaction leaves the rows as they were; the counter is memory of the process.
abbrev pub rolled_back : {db : Database} → World db → World db → World db
rolled_back w w' = record w { counter = w'.counter }

unfoldable pub settle :
    {db : Database}
    → Bool
    → World db
    → Result ChargingSession × World db
    → Result ChargingSession × World db
settle true w (r, w') = (err serialization_failure, rolled_back w w')
settle false w (ok s, w') = (ok s, w')
settle false w (err e, w') = (err e, rolled_back w w')

unfoldable pub in_transaction :
    {db : Database} → Bool → Exec (World db) ChargingSession → Exec (World db) ChargingSession
unfolding settle
in_transaction refused body w = settle refused w (body w)

unfoldable pub create_fresh :
    {db : Database}
    → Interleaving db
    → CreateSessionInput
    → Option ChargingSession
    → Exec (World db) ChargingSession
create_fresh env input (some s) = pure s
create_fresh env input none = do
  account ← resolve_system_default_billing_account_id env input.organization_id
  modify env.before_transaction
  in_transaction env.refused (create_in_transaction account input)

unfoldable pub create_session :
    {db : Database} → Interleaving db → CreateSessionInput → Exec (World db) ChargingSession
create_session env input = do
  precheck ← gets (find_non_terminal_session_for_connector input.connector_id)
  now ← gets (λ w. w.now)
  create_fresh env input (reusable now precheck)
