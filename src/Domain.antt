-- ===== src/Domain.antt =====
-- The rows of the database schema that the services read and write (apps/movos-api/prisma/
-- schema.prisma), the database, and the state that the handlers share.
-- Identifiers are opaque and only compared, so they are numbers; instants are milliseconds.
pub mod Session
pub mod Station
pub mod Command
pub mod Audit
pub mod Connection
pub mod Work
pub mod Telemetry
pub mod Recommendation
pub mod Confirmation
use forgeos_web.Base.{ℕ, List, ◌∷◌}
use forgeos_web.Base.Result.{Exec, ok}
use forgeos_web.Prisma.{Table}
use Session.{ChargingSession, BillingAccount}
use Station.{ChargingStation, Connector, Credential}
use Command.{RemoteCommand}
use Audit.{AuditEvent}
use Connection.{Registry}
use Work.{WorkOrder, WorkOrderEvent, Membership}
use Telemetry.{AuthorizationAttempt, MeterValue, OcppProtocolEvent}
use Confirmation.{Confirmations}
use Recommendation.{Action}
use forgeos_web.PendingCalls.{PendingCalls}

pub record Database : Type 1 where
  pub sessions : Table ChargingSession (λ s. s.id)
  pub accounts : Table BillingAccount (λ a. a.id)
  pub stations : Table ChargingStation (λ s. s.id)
  pub connectors : Table Connector (λ c. c.id)
  pub credentials : Table Credential (λ c. c.id)
  pub commands : Table RemoteCommand (λ c. c.id)
  pub work_orders : Table WorkOrder (λ o. o.id)
  pub memberships : Table Membership (λ m. m.id)
  pub actions : Table Action (λ a. a.id)

pub record World (db : Database) : Type 0 where
  pub sessions : db.sessions.Rows
  pub accounts : db.accounts.Rows
  pub stations : db.stations.Rows
  pub connectors : db.connectors.Rows
  pub credentials : db.credentials.Rows
  pub commands : db.commands.Rows
  pub work_orders : db.work_orders.Rows
  pub memberships : db.memberships.Rows
  pub actions : db.actions.Rows
  -- the rows of WorkOrderEvent, newest first
  pub work_order_events : List WorkOrderEvent
  -- the rows of AuthorizationAttempt, MeterValue and OcppProtocolEvent, newest first
  pub attempts : List AuthorizationAttempt
  pub meter_values : List MeterValue
  pub protocol_events : List OcppProtocolEvent
  -- the audit events recorded, newest first
  pub audit : List AuditEvent
  pub registry : Registry
  pub pending_calls : PendingCalls
  pub confirmations : Confirmations
  -- the counter of `TransactionIdGeneratorService`
  pub counter : ℕ
  -- `Date.now()`; it stands still within one stretch of a handler
  pub now : ℕ

-- `AuditService.record`, which never throws into its caller.
abbrev pub record_audit : {db : Database} → AuditEvent → Exec (World db) (Unit {0})
record_audit e w = (ok tt, record w { audit = e ∷ w.audit })
