-- ===== src/Lib.antt =====
-- Verification library of the charging platform's API, apps/movos-api.
--
-- The platform keeps charging stations, their connectivity and their charging sessions. A charge
-- point opens a WebSocket; the connection registry keeps it and tells the connectivity coordinator,
-- which writes the station's connectivity and moves its sessions through the session lifecycle
-- service. Operators see the derived status of chargers and stations, send remote commands to charge
-- points over their connections, and handle outages as work orders, which two sweeps open and resolve.
--
-- Modules, and the code each models (paths from the repository's root):
--   Base            shared names, Boolean tests, exceptions as values, JavaScript's Map
--   Prisma          a table of the database client, as operations with laws; Prisma/Memory is a
--                   list that meets them, Prisma/Listing has the lemmas on queries
--   Domain          the rows of apps/movos-api/prisma/schema.prisma and the state of the handlers
--   Sessions        apps/movos-api/src/sessions: session-lifecycle.service.ts and
--                   transaction-id-generator.service.ts (createSession in Sessions/Creation),
--                   meter-values.service.ts in Sessions/Meters; Sessions/Lifetime runs all
--                   operations of the lifecycle service in sequence
--   Connections     apps/movos-api/src/ocpp/connection-registry/connection-registry.service.ts;
--                   Connections/Refinement has the abstract map that it is compared with
--   Connectivity    apps/movos-api/src/ocpp/connectivity/connectivity-coordinator.service.ts
--   Evses           apps/movos-api/src/evses/evse-operational-status.ts
--   Operator        apps/movos-api/src/operator/station-health.service.ts
--   WorkOrders      apps/movos-api/src/work-orders/work-order.service.ts (listAttentionItems in
--                   WorkOrders/Attention, resolveRecoveredConnectivityWorkOrders in
--                   WorkOrders/Automation), and in WorkOrders/Automation
--                   work-order-automation.service.ts; WorkOrders/Advancing tells field by field
--                   what a transition is to write
--   Commands        apps/movos-api/src/ocpp/remote-commands: remote-command-state-machine.ts and
--                   remote-command.service.ts (requestCommand in Commands/Request), and in
--                   Commands/Confirmation remote-command-confirmation.service.ts
--   PendingCalls    apps/movos-api/src/ocpp/outbound/pending-call-registry.service.ts
--   Authorization   apps/movos-api/src/authorization/authorization-attempts.service.ts
--   Ocpp            apps/movos-api/src/ocpp: Frame (protocol/common/ocpp-frame.ts), Events
--                   (protocol/common/normalized-events.ts), Ocpp16 (protocol/ocpp16/
--                   ocpp16-adapter.ts), Normalization, Handlers, EventLog (persistence/
--                   ocpp-protocol-event.service.ts) and Router (routing/
--                   ocpp-message-router.service.ts)
--   Actions         apps/movos-api/src/recommendations/action.service.ts
--   Memberships     apps/movos-api/src/memberships/memberships.service.ts
--   Examples        sample states, and in its children the properties at them
--
-- A frame of a station goes through Ocpp/Router: the envelope is parsed, a reply is handed to the call
-- that waits for it, a call is parsed by the adapter, handled, logged and answered. The handlers use
-- Authorization, Sessions and Commands/Confirmation.
--
-- A service method is a function of the same name in snake_case, from the state `World` to a result
-- and the state after it; a thrown exception is an `err`, and what was written before it stays
-- written, save in the transaction of `createSession`, which is rolled back. `World` has the tables,
-- the logs, the connection registry, the pending calls, the confirmation timers, the transaction
-- counter and the clock. Queries are those of `Table`; a query without an order may return any row
-- that passes. Identifiers are numbers, save the ids of messages, which are texts, instants are
-- milliseconds, meter readings are integers. A handler runs without writes of other requests between
-- its own, save `createSession` and `requestCommand`, where they are arguments (`Interleaving`,
-- `Exchange`), and the clock stands still in it. Loops run over finite lists. The one fuel is that of
-- the scrubbing of payloads: it is the code's own ceiling of twenty levels.
--
-- JSON is the data type `Value`, with exact decimals for its numbers; where the code takes the text of
-- a number as an identifier, the number is kept and compared. The texts of errors and dates, the
-- reading of a number from a text and of an instant from a timestamp are the record `Wire`; a
-- timestamp that is no date, a reading that is no integer and a number outside the 32 bits of its
-- column, which the database client refuses, are left out. A connector's external id is kept as what
-- it is compared with and what `Number` reads from it (`ExternalId`). The order in which the database
-- lists the rows of the attention list is an argument that loses and makes no rows.
--
-- Not modelled: the OCPP 2.0.1 adapter, the WebSocket server and its authentication, the derivation
-- of recommendations, field work, invitations, the controllers and the web applications; and of the
-- modelled services the reads that only select rows.
mod Base
pub mod Prisma
pub mod Domain
pub mod Sessions
pub mod Connections
pub mod Connectivity
pub mod Evses
pub mod Operator
pub mod WorkOrders
pub mod Commands
pub mod PendingCalls
pub mod Authorization
pub mod Ocpp
pub mod Actions
pub mod Memberships
mod Examples
