-- ===== src/Ocpp.antt =====
-- apps/movos-api/src/ocpp: the protocol engine.
pub mod Frame
pub mod Events
pub mod Normalization
pub mod Handlers
pub mod EventLog
pub mod Ocpp16
pub mod Router
