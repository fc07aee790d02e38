-- ===== src/Domain/Command.antt =====
-- RemoteCommand of schema.prisma.
use Prim.Native.String.{String}
use forgeos_web.Base.Decimal.{Decimal}
use forgeos_web.Base.{ℕ, Bool, Option, ◌==◌}

pub data CommandType : Type 0 where
  remote_start remote_stop reset unlock_connector change_availability : CommandType

pub data CommandState : Type 0 where
  requested sent accepted confirmed rejected timed_out unconfirmed : CommandState

-- The payload of an outbound call.
pub data OutboundFrame : Type 0 where
  remote_start_transaction :
      (connector_external_id : Option Decimal) (id_tag : String) → OutboundFrame
  remote_stop_transaction : (transaction_id : ℕ) → OutboundFrame

pub record RemoteCommand : Type 0 where
  pub id : ℕ
  pub organization_id : ℕ
  pub charging_station_id : ℕ
  pub connector_id : Option ℕ
  pub charging_session_id : Option ℕ
  pub command_type : CommandType
  pub state : CommandState
  pub requested_by_user_id : ℕ
  pub protocol_message_id : Option ℕ
  pub requested_at : ℕ
  pub sent_at : Option ℕ
  pub accepted_at : Option ℕ
  pub resolved_at : Option ℕ
  pub request_payload : Option OutboundFrame

abbrev state_ordinal : CommandState → ℕ
state_ordinal requested = 0
state_ordinal sent = 1
state_ordinal accepted = 2
state_ordinal confirmed = 3
state_ordinal rejected = 4
state_ordinal timed_out = 5
state_ordinal unconfirmed = 6

abbrev pub state_eq : CommandState → CommandState → Bool
state_eq a b = state_ordinal a == state_ordinal b
