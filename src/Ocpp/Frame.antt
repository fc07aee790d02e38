-- ===== src/Ocpp/Frame.antt =====
-- apps/movos-api/src/ocpp/protocol/common/ocpp-frame.ts: the envelope of the messages, over parsed
-- JSON. A number is an exact decimal; the descriptions of malformed frames are kept apart by kind.
pub mod RoundTrip
use Prim.Native.String.{String}
use forgeos_web.Base.{Bool, true, false, Option, none, some, if◌then◌else◌}
use forgeos_web.Base.Decimal.{Decimal, whole, is_whole}

mutual
  pub data Value : Type 0 where
    null : Value
    boolean : Bool → Value
    number : Decimal → Value
    text : String → Value
    array : Items → Value
    object : Fields → Value

  pub data Items : Type 0 where
    last : Items
    item : Value → Items → Items

  pub data Fields : Type 0 where
    end : Fields
    field : String → Value → Fields → Fields

pub data OcppJMessage : Type 0 where
  call : (message_id action : String) (payload : Value) → OcppJMessage
  call_result : (message_id : String) (payload : Value) → OcppJMessage
  call_error : (message_id error_code error_description : String) (details : Value) → OcppJMessage

pub data FrameFault : Type 0 where
  not_an_array missing_type_or_id : FrameFault
  incomplete_call incomplete_result incomplete_error : FrameFault
  unknown_type : Decimal → FrameFault

pub data Envelope : Type 0 where
  message : OcppJMessage → Envelope
  malformed : FrameFault → Envelope

-- `typeof v === 'object' && v !== null`, which holds of an array too
abbrev pub is_object : Value → Bool
is_object (array items) = true
is_object (object fields) = true
is_object v = false

-- `raw[i]` of the elements after those read; `none` is `undefined`.
abbrev pub first : Items → Option Value
first last = none
first (item v rest) = some v

abbrev pub second : Items → Option Value
second last = none
second (item v rest) = first rest

-- `v ?? {}`
abbrev pub or_empty : Option Value → Value
or_empty none = object Fields.end
or_empty (some null) = object Fields.end
or_empty (some v) = v

unfoldable pub parse_call : String → Value → Option Value → Envelope
parse_call id (text action) (some payload) =
    if is_object payload then message (call id action payload) else malformed incomplete_call
parse_call id action payload = malformed incomplete_call

unfoldable pub parse_result : String → Value → Envelope
parse_result id payload =
    if is_object payload then message (call_result id payload) else malformed incomplete_result

unfoldable pub parse_error : String → Value → Option Value → Option Value → Envelope
parse_error id (text code) (some (text description)) details =
    message (call_error id code description (or_empty details))
parse_error id code description details = malformed incomplete_error

unfoldable pub parse_typed : Decimal → String → Value → Items → Envelope
unfolding parse_call parse_result parse_error
parse_typed type id third rest =
    if is_whole type 2
    then parse_call id third (first rest)
    else if is_whole type 3
    then parse_result id third
    else if is_whole type 4
    then parse_error id third (first rest) (second rest)
    else malformed (unknown_type type)

unfoldable pub parse_identified : Value → Value → Value → Items → Envelope
unfolding parse_typed
parse_identified (number type) (text id) third rest = parse_typed type id third rest
parse_identified type id third rest = malformed missing_type_or_id

unfoldable pub parse_ocpp_frame : Value → Envelope
unfolding parse_identified
parse_ocpp_frame (array (item type (item id (item third rest)))) =
    parse_identified type id third rest
parse_ocpp_frame raw = malformed not_an_array

abbrev numbered : Decimal → String → Items → Value
numbered type id rest = array (item (number type) (item (text id) rest))

unfoldable pub format_call : (message_id action : String) → Value → Value
format_call id action payload = numbered (whole 2) id (item (text action) (item payload last))

unfoldable pub format_call_result : (message_id : String) → Value → Value
format_call_result id payload = numbered (whole 3) id (item payload last)

unfoldable pub format_call_error :
    (message_id error_code error_description : String) → Value → Value
format_call_error id code description details =
    numbered (whole 4) id (item (text code) (item (text description) (item details last)))
