-- ===== src/Ocpp/EventLog.antt =====
-- apps/movos-api/src/ocpp/persistence/ocpp-protocol-event.service.ts: the log of frames, and the
-- scrubbing of what is stored. The write is taken to succeed; a failed one is only logged.
pub mod Scrubbing
use Prim.Native.Char.{code}
use Prim.Native.String.{String}
use forgeos_web.Base.{
  ℕ, zero, suc, ◌+◌, ◌-◌, ◌*◌, ◌≤◌, ◌<◌, ◌∙◌, ◌≡◌, ◌≢◌, refl, sym, ap, ◌⊎◌, inl, inr, ◌↔◌, Bool,
  true, false, ◌&&◌, ◌||◌, not, Option, none, some, List, [], ◌∷◌, ◌++◌, ◌==◌, ltb, leb, includes,
  length, is_none, is_some_of, if◌then◌else◌, arith, Bool-cases, Option-cases, ==_iff, ==_self, All,
}
use forgeos_web.Base.Int.{ℤ, pos, negsuc, ◌-ℤ◌, ◌≤ℤ◌, ltb_ℤ}
use forgeos_web.Base.Decimal.{Decimal}
use forgeos_web.Base.JsMap
use forgeos_web.Base.JsMap.{JsMap, nat_eq, string_eq, get-put, get-remove}
use forgeos_web.Base.Result.{
  Result, ok, err, Error, not_found, conflict, bad_request, invalid_transition, Exec, ◌>>=◌, ◌>>◌,
  pure, throw, gets, modify, Result-cases, ok_inj, ok_ne_err, bind_result,
}
use forgeos_web.Domain.{Database, World, record_audit}
use forgeos_web.Ocpp.Frame.{
  Value, Items, Fields, null, boolean, number, text, array, object, last, item,
}
use forgeos_web.Ocpp.Frame
use forgeos_web.Domain.Telemetry.{OcppProtocolEvent}

abbrev max_scrub_depth : ℕ
max_scrub_depth = 20

abbrev to_lower : ℕ → ℕ
to_lower c = if leb 65 c && leb c 90 then c + 32 else c

-- The code points of a text, with the letters of ASCII in lower case.
lower_codes : String → List ℕ
lower_codes String.[] = []
lower_codes (String.◌∷◌ c s) = to_lower (code c) ∷ lower_codes s

abbrev has_prefix : List ℕ → List ℕ → Bool
has_prefix [] s = true
has_prefix (p ∷ ps) [] = false
has_prefix (p ∷ ps) (c ∷ s) = p == c && has_prefix ps s

abbrev contains : List ℕ → List ℕ → Bool
contains word [] = has_prefix word []
contains word (c ∷ s) = has_prefix word (c ∷ s) || contains word s

-- `/secret|password|authorization|token/i.test(key)`
unfoldable pub is_secret_like : String → Bool
unfolding lower_codes
is_secret_like key =
    contains (lower_codes "secret") (lower_codes key)
    || (contains (lower_codes "password") (lower_codes key)
        || (contains (lower_codes "authorization") (lower_codes key)
            || contains (lower_codes "token") (lower_codes key)))

-- `fuel` is how many levels are left before the ceiling: `MAX_SCRUB_DEPTH - depth`.
unfoldable mutual
  pub scrub : ℕ → Value → Value
  scrub fuel null = null
  scrub fuel (boolean b) = boolean b
  scrub fuel (number d) = number d
  scrub fuel (text t) = text t
  scrub zero (array items) = text "[TRUNCATED]"
  scrub zero (object fields) = text "[TRUNCATED]"
  scrub (suc fuel) (array items) = array (scrub_items fuel items)
  scrub (suc fuel) (object fields) = object (scrub_fields fuel fields)

  pub scrub_items : ℕ → Items → Items
  scrub_items fuel last = last
  scrub_items fuel (item v rest) = item (scrub fuel v) (scrub_items fuel rest)

  pub scrub_fields : ℕ → Fields → Fields
  scrub_fields fuel Fields.end = Fields.end
  scrub_fields fuel (Fields.field key v rest) =
      let v' = scrub fuel v in
      Fields.field key (if is_secret_like key then text "[REDACTED]" else v')
        (scrub_fields fuel rest)

unfoldable pub scrub_payload : Value → Value
scrub_payload v = scrub max_scrub_depth v

unfoldable pub record_protocol_event : {db : Database} → OcppProtocolEvent → World db → World db
record_protocol_event e w = record w {
  protocol_events = record e { payload = scrub_payload e.payload } ∷ w.protocol_events;
}
