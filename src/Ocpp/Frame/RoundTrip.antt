-- ===== src/Ocpp/Frame/RoundTrip.antt =====
-- Printing the messages of the envelope, and parsing them.
use Prim.Native.String.{String}
use forgeos_web.Base.{false, none, refl, ap, if◌then◌else◌, true, some, Bool, Option, ◌≡◌}
use forgeos_web.Base.Decimal.{Decimal, is_whole}
use forgeos_web.Ocpp.Frame.{
  last, null, item, object, array, text, call_error, number, call_result, boolean, malformed, call,
  second, message, is_object, format_call_error, first, format_call_result, Items, format_call,
  parse_result, FrameFault, or_empty, parse_identified, parse_typed, parse_error, parse_call,
  parse_ocpp_frame, Envelope, OcppJMessage, Value,
}

abbrev pub print : OcppJMessage → Value
print (call id action payload) = format_call id action payload
print (call_result id payload) = format_call_result id payload
print (call_error id code description details) = format_call_error id code description details

-- What a parsed message holds, which its types leave open.
abbrev Fits : OcppJMessage → Type 0
Fits (call id action payload) = is_object payload ≡ true
Fits (call_result id payload) = is_object payload ≡ true
Fits (call_error id code description details) = or_empty (some details) ≡ details

abbrev AllFit : Envelope → Type 0
AllFit (message m) = Fits m
AllFit (malformed fault) = Unit

parse-print : (m : OcppJMessage) → Fits m → parse_ocpp_frame (print m) ≡ message m
unfolding parse_ocpp_frame parse_identified parse_typed parse_call parse_result parse_error is_whole
    format_call format_call_result format_call_error
parse-print (call id action payload) h = rw h refl
parse-print (call_result id payload) h = rw h refl
parse-print (call_error id code description details) h =
    ap (λ d. message (call_error id code description d)) h

or_empty_idem : (v : Option Value) → or_empty (some (or_empty v)) ≡ or_empty v
or_empty_idem none = refl
or_empty_idem (some null) = refl
or_empty_idem (some (boolean b)) = refl
or_empty_idem (some (number d)) = refl
or_empty_idem (some (text t)) = refl
or_empty_idem (some (array items)) = refl
or_empty_idem (some (object fields)) = refl

fit-when :
    (b : Bool) (m : OcppJMessage) (fault : FrameFault)
    → (b ≡ true → Fits m)
    → AllFit (if b then message m else malformed fault)
fit-when true m fault h = h refl
fit-when false m fault h = tt

parse_call-AllFit :
    (id : String) (action : Value) (payload : Option Value) → AllFit (parse_call id action payload)
unfolding parse_call
parse_call-AllFit id null payload = tt
parse_call-AllFit id (boolean b) payload = tt
parse_call-AllFit id (number d) payload = tt
parse_call-AllFit id (text t) none = tt
parse_call-AllFit id (text t) (some payload) = fit-when (is_object payload) _ _ (λ h. h)
parse_call-AllFit id (array items) payload = tt
parse_call-AllFit id (object fields) payload = tt

parse_error-AllFit :
    (id : String) (code : Value) (description details : Option Value)
    → AllFit (parse_error id code description details)
unfolding parse_error
parse_error-AllFit id null description details = tt
parse_error-AllFit id (boolean b) description details = tt
parse_error-AllFit id (number d) description details = tt
parse_error-AllFit id (text code) none details = tt
parse_error-AllFit id (text code) (some null) details = tt
parse_error-AllFit id (text code) (some (boolean b)) details = tt
parse_error-AllFit id (text code) (some (number d)) details = tt
parse_error-AllFit id (text code) (some (text t)) details = or_empty_idem details
parse_error-AllFit id (text code) (some (array items)) details = tt
parse_error-AllFit id (text code) (some (object fields)) details = tt
parse_error-AllFit id (array items) description details = tt
parse_error-AllFit id (object fields) description details = tt

AllFit-if : (b : Bool) (e f : Envelope) → AllFit e → AllFit f → AllFit (if b then e else f)
AllFit-if true e f h g = h
AllFit-if false e f h g = g

parse_typed-AllFit :
    (type : Decimal) (id : String) (third : Value) (rest : Items)
    → AllFit (parse_typed type id third rest)
unfolding parse_typed parse_result
parse_typed-AllFit type id third rest =
    AllFit-if (is_whole type 2) _ _ (parse_call-AllFit id third (first rest)) (
      AllFit-if (is_whole type 3) _ _ (fit-when (is_object third) _ _ (λ h. h)) (
        AllFit-if (is_whole type 4) _ _ (parse_error-AllFit id third (first rest) (second rest))
          tt))

parse_identified-AllFit :
    (type id third : Value) (rest : Items) → AllFit (parse_identified type id third rest)
unfolding parse_identified
parse_identified-AllFit null id third rest = tt
parse_identified-AllFit (boolean b) id third rest = tt
parse_identified-AllFit (number d) null third rest = tt
parse_identified-AllFit (number d) (boolean b) third rest = tt
parse_identified-AllFit (number d) (number e) third rest = tt
parse_identified-AllFit (number d) (text t) third rest = parse_typed-AllFit d t third rest
parse_identified-AllFit (number d) (array items) third rest = tt
parse_identified-AllFit (number d) (object fields) third rest = tt
parse_identified-AllFit (text t) id third rest = tt
parse_identified-AllFit (array items) id third rest = tt
parse_identified-AllFit (object fields) id third rest = tt

parse_ocpp_frame-AllFit : (raw : Value) → AllFit (parse_ocpp_frame raw)
unfolding parse_ocpp_frame
parse_ocpp_frame-AllFit null = tt
parse_ocpp_frame-AllFit (boolean b) = tt
parse_ocpp_frame-AllFit (number d) = tt
parse_ocpp_frame-AllFit (text t) = tt
parse_ocpp_frame-AllFit (array last) = tt
parse_ocpp_frame-AllFit (array (item a last)) = tt
parse_ocpp_frame-AllFit (array (item a (item b last))) = tt
parse_ocpp_frame-AllFit (array (item a (item b (item c rest)))) = parse_identified-AllFit a b c rest
parse_ocpp_frame-AllFit (object fields) = tt

-- Of every frame that parses, of whatever kind and with whatever follows its last place, the message
-- is kept whole: the frame that the service would send for that message parses to the same message.
pub parse_ocpp_frame-print :
    (raw : Value) (m : OcppJMessage)
    → parse_ocpp_frame raw ≡ message m
    → parse_ocpp_frame (print m) ≡ message m
parse_ocpp_frame-print raw m e =
    let fits : AllFit (parse_ocpp_frame raw) = parse_ocpp_frame-AllFit raw in
    parse-print m (rw e at fits)
