-- ===== src/Ocpp/EventLog/Scrubbing.antt =====
-- The payloads that the event log stores.
use forgeos_web.Domain.{Database, World}
use forgeos_web.Domain.Telemetry.{OcppProtocolEvent}
use forgeos_web.Base.{
  List, [], ◌∷◌, All, ℕ, zero, suc, ◌≡◌, refl, ap, inl, inr, Bool, true, false, if◌then◌else◌,
  Bool-cases,
}
use forgeos_web.Base.JsMap.{nat_eq, string_eq}
use forgeos_web.Ocpp.Frame.{
  Value, Items, Fields, null, boolean, number, text, array, object, last, item,
}
use forgeos_web.Ocpp.EventLog.{
  record_protocol_event, scrub_fields, scrub_items, scrub_payload, scrub, is_secret_like,
}

-- No key that looks like a secret has a value but the mark, at any depth, and nothing is nested deeper
-- than the given number of levels.
mutual
  pub IsClean : ℕ → Value → Type 0
  IsClean fuel null = Unit
  IsClean fuel (boolean b) = Unit
  IsClean fuel (number d) = Unit
  IsClean fuel (text t) = Unit
  IsClean zero (array items) = ⊥
  IsClean zero (object fields) = ⊥
  IsClean (suc fuel) (array items) = AreClean fuel items
  IsClean (suc fuel) (object fields) = HasCleanFields fuel fields

  pub AreClean : ℕ → Items → Type 0
  AreClean fuel last = Unit
  AreClean fuel (item v rest) = IsClean fuel v × AreClean fuel rest

  pub HasCleanFields : ℕ → Fields → Type 0
  HasCleanFields fuel Fields.end = Unit
  HasCleanFields fuel (Fields.field key v rest) =
      IsClean fuel v
      × (is_secret_like key ≡ true → v ≡ text "[REDACTED]")
      × HasCleanFields fuel rest

redacted-IsClean :
    (fuel : ℕ) (b : Bool) (v : Value)
    → IsClean fuel v
    → IsClean fuel (if b then text "[REDACTED]" else v)
unfolding IsClean
redacted-IsClean fuel true v h = tt
redacted-IsClean fuel false v h = h

mutual
  unfolding scrub scrub_items scrub_fields IsClean AreClean HasCleanFields

  scrub-IsClean : (fuel : ℕ) (v : Value) → IsClean fuel (scrub fuel v)
  scrub-IsClean fuel null = tt
  scrub-IsClean fuel (boolean b) = tt
  scrub-IsClean fuel (number d) = tt
  scrub-IsClean fuel (text t) = tt
  scrub-IsClean zero (array items) = tt
  scrub-IsClean zero (object fields) = tt
  scrub-IsClean (suc fuel) (array items) = scrub_items-AreClean fuel items
  scrub-IsClean (suc fuel) (object fields) = scrub_fields-HasCleanFields fuel fields

  scrub_items-AreClean : (fuel : ℕ) (items : Items) → AreClean fuel (scrub_items fuel items)
  scrub_items-AreClean fuel last = tt
  scrub_items-AreClean fuel (item v rest) = (scrub-IsClean fuel v, scrub_items-AreClean fuel rest)

  scrub_fields-HasCleanFields :
      (fuel : ℕ) (fields : Fields) → HasCleanFields fuel (scrub_fields fuel fields)
  scrub_fields-HasCleanFields fuel Fields.end = tt
  scrub_fields-HasCleanFields fuel (Fields.field key v rest) = (
    redacted-IsClean fuel (is_secret_like key) (scrub fuel v) (scrub-IsClean fuel v),
    λ e. rw e refl,
    scrub_fields-HasCleanFields fuel rest,
  )

pub scrub_payload-IsClean : (v : Value) → IsClean 20 (scrub_payload v)
unfolding scrub_payload
scrub_payload-IsClean v = scrub-IsClean 20 v

mutual
  unfolding scrub scrub_items scrub_fields IsClean AreClean HasCleanFields

  clean_kept : (fuel : ℕ) (v : Value) → IsClean fuel v → scrub fuel v ≡ v
  clean_kept fuel null h = refl
  clean_kept fuel (boolean b) h = refl
  clean_kept fuel (number d) h = refl
  clean_kept fuel (text t) h = refl
  clean_kept zero (array items) h = absurd h
  clean_kept zero (object fields) h = absurd h
  clean_kept (suc fuel) (array items) h = ap (λ x. array x) (clean_items_kept fuel items h)
  clean_kept (suc fuel) (object fields) h = ap (λ x. object x) (clean_fields_kept fuel fields h)

  clean_items_kept :
      (fuel : ℕ) (items : Items) → AreClean fuel items → scrub_items fuel items ≡ items
  clean_items_kept fuel last h = refl
  clean_items_kept fuel (item v rest) (h, g) =
      cc (clean_kept fuel v h, clean_items_kept fuel rest g)

  clean_fields_kept :
      (fuel : ℕ) (fields : Fields) → HasCleanFields fuel fields → scrub_fields fuel fields ≡ fields
  clean_fields_kept fuel Fields.end h = refl
  clean_fields_kept fuel (Fields.field key v rest) (h, marked, g) =
      elim (Bool-cases (is_secret_like key)) [
        | inl e ↦ rw e (cc (marked e, clean_fields_kept fuel rest g))
        | inr e ↦ rw e (cc (clean_kept fuel v h, clean_fields_kept fuel rest g))
      ]

-- The rule is applied when a frame is stored and again when it is read: the second time changes
-- nothing.
pub scrub_payload_idem : (v : Value) → scrub_payload (scrub_payload v) ≡ scrub_payload v
unfolding scrub_payload
scrub_payload_idem v = clean_kept 20 (scrub 20 v) (scrub-IsClean 20 v)

-- The log after some events have been recorded, the first of the list first.
abbrev pub record_events : {db : Database} → List OcppProtocolEvent → World db → World db
record_events [] w = w
record_events (e ∷ es) w = record_events es (record_protocol_event e w)

abbrev pub AreStoredClean : List OcppProtocolEvent → Type 0
AreStoredClean = All (λ e. IsClean 20 e.payload)

-- What is kept of an event as it came.
abbrev pub without_payload : OcppProtocolEvent → OcppProtocolEvent
without_payload e = record e { payload = null }

abbrev pub stripped : List OcppProtocolEvent → List OcppProtocolEvent
stripped [] = []
stripped (e ∷ es) = without_payload e ∷ stripped es

-- The log that the events make on top of an older one, newest first.
abbrev pub on_top : (new old : List OcppProtocolEvent) → List OcppProtocolEvent
on_top [] old = old
on_top (e ∷ es) old = on_top es (e ∷ old)

-- Whatever events are recorded, their payloads as deep and as full of secrets as may be, in a log
-- whose payloads were clean: each event is stored, newest first, with everything but its payload as
-- it came; and in every stored payload each key that looks like a secret has only the mark for a
-- value, at whatever depth it stands, and nothing is nested deeper than twenty levels.
pub record_events-AreStoredClean :
    {db : Database} (es : List OcppProtocolEvent) (w : World db)
    → AreStoredClean w.protocol_events
    → AreStoredClean (record_events es w).protocol_events
      × (stripped (record_events es w).protocol_events
          ≡ on_top (stripped es) (stripped w.protocol_events))
unfolding record_protocol_event
record_events-AreStoredClean [] w h = (h, refl)
record_events-AreStoredClean (e ∷ es) w h =
    record_events-AreStoredClean es (record_protocol_event e w) (scrub_payload-IsClean e.payload, h)
