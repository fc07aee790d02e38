-- ===== src/PendingCalls.antt =====
-- apps/movos-api/src/ocpp/outbound/pending-call-registry.service.ts: the calls that wait for a reply.
-- A timer is named by a number; a callback is recorded when it is run.
pub mod Delivery
use forgeos_web.Base.{
  ℕ, ◌+◌, Bool, true, false, not, Option, none, some, List, [], ◌∷◌, is_none, if◌then◌else◌, length,
}
use forgeos_web.Base.JsMap
use forgeos_web.Base.JsMap.{JsMap, nat_eq, string_eq}
use Prim.Native.String.{String}

pub data Resolution : Type 0 where
  call_result call_error : Resolution

pub data Outcome : Type 0 where
  resolved : Resolution → Outcome
  timed_out : Outcome

pub record PendingCallEntry : Type 0 where
  pub ocpp_identity : ℕ
  -- the timer, whose handlers are those of the entry
  pub timer : ℕ

pub record PendingCalls : Type 0 where
  pub pending : JsMap String PendingCallEntry
  -- the timers that run, each with the message it was set for
  pub timers : JsMap ℕ String
  pub next_timer : ℕ
  -- the callbacks that were run, by the timer of their registration, newest first
  pub delivered : List (ℕ × Outcome)

unfoldable pub register : (message_id : String) (ocpp_identity : ℕ) → PendingCalls → PendingCalls
register message_id ocpp_identity s = record s {
  pending =
      JsMap.put s.pending message_id
        (record { ocpp_identity = ocpp_identity; timer = s.next_timer });
  timers = JsMap.put s.timers s.next_timer message_id;
  next_timer = s.next_timer + 1;
}

-- The timer fires, if it still runs.
unfoldable pub expire : (timer : ℕ) → PendingCalls → PendingCalls
expire timer s = elim (JsMap.get s.timers timer) [
  | none ↦ s
  | some message_id ↦ record s {
    pending = JsMap.remove s.pending message_id;
    timers = JsMap.remove s.timers timer;
    delivered = (timer, timed_out) ∷ s.delivered;
  }
]

unfoldable pub has : PendingCalls → String → Bool
has s message_id = not (is_none (JsMap.get s.pending message_id))

abbrev pub close_entry : (message_id : String) (timer : ℕ) → Outcome → PendingCalls → PendingCalls
close_entry message_id timer outcome s = record s {
  pending = JsMap.remove s.pending message_id;
  timers = JsMap.remove s.timers timer;
  delivered = (timer, outcome) ∷ s.delivered;
}

unfoldable pub resolve : (message_id : String) → Resolution → PendingCalls → PendingCalls
resolve message_id resolution s = elim (JsMap.get s.pending message_id) [
  | none ↦ s
  | some entry ↦ close_entry message_id entry.timer (resolved resolution) s
]

-- The loop over the map; an entry that is no longer there is not visited.
unfoldable pub cancel_each : JsMap String PendingCallEntry → PendingCalls → PendingCalls
cancel_each [] s = s
cancel_each ((message_id, entry) ∷ rest) s =
    cancel_each rest (elim (JsMap.get s.pending message_id) [
      | none ↦ s
      | some there ↦ close_entry message_id there.timer timed_out s
    ])

unfoldable pub cancel_all : PendingCalls → PendingCalls
cancel_all s = cancel_each s.pending s

abbrev pub pending_count : PendingCalls → ℕ
pending_count s = length s.pending
