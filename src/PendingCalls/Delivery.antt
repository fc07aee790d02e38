-- ===== src/PendingCalls/Delivery.antt =====
-- Every call that was registered has its callback run at most once, and none is forgotten.
use forgeos_web.Base.{
  ℕ, ◌+◌, ◌≡◌, some, List, [], ◌∷◌, ◌==◌, ltb, is_none, arith, Option-cases, inl, inr,
  if◌then◌else◌,
}
use forgeos_web.Base.JsMap
use forgeos_web.Base.JsMap.{JsMap, nat_eq, string_eq, get-put, get-remove}
use forgeos_web.PendingCalls.{
  String, PendingCalls, PendingCallEntry, Outcome, resolved, timed_out, Resolution, register,
  expire, resolve, cancel_each, cancel_all, close_entry,
}

abbrev pub deliveries : ℕ → List (ℕ × Outcome) → ℕ
deliveries t [] = 0
deliveries t ((u, outcome) ∷ rest) = let n = deliveries t rest in if u == t then n + 1 else n

abbrev pub waiting : PendingCalls → ℕ → ℕ
waiting s t = if is_none (JsMap.get s.timers t) then 0 else 1

abbrev registered : PendingCalls → ℕ → ℕ
registered s t = if ltb t s.next_timer then 1 else 0

-- Each registration so far has had its callback run once, or else its timer runs; and the timer of a
-- pending entry runs for its message.
pub record IsAccounted (s : PendingCalls) : Type 0 where
  pub once : (t : ℕ) → deliveries t s.delivered + waiting s t ≡ registered s t
  pub timed :
      (m : String) (e : PendingCallEntry)
      → JsMap.get s.pending m ≡ some e
      → JsMap.get s.timers e.timer ≡ some m

register-IsAccounted :
    (m : String) (identity : ℕ) (s : PendingCalls)
    → IsAccounted s
    → IsAccounted (register m identity s)
unfolding register
register-IsAccounted m identity s h = record {
  once = λ t. ground (arith, h.once t, get-put s.timers s.next_timer m t);
  timed = λ j e there. ground (
    arith,
    h.timed j e,
    h.once s.next_timer,
    there,
    string_eq.beq_iff m j,
    get-put s.pending m (record { ocpp_identity = identity; timer = s.next_timer }) j,
    get-put s.timers s.next_timer m e.timer,
  );
}

close_entry-IsAccounted :
    (m : String) (t : ℕ) (outcome : Outcome) (s : PendingCalls)
    → JsMap.get s.timers t ≡ some m
    → IsAccounted s
    → IsAccounted (close_entry m t outcome s)
close_entry-IsAccounted m t outcome s running h = record {
  once = λ u. ground (arith, h.once u, running, get-remove s.timers t u);
  timed = λ j e there. ground (
    arith,
    h.timed j e,
    there,
    running,
    string_eq.beq_iff m j,
    get-remove s.pending m j,
    get-remove s.timers t e.timer,
  );
}

expire-IsAccounted : (t : ℕ) (s : PendingCalls) → IsAccounted s → IsAccounted (expire t s)
unfolding expire
expire-IsAccounted t s h = elim (Option-cases (JsMap.get s.timers t)) [
  | inl stopped ↦ rw (stopped, expire) h
  | inr (m, running) ↦ rw (running, expire) (close_entry-IsAccounted m t timed_out s running h)
]

resolve-IsAccounted :
    (m : String) (r : Resolution) (s : PendingCalls) → IsAccounted s → IsAccounted (resolve m r s)
unfolding resolve
resolve-IsAccounted m r s h = elim (Option-cases (JsMap.get s.pending m)) [
  | inl unknown ↦ rw (unknown, resolve) h
  | inr (e, there) ↦
      rw (there, resolve) (close_entry-IsAccounted m e.timer (resolved r) s (h.timed m e there) h)
]

cancel_each-IsAccounted :
    (entries : JsMap String PendingCallEntry) (s : PendingCalls)
    → IsAccounted s
    → IsAccounted (cancel_each entries s)
unfolding cancel_each
cancel_each-IsAccounted [] s h = h
cancel_each-IsAccounted ((m, entry) ∷ rest) s h = elim (Option-cases (JsMap.get s.pending m)) [
  | inl gone ↦ rw gone (cancel_each-IsAccounted rest s h)
  | inr (e, there) ↦ rw there (
      cancel_each-IsAccounted rest (close_entry m e.timer timed_out s)
        (close_entry-IsAccounted m e.timer timed_out s (h.timed m e there) h))
]

pub data CallEvent : Type 0 where
  registers : (message_id : String) (ocpp_identity : ℕ) → CallEvent
  expires : (timer : ℕ) → CallEvent
  resolves : (message_id : String) → Resolution → CallEvent
  cancels_all : CallEvent

abbrev pub step : CallEvent → PendingCalls → PendingCalls
step (registers m identity) s = register m identity s
step (expires t) s = expire t s
step (resolves m r) s = resolve m r s
step cancels_all s = cancel_all s

abbrev pub run : List CallEvent → PendingCalls → PendingCalls
run [] s = s
run (e ∷ es) s = run es (step e s)

abbrev pub empty : PendingCalls
empty = record { pending = []; timers = []; next_timer = 0; delivered = [] }

step-IsAccounted : (e : CallEvent) (s : PendingCalls) → IsAccounted s → IsAccounted (step e s)
unfolding cancel_all
step-IsAccounted (registers m identity) s h = register-IsAccounted m identity s h
step-IsAccounted (expires t) s h = expire-IsAccounted t s h
step-IsAccounted (resolves m r) s h = resolve-IsAccounted m r s h
step-IsAccounted cancels_all s h = cancel_each-IsAccounted s.pending s h

run-IsAccounted : (es : List CallEvent) (s : PendingCalls) → IsAccounted s → IsAccounted (run es s)
run-IsAccounted [] s h = h
run-IsAccounted (e ∷ es) s h = run-IsAccounted es (step e s) (step-IsAccounted e s h)

empty-IsAccounted : IsAccounted empty
unfolding JsMap.get
empty-IsAccounted = record { once = λ t. ground arith; timed = λ m e there. ground arith }

-- Whatever the order of registrations, replies, timers and cancellations, replies and timers that
-- come late or twice included: the callback of each registered call has been run exactly once, or
-- its timer still runs and it has not been run; and nothing is run for a call never registered.
pub run_delivers_once :
    (es : List CallEvent) (t : ℕ)
    → let s = run es empty in
      deliveries t s.delivered + waiting s t ≡ (if ltb t s.next_timer then 1 else 0)
run_delivers_once es t = (run-IsAccounted es empty empty-IsAccounted).once t
