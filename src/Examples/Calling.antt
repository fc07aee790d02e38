-- ===== src/Examples/Calling.antt =====
-- The property of pending calls at a concrete run.
use forgeos_web.Base.{◌+◌, ◌≡◌, List, [], ◌∷◌}
use forgeos_web.Base.JsMap
use forgeos_web.PendingCalls
use forgeos_web.PendingCalls.{call_result}
use forgeos_web.PendingCalls.Delivery.{
  CallEvent, registers, expires, resolves, cancels_all, run, empty, deliveries, waiting,
  run_delivers_once,
}

-- The reply and the timer of the first call race, and the second call is cancelled.
abbrev race : List CallEvent
race =
    registers "a1" 7 ∷ registers "a2" 7 ∷ resolves "a1" call_result ∷ expires 0 ∷ cancels_all ∷ []

run_delivers_once_example : deliveries 0 (run race empty).delivered + waiting (run race empty) 0 ≡ 1
unfolding PendingCalls.register PendingCalls.cancel_all PendingCalls.cancel_each PendingCalls.expire
    JsMap.get PendingCalls.resolve JsMap.put JsMap.remove
run_delivers_once_example = run_delivers_once race 0
