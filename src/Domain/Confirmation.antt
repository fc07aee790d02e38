-- ===== src/Domain/Confirmation.antt =====
-- The state of apps/movos-api/src/ocpp/remote-commands/remote-command-confirmation.service.ts.
use forgeos_web.Base.{ℕ}
use forgeos_web.Base.JsMap.{JsMap}

pub record Confirmations : Type 0 where
  -- the map `timers`, by command
  pub timers : JsMap ℕ ℕ
  -- the timers that run, each with the command it was set for
  pub running : JsMap ℕ ℕ
  pub next_timer : ℕ
