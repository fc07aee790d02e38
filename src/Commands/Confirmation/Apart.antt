-- ===== src/Commands/Confirmation/Apart.antt =====
-- The sessions beside the confirmation service.
use forgeos_web.Base.{
  ℕ, ◌∙◌, ◌≡◌, refl, ap, inl, inr, false, Option, none, some, Bool-cases, Option-cases,
}
use forgeos_web.Base.JsMap.{nat_eq, string_eq}
use forgeos_web.Base.Result.{Result, err, invalid_transition}
use forgeos_web.Domain.{Database, World}
use forgeos_web.Commands.Settlement.{
  settle_accepted, settle_outcome, confirms, settle_missing, settle, Verdict,
}
use forgeos_web.Commands.Confirmation.{
  CommandState, state_eq, confirm_found, command_at, clear_timer, RemoteCommand,
  on_stop_transaction_observed, on_start_transaction_observed, confirm,
}

module _ {db : Database} where
  settle_refused :
      (v : Verdict) (i : ℕ) (w : World db) (c : RemoteCommand)
      → command_at w i ≡ some c
      → state_eq c.state CommandState.accepted ≡ false
      → settle v i w ≡ (err invalid_transition, w)
  settle_refused v i w c there e = settle_outcome v i w c there ∙ rw e refl

  settle_sessions : (v : Verdict) (i : ℕ) (w : World db) → (settle v i w).1.sessions ≡ w.sessions
  settle_sessions v i w = elim (Option-cases (command_at w i)) [
    | inl missing ↦ rw (settle_missing v i w missing) refl
    | inr (c, there) ↦ elim (Bool-cases (state_eq c.state CommandState.accepted)) [
      | inl e ↦ rw (settle_accepted v i w c there e) refl
      | inr e ↦
          ap {A = Result RemoteCommand × World db} (λ p. p.1.sessions)
            (settle_refused v i w c there e)
    ]
  ]

  confirm_found_sessions :
      (session : Option ℕ) (found : Option RemoteCommand) (w : World db)
      → (confirm_found session found w).sessions ≡ w.sessions
  unfolding confirm clear_timer
  confirm_found_sessions session none w = refl
  confirm_found_sessions session (some c) w =
      settle_sessions (confirms session) c.id (clear_timer c.id w)

  pub start_observed_sessions :
      (station connector session : ℕ) (w : World db)
      → (on_start_transaction_observed station connector session w).sessions ≡ w.sessions
  unfolding on_start_transaction_observed
  start_observed_sessions station connector session w = confirm_found_sessions (some session) _ w

  pub stop_observed_sessions :
      (session : ℕ) (w : World db) → (on_stop_transaction_observed session w).sessions ≡ w.sessions
  unfolding on_stop_transaction_observed
  stop_observed_sessions session w = confirm_found_sessions none _ w
