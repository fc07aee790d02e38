-- ===== src/Commands/Confirmation/Windows.antt =====
-- The windows of registered commands, and how they end.
use forgeos_web.Base.{
  ℕ, ◌∙◌, ◌≡◌, refl, ap, ◌⊎◌, inl, inr, true, false, Option, none, some, List, [], ◌∷◌, Bool-cases,
}
use forgeos_web.Base.JsMap
use forgeos_web.Base.JsMap.{JsMap, nat_eq, string_eq, get-put, get-remove}
use forgeos_web.Domain.{Database, World}
use forgeos_web.Commands.Settlement.{settle, settled-there, settle_accepted, expires, settled}
use forgeos_web.Commands.Confirmation.{
  CommandState, state_eq, schedule_expiry, command_at, on_stop_transaction_observed, expire_window,
  on_start_transaction_observed, expire_of, expire_found, register_accepted, RemoteCommand, fired,
}
use forgeos_web.Commands.Confirmation.Watched.{
  check_immediately-Steps, IsWatched, settle-Verdicts, confirm_found-Steps, none_ne_some,
  after-Steps, register_accepted-Steps, resolving-Steps, Verdicts, idle-Steps, Steps,
}
use forgeos_web.Commands.Confirmation.Timers.{
  start_window-RunsFor_new, start_window-IsSound, fired-RunsFor, drop-IsSound, IsSound,
}

pub data ConfirmationEvent : Type 0 where
  registers : RemoteCommand → ConfirmationEvent
  start_observed : (station_id connector_id session_id : ℕ) → ConfirmationEvent
  stop_observed : (session_id : ℕ) → ConfirmationEvent
  fires : (timer : ℕ) → ConfirmationEvent

module _ {db : Database} where
  abbrev pub step : ConfirmationEvent → World db → World db
  step (registers c) w = register_accepted c w
  step (start_observed station connector session) w =
      on_start_transaction_observed station connector session w
  step (stop_observed session) w = on_stop_transaction_observed session w
  step (fires timer) w = expire_window timer w

  abbrev pub run : List ConfirmationEvent → World db → World db
  run [] w = w
  run (e ∷ es) w = run es (step e w)

  fired-Verdicts :
      (i : ℕ) (found : Option RemoteCommand) (w : World db)
      → command_at w i ≡ found
      → Verdicts i w (expire_found found w)
  unfolding expire_found
  fired-Verdicts i none w there = record {
    same_timers = refl;
    resolved = λ c there'. absurd (none_ne_some there there');
    others = λ k differ. refl;
    keeps = λ c there' done. there';
  }
  fired-Verdicts i (some c) w there = elim (Bool-cases (state_eq c.state CommandState.accepted)) [
    | inl e ↦
        let own : c.id ≡ i = db.commands.find_unique_key w.commands i c there in
        rw (e, own) (settle-Verdicts expires i w)
    | inr e ↦ rw e (record {
      same_timers = refl;
      resolved = λ d there'. cc;
      others = λ k differ. refl;
      keeps = λ d there' done. there';
    })
  ]

  expire_of-Steps :
      (timer k : ℕ) (command : Option ℕ) (w : World db)
      → JsMap.get w.confirmations.running timer ≡ command
      → Steps k w (expire_of timer command w)
  unfolding expire_of
  expire_of-Steps timer k none w runs = idle-Steps k w
  expire_of-Steps timer k (some i) w runs =
      let w' : World db = record w { confirmations = fired timer i w.confirmations } in
      resolving-Steps i k w (expire_found (command_at w' i) w') (fired timer i w.confirmations)
        (drop-IsSound i timer w.confirmations)
        (λ sound differ there.
          fired-RunsFor i k timer w.confirmations differ (λ j e. cc (runs, e)) there)
        (fired-Verdicts i (command_at w' i) w' refl)

  step-Steps : (k : ℕ) (e : ConfirmationEvent) (w : World db) → Steps k w (step e w)
  unfolding on_start_transaction_observed on_stop_transaction_observed expire_window
  step-Steps k (registers c) w = register_accepted-Steps k c w
  step-Steps k (start_observed station connector session) w =
      confirm_found-Steps k (some session) _ w
  step-Steps k (stop_observed session) w = confirm_found-Steps k none _ w
  step-Steps k (fires timer) w = expire_of-Steps timer k _ w refl

  run-Steps : (k : ℕ) (es : List ConfirmationEvent) (w : World db) → Steps k w (run es w)
  run-Steps k [] w = idle-Steps k w
  run-Steps k (e ∷ es) w =
      after-Steps k w (step e w) (run es (step e w)) (step-Steps k e w) (run-Steps k es (step e w))

  -- A command that is not ACCEPTED, so each that was confirmed or given up, keeps its row whatever
  -- the confirmation service is told afterwards: registrations, observed starts and stops, and
  -- timers that fire, in any order.
  pub resolved_stays :
      (es : List ConfirmationEvent) (w : World db) (k : ℕ) (c : RemoteCommand)
      → command_at w k ≡ some c
      → state_eq c.state CommandState.accepted ≡ false
      → command_at (run es w) k ≡ some c
  resolved_stays es w k c there done = (run-Steps k es w).stays c there done

  register-IsWatched :
      (c : RemoteCommand) (w : World db)
      → IsSound w.confirmations
      → state_eq c.state CommandState.accepted ≡ true
      → IsWatched c.id (register_accepted c w)
  unfolding register_accepted schedule_expiry
  register-IsWatched c w sound waiting =
      let w' = schedule_expiry c.id w in
      let scheduled : IsWatched c.id w' = record {
        sound = start_window-IsSound c.id w.confirmations sound;
        guarded = λ d there e. start_window-RunsFor_new c.id w.confirmations;
      } in
      rw waiting ((check_immediately-Steps c.id c w').watches scheduled)

  firing_resolves :
      (t k : ℕ) (w : World db) (row : RemoteCommand)
      → JsMap.get w.confirmations.running t ≡ some k
      → command_at w k ≡ some row
      → state_eq row.state CommandState.accepted ≡ true
      → command_at (expire_window t w) k ≡ some (settled expires w.now row)
  unfolding expire_window expire_of expire_found
  firing_resolves t k w row runs there waiting =
      let w1 : World db = record w { confirmations = fired t k w.confirmations } in
      let own : row.id ≡ k = db.commands.find_unique_key w.commands k row there in
      rw (runs, there, waiting)
        (ap (λ i. command_at (settle expires i w1).1 k) own
          ∙ (ap (λ p. command_at p.1 k) (settle_accepted expires k w1 row there waiting)
              ∙ settled-there expires k w1 row there))

  -- After an ACCEPTED command is registered, and whatever the service is told then, the command is
  -- resolved or a timer runs for it; when that timer fires, the command is UNCONFIRMED, so it cannot
  -- stay ACCEPTED past its window. The map of timers is sound before, as it is when the process starts.
  pub registered_resolves :
      (es : List ConfirmationEvent) (w : World db) (c row : RemoteCommand)
      → IsSound w.confirmations
      → state_eq c.state CommandState.accepted ≡ true
      → let w' = run es (register_accepted c w) in
        command_at w' c.id ≡ some row
        → (state_eq row.state CommandState.accepted ≡ false)
          ⊎ ((t : ℕ) × (JsMap.get w'.confirmations.running t ≡ some c.id)
              × (command_at (expire_window t w') c.id ≡ some (settled expires w'.now row)))
  registered_resolves es w c row sound waiting there =
      let w' = run es (register_accepted c w) in
      let watched =
        (run-Steps c.id es (register_accepted c w)).watches
          (register-IsWatched c w sound waiting) in
      elim (Bool-cases (state_eq row.state CommandState.accepted)) [
        | inl open_ ↦
            let (t, runs) = watched.guarded row there open_ in
            inr (t, runs, firing_resolves t c.id w' row runs there open_)
        | inr done ↦ inl done
      ]
