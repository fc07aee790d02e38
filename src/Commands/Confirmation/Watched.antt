-- ===== src/Commands/Confirmation/Watched.antt =====
-- What the events of the confirmation service leave of a command: a resolved command stays as it is,
-- and an accepted one that was registered is watched by a timer.
use forgeos_web.Base.{
  ℕ, ◌∙◌, ◌≡◌, ◌≢◌, refl, sym, ap, inl, inr, true, false, Option, none, some, ◌==◌, arith,
  Bool-cases, Option-cases, ==_iff,
}
use forgeos_web.Base.JsMap.{nat_eq, string_eq}
use forgeos_web.Base.Result.{err, Error, not_found, invalid_transition}
use forgeos_web.Domain.{Database, World}
use forgeos_web.Commands.Confirmation.{
  SessionStatus, status_eq, session_at, ChargingSession, register_accepted, check_immediately,
  check_stop, check_start, check_stopped, check_started, confirm_found, schedule_expiry,
  Confirmations, clear_timer, confirm, CommandState, state_eq, command_at, RemoteCommand, clear,
}
use forgeos_web.Commands.Confirmation.Timers.{
  start_window-RunsFor, start_window-IsSound, clear-RunsFor, clear-IsSound, RunsFor, IsSound,
}
use forgeos_web.Commands.Settlement.{
  confirms, settled-id, settle_outcome, settled-state, settle_missing, settled-there,
  settle_accepted, settle, Verdict,
}
use forgeos_web.Commands.Settlement.{settled}
use forgeos_web.Domain.Command.{CommandType}

pub none_ne_some : {o : Option RemoteCommand} {c : RemoteCommand} → o ≡ none → o ≡ some c → ⊥
none_ne_some e f = cc

pub differ_when : (i k : ℕ) → (i == k) ≡ false → i ≢ k
differ_when i k e q = ground (arith, e, q)

module _ {db : Database} where
  -- The two facts of the command `k`: its row stays once it is resolved, and while it is accepted a
  -- timer runs for it.
  pub record IsWatched (k : ℕ) (w : World db) : Type 0 where
    pub sound : IsSound w.confirmations
    pub guarded :
        (c : RemoteCommand)
        → command_at w k ≡ some c
        → state_eq c.state CommandState.accepted ≡ true
        → RunsFor k w.confirmations

  abbrev pub Resolved : ℕ → World db → Type 0
  Resolved k w =
      (c : RemoteCommand) → command_at w k ≡ some c → state_eq c.state CommandState.accepted ≡ false

  abbrev pub Keeps : ℕ → World db → World db → Type 0
  Keeps k w w' =
      (c : RemoteCommand)
      → command_at w k ≡ some c
      → state_eq c.state CommandState.accepted ≡ false
      → command_at w' k ≡ some c

  -- What a verdict leaves, whether it succeeds or throws.
  pub record Verdicts (i : ℕ) (w w' : World db) : Type 0 where
    pub same_timers : w'.confirmations ≡ w.confirmations
    pub resolved : Resolved i w'
    pub others : (k : ℕ) → i ≢ k → command_at w' k ≡ command_at w k
    pub keeps : Keeps i w w'

  unchanged-Verdicts :
      (v : Verdict) (i : ℕ) (w : World db) (e : Error)
      → settle v i w ≡ (err e, w)
      → Resolved i w
      → Verdicts i w (settle v i w).1
  unchanged-Verdicts v i w e q over = rw q (record {
    same_timers = refl;
    resolved = over;
    others = λ k differ. refl;
    keeps = λ c there done. there;
  })

  accepted_clash :
      (c d : RemoteCommand) (w : World db) (i : ℕ)
      → command_at w i ≡ some c
      → command_at w i ≡ some d
      → state_eq c.state CommandState.accepted ≡ true
      → state_eq d.state CommandState.accepted ≡ false
      → ⊥
  accepted_clash c d w i e f waiting done = cc

  written-Verdicts :
      (v : Verdict) (i : ℕ) (w : World db) (c : RemoteCommand)
      → command_at w i ≡ some c
      → state_eq c.state CommandState.accepted ≡ true
      → Verdicts i w (settle v i w).1
  written-Verdicts v i w c there waiting =
      let row = settled v w.now c in
      rw (settle_accepted v i w c there waiting) (record {
        same_timers = refl;
        resolved = λ d there'. cc (settled-there v i w c there, there', settled-state v w.now c);
        others = λ k differ. ground (
          arith,
          db.commands.find_unique-put w.commands row k,
          settled-id v w.now c,
          db.commands.find_unique_key w.commands i c there,
          differ,
        );
        keeps = λ d there' done. absurd (accepted_clash c d w i there there' waiting done);
      })

  pub settle-Verdicts : (v : Verdict) (i : ℕ) (w : World db) → Verdicts i w (settle v i w).1
  settle-Verdicts v i w = elim (Option-cases (command_at w i)) [
    | inl missing ↦
        unchanged-Verdicts v i w not_found (settle_missing v i w missing)
          (λ c there. absurd (none_ne_some missing there))
    | inr (c, there) ↦ elim (Bool-cases (state_eq c.state CommandState.accepted)) [
      | inl waiting ↦ written-Verdicts v i w c there waiting
      | inr over ↦
          unchanged-Verdicts v i w invalid_transition (settle_outcome v i w c there ∙ rw over refl)
            (λ d there'. cc)
    ]
  ]

  confirm-Verdicts :
      (i : ℕ) (session : Option ℕ) (w : World db)
      → Verdicts i (clear_timer i w) (confirm i session w)
  unfolding confirm
  confirm-Verdicts i session w = settle-Verdicts (confirms session) i (clear_timer i w)

  pub record Steps (k : ℕ) (w w' : World db) : Type 0 where
    pub watches : IsWatched k w → IsWatched k w'
    pub stays : Keeps k w w'

  pub idle-Steps : (k : ℕ) (w : World db) → Steps k w w
  idle-Steps k w = record { watches = λ h. h; stays = λ c there done. there }

  pub after-Steps : (k : ℕ) (w w1 w2 : World db) → Steps k w w1 → Steps k w1 w2 → Steps k w w2
  after-Steps k w w1 w2 h g = record {
    watches = λ x. g.watches (h.watches x);
    stays = λ c there done. g.stays c (h.stays c there done) done;
  }

  pub clash :
      (i k : ℕ) (w : World db) (c : RemoteCommand)
      → i ≡ k
      → Resolved i w
      → command_at w k ≡ some c
      → state_eq c.state CommandState.accepted ≡ true
      → ⊥
  clash i k w c q over there waiting =
      let there_too : command_at w i ≡ some c = ap (command_at w) q ∙ there in
      cc (over c there_too, waiting)

  -- A timer of `i` ends, and then the command `i` is resolved, if it is there.
  pub resolving-Steps :
      (i k : ℕ) (w w' : World db) (timers : Confirmations)
      → (IsSound w.confirmations → IsSound timers)
      → (IsSound w.confirmations → i ≢ k → RunsFor k w.confirmations → RunsFor k timers)
      → Verdicts i (record w { confirmations = timers }) w'
      → Steps k w w'
  resolving-Steps i k w w' timers sound runs h = record {
    watches = λ x. record {
      sound = rw h.same_timers (sound x.sound);
      guarded = λ c there waiting. rw h.same_timers (elim (Bool-cases (i == k)) [
        | inl e ↦ absurd (clash i k w' c ((==_iff i k).0 e) h.resolved there waiting)
        | inr e ↦
            let differ = differ_when i k e in
            runs x.sound differ (x.guarded c (sym (h.others k differ) ∙ there) waiting)
      ]);
    };
    stays = λ c there done. elim (Bool-cases (i == k)) [
      | inl e ↦
          let q : i ≡ k = (==_iff i k).0 e in
          ap (command_at w') (sym q) ∙ h.keeps c (ap (command_at w) q ∙ there) done
      | inr e ↦ h.others k (differ_when i k e) ∙ there
    ];
  }

  confirm-Steps : (i k : ℕ) (session : Option ℕ) (w : World db) → Steps k w (confirm i session w)
  unfolding confirm clear_timer
  confirm-Steps i k session w =
      resolving-Steps i k w (confirm i session w) (clear i w.confirmations)
        (clear-IsSound i w.confirmations) (clear-RunsFor i k w.confirmations)
        (confirm-Verdicts i session w)

  pub schedule_expiry-Steps : (i k : ℕ) (w : World db) → Steps k w (schedule_expiry i w)
  unfolding schedule_expiry
  schedule_expiry-Steps i k w = record {
    watches = λ x. record {
      sound = start_window-IsSound i w.confirmations x.sound;
      guarded = λ c there waiting.
          start_window-RunsFor i k w.confirmations x.sound (x.guarded c there waiting);
    };
    stays = λ c there done. there;
  }

  pub confirm_found-Steps :
      (k : ℕ) (session : Option ℕ) (found : Option RemoteCommand) (w : World db)
      → Steps k w (confirm_found session found w)
  confirm_found-Steps k session none w = idle-Steps k w
  confirm_found-Steps k session (some c) w = confirm-Steps c.id k session w

  check_started-Steps :
      (k : ℕ) (c : RemoteCommand) (found : Option ChargingSession) (w : World db)
      → Steps k w (check_started c found w)
  unfolding check_started
  check_started-Steps k c none w = idle-Steps k w
  check_started-Steps k c (some session) w = confirm-Steps c.id k (some session.id) w

  check_stopped-Steps :
      (k : ℕ) (c : RemoteCommand) (found : Option ChargingSession) (w : World db)
      → Steps k w (check_stopped c found w)
  unfolding check_stopped
  check_stopped-Steps k c none w = idle-Steps k w
  check_stopped-Steps k c (some session) w =
      elim (Bool-cases (status_eq session.status SessionStatus.completed)) [
        | inl e ↦ rw e (confirm-Steps c.id k none w)
        | inr e ↦ rw e (idle-Steps k w)
      ]

  check_start-Steps :
      (k : ℕ) (c : RemoteCommand) (connector : Option ℕ) (w : World db)
      → Steps k w (check_start c connector w)
  check_start-Steps k c none w = idle-Steps k w
  check_start-Steps k c (some connector) w = check_started-Steps k c _ w

  check_stop-Steps :
      (k : ℕ) (c : RemoteCommand) (session : Option ℕ) (w : World db)
      → Steps k w (check_stop c session w)
  check_stop-Steps k c none w = idle-Steps k w
  check_stop-Steps k c (some session) w = check_stopped-Steps k c (session_at w session) w

  pub check_immediately-Steps :
      (k : ℕ) (c : RemoteCommand) (w : World db) → Steps k w (check_immediately c w)
  unfolding check_immediately
  check_immediately-Steps k c w =
      elim c.command_type
        as (λ t. Steps k w (elim t [
          | CommandType.remote_start ↦ check_start c c.connector_id w
          | CommandType.remote_stop ↦ check_stop c c.charging_session_id w
          | _ ↦ w
        ])) [
          | CommandType.remote_start ↦ check_start-Steps k c c.connector_id w
          | CommandType.remote_stop ↦ check_stop-Steps k c c.charging_session_id w
          | _ ↦ idle-Steps k w
        ]

  pub register_accepted-Steps :
      (k : ℕ) (c : RemoteCommand) (w : World db) → Steps k w (register_accepted c w)
  unfolding register_accepted
  register_accepted-Steps k c w = elim (Bool-cases (state_eq c.state CommandState.accepted)) [
    | inl e ↦ rw e (
        after-Steps k w _ _ (schedule_expiry-Steps c.id k w)
          (check_immediately-Steps k c (schedule_expiry c.id w)))
    | inr e ↦ rw e (idle-Steps k w)
  ]
