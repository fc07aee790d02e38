-- ===== src/Commands/Settlement.antt =====
-- Confirming and giving up an accepted command: remote-command.service.ts.
use forgeos_web.Base.{
  ℕ, ◌≡◌, inl, inr, refl, sym, ap, ◌∙◌, Bool, true, false, Option, none, some, ==_self, arith,
  Bool-cases, Option-cases, ◌∷◌, if◌then◌else◌,
}
use forgeos_web.Base.Result.{
  Result, ok, err, not_found, invalid_transition, Exec, ok_inj, ok_ne_err,
}
use forgeos_web.Domain.{Database, World}
use forgeos_web.Domain.Audit.{AuditAction, remote_command_confirmed, remote_command_unconfirmed}
use forgeos_web.Domain.Command.{
  CommandState, accepted, confirmed, unconfirmed, RemoteCommand, state_eq,
}
use forgeos_web.Commands.{
  can_transition_remote_command, command_at, require_command, update_command,
  transition_and_persist, finalize, resolved_when, confirm_command, mark_unconfirmed, link_session,
}

-- The two ways to settle an accepted command.
pub data Verdict : Type 0 where
  confirms : Option ℕ → Verdict
  expires : Verdict

abbrev pub state_of : Verdict → CommandState
state_of (confirms session) = confirmed
state_of expires = unconfirmed

abbrev pub action_of : Verdict → AuditAction
action_of (confirms session) = remote_command_confirmed
action_of expires = remote_command_unconfirmed

-- The session that a command names stays; one that names none takes the new one.
abbrev named_session : (old new : Option ℕ) → Option ℕ
named_session none new = new
named_session (some session) new = some session

named_session_same : (old : Option ℕ) → named_session old none ≡ old
named_session_same none = refl
named_session_same (some session) = refl

linked_over :
    (c : RemoteCommand) (session : ℕ) (old : Option ℕ)
    → c.charging_session_id ≡ old
    → link_session (some session) c c
      ≡ record c { charging_session_id = named_session old (some session) }
linked_over c session none e = rw e refl
linked_over c session (some s) e = rw e refl

link_session_named :
    (session : Option ℕ) (c : RemoteCommand)
    → link_session session c c
      ≡ record c { charging_session_id = named_session c.charging_session_id session }
link_session_named none c =
    ap (λ x. record c { charging_session_id = x }) (sym (named_session_same c.charging_session_id))
link_session_named (some session) c = linked_over c session c.charging_session_id refl

abbrev pub settled : Verdict → ℕ → RemoteCommand → RemoteCommand
settled (confirms session) now c = record c {
  state = confirmed;
  resolved_at = some now;
  charging_session_id = named_session c.charging_session_id session;
}
settled expires now c = record c { state = unconfirmed; resolved_at = some now }

acceptable_confirmed :
    (s : CommandState)
    → state_eq s accepted ≡ true
    → can_transition_remote_command s confirmed ≡ true
acceptable_confirmed s e = ground arith

refused_confirmed :
    (s : CommandState)
    → state_eq s accepted ≡ false
    → can_transition_remote_command s confirmed ≡ false
refused_confirmed s e = ground arith

acceptable_unconfirmed :
    (s : CommandState)
    → state_eq s accepted ≡ true
    → can_transition_remote_command s unconfirmed ≡ true
acceptable_unconfirmed s e = ground arith

refused_unconfirmed :
    (s : CommandState)
    → state_eq s accepted ≡ false
    → can_transition_remote_command s unconfirmed ≡ false
refused_unconfirmed s e = ground arith

pub settled-id : (v : Verdict) (now : ℕ) (c : RemoteCommand) → (settled v now c).id ≡ c.id
settled-id v now c = ground arith

pub settled-state :
    (v : Verdict) (now : ℕ) (c : RemoteCommand) → state_eq (settled v now c).state accepted ≡ false
settled-state v now c = ground arith

module _ {db : Database} where
  at_own_id :
      (id : ℕ) (w : World db) (c : RemoteCommand)
      → command_at w id ≡ some c
      → command_at w c.id ≡ some c
  at_own_id id w c there =
      ap (command_at w) (db.commands.find_unique_key w.commands id c there) ∙ there

  abbrev pub settle : Verdict → ℕ → Exec (World db) RemoteCommand
  settle (confirms session) id = confirm_command id session
  settle expires id = mark_unconfirmed id

  abbrev pub written : AuditAction → World db → RemoteCommand → World db
  written action w c = record w {
    commands = db.commands.put w.commands c;
    audit = record { action = action; subject_id = c.id } ∷ w.audit;
  }

  pub require_command_found :
      (id : ℕ) (w : World db) (c : RemoteCommand)
      → command_at w id ≡ some c
      → require_command id w ≡ (ok c, w)
  unfolding require_command
  require_command_found id w c e = rw (e, require_command) refl

  pub require_command_missing :
      (id : ℕ) (w : World db) → command_at w id ≡ none → require_command id w ≡ (err not_found, w)
  unfolding require_command
  require_command_missing id w e = rw (e, require_command) refl

  pub update_command_found :
      (id : ℕ) (change : RemoteCommand → RemoteCommand) (w : World db) (row : RemoteCommand)
      → command_at w id ≡ some row
      → update_command id change w
        ≡ (ok (change row), record w { commands = db.commands.put w.commands (change row) })
  unfolding update_command
  update_command_found id change w row e = rw (e, update_command) refl

  update_command_missing :
      (id : ℕ) (change : RemoteCommand → RemoteCommand) (w : World db)
      → command_at w id ≡ none
      → update_command id change w ≡ (err not_found, w)
  unfolding update_command
  update_command_missing id change w e = rw (e, update_command) refl

  pub finalize_allowed :
      (c row : RemoteCommand) (target : CommandState) (action : AuditAction)
      (change : RemoteCommand → RemoteCommand) (terminal : Bool) (w : World db)
      → command_at w c.id ≡ some row
      → can_transition_remote_command c.state target ≡ true
      → let row' = record (resolved_when terminal w.now (change row)) { state = target } in
        finalize c target action change terminal w ≡ (ok row', written action w row')
  unfolding finalize transition_and_persist
  finalize_allowed c row target action change terminal w there allowed =
      rw
        (
          allowed,
          update_command_found c.id
              (λ r. record (resolved_when terminal w.now (change r)) { state = target }) w row
              there,
        )
        refl

  pub finalize_missing :
      (c : RemoteCommand) (target : CommandState) (action : AuditAction)
      (change : RemoteCommand → RemoteCommand) (terminal : Bool) (w : World db)
      → command_at w c.id ≡ none
      → can_transition_remote_command c.state target ≡ true
      → finalize c target action change terminal w ≡ (err not_found, w)
  unfolding finalize transition_and_persist
  finalize_missing c target action change terminal w missing allowed =
      rw
        (
          allowed,
          update_command_missing c.id
              (λ r. record (resolved_when terminal w.now (change r)) { state = target }) w missing,
        )
        refl

  pub finalize_refused :
      (c : RemoteCommand) (target : CommandState) (action : AuditAction)
      (change : RemoteCommand → RemoteCommand) (terminal : Bool) (w : World db)
      → can_transition_remote_command c.state target ≡ false
      → finalize c target action change terminal w ≡ (err invalid_transition, w)
  unfolding finalize transition_and_persist
  finalize_refused c target action change terminal w refused = rw refused refl

  abbrev confirmed_with : World db → RemoteCommand → Result RemoteCommand × World db
  confirmed_with w c =
      let row = record c { state = confirmed; resolved_at = some w.now } in
      (ok row, written remote_command_confirmed w row)

  -- A verdict on a command that is there succeeds exactly when the command is ACCEPTED. It then
  -- stores the verdict's state and the time, and keeps a session that the command already names;
  -- otherwise it throws and changes nothing.
  pub settle_outcome :
      (v : Verdict) (id : ℕ) (w : World db) (c : RemoteCommand)
      → command_at w id ≡ some c
      → settle v id w ≡ (
          if state_eq c.state accepted
          then (ok (settled v w.now c), written (action_of v) w (settled v w.now c))
          else (err invalid_transition, w))
  unfolding confirm_command mark_unconfirmed
  settle_outcome (confirms session) id w c there = elim (Bool-cases (state_eq c.state accepted)) [
    | inl waiting ↦
        rw (waiting, require_command_found id w c there)
          (finalize_allowed c c confirmed remote_command_confirmed (link_session session c) true w
              (at_own_id id w c there) (acceptable_confirmed c.state waiting)
            ∙ ap (confirmed_with w) (link_session_named session c))
    | inr over ↦
        rw (over, require_command_found id w c there)
          (finalize_refused c confirmed remote_command_confirmed (link_session session c) true w
            (refused_confirmed c.state over))
  ]
  settle_outcome expires id w c there = elim (Bool-cases (state_eq c.state accepted)) [
    | inl waiting ↦
        rw (waiting, require_command_found id w c there)
          (finalize_allowed c c unconfirmed remote_command_unconfirmed (λ r. r) true w
            (at_own_id id w c there) (acceptable_unconfirmed c.state waiting))
    | inr over ↦
        rw (over, require_command_found id w c there)
          (finalize_refused c unconfirmed remote_command_unconfirmed (λ r. r) true w
            (refused_unconfirmed c.state over))
  ]

  pub settle_accepted :
      (v : Verdict) (id : ℕ) (w : World db) (c : RemoteCommand)
      → command_at w id ≡ some c
      → state_eq c.state accepted ≡ true
      → settle v id w ≡ (ok (settled v w.now c), written (action_of v) w (settled v w.now c))
  settle_accepted v id w c there waiting = settle_outcome v id w c there ∙ rw waiting refl

  pub settle_missing :
      (v : Verdict) (id : ℕ) (w : World db)
      → command_at w id ≡ none
      → settle v id w ≡ (err not_found, w)
  unfolding confirm_command mark_unconfirmed
  settle_missing (confirms session) id w missing = rw (require_command_missing id w missing) refl
  settle_missing expires id w missing = rw (require_command_missing id w missing) refl

  pub settled-there :
      (v : Verdict) (id : ℕ) (w : World db) (c : RemoteCommand)
      → command_at w id ≡ some c
      → let row = settled v w.now c in command_at (written (action_of v) w row) id ≡ some row
  settled-there v id w c there =
      let row = settled v w.now c in
      ground (
        arith,
        db.commands.find_unique-put w.commands row id,
        settled-id v w.now c,
        db.commands.find_unique_key w.commands id c there,
        ==_self id,
      )

  settled_refuses :
      (v late : Verdict) (id : ℕ) (w : World db) (c : RemoteCommand)
      → command_at w id ≡ some c
      → let w' = written (action_of v) w (settled v w.now c) in
        settle late id w' ≡ (err invalid_transition, w')
  settled_refuses v late id w c there =
      let w' = written (action_of v) w (settled v w.now c) in
      settle_outcome late id w' (settled v w.now c) (settled-there v id w c there)
      ∙ rw (settled-state v w.now c) refl

  -- Of two verdicts on one command, a late confirmation against an expired window say, only the
  -- first counts: after one that succeeded, every other throws and changes nothing.
  pub settle_once :
      (v late : Verdict) (id : ℕ) (w w' : World db) (row : RemoteCommand)
      → settle v id w ≡ (ok row, w')
      → settle late id w' ≡ (err invalid_transition, w')
  settle_once v late id w w' row e = elim (Option-cases (command_at w id)) [
    | inl missing ↦ absurd (ok_ne_err _ row not_found w' w e (settle_missing v id w missing))
    | inr (c, there) ↦ elim (Bool-cases (state_eq c.state accepted)) [
      | inl waiting ↦
          let (same_row, same_world) =
            ok_inj _ _ _ _ _ (settle_accepted v id w c there waiting) e in
          rw same_world (settled_refuses v late id w c there)
      | inr over ↦
          absurd (
            ok_ne_err _ row invalid_transition w' w e
              (settle_outcome v id w c there ∙ rw over refl))
    ]
  ]
