-- ===== src/Commands/Request/Answers.antt =====
-- What a request that returns has come to.
use forgeos_web.Base.{
  ℕ, ◌≡◌, inl, inr, refl, Bool, true, false, ◌&&◌, Option, none, some, ==_self, arith, Bool-cases,
  Option-cases, ◌∷◌, [], includes, is_none,
}
use forgeos_web.Base.Result.{
  ok, not_found, invalid_transition, Exec, ok_ne_err, ok_inj, Result-cases,
}
use forgeos_web.Domain.{Database, World}
use forgeos_web.Domain.Audit.{
  AuditAction, remote_command_sent, remote_command_accepted, remote_command_rejected,
  remote_command_timed_out,
}
use forgeos_web.Domain.Command.{
  CommandState, sent, accepted, rejected, timed_out, RemoteCommand, state_eq, OutboundFrame,
}
use forgeos_web.Commands.{
  can_transition_remote_command, command_at, finalize, resolved_when, transition_and_persist,
  assert_no_conflicting_command,
}
use forgeos_web.Commands.Settlement.{finalize_allowed, finalize_refused, finalize_missing, written}
use forgeos_web.Commands.Request.{
  Exchange, Reply, timeout, call_error, call_result, RequestRemoteCommandInput, Targets,
  request_command, exchange, settle_reply, reject_before_send, on_the_wire, resolve_targets,
  request_targets, id_of_connector, insert_command,
}

-- The states in which a request may return: the charger's acceptance, or an end.
abbrev pub is_answered : CommandState → Bool
is_answered s = includes state_eq (accepted ∷ rejected ∷ timed_out ∷ []) s

abbrev pub is_ended : CommandState → Bool
is_ended s = includes state_eq (rejected ∷ timed_out ∷ []) s

module _ {db : Database} where
  -- What holds of the value and the state of every run that does not throw.
  abbrev Ends : {A : Type 0} → (A → World db → Type 0) → Exec (World db) A → Type 0
  Ends {A} P m = (w w' : World db) (a : A) → m w ≡ (ok a, w') → P a w'

  abbrev pub IsStored : RemoteCommand → World db → Type 0
  IsStored c w =
      (is_answered c.state ≡ true)
      × (command_at w c.id ≡ some c)
      × ((is_ended c.state && is_none c.resolved_at) ≡ false)

  finalize-Ends :
      (P : RemoteCommand → World db → Type 0) (command : RemoteCommand) (target : CommandState)
      (action : AuditAction) (change : RemoteCommand → RemoteCommand) (terminal : Bool)
      → ((now : ℕ) (row : RemoteCommand) (w : World db)
          → command_at w command.id ≡ some row
          → let row' = record (resolved_when terminal now (change row)) { state = target } in
            P row' (written action w row'))
      → Ends P (finalize command target action change terminal)
  finalize-Ends P command target action change terminal holds w w' c e =
      elim (Bool-cases (can_transition_remote_command command.state target)) [
        | inr refused ↦ absurd (
            ok_ne_err _ c invalid_transition w' w e
              (finalize_refused command target action change terminal w refused))
        | inl allowed ↦ elim (Option-cases (command_at w command.id)) [
          | inl missing ↦ absurd (
              ok_ne_err _ c not_found w' w e
                (finalize_missing command target action change terminal w missing allowed))
          | inr (row, there) ↦
              let (same_row, same_world) =
                ok_inj _ _ _ _ _
                  (finalize_allowed command row target action change terminal w there allowed) e in
              rw (same_row, same_world) (holds w.now row w there)
        ]
      ]

  written-here :
      (action : AuditAction) (w : World db) (c : RemoteCommand)
      → command_at (written action w c) c.id ≡ some c
  written-here action w c =
      ground (arith, db.commands.find_unique-put w.commands c c.id, ==_self c.id)

  settle_reply-Ends :
      (command : RemoteCommand) (reply : Reply) → Ends IsStored (settle_reply command reply)
  unfolding settle_reply
  settle_reply-Ends command timeout w =
      finalize-Ends IsStored command timed_out remote_command_timed_out (λ r. r) true
        (λ now row v there. (refl, written-here remote_command_timed_out v _, refl)) w
  settle_reply-Ends command call_error w =
      finalize-Ends IsStored command rejected remote_command_rejected (λ r. r) true
        (λ now row v there. (refl, written-here remote_command_rejected v _, refl)) w
  settle_reply-Ends command (call_result true) w =
      finalize-Ends IsStored command accepted remote_command_accepted
        (λ r. record r { accepted_at = some w.now }) false
        (λ t row v there. (refl, written-here remote_command_accepted v _, refl)) w
  settle_reply-Ends command (call_result false) w =
      finalize-Ends IsStored command rejected remote_command_rejected (λ r. r) true
        (λ now row v there. (refl, written-here remote_command_rejected v _, refl)) w

  exchange-Ends :
      (env : Exchange db) (command : RemoteCommand) (call : Option OutboundFrame)
      → Ends IsStored (exchange env command call)
  unfolding exchange reject_before_send
  exchange-Ends env command none w w' c =
      finalize-Ends IsStored command rejected remote_command_rejected (λ r. r) true
        (λ now row v there. (refl, written-here remote_command_rejected v _, refl)) w w' c
  exchange-Ends env command (some frame) w w' c = λ e.
      let v = env.meanwhile w in
      elim (Result-cases
        (transition_and_persist command sent (on_the_wire env.message_id v.now frame) v)) [
          | inl (on_wire, u, went) ↦
              settle_reply-Ends on_wire env.reply
                (record u {
                  audit =
                      record { action = remote_command_sent; subject_id = on_wire.id } ∷ u.audit;
                })
                w' c (rw went at e)
          | inr (x, u, failed) ↦ absurd (ok_ne_err _ c x w' u e (rw failed refl))
        ]

  after_targets :
      (env : Exchange db) (input : RequestRemoteCommandInput) (targets : Targets) (w w' : World db)
      (c : RemoteCommand)
      → request_targets env input targets w ≡ (ok c, w')
      → IsStored c w'
  unfolding request_targets
  after_targets env input targets w w' c e =
      elim (Result-cases (
        assert_no_conflicting_command input.charging_station_id (id_of_connector targets.connector)
          w)) [
            | inr (x, u, failed) ↦ absurd (ok_ne_err _ c x w' u e (rw failed refl))
            | inl (done, w2, free) ↦
                elim (Result-cases (insert_command input targets (env.before_insert w2))) [
                  | inr (x, u, failed) ↦ absurd (ok_ne_err _ c x w' u e (rw (free, failed) refl))
                  | inl (command, w3, made) ↦
                      exchange-Ends env command _ _ w' c (rw (free, made) at e)
                ]
          ]

  -- Whatever the charger answers, and whatever other requests do meanwhile: a request for a remote
  -- command that returns, returns the row as it is stored, and in ACCEPTED, REJECTED or TIMED_OUT.
  -- It is never left REQUESTED or SENT, and one that has ended has its end time.
  pub request_command_answered :
      (env : Exchange db) (input : RequestRemoteCommandInput) (w w' : World db) (c : RemoteCommand)
      → request_command env input w ≡ (ok c, w')
      → (is_answered c.state ≡ true)
        × (command_at w' c.id ≡ some c)
        × ((is_ended c.state && is_none c.resolved_at) ≡ false)
  unfolding request_command
  request_command_answered env input w w' c e = elim (Result-cases (resolve_targets input w)) [
    | inr (x, u, failed) ↦ absurd (ok_ne_err _ c x w' u e (rw failed refl))
    | inl (targets, w1, resolved) ↦ after_targets env input targets w1 w' c (rw resolved at e)
  ]
