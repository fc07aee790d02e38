-- ===== src/Ocpp/Handlers/Starting.antt =====
-- An accepted StartTransaction.
use forgeos_web.Base.{
  ℕ, ◌∙◌, ◌≡◌, refl, ap, inl, inr, true, Option, none, some, Bool-cases, Option-cases,
}
use forgeos_web.Base.Decimal.{Decimal}
use forgeos_web.Base.JsMap.{nat_eq, string_eq}
use forgeos_web.Base.Result.{ok, err, pure, Result-cases, ok_inj, ok_ne_err}
use forgeos_web.Domain.{Database, World}
use forgeos_web.Ocpp.Handlers.{
  attempt_at, record_attempt, transaction_start_handler, start_at, has_external_id, session_input,
  is_accepted, AuthAttemptResult, Connector, ChargingStation, create_session, ChargingSession,
  Interleaving, CreateSessionInput, started, find_connector, start_session, start_authorized,
}
use forgeos_web.Ocpp.Events.{refused_tag, IdTagStatus, TransactionStart, DomainResult}
use forgeos_web.Commands.Confirmation.{on_start_transaction_observed}
use forgeos_web.Sessions.{is_non_terminal, session_at}
use forgeos_web.Sessions.Creation.Returned.{create_session_served}
use forgeos_web.Commands.Confirmation.Apart.{start_observed_sessions}
use forgeos_web.Domain.Station.{Credential}
use forgeos_web.Authorization.Attempts.{record_attempt_sound, IsUsable}

module _ {db : Database} where
  abbrev Serves : CreateSessionInput → DomainResult → World db → Type 0
  Serves input r w =
      (s : ChargingSession) × (session_at w s.id ≡ some s)
      × (s.connector_id ≡ input.connector_id)
      × (is_non_terminal s.status ≡ true)
      × (r ≡ started s)

  start_session_served :
      (env : Interleaving db) (input : CreateSessionInput) (w w' : World db) (r : DomainResult)
      → start_session env input w ≡ (ok r, w')
      → Serves input r w'
  unfolding start_session
  start_session_served env input w w' r e = elim (Result-cases (create_session env input w)) [
    | inl (s, v, made) ↦
        let v' =
          on_start_transaction_observed input.charging_station_id input.connector_id s.id v in
        let run : start_session env input w ≡ (ok (started s), v') = rw made refl in
        let (same, after) = ok_inj _ _ _ _ _ run e in
        let (there, on, going) = create_session_served env input w v s made in
        let kept : w'.sessions ≡ v.sessions =
          ap (λ x. x.sessions) after ∙ start_observed_sessions _ _ s.id v in
        (s, ap (λ t. db.sessions.find_unique t s.id) kept ∙ there, on, going, same)
    | inr (x, v, failed) ↦
        let run : start_session env input w ≡ (err x, v) = rw failed refl in
        absurd (ok_ne_err _ r x w' v e run)
  ]

  refused_clash :
      (status : IdTagStatus) (w w' : World db) (r : DomainResult)
      → pure (refused_tag status) w ≡ (ok r, w')
      → r.accepted ≡ true
      → ⊥
  refused_clash status w w' r e good =
      let (same, still) = ok_inj _ _ _ _ _ e refl in cc (same, good)

  start_authorized_served :
      (env : Interleaving db) (event : TransactionStart) (station : ChargingStation) (c : Connector)
      (result : AuthAttemptResult) (credential : Option ℕ) (w w' : World db) (r : DomainResult)
      → start_authorized env event station c result credential w ≡ (ok r, w')
      → r.accepted ≡ true
      → (is_accepted result ≡ true) × (id : ℕ) × (Serves (session_input event station c id) r w')
  unfolding start_authorized
  start_authorized_served env event station c result none w w' r e good =
      absurd (refused_clash _ w w' r e good)
  start_authorized_served env event station c result (some id) w w' r e good_r =
      elim (Bool-cases (is_accepted result)) [
        | inl good ↦ (
          good,
          id,
          start_session_served env (session_input event station c id) w w' r (rw good at e),
        )
        | inr bad ↦ absurd (refused_clash _ w w' r (rw bad at e) good_r)
      ]

  -- What holds where a StartTransaction is accepted.
  pub record IsEarned (event : TransactionStart) (station : ChargingStation) (w w' : World db)
      (r : DomainResult) : Type 0 where
    pub connector : Connector
    pub credential : Credential
    pub session : ChargingSession
    pub connector_there : db.connectors.find_unique w.connectors connector.id ≡ some connector
    pub connector_named : has_external_id station event.connector_external_id connector ≡ true
    pub credential_there : db.credentials.find_unique w.credentials credential.id ≡ some credential
    pub credential_owned : credential.organization_id ≡ station.organization_id
    pub credential_named : credential.external_identifier ≡ event.id_tag
    pub credential_usable : IsUsable w.now credential
    pub session_there : session_at w' session.id ≡ some session
    pub session_on : session.connector_id ≡ connector.id
    pub session_going : is_non_terminal session.status ≡ true
    pub answered : r ≡ started session

  find_connector_sound :
      (station : ChargingStation) (external_id : Decimal) (w : World db) (c : Connector)
      → find_connector station external_id w ≡ some c
      → (db.connectors.find_unique w.connectors c.id ≡ some c)
        × (has_external_id station external_id c ≡ true)
  unfolding find_connector
  find_connector_sound station external_id w c found =
      db.connectors.find_first_sound w.connectors (has_external_id station external_id) c found

  start_unknown :
      (env : Interleaving db) (event : TransactionStart) (station : ChargingStation)
      (w w' : World db) (r : DomainResult)
      → start_at env event station none w ≡ (ok r, w')
      → r.accepted ≡ true
      → ⊥
  unfolding start_at
  start_unknown env event station w w' r e good_r =
      elim (Result-cases (record_attempt (attempt_at station none none event.id_tag) w)) [
        | inl (a, v, recorded) ↦ refused_clash IdTagStatus.invalid v w' r (rw recorded at e) good_r
        | inr (x, v, failed) ↦
            let run : start_at env event station none w ≡ (err x, v) = rw failed refl in
            ok_ne_err _ r x w' v e run
      ]

  start_at-IsEarned :
      (env : Interleaving db) (event : TransactionStart) (station : ChargingStation) (c : Connector)
      (w w' : World db) (r : DomainResult)
      → db.connectors.find_unique w.connectors c.id ≡ some c
      → has_external_id station event.connector_external_id c ≡ true
      → start_at env event station (some c) w ≡ (ok r, w')
      → r.accepted ≡ true
      → IsEarned event station w w' r
  unfolding start_at
  start_at-IsEarned env event station c w w' r there named e good_r =
      let input = attempt_at station (some c.evse_id) (some c.id) event.id_tag in
      elim (Result-cases (record_attempt input w)) [
        | inr (x, v, failed) ↦
            let run : start_at env event station (some c) w ≡ (err x, v) = rw failed refl in
            absurd (ok_ne_err _ r x w' v e run)
        | inl (a, v, recorded) ↦
            let (good, id, (s, stored, on, going, answer)) =
              start_authorized_served env event station c a.result a.authorization_credential_id v
                w' r (rw recorded at e) good_r in
            let (q, owned_there, owned, text, usable, credited) =
              (record_attempt_sound input w v a recorded).1 good in
            record {
              connector = c;
              credential = q;
              session = s;
              connector_there = there;
              connector_named = named;
              credential_there = owned_there;
              credential_owned = owned;
              credential_named = text;
              credential_usable = usable;
              session_there = stored;
              session_on = on;
              session_going = going;
              answered = answer;
            }
      ]

  -- A StartTransaction is accepted only for a stored connector of the station with the reported number
  -- and a stored credential of the station's organization with the presented text that is ACTIVE and
  -- not past its expiry when the message comes. Then the answer gives the transaction id of a
  -- session on that connector which is stored and has not ended.
  pub transaction_start_handler-IsEarned :
      (env : Interleaving db) (event : TransactionStart) (station : ChargingStation)
      (w w' : World db) (r : DomainResult)
      → transaction_start_handler env event station w ≡ (ok r, w')
      → r.accepted ≡ true
      → IsEarned event station w w' r
  unfolding transaction_start_handler
  transaction_start_handler-IsEarned env event station w w' r e good_r =
      elim (Option-cases (find_connector station event.connector_external_id w)) [
        | inl nothing ↦ absurd (start_unknown env event station w w' r (rw nothing at e) good_r)
        | inr (c, found) ↦
            let (there, named) =
              find_connector_sound station event.connector_external_id w c found in
            start_at-IsEarned env event station c w w' r there named (rw found at e) good_r
      ]
