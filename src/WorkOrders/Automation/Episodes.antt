-- ===== src/WorkOrders/Automation/Episodes.antt =====
-- The check of work-order-automation.service.ts for a work order of the same loss of connection.
use Prim.Native.String.{String}
use forgeos_web.Base.{
  [], ◌∷◌, List, ℕ, ◌≡◌, inl, inr, refl, true, none, some, ==_self, arith, Option-cases,
}
use forgeos_web.Base.Result.{ok_ne_err, not_found, err, ok}
use forgeos_web.Domain.{Database, World}
use forgeos_web.Domain.Station.{ChargingStation}
use forgeos_web.Domain.Work.{WorkOrder, WorkOrderEventType}
use forgeos_web.WorkOrders.Lifecycle.{order_at, stepped, create_outcome, created_from}
use forgeos_web.WorkOrders.Lifecycle.Origins.{SameOrigin, Retains, run_work_op-Retains}
use forgeos_web.WorkOrders.Lifecycle.History.{WorkOrderOp, run_work_op}
use forgeos_web.WorkOrders.{create, owned_station}
use forgeos_web.Domain.Work.{WorkOrderSource, source_eq}
use forgeos_web.WorkOrders.Automation.{
  covers_episode, created_since, create_if_not_duplicate, outage_input,
}

-- What happens between two sweeps.
pub data EpisodeStep : Type 0 where
  works : WorkOrderOp → EpisodeStep
  passes : (now : ℕ) → EpisodeStep

covers_kept :
    (s : ChargingStation) (a b : WorkOrder)
    → SameOrigin a b
    → covers_episode s a ≡ true
    → covers_episode s b ≡ true
covers_kept s a b same covers =
    rw (same.same_organization, same.same_station, same.same_source, same.same_time) covers

loss_source :
    (x : WorkOrderSource)
    → source_eq x WorkOrderSource.connectivity_loss ≡ true
    → x ≡ WorkOrderSource.connectivity_loss
loss_source WorkOrderSource.connectivity_loss e = refl
loss_source WorkOrderSource.recommendation e = ground arith
loss_source WorkOrderSource.manual e = ground arith

loss_of :
    (s : ChargingStation) (o : WorkOrder)
    → covers_episode s o ≡ true
    → o.source ≡ WorkOrderSource.connectivity_loss
loss_of s o covers = loss_source o.source (ground (arith, covers))

module _ {db : Database} (title description : ChargingStation → String) where
  duplicate_skipped :
      (w : World db) (s : ChargingStation) (id : ℕ) (o : WorkOrder)
      → order_at w id ≡ some o
      → covers_episode s o ≡ true
      → create_if_not_duplicate title description s w ≡ (ok tt, w)
  unfolding create_if_not_duplicate
  duplicate_skipped w s id o there covers =
      elim (Option-cases (db.work_orders.find_first w.work_orders (covers_episode s))) [
        | inl missing ↦ absurd (
            cc (
              covers,
              db.work_orders.find_first_none w.work_orders (covers_episode s) id o missing there,
            ))
        | inr (r, found) ↦ rw found refl
      ]

  made-covers :
      (w : World db) (s : ChargingStation)
      → created_since s.last_disconnected_at w.now ≡ true
      → covers_episode s (created_from w s.organization_id (outage_input title description s))
        ≡ true
  made-covers w s since = ground (arith, since)

  abbrev recorded : World db → ChargingStation → World db
  recorded w s =
      let o = created_from w s.organization_id (outage_input title description s) in
      stepped w o
        (record { work_order_id = o.id; type = WorkOrderEventType.created; actor_id = none })

  create_refused :
      (w : World db) (s : ChargingStation)
      → owned_station w s.organization_id s.id ≡ true
      → create s.organization_id (outage_input title description s) w ≡ (err not_found, w)
      → ⊥
  unfolding create
  create_refused w s owned refused =
      let o = created_from w s.organization_id (outage_input title description s) in
      let made : create s.organization_id (outage_input title description s) w
          ≡ (ok o, recorded w s) =
        rw owned refl in
      ok_ne_err _ o not_found (recorded w s) w made refused

  recorded-there :
      (w : World db) (s : ChargingStation)
      → let o = created_from w s.organization_id (outage_input title description s) in
        order_at (recorded w s) o.id ≡ some o
  recorded-there w s =
      let o = created_from w s.organization_id (outage_input title description s) in
      ground (arith, db.work_orders.find_unique-put w.work_orders o o.id, ==_self o.id)

  -- The work order of the station's present loss of connection.
  abbrev HasOrder : ChargingStation → World db → Type 0
  HasOrder s w = (id : ℕ) × (o : WorkOrder) × (order_at w id ≡ some o) × (covers_episode s o ≡ true)

  first_check-HasOrder :
      (w : World db) (s : ChargingStation)
      → owned_station w s.organization_id s.id ≡ true
      → created_since s.last_disconnected_at w.now ≡ true
      → HasOrder s (create_if_not_duplicate title description s w).1
  unfolding create_if_not_duplicate
  first_check-HasOrder w s owned since =
      elim (Option-cases (db.work_orders.find_first w.work_orders (covers_episode s))) [
        | inr (r, found) ↦
            let (there, covers) =
              db.work_orders.find_first_sound w.work_orders (covers_episode s) r found in
            rw found (r.id, r, there, covers)
        | inl missing ↦
            elim (create_outcome w s.organization_id (outage_input title description s)) [
              | inl refused ↦ absurd (create_refused w s owned refused)
              | inr made ↦
                  let o = created_from w s.organization_id (outage_input title description s) in
                  rw (missing, made) (o.id, o, recorded-there w s, made-covers w s since)
            ]
      ]

  Retains-HasOrder :
      (s : ChargingStation) (w w' : World db) → Retains w w' → HasOrder s w → HasOrder s w'
  Retains-HasOrder s w w' retains (id, o, there, covers) =
      let (b, there', same) = retains id o there in (id, b, there', covers_kept s o b same covers)

  abbrev pub run_episode : (String → ℕ) → List EpisodeStep → World db → World db
  run_episode tl [] w = w
  run_episode tl (works op ∷ steps) w = run_episode tl steps (run_work_op tl op w)
  run_episode tl (passes now ∷ steps) w = run_episode tl steps (record w { now = now })

  run_episode-HasOrder :
      (tl : String → ℕ) (steps : List EpisodeStep) (s : ChargingStation) (w : World db)
      → HasOrder s w
      → HasOrder s (run_episode tl steps w)
  run_episode-HasOrder tl [] s w h = h
  run_episode-HasOrder tl (works op ∷ steps) s w h =
      run_episode-HasOrder tl steps s (run_work_op tl op w)
        (Retains-HasOrder s w (run_work_op tl op w) (run_work_op-Retains tl op w) h)
  run_episode-HasOrder tl (passes now ∷ steps) s w h =
      run_episode-HasOrder tl steps s (record w { now = now }) h

  -- Once the check for an organization's own station has run, at an instant not before the station's
  -- last disconnection on record, there is a CONNECTIVITY_LOSS order of that station. However the
  -- work orders are worked on, closed or swept after that, and however much time passes, running the
  -- check again for the same loss of connection succeeds and changes nothing.
  pub create_if_not_duplicate_once :
      (tl : String → ℕ) (w : World db) (s : ChargingStation) (steps : List EpisodeStep)
      → owned_station w s.organization_id s.id ≡ true
      → created_since s.last_disconnected_at w.now ≡ true
      → let w' = (create_if_not_duplicate title description s w).1 in
        let later = run_episode tl steps w' in
        ((id : ℕ) × (o : WorkOrder) × (order_at w' id ≡ some o)
          × (o.station_id ≡ s.id)
          × (o.source ≡ WorkOrderSource.connectivity_loss))
        × (create_if_not_duplicate title description s later ≡ (ok tt, later))
  create_if_not_duplicate_once tl w s steps owned since =
      let w' = (create_if_not_duplicate title description s w).1 in
      let h = first_check-HasOrder w s owned since in
      let (id, o, there, covers) = h in
      let (i, r, there', covers') = run_episode-HasOrder tl steps s w' h in
      (
        (id, o, there, ground (arith, covers), loss_of s o covers),
        duplicate_skipped (run_episode tl steps w') s i r there' covers',
      )
