-- ===== src/WorkOrders/Lifecycle/Origins.antt =====
-- What no operation on the work orders changes of a row.
use Prim.Native.String.{String}
use forgeos_web.Base.{ℕ, ◌∙◌, ◌≡◌, refl, ap, inl, inr, some, ◌==◌, arith, Bool-cases, ==_iff}
use forgeos_web.Base.JsMap.{nat_eq, string_eq}
use forgeos_web.Domain.{Database, World}
use forgeos_web.Domain.Work.{WorkOrder, WorkOrderEvent, WorkOrderEventType}
use forgeos_web.WorkOrders.Lifecycle.{
  order_at, stepped, transition_outcome, schedule_outcome, create_outcome, created_from,
}
use forgeos_web.WorkOrders.Lifecycle.History.{WorkOrderOp, run_work_op}
use forgeos_web.WorkOrders.Advancing.{advanced, advance_event}
use forgeos_web.WorkOrders.Automation.Resolution.{resolve_recovered_outcome, after_sweep}

-- Whose work order it is, for what, and since when.
pub record SameOrigin (a b : WorkOrder) : Type 0 where
  pub same_organization : b.organization_id ≡ a.organization_id
  pub same_station : b.station_id ≡ a.station_id
  pub same_source : b.source ≡ a.source
  pub same_time : b.created_at ≡ a.created_at

SameOrigin-refl : (a : WorkOrder) → SameOrigin a a
SameOrigin-refl a = record {
  same_organization = refl;
  same_station = refl;
  same_source = refl;
  same_time = refl;
}

module _ {db : Database} where
  abbrev pub Retains : World db → World db → Type 0
  Retains w w' =
      (i : ℕ) (a : WorkOrder)
      → order_at w i ≡ some a
      → (b : WorkOrder) × (order_at w' i ≡ some b) × SameOrigin a b

  Retains-refl : (w : World db) → Retains w w
  Retains-refl w i a there = (a, there, SameOrigin-refl a)

  -- A row written over the one there, or under a key that is free.
  over-Retains :
      (w : World db) (o : WorkOrder) (e : WorkOrderEvent)
      → ((a : WorkOrder) → order_at w o.id ≡ some a → SameOrigin a o)
      → Retains w (stepped w o e)
  over-Retains w o e origin i a there = elim (Bool-cases (o.id == i)) [
    | inl own ↦
        let same : o.id ≡ i = (==_iff o.id i).0 own in
        (
          o,
          db.work_orders.find_unique-put w.work_orders o i ∙ rw own refl,
          origin a (ap (order_at w) same ∙ there),
        )
    | inr other ↦
        (a, db.work_orders.find_unique-put w.work_orders o i ∙ rw other there, SameOrigin-refl a)
  ]

  from_row :
      (w : World db) (id : ℕ) (o a row : WorkOrder)
      → order_at w id ≡ some o
      → SameOrigin o row
      → order_at w id ≡ some a
      → SameOrigin a row
  from_row w id o a row there same at_id = let e : o ≡ a = cc in rw (← e) same

  swept-SameOrigin : (w : World db) (a : WorkOrder) → SameOrigin a (after_sweep w a)
  swept-SameOrigin w a = record {
    same_organization = ground arith;
    same_station = ground arith;
    same_source = ground arith;
    same_time = ground arith;
  }

  pub run_work_op-Retains :
      (tl : String → ℕ) (op : WorkOrderOp) (w : World db) → Retains w (run_work_op tl op w)
  run_work_op-Retains tl (WorkOrderOp.creates org input) w = elim (create_outcome w org input) [
    | inl refused ↦ rw (refused, run_work_op) (Retains-refl w)
    | inr made ↦
        let free = db.work_orders.fresh_free w.work_orders in
        rw (made, run_work_op)
          (over-Retains w (created_from w org input)
            (record {
              work_order_id = (created_from w org input).id;
              type = WorkOrderEventType.created;
              actor_id = input.actor_id;
            })
            (λ a there. absurd cc))
  ]
  run_work_op-Retains tl (WorkOrderOp.transitions org id input) w =
      elim (transition_outcome tl w org id input) [
        | inl (e, refused) ↦ rw (refused, run_work_op) (Retains-refl w)
        | inr (o, done) ↦
            rw (done.done, run_work_op)
              (over-Retains w (advanced w.now input o) (advance_event o input) (λ a there.
                from_row w o.id o a (advanced w.now input o)
                  (ap (order_at w) done.named ∙ done.there)
                  (record {
                    same_organization = refl;
                    same_station = refl;
                    same_source = refl;
                    same_time = refl;
                  })
                  there))
      ]
  run_work_op-Retains tl (WorkOrderOp.schedules org id at actor) w =
      elim (schedule_outcome w org id at actor) [
        | inl (e, refused) ↦ rw (refused, run_work_op) (Retains-refl w)
        | inr (o, there, named, going, done) ↦
            rw (done, run_work_op)
              (over-Retains w (record o { scheduled_at = at })
                (record {
                  work_order_id = o.id;
                  type = WorkOrderEventType.scheduled;
                  actor_id = some actor;
                })
                (λ a at_id.
                  from_row w o.id o a (record o { scheduled_at = at })
                    (ap (order_at w) named ∙ there)
                    (record {
                      same_organization = refl;
                      same_station = refl;
                      same_source = refl;
                      same_time = refl;
                    })
                    at_id))
      ]
  run_work_op-Retains tl WorkOrderOp.resolves_recovered w =
      let (done, w', swept, rows) = resolve_recovered_outcome w in
      rw (swept, run_work_op)
        (λ i a there. (after_sweep w a, rows i ∙ rw there refl, swept-SameOrigin w a))
