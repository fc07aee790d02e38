-- ===== src/WorkOrders/Automation/Resolution.antt =====
-- `resolveRecoveredConnectivityWorkOrders` and the rows it writes.
use mathlib.Core.Option
use mathlib.Core.Path.{fun_ext}
use forgeos_web.WorkOrders.{is_closed}
use forgeos_web.Domain.Station.{ChargingStation, ConnectivityStatus}
use forgeos_web.Base.{
  ℕ, Bool, false, Option, ◌&&◌, ltb, ◌≡◌, ◌≢◌, inl, inr, refl, ap, ◌∙◌, true, none, some, List, [],
  ◌∷◌, ==_iff, arith, All, DistinctBy, Bool-cases, Option-cases, if◌then◌else◌,
}
use forgeos_web.Base.Result.{ok}
use forgeos_web.Prisma.Listing.{listed, not-listed, listed-find_many}
use forgeos_web.Domain.{Database, World}
use forgeos_web.Domain.Work.{WorkOrder, WorkOrderEventType, WorkOrderSource, WorkOrderStatus}
use forgeos_web.WorkOrders.Lifecycle.{order_at, stepped, update_work_order_found}
use forgeos_web.WorkOrders.Automation.{
  has_recovered, is_open_outage, resolved_at_instant, resolve_one, resolve_each,
  resolve_recovered_connectivity_work_orders,
}

-- The outage orders that wait for their station, by source and status.
abbrev awaits : WorkOrderSource → WorkOrderStatus → Bool
awaits WorkOrderSource.connectivity_loss WorkOrderStatus.opened = true
awaits WorkOrderSource.connectivity_loss WorkOrderStatus.assigned = true
awaits WorkOrderSource.connectivity_loss WorkOrderStatus.in_progress = true
awaits _ _ = false

-- A station that is ONLINE and has connected after the given instant.
abbrev is_back : ConnectivityStatus → Option ℕ → ℕ → Bool
is_back ConnectivityStatus.online (some t) since = ltb since t
is_back _ _ since = false

abbrev station_is_back : Option ChargingStation → ℕ → Bool
station_is_back none since = false
station_is_back (some s) since = is_back s.connectivity_status s.last_connected_at since

has_recovered_back :
    (s : Option ChargingStation) (o : WorkOrder)
    → has_recovered s o ≡ station_is_back s o.created_at
has_recovered_back none o = refl
has_recovered_back (some s) o = ground arith

is_open_outage-awaits : (o : WorkOrder) → is_open_outage o ≡ awaits o.source o.status
is_open_outage-awaits o = ground arith

abbrev pub order_id : WorkOrder → ℕ
order_id o = o.id

module _ {db : Database} where
  -- What the sweep makes of one candidate, by the stations and the time it read.
  abbrev pub settled : World db → WorkOrder → WorkOrder
  settled w o =
      if has_recovered (db.stations.find_unique w.stations o.station_id) o
      then resolved_at_instant w.now o
      else o

  -- What the sweep makes of any work order.
  abbrev swept_row : World db → WorkOrder → WorkOrder
  swept_row w o = if is_open_outage o then settled w o else o

  -- What the sweep is to make of any work order.
  abbrev pub after_sweep : World db → WorkOrder → WorkOrder
  after_sweep w o =
      if awaits o.source o.status
        && station_is_back (db.stations.find_unique w.stations o.station_id) o.created_at
      then record o {
        status = WorkOrderStatus.resolved;
        resolved_at = some w.now;
        notes = some "Conectividad restablecida automáticamente.";
      }
      else o

  swept_row_after : (w : World db) (o : WorkOrder) → swept_row w o ≡ after_sweep w o
  swept_row_after w o =
      rw
        (
          is_open_outage-awaits o,
          has_recovered_back (db.stations.find_unique w.stations o.station_id) o,
        )
        (ground arith)

  pub closed_is_left :
      (w : World db) (o : WorkOrder) → is_closed o.status ≡ true → after_sweep w o ≡ o
  closed_is_left w o closed = ground (arith, closed)

  abbrev pub resolution : World db → WorkOrder → World db
  resolution w o =
      stepped w (resolved_at_instant w.now o)
        (record { work_order_id = o.id; type = WorkOrderEventType.resolved; actor_id = none })

  pub resolve_one_found :
      (w : World db) (o : WorkOrder)
      → order_at w o.id ≡ some o
      → resolve_one o w ≡ (ok (resolved_at_instant w.now o), resolution w o)
  unfolding resolve_one
  resolve_one_found w o there =
      rw (update_work_order_found o.id (resolved_at_instant w.now) w o there) refl

  abbrev pub Present : World db → List WorkOrder → Type 0
  Present w = All (λ (o : WorkOrder). order_at w o.id ≡ some o)

  pub Present-resolution :
      (w : World db) (x : WorkOrder) (xs : List WorkOrder)
      → All (λ (y : WorkOrder). x.id ≢ y.id) xs
      → Present w xs
      → Present (resolution w x) xs
  Present-resolution w x [] d h = tt
  Present-resolution w x (y ∷ ys) d h = (
    ground (
      arith,
      db.work_orders.find_unique-put w.work_orders (resolved_at_instant w.now x) y.id,
      d.0,
      h.0,
    ),
    Present-resolution w x ys d.1 h.1,
  )

  abbrev pub Settles : World db → World db → List WorkOrder → Type 0
  Settles w w' xs =
      (j : ℕ)
      → order_at w' j
        ≡ (if listed order_id j xs then Option.map (settled w) (order_at w j) else order_at w j)

  pub resolve_each_all :
      (xs : List WorkOrder) (w : World db)
      → Present w xs
      → DistinctBy order_id xs
      → (done : List WorkOrder) × (w' : World db) × (resolve_each w.stations xs w ≡ (ok done, w'))
        × Settles w w' xs
  unfolding resolve_each
  resolve_each_all [] w h d = ([], w, refl, λ j. refl)
  resolve_each_all (x ∷ xs) w h d =
      elim (Bool-cases (has_recovered (db.stations.find_unique w.stations x.station_id) x)) [
        | inl recovered ↦
            let (done, w', swept, rows) =
              resolve_each_all xs (resolution w x) (Present-resolution w x xs d.0 h.1) d.1 in
            (
              resolved_at_instant w.now x ∷ done,
              w',
              rw (recovered, resolve_one_found w x h.0, swept) refl,
              λ j. ground (
                arith,
                rows j,
                h.0,
                recovered,
                db.work_orders.find_unique-put w.work_orders (resolved_at_instant w.now x) j,
                not-listed order_id x.id j xs d.0,
                ==_iff x.id j,
                ap (order_at w) ((==_iff x.id j).0 _),
              ),
            )
        | inr waiting ↦
            let (done, w', swept, rows) = resolve_each_all xs w h.1 d.1 in
            (
              done,
              w',
              rw (waiting, swept) refl,
              λ j. ground (
                arith,
                rows j,
                h.0,
                waiting,
                not-listed order_id x.id j xs d.0,
                ==_iff x.id j,
                ap (order_at w) ((==_iff x.id j).0 _),
              ),
            )
      ]

  pub Present-of :
      (w : World db) (xs : List WorkOrder)
      → All (λ o. (order_at w o.id ≡ some o) × (is_open_outage o ≡ true)) xs
      → Present w xs
  Present-of w [] h = tt
  Present-of w (x ∷ xs) h = (h.0.0, Present-of w xs h.1)

  map-listed :
      (w : World db) (j : ℕ)
      → (if listed order_id j (db.work_orders.find_many w.work_orders is_open_outage)
          then Option.map (settled w) (order_at w j)
          else order_at w j)
        ≡ Option.map (swept_row w) (order_at w j)
  map-listed w j = elim (Option-cases (order_at w j)) [
    | inl missing ↦ ground (arith, missing)
    | inr (o, there) ↦
        rw (listed-find_many order_id db.work_orders w.work_orders is_open_outage j o there, there)
          (elim (Bool-cases (is_open_outage o)) [
            | inl outage ↦ rw outage refl
            | inr apart ↦ rw apart refl
          ])
  ]

  -- The sweep never fails. Afterwards the CONNECTIVITY_LOSS orders that were not closed and whose
  -- station is online, connected since an instant after the order was made, are RESOLVED at this
  -- instant; every other work order's row is what it was.
  pub resolve_recovered_outcome :
      (w : World db)
      → (done : List WorkOrder) × (w' : World db) × (resolve_recovered_connectivity_work_orders w
          ≡ (ok done, w'))
        × ((j : ℕ) → order_at w' j ≡ Option.map (after_sweep w) (order_at w j))
  unfolding resolve_recovered_connectivity_work_orders
  resolve_recovered_outcome w =
      let xs = db.work_orders.find_many w.work_orders is_open_outage in
      let (done, w', swept, rows) =
        resolve_each_all xs w
          (Present-of w xs (db.work_orders.find_many_sound w.work_orders is_open_outage))
          (db.work_orders.find_many_distinct w.work_orders is_open_outage) in
      (
        done,
        w',
        swept,
        λ j.
            rows j
            ∙ map-listed w j
            ∙ ap (λ f. Option.map f (order_at w j)) (fun_ext (swept_row_after w)),
      )
