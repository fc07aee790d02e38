-- ===== src/Connections/Refinement.antt =====
-- connection-registry.service.ts beside an abstract map from identities to records.
use forgeos_web.Base.{
  ℕ, ◌+◌, ◌∙◌, ◌≡◌, refl, sym, ap, inl, inr, true, Option, none, some, List, [], ◌∷◌, ◌==◌, ltb,
  if◌then◌else◌, arith, Bool-cases,
}
use forgeos_web.Base.JsMap
use forgeos_web.Base.JsMap.{JsMap, nat_eq, string_eq, get-put, get-remove}
use mathlib.Core.Path.{fun_ext}
use forgeos_web.Connections.{
  stale_threshold_ms, ProtocolVersion, ConnectionRecord, Registry, get, register, touch,
  touch_entry, unregister, unregister_entry, force_disconnect, force_entry, is_stale, drop,
  sweep_stale, close_socket, notify,
}
use forgeos_web.Connections.Liveness.{RegistryEvent, step, empty}
use forgeos_web.Connections.Distinct.{
  IsProper, replace_connections, put-IsProper, get-sweep_entries, sweep_entries-IsProper,
  any_stale-get, stale_of, touch_entry-IsProper, unregister_entry-IsProper, force_entry-IsProper,
}

pub data RegistryOp : Type 0 where
  event : RegistryEvent → RegistryOp
  forces : (identity : ℕ) → RegistryOp

abbrev pub apply : RegistryOp → Registry → Registry
apply (event e) r = step e r
apply (forces identity) r = force_disconnect identity r

abbrev pub apply_all : List RegistryOp → Registry → Registry
apply_all [] r = r
apply_all (op ∷ ops) r = apply_all ops (apply op r)

-- The abstract registry, and what an operation does to it.
abbrev pub View : Type 0
View = ℕ → Option ConnectionRecord

abbrev heard : ℕ → Option ConnectionRecord → Option ConnectionRecord
heard now none = none
heard now (some entry) = some (record entry { last_message_at = now })

abbrev unless_socket : ℕ → Option ConnectionRecord → Option ConnectionRecord
unless_socket socket none = none
unless_socket socket (some entry) = if entry.socket == socket then none else some entry

abbrev unless_stale : ℕ → Option ConnectionRecord → Option ConnectionRecord
unless_stale now none = none
unless_stale now (some entry) =
    if ltb (entry.last_message_at + stale_threshold_ms) now then none else some entry

abbrev entry_of : (now identity station_id : ℕ) → ProtocolVersion → (socket : ℕ) → ConnectionRecord
entry_of now identity station_id version socket = record {
  ocpp_identity = identity;
  charging_station_id = station_id;
  protocol_version = version;
  socket = socket;
  connected_at = now;
  last_message_at = now;
}

abbrev pub view_step : RegistryOp → View → View
view_step (event (RegistryEvent.registers now identity station_id version socket)) m j =
    if identity == j then some (entry_of now identity station_id version socket) else m j
view_step (event (RegistryEvent.touches now identity)) m j =
    if identity == j then heard now (m j) else m j
view_step (event (RegistryEvent.unregisters identity socket)) m j =
    if identity == j then unless_socket socket (m j) else m j
view_step (event (RegistryEvent.sweeps now)) m j = unless_stale now (m j)
view_step (forces identity) m j = if identity == j then none else m j

abbrev pub view_all : List RegistryOp → View → View
view_all [] m = m
view_all (op ∷ ops) m = view_all ops (view_step op m)

-- One operation on the registry is one operation on the view.
register_connections :
    (now i station_id : ℕ) (v : ProtocolVersion) (socket : ℕ) (r : Registry)
    → (register now i station_id v socket r).connections
      ≡ JsMap.put r.connections i (entry_of now i station_id v socket)
unfolding register notify
register_connections now i station_id v socket r =
    ap (λ c. JsMap.put c i (entry_of now i station_id v socket))
      (replace_connections (get r i) socket r)

same : (i j : ℕ) → (i == j) ≡ true → i ≡ j
same i j e = ground arith

get-touch_entry :
    (now i : ℕ) (o : Option ConnectionRecord) (r : Registry) (j : ℕ)
    → JsMap.get r.connections i ≡ o
    → JsMap.get (touch_entry now i o r).connections j
      ≡ (if i == j then heard now (JsMap.get r.connections j) else JsMap.get r.connections j)
unfolding touch_entry
get-touch_entry now i none r j at_i = elim (Bool-cases (i == j)) [
  | inr e ↦ rw e refl
  | inl e ↦ rw (e, sym (ap (JsMap.get r.connections) (same i j e)), at_i) refl
]
get-touch_entry now i (some entry) r j at_i = elim (Bool-cases (i == j)) [
  | inr e ↦ get-put r.connections i (record entry { last_message_at = now }) j ∙ rw e refl
  | inl e ↦
      get-put r.connections i (record entry { last_message_at = now }) j
      ∙ rw (e, sym (ap (JsMap.get r.connections) (same i j e)), at_i) refl
]

get-unregister_entry :
    (i socket : ℕ) (o : Option ConnectionRecord) (r : Registry) (j : ℕ)
    → JsMap.get r.connections i ≡ o
    → JsMap.get (unregister_entry i socket o r).connections j ≡ (
        if i == j
        then unless_socket socket (JsMap.get r.connections j)
        else JsMap.get r.connections j)
unfolding unregister_entry notify drop
get-unregister_entry i socket none r j at_i = elim (Bool-cases (i == j)) [
  | inr e ↦ rw e refl
  | inl e ↦ rw (e, sym (ap (JsMap.get r.connections) (same i j e)), at_i) refl
]
get-unregister_entry i socket (some entry) r j at_i = elim (Bool-cases (entry.socket == socket)) [
  | inr other ↦ rw other (elim (Bool-cases (i == j)) [
    | inr e ↦ rw e refl
    | inl e ↦ rw (e, sym (ap (JsMap.get r.connections) (same i j e)), at_i, other) refl
  ])
  | inl own ↦ rw own (
      get-remove r.connections i j ∙ elim (Bool-cases (i == j)) [
        | inr e ↦ rw e refl
        | inl e ↦ rw (e, sym (ap (JsMap.get r.connections) (same i j e)), at_i, own) refl
      ])
]

get-force_entry :
    (i : ℕ) (o : Option ConnectionRecord) (r : Registry) (j : ℕ)
    → JsMap.get r.connections i ≡ o
    → JsMap.get (force_entry i o r).connections j
      ≡ (if i == j then none else JsMap.get r.connections j)
unfolding force_entry drop close_socket
get-force_entry i none r j at_i = elim (Bool-cases (i == j)) [
  | inr e ↦ rw e refl
  | inl e ↦ rw (e, sym (ap (JsMap.get r.connections) (same i j e)), at_i) refl
]
get-force_entry i (some entry) r j at_i = get-remove r.connections i j

unless_stale_of :
    (now : ℕ) (o : Option ConnectionRecord)
    → (if stale_of now o then none else o) ≡ unless_stale now o
unfolding is_stale
unless_stale_of now none = refl
unless_stale_of now (some entry) = refl

apply-IsProper :
    (op : RegistryOp) (r : Registry) → IsProper r.connections → IsProper (apply op r).connections
unfolding touch unregister force_disconnect sweep_stale get
apply-IsProper (event (RegistryEvent.registers now i station_id v socket)) r h =
    rw (register_connections now i station_id v socket r)
      (put-IsProper r.connections i (entry_of now i station_id v socket) h)
apply-IsProper (event (RegistryEvent.touches now i)) r h =
    touch_entry-IsProper now i (JsMap.get r.connections i) r h
apply-IsProper (event (RegistryEvent.unregisters i socket)) r h =
    unregister_entry-IsProper i socket (JsMap.get r.connections i) r h
apply-IsProper (event (RegistryEvent.sweeps now)) r h = sweep_entries-IsProper now r.connections r h
apply-IsProper (forces i) r h = force_entry-IsProper i (JsMap.get r.connections i) r h

get-apply :
    (op : RegistryOp) (r : Registry) (j : ℕ)
    → IsProper r.connections
    → get (apply op r) j ≡ view_step op (get r) j
unfolding touch unregister force_disconnect sweep_stale get
get-apply (event (RegistryEvent.registers now i station_id v socket)) r j h =
    rw (register_connections now i station_id v socket r)
      (get-put r.connections i (entry_of now i station_id v socket) j)
get-apply (event (RegistryEvent.touches now i)) r j h =
    get-touch_entry now i (JsMap.get r.connections i) r j refl
get-apply (event (RegistryEvent.unregisters i socket)) r j h =
    get-unregister_entry i socket (JsMap.get r.connections i) r j refl
get-apply (event (RegistryEvent.sweeps now)) r j h =
    get-sweep_entries now r.connections r j
    ∙ rw (any_stale-get now r.connections j h) (unless_stale_of now (JsMap.get r.connections j))
get-apply (forces i) r j h = get-force_entry i (JsMap.get r.connections i) r j refl

apply_all_from :
    (ops : List RegistryOp) (r : Registry)
    → IsProper r.connections
    → get (apply_all ops r) ≡ view_all ops (get r)
apply_all_from [] r h = refl
apply_all_from (op ∷ ops) r h =
    apply_all_from ops (apply op r) (apply-IsProper op r h)
    ∙ ap (view_all ops) (fun_ext (λ j. get-apply op r j h))

-- After any sequence of registrations, messages, departures, sweeps and forced disconnects from the
-- empty registry, the registry answers at every identity what the abstract view answers: a map
-- from identities to at most one record, in which registering sets the record of its identity, a
-- message moves only the time of that identity's last message, a departure clears the record only
-- where it still holds the socket that left, a sweep clears exactly the records that are stale, and
-- forcing clears the identity.
pub apply_all-view_all :
    (ops : List RegistryOp) → get (apply_all ops empty) ≡ view_all ops (λ j. none)
unfolding IsProper get JsMap.get
apply_all-view_all ops = apply_all_from ops empty tt
