-- ===== src/Connections/Distinct.antt =====
-- connection-registry.service.ts: the keys of its map.
use forgeos_web.Base.{
  ℕ, ◌∙◌, ◌≡◌, refl, inl, inr, Bool, true, false, ◌&&◌, ◌||◌, Option, none, some, [], ◌∷◌, ◌==◌,
  if◌then◌else◌, arith, Bool-cases,
}
use forgeos_web.Base.JsMap
use forgeos_web.Base.JsMap.{JsMap, nat_eq, string_eq, get-put, get-remove}
use forgeos_web.Connections.{
  ConnectionRecord, Registry, replace, touch_entry, unregister_entry, force_entry, is_stale, evict,
  drop, sweep_entries, close_socket, notify,
}

-- The keys of the map differ.
unfoldable pub IsProper : JsMap ℕ ConnectionRecord → Type 0
IsProper [] = Unit
IsProper ((k, v) ∷ m) = (JsMap.get m k ≡ none) × IsProper m

pub put-IsProper :
    (m : JsMap ℕ ConnectionRecord) (k : ℕ) (v : ConnectionRecord)
    → IsProper m
    → IsProper (JsMap.put m k v)
unfolding IsProper JsMap.put JsMap.get
put-IsProper [] k v h = (refl, tt)
put-IsProper ((j, u) ∷ m) k v (free, h) = elim (Bool-cases (j == k)) [
  | inl e ↦ rw e (free, h)
  | inr e ↦ rw e (ground (arith, get-put m k v j, free, e), put-IsProper m k v h)
]

pub remove-IsProper :
    (m : JsMap ℕ ConnectionRecord) (k : ℕ) → IsProper m → IsProper (JsMap.remove m k)
unfolding IsProper JsMap.remove
remove-IsProper [] k h = tt
remove-IsProper ((j, u) ∷ m) k (free, h) = elim (Bool-cases (j == k)) [
  | inl e ↦ rw e (remove-IsProper m k h)
  | inr e ↦ rw e (ground (arith, get-remove m k j, free), remove-IsProper m k h)
]

pub replace_connections :
    (o : Option ConnectionRecord) (socket : ℕ) (r : Registry)
    → (replace o socket r).connections ≡ r.connections
unfolding replace close_socket
replace_connections none socket r = refl
replace_connections (some existing) socket r = ground arith

-- What the loop of the sweep takes out.
abbrev pub any_stale : ℕ → JsMap ℕ ConnectionRecord → ℕ → Bool
any_stale now [] j = false
any_stale now ((i, entry) ∷ rest) j = (i == j && is_stale now entry) || any_stale now rest j

evict_connections :
    (now i : ℕ) (entry : ConnectionRecord) (r : Registry)
    → (evict i entry r).connections ≡ JsMap.remove r.connections i
unfolding evict drop close_socket notify
evict_connections now i entry r = refl

none_twice :
    (a b : Bool) (o : Option ConnectionRecord)
    → (if a then none else if b then none else o) ≡ (if b || a then none else o)
none_twice true true o = refl
none_twice true false o = refl
none_twice false true o = refl
none_twice false false o = refl

evict_if : ℕ → ℕ → ConnectionRecord → Registry → Registry
evict_if now i entry r = if is_stale now entry then evict i entry r else r

get-evict_if :
    (now i : ℕ) (entry : ConnectionRecord) (r : Registry) (j : ℕ)
    → JsMap.get (evict_if now i entry r).connections j
      ≡ (if i == j && is_stale now entry then none else JsMap.get r.connections j)
unfolding evict_if
get-evict_if now i entry r j = elim (Bool-cases (is_stale now entry)) [
  | inr fresh_ ↦ rw fresh_ (ground arith)
  | inl old ↦
      rw (old, evict_connections now i entry r) (ground (arith, get-remove r.connections i j))
]

evict_if-IsProper :
    (now i : ℕ) (entry : ConnectionRecord) (r : Registry)
    → IsProper r.connections
    → IsProper (evict_if now i entry r).connections
unfolding evict_if
evict_if-IsProper now i entry r h = elim (Bool-cases (is_stale now entry)) [
  | inr fresh_ ↦ rw fresh_ h
  | inl old ↦ rw (old, evict_connections now i entry r) (remove-IsProper r.connections i h)
]

pub get-sweep_entries :
    (now : ℕ) (entries : JsMap ℕ ConnectionRecord) (r : Registry) (j : ℕ)
    → JsMap.get (sweep_entries now entries r).connections j
      ≡ (if any_stale now entries j then none else JsMap.get r.connections j)
unfolding sweep_entries evict_if
get-sweep_entries now [] r j = refl
get-sweep_entries now ((i, entry) ∷ rest) r j =
    get-sweep_entries now rest (evict_if now i entry r) j
    ∙ rw (get-evict_if now i entry r j) (
        none_twice (any_stale now rest j) (i == j && is_stale now entry)
          (JsMap.get r.connections j))

pub sweep_entries-IsProper :
    (now : ℕ) (entries : JsMap ℕ ConnectionRecord) (r : Registry)
    → IsProper r.connections
    → IsProper (sweep_entries now entries r).connections
unfolding sweep_entries evict_if
sweep_entries-IsProper now [] r h = h
sweep_entries-IsProper now ((i, entry) ∷ rest) r h =
    sweep_entries-IsProper now rest (evict_if now i entry r) (evict_if-IsProper now i entry r h)

abbrev pub stale_of : ℕ → Option ConnectionRecord → Bool
stale_of now none = false
stale_of now (some entry) = is_stale now entry

pub any_stale-get :
    (now : ℕ) (m : JsMap ℕ ConnectionRecord) (j : ℕ)
    → IsProper m
    → any_stale now m j ≡ stale_of now (JsMap.get m j)
unfolding IsProper JsMap.get
any_stale-get now [] j h = refl
any_stale-get now ((i, entry) ∷ rest) j (free, h) = ground (arith, any_stale-get now rest j h, free)

pub touch_entry-IsProper :
    (now i : ℕ) (o : Option ConnectionRecord) (r : Registry)
    → IsProper r.connections
    → IsProper (touch_entry now i o r).connections
unfolding touch_entry
touch_entry-IsProper now i none r h = h
touch_entry-IsProper now i (some entry) r h =
    put-IsProper r.connections i (record entry { last_message_at = now }) h

pub unregister_entry-IsProper :
    (i socket : ℕ) (o : Option ConnectionRecord) (r : Registry)
    → IsProper r.connections
    → IsProper (unregister_entry i socket o r).connections
unfolding unregister_entry notify drop
unregister_entry-IsProper i socket none r h = h
unregister_entry-IsProper i socket (some entry) r h = elim (Bool-cases (entry.socket == socket)) [
  | inr e ↦ rw e h
  | inl e ↦ rw e (remove-IsProper r.connections i h)
]

pub force_entry-IsProper :
    (i : ℕ) (o : Option ConnectionRecord) (r : Registry)
    → IsProper r.connections
    → IsProper (force_entry i o r).connections
unfolding force_entry drop close_socket
force_entry-IsProper i none r h = h
force_entry-IsProper i (some entry) r h = remove-IsProper r.connections i h
