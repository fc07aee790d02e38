-- ===== src/Connections/Liveness.antt =====
-- What the coordinator was told last agrees with the connections, except after a forced disconnect.
use forgeos_web.Base.{
  ℕ, ◌≡◌, ◌≢◌, refl, Bool, true, false, Option, none, some, List, [], ◌∷◌, ◌==◌, arith,
  if◌then◌else◌,
}
use forgeos_web.Base.JsMap
use forgeos_web.Base.JsMap.{JsMap, nat_eq, get-put, get-remove}
use forgeos_web.Domain.Session.{ProtocolVersion}
use forgeos_web.Domain.Connection.{ConnectionRecord, Notification, established, closed, Registry}
use forgeos_web.Connections.{
  get, is_connected, register, replace, touch, touch_entry, unregister, unregister_entry,
  close_socket, force_disconnect, is_stale, evict, sweep_entries, sweep_stale,
}

-- Whether the coordinator was last told that the identity is connected.
abbrev pub believed : List Notification → ℕ → Bool
believed [] i = false
believed (established station identity version ∷ rest) i =
    if identity == i then true else believed rest i
believed (closed station identity reason ∷ rest) i =
    if identity == i then false else believed rest i

abbrev pub IsSynced : Registry → Type 0
IsSynced r = (i : ℕ) → is_connected r i ≡ believed r.notified i

pub data RegistryEvent : Type 0 where
  registers : (now identity station_id : ℕ) → ProtocolVersion → (socket : ℕ) → RegistryEvent
  touches unregisters : ℕ → ℕ → RegistryEvent
  sweeps : ℕ → RegistryEvent

abbrev pub step : RegistryEvent → Registry → Registry
step (registers now identity station_id version socket) r =
    register now identity station_id version socket r
step (touches now identity) r = touch now identity r
step (unregisters identity socket) r = unregister identity socket r
step (sweeps now) r = sweep_stale now r

abbrev pub run : List RegistryEvent → Registry → Registry
run [] r = r
run (e ∷ es) r = run es (step e r)

abbrev pub empty : Registry
empty = record { connections = []; closed_sockets = []; notified = [] }

replace_keeps :
    (o : Option ConnectionRecord) (socket : ℕ) (r : Registry)
    → ((replace o socket r).connections ≡ r.connections)
      × ((replace o socket r).notified ≡ r.notified)
unfolding replace close_socket
replace_keeps none socket r = (refl, refl)
replace_keeps (some existing) socket r = ground arith

register-IsSynced :
    (now identity station_id : ℕ) (version : ProtocolVersion) (socket : ℕ) (r : Registry)
    → IsSynced r
    → IsSynced (register now identity station_id version socket r)
unfolding register is_connected
register-IsSynced now identity station_id version socket r synced i = ground (
  arith,
  replace_keeps (get r identity) socket r,
  get-put r.connections identity
      (record {
        ocpp_identity = identity;
        charging_station_id = station_id;
        protocol_version = version;
        socket = socket;
        connected_at = now;
        last_message_at = now;
      })
      i,
  synced i,
)

touch_entry-IsSynced :
    (now identity : ℕ) (o : Option ConnectionRecord) (r : Registry)
    → get r identity ≡ o
    → IsSynced r
    → IsSynced (touch_entry now identity o r)
unfolding touch_entry is_connected
touch_entry-IsSynced now identity none r e synced i = synced i
touch_entry-IsSynced now identity (some entry) r e synced i =
    ground
      (arith, get-put r.connections identity (record entry { last_message_at = now }) i, synced i)

evict-IsSynced :
    (identity : ℕ) (entry : ConnectionRecord) (r : Registry)
    → IsSynced r
    → IsSynced (evict identity entry r)
unfolding evict is_connected
evict-IsSynced identity entry r synced i =
    ground (arith, get-remove r.connections identity i, synced i)

unregister_entry-IsSynced :
    (identity socket : ℕ) (o : Option ConnectionRecord) (r : Registry)
    → IsSynced r
    → IsSynced (unregister_entry identity socket o r)
unfolding unregister_entry is_connected
unregister_entry-IsSynced identity socket none r synced i = synced i
unregister_entry-IsSynced identity socket (some entry) r synced i =
    ground (arith, get-remove r.connections identity i, synced i)

sweep_one-IsSynced :
    (test : Bool) (identity : ℕ) (entry : ConnectionRecord) (r : Registry)
    → IsSynced r
    → IsSynced (if test then evict identity entry r else r)
sweep_one-IsSynced true identity entry r synced = evict-IsSynced identity entry r synced
sweep_one-IsSynced false identity entry r synced = synced

sweep_entries-IsSynced :
    (now : ℕ) (entries : JsMap ℕ ConnectionRecord) (r : Registry)
    → IsSynced r
    → IsSynced (sweep_entries now entries r)
unfolding sweep_entries
sweep_entries-IsSynced now [] r synced = synced
sweep_entries-IsSynced now ((identity, entry) ∷ rest) r synced =
    sweep_entries-IsSynced now rest _
      (sweep_one-IsSynced (is_stale now entry) identity entry r synced)

step-IsSynced : (e : RegistryEvent) (r : Registry) → IsSynced r → IsSynced (step e r)
unfolding touch unregister sweep_stale
step-IsSynced (registers now identity station_id version socket) r synced =
    register-IsSynced now identity station_id version socket r synced
step-IsSynced (touches now identity) r synced =
    touch_entry-IsSynced now identity (get r identity) r refl synced
step-IsSynced (unregisters identity socket) r synced =
    unregister_entry-IsSynced identity socket (get r identity) r synced
step-IsSynced (sweeps now) r synced = sweep_entries-IsSynced now r.connections r synced

-- Along any sequence of registrations, messages, socket closings and sweeps, from a registry where
-- it holds (the empty one is such), the coordinator was last told of each identity that it is
-- connected exactly if it is in the registry.
pub run-IsSynced : (es : List RegistryEvent) (r : Registry) → IsSynced r → IsSynced (run es r)
run-IsSynced [] r synced = synced
run-IsSynced (e ∷ es) r synced = run-IsSynced es (step e r) (step-IsSynced e r synced)

pub empty-IsSynced : IsSynced empty
unfolding is_connected JsMap.get
empty-IsSynced i = refl

-- A forced disconnect of a connected identity breaks that: the identity is gone from the registry,
-- the coordinator was told nothing, and the closing of its socket that follows is ignored, so that
-- it still believes the identity connected.
pub force_disconnect_unnoticed :
    (identity socket : ℕ) (r : Registry)
    → IsSynced r
    → is_connected r identity ≡ true
    → let r' = unregister identity socket (force_disconnect identity r) in
      (is_connected r' identity ≡ false) × (believed r'.notified identity ≡ true)
unfolding is_connected force_disconnect unregister
force_disconnect_unnoticed identity socket r synced c =
    ground (arith, get-remove r.connections identity identity, synced identity)

-- The close event of a socket that a newer connection has replaced changes nothing: the newer
-- connection stays. The older socket was closed by the registration.
pub late_close_ignored :
    (now identity station_id : ℕ) (version : ProtocolVersion) (older newer : ℕ) (r : Registry)
    (entry : ConnectionRecord)
    → get r identity ≡ some entry
    → entry.socket ≡ older
    → older ≢ newer
    → let r' = register now identity station_id version newer r in
      (unregister identity older r' ≡ r') × (r'.closed_sockets ≡ older ∷ r.closed_sockets)
unfolding register unregister
late_close_ignored now identity station_id version older newer r entry e same ne = ground (
  arith,
  replace_keeps (get r identity) newer r,
  get-put r.connections identity
      (record {
        ocpp_identity = identity;
        charging_station_id = station_id;
        protocol_version = version;
        socket = newer;
        connected_at = now;
        last_message_at = now;
      })
      identity,
)
