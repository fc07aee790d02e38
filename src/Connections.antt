-- ===== src/Connections.antt =====
-- apps/movos-api/src/ocpp/connection-registry/connection-registry.service.ts
pub mod Distinct
pub mod Liveness
pub mod Refinement
use forgeos_web.Base.{
  ℕ, ◌+◌, Bool, true, false, not, Option, none, some, List, [], ◌∷◌, ◌==◌, ltb, is_none,
  if◌then◌else◌,
}
use forgeos_web.Base.JsMap
use forgeos_web.Base.JsMap.{JsMap, nat_eq}
use forgeos_web.Domain.Session.{ProtocolVersion}
use forgeos_web.Domain.Connection.{
  ConnectionRecord, CloseReason, clean, stale, Notification, established, closed, Registry,
}

-- five minutes without any message
abbrev pub stale_threshold_ms : ℕ
stale_threshold_ms = 300000

unfoldable pub get : Registry → ℕ → Option ConnectionRecord
get r identity = JsMap.get r.connections identity

unfoldable pub is_connected : Registry → ℕ → Bool
unfolding get
is_connected r identity = not (is_none (get r identity))

close_socket : ℕ → Registry → Registry
close_socket socket r = record r { closed_sockets = socket ∷ closed_sockets }
  where
    open r use {closed_sockets}

notify : Notification → Registry → Registry
notify n r = record r { notified = n ∷ r.notified }

-- An older connection of the same identity is closed first.
pub replace : Option ConnectionRecord → ℕ → Registry → Registry
replace none socket r = r
replace (some existing) socket r =
    if existing.socket == socket then r else close_socket existing.socket r

unfoldable pub register :
    (now identity station_id : ℕ) → ProtocolVersion → (socket : ℕ) → Registry → Registry
unfolding get replace close_socket notify
register now identity station_id version socket r =
    let r' = replace (get r identity) socket r in
    let entry : ConnectionRecord = record {
      ocpp_identity = identity;
      charging_station_id = station_id;
      protocol_version = version;
      socket = socket;
      connected_at = now;
      last_message_at = now;
    } in
    notify (established station_id identity version)
      (record r' { connections = JsMap.put r'.connections identity entry })

pub touch_entry : ℕ → ℕ → Option ConnectionRecord → Registry → Registry
touch_entry now identity none r = r
touch_entry now identity (some entry) r = record r {
  connections = JsMap.put r.connections identity (record entry { last_message_at = now });
}

unfoldable pub touch : (now identity : ℕ) → Registry → Registry
unfolding get touch_entry
touch now identity r = touch_entry now identity (get r identity) r

drop : ℕ → Registry → Registry
drop identity r = record r { connections = JsMap.remove r.connections identity }

pub unregister_entry : ℕ → ℕ → Option ConnectionRecord → Registry → Registry
unfolding drop notify
unregister_entry identity socket none r = r
unregister_entry identity socket (some entry) r =
    if entry.socket == socket
    then notify (closed entry.charging_station_id identity clean) (drop identity r)
    else r

unfoldable pub unregister : (identity socket : ℕ) → Registry → Registry
unfolding get unregister_entry
unregister identity socket r = unregister_entry identity socket (get r identity) r

pub force_entry : ℕ → Option ConnectionRecord → Registry → Registry
unfolding drop close_socket
force_entry identity none r = r
force_entry identity (some entry) r = drop identity (close_socket entry.socket r)

unfoldable pub force_disconnect : (identity : ℕ) → Registry → Registry
unfolding get force_entry
force_disconnect identity r = force_entry identity (get r identity) r

-- `send` answers with the socket that it writes to, or with none where it returns false.
unfoldable pub send : Registry → ℕ → Option ℕ
unfolding get
send r identity = elim (get r identity) [ none ↦ none | some entry ↦ some entry.socket ]

pub is_stale : ℕ → ConnectionRecord → Bool
is_stale now entry = ltb (entry.last_message_at + stale_threshold_ms) now

pub evict : ℕ → ConnectionRecord → Registry → Registry
unfolding drop close_socket notify
evict identity entry r =
    notify (closed entry.charging_station_id identity stale)
      (drop identity (close_socket entry.socket r))

-- The loop of the sweep, over the entries that were there when it began.
pub sweep_entries : ℕ → JsMap ℕ ConnectionRecord → Registry → Registry
unfolding is_stale evict
sweep_entries now [] r = r
sweep_entries now ((identity, entry) ∷ rest) r =
    sweep_entries now rest (if is_stale now entry then evict identity entry r else r)

unfoldable pub sweep_stale : (now : ℕ) → Registry → Registry
unfolding sweep_entries
sweep_stale now r = sweep_entries now r.connections r
