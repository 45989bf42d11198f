-- ===== src/Network/Peers.antt =====
-- A peer and its trust metric (core/network/src/peer_manager/peer.rs,
-- core/network/src/peer_manager/trust_metric.rs). An `f64` is the number that its bits spell: nothing
-- here computes with it.
use muta.Prelude.{
  Bool, List, Option, [], false, if◌then◌else◌, leb, ltb, nat_beq, none, some, true, ℕ, ◌%◌, ◌+◌,
  ◌-◌,
}
use muta.Protocol.{u64_mod}
use muta.Network.Types.{PeerId, PublicKey, SessionId}
use muta.Network.Retry.{Retry, max_retry_count, new_retry, reset}
use muta.Network.Tags.{Tags, ban_key, banned_for, get_banned_until, remove_tag}
use muta.Network.Addrs.{PeerAddrSet, new_addrs}

pub data Connectedness : Type 0 where
  not_connected can_connect connected unconnectable connecting : Connectedness

unfoldable pub same_connectedness : Connectedness → Connectedness → Bool
same_connectedness not_connected not_connected = true
same_connectedness can_connect can_connect = true
same_connectedness connected connected = true
same_connectedness unconnectable unconnectable = true
same_connectedness connecting connecting = true
same_connectedness a b = false

abbrev pub F64 : Type 0
F64 = ℕ

-- The bits of 0.8.
abbrev pub initial_history_value : F64
initial_history_value = 4605380978949069210

abbrev pub knock_out_score : ℕ
knock_out_score = 40

abbrev pub good_interval_cap : ℕ
good_interval_cap = 30

pub record History : Type 0 where
  pub intervals : ℕ
  pub memorys : List F64
  pub aggregate_trust : F64
  pub weights_sum : F64

unfoldable pub new_history : History
new_history = record {
  intervals = 0;
  memorys = [];
  aggregate_trust = initial_history_value;
  weights_sum = 0;
}

-- `started` says that a heartbeat task runs.
pub record TrustMetric : Type 0 where
  pub history : History
  pub good_events : ℕ
  pub bad_events : ℕ
  pub started : Bool

unfoldable pub new_metric : TrustMetric
unfolding new_history
new_metric = record { history = new_history; good_events = 0; bad_events = 0; started = false }

unfoldable pub add_good_events : ℕ → TrustMetric → TrustMetric
add_good_events num t =
    if leb (t.good_events + num) good_interval_cap
    then record t { good_events = t.good_events + num }
    else (if ltb t.good_events good_interval_cap
        then record t { good_events = good_interval_cap }
        else t)

unfoldable pub add_bad_events : ℕ → TrustMetric → TrustMetric
add_bad_events num t = record t { bad_events = (t.bad_events + num) % u64_mod }

unfoldable pub reset_history : TrustMetric → TrustMetric
unfolding new_history
reset_history t = record t { history = new_history; good_events = 0; bad_events = 0 }

unfoldable pub start : TrustMetric → TrustMetric
start t = record t { started = true }

unfoldable pub pause : TrustMetric → TrustMetric
pause t = record t { started = false }

pub record Peer : Type 0 where
  pub id : PeerId
  pub multiaddrs : PeerAddrSet
  pub retry : Retry
  pub tags : Tags
  pub pubkey : Option PublicKey
  pub trust_metric : Option TrustMetric
  pub connectedness : Connectedness
  pub session_id : SessionId
  pub connected_at : ℕ
  pub disconnected_at : ℕ
  pub alive : ℕ

unfoldable pub new_peer : PeerId → Peer
unfolding new_addrs new_retry
new_peer peer_id = record {
  id = peer_id;
  multiaddrs = new_addrs peer_id;
  retry = new_retry max_retry_count;
  tags = [];
  pubkey = none;
  trust_metric = none;
  connectedness = not_connected;
  session_id = 0;
  connected_at = 0;
  disconnected_at = 0;
  alive = 0;
}

-- `set_pubkey` refuses a key of another peer.
unfoldable pub set_pubkey : (PublicKey → PeerId) → PublicKey → Peer → Peer
set_pubkey peer_id_of pubkey p =
    if nat_beq (peer_id_of pubkey) p.id then record p { pubkey = some pubkey } else p

unfoldable pub update_alive : ℕ → Peer → Peer
update_alive now p = record p {
  alive = if ltb now p.connected_at then p.connected_at - now else now - p.connected_at;
}

unfoldable pub mark_connected : ℕ → SessionId → Peer → Peer
unfolding reset
mark_connected now sid p = record p {
  connectedness = connected;
  session_id = sid;
  retry = reset p.retry;
  connected_at = now;
}

unfoldable pub mark_disconnected : ℕ → Peer → Peer
unfolding update_alive
mark_disconnected now p =
    update_alive now
      (record p { connectedness = can_connect; session_id = 0; disconnected_at = now })

unfoldable pub map_metric : (TrustMetric → TrustMetric) → Peer → Peer
map_metric f p = elim p.trust_metric [ none ↦ p | some t ↦ record p { trust_metric = some (f t) } ]

-- A change of the metric that a peer has, or of the new one it is given.
unfoldable pub change_metric : (TrustMetric → TrustMetric) → TrustMetric → Peer → Peer
change_metric f fresh p = elim p.trust_metric [
  | none ↦ record p { trust_metric = some fresh }
  | some t ↦ record p { trust_metric = some (f t) }
]

-- A ban that is over is taken off, and the history with it.
unfoldable pub unban : ℕ → ℕ → Peer → Peer × Bool
unfolding remove_tag map_metric reset_history
unban now until p =
    if ltb now until
    then (p, true)
    else (map_metric reset_history (record p { tags = remove_tag ban_key p.tags }), false)

unfoldable pub banned : ℕ → Peer → Peer × Bool
unfolding get_banned_until unban
banned now p = elim (get_banned_until p.tags) [ none ↦ (p, false) | some until ↦ unban now until p ]

unfoldable pub ban_peer : ℕ → ℕ → Peer → Peer
unfolding banned_for
ban_peer now timeout p = record p { tags = banned_for now timeout p.tags }
