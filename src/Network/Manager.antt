-- ===== src/Network/Manager.antt =====
-- The peer manager: its state and the checks of a new session
-- (core/network/src/peer_manager/mod.rs).
--
-- An `ArcPeer` is a peer that its holders share. Here it is the peer's id, and the peer stands in the
-- book `peers`, which never drops nor replaces one; `put_peer` writes through the shared pointer. A
-- peer that is not in the book yet is known to one call only and is passed as a value.
use muta.Prelude.{
  Bool, Dict, List, Option, Result, [], err, false, get_or, if◌then◌else◌, insert, is_some, leb,
  length, lookup, ltb, nat_beq, nat_eq, none, not, ok, some, ℕ, ◌%◌, ◌&&◌, ◌*◌, ◌∷◌,
}
use muta.Protocol.{u64_mod}
use muta.Network.Types.{
  ConnectionEvent, Multiaddr, PeerId, PublicKey, SessionContext, SessionId, SessionType, Text,
  disconnect, inbound, outbound, peer_multiaddr,
}
use muta.Network.Tags.{is_privileged}
use muta.Network.Addrs.{contains_addr, insert_addrs, remove_addr, reset_failure}
use muta.Network.Peers.{
  Peer, TrustMetric, ban_peer, banned, connected, mark_disconnected, new_peer, same_connectedness,
}
use muta.Network.Sessions.{
  BookConfig, BookError, Session, SessionBook, acceptable, find_session, make_session, new_book,
}

pub data PreCheckError : Type 0 where
  peer_banned allow_list_only reach_max_connection peer_already_connected : PreCheckError
  reach_session_limit : BookError → PreCheckError

abbrev pub same_ip_limit_ban : ℕ
same_ip_limit_ban = 5 * 60

-- What is outside of the manager: the clock in seconds, the draws of the generator of random numbers,
-- the transport's functions, and the score of a metric, which the source computes with `f64`.
pub record World : Type 0 where
  pub now : ℕ
  pub random : ℕ
  pub choose_multiple : ℕ → List PeerId → List PeerId
  pub peer_id_of : PublicKey → PeerId
  pub is_peer_id : Text → Bool
  pub to_string : Multiaddr → Text
  pub trust_score : TrustMetric → ℕ

pub record ManagerConfig : Type 0 where
  pub allowlist_only : Bool
  pub outbound_conn_limit : ℕ
  pub trust_interval : ℕ
  pub peer_fatal_ban : ℕ
  pub peer_soft_ban : ℕ
  pub max_connections : ℕ

pub record ConnectingAttempt : Type 0 where
  pub peer : PeerId
  pub multiaddrs : List Multiaddr
  pub at : ℕ

pub record UnidentifiedSession : Type 0 where
  pub pubkey : PublicKey
  pub ctx : SessionContext
  pub connected_at : ℕ

-- `sessions` to `listen` are the source's `Inner`; `sent` is what went into `conn_tx`, the last first.
pub record PeerManager : Type 0 where
  pub config : ManagerConfig
  pub peer_id : PeerId
  pub sessions : SessionBook
  pub consensus_peers : List PeerId
  pub peers : Dict PeerId Peer
  pub listen : List Multiaddr
  pub connecting_attempts : List ConnectingAttempt
  pub unidentified_backlog : List UnidentifiedSession
  pub sent : List ConnectionEvent

unfoldable pub new_manager : ManagerConfig → BookConfig → PeerId → PeerManager
unfolding new_book
new_manager config book our_id = record {
  config = config;
  peer_id = our_id;
  sessions = new_book book;
  consensus_peers = [];
  peers = [];
  listen = [];
  connecting_attempts = [];
  unidentified_backlog = [];
  sent = [];
}

abbrev pub peer : PeerId → PeerManager → Option Peer
peer pid m = lookup pid m.peers

abbrev pub session : SessionId → PeerManager → Option Session
session sid m = find_session sid m.sessions.sessions

abbrev pub add_peer : PeerId → Peer → PeerManager → PeerManager
add_peer pid p m = record m { peers = insert pid p m.peers }

-- A write to a peer, which others see if the book has it.
unfoldable pub put_peer : PeerId → Peer → PeerManager → PeerManager
put_peer pid p m = if is_some (peer pid m) then add_peer pid p m else m

unfoldable pub send : ConnectionEvent → PeerManager → PeerManager
send event m = record m { sent = event ∷ m.sent }

unfoldable pub disconnect_session : SessionId → PeerManager → PeerManager
unfolding send
disconnect_session sid m = send (disconnect sid) m

unfoldable pub drop_attempt : PeerId → List ConnectingAttempt → List ConnectingAttempt
drop_attempt pid [] = []
drop_attempt pid (a ∷ l) =
    let rest = drop_attempt pid l in if nat_beq a.peer pid then rest else a ∷ rest

unfoldable pub stop_connecting : PeerId → PeerManager → PeerManager
unfolding drop_attempt
stop_connecting pid m = record m { connecting_attempts = drop_attempt pid m.connecting_attempts }

-- The address of a client is of no use; one that was dialled works.
unfoldable pub note_address : SessionType → Multiaddr → Peer → Peer
unfolding remove_addr contains_addr reset_failure insert_addrs
note_address inbound ma p = record p { multiaddrs = remove_addr ma p.multiaddrs }
note_address outbound ma p = record p {
  multiaddrs =
      if contains_addr ma p.multiaddrs
      then reset_failure ma p.multiaddrs
      else insert_addrs (ma ∷ []) p.multiaddrs;
}

unfoldable pub refuse :
    {A : Type 0}
    → World
    → SessionContext
    → PeerId
    → Peer
    → PreCheckError
    → PeerManager
    → PeerManager × Result A PreCheckError
unfolding put_peer mark_disconnected disconnect_session
refuse w ctx pid p e m =
    (disconnect_session ctx.id (put_peer pid (mark_disconnected w.now p) m), err e)

abbrev pub Checked : Type 0
Checked = PeerManager × Result (Session × Peer) PreCheckError

module _ (w : World) where
  unfoldable pub metric_of : PeerId → PeerManager → Option TrustMetric
  metric_of pid m = elim (peer pid m) [ none ↦ none | some p ↦ p.trust_metric ]

  unfoldable pub is_replaceable : ℕ → TrustMetric → PeerId → PeerManager → Bool
  unfolding is_privileged
  is_replaceable score t pid m = elim (peer pid m) [
    | none ↦ false
    | some p ↦
        ltb (w.trust_score t) score
        && not (is_privileged p.tags)
        && ltb ((m.config.trust_interval * 20) % u64_mod) p.alive
  ]

  -- The first session of a worse peer that has been there for long.
  unfoldable pub replace_among : ℕ → List Session → PeerManager → Option SessionId
  unfolding metric_of is_replaceable
  replace_among score [] m = none
  replace_among score (s ∷ ss) m =
      let rest = replace_among score ss m in
      elim (metric_of s.peer m) [
        | none ↦ none
        | some t ↦ if is_replaceable score t s.peer m then some s.id else rest
      ]

  unfoldable pub replacement : Peer → PeerManager → Option SessionId
  unfolding replace_among
  replacement p m = elim p.trust_metric [
    | none ↦ none
    | some t ↦ replace_among (w.trust_score t) m.sessions.sessions m
  ]

  -- The limits of the session book, which a privileged peer passes.
  unfoldable pub check_limits : SessionContext → PeerId → Peer → PeerManager → Checked
  unfolding is_privileged make_session acceptable ban_peer refuse
  check_limits ctx pid p m =
      let s = make_session w.to_string pid ctx in
      if is_privileged p.tags then (m, ok (s, p)) else elim (acceptable s m.sessions) [
        | none ↦ (m, ok (s, p))
        | some e ↦ refuse w ctx pid (ban_peer w.now same_ip_limit_ban p) (reach_session_limit e) m
      ]

  unfoldable pub check_connected : SessionContext → PeerId → Peer → PeerManager → Checked
  unfolding same_connectedness disconnect_session check_limits
  check_connected ctx pid p m =
      if same_connectedness p.connectedness connected
        && not (nat_beq p.session_id ctx.id)
        && is_some (session p.session_id m)
      then (disconnect_session ctx.id m, err peer_already_connected)
      else check_limits ctx pid p m

  unfoldable pub check_room : SessionContext → PeerId → Peer → PeerManager → Checked
  unfolding is_privileged replacement refuse disconnect_session check_connected
  check_room ctx pid p m =
      if leb m.config.max_connections (length m.sessions.sessions) && not (is_privileged p.tags)
      then elim (replacement p m) [
        | none ↦ refuse w ctx pid p reach_max_connection m
        | some sid ↦ check_connected ctx pid p (disconnect_session sid m)
      ]
      else check_connected ctx pid p m

  unfoldable pub check_peer : SessionContext → PeerId → Peer × Bool → PeerManager → Checked
  unfolding is_privileged refuse check_room
  check_peer ctx pid (p, is_banned) m =
      if is_banned
      then refuse w ctx pid p peer_banned m
      else (if m.config.allowlist_only && not (is_privileged p.tags)
          then refuse w ctx pid p allow_list_only m
          else check_room ctx pid p m)

  unfoldable pub new_session_pre_check : PublicKey → SessionContext → PeerManager → Checked
  unfolding stop_connecting new_peer note_address banned put_peer check_peer
  new_session_pre_check pubkey ctx m =
      let pid = w.peer_id_of pubkey in
      let p =
        note_address ctx.ty (peer_multiaddr ctx.address pid) (get_or (peer pid m) (new_peer pid)) in
      let (p', is_banned) = banned w.now p in
      check_peer ctx pid (p', is_banned) (put_peer pid p' (stop_connecting pid m))
