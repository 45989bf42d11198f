-- ===== src/Network/Dialling.antt =====
-- How the peer manager dials, and what it learns of addresses
-- (core/network/src/peer_manager/mod.rs).
use muta.Prelude.{
  Bool, List, Option, [], get_or, if◌then◌else◌, is_some, length, list_eq, member, nat_beq, nat_eq,
  none, not, some, ℕ, ◌&&◌, ◌++◌, ◌==◌, ◌||◌, ◌∷◌,
}
use muta.Network.Types.{
  ConnectionErrorKind, Multiaddr, PeerId, PeerManagerEvent, SessionId, SessionType,
  add_new_listen_addr, connect, connect_failed, connect_peers_now, discover_multi_addrs,
  dns_resolver, id_bytes, identified_addrs, inbound, io, misbehave, multiaddr_not_supported,
  new_session, outbound, peer_alive, peer_id_not_match, peer_multiaddr, protocol_eq,
  protocol_handle, remove_listen_addr, repeated_connection, secio_handshake, session_blocked,
  session_closed, session_failed, time_out, trust_metric, unidentified_session,
}
use muta.Network.Retry.{run_out}
use muta.Network.Tags.{consensus, contains_tag, is_privileged}
use muta.Network.Addrs.{
  all_raw, connectable, give_up, inc_failure, insert_addrs, remove_addr, reset_failure,
}
use muta.Network.Peers.{
  Peer, can_connect, connecting, new_peer, not_connected, same_connectedness, unconnectable,
}
use muta.Network.Sessions.{find_session}
use muta.Network.Manager.{
  ConnectingAttempt, ManagerConfig, PeerManager, UnidentifiedSession, World, add_peer, peer, send,
  session, stop_connecting,
}
use muta.Network.Events.{
  change_peer, inc_retry, new_unidentified_session, on_new_session, on_session_blocked,
  on_session_closed, on_session_failed, peer_misbehave, set_connectedness, trust_metric_feedback,
  update_peer_alive,
}

-- `PeerMultiaddr::try_from`: the id that the address carries.
unfoldable pub extract_id : World → Multiaddr → Option PeerId
extract_id w ma = elim (id_bytes ma) [
  | none ↦ none
  | some id ↦ if w.is_peer_id id then some id else none
]

-- What a failed attempt does to the address, or to the peer.
unfoldable pub failed_addr : ConnectionErrorKind → Multiaddr → Peer → Peer
unfolding inc_failure give_up set_connectedness
failed_addr io ma p = record p { multiaddrs = inc_failure ma p.multiaddrs }
failed_addr dns_resolver ma p = record p { multiaddrs = inc_failure ma p.multiaddrs }
failed_addr multiaddr_not_supported ma p = record p { multiaddrs = give_up ma p.multiaddrs }
failed_addr peer_id_not_match ma p = record p { multiaddrs = give_up ma p.multiaddrs }
failed_addr time_out ma p = record p { multiaddrs = inc_failure ma p.multiaddrs }
failed_addr secio_handshake ma p = set_connectedness unconnectable p
failed_addr protocol_handle ma p = set_connectedness unconnectable p

unfoldable pub find_attempt : PeerId → List ConnectingAttempt → Option ConnectingAttempt
find_attempt pid [] = none
find_attempt pid (a ∷ l) = if nat_beq a.peer pid then some a else find_attempt pid l

unfoldable pub without : Multiaddr → List Multiaddr → List Multiaddr
without ma [] = []
without ma (x ∷ l) = let rest = without ma l in if ma == x then rest else x ∷ rest

-- All addresses of the peer failed.
unfoldable pub attempt_failed : ℕ → Peer → Peer
unfolding inc_retry set_connectedness run_out
attempt_failed now p =
    let q = set_connectedness can_connect (inc_retry now p) in
    if run_out q.retry then set_connectedness unconnectable q else q

-- One address of an attempt is done; the attempt goes on while it has others.
unfoldable pub complete_attempt :
    ℕ → PeerId → Multiaddr → Peer → ConnectingAttempt → PeerManager → PeerManager
unfolding same_connectedness without attempt_failed
complete_attempt now pid ma p a m =
    if same_connectedness p.connectedness unconnectable then m else elim (without ma a.multiaddrs) [
      | [] ↦ add_peer pid (attempt_failed now p) m
      | x ∷ l ↦ record m {
        connecting_attempts = record a { multiaddrs = x ∷ l } ∷ m.connecting_attempts;
      }
    ]

unfoldable pub fail_peer :
    World → PeerId → Multiaddr → ConnectionErrorKind → Peer → PeerManager → PeerManager
unfolding failed_addr find_attempt stop_connecting complete_attempt
fail_peer w pid ma kind p m =
    let q = failed_addr kind ma p in
    let m' = add_peer pid q m in
    elim (find_attempt pid m.connecting_attempts) [
      | none ↦ m'
      | some a ↦ complete_attempt w.now pid ma q a (stop_connecting pid m')
    ]

unfoldable pub on_connect_failed :
    World → Multiaddr → ConnectionErrorKind → PeerManager → PeerManager
unfolding extract_id fail_peer
on_connect_failed w ma kind m = elim (extract_id w ma) [
  | none ↦ m
  | some pid ↦ elim (peer pid m) [ none ↦ m | some p ↦ fail_peer w pid ma kind p m ]
]

-- A new attempt replaces none: a `HashSet` keeps the attempt of the peer that is there.
unfoldable pub add_attempt : ConnectingAttempt → List ConnectingAttempt → List ConnectingAttempt
unfolding find_attempt
add_attempt a l = if is_some (find_attempt a.peer l) then l else a ∷ l

unfoldable pub start_connecting : ℕ → PeerId → Peer → PeerManager → PeerManager
unfolding connectable add_attempt set_connectedness
start_connecting now pid p m =
    let a : ConnectingAttempt = record {
      peer = pid;
      multiaddrs = connectable p.multiaddrs;
      at = now;
    } in
    add_peer pid (set_connectedness connecting p)
      (record m { connecting_attempts = add_attempt a m.connecting_attempts })

unfoldable pub is_dialled : ManagerConfig → Peer → Bool
unfolding is_privileged same_connectedness contains_tag all_raw
is_dialled config p =
    not (nat_beq (length (all_raw p.multiaddrs)) 0)
    && not (config.allowlist_only && not (is_privileged p.tags))
    && (same_connectedness p.connectedness can_connect
        || same_connectedness p.connectedness not_connected
        || (same_connectedness p.connectedness unconnectable && contains_tag consensus p.tags))

-- The peers to dial, and their addresses.
unfoldable pub connect_each : ℕ → List (PeerId × Peer) → PeerManager → PeerManager × List Multiaddr
unfolding start_connecting all_raw
connect_each now [] m = (m, [])
connect_each now ((pid, p) ∷ l) m =
    let (m', addrs) = connect_each now l (start_connecting now pid p m) in
    (m', all_raw p.multiaddrs ++ addrs)

unfoldable pub connect_now : ℕ → List (PeerId × Peer) → PeerManager → PeerManager
unfolding connect_each send
connect_now now [] m = m
connect_now now (x ∷ l) m = let (m', addrs) = connect_each now (x ∷ l) m in send (connect addrs) m'

-- Those of the book that may be dialled.
unfoldable pub dialled : List PeerId → PeerManager → List (PeerId × Peer)
unfolding is_dialled
dialled [] m = []
dialled (pid ∷ pids) m =
    let rest = dialled pids m in
    elim (peer pid m) [
      | none ↦ rest
      | some p ↦ if is_dialled m.config p then (pid, p) ∷ rest else rest
    ]

unfoldable pub connect_peers_by_id : ℕ → List PeerId → PeerManager → PeerManager
unfolding dialled connect_now
connect_peers_by_id now pids m = connect_now now (dialled pids m) m

unfoldable pub discover_multiaddr : World → Multiaddr → PeerManager → PeerManager
unfolding extract_id insert_addrs new_peer
discover_multiaddr w ma m = elim (extract_id w ma) [
  | none ↦ m
  | some pid ↦
      if nat_beq pid m.peer_id
      then m
      else let p = get_or (peer pid m) (new_peer pid) in
        add_peer pid (record p { multiaddrs = insert_addrs (ma ∷ []) p.multiaddrs }) m
]

unfoldable pub discover_all : World → List Multiaddr → PeerManager → PeerManager
unfolding discover_multiaddr
discover_all w [] m = m
discover_all w (ma ∷ l) m = discover_all w l (discover_multiaddr w ma m)

unfoldable pub with_id : PeerId → List Multiaddr → List Multiaddr
with_id pid [] = []
with_id pid (ma ∷ l) = peer_multiaddr ma pid ∷ with_id pid l

unfoldable pub learn_addrs : List Multiaddr → Peer → Peer
unfolding insert_addrs
learn_addrs l p = record p { multiaddrs = insert_addrs l p.multiaddrs }

unfoldable pub on_identified_addrs : PeerId → List Multiaddr → PeerManager → PeerManager
unfolding change_peer with_id learn_addrs
on_identified_addrs pid addrs m = change_peer pid (learn_addrs (with_id pid addrs)) m

unfoldable pub find_unidentified : SessionId → List UnidentifiedSession → Option UnidentifiedSession
find_unidentified sid [] = none
find_unidentified sid (u ∷ l) = if nat_beq u.ctx.id sid then some u else find_unidentified sid l

-- The peer of a session of the backlog, or of the book.
unfoldable pub peer_of_session : World → SessionId → PeerManager → Option PeerId
unfolding find_unidentified find_session
peer_of_session w sid m = elim (find_unidentified sid m.unidentified_backlog) [
  | some u ↦ some (w.peer_id_of u.pubkey)
  | none ↦ elim (session sid m) [ none ↦ none | some s ↦ some s.peer ]
]

unfoldable pub repeated_addr : SessionType → Multiaddr → Peer → Peer
unfolding remove_addr reset_failure
repeated_addr inbound ma p = record p { multiaddrs = remove_addr ma p.multiaddrs }
repeated_addr outbound ma p = record p { multiaddrs = reset_failure ma p.multiaddrs }

unfoldable pub on_repeated_connection :
    World → SessionType → SessionId → Multiaddr → PeerManager → PeerManager
unfolding peer_of_session change_peer repeated_addr
on_repeated_connection w ty sid ma m = elim (peer_of_session w sid m) [
  | none ↦ m
  | some pid ↦ change_peer pid (repeated_addr ty (peer_multiaddr ma pid)) m
]

unfoldable pub add_listen : Multiaddr → PeerManager → PeerManager
add_listen ma m = record m { listen = if member ma m.listen then m.listen else ma ∷ m.listen }

unfoldable pub remove_listen : Multiaddr → PeerManager → PeerManager
unfolding without
remove_listen ma m = record m { listen = without ma m.listen }

unfoldable pub process_event : World → PeerManagerEvent → PeerManager → PeerManager
unfolding connect_peers_by_id on_connect_failed on_new_session new_unidentified_session
    on_repeated_connection on_session_blocked on_session_closed on_session_failed update_peer_alive
    peer_misbehave trust_metric_feedback discover_all on_identified_addrs add_listen remove_listen
process_event w (connect_peers_now pids) m = connect_peers_by_id w.now pids m
process_event w (connect_failed addr kind) m = on_connect_failed w addr kind m
process_event w (new_session pubkey ctx) m = on_new_session w pubkey ctx m
process_event w (unidentified_session pubkey ctx) m = new_unidentified_session w pubkey ctx m
process_event w (repeated_connection ty sid addr) m = on_repeated_connection w ty sid addr m
process_event w (session_blocked ctx) m = on_session_blocked w ctx m
process_event w (session_closed pid sid) m = on_session_closed w pid sid m
process_event w (session_failed sid kind) m = on_session_failed w sid kind m
process_event w (peer_alive pid) m = update_peer_alive w pid m
process_event w (misbehave pid kind) m = peer_misbehave w pid kind m
process_event w (trust_metric pid feedback) m = trust_metric_feedback w pid feedback m
process_event w (discover_multi_addrs addrs) m = discover_all w addrs m
process_event w (identified_addrs pid addrs) m = on_identified_addrs pid addrs m
process_event w (add_new_listen_addr addr) m = add_listen (peer_multiaddr addr m.peer_id) m
process_event w (remove_listen_addr addr) m = remove_listen (peer_multiaddr addr m.peer_id) m
