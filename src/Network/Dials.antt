-- ===== src/Network/Dials.antt =====
-- What each event of the peer manager keeps (core/network/src/peer_manager/mod.rs): the events that
-- dial and that bring addresses, and the parts of a poll.
use muta.Prelude.{
  All, List, Option-cases, [], get_or, if_cases, inl, inr, list_cases, list_eq, nat_beq, nat_eq,
  option_cases, refl, ℕ, ◌∷◌, ◌≢◌,
}
use muta.Network.Types.{
  ConnectionErrorKind, Multiaddr, PeerId, SessionId, SessionType, dns_resolver, inbound, io,
  multiaddr_not_supported, outbound, peer_id_not_match, peer_multiaddr, protocol_eq,
  protocol_handle, secio_handshake, time_out,
}
use muta.Network.Peers.{
  Connectedness, Peer, can_connect, connected, connecting, new_peer, same_connectedness,
  unconnectable,
}
use muta.Network.Sessions.{Session}
use muta.Network.Manager.{
  ConnectingAttempt, PeerManager, World, add_peer, peer, send, stop_connecting,
}
use muta.Network.Events.{inc_retry, set_connectedness}
use muta.Network.Dialling.{
  attempt_failed, complete_attempt, connect_each, connect_now, connect_peers_by_id, dialled,
  discover_all, discover_multiaddr, extract_id, fail_peer, failed_addr, find_attempt, is_dialled,
  learn_addrs, on_connect_failed, on_identified_addrs, on_repeated_connection, peer_of_session,
  repeated_addr, start_connecting, with_id, without,
}
use muta.Network.Linked.{IsParted, IsSafe, IsSettled, parted-IsSettled, safe-IsSettled}
use muta.Network.Sound.{Stands, add_settled, change_safe}
use muta.Network.PreCheck.{self-IsSafe}

set_connectedness-IsSafe :
    (flag : Connectedness) (p q : Peer)
    → flag ≢ connected
    → IsSafe p q
    → IsSafe (set_connectedness flag p) q
unfolding set_connectedness
set_connectedness-IsSafe flag p q apart h = record {
  same = h.same;
  still = λ e. let no : ⊥ = apart e in elim no [ ];
}

failed_addr-IsSafe :
    (kind : ConnectionErrorKind) (ma : Multiaddr) (p : Peer) → IsSafe (failed_addr kind ma p) p
unfolding failed_addr
failed_addr-IsSafe io ma p = record { same = inl refl; still = λ h. (h, refl) }
failed_addr-IsSafe dns_resolver ma p = record { same = inl refl; still = λ h. (h, refl) }
failed_addr-IsSafe multiaddr_not_supported ma p = record { same = inl refl; still = λ h. (h, refl) }
failed_addr-IsSafe peer_id_not_match ma p = record { same = inl refl; still = λ h. (h, refl) }
failed_addr-IsSafe time_out ma p = record { same = inl refl; still = λ h. (h, refl) }
failed_addr-IsSafe secio_handshake ma p =
    set_connectedness-IsSafe unconnectable p p (λ e. cc) (self-IsSafe p)
failed_addr-IsSafe protocol_handle ma p =
    set_connectedness-IsSafe unconnectable p p (λ e. cc) (self-IsSafe p)

attempt_failed-IsSafe : (now : ℕ) (p : Peer) → IsSafe (attempt_failed now p) p
unfolding attempt_failed inc_retry
attempt_failed-IsSafe now p =
    let h : IsSafe (set_connectedness can_connect (inc_retry now p)) p =
      set_connectedness-IsSafe can_connect (inc_retry now p) p (λ e. cc)
        (record { same = inl refl; still = λ e. (e, refl) }) in
    if_cases (λ (q : Peer). IsSafe q p) _ _ _
      (λ e.
        set_connectedness-IsSafe unconnectable (set_connectedness can_connect (inc_retry now p)) p
          (λ k. cc) h)
      (λ e. h)

complete_attempt-Stands :
    (now : ℕ) (pid : PeerId) (ma : Multiaddr) (p : Peer) (a : ConnectingAttempt) (m : PeerManager)
    → IsSettled m.sessions.sessions pid p
    → Stands m
    → Stands (complete_attempt now pid ma p a m)
unfolding complete_attempt
complete_attempt-Stands now pid ma p a m h s =
    if_cases Stands (same_connectedness p.connectedness unconnectable) _ _ (λ e. s)
      (λ e.
        list_cases Stands (without ma a.multiaddrs) _ _
          (add_settled pid (attempt_failed now p) m
            (safe-IsSettled m.sessions.sessions pid (attempt_failed now p) p
              (attempt_failed-IsSafe now p) h)
            s)
          (λ x l. s))

fail_peer-Stands :
    (w : World) (pid : PeerId) (ma : Multiaddr) (kind : ConnectionErrorKind) (p : Peer)
    (m : PeerManager)
    → IsSettled m.sessions.sessions pid p
    → Stands m
    → Stands (fail_peer w pid ma kind p m)
unfolding fail_peer stop_connecting
fail_peer-Stands w pid ma kind p m h s =
    let q = failed_addr kind ma p in
    let k : IsSettled m.sessions.sessions pid q =
      safe-IsSettled m.sessions.sessions pid q p (failed_addr-IsSafe kind ma p) h in
    option_cases Stands (find_attempt pid m.connecting_attempts) _ _ (λ e. add_settled pid q m k s)
      (λ a e.
        complete_attempt-Stands w.now pid ma q a (stop_connecting pid (add_peer pid q m)) k
          (add_settled pid q m k s))

pub on_connect_failed-Stands :
    (w : World) (ma : Multiaddr) (kind : ConnectionErrorKind) (m : PeerManager)
    → Stands m
    → Stands (on_connect_failed w ma kind m)
unfolding on_connect_failed
on_connect_failed-Stands w ma kind m s =
    option_cases Stands (extract_id w ma) m _ (λ e. s)
      (λ pid e.
        option_cases Stands (peer pid m) m _ (λ k. s)
          (λ p k. fail_peer-Stands w pid ma kind p m (s.linked.settled pid p k) s))

-- Every peer of the list is settled.
abbrev AreSettled : List Session → List (PeerId × Peer) → Type 0
AreSettled ss = All (λ (x : PeerId × Peer). IsSettled ss x.0 x.1)

start_connecting-Stands :
    (now : ℕ) (pid : PeerId) (p : Peer) (m : PeerManager)
    → IsSettled m.sessions.sessions pid p
    → Stands m
    → Stands (start_connecting now pid p m)
unfolding start_connecting
start_connecting-Stands now pid p m h s =
    add_settled pid (set_connectedness connecting p) m
      (safe-IsSettled m.sessions.sessions pid (set_connectedness connecting p) p
        (set_connectedness-IsSafe connecting p p (λ e. cc) (self-IsSafe p)) h)
      s

connect_each-Stands :
    (now : ℕ) (l : List (PeerId × Peer)) (m : PeerManager)
    → AreSettled m.sessions.sessions l
    → Stands m
    → Stands (connect_each now l m).0
unfolding connect_each start_connecting
connect_each-Stands now [] m h s = s
connect_each-Stands now ((pid, p) ∷ l) m h s =
    connect_each-Stands now l (start_connecting now pid p m) h.1
      (start_connecting-Stands now pid p m h.0 s)

dialled-AreSettled :
    (pids : List PeerId) (m : PeerManager)
    → Stands m
    → AreSettled m.sessions.sessions (dialled pids m)
unfolding dialled
dialled-AreSettled [] m s = tt
dialled-AreSettled (pid ∷ pids) m s =
    option_cases (AreSettled m.sessions.sessions) (peer pid m) _ _
      (λ e. dialled-AreSettled pids m s)
      (λ p e.
        if_cases (AreSettled m.sessions.sessions) (is_dialled m.config p) _ _
          (λ k. (s.linked.settled pid p e, dialled-AreSettled pids m s))
          (λ k. dialled-AreSettled pids m s))

connect_now-Stands :
    (now : ℕ) (l : List (PeerId × Peer)) (m : PeerManager)
    → AreSettled m.sessions.sessions l
    → Stands m
    → Stands (connect_now now l m)
unfolding connect_now send
connect_now-Stands now [] m h s = s
connect_now-Stands now (x ∷ l) m h s = connect_each-Stands now (x ∷ l) m h s

pub connect_peers_by_id-Stands :
    (now : ℕ) (pids : List PeerId) (m : PeerManager)
    → Stands m
    → Stands (connect_peers_by_id now pids m)
unfolding connect_peers_by_id
connect_peers_by_id-Stands now pids m s =
    connect_now-Stands now (dialled pids m) m (dialled-AreSettled pids m s) s

new_peer-IsParted : (pid : PeerId) → IsParted (new_peer pid)
unfolding new_peer
new_peer-IsParted pid = record { none_held = refl; not_connected = λ e. cc }

pub known_or_new-IsSettled :
    (pid : PeerId) (m : PeerManager)
    → Stands m
    → IsSettled m.sessions.sessions pid (get_or (peer pid m) (new_peer pid))
known_or_new-IsSettled pid m s = elim (Option-cases (peer pid m)) [
  | inl e ↦ rw e (parted-IsSettled m.sessions.sessions pid (new_peer pid) (new_peer-IsParted pid))
  | inr (p, e) ↦ rw e (s.linked.settled pid p e)
]

discover_multiaddr-Stands :
    (w : World) (ma : Multiaddr) (m : PeerManager) → Stands m → Stands (discover_multiaddr w ma m)
unfolding discover_multiaddr
discover_multiaddr-Stands w ma m s =
    option_cases Stands (extract_id w ma) m _ (λ e. s)
      (λ pid e.
        if_cases Stands (nat_beq pid m.peer_id) _ _ (λ k. s)
          (λ k.
            let h = known_or_new-IsSettled pid m s in
            add_settled pid _ m (record { owned = h.owned; held = h.held }) s))

pub discover_all-Stands :
    (w : World) (l : List Multiaddr) (m : PeerManager) → Stands m → Stands (discover_all w l m)
unfolding discover_all
discover_all-Stands w [] m s = s
discover_all-Stands w (ma ∷ l) m s =
    discover_all-Stands w l (discover_multiaddr w ma m) (discover_multiaddr-Stands w ma m s)

pub on_identified_addrs-Stands :
    (pid : PeerId) (l : List Multiaddr) (m : PeerManager)
    → Stands m
    → Stands (on_identified_addrs pid l m)
unfolding on_identified_addrs learn_addrs
on_identified_addrs-Stands pid l m s =
    change_safe pid (learn_addrs (with_id pid l)) m
      (λ p. record { same = inl refl; still = λ h. (h, refl) }) s

repeated_addr-IsSafe :
    (ty : SessionType) (ma : Multiaddr) (p : Peer) → IsSafe (repeated_addr ty ma p) p
unfolding repeated_addr
repeated_addr-IsSafe inbound ma p = record { same = inl refl; still = λ h. (h, refl) }
repeated_addr-IsSafe outbound ma p = record { same = inl refl; still = λ h. (h, refl) }

pub on_repeated_connection-Stands :
    (w : World) (ty : SessionType) (sid : SessionId) (ma : Multiaddr) (m : PeerManager)
    → Stands m
    → Stands (on_repeated_connection w ty sid ma m)
unfolding on_repeated_connection
on_repeated_connection-Stands w ty sid ma m s =
    option_cases Stands (peer_of_session w sid m) m _ (λ e. s)
      (λ pid e.
        change_safe pid (repeated_addr ty (peer_multiaddr ma pid)) m
          (repeated_addr-IsSafe ty (peer_multiaddr ma pid)) s)
