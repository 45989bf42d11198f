-- ===== src/Network/Routine.antt =====
-- One poll of the peer manager (core/network/src/peer_manager/mod.rs, the `Future` of
-- `PeerManager`): the backlog of unidentified sessions, the events, the attempts that took too long,
-- and new attempts where connections are missing.
use muta.Prelude.{
  Bool, Dict, List, [], false, if◌then◌else◌, leb, length, ltb, nat_eq, none, not, some, true, ℕ,
  ◌&&◌, ◌++◌, ◌+◌, ◌-◌, ◌||◌, ◌∷◌,
}
use muta.Network.Types.{Multiaddr, PeerId, PeerManagerEvent, SessionId, new_session, time_out}
use muta.Network.Retry.{ready}
use muta.Network.Addrs.{connectable_len}
use muta.Network.Peers.{
  Peer, banned, can_connect, mark_disconnected, not_connected, same_connectedness,
}
use muta.Network.Manager.{
  ConnectingAttempt, PeerManager, UnidentifiedSession, World, add_peer, disconnect_session, peer,
}
use muta.Network.Events.{change_peer, insert_unidentified}
use muta.Network.Events.{change_peer, insert_unidentified}
use muta.Network.Dialling.{connect_peers_by_id, on_connect_failed, process_event}

abbrev pub max_connecting_timeout : ℕ
max_connecting_timeout = 30

abbrev pub max_connecting_margin : ℕ
max_connecting_margin = 10

abbrev pub good_trust_score : ℕ
good_trust_score = 80

abbrev pub identify_timeout : ℕ
identify_timeout = 8

-- What the identification of a session has come to.
pub data Identification : Type 0 where
  pending identified failed : Identification

unfoldable pub peer_ids : Dict PeerId Peer → List PeerId
peer_ids [] = []
peer_ids ((pid, p) ∷ peers) = pid ∷ peer_ids peers

unfoldable pub connection_attempts : PeerManager → ℕ
connection_attempts m = m.sessions.outbound_count + length m.connecting_attempts

unfoldable pub max_attempts : PeerManager → ℕ
max_attempts m = m.config.outbound_conn_limit + max_connecting_margin

unfoldable pub wants_more : PeerManager → Bool
unfolding connection_attempts max_attempts
wants_more m =
    ltb (length m.sessions.sessions) m.config.max_connections
    && ltb m.sessions.outbound_count m.config.outbound_conn_limit
    && ltb (connection_attempts m) (max_attempts m)

module _ (w : World) where
  unfoldable pub reject_unidentified : UnidentifiedSession → PeerManager → PeerManager
  unfolding disconnect_session change_peer mark_disconnected
  reject_unidentified u m =
      change_peer (w.peer_id_of u.pubkey) (mark_disconnected w.now) (disconnect_session u.ctx.id m)

  unfoldable pub process_unidentified :
      Identification → UnidentifiedSession → PeerManager → PeerManager
  unfolding reject_unidentified process_event insert_unidentified
  process_unidentified pending u m =
      if leb identify_timeout (w.now - u.connected_at)
      then reject_unidentified u m
      else record m { unidentified_backlog = insert_unidentified u m.unidentified_backlog }
  process_unidentified identified u m = process_event w (new_session u.pubkey u.ctx) m
  process_unidentified failed u m = reject_unidentified u m

  unfoldable pub process_backlog :
      (SessionId → Identification) → List UnidentifiedSession → PeerManager → PeerManager
  unfolding process_unidentified
  process_backlog ident [] m = m
  process_backlog ident (u ∷ l) m =
      process_backlog ident l (process_unidentified (ident u.ctx.id) u m)

  unfoldable pub process_events : List PeerManagerEvent → PeerManager → PeerManager
  unfolding process_event
  process_events [] m = m
  process_events (e ∷ l) m = process_events l (process_event w e m)

  unfoldable pub timed_out : List ConnectingAttempt → List Multiaddr
  timed_out [] = []
  timed_out (a ∷ l) =
      let rest = timed_out l in
      if leb max_connecting_timeout (w.now - a.at) then a.multiaddrs ++ rest else rest

  unfoldable pub fail_all : List Multiaddr → PeerManager → PeerManager
  unfolding on_connect_failed
  fail_all [] m = m
  fail_all (ma ∷ l) m = fail_all l (on_connect_failed w ma time_out m)

  unfoldable pub is_good : Peer → Bool
  is_good p = elim p.trust_metric [ none ↦ false | some t ↦ ltb good_trust_score (w.trust_score t) ]

  -- The ban is looked at, and taken off where it is over, only if the tests before it hold.
  unfoldable pub qualify : (Peer → Bool) → Peer → Peer × Bool
  unfolding same_connectedness ready connectable_len banned
  qualify addition_filter p =
      if (same_connectedness p.connectedness not_connected
          || same_connectedness p.connectedness can_connect)
        && ready w.now p.retry
        && ltb 0 (connectable_len p.multiaddrs)
      then (let (q, is_banned) = banned w.now p in (q, not is_banned && addition_filter q))
      else (p, false)

  unfoldable pub qualified_of :
      (Peer → Bool) → List PeerId → PeerManager → PeerManager × List PeerId
  unfolding qualify
  qualified_of addition_filter [] m = (m, [])
  qualified_of addition_filter (pid ∷ pids) m = elim (peer pid m) [
    | none ↦ qualified_of addition_filter pids m
    | some p ↦
        let (q, passes) = qualify addition_filter p in
        let (m', rest) = qualified_of addition_filter pids (add_peer pid q m) in
        (m', if passes then pid ∷ rest else rest)
  ]

  unfoldable pub connectable_peers : ℕ → (Peer → Bool) → PeerManager → PeerManager × List PeerId
  unfolding qualified_of peer_ids
  connectable_peers max addition_filter m =
      let (m', pids) = qualified_of addition_filter (peer_ids m.peers) m in
      (m', w.choose_multiple max pids)

  -- Peers with a good score, or else any.
  unfoldable pub connect_more : ℕ → PeerManager → PeerManager
  unfolding connectable_peers connect_peers_by_id is_good
  connect_more remain m =
      let (m₁, best) = connectable_peers remain is_good m in
      elim best [
        | pid ∷ pids ↦ connect_peers_by_id w.now (pid ∷ pids) m₁
        | [] ↦
            let (m₂, enough) = connectable_peers remain (λ p. true) m₁ in
            connect_peers_by_id w.now enough m₂
      ]

  unfoldable pub fill_connections : PeerManager → PeerManager
  unfolding wants_more connect_more max_attempts connection_attempts
  fill_connections m =
      if wants_more m then connect_more (max_attempts m - connection_attempts m) m else m

  unfoldable pub fail_timed_out : PeerManager → PeerManager
  unfolding timed_out fail_all
  fail_timed_out m = fail_all (timed_out m.connecting_attempts) m

  unfoldable pub poll :
      (SessionId → Identification) → List PeerManagerEvent → PeerManager → PeerManager
  unfolding process_backlog process_events fail_timed_out fill_connections
  poll ident events m = fill_connections (
      fail_timed_out (
        process_events events
          (process_backlog ident m.unidentified_backlog (record m { unidentified_backlog = [] }))))
