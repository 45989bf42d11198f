-- ===== src/Network/Reached.antt =====
-- The managers that a run reaches: the events, the parts of a poll and the calls on the handle, in any
-- order and at any times (core/network/src/peer_manager/mod.rs).
use muta.Prelude.{
  Bool, List, [], arith, if_cases, list_cases, nat_eq, option_cases, refl, true, ℕ, ◌-◌, ◌<◌, ◌∷◌,
}
use muta.Protocol.{u64_mod}
use muta.Network.Types.{
  Multiaddr, PeerId, PeerManagerEvent, SessionId, add_new_listen_addr, connect_failed,
  connect_peers_now, discover_multi_addrs, identified_addrs, misbehave, new_session, peer_alive,
  remove_listen_addr, repeated_connection, session_blocked, session_closed, session_failed,
  time_out, trust_metric, unidentified_session,
}
use muta.Network.Peers.{Peer, mark_disconnected, new_peer}
use muta.Network.Sessions.{BookConfig, new_book}
use muta.Network.Start.{allowed_peer}
use muta.Network.Manager.{
  ManagerConfig, PeerManager, UnidentifiedSession, World, add_peer, disconnect_session, new_manager,
  peer, send,
}
use muta.Network.Dialling.{add_listen, on_connect_failed, process_event, remove_listen}
use muta.Network.Routine.{
  Identification, connect_more, connectable_peers, connection_attempts, fail_all, fail_timed_out,
  failed, fill_connections, identified, is_good, max_attempts, peer_ids, pending,
  process_unidentified, qualified_of, qualify, reject_unidentified, timed_out, wants_more,
}
use muta.Network.Handle.{
  SharedConfig, manager_or, refresh_blocked, tag_consensus, tag_peer, untag_peer,
}
use muta.Network.Handled.{
  refresh_blocked-Stands, tag_consensus-Stands, tag_peer-Stands, untag_peer-Stands,
}
use muta.Network.Linked.{IsParted, IsSafe}
use muta.Network.Counted.{count_host, count_type}
use muta.Network.Sound.{IsSound, Stands, add_parted, add_safe, change_parted}
use muta.Network.PreCheck.{banned-IsSafe, mark_disconnected-IsParted, self-IsSafe}
use muta.Network.Steps.{
  IsFresh, new_unidentified_session-Stands, on_new_session-Stands, on_session_closed-Stands,
  on_session_failed-Stands,
}
use muta.Network.Blames.{
  on_session_blocked-Stands, peer_misbehave-Stands, trust_metric_feedback-Stands,
  update_peer_alive-Stands,
}
use muta.Network.Dials.{
  connect_peers_by_id-Stands, discover_all-Stands, on_connect_failed-Stands,
  on_identified_addrs-Stands, on_repeated_connection-Stands,
}
use muta.Network.Tags.{PeerTag}

-- What the transport keeps to: a session that opens is fresh.
abbrev pub IsOpenable : PeerManagerEvent → PeerManager → Type 0
IsOpenable (new_session pubkey ctx) m = IsFresh ctx m
IsOpenable e m = Unit

abbrev pub IsIdentifiable : Identification → UnidentifiedSession → PeerManager → Type 0
IsIdentifiable identified u m = IsFresh u.ctx m
IsIdentifiable pending u m = Unit
IsIdentifiable failed u m = Unit

pub data IsReached (config : ManagerConfig) (book : BookConfig) (our_id : PeerId)
    : PeerManager → Type 0 where
  starts : IsReached config book our_id (new_manager config book our_id)
  allows :
      (pid : PeerId)
      → IsReached config book our_id
          (add_peer pid (allowed_peer pid) (new_manager config book our_id))
  handles :
      (w : World) (e : PeerManagerEvent) (m : PeerManager)
      → IsOpenable e m
      → IsReached config book our_id m
      → IsReached config book our_id (process_event w e m)
  drains :
      (m : PeerManager)
      → IsReached config book our_id m
      → IsReached config book our_id (record m { unidentified_backlog = [] })
  identifies :
      (w : World) (i : Identification) (u : UnidentifiedSession) (m : PeerManager)
      → IsIdentifiable i u m
      → IsReached config book our_id m
      → IsReached config book our_id (process_unidentified w i u m)
  times_out :
      (w : World) (m : PeerManager)
      → IsReached config book our_id m
      → IsReached config book our_id (fail_timed_out w m)
  fills :
      (w : World) (m : PeerManager)
      → IsReached config book our_id m
      → IsReached config book our_id (fill_connections w m)
  tags :
      (pid : PeerId) (tag : PeerTag) (m : PeerManager)
      → IsReached config book our_id m
      → IsReached config book our_id (manager_or m (tag_peer pid tag m))
  untags :
      (pid : PeerId) (tag : PeerTag) (m : PeerManager)
      → IsReached config book our_id m
      → IsReached config book our_id (untag_peer pid tag m)
  tags_consensus :
      (pids : List PeerId) (m : PeerManager)
      → IsReached config book our_id m
      → IsReached config book our_id (tag_consensus pids m)
  refreshes :
      (c : SharedConfig) (pending_data_size : SessionId → ℕ) (m : PeerManager)
      → IsReached config book our_id m
      → IsReached config book our_id (refresh_blocked c pending_data_size m)

new_manager-Stands :
    (config : ManagerConfig) (book : BookConfig) (our_id : PeerId)
    → 0 < u64_mod
    → Stands (new_manager config book our_id)
unfolding new_manager new_book count_type count_host
new_manager-Stands config book our_id positive = record {
  linked = record { settled = λ pid p e. let no : ⊥ = cc e in elim no [ ] };
  counted = record {
    inbound_exact = refl;
    outbound_exact = refl;
    hosts_exact = λ host. refl;
    few = positive;
  };
}

allowed_peer-IsParted : (pid : PeerId) → IsParted (allowed_peer pid)
unfolding allowed_peer new_peer
allowed_peer-IsParted pid = record { none_held = refl; not_connected = λ e. cc }

process_event-Stands :
    (w : World) (e : PeerManagerEvent) (m : PeerManager)
    → IsOpenable e m
    → Stands m
    → Stands (process_event w e m)
unfolding process_event add_listen remove_listen
process_event-Stands w (connect_peers_now pids) m h s = connect_peers_by_id-Stands w.now pids m s
process_event-Stands w (connect_failed addr kind) m h s = on_connect_failed-Stands w addr kind m s
process_event-Stands w (new_session pubkey ctx) m h s = on_new_session-Stands w pubkey ctx m h s
process_event-Stands w (unidentified_session pubkey ctx) m h s =
    new_unidentified_session-Stands w pubkey ctx m s
process_event-Stands w (repeated_connection ty sid addr) m h s =
    on_repeated_connection-Stands w ty sid addr m s
process_event-Stands w (session_blocked ctx) m h s = on_session_blocked-Stands w ctx m s
process_event-Stands w (session_closed pid sid) m h s = on_session_closed-Stands w pid sid m s
process_event-Stands w (session_failed sid kind) m h s = on_session_failed-Stands w sid kind m s
process_event-Stands w (peer_alive pid) m h s = update_peer_alive-Stands w pid m s
process_event-Stands w (misbehave pid kind) m h s = peer_misbehave-Stands w pid kind m s
process_event-Stands w (trust_metric pid feedback) m h s =
    trust_metric_feedback-Stands w pid feedback m s
process_event-Stands w (discover_multi_addrs addrs) m h s = discover_all-Stands w addrs m s
process_event-Stands w (identified_addrs pid addrs) m h s = on_identified_addrs-Stands pid addrs m s
process_event-Stands w (add_new_listen_addr addr) m h s = s
process_event-Stands w (remove_listen_addr addr) m h s = s

module _ (w : World) where
  reject_unidentified-Stands :
      (u : UnidentifiedSession) (m : PeerManager) → Stands m → Stands (reject_unidentified w u m)
  unfolding reject_unidentified disconnect_session send
  reject_unidentified-Stands u m s =
      change_parted (w.peer_id_of u.pubkey) (mark_disconnected w.now)
        (disconnect_session u.ctx.id m) (mark_disconnected-IsParted w.now) s

  process_unidentified-Stands :
      (i : Identification) (u : UnidentifiedSession) (m : PeerManager)
      → IsIdentifiable i u m
      → Stands m
      → Stands (process_unidentified w i u m)
  unfolding process_unidentified
  process_unidentified-Stands pending u m h s =
      if_cases Stands _ _ _ (λ e. reject_unidentified-Stands u m s) (λ e. s)
  process_unidentified-Stands identified u m h s =
      process_event-Stands w (new_session u.pubkey u.ctx) m h s
  process_unidentified-Stands failed u m h s = reject_unidentified-Stands u m s

  fail_all-Stands : (l : List Multiaddr) (m : PeerManager) → Stands m → Stands (fail_all w l m)
  unfolding fail_all
  fail_all-Stands [] m s = s
  fail_all-Stands (ma ∷ l) m s =
      fail_all-Stands l (on_connect_failed w ma time_out m)
        (on_connect_failed-Stands w ma time_out m s)

  qualify-IsSafe : (f : Peer → Bool) (p : Peer) → IsSafe (qualify w f p).0 p
  unfolding qualify
  qualify-IsSafe f p =
      if_cases (λ (r : Peer × Bool). IsSafe r.0 p) _ _ _
        (λ e. banned-IsSafe w.now p p (self-IsSafe p)) (λ e. self-IsSafe p)

  qualified_of-Stands :
      (f : Peer → Bool) (pids : List PeerId) (m : PeerManager)
      → Stands m
      → Stands (qualified_of w f pids m).0
  unfolding qualified_of
  qualified_of-Stands f [] m s = s
  qualified_of-Stands f (pid ∷ pids) m s =
      option_cases (λ (r : PeerManager × List PeerId). Stands r.0) (peer pid m) _ _
        (λ e. qualified_of-Stands f pids m s)
        (λ p e.
          qualified_of-Stands f pids (add_peer pid (qualify w f p).0 m)
            (add_safe pid (qualify w f p).0 p m e (qualify-IsSafe f p) s))

  connect_more-Stands : (remain : ℕ) (m : PeerManager) → Stands m → Stands (connect_more w remain m)
  unfolding connect_more connectable_peers
  connect_more-Stands remain m s =
      let good_ones = connectable_peers w remain (is_good w) m in
      let h : Stands good_ones.0 = qualified_of-Stands (is_good w) (peer_ids m.peers) m s in
      list_cases Stands good_ones.1 _ _
        (connect_peers_by_id-Stands w.now _ _
          (qualified_of-Stands (λ p. true) (peer_ids good_ones.0.peers) good_ones.0 h))
        (λ pid pids. connect_peers_by_id-Stands w.now (pid ∷ pids) good_ones.0 h)

  fill_connections-Stands : (m : PeerManager) → Stands m → Stands (fill_connections w m)
  unfolding fill_connections
  fill_connections-Stands m s =
      if_cases Stands (wants_more m) _ _
        (λ e. connect_more-Stands (max_attempts m - connection_attempts m) m s) (λ e. s)

  fail_timed_out-Stands : (m : PeerManager) → Stands m → Stands (fail_timed_out w m)
  unfolding fail_timed_out
  fail_timed_out-Stands m s = fail_all-Stands (timed_out w m.connecting_attempts) m s

-- In every manager that a run reaches, where each session that opens is fresh, the counters of the
-- session book count the open sessions, in all, by direction and by host; a peer that holds a session
-- id has the open session of that id; and a peer that is marked connected holds one.
pub reached-IsSound :
    (config : ManagerConfig) (book : BookConfig) (our_id : PeerId) (m : PeerManager)
    → IsReached config book our_id m
    → IsSound m.sessions m.peers
reached-IsSound config book our_id _ starts = new_manager-Stands config book our_id (omega arith)
reached-IsSound config book our_id _ (allows pid) =
    add_parted pid (allowed_peer pid) (new_manager config book our_id) (allowed_peer-IsParted pid)
      (new_manager-Stands config book our_id (omega arith))
reached-IsSound config book our_id _ (handles w e m h r) =
    process_event-Stands w e m h (reached-IsSound config book our_id m r)
reached-IsSound config book our_id _ (drains m r) = reached-IsSound config book our_id m r
reached-IsSound config book our_id _ (identifies w i u m h r) =
    process_unidentified-Stands w i u m h (reached-IsSound config book our_id m r)
reached-IsSound config book our_id _ (times_out w m r) =
    fail_timed_out-Stands w m (reached-IsSound config book our_id m r)
reached-IsSound config book our_id _ (fills w m r) =
    fill_connections-Stands w m (reached-IsSound config book our_id m r)
reached-IsSound config book our_id _ (tags pid tag m r) =
    tag_peer-Stands pid tag m (reached-IsSound config book our_id m r)
reached-IsSound config book our_id _ (untags pid tag m r) =
    untag_peer-Stands pid tag m (reached-IsSound config book our_id m r)
reached-IsSound config book our_id _ (tags_consensus pids m r) =
    tag_consensus-Stands pids m (reached-IsSound config book our_id m r)
reached-IsSound config book our_id _ (refreshes c size m r) =
    refresh_blocked-Stands c size m (reached-IsSound config book our_id m r)
