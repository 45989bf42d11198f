-- ===== src/Network/Tests.antt =====
-- Small runs of the peer manager (core/network/src/peer_manager).
use muta.Prelude.{
  All, List, [], arith, false, is_some, leb, length, nat_eq, none, refl, some, take, true, ◌+◌, ◌∷◌,
  ◌≡◌, ◌≤◌,
}
use muta.Network.Types.{
  PeerId, SessionContext, SessionId, connected_addr, disconnect, inbound, ip4, new_session,
  session_closed, tcp,
}
use muta.Network.Retry.{
  backoff, eta, inc_until, max_retry_interval, new_retry, repeated_connection_timeout,
}
use muta.Network.Tags.{ban, banned_for, get_banned_until, is_privileged}
use muta.Network.Peers.{Peer, connected, new_metric, new_peer}
use muta.Network.Sessions.{BookConfig, find_session, new_book}
use muta.Network.Start.{start_manager, start_manager-starts}
use muta.Network.Manager.{ManagerConfig, PeerManager, World, new_manager}
use muta.Network.Dialling.{process_event}
use muta.Network.Handle.{connected_sessions}
use muta.Network.Sound.{IsSound}
use muta.Network.Steps.{IsFresh}
use muta.Network.Reached.{IsReached, handles, reached-IsSound, starts}
use muta.Network.Addressed.{IsOwned, IsSplit, connected_sessions-IsOwned}
use muta.Network.Waits.{inc_until-waits}
use muta.Network.Bans.{banned_for-until}

-- Second 1000; the id of the peer with key k is k + 100.
abbrev world : World
world = record {
  now = 1000;
  random = 5;
  choose_multiple = λ n l. take n l;
  peer_id_of = λ k. k + 100;
  is_peer_id = λ id. true;
  to_string = λ ma. 0;
  trust_score = λ t. 90;
}

abbrev limits : BookConfig
limits = record { same_ip_conn_limit = 1; inbound_conn_limit = 2; outbound_conn_limit = 2 }

abbrev config : ManagerConfig
config = record {
  allowlist_only = false;
  outbound_conn_limit = 2;
  trust_interval = 60;
  peer_fatal_ban = 3600;
  peer_soft_ban = 600;
  max_connections = 3;
}

abbrev empty_manager : PeerManager
empty_manager = new_manager config limits 9

-- Sessions 1 and 2 come from one host.
abbrev context : SessionId → SessionContext
context sid = record { id = sid; address = ip4 7 ∷ tcp (8000 + sid) ∷ []; ty = inbound }

abbrev two_peers : List PeerId
two_peers = 101 ∷ 102 ∷ []

abbrev connected_manager : PeerManager
connected_manager = process_event world (new_session 1 (context 1)) empty_manager

abbrev closed_manager : PeerManager
closed_manager = process_event world (session_closed 101 1) connected_manager

empty_manager-IsFresh : IsFresh (context 1) empty_manager
unfolding new_manager new_book find_session
empty_manager-IsFresh = record { unused = refl; positive = omega arith; room = omega arith }

connected_manager-IsReached : IsReached config limits 9 connected_manager
connected_manager-IsReached =
    handles world (new_session 1 (context 1)) empty_manager empty_manager-IsFresh starts

closed_manager-IsReached : IsReached config limits 9 closed_manager
closed_manager-IsReached =
    handles world (session_closed 101 1) connected_manager tt connected_manager-IsReached

reached-IsSound_example : IsSound closed_manager.sessions closed_manager.peers
reached-IsSound_example = reached-IsSound config limits 9 closed_manager closed_manager-IsReached

connected_counts : connected_manager.sessions.inbound_count ≡ 1
unfolding process_event new_manager
connected_counts = refl

closed_counts : closed_manager.sessions.inbound_count ≡ 0
unfolding process_event new_manager
closed_counts = refl

-- The host of session 1 has its one session: a second peer from there is refused and banned.
second_is_refused :
    (process_event world (new_session 2 (context 2)) connected_manager).sent ≡ disconnect 2 ∷ []
unfolding process_event new_manager connected_addr
second_is_refused = refl

connected_sessions-IsOwned_example :
    All
      (IsOwned connected_manager.sessions.sessions two_peers)
      (connected_sessions two_peers connected_manager).0
    × IsSplit connected_manager two_peers
        (connected_sessions two_peers connected_manager).0
        (connected_sessions two_peers connected_manager).1
connected_sessions-IsOwned_example =
    connected_sessions-IsOwned config limits 9 connected_manager two_peers
      connected_manager-IsReached

addressed : connected_sessions two_peers connected_manager ≡ (1 ∷ [], 102 ∷ [])
unfolding connected_sessions process_event new_manager
addressed = refl

abbrev good_peer : Peer
good_peer = record (new_peer 102) { trust_metric = some (record new_metric { good_events = 5 }) }

-- Full with the session of peer 101, which has been there for long and has no good events; peer 102
-- has five.
abbrev full_manager : PeerManager
full_manager = record connected_manager {
  config = record config { max_connections = 1 };
  peers =
      (
        101,
        record (new_peer 101) {
          trust_metric = some new_metric;
          connectedness = connected;
          session_id = 1;
          alive = 2000;
        },
      )
      ∷ (102, good_peer)
      ∷ [];
}

abbrev scoring_world : World
scoring_world = record world { trust_score = λ t. t.good_events }

abbrev other_host : SessionContext
other_host = record { id = 2; address = ip4 8 ∷ tcp 8002 ∷ []; ty = inbound }

abbrev made_room : PeerManager
made_room = record full_manager { sent = disconnect 1 ∷ full_manager.sent }

inc_until-waits_example :
    (repeated_connection_timeout ≤ eta 1000 (inc_until 256 1000 (new_retry 30)))
    × (eta 1000 (inc_until 256 1000 (new_retry 30)) ≤ max_retry_interval)
unfolding new_retry eta
inc_until-waits_example =
    inc_until-waits 1000 (new_retry 30) (omega arith) (omega arith) (omega arith)

-- Five failures are noted.
five_rounds : (inc_until 256 1000 (new_retry 30)).count ≡ 5
unfolding inc_until new_retry
five_rounds = refl

-- After 63 failures the next one overflows the power, and the wait is gone.
overflowing_wait : backoff 64 ≡ 0
unfolding backoff
overflowing_wait = refl

-- A fatal ban of an hour while a ban of two seconds runs: the two seconds stay.
banned_for-until_example : get_banned_until (banned_for 1000 3600 (ban 1002 ∷ [])) ≡ some 1002
unfolding is_privileged get_banned_until
banned_for-until_example = banned_for-until 1000 3600 (ban 1002 ∷ [])

start_manager-starts_example :
    is_some (start_manager config limits 9 two_peers) ≡ leb (length two_peers) 1
start_manager-starts_example = start_manager-starts config limits 9 two_peers

-- Two allowed peers: the second iteration panics.
two_allowed : start_manager config limits 9 two_peers ≡ none
unfolding start_manager
two_allowed = refl
