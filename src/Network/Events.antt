-- ===== src/Network/Events.antt =====
-- What the peer manager does at each event (core/network/src/peer_manager/mod.rs).
use muta.Prelude.{
  Bool, List, Option, [], any, err, false, if◌then◌else◌, is_some, ltb, nat_beq, nat_eq, none, not,
  ok, some, ℕ, ◌%◌, ◌&&◌, ◌∷◌,
}
use muta.Network.Types.{
  MisbehaviorKind, PeerId, PublicKey, SessionContext, SessionErrorKind, SessionId, TrustFeedback,
  bad, discovery, fatal, good, neutral, ping_timeout, ping_unexpect, protocol, session_io,
  unexpected, worse,
}
use muta.Network.Retry.{inc, inc_until, reset}
use muta.Network.Tags.{is_privileged}
use muta.Network.Peers.{
  Connectedness, Peer, add_bad_events, add_good_events, ban_peer, change_metric, knock_out_score,
  map_metric, mark_connected, mark_disconnected, new_metric, pause, set_pubkey, start,
  unconnectable, update_alive,
}
use muta.Network.Sessions.{Session, block_session, find_session, insert_session, remove_session}
use muta.Network.Manager.{
  PeerManager, UnidentifiedSession, World, add_peer, disconnect_session, new_session_pre_check,
  peer, session, stop_connecting,
}

abbrev pub short_alive_session : ℕ
short_alive_session = 3

abbrev pub max_random_next_retry : ℕ
max_random_next_retry = 10

abbrev pub worse_trust_scalar_ratio : ℕ
worse_trust_scalar_ratio = 10

-- A change of a peer of the book, if it is there.
unfoldable pub change_peer : PeerId → (Peer → Peer) → PeerManager → PeerManager
change_peer pid f m = elim (peer pid m) [ none ↦ m | some p ↦ add_peer pid (f p) m ]

unfoldable pub set_connectedness : Connectedness → Peer → Peer
set_connectedness flag p = record p { connectedness = flag }

unfoldable pub inc_retry : ℕ → Peer → Peer
unfolding inc
inc_retry now p = record p { retry = inc now p.retry }

unfoldable pub take_session : SessionId → PeerManager → Option Session × PeerManager
unfolding remove_session
take_session sid m =
    let (taken, book) = remove_session sid m.sessions in (taken, record m { sessions = book })

unfoldable pub drop_unidentified : SessionId → List UnidentifiedSession → List UnidentifiedSession
drop_unidentified sid [] = []
drop_unidentified sid (u ∷ l) =
    let rest = drop_unidentified sid l in if nat_beq u.ctx.id sid then rest else u ∷ rest

-- The peer of the session that was open, or else the one that the event names.
unfoldable pub peer_of_closed : PeerId → Option Session → PeerId
peer_of_closed pid none = pid
peer_of_closed pid (some s) = s.peer

unfoldable pub disconnect_taken : Option Session × PeerManager → PeerManager
unfolding disconnect_session
disconnect_taken (none, m) = m
disconnect_taken (some s, m) = disconnect_session s.id m

-- `HashSet::insert`: sessions of one id are equal, and a set keeps the one that it has.
unfoldable pub insert_unidentified :
    UnidentifiedSession → List UnidentifiedSession → List UnidentifiedSession
insert_unidentified u us =
    if any (λ (x : UnidentifiedSession). nat_beq x.ctx.id u.ctx.id) us then us else u ∷ us

module _ (w : World) where
  unfoldable pub new_unidentified_session : PublicKey → SessionContext → PeerManager → PeerManager
  unfolding new_session_pre_check insert_unidentified
  new_unidentified_session pubkey ctx m =
      let (m', checked) = new_session_pre_check w pubkey ctx m in
      elim checked [
        | err e ↦ m'
        | ok r ↦
            let u : UnidentifiedSession = record {
              pubkey = pubkey;
              ctx = ctx;
              connected_at = w.now;
            } in
            record m' { unidentified_backlog = insert_unidentified u m'.unidentified_backlog }
      ]

  -- The peer of an accepted session: it has a key, it is connected, and its metric runs.
  unfoldable pub welcome : PublicKey → SessionId → Peer → Peer
  unfolding set_pubkey mark_connected change_metric start new_metric
  welcome pubkey sid p =
      let keyed = if is_some p.pubkey then p else set_pubkey w.peer_id_of pubkey p in
      change_metric start (start new_metric) (mark_connected w.now sid keyed)

  unfoldable pub open_session : PublicKey → Session → Peer → PeerManager → PeerManager
  unfolding insert_session welcome
  open_session pubkey s p m =
      add_peer s.peer (welcome pubkey s.ctx.id p)
        (record m { sessions = insert_session s m.sessions })

  unfoldable pub on_new_session : PublicKey → SessionContext → PeerManager → PeerManager
  unfolding new_session_pre_check open_session
  on_new_session pubkey ctx m =
      let (m', checked) = new_session_pre_check w pubkey ctx m in
      elim checked [ err e ↦ m' | ok a ↦ open_session pubkey a.0 a.1 m' ]

  unfoldable pub next_retry : ℕ
  next_retry =
      let duration = w.random % max_random_next_retry in if ltb duration 2 then 2 else duration

  -- A short session makes the peer wait for the timeout of a repeated connection; a long one is
  -- followed by a short ban.
  unfoldable pub after_close : Peer → Peer
  unfolding inc_until is_privileged ban_peer next_retry
  after_close p =
      if ltb p.alive short_alive_session
      then record p { retry = inc_until 256 w.now p.retry }
      else (if is_privileged p.tags then p else ban_peer w.now next_retry p)

  unfoldable pub closed_peer : Peer → Peer
  unfolding mark_disconnected change_metric pause new_metric after_close
  closed_peer p = after_close (change_metric pause new_metric (mark_disconnected w.now p))

  unfoldable pub on_session_closed : PeerId → SessionId → PeerManager → PeerManager
  unfolding drop_unidentified stop_connecting take_session change_peer peer_of_closed closed_peer
  on_session_closed pid sid m =
      let m₁ = record m { unidentified_backlog = drop_unidentified sid m.unidentified_backlog } in
      let (taken, m₂) = take_session sid (stop_connecting pid m₁) in
      change_peer (peer_of_closed pid taken) closed_peer m₂

  unfoldable pub failed_peer : SessionErrorKind → Peer → Peer
  unfolding mark_disconnected change_metric add_bad_events new_metric inc_retry set_connectedness
  failed_peer kind p =
      let q =
        change_metric (add_bad_events 1) (add_bad_events 1 new_metric)
          (mark_disconnected w.now p) in
      elim kind [
        | session_io ↦ inc_retry w.now q
        | protocol ↦ set_connectedness unconnectable q
        | unexpected ↦ set_connectedness unconnectable q
      ]

  unfoldable pub fail_taken :
      SessionId → SessionErrorKind → Option Session × PeerManager → PeerManager
  unfolding disconnect_session change_peer failed_peer
  fail_taken sid kind (none, m) = m
  fail_taken sid kind (some s, m) = change_peer s.peer (failed_peer kind) (disconnect_session sid m)

  unfoldable pub on_session_failed : SessionId → SessionErrorKind → PeerManager → PeerManager
  unfolding take_session fail_taken
  on_session_failed sid kind m = fail_taken sid kind (take_session sid m)

  unfoldable pub alive_peer : Peer → Peer
  unfolding reset update_alive
  alive_peer p = update_alive w.now (record p { retry = reset p.retry })

  unfoldable pub update_peer_alive : PeerId → PeerManager → PeerManager
  unfolding change_peer alive_peer
  update_peer_alive pid m = change_peer pid alive_peer m

  -- The metric of a peer, started where it is new.
  unfoldable pub blame : ℕ → Peer → Peer
  unfolding change_metric add_bad_events start new_metric
  blame num p = change_metric (add_bad_events num) (add_bad_events num (start new_metric)) p

  unfoldable pub misbehaved : MisbehaviorKind → Peer → Peer
  unfolding mark_disconnected inc_retry set_connectedness
  misbehaved kind p =
      let q = mark_disconnected w.now p in
      elim kind [
        | ping_timeout ↦ inc_retry w.now q
        | ping_unexpect ↦ set_connectedness unconnectable q
        | discovery ↦ set_connectedness unconnectable q
      ]

  unfoldable pub peer_misbehave : PeerId → MisbehaviorKind → PeerManager → PeerManager
  unfolding blame misbehaved take_session disconnect_session
  peer_misbehave pid kind m = elim (peer pid m) [
    | none ↦ m
    | some p ↦
        let q = blame 1 p in
        if nat_beq q.session_id 0
        then add_peer pid q m
        else disconnect_session q.session_id
            (add_peer pid (misbehaved kind q) (take_session q.session_id m).1)
  ]

  -- The peer with a metric, a new one started where there was none.
  unfoldable pub measured : Peer → Peer
  unfolding change_metric start new_metric
  measured p = change_metric (λ t. t) (start new_metric) p

  -- A ban that also closes the session of the peer.
  unfoldable pub ban_out : PeerId → ℕ → Peer → PeerManager → PeerManager
  unfolding take_session disconnect_taken mark_disconnected ban_peer map_metric pause
  ban_out pid timeout p m =
      add_peer pid (mark_disconnected w.now (ban_peer w.now timeout (map_metric pause p)))
        (disconnect_taken (take_session p.session_id m))

  unfoldable pub knock_out : Peer → Bool
  knock_out p = elim p.trust_metric [
    | none ↦ false
    | some t ↦ ltb (w.trust_score t) knock_out_score
  ]

  unfoldable pub blame_feedback : PeerId → ℕ → Peer → PeerManager → PeerManager
  unfolding map_metric add_bad_events knock_out is_privileged ban_out
  blame_feedback pid num p m =
      let q = map_metric (add_bad_events num) p in
      if knock_out q && not (is_privileged q.tags)
      then ban_out pid m.config.peer_soft_ban q m
      else add_peer pid q m

  unfoldable pub feedback_of : PeerId → TrustFeedback → Peer → PeerManager → PeerManager
  unfolding is_privileged ban_out blame_feedback map_metric add_good_events
  feedback_of pid fatal p m =
      if is_privileged p.tags then add_peer pid p m else ban_out pid m.config.peer_fatal_ban p m
  feedback_of pid bad p m = blame_feedback pid 1 p m
  feedback_of pid worse p m = blame_feedback pid worse_trust_scalar_ratio p m
  feedback_of pid neutral p m = add_peer pid p m
  feedback_of pid good p m = add_peer pid (map_metric (add_good_events 1) p) m

  unfoldable pub trust_metric_feedback : PeerId → TrustFeedback → PeerManager → PeerManager
  unfolding measured feedback_of
  trust_metric_feedback pid feedback m = elim (peer pid m) [
    | none ↦ m
    | some p ↦ feedback_of pid feedback (measured p) m
  ]

  unfoldable pub on_session_blocked : SessionContext → PeerManager → PeerManager
  unfolding find_session block_session change_peer blame
  on_session_blocked ctx m = elim (session ctx.id m) [
    | none ↦ m
    | some s ↦ change_peer s.peer (blame 1) (record m {
      sessions = record m.sessions { sessions = block_session ctx.id m.sessions.sessions };
    })
  ]
