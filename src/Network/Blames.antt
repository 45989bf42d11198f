-- ===== src/Network/Blames.antt =====
-- What each event of the peer manager keeps (core/network/src/peer_manager/mod.rs): the events that
-- blame or praise a peer.
use muta.Prelude.{
  Bool, Bool-cases, List, Option, [], arith, if_cases, inl, inr, nat_beq, nat_beq_iff, nat_eq, none,
  option_cases, refl, some, true, ℕ, ◌==◌, ◌∷◌, ◌≡◌, ◌⊎◌,
}
use muta.Network.Types.{
  MisbehaviorKind, PeerId, SessionContext, SessionId, TrustFeedback, bad, fatal, good, neutral,
  worse,
}
use muta.Network.Tags.{is_privileged}
use muta.Network.Peers.{
  Peer, add_bad_events, add_good_events, ban_peer, map_metric, mark_disconnected, pause,
  update_alive,
}
use muta.Network.Sessions.{Session, block_session}
use muta.Network.Manager.{PeerManager, World, add_peer, disconnect_session, peer, send, session}
use muta.Network.Events.{
  alive_peer, ban_out, blame, blame_feedback, disconnect_taken, feedback_of, measured, misbehaved,
  on_session_blocked, peer_misbehave, take_session, trust_metric_feedback, update_peer_alive,
  worse_trust_scalar_ratio,
}
use muta.Network.Linked.{IsSafe, IsSettled, owner, safe-IsSettled}
use muta.Network.Counted.{count_host, count_type}
use muta.Network.Sound.{
  IsAlike, Stands, add_safe, add_settled, alike-Stands, change_safe, take_parted,
}
use muta.Network.PreCheck.{map_metric-IsSafe, mark_disconnected-IsParted, self-IsSafe}
use muta.Network.Steps.{change_metric-IsSafe, misbehaved-IsParted}

-- A peer whose session is its own, or that has none.
owned_or_none :
    (ss : List Session) (pid : PeerId) (p : Peer)
    → IsSettled ss pid p
    → (owner p.session_id ss ≡ some pid) ⊎ (p.session_id ≡ 0)
owned_or_none ss pid p s = elim (Bool-cases (p.session_id == 0)) [
  | inl e ↦ inr ((nat_beq_iff p.session_id 0).0 e)
  | inr e ↦ inl (s.owned (ground (arith, e)))
]

disconnect_taken-Stands :
    (pid : PeerId) (q : Peer) (r : Option Session × PeerManager)
    → Stands (add_peer pid q r.1)
    → Stands (add_peer pid q (disconnect_taken r))
unfolding disconnect_taken disconnect_session send
disconnect_taken-Stands pid q (none, m) s = s
disconnect_taken-Stands pid q (some t, m) s = s

-- A session with the same id, peer and address, and the rest as before.
pub cons-IsAlike :
    (s : Session) (b : Bool) (ss us : List Session)
    → IsAlike ss us
    → IsAlike (s ∷ ss) (record s { blocked = b } ∷ us)
unfolding owner count_type count_host
cons-IsAlike s b ss us (owners, types, hosts, lengths) = (
  λ sid. ground (arith, owners sid),
  λ ty. ground (arith, types ty),
  λ host. ground (arith, hosts host),
  ground (arith, lengths),
)

pub self-IsAlike : (ss : List Session) → IsAlike ss ss
self-IsAlike ss = (λ sid. refl, λ ty. refl, λ host. refl, refl)

block_session-IsAlike : (sid : SessionId) (ss : List Session) → IsAlike ss (block_session sid ss)
unfolding block_session
block_session-IsAlike sid [] = self-IsAlike []
block_session-IsAlike sid (t ∷ ss) =
    if_cases (IsAlike (t ∷ ss)) (nat_beq t.id sid) _ _
      (λ e. cons-IsAlike t true ss ss (self-IsAlike ss))
      (λ e. cons-IsAlike t t.blocked ss _ (block_session-IsAlike sid ss))

module _ (w : World) where
  alive_peer-IsSafe : (p : Peer) → IsSafe (alive_peer w p) p
  unfolding alive_peer update_alive
  alive_peer-IsSafe p = record { same = inl refl; still = λ h. (h, refl) }

  pub update_peer_alive-Stands :
      (pid : PeerId) (m : PeerManager) → Stands m → Stands (update_peer_alive w pid m)
  unfolding update_peer_alive
  update_peer_alive-Stands pid m s = change_safe pid (alive_peer w) m alive_peer-IsSafe s

  blame-IsSafe : (num : ℕ) (p : Peer) → IsSafe (blame w num p) p
  unfolding blame
  blame-IsSafe num p = change_metric-IsSafe _ _ p p (self-IsSafe p)

  pub peer_misbehave-Stands :
      (pid : PeerId) (kind : MisbehaviorKind) (m : PeerManager)
      → Stands m
      → Stands (peer_misbehave w pid kind m)
  unfolding peer_misbehave disconnect_session send
  peer_misbehave-Stands pid kind m s =
      option_cases Stands (peer pid m) m _ (λ e. s)
        (λ p e.
          let q = blame w 1 p in
          if_cases Stands (nat_beq q.session_id 0) _ _
            (λ z. add_safe pid q p m e (blame-IsSafe 1 p) s)
            (λ z.
              take_parted q.session_id pid (misbehaved w kind q) m
                (owned_or_none m.sessions.sessions pid q (
                  safe-IsSettled m.sessions.sessions pid q p (blame-IsSafe 1 p)
                    (s.linked.settled pid p e)))
                (misbehaved-IsParted w kind q) s))

  ban_out-Stands :
      (pid : PeerId) (timeout : ℕ) (p : Peer) (m : PeerManager)
      → IsSettled m.sessions.sessions pid p
      → Stands m
      → Stands (ban_out w pid timeout p m)
  unfolding ban_out
  ban_out-Stands pid timeout p m h s =
      let q = mark_disconnected w.now (ban_peer w.now timeout (map_metric pause p)) in
      disconnect_taken-Stands pid q (take_session p.session_id m) (
        take_parted p.session_id pid q m (owned_or_none m.sessions.sessions pid p h)
          (mark_disconnected-IsParted w.now (ban_peer w.now timeout (map_metric pause p))) s)

  blame_feedback-Stands :
      (pid : PeerId) (num : ℕ) (p : Peer) (m : PeerManager)
      → IsSettled m.sessions.sessions pid p
      → Stands m
      → Stands (blame_feedback w pid num p m)
  unfolding blame_feedback
  blame_feedback-Stands pid num p m h s =
      let q = map_metric (add_bad_events num) p in
      let k : IsSettled m.sessions.sessions pid q =
        safe-IsSettled m.sessions.sessions pid q p
          (map_metric-IsSafe (add_bad_events num) p p (self-IsSafe p)) h in
      if_cases Stands _ _ _ (λ e. ban_out-Stands pid m.config.peer_soft_ban q m k s)
        (λ e. add_settled pid q m k s)

  feedback_of-Stands :
      (pid : PeerId) (feedback : TrustFeedback) (p : Peer) (m : PeerManager)
      → IsSettled m.sessions.sessions pid p
      → Stands m
      → Stands (feedback_of w pid feedback p m)
  unfolding feedback_of
  feedback_of-Stands pid fatal p m h s =
      if_cases Stands (is_privileged p.tags) _ _ (λ e. add_settled pid p m h s)
        (λ e. ban_out-Stands pid m.config.peer_fatal_ban p m h s)
  feedback_of-Stands pid worse p m h s = blame_feedback-Stands pid worse_trust_scalar_ratio p m h s
  feedback_of-Stands pid bad p m h s = blame_feedback-Stands pid 1 p m h s
  feedback_of-Stands pid neutral p m h s = add_settled pid p m h s
  feedback_of-Stands pid good p m h s =
      add_settled pid (map_metric (add_good_events 1) p) m
        (safe-IsSettled m.sessions.sessions pid _ p
          (map_metric-IsSafe (add_good_events 1) p p (self-IsSafe p)) h)
        s

  pub trust_metric_feedback-Stands :
      (pid : PeerId) (feedback : TrustFeedback) (m : PeerManager)
      → Stands m
      → Stands (trust_metric_feedback w pid feedback m)
  unfolding trust_metric_feedback measured
  trust_metric_feedback-Stands pid feedback m s =
      option_cases Stands (peer pid m) m _ (λ e. s)
        (λ p e.
          feedback_of-Stands pid feedback (measured w p) m
            (safe-IsSettled m.sessions.sessions pid (measured w p) p
              (change_metric-IsSafe _ _ p p (self-IsSafe p)) (s.linked.settled pid p e))
            s)

  pub on_session_blocked-Stands :
      (ctx : SessionContext) (m : PeerManager) → Stands m → Stands (on_session_blocked w ctx m)
  unfolding on_session_blocked
  on_session_blocked-Stands ctx m s =
      option_cases Stands (session ctx.id m) m _ (λ e. s)
        (λ t e. change_safe t.peer (blame w 1) _ (blame-IsSafe 1) (
          alike-Stands (block_session ctx.id m.sessions.sessions) m
            (block_session-IsAlike ctx.id m.sessions.sessions) s))
