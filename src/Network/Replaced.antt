-- ===== src/Network/Replaced.antt =====
-- The session that makes room for another (core/network/src/peer_manager/mod.rs,
-- `PeerManager::new_session_pre_check`).
use muta.Prelude.{
  Bool-cases, In, List, Option-cases, [], ap, arith, false, inl, inr, nat_eq, refl, some, sym, true,
  ℕ, ◌%◌, ◌*◌, ◌<◌, ◌∷◌, ◌≡◌,
}
use muta.Protocol.{u64_mod}
use muta.Network.Types.{ConnectionEvent, PeerId, SessionId, disconnect}
use muta.Network.Tags.{is_privileged}
use muta.Network.Peers.{Peer, TrustMetric}
use muta.Network.Sessions.{Session}
use muta.Network.Manager.{
  PeerManager, World, disconnect_session, is_replaceable, metric_of, peer, replace_among,
  replacement, send,
}

-- The peer at this id has no privilege, a score below this one, and more than twenty intervals behind it.
pub record IsWorse (w : World) (score : ℕ) (pid : PeerId) (n : PeerManager) : Type 0 where
  pub worse : Peer
  pub known : peer pid n ≡ some worse
  pub metric : TrustMetric
  pub measured : worse.trust_metric ≡ some metric
  pub lower : w.trust_score metric < score
  pub unprivileged : is_privileged worse.tags ≡ false
  pub settled : (n.config.trust_interval * 20) % u64_mod < worse.alive

-- An open session of a peer with a lower score, which is told to disconnect.
pub record IsReplaced (w : World) (p : Peer) (sent : List ConnectionEvent) (n : PeerManager)
    : Type 0 where
  pub victim : Session
  pub is_open : In victim n.sessions.sessions
  pub metric : TrustMetric
  pub measured : p.trust_metric ≡ some metric
  pub is_worse : IsWorse w (w.trust_score metric) victim.peer n
  pub told : n.sent ≡ disconnect victim.id ∷ sent

metric_of-peer :
    (w : World) (pid : PeerId) (m : PeerManager) (t : TrustMetric)
    → metric_of w pid m ≡ some t
    → (p : Peer) × (peer pid m ≡ some p) × (p.trust_metric ≡ some t)
unfolding metric_of
metric_of-peer w pid m t h = elim (Option-cases (peer pid m)) [
  | inl e ↦ let no : ⊥ = ground (arith, e, h) in elim no [ ]
  | inr (p, e) ↦ (p, e, ground (arith, e, h))
]

is_replaceable-IsWorse :
    (w : World) (score : ℕ) (t : TrustMetric) (pid : PeerId) (m : PeerManager)
    → metric_of w pid m ≡ some t
    → is_replaceable w score t pid m ≡ true
    → IsWorse w score pid m
unfolding is_replaceable
is_replaceable-IsWorse w score t pid m measured h =
    let (p, known, has) = metric_of-peer w pid m t measured in
    record {
      worse = p;
      known = known;
      metric = t;
      measured = has;
      lower = ground (arith, known, h);
      unprivileged = ground (arith, known, h);
      settled = ground (arith, known, h);
    }

replace_among-victim :
    (w : World) (score : ℕ) (ss : List Session) (m : PeerManager) (sid : SessionId)
    → replace_among w score ss m ≡ some sid
    → (v : Session) × In v ss × (v.id ≡ sid) × IsWorse w score v.peer m
unfolding replace_among
replace_among-victim w score [] m sid h = let no : ⊥ = cc h in elim no [ ]
replace_among-victim w score (x ∷ ss) m sid h = elim (Option-cases (metric_of w x.peer m)) [
  | inl e ↦ let no : ⊥ = ground (arith, e, h) in elim no [ ]
  | inr (t, e) ↦ elim (Bool-cases (is_replaceable w score t x.peer m)) [
    | inl k ↦ (x, inl refl, ground (arith, e, k, h), is_replaceable-IsWorse w score t x.peer m e k)
    | inr k ↦
        let (v, i, j, b) = replace_among-victim w score ss m sid (ground (arith, e, k, h)) in
        (v, inr i, j, b)
  ]
]

moved :
    (w : World) (score : ℕ) (pid : PeerId) (m : PeerManager) (sid : SessionId)
    → IsWorse w score pid m
    → IsWorse w score pid (disconnect_session sid m)
unfolding disconnect_session send
moved w score pid m sid b = record {
  worse = b.worse;
  known = b.known;
  metric = b.metric;
  measured = b.measured;
  lower = b.lower;
  unprivileged = b.unprivileged;
  settled = b.settled;
}

pub replacement-IsReplaced :
    (w : World) (p : Peer) (m : PeerManager) (sid : SessionId)
    → replacement w p m ≡ some sid
    → IsReplaced w p m.sent (disconnect_session sid m)
unfolding replacement disconnect_session send
replacement-IsReplaced w p m sid h = elim (Option-cases p.trust_metric) [
  | inl e ↦ let no : ⊥ = ground (arith, e, h) in elim no [ ]
  | inr (t, e) ↦
      let (v, i, j, b) =
        replace_among-victim w (w.trust_score t) m.sessions.sessions m sid (ground (arith, e, h)) in
      record {
        victim = v;
        is_open = i;
        metric = t;
        measured = e;
        is_worse = moved w (w.trust_score t) v.peer m sid b;
        told = ap (λ (x : SessionId). disconnect x ∷ m.sent) (sym j);
      }
]
