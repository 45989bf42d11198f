-- ===== src/Network/Steps.antt =====
-- What each event of the peer manager keeps (core/network/src/peer_manager/mod.rs): the events of
-- sessions.
use mathlib.Core.Path.{subst}
use muta.Prelude.{
  Option, Option-cases, ap, arith, if_cases, if◌then◌else◌, inl, inr, is_some, length, ltb, nat_eq,
  none, option_cases, refl, result_cases, some, sym, ◌+◌, ◌<◌, ◌∙◌, ◌≡◌, ◌≢◌,
}
use muta.Protocol.{u64_mod}
use muta.Network.Types.{
  MisbehaviorKind, PeerId, PublicKey, SessionContext, SessionErrorKind, SessionId, discovery,
  ping_timeout, ping_unexpect, protocol, session_io, unexpected,
}
use muta.Network.Tags.{is_privileged}
use muta.Network.Peers.{
  Peer, TrustMetric, add_bad_events, ban_peer, change_metric, mark_connected, mark_disconnected,
  new_metric, pause, set_pubkey, update_alive,
}
use muta.Network.Sessions.{
  Session, SessionBook, find_session, forget_session, make_session, remove_session,
}
use muta.Network.Manager.{
  PeerManager, World, disconnect_session, new_session_pre_check, send, session, stop_connecting,
}
use muta.Network.Events.{
  after_close, closed_peer, fail_taken, failed_peer, inc_retry, misbehaved,
  new_unidentified_session, on_new_session, on_session_closed, on_session_failed, open_session,
  peer_of_closed, set_connectedness, short_alive_session, take_session, welcome,
}
use muta.Network.Linked.{IsParted, IsSafe}
use muta.Network.Sound.{Stands, change_parted, opened-Stands, take_change_parted}
use muta.Network.PreCheck.{IsAnswer, mark_disconnected-IsParted, new_session_pre_check-IsAnswer}
use muta.Network.Counted.{find_session-id}

-- The transport gives a new session an id that no open session has and that is not zero; the book has
-- room in memory.
pub record IsFresh (ctx : SessionContext) (m : PeerManager) : Type 0 where
  pub unused : find_session ctx.id m.sessions.sessions ≡ none
  pub positive : ctx.id ≢ 0
  pub room : length m.sessions.sessions + 1 < u64_mod

pub change_metric-IsSafe :
    (f : TrustMetric → TrustMetric) (fresh : TrustMetric) (p q : Peer)
    → IsSafe p q
    → IsSafe (change_metric f fresh p) q
unfolding change_metric
change_metric-IsSafe f fresh p q h =
    option_cases (λ (r : Peer). IsSafe r q) p.trust_metric _ _
      (λ e. record { same = h.same; still = h.still })
      (λ t e. record { same = h.same; still = h.still })

pub change_metric-IsParted :
    (f : TrustMetric → TrustMetric) (fresh : TrustMetric) (p : Peer)
    → IsParted p
    → IsParted (change_metric f fresh p)
unfolding change_metric
change_metric-IsParted f fresh p h =
    option_cases IsParted p.trust_metric _ _
      (λ e. record { none_held = h.none_held; not_connected = h.not_connected })
      (λ t e. record { none_held = h.none_held; not_connected = h.not_connected })

take_session-none :
    (sid : SessionId) (m : PeerManager) → session sid m ≡ none → take_session sid m ≡ (none, m)
unfolding take_session remove_session
take_session-none sid m e = ground (arith, e)

take_session-some :
    (sid : SessionId) (m : PeerManager) (t : Session)
    → session sid m ≡ some t
    → take_session sid m ≡ (some t, record m { sessions = forget_session t m.sessions })
unfolding take_session remove_session
take_session-some sid m t e = ground (arith, e)

module _ (w : World) where
  after_close-IsParted : (p : Peer) → IsParted p → IsParted (after_close w p)
  unfolding after_close ban_peer
  after_close-IsParted p h =
      if_cases IsParted (ltb p.alive short_alive_session) _ _
        (λ e. record { none_held = h.none_held; not_connected = h.not_connected })
        (λ e.
          if_cases IsParted (is_privileged p.tags) _ _ (λ k. h)
            (λ k. record { none_held = h.none_held; not_connected = h.not_connected }))

  closed_peer-IsParted : (p : Peer) → IsParted (closed_peer w p)
  unfolding closed_peer
  closed_peer-IsParted p = after_close-IsParted _ (
      change_metric-IsParted pause new_metric (mark_disconnected w.now p)
        (mark_disconnected-IsParted w.now p))

  blamed-IsParted :
      (p : Peer)
      → IsParted (
          change_metric
            (add_bad_events 1)
            (add_bad_events 1 new_metric)
            (mark_disconnected w.now p))
  blamed-IsParted p =
      change_metric-IsParted (add_bad_events 1) (add_bad_events 1 new_metric)
        (mark_disconnected w.now p) (mark_disconnected-IsParted w.now p)

  failed_peer-IsParted : (kind : SessionErrorKind) (p : Peer) → IsParted (failed_peer w kind p)
  unfolding failed_peer inc_retry set_connectedness
  failed_peer-IsParted session_io p =
      let h = blamed-IsParted p in
      record { none_held = h.none_held; not_connected = h.not_connected }
  failed_peer-IsParted protocol p = record {
    none_held = (blamed-IsParted p).none_held;
    not_connected = λ e. cc;
  }
  failed_peer-IsParted unexpected p = record {
    none_held = (blamed-IsParted p).none_held;
    not_connected = λ e. cc;
  }

  pub misbehaved-IsParted : (kind : MisbehaviorKind) (p : Peer) → IsParted (misbehaved w kind p)
  unfolding misbehaved inc_retry set_connectedness mark_disconnected update_alive
  misbehaved-IsParted ping_timeout p = record { none_held = refl; not_connected = λ e. cc }
  misbehaved-IsParted ping_unexpect p = record { none_held = refl; not_connected = λ e. cc }
  misbehaved-IsParted discovery p = record { none_held = refl; not_connected = λ e. cc }

  welcome-holds :
      (pubkey : PublicKey) (sid : SessionId) (p : Peer) → (welcome w pubkey sid p).session_id ≡ sid
  unfolding welcome change_metric mark_connected
  welcome-holds pubkey sid p =
      option_cases (λ (r : Peer). r.session_id ≡ sid)
        (mark_connected w.now sid
          (if is_some p.pubkey then p else set_pubkey w.peer_id_of pubkey p)).trust_metric
        _ _ (λ e. refl) (λ t e. refl)

  pub on_new_session-Stands :
      (pubkey : PublicKey) (ctx : SessionContext) (m : PeerManager)
      → IsFresh ctx m
      → Stands m
      → Stands (on_new_session w pubkey ctx m)
  unfolding on_new_session open_session
  on_new_session-Stands pubkey ctx m fresh s =
      let r = new_session_pre_check w pubkey ctx m in
      let a : IsAnswer w ctx (w.peer_id_of pubkey) m.sessions r =
        new_session_pre_check-IsAnswer w pubkey ctx m s in
      result_cases Stands r.1 (λ e. r.0) (λ b. open_session w pubkey b.0 b.1 r.0) (λ e k. a.stands)
        (λ b k.
          let made : b.0 ≡ make_session w.to_string (w.peer_id_of pubkey) ctx = a.made b.0 b.1 k in
          let i : b.0.id ≡ ctx.id = ap (λ (x : Session). x.id) made in
          let c : b.0.ctx ≡ ctx = ap (λ (x : Session). x.ctx) made in
          opened-Stands b.0 (welcome w pubkey b.0.ctx.id b.1) r.0
            (ap (λ (x : SessionId). find_session x r.0.sessions.sessions) i
              ∙ (ap (λ (x : SessionBook). find_session ctx.id x.sessions) a.book ∙ fresh.unused))
            (λ z. fresh.positive (sym i ∙ z))
            (ground (arith, ap (λ (x : SessionBook). length x.sessions) a.book, fresh.room))
            (welcome-holds pubkey b.0.ctx.id b.1 ∙ (ap (λ (x : SessionContext). x.id) c ∙ sym i))
            a.stands)

  pub new_unidentified_session-Stands :
      (pubkey : PublicKey) (ctx : SessionContext) (m : PeerManager)
      → Stands m
      → Stands (new_unidentified_session w pubkey ctx m)
  unfolding new_unidentified_session
  new_unidentified_session-Stands pubkey ctx m s =
      let r = new_session_pre_check w pubkey ctx m in
      let a : IsAnswer w ctx (w.peer_id_of pubkey) m.sessions r =
        new_session_pre_check-IsAnswer w pubkey ctx m s in
      result_cases Stands r.1 _ _ (λ e k. a.stands) (λ b k. a.stands)

  pub on_session_closed-Stands :
      (pid : PeerId) (sid : SessionId) (m : PeerManager)
      → Stands m
      → Stands (on_session_closed w pid sid m)
  unfolding on_session_closed stop_connecting take_session remove_session peer_of_closed
  on_session_closed-Stands pid sid m s = elim (Option-cases (session sid m)) [
    | inl e ↦
        rw (e, on_session_closed, take_session, remove_session, peer_of_closed)
          (change_parted pid (closed_peer w) _ closed_peer-IsParted s)
    | inr (t, e) ↦
        rw (e, on_session_closed, take_session, remove_session, peer_of_closed)
          (take_change_parted t (closed_peer w) _
            (ap (λ (x : SessionId). find_session x m.sessions.sessions)
                (find_session-id sid m.sessions.sessions t e)
              ∙ e)
            closed_peer-IsParted s)
  ]

  pub on_session_failed-Stands :
      (sid : SessionId) (kind : SessionErrorKind) (m : PeerManager)
      → Stands m
      → Stands (on_session_failed w sid kind m)
  unfolding on_session_failed fail_taken disconnect_session send
  on_session_failed-Stands sid kind m s = elim (Option-cases (session sid m)) [
    | inl e ↦
        subst (λ (r : Option Session × PeerManager). Stands (fail_taken w sid kind r))
          (sym (take_session-none sid m e)) s
    | inr (t, e) ↦
        subst (λ (r : Option Session × PeerManager). Stands (fail_taken w sid kind r))
          (sym (take_session-some sid m t e))
          (take_change_parted t (failed_peer w kind) (disconnect_session sid m)
            (ap (λ (x : SessionId). find_session x m.sessions.sessions)
                (find_session-id sid m.sessions.sessions t e)
              ∙ e)
            (failed_peer-IsParted kind) s)
  ]
