-- ===== src/Network/PreCheck.antt =====
-- What the checks of a new session leave behind (core/network/src/peer_manager/mod.rs).
use muta.Prelude.{
  Bool, Option-cases, arith, err, false, get_or, if_cases, inl, inr, is_some, ltb, nat_eq, none, ok,
  option_cases, refl, some, ℕ, ◌∙◌, ◌≡◌, ◌⊎◌,
}
use muta.Network.Types.{
  Multiaddr, PeerId, PublicKey, SessionContext, SessionType, inbound, outbound, peer_multiaddr,
}
use muta.Network.Tags.{ban_key, get_banned_until, is_privileged, remove_tag}
use muta.Network.Peers.{
  Peer, TrustMetric, ban_peer, banned, map_metric, mark_disconnected, new_peer, reset_history,
  unban, update_alive,
}
use muta.Network.Sessions.{Session, SessionBook, acceptable, make_session}
use muta.Network.Manager.{
  Checked, PeerManager, PreCheckError, World, allow_list_only, check_connected, check_limits,
  check_peer, check_room, disconnect_session, new_session_pre_check, note_address, peer,
  peer_already_connected, peer_banned, put_peer, reach_max_connection, reach_session_limit, refuse,
  replacement, same_ip_limit_ban, send, stop_connecting,
}
use muta.Network.Linked.{IsParted, IsSafe}
use muta.Network.Sound.{Stands, put_parted, put_safe}

pub mark_disconnected-IsParted : (now : ℕ) (p : Peer) → IsParted (mark_disconnected now p)
unfolding mark_disconnected update_alive
mark_disconnected-IsParted now p = record { none_held = refl; not_connected = λ h. cc }

-- The checks left a sound manager with the same book, and a session that they pass is the one asked
-- for.
pub record IsAnswer (w : World) (ctx : SessionContext) (pid : PeerId) (b : SessionBook)
    (r : Checked) : Type 0 where
  pub stands : Stands r.0
  pub book : r.0.sessions ≡ b
  pub made : (s : Session) (p : Peer) → r.1 ≡ ok (s, p) → s ≡ make_session w.to_string pid ctx

module _ (w : World) (ctx : SessionContext) (pid : PeerId) where
  refuse-IsAnswer :
      (p : Peer) (e : PreCheckError) (m : PeerManager)
      → Stands m
      → IsAnswer w ctx pid m.sessions (refuse w ctx pid p e m)
  unfolding refuse disconnect_session send put_peer
  refuse-IsAnswer p e m s = record {
    stands = put_parted pid (mark_disconnected w.now p) m (mark_disconnected-IsParted w.now p) s;
    book = ground arith;
    made = λ t q h. cc;
  }

  check_limits-IsAnswer :
      (p : Peer) (m : PeerManager)
      → Stands m
      → IsAnswer w ctx pid m.sessions (check_limits w ctx pid p m)
  unfolding check_limits
  check_limits-IsAnswer p m s =
      let passes : IsAnswer w ctx pid m.sessions (m, ok (make_session w.to_string pid ctx, p)) =
        record { stands = s; book = refl; made = λ t q h. cc } in
      if_cases (IsAnswer w ctx pid m.sessions) (is_privileged p.tags) _ _ (λ e. passes)
        (λ e.
          option_cases (IsAnswer w ctx pid m.sessions)
            (acceptable (make_session w.to_string pid ctx) m.sessions) _ _ (λ k. passes)
            (λ error k.
              refuse-IsAnswer (ban_peer w.now same_ip_limit_ban p) (reach_session_limit error) m s))

  check_connected-IsAnswer :
      (p : Peer) (m : PeerManager)
      → Stands m
      → IsAnswer w ctx pid m.sessions (check_connected w ctx pid p m)
  unfolding check_connected disconnect_session send
  check_connected-IsAnswer p m s =
      let refused : IsAnswer w ctx pid m.sessions
          (disconnect_session ctx.id m, err peer_already_connected) =
        record { stands = s; book = refl; made = λ t q h. cc } in
      if_cases (IsAnswer w ctx pid m.sessions) _ _ _ (λ e. refused)
        (λ e. check_limits-IsAnswer p m s)

  check_room-IsAnswer :
      (p : Peer) (m : PeerManager)
      → Stands m
      → IsAnswer w ctx pid m.sessions (check_room w ctx pid p m)
  unfolding check_room disconnect_session send
  check_room-IsAnswer p m s =
      if_cases (IsAnswer w ctx pid m.sessions) _ _ _
        (λ e.
          option_cases (IsAnswer w ctx pid m.sessions) (replacement w p m) _ _
            (λ k. refuse-IsAnswer p reach_max_connection m s)
            (λ sid k. check_connected-IsAnswer p (disconnect_session sid m) s))
        (λ e. check_connected-IsAnswer p m s)

  check_peer-IsAnswer :
      (p : Peer) (is_banned : Bool) (m : PeerManager)
      → Stands m
      → IsAnswer w ctx pid m.sessions (check_peer w ctx pid (p, is_banned) m)
  unfolding check_peer
  check_peer-IsAnswer p is_banned m s =
      if_cases (IsAnswer w ctx pid m.sessions) is_banned _ _
        (λ e. refuse-IsAnswer p peer_banned m s)
        (λ e.
          if_cases (IsAnswer w ctx pid m.sessions) _ _ _
            (λ k. refuse-IsAnswer p allow_list_only m s) (λ k. check_room-IsAnswer p m s))

along-IsAnswer :
    (w : World) (ctx : SessionContext) (pid : PeerId) {b c : SessionBook} {r : Checked}
    → b ≡ c
    → IsAnswer w ctx pid b r
    → IsAnswer w ctx pid c r
along-IsAnswer w ctx pid e a = record { stands = a.stands; book = a.book ∙ e; made = a.made }

note_address-IsSafe :
    (ty : SessionType) (ma : Multiaddr) (p q : Peer) → IsSafe p q → IsSafe (note_address ty ma p) q
unfolding note_address
note_address-IsSafe inbound ma p q h = record { same = h.same; still = h.still }
note_address-IsSafe outbound ma p q h = record { same = h.same; still = h.still }

pub map_metric-IsSafe :
    (f : TrustMetric → TrustMetric) (p q : Peer) → IsSafe p q → IsSafe (map_metric f p) q
unfolding map_metric
map_metric-IsSafe f p q h =
    option_cases (λ r. IsSafe r q) p.trust_metric p _ (λ e. h)
      (λ t e. record { same = h.same; still = h.still })

pub banned-IsSafe : (now : ℕ) (p q : Peer) → IsSafe p q → IsSafe (banned now p).0 q
unfolding banned unban
banned-IsSafe now p q h =
    option_cases (λ (r : Peer × Bool). IsSafe r.0 q) (get_banned_until p.tags) (p, false) _ (λ e. h)
      (λ until e.
        if_cases (λ (r : Peer × Bool). IsSafe r.0 q) (ltb now until) _ _ (λ k. h)
          (λ k.
            map_metric-IsSafe reset_history (record p { tags = remove_tag ban_key p.tags }) q
              (record { same = h.same; still = h.still })))

pub self-IsSafe : (p : Peer) → IsSafe p p
self-IsSafe p = record { same = inl refl; still = λ h. (h, refl) }

pub put_peer-sessions :
    (pid : PeerId) (q : Peer) (m : PeerManager) → (put_peer pid q m).sessions ≡ m.sessions
unfolding put_peer
put_peer-sessions pid q m =
    if_cases (λ (n : PeerManager). n.sessions ≡ m.sessions) (is_some (peer pid m)) _ _ (λ e. refl)
      (λ e. refl)

known_or_new :
    (pid : PeerId) (m : PeerManager)
    → (peer pid m ≡ none) ⊎ (peer pid m ≡ some (get_or (peer pid m) (new_peer pid)))
known_or_new pid m = elim (Option-cases (peer pid m)) [
  | inl e ↦ inl e
  | inr (p, e) ↦ inr (rw e refl)
]

pub new_session_pre_check-IsAnswer :
    (w : World) (pubkey : PublicKey) (ctx : SessionContext) (m : PeerManager)
    → Stands m
    → IsAnswer w ctx (w.peer_id_of pubkey) m.sessions (new_session_pre_check w pubkey ctx m)
unfolding new_session_pre_check stop_connecting
new_session_pre_check-IsAnswer w pubkey ctx m s =
    let pid : PeerId = w.peer_id_of pubkey in
    let p : Peer = get_or (peer pid m) (new_peer pid) in
    let q : Peer = note_address ctx.ty (peer_multiaddr ctx.address pid) p in
    let safe : IsSafe (banned w.now q).0 p =
      banned-IsSafe w.now q p (note_address-IsSafe ctx.ty _ p p (self-IsSafe p)) in
    let put : Stands (put_peer pid (banned w.now q).0 (stop_connecting pid m)) =
      put_safe pid (banned w.now q).0 p (stop_connecting pid m) (known_or_new pid m) safe s in
    along-IsAnswer w ctx pid (put_peer-sessions pid (banned w.now q).0 (stop_connecting pid m)) (
      check_peer-IsAnswer w ctx pid (banned w.now q).0 (banned w.now q).1
        (put_peer pid (banned w.now q).0 (stop_connecting pid m)) put)
