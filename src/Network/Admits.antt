-- ===== src/Network/Admits.antt =====
-- Which sessions the checks let in (core/network/src/peer_manager/mod.rs,
-- `PeerManager::new_session_pre_check`).
use muta.Prelude.{List, false, length, nat_eq, none, ok, true, ℕ, ◌<◌, ◌≡◌, ◌⊎◌}
use muta.Network.Types.{
  ConnectionEvent, PeerId, SessionContext, SessionType, Text, connected_addr, inbound, outbound,
}
use muta.Network.Tags.{Tags, get_banned_until, is_privileged}
use muta.Network.Peers.{Peer, connected}
use muta.Network.Sessions.{BookConfig, Session, SessionBook, find_session}
use muta.Network.Manager.{Checked, PeerManager, World}
use muta.Network.Replaced.{IsReplaced}
use muta.Network.Counted.{count_host, count_type}

abbrev pub type_limit_of : SessionType → BookConfig → ℕ
type_limit_of inbound c = c.inbound_conn_limit
type_limit_of outbound c = c.outbound_conn_limit

-- Within the limits of its host and of its direction, as the open sessions are counted.
pub record IsWithin (ctx : SessionContext) (host : Text) (b : SessionBook) : Type 0 where
  pub host_room : count_host host b.sessions < b.config.same_ip_conn_limit
  pub type_room : count_type ctx.ty b.sessions < type_limit_of ctx.ty b.config

-- `n` is the manager after the checks, `sent` what was sent before them.
pub record IsAdmitted (w : World) (ctx : SessionContext) (sent : List ConnectionEvent)
    (n : PeerManager) (p : Peer) : Type 0 where
  pub unbanned : get_banned_until p.tags ≡ none
  pub listed : (n.config.allowlist_only ≡ false) ⊎ (is_privileged p.tags ≡ true)
  pub roomy :
      (length n.sessions.sessions < n.config.max_connections)
      ⊎ ((is_privileged p.tags ≡ true) ⊎ IsReplaced w p sent n)
  pub single :
      p.connectedness ≡ connected
      → (p.session_id ≡ ctx.id) ⊎ (find_session p.session_id n.sessions.sessions ≡ none)
  pub within :
      (is_privileged p.tags ≡ true)
      ⊎ IsWithin ctx (connected_addr w.to_string ctx.address).host n.sessions

module _ (w : World) (ctx : SessionContext) (pid : PeerId) (s : Session) (q : Peer) where
  -- If the checks let the session in, this holds of the manager they leave and of the peer.
  abbrev Gives : (PeerManager → Type 0) → Checked → Type 0
  Gives P r = r.1 ≡ ok (s, q) → P r.0

module _ (w : World) (ctx : SessionContext) (pid : PeerId) (s : Session) (q : Peer) where
  abbrev Admits : PeerManager → Checked → Type 0
  Admits m = Gives w ctx pid s q (λ n. IsAdmitted w ctx m.sent n q)
