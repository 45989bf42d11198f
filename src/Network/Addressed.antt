-- ===== src/Network/Addressed.antt =====
-- The sessions that a message to a list of peers goes to
-- (core/network/src/peer_manager/shared.rs).
use muta.Prelude.{
  All, In, List, Option-cases, [], arith, inl, inr, nat_eq, none, option_cases, refl, some, ◌∷◌,
  ◌≡◌, ◌≢◌, ◌⊎◌,
}
use muta.Network.Types.{PeerId, SessionId}
use muta.Network.Peers.{Peer, connected, same_connectedness}
use muta.Network.Sessions.{BookConfig, Session}
use muta.Network.Manager.{ManagerConfig, PeerManager, peer}
use muta.Network.Handle.{connected_sessions, session_of}
use muta.Network.Linked.{owner}
use muta.Network.Sound.{IsSound}
use muta.Network.Reached.{IsReached, reached-IsSound}

-- The session is open and one of these peers owns it.
abbrev pub IsOwned : List Session → List PeerId → SessionId → Type 0
IsOwned ss pids sid = (pid : PeerId) × In pid pids × (owner sid ss ≡ some pid)

-- The peer is connected, and this is its session.
abbrev pub IsConnected : PeerManager → PeerId → SessionId → Type 0
IsConnected m pid sid =
    (p : Peer) × (peer pid m ≡ some p) × (p.connectedness ≡ connected) × (p.session_id ≡ sid)

-- No peer is known here, or it is not connected.
abbrev pub IsUnconnected : PeerManager → PeerId → Type 0
IsUnconnected m pid =
    (peer pid m ≡ none) ⊎ ((p : Peer) × (peer pid m ≡ some p) × (p.connectedness ≢ connected))

-- What a peer of the list gives: its session if it is connected, else its own id.
abbrev pub IsSplit : PeerManager → List PeerId → List SessionId → List PeerId → Type 0
IsSplit m [] sids others = (sids ≡ []) × (others ≡ [])
IsSplit m (pid ∷ pids) sids others =
    ((sid : SessionId) × (rest : List SessionId) × IsConnected m pid sid
      × (sids ≡ sid ∷ rest)
      × IsSplit m pids rest others)
    ⊎ ((rest : List PeerId) × IsUnconnected m pid
        × (others ≡ pid ∷ rest)
        × IsSplit m pids sids rest)

session_of-IsConnected :
    (pid : PeerId) (sid : SessionId) (m : PeerManager)
    → session_of pid m ≡ some sid
    → IsConnected m pid sid
unfolding session_of same_connectedness
session_of-IsConnected pid sid m h = elim (Option-cases (peer pid m)) [
  | inl e ↦ let no : ⊥ = ground (arith, e, h) in elim no [ ]
  | inr (p, e) ↦ (p, e, ground (arith, e, h), ground (arith, e, h))
]

session_of-IsUnconnected :
    (pid : PeerId) (m : PeerManager) → session_of pid m ≡ none → IsUnconnected m pid
unfolding session_of same_connectedness
session_of-IsUnconnected pid m h = elim (Option-cases (peer pid m)) [
  | inl e ↦ inl e
  | inr (p, e) ↦ inr (p, e, ground (arith, e, h))
]

connected_sessions-IsSplit :
    (pids : List PeerId) (m : PeerManager)
    → IsSplit m pids (connected_sessions pids m).0 (connected_sessions pids m).1
unfolding connected_sessions
connected_sessions-IsSplit [] m = (refl, refl)
connected_sessions-IsSplit (pid ∷ pids) m =
    let rest = connected_sessions pids m in
    let split = connected_sessions-IsSplit pids m in
    option_cases (λ (r : List SessionId × List PeerId). IsSplit m (pid ∷ pids) r.0 r.1)
      (session_of pid m) (rest.0, pid ∷ rest.1) (λ sid. (sid ∷ rest.0, rest.1))
      (λ e. inr (rest.1, session_of-IsUnconnected pid m e, refl, split))
      (λ sid e. inl (sid, rest.0, session_of-IsConnected pid sid m e, refl, split))

session_of-owner :
    (pid : PeerId) (sid : SessionId) (m : PeerManager)
    → IsSound m.sessions m.peers
    → session_of pid m ≡ some sid
    → owner sid m.sessions.sessions ≡ some pid
session_of-owner pid sid m s h =
    let (p, e, marked, same) = session_of-IsConnected pid sid m h in
    let settled = s.linked.settled pid p e in rw (← same) (settled.owned (settled.held marked))

module _ (m : PeerManager) (s : IsSound m.sessions m.peers) where
  All-IsOwned :
      (whole pids : List PeerId)
      → ((pid : PeerId) → In pid pids → In pid whole)
      → All (IsOwned m.sessions.sessions whole) (connected_sessions pids m).0
  unfolding connected_sessions
  All-IsOwned whole [] within = tt
  All-IsOwned whole (pid ∷ pids) within =
      let owned = All-IsOwned whole pids (λ x h. within x (inr h)) in
      let rest = connected_sessions pids m in
      option_cases
        (λ (r : List SessionId × List PeerId). All (IsOwned m.sessions.sessions whole) r.0)
        (session_of pid m) (rest.0, pid ∷ rest.1) (λ sid. (sid ∷ rest.0, rest.1)) (λ e. owned)
        (λ sid e. ((pid, within pid (inl refl), session_of-owner pid sid m s e), owned))

-- In every manager that a run reaches, where each session that opens is fresh, a message to a list of
-- peers is sent to open sessions only, each owned by a peer of the list. In the order of the list, every
-- peer that is connected gives the session it is connected with, and the ids that are returned beside
-- the sessions are those of the others, in order: peers that are not connected, or not known.
pub connected_sessions-IsOwned :
    (config : ManagerConfig) (book : BookConfig) (our_id : PeerId) (m : PeerManager)
    (pids : List PeerId)
    → IsReached config book our_id m
    → All (IsOwned m.sessions.sessions pids) (connected_sessions pids m).0
      × IsSplit m pids (connected_sessions pids m).0 (connected_sessions pids m).1
connected_sessions-IsOwned config book our_id m pids r = (
  All-IsOwned m (reached-IsSound config book our_id m r) pids pids (λ x h. h),
  connected_sessions-IsSplit pids m,
)
