-- ===== src/Network/Handle.antt =====
-- What other parts of the network ask of the peer manager (core/network/src/peer_manager/mod.rs, the
-- `PeerManagerHandle`, and core/network/src/peer_manager/shared.rs).
use muta.Prelude.{
  Bool, List, Option, Result, [], err, false, get_or, if◌then◌else◌, ltb, member, nat_beq, nat_eq,
  none, not, ok, some, true, ℕ, ◌&&◌, ◌/◌, ◌>>=◌, ◌∷◌,
}
use muta.Network.Types.{PeerId, SessionId}
use muta.Network.Tags.{
  PeerTag, TagError, Tags, always_allow, consensus, contains_tag, insert_tag, remove_tag, same_tag,
}
use muta.Network.Peers.{Peer, connected, new_peer, same_connectedness}
use muta.Network.Sessions.{Session}
use muta.Network.Manager.{PeerManager, add_peer, peer, session}
use muta.Network.Events.{change_peer}

pub record SharedConfig : Type 0 where
  pub max_stream_window_size : ℕ
  pub write_timeout : ℕ

unfoldable pub peer_id_of_session : SessionId → PeerManager → Option PeerId
peer_id_of_session sid m = elim (session sid m) [ none ↦ none | some s ↦ some s.peer ]

abbrev pub set_tags : Peer → Result Tags TagError → Result Peer TagError
set_tags p (ok tags) = ok (record p { tags = tags })
set_tags p (err e) = err e

unfoldable pub note_consensus : PeerTag → PeerId → PeerManager → PeerManager
unfolding same_tag
note_consensus tag pid m =
    if same_tag tag consensus && not (member pid m.consensus_peers)
    then record m { consensus_peers = pid ∷ m.consensus_peers }
    else m

-- A tag for a peer, which is made if there is none; an error changes nothing.
unfoldable pub tag_peer : PeerId → PeerTag → PeerManager → Result PeerManager TagError
unfolding insert_tag new_peer note_consensus
tag_peer pid tag m = do
  let p = get_or (peer pid m) (new_peer pid)
  q ← set_tags p (insert_tag tag p.tags)
  ok (note_consensus tag pid (add_peer pid q m))

unfoldable pub untagged : PeerTag → Peer → Peer
unfolding remove_tag
untagged tag p = record p { tags = remove_tag tag p.tags }

unfoldable pub drop_id : PeerId → List PeerId → List PeerId
drop_id pid [] = []
drop_id pid (x ∷ l) = let rest = drop_id pid l in if nat_beq x pid then rest else x ∷ rest

unfoldable pub untag_peer : PeerId → PeerTag → PeerManager → PeerManager
unfolding change_peer untagged same_tag drop_id
untag_peer pid tag m =
    let m' = change_peer pid (untagged tag) m in
    if same_tag tag consensus
    then record m' { consensus_peers = drop_id pid m'.consensus_peers }
    else m'

unfoldable pub untag_all : List PeerId → PeerManager → PeerManager
unfolding change_peer untagged
untag_all [] m = m
untag_all (pid ∷ l) m = untag_all l (change_peer pid (untagged consensus) m)

abbrev pub manager_or : PeerManager → Result PeerManager TagError → PeerManager
manager_or m (ok m') = m'
manager_or m (err e) = m

unfoldable pub tag_all : List PeerId → PeerManager → PeerManager
unfolding tag_peer
tag_all [] m = m
tag_all (pid ∷ l) m = tag_all l (manager_or m (tag_peer pid consensus m))

unfoldable pub id_set : List PeerId → List PeerId
id_set [] = []
id_set (x ∷ l) = let rest = id_set l in if member x rest then rest else x ∷ rest

-- The consensus peers are exactly these from now on.
unfoldable pub tag_consensus : List PeerId → PeerManager → PeerManager
unfolding untag_all tag_all id_set
tag_consensus pids m = record (tag_all pids (untag_all m.consensus_peers m)) {
  consensus_peers = id_set pids;
}

-- The ids of the sessions that pass a test.
unfoldable pub session_ids : (Session → Bool) → List Session → List SessionId
session_ids f [] = []
session_ids f (s ∷ ss) = let rest = session_ids f ss in if f s then s.id ∷ rest else rest

unfoldable pub all_sendable : PeerManager → List SessionId
unfolding session_ids
all_sendable m = session_ids (λ s. not s.blocked) m.sessions.sessions

unfoldable pub all_blocked : PeerManager → List SessionId
unfolding session_ids
all_blocked m = session_ids (λ s. s.blocked) m.sessions.sessions

unfoldable pub all_sessions : PeerManager → List SessionId
unfolding session_ids
all_sessions m = session_ids (λ s. true) m.sessions.sessions

-- A blocked session is unblocked once what waits could be written in time.
unfoldable pub refreshed : SharedConfig → (SessionId → ℕ) → List Session → List Session
refreshed config pending_data_size [] = []
refreshed config pending_data_size (s ∷ ss) =
    let rest = refreshed config pending_data_size ss in
    if s.blocked
      && ltb (pending_data_size s.id / config.max_stream_window_size) config.write_timeout
    then record s { blocked = false } ∷ rest
    else s ∷ rest

unfoldable pub refresh_blocked : SharedConfig → (SessionId → ℕ) → PeerManager → PeerManager
unfolding refreshed
refresh_blocked config pending_data_size m = record m {
  sessions = record m.sessions {
    sessions = refreshed config pending_data_size m.sessions.sessions;
  };
}

unfoldable pub session_of : PeerId → PeerManager → Option SessionId
unfolding same_connectedness
session_of pid m = elim (peer pid m) [
  | none ↦ none
  | some p ↦ if same_connectedness p.connectedness connected then some p.session_id else none
]

-- The sessions of the peers that are connected, and the other peers.
unfoldable pub connected_sessions : List PeerId → PeerManager → List SessionId × List PeerId
unfolding session_of
connected_sessions [] m = ([], [])
connected_sessions (pid ∷ pids) m =
    let (open_ids, others) = connected_sessions pids m in
    elim (session_of pid m) [
      | none ↦ (open_ids, pid ∷ others)
      | some sid ↦ (sid ∷ open_ids, others)
    ]

unfoldable pub allowlisted : List Session → PeerManager → List PeerId
unfolding contains_tag
allowlisted [] m = []
allowlisted (s ∷ ss) m =
    let rest = allowlisted ss m in
    elim (peer s.peer m) [
      | none ↦ rest
      | some p ↦ if contains_tag always_allow p.tags then s.peer ∷ rest else rest
    ]
