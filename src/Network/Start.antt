-- ===== src/Network/Start.antt =====
-- How a peer manager starts with an allow list (core/network/src/peer_manager/mod.rs,
-- `PeerManager::new`).
use muta.Prelude.{
  List, Option, [], arith, if◌then◌else◌, is_some, leb, length, nat_beq, nat_eq, none, refl, some,
  ◌∷◌, ◌≡◌,
}
use muta.Network.Types.{PeerId}
use muta.Network.Tags.{always_allow, insert_tag, tags_or}
use muta.Network.Peers.{Peer, new_peer}
use muta.Network.Sessions.{BookConfig}
use muta.Network.Manager.{ManagerConfig, PeerManager, add_peer, new_manager}

unfoldable pub allowed_peer : PeerId → Peer
unfolding new_peer insert_tag tags_or
allowed_peer pid = record (new_peer pid) { tags = tags_or [] (insert_tag always_allow []) }

-- The loop asserts that the book is empty before each peer: no value stands for its panic.
unfoldable pub allow_all : List PeerId → PeerManager → Option PeerManager
unfolding allowed_peer
allow_all [] m = some m
allow_all (pid ∷ pids) m =
    let rest = allow_all pids (add_peer pid (allowed_peer pid) m) in
    if nat_beq (length m.peers) 0 then rest else none

unfoldable pub start_manager :
    ManagerConfig → BookConfig → PeerId → List PeerId → Option PeerManager
unfolding new_manager allow_all
start_manager config book our_id allowlist = allow_all allowlist (new_manager config book our_id)

-- A manager starts exactly with an allow list of at most one entry; a longer list panics.
pub start_manager-starts :
    (config : ManagerConfig) (book : BookConfig) (our_id : PeerId) (allowlist : List PeerId)
    → is_some (start_manager config book our_id allowlist) ≡ leb (length allowlist) 1
unfolding start_manager allow_all new_manager
start_manager-starts config book our_id [] = refl
start_manager-starts config book our_id (pid ∷ []) = refl
start_manager-starts config book our_id (pid ∷ other_pid ∷ allowlist) = ground arith
