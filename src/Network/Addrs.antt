-- ===== src/Network/Addrs.antt =====
-- The addresses of a peer (core/network/src/peer_manager/addr_set.rs): a map from each address to
-- the attempts that failed.
use muta.Prelude.{
  Bool, Dict, List, [], contains_key, false, if◌then◌else◌, insert, leb, length, list_eq, lookup,
  nat_beq, nat_eq, none, not, remove, some, ℕ, ◌%◌, ◌&&◌, ◌+◌, ◌∷◌,
}
use muta.Protocol.{u64_mod}
use muta.Network.Types.{Multiaddr, PeerId, id_bytes, peer_multiaddr, protocol_eq}
use muta.Network.Retry.{max_retry_count}

abbrev pub max_addr_failure : ℕ
max_addr_failure = max_retry_count

pub record PeerAddrSet : Type 0 where
  pub peer_id : PeerId
  pub inner : Dict Multiaddr ℕ

unfoldable pub new_addrs : PeerId → PeerAddrSet
new_addrs peer_id = record { peer_id = peer_id; inner = [] }

unfoldable pub match_peer_id : PeerId → Multiaddr → Bool
match_peer_id peer_id pma = elim (id_bytes pma) [ none ↦ false | some id ↦ nat_beq id peer_id ]

-- Those that carry the peer's id and are new, each with no failure.
unfoldable pub add_addrs : PeerId → List Multiaddr → Dict Multiaddr ℕ → Dict Multiaddr ℕ
unfolding match_peer_id
add_addrs peer_id [] entries = entries
add_addrs peer_id (pma ∷ pmas) entries = add_addrs peer_id pmas (
    if match_peer_id peer_id pma && not (contains_key pma entries)
    then insert pma 0 entries
    else entries)

unfoldable pub insert_addrs : List Multiaddr → PeerAddrSet → PeerAddrSet
unfolding add_addrs
insert_addrs multiaddrs s = record s { inner = add_addrs s.peer_id multiaddrs s.inner }

unfoldable pub set_addrs : List Multiaddr → PeerAddrSet → PeerAddrSet
unfolding add_addrs
set_addrs multiaddrs s = record s { inner = add_addrs s.peer_id multiaddrs [] }

unfoldable pub insert_raw : Multiaddr → PeerAddrSet → PeerAddrSet
unfolding insert_addrs
insert_raw ma s = elim (id_bytes ma) [
  | none ↦ insert_addrs (peer_multiaddr ma s.peer_id ∷ []) s
  | some id ↦ if nat_beq id s.peer_id then insert_addrs (peer_multiaddr ma s.peer_id ∷ []) s else s
]

unfoldable pub remove_addr : Multiaddr → PeerAddrSet → PeerAddrSet
remove_addr pma s = record s { inner = remove pma s.inner }

unfoldable pub contains_addr : Multiaddr → PeerAddrSet → Bool
contains_addr pma s = contains_key pma s.inner

unfoldable pub keys : Dict Multiaddr ℕ → List Multiaddr
keys [] = []
keys ((pma, failure) ∷ entries) = pma ∷ keys entries

unfoldable pub all_raw : PeerAddrSet → List Multiaddr
unfolding keys
all_raw s = keys s.inner

abbrev pub addr_connectable : ℕ → Bool
addr_connectable failure = leb failure max_addr_failure

unfoldable pub connectable_of : Dict Multiaddr ℕ → List Multiaddr
connectable_of [] = []
connectable_of ((pma, failure) ∷ entries) =
    let rest = connectable_of entries in if addr_connectable failure then pma ∷ rest else rest

unfoldable pub connectable : PeerAddrSet → List Multiaddr
unfolding connectable_of
connectable s = connectable_of s.inner

unfoldable pub connectable_len : PeerAddrSet → ℕ
unfolding connectable
connectable_len s = length (connectable s)

-- A change of the failures of an address, if the peer has it.
unfoldable pub change_failure : (ℕ → ℕ) → Multiaddr → PeerAddrSet → PeerAddrSet
change_failure f pma s = elim (lookup pma s.inner) [
  | none ↦ s
  | some failure ↦ record s { inner = insert pma (f failure) s.inner }
]

unfoldable pub inc_failure : Multiaddr → PeerAddrSet → PeerAddrSet
unfolding change_failure
inc_failure = change_failure (λ n. (n + 1) % u64_mod)

unfoldable pub give_up : Multiaddr → PeerAddrSet → PeerAddrSet
unfolding change_failure
give_up = change_failure (λ n. max_addr_failure + 1)

unfoldable pub reset_failure : Multiaddr → PeerAddrSet → PeerAddrSet
unfolding change_failure
reset_failure = change_failure (λ n. 0)
