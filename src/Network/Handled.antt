-- ===== src/Network/Handled.antt =====
-- What the calls on the handle keep, and what they answer (core/network/src/peer_manager/mod.rs,
-- core/network/src/peer_manager/shared.rs).
use muta.Prelude.{
  List, Result, [], err, false, if_cases, inl, member, nat_eq, not, ok, refl, ℕ, ◌&&◌, ◌>>=◌, ◌∷◌,
}
use muta.Network.Types.{PeerId, SessionId}
use muta.Network.Tags.{PeerTag, TagError, Tags, consensus, same_tag}
use muta.Network.Peers.{Peer}
use muta.Network.Sessions.{Session}
use muta.Network.Manager.{PeerManager, add_peer}
use muta.Network.Events.{change_peer}
use muta.Network.Handle.{
  SharedConfig, manager_or, note_consensus, refresh_blocked, refreshed, set_tags, tag_all,
  tag_consensus, tag_peer, untag_all, untag_peer, untagged,
}
use muta.Network.Linked.{IsSafe, IsSettled}
use muta.Network.Sound.{IsAlike, Stands, add_settled, alike-Stands, change_safe}
use muta.Network.Blames.{cons-IsAlike, self-IsAlike}
use muta.Network.Dials.{known_or_new-IsSettled}

untagged-IsSafe : (tag : PeerTag) (p : Peer) → IsSafe (untagged tag p) p
unfolding untagged
untagged-IsSafe tag p = record { same = inl refl; still = λ h. (h, refl) }

note_consensus-Stands :
    (tag : PeerTag) (pid : PeerId) (m : PeerManager) → Stands m → Stands (note_consensus tag pid m)
unfolding note_consensus
note_consensus-Stands tag pid m s =
    if_cases Stands (same_tag tag consensus && not (member pid m.consensus_peers)) _ _ (λ e. s)
      (λ e. s)

tag_result-Stands :
    (pid : PeerId) (tag : PeerTag) (p : Peer) (r : Result Tags TagError) (m : PeerManager)
    → IsSettled m.sessions.sessions pid p
    → Stands m
    → Stands (manager_or m (set_tags p r >>= (λ q. ok (note_consensus tag pid (add_peer pid q m)))))
tag_result-Stands pid tag p (ok tags) m h s =
    note_consensus-Stands tag pid (add_peer pid (record p { tags = tags }) m)
      (add_settled pid (record p { tags = tags }) m (record { owned = h.owned; held = h.held }) s)
tag_result-Stands pid tag p (err e) m h s = s

pub tag_peer-Stands :
    (pid : PeerId) (tag : PeerTag) (m : PeerManager)
    → Stands m
    → Stands (manager_or m (tag_peer pid tag m))
unfolding tag_peer
tag_peer-Stands pid tag m s = tag_result-Stands pid tag _ _ m (known_or_new-IsSettled pid m s) s

pub untag_peer-Stands :
    (pid : PeerId) (tag : PeerTag) (m : PeerManager) → Stands m → Stands (untag_peer pid tag m)
unfolding untag_peer
untag_peer-Stands pid tag m s =
    let h : Stands (change_peer pid (untagged tag) m) =
      change_safe pid (untagged tag) m (untagged-IsSafe tag) s in
    if_cases Stands (same_tag tag consensus) _ _ (λ e. h) (λ e. h)

untag_all-Stands : (l : List PeerId) (m : PeerManager) → Stands m → Stands (untag_all l m)
unfolding untag_all
untag_all-Stands [] m s = s
untag_all-Stands (pid ∷ l) m s =
    untag_all-Stands l (change_peer pid (untagged consensus) m)
      (change_safe pid (untagged consensus) m (untagged-IsSafe consensus) s)

tag_all-Stands : (l : List PeerId) (m : PeerManager) → Stands m → Stands (tag_all l m)
unfolding tag_all
tag_all-Stands [] m s = s
tag_all-Stands (pid ∷ l) m s =
    tag_all-Stands l (manager_or m (tag_peer pid consensus m)) (tag_peer-Stands pid consensus m s)

pub tag_consensus-Stands :
    (pids : List PeerId) (m : PeerManager) → Stands m → Stands (tag_consensus pids m)
unfolding tag_consensus
tag_consensus-Stands pids m s =
    tag_all-Stands pids (untag_all m.consensus_peers m) (untag_all-Stands m.consensus_peers m s)

refreshed-IsAlike :
    (config : SharedConfig) (size : SessionId → ℕ) (ss : List Session)
    → IsAlike ss (refreshed config size ss)
unfolding refreshed
refreshed-IsAlike config size [] = self-IsAlike []
refreshed-IsAlike config size (t ∷ ss) =
    if_cases (IsAlike (t ∷ ss)) _ _ _
      (λ e. cons-IsAlike t false ss _ (refreshed-IsAlike config size ss))
      (λ e. cons-IsAlike t t.blocked ss _ (refreshed-IsAlike config size ss))

pub refresh_blocked-Stands :
    (config : SharedConfig) (size : SessionId → ℕ) (m : PeerManager)
    → Stands m
    → Stands (refresh_blocked config size m)
unfolding refresh_blocked
refresh_blocked-Stands config size m s =
    alike-Stands (refreshed config size m.sessions.sessions) m
      (refreshed-IsAlike config size m.sessions.sessions) s
