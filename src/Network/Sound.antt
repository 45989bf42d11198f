-- ===== src/Network/Sound.antt =====
-- What the peer manager keeps between two events: the counters of its session book, and the links
-- between sessions and peers (core/network/src/peer_manager).
use muta.Prelude.{
  Dict, List, Option-cases, ap, arith, if_cases, inl, inr, insert, is_some, length, nat_eq, none,
  option_cases, some, sym, ◌+◌, ◌<◌, ◌∙◌, ◌≡◌, ◌≢◌, ◌⊎◌,
}
use muta.Network.Types.{PeerId, SessionId, SessionType, Text, inbound, outbound}
use muta.Network.Peers.{Peer}
use muta.Network.Sessions.{
  Session, SessionBook, add_session, count_in, count_out, drop_session, find_session,
  forget_session, insert_session, remove_session,
}
use muta.Network.Manager.{PeerManager, add_peer, peer, put_peer}
use muta.Network.Events.{change_peer, take_session}
use muta.Network.Linked.{
  IsLinked, IsParted, IsSafe, IsSettled, drop-IsLinked, insert-IsLinked, opened-IsLinked, owner,
  owner-find, part-IsLinked, parted-IsSettled, safe-IsSettled,
}
use muta.Network.Counted.{
  IsCounted, count_host, count_type, find_session-id, forget_session-IsCounted,
  insert_session-IsCounted,
}
use muta.Protocol.{u64_mod}

pub record IsSound (b : SessionBook) (peers : Dict PeerId Peer) : Type 0 where
  pub linked : IsLinked b.sessions peers
  pub counted : IsCounted b

abbrev pub Stands : PeerManager → Type 0
Stands m = IsSound m.sessions m.peers

pub add_settled :
    (pid : PeerId) (q : Peer) (m : PeerManager)
    → IsSettled m.sessions.sessions pid q
    → Stands m
    → Stands (add_peer pid q m)
add_settled pid q m h s = record {
  linked = insert-IsLinked m.sessions.sessions m.peers pid q h s.linked;
  counted = s.counted;
}

pub add_safe :
    (pid : PeerId) (q p : Peer) (m : PeerManager)
    → peer pid m ≡ some p
    → IsSafe q p
    → Stands m
    → Stands (add_peer pid q m)
add_safe pid q p m e h s =
    add_settled pid q m (safe-IsSettled m.sessions.sessions pid q p h (s.linked.settled pid p e)) s

pub add_parted :
    (pid : PeerId) (q : Peer) (m : PeerManager) → IsParted q → Stands m → Stands (add_peer pid q m)
add_parted pid q m h = add_settled pid q m (parted-IsSettled m.sessions.sessions pid q h)

pub change_safe :
    (pid : PeerId) (f : Peer → Peer) (m : PeerManager)
    → ((p : Peer) → IsSafe (f p) p)
    → Stands m
    → Stands (change_peer pid f m)
unfolding change_peer
change_safe pid f m h s =
    option_cases Stands (peer pid m) m _ (λ e. s) (λ p e. add_safe pid (f p) p m e (h p) s)

pub change_parted :
    (pid : PeerId) (f : Peer → Peer) (m : PeerManager)
    → ((p : Peer) → IsParted (f p))
    → Stands m
    → Stands (change_peer pid f m)
unfolding change_peer
change_parted pid f m h s =
    option_cases Stands (peer pid m) m _ (λ e. s) (λ p e. add_parted pid (f p) m (h p) s)

pub put_safe :
    (pid : PeerId) (q p : Peer) (m : PeerManager)
    → (peer pid m ≡ none) ⊎ (peer pid m ≡ some p)
    → IsSafe q p
    → Stands m
    → Stands (put_peer pid q m)
unfolding put_peer
put_safe pid q p m (inl e) h s = rw e s
put_safe pid q p m (inr e) h s = rw e (add_safe pid q p m e h s)

pub put_parted :
    (pid : PeerId) (q : Peer) (m : PeerManager) → IsParted q → Stands m → Stands (put_peer pid q m)
unfolding put_peer
put_parted pid q m h s =
    if_cases Stands (is_some (peer pid m)) _ _ (λ e. add_parted pid q m h s) (λ e. s)

forget_session-sessions :
    (t : Session) (b : SessionBook) → (forget_session t b).sessions ≡ drop_session t.id b.sessions
unfolding forget_session count_out
forget_session-sessions t b = ground arith

forget-linked :
    (t : Session) (b : SessionBook) (peers : Dict PeerId Peer)
    → find_session t.id b.sessions ≡ some t
    → IsLinked (drop_session t.id b.sessions) peers
    → IsCounted b
    → IsSound (forget_session t b) peers
forget-linked t b peers e l c = record {
  linked = rw (forget_session-sessions t b) l;
  counted = forget_session-IsCounted t b e c;
}

-- A session is taken and its peer parts.
pub take_parted :
    (sid : SessionId) (pid : PeerId) (q : Peer) (m : PeerManager)
    → (owner sid m.sessions.sessions ≡ some pid) ⊎ (sid ≡ 0)
    → IsParted q
    → Stands m
    → Stands (add_peer pid q (take_session sid m).1)
unfolding take_session remove_session
take_parted sid pid q m mine h s = elim (Option-cases (find_session sid m.sessions.sessions)) [
  | inl e ↦ rw (e, take_session, remove_session) (add_parted pid q m h s)
  | inr (t, e) ↦
      let i : t.id ≡ sid = find_session-id sid m.sessions.sessions t e in
      rw (e, take_session, remove_session)
        (forget-linked t m.sessions (insert pid q m.peers)
          (ap (λ (x : SessionId). find_session x m.sessions.sessions) i ∙ e)
          (part-IsLinked m.sessions.sessions m.peers t.id pid q (rw i mine) h s.linked) s.counted)
]

-- The session that closes is taken, and the peer it belonged to parts, if the book has it.
pub take_change_parted :
    (t : Session) (f : Peer → Peer) (m : PeerManager)
    → find_session t.id m.sessions.sessions ≡ some t
    → ((p : Peer) → IsParted (f p))
    → Stands m
    → Stands (change_peer t.peer f (record m { sessions = forget_session t m.sessions }))
unfolding change_peer
take_change_parted t f m e h s =
    let mine : owner t.id m.sessions.sessions ≡ some t.peer =
      owner-find t.id m.sessions.sessions t e in
    option_cases Stands (peer t.peer m) (record m { sessions = forget_session t m.sessions }) _
      (λ absent.
        forget-linked t m.sessions m.peers e
          (drop-IsLinked m.sessions.sessions m.peers t.id t.peer (inl mine)
            (λ p k. let both : ⊥ = cc (absent, k) in elim both [ ]) s.linked)
          s.counted)
      (λ p k.
        forget-linked t m.sessions (insert t.peer (f p) m.peers) e
          (part-IsLinked m.sessions.sessions m.peers t.id t.peer (f p) (inl mine) (h p) s.linked)
          s.counted)

insert_session-sessions :
    (t : Session) (b : SessionBook) → (insert_session t b).sessions ≡ add_session t b.sessions
unfolding insert_session count_in
insert_session-sessions t b = ground arith

-- A session of an id that none has is opened, and its peer holds it.
pub opened-Stands :
    (t : Session) (q : Peer) (m : PeerManager)
    → find_session t.id m.sessions.sessions ≡ none
    → t.id ≢ 0
    → length m.sessions.sessions + 1 < u64_mod
    → q.session_id ≡ t.id
    → Stands m
    → Stands (add_peer t.peer q (record m { sessions = insert_session t m.sessions }))
opened-Stands t q m fresh positive room holds s = record {
  linked =
      rw (insert_session-sessions t m.sessions)
        (opened-IsLinked m.sessions.sessions m.peers t q fresh positive holds s.linked);
  counted = insert_session-IsCounted t m.sessions fresh room s.counted;
}

-- Other sessions with the same owners and the same counts.
abbrev pub IsAlike : List Session → List Session → Type 0
IsAlike ss us =
    ((sid : SessionId) → owner sid us ≡ owner sid ss)
    × ((ty : SessionType) → count_type ty us ≡ count_type ty ss)
    × ((host : Text) → count_host host us ≡ count_host host ss)
    × (length us ≡ length ss)

pub alike-Stands :
    (us : List Session) (m : PeerManager)
    → IsAlike m.sessions.sessions us
    → Stands m
    → Stands (record m { sessions = record m.sessions { sessions = us } })
alike-Stands us m (owners, types, hosts, lengths) s = record {
  linked = record {
    settled = λ pid p e.
        let h = s.linked.settled pid p e in
        record { owned = λ k. owners p.session_id ∙ h.owned k; held = h.held };
  };
  counted = record {
    inbound_exact = s.counted.inbound_exact ∙ sym (types inbound);
    outbound_exact = s.counted.outbound_exact ∙ sym (types outbound);
    hosts_exact = λ host. rw (hosts host) (s.counted.hosts_exact host);
    few = rw lengths s.counted.few;
  };
}
