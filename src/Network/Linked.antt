-- ===== src/Network/Linked.antt =====
-- How peers and sessions name each other (core/network/src/peer_manager).
use muta.Prelude.{
  Bool-cases, Dict, List, Option, [], arith, if◌then◌else◌, inl, inr, insert, lookup, lookup-insert,
  nat_beq, nat_beq_iff, nat_eq, none, refl, some, some_injective, ◌==◌, ◌∷◌, ◌≡◌, ◌≢◌, ◌⊎◌,
}
use muta.Network.Types.{PeerId, SessionId}
use muta.Network.Peers.{Peer, connected}
use muta.Network.Sessions.{Session, add_session, drop_session, find_session}

-- The peer of the session of that id.
unfoldable pub owner : SessionId → List Session → Option PeerId
owner sid [] = none
owner sid (s ∷ ss) = if nat_beq s.id sid then some s.peer else owner sid ss

-- A peer that holds a session id has that session, and a connected peer holds one.
pub record IsSettled (ss : List Session) (pid : PeerId) (p : Peer) : Type 0 where
  pub owned : p.session_id ≢ 0 → owner p.session_id ss ≡ some pid
  pub held : p.connectedness ≡ connected → p.session_id ≢ 0

pub record IsLinked (ss : List Session) (peers : Dict PeerId Peer) : Type 0 where
  pub settled : (pid : PeerId) (p : Peer) → lookup pid peers ≡ some p → IsSettled ss pid p

-- `q` is `p` with the same session, or with none.
pub record IsSafe (q p : Peer) : Type 0 where
  pub same : (q.session_id ≡ p.session_id) ⊎ (q.session_id ≡ 0)
  pub still :
      q.connectedness ≡ connected → (p.connectedness ≡ connected) × (q.session_id ≡ p.session_id)

pub owner-find :
    (sid : SessionId) (ss : List Session) (s : Session)
    → find_session sid ss ≡ some s
    → owner sid ss ≡ some s.peer
unfolding owner find_session
owner-find sid [] s h = cc
owner-find sid (t ∷ ss) s h = ground (arith, owner-find sid ss s)

pub owner-missing :
    (sid : SessionId) (ss : List Session) → find_session sid ss ≡ none → owner sid ss ≡ none
unfolding owner find_session
owner-missing sid [] h = refl
owner-missing sid (t ∷ ss) h = ground (arith, owner-missing sid ss)

pub owner-drop :
    (sid gone : SessionId) (ss : List Session)
    → sid ≢ gone
    → owner sid (drop_session gone ss) ≡ owner sid ss
unfolding owner drop_session
owner-drop sid gone [] h = refl
owner-drop sid gone (t ∷ ss) h = ground (arith, owner-drop sid gone ss)

pub owner-add :
    (sid : SessionId) (s : Session) (ss : List Session)
    → find_session s.id ss ≡ none
    → owner sid (add_session s ss) ≡ (if nat_beq s.id sid then some s.peer else owner sid ss)
unfolding owner add_session
owner-add sid s ss h = rw h refl

pub safe-IsSettled :
    (ss : List Session) (pid : PeerId) (q p : Peer)
    → IsSafe q p
    → IsSettled ss pid p
    → IsSettled ss pid q
safe-IsSettled ss pid q p f s = record {
  owned = λ h. ground (arith, f.same, s.owned);
  held = λ h. ground (arith, f.still h, s.held);
}

pub insert-IsLinked :
    (ss : List Session) (peers : Dict PeerId Peer) (pid : PeerId) (q : Peer)
    → IsSettled ss pid q
    → IsLinked ss peers
    → IsLinked ss (insert pid q peers)
insert-IsLinked ss peers pid q s l = record {
  settled = λ j p h. elim (Bool-cases (pid == j)) [
    | inl e ↦
        let k : some q ≡ some p = ground (arith, e, lookup-insert pid q peers j, h) in
        rw (← some_injective q p k, ← (nat_beq_iff pid j).0 e) s
    | inr e ↦ l.settled j p (ground (arith, e, lookup-insert pid q peers j, h))
  ];
}

-- A peer without a session.
pub record IsParted (q : Peer) : Type 0 where
  pub none_held : q.session_id ≡ 0
  pub not_connected : q.connectedness ≢ connected

pub parted-IsSettled :
    (ss : List Session) (pid : PeerId) (q : Peer) → IsParted q → IsSettled ss pid q
parted-IsSettled ss pid q h = record {
  owned = λ k. ground (arith, h.none_held);
  held = λ k. ground (arith, h.not_connected k);
}

-- The peers that a closed session leaves: its own has parted, the others never held it.
pub drop-IsLinked :
    (ss : List Session) (peers : Dict PeerId Peer) (gone : SessionId) (pid : PeerId)
    → (owner gone ss ≡ some pid) ⊎ (gone ≡ 0)
    → ((p : Peer) → lookup pid peers ≡ some p → IsSettled (drop_session gone ss) pid p)
    → IsLinked ss peers
    → IsLinked (drop_session gone ss) peers
drop-IsLinked ss peers gone pid mine its l = record {
  settled = λ j p h. elim (Bool-cases (pid == j)) [
    | inl e ↦ rw (← (nat_beq_iff pid j).0 e) (its p (rw ((nat_beq_iff pid j).0 e) h))
    | inr e ↦ record {
      owned = λ k. ground (
        arith,
        e,
        mine,
        k,
        (l.settled j p h).owned k,
        owner-drop p.session_id gone ss,
        some_injective pid j,
      );
      held = (l.settled j p h).held;
    }
  ];
}

pub part-IsLinked :
    (ss : List Session) (peers : Dict PeerId Peer) (gone : SessionId) (pid : PeerId) (q : Peer)
    → (owner gone ss ≡ some pid) ⊎ (gone ≡ 0)
    → IsParted q
    → IsLinked ss peers
    → IsLinked (drop_session gone ss) (insert pid q peers)
part-IsLinked ss peers gone pid q mine parted l =
    drop-IsLinked ss (insert pid q peers) gone pid mine
      (λ p h.
        rw
          (← some_injective q p
            (ground (arith, lookup-insert pid q peers pid, h, nat_beq_iff pid pid)))
          (parted-IsSettled (drop_session gone ss) pid q parted))
      (insert-IsLinked ss peers pid q (parted-IsSettled ss pid q parted) l)

-- A session of an id that no session has.
pub opened-IsLinked :
    (ss : List Session) (peers : Dict PeerId Peer) (t : Session) (q : Peer)
    → find_session t.id ss ≡ none
    → t.id ≢ 0
    → q.session_id ≡ t.id
    → IsLinked ss peers
    → IsLinked (add_session t ss) (insert t.peer q peers)
opened-IsLinked ss peers t q fresh positive holds l =
    insert-IsLinked (add_session t ss) peers t.peer q
      (record {
        owned = λ k. ground (arith, holds, owner-add q.session_id t ss fresh);
        held = λ k. ground (arith, holds, positive);
      })
      (record {
        settled = λ j p h. record {
          owned = λ k. ground (
            arith,
            fresh,
            k,
            (l.settled j p h).owned k,
            owner-add p.session_id t ss fresh,
            owner-missing t.id ss fresh,
            nat_beq_iff t.id p.session_id,
          );
          held = (l.settled j p h).held;
        };
      })
