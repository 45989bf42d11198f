-- ===== src/Network/Counted.antt =====
-- What the counters of the session book count (core/network/src/peer_manager/session_book.rs).
use muta.Prelude.{
  Bool, Dict, List, Option, [], arith, false, if◌then◌else◌, length, lookup, lookup-insert,
  lookup-remove, nat_beq_iff, nat_eq, none, some, true, ℕ, ◌+◌, ◌<◌, ◌==◌, ◌∷◌, ◌≡◌, ◌≤◌,
}
use muta.Protocol.{u64_mod}
use muta.Network.Types.{SessionId, SessionType, Text, inbound, outbound}
use muta.Network.Sessions.{
  Session, SessionBook, add_session, count_in, count_out, drop_session, find_session,
  forget_session, host_in, host_out, insert_session, wrap_dec, wrap_inc,
}

abbrev pub same_type : SessionType → SessionType → Bool
same_type inbound inbound = true
same_type outbound outbound = true
same_type a b = false

abbrev pub one_if : Bool → ℕ
one_if b = if b then 1 else 0

unfoldable pub count_type : SessionType → List Session → ℕ
count_type ty [] = 0
count_type ty (s ∷ ss) = one_if (same_type s.ctx.ty ty) + count_type ty ss

unfoldable pub count_host : Text → List Session → ℕ
count_host host [] = 0
count_host host (s ∷ ss) = one_if (s.connected_addr.host == host) + count_host host ss

-- The entry of a host with so many sessions.
abbrev pub host_entry : ℕ → Option ℕ
host_entry n = if n == 0 then none else some n

pub record IsCounted (b : SessionBook) : Type 0 where
  pub inbound_exact : b.inbound_count ≡ count_type inbound b.sessions
  pub outbound_exact : b.outbound_count ≡ count_type outbound b.sessions
  pub hosts_exact : (host : Text) → lookup host b.hosts ≡ host_entry (count_host host b.sessions)
  pub few : length b.sessions < u64_mod

pub count_type-le : (ty : SessionType) (ss : List Session) → count_type ty ss ≤ length ss
unfolding count_type
count_type-le ty [] = omega arith
count_type-le ty (s ∷ ss) = ground (arith, count_type-le ty ss)

pub count_host-le : (host : Text) (ss : List Session) → count_host host ss ≤ length ss
unfolding count_host
count_host-le host [] = omega arith
count_host-le host (s ∷ ss) = ground (arith, count_host-le host ss)

pub find_session-id :
    (sid : SessionId) (ss : List Session) (s : Session) → find_session sid ss ≡ some s → s.id ≡ sid
unfolding find_session
find_session-id sid [] s h = cc
find_session-id sid (t ∷ ss) s h = ground (arith, find_session-id sid ss s, nat_beq_iff t.id sid)

count_type-drop :
    (ty : SessionType) (sid : SessionId) (ss : List Session) (s : Session)
    → find_session sid ss ≡ some s
    → count_type ty ss ≡ one_if (same_type s.ctx.ty ty) + count_type ty (drop_session sid ss)
unfolding find_session drop_session count_type
count_type-drop ty sid [] s h = cc
count_type-drop ty sid (t ∷ ss) s h = ground (arith, count_type-drop ty sid ss s)

count_host-drop :
    (host : Text) (sid : SessionId) (ss : List Session) (s : Session)
    → find_session sid ss ≡ some s
    → count_host host ss
      ≡ one_if (s.connected_addr.host == host) + count_host host (drop_session sid ss)
unfolding find_session drop_session count_host
count_host-drop host sid [] s h = cc
count_host-drop host sid (t ∷ ss) s h = ground (arith, count_host-drop host sid ss s)

length-drop_le : (sid : SessionId) (ss : List Session) → length (drop_session sid ss) ≤ length ss
unfolding drop_session
length-drop_le sid [] = omega arith
length-drop_le sid (t ∷ ss) = ground (arith, length-drop_le sid ss)

host_in-entry :
    (host : Text) (hosts : Dict Text ℕ) (n : ℕ) (j : Text)
    → lookup host hosts ≡ host_entry n
    → n + 1 < u64_mod
    → lookup j (host_in host hosts) ≡ (if host == j then host_entry (n + 1) else lookup j hosts)
unfolding host_in
host_in-entry host hosts n j h small =
    ground (arith, lookup-insert host 1 hosts j, lookup-insert host (wrap_inc n) hosts j)

host_out-entry :
    (host : Text) (hosts : Dict Text ℕ) (n : ℕ) (j : Text)
    → lookup host hosts ≡ host_entry (n + 1)
    → n + 1 < u64_mod
    → lookup j (host_out host hosts) ≡ (if host == j then host_entry n else lookup j hosts)
unfolding host_out
host_out-entry host hosts n j h small =
    ground (arith, lookup-remove host j hosts, lookup-insert host (wrap_dec (n + 1)) hosts j)

-- A new session is counted once, by its direction and by its host.
pub insert_session-IsCounted :
    (s : Session) (b : SessionBook)
    → find_session s.id b.sessions ≡ none
    → length b.sessions + 1 < u64_mod
    → IsCounted b
    → IsCounted (insert_session s b)
unfolding insert_session count_in add_session count_type count_host
insert_session-IsCounted s b fresh room c = record {
  inbound_exact = ground (arith, c.inbound_exact, fresh, room, count_type-le inbound b.sessions);
  outbound_exact = ground (arith, c.outbound_exact, fresh, room, count_type-le outbound b.sessions);
  hosts_exact = λ j. ground (
    arith,
    c.hosts_exact j,
    fresh,
    room,
    host_in-entry s.connected_addr.host b.hosts (count_host s.connected_addr.host b.sessions) j,
    c.hosts_exact s.connected_addr.host,
    count_host-le s.connected_addr.host b.sessions,
    nat_beq_iff s.connected_addr.host j,
  );
  few = ground (arith, fresh, room);
}

-- The count of a session that is forgotten is taken back.
pub forget_session-IsCounted :
    (s : Session) (b : SessionBook)
    → find_session s.id b.sessions ≡ some s
    → IsCounted b
    → IsCounted (forget_session s b)
unfolding forget_session count_out
forget_session-IsCounted s b there c = record {
  inbound_exact = ground (
    arith,
    c.inbound_exact,
    c.few,
    count_type-le inbound b.sessions,
    count_type-drop inbound s.id b.sessions s there,
  );
  outbound_exact = ground (
    arith,
    c.outbound_exact,
    c.few,
    count_type-le outbound b.sessions,
    count_type-drop outbound s.id b.sessions s there,
  );
  hosts_exact = λ j. ground (
    arith,
    c.hosts_exact j,
    c.few,
    there,
    count_host-drop s.connected_addr.host s.id b.sessions s there,
    count_host-drop j s.id b.sessions s there,
    host_out-entry s.connected_addr.host b.hosts
        (count_host s.connected_addr.host (drop_session s.id b.sessions)) j,
    c.hosts_exact s.connected_addr.host,
    count_host-le s.connected_addr.host b.sessions,
    nat_beq_iff s.connected_addr.host j,
    nat_beq_iff s.connected_addr.host s.connected_addr.host,
  );
  few = ground (arith, c.few, length-drop_le s.id b.sessions);
}
