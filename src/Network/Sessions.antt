-- ===== src/Network/Sessions.antt =====
-- The book of the open sessions (core/network/src/peer_manager/session_book.rs).
use muta.Prelude.{
  Bool, Dict, List, Option, [], false, get_or, if◌then◌else◌, insert, is_some, leb, lookup, ltb,
  nat_beq, nat_eq, none, remove, some, true, ℕ, ◌%◌, ◌+◌, ◌-◌, ◌||◌, ◌∷◌,
}
use muta.Protocol.{u64_mod}
use muta.Network.Types.{
  ConnectedAddr, Multiaddr, PeerId, SessionContext, SessionId, SessionType, Text, connected_addr,
  inbound, outbound,
}

pub data BookError : Type 0 where
  reach_same_ip_conn_limit reach_inbound_conn_limit reach_outbound_conn_limit : BookError

pub record BookConfig : Type 0 where
  pub same_ip_conn_limit : ℕ
  pub inbound_conn_limit : ℕ
  pub outbound_conn_limit : ℕ

-- `peer` is the peer of that id: a session shares it with the manager's book of peers.
pub record Session : Type 0 where
  pub id : SessionId
  pub ctx : SessionContext
  pub peer : PeerId
  pub blocked : Bool
  pub connected_addr : ConnectedAddr

pub record SessionBook : Type 0 where
  pub config : BookConfig
  pub hosts : Dict Text ℕ
  pub sessions : List Session
  pub inbound_count : ℕ
  pub outbound_count : ℕ

unfoldable pub new_book : BookConfig → SessionBook
new_book config = record {
  config = config;
  hosts = [];
  sessions = [];
  inbound_count = 0;
  outbound_count = 0;
}

unfoldable pub make_session : (Multiaddr → Text) → PeerId → SessionContext → Session
make_session to_string peer ctx = record {
  id = ctx.id;
  ctx = ctx;
  peer = peer;
  blocked = false;
  connected_addr = connected_addr to_string ctx.address;
}

unfoldable pub find_session : SessionId → List Session → Option Session
find_session sid [] = none
find_session sid (s ∷ ss) = if nat_beq s.id sid then some s else find_session sid ss

-- `take`: the ids in a `HashSet` differ, so at most one session goes.
unfoldable pub drop_session : SessionId → List Session → List Session
drop_session sid [] = []
drop_session sid (s ∷ ss) = if nat_beq s.id sid then ss else s ∷ drop_session sid ss

unfoldable pub type_limit : SessionType → SessionBook → Option BookError
type_limit inbound b =
    if leb b.config.inbound_conn_limit b.inbound_count then some reach_inbound_conn_limit else none
type_limit outbound b =
    if leb b.config.outbound_conn_limit b.outbound_count
    then some reach_outbound_conn_limit
    else none

unfoldable pub acceptable : Session → SessionBook → Option BookError
unfolding type_limit
acceptable session b =
    let host_count = get_or (lookup session.connected_addr.host b.hosts) 0 in
    if nat_beq host_count (u64_mod - 1) || ltb b.config.same_ip_conn_limit (host_count + 1)
    then some reach_same_ip_conn_limit
    else type_limit session.ctx.ty b

-- The counters are machine words that wrap.
abbrev pub wrap_inc : ℕ → ℕ
wrap_inc n = (n + 1) % u64_mod

abbrev pub wrap_dec : ℕ → ℕ
wrap_dec n = (n + (u64_mod - 1)) % u64_mod

unfoldable pub count_in : SessionType → SessionBook → SessionBook
count_in inbound b = record b { inbound_count = wrap_inc b.inbound_count }
count_in outbound b = record b { outbound_count = wrap_inc b.outbound_count }

unfoldable pub count_out : SessionType → SessionBook → SessionBook
count_out inbound b = record b { inbound_count = wrap_dec b.inbound_count }
count_out outbound b = record b { outbound_count = wrap_dec b.outbound_count }

unfoldable pub host_in : Text → Dict Text ℕ → Dict Text ℕ
host_in host hosts = elim (lookup host hosts) [
  | none ↦ insert host 1 hosts
  | some c ↦ insert host (wrap_inc c) hosts
]

unfoldable pub host_out : Text → Dict Text ℕ → Dict Text ℕ
host_out host hosts = elim (lookup host hosts) [
  | none ↦ hosts
  | some c ↦ if nat_beq c 1 then remove host hosts else insert host (wrap_dec c) hosts
]

-- A session of an id that is in the set leaves the set as it is.
unfoldable pub add_session : Session → List Session → List Session
unfolding find_session
add_session session ss = if is_some (find_session session.id ss) then ss else session ∷ ss

unfoldable pub insert_session : Session → SessionBook → SessionBook
unfolding host_in count_in add_session
insert_session session b =
    let counted =
      count_in session.ctx.ty (record b { hosts = host_in session.connected_addr.host b.hosts }) in
    record counted { sessions = add_session session counted.sessions }

unfoldable pub forget_session : Session → SessionBook → SessionBook
unfolding host_out count_out drop_session
forget_session session b = count_out session.ctx.ty (record b {
  sessions = drop_session session.id b.sessions;
  hosts = host_out session.connected_addr.host b.hosts;
})

unfoldable pub remove_session : SessionId → SessionBook → Option Session × SessionBook
unfolding find_session forget_session
remove_session sid b = elim (find_session sid b.sessions) [
  | none ↦ (none, b)
  | some session ↦ (some session, forget_session session b)
]

-- `ArcSession::block`, of the session of an id.
unfoldable pub block_session : SessionId → List Session → List Session
block_session sid [] = []
block_session sid (s ∷ ss) =
    if nat_beq s.id sid then record s { blocked = true } ∷ ss else s ∷ block_session sid ss
