-- ===== src/Network/Types.antt =====
-- What the peer manager reads and stores (core/network/src/common.rs, core/network/src/event.rs,
-- core/network/src/peer_manager/mod.rs). Texts and peer ids are the numbers that their bytes spell:
-- the manager only compares them.
use muta.Prelude.{
  Bool, Eq, List, Option, [], arith, false, get_or, if◌then◌else◌, is_some, nat_beq, none, some,
  true, ℕ, ◌++◌, ◌↔◌, ◌∷◌, ◌≡◌,
}

abbrev pub Text : Type 0
Text = ℕ

abbrev pub PeerId : Type 0
PeerId = ℕ

abbrev pub PublicKey : Type 0
PublicKey = ℕ

abbrev pub SessionId : Type 0
SessionId = ℕ

-- A component of an address, as the code tells them apart.
pub data Protocol : Type 0 where
  ip4 ip6 dns4 dns6 tls p2p : Text → Protocol
  tcp other : ℕ → Protocol

abbrev protocol_kind : Protocol → ℕ
protocol_kind (ip4 t) = 0
protocol_kind (ip6 t) = 1
protocol_kind (dns4 t) = 2
protocol_kind (dns6 t) = 3
protocol_kind (tls t) = 4
protocol_kind (p2p t) = 5
protocol_kind (tcp t) = 6
protocol_kind (other t) = 7

abbrev protocol_text : Protocol → ℕ
protocol_text (ip4 t) = t
protocol_text (ip6 t) = t
protocol_text (dns4 t) = t
protocol_text (dns6 t) = t
protocol_text (tls t) = t
protocol_text (p2p t) = t
protocol_text (tcp t) = t
protocol_text (other t) = t

abbrev protocol_beq : Protocol → Protocol → Bool
protocol_beq a b =
    if nat_beq (protocol_kind a) (protocol_kind b)
    then nat_beq (protocol_text a) (protocol_text b)
    else false

pub protocol_beq_iff : (a b : Protocol) → (protocol_beq a b ≡ true) ↔ (a ≡ b)
protocol_beq_iff a b = ground arith

instance abbrev pub protocol_eq : Eq Protocol
protocol_eq = record { eq = protocol_beq; eq_iff = protocol_beq_iff }

abbrev pub Multiaddr : Type 0
Multiaddr = List Protocol

-- `MultiaddrExt::id_bytes`: the first peer id of an address.
abbrev pub id_bytes : Multiaddr → Option Text
id_bytes [] = none
id_bytes (p2p id ∷ ma) = some id
id_bytes (p ∷ ma) = id_bytes ma

abbrev pub has_id : Multiaddr → Bool
has_id ma = is_some (id_bytes ma)

abbrev pub push_id : Multiaddr → PeerId → Multiaddr
push_id ma id = ma ++ (p2p id ∷ [])

-- `PeerMultiaddr` is a `Multiaddr` with the peer id at its end.
abbrev pub peer_multiaddr : Multiaddr → PeerId → Multiaddr
peer_multiaddr ma peer_id = if has_id ma then ma else push_id ma peer_id

pub record ConnectedAddr : Type 0 where
  pub host : Text
  pub port : ℕ

-- The last host and the last port that an address names.
abbrev pub scan_addr : Multiaddr → Option Text → ℕ → Option Text × ℕ
scan_addr [] host port = (host, port)
scan_addr (ip4 t ∷ ma) host port = scan_addr ma (some t) port
scan_addr (ip6 t ∷ ma) host port = scan_addr ma (some t) port
scan_addr (dns4 t ∷ ma) host port = scan_addr ma (some t) port
scan_addr (dns6 t ∷ ma) host port = scan_addr ma (some t) port
scan_addr (tls t ∷ ma) host port = scan_addr ma (some t) port
scan_addr (tcp p ∷ ma) host port = scan_addr ma host p
scan_addr (p2p t ∷ ma) host port = scan_addr ma host port
scan_addr (other t ∷ ma) host port = scan_addr ma host port

unfoldable pub connected_addr : (Multiaddr → Text) → Multiaddr → ConnectedAddr
connected_addr to_string ma =
    let (host, port) = scan_addr ma none 0 in
    record { host = get_or host (to_string ma); port = port }

pub data SessionType : Type 0 where
  inbound outbound : SessionType

-- What the transport says of a session.
pub record SessionContext : Type 0 where
  pub id : SessionId
  pub address : Multiaddr
  pub ty : SessionType

pub data ConnectionErrorKind : Type 0 where
  io dns_resolver multiaddr_not_supported secio_handshake time_out : ConnectionErrorKind
  peer_id_not_match protocol_handle : ConnectionErrorKind

pub data SessionErrorKind : Type 0 where
  session_io protocol unexpected : SessionErrorKind

pub data MisbehaviorKind : Type 0 where
  discovery ping_timeout ping_unexpect : MisbehaviorKind

pub data TrustFeedback : Type 0 where
  fatal worse bad neutral good : TrustFeedback

-- What the manager sends to the connection service.
pub data ConnectionEvent : Type 0 where
  connect : List Multiaddr → ConnectionEvent
  disconnect : SessionId → ConnectionEvent

pub data PeerManagerEvent : Type 0 where
  connect_peers_now : List PeerId → PeerManagerEvent
  connect_failed : Multiaddr → ConnectionErrorKind → PeerManagerEvent
  new_session : PublicKey → SessionContext → PeerManagerEvent
  unidentified_session : PublicKey → SessionContext → PeerManagerEvent
  repeated_connection : SessionType → SessionId → Multiaddr → PeerManagerEvent
  session_blocked : SessionContext → PeerManagerEvent
  session_closed : PeerId → SessionId → PeerManagerEvent
  session_failed : SessionId → SessionErrorKind → PeerManagerEvent
  peer_alive : PeerId → PeerManagerEvent
  misbehave : PeerId → MisbehaviorKind → PeerManagerEvent
  trust_metric : PeerId → TrustFeedback → PeerManagerEvent
  discover_multi_addrs : List Multiaddr → PeerManagerEvent
  identified_addrs : PeerId → List Multiaddr → PeerManagerEvent
  add_new_listen_addr : Multiaddr → PeerManagerEvent
  remove_listen_addr : Multiaddr → PeerManagerEvent
