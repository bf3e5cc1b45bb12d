-- ===== src/Server/Sessions.antt =====
-- A client's session on the server: `ClientSessionBase` of slt-server/src/sessions/mod.rs, with its errors
-- (sessions/error.rs), its shared types (sessions/types.rs) and the parts of sessions/mod.rs that its handlers
-- call. The children have the handlers, one for each file of sessions/.
--
-- Input and output are calls to an environment, which answers each by a function of all calls before it, the
-- latest first; the session keeps that list. Metrics, tracing and the reused buffers are left out, and the shared
-- registry is a part of the state.
pub mod Egress
pub mod Handshake
pub mod Register
pub mod Tcp
pub mod Udp
pub mod Lifecycle
pub mod Forward
pub mod Success
pub mod Requests
pub mod Answers
pub mod Commit
pub mod Recovery
pub mod Registration
pub mod View
pub mod Invariant
use slt.Prelude.{
  ℕ, ◌^◌, List, [], ◌∷◌, Option, none, some, Bool, true, false, leb, ltb, ◌==◌, ◌||◌, if◌then◌else◌,
}
use slt.Prelude.{Result, ok, err}
use slt.Prelude.Maps.{Key, same}
use slt.Prelude.Actions.{Action, return, fail, modify}
use slt.Proto.Message.{Message, MessageError, MessageLimits}
use slt.Proto.Framing.{FrameError}
use slt.Proto.Payloads.Errors.{PayloadError}
use slt.Proto.Payloads.Registration.{
  CipherSuite, aes128_gcm, cha_cha20_poly1305, RegisterCidPayload,
}
use slt.Proto.Admissibility.{
  MessageValidationError, invalid_direction, invalid_phase, invalid_transport, invalid_payload,
}
use slt.Qsp.Crypto.{Crypto, QspCryptoError}
use slt.Qsp.Session.{Session, QspSessionError}
use slt.Server.Registry.{Registry}
use slt.Server.Upgrade.{UdpUpgradeState}
use slt.Server.Upgrade

-- The error kinds that the handlers make, and those that come from outside.
pub data IoError : Type 0 where
  connection_aborted timed_out broken_pipe not_connected : IoError
  foreign : ℕ → IoError

-- The first two kinds are of `QuicQspSession::send`: of the session itself, and of its I/O.
pub data UdpQspError : Type 0 where
  qsp : QspSessionError → UdpQspError
  qsp_io : IoError → UdpQspError
  io : IoError → UdpQspError
  frame : FrameError → UdpQspError

pub data SessionError : Type 0 where
  protocol_violation : SessionError
  connection : IoError → SessionError
  udp_qsp : UdpQspError → SessionError
  io : IoError → SessionError
  frame : FrameError → SessionError
  message : MessageError → SessionError
  payload : PayloadError → SessionError
  payload_encode : PayloadError → SessionError

-- `From<MessageValidationError> for SessionError`
unfoldable pub from_validation : MessageValidationError → SessionError
from_validation (invalid_direction t s) = protocol_violation
from_validation (invalid_phase t p) = protocol_violation
from_validation (invalid_transport t r) = protocol_violation
from_validation (invalid_payload t e) = payload e

unfoldable pub is_peer_protocol_error : SessionError → Bool
is_peer_protocol_error protocol_violation = true
is_peer_protocol_error (message e) = true
is_peer_protocol_error (payload e) = true
is_peer_protocol_error (connection e) = false
is_peer_protocol_error (udp_qsp e) = false
is_peer_protocol_error (io e) = false
is_peer_protocol_error (frame e) = false
is_peer_protocol_error (payload_encode e) = false

pub data ActiveTransport : Type 0 where
  tcp udp : ActiveTransport

pub data SessionControl : Type 0 where
  continue close : SessionControl

pub data TunPacketSendOutcome : Type 0 where
  accepted : TunPacketSendOutcome
  dropped : ℕ → TunPacketSendOutcome
  closed : TunPacketSendOutcome

pub record SocketAddr : Type 0 where
  pub ip : Key
  pub port : ℕ

-- Durations and instants are numbers of milliseconds.
pub record SessionTimeouts : Type 0 where
  pub ping_min : ℕ
  pub ping_max : ℕ
  pub udp_liveness_timeout : ℕ
  pub idle_timeout : ℕ

-- `ServerUdpQspConfig`; an entry of its list stands for the suite it allows.
unfoldable pub allows : List CipherSuite → CipherSuite → Bool
allows [] cipher = false
allows (aes128_gcm ∷ rest) aes128_gcm = true
allows (cha_cha20_poly1305 ∷ rest) cha_cha20_poly1305 = true
allows (_ ∷ rest) cipher = allows rest cipher

-- A call out of the session.
pub data Call : Type 0 where
  key_update : Call
  tcp_write : Message → Call
  udp_send : List ℕ → Call
  udp_flush : Call
  discard_pending_send : Call
  set_peer : SocketAddr → Call
  create_io : SocketAddr → Call
  random_u64 : Call
  instant_now : Call
  accept_packet : List ℕ → Call

-- The outcome of writing a whole frame under the write timeout.
pub data WriteResult : Type 0 where
  written elapsed : WriteResult
  write_failed : IoError → WriteResult

pub record Environment (Keys : Type 0) : Type 0 where
  pub crypto : Crypto Keys
  pub from_register : RegisterCidPayload → Result QspCryptoError Keys
  pub key_update_error : List Call → Option IoError
  pub tcp_write_result : List Call → WriteResult
  pub udp_send_error : List Call → Option IoError
  pub udp_flush_error : List Call → Option IoError
  pub has_pending_flush : List Call → Bool
  pub create_io_error : List Call → Option IoError
  pub random : List Call → ℕ
  pub now : List Call → ℕ
  pub tun_outcome : List Call → Result IoError TunPacketSendOutcome

pub record ClientSession (Keys Tx : Type 0) : Type 0 where
  pub client_id : Key
  pub assigned_ipv4 : Key
  pub last_activity : ℕ
  pub active_transport : ActiveTransport
  pub session_id : ℕ
  pub registry : Registry Tx
  pub tx : Tx
  pub udp_session : Option (Session Keys)
  pub udp_peer_packet_number : Option ℕ
  pub last_authenticated_udp_activity : Option ℕ
  pub udp_upgrade : UdpUpgradeState
  pub limits : MessageLimits
  pub timeouts : SessionTimeouts
  pub allowed_ciphers : List CipherSuite
  pub tcp_alive : Bool
  pub tcp_write_interrupted : Bool
  pub pending_tcp_fallback : Option ℕ
  pub last_peer_fallback_id : Option ℕ
  pub calls : List Call

abbrev pub is_udp : ActiveTransport → Bool
is_udp tcp = false
is_udp udp = true

abbrev pub is_some : {A : Type 0} → Option A → Bool
is_some none = false
is_some (some a) = true

-- `option == Some(n)`
abbrev pub is_number : Option ℕ → ℕ → Bool
is_number none n = false
is_number (some m) n = m == n

-- `matches!(…, Some(current) if packet_number <= current)`
abbrev pub is_behind : Option ℕ → ℕ → Bool
is_behind none packet_number = false
is_behind (some current) packet_number = leb packet_number current

-- What a handler does to its session.
abbrev pub Handler : Type 0 → Type 0 → Type 0 → Type 0
Handler Keys Tx A = Action (ClientSession Keys Tx) SessionError A

module _ {Keys Tx : Type 0} where
  unfoldable pub new :
      ℕ
      → Key
      → Key
      → Registry Tx
      → Tx
      → MessageLimits
      → SessionTimeouts
      → List CipherSuite
      → ℕ
      → ClientSession Keys Tx
  new session_id client_id assigned_ipv4 registry tx limits timeouts allowed_ciphers now = record {
    client_id = client_id;
    assigned_ipv4 = assigned_ipv4;
    last_activity = now;
    active_transport = tcp;
    session_id = session_id;
    registry = registry;
    tx = tx;
    udp_session = none;
    udp_peer_packet_number = none;
    last_authenticated_udp_activity = none;
    udp_upgrade = Upgrade.reset_udp_upgrade_state;
    limits = limits;
    timeouts = timeouts;
    allowed_ciphers = allowed_ciphers;
    tcp_alive = true;
    tcp_write_interrupted = false;
    pending_tcp_fallback = none;
    last_peer_fallback_id = none;
    calls = instant_now ∷ [];
  }

  -- A call, noted.
  abbrev pub note : Call → ClientSession Keys Tx → ClientSession Keys Tx
  note call s = record s { calls = call ∷ s.calls }

  -- The cutover discards what still waits to be sent over UDP.
  abbrev pub discard : Option (Session Keys) → ClientSession Keys Tx → ClientSession Keys Tx
  discard none s = s
  discard (some session) s = note discard_pending_send s

  -- From the one transport to the other.
  unfoldable pub switch_transport :
      ActiveTransport → ActiveTransport → ClientSession Keys Tx → ClientSession Keys Tx
  switch_transport tcp tcp s = s
  switch_transport udp udp s = s
  switch_transport tcp udp s = record s { active_transport = udp }
  switch_transport udp tcp s = record (discard s.udp_session s) { active_transport = tcp }

  unfoldable pub set_active_transport :
      ActiveTransport → ClientSession Keys Tx → ClientSession Keys Tx
  unfolding switch_transport
  set_active_transport transport s = switch_transport s.active_transport transport s

  unfoldable pub note_authenticated_udp_activity : ℕ → ClientSession Keys Tx → ClientSession Keys Tx
  note_authenticated_udp_activity received_at s = record s {
    last_activity = received_at;
    last_authenticated_udp_activity = some received_at;
  }

  abbrev pub adopt_udp_peer :
      Option (Session Keys) → SocketAddr → ℕ → ClientSession Keys Tx → ClientSession Keys Tx
  adopt_udp_peer none peer packet_number s = s
  adopt_udp_peer (some session) peer packet_number s = record (note (set_peer peer) s) {
    udp_peer_packet_number = some packet_number;
  }

  unfoldable pub adopt_udp_peer_if_newer :
      SocketAddr → ℕ → ClientSession Keys Tx → ClientSession Keys Tx
  adopt_udp_peer_if_newer peer packet_number s =
      if is_behind s.udp_peer_packet_number packet_number
      then s
      else adopt_udp_peer s.udp_session peer packet_number s
