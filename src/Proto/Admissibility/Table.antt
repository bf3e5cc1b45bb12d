-- ===== src/Proto/Admissibility/Table.antt =====
-- The table of docs/protocol/connection-flow.md, section 8.3, and what the admissibility checks of
-- slt-core/src/proto/admissibility.rs make of it.
use slt.Prelude.{◌≡◌, refl, Bool, true, false, ◌&&◌, ok, ◌↔◌}
use slt.Proto.Kinds.{MessageType}
use slt.Proto.Admissibility.{
  MessageSender, client, server, ProtocolPhase, authentication, established,
}
use slt.Proto.Admissibility.{MessageTransport, tcp, udp_qsp, MessageContext, validate_message_type}
use slt.Proto.Admissibility.{is_valid_direction, is_valid_phase, is_valid_transport}

-- A cell of the table.
pub data Direction : Type 0 where
  client_to_server server_to_client both never : Direction

abbrev pub allows : Direction → MessageSender → Bool
allows client_to_server client = true
allows client_to_server server = false
allows server_to_client client = false
allows server_to_client server = true
allows both s = true
allows never s = false

abbrev pub row : MessageType → MessageTransport → Direction
row MessageType.auth tcp = client_to_server
row MessageType.auth_ok tcp = server_to_client
row MessageType.auth_fail tcp = server_to_client
row MessageType.register_cid tcp = client_to_server
row MessageType.register_ok tcp = server_to_client
row MessageType.register_fail tcp = server_to_client
row MessageType.udp_ready tcp = client_to_server
row MessageType.switch_to_udp tcp = server_to_client
row MessageType.switch_ack tcp = client_to_server
row MessageType.switch_ok tcp = server_to_client
row MessageType.fallback_to_tcp tcp = both
row MessageType.fallback_ok tcp = both
row MessageType.upgrade_probe tcp = never
row MessageType.upgrade_probe_ack tcp = never
row MessageType.tunnel_data tcp = both
row MessageType.ping tcp = both
row MessageType.pong tcp = both
row MessageType.close tcp = both
row MessageType.upgrade_probe udp_qsp = client_to_server
row MessageType.upgrade_probe_ack udp_qsp = server_to_client
row MessageType.tunnel_data udp_qsp = both
row MessageType.ping udp_qsp = both
row MessageType.pong udp_qsp = both
row MessageType.close udp_qsp = both
row _ udp_qsp = never

-- The messages of the authentication exchange, and those that keep a connection alive or end it.
pub data Purpose : Type 0 where
  authenticates keeps_alive serves : Purpose

abbrev pub purpose : MessageType → Purpose
purpose MessageType.auth = authenticates
purpose MessageType.auth_ok = authenticates
purpose MessageType.auth_fail = authenticates
purpose MessageType.ping = keeps_alive
purpose MessageType.pong = keeps_alive
purpose MessageType.close = keeps_alive
purpose _ = serves

abbrev pub in_phase : Purpose → ProtocolPhase → Bool
in_phase authenticates authentication = true
in_phase authenticates established = false
in_phase keeps_alive p = true
in_phase serves authentication = false
in_phase serves established = true

valid_in_phase : (t : MessageType) (p : ProtocolPhase) → is_valid_phase t p ≡ in_phase (purpose t) p
unfolding is_valid_phase
valid_in_phase MessageType.auth authentication = refl
valid_in_phase _ authentication = refl
valid_in_phase MessageType.auth established = refl
valid_in_phase _ established = refl

valid_in_row :
    (t : MessageType) (s : MessageSender) (r : MessageTransport)
    → (is_valid_direction t s && is_valid_transport t r) ≡ allows (row t r) s
unfolding is_valid_direction is_valid_transport
valid_in_row MessageType.auth client tcp = refl
valid_in_row _ client tcp = refl
valid_in_row MessageType.auth server tcp = refl
valid_in_row _ server tcp = refl
valid_in_row MessageType.auth client udp_qsp = refl
valid_in_row _ client udp_qsp = refl
valid_in_row MessageType.auth server udp_qsp = refl
valid_in_row _ server udp_qsp = refl

-- The three guards, as one test.
valid_type_iff_all :
    (t : MessageType) (c : MessageContext) (d p r : Bool)
    → is_valid_direction t c.sender ≡ d
    → is_valid_phase t c.phase ≡ p
    → is_valid_transport t c.transport ≡ r
    → (validate_message_type t c ≡ ok tt) ↔ (((d && r) ≡ true) × (p ≡ true))
unfolding validate_message_type
valid_type_iff_all t c true true true d p r = rw (d, p, r) (λ e. (refl, refl), λ e. refl)
valid_type_iff_all t c true true false d p r = rw (d, p, r) (λ e. cc, λ e. cc)
valid_type_iff_all t c true false _ d p r = rw (d, p) (λ e. cc, λ e. cc)
valid_type_iff_all t c false _ _ d p r = rw d (λ e. cc, λ e. cc)

-- The type of a message is admitted exactly when the table has its sender in the cell of the type and the
-- transport, and the phase is the one that messages of its purpose belong to.
pub validate_message_type-iff-table :
    (t : MessageType) (c : MessageContext)
    → (validate_message_type t c ≡ ok tt)
      ↔ ((allows (row t c.transport) c.sender ≡ true) × (in_phase (purpose t) c.phase ≡ true))
validate_message_type-iff-table t c =
    rw (← valid_in_phase t c.phase, ← valid_in_row t c.sender c.transport)
      (valid_type_iff_all t c _ _ _ refl refl refl)
