-- ===== src/Proto/Message.antt =====
-- Messages: slt-core/src/proto/message.rs. A message is a frame by another name, and decoding one adds
-- the limit on tunnelled packets.
pub mod RoundTrip
use slt.Prelude.{
  ℕ, max, List, Option, none, some, ltb, if◌then◌else◌, Bool, true, false, ◌&&◌, length,
}
use slt.Prelude.{Result, ok, err, ◌>>=◌, map_err, slice}
use slt.Proto.Kinds.{MessageType}
use slt.Proto.Payloads.Registration.{max_control_frame_len}
use slt.Proto.Framing.{Frame, FrameError, decode_frame, encode_frame}

pub data Message : Type 0 where
  auth : List ℕ → Message
  auth_ok : List ℕ → Message
  auth_fail : List ℕ → Message
  register_cid : List ℕ → Message
  register_ok : List ℕ → Message
  register_fail : List ℕ → Message
  ping : List ℕ → Message
  pong : List ℕ → Message
  close : List ℕ → Message
  tunnel_data : List ℕ → Message
  upgrade_probe : List ℕ → Message
  upgrade_probe_ack : List ℕ → Message
  udp_ready : List ℕ → Message
  switch_to_udp : List ℕ → Message
  switch_ack : List ℕ → Message
  fallback_to_tcp : List ℕ → Message
  fallback_ok : List ℕ → Message
  switch_ok : List ℕ → Message

-- `Message::ty`
unfoldable pub ty : Message → MessageType
ty (auth bytes) = MessageType.auth
ty (auth_ok bytes) = MessageType.auth_ok
ty (auth_fail bytes) = MessageType.auth_fail
ty (register_cid bytes) = MessageType.register_cid
ty (register_ok bytes) = MessageType.register_ok
ty (register_fail bytes) = MessageType.register_fail
ty (ping bytes) = MessageType.ping
ty (pong bytes) = MessageType.pong
ty (close bytes) = MessageType.close
ty (tunnel_data bytes) = MessageType.tunnel_data
ty (upgrade_probe bytes) = MessageType.upgrade_probe
ty (upgrade_probe_ack bytes) = MessageType.upgrade_probe_ack
ty (udp_ready bytes) = MessageType.udp_ready
ty (switch_to_udp bytes) = MessageType.switch_to_udp
ty (switch_ack bytes) = MessageType.switch_ack
ty (fallback_to_tcp bytes) = MessageType.fallback_to_tcp
ty (fallback_ok bytes) = MessageType.fallback_ok
ty (switch_ok bytes) = MessageType.switch_ok

-- `Message::payload`
unfoldable pub payload : Message → List ℕ
payload (auth bytes) = bytes
payload (auth_ok bytes) = bytes
payload (auth_fail bytes) = bytes
payload (register_cid bytes) = bytes
payload (register_ok bytes) = bytes
payload (register_fail bytes) = bytes
payload (ping bytes) = bytes
payload (pong bytes) = bytes
payload (close bytes) = bytes
payload (tunnel_data bytes) = bytes
payload (upgrade_probe bytes) = bytes
payload (upgrade_probe_ack bytes) = bytes
payload (udp_ready bytes) = bytes
payload (switch_to_udp bytes) = bytes
payload (switch_ack bytes) = bytes
payload (fallback_to_tcp bytes) = bytes
payload (fallback_ok bytes) = bytes
payload (switch_ok bytes) = bytes

unfoldable pub of_kind : MessageType → List ℕ → Message
of_kind MessageType.auth bytes = auth bytes
of_kind MessageType.auth_ok bytes = auth_ok bytes
of_kind MessageType.auth_fail bytes = auth_fail bytes
of_kind MessageType.register_cid bytes = register_cid bytes
of_kind MessageType.register_ok bytes = register_ok bytes
of_kind MessageType.register_fail bytes = register_fail bytes
of_kind MessageType.ping bytes = ping bytes
of_kind MessageType.pong bytes = pong bytes
of_kind MessageType.close bytes = close bytes
of_kind MessageType.tunnel_data bytes = tunnel_data bytes
of_kind MessageType.upgrade_probe bytes = upgrade_probe bytes
of_kind MessageType.upgrade_probe_ack bytes = upgrade_probe_ack bytes
of_kind MessageType.udp_ready bytes = udp_ready bytes
of_kind MessageType.switch_to_udp bytes = switch_to_udp bytes
of_kind MessageType.switch_ack bytes = switch_ack bytes
of_kind MessageType.fallback_to_tcp bytes = fallback_to_tcp bytes
of_kind MessageType.fallback_ok bytes = fallback_ok bytes
of_kind MessageType.switch_ok bytes = switch_ok bytes

-- `Message::from(frame)` and `Frame::from(message)`
unfoldable pub from_frame : Frame → Message
unfolding of_kind
from_frame f = of_kind f.ty f.payload

unfoldable pub to_frame : Message → Frame
to_frame m = record { ty = ty m; payload = payload m }

pub record MessageLimits : Type 0 where
  pub max_frame_len : ℕ
  pub max_data_len : ℕ

unfoldable pub from_mtu : ℕ → MessageLimits
from_mtu mtu = record { max_frame_len = max mtu max_control_frame_len; max_data_len = mtu }

pub data MessageError : Type 0 where
  frame : FrameError → MessageError
  data_too_large : ℕ → ℕ → MessageError

abbrev pub is_tunnel_data : MessageType → Bool
is_tunnel_data MessageType.tunnel_data = true
is_tunnel_data _ = false

abbrev pub Decoded : Type 0
Decoded = Result MessageError (Option (Message × ℕ))

-- The test on a decoded frame.
unfoldable pub accept_frame : MessageLimits → Frame → ℕ → Decoded
accept_frame limits f consumed =
    if is_tunnel_data f.ty && ltb limits.max_data_len (length f.payload)
    then err (data_too_large (length f.payload) limits.max_data_len)
    else ok (some (from_frame f, consumed))

unfoldable pub decode_message : List ℕ → MessageLimits → Decoded
unfolding accept_frame
decode_message buf limits = do
  decoded ← map_err frame (decode_frame buf limits.max_frame_len)
  elim decoded [ none ↦ ok none | some (f, consumed) ↦ accept_frame limits f consumed ]

-- The second component is the bytes of the frame, without the padding behind them.
unfoldable pub decode_padded_message :
    List ℕ → MessageLimits → Result MessageError (Option (Message × List ℕ))
decode_padded_message buf limits = do
  decoded ← decode_message buf limits
  elim decoded [
    | none ↦ ok none
    | some (m, consumed) ↦ do bytes ← slice buf 0 consumed; ok (some (m, bytes))
  ]

unfoldable pub encode_message : Message → List ℕ → Result FrameError (List ℕ)
encode_message m out = encode_frame (ty m) (payload m) out
