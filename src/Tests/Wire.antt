-- ===== src/Tests/Wire.antt =====
-- The wire protocol of slt-core/src/proto on concrete bytes.
use slt.Prelude.{
  ℕ, ◌≤◌, ◌≡◌, ◌≢◌, ◌↔◌, ◌⊎◌, refl, arith, List, [], ◌∷◌, ◌++◌, ok, err, panic, some, none, true,
  false, length,
}
use slt.Prelude.{take, replicate, ap}
use slt.Proto.Kinds.{MessageType}
use slt.Proto.Framing.{decode_frame, encode_frame}
use slt.Proto.Framing.RoundTrip.{decode_frame-encode_frame}
use slt.Proto.Framing.RoundTrip.{decode_frame-append}
use slt.Proto.Message.{
  Message, MessageLimits, from_mtu, ty, payload, encode_message, decode_message,
}
use slt.Proto.Message.{decode_padded_message}
use slt.Proto.Message.RoundTrip.{decode_message-encode_message, decode_message_sound, payload_limit}
use slt.Proto.Payloads.Registration.{RegisterCidPayload, CipherSuite, decode_register_cid}
use slt.Proto.Payloads.Registration.{encode_register_cid, encoded_len, max_control_frame_len}
use slt.Proto.Payloads.Registration.RoundTrip.{decode_register_cid-encode_register_cid, IsSendable}
use slt.Proto.Admissibility.{MessageContext, client, established, udp_qsp}
use slt.Proto.Admissibility.{
  validate_message, validate_message_type, MessageValidationError, message_type,
}
use slt.Proto.Admissibility.Table.{allows, row, in_phase, purpose, validate_message_type-iff-table}
use slt.Proto.Admissibility.Schema.{HasSchema, validate_message-iff-schema}
use slt.Proto.Admissibility.Total.{validate_message-total}

abbrev data_bytes : List ℕ
data_bytes = 0x0a ∷ 0 ∷ 0 ∷ 0 ∷ 2 ∷ 69 ∷ 7 ∷ []

abbrev packet : Message
packet = Message.tunnel_data (69 ∷ 7 ∷ [])

abbrev ping_message : Message
ping_message = Message.ping (0 ∷ 0 ∷ 0 ∷ 0 ∷ 0 ∷ 0 ∷ 1 ∷ 2 ∷ [])

abbrev over_udp : MessageContext
over_udp = record { sender = client; phase = established; transport = udp_qsp }

abbrev limits : MessageLimits
limits = record { max_frame_len = 200; max_data_len = 2 }

abbrev registration : RegisterCidPayload
registration = record {
  client_to_server_cid = record { len = 20; bytes = replicate 20 7 };
  server_to_client_cid = record { len = 4; bytes = replicate 4 9 ++ replicate 16 0 };
  cipher = CipherSuite.aes128_gcm;
  secret_tx = replicate 32 1;
  secret_rx = replicate 32 2;
  pn_start = 5;
  pn_start_rx = 70000;
  key_phase = true;
}

registration-IsSendable : IsSendable registration
registration-IsSendable = record {
  client_valid = record { fits = omega arith; full = refl; padded = refl };
  client_full = refl;
  server_valid = record { fits = omega arith; full = refl; padded = refl };
  tx_len = refl;
  rx_len = refl;
  pn_fits = omega arith;
  pn_rx_fits = omega arith;
}

decode_frame_data :
    decode_frame data_bytes 2
    ≡ ok (some (record { ty = MessageType.tunnel_data; payload = 69 ∷ 7 ∷ [] }, 7))
unfolding decode_frame slt.Prelude.index slt.Proto.Kinds.try_from slt.Prelude.slice
    slt.Prelude.Bytes.from_be
decode_frame_data = refl

decode_message_data : decode_message data_bytes limits ≡ ok (some (packet, 7))
unfolding decode_message decode_frame slt.Prelude.index slt.Proto.Kinds.try_from slt.Prelude.slice
    slt.Prelude.Bytes.from_be slt.Proto.Message.from_frame
decode_message_data = refl

decode_frame-encode_frame_example :
    (bytes : List ℕ) × (encode_frame MessageType.ping (3 ∷ []) (9 ∷ []) ≡ ok (9 ∷ bytes))
    × (decode_frame (bytes ++ 4 ∷ []) 1
        ≡ ok (some (record { ty = MessageType.ping; payload = 3 ∷ [] }, length bytes)))
decode_frame-encode_frame_example =
    decode_frame-encode_frame MessageType.ping (3 ∷ []) (9 ∷ []) (4 ∷ []) 1 (omega arith)
      (omega arith)

decode_frame-append_example : decode_frame (data_bytes ++ 1 ∷ []) 2 ≡ decode_frame data_bytes 2
decode_frame-append_example =
    decode_frame-append data_bytes (1 ∷ []) 2 (λ e. cc (decode_frame_data, e))

decode_message-encode_message_example :
    (bytes : List ℕ) × (encode_message packet [] ≡ ok bytes)
    × (decode_message (bytes ++ 0 ∷ []) limits ≡ ok (some (packet, length bytes)))
    × (decode_padded_message (bytes ++ 0 ∷ []) limits ≡ ok (some (packet, bytes)))
unfolding payload
decode_message-encode_message_example =
    decode_message-encode_message limits packet [] (0 ∷ [])
      (record { frame_fits = omega arith; data_fits = λ e. omega arith; length_fits = omega arith })

decode_message_sound_example :
    (length (payload packet) ≤ payload_limit limits (ty packet))
    × (encode_message packet [] ≡ ok (take 7 data_bytes))
decode_message_sound_example =
    decode_message_sound limits data_bytes packet 7 (ground arith) decode_message_data

decode_register_cid-encode_register_cid_example :
    (bytes : List ℕ) × (encode_register_cid registration [] ≡ ok bytes)
    × (decode_register_cid bytes ≡ ok registration)
    × (length bytes ≡ encoded_len registration)
    × (length bytes ≤ max_control_frame_len)
decode_register_cid-encode_register_cid_example =
    decode_register_cid-encode_register_cid registration [] registration-IsSendable

validate_message_type-iff-table_example :
    (validate_message_type MessageType.upgrade_probe over_udp ≡ ok tt) ↔ (
      (allows (row MessageType.upgrade_probe udp_qsp) client ≡ true)
      × (in_phase (purpose MessageType.upgrade_probe) established ≡ true))
validate_message_type-iff-table_example =
    validate_message_type-iff-table MessageType.upgrade_probe over_udp

validate_message-iff-schema_example : (validate_message ping_message over_udp ≡ ok tt) ↔ (
    ((allows (row (ty ping_message) udp_qsp) client ≡ true)
      × (in_phase (purpose (ty ping_message)) established ≡ true))
    × HasSchema ping_message)
validate_message-iff-schema_example =
    validate_message-iff-schema ping_message over_udp (unfold payload in ground arith)

validate_message-total_example :
    (validate_message packet over_udp ≡ ok tt)
    ⊎ ((e : MessageValidationError) × (validate_message packet over_udp ≡ err e)
        × (message_type e ≡ ty packet))
validate_message-total_example = validate_message-total packet over_udp
