-- ===== src/Proto/Admissibility/Schema.antt =====
-- A message that slt-core/src/proto/admissibility.rs admits is the encoding of a value.
use slt.Prelude.{ℕ, ◌≡◌, refl, List, [], All, Result, ok, err, panic, map_err, ◌>>◌, ◌↔◌, true}
use slt.Prelude.Bytes.{IsByte, IsU64}
use slt.Cid.Laws
use slt.Proto.Message.{Message, ty, payload}
use slt.Proto.Payloads.Errors.{PayloadError}
use slt.Proto.Payloads.Codec.{IsCodec}
use slt.Proto.Payloads.Auth.{encode_auth, encode_auth_ok}
use slt.Proto.Payloads.Auth.{encode_auth_fail}
use slt.Proto.Payloads.Control.{encode_ping, encode_pong, encode_close, encode_fallback_to_tcp}
use slt.Proto.Payloads.Control.{encode_fallback_ok}
use slt.Proto.Payloads.Upgrade.{encode_upgrade_probe, encode_upgrade_probe_ack, encode_udp_ready}
use slt.Proto.Payloads.Upgrade.{encode_switch_to_udp, encode_switch_ack, encode_switch_ok}
use slt.Proto.Payloads.Registration.{encode_register_ok, encode_register_fail, decode_register_ok}
use slt.Proto.Payloads.AuthCodecs.{IsValid, auth_codecs}
use slt.Proto.Payloads.ControlCodecs.{control_codecs}
use slt.Proto.Payloads.UpgradeCodecs.{upgrade_codecs}
use slt.Proto.Payloads.ReplyCodecs.{register_fail-IsCodec, register_ok_canonical}
use slt.Proto.Payloads.ReplyCodecs.{register_ok_round_trip}
use slt.Proto.Admissibility.{
  MessageContext, check, check_payload, validate_fixed_payload, validate_message,
}
use slt.Proto.Admissibility.{validate_message_type, invalid_payload}
use slt.Proto.Admissibility.Table.{allows, row, in_phase, purpose, validate_message_type-iff-table}

-- `bytes` is what a valid value encodes to.
abbrev Encodes : {P : Type 0} → (P → Type 0) → (P → List ℕ → List ℕ) → List ℕ → Type 0
Encodes {P} IsValid encode bytes = (p : P) × IsValid p × (encode p [] ≡ bytes)

-- The schema of each message whose payload is checked.
pub HasSchema : Message → Type 0
HasSchema (Message.auth bytes) = Encodes IsValid encode_auth bytes
HasSchema (Message.auth_ok bytes) = Encodes (λ p. Unit {0}) encode_auth_ok bytes
HasSchema (Message.auth_fail bytes) = Encodes (λ p. Unit {0}) encode_auth_fail bytes
HasSchema (Message.register_cid bytes) = Unit {0}
HasSchema (Message.register_ok bytes) =
    (p : _) × Laws.IsValid p.client_to_server_cid × (encode_register_ok p [] ≡ ok bytes)
HasSchema (Message.register_fail bytes) = Encodes (λ p. Unit {0}) encode_register_fail bytes
HasSchema (Message.ping bytes) = Encodes (λ p. IsU64 p.nonce) encode_ping bytes
HasSchema (Message.pong bytes) = Encodes (λ p. IsU64 p.nonce) encode_pong bytes
HasSchema (Message.close bytes) = Encodes (λ p. Unit {0}) encode_close bytes
HasSchema (Message.tunnel_data bytes) = Unit {0}
HasSchema (Message.upgrade_probe bytes) =
    Encodes (λ p. IsU64 p.upgrade_id × IsU64 p.nonce) encode_upgrade_probe bytes
HasSchema (Message.upgrade_probe_ack bytes) =
    Encodes (λ p. IsU64 p.upgrade_id × IsU64 p.nonce) encode_upgrade_probe_ack bytes
HasSchema (Message.udp_ready bytes) = Encodes (λ p. IsU64 p.upgrade_id) encode_udp_ready bytes
HasSchema (Message.switch_to_udp bytes) =
    Encodes (λ p. IsU64 p.upgrade_id) encode_switch_to_udp bytes
HasSchema (Message.switch_ack bytes) = Encodes (λ p. IsU64 p.upgrade_id) encode_switch_ack bytes
HasSchema (Message.fallback_to_tcp bytes) =
    Encodes (λ p. IsU64 p.fallback_id) encode_fallback_to_tcp bytes
HasSchema (Message.fallback_ok bytes) = Encodes (λ p. IsU64 p.fallback_id) encode_fallback_ok bytes
HasSchema (Message.switch_ok bytes) = Encodes (λ p. IsU64 p.upgrade_id) encode_switch_ok bytes

check_iff :
    {P : Type 0} {V : P → Type 0} {decode : List ℕ → Result PayloadError P}
    {encode : P → List ℕ → List ℕ}
    → IsCodec V decode encode
    → (bytes : List ℕ) → All IsByte bytes
    → (check (decode bytes) ≡ ok tt) ↔ Encodes V encode bytes
check_iff {P} {V} {decode} {encode} codec bytes byte = (forth (decode bytes) refl, back)
  where
    forth :
        (r : Result PayloadError P) → decode bytes ≡ r → check r ≡ ok tt → Encodes V encode bytes
    forth (ok p) e h = let (v, same) = codec.canonical bytes p byte e in (p, v, same)
    forth (err x) e h = cc h
    forth panic e h = cc h

    back : Encodes V encode bytes → check (decode bytes) ≡ ok tt
    back (p, v, same) =
        let (made, appended, _, decoded) = codec.round_trip p [] v in
        let is : bytes ≡ made = cc (same, appended) in rw (is, decoded) refl

register_ok_iff :
    (bytes : List ℕ)
    → (check (decode_register_ok bytes) ≡ ok tt) ↔ HasSchema (Message.register_ok bytes)
unfolding HasSchema
register_ok_iff bytes =
    (forth (decode_register_ok bytes) refl, λ s. rw (register_ok_round_trip s.0 bytes s.1 s.2) refl)
  where
    forth :
        (r : _)
        → decode_register_ok bytes ≡ r
        → check r ≡ ok tt
        → HasSchema (Message.register_ok bytes)
    forth (ok p) e h = let (v, same) = register_ok_canonical bytes p e in (p, v, same)
    forth (err x) e h = cc h
    forth panic e h = cc h

pub check_payload-iff-schema :
    (m : Message) → All IsByte (payload m) → (check_payload m ≡ ok tt) ↔ HasSchema m
unfolding HasSchema check_payload payload
check_payload-iff-schema (Message.auth b) h = check_iff auth_codecs.0 b h
check_payload-iff-schema (Message.auth_ok b) h = check_iff auth_codecs.1 b h
check_payload-iff-schema (Message.auth_fail b) h = check_iff auth_codecs.2 b h
check_payload-iff-schema (Message.register_cid b) h = (λ e. tt, λ e. refl)
check_payload-iff-schema (Message.register_ok b) h = register_ok_iff b
check_payload-iff-schema (Message.register_fail b) h = check_iff register_fail-IsCodec b h
check_payload-iff-schema (Message.ping b) h = check_iff control_codecs.2 b h
check_payload-iff-schema (Message.pong b) h = check_iff control_codecs.3 b h
check_payload-iff-schema (Message.close b) h = check_iff control_codecs.4 b h
check_payload-iff-schema (Message.tunnel_data b) h = (λ e. tt, λ e. refl)
check_payload-iff-schema (Message.upgrade_probe b) h = check_iff upgrade_codecs.0 b h
check_payload-iff-schema (Message.upgrade_probe_ack b) h = check_iff upgrade_codecs.1 b h
check_payload-iff-schema (Message.udp_ready b) h = check_iff upgrade_codecs.2 b h
check_payload-iff-schema (Message.switch_to_udp b) h = check_iff upgrade_codecs.3 b h
check_payload-iff-schema (Message.switch_ack b) h = check_iff upgrade_codecs.4 b h
check_payload-iff-schema (Message.fallback_to_tcp b) h = check_iff control_codecs.0 b h
check_payload-iff-schema (Message.fallback_ok b) h = check_iff control_codecs.1 b h
check_payload-iff-schema (Message.switch_ok b) h = check_iff upgrade_codecs.5 b h

both_ok :
    {E F : Type 0} (a : Result F (Unit {0})) (f : E → F) (b : Result E (Unit {0}))
    → ((a >> map_err f b) ≡ ok tt) ↔ ((a ≡ ok tt) × (b ≡ ok tt))
both_ok (ok u) f (ok w) = (λ e. (refl, refl), λ e. refl)
both_ok (ok u) f (err x) = (λ e. cc, λ e. cc)
both_ok (ok u) f panic = (λ e. cc, λ e. cc)
both_ok (err x) f b = (λ e. cc, λ e. cc)
both_ok panic f b = (λ e. cc, λ e. cc)

-- The two checks of `validate_message` pass exactly when both do.
validate_message-iff-parts :
    (m : Message) (c : MessageContext)
    → (validate_message m c ≡ ok tt)
      ↔ ((validate_message_type (ty m) c ≡ ok tt) × (check_payload m ≡ ok tt))
unfolding validate_message validate_fixed_payload
validate_message-iff-parts m c =
    both_ok (validate_message_type (ty m) c) (invalid_payload (ty m)) (check_payload m)

-- A message of bytes is admitted exactly when the table of message types has its sender in the cell of
-- its type and the transport, its type belongs to the phase, and its payload, where its type has a
-- fixed layout, is what a valid value of that payload encodes to.
pub validate_message-iff-schema :
    (m : Message) (c : MessageContext)
    → All IsByte (payload m)
    → (validate_message m c ≡ ok tt) ↔ (
        ((allows (row (ty m) c.transport) c.sender ≡ true)
          × (in_phase (purpose (ty m)) c.phase ≡ true))
        × HasSchema m)
validate_message-iff-schema m c h =
    let parts = validate_message-iff-parts m c in
    let table = validate_message_type-iff-table (ty m) c in
    let schema = check_payload-iff-schema m h in
    (λ e. (table.0 (parts.0 e).0, schema.0 (parts.0 e).1), λ s. parts.1 (table.1 s.0, schema.1 s.1))
