-- ===== src/Proto/Admissibility/Total.antt =====
-- The validation of slt-core/src/proto/admissibility.rs has an answer for every message.
use slt.Prelude.{◌≡◌, ◌≢◌, refl, Result, ok, err, panic, map_err, ◌>>◌, guard, Bool, true, false}
use slt.Prelude.{◌⊎◌, inl, inr}
use slt.Proto.Kinds.{MessageType}
use slt.Proto.Message.{Message, ty}
use slt.Proto.Payloads.Errors.{PayloadError}
use slt.Proto.Payloads.AuthCodecs.{auth_codecs}
use slt.Proto.Payloads.ControlCodecs.{control_codecs}
use slt.Proto.Payloads.UpgradeCodecs.{upgrade_codecs}
use slt.Proto.Payloads.ReplyCodecs.{register_fail-IsCodec, register_ok_no_panic}
use slt.Proto.Admissibility.{
  MessageContext, MessageValidationError, message_type, check, check_payload,
}
use slt.Proto.Admissibility.{
  validate_message, validate_message_type, validate_fixed_payload, Verdict,
}
use slt.Proto.Admissibility.{invalid_payload, invalid_direction, invalid_phase, invalid_transport}
use slt.Proto.Admissibility.{is_valid_direction, is_valid_phase, is_valid_transport}

-- A verdict is `ok`, or an error about the type `t`.
abbrev IsAnswer : MessageType → Verdict → Type 0
IsAnswer t v = (v ≡ ok tt) ⊎ ((e : MessageValidationError) × (v ≡ err e) × (message_type e ≡ t))

check_no_panic : {P : Type 0} (r : Result PayloadError P) → r ≢ panic → check r ≢ panic
check_no_panic (ok p) h = λ e. cc
check_no_panic (err x) h = λ e. cc
check_no_panic panic h = absurd (h refl)

check_payload-ne-panic : (m : Message) → check_payload m ≢ panic
unfolding check_payload
check_payload-ne-panic (Message.auth b) = check_no_panic _ (auth_codecs.0.no_panic b)
check_payload-ne-panic (Message.auth_ok b) = check_no_panic _ (auth_codecs.1.no_panic b)
check_payload-ne-panic (Message.auth_fail b) = check_no_panic _ (auth_codecs.2.no_panic b)
check_payload-ne-panic (Message.register_cid b) = λ e. cc
check_payload-ne-panic (Message.register_ok b) = check_no_panic _ (register_ok_no_panic b)
check_payload-ne-panic (Message.register_fail b) =
    check_no_panic _ (register_fail-IsCodec.no_panic b)
check_payload-ne-panic (Message.ping b) = check_no_panic _ (control_codecs.2.no_panic b)
check_payload-ne-panic (Message.pong b) = check_no_panic _ (control_codecs.3.no_panic b)
check_payload-ne-panic (Message.close b) = check_no_panic _ (control_codecs.4.no_panic b)
check_payload-ne-panic (Message.tunnel_data b) = λ e. cc
check_payload-ne-panic (Message.upgrade_probe b) = check_no_panic _ (upgrade_codecs.0.no_panic b)
check_payload-ne-panic (Message.upgrade_probe_ack b) =
    check_no_panic _ (upgrade_codecs.1.no_panic b)
check_payload-ne-panic (Message.udp_ready b) = check_no_panic _ (upgrade_codecs.2.no_panic b)
check_payload-ne-panic (Message.switch_to_udp b) = check_no_panic _ (upgrade_codecs.3.no_panic b)
check_payload-ne-panic (Message.switch_ack b) = check_no_panic _ (upgrade_codecs.4.no_panic b)
check_payload-ne-panic (Message.fallback_to_tcp b) = check_no_panic _ (control_codecs.0.no_panic b)
check_payload-ne-panic (Message.fallback_ok b) = check_no_panic _ (control_codecs.1.no_panic b)
check_payload-ne-panic (Message.switch_ok b) = check_no_panic _ (upgrade_codecs.5.no_panic b)

guard-IsAnswer :
    (t : MessageType) (b : Bool) (e : MessageValidationError) (rest : Verdict)
    → message_type e ≡ t
    → IsAnswer t rest
    → IsAnswer t (guard b e >> rest)
guard-IsAnswer t true e rest names answer = answer
guard-IsAnswer t false e rest names answer = inr (e, refl, names)

last-IsAnswer :
    (t : MessageType) (r : Result PayloadError (Unit {0}))
    → r ≢ panic
    → IsAnswer t (map_err (invalid_payload t) r)
unfolding message_type
last-IsAnswer t (ok u) h = inl refl
last-IsAnswer t (err x) h = inr (invalid_payload t x, refl, refl)
last-IsAnswer t panic h = absurd (h refl)

guards_then :
    (b d : Bool) (e f : MessageValidationError) (r s : Verdict)
    → ((guard b e >> (guard d f >> r)) >> s) ≡ (guard b e >> (guard d f >> (r >> s)))
guards_then true true e f r s = refl
guards_then true false e f r s = refl
guards_then false _ e f r s = refl

-- No message, whatever its payload, makes the validation panic: it is admitted, or refused with an
-- error that names its type.
pub validate_message-total :
    (m : Message) (c : MessageContext)
    → (validate_message m c ≡ ok tt)
      ⊎ ((e : MessageValidationError) × (validate_message m c ≡ err e) × (message_type e ≡ ty m))
unfolding validate_message validate_message_type validate_fixed_payload message_type
validate_message-total m c =
    let t = ty m in
    rw (guards_then (is_valid_direction t c.sender) (is_valid_phase t c.phase) _ _ _ _) (
      guard-IsAnswer t (is_valid_direction t c.sender) (invalid_direction t c.sender) _ refl (
        guard-IsAnswer t (is_valid_phase t c.phase) (invalid_phase t c.phase) _ refl (
          guard-IsAnswer t (is_valid_transport t c.transport) (invalid_transport t c.transport) _
            refl (last-IsAnswer t (check_payload m) (check_payload-ne-panic m)))))
