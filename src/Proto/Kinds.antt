-- ===== src/Proto/Kinds.antt =====
-- Wire message types: slt-core/src/proto/types.rs. The conversions are those that `num_enum` derives
-- from the discriminants.
use slt.Prelude.{ℕ, ◌≡◌, refl, arith, Option, none, some, ◌==◌, if◌then◌else◌}

pub data MessageType : Type 0 where
  auth auth_ok auth_fail register_cid register_ok register_fail : MessageType
  ping pong close tunnel_data upgrade_probe upgrade_probe_ack udp_ready : MessageType
  switch_to_udp switch_ack fallback_to_tcp fallback_ok switch_ok : MessageType

unfoldable pub to_byte : MessageType → ℕ
to_byte auth = 0x01
to_byte auth_ok = 0x02
to_byte auth_fail = 0x03
to_byte register_cid = 0x04
to_byte register_ok = 0x05
to_byte register_fail = 0x06
to_byte ping = 0x07
to_byte pong = 0x08
to_byte close = 0x09
to_byte tunnel_data = 0x0a
to_byte upgrade_probe = 0x0b
to_byte upgrade_probe_ack = 0x0c
to_byte udp_ready = 0x0d
to_byte switch_to_udp = 0x0e
to_byte switch_ack = 0x0f
to_byte fallback_to_tcp = 0x10
to_byte fallback_ok = 0x11
to_byte switch_ok = 0x12

unfoldable pub try_from : ℕ → Option MessageType
try_from b =
    if b == 0x01
    then some auth
    else if b == 0x02
    then some auth_ok
    else if b == 0x03
    then some auth_fail
    else if b == 0x04
    then some register_cid
    else if b == 0x05
    then some register_ok
    else if b == 0x06
    then some register_fail
    else if b == 0x07
    then some ping
    else if b == 0x08
    then some pong
    else if b == 0x09
    then some close
    else if b == 0x0a
    then some tunnel_data
    else if b == 0x0b
    then some upgrade_probe
    else if b == 0x0c
    then some upgrade_probe_ack
    else if b == 0x0d
    then some udp_ready
    else if b == 0x0e
    then some switch_to_udp
    else if b == 0x0f
    then some switch_ack
    else if b == 0x10
    then some fallback_to_tcp
    else if b == 0x11
    then some fallback_ok
    else if b == 0x12
    then some switch_ok
    else none

pub try_from-to_byte : (t : MessageType) → try_from (to_byte t) ≡ some t
unfolding try_from to_byte
try_from-to_byte auth = refl
try_from-to_byte _ = refl

pub to_byte-try_from : (b : ℕ) (t : MessageType) → try_from b ≡ some t → to_byte t ≡ b
unfolding try_from to_byte
to_byte-try_from b t h = ground arith
