-- ===== src/Tests/Session.antt =====
-- Sessions of slt-core/src/crypto/udp_qsp over the packet keys, run with the stand-in for BoringSSL.
use slt.Prelude.{
  ℕ, suc, ◌<◌, ◌≤◌, ◌≡◌, ◌≢◌, refl, arith, List, [], ◌∷◌, ◌++◌, length, replicate, false, some, ok,
  panic,
}
use slt.Prelude.Words.{u64_max}
use slt.Cid.{Cid, as_slice}
use slt.Qsp.Crypto.{OpenedPacket, Crypto}
use slt.Qsp.Backend.{
  seal_into, mask, mask_of, from_le, make_nonce, xor_zip, clone_hp_key, clone_packet_key,
  new_hp_key, new_packet_key, new_aead_context, for_suite, aead_key_len, hp_key_len,
}
use slt.Qsp.Derivation.{
  derive_next_secret, derive_packet_material, hkdf_expand_label_sha256, hkdf_expand_sha256_vec,
  expand_loop, to_uint,
}
use slt.Qsp.Schedule.{next_generation, clone_direction}
use slt.Qsp.Keys.{UdpQspKeys, packet_crypto, protect_into, with_next_tx_keys, pad_len}
use slt.Qsp.Keys.Sides.{keys_generations}
use slt.Qsp.Session.{
  Session, new, send, open_packet, protect_next, maybe_rotate_tx_keys, rotate_loop, rotate_round,
}
use slt.Qsp.Session.{rotate_tx_keys, defaults, next_rekey_after}
use slt.Qsp.Replay
use slt.Qsp.Header.{
  build_header, require_hp_sample, sample_offset, hp_sample_range, apply_header_protection, mask_pn,
  store, first_byte,
}
use slt.Qsp.Pn.{packet_number_len}
use slt.Prelude.Bytes.{to_be}
use slt.Prelude.{slice, index}
use slt.Qsp.Session.Runs.{Run, note, begin, sends, opens}
use slt.Qsp.Session.Transmit.{IsProtected}
use slt.Qsp.Session.Receive.{IsReceived, open_packet-IsReceived}
use slt.Qsp.Session.Lives.{send-IsProtected, send-ascends, send-ne-panic, Run-Distinct}
use slt.Qsp.Replay.History.{Distinct}
use slt.Qsp.Keys.Total.{with_next_tx_keys-ne-panic, protect_into-ne-panic}
use slt.Qsp.Session.Runs.{new-IsSending}
use slt.Qsp.Session.Transmit.{IsSending}
use slt.Qsp.Session.EndToEnd.{IsPeer, open_packet-send, decode_padded_message-open_packet}
use slt.Qsp.Replay.{expected_pn, check_and_update}
use slt.Proto.Message.{
  Message, MessageLimits, encode_message, decode_padded_message, payload, ty, to_frame,
}
use slt.Proto.Framing.{encode_frame}
use slt.Proto.Kinds.{to_byte}
use slt.Tests.Toy.{toy, toy-BoringLaws, tag, keys, peer_keys}

abbrev cid : ℕ → Cid
cid b = record { len = 4; bytes = replicate 4 b ++ replicate 16 0 }

abbrev near_end : Session UdpQspKeys
near_end = new (cid 1) (cid 2) keys 2097151 0 false

abbrev c : Crypto UdpQspKeys
c = packet_crypto toy

-- The last number of the first block, then the first one of the next, under the next keys.
abbrev first_packet : List ℕ
first_packet = 88 ∷ 2 ∷ 2 ∷ 2 ∷ 2 ∷ 69 ∷ 165 ∷ 165 ∷ 1 ∷ 2 ∷ tag

abbrev second_packet : List ℕ
second_packet = 92 ∷ 2 ∷ 2 ∷ 2 ∷ 2 ∷ 122 ∷ 90 ∷ 90 ∷ 3 ∷ tag

abbrev then_end : Session UdpQspKeys
then_end = (send c near_end (1 ∷ 2 ∷ [])).0

first_sent : (send c near_end (1 ∷ 2 ∷ [])).1 ≡ ok first_packet
unfolding send protect_next maybe_rotate_tx_keys rotate_loop rotate_round rotate_tx_keys new
    Replay.new defaults next_rekey_after protect_into build_header packet_number_len slice index
    to_be seal_into as_slice require_hp_sample pad_len sample_offset hp_sample_range mask mask_of
    apply_header_protection mask_pn store from_le make_nonce xor_zip first_byte
first_sent = refl

second_sent : (send c then_end (3 ∷ [])).1 ≡ ok second_packet
unfolding send protect_next maybe_rotate_tx_keys rotate_loop rotate_round rotate_tx_keys new
    Replay.new defaults next_rekey_after protect_into build_header packet_number_len slice index
    to_be seal_into as_slice require_hp_sample pad_len sample_offset hp_sample_range mask mask_of
    apply_header_protection mask_pn store from_le make_nonce xor_zip first_byte with_next_tx_keys
    next_generation clone_direction clone_hp_key clone_packet_key new_hp_key new_packet_key
    new_aead_context derive_next_secret derive_packet_material hkdf_expand_label_sha256
    hkdf_expand_sha256_vec expand_loop to_uint for_suite aead_key_len hp_key_len
second_sent = refl

life : Run c near_end then_end []
life = sends near_end [] (1 ∷ 2 ∷ []) begin

fits : 2097151 ≤ u64_max
fits = omega arith

send-IsProtected_example :
    ((send c then_end (3 ∷ [])).0.next_pn ≡ suc then_end.next_pn)
    × IsProtected c
        (keys_generations toy)
        2097151
        ((keys_generations toy).tx keys)
        false
        (send c then_end (3 ∷ [])).0
        then_end.next_pn
        (3 ∷ [])
        second_packet
send-IsProtected_example =
    send-IsProtected c (keys_generations toy) (cid 1) (cid 2) keys 2097151 0 false fits then_end []
      life (3 ∷ []) second_packet second_sent

send-ascends_example : near_end.next_pn < (send c then_end (3 ∷ [])).0.next_pn
send-ascends_example =
    send-ascends c (keys_generations toy) (cid 1) (cid 2) keys 2097151 0 false fits near_end []
      begin (1 ∷ 2 ∷ []) first_packet (send c then_end (3 ∷ [])).0 [] first_sent
      (sends then_end [] (3 ∷ []) begin)

send-ne-panic_example : (send c then_end (3 ∷ [])).1 ≢ panic
send-ne-panic_example =
    send-ne-panic c (keys_generations toy) (cid 1) (cid 2) keys 2097151 0 false fits then_end []
      life (3 ∷ []) (with_next_tx_keys-ne-panic toy) (protect_into-ne-panic toy toy-BoringLaws)

abbrev far_end : Session UdpQspKeys
far_end = new (cid 2) (cid 1) peer_keys 0 2097151 false

abbrev heard : Session UdpQspKeys
heard = (open_packet c far_end first_packet).0

-- The numbers accepted when the packet arrives twice.
abbrev once : List ℕ
once = note (open_packet c far_end first_packet).1 []

abbrev twice : List ℕ
twice = note (open_packet c heard first_packet).1 once

Run-Distinct_example : Distinct twice
Run-Distinct_example =
    Run-Distinct c (keys_generations toy) (cid 2) (cid 1) peer_keys 0 2097151 false (omega arith)
      (open_packet c heard first_packet).0 twice
      (opens heard once first_packet (opens far_end [] first_packet begin))

open_packet-IsReceived_example :
    IsReceived c (keys_generations toy) far_end (open_packet c far_end first_packet)
open_packet-IsReceived_example =
    open_packet-IsReceived c (keys_generations toy) far_end first_packet

abbrev message : Message
message = Message.tunnel_data (69 ∷ [])

abbrev limits : MessageLimits
limits = record { max_frame_len = 100; max_data_len = 100 }

abbrev frame : List ℕ
frame = 0x0a ∷ 0 ∷ 0 ∷ 0 ∷ 1 ∷ 69 ∷ []

frame_encodes : encode_message message [] ≡ ok frame
unfolding encode_message payload ty to_frame encode_frame to_byte to_be
frame_encodes = refl

-- The third packet of the near end, which reaches a far end that expects it.
abbrev frame_packet : List ℕ
frame_packet = 88 ∷ 2 ∷ 2 ∷ 2 ∷ 2 ∷ 69 ∷ 165 ∷ 165 ∷ frame ++ tag

frame_sent : (send c near_end frame).1 ≡ ok frame_packet
unfolding send protect_next maybe_rotate_tx_keys rotate_loop rotate_round rotate_tx_keys new
    Replay.new defaults next_rekey_after protect_into build_header packet_number_len slice index
    to_be seal_into as_slice require_hp_sample pad_len sample_offset hp_sample_range mask mask_of
    apply_header_protection mask_pn store from_le make_nonce xor_zip first_byte
frame_sent = refl

is_peer : IsPeer (send c near_end frame).0 far_end near_end.next_pn
unfolding send protect_next maybe_rotate_tx_keys rotate_loop rotate_round rotate_tx_keys new
    Replay.new defaults next_rekey_after protect_into build_header packet_number_len slice index
    to_be seal_into as_slice require_hp_sample pad_len sample_offset hp_sample_range mask mask_of
    apply_header_protection mask_pn store from_le make_nonce xor_zip first_byte expected_pn
    check_and_update Replay.first_packet
is_peer = record {
  same_hp = refl;
  same_aead = refl;
  same_key_phase = refl;
  same_cid_len = refl;
  near = record {
    pn_fits = omega arith;
    expected_fits = omega arith;
    not_early = omega arith;
    not_late = omega arith;
  };
  fresh = refl;
}

near_IsSending :
    IsSending c (keys_generations toy) 2097151 ((keys_generations toy).tx keys) false near_end
near_IsSending = new-IsSending c (keys_generations toy) (cid 1) (cid 2) keys 2097151 0 false fits

open_packet-send_example :
    (open_packet c far_end frame_packet).1
    ≡ ok (record {
      pn = near_end.next_pn;
      pn_len = packet_number_len near_end.next_pn;
      key_phase = (send c near_end frame).0.tx_key_phase;
      payload = frame ++ replicate (pad_len far_end.scid.len near_end.next_pn (length frame)) 0;
    })
open_packet-send_example =
    open_packet-send toy toy-BoringLaws 2097151 ((keys_generations toy).tx keys) false near_end
      near_IsSending far_end frame frame_packet frame_sent is_peer

decode_padded_message-open_packet_example :
    (o : OpenedPacket) × ((open_packet c far_end frame_packet).1 ≡ ok o)
    × (decode_padded_message o.payload limits ≡ ok (some (message, frame)))
unfolding payload
decode_padded_message-open_packet_example =
    decode_padded_message-open_packet toy toy-BoringLaws 2097151 ((keys_generations toy).tx keys)
      false near_end near_IsSending far_end limits message frame frame_packet
      (record { frame_fits = omega arith; data_fits = λ e. omega arith; length_fits = omega arith })
      frame_encodes frame_sent is_peer
