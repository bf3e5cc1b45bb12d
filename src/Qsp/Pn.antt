-- ===== src/Qsp/Pn.antt =====
-- Packet numbers: slt-core/src/crypto/udp_qsp/pn.rs. Numbers are `u64`.
pub mod Reconstruct
use Prim.Native.Nat.{bit_and, bit_or}
use slt.Prelude.{
  ℕ, ◌+◌, ◌-◌, ◌*◌, ◌/◌, ◌^◌, Option, none, some, ltb, leb, ◌==◌, if◌then◌else◌, ◌&&◌, ◌||◌,
}
use slt.Prelude.Words.{u64_max, checked_add}

abbrev pub max_wire_pn_len : ℕ
max_wire_pn_len = 4

unfoldable pub packet_number_len : ℕ → ℕ
packet_number_len pn =
    if leb pn 0xff then 1 else if leb pn 0xffff then 2 else if leb pn 0xffffff then 3 else 4

-- `if let Some(sum) = candidate.checked_add(half) && sum <= expected && let Some(advanced) = …`
unfoldable pub advance : ℕ → ℕ → ℕ → ℕ → ℕ
advance candidate pn_window pn_half_window expected_pn =
    elim (checked_add candidate pn_half_window) [
      | none ↦ candidate
      | some sum ↦
          if leb sum expected_pn
          then elim (checked_add candidate pn_window) [
            | none ↦ candidate
            | some advanced ↦ advanced
          ]
          else candidate
    ]

-- `if let Some(limit) = expected.checked_add(half) && candidate > limit && candidate >= window`
unfoldable pub retreat : ℕ → ℕ → ℕ → ℕ → ℕ
retreat candidate pn_window pn_half_window expected_pn =
    elim (checked_add expected_pn pn_half_window) [
      | none ↦ candidate
      | some expected_limit ↦
          if ltb expected_limit candidate && leb pn_window candidate
          then candidate - pn_window
          else candidate
    ]

-- The complement `!pn_mask` is taken in 64 bits.
unfoldable pub reconstruct_packet_number : ℕ → ℕ → ℕ → ℕ
unfolding advance retreat
reconstruct_packet_number truncated_pn expected_pn pn_len =
    if pn_len == 0 || ltb max_wire_pn_len pn_len
    then truncated_pn
    else (let pn_window = 2 ^ (pn_len * 8) in
        let pn_half_window = pn_window / 2 in
        let pn_mask = pn_window - 1 in
        let candidate = bit_or (bit_and expected_pn (u64_max - pn_mask)) truncated_pn in
        let advanced = advance candidate pn_window pn_half_window expected_pn in
        retreat advanced pn_window pn_half_window expected_pn)
