-- ===== src/Qsp/Replay.antt =====
-- The replay window of slt-core/src/crypto/udp_qsp/session.rs: a ring of 1024 bits over the packet
-- numbers that were accepted, kept in sixteen 64-bit words.
pub mod Bitmap
pub mod History
pub mod Slide
pub mod Refines
pub mod NoReplay
pub mod Refused
use Prim.Native.Nat.{bit_and, bit_or}
use slt.Prelude.{ℕ, zero, suc, ◌+◌, ◌-◌, ◌/◌, ◌%◌, ◌^◌, min, Bool, true, false, not, Option, none}
use slt.Prelude.{some, List, ltb, leb, ◌==◌, if◌then◌else◌, get_or, set, replicate, Result, ok, err}

abbrev pub pn_replay_window : ℕ
pn_replay_window = 1024

abbrev pub window_word_bits : ℕ
window_word_bits = 64

abbrev pub window_words : ℕ
window_words = 16

abbrev pub u64_max : ℕ
u64_max = 18446744073709551615

pub data ReplayError : Type 0 where
  replay too_old : ReplayError

pub record ReplayWindow : Type 0 where
  pub largest_pn : Option ℕ
  pub initial_expected : ℕ
  pub bits : List ℕ

unfoldable pub new : ℕ → ReplayWindow
new expected = record {
  largest_pn = none;
  initial_expected = expected;
  bits = replicate window_words 0;
}

-- `pn.saturating_add(1)`
abbrev pub saturating_suc : ℕ → ℕ
saturating_suc pn = min (pn + 1) u64_max

unfoldable pub expected_pn : ReplayWindow → ℕ
expected_pn w = elim w.largest_pn [ none ↦ w.initial_expected | some pn ↦ saturating_suc pn ]

-- The word of the bit of `pn`, and the mask `1 << bit` in it.
unfoldable pub bit_position : ℕ → ℕ × ℕ
bit_position pn =
    let idx = pn % pn_replay_window in (idx / window_word_bits, 2 ^ (idx % window_word_bits))

unfoldable pub is_set : ReplayWindow → ℕ → Bool
unfolding bit_position
is_set w pn = let (word, mask) = bit_position pn in not (bit_and (get_or w.bits word 0) mask == 0)

unfoldable pub set_bit : ReplayWindow → ℕ → ReplayWindow
unfolding bit_position
set_bit w pn =
    let (word, mask) = bit_position pn in
    record w { bits = set w.bits word (bit_or (get_or w.bits word 0) mask) }

-- `!mask` is the complement in 64 bits.
unfoldable pub clear_bit : ReplayWindow → ℕ → ReplayWindow
unfolding bit_position
clear_bit w pn =
    let (word, mask) = bit_position pn in
    record w { bits = set w.bits word (bit_and (get_or w.bits word 0) (u64_max - mask)) }

-- `for old_pn in start..start + count { self.clear_bit(old_pn); }`
unfoldable pub clear_range : ℕ → ℕ → ReplayWindow → ReplayWindow
clear_range zero start w = w
clear_range (suc count) start w = clear_range count (start + 1) (clear_bit w start)

-- `self.bits.fill(0)`
unfoldable pub fill_zero : ReplayWindow → ReplayWindow
fill_zero w = record w { bits = replicate window_words 0 }

-- What is done to the bits when the window moves up from `largest` to `pn`. On ℕ, `-` is
-- `saturating_sub`, and `largest < pn` makes `delta` exact.
unfoldable pub slide : ReplayWindow → ℕ → ℕ → ReplayWindow
slide w largest pn =
    let delta = pn - largest in
    if leb pn_replay_window delta
    then fill_zero w
    else (let window = pn_replay_window - 1 in
        let old_start = largest - window in
        let new_start = pn - window in
        if ltb old_start new_start then clear_range (new_start - old_start) old_start w else w)

-- The three arms of the `match` on `largest_pn`.
unfoldable pub first_packet : ReplayWindow → ℕ → ReplayWindow × Result ReplayError (Unit {0})
first_packet w pn =
    if ltb pn w.initial_expected
    then (w, err too_old)
    else (set_bit (record (fill_zero w) { largest_pn = some pn }) pn, ok tt)

unfoldable pub newer_packet : ReplayWindow → ℕ → ℕ → ReplayWindow × Result ReplayError (Unit {0})
newer_packet w largest pn =
    (set_bit (record (slide w largest pn) { largest_pn = some pn }) pn, ok tt)

unfoldable pub older_packet : ReplayWindow → ℕ → ℕ → ReplayWindow × Result ReplayError (Unit {0})
older_packet w largest pn =
    if leb pn_replay_window (largest - pn)
    then (w, err too_old)
    else if is_set w pn
    then (w, err replay)
    else (set_bit w pn, ok tt)

unfoldable pub check_and_update : ReplayWindow → ℕ → ReplayWindow × Result ReplayError (Unit {0})
check_and_update w pn = elim w.largest_pn [
  | none ↦ first_packet w pn
  | some largest ↦ if ltb largest pn then newer_packet w largest pn else older_packet w largest pn
]
