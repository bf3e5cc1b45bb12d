-- ===== src/Qsp/Replay/Slide.antt =====
-- How the bits track the accepted numbers of the window, when a bit is set and when the window
-- moves up.
use mathlib.Core.List.{List, ◌∷◌}
use native.Mathlib.Decide.{ℕ_discrete, dec_lt, dec_le}
use native.Mathlib.Nat.{add-zero}
use slt.Prelude.{le→leb, lt→ltb}
use slt.Prelude.{ℕ, zero, suc, ◌+◌, ◌-◌, ◌%◌, ◌≤◌, ◌<◌, ◌≡◌, ◌≢◌, refl, sym, ◌∙◌, arith}
use slt.Prelude.{Bool, true, false, ◌==◌, ltb, leb, length}
use slt.Qsp.Replay.{ReplayWindow, set_bit, clear_bit}
use slt.Qsp.Replay.{clear_range, fill_zero, slide}
use slt.Qsp.Replay.Bitmap.{bit_at, bit_at-replicate, length-set_bit, length-clear_bit}
use slt.Qsp.Replay.Bitmap.{bit_at-set_bit_self, bit_at-set_bit_ne, bit_at-clear_bit_self}
use slt.Qsp.Replay.Bitmap.{bit_at-clear_bit_ne}
use slt.Qsp.Replay.History.{mem, top}
use slt.Qsp.Replay.History.{mem→le-top}

abbrev pub bool_digit : Bool → ℕ
bool_digit true = 1
bool_digit false = 0

-- The bits say which numbers of the window that ends in `largest` are in `h`, and the bits of the
-- numbers above `largest` that have no older number on their place are clear.
pub record Tracks (bits : List ℕ) (largest : ℕ) (h : List ℕ) : Type 0 where
  pub full : length bits ≡ 16
  pub inside :
      (p : ℕ) → p ≤ largest → largest < p + 1024 → bit_at bits (p % 1024) ≡ bool_digit (mem p h)
  pub above : (p : ℕ) → largest < p → p < 1024 → bit_at bits p ≡ 0

pub bool_digit_one : (b : Bool) → (bool_digit b == 1) ≡ b
bool_digit_one true = refl
bool_digit_one false = refl

-- The clearing loop.
length-clear_range :
    (n start : ℕ) (w : ReplayWindow) → length (clear_range n start w).bits ≡ length w.bits
unfolding clear_range
length-clear_range zero start w = refl
length-clear_range (suc n) start w =
    length-clear_range n (start + 1) (clear_bit w start) ∙ length-clear_bit w start

bit_at-clear_range_zero :
    (n start : ℕ) (w : ReplayWindow) (i : ℕ)
    → length w.bits ≡ 16
    → bit_at w.bits i ≡ 0
    → bit_at (clear_range n start w).bits i ≡ 0
unfolding clear_range
bit_at-clear_range_zero zero start w i full e = e
bit_at-clear_range_zero (suc n) start w i full e =
    bit_at-clear_range_zero n (start + 1) (clear_bit w start) i (length-clear_bit w start ∙ full)
      (elim (ℕ_discrete i (start % 1024)) [
        | yes q ↦ rw q (bit_at-clear_bit_self w start full)
        | no q ↦ bit_at-clear_bit_ne w start i full q ∙ e
      ])

bit_at-clear_range_in :
    (n start : ℕ) (w : ReplayWindow) (k : ℕ)
    → length w.bits ≡ 16
    → k < n
    → bit_at (clear_range n start w).bits ((start + k) % 1024) ≡ 0
unfolding clear_range
bit_at-clear_range_in zero start w k full h = absurd (omega arith)
bit_at-clear_range_in (suc n) start w zero full h =
    bit_at-clear_range_zero n (start + 1) (clear_bit w start) ((start + 0) % 1024)
      (length-clear_bit w start ∙ full) (rw add-zero (bit_at-clear_bit_self w start full))
bit_at-clear_range_in (suc n) start w (suc k) full h =
    let e : (start + suc k) % 1024 ≡ (start + 1 + k) % 1024 = omega arith in
    rw e (
      bit_at-clear_range_in n (start + 1) (clear_bit w start) k (length-clear_bit w start ∙ full)
        (omega arith))

bit_at-clear_range_out :
    (n start : ℕ) (w : ReplayWindow) (i : ℕ)
    → length w.bits ≡ 16
    → ((k : ℕ) → k < n → i ≢ (start + k) % 1024)
    → bit_at (clear_range n start w).bits i ≡ bit_at w.bits i
unfolding clear_range
bit_at-clear_range_out zero start w i full h = refl
bit_at-clear_range_out (suc n) start w i full h =
    bit_at-clear_range_out n (start + 1) (clear_bit w start) i (length-clear_bit w start ∙ full)
      (λ k p. omega (arith, h (suc k) (omega arith)))
    ∙ bit_at-clear_bit_ne w start i full (omega (arith, h 0 (omega arith)))

-- Setting the bit of `pn` records `pn`, when the bits track the rest of the window.
pub set_bit-Tracks :
    (w : ReplayWindow) (largest pn : ℕ) (h : List ℕ)
    → Tracks w.bits largest h
    → pn ≤ largest
    → largest < pn + 1024
    → Tracks (set_bit w pn).bits largest (pn ∷ h)
set_bit-Tracks w largest pn h t below near = record {
  full = length-set_bit w pn ∙ t.full;
  inside = λ p a b. elim (ℕ_discrete pn p) [
    | yes e ↦ ground (arith, bit_at-set_bit_self w pn t.full)
    | no e ↦ bit_at-set_bit_ne w pn (p % 1024) t.full (omega arith) ∙ ground (arith, t.inside p a b)
  ];
  above = λ p a b. bit_at-set_bit_ne w pn p t.full (omega arith) ∙ t.above p a b;
}

module _ (w : ReplayWindow) (largest pn : ℕ) (h : List ℕ) (t : Tracks w.bits largest h)
    (bounded : top h ≤ largest) (newer : largest < pn) where
  unseen : (p : ℕ) → largest < p → bool_digit (mem p h) ≡ 0
  unseen p a = ground (arith, mem→le-top p h)

  abbrev old_start : ℕ
  old_start = largest - 1023

  abbrev cleared : ReplayWindow
  cleared = clear_range (pn - 1023 - old_start) old_start w

  -- A number above the old window: its place is clear, or was just cleared.
  cleared_new : (p : ℕ) → largest < p → p ≤ pn → bit_at cleared.bits (p % 1024) ≡ 0
  cleared_new p a b = elim (dec_lt p 1024) [
    | yes s ↦
        let e : p % 1024 ≡ p = omega arith in
        bit_at-clear_range_zero (pn - 1023 - old_start) old_start w (p % 1024) t.full
          (rw e (t.above p a s))
    | no s ↦
        let e : p % 1024 ≡ (old_start + (p - 1024 - old_start)) % 1024 = omega arith in
        rw e (
          bit_at-clear_range_in (pn - 1023 - old_start) old_start w (p - 1024 - old_start) t.full
            (omega arith))
  ]

  -- A number of the old window that stays in the new one keeps its bit.
  cleared_kept :
      (p : ℕ)
      → p ≤ largest
      → pn < p + 1024
      → bit_at cleared.bits (p % 1024) ≡ bit_at w.bits (p % 1024)
  cleared_kept p a b =
      bit_at-clear_range_out (pn - 1023 - old_start) old_start w (p % 1024) t.full
        (λ k c. omega arith)

  cleared-Tracks : Tracks cleared.bits pn h
  cleared-Tracks = record {
    full = length-clear_range (pn - 1023 - old_start) old_start w ∙ t.full;
    inside = λ p a b. elim (dec_lt largest p) [
      | yes c ↦ cleared_new p c a ∙ sym (unseen p c)
      | no c ↦ cleared_kept p (omega arith) b ∙ t.inside p (omega arith) (omega arith)
    ];
    above = λ p a b.
        bit_at-clear_range_zero (pn - 1023 - old_start) old_start w p t.full
          (t.above p (omega arith) b);
  }

  fill_zero-Tracks : largest + 1024 ≤ pn → Tracks (fill_zero w).bits pn h
  unfolding fill_zero
  fill_zero-Tracks far = record {
    full = refl;
    inside = λ p a b. bit_at-replicate (p % 1024) ∙ sym (unseen p (omega arith));
    above = λ p a b. bit_at-replicate p;
  }

  unmoved-Tracks : pn ≤ 1023 → Tracks w.bits pn h
  unmoved-Tracks small = record {
    full = t.full;
    inside = λ p a b. elim (dec_lt largest p) [
      | yes c ↦ let e : p % 1024 ≡ p = omega arith in rw (e, unseen p c) (t.above p c (omega arith))
      | no c ↦ t.inside p (omega arith) (omega arith)
    ];
    above = λ p a b. t.above p (omega arith) b;
  }

  pub slide-Tracks : Tracks (slide w largest pn).bits pn h
  unfolding slide
  slide-Tracks = elim (dec_le 1024 (pn - largest)) [
    | yes a ↦ rw (le→leb 1024 (pn - largest) a) (fill_zero-Tracks (omega arith))
    | no a ↦
        let near : leb 1024 (pn - largest) ≡ false = ground arith in
        rw near (elim (dec_lt (largest - 1023) (pn - 1023)) [
          | yes b ↦ rw (lt→ltb (largest - 1023) (pn - 1023) b) cleared-Tracks
          | no b ↦
              let still : ltb (largest - 1023) (pn - 1023) ≡ false = ground arith in
              rw still (unmoved-Tracks (omega arith))
        ])
  ]
