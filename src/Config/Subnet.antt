-- ===== src/Config/Subnet.antt =====
-- What the subnet test of slt-core/src/types/tun_config.rs says: the addresses are in one block of the tunnel's size.
use slt.Prelude.{
  ℕ, zero, suc, ◌+◌, ◌-◌, ◌*◌, ◌/◌, ◌^◌, ◌≤◌, ◌<◌, ◌≡◌, ◌↔◌, sym, ap, ◌∙◌, arith, List, true, false,
  ◌==◌, ==_iff, leb, le→leb,
}
use native.Mathlib.Nat.{div-mul-le_self, lt-div-mul-add, div-eq_of_lt-le, suc-mul}
use slt.Prelude.Bytes.{from_be}
use slt.Config.Server.{TunConfig, ipv4_network_bits, contains_ipv4}

-- One of the blocks that the addresses are cut into from 0 on, with `size` of them in each, has both.
abbrev pub SameBlock : ℕ → ℕ → ℕ → Type 0
SameBlock size a b =
    (k : ℕ) × (k * size ≤ a) × (a < k * size + size) × (k * size ≤ b) × (b < k * size + size)

pow_pos : (n : ℕ) → 0 < 2 ^ n
pow_pos zero = omega arith
pow_pos (suc n) = omega (arith, pow_pos n)

block_number : (k size a : ℕ) → k * size ≤ a → a < k * size + size → a / size ≡ k
block_number k size a lower upper =
    let same : k + 1 ≡ suc k = omega arith in
    let next : (k + 1) * size ≡ k * size + size = ap (λ n. n * size) same ∙ suc-mul k size in
    div-eq_of_lt-le size lower (rw next upper)

same_start-iff-SameBlock :
    (size a b : ℕ) → 0 < size → ((a / size * size == b / size * size) ≡ true) ↔ SameBlock size a b
same_start-iff-SameBlock size a b pos =
    let same_start : (k : ℕ)
        → a / size ≡ k
        → b / size ≡ k
        → (a / size * size == b / size * size) ≡ true =
      λ k e f. (==_iff _ _).1 (ap (λ n. n * size) (e ∙ sym f)) in
    (
      λ t.
          let e : a / size * size ≡ b / size * size = (==_iff _ _).0 t in
          (
            b / size,
            rw (← e) (div-mul-le_self a size),
            rw (← e) (lt-div-mul-add pos),
            div-mul-le_self b size,
            lt-div-mul-add pos,
          ),
      λ (k, la, ua, lb, ub).
          same_start k (block_number k size a la ua) (block_number k size b lb ub),
    )

not_zero : (n : ℕ) → 1 ≤ n → (n == 0) ≡ false
not_zero n h = ground arith

pub contains_ipv4-iff-SameBlock :
    (tun : TunConfig) (addr : List ℕ)
    → 1 ≤ tun.tun_prefix
    → tun.tun_prefix ≤ 32
    → (contains_ipv4 tun addr ≡ true)
      ↔ SameBlock (2 ^ (32 - tun.tun_prefix)) (from_be addr) (from_be tun.tun_ipv4)
unfolding contains_ipv4 ipv4_network_bits
contains_ipv4-iff-SameBlock tun addr one most =
    let positive : (tun.tun_prefix == 0) ≡ false = not_zero tun.tun_prefix one in
    let within : leb tun.tun_prefix 32 ≡ true = le→leb tun.tun_prefix 32 most in
    rw (positive, within)
      (same_start-iff-SameBlock (2 ^ (32 - tun.tun_prefix)) (from_be addr) (from_be tun.tun_ipv4)
        (pow_pos (32 - tun.tun_prefix)))
