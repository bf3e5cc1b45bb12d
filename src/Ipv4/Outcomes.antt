-- ===== src/Ipv4/Outcomes.antt =====
-- When slt-core/src/packet.rs finds the addresses of a packet, and which bytes they are.
use slt.Prelude.{
  ℕ, ◌+◌, ◌*◌, ◌/◌, ◌%◌, ◌≤◌, ◌≡◌, ◌⊎◌, inl, inr, refl, arith, List, [], ◌∷◌, ltb, ◌==◌,
}
use slt.Prelude.{◌||◌, Bool-cases, length, take, drop, get_or, ok, err, index}
use slt.Ipv4.{no_address, get_octets, extract_addr, extract_src_ipv4, extract_dst_ipv4}

-- The packet has an IPv4 header: version 4, and a header length of at least 20 bytes that are there.
pub record IsIpv4 (packet : List ℕ) : Type 0 where
  pub version : get_or packet 0 0 / 16 ≡ 4
  pub header_len : 20 ≤ get_or packet 0 0 % 16 * 4
  pub present : get_or packet 0 0 % 16 * 4 ≤ length packet

abbrev IsOutcome : List ℕ → ℕ → Type 0
IsOutcome packet offset =
    (IsIpv4 packet × (extract_addr packet offset ≡ ok (take 4 (drop offset packet))))
    ⊎ ((IsIpv4 packet → ⊥) × (extract_addr packet offset ≡ err no_address))

extract_addr_found :
    (packet : List ℕ) (offset : ℕ)
    → offset + 4 ≤ 20
    → IsIpv4 packet
    → extract_addr packet offset ≡ ok (take 4 (drop offset packet))
unfolding extract_addr index get_octets
extract_addr_found [] offset h v = absurd (omega (arith, v.header_len, v.present))
extract_addr_found (b ∷ r) offset h v = ground (arith, v.version, v.header_len, v.present)

extract_addr-IsOutcome : (packet : List ℕ) (offset : ℕ) → offset + 4 ≤ 20 → IsOutcome packet offset
unfolding extract_addr index get_octets
extract_addr-IsOutcome [] offset h = inr (λ v. omega (arith, v.header_len, v.present), refl)
extract_addr-IsOutcome (b ∷ r) offset h = elim (Bool-cases (ltb (length (b ∷ r)) 20)) [
  | inl short ↦ inr (λ v. ground (arith, short, v.header_len, v.present), rw short refl)
  | inr long ↦ elim (Bool-cases (b / 16 == 4)) [
    | inr other ↦ inr (λ v. ground (arith, other, v.version), rw (long, other) refl)
    | inl four ↦ elim (Bool-cases (ltb (b % 16 * 4) 20 || ltb (length (b ∷ r)) (b % 16 * 4))) [
      | inl bad ↦ inr (λ v. ground (arith, bad, v.header_len, v.present), rw (long, four, bad) refl)
      | inr good ↦
          let v : IsIpv4 (b ∷ r) = record {
            version = ground (arith, four);
            header_len = ground (arith, good);
            present = ground (arith, good);
          } in
          inl (v, extract_addr_found (b ∷ r) offset h v)
    ]
  ]
]

-- The source and the destination address of a packet are found together: if the packet has version 4 and
-- a header length of at least 20 bytes that are there, they are its bytes 12 to 15 and 16 to 19, and
-- otherwise neither is found. No packet makes the extraction panic.
pub extract_addrs-outcomes :
    (packet : List ℕ)
    → (IsIpv4 packet
        × (extract_src_ipv4 packet ≡ ok (take 4 (drop 12 packet)))
        × (extract_dst_ipv4 packet ≡ ok (take 4 (drop 16 packet))))
      ⊎ ((IsIpv4 packet → ⊥)
          × (extract_src_ipv4 packet ≡ err no_address)
          × (extract_dst_ipv4 packet ≡ err no_address))
unfolding extract_src_ipv4 extract_dst_ipv4
extract_addrs-outcomes packet = elim (extract_addr-IsOutcome packet 12 (omega arith)) [
  | inl (v, src) ↦ inl (v, src, extract_addr_found packet 16 (omega arith) v)
  | inr (n, src) ↦ elim (extract_addr-IsOutcome packet 16 (omega arith)) [
    | inl (v, dst) ↦ absurd (n v)
    | inr (m, dst) ↦ inr (n, src, dst)
  ]
]
