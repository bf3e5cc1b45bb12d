-- ===== src/Tests/Ipv4.antt =====
-- The address extraction of slt-core/src/packet.rs on a bare header.
use slt.Prelude.{ℕ, ◌≡◌, ◌⊎◌, List, [], ◌∷◌, ok, err}
use slt.Ipv4.{no_address, extract_src_ipv4, extract_dst_ipv4}
use slt.Ipv4.Outcomes.{IsIpv4, extract_addrs-outcomes}

abbrev ip_header : List ℕ
ip_header =
    0x45 ∷ 0 ∷ 0 ∷ 20 ∷ 0 ∷ 0 ∷ 0 ∷ 0 ∷ 64 ∷ 17 ∷ 0 ∷ 0 ∷ 10 ∷ 0 ∷ 0 ∷ 2 ∷ 10 ∷ 0 ∷ 0 ∷ 1 ∷ []

extract_addrs-outcomes_example :
    (IsIpv4 ip_header
      × (extract_src_ipv4 ip_header ≡ ok (10 ∷ 0 ∷ 0 ∷ 2 ∷ []))
      × (extract_dst_ipv4 ip_header ≡ ok (10 ∷ 0 ∷ 0 ∷ 1 ∷ [])))
    ⊎ ((IsIpv4 ip_header → ⊥)
        × (extract_src_ipv4 ip_header ≡ err no_address)
        × (extract_dst_ipv4 ip_header ≡ err no_address))
extract_addrs-outcomes_example = extract_addrs-outcomes ip_header
