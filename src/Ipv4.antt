-- ===== src/Ipv4.antt =====
-- IPv4 addresses of a packet: slt-core/src/packet.rs. An address is its four bytes.
pub mod Outcomes
use slt.Prelude.{
  ℕ, ◌+◌, ◌-◌, ◌*◌, ◌/◌, ◌%◌, List, ltb, leb, ◌==◌, if◌then◌else◌, Bool, not, ◌&&◌, ◌||◌, length,
  take, drop,
}
use slt.Prelude.{Result, ok, err, ◌>>=◌, ◌>>◌, guard, index}

abbrev pub ipv4_min_header_len : ℕ
ipv4_min_header_len = 20

abbrev pub ipv4_addr_len : ℕ
ipv4_addr_len = 4

abbrev pub ipv4_src_addr_offset : ℕ
ipv4_src_addr_offset = 12

abbrev pub ipv4_dst_addr_offset : ℕ
ipv4_dst_addr_offset = 16

-- `None`, beside which the code can still panic.
pub data NoAddress : Type 0 where
  no_address : NoAddress

-- `packet.get(offset..offset + 4)?`
unfoldable pub get_octets : List ℕ → ℕ → Result NoAddress (List ℕ)
get_octets packet offset =
    if leb (offset + ipv4_addr_len) (length packet)
    then ok (take ipv4_addr_len (drop offset packet))
    else err no_address

-- On a byte, `>> 4` divides by 16 and `& 0x0f` is the remainder.
unfoldable pub extract_addr : List ℕ → ℕ → Result NoAddress (List ℕ)
extract_addr packet offset = do
  guard (not (ltb (length packet) ipv4_min_header_len)) no_address
  version_byte ← index packet 0
  guard (version_byte / 16 == 4) no_address
  length_byte ← index packet 0
  let ihl = length_byte % 16 * 4
  guard (not (ltb ihl ipv4_min_header_len || ltb (length packet) ihl)) no_address
  get_octets packet offset

unfoldable pub extract_src_ipv4 : List ℕ → Result NoAddress (List ℕ)
extract_src_ipv4 packet = extract_addr packet ipv4_src_addr_offset

unfoldable pub extract_dst_ipv4 : List ℕ → Result NoAddress (List ℕ)
extract_dst_ipv4 packet = extract_addr packet ipv4_dst_addr_offset
