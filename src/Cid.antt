-- ===== src/Cid.antt =====
-- Connection IDs: slt-core/src/types/cid.rs. A CID is a length and 20 bytes, zero behind the length.
pub mod Laws
use slt.Prelude.{
  ℕ, ◌-◌, List, ◌++◌, ltb, ◌==◌, if◌then◌else◌, Bool, length, take, replicate, Result,
}
use slt.Prelude.{ok, err}

abbrev pub max_dcid_len : ℕ
max_dcid_len = 20

abbrev pub quic_dcid_prefix_len : ℕ
quic_dcid_prefix_len = 20

-- `CidPrefix` wraps 20 bytes.
pub record CidPrefix : Type 0 where
  pub bytes : List ℕ

pub record Cid : Type 0 where
  pub len : ℕ
  pub bytes : List ℕ

pub data CidError : Type 0 where
  invalid_len : ℕ → CidError
  too_short_for_prefix : ℕ → CidError

-- `Cid::new` and `Cid::try_from`. The conversion of the length to `u8` cannot fail after the test.
unfoldable pub new : List ℕ → Result CidError Cid
new bytes =
    if ltb max_dcid_len (length bytes)
    then err (invalid_len (length bytes))
    else ok
        (record { len = length bytes; bytes = bytes ++ replicate (max_dcid_len - length bytes) 0 })

unfoldable pub as_slice : Cid → List ℕ
as_slice c = take c.len c.bytes

unfoldable pub prefix : Cid → Result CidError CidPrefix
prefix c =
    if ltb c.len quic_dcid_prefix_len
    then err (too_short_for_prefix c.len)
    else ok (record { bytes = take quic_dcid_prefix_len c.bytes })

unfoldable pub is_empty : Cid → Bool
is_empty c = c.len == 0
