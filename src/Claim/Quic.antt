-- ===== src/Claim/Quic.antt =====
-- The classifier of UDP datagrams: `classify_quic_datagram` of slt-core/src/classifier.rs.
use slt.Prelude.{ℕ, ◌+◌, ◌/◌, ◌%◌, List, [], ◌∷◌, ◌==◌, ltb, length, take, if◌then◌else◌}
use slt.Cid.{CidPrefix, quic_dcid_prefix_len}

pub data QuicVerdict : Type 0 where
  drop_it pass : QuicVerdict
  short : CidPrefix → QuicVerdict

-- On a byte, `& 0x80` and `& 0x40` are the two highest bits.
unfoldable pub classify_quic_datagram : List ℕ → QuicVerdict
classify_quic_datagram [] = drop_it
classify_quic_datagram (first ∷ rest) =
    if first / 64 % 2 == 0
    then drop_it
    else if first / 128 == 1
    then pass
    else if ltb (length (first ∷ rest)) (1 + quic_dcid_prefix_len)
    then drop_it
    else short (record { bytes = take quic_dcid_prefix_len rest })
