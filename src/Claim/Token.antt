-- ===== src/Claim/Token.antt =====
-- The claim token in a TLS ClientHello: slt-core/src/crypto/client_hello.rs. The MAC is BoringSSL's, of Qsp/Boring;
-- its error carries nothing here, and the message of a malformed ClientHello is a constructor.
use slt.Prelude.{
  ℕ, ◌+◌, ◌-◌, ◌*◌, List, [], ◌∷◌, ◌++◌, Option, none, some, Bool, ◌&&◌, ◌==◌, leb, length, take,
  drop, replicate, if◌then◌else◌,
}
use slt.Prelude.{Result, ok, err, ◌>>=◌, ◌>>◌, guard, index, slice}
use slt.Prelude.Maps.{same}
use slt.Qsp.Boring.{Boring}

abbrev pub handshake_type_client_hello : ℕ
handshake_type_client_hello = 0x01

abbrev pub legacy_session_id_len : ℕ
legacy_session_id_len = 32

abbrev pub token_part_len : ℕ
token_part_len = 16

abbrev pub random_prefix_len : ℕ
random_prefix_len = 16

abbrev pub max_tcp_client_hello_wire_len : ℕ
max_tcp_client_hello_wire_len = 8192

-- b"slt-tcp-candidate-v2"
abbrev pub candidate_label : List ℕ
candidate_label =
    115 ∷ 108 ∷ 116 ∷ 45 ∷ 116 ∷ 99 ∷ 112 ∷ 45 ∷ 99 ∷ 97 ∷ 110 ∷ 100 ∷ 105 ∷ 100 ∷ 97 ∷ 116 ∷ 101
    ∷ 45 ∷ 118 ∷ 50 ∷ []

-- b"slt-tcp-claim-v2"
abbrev pub claim_label : List ℕ
claim_label =
    115 ∷ 108 ∷ 116 ∷ 45 ∷ 116 ∷ 99 ∷ 112 ∷ 45 ∷ 99 ∷ 108 ∷ 97 ∷ 105 ∷ 109 ∷ 45 ∷ 118 ∷ 50 ∷ []

abbrev pub zero_session_id : List ℕ
zero_session_id = replicate 32 0

pub data Malformed : Type 0 where
  missing_header not_client_hello length_mismatch missing_random : Malformed
  missing_session_id_len session_id_not_32 truncated_session_id : Malformed

pub data ClientHelloError : Type 0 where
  invalid_session_id_length : ℕ → ℕ → ClientHelloError
  malformed : Malformed → ClientHelloError
  hmac_failed : ClientHelloError

pub record ClientHelloLayout : Type 0 where
  pub random : List ℕ
  pub session_id_start : ℕ

-- `client_hello.get(a..b)`, with the error of its absence.
unfoldable pub get_range : List ℕ → ℕ → ℕ → Malformed → Result ClientHelloError (List ℕ)
get_range xs a b e = if leb b (length xs) then ok (take (b - a) (drop a xs)) else err (malformed e)

-- The first part of `client_hello_layout`, up to the length of the session ID. The sum of the lengths is below 2^25, so
-- it does not overflow.
unfoldable pub client_hello_random : List ℕ → Result ClientHelloError (List ℕ)
client_hello_random client_hello = do
  header ← get_range client_hello 0 4 missing_header
  kind ← index header 0
  guard (kind == handshake_type_client_hello) (malformed not_client_hello)
  high ← index header 1
  middle ← index header 2
  low ← index header 3
  guard (length client_hello == 4 + (high * 65536 + middle * 256 + low)) (malformed length_mismatch)
  random_bytes ← get_range client_hello 6 38 missing_random
  session_id_len ← get_range client_hello 38 39 missing_session_id_len
  id_len ← index session_id_len 0
  guard (id_len == legacy_session_id_len) (malformed session_id_not_32)
  ok random_bytes

unfoldable pub client_hello_layout : List ℕ → Result ClientHelloError ClientHelloLayout
unfolding client_hello_random
client_hello_layout client_hello = do
  random_bytes ← client_hello_random client_hello
  guard (leb 71 (length client_hello)) (malformed truncated_session_id)
  ok (record { random = random_bytes; session_id_start = 39 })

abbrev pub require_mac : Option (List ℕ) → Result ClientHelloError (List ℕ)
require_mac none = err hmac_failed
require_mac (some mac) = ok (take token_part_len mac)

module _ (boring : Boring) where
  unfoldable pub candidate_session_id_tag : List ℕ → List ℕ → Result ClientHelloError (List ℕ)
  candidate_session_id_tag random secret =
      require_mac (boring.hmac_sha256 secret (candidate_label ++ take random_prefix_len random))

  -- The parts are one after the other in one buffer.
  unfoldable pub truncated_hmac :
      List ℕ → List ℕ → List ℕ → List ℕ → List ℕ → Result ClientHelloError (List ℕ)
  truncated_hmac secret label front id back =
      require_mac (boring.hmac_sha256 secret (label ++ (front ++ (id ++ back))))

  unfoldable pub complete_claim_tag :
      List ℕ → ClientHelloLayout → List ℕ → Result ClientHelloError (List ℕ)
  unfolding truncated_hmac
  complete_claim_tag client_hello layout secret = do
    front ← slice client_hello 0 layout.session_id_start
    back ←
        slice client_hello (layout.session_id_start + legacy_session_id_len) (length client_hello)
    truncated_hmac secret claim_label front zero_session_id back

  unfoldable pub verify_legacy_session_id : List ℕ → List ℕ → Result ClientHelloError Bool
  unfolding candidate_session_id_tag complete_claim_tag client_hello_layout
  verify_legacy_session_id client_hello secret = do
    layout ← client_hello_layout client_hello
    session_id ←
        slice client_hello layout.session_id_start (layout.session_id_start + legacy_session_id_len)
    candidate ← candidate_session_id_tag layout.random secret
    claim ← complete_claim_tag client_hello layout secret
    first ← slice session_id 0 token_part_len
    second ← slice session_id token_part_len (length session_id)
    ok (same first candidate && same second claim)

  -- Both halves of a new token.
  unfoldable pub new_session_id :
      List ℕ → ClientHelloLayout → List ℕ → List ℕ → Result ClientHelloError (List ℕ)
  unfolding complete_claim_tag
  new_session_id client_hello layout secret candidate = do
    claim ← complete_claim_tag client_hello layout secret
    ok (candidate ++ claim)

  -- The buffer `session_id` behind the call; BoringSSL serialises it into the message.
  unfoldable pub fill_legacy_session_id :
      List ℕ → List ℕ → List ℕ → Result ClientHelloError (List ℕ)
  unfolding candidate_session_id_tag new_session_id client_hello_layout
  fill_legacy_session_id client_hello session_id secret = do
    guard (length session_id == legacy_session_id_len)
        (invalid_session_id_length legacy_session_id_len (length session_id))
    layout ← client_hello_layout client_hello
    candidate ← candidate_session_id_tag layout.random secret
    first ← slice session_id 0 token_part_len
    if same first candidate
        then ok session_id
        else new_session_id client_hello layout secret candidate
