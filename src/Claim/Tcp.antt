-- ===== src/Claim/Tcp.antt =====
-- The classifier of TCP streams: slt-core/src/classifier.rs. A reader is passed on with the bytes it has read; the error
-- of a read is the verdict that it ends the classification with.
use slt.Prelude.{
  ℕ, zero, suc, ◌+◌, ◌-◌, ◌*◌, List, [], ◌++◌, Bool, true, false, not, ◌==◌, leb, length,
  if◌then◌else◌, min,
}
use slt.Prelude.{Result, ok, err, panic, ◌>>=◌, ◌>>◌, guard, index, slice}
use slt.Prelude.Maps.{same}
use slt.Qsp.Boring.{Boring}
use slt.Claim.Token.{
  ClientHelloError, handshake_type_client_hello, legacy_session_id_len, token_part_len,
  max_tcp_client_hello_wire_len, candidate_session_id_tag, verify_legacy_session_id,
}

pub data Verdict : Type 0 where
  claim pass drop_it incomplete : Verdict

abbrev pub tls_handshake_content_type : ℕ
tls_handshake_content_type = 0x16

abbrev pub tls_record_header_len : ℕ
tls_record_header_len = 5

pub record RecordReader : Type 0 where
  pub buf : List ℕ
  pub pos : ℕ
  pub record_remaining : ℕ

unfoldable pub next_record : RecordReader → Result Verdict RecordReader
next_record r = do
  guard (leb (r.pos + 5) (length r.buf)) incomplete
  content_type ← index r.buf r.pos
  guard (content_type == tls_handshake_content_type) pass
  high ← index r.buf (r.pos + 3)
  low ← index r.buf (r.pos + 4)
  ok (record r { pos = r.pos + 5; record_remaining = high * 256 + low })

-- `if self.record_remaining == 0 { self.next_record()?; }`
unfoldable pub refill : RecordReader → Result Verdict RecordReader
unfolding next_record
refill r = if r.record_remaining == 0 then next_record r else ok r

abbrev pub available : RecordReader → ℕ
available r = length r.buf - r.pos

abbrev pub step_len : RecordReader → ℕ → ℕ
step_len r missing = min (min r.record_remaining missing) (available r)

abbrev pub advance_by : ℕ → RecordReader → RecordReader
advance_by n r = record r { pos = r.pos + n; record_remaining = r.record_remaining - n }

-- The loop of `RecordReader::read_exact`, on fuel, for the bytes that are missing.
unfoldable pub fill : ℕ → RecordReader → ℕ → Result Verdict (List ℕ × RecordReader)
unfolding refill
fill zero r missing = panic
fill (suc fuel) r zero = ok ([], r)
fill (suc fuel) r (suc missing) = do
  r' ← refill r
  guard (not (available r' == 0)) incomplete
  let n = step_len r' (suc missing)
  bytes ← slice r'.buf r'.pos (r'.pos + n)
  rest ← fill fuel (advance_by n r') (suc missing - n)
  ok (bytes ++ rest.0, rest.1)

unfoldable pub read_record : RecordReader → ℕ → Result Verdict (List ℕ × RecordReader)
unfolding fill
read_record r n = fill (suc (available r)) r n

pub record HandshakeReader : Type 0 where
  pub inner : RecordReader
  pub remaining : ℕ

unfoldable pub read_handshake : HandshakeReader → ℕ → Result Verdict (List ℕ × HandshakeReader)
unfolding read_record
read_handshake hs n = do
  guard (leb n hs.remaining) pass
  read ← read_record hs.inner n
  ok (read.0, record { inner = read.1; remaining = hs.remaining - n })

-- The loop of `read_remaining_into`, on fuel.
unfoldable pub read_chunks : ℕ → HandshakeReader → Result Verdict (List ℕ × HandshakeReader)
unfolding read_handshake
read_chunks zero hs = panic
read_chunks (suc fuel) hs = elim (hs.remaining == 0) [
  | true ↦ ok ([], hs)
  | false ↦ read_handshake hs (min hs.remaining 256) >>= λ first.
      read_chunks fuel first.1 >>= λ rest. ok (first.0 ++ rest.0, rest.1)
]

unfoldable pub read_remaining_into : HandshakeReader → Result Verdict (List ℕ × HandshakeReader)
unfolding read_chunks
read_remaining_into hs = read_chunks (suc hs.remaining) hs

-- `let Ok(candidate) = ... else { return Verdict::Pass; }`
abbrev pub or_pass : {A : Type 0} → Result ClientHelloError A → Result Verdict A
or_pass (ok a) = ok a
or_pass (err e) = err pass
or_pass panic = panic

abbrev pub final_verdict : Result ClientHelloError Bool → Result Verdict Verdict
final_verdict (ok true) = ok claim
final_verdict (ok false) = ok pass
final_verdict (err e) = ok pass
final_verdict panic = panic

-- An early return ends with its verdict.
abbrev pub returned : Result Verdict Verdict → Result Verdict Verdict
returned (ok v) = ok v
returned (err v) = ok v
returned panic = panic

module _ (boring : Boring) where
  -- From the end of the session ID on.
  unfoldable pub verify_rest :
      HandshakeReader → List ℕ → List ℕ → List ℕ → List ℕ → Result Verdict Verdict
  unfolding read_remaining_into candidate_session_id_tag verify_legacy_session_id
  verify_rest hs front random session_id secret = do
    candidate ← or_pass (candidate_session_id_tag boring random secret)
    first ← slice session_id 0 token_part_len
    guard (same first candidate) pass
    rest ← read_remaining_into hs
    guard (leb rest.1.inner.pos max_tcp_client_hello_wire_len) pass
    final_verdict (verify_legacy_session_id boring (front ++ (session_id ++ rest.0)) secret)

  -- `front` is the handshake header.
  unfoldable pub read_client_hello : HandshakeReader → List ℕ → List ℕ → Result Verdict Verdict
  unfolding verify_rest read_handshake
  read_client_hello hs header secret = do
    version ← read_handshake hs 2
    random ← read_handshake version.1 32
    id_len ← read_handshake random.1 1
    n ← index id_len.0 0
    guard (n == legacy_session_id_len) pass
    session_id ← read_handshake id_len.1 legacy_session_id_len
    verify_rest session_id.1 (header ++ (version.0 ++ (random.0 ++ id_len.0))) random.0 session_id.0
        secret

  unfoldable pub classify_tcp_client_hello_within_limit : List ℕ → List ℕ → Result Verdict Verdict
  unfolding read_client_hello read_record
  classify_tcp_client_hello_within_limit input secret = returned (do
    header ← read_record (record { buf = input; pos = 0; record_remaining = 0 }) 4
    kind ← index header.0 0
    guard (kind == handshake_type_client_hello) pass
    high ← index header.0 1
    middle ← index header.0 2
    low ← index header.0 3
    let hs_len = high * 65536 + middle * 256 + low
    guard (leb (tls_record_header_len + 4 + hs_len) max_tcp_client_hello_wire_len) pass
    read_client_hello (record { inner = header.1; remaining = hs_len }) header.0 secret)

  abbrev pub limited : List ℕ → Verdict → Verdict
  limited input incomplete =
      if leb max_tcp_client_hello_wire_len (length input) then pass else incomplete
  limited input claim = claim
  limited input pass = pass
  limited input drop_it = drop_it

  unfoldable pub classify_tcp_client_hello : List ℕ → List ℕ → Result Verdict Verdict
  unfolding classify_tcp_client_hello_within_limit
  classify_tcp_client_hello input secret = do
    verdict ← classify_tcp_client_hello_within_limit input secret
    ok (limited input verdict)
