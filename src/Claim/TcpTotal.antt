-- ===== src/Claim/TcpTotal.antt =====
-- Every TCP stream gets a verdict, and only a verified ClientHello is claimed: slt-core/src/classifier.rs.
use slt.Prelude.{
  ℕ, ◌+◌, ◌*◌, ◌≡◌, ◌≢◌, refl, arith, List, ◌++◌, Bool, true, false, ◌==◌, leb, length, drop, ◌⊎◌,
  inl, inr, if◌then◌else◌,
}
use slt.Prelude.{Result, ok, err, panic}
use slt.Prelude.Maps.{same}
use slt.Qsp.Boring.{Boring}
use slt.Claim.Token.{
  ClientHelloError, handshake_type_client_hello, legacy_session_id_len,
  max_tcp_client_hello_wire_len, candidate_session_id_tag, verify_legacy_session_id,
}
use slt.Claim.Tcp as Tcp
use slt.Claim.Tcp.{
  Verdict, RecordReader, HandshakeReader, read_record, read_handshake, read_remaining_into,
  tls_record_header_len, or_pass, final_verdict, returned, verify_rest, read_client_hello,
  classify_tcp_client_hello_within_limit, limited, classify_tcp_client_hello,
}
use slt.Claim.Outcomes.{
  Outcome, EndsIn, NoClaim, EndsIn-bind, EndsIn-guard, EndsIn-index, EndsIn-slice,
}
use slt.Claim.Records.{Carries, Carries-append}
use slt.Claim.TcpReads.{
  InBuf, Read, ReadHandshake, Rest, read_record-Read, read_handshake-Read,
  read_remaining_into-Outcome, pass-ne-claim, incomplete-ne-claim,
}
use slt.Claim.TokenTotal.{
  AnyError, candidate_session_id_tag-ends, verify_legacy_session_id-ne-panic,
}

abbrev Any : {A : Type 0} → A → Type 0
Any a = Unit

or_pass-Outcome :
    {A : Type 0} (m : Result ClientHelloError A)
    → EndsIn AnyError (Any {A = A}) m
    → Outcome (Any {A = A}) (or_pass m)
unfolding EndsIn
or_pass-Outcome (ok a) h = tt
or_pass-Outcome (err e) h = pass-ne-claim
or_pass-Outcome panic h = absurd h

-- The records of an input begin with a ClientHello that verifies.
abbrev pub IsClaimed : Boring → List ℕ → List ℕ → Type 0
IsClaimed boring secret input =
    (client_hello : List ℕ) × (m : ℕ) × (end : List ℕ) × Carries 0 input client_hello m end
    × (verify_legacy_session_id boring client_hello secret ≡ ok true)

module _ (boring : Boring) (secret input : List ℕ) where
  -- A claim comes with a ClientHello that the records of the input carry and that verifies.
  IsJudged : Verdict → Type 0
  IsJudged v = (v ≢ Tcp.claim) ⊎ IsClaimed boring secret input

  final_verdict-IsJudged :
      (client_hello : List ℕ) (m : Result ClientHelloError Bool)
      → (k : ℕ) × (end : List ℕ) × Carries 0 input client_hello k end
      → verify_legacy_session_id boring client_hello secret ≡ m
      → m ≢ panic
      → Outcome IsJudged (final_verdict m)
  unfolding EndsIn IsJudged
  final_verdict-IsJudged ch (ok true) (k, end, c) e n = inr (ch, k, end, c, e)
  final_verdict-IsJudged ch (ok false) c e n = inl pass-ne-claim
  final_verdict-IsJudged ch (err x) c e n = inl pass-ne-claim
  final_verdict-IsJudged ch panic c e n = absurd (n refl)

  verify_rest-IsJudged :
      (hs : HandshakeReader) (front random session_id middle : List ℕ) (m : ℕ)
      → InBuf hs.inner
      → length session_id ≡ 32
      → Carries 0 input front m middle
      → Carries m middle session_id hs.inner.record_remaining (drop hs.inner.pos hs.inner.buf)
      → Outcome IsJudged (verify_rest boring hs front random session_id secret)
  unfolding verify_rest
  verify_rest-IsJudged hs front random id middle m h l before carried_id =
      let Q = IsJudged in
      EndsIn-bind NoClaim (Any {A = List ℕ}) Q
        (or_pass (candidate_session_id_tag boring random secret)) _
        (or_pass-Outcome _ (candidate_session_id_tag-ends boring random secret))
        (λ candidate _. EndsIn-slice NoClaim Q id 0 16 _ (omega arith) (λ first _.
          EndsIn-guard NoClaim Q (same first candidate) Tcp.pass _ pass-ne-claim (λ _.
            EndsIn-bind NoClaim (Rest hs) Q (read_remaining_into hs) _
              (read_remaining_into-Outcome hs h)
              (λ rest p.
                EndsIn-guard NoClaim Q (leb rest.1.inner.pos max_tcp_client_hello_wire_len) Tcp.pass
                  _ pass-ne-claim
                  (λ _.
                    final_verdict-IsJudged (front ++ (id ++ rest.0)) _
                      (_, _, Carries-append before (Carries-append carried_id p.1)) refl
                      (verify_legacy_session_id-ne-panic boring _ secret))))))

  read_client_hello-IsJudged :
      (hs : HandshakeReader) (header : List ℕ)
      → InBuf hs.inner
      → Carries 0 input header hs.inner.record_remaining (drop hs.inner.pos hs.inner.buf)
      → Outcome IsJudged (read_client_hello boring hs header secret)
  unfolding read_client_hello
  read_client_hello-IsJudged hs header h before =
      let Q = IsJudged in
      EndsIn-bind NoClaim (ReadHandshake hs 2) Q (read_handshake hs 2) _
        (read_handshake-Read hs 2 h)
        (λ version p.
          EndsIn-bind NoClaim (ReadHandshake version.1 32) Q (read_handshake version.1 32) _
            (read_handshake-Read version.1 32 p.1)
            (λ random q.
              EndsIn-bind NoClaim (ReadHandshake random.1 1) Q (read_handshake random.1 1) _
                (read_handshake-Read random.1 1 q.1)
                (λ id_len r. EndsIn-index NoClaim Q id_len.0 0 _ (omega (arith, r.0)) (λ n.
                  EndsIn-guard NoClaim Q (n == legacy_session_id_len) Tcp.pass _ pass-ne-claim (λ _.
                    EndsIn-bind NoClaim (ReadHandshake id_len.1 32) Q (read_handshake id_len.1 32) _
                      (read_handshake-Read id_len.1 32 r.1)
                      (λ id s.
                        verify_rest-IsJudged id.1 _ random.0 id.0 _ _ s.1 s.0
                          (Carries-append before (Carries-append p.3 (Carries-append q.3 r.3)))
                          s.3))))))

  returned-ok :
      (m : Result Verdict Verdict)
      → Outcome IsJudged m
      → (v : Verdict) × (returned m ≡ ok v) × IsJudged v
  unfolding EndsIn IsJudged
  returned-ok (ok v) h = (v, refl, h)
  returned-ok (err v) h = (v, refl, inl h)
  returned-ok panic h = absurd h

  within_limit-IsJudged :
      (v : Verdict) × (classify_tcp_client_hello_within_limit boring input secret ≡ ok v)
      × IsJudged v
  unfolding classify_tcp_client_hello_within_limit
  within_limit-IsJudged =
      let Q = IsJudged in
      let start : RecordReader = record { buf = input; pos = 0; record_remaining = 0 } in
      returned-ok _ (
        EndsIn-bind NoClaim (Read start 4) Q (read_record start 4) _
          (read_record-Read start 4 (omega arith))
          (λ header p. EndsIn-index NoClaim Q header.0 0 _ (omega (arith, p.0)) (λ kind.
            EndsIn-guard NoClaim Q (kind == handshake_type_client_hello) Tcp.pass _ pass-ne-claim
              (λ _. EndsIn-index NoClaim Q header.0 1 _ (omega (arith, p.0)) (λ high.
                EndsIn-index NoClaim Q header.0 2 _ (omega (arith, p.0)) (λ middle.
                  EndsIn-index NoClaim Q header.0 3 _ (omega (arith, p.0)) (λ low.
                    EndsIn-guard NoClaim Q
                      (leb (tls_record_header_len + 4 + (high * 65536 + middle * 256 + low))
                        max_tcp_client_hello_wire_len)
                      Tcp.pass _ pass-ne-claim
                      (λ _.
                        read_client_hello-IsJudged
                          (record {
                            inner = header.1;
                            remaining = high * 65536 + middle * 256 + low;
                          })
                          header.0 p.1 p.2))))))))

  either-IsJudged : (b : Bool) → IsJudged (if b then Tcp.pass else Tcp.incomplete)
  unfolding IsJudged
  either-IsJudged true = inl pass-ne-claim
  either-IsJudged false = inl incomplete-ne-claim

  limited-IsJudged : (v : Verdict) → IsJudged v → IsJudged (limited boring input v)
  unfolding IsJudged
  limited-IsJudged Tcp.claim h = h
  limited-IsJudged Tcp.pass h = h
  limited-IsJudged Tcp.drop_it h = h
  limited-IsJudged Tcp.incomplete h =
      either-IsJudged (leb max_tcp_client_hello_wire_len (length input))

-- On any input the classifier ends with a verdict, and when it claims the connection then the handshake records at the
-- start of the input carry a ClientHello whose token verifies.
pub classify_tcp_client_hello-judges :
    (boring : Boring) (input secret : List ℕ)
    → (v : Verdict) × (classify_tcp_client_hello boring input secret ≡ ok v)
      × ((v ≢ Tcp.claim) ⊎ IsClaimed boring secret input)
unfolding classify_tcp_client_hello IsJudged
classify_tcp_client_hello-judges boring input secret =
    let (v, e, judged) = within_limit-IsJudged boring secret input in
    (limited boring input v, rw e, limited-IsJudged boring secret input v judged)
