-- ===== src/Claim/TokenTotal.antt =====
-- The verification of a claim token ends without a panic, on any bytes: slt-core/src/crypto/client_hello.rs.
use slt.Prelude.{
  ℕ, ◌+◌, ◌-◌, ◌*◌, ◌≤◌, ◌≡◌, ◌≢◌, refl, arith, List, Option, none, some, Bool, ◌==◌, leb, leb→le,
  Bool-cases, inl, inr, length, drop,
}
use slt.Prelude.{panic}
use slt.Prelude.Lists.{length-take, length-drop}
use slt.Qsp.Boring.{Boring}
use slt.Claim.Token.{
  ClientHelloError, ClientHelloLayout, Malformed, get_range, client_hello_layout,
  client_hello_random, require_mac, candidate_session_id_tag, truncated_hmac, complete_claim_tag,
  verify_legacy_session_id, malformed, not_client_hello, length_mismatch, session_id_not_32,
  truncated_session_id, missing_header, missing_random, missing_session_id_len,
  handshake_type_client_hello, legacy_session_id_len,
}
use slt.Claim.Outcomes.{
  EndsIn, EndsIn-ok, EndsIn-bind, EndsIn-guard, EndsIn-index, EndsIn-slice, EndsIn-ne-panic,
}

abbrev pub AnyError : ClientHelloError → Type 0
AnyError e = Unit

abbrev HasLength : ℕ → List ℕ → Type 0
HasLength n xs = length xs ≡ n

abbrev Any : {A : Type 0} → A → Type 0
Any a = Unit

get_range-HasLength :
    (xs : List ℕ) (a b : ℕ) (e : Malformed)
    → a ≤ b
    → EndsIn AnyError (HasLength (b - a)) (get_range xs a b e)
unfolding get_range EndsIn
get_range-HasLength xs a b e h = elim (Bool-cases (leb b (length xs))) [
  | inl t ↦
      let room = leb→le b (length xs) t in
      rw t (omega (arith, length-take (b - a) (drop a xs), length-drop a xs))
  | inr f ↦ rw f tt
]

client_hello_random-ends :
    (ch : List ℕ) → EndsIn AnyError (Any {A = List ℕ}) (client_hello_random ch)
unfolding client_hello_random
client_hello_random-ends ch =
    let Q = Any {A = List ℕ} in
    EndsIn-bind AnyError (HasLength 4) Q (get_range ch 0 4 missing_header) _
      (get_range-HasLength ch 0 4 missing_header (omega arith))
      (λ header h. EndsIn-index AnyError Q header 0 _ (omega arith) (λ kind.
        EndsIn-guard AnyError Q (kind == handshake_type_client_hello) (malformed not_client_hello) _
          tt
          (λ _. EndsIn-index AnyError Q header 1 _ (omega arith) (λ high.
            EndsIn-index AnyError Q header 2 _ (omega arith) (λ middle.
              EndsIn-index AnyError Q header 3 _ (omega arith) (λ low.
                EndsIn-guard AnyError Q (length ch == 4 + (high * 65536 + middle * 256 + low))
                  (malformed length_mismatch) _ tt
                  (λ _.
                    EndsIn-bind AnyError (HasLength 32) Q (get_range ch 6 38 missing_random) _
                      (get_range-HasLength ch 6 38 missing_random (omega arith))
                      (λ bytes _.
                        EndsIn-bind AnyError (HasLength 1) Q
                          (get_range ch 38 39 missing_session_id_len) _
                          (get_range-HasLength ch 38 39 missing_session_id_len (omega arith))
                          (λ id_len l. EndsIn-index AnyError Q id_len 0 _ (omega arith) (λ n.
                            EndsIn-guard AnyError Q (n == legacy_session_id_len)
                              (malformed session_id_not_32) _ tt
                              (λ _. EndsIn-ok AnyError Q bytes tt)))))))))))

abbrev Framed : List ℕ → ClientHelloLayout → Type 0
Framed client_hello layout = (layout.session_id_start ≡ 39) × (71 ≤ length client_hello)

client_hello_layout-Framed : (ch : List ℕ) → EndsIn AnyError (Framed ch) (client_hello_layout ch)
unfolding client_hello_layout
client_hello_layout-Framed ch =
    EndsIn-bind AnyError (Any {A = List ℕ}) (Framed ch) (client_hello_random ch) _
      (client_hello_random-ends ch)
      (λ bytes _.
        EndsIn-guard AnyError (Framed ch) (leb 71 (length ch)) (malformed truncated_session_id) _ tt
          (λ t. EndsIn-ok AnyError (Framed ch) _ (refl, leb→le 71 (length ch) t)))

require_mac-ends : (mac : Option (List ℕ)) → EndsIn AnyError (Any {A = List ℕ}) (require_mac mac)
unfolding EndsIn
require_mac-ends none = tt
require_mac-ends (some mac) = tt

module _ (boring : Boring) where
  pub candidate_session_id_tag-ends :
      (random secret : List ℕ)
      → EndsIn AnyError (Any {A = List ℕ}) (candidate_session_id_tag boring random secret)
  unfolding candidate_session_id_tag
  candidate_session_id_tag-ends random secret = require_mac-ends _

  complete_claim_tag-ends :
      (ch : List ℕ) (layout : ClientHelloLayout) (secret : List ℕ)
      → Framed ch layout
      → EndsIn AnyError (Any {A = List ℕ}) (complete_claim_tag boring ch layout secret)
  unfolding complete_claim_tag truncated_hmac
  complete_claim_tag-ends ch layout secret (s, h) =
      let Q = Any {A = List ℕ} in
      let until : length ch ≡ 39 + 32 + (length ch - 71) = omega (arith, h) in
      rw s (
        EndsIn-slice AnyError Q ch 0 39 _ (omega arith) (λ front _. rw until (
          EndsIn-slice AnyError Q ch 71 (length ch - 71) _ (omega arith)
            (λ back _. require_mac-ends _))))

  verify_legacy_session_id-ends :
      (ch secret : List ℕ)
      → EndsIn AnyError (Any {A = Bool}) (verify_legacy_session_id boring ch secret)
  unfolding verify_legacy_session_id
  verify_legacy_session_id-ends ch secret =
      let Q = Any {A = Bool} in
      EndsIn-bind AnyError (Framed ch) Q (client_hello_layout ch) _ (client_hello_layout-Framed ch)
        (λ layout framed.
          EndsIn-slice AnyError Q ch layout.session_id_start 32 _
            (omega (arith, framed.0, framed.1))
            (λ id l.
              EndsIn-bind AnyError (Any {A = List ℕ}) Q
                (candidate_session_id_tag boring layout.random secret) _
                (candidate_session_id_tag-ends layout.random secret)
                (λ candidate _.
                  EndsIn-bind AnyError (Any {A = List ℕ}) Q
                    (complete_claim_tag boring ch layout secret) _
                    (complete_claim_tag-ends ch layout secret framed)
                    (λ claim _. EndsIn-slice AnyError Q id 0 16 _ (omega arith) (λ first _. rw l (
                      EndsIn-slice AnyError Q id 16 16 _ (omega arith)
                        (λ second _. EndsIn-ok AnyError Q _ tt)))))))

  pub verify_legacy_session_id-ne-panic :
      (ch secret : List ℕ) → verify_legacy_session_id boring ch secret ≢ panic
  verify_legacy_session_id-ne-panic ch secret =
      EndsIn-ne-panic AnyError (Any {A = Bool}) _ (verify_legacy_session_id-ends ch secret)
