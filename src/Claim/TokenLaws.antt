-- ===== src/Claim/TokenLaws.antt =====
-- A filled claim token verifies: slt-core/src/crypto/client_hello.rs.
use slt.Prelude.{
  ℕ, ◌+◌, ◌≤◌, ◌≡◌, sym, ap, ap₂, ◌∙◌, arith, List, ◌++◌, some, true, false, ◌&&◌, ◌==◌, length,
  take, drop, ok, slice, ==_iff,
}
use slt.Prelude.Lists.{length-append, length-take, length-drop}
use slt.Prelude.Slices.{slice_front, slice_back, slice-skip, slice_ok}
use slt.Prelude.Maps.{same, same_refl}
use slt.Qsp.Boring.{Boring, BoringLaws}
use slt.Claim.Token.{
  ClientHelloError, ClientHelloLayout, client_hello_layout, candidate_session_id_tag,
  truncated_hmac, complete_claim_tag, verify_legacy_session_id, fill_legacy_session_id,
  new_session_id, claim_label, candidate_label, zero_session_id, token_part_len,
}
use slt.Claim.TokenLayout.{
  layout-start, with_session_id, layout-with_session_id, with_session_id_self,
}

module _ (boring : Boring) (secret : List ℕ) where
  -- The claim tag does not read the session ID.
  complete_claim_tag-with_session_id :
      (client_hello id mac : List ℕ) (layout : ClientHelloLayout)
      → layout.session_id_start ≡ 39
      → 71 ≤ length client_hello
      → length id ≡ 32
      → boring.hmac_sha256 secret (claim_label ++ with_session_id client_hello zero_session_id)
        ≡ some mac
      → complete_claim_tag boring (with_session_id client_hello id) layout secret
        ≡ ok (take token_part_len mac)
  unfolding complete_claim_tag truncated_hmac with_session_id
  complete_claim_tag-with_session_id ch id mac layout s h l e =
      let front = take 39 ch in
      let back = drop 71 ch in
      let whole = front ++ (id ++ back) in
      let n : length front ≡ 39 = omega (arith, length-take 39 ch) in
      let m : length whole ≡ 39 + length (id ++ back) =
        omega (arith, length-append front (id ++ back)) in
      rw (
        s,
        slice_front 39 front (id ++ back) n,
        m,
        slice-skip 39 front (id ++ back) 32 (length (id ++ back)) n,
        slice_back 32 id back l,
        e,
      )

  -- What verification answers, from what its steps yield.
  verify-parts :
      (client_hello id first second candidate claim : List ℕ) (layout : ClientHelloLayout)
      → client_hello_layout client_hello ≡ ok layout
      → slice {E = ClientHelloError} client_hello layout.session_id_start
          (layout.session_id_start + 32)
        ≡ ok id
      → candidate_session_id_tag boring layout.random secret ≡ ok candidate
      → complete_claim_tag boring client_hello layout secret ≡ ok claim
      → slice {E = ClientHelloError} id 0 16 ≡ ok first
      → slice {E = ClientHelloError} id 16 (length id) ≡ ok second
      → verify_legacy_session_id boring client_hello secret
        ≡ ok (same first candidate && same second claim)
  unfolding verify_legacy_session_id
  verify-parts ch id first second candidate claim layout e s c k f g = rw (e, s, c, k, f, g)

  candidate-ok :
      (bytes mac : List ℕ)
      → boring.hmac_sha256 secret (candidate_label ++ take 16 bytes) ≡ some mac
      → candidate_session_id_tag boring bytes secret ≡ ok (take 16 mac)
  unfolding candidate_session_id_tag
  candidate-ok bytes mac e = rw e

  slice-with_session_id :
      (client_hello id : List ℕ)
      → 71 ≤ length client_hello
      → length id ≡ 32
      → slice {E = ClientHelloError} (with_session_id client_hello id) 39 (39 + 32) ≡ ok id
  unfolding with_session_id
  slice-with_session_id ch id h l =
      slice-skip 39 (take 39 ch) (id ++ drop 71 ch) 0 32 (omega (arith, length-take 39 ch))
      ∙ slice_front 32 id (drop 71 ch) l

  verify-with_session_id :
      (client_hello candidate_mac claim_mac : List ℕ) (layout : ClientHelloLayout)
      → client_hello_layout client_hello ≡ ok layout
      → length candidate_mac ≡ 32
      → length claim_mac ≡ 32
      → boring.hmac_sha256 secret (candidate_label ++ take 16 layout.random) ≡ some candidate_mac
      → boring.hmac_sha256 secret (claim_label ++ with_session_id client_hello zero_session_id)
        ≡ some claim_mac
      → verify_legacy_session_id boring
          (with_session_id client_hello (take 16 candidate_mac ++ take 16 claim_mac))
          secret
        ≡ ok true
  verify-with_session_id ch cm km layout e a b c k =
      let first = take 16 cm in
      let second = take 16 km in
      let (s, h) = layout-start ch layout e in
      let f : length first ≡ 16 = omega (arith, length-take 16 cm) in
      let g : length second ≡ 16 = omega (arith, length-take 16 km) in
      let l : length (first ++ second) ≡ 32 = omega (arith, length-append first second) in
      let placed = with_session_id ch (first ++ second) in
      let at_id : slice {E = ClientHelloError} placed layout.session_id_start
            (layout.session_id_start + 32)
          ≡ ok (first ++ second) =
        rw s (slice-with_session_id ch (first ++ second) h l) in
      verify-parts placed (first ++ second) first second first second layout
        (layout-with_session_id ch (first ++ second) h l ∙ e) at_id
        (candidate-ok layout.random cm c)
        (complete_claim_tag-with_session_id ch (first ++ second) km layout s h l k)
        (slice_front 16 first second f) (slice_back 16 first second f)
      ∙ ap₂ (λ p q. ok (p && q)) (same_refl first) (same_refl second)

  fill-parts :
      (client_hello session_id candidate claim : List ℕ) (layout : ClientHelloLayout)
      → length session_id ≡ 32
      → client_hello_layout client_hello ≡ ok layout
      → candidate_session_id_tag boring layout.random secret ≡ ok candidate
      → complete_claim_tag boring client_hello layout secret ≡ ok claim
      → same (take 16 session_id) candidate ≡ false
      → fill_legacy_session_id boring client_hello session_id secret ≡ ok (candidate ++ claim)
  unfolding fill_legacy_session_id new_session_id
  fill-parts ch id candidate claim layout l e c k n =
      let fits : (length id == 32) ≡ true = (==_iff (length id) 32).1 l in
      rw (fits, e, c, slice_ok id 0 16 (omega arith) (omega arith), n, k)

-- Filling the session ID of a well-formed message yields a token which the server verifies in the message that carries
-- it: where BoringSSL computes both MACs and the ID does not hold a candidate tag yet.
pub fill_legacy_session_id-verifies :
    (boring : Boring)
    → BoringLaws boring
    → (client_hello session_id secret candidate_mac claim_mac : List ℕ) (layout : ClientHelloLayout)
    → length session_id ≡ 32
    → client_hello_layout client_hello ≡ ok layout
    → boring.hmac_sha256 secret (candidate_label ++ take 16 layout.random) ≡ some candidate_mac
    → boring.hmac_sha256 secret (claim_label ++ with_session_id client_hello zero_session_id)
      ≡ some claim_mac
    → same (take 16 session_id) (take 16 candidate_mac) ≡ false
    → (fill_legacy_session_id boring client_hello session_id secret
        ≡ ok (take 16 candidate_mac ++ take 16 claim_mac))
      × (verify_legacy_session_id boring
            (with_session_id client_hello (take 16 candidate_mac ++ take 16 claim_mac))
            secret
          ≡ ok true)
fill_legacy_session_id-verifies boring laws ch id secret cm km layout l e c k n =
    let own = take 32 (drop 39 ch) in
    let (s, h) = layout-start ch layout e in
    let m : length own ≡ 32 = omega (arith, length-take 32 (drop 39 ch), length-drop 39 ch) in
    let claim : complete_claim_tag boring ch layout secret ≡ ok (take 16 km) =
      ap (λ x. complete_claim_tag boring x layout secret) (sym (with_session_id_self ch))
      ∙ complete_claim_tag-with_session_id boring secret ch own km layout s h m k in
    (
      fill-parts boring secret ch id (take 16 cm) (take 16 km) layout l e
          (candidate-ok boring secret layout.random cm c) claim n,
      verify-with_session_id boring secret ch cm km layout e (laws.hmac_sha256-length _ _ cm c)
          (laws.hmac_sha256-length _ _ km k) c k,
    )
