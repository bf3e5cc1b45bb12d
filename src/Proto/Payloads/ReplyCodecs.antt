-- ===== src/Proto/Payloads/ReplyCodecs.antt =====
-- The replies to a registration: slt-core/src/proto/payloads/registration.rs, `RegisterOkPayload` and
-- `RegisterFailPayload`.
use slt.Prelude.{ℕ, ◌+◌, ◌<◌, ◌≡◌, ◌≢◌, refl, sym, ap, ◌∙◌, arith, List, [], ◌∷◌, length}
use slt.Prelude.{ok, err, panic, index, ◌==◌, false, Bool-cases, ==_iff}
use slt.Prelude.{inl, inr, ◌⊎◌, lt→ltb}
use slt.Prelude.Slices.{slice_whole, slice-skip}
use slt.Cid
use slt.Cid.{Cid, CidError}
use slt.Cid.Laws.{IsValid, new_ok, new-as_slice, length-as_slice}
use slt.Proto.Payloads.Codec.{IsCodec, code-IsCodec}
use slt.Proto.Payloads.Errors.{
  PayloadError, invalid_register_fail_code, length_too_short, length_mismatch,
}
use slt.Proto.Payloads.Errors.{invalid_client_to_server_cid_len}
use slt.Proto.Payloads.Registration.{RegisterOkPayload, decode_register_ok, encode_register_ok}
use slt.Proto.Payloads.Registration.{RegisterFailPayload, RegisterFailCode, decode_register_fail}
use slt.Proto.Payloads.Registration.{encode_register_fail, register_fail_code_to_byte}
use slt.Proto.Payloads.Registration.{
  register_fail_code_try_from, register_fail_code_try_from-to_byte,
}
use slt.Proto.Payloads.Registration.{register_fail_code_to_byte-try_from}

register_fail_code_small : (c : RegisterFailCode) → register_fail_code_to_byte c < 256
unfolding register_fail_code_to_byte
register_fail_code_small c = ground arith

pub register_fail-IsCodec : IsCodec (λ p. Unit {0}) decode_register_fail encode_register_fail
unfolding decode_register_fail encode_register_fail
register_fail-IsCodec =
    code-IsCodec register_fail_code_try_from register_fail_code_to_byte (λ c. record { code = c })
      RegisterFailPayload.code invalid_register_fail_code register_fail_code_try_from-to_byte
      register_fail_code_to_byte-try_from (λ p. refl) (λ c. refl) register_fail_code_small

abbrev reply : Cid → RegisterOkPayload
reply c = record { client_to_server_cid = c }

decode_full :
    (rest : List ℕ) (c : Cid)
    → length rest ≡ 20
    → Cid.new rest ≡ ok c
    → decode_register_ok (20 ∷ rest) ≡ ok (reply c)
unfolding decode_register_ok index
decode_full rest c h made =
    rw
      (
        h,
        slice-skip {E = PayloadError} 1 (20 ∷ []) rest 0 20 refl,
        slice_whole {E = PayloadError} 20 rest h,
        made,
      )
      refl

-- A payload is refused, or it is the length of a full CID and the CID.
decode_view :
    (payload : List ℕ)
    → ((e : PayloadError) × (decode_register_ok payload ≡ err e))
      ⊎ ((rest : List ℕ) × (payload ≡ 20 ∷ rest) × (length rest ≡ 20))
unfolding decode_register_ok index
decode_view [] = inl (length_too_short 1 0, refl)
decode_view (n ∷ rest) = elim (Bool-cases (n == 20)) [
  | inr other ↦ inl (
    invalid_client_to_server_cid_len n,
    rw (lt→ltb 0 (length (n ∷ rest)) (omega arith), other) refl,
  )
  | inl full ↦
      let n_full : n ≡ 20 = (==_iff n 20).0 full in
      let some_bytes = lt→ltb 0 (length (n ∷ rest)) (omega arith) in
      elim (Bool-cases (length (n ∷ rest) == 1 + n)) [
        | inr wrong ↦
            inl (length_mismatch (1 + n) (length (n ∷ rest)), rw (some_bytes, full, wrong) refl)
        | inl fits ↦
            let size = (==_iff (length (n ∷ rest)) (1 + n)).0 fits in
            inr (rest, ap (λ k. k ∷ rest) n_full, omega (arith, n_full, size))
      ]
]

pub register_ok_no_panic : (payload : List ℕ) → decode_register_ok payload ≢ panic
register_ok_no_panic payload = elim (decode_view payload) [
  | inl (e, refused) ↦ rw refused (λ h. cc)
  | inr (rest, shape, size) ↦
      let (c, made, valid, same) = new_ok rest (omega (arith, size)) in
      rw (shape, decode_full rest c size made) (λ h. cc)
]

encode_full : (c : Cid) → c.len ≡ 20 → encode_register_ok (reply c) [] ≡ ok (20 ∷ Cid.as_slice c)
unfolding encode_register_ok
encode_full c h = rw h refl

encode_short :
    (p : RegisterOkPayload)
    → (p.client_to_server_cid.len == 20) ≡ false
    → encode_register_ok p [] ≡ err (invalid_client_to_server_cid_len p.client_to_server_cid.len)
unfolding encode_register_ok
encode_short p h = rw h refl

pub register_ok_canonical :
    (payload : List ℕ) (p : RegisterOkPayload)
    → decode_register_ok payload ≡ ok p
    → IsValid p.client_to_server_cid × (encode_register_ok p [] ≡ ok payload)
register_ok_canonical payload p h = elim (decode_view payload) [
  | inl (e, refused) ↦ cc refused
  | inr (rest, shape, size) ↦
      let (c, made, valid, same) = new_ok rest (omega (arith, size)) in
      let decoded : decode_register_ok payload ≡ ok (reply c) =
        rw shape (decode_full rest c size made) in
      let p_is : reply c ≡ p = cc decoded in
      let len : c.len ≡ 20 = sym (length-as_slice c valid) ∙ ap length same ∙ size in
      rw (← p_is) (valid, encode_full c len ∙ rw (same, shape) refl)
]

pub register_ok_round_trip :
    (p : RegisterOkPayload) (payload : List ℕ)
    → IsValid p.client_to_server_cid
    → encode_register_ok p [] ≡ ok payload
    → decode_register_ok payload ≡ ok p
register_ok_round_trip p payload v h = elim (Bool-cases (p.client_to_server_cid.len == 20)) [
  | inl full ↦
      let c = p.client_to_server_cid in
      let len : c.len ≡ 20 = (==_iff c.len 20).0 full in
      let encoded : payload ≡ 20 ∷ Cid.as_slice c = cc (encode_full c len) in
      rw encoded (decode_full (Cid.as_slice c) c (length-as_slice c v ∙ len) (new-as_slice c v))
  | inr short ↦ cc (encode_short p short)
]
