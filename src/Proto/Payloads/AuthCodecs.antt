-- ===== src/Proto/Payloads/AuthCodecs.antt =====
-- The authentication payloads are inverse codecs.
use mathlib.Core.List.{append_assoc, append-nil}
use slt.Prelude.{ℕ, ◌+◌, ◌≤◌, ◌<◌, ◌≡◌, ◌≢◌, refl, sym, ◌∙◌, arith, List, [], ◌∷◌, ◌++◌}
use slt.Prelude.{
  length, take, drop, length-take, length-drop, length-append, All, All-append, All-take,
}
use slt.Prelude.{
  All-drop, take_all, take-append-drop, take-drop_split, take_front, drop_front, drop_next, ok, err,
  panic, ◌==◌,
}
use slt.Prelude.{Bool-cases, inl, inr, ==_iff, false}
use slt.Prelude.Bytes.{IsByte, to_be, from_be, length-to_be, to_be-IsByte, from_be-to_be}
use slt.Prelude.Bytes.{from_be-lt, to_be-from_be}
use slt.Prelude.Slices.{slice_ok}
use slt.Proto.Payloads.Codec.{IsCodec, code-IsCodec}
use slt.Proto.Payloads.Errors.{PayloadError, length_mismatch, invalid_auth_fail_code}
use slt.Proto.Payloads.Auth.{AuthPayload, decode_auth, encode_auth, AuthOkPayload, auth_ok_payload}
use slt.Proto.Payloads.Auth.{decode_auth_ok, encode_auth_ok, AuthFailPayload, AuthFailCode}
use slt.Proto.Payloads.Auth.{auth_fail_code_to_byte, auth_fail_code_try_from}
use slt.Proto.Payloads.Auth.{auth_fail_code_try_from-to_byte, auth_fail_code_to_byte-try_from}
use slt.Proto.Payloads.Auth.{decode_auth_fail, encode_auth_fail}

-- The arrays have their lengths and hold bytes, and the MTU is a `u16`.
pub record IsValid (p : AuthPayload) : Type 0 where
  pub id_len : length p.client_id ≡ 16
  pub ip_len : length p.assigned_ipv4 ≡ 4
  pub mtu_fits : p.tun_mtu < 65536
  pub challenge_len : length p.challenge ≡ 32
  pub signature_len : length p.signature ≡ 64
  pub id_bytes : All IsByte p.client_id
  pub ip_bytes : All IsByte p.assigned_ipv4
  pub challenge_bytes : All IsByte p.challenge
  pub signature_bytes : All IsByte p.signature

-- `decode_auth` without slices.
abbrev fields : List ℕ → AuthPayload
fields payload = record {
  client_id = take 16 (drop 0 payload);
  assigned_ipv4 = take 4 (drop 16 payload);
  tun_mtu = from_be (take 2 (drop 20 payload));
  challenge = take 32 (drop 22 payload);
  signature = take 64 (drop 54 payload);
}

decode_auth-fields :
    (payload : List ℕ) → length payload ≡ 118 → decode_auth payload ≡ ok (fields payload)
unfolding decode_auth
decode_auth-fields payload h =
    rw
      (
        h,
        slice_ok {E = PayloadError} payload 0 16 (omega arith) (omega arith),
        slice_ok {E = PayloadError} payload 16 20 (omega arith) (omega arith),
        slice_ok {E = PayloadError} payload 20 22 (omega arith) (omega arith),
        slice_ok {E = PayloadError} payload 22 54 (omega arith) (omega arith),
        slice_ok {E = PayloadError} payload 54 118 (omega arith) (omega arith),
      )
      refl

decode_auth_bad :
    (payload : List ℕ)
    → (length payload == 118) ≡ false
    → decode_auth payload ≡ err (length_mismatch 118 (length payload))
unfolding decode_auth
decode_auth_bad payload h = rw h refl

-- The encoding, bracketed to the right.
abbrev auth_bytes : AuthPayload → List ℕ
auth_bytes p =
    p.client_id ++ (p.assigned_ipv4 ++ (to_be 2 p.tun_mtu ++ (p.challenge ++ p.signature)))

encode_auth_bytes : (p : AuthPayload) (out : List ℕ) → encode_auth p out ≡ out ++ auth_bytes p
unfolding encode_auth
encode_auth_bytes p out = simp append_assoc

module _ (p : AuthPayload) (v : IsValid p) where
  auth_bytes-IsByte : All IsByte (auth_bytes p)
  auth_bytes-IsByte = All-append IsByte p.client_id _ v.id_bytes (
      All-append IsByte p.assigned_ipv4 _ v.ip_bytes (
        All-append IsByte (to_be 2 p.tun_mtu) _ (to_be-IsByte 2 p.tun_mtu)
          (All-append IsByte p.challenge _ v.challenge_bytes v.signature_bytes)))

  auth_bytes_len : length (auth_bytes p) ≡ 118
  auth_bytes_len = omega (
    arith,
    length-append p.client_id
        (p.assigned_ipv4 ++ (to_be 2 p.tun_mtu ++ (p.challenge ++ p.signature))),
    length-append p.assigned_ipv4 (to_be 2 p.tun_mtu ++ (p.challenge ++ p.signature)),
    length-append (to_be 2 p.tun_mtu) (p.challenge ++ p.signature),
    length-append p.challenge p.signature,
    length-to_be 2 p.tun_mtu,
    v.id_len,
    v.ip_len,
    v.challenge_len,
    v.signature_len,
  )

  decode_auth_bytes : decode_auth (auth_bytes p) ≡ ok p
  decode_auth_bytes =
      decode_auth-fields (auth_bytes p) auth_bytes_len
      ∙ rw
          (
            at_ip,
            at_mtu,
            at_challenge,
            at_signature,
            take_front 16 p.client_id _ v.id_len,
            take_front 4 p.assigned_ipv4 _ v.ip_len,
            take_front 2 (to_be 2 p.tun_mtu) _ (length-to_be 2 p.tun_mtu),
            take_front 32 p.challenge _ v.challenge_len,
            take_all 64 p.signature (omega (arith, v.signature_len)),
            from_be-to_be 2 p.tun_mtu (omega (arith, v.mtu_fits)),
          )
          refl
    where
      at_ip :
          drop 16 (auth_bytes p)
          ≡ p.assigned_ipv4 ++ (to_be 2 p.tun_mtu ++ (p.challenge ++ p.signature))
      at_ip = drop_front 16 p.client_id _ v.id_len

      at_mtu : drop 20 (auth_bytes p) ≡ to_be 2 p.tun_mtu ++ (p.challenge ++ p.signature)
      at_mtu = drop_next 4 16 (auth_bytes p) p.assigned_ipv4 _ at_ip v.ip_len

      at_challenge : drop 22 (auth_bytes p) ≡ p.challenge ++ p.signature
      at_challenge =
          drop_next 2 20 (auth_bytes p) (to_be 2 p.tun_mtu) _ at_mtu (length-to_be 2 p.tun_mtu)

      at_signature : drop 54 (auth_bytes p) ≡ p.signature
      at_signature = drop_next 32 22 (auth_bytes p) p.challenge _ at_challenge v.challenge_len

module _ (payload : List ℕ) (bytes : All IsByte payload) (size : length payload ≡ 118) where
  window : (k n : ℕ) → n + k ≤ 118 → length (take k (drop n payload)) ≡ k
  window k n h = omega (arith, length-take k (drop n payload), length-drop n payload)

  window-IsByte : (k n : ℕ) → All IsByte (take k (drop n payload))
  window-IsByte k n = All-take IsByte k (drop n payload) (All-drop IsByte n payload bytes)

  mtu : ℕ
  mtu = from_be (take 2 (drop 20 payload))

  fields-IsValid : IsValid (fields payload)
  fields-IsValid = record {
    id_len = window 16 0 (omega arith);
    ip_len = window 4 16 (omega arith);
    mtu_fits = rw (window 2 20 (omega arith)) at (from_be-lt _ (window-IsByte 2 20));
    challenge_len = window 32 22 (omega arith);
    signature_len = window 64 54 (omega arith);
    id_bytes = window-IsByte 16 0;
    ip_bytes = window-IsByte 4 16;
    challenge_bytes = window-IsByte 32 22;
    signature_bytes = window-IsByte 64 54;
  }

  auth_bytes-fields : auth_bytes (fields payload) ≡ payload
  auth_bytes-fields =
      rw
        (
          to_be-from_be 2 (take 2 (drop 20 payload)) (window 2 20 (omega arith))
              (window-IsByte 2 20),
          take_all 64 (drop 54 payload) (omega (arith, length-drop 54 payload)),
          take-drop_split 32 22 payload,
          take-drop_split 2 20 payload,
          take-drop_split 4 16 payload,
          take-append-drop 16 payload,
        )
        refl

auth-IsCodec : IsCodec IsValid decode_auth encode_auth
auth-IsCodec = record {
  round_trip = λ p out v.
      (auth_bytes p, encode_auth_bytes p out, auth_bytes-IsByte p v, decode_auth_bytes p v);
  canonical = λ payload p bytes e. elim (Bool-cases (length payload == 118)) [
    | inl fits ↦
        let size : length payload ≡ 118 = (==_iff (length payload) 118).0 fits in
        let made : fields payload ≡ p = cc (decode_auth-fields payload size) in
        rw (← made) (
          fields-IsValid payload bytes size,
          encode_auth_bytes (fields payload) [] ∙ auth_bytes-fields payload bytes size,
        )
    | inr wrong ↦ cc (decode_auth_bad payload wrong)
  ];
  no_panic = λ payload. elim (Bool-cases (length payload == 118)) [
    | inl fits ↦ rw (decode_auth-fields payload ((==_iff (length payload) 118).0 fits)) (λ e. cc)
    | inr wrong ↦ rw (decode_auth_bad payload wrong) (λ e. cc)
  ];
}

auth_ok-IsCodec : IsCodec (λ p. Unit {0}) decode_auth_ok encode_auth_ok
unfolding decode_auth_ok encode_auth_ok
auth_ok-IsCodec = record {
  round_trip = λ p out h. ([], sym (append-nil out), tt, only p);
  canonical = empty;
  no_panic = safe;
}
  where
    only : (p : AuthOkPayload) → decode_auth_ok [] ≡ ok p
    only auth_ok_payload = refl

    empty :
        (payload : List ℕ) (p : AuthOkPayload)
        → All IsByte payload
        → decode_auth_ok payload ≡ ok p
        → Unit {0} × ([] ≡ payload)
    empty [] p h e = (tt, refl)
    empty (b ∷ r) p h e = absurd (ground arith)

    safe : (payload : List ℕ) → decode_auth_ok payload ≢ panic
    safe [] = λ e. cc
    safe (b ∷ r) = λ e. ground arith

auth_fail_code_small : (c : AuthFailCode) → auth_fail_code_to_byte c < 256
unfolding auth_fail_code_to_byte
auth_fail_code_small c = ground arith

auth_fail-IsCodec : IsCodec (λ p. Unit {0}) decode_auth_fail encode_auth_fail
unfolding decode_auth_fail encode_auth_fail
auth_fail-IsCodec =
    code-IsCodec auth_fail_code_try_from auth_fail_code_to_byte (λ c. record { code = c })
      AuthFailPayload.code invalid_auth_fail_code auth_fail_code_try_from-to_byte
      auth_fail_code_to_byte-try_from (λ p. refl) (λ c. refl) auth_fail_code_small

-- For the three authentication payloads: encoding a valid value (for AUTH, arrays of their lengths
-- and a 16-bit MTU) appends bytes that decode to it, a payload of bytes that decodes comes from a
-- valid value and is what that value encodes to, and no payload makes the decoder panic.
pub auth_codecs :
    IsCodec IsValid decode_auth encode_auth
    × IsCodec (λ p. Unit {0}) decode_auth_ok encode_auth_ok
    × IsCodec (λ p. Unit {0}) decode_auth_fail encode_auth_fail
auth_codecs = (auth-IsCodec, auth_ok-IsCodec, auth_fail-IsCodec)
