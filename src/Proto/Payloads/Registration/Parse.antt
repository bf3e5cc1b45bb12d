-- ===== src/Proto/Payloads/Registration/Parse.antt =====
-- `decode_register_cid` on any payload, and without slices: the tests in their order, and the fields.
use slt.Prelude.{ℕ, ◌+◌, ◌≤◌, ◌<◌, ◌≡◌, ◌≢◌, refl, ◌∙◌, arith, List}
use slt.Prelude.{length, take, drop, get_or, length-take}
use slt.Prelude.{
  Result, ok, err, panic, map_ok, bind-map_ok, ◌>>=◌, ◌>>◌, guard, index, lt→ltb, ltb→lt, le→leb,
  leb→le, ◌==◌, ltb, leb, Bool, Bool-cases, Option-cases,
}
use slt.Prelude.{inl, inr, ==_iff, some}
use slt.Prelude.Bytes.{from_be}
use slt.Prelude.Slices.{slice_len, index_ok}
use slt.Cid.{Cid, new, as_slice}
use slt.Cid.Laws.{IsValid, new_ok}
use slt.Proto.Payloads.Errors.{PayloadError, length_mismatch, length_too_short, invalid_cipher}
use slt.Proto.Payloads.Errors.{invalid_server_to_client_cid_len, invalid_client_to_server_cid_len}
use slt.Proto.Payloads.Registration.{RegisterCidPayload, CipherSuite, cipher_try_from}
use slt.Proto.Payloads.Registration.{encoded_len_for}
use slt.Proto.Payloads.Registration.{read_fields, read_cipher, read_key_phase}
use slt.Proto.Payloads.Registration.{decode_register_cid}

-- Where the fields behind the cipher stand, for a server-to-client CID of `n` bytes.
abbrev pub secrets_at : ℕ → ℕ
secrets_at n = 22 + n + 1

-- The fields, without slices.
abbrev pub fields : List ℕ → ℕ → Cid → Cid → CipherSuite → Bool → RegisterCidPayload
fields payload n c2s s2c cipher key_phase = record {
  client_to_server_cid = c2s;
  server_to_client_cid = s2c;
  cipher = cipher;
  secret_tx = take 32 (drop (secrets_at n) payload);
  secret_rx = take 32 (drop (secrets_at n + 32) payload);
  pn_start = from_be (take 8 (drop (secrets_at n + 32 + 32) payload));
  pn_start_rx = from_be (take 8 (drop (secrets_at n + 32 + 32 + 8) payload));
  key_phase = key_phase;
}

pub read_fields_parsed :
    (payload : List ℕ) (n : ℕ) (cipher : CipherSuite) (c2s s2c : Cid)
    → length payload ≡ encoded_len_for 20 n cipher
    → new (take 20 (drop 1 payload)) ≡ ok c2s
    → new (take n (drop 22 payload)) ≡ ok s2c
    → read_fields payload 20 n cipher
      ≡ map_ok
          (fields payload n c2s s2c cipher)
          (read_key_phase (get_or payload (secrets_at n + 32 + 32 + 8 + 8) 0))
unfolding read_fields encoded_len_for
read_fields_parsed payload n cipher c2s s2c size one two =
    rw
      (
        slice_len {E = PayloadError} payload 1 20 (omega arith),
        one,
        slice_len {E = PayloadError} payload 22 n (omega arith),
        two,
        slice_len {E = PayloadError} payload (secrets_at n) 32 (omega arith),
        slice_len {E = PayloadError} payload (secrets_at n + 32) 32 (omega arith),
        slice_len {E = PayloadError} payload (secrets_at n + 32 + 32) 8 (omega arith),
        slice_len {E = PayloadError} payload (secrets_at n + 32 + 32 + 8) 8 (omega arith),
        index_ok {E = PayloadError} payload (secrets_at n + 32 + 32 + 8 + 8) 0 (omega arith),
      )
      (bind-map_ok (read_key_phase (get_or payload (secrets_at n + 32 + 32 + 8 + 8) 0))
        (fields payload n c2s s2c cipher))

-- What holds of a payload whose lengths and cipher pass the tests.
pub record Passes (payload : List ℕ) (n : ℕ) (cipher : CipherSuite) : Type 0 where
  pub client_len : get_or payload 0 0 ≡ 20
  pub server_len : get_or payload 21 0 ≡ n
  pub server_fits : n ≤ 20
  pub known : cipher_try_from (get_or payload (22 + n) 0) ≡ some cipher
  pub size : length payload ≡ encoded_len_for 20 n cipher

-- The tests of `decode_register_cid`, one after the other.
pub data View (payload : List ℕ) : Type 0 where
  rejected : (e : PayloadError) → decode_register_cid payload ≡ err e → View payload
  passed :
      (n : ℕ) (cipher : CipherSuite)
      → Passes payload n cipher
      → decode_register_cid payload ≡ read_fields payload 20 n cipher
      → View payload

module _ (payload : List ℕ) (some_bytes : 0 < length payload)
    (twenty : get_or payload 0 0 ≡ 20) where
  -- The decoder from the second length on.
  abbrev pub tail : Result PayloadError RegisterCidPayload
  tail = do
    guard (leb 22 (length payload)) (length_too_short 22 (length payload))
    n ← index payload 21
    guard (leb n 20) (invalid_server_to_client_cid_len n)
    guard (leb (22 + n + 1) (length payload)) (length_too_short (22 + n + 1) (length payload))
    b ← index payload (22 + n)
    cipher ← read_cipher b
    guard (length payload == encoded_len_for 20 n cipher)
        (length_mismatch (encoded_len_for 20 n cipher) (length payload))
    read_fields payload 20 n cipher

  pub decode_register_cid-tail : decode_register_cid payload ≡ tail
  unfolding decode_register_cid
  decode_register_cid-tail =
      rw
        (
          lt→ltb 0 (length payload) some_bytes,
          index_ok {E = PayloadError} payload 0 0 some_bytes,
          twenty,
        )
        refl

  module _ (n : ℕ) (at_n : get_or payload 21 0 ≡ n) (fits : n ≤ 20)
      (longer : 22 + n + 1 ≤ length payload) where
    abbrev pub cipher_tail : Result PayloadError RegisterCidPayload
    cipher_tail = do
      cipher ← read_cipher (get_or payload (22 + n) 0)
      guard (length payload == encoded_len_for 20 n cipher)
          (length_mismatch (encoded_len_for 20 n cipher) (length payload))
      read_fields payload 20 n cipher

    pub tail-cipher_tail : tail ≡ cipher_tail
    tail-cipher_tail =
        rw
          (
            le→leb 22 (length payload) (omega arith),
            index_ok {E = PayloadError} payload 21 0 (omega arith),
            at_n,
            le→leb n 20 fits,
            le→leb (22 + n + 1) (length payload) longer,
            index_ok {E = PayloadError} payload (22 + n) 0 (omega arith),
          )
          refl

    pub View-cipher : View payload
    View-cipher = elim (Option-cases (cipher_try_from (get_or payload (22 + n) 0))) [
      | inl unknown ↦
          View.rejected (invalid_cipher (get_or payload (22 + n) 0))
            (decode_register_cid-tail ∙ tail-cipher_tail ∙ rw (unknown, read_cipher) refl)
      | inr (cipher, known) ↦ elim (Bool-cases (length payload == encoded_len_for 20 n cipher)) [
        | inr wrong ↦
            View.rejected (length_mismatch (encoded_len_for 20 n cipher) (length payload))
              (decode_register_cid-tail ∙ tail-cipher_tail ∙ rw (known, read_cipher, wrong) refl)
        | inl right ↦
            View.passed n cipher
              (record {
                client_len = twenty;
                server_len = at_n;
                server_fits = fits;
                known = known;
                size = (==_iff (length payload) (encoded_len_for 20 n cipher)).0 right;
              })
              (decode_register_cid-tail ∙ tail-cipher_tail ∙ rw (known, read_cipher, right) refl)
      ]
    ]

  abbrev second : ℕ
  second = get_or payload 21 0

  View-server : View payload
  View-server = elim (Bool-cases (leb 22 (length payload))) [
    | inr short ↦
        View.rejected (length_too_short 22 (length payload))
          (decode_register_cid-tail ∙ rw short refl)
    | inl long ↦
        let at_second : index {E = PayloadError} payload 21 ≡ ok second =
          index_ok payload 21 0 (leb→le 22 (length payload) long) in
        elim (Bool-cases (leb second 20)) [
          | inr large ↦
              View.rejected (invalid_server_to_client_cid_len second)
                (decode_register_cid-tail ∙ rw (long, at_second, large) refl)
          | inl fits ↦ elim (Bool-cases (leb (22 + second + 1) (length payload))) [
            | inr short ↦
                View.rejected (length_too_short (22 + second + 1) (length payload))
                  (decode_register_cid-tail ∙ rw (long, at_second, fits, short) refl)
            | inl longer ↦
                View-cipher second refl (leb→le second 20 fits)
                  (leb→le (22 + second + 1) (length payload) longer)
          ]
        ]
  ]

pub view : (payload : List ℕ) → View payload
unfolding decode_register_cid
view payload = elim (Bool-cases (ltb 0 (length payload))) [
  | inr empty ↦ View.rejected (length_too_short 1 (length payload)) (rw empty refl)
  | inl some_bytes ↦
      let first : index {E = PayloadError} payload 0 ≡ ok (get_or payload 0 0) =
        index_ok payload 0 0 (ltb→lt 0 (length payload) some_bytes) in
      elim (Bool-cases (get_or payload 0 0 == 20)) [
        | inr other ↦
            View.rejected (invalid_client_to_server_cid_len (get_or payload 0 0))
              (rw (some_bytes, first, other) refl)
        | inl twenty ↦
            View-server payload (ltb→lt 0 (length payload) some_bytes)
              ((==_iff (get_or payload 0 0) 20).0 twenty)
      ]
]

-- The two CIDs of a payload that passes.
module _ (payload : List ℕ) (n : ℕ) (cipher : CipherSuite) (p : Passes payload n cipher) where
  client_cid :
      (c : Cid) × (new (take 20 (drop 1 payload)) ≡ ok c)
      × IsValid c
      × (as_slice c ≡ take 20 (drop 1 payload))
  client_cid = new_ok (take 20 (drop 1 payload)) (omega (arith, length-take 20 (drop 1 payload)))

  server_cid :
      (c : Cid) × (new (take n (drop 22 payload)) ≡ ok c)
      × IsValid c
      × (as_slice c ≡ take n (drop 22 payload))
  server_cid =
      new_ok (take n (drop 22 payload))
        (omega (arith, length-take n (drop 22 payload), p.server_fits))

  abbrev phase_byte : ℕ
  phase_byte = get_or payload (secrets_at n + 32 + 32 + 8 + 8) 0

  passed_parsed :
      read_fields payload 20 n cipher
      ≡ map_ok (fields payload n client_cid.0 server_cid.0 cipher) (read_key_phase phase_byte)
  passed_parsed =
      read_fields_parsed payload n cipher client_cid.0 server_cid.0 p.size client_cid.1 server_cid.1

-- Whatever bytes a client sends as a registration, decoding them never panics.
pub decode_register_cid-ne-panic : (payload : List ℕ) → decode_register_cid payload ≢ panic
decode_register_cid-ne-panic payload = from_view (view payload)
  where
    from_view : View payload → decode_register_cid payload ≢ panic
    from_view (View.rejected e q) = rw q (λ x. cc)
    from_view (View.passed n cipher p q) =
        rw (q, passed_parsed payload n cipher p) (λ x. ground arith)
