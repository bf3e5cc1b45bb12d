-- ===== src/Proto/Payloads/Registration/RoundTrip.antt =====
-- `decode_register_cid` against `encode_register_cid`.
use slt.Prelude.{ℕ, ◌+◌, ◌≤◌, ◌≡◌, refl, ap, ◌∙◌, arith, List, [], ◌∷◌, ◌++◌}
use slt.Prelude.{length, take, drop, get_or, get_or-drop, length-append}
use slt.Prelude.{take_front}
use slt.Prelude.{drop_next, ok, map_ok, ◌==◌, Bool}
use slt.Prelude.{==_iff, true, false, some}
use slt.Prelude.Bytes.{IsU64, to_be, from_be, length-to_be, from_be-to_be}
use slt.Cid.{new, as_slice}
use slt.Cid.Laws.{IsValid, length-as_slice, new-as_slice}
use slt.Proto.Payloads.Registration.{RegisterCidPayload, cipher_to_byte, cipher_try_from}
use slt.Proto.Payloads.Registration.{cipher_try_from-to_byte, encoded_len_for}
use slt.Proto.Payloads.Registration.{read_fields, read_cipher, read_key_phase, key_phase_byte}
use slt.Proto.Payloads.Registration.{decode_register_cid, encode_register_cid, encoded_len}
use slt.Proto.Payloads.Registration.Parse.{secrets_at, fields, read_fields_parsed}
use slt.Proto.Payloads.Registration.Parse.{decode_register_cid-tail, tail-cipher_tail}
use slt.Proto.Payloads.Registration.{max_control_frame_len}

-- What a sender fills in: a client-to-server CID of 20 bytes, secrets of 32 bytes, numbers of 64 bits.
pub record IsSendable (p : RegisterCidPayload) : Type 0 where
  pub client_valid : IsValid p.client_to_server_cid
  pub client_full : p.client_to_server_cid.len ≡ 20
  pub server_valid : IsValid p.server_to_client_cid
  pub tx_len : length p.secret_tx ≡ 32
  pub rx_len : length p.secret_rx ≡ 32
  pub pn_fits : IsU64 p.pn_start
  pub pn_rx_fits : IsU64 p.pn_start_rx

phase_byte_back : (b : Bool) → read_key_phase (key_phase_byte b) ≡ ok b
phase_byte_back true = refl
phase_byte_back false = refl

module _ (p : RegisterCidPayload) where
  open p use {
    client_to_server_cid as c2s, server_to_client_cid as s2c, cipher, secret_tx, secret_rx,
  }
  open p use {pn_start, pn_start_rx, key_phase}

  abbrev after_pn_rx : List ℕ
  after_pn_rx = key_phase_byte key_phase ∷ []

  abbrev after_pn : List ℕ
  after_pn = to_be 8 pn_start_rx ++ after_pn_rx

  abbrev after_rx : List ℕ
  after_rx = to_be 8 pn_start ++ after_pn

  abbrev after_tx : List ℕ
  after_tx = secret_rx ++ after_rx

  abbrev after_cipher : List ℕ
  after_cipher = secret_tx ++ after_tx

  abbrev after_server : List ℕ
  after_server = cipher_to_byte cipher ∷ after_cipher

  abbrev after_client : List ℕ
  after_client = s2c.len ∷ (as_slice s2c ++ after_server)

  -- The bytes of a registration.
  abbrev pub register_bytes : List ℕ
  register_bytes = c2s.len ∷ (as_slice c2s ++ after_client)

module _ (p : RegisterCidPayload) (v : IsSendable p) where
  abbrev bytes : List ℕ
  bytes = register_bytes p

  abbrev n : ℕ
  n = p.server_to_client_cid.len

  client_len : length (as_slice p.client_to_server_cid) ≡ 20
  client_len = length-as_slice p.client_to_server_cid v.client_valid ∙ v.client_full

  server_len : length (as_slice p.server_to_client_cid) ≡ n
  server_len = length-as_slice p.server_to_client_cid v.server_valid

  at_server_len : drop 21 bytes ≡ after_client p
  at_server_len =
      drop_next 20 1 bytes (as_slice p.client_to_server_cid) (after_client p) refl client_len

  at_server : drop 22 bytes ≡ as_slice p.server_to_client_cid ++ after_server p
  at_server = drop_next 1 21 bytes (n ∷ []) _ at_server_len refl

  at_cipher : drop (22 + n) bytes ≡ after_server p
  at_cipher = drop_next n 22 bytes (as_slice p.server_to_client_cid) _ at_server server_len

  at_tx : drop (secrets_at n) bytes ≡ after_cipher p
  at_tx = drop_next 1 (22 + n) bytes (cipher_to_byte p.cipher ∷ []) _ at_cipher refl

  at_rx : drop (secrets_at n + 32) bytes ≡ after_tx p
  at_rx = drop_next 32 (secrets_at n) bytes p.secret_tx _ at_tx v.tx_len

  at_pn : drop (secrets_at n + 32 + 32) bytes ≡ after_rx p
  at_pn = drop_next 32 (secrets_at n + 32) bytes p.secret_rx _ at_rx v.rx_len

  at_pn_rx : drop (secrets_at n + 32 + 32 + 8) bytes ≡ after_pn p
  at_pn_rx =
      drop_next 8 (secrets_at n + 32 + 32) bytes (to_be 8 p.pn_start) _ at_pn
        (length-to_be 8 p.pn_start)

  at_phase : drop (secrets_at n + 32 + 32 + 8 + 8) bytes ≡ after_pn_rx p
  at_phase =
      drop_next 8 (secrets_at n + 32 + 32 + 8) bytes (to_be 8 p.pn_start_rx) _ at_pn_rx
        (length-to_be 8 p.pn_start_rx)

  bytes_len : length bytes ≡ encoded_len_for 20 n p.cipher
  unfolding encoded_len_for
  bytes_len = omega (
    arith,
    length-append (as_slice p.client_to_server_cid) (after_client p),
    length-append (as_slice p.server_to_client_cid) (after_server p),
    length-append p.secret_tx (after_tx p),
    length-append p.secret_rx (after_rx p),
    length-append (to_be 8 p.pn_start) (after_pn p),
    length-append (to_be 8 p.pn_start_rx) (after_pn_rx p),
    length-to_be 8 p.pn_start,
    length-to_be 8 p.pn_start_rx,
    client_len,
    server_len,
    v.tx_len,
    v.rx_len,
  )

  phase_back : read_key_phase (get_or bytes (secrets_at n + 32 + 32 + 8 + 8) 0) ≡ ok p.key_phase
  phase_back =
      ap read_key_phase
        (get_or-drop (secrets_at n + 32 + 32 + 8 + 8) bytes 0 ∙ ap (λ ys. get_or ys 0 0) at_phase)
      ∙ phase_byte_back p.key_phase

  tx_back : take 32 (drop (secrets_at n) bytes) ≡ p.secret_tx
  tx_back = ap (take 32) at_tx ∙ take_front 32 p.secret_tx _ v.tx_len

  rx_back : take 32 (drop (secrets_at n + 32) bytes) ≡ p.secret_rx
  rx_back = ap (take 32) at_rx ∙ take_front 32 p.secret_rx _ v.rx_len

  pn_back : from_be (take 8 (drop (secrets_at n + 32 + 32) bytes)) ≡ p.pn_start
  pn_back =
      ap (λ ys. from_be (take 8 ys)) at_pn
      ∙ ap from_be (take_front 8 (to_be 8 p.pn_start) _ (length-to_be 8 p.pn_start))
      ∙ from_be-to_be 8 p.pn_start (omega (arith, v.pn_fits))

  pn_rx_back : from_be (take 8 (drop (secrets_at n + 32 + 32 + 8) bytes)) ≡ p.pn_start_rx
  pn_rx_back =
      ap (λ ys. from_be (take 8 ys)) at_pn_rx
      ∙ ap from_be (take_front 8 (to_be 8 p.pn_start_rx) _ (length-to_be 8 p.pn_start_rx))
      ∙ from_be-to_be 8 p.pn_start_rx (omega (arith, v.pn_rx_fits))

  fields_back :
      fields bytes n p.client_to_server_cid p.server_to_client_cid p.cipher p.key_phase ≡ p
  fields_back = λ i. record {
    client_to_server_cid = p.client_to_server_cid;
    server_to_client_cid = p.server_to_client_cid;
    cipher = p.cipher;
    secret_tx = tx_back i;
    secret_rx = rx_back i;
    pn_start = pn_back i;
    pn_start_rx = pn_rx_back i;
    key_phase = p.key_phase;
  }

  read_back : read_fields bytes 20 n p.cipher ≡ ok p
  read_back =
      read_fields_parsed bytes n p.cipher p.client_to_server_cid p.server_to_client_cid bytes_len
        (ap new (take_front 20 (as_slice p.client_to_server_cid) _ client_len)
          ∙ new-as_slice p.client_to_server_cid v.client_valid)
        (ap new
            (ap (take n) at_server ∙ take_front n (as_slice p.server_to_client_cid) _ server_len)
          ∙ new-as_slice p.server_to_client_cid v.server_valid)
      ∙ ap (map_ok (fields bytes n p.client_to_server_cid p.server_to_client_cid p.cipher))
          phase_back
      ∙ ap ok fields_back

  -- The tests pass on the encoding.
  decoded : decode_register_cid bytes ≡ read_fields bytes 20 n p.cipher
  decoded =
      decode_register_cid-tail bytes (omega arith) v.client_full
      ∙ tail-cipher_tail bytes (omega arith) v.client_full n len_byte v.server_valid.fits
          (unfold encoded_len_for in omega (arith, bytes_len))
      ∙ rw (cipher_byte, read_cipher, size_test) refl
    where
      len_byte : get_or bytes 21 0 ≡ n
      len_byte = get_or-drop 21 bytes 0 ∙ ap (λ ys. get_or ys 0 0) at_server_len

      cipher_byte : cipher_try_from (get_or bytes (22 + n) 0) ≡ some p.cipher
      cipher_byte =
          ap cipher_try_from (get_or-drop (22 + n) bytes 0 ∙ ap (λ ys. get_or ys 0 0) at_cipher)
          ∙ cipher_try_from-to_byte p.cipher

      size_test : (length bytes == encoded_len_for 20 n p.cipher) ≡ true
      size_test = (==_iff (length bytes) (encoded_len_for 20 n p.cipher)).1 bytes_len

-- A registration that a client may send (a client-to-server CID of 20 bytes, secrets of 32 bytes,
-- numbers of 64 bits) is encoded by appending bytes that decode to it; their number is `encoded_len`
-- and never exceeds the longest control frame.
pub decode_register_cid-encode_register_cid :
    (p : RegisterCidPayload) (out : List ℕ)
    → IsSendable p
    → (bytes : List ℕ) × (encode_register_cid p out ≡ ok (out ++ bytes))
      × (decode_register_cid bytes ≡ ok p)
      × (length bytes ≡ encoded_len p)
      × (length bytes ≤ max_control_frame_len)
unfolding encode_register_cid encoded_len
decode_register_cid-encode_register_cid p out v = (
  register_bytes p,
  rw v.client_full refl,
  decoded p v ∙ read_back p v,
  omega (arith, bytes_len p v, v.client_full),
  omega (arith, bytes_len p v, v.server_valid.fits),
)
