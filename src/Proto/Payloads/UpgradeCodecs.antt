-- ===== src/Proto/Payloads/UpgradeCodecs.antt =====
-- The upgrade payloads are inverse codecs.
use slt.Prelude.{
  ℕ, ◌<◌, ◌≡◌, ◌≢◌, refl, sym, ap, ◌∙◌, arith, List, ◌++◌, length, All, Result, ok, err, panic,
}
use slt.Prelude.Bytes.{IsByte, IsU64, to_be, from_be, to_be-IsByte, from_be-to_be}
use slt.Prelude.Bytes.{from_be-lt, to_be-from_be}
use slt.Proto.Payloads.Codec.{IsCodec, number-IsCodec}
use mathlib.Core.List.{append_assoc}
use slt.Prelude.{length-take, length-drop, All-take, All-drop, take_all, take-append-drop, ◌^◌}
use slt.Prelude.Slices.{slice_ok}
use slt.Prelude.{
  guard, slice, ◌>>=◌, ◌>>◌, ◌==◌, Bool-cases, inl, inr, ==_iff, false, take, drop, All-append,
}
use slt.Proto.Payloads.Errors.{PayloadError, length_mismatch}
use slt.Proto.Payloads.Upgrade.{UpgradeProbePayload, UpgradeProbeAckPayload, UdpReadyPayload}
use slt.Proto.Payloads.Upgrade.{SwitchToUdpPayload, SwitchAckPayload, SwitchOkPayload}
use slt.Proto.Payloads.Upgrade.{
  decode_upgrade_probe, encode_upgrade_probe, decode_upgrade_probe_ack,
}
use slt.Proto.Payloads.Upgrade.{encode_upgrade_probe_ack, decode_udp_ready, encode_udp_ready}
use slt.Proto.Payloads.Upgrade.{decode_switch_to_udp, encode_switch_to_udp, decode_switch_ack}
use slt.Proto.Payloads.Upgrade.{encode_switch_ack, decode_switch_ok, encode_switch_ok}

udp_ready-IsCodec : IsCodec (λ p. IsU64 p.upgrade_id) decode_udp_ready encode_udp_ready
unfolding decode_udp_ready encode_udp_ready
udp_ready-IsCodec =
    number-IsCodec {P = UdpReadyPayload} (λ n. record { upgrade_id = n }) (λ p. p.upgrade_id)
      (λ p. refl) (λ n. refl)

switch_to_udp-IsCodec : IsCodec (λ p. IsU64 p.upgrade_id) decode_switch_to_udp encode_switch_to_udp
unfolding decode_switch_to_udp encode_switch_to_udp
switch_to_udp-IsCodec =
    number-IsCodec {P = SwitchToUdpPayload} (λ n. record { upgrade_id = n }) (λ p. p.upgrade_id)
      (λ p. refl) (λ n. refl)

switch_ack-IsCodec : IsCodec (λ p. IsU64 p.upgrade_id) decode_switch_ack encode_switch_ack
unfolding decode_switch_ack encode_switch_ack
switch_ack-IsCodec =
    number-IsCodec {P = SwitchAckPayload} (λ n. record { upgrade_id = n }) (λ p. p.upgrade_id)
      (λ p. refl) (λ n. refl)

switch_ok-IsCodec : IsCodec (λ p. IsU64 p.upgrade_id) decode_switch_ok encode_switch_ok
unfolding decode_switch_ok encode_switch_ok
switch_ok-IsCodec =
    number-IsCodec {P = SwitchOkPayload} (λ n. record { upgrade_id = n }) (λ p. p.upgrade_id)
      (λ p. refl) (λ n. refl)

-- Two 64-bit numbers, the shape of the probe and of its acknowledgement.
module _ {P : Type 0} (make : ℕ → ℕ → P) (first second : P → ℕ) where
  abbrev decode_pair : List ℕ → Result PayloadError P
  decode_pair payload = do
    guard (length payload == 16) (length_mismatch 16 (length payload))
    id_bytes ← slice payload 0 8
    nonce_bytes ← slice payload 8 (length payload)
    ok (make (from_be id_bytes) (from_be nonce_bytes))

  decode_pair_ok :
      (payload : List ℕ)
      → length payload ≡ 16
      → decode_pair payload
        ≡ ok (make (from_be (take 8 payload)) (from_be (take 8 (drop 8 payload))))
  decode_pair_ok payload h =
      rw
        (
          h,
          slice_ok {E = PayloadError} payload 0 8 (omega arith) (omega arith),
          slice_ok {E = PayloadError} payload 8 16 (omega arith) (omega arith),
        )
        refl

  decode_pair_bad :
      (payload : List ℕ)
      → (length payload == 16) ≡ false
      → decode_pair payload ≡ err (length_mismatch 16 (length payload))
  decode_pair_bad payload h = rw h refl

  pair_round_trip :
      ((p : P) → make (first p) (second p) ≡ p)
      → (p : P) → IsU64 (first p) × IsU64 (second p)
      → decode_pair (to_be 8 (first p) ++ to_be 8 (second p)) ≡ ok p
  unfolding to_be
  pair_round_trip make-fields p (h, k) =
      decode_pair_ok (to_be 8 (first p) ++ to_be 8 (second p)) refl
      ∙ rw (from_be-to_be 8 (first p) (omega arith), from_be-to_be 8 (second p) (omega arith))
          (ap ok (make-fields p))

  module _ (first-make : (a b : ℕ) → first (make a b) ≡ a)
      (second-make : (a b : ℕ) → second (make a b) ≡ b) (payload : List ℕ) (p : P)
      (bytes : All IsByte payload) where
    pair_fields :
        length payload ≡ 16
        → make (from_be (take 8 payload)) (from_be (take 8 (drop 8 payload))) ≡ p
        → (IsU64 (first p) × IsU64 (second p)) × (to_be 8 (first p) ++ to_be 8 (second p) ≡ payload)
    pair_fields size made =
        let a = take 8 payload in
        let b = take 8 (drop 8 payload) in
        let a_size : length a ≡ 8 = omega (arith, length-take 8 payload) in
        let b_size : length b ≡ 8 =
          omega (arith, length-take 8 (drop 8 payload), length-drop 8 payload) in
        let a_bytes = All-take IsByte 8 payload bytes in
        let b_bytes = All-take IsByte 8 (drop 8 payload) (All-drop IsByte 8 payload bytes) in
        let one : first p ≡ from_be a = ap first (sym made) ∙ first-make _ _ in
        let two : second p ≡ from_be b = ap second (sym made) ∙ second-make _ _ in
        let a_below : from_be a < 256 ^ 8 = rw a_size at (from_be-lt a a_bytes) in
        let b_below : from_be b < 256 ^ 8 = rw b_size at (from_be-lt b b_bytes) in
        let whole : take 8 (drop 8 payload) ≡ drop 8 payload =
          take_all 8 (drop 8 payload) (omega (arith, length-drop 8 payload)) in
        (
          (omega (arith, one, a_below), omega (arith, two, b_below)),
          rw (one, two, to_be-from_be 8 a a_size a_bytes, to_be-from_be 8 b b_size b_bytes)
              (ap (λ ys. take 8 payload ++ ys) whole ∙ take-append-drop 8 payload),
        )

  pair_canonical :
      ((a b : ℕ) → first (make a b) ≡ a)
      → ((a b : ℕ) → second (make a b) ≡ b)
      → (payload : List ℕ) (p : P) → All IsByte payload
      → decode_pair payload ≡ ok p
      → (IsU64 (first p) × IsU64 (second p)) × (to_be 8 (first p) ++ to_be 8 (second p) ≡ payload)
  pair_canonical first-make second-make payload p bytes e =
      elim (Bool-cases (length payload == 16)) [
        | inl fits ↦
            pair_fields first-make second-make payload p bytes ((==_iff (length payload) 16).0 fits)
              (cc (decode_pair_ok payload ((==_iff (length payload) 16).0 fits)))
        | inr wrong ↦ cc (decode_pair_bad payload wrong)
      ]

  pair_no_panic : (payload : List ℕ) → decode_pair payload ≢ panic
  pair_no_panic payload = elim (Bool-cases (length payload == 16)) [
    | inl fits ↦ rw (decode_pair_ok payload ((==_iff (length payload) 16).0 fits)) (λ e. cc)
    | inr wrong ↦ rw (decode_pair_bad payload wrong) (λ e. cc)
  ]

  pair-IsCodec :
      ((p : P) → make (first p) (second p) ≡ p)
      → ((a b : ℕ) → first (make a b) ≡ a)
      → ((a b : ℕ) → second (make a b) ≡ b)
      → IsCodec
          (λ p. IsU64 (first p) × IsU64 (second p))
          decode_pair
          (λ p out. (out ++ to_be 8 (first p)) ++ to_be 8 (second p))
  pair-IsCodec make-fields first-make second-make = record {
    round_trip = λ p out h. (
      to_be 8 (first p) ++ to_be 8 (second p),
      append_assoc out (to_be 8 (first p)) (to_be 8 (second p)),
      All-append IsByte (to_be 8 (first p)) (to_be 8 (second p)) (to_be-IsByte 8 (first p))
          (to_be-IsByte 8 (second p)),
      pair_round_trip make-fields p h,
    );
    canonical = pair_canonical first-make second-make;
    no_panic = pair_no_panic;
  }

upgrade_probe-IsCodec :
    IsCodec (λ p. IsU64 p.upgrade_id × IsU64 p.nonce) decode_upgrade_probe encode_upgrade_probe
unfolding decode_upgrade_probe encode_upgrade_probe
upgrade_probe-IsCodec =
    pair-IsCodec {P = UpgradeProbePayload} (λ a b. record { upgrade_id = a; nonce = b })
      (λ p. p.upgrade_id) (λ p. p.nonce) (λ p. refl) (λ a b. refl) (λ a b. refl)

upgrade_probe_ack-IsCodec :
    IsCodec
      (λ p. IsU64 p.upgrade_id × IsU64 p.nonce)
      decode_upgrade_probe_ack
      encode_upgrade_probe_ack
unfolding decode_upgrade_probe_ack encode_upgrade_probe_ack
upgrade_probe_ack-IsCodec =
    pair-IsCodec {P = UpgradeProbeAckPayload} (λ a b. record { upgrade_id = a; nonce = b })
      (λ p. p.upgrade_id) (λ p. p.nonce) (λ p. refl) (λ a b. refl) (λ a b. refl)

-- For each upgrade payload (probe, probe acknowledgement, ready, switch request, switch
-- acknowledgement, switch confirmation): encoding a value with 64-bit fields appends bytes that
-- decode to it, a payload of bytes that decodes is what its value encodes to, and no payload makes
-- the decoder panic.
pub upgrade_codecs :
    IsCodec (λ p. IsU64 p.upgrade_id × IsU64 p.nonce) decode_upgrade_probe encode_upgrade_probe
    × IsCodec
        (λ p. IsU64 p.upgrade_id × IsU64 p.nonce)
        decode_upgrade_probe_ack
        encode_upgrade_probe_ack
    × IsCodec (λ p. IsU64 p.upgrade_id) decode_udp_ready encode_udp_ready
    × IsCodec (λ p. IsU64 p.upgrade_id) decode_switch_to_udp encode_switch_to_udp
    × IsCodec (λ p. IsU64 p.upgrade_id) decode_switch_ack encode_switch_ack
    × IsCodec (λ p. IsU64 p.upgrade_id) decode_switch_ok encode_switch_ok
upgrade_codecs = (
  upgrade_probe-IsCodec, upgrade_probe_ack-IsCodec, udp_ready-IsCodec, switch_to_udp-IsCodec,
  switch_ack-IsCodec, switch_ok-IsCodec,
)
