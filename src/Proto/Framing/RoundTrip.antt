-- ===== src/Proto/Framing/RoundTrip.antt =====
-- `decode_frame` on any buffer, and against `encode_frame`.
use mathlib.Core.List.{append_assoc}
use slt.Prelude.{ℕ, suc, ◌+◌, ◌-◌, ◌^◌, ◌≤◌, ◌<◌, ◌≡◌, ◌≢◌, refl, sym, ap, ◌∙◌, arith}
use slt.Prelude.{List, [], ◌∷◌, ◌++◌, none, some, ltb, leb, if◌then◌else◌, false}
use slt.Prelude.{length, take, drop, length-append, length-take, All}
use slt.Prelude.{
  ok, err, panic, get_or, le→leb, take-append_length, take-append_le, inl, inr, Bool-cases,
  Option-cases,
}
use slt.Prelude.Bytes.{IsByte, to_be, from_be, from_be-to_be, from_be-lt, to_be-from_be}
use slt.Prelude.Slices.{index_ok, slice_ok}
use slt.Proto.Kinds.{MessageType, to_byte, try_from, try_from-to_byte, to_byte-try_from}
use slt.Proto.Framing.{Frame, FrameError, unknown_type, length_too_large, u32_max}
use slt.Proto.Framing.{Decoded, frame_type, take_payload, decode_frame, encode_frame}

-- The bytes of a frame.
abbrev pub frame_bytes : MessageType → List ℕ → List ℕ
frame_bytes ty payload = to_byte ty ∷ (to_be 4 (length payload) ++ payload)

pub encode_frame_bytes :
    (ty : MessageType) (payload out : List ℕ)
    → length payload ≤ u32_max
    → encode_frame ty payload out ≡ ok (out ++ frame_bytes ty payload)
unfolding encode_frame
encode_frame_bytes ty payload out h =
    let fits : ltb u32_max (length payload) ≡ false = ground arith in
    rw fits (
      ap ok (
        append_assoc (out ++ to_byte ty ∷ []) (to_be 4 (length payload)) payload
        ∙ append_assoc out (to_byte ty ∷ []) (to_be 4 (length payload) ++ payload)))

-- The length field of a buffer.
abbrev pub length_field : List ℕ → ℕ
length_field buf = from_be (take 4 (drop 1 buf))

-- `decode_frame` without slices, for a buffer that holds a header.
abbrev pub parsed_body : List ℕ → ℕ → MessageType → Decoded
parsed_body buf max_len ty =
    if leb (length_field buf) max_len
    then if ltb (length buf) (5 + length_field buf)
      then ok none
      else ok (
          some (
            record { ty = ty; payload = take (length_field buf) (drop 5 buf) },
            5 + length_field buf,
          ))
    else err (length_too_large (length_field buf) max_len)

abbrev pub parsed : List ℕ → ℕ → Decoded
parsed buf max_len = elim (try_from (get_or buf 0 0)) [
  | none ↦ err (unknown_type (get_or buf 0 0))
  | some ty ↦ parsed_body buf max_len ty
]

take_payload-parsed :
    (buf : List ℕ) (ty : MessageType) (len : ℕ)
    → take_payload buf ty len ≡ (
        if ltb (length buf) (5 + len)
        then ok none
        else ok (some (record { ty = ty; payload = take len (drop 5 buf) }, 5 + len)))
unfolding take_payload
take_payload-parsed buf ty len = elim (Bool-cases (ltb (length buf) (5 + len))) [
  | inl short ↦ rw short
  | inr full ↦
      let n : 5 + len - 5 ≡ len = omega arith in
      let q : 5 + len ≤ length buf = ground arith in
      rw (full, slice_ok {E = FrameError} buf 5 (5 + len) (omega arith) q, n)
]

pub decode_frame-parsed :
    (buf : List ℕ) (max_len : ℕ) → 5 ≤ length buf → decode_frame buf max_len ≡ parsed buf max_len
unfolding decode_frame
decode_frame-parsed buf max_len h =
    let full : ltb (length buf) 5 ≡ false = ground arith in
    rw
      (
        full,
        index_ok {E = FrameError} buf 0 0 (omega arith),
        slice_ok {E = FrameError} buf 1 5 (omega arith) h,
      )
      (elim (Option-cases (try_from (get_or buf 0 0))) [
        | inl unknown ↦ rw (unknown, frame_type, parsed)
        | inr (ty, known) ↦
            rw (known, frame_type, parsed)
              (elim (Bool-cases (leb (length_field buf) max_len)) [
                | inl fits ↦ rw fits (take_payload-parsed buf ty (length_field buf))
                | inr large ↦ rw large
              ])
      ])

-- On a buffer that starts with the bytes of a frame, `decode_frame` gives the frame and its length,
-- whatever follows.
decode_frame_bytes :
    (ty : MessageType) (payload rest : List ℕ) (max_len : ℕ)
    → length payload ≤ max_len
    → length payload ≤ u32_max
    → decode_frame (frame_bytes ty payload ++ rest) max_len
      ≡ ok (some (record { ty = ty; payload = payload }, 5 + length payload))
unfolding to_be
decode_frame_bytes ty payload rest max_len h fits =
    decode_frame-parsed buf max_len (omega arith)
    ∙ rw (
      parsed,
      try_from-to_byte ty,
      parsed_body,
      field,
      le→leb (length payload) max_len h,
      whole,
      body,
    )
  where
    buf : List ℕ
    buf = frame_bytes ty payload ++ rest

    field : length_field buf ≡ length payload
    field = from_be-to_be 4 (length payload) (omega arith)

    whole : ltb (length buf) (5 + length payload) ≡ false
    whole = ground (arith, length-append payload rest)

    body : take (length payload) (drop 5 buf) ≡ payload
    body = take-append_length payload rest

-- Encoding a frame whose payload fits in the 32-bit length, and decoding what was appended with
-- any bytes behind it, gives the frame back and its exact length, under every limit that admits
-- the payload.
pub decode_frame-encode_frame :
    (ty : MessageType) (payload out rest : List ℕ) (max_len : ℕ)
    → length payload ≤ max_len
    → length payload ≤ u32_max
    → (bytes : List ℕ) × (encode_frame ty payload out ≡ ok (out ++ bytes))
      × (decode_frame (bytes ++ rest) max_len
          ≡ ok (some (record { ty = ty; payload = payload }, length bytes)))
unfolding to_be
decode_frame-encode_frame ty payload out rest max_len h fits = (
  frame_bytes ty payload,
  encode_frame_bytes ty payload out fits,
  decode_frame_bytes ty payload rest max_len h fits
      ∙ ap (λ n. ok (some (record { ty = ty; payload = payload }, n))) size,
)
  where
    size : 5 + length payload ≡ length (frame_bytes ty payload)
    size = omega arith

-- Whatever bytes arrive, `decode_frame` never panics.
pub decode_frame-ne-panic : (buf : List ℕ) (max_len : ℕ) → decode_frame buf max_len ≢ panic
decode_frame-ne-panic buf max_len = elim (Bool-cases (ltb (length buf) 5)) [
  | inl short ↦ unfold decode_frame in rw short (λ e. cc)
  | inr long ↦ rw (decode_frame-parsed buf max_len (ground arith), parsed) (λ e. ground arith)
]

-- What a successful parse says of the buffer.
record Parsed (buf : List ℕ) (max_len : ℕ) (f : Frame) (n : ℕ) : Type 0 where
  kind : try_from (get_or buf 0 0) ≡ some f.ty
  within : length_field buf ≤ max_len
  present : 5 + length_field buf ≤ length buf
  body : take (length_field buf) (drop 5 buf) ≡ f.payload
  consumed : n ≡ 5 + length_field buf

parsed-Parsed :
    (buf : List ℕ) (max_len : ℕ) (f : Frame) (n : ℕ)
    → parsed buf max_len ≡ ok (some (f, n))
    → Parsed buf max_len f n
parsed-Parsed buf max_len f n e = ground arith

-- The parsed frame, written out again.
Parsed-bytes :
    (a b c d g : ℕ) (r : List ℕ) (max_len : ℕ) (f : Frame) (n : ℕ)
    → All IsByte (b ∷ c ∷ d ∷ g ∷ [])
    → Parsed (a ∷ b ∷ c ∷ d ∷ g ∷ r) max_len f n
    → frame_bytes f.ty f.payload ≡ take n (a ∷ b ∷ c ∷ d ∷ g ∷ r)
Parsed-bytes a b c d g r max_len f n bytes p =
    rw
      (
        to_byte-try_from a f.ty p.kind,
        size,
        to_be-from_be 4 (b ∷ c ∷ d ∷ g ∷ []) refl bytes,
        end,
        ← p.body,
      )
      refl
  where
    len : ℕ
    len = from_be (b ∷ c ∷ d ∷ g ∷ [])

    size : length f.payload ≡ len
    size = rw (← p.body) (omega (arith, length-take len r, p.present))

    end : n ≡ suc (suc (suc (suc (suc len))))
    end = omega (arith, p.consumed)

-- A decoded frame is exactly what the front of the buffer encodes: the consumed length lies in the
-- buffer, the payload is within the limit, and encoding the frame gives the consumed bytes.
pub decode_frame_sound :
    (buf : List ℕ) (max_len : ℕ) (f : Frame) (n : ℕ)
    → All IsByte buf
    → decode_frame buf max_len ≡ ok (some (f, n))
    → (n ≤ length buf)
      × (length f.payload ≤ max_len)
      × (encode_frame f.ty f.payload [] ≡ ok (take n buf))
decode_frame_sound (a ∷ b ∷ c ∷ d ∷ g ∷ r) max_len f n bytes e = (
  omega (arith, p.consumed, p.present),
  omega (arith, size, p.within),
  encode_frame_bytes f.ty f.payload [] (omega (arith, size, field_fits))
      ∙ ap ok (Parsed-bytes a b c d g r max_len f n field_bytes p),
)
  where
    p : Parsed (a ∷ b ∷ c ∷ d ∷ g ∷ r) max_len f n
    p =
        parsed-Parsed _ max_len f n
          (sym (decode_frame-parsed (a ∷ b ∷ c ∷ d ∷ g ∷ r) max_len (omega arith)) ∙ e)

    field_bytes : All IsByte (b ∷ c ∷ d ∷ g ∷ [])
    field_bytes = omega arith

    field_fits : from_be (b ∷ c ∷ d ∷ g ∷ []) < 256 ^ 4
    field_fits = from_be-lt (b ∷ c ∷ d ∷ g ∷ []) field_bytes

    size : length f.payload ≡ from_be (b ∷ c ∷ d ∷ g ∷ [])
    size = rw (← p.body) (omega (arith, length-take (from_be (b ∷ c ∷ d ∷ g ∷ [])) r, p.present))
decode_frame_sound _ max_len f n bytes e = absurd (unfold decode_frame in cc)

-- More input never changes an answer: once a frame or an error has been decided, it stays whatever
-- bytes are appended.
pub decode_frame-append :
    (buf more : List ℕ) (max_len : ℕ)
    → decode_frame buf max_len ≢ ok none
    → decode_frame (buf ++ more) max_len ≡ decode_frame buf max_len
decode_frame-append (a ∷ b ∷ c ∷ d ∷ g ∷ r) more max_len e =
    decode_frame-parsed (a ∷ b ∷ c ∷ d ∷ g ∷ (r ++ more)) max_len (omega arith) ∙ same ∙ sym here
  where
    here : decode_frame (a ∷ b ∷ c ∷ d ∷ g ∷ r) max_len ≡ parsed (a ∷ b ∷ c ∷ d ∷ g ∷ r) max_len
    here = decode_frame-parsed (a ∷ b ∷ c ∷ d ∷ g ∷ r) max_len (omega arith)

    decided : parsed (a ∷ b ∷ c ∷ d ∷ g ∷ r) max_len ≢ ok none
    decided q = e (here ∙ q)

    same : parsed (a ∷ b ∷ c ∷ d ∷ g ∷ (r ++ more)) max_len ≡ parsed (a ∷ b ∷ c ∷ d ∷ g ∷ r) max_len
    same =
        ground (
          arith,
          decided,
          length-append r more,
          take-append_le (from_be (b ∷ c ∷ d ∷ g ∷ [])) r more,
        )
decode_frame-append _ more max_len e = absurd (e (unfold decode_frame in refl))
