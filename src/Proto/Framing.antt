-- ===== src/Proto/Framing.antt =====
-- Frames: slt-core/src/proto/framing.rs. A frame is a type byte, a 32-bit length and the payload.

pub mod RoundTrip
use slt.Prelude.{
  ℕ, ◌+◌, List, ◌∷◌, ◌++◌, Option, none, some, ltb, if◌then◌else◌, length, Result, ok, err,
}
use slt.Prelude.{◌>>=◌, ◌>>◌, guard, leb, index, slice}
use slt.Prelude.Bytes.{to_be, from_be}
use slt.Proto.Kinds.{MessageType, to_byte, try_from}

abbrev pub header_len : ℕ
header_len = 5

abbrev pub u32_max : ℕ
u32_max = 4294967295

pub record Frame : Type 0 where
  pub ty : MessageType
  pub payload : List ℕ

pub data FrameError : Type 0 where
  unknown_type : ℕ → FrameError
  length_too_large : ℕ → ℕ → FrameError
  length_overflow : ℕ → FrameError

-- `MessageType::try_from(b).map_err(...)?`
abbrev pub frame_type : ℕ → Result FrameError MessageType
frame_type b = elim (try_from b) [ none ↦ err (unknown_type b) | some t ↦ ok t ]

-- `none` is `Ok(None)`: the buffer does not hold a full frame yet.
abbrev pub Decoded : Type 0
Decoded = Result FrameError (Option (Frame × ℕ))

-- The part of `decode_frame` behind the length test: `len` is below 2^32, so the sum cannot
-- overflow a 64-bit `usize`.
unfoldable pub take_payload : List ℕ → MessageType → ℕ → Decoded
take_payload buf ty len =
    let total_len = header_len + len in
    if ltb (length buf) total_len then ok none else do
      payload ← slice buf header_len total_len
      ok (some (record { ty = ty; payload = payload }, total_len))

unfoldable pub decode_frame : List ℕ → ℕ → Decoded
unfolding take_payload
decode_frame buf max_len = if ltb (length buf) header_len then ok none else do
  b ← index buf 0
  ty ← frame_type b
  len_bytes ← slice buf 1 5
  let len = from_be len_bytes
  guard (leb len max_len) (length_too_large len max_len)
  take_payload buf ty len

unfoldable pub encode_frame : MessageType → List ℕ → List ℕ → Result FrameError (List ℕ)
encode_frame ty payload out =
    let len = length payload in
    if ltb u32_max len
    then err (length_overflow len)
    else ok (((out ++ to_byte ty ∷ List.[]) ++ to_be 4 len) ++ payload)
