-- ===== src/Proto/Message/RoundTrip.antt =====
-- `decode_message` and `decode_padded_message` against `encode_message`.
use slt.Prelude.{ℕ, ◌≤◌, ◌≡◌, ◌≢◌, refl, arith, List, [], ◌++◌, Option, none, some}
use slt.Prelude.{length, ltb, if◌then◌else◌, true, false, ◌&&◌, Result, ok, err, panic, map_err}
use slt.Prelude.{◌>>=◌, Bool-cases, inl, inr, take, All, min}
use slt.Prelude.Bytes.{IsByte}
use slt.Prelude.Slices.{slice_front, slice_ok}
use slt.Proto.Kinds.{MessageType}
use slt.Proto.Framing.{Frame, FrameError, decode_frame, u32_max}
use slt.Proto.Framing.RoundTrip.{
  decode_frame-encode_frame, decode_frame-ne-panic, decode_frame_sound,
}
use slt.Proto.Message.{
  Message, MessageLimits, MessageError, ty, payload, of_kind, from_frame, to_frame,
}
use slt.Proto.Message.{is_tunnel_data, accept_frame, decode_message}
use slt.Proto.Message.{decode_padded_message, encode_message}

pub from_frame-to_frame : (m : Message) → from_frame (to_frame m) ≡ m
unfolding from_frame to_frame ty payload
from_frame-to_frame (Message.auth b) = refl
from_frame-to_frame _ = refl

ty-of_kind : (t : MessageType) (b : List ℕ) → ty (of_kind t b) ≡ t
unfolding ty of_kind
ty-of_kind MessageType.auth b = refl
ty-of_kind _ b = refl

payload-of_kind : (t : MessageType) (b : List ℕ) → payload (of_kind t b) ≡ b
unfolding payload of_kind
payload-of_kind MessageType.auth b = refl
payload-of_kind _ b = refl

-- What a message must satisfy to be accepted under `limits`.
pub record Admits (limits : MessageLimits) (m : Message) : Type 0 where
  pub frame_fits : length (payload m) ≤ limits.max_frame_len
  pub data_fits : ty m ≡ MessageType.tunnel_data → length (payload m) ≤ limits.max_data_len
  pub length_fits : length (payload m) ≤ u32_max

tunnel_data_lem : (t : MessageType) → is_tunnel_data t ≡ true → t ≡ MessageType.tunnel_data
tunnel_data_lem t e = ground arith

accept_frame-Admits :
    (limits : MessageLimits) (m : Message) (n : ℕ)
    → Admits limits m
    → accept_frame limits (to_frame m) n ≡ ok (some (m, n))
unfolding accept_frame to_frame
accept_frame-Admits limits m n a = rw (over, from_frame-to_frame m) refl
  where
    over : (is_tunnel_data (ty m) && ltb limits.max_data_len (length (payload m))) ≡ false
    over = elim (Bool-cases (is_tunnel_data (ty m))) [
      | inl e ↦ ground (arith, a.data_fits (tunnel_data_lem (ty m) e))
      | inr e ↦ rw e
    ]

decode_message_bytes :
    (limits : MessageLimits) (m : Message) (buf : List ℕ) (n : ℕ)
    → Admits limits m
    → decode_frame buf limits.max_frame_len ≡ ok (some (to_frame m, n))
    → decode_message buf limits ≡ ok (some (m, n))
unfolding decode_message
decode_message_bytes limits m buf n a e = rw e (accept_frame-Admits limits m n a)

decode_padded_message_bytes :
    (limits : MessageLimits) (m : Message) (bytes rest : List ℕ)
    → decode_message (bytes ++ rest) limits ≡ ok (some (m, length bytes))
    → decode_padded_message (bytes ++ rest) limits ≡ ok (some (m, bytes))
unfolding decode_padded_message
decode_padded_message_bytes limits m bytes rest e =
    rw (e, slice_front {E = MessageError} (length bytes) bytes rest refl) refl

-- A message within the limits survives the wire: `encode_message` appends some bytes to the output,
-- and with any bytes behind them `decode_message` gives the message and their number, and
-- `decode_padded_message` the message and exactly those bytes.
pub decode_message-encode_message :
    (limits : MessageLimits) (m : Message) (out rest : List ℕ)
    → Admits limits m
    → (bytes : List ℕ) × (encode_message m out ≡ ok (out ++ bytes))
      × (decode_message (bytes ++ rest) limits ≡ ok (some (m, length bytes)))
      × (decode_padded_message (bytes ++ rest) limits ≡ ok (some (m, bytes)))
unfolding encode_message to_frame
decode_message-encode_message limits m out rest a =
    let (bytes, wrote, framed) =
      decode_frame-encode_frame (ty m) (payload m) out rest limits.max_frame_len a.frame_fits
        a.length_fits in
    let read = decode_message_bytes limits m (bytes ++ rest) (length bytes) a framed in
    (bytes, wrote, read, decode_padded_message_bytes limits m bytes rest read)

abbrev decode_result :
    MessageLimits
    → Result FrameError (Option (Frame × ℕ))
    → Result MessageError (Option (Message × ℕ))
decode_result limits r = do
  decoded ← map_err MessageError.frame r
  elim decoded [ none ↦ ok none | some (f, consumed) ↦ accept_frame limits f consumed ]

-- What `accept_frame` lets through.
accept_frame_sound :
    (limits : MessageLimits) (f : Frame) (k n : ℕ) (m : Message)
    → accept_frame limits f k ≡ ok (some (m, n))
    → (m ≡ from_frame f)
      × (n ≡ k)
      × (f.ty ≡ MessageType.tunnel_data → length f.payload ≤ limits.max_data_len)
unfolding accept_frame
accept_frame_sound limits f k n m e = (ground arith, ground arith, λ kind. ground (arith, kind))

decoded_frame :
    (limits : MessageLimits) (buf : List ℕ) (m : Message) (n : ℕ)
    → decode_message buf limits ≡ ok (some (m, n))
    → (f : Frame) × (decode_frame buf limits.max_frame_len ≡ ok (some (f, n)))
      × (m ≡ from_frame f)
      × (f.ty ≡ MessageType.tunnel_data → length f.payload ≤ limits.max_data_len)
unfolding decode_message
decoded_frame limits buf m n e = from_result (decode_frame buf limits.max_frame_len) refl e
  where
    from_result :
        (r : Result FrameError (Option (Frame × ℕ)))
        → decode_frame buf limits.max_frame_len ≡ r
        → decode_result limits r ≡ ok (some (m, n))
        → (f : Frame) × (decode_frame buf limits.max_frame_len ≡ ok (some (f, n)))
          × (m ≡ from_frame f)
          × (f.ty ≡ MessageType.tunnel_data → length f.payload ≤ limits.max_data_len)
    from_result (ok none) q e = cc
    from_result (ok (some (f, k))) q e =
        let (same, count, data_fits) = accept_frame_sound limits f k n m e in
        (f, rw (count) q, same, data_fits)
    from_result (err x) q e = cc
    from_result panic q e = cc

-- The longest payload of a message of a type.
abbrev pub payload_limit : MessageLimits → MessageType → ℕ
payload_limit limits t =
    if is_tunnel_data t then min limits.max_frame_len limits.max_data_len else limits.max_frame_len

within_limit :
    (limits : MessageLimits) (t : MessageType) (n : ℕ)
    → n ≤ limits.max_frame_len
    → (t ≡ MessageType.tunnel_data → n ≤ limits.max_data_len)
    → n ≤ payload_limit limits t
within_limit limits t n h bound = elim (Bool-cases (is_tunnel_data t)) [
  | inl yes' ↦ rw yes' (omega (arith, h, bound (tunnel_data_lem t yes')))
  | inr no' ↦ rw no' h
]

-- Every message that `decode_message` returns from a buffer of bytes respects the limit on its frame
-- and, for tunnelled data, the limit on the packet, and encoding it gives back exactly the bytes that
-- were consumed.
pub decode_message_sound :
    (limits : MessageLimits) (buf : List ℕ) (m : Message) (n : ℕ)
    → All IsByte buf
    → decode_message buf limits ≡ ok (some (m, n))
    → (length (payload m) ≤ payload_limit limits (ty m)) × (encode_message m [] ≡ ok (take n buf))
unfolding encode_message from_frame
decode_message_sound limits buf m n bytes e =
    let (f, framed, same, data_fits) = decoded_frame limits buf m n e in
    let (inside, fits, written) = decode_frame_sound buf limits.max_frame_len f n bytes framed in
    let kind : ty m ≡ f.ty = rw same (ty-of_kind f.ty f.payload) in
    let body : payload m ≡ f.payload = rw same (payload-of_kind f.ty f.payload) in
    (
      within_limit limits (ty m) (length (payload m)) (rw body fits) (rw (kind, body) data_fits),
      rw (kind, body) written,
    )

decode_result-ne-panic :
    (limits : MessageLimits) (r : Result FrameError (Option (Frame × ℕ)))
    → r ≢ panic
    → decode_result limits r ≢ panic
unfolding accept_frame
decode_result-ne-panic limits (ok none) h = λ e. cc
decode_result-ne-panic limits (ok (some (f, k))) h = λ e. ground arith
decode_result-ne-panic limits (err x) h = λ e. cc
decode_result-ne-panic limits panic h = absurd (h refl)

decode_message-ne-panic :
    (limits : MessageLimits) (buf : List ℕ) → decode_message buf limits ≢ panic
unfolding decode_message
decode_message-ne-panic limits buf =
    decode_result-ne-panic limits (decode_frame buf limits.max_frame_len)
      (decode_frame-ne-panic buf limits.max_frame_len)

decode_padded_message-some :
    (limits : MessageLimits) (buf : List ℕ) (m : Message) (n : ℕ)
    → decode_message buf limits ≡ ok (some (m, n))
    → n ≤ length buf
    → decode_padded_message buf limits ≢ panic
unfolding decode_padded_message
decode_padded_message-some limits buf m n e h =
    rw (e, slice_ok {E = MessageError} buf 0 n (omega arith) h) (λ q. cc)

-- Whatever bytes arrive, neither decoder panics.
pub decode_padded_message-ne-panic :
    (limits : MessageLimits) (buf : List ℕ)
    → All IsByte buf
    → (decode_message buf limits ≢ panic) × (decode_padded_message buf limits ≢ panic)
decode_padded_message-ne-panic limits buf bytes =
    (decode_message-ne-panic limits buf, from_result (decode_message buf limits) refl)
  where
    from_result :
        (r : Result MessageError (Option (Message × ℕ)))
        → decode_message buf limits ≡ r
        → decode_padded_message buf limits ≢ panic
    from_result (ok none) q = unfold decode_padded_message in rw q (λ e. cc)
    from_result (ok (some (m, n))) q =
        let (f, framed, _, _) = decoded_frame limits buf m n q in
        decode_padded_message-some limits buf m n q
          (decode_frame_sound buf limits.max_frame_len f n bytes framed).0
    from_result (err x) q = unfold decode_padded_message in rw q (λ e. cc)
    from_result panic q = absurd (decode_message-ne-panic limits buf q)
