-- ===== src/Claim/TokenLayout.antt =====
-- Where the session ID stands in a ClientHello, and another one in its place: slt-core/src/crypto/client_hello.rs.
use slt.Prelude.{
  ℕ, ◌-◌, ◌≤◌, ◌≡◌, refl, sym, ap, ◌∙◌, arith, List, [], ◌∷◌, ◌++◌, leb, length, take, drop, ok,
  guard, ok-bind, guard-true, leb→le, zero, suc, le→leb,
}
use slt.Prelude.Lists.{
  length-append, length-take, length-drop, take-append-drop, take-append_le, take-drop_split,
}
use slt.Claim.Token.{
  ClientHelloLayout, Malformed, get_range, client_hello_layout, client_hello_random, malformed,
  truncated_session_id, missing_header, missing_random, missing_session_id_len,
}

-- A message that has a layout reaches past its session ID, which starts behind byte 39.
pub layout-start :
    (client_hello : List ℕ) (layout : ClientHelloLayout)
    → client_hello_layout client_hello ≡ ok layout
    → (layout.session_id_start ≡ 39) × (71 ≤ length client_hello)
unfolding client_hello_layout
layout-start ch l e =
    let (bytes, _, checked) = ok-bind (client_hello_random ch) _ l e in
    let (u, reaches, made) =
      ok-bind (guard (leb 71 (length ch)) (malformed truncated_session_id)) _ l checked in
    let same_layout : record { random = bytes; session_id_start = 39 } ≡ l = cc made in
    (
      ap (λ l. l.session_id_start) (sym same_layout),
      leb→le 71 (length ch) (guard-true _ _ u reaches),
    )

drop-append_le : (n : ℕ) (xs ys : List ℕ) → n ≤ length xs → drop n (xs ++ ys) ≡ drop n xs ++ ys
drop-append_le zero xs ys h = refl
drop-append_le (suc n) [] ys h = absurd (omega arith)
drop-append_le (suc n) (x ∷ xs) ys h = drop-append_le n xs ys (omega arith)

-- The message with another session ID.
unfoldable pub with_session_id : List ℕ → List ℕ → List ℕ
with_session_id client_hello id = take 39 client_hello ++ (id ++ drop 71 client_hello)

get_range-front :
    (front rest : List ℕ) (a b : ℕ) (e : Malformed)
    → b ≤ length front
    → a ≤ b
    → get_range (front ++ rest) a b e ≡ ok (take (b - a) (drop a front))
unfolding get_range
get_range-front front rest a b e h k = rw (
  le→leb b (length (front ++ rest)) (omega (arith, length-append front rest)),
  drop-append_le a front rest (omega arith),
  take-append_le (b - a) (drop a front) rest (omega (arith, length-drop a front)),
)

-- The layout depends on the 39 bytes in front of the session ID and on the length.
layout-front :
    (front xs ys : List ℕ)
    → length front ≡ 39
    → length xs ≡ length ys
    → client_hello_layout (front ++ xs) ≡ client_hello_layout (front ++ ys)
unfolding client_hello_layout client_hello_random
layout-front front xs ys f e =
    let n : length (front ++ xs) ≡ length (front ++ ys) =
      omega (arith, length-append front xs, length-append front ys) in
    rw (
      get_range-front front xs 0 4 missing_header (omega arith) (omega arith),
      get_range-front front ys 0 4 missing_header (omega arith) (omega arith),
      get_range-front front xs 6 38 missing_random (omega arith) (omega arith),
      get_range-front front ys 6 38 missing_random (omega arith) (omega arith),
      get_range-front front xs 38 39 missing_session_id_len (omega arith) (omega arith),
      get_range-front front ys 38 39 missing_session_id_len (omega arith) (omega arith),
      n,
    )

pub layout-with_session_id :
    (client_hello id : List ℕ)
    → 71 ≤ length client_hello
    → length id ≡ 32
    → client_hello_layout (with_session_id client_hello id) ≡ client_hello_layout client_hello
unfolding with_session_id
layout-with_session_id ch id h l =
    layout-front (take 39 ch) (id ++ drop 71 ch) (drop 39 ch) (omega (arith, length-take 39 ch))
      (omega (arith, length-append id (drop 71 ch), length-drop 71 ch, length-drop 39 ch))
    ∙ ap client_hello_layout (take-append-drop 39 ch)

pub with_session_id_self :
    (client_hello : List ℕ)
    → with_session_id client_hello (take 32 (drop 39 client_hello)) ≡ client_hello
unfolding with_session_id
with_session_id_self ch = ap (take 39 ch ++◌) (take-drop_split 32 39 ch) ∙ take-append-drop 39 ch
