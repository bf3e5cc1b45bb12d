-- ===== src/Claim/TcpReads.antt =====
-- The reader of TLS records reads what it is asked for, or ends the classification: slt-core/src/classifier.rs.
use slt.Prelude.{
  ℕ, zero, suc, ◌+◌, ◌-◌, ◌*◌, ◌≤◌, ◌<◌, min, ◌≡◌, ◌≢◌, refl, arith, List, [], ◌++◌, true, false,
  not, ◌==◌, leb, leb→le, ==_iff, Bool-cases, ◌⊎◌, inl, inr, length, take, drop,
}
use slt.Prelude.Lists.{get_or, length-append, length-drop, drop-drop}
use slt.Claim.Tcp as Tcp
use slt.Claim.Tcp.{
  Verdict, RecordReader, HandshakeReader, next_record, refill, available, step_len, advance_by,
  fill, read_record, read_handshake, read_chunks, read_remaining_into, tls_handshake_content_type,
}
use slt.Claim.Outcomes.{
  Outcome, EndsIn, NoClaim, EndsIn-ok, EndsIn-bind, EndsIn-guard, EndsIn-index_at, EndsIn-slice_at,
}
use slt.Claim.Records.{Carries, nothing, next_header, Carries-append, Carries-take, drop-header}

abbrev pub InBuf : RecordReader → Type 0
InBuf r = r.pos ≤ length r.buf

-- From one reader to the other, the records carry the bytes.
abbrev pub Carried : RecordReader → List ℕ → RecordReader → Type 0
Carried r bytes s =
    Carries r.record_remaining (drop r.pos r.buf) bytes s.record_remaining (drop s.pos s.buf)

-- A refill uses up bytes, or there were some left in the record.
abbrev Refilled : RecordReader → RecordReader → Type 0
Refilled r s =
    InBuf s
    × ((suc (available s) ≤ available r) ⊎ ((available s ≡ available r) × (1 ≤ s.record_remaining)))
    × Carried r [] s

pub incomplete-ne-claim : Tcp.incomplete ≢ Tcp.claim
incomplete-ne-claim h = cc h

pub pass-ne-claim : Tcp.pass ≢ Tcp.claim
pass-ne-claim h = cc h

-- Each round of a read uses up bytes.
advances :
    (r s : RecordReader) (missing fuel : ℕ)
    → InBuf s
    → ((suc (available s) ≤ available r) ⊎ ((available s ≡ available r) × (1 ≤ s.record_remaining)))
    → 1 ≤ available s
    → available r < suc fuel
    → available (advance_by (step_len s (suc missing)) s) < fuel
advances r s missing fuel h (inl less) a k = omega arith
advances r s missing fuel h (inr (same_left, one)) a k = omega arith

some_left : (n : ℕ) → (n == 0) ≡ false → 1 ≤ n
some_left n e = ground arith

not_zero : (n : ℕ) → not (n == 0) ≡ true → 1 ≤ n
not_zero n e = ground arith

header-Carried :
    (r : RecordReader)
    → r.record_remaining ≡ 0
    → r.pos + 5 ≤ length r.buf
    → get_or r.buf r.pos 0 ≡ 0x16
    → Carries r.record_remaining
        (drop r.pos r.buf)
        []
        (get_or r.buf (r.pos + 3) 0 * 256 + get_or r.buf (r.pos + 4) 0)
        (drop (r.pos + 5) r.buf)
header-Carried r z room kind = rw (z, drop-header r.pos r.buf room, kind) (next_header nothing)

next_record-Refilled :
    (r : RecordReader) → r.record_remaining ≡ 0 → Outcome (Refilled r) (next_record r)
unfolding next_record
next_record-Refilled r z =
    let Q = Refilled r in
    let kind = get_or r.buf r.pos 0 in
    EndsIn-guard NoClaim Q (leb (r.pos + 5) (length r.buf)) Tcp.incomplete _ incomplete-ne-claim
      (λ t.
        let room = leb→le (r.pos + 5) (length r.buf) t in
        EndsIn-index_at NoClaim Q r.buf r.pos _ (omega arith) (
          EndsIn-guard NoClaim Q (kind == tls_handshake_content_type) Tcp.pass _ pass-ne-claim
            (λ is_kind. EndsIn-index_at NoClaim Q r.buf (r.pos + 3) _ (omega arith) (
              EndsIn-index_at NoClaim Q r.buf (r.pos + 4) _ (omega arith) (
                EndsIn-ok NoClaim Q _ (
                  omega arith,
                  inl (omega arith),
                  header-Carried r z room ((==_iff kind 0x16).0 is_kind),
                ))))))

refill-Refilled : (r : RecordReader) → InBuf r → Outcome (Refilled r) (refill r)
unfolding refill EndsIn
refill-Refilled r h = elim (Bool-cases (r.record_remaining == 0)) [
  | inl e ↦ rw e (next_record-Refilled r ((==_iff r.record_remaining 0).0 e))
  | inr e ↦ rw e (h, inr (refl, some_left r.record_remaining e), nothing)
]

-- The bytes that were asked for, as the records carry them, and a reader still within its buffer.
abbrev pub Read : RecordReader → ℕ → List ℕ × RecordReader → Type 0
Read r n read = (length read.0 ≡ n) × InBuf read.1 × Carried r read.0 read.1

step-Carried :
    (n : ℕ) (s : RecordReader)
    → n ≤ s.record_remaining
    → n ≤ available s
    → Carried s (take n (drop s.pos s.buf)) (advance_by n s)
step-Carried n s h k = rw (← drop-drop n s.pos s.buf) (
    Carries-take n (s.record_remaining - n) s.record_remaining (drop s.pos s.buf) (omega arith)
      (omega (arith, length-drop s.pos s.buf)))

fill-Read :
    (fuel : ℕ) (r : RecordReader) (n : ℕ)
    → InBuf r
    → available r < fuel
    → Outcome (Read r n) (fill fuel r n)
unfolding fill
fill-Read zero r n h k = absurd (omega arith)
fill-Read (suc fuel) r zero h k = EndsIn-ok NoClaim (Read r zero) ([], r) (refl, h, nothing)
fill-Read (suc fuel) r (suc missing) h k =
    let Q = Read r (suc missing) in
    EndsIn-bind NoClaim (Refilled r) Q (refill r) _ (refill-Refilled r h) (λ s p.
      EndsIn-guard NoClaim Q (not (available s == 0)) Tcp.incomplete _ incomplete-ne-claim (λ t.
        let n = step_len s (suc missing) in
        let s' = advance_by n s in
        let bytes = take n (drop s.pos s.buf) in
        let some_available = not_zero (available s) t in
        EndsIn-slice_at NoClaim Q s.buf s.pos n _ (omega (arith, p.0)) (λ m.
          EndsIn-bind NoClaim (Read s' (suc missing - n)) Q (fill fuel s' (suc missing - n)) _
            (fill-Read fuel s' (suc missing - n) (omega (arith, p.0))
              (advances r s missing fuel p.0 p.1 some_available k))
            (λ rest q.
              EndsIn-ok NoClaim Q (bytes ++ rest.0, rest.1)
                (
                  omega (arith, length-append bytes rest.0, q.0, m),
                  q.1,
                  Carries-append p.2
                      (Carries-append (step-Carried n s (omega arith) (omega arith)) q.2),
                )))))

pub read_record-Read : (r : RecordReader) (n : ℕ) → InBuf r → Outcome (Read r n) (read_record r n)
unfolding read_record
read_record-Read r n h = fill-Read (suc (available r)) r n h (omega arith)

abbrev pub ReadHandshake : HandshakeReader → ℕ → List ℕ × HandshakeReader → Type 0
ReadHandshake hs n read =
    (length read.0 ≡ n)
    × InBuf read.1.inner
    × (read.1.remaining ≡ hs.remaining - n)
    × Carried hs.inner read.0 read.1.inner

pub read_handshake-Read :
    (hs : HandshakeReader) (n : ℕ)
    → InBuf hs.inner
    → Outcome (ReadHandshake hs n) (read_handshake hs n)
unfolding read_handshake
read_handshake-Read hs n h =
    let Q = ReadHandshake hs n in
    EndsIn-guard NoClaim Q (leb n hs.remaining) Tcp.pass _ pass-ne-claim (λ _.
      EndsIn-bind NoClaim (Read hs.inner n) Q (read_record hs.inner n) _
        (read_record-Read hs.inner n h) (λ read p. EndsIn-ok NoClaim Q _ (p.0, p.1, refl, p.2)))

abbrev pub Rest : HandshakeReader → List ℕ × HandshakeReader → Type 0
Rest hs read = InBuf read.1.inner × Carried hs.inner read.0 read.1.inner

read_chunks-Outcome :
    (fuel : ℕ) (hs : HandshakeReader)
    → InBuf hs.inner
    → hs.remaining < fuel
    → Outcome (Rest hs) (read_chunks fuel hs)
unfolding read_chunks
read_chunks-Outcome zero hs h k = absurd (omega arith)
read_chunks-Outcome (suc fuel) hs h k = elim (Bool-cases (hs.remaining == 0)) [
  | inl e ↦ rw (read_chunks, e) (EndsIn-ok NoClaim (Rest hs) ([], hs) (h, nothing))
  | inr e ↦
      let some = some_left hs.remaining e in
      rw (read_chunks, e)
        (EndsIn-bind NoClaim (ReadHandshake hs (min hs.remaining 256)) (Rest hs)
          (read_handshake hs (min hs.remaining 256)) _
          (read_handshake-Read hs (min hs.remaining 256) h)
          (λ first p.
            EndsIn-bind NoClaim (Rest first.1) (Rest hs) (read_chunks fuel first.1) _
              (read_chunks-Outcome fuel first.1 p.1 (omega (arith, p.2)))
              (λ rest q.
                EndsIn-ok NoClaim (Rest hs) (first.0 ++ rest.0, rest.1)
                  (q.0, Carries-append p.3 q.1))))
]

pub read_remaining_into-Outcome :
    (hs : HandshakeReader) → InBuf hs.inner → Outcome (Rest hs) (read_remaining_into hs)
unfolding read_remaining_into
read_remaining_into-Outcome hs h = read_chunks-Outcome (suc hs.remaining) hs h (omega arith)
