-- ===== src/ByteStream/Writing.antt =====
-- What `write` of byteStream.hpp does to the bytes of a stream, and where it leaves the vector.
use native.Mathlib.Decide.{dec_lt}
use mlnsdk.Base.{
  ◌%◌, ℕ, ◌+◌, ◌-◌, ◌^◌, ◌≤◌, ◌<◌, ◌≡◌, refl, ap, ◌∙◌, ◌⊎◌, List, ◌++◌, append-nil, length,
  replicate, written, arith, length-append, length-replicate, length-written, slice-written,
  slice_prefix, le→leb, lt→leb, lt→ltb, le→ltb,
}
use mlnsdk.Base.Outcome.{ok, fault}
use mlnsdk.ByteStream.{ByteStream, size, check_advance_write_buffer, write}
use mlnsdk.ByteStream.Contents.{IsValid, contents, size_lem}

-- There is room for `n` more bytes: the buffer grows from its start only.
abbrev pub HasRoom : ByteStream → ℕ → Type 0
HasRoom s n = (s.pos_read ≡ 0) ⊎ (s.pos_write + n ≤ length s.buffer)

abbrev zeros : ℕ → List ℕ
zeros k = replicate k 0

abbrev grown : ByteStream → ℕ → List ℕ
grown s n = s.buffer ++ zeros (s.pos_write - s.pos_read + n - length s.buffer)

grow_lem :
    (s : ByteStream) (n : ℕ)
    → IsValid s
    → s.pos_write + n < 2 ^ 31
    → check_advance_write_buffer s n ≡ record s { buffer = grown s n }
unfolding check_advance_write_buffer
grow_lem s n v h =
    let e : (size s + n) % 2 ^ 64 ≡ s.pos_write - s.pos_read + n = omega (arith, size_lem s v) in
    elim (dec_lt (length s.buffer) (s.pos_write - s.pos_read + n)) [
      | yes p ↦ rw (e, lt→ltb _ _ p)
      | no p ↦
          let k : s.pos_write - s.pos_read + n - length s.buffer ≡ 0 = omega arith in
          rw (
            e,
            le→ltb (length s.buffer) (s.pos_write - s.pos_read + n) (omega arith),
            k,
            append-nil,
          )
    ]

length-grown :
    (s : ByteStream) (n : ℕ)
    → length (grown s n) ≡ length s.buffer + (s.pos_write - s.pos_read + n - length s.buffer)
length-grown s n =
    let k = s.pos_write - s.pos_read + n - length s.buffer in
    length-append s.buffer (zeros k) ∙ ap (◌+◌ (length s.buffer)) (length-replicate {A = ℕ} k 0)

-- The stream after a write that has room.
abbrev after_write : ByteStream → List ℕ → ByteStream
after_write s src = record s {
  buffer = written s.pos_write src (grown s (length src));
  pos_write = s.pos_write + length src;
}

write_lem :
    (s : ByteStream) (src : List ℕ)
    → IsValid s
    → s.pos_write + length src < 2 ^ 31
    → HasRoom s (length src)
    → write s src ≡ ok (after_write s src)
unfolding write
write_lem s src v h room =
    let fits : s.pos_write + length src ≤ length (grown s (length src)) =
      omega (arith, length-grown s (length src)) in
    let e : (s.pos_write + length src) % 2 ^ 32 ≡ s.pos_write + length src = omega arith in
    rw (grow_lem s (length src) v h, le→leb _ _ fits, e)

length-after_write :
    (s : ByteStream) (src : List ℕ)
    → IsValid s
    → HasRoom s (length src)
    → (length (after_write s src).buffer ≡ length (grown s (length src)))
      × (s.pos_write + length src ≤ length (grown s (length src)))
length-after_write s src v room =
    let fits : s.pos_write + length src ≤ length (grown s (length src)) =
      omega (arith, length-grown s (length src)) in
    (length-written s.pos_write src _ fits, fits)

contents-after_write :
    (s : ByteStream) (src : List ℕ)
    → IsValid s
    → HasRoom s (length src)
    → contents (after_write s src) ≡ contents s ++ src
contents-after_write s src v room =
    let r = s.pos_read in
    let w = s.pos_write in
    let g = grown s (length src) in
    let count : w + length src - r ≡ w - r + length src = omega arith in
    rw count (
      slice-written r (w - r) w src g (omega arith) (length-after_write s src v room).1
      ∙ ap (λ (xs : List ℕ). xs ++ src) (slice_prefix r (w - r) s.buffer _ (omega arith)))

-- On a valid stream that is read from its front or has room for them behind its write position,
-- and whose positions stay below the range of an int32_t, write returns a valid stream whose
-- contents are the old contents and then the bytes; the read position and the manipulator stay,
-- and the write position moves by the number of bytes.
pub write_appends :
    (s : ByteStream) (src : List ℕ)
    → IsValid s
    → s.pos_write + length src < 2 ^ 31
    → HasRoom s (length src)
    → (t : ByteStream) × (write s src ≡ ok t)
      × IsValid t
      × (contents t ≡ contents s ++ src)
      × (t.pos_read ≡ s.pos_read)
      × (t.pos_write ≡ s.pos_write + length src)
      × (t.manipulator ≡ s.manipulator)
write_appends s src v h room = (
  after_write s src,
  write_lem s src v h room,
  record {
    ordered = omega arith;
    inside = omega (arith, length-after_write s src v room);
    bounded = omega (arith, length-after_write s src v room, length-grown s (length src));
  },
  contents-after_write s src v room,
  refl,
  refl,
  refl,
)

-- Such a write never leaves a shorter buffer.
pub write-longer :
    (s t : ByteStream) (src : List ℕ)
    → IsValid s
    → s.pos_write + length src < 2 ^ 31
    → HasRoom s (length src)
    → write s src ≡ ok t
    → length s.buffer ≤ length t.buffer
write-longer s t src v h room e =
    let same : t ≡ after_write s src = cc (write_lem s src v h room) in
    rw same (omega (arith, length-after_write s src v room, length-grown s (length src)))

-- On a valid stream that is not read from its front, write of bytes that do not fit behind the
-- write position, and keep it below the range of an int32_t, goes past the end of the buffer.
pub write_overruns :
    (s : ByteStream) (src : List ℕ)
    → IsValid s
    → s.pos_write + length src < 2 ^ 31
    → 0 < s.pos_read
    → length s.buffer < s.pos_write + length src
    → write s src ≡ fault
unfolding write
write_overruns s src v h started full =
    let short : length (grown s (length src)) < s.pos_write + length src =
      omega (arith, length-grown s (length src)) in
    rw (grow_lem s (length src) v h, lt→leb _ _ short)
