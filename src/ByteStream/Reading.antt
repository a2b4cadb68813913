-- ===== src/ByteStream/Reading.antt =====
-- What the reading operations of byteStream.hpp return, and what they leave in the stream.
use native.Mathlib.Decide.{dec_lt}
use native.Mathlib.Decide.{ℕ_discrete}
use mlnsdk.Base.{Bool, true, false}
use mlnsdk.Base.{eq→==, ne→==, drop_all}
use mlnsdk.Base.{
  ◌%◌, ℕ, ◌+◌, ◌-◌, ◌*◌, ◌^◌, ◌≤◌, ◌<◌, ◌≡◌, refl, ap, sym, ◌∙◌, none, some, ltb, ◌==◌,
  if◌then◌else◌, length, take, drop, slice, arith, length-slice, slice-take, drop-append,
  slice_split, le→leb, lt→ltb, le→ltb,
}
use mlnsdk.Base.Outcome.{ok, thrown}
use mlnsdk.ByteStream.{
  ByteStream, clear, size, read_data, try_read, capacity, available, check_advance_read_buffer,
  read, advance_pos_read,
}
use mlnsdk.ByteStream.Contents.{IsValid, contents, size_lem, length-contents}

take-slice :
    (s : ByteStream) (n : ℕ)
    → n ≤ s.pos_write - s.pos_read
    → slice s.pos_read n s.buffer ≡ take n (contents s)
take-slice s n h =
    sym (slice-take 0 n (s.pos_write - s.pos_read) (drop s.pos_read s.buffer) (omega arith))

pub read_data_lem :
    (s : ByteStream) (n : ℕ)
    → IsValid s
    → n ≤ s.pos_write - s.pos_read
    → read_data s n ≡ ok (take n (contents s))
unfolding read_data
read_data_lem s n v h =
    rw (le→leb (s.pos_read + n) (length s.buffer) (omega arith)) (ap ok (take-slice s n h))

-- `tryRead` returns the first bytes, and moves nothing; too few bytes are refused.
pub try_read_lem :
    (s : ByteStream) (n : ℕ)
    → IsValid s
    → try_read s n
      ≡ (if ltb (length (contents s)) n then ok none else ok (some (take n (contents s))))
unfolding try_read
try_read_lem s n v = elim (dec_lt (size s) n) [
  | yes p ↦ rw (length-contents s v, lt→ltb (size s) n p)
  | no p ↦ rw (
    length-contents s v,
    le→ltb (size s) n (omega arith),
    read_data_lem s n v (omega (arith, size_lem s v)),
  )
]

-- checkAdvanceReadBuffer throws if there are fewer bytes than asked for and changes nothing
-- otherwise, for every stream: it never calls rearrange.
pub check_advance_read_buffer_lem :
    (s : ByteStream) (n : ℕ)
    → check_advance_read_buffer s n ≡ (if ltb (size s) n then thrown else ok s)
unfolding check_advance_read_buffer available
check_advance_read_buffer_lem s n = rw (le→ltb (10 * capacity s) (7 * capacity s) (omega arith))

-- What is left after `n` bytes.
drop-slice :
    (s : ByteStream) (n : ℕ)
    → IsValid s
    → n ≤ s.pos_write - s.pos_read
    → slice (s.pos_read + n) (s.pos_write - (s.pos_read + n)) s.buffer ≡ drop n (contents s)
drop-slice s n v h =
    let r = s.pos_read in
    let m = s.pos_write - (r + n) in
    let count : s.pos_write - r ≡ n + m = omega arith in
    rw (count, slice_split r n m s.buffer)
      (sym (drop-append _ _ n (length-slice r n s.buffer (omega arith))))

module _ (s : ByteStream) (n : ℕ) (v : IsValid s) where
  pub read_lem :
      n ≤ length (contents s)
      → read s n ≡ ok (take n (contents s), record s { pos_read = s.pos_read + n })
  unfolding read
  read_lem h =
      let e : (s.pos_read + n) % 2 ^ 32 ≡ s.pos_read + n =
        omega (arith, length-contents s v, size_lem s v) in
      rw (
        check_advance_read_buffer_lem s n,
        le→ltb (size s) n (omega (arith, size_lem s v, length-contents s v)),
        read_data_lem s n v (omega (arith, length-contents s v, size_lem s v)),
        e,
      )

  -- On a valid stream with at least n bytes, read returns the first n bytes of its contents and
  -- leaves a valid stream with the others.
  pub read_takes :
      n ≤ length (contents s)
      → (t : ByteStream) × (read s n ≡ ok (take n (contents s), t))
        × IsValid t
        × (contents t ≡ drop n (contents s))
        × (t.pos_read ≡ s.pos_read + n)
        × (length t.buffer ≡ length s.buffer)
  read_takes h =
      let h' : n ≤ s.pos_write - s.pos_read = omega (arith, length-contents s v, size_lem s v) in
      (
        record s { pos_read = s.pos_read + n },
        read_lem h,
        record { ordered = omega arith; inside = omega arith; bounded = omega arith },
        drop-slice s n v h',
        refl,
        refl,
      )

  pub read_throws : length (contents s) < n → read s n ≡ thrown
  unfolding read
  read_throws h =
      rw (check_advance_read_buffer_lem s n, lt→ltb (size s) n (omega (arith, length-contents s v)))

  -- On a valid stream with at least n bytes, advancePosRead succeeds and leaves a valid stream
  -- with the bytes after the first n, its buffer as long as before; it reads on at the front of
  -- the buffer if nothing is left and n bytes further otherwise.
  pub advance_pos_read_drops :
      n ≤ length (contents s)
      → (t : ByteStream) × (advance_pos_read s n ≡ ok t)
        × IsValid t
        × (contents t ≡ drop n (contents s))
        × (t.pos_read ≡ (if n == length (contents s) then 0 else s.pos_read + n))
        × (length t.buffer ≡ length s.buffer)
  unfolding advance_pos_read clear
  advance_pos_read_drops h =
      let count : length (contents s) ≡ s.pos_write - s.pos_read =
        length-contents s v ∙ size_lem s v in
      let h' : n ≤ s.pos_write - s.pos_read = omega arith in
      let e : (s.pos_read + n) % 2 ^ 32 ≡ s.pos_read + n = omega arith in
      let checked : check_advance_read_buffer s n ≡ ok s =
        rw (check_advance_read_buffer_lem s n, le→ltb (size s) n (omega (arith, size_lem s v))) in
      elim (ℕ_discrete (s.pos_read + n) s.pos_write) [
        | yes drained ↦ (
          clear s,
          rw (checked, e, eq→== (s.pos_read + n) s.pos_write drained),
          record { ordered = omega arith; inside = omega arith; bounded = omega arith },
          sym (drop_all (contents s) n (omega arith)),
          rw (eq→== n (length (contents s)) (omega arith)),
          refl,
        )
        | no more ↦ (
          record s { pos_read = s.pos_read + n },
          rw (checked, e, ne→== (s.pos_read + n) s.pos_write more),
          record { ordered = omega arith; inside = omega arith; bounded = omega arith },
          drop-slice s n v h',
          rw (ne→== n (length (contents s)) (λ q. more (omega arith))),
          refl,
        )
      ]

  pub advance_pos_read_throws : length (contents s) < n → advance_pos_read s n ≡ thrown
  unfolding advance_pos_read
  advance_pos_read_throws h =
      rw (check_advance_read_buffer_lem s n, lt→ltb (size s) n (omega (arith, length-contents s v)))

-- The buffer keeps its length, and the write position does not go up.
abbrev pub Stays : ByteStream → ByteStream → Type 0
Stays s t = (t.pos_write ≤ s.pos_write) × (length t.buffer ≡ length s.buffer)

moved-Stays :
    (s t : ByteStream) (r : ℕ) (b : Bool)
    → ok (if b then clear (record s { pos_read = r }) else record s { pos_read = r }) ≡ ok t
    → Stays s t
unfolding clear
moved-Stays s t r true e =
    let same : t ≡ record s { pos_read = 0; pos_write = 0 } = cc in rw same (omega arith, refl)
moved-Stays s t r false e =
    let same : t ≡ record s { pos_read = r } = cc in rw same (omega arith, refl)

-- advancePosRead moves no byte, for every stream.
pub advance_pos_read-Stays : (s t : ByteStream) (n : ℕ) → advance_pos_read s n ≡ ok t → Stays s t
unfolding advance_pos_read
advance_pos_read-Stays s t n e =
    let r = (s.pos_read + n) % 2 ^ 32 in
    elim (dec_lt (size s) n) [
      | yes few ↦
          let stop : advance_pos_read s n ≡ thrown =
            rw (check_advance_read_buffer_lem s n, lt→ltb (size s) n few) in
          cc
      | no enough ↦
          let go : advance_pos_read s n
              ≡ ok (
                  if r == s.pos_write
                  then clear (record s { pos_read = r })
                  else record s { pos_read = r }) =
            rw (check_advance_read_buffer_lem s n, le→ltb (size s) n (omega arith)) in
          moved-Stays s t r (r == s.pos_write) (sym go ∙ e)
    ]
