-- ===== src/ByteStream/Contents.antt =====
-- The bytes that a stream holds, and what each operation of byteStream.hpp does to them.
use mlnsdk.Base.{length-replicate, refl, []}
use mlnsdk.Base.{ℕ, ◌-◌, ◌^◌, ◌≤◌, ◌<◌, ◌≡◌, sym, ◌∙◌, List, length, slice, arith, length-slice}
use mlnsdk.ByteStream.{ByteStream, size, new_stream}

pub record IsValid (s : ByteStream) : Type 0 where
  pub ordered : s.pos_read ≤ s.pos_write
  pub inside : s.pos_write ≤ length s.buffer
  pub bounded : length s.buffer < 2 ^ 31

-- The bytes written and not yet read.
abbrev pub contents : ByteStream → List ℕ
contents s = slice s.pos_read (s.pos_write - s.pos_read) s.buffer

pub size_lem : (s : ByteStream) → IsValid s → size s ≡ s.pos_write - s.pos_read
unfolding size
size_lem s v = ground arith

pub length-contents : (s : ByteStream) → IsValid s → length (contents s) ≡ size s
length-contents s v = length-slice s.pos_read _ s.buffer (omega arith) ∙ sym (size_lem s v)

module _ (n : ℕ) where
  -- A new stream is empty.
  pub new_stream-IsValid : n < 2 ^ 31 → IsValid (new_stream n)
  unfolding new_stream
  new_stream-IsValid h = record {
    ordered = omega arith;
    inside = omega arith;
    bounded = omega (arith, length-replicate {A = ℕ} n 0);
  }

  pub contents-new_stream : contents (new_stream n) ≡ []
  unfolding new_stream
  contents-new_stream = refl

  pub pos_read-new_stream : (new_stream n).pos_read ≡ 0
  unfolding new_stream
  pos_read-new_stream = refl

  pub pos_write-new_stream : (new_stream n).pos_write ≡ 0
  unfolding new_stream
  pos_write-new_stream = refl
