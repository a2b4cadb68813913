-- ===== src/Gzip.antt =====
-- include/net/compression/gzip.hpp: the padding of `encode64`. The iterators of Boost, which give the
-- base-64 text of bytes without padding, are the parameter `base64_from_binary`. A text is the list of
-- its bytes.
use mlnsdk.Base.{
  ℕ, ◌+◌, ◌-◌, ◌*◌, ◌/◌, ◌%◌, ◌≡◌, ◌∙◌, List, ◌++◌, length, replicate, length-append,
  length-replicate, arith,
}

module _ (base64_from_binary : List ℕ → List ℕ) where
  -- The documented behaviour of `transform_width` from 8 to 6 bits: a character for every 6 bits, and
  -- one for those that are left.
  abbrev pub IsSixBit : Type 0
  IsSixBit = (bytes : List ℕ) → length (base64_from_binary bytes) ≡ (8 * length bytes + 5) / 6

  -- The padding is of the character `=`.
  unfoldable pub encode64 : List ℕ → List ℕ
  encode64 val = base64_from_binary val ++ replicate ((3 - length val % 3) % 3) 61

  -- With the documented length of the characters of a text, encode64 gives four characters for every
  -- three bytes, and four for the one or two that are left.
  pub length-encode64 :
      (val : List ℕ) → IsSixBit → length (encode64 val) ≡ 4 * ((length val + 2) / 3)
  unfolding encode64
  length-encode64 val six =
      let pad = (3 - length val % 3) % 3 in
      length-append (base64_from_binary val) (replicate pad 61)
      ∙ omega (arith, six val, length-replicate {A = ℕ} pad 61)
