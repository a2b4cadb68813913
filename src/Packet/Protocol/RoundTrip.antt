-- ===== src/Packet/Protocol/RoundTrip.antt =====
-- The structures of protocol.h are read back from their own bytes.
use mlnsdk.Base.{
  ℕ, ◌+◌, ◌^◌, ◌<◌, ◌≡◌, sym, ap, ◌∙◌, List, ◌++◌, length, take, slice, arith, take-append,
  take_all, append_assoc, append-nil, [], length-append, slice_skip,
}
use mlnsdk.Packet.Protocol.Layout.{le_bytes, le_value, length-le_bytes, le_value-le_bytes}
use mlnsdk.Packet.Protocol.{
  Header, JsonHeader, encode_header, decode_header, encode_json_header, decode_json_header,
  max_url_string,
}

-- The fields fit their types.
pub record FitsHeader (h : Header) : Type 0 where
  pub size_fits : h.size < 2 ^ 32
  pub code_fits : h.code < 2 ^ 32

pub record FitsJsonHeader (p : JsonHeader) : Type 0 where
  pub header_fits : FitsHeader p.header
  pub sequence_fits : p.sequence_no < 2 ^ 32
  pub compressed_fits : p.is_compressed < 2 ^ 8
  pub url_fits : length p.url ≡ max_url_string
  pub body_fits : p.body_size < 2 ^ 16

pub length-encode_header : (h : Header) → length (encode_header h) ≡ 8
unfolding encode_header
length-encode_header h = omega (
  arith,
  length-append (le_bytes 4 h.size) (le_bytes 4 h.code),
  length-le_bytes 4 h.size,
  length-le_bytes 4 h.code,
)

-- A number of `k` bytes in front of others.
read_number : (k v : ℕ) (xs : List ℕ) → v < 256 ^ k → le_value (take k (le_bytes k v ++ xs)) ≡ v
read_number k v xs h =
    ap le_value (take-append (le_bytes k v) xs k (length-le_bytes k v)) ∙ le_value-le_bytes k v h

-- A header in front of other bytes is read back.
pub decode-encode_header :
    (h : Header) (xs : List ℕ) → FitsHeader h → decode_header (encode_header h ++ xs) ≡ h
unfolding decode_header encode_header
decode-encode_header h xs f =
    let size : le_value (take 4 ((le_bytes 4 h.size ++ le_bytes 4 h.code) ++ xs)) ≡ h.size =
      rw (append_assoc (le_bytes 4 h.size) (le_bytes 4 h.code) xs)
        (read_number 4 h.size _ f.size_fits) in
    let code : le_value (slice 4 4 ((le_bytes 4 h.size ++ le_bytes 4 h.code) ++ xs)) ≡ h.code =
      rw (append_assoc (le_bytes 4 h.size) (le_bytes 4 h.code) xs) (
        ap le_value (slice_skip 4 0 4 (le_bytes 4 h.size) _ (length-le_bytes 4 h.size))
        ∙ read_number 4 h.code xs f.code_fits) in
    λ i. record { size = size i; code = code i }

-- What follows each field.
abbrev pub after_compressed : JsonHeader → List ℕ
after_compressed p = p.url ++ le_bytes 2 p.body_size

abbrev pub after_sequence : JsonHeader → List ℕ
after_sequence p = le_bytes 1 p.is_compressed ++ after_compressed p

abbrev pub after_header : JsonHeader → List ℕ
after_header p = le_bytes 4 p.sequence_no ++ after_sequence p

module _ (p : JsonHeader) where
  pub length-encode_json_header : length p.url ≡ max_url_string → length (encode_json_header p) ≡ 47
  unfolding encode_json_header
  length-encode_json_header h = omega (
    arith,
    length-append (encode_header p.header) (after_header p),
    length-append (le_bytes 4 p.sequence_no) (after_sequence p),
    length-append (le_bytes 1 p.is_compressed) (after_compressed p),
    length-append p.url (le_bytes 2 p.body_size),
    length-encode_header p.header,
    length-le_bytes 4 p.sequence_no,
    length-le_bytes 1 p.is_compressed,
    length-le_bytes 2 p.body_size,
  )

  skip_header : (i n : ℕ) → slice (8 + i) n (encode_json_header p) ≡ slice i n (after_header p)
  unfolding encode_json_header
  skip_header i n =
      slice_skip 8 i n (encode_header p.header) (after_header p) (length-encode_header p.header)

  skip_sequence : (i n : ℕ) → slice (4 + i) n (after_header p) ≡ slice i n (after_sequence p)
  skip_sequence i n =
      slice_skip 4 i n (le_bytes 4 p.sequence_no) _ (length-le_bytes 4 p.sequence_no)

  skip_compressed : (i n : ℕ) → slice (1 + i) n (after_sequence p) ≡ slice i n (after_compressed p)
  skip_compressed i n =
      slice_skip 1 i n (le_bytes 1 p.is_compressed) _ (length-le_bytes 1 p.is_compressed)

  module _ (f : FitsJsonHeader p) where
    sequence_read : le_value (slice 8 4 (encode_json_header p)) ≡ p.sequence_no
    sequence_read = ap le_value (skip_header 0 4) ∙ read_number 4 p.sequence_no _ f.sequence_fits

    compressed_read : le_value (slice 12 1 (encode_json_header p)) ≡ p.is_compressed
    compressed_read =
        ap le_value (skip_header 4 1 ∙ skip_sequence 0 1)
        ∙ read_number 1 p.is_compressed _ f.compressed_fits

    url_read : slice 13 max_url_string (encode_json_header p) ≡ p.url
    url_read =
        skip_header 5 32
        ∙ skip_sequence 1 32
        ∙ skip_compressed 0 32
        ∙ take-append p.url _ 32 f.url_fits

    body_size_read : le_value (slice 45 2 (encode_json_header p)) ≡ p.body_size
    body_size_read =
        ap le_value (
          skip_header 37 2
          ∙ skip_sequence 33 2
          ∙ skip_compressed 32 2
          ∙ slice_skip 32 0 2 p.url _ f.url_fits
          ∙ take_all (le_bytes 2 p.body_size) 2 (omega (arith, length-le_bytes 2 p.body_size)))
        ∙ le_value-le_bytes 2 p.body_size f.body_fits

    header_read : decode_header (take 8 (encode_json_header p)) ≡ p.header
    unfolding encode_json_header
    header_read =
        ap decode_header (
          take-append (encode_header p.header) _ 8 (length-encode_header p.header)
          ∙ sym (append-nil (encode_header p.header)))
        ∙ decode-encode_header p.header [] f.header_fits

    -- A PT_JSON header whose numbers fit their fields and whose URL has 32 bytes is read back,
    -- field by field, from the 47 bytes it is written as.
    pub decode-encode_json_header : decode_json_header (encode_json_header p) ≡ p
    unfolding decode_json_header
    decode-encode_json_header = λ i. record {
      header = header_read i;
      sequence_no = sequence_read i;
      is_compressed = compressed_read i;
      url = url_read i;
      body_size = body_size_read i;
    }
