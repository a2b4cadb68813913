-- ===== src/User/Wire.antt =====
-- The bytes that `sendJsonPacket` of userBase.hpp puts on the wire.
use mlnsdk.Base.{
  ℕ, ◌+◌, ◌-◌, ◌^◌, ◌≤◌, ◌<◌, ◌≡◌, sym, ap, ap₂, ◌∙◌, inl, false, Option, some, List, ◌++◌, length,
  take, drop, written, arith, length-append, le→leb, take_all, drop-append, length-take,
  length-drop, length-written, to_int32, drop-take, take_beyond,
}
use mlnsdk.Base.Outcome.{ok}
use mlnsdk.ByteStream.{
  ByteStream, PacketManipulator, default_buffer_size, new_stream, new_packet_stream,
  set_header_size, put_header, size,
}
use mlnsdk.ByteStream.Contents.{
  IsValid, contents, size_lem, length-contents, new_stream-IsValid, contents-new_stream,
  pos_read-new_stream, pos_write-new_stream,
}
use mlnsdk.ByteStream.Writing.{write_appends}
use mlnsdk.ByteStream.Reading.{read_data_lem}
use mlnsdk.Packet.Protocol.{
  Header, encode_header, json_value, set_packet_header, json_manipulator, le_bytes, length-le_bytes,
}
use mlnsdk.Session.{Session, emit, async_write, write_out, send, send_byte_stream}

-- `setHeaderSize` with the library's manipulator: the first eight bytes become the header.
abbrev pub headed : List ℕ → List ℕ
headed bs = encode_header (record { size = length bs; code = json_value }) ++ drop 8 bs

pub length-encode_header : (h : Header) → length (encode_header h) ≡ 8
unfolding encode_header
length-encode_header h = omega (
  arith,
  length-append (le_bytes 4 h.size) (le_bytes 4 h.code),
  length-le_bytes 4 h.size,
  length-le_bytes 4 h.code,
)

-- The vector after the header was written at the read position.
abbrev with_header : ByteStream → List ℕ
with_header b =
    take b.pos_read b.buffer
    ++ written 0 (encode_header (record { size = to_int32 (size b); code = json_value }))
        (drop b.pos_read b.buffer)

module _ (b : ByteStream) (v : IsValid b) (long : 8 ≤ length (contents b)) where
  header_fits : (h : Header) → 0 + length (encode_header h) ≤ length (drop b.pos_read b.buffer)
  header_fits h = omega (
    arith,
    length-encode_header h,
    length-contents b v,
    size_lem b v,
    length-drop b.pos_read b.buffer,
  )

  length-with_header : length (with_header b) ≡ length b.buffer
  length-with_header =
      let h : Header = record { size = to_int32 (size b); code = json_value } in
      let rest = drop b.pos_read b.buffer in
      omega (
        arith,
        length-append (take b.pos_read b.buffer) (written 0 (encode_header h) rest),
        length-take b.pos_read b.buffer,
        length-written 0 (encode_header h) rest (header_fits h),
        length-drop b.pos_read b.buffer,
      )

  contents-with_header : contents (record b { buffer = with_header b }) ≡ headed (contents b)
  contents-with_header =
      let h : Header = record { size = to_int32 (size b); code = json_value } in
      let hdr = encode_header h in
      let n = b.pos_write - b.pos_read - 8 in
      let rest = drop b.pos_read b.buffer in
      let k : length (contents b) ≡ b.pos_write - b.pos_read = length-contents b v ∙ size_lem b v in
      let same : to_int32 (size b) ≡ length (contents b) =
        omega (arith, length-contents b v, size_lem b v) in
      let eight : 0 + length hdr ≡ 8 = omega (arith, length-encode_header h) in
      let len : length rest ≡ length b.buffer - b.pos_read = length-drop b.pos_read b.buffer in
      let count : b.pos_write - b.pos_read ≡ length hdr + n = omega arith in
      let whole : b.pos_write - b.pos_read ≡ 8 + n = omega arith in
      let at : length (take b.pos_read b.buffer) ≡ b.pos_read =
        omega (arith, length-take b.pos_read b.buffer) in
      let body : take n (drop (0 + length hdr) rest) ≡ drop 8 (contents b) =
        ap (λ (m : ℕ). take n (drop m rest)) eight
        ∙ sym (drop-take 8 n rest (omega arith))
        ∙ ap (λ (m : ℕ). drop 8 (take m rest)) (sym whole) in
      ap (take (b.pos_write - b.pos_read)) (drop-append (take b.pos_read b.buffer) _ b.pos_read at)
      ∙ ap (λ (m : ℕ). take m (hdr ++ drop (0 + length hdr) rest)) count
      ∙ take_beyond hdr _ n
      ∙ ap₂ (λ (m : ℕ) (ys : List ℕ). encode_header (record { size = m; code = json_value }) ++ ys)
          same body

set_header_size_lem :
    (b : ByteStream)
    → IsValid b
    → b.manipulator ≡ some json_manipulator
    → 8 ≤ length (contents b)
    → (b' : ByteStream) × (set_header_size b ≡ ok b')
      × IsValid b'
      × (contents b' ≡ headed (contents b))
unfolding set_header_size put_header json_manipulator set_packet_header
set_header_size_lem b v m long = (
  record b { buffer = with_header b },
  ap (λ (o : Option PacketManipulator). put_header o b) m
      ∙ rw (
          le→leb _ _
            (header_fits b v long (record { size = to_int32 (size b); code = json_value }))),
  record {
    ordered = v.ordered;
    inside = omega (arith, length-with_header b v long);
    bounded = omega (arith, length-with_header b v long);
  },
  contents-with_header b v long,
)

write_out_lem :
    (b : ByteStream) (s : Session)
    → IsValid b
    → write_out b s ≡ ok (emit (async_write (contents b)) s)
unfolding write_out
write_out_lem b s v = rw (
  read_data_lem b (size b) v (omega (arith, size_lem b v)),
  take_all (contents b) (size b) (omega (arith, length-contents b v)),
)

-- The new stream that `sendByteStream` fills.
abbrev fresh : Option PacketManipulator → ByteStream
fresh m = record (new_stream default_buffer_size) { manipulator = m }

fresh-IsValid : (m : Option PacketManipulator) → IsValid (fresh m)
fresh-IsValid m =
    let v = new_stream-IsValid default_buffer_size (omega arith) in
    record { ordered = v.ordered; inside = v.inside; bounded = v.bounded }

-- A session with the library's manipulator puts its header over the first eight bytes.
pub send_byte_stream_lem :
    (s : Session) (bytes : List ℕ)
    → s.packet_manipulator ≡ some json_manipulator
    → 8 ≤ length bytes
    → length bytes < 2 ^ 31
    → send_byte_stream bytes false s ≡ ok (emit (async_write (headed bytes)) s)
unfolding send_byte_stream new_packet_stream send
send_byte_stream_lem s bytes m long short =
    let f = fresh s.packet_manipulator in
    let (b, e, v, c, _, _, mb) =
      write_appends f bytes (fresh-IsValid s.packet_manipulator)
        (omega (arith, pos_write-new_stream default_buffer_size))
        (inl (pos_read-new_stream default_buffer_size)) in
    let c' : contents b ≡ bytes =
      c ∙ ap (λ (xs : List ℕ). xs ++ bytes) (contents-new_stream default_buffer_size) in
    let (b', e', v', c'') = set_header_size_lem b v (mb ∙ m) (rw c' long) in
    rw e (
      rw e' (
        write_out_lem b' s v'
        ∙ ap (λ (xs : List ℕ). ok (emit (async_write xs) s)) (c'' ∙ ap headed c')))
