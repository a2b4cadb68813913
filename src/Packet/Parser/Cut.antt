-- ===== src/Packet/Parser/Cut.antt =====
-- The packet that the loop of packetParser.hpp cuts off, as a stream of its own.
use mlnsdk.Base.{
  ℕ, ◌^◌, ◌≤◌, ◌<◌, ◌≡◌, refl, ◌∙◌, inl, List, ◌++◌, length, take, drop, arith, ap, length-take,
}
use mlnsdk.Base.Outcome.{Outcome, ok, thrown, fault}
use mlnsdk.ByteStream.{ByteStream, new_stream, default_buffer_size, write}
use mlnsdk.ByteStream.Contents.{
  IsValid, contents, size_lem, length-contents, new_stream-IsValid, contents-new_stream,
  pos_read-new_stream, pos_write-new_stream,
}
use mlnsdk.ByteStream.Writing.{write_appends}
use mlnsdk.ByteStream.Reading.{read_data_lem, advance_pos_read_drops, Stays, advance_pos_read-Stays}
use mlnsdk.Packet.Parser.{cut_packet}

abbrev written_or_new : Outcome ByteStream → ByteStream
written_or_new (ok t) = t
written_or_new thrown = new_stream default_buffer_size
written_or_new fault = new_stream default_buffer_size

-- The stream that a handler is given for the bytes `p`.
pub packet_of : List ℕ → ByteStream
packet_of p = written_or_new (write (new_stream default_buffer_size) p)

pub packet_of_lem :
    (p : List ℕ)
    → length p < 2 ^ 31
    → (write (new_stream default_buffer_size) p ≡ ok (packet_of p))
      × IsValid (packet_of p)
      × (contents (packet_of p) ≡ p)
unfolding packet_of
packet_of_lem p h =
    let n = new_stream default_buffer_size in
    let (t, e, v, c, _, _, _) =
      write_appends n p (new_stream-IsValid default_buffer_size (omega arith))
        (omega (arith, pos_write-new_stream default_buffer_size))
        (inl (pos_read-new_stream default_buffer_size)) in
    rw e (refl, v, c ∙ ap (λ (xs : List ℕ). xs ++ p) (contents-new_stream default_buffer_size))

pub cut_packet_lem :
    (s : ByteStream) (n : ℕ)
    → IsValid s
    → n ≤ length (contents s)
    → (s' : ByteStream) × (cut_packet s n ≡ ok (packet_of (take n (contents s)), s'))
      × IsValid s'
      × (contents s' ≡ drop n (contents s))
      × Stays s s'
unfolding cut_packet
cut_packet_lem s n v h =
    let p = take n (contents s) in
    let (s', e, v', c, _, _) = advance_pos_read_drops s n v h in
    let short : length p < 2 ^ 31 =
      omega (arith, length-take n (contents s), length-contents s v, size_lem s v) in
    (
      s',
      rw (
        read_data_lem s n v (omega (arith, length-contents s v, size_lem s v)),
        (packet_of_lem p short).0,
        e,
      ),
      v',
      c,
      advance_pos_read-Stays s s' n e,
    )
