-- ===== src/ByteStream.antt =====
-- include/net/byteStream.hpp: a byte vector with a read and a write position.
-- `memcpy` outside the vector is `fault`; `throw std::runtime_error` is `thrown`.
-- A vector's capacity is its size: it is made with a size, and grows by `reserve` and `resize` to
-- one same number.
pub mod Contents
pub mod Writing
pub mod Reading
pub mod Queue
pub mod Refinement
use mlnsdk.Base.{
  ℕ, ◌+◌, ◌-◌, ◌*◌, Bool, Option, none, some, List, ◌++◌, ltb, leb, ◌==◌, if◌then◌else◌, length,
  take, drop, replicate, slice, overwrite, to_int32, to_uint64, int32_to_size, sub_int32,
  sub_uint64,
}
use mlnsdk.Base.Outcome.{Outcome, ok, thrown, fault, ◌>>=◌, or_fault}

-- `PacketManipulator`. `write_header_size` is given the stream's size and the memory from the read
-- position on; `none` if it writes past the end of that.
pub record PacketManipulator : Type 0 where
  pub get_header_size : ℕ
  pub write_header_size : ℕ → List ℕ → Option (List ℕ)

-- The positions are `int32_t`, kept as bit patterns.
pub record ByteStream : Type 0 where
  pub pos_read : ℕ
  pub pos_write : ℕ
  pub buffer : List ℕ
  pub manipulator : Option PacketManipulator

abbrev pub default_buffer_size : ℕ
default_buffer_size = 8192

-- `ByteStream(bufferSize)`
unfoldable pub new_stream : ℕ → ByteStream
new_stream buffer_size = record {
  pos_read = 0;
  pos_write = 0;
  buffer = replicate buffer_size 0;
  manipulator = none;
}

unfoldable pub clear : ByteStream → ByteStream
clear s = record s { pos_read = 0; pos_write = 0 }

unfoldable pub size : ByteStream → ℕ
size s = int32_to_size (sub_int32 s.pos_write s.pos_read)

-- The `n` bytes at `data()`.
unfoldable pub read_data : ByteStream → ℕ → Outcome (List ℕ)
read_data s n =
    if leb (s.pos_read + n) (length s.buffer) then ok (slice s.pos_read n s.buffer) else fault

unfoldable pub try_read : ByteStream → ℕ → Outcome (Option (List ℕ))
try_read s bytes = if ltb (size s) bytes then ok none else (read_data s bytes >>= λ b. ok (some b))

unfoldable pub capacity : ByteStream → ℕ
capacity s = sub_uint64 (length s.buffer) (int32_to_size s.pos_write)

unfoldable pub available : ByteStream → ℕ
available s = capacity s

-- `memmove` to the front.
unfoldable pub rearrange : ByteStream → Outcome ByteStream
rearrange s = if s.pos_read == s.pos_write then ok (clear s) else do
  let count = size s
  bytes ← read_data s count
  buffer ← or_fault (overwrite 0 bytes s.buffer)
  ok (record s { pos_read = 0; pos_write = to_int32 count; buffer = buffer })

-- `available() < capacity() * 0.7f`, in tenths.
unfoldable pub check_advance_read_buffer : ByteStream → ℕ → Outcome ByteStream
check_advance_read_buffer s bytes =
    if ltb (size s) bytes
    then thrown
    else (if ltb (10 * available s) (7 * capacity s) then rearrange s else ok s)

unfoldable pub check_advance_write_buffer : ByteStream → ℕ → ByteStream
check_advance_write_buffer s bytes =
    let next = to_uint64 (size s + bytes) in
    if ltb (length s.buffer) next
    then record s { buffer = s.buffer ++ replicate (next - length s.buffer) 0 }
    else s

-- `write(src, bytes)`, where `src` holds `bytes` bytes.
unfoldable pub write : ByteStream → List ℕ → Outcome ByteStream
write s src = do
  let s' = check_advance_write_buffer s (length src)
  buffer ← or_fault (overwrite s'.pos_write src s'.buffer)
  ok (record s' { buffer = buffer; pos_write = to_int32 (s'.pos_write + length src) })

unfoldable pub advance_pos_write : ByteStream → ℕ → ByteStream
advance_pos_write s bytes =
    let s' = check_advance_write_buffer s bytes in
    record s' { pos_write = to_int32 (s'.pos_write + bytes) }

unfoldable pub read : ByteStream → ℕ → Outcome (List ℕ × ByteStream)
read s bytes = do
  s' ← check_advance_read_buffer s bytes
  dst ← read_data s' bytes
  ok (dst, record s' { pos_read = to_int32 (s'.pos_read + bytes) })

unfoldable pub advance_pos_read : ByteStream → ℕ → Outcome ByteStream
advance_pos_read s bytes = do
  s' ← check_advance_read_buffer s bytes
  let next = to_int32 (s'.pos_read + bytes)
  let moved = record s' { pos_read = next }
  ok (if next == s'.pos_write then clear moved else moved)

-- `setManipulator`
unfoldable pub set_manipulator : Option PacketManipulator → ByteStream → ByteStream
set_manipulator manip s = record s { manipulator = manip }

-- `setHeaderSize`: the manipulator, if there is one, writes at the read position.
unfoldable pub put_header : Option PacketManipulator → ByteStream → Outcome ByteStream
put_header none s = ok s
put_header (some m) s = do
  rest ← or_fault (m.write_header_size (size s) (drop s.pos_read s.buffer))
  ok (record s { buffer = take s.pos_read s.buffer ++ rest })

unfoldable pub set_header_size : ByteStream → Outcome ByteStream
set_header_size s = put_header s.manipulator s

-- `ByteStream(packetManip, preWriteAsHeaderSize)`
unfoldable pub new_packet_stream : Option PacketManipulator → Bool → Outcome ByteStream
new_packet_stream m pre_write =
    let s = record (new_stream default_buffer_size) { manipulator = m } in
    if pre_write
    then elim m [ none ↦ fault | some p ↦ ok (advance_pos_write s p.get_header_size) ]
    else ok s
