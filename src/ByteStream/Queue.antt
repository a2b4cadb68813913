-- ===== src/ByteStream/Queue.antt =====
-- byteStream.hpp against a queue of bytes: what a stream that is made once, written to and read from
-- promises to those who see only its contents.
use mlnsdk.Base.{
  take, ℕ, ◌+◌, ◌≤◌, ◌≡◌, List, [], ◌∷◌, ◌++◌, length, drop, ltb, leb, ◌==◌, if◌then◌else◌,
}
use mlnsdk.Base.Outcome.{Outcome, ok, thrown, fault, ◌>>=◌}
use mlnsdk.ByteStream.{ByteStream, write, read, advance_pos_read}
use mlnsdk.ByteStream.Contents.{IsValid, contents}

-- What a user of a stream does: writes bytes, takes as many as it is done with, or reads some.
pub data Use : Type 0 where
  push : List ℕ → Use
  pop get : ℕ → Use

-- A stream with the bytes that were read from it.
unfoldable pub use_stream : Use → ByteStream × List ℕ → Outcome (ByteStream × List ℕ)
use_stream (push bytes) (s, out) = write s bytes >>= λ t. ok (t, out)
use_stream (pop n) (s, out) = advance_pos_read s n >>= λ t. ok (t, out)
use_stream (get n) (s, out) = read s n >>= λ r. ok (r.1, out ++ r.0)

unfoldable pub use_stream_all : List Use → ByteStream × List ℕ → Outcome (ByteStream × List ℕ)
use_stream_all [] s = ok s
use_stream_all (u ∷ us) s = use_stream u s >>= use_stream_all us

-- The queue: its bytes, how many were taken since it was last emptied by a pop, and those that were
-- read. It holds bytes, and room for those taken, up to a limit, beyond which it says nothing; a pop
-- or a read of too many bytes throws.
pub record Queue : Type 0 where
  pub items : List ℕ
  pub taken : ℕ
  pub given : List ℕ

unfoldable pub use_queue : ℕ → Use → Queue → Outcome Queue
use_queue limit (push bytes) q =
    if leb (q.taken + length q.items + length bytes) limit
    then ok (record q { items = q.items ++ bytes })
    else fault
use_queue limit (pop n) q =
    if ltb (length q.items) n
    then thrown
    else ok (record q {
      items = drop n q.items;
      taken = (if n == length q.items then 0 else q.taken + n);
    })
use_queue limit (get n) q =
    if ltb (length q.items) n
    then thrown
    else ok
        (record { items = drop n q.items; taken = q.taken + n; given = q.given ++ take n q.items })

unfoldable pub use_queue_all : ℕ → List Use → Queue → Outcome Queue
use_queue_all limit [] q = ok q
use_queue_all limit (u ∷ us) q = use_queue limit u q >>= use_queue_all limit us

-- The stream stands for the queue, in a buffer of at least the limit.
pub record IsQueue (limit : ℕ) (s : ByteStream) (out : List ℕ) (q : Queue) : Type 0 where
  pub valid : IsValid s
  pub items : contents s ≡ q.items
  pub taken : s.pos_read ≡ q.taken
  pub given : out ≡ q.given
  pub room : limit ≤ length s.buffer

-- The stream does what the queue says.
abbrev pub Follows : ℕ → Outcome (ByteStream × List ℕ) → Outcome Queue → Type 0
Follows limit r (ok q) =
    (s : ByteStream) × (out : List ℕ) × (r ≡ ok (s, out)) × IsQueue limit s out q
Follows limit r thrown = r ≡ thrown
Follows limit r fault = r ≡ fault

abbrev pub empty_queue : Queue
empty_queue = record { items = []; taken = 0; given = [] }
