-- ===== src/ByteStream/Refinement.antt =====
-- byteStream.hpp does what the queue of bytes says.
use native.Mathlib.Decide.{dec_lt, dec_le}
use mlnsdk.Base.{
  ap₂, take, length-replicate, ℕ, ◌+◌, ◌-◌, ◌^◌, ◌≤◌, ◌<◌, ◌≡◌, ◌≢◌, refl, sym, ap, ◌∙◌, inr, List,
  [], ◌∷◌, ◌++◌, length, drop, arith, le→leb, lt→leb, lt→ltb, le→ltb,
}
use mlnsdk.Base.Outcome.{Outcome, ok, thrown, fault, ◌>>=◌}
use mlnsdk.ByteStream.{ByteStream, new_stream}
use mlnsdk.ByteStream.Contents.{
  contents, size_lem, length-contents, new_stream-IsValid, contents-new_stream, pos_read-new_stream,
}
use mlnsdk.ByteStream.Writing.{HasRoom, write_appends, write-longer}
use mlnsdk.ByteStream.Reading.{
  advance_pos_read_drops, advance_pos_read_throws, read_takes, read_throws,
}
use mlnsdk.ByteStream.Queue.{
  Use, push, pop, get, use_stream, use_stream_all, Queue, use_queue, use_queue_all, IsQueue,
  Follows, empty_queue,
}

module _ (limit : ℕ) (small : limit < 2 ^ 31) where
  push-Follows :
      (bytes : List ℕ) (s : ByteStream) (out : List ℕ) (q : Queue)
      → IsQueue limit s out q
      → use_queue limit (push bytes) q ≢ fault
      → Follows limit (use_stream (push bytes) (s, out)) (use_queue limit (push bytes) q)
  unfolding use_stream use_queue
  push-Follows bytes s out q i h = elim (dec_le (q.taken + length q.items + length bytes) limit) [
    | no over ↦
        absurd (h (rw (lt→leb (q.taken + length q.items + length bytes) limit (omega arith)) refl))
    | yes fits ↦
        let count : length q.items ≡ s.pos_write - s.pos_read =
          ap length (sym i.items) ∙ length-contents s i.valid ∙ size_lem s i.valid in
        let room : HasRoom s (length bytes) = inr (omega arith) in
        let (t, wrote, valid, items, from, to, manipulator) =
          write_appends s bytes i.valid (omega arith) room in
        rw (le→leb (q.taken + length q.items + length bytes) limit fits) (
          t,
          out,
          rw wrote refl,
          record {
            valid = valid;
            items = items ∙ ap (λ xs. xs ++ bytes) i.items;
            taken = from ∙ i.taken;
            given = i.given;
            room = omega (arith, write-longer s t bytes i.valid (omega arith) room wrote);
          },
        )
  ]

  pop-Follows :
      (n : ℕ) (s : ByteStream) (out : List ℕ) (q : Queue)
      → IsQueue limit s out q
      → Follows limit (use_stream (pop n) (s, out)) (use_queue limit (pop n) q)
  unfolding use_stream use_queue
  pop-Follows n s out q i = elim (dec_lt (length q.items) n) [
    | yes few ↦
        rw (lt→ltb (length q.items) n few)
          (rw (advance_pos_read_throws s n i.valid (rw i.items few)) refl)
    | no enough ↦
        let (t, moved, valid, items, from, same) =
          advance_pos_read_drops s n i.valid (rw i.items (omega arith)) in
        rw (le→ltb (length q.items) n (omega arith)) (
          t,
          out,
          rw moved refl,
          record {
            valid = valid;
            items = items ∙ ap (drop n) i.items;
            taken = from ∙ rw (i.items, i.taken) refl;
            given = i.given;
            room = omega arith;
          },
        )
  ]

  get-Follows :
      (n : ℕ) (s : ByteStream) (out : List ℕ) (q : Queue)
      → IsQueue limit s out q
      → Follows limit (use_stream (get n) (s, out)) (use_queue limit (get n) q)
  unfolding use_stream use_queue
  get-Follows n s out q i = elim (dec_lt (length q.items) n) [
    | yes few ↦
        rw (lt→ltb (length q.items) n few) (rw (read_throws s n i.valid (rw i.items few)) refl)
    | no enough ↦
        let (t, got, valid, items, from, same) =
          read_takes s n i.valid (rw i.items (omega arith)) in
        rw (le→ltb (length q.items) n (omega arith)) (
          t,
          out ++ take n (contents s),
          rw got refl,
          record {
            valid = valid;
            items = items ∙ ap (drop n) i.items;
            taken = from ∙ rw i.taken refl;
            given = ap₂ (λ a b. a ++ take n b) i.given i.items;
            room = omega arith;
          },
        )
  ]

  use-Follows :
      (u : Use) (s : ByteStream) (out : List ℕ) (q : Queue)
      → IsQueue limit s out q
      → use_queue limit u q ≢ fault
      → Follows limit (use_stream u (s, out)) (use_queue limit u q)
  use-Follows (push bytes) s out q i h = push-Follows bytes s out q i h
  use-Follows (pop n) s out q i h = pop-Follows n s out q i
  use-Follows (get n) s out q i h = get-Follows n s out q i

  before-fault :
      (o : Outcome Queue) (us : List Use) → (o >>= use_queue_all limit us) ≢ fault → o ≢ fault
  before-fault (ok q) us h e = cc
  before-fault thrown us h e = cc
  before-fault fault us h e = h refl

  -- A use goes on as the queue does, if the uses after it do.
  rest-Follows :
      (r : Outcome (ByteStream × List ℕ)) (o : Outcome Queue) (us : List Use)
      → ((s : ByteStream) (out : List ℕ) (q : Queue)
          → IsQueue limit s out q
          → use_queue_all limit us q ≢ fault
          → Follows limit (use_stream_all us (s, out)) (use_queue_all limit us q))
      → Follows limit r o
      → (o >>= use_queue_all limit us) ≢ fault
      → Follows limit (r >>= use_stream_all us) (o >>= use_queue_all limit us)
  rest-Follows r (ok q) us later (s, out, e, i) h = rw e (later s out q i h)
  rest-Follows r thrown us later e h = rw e refl
  rest-Follows r fault us later e h = rw e refl

  use_all-Follows :
      (us : List Use) (s : ByteStream) (out : List ℕ) (q : Queue)
      → IsQueue limit s out q
      → use_queue_all limit us q ≢ fault
      → Follows limit (use_stream_all us (s, out)) (use_queue_all limit us q)
  unfolding use_stream_all use_queue_all
  use_all-Follows [] s out q i h = (s, out, refl, i)
  use_all-Follows (u ∷ us) s out q i h =
      rest-Follows (use_stream u (s, out)) (use_queue limit u q) us
        (λ s' out' q' i' h'. use_all-Follows us s' out' q' i' h')
        (use-Follows u s out q i (before-fault (use_queue limit u q) us h)) h

room-new_stream : (n : ℕ) → n ≤ length (new_stream n).buffer
unfolding new_stream
room-new_stream n = omega (arith, length-replicate {A = ℕ} n 0)

-- Whatever is written to a new stream, read from it by read and taken from it by advancePosRead,
-- as long as what is taken since it was last emptied by advancePosRead and what is held stay
-- within the bytes of its buffer (fewer than 2 ^ 31): the stream throws exactly where the queue
-- does, and else gives the bytes that the queue gives and ends valid with the queue's bytes as its
-- contents and the queue's count of taken bytes as its read position.
pub stream_refines_queue :
    (n : ℕ) (us : List Use)
    → n < 2 ^ 31
    → use_queue_all n us empty_queue ≢ fault
    → Follows n (use_stream_all us (new_stream n, [])) (use_queue_all n us empty_queue)
stream_refines_queue n us small h =
    use_all-Follows n small us (new_stream n) [] empty_queue
      (record {
        valid = new_stream-IsValid n small;
        items = contents-new_stream n;
        taken = pos_read-new_stream n;
        given = refl;
        room = room-new_stream n;
      })
      h
