-- ===== src/Tests/Streams.antt =====
-- Runs of byteStream.hpp and of protocol.h.
use mlnsdk.Base.{◌≡◌, refl, none, List, [], ◌∷◌, arith}
use mlnsdk.Base.Outcome.{ok, fault}
use mlnsdk.ByteStream.{ByteStream, new_stream, write}
use mlnsdk.ByteStream.Contents.{IsValid}
use mlnsdk.ByteStream.Writing.{write_overruns}
use mlnsdk.ByteStream.Queue.{
  Use, push, pop, get, use_stream_all, use_queue, use_queue_all, Follows, empty_queue,
}
use mlnsdk.ByteStream.Refinement.{stream_refines_queue}

-- Two bytes left to read, and room for one more.
abbrev two : ByteStream
two = record { buffer = 7 ∷ 8 ∷ 9 ∷ 0 ∷ []; pos_read = 1; pos_write = 3; manipulator = none }

two-IsValid : IsValid two
two-IsValid = record { ordered = omega arith; inside = omega arith; bounded = omega arith }

write_overruns_example : write two (5 ∷ 6 ∷ []) ≡ fault
write_overruns_example =
    write_overruns two (5 ∷ 6 ∷ []) two-IsValid (omega arith) (omega arith) (omega arith)

-- Six bytes pass through a buffer of five.
abbrev uses : List Use
uses = push (1 ∷ 2 ∷ 3 ∷ []) ∷ pop 3 ∷ push (4 ∷ 5 ∷ 6 ∷ []) ∷ get 2 ∷ []

queue_runs :
    use_queue_all 5 uses empty_queue ≡ ok (record { items = 6 ∷ []; taken = 2; given = 4 ∷ 5 ∷ [] })
unfolding use_queue_all use_queue
queue_runs = refl

stream_refines_queue_example :
    Follows 5 (use_stream_all uses (new_stream 5, [])) (use_queue_all 5 uses empty_queue)
stream_refines_queue_example = stream_refines_queue 5 uses (omega arith) (λ e. cc (queue_runs))
