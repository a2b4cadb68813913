-- ===== src/Tests/Procedures.antt =====
-- Runs of packetProcedure.hpp.
use mlnsdk.Base.{
  ℕ, ◌≡◌, refl, Bool, true, false, Option, none, some, List, [], ◌∷◌, ◌++◌, ◌==◌, if◌then◌else◌,
  inl, length, take, drop, replicate, arith,
}
use mlnsdk.Base.Outcome.{ok}
use mlnsdk.ByteStream.{ByteStream}
use mlnsdk.ByteStream.Contents.{IsValid, contents}
use mlnsdk.Packet.Parser.{Handler, returned}
use mlnsdk.Packet.Parser.Framing.{IsPacket}
use mlnsdk.Procedure.{dispatch}
use mlnsdk.Procedure.Registering.{
  Registration, function, member, functions, service, first_functions_called,
}
use mlnsdk.Packet.Parser.Cut.{packet_of}
use mlnsdk.Packet.Parser.Steps.{front}
use mlnsdk.Procedure.Written.{writes, sending}
use mlnsdk.Procedure.Pieces.{listening, rounds, AreReplying, serve, pieces_served}
use mlnsdk.Session.Events.{run}
use mlnsdk.Session.Types.{Session, tcp, async_write}
use mlnsdk.Session.{create, start_accept, dec_read_handler_pending}

-- Handlers that leave the size, or 1, as the session's user.
abbrev sized : Handler Session
sized s n b = (record s { user = some n }, b, true)

abbrev marking : Handler Session
marking s n b = (record s { user = some 1 }, b, true)

abbrev registered : List Registration
registered = member 2 marking ∷ function 2 sized ∷ function 2 marking ∷ []

abbrev packet : List ℕ
packet = 9 ∷ 0 ∷ 0 ∷ 0 ∷ 2 ∷ 0 ∷ 0 ∷ 0 ∷ 77 ∷ []

packet-IsPacket : IsPacket (functions registered) packet
unfolding mlnsdk.Packet.Protocol.decode_header mlnsdk.Packet.Protocol.le_value
packet-IsPacket = record {
  long = omega arith;
  small = omega arith;
  sized = refl;
  handler = sized;
  known = refl;
}

-- The packet and the start of another.
abbrev received_bytes : ByteStream
received_bytes = record {
  buffer = packet ++ 9 ∷ [];
  pos_read = 0;
  pos_write = 10;
  manipulator = none;
}

abbrev peer : Session
peer = start_accept (create tcp none true 1 0)

abbrev ignoring : Session → ByteStream → Session × ByteStream
ignoring s b = (s, b)

first_functions_called_example :
    (b' : ByteStream) × (dispatch (service ignoring 2 none registered) peer received_bytes ≡ (
      dec_read_handler_pending (record peer { user = some 9; recv_stream = some b' }),
      returned true,
    ))
    × IsValid b'
    × (contents b' ≡ 9 ∷ [])
unfolding create start_accept mlnsdk.Packet.Protocol.decode_header mlnsdk.Packet.Protocol.le_value
first_functions_called_example =
    first_functions_called ignoring 2 none registered (packet ∷ []) (9 ∷ []) peer received_bytes
      refl refl (record { ordered = omega arith; inside = omega arith; bounded = omega arith }) refl
      (packet-IsPacket, tt) (inl (omega arith)) (omega arith)

-- A handler that answers 7 and leaves the size as the session's user.
abbrev echoing : Handler Session
echoing s n b = (record s { user = some n; log = async_write (7 ∷ []) ∷ s.log }, b, true)

abbrev answering : List Registration
answering = function 2 echoing ∷ []

abbrev is_two : List ℕ → Bool
is_two p = 2 == (front p).code

abbrev size_of : Option ℕ → List ℕ → Option ℕ
size_of u p = if is_two p then some (length p) else u

abbrev seven : Option ℕ → List ℕ → List (List ℕ)
seven u p = if is_two p then (7 ∷ []) ∷ [] else []

answering-AreReplying : AreReplying size_of seven ignoring 3 none answering
answering-AreReplying s p t =
    elim (is_two p)
      as (λ x.
        (elim (if x then some echoing else none) [
          | some handler ↦ (handler s (length p) (packet_of p)).0
          | none ↦ s
        ])
        ≡ record s {
          user = if x then some (length p) else s.user;
          log = sending (if x then (7 ∷ []) ∷ [] else []) s.log;
        }) [ true ↦ refl | false ↦ refl ]

answered-IsPacket : IsPacket (functions answering) packet
unfolding mlnsdk.Packet.Protocol.decode_header mlnsdk.Packet.Protocol.le_value
answered-IsPacket = record {
  long = omega arith;
  small = omega arith;
  sized = refl;
  handler = echoing;
  known = refl;
}

-- Two packets and the start of another, in three pieces.
abbrev pieces : List (List ℕ)
pieces = take 5 packet ∷ (drop 5 packet ++ take 8 packet) ∷ (drop 8 packet ++ 9 ∷ []) ∷ []

abbrev room : ByteStream
room = record { buffer = replicate 20 0; pos_read = 0; pos_write = 0; manipulator = none }

room-IsValid : IsValid room
room-IsValid = record { ordered = omega arith; inside = omega arith; bounded = omega arith }

pieces_served_example :
    (t : Session) × (b' : ByteStream) × (run
        (serve size_of seven ignoring 3 none answering)
        (rounds pieces)
        (listening peer room)
      ≡ ok (listening t b'))
    × IsValid b'
    × (contents b' ≡ 9 ∷ [])
    × (t.user ≡ some 9)
    × (writes t.log ≡ (7 ∷ []) ∷ (7 ∷ []) ∷ [])
unfolding create start_accept mlnsdk.Packet.Protocol.decode_header mlnsdk.Packet.Protocol.le_value
pieces_served_example =
    pieces_served size_of seven ignoring 3 none answering pieces (packet ∷ packet ∷ []) [] (9 ∷ [])
      peer room answering-AreReplying room-IsValid refl (inl (omega arith)) (omega arith) refl
      (answered-IsPacket, (answered-IsPacket, tt)) (inl (omega arith)) (omega arith)
