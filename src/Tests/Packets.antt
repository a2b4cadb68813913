-- ===== src/Tests/Packets.antt =====
-- Runs of packetParser.hpp and of the JSON messages.
use mlnsdk.Base.{
  ℕ, ◌≡◌, ◌≢◌, refl, Bool, true, false, Option, none, some, List, [], ◌∷◌, ◌++◌, inl, length, take,
  drop, replicate, arith,
}
use mlnsdk.Base.Outcome.{ok}
use mlnsdk.ByteStream.{ByteStream}
use mlnsdk.ByteStream.Contents.{IsValid, contents}
use mlnsdk.Packet.Protocol.{json_manipulator, json_value, json_header_size}
use mlnsdk.Packet.Parser.{Handler, PacketMap, returned, running, parse_tcp}
use mlnsdk.Packet.Parser.Framing.{parse_packets, IsPacket}
use mlnsdk.Packet.Parser.Chunks.{feed, fed_whole}
use mlnsdk.Packet.Parser.Progress.{short, next, parse_ends, parse_spins}
use mlnsdk.Packet.Json.{JsonHandler, json_dispatch, read_json_packet, returning}
use mlnsdk.Packet.Json.Delivery.{IsSendable, json_wire}
use mlnsdk.Packet.Json.EndToEnd.{Message, IsMessage, IsRegistered, messages_delivered}
use mlnsdk.Session.Types.{Session, tcp, async_write}
use mlnsdk.Session.{create}

abbrev stream_of : List ℕ → ByteStream
stream_of bs = record { buffer = bs; pos_read = 0; pos_write = length bs; manipulator = none }

-- A packet of nine bytes with the code 2, and one of eight.
abbrev nine : List ℕ
nine = 9 ∷ 0 ∷ 0 ∷ 0 ∷ 2 ∷ 0 ∷ 0 ∷ 0 ∷ 77 ∷ []

abbrev eight : List ℕ
eight = 8 ∷ 0 ∷ 0 ∷ 0 ∷ 2 ∷ 0 ∷ 0 ∷ 0 ∷ []

-- A handler that notes the sizes.
abbrev noting : Handler (List ℕ)
noting w n b = (n ∷ w, b, true)

abbrev by_code : PacketMap (List ℕ)
by_code = (2, noting) ∷ []

abbrev ignoring : {W : Type 0} → W → ByteStream → W × ByteStream
ignoring w b = (w, b)

nine-IsPacket : IsPacket by_code nine
unfolding mlnsdk.Packet.Protocol.decode_header mlnsdk.Packet.Protocol.le_value
nine-IsPacket = record {
  long = omega arith;
  small = omega arith;
  sized = refl;
  handler = noting;
  known = refl;
}

eight-IsPacket : IsPacket by_code eight
unfolding mlnsdk.Packet.Protocol.decode_header mlnsdk.Packet.Protocol.le_value
eight-IsPacket = record {
  long = omega arith;
  small = omega arith;
  sized = refl;
  handler = noting;
  known = refl;
}

-- Two packets and the start of a third.
abbrev arrived : ByteStream
arrived = stream_of (nine ++ eight ++ 9 ∷ 0 ∷ [])

arrived-IsValid : IsValid arrived
arrived-IsValid = record { ordered = omega arith; inside = omega arith; bounded = omega arith }

parse_packets_example :
    (t : ByteStream) × (parse_tcp ignoring by_code 3 [] arrived
      ≡ record { world = 8 ∷ 9 ∷ []; stream = t; ending = returned true })
    × IsValid t
    × (contents t ≡ 9 ∷ 0 ∷ [])
unfolding mlnsdk.Packet.Protocol.decode_header mlnsdk.Packet.Protocol.le_value
parse_packets_example =
    parse_packets ignoring by_code (nine ∷ eight ∷ []) (9 ∷ 0 ∷ []) 3 [] arrived arrived-IsValid
      refl (nine-IsPacket, (eight-IsPacket, tt)) (inl (omega arith)) (omega arith)

-- The same bytes in four pieces, one of them empty.
abbrev pieces : List (List ℕ)
pieces = take 4 nine ∷ (drop 4 nine ++ take 2 eight) ∷ [] ∷ (drop 2 eight ++ 9 ∷ 0 ∷ []) ∷ []

abbrev waiting : ByteStream
waiting = record { buffer = replicate 20 0; pos_read = 0; pos_write = 0; manipulator = none }

waiting-IsValid : IsValid waiting
waiting-IsValid = record { ordered = omega arith; inside = omega arith; bounded = omega arith }

fed_whole_example :
    (t : ByteStream) × (feed ignoring by_code 3 [] waiting pieces ≡ ok (8 ∷ 9 ∷ [], t))
    × IsValid t
    × (contents t ≡ 9 ∷ 0 ∷ [])
unfolding mlnsdk.Packet.Protocol.decode_header mlnsdk.Packet.Protocol.le_value
fed_whole_example =
    fed_whole ignoring by_code 3 pieces (nine ∷ eight ∷ []) [] (9 ∷ 0 ∷ []) [] waiting
      waiting-IsValid refl (inl (omega arith)) (omega arith) refl
      (nine-IsPacket, (eight-IsPacket, tt)) (inl (omega arith)) (omega arith)

parse_ends_example : (parse_tcp ignoring by_code 20 [] arrived).ending ≢ running
unfolding mlnsdk.Packet.Protocol.decode_header mlnsdk.Packet.Protocol.le_value
parse_ends_example =
    parse_ends ignoring by_code 20 [] arrived arrived-IsValid
      (next (contents arrived) (omega arith)
        (next (eight ++ 9 ∷ 0 ∷ []) (omega arith) (short (9 ∷ 0 ∷ []) (omega arith))))
      (omega arith)

-- A packet that states the size 0.
abbrev endless : ByteStream
endless = stream_of (0 ∷ 0 ∷ 0 ∷ 0 ∷ 2 ∷ 0 ∷ 0 ∷ 0 ∷ [])

parse_spins_example : (parse_tcp ignoring by_code 1000000 [] endless).ending ≡ running
unfolding mlnsdk.Packet.Protocol.decode_header mlnsdk.Packet.Protocol.le_value
parse_spins_example =
    parse_spins ignoring by_code 1000000 [] endless noting
      (record { ordered = omega arith; inside = omega arith; bounded = omega arith }) (omega arith)
      refl refl

-- A JSON library whose value is the length of the body.
abbrev measure : List ℕ → Bool → Option (ℕ × List ℕ)
measure body get_url = some (length body, [])

-- The URL "/a" and the body "{}".
abbrev url : List ℕ
url = 47 ∷ 97 ∷ []

abbrev body : List ℕ
body = 123 ∷ 125 ∷ []

-- A handler that sends the value.
abbrev remember : JsonHandler ℕ
remember user path value s = (record s { log = async_write (value ∷ []) ∷ s.log }, false)

abbrev urls : List (List ℕ × JsonHandler ℕ)
urls = (url, remember) ∷ []

abbrev peer : Session
peer = record (create tcp (some json_manipulator) true 1 0) { user = some 5 }

url-IsSendable : IsSendable url body
url-IsSendable = record {
  url_fits = omega arith;
  url_text = ((λ e. absurd (omega (arith, e))), ((λ e. absurd (omega (arith, e))), tt));
  body_fits = omega arith;
  body_nonempty = omega arith;
}

abbrev message : Message ℕ
message = record { url = url; body = body; value = 2 }

abbrev bound : PacketMap Session
bound = (1, returning (read_json_packet measure [] urls)) ∷ []

abbrev incoming : ByteStream
incoming = stream_of (json_wire url body ++ json_wire url body ++ 49 ∷ [])

message-IsRegistered : IsRegistered measure [] urls 5 message
unfolding mlnsdk.Text.find_text mlnsdk.Text.text_eq
message-IsRegistered = record { handler = remember; known = refl; same_user = λ s. refl }

incoming-IsValid : IsValid incoming
unfolding mlnsdk.Packet.Protocol.encode_json_header mlnsdk.Packet.Protocol.encode_header
    mlnsdk.Packet.Protocol.le_bytes
incoming-IsValid = record { ordered = omega arith; inside = omega arith; bounded = omega arith }

message-IsMessage : IsMessage measure [] urls message
message-IsMessage = record { sendable = url-IsSendable; ignored = []; parsed = refl }

messages_delivered_example :
    (t : ByteStream) × (parse_tcp ignoring bound 3 peer incoming ≡ record {
      world = record peer { log = async_write (2 ∷ []) ∷ async_write (2 ∷ []) ∷ peer.log };
      stream = t;
      ending = returned true;
    })
    × IsValid t
    × (contents t ≡ 49 ∷ [])
unfolding mlnsdk.Packet.Protocol.encode_json_header mlnsdk.Packet.Protocol.encode_header
    mlnsdk.Packet.Protocol.le_bytes message-IsRegistered json_dispatch mlnsdk.Text.find_text
    mlnsdk.Text.text_eq
messages_delivered_example =
    messages_delivered measure [] urls bound refl ignoring (message ∷ message ∷ []) (49 ∷ []) 3 5
      peer incoming (message-IsMessage, (message-IsMessage, tt))
      (message-IsRegistered, (message-IsRegistered, tt)) refl incoming-IsValid refl
      (inl (omega arith)) (omega arith)
