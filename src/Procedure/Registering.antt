-- ===== src/Procedure/Registering.antt =====
-- Which of the handlers that were registered the JSON parser calls.
use mlnsdk.Base.{
  ℕ, ◌≡◌, refl, sym, ap, ◌∙◌, Bool, true, false, if◌then◌else◌, Option, none, some, List, [], ◌∷◌,
  lookup, ◌==◌, arith, ◌<◌, ◌++◌, length,
}
use mlnsdk.ByteStream.{ByteStream, PacketManipulator}
use mlnsdk.ByteStream.Contents.{IsValid, contents}
use mlnsdk.ByteStream.Reading.{Stays}
use mlnsdk.Packet.Parser.{Handler, PacketMap, Ending, returned, parse_tcp, parse_websocket}
use mlnsdk.Packet.Parser.Cut.{packet_of}
use mlnsdk.Packet.Parser.Steps.{front}
use mlnsdk.Packet.Parser.Framing.{
  ArePackets, IsPartial, handle, handle_all, wire, parse_packets-Stays,
}
use mlnsdk.Packet.Parse.{parse}
use mlnsdk.Procedure.{
  Procedure, CustomPacketParser, new_procedure, insert, regist_packet, regist_member_packet,
  dispatch, after_parse,
}
use mlnsdk.Session.{Session, dec_read_handler_pending, is_open, is_tcp, tcp, open_status}

-- The two ways to register a handler.
pub data Registration : Type 0 where
  function member : ℕ → Handler Session → Registration

-- The functions that are registered first for their id, by id.
abbrev pub functions : List Registration → List (ℕ × Handler Session)
functions [] = []
functions (function id fn ∷ rs) = (id, fn) ∷ functions rs
functions (member id fn ∷ rs) = functions rs

-- The earlier of two, if there is one.
abbrev pub or_else {ℓ} : {A : Type ℓ} → Option A → Option A → Option A
or_else none y = y
or_else (some x) y = some x

or_else-none {ℓ} : {A : Type ℓ} (x : Option A) → or_else x none ≡ x
or_else-none none = refl
or_else-none (some x) = refl

-- Whether an entry for `k` comes between.
or_else-if {ℓ} :
    {A : Type ℓ} (x : Option A) (t : Bool) (v : A) (y : Option A)
    → or_else (or_else x (if t then some v else none)) y ≡ or_else x (if t then some v else y)
or_else-if none true v y = refl
or_else-if none false v y = refl
or_else-if (some x) t v y = refl

lookup-insert :
    {V : Type 0} (id k : ℕ) (v : V) (m : List (ℕ × V))
    → lookup id (insert k v m).0 ≡ or_else (lookup id m) (if k == id then some v else none)
unfolding insert
lookup-insert id k v m = ground arith

module _ {C : Type 0} where
  unfoldable pub regist : Registration → Procedure C → Procedure C
  regist (function id fn) p = (regist_packet id fn p).0
  regist (member id fn) p = (regist_member_packet id fn p).0

  unfoldable pub regist_all : List Registration → Procedure C → Procedure C
  unfolding regist
  regist_all [] p = p
  regist_all (r ∷ rs) p = regist_all rs (regist r p)

  lookup-regist_all :
      (rs : List Registration) (id : ℕ) (p : Procedure C)
      → lookup id (regist_all rs p).static_elements
        ≡ or_else (lookup id p.static_elements) (lookup id (functions rs))
  unfolding regist_all regist regist_packet regist_member_packet insert
  lookup-regist_all [] id p = sym (or_else-none (lookup id p.static_elements))
  lookup-regist_all (function k fn ∷ rs) id p =
      lookup-regist_all rs id (regist (function k fn) p)
      ∙ ap (λ x. or_else x (lookup id (functions rs))) (lookup-insert id k fn p.static_elements)
      ∙ or_else-if (lookup id p.static_elements) (k == id) fn (lookup id (functions rs))
  lookup-regist_all (member k fn ∷ rs) id p = lookup-regist_all rs id (regist (member k fn) p)

  packet_parser-regist_all :
      (rs : List Registration) (p : Procedure C) → (regist_all rs p).packet_parser ≡ p.packet_parser
  unfolding regist_all regist regist_packet regist_member_packet
  packet_parser-regist_all [] p = refl
  packet_parser-regist_all (function id fn ∷ rs) p =
      packet_parser-regist_all rs (regist (function id fn) p)
  packet_parser-regist_all (member id fn ∷ rs) p =
      packet_parser-regist_all rs (regist (member id fn) p)

-- Two maps that find the same.
abbrev AreAlike : PacketMap Session → PacketMap Session → Type 0
AreAlike m n = (id : ℕ) → lookup id m ≡ lookup id n

ArePackets-alike :
    (m n : PacketMap Session) (ps : List (List ℕ))
    → AreAlike m n
    → ArePackets n ps
    → ArePackets m ps
ArePackets-alike m n [] same k = tt
ArePackets-alike m n (p ∷ ps) same (k, ks) = (
  record {
    long = k.long;
    small = k.small;
    sized = k.sized;
    handler = k.handler;
    known = same (front p).code ∙ k.known;
  },
  ArePackets-alike m n ps same ks,
)

handle_all-alike :
    (m n : PacketMap Session) (ps : List (List ℕ)) (s : Session)
    → AreAlike m n
    → handle_all m s ps ≡ handle_all n s ps
handle_all-alike m n [] s same = refl
handle_all-alike m n (p ∷ ps) s same =
    handle_all-alike m n ps (handle m s p) same
    ∙ ap
        (λ (x : Option (Handler Session)).
          handle_all n (elim x [ some handler ↦ (handler s (length p) (packet_of p)).0 | none ↦ s ])
            ps)
        (same (front p).code)

-- A service with the JSON parser, after registrations.
abbrev pub service :
    (Session → ByteStream → Session × ByteStream)
    → ℕ
    → Option PacketManipulator
    → List Registration
    → Procedure Unit
service no_handler fuel manip rs =
    regist_all rs (new_procedure (some (parse no_handler fuel)) manip)

service-AreAlike :
    (no_handler : Session → ByteStream → Session × ByteStream) (fuel : ℕ)
    (manip : Option PacketManipulator) (rs : List Registration)
    → AreAlike (service no_handler fuel manip rs).static_elements (functions rs)
unfolding new_procedure
service-AreAlike no_handler fuel manip rs id =
    lookup-regist_all rs id (new_procedure (some (parse no_handler fuel)) manip)

dispatch_tcp :
    (no_handler : Session → ByteStream → Session × ByteStream) (fuel : ℕ) (p : Procedure Unit)
    (s : Session) (b : ByteStream)
    → s.session_type ≡ tcp
    → s.status ≡ open_status
    → p.packet_parser ≡ some (parse no_handler fuel)
    → dispatch p s b ≡ after_parse (parse_tcp no_handler p.static_elements fuel s b)
unfolding dispatch parse
dispatch_tcp no_handler fuel p s b by_tcp opened parser =
    let run : Option CustomPacketParser → Session × Ending = λ x. elim x [
      | none ↦ (dec_read_handler_pending s, returned false)
      | some parse ↦ after_parse (parse s b p.instance_elements p.static_elements)
    ] in
    ap (λ t. if t then run p.packet_parser else (s, returned false)) (ap is_open opened)
    ∙ ap run parser
    ∙ ap
        (λ t. after_parse (
          if t
          then parse_tcp no_handler p.static_elements fuel s b
          else parse_websocket no_handler p.static_elements s b))
        (ap is_tcp by_tcp)

-- What dispatch leaves, and how far the stream is used behind it.
pub first_functions-Stays :
    (no_handler : Session → ByteStream → Session × ByteStream) (fuel : ℕ)
    (manip : Option PacketManipulator) (rs : List Registration) (ps : List (List ℕ)) (rest : List ℕ)
    (s : Session) (b : ByteStream)
    → s.session_type ≡ tcp
    → s.status ≡ open_status
    → IsValid b
    → contents b ≡ wire ps ++ rest
    → ArePackets (functions rs) ps
    → IsPartial rest
    → length ps < fuel
    → (b' : ByteStream) × (dispatch (service no_handler fuel manip rs) s b ≡ (
      dec_read_handler_pending (record (handle_all (functions rs) s ps) { recv_stream = some b' }),
      returned true,
    ))
      × IsValid b'
      × (contents b' ≡ rest)
      × Stays b b'
unfolding after_parse new_procedure
first_functions-Stays no_handler fuel manip rs ps rest s b by_tcp opened v c k r f =
    let p = service no_handler fuel manip rs in
    let m = p.static_elements in
    let same = service-AreAlike no_handler fuel manip rs in
    let (b', e, v', c', stays) =
      parse_packets-Stays no_handler m ps rest fuel s b v c
        (ArePackets-alike m (functions rs) ps same k) r f in
    (
      b',
      dispatch_tcp no_handler fuel p s b by_tcp opened
            (packet_parser-regist_all rs (new_procedure (some (parse no_handler fuel)) manip))
          ∙ ap after_parse e
          ∙ ap
              (λ (t : Session).
                (dec_read_handler_pending (record t { recv_stream = some b' }), returned true))
              (handle_all-alike m (functions rs) ps s same),
      v',
      c',
      stays,
    )

-- Let a service have the JSON parser and any registrations of functions and of member functions,
-- and let an open TCP session be given a valid stream that holds packets, each of 8 to 65535 bytes
-- with its own length in its header and a code for which a function is registered, and then an
-- incomplete packet. With fuel above the number of packets dispatch returns true and lowers the
-- pending count by one; each packet was given, in order, to the function that was registered first
-- for its code, whatever member functions are registered, and the valid stream that is left holds
-- just the incomplete packet.
pub first_functions_called :
    (no_handler : Session → ByteStream → Session × ByteStream) (fuel : ℕ)
    (manip : Option PacketManipulator) (rs : List Registration) (ps : List (List ℕ)) (rest : List ℕ)
    (s : Session) (b : ByteStream)
    → s.session_type ≡ tcp
    → s.status ≡ open_status
    → IsValid b
    → contents b ≡ wire ps ++ rest
    → ArePackets (functions rs) ps
    → IsPartial rest
    → length ps < fuel
    → (b' : ByteStream) × (dispatch (service no_handler fuel manip rs) s b ≡ (
      dec_read_handler_pending (record (handle_all (functions rs) s ps) { recv_stream = some b' }),
      returned true,
    ))
      × IsValid b'
      × (contents b' ≡ rest)
first_functions_called no_handler fuel manip rs ps rest s b by_tcp opened v c k r f =
    let (b', e, v', c', _) =
      first_functions-Stays no_handler fuel manip rs ps rest s b by_tcp opened v c k r f in
    (b', e, v', c')
