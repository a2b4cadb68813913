-- ===== src/Packet/Json/EndToEnd.antt =====
-- A sequence of messages of `sendJsonPacket` in a stream of received bytes, as the other side's
-- parser and JSON handler take it.
use mlnsdk.Base.{
  suc, ℕ, ◌+◌, ◌<◌, ◌≡◌, refl, sym, ap, ap₂, ◌∙◌, Bool, true, false, Option, none, some, List, [],
  ◌∷◌, ◌++◌, append_assoc, append-nil, if◌then◌else◌, length, take, lookup, arith, take-append,
}
use mlnsdk.ByteStream.{ByteStream}
use mlnsdk.ByteStream.Contents.{IsValid, contents}
use mlnsdk.Packet.Protocol.{
  Header, decode_header, encode_header, encode_json_header, json_value, json_header_size,
}
use mlnsdk.Packet.Protocol.RoundTrip.{after_header, length-encode_header, decode-encode_header}
use mlnsdk.Packet.Parser.{PacketMap, parse_tcp, returned}
use mlnsdk.Packet.Parser.Steps.{front}
use mlnsdk.Packet.Parser.Framing.{
  IsPacket, ArePackets, IsPartial, handle, handle_all, wire, parse_packets,
}
use mlnsdk.Packet.Json.{JsonHandler, json_dispatch, read_json_packet, returning}
use mlnsdk.Packet.Json.Delivery.{
  IsSendable, sent_header, json_wire, length-json_wire, sent-FitsJsonHeader, read_json_packet_lem,
}
use mlnsdk.Session.{Session, close_reserve, arm_close_reserve}
use mlnsdk.Text.{find_text}

-- A message, with the value that the JSON library finds in its body.
pub record Message (J : Type 0) : Type 0 where
  pub url : List ℕ
  pub body : List ℕ
  pub value : J

abbrev pub wires : {J : Type 0} → List (Message J) → List (List ℕ)
wires [] = []
wires (m ∷ ms) = json_wire m.url m.body ∷ wires ms

module _ {J : Type 0} (json_parse : List ℕ → Bool → Option (J × List ℕ)) (beyond : List ℕ)
    (urls : List (List ℕ × JsonHandler J)) where
  pub record IsMessage (m : Message J) : Type 0 where
    pub sendable : IsSendable m.url m.body
    pub ignored : List ℕ
    pub parsed : json_parse m.body false ≡ some (m.value, ignored)

  abbrev pub AreMessages : List (Message J) → Type 0
  AreMessages [] = Unit
  AreMessages (m ∷ ms) = IsMessage m × AreMessages ms

  -- The handlers of the URLs, one message after the other.
  abbrev pub deliver_all : Session → List (Message J) → Session
  deliver_all s [] = s
  deliver_all s (m ∷ ms) = deliver_all (json_dispatch json_parse beyond urls s m.url m.value) ms

  -- A URL with a handler, which leaves the user.
  pub record IsRegistered (user : ℕ) (m : Message J) : Type 0 where
    pub handler : JsonHandler J
    pub known : find_text m.url urls ≡ some handler
    pub same_user : (s : Session) → (handler user m.url m.value s).0.user ≡ s.user

  abbrev pub AreRegistered : ℕ → List (Message J) → Type 0
  AreRegistered user [] = Unit
  AreRegistered user (m ∷ ms) = IsRegistered user m × AreRegistered user ms

  -- A handler that is called, and the handlers of all messages.
  abbrev pub called : JsonHandler J → ℕ → Message J → Session → Session
  called h user m s =
      let (s', threw) = h user m.url m.value s in
      if threw then record s' { log = arm_close_reserve 0 ∷ s'.log } else s'

  abbrev pub called_all :
      (user : ℕ) (ms : List (Message J)) → AreRegistered user ms → Session → Session
  called_all user [] k s = s
  called_all user (m ∷ ms) (k, ks) s = called_all user ms ks (called k.handler user m s)

  user-called :
      (h : JsonHandler J) (user : ℕ) (m : Message J) (s : Session)
      → (called h user m s).user ≡ (h user m.url m.value s).0.user
  user-called h user m s =
      let s' = (h user m.url m.value s).0 in
      elim (h user m.url m.value s).1
        as (λ threw.
          (if threw then record s' { log = arm_close_reserve 0 ∷ s'.log } else s').user ≡ s'.user) [
            | true ↦ refl
            | false ↦ refl
          ]

  by_handler : Session → Message J → Option (JsonHandler J) → Option ℕ → Session
  by_handler s m x u = elim x [
    | none ↦ close_reserve 0 s
    | some h ↦ elim u [ none ↦ close_reserve 0 s | some user ↦ called h user m s ]
  ]

  dispatch-called :
      (user : ℕ) (m : Message J) (s : Session) (k : IsRegistered user m)
      → s.user ≡ some user
      → json_dispatch json_parse beyond urls s m.url m.value ≡ called k.handler user m s
  unfolding json_dispatch close_reserve by_handler
  dispatch-called user m s k served =
      ap₂ (λ (x : Option (JsonHandler J)) (u : Option ℕ). by_handler s m x u) k.known served

  deliver_all-called :
      (user : ℕ) (ms : List (Message J)) (s : Session) (k : AreRegistered user ms)
      → s.user ≡ some user
      → deliver_all s ms ≡ called_all user ms k s
  deliver_all-called user [] s k served = refl
  deliver_all-called user (m ∷ ms) s (k, ks) served =
      ap (λ (t : Session). deliver_all t ms) (dispatch-called user m s k served)
      ∙ deliver_all-called user ms (called k.handler user m s) ks
          (user-called k.handler user m s ∙ k.same_user s ∙ served)

  module _ (map : PacketMap Session)
      (bound : lookup json_value map
        ≡ some (returning (read_json_packet json_parse beyond urls))) where
    front-wire :
        (url body : List ℕ)
        → IsSendable url body
        → front (json_wire url body) ≡ (sent_header url body).header
    unfolding encode_json_header
    front-wire url body fit =
        let h = sent_header url body in
        ap decode_header (
          ap (take 8) (append_assoc (encode_header h.header) (after_header h) body)
          ∙ take-append (encode_header h.header) _ 8 (length-encode_header h.header)
          ∙ sym (append-nil (encode_header h.header)))
        ∙ decode-encode_header h.header [] (sent-FitsJsonHeader url body fit).header_fits

    known_code :
        (url body : List ℕ)
        → IsSendable url body
        → lookup (front (json_wire url body)).code map
          ≡ some (returning (read_json_packet json_parse beyond urls))
    known_code url body fit =
        ap (λ (h : Header). lookup h.code map) (front-wire url body fit) ∙ bound

    wire-IsPacket : (url body : List ℕ) → IsSendable url body → IsPacket map (json_wire url body)
    wire-IsPacket url body fit =
        let n : length (json_wire url body) ≡ json_header_size + length body =
          length-json_wire url body fit in
        record {
          long = omega arith;
          small = omega (arith, fit.body_fits);
          sized = ap (λ (h : Header). h.size) (front-wire url body fit) ∙ sym n;
          handler = returning (read_json_packet json_parse beyond urls);
          known = known_code url body fit;
        }

    handle-wire :
        (s : Session) (m : Message J)
        → IsMessage m
        → handle map s (json_wire m.url m.body)
          ≡ json_dispatch json_parse beyond urls s m.url m.value
    handle-wire s m k =
        let (rest, e) =
          read_json_packet_lem m.url m.body k.sendable json_parse beyond urls s m.value k.ignored
            k.parsed in
        rw (known_code m.url m.body k.sendable, handle) (rw (e, returning))

    wires-ArePackets : (ms : List (Message J)) → AreMessages ms → ArePackets map (wires ms)
    wires-ArePackets [] k = tt
    wires-ArePackets (m ∷ ms) (k, ks) =
        (wire-IsPacket m.url m.body k.sendable, wires-ArePackets ms ks)

    handle_all-wires :
        (ms : List (Message J)) (s : Session)
        → AreMessages ms
        → handle_all map s (wires ms) ≡ deliver_all s ms
    handle_all-wires [] s k = refl
    handle_all-wires (m ∷ ms) s (k, ks) =
        ap (λ (u : Session). handle_all map u (wires ms)) (handle-wire s m k)
        ∙ handle_all-wires ms _ ks

    length-wires : (ms : List (Message J)) → length (wires ms) ≡ length ms
    length-wires [] = refl
    length-wires (m ∷ ms) = ap suc (length-wires ms)

    -- The messages one after the other, each dispatched to what stands for its URL.
    pub messages_dispatched :
        (no_handler : Session → ByteStream → Session × ByteStream) (ms : List (Message J))
        (rest : List ℕ) (fuel : ℕ) (s : Session) (b : ByteStream)
        → AreMessages ms
        → IsValid b
        → contents b ≡ wire (wires ms) ++ rest
        → IsPartial rest
        → length ms < fuel
        → (b' : ByteStream) × (parse_tcp no_handler map fuel s b
            ≡ record { world = deliver_all s ms; stream = b'; ending = returned true })
          × IsValid b'
          × (contents b' ≡ rest)
    messages_dispatched no_handler ms rest fuel s b k v c r f =
        let (b', e, v', c') =
          parse_packets no_handler map (wires ms) rest fuel s b v c (wires-ArePackets ms k) r
            (omega (arith, length-wires ms)) in
        (
          b',
          e
              ∙ ap (λ (u : Session). record { world = u; stream = b'; ending = returned true })
                  (handle_all-wires ms s k),
          v',
          c',
        )

    -- Let the stream be valid and hold the bytes that sendJsonPacket puts on the wire for a list
    -- of messages (each with a URL of less than 32 bytes and without a zero byte, a body of 1 to
    -- 8192 bytes and a value that the JSON parser finds in it), followed by an incomplete packet.
    -- Let each URL have a handler, which leaves the session's user, and let the session have a
    -- user; let the packet map bind the code 1 to readJsonPacket, and let the fuel exceed the
    -- number of messages. Then parse returns true, it has called the handlers of the messages in
    -- the order of sending, each once with the user, the URL and the value (and asked for the
    -- close behind one that throws), and the valid stream that is left holds just the incomplete
    -- packet.
    pub messages_delivered :
        (no_handler : Session → ByteStream → Session × ByteStream) (ms : List (Message J))
        (rest : List ℕ) (fuel user : ℕ) (s : Session) (b : ByteStream)
        → AreMessages ms
        → (k : AreRegistered user ms) → s.user ≡ some user
        → IsValid b
        → contents b ≡ wire (wires ms) ++ rest
        → IsPartial rest
        → length ms < fuel
        → (b' : ByteStream) × (parse_tcp no_handler map fuel s b
            ≡ record { world = called_all user ms k s; stream = b'; ending = returned true })
          × IsValid b'
          × (contents b' ≡ rest)
    messages_delivered no_handler ms rest fuel user s b a k served v c r f =
        let (b', e, v', c') = messages_dispatched no_handler ms rest fuel s b a v c r f in
        (
          b',
          e
              ∙ ap (λ (u : Session). record { world = u; stream = b'; ending = returned true })
                  (deliver_all-called user ms s k served),
          v',
          c',
        )
