-- ===== src/Packet/Parser/Framing.antt =====
-- The packets that `PacketJsonParser::parse` finds in the bytes received so far.
use native.Mathlib.Decide.{dec_lt}
use mlnsdk.Base.{
  ℕ, zero, suc, ◌+◌, ◌^◌, ◌≤◌, ◌<◌, ◌≡◌, refl, sym, ap, ap₂, ◌∙◌, ◌⊎◌, inl, inr, true, none, some,
  List, [], ◌∷◌, ◌++◌, append_assoc, lookup, length, take, drop, arith, length-append, take_prefix,
  take-append, drop-append,
}
use mlnsdk.Base.Outcome.{ok}
use mlnsdk.ByteStream.{ByteStream, write}
use mlnsdk.ByteStream.Contents.{IsValid, contents}
use mlnsdk.ByteStream.Reading.{Stays}
use mlnsdk.ByteStream.Writing.{HasRoom, write_appends}
use mlnsdk.Packet.Protocol.{Header, decode_header, sizeof_header}
use mlnsdk.Packet.Parser.{Handler, PacketMap, returned, parse_tcp}
use mlnsdk.Packet.Parser.Cut.{packet_of}
use mlnsdk.Packet.Parser.Steps.{front, parse_short, parse_incomplete, parse_handled}

-- The packets one behind the other, as they are sent.
abbrev pub wire : List (List ℕ) → List ℕ
wire [] = []
wire (p ∷ ps) = p ++ wire ps

-- What is left over is no whole packet.
abbrev pub IsPartial : List ℕ → Type 0
IsPartial rest =
    (length rest < sizeof_header)
    ⊎ (((front rest).size ≤ 65535) × (length rest < (front rest).size))

module _ {W : Type 0} (map : PacketMap W) where
  -- A packet states its own length, and its code has a handler.
  pub record IsPacket (p : List ℕ) : Type 0 where
    pub long : sizeof_header ≤ length p
    pub small : length p ≤ 65535
    pub sized : (front p).size ≡ length p
    pub handler : Handler W
    pub known : lookup (front p).code map ≡ some handler

  abbrev pub ArePackets : List (List ℕ) → Type 0
  ArePackets [] = Unit
  ArePackets (p ∷ ps) = IsPacket p × ArePackets ps

  -- One packet given to its handler, and a sequence of them in order.
  abbrev pub handle : W → List ℕ → W
  handle w p = elim (lookup (front p).code map) [
    | some handler ↦ (handler w (length p) (packet_of p)).0
    | none ↦ w
  ]

  abbrev pub handle_all : W → List (List ℕ) → W
  handle_all w [] = w
  handle_all w (p ∷ ps) = handle_all (handle w p) ps

  pub front-append : (p xs : List ℕ) → sizeof_header ≤ length p → front (p ++ xs) ≡ front p
  front-append p xs h = ap decode_header (take_prefix p xs 8 h)

module _ {W : Type 0} (no_handler : W → ByteStream → W × ByteStream) (map : PacketMap W) where
  parse_packet :
      (fuel : ℕ) (w : W) (s : ByteStream) (p xs : List ℕ)
      → IsValid s
      → contents s ≡ p ++ xs
      → IsPacket map p
      → (s' : ByteStream) × (parse_tcp no_handler map (suc fuel) w s
          ≡ parse_tcp no_handler map fuel (handle map w p) s')
        × IsValid s'
        × (contents s' ≡ xs)
        × Stays s s'
  parse_packet fuel w s p xs v c k =
      let fe : front (contents s) ≡ front p = ap front c ∙ front-append map p xs k.long in
      let n : (front (contents s)).size ≡ length p = ap (λ (h : Header). h.size) fe ∙ k.sized in
      let len : length (contents s) ≡ length p + length xs = ap length c ∙ length-append p xs in
      let known : lookup (front (contents s)).code map ≡ some k.handler =
        ap (λ (h : Header). lookup h.code map) fe ∙ k.known in
      let (s', e, v', c', stays) =
        parse_handled no_handler map fuel w s v (omega (arith, k.long)) (omega (arith, k.small))
          (omega arith) k.handler known in
      let cut : take (front (contents s)).size (contents s) ≡ p =
        ap₂ take n c ∙ take-append p xs (length p) refl in
      let given : handle map w p ≡ (k.handler w (length p) (packet_of p)).0 =
        rw (k.known, handle) in
      (
        s',
        e
            ∙ ap (λ (u : W). parse_tcp no_handler map fuel u s')
                (ap₂ (λ (m : ℕ) (q : List ℕ). (k.handler w m (packet_of q)).0) n cut ∙ sym given),
        v',
        c' ∙ ap₂ drop n c ∙ drop-append p xs (length p) refl,
        stays,
      )

  -- All of the packets, and how far the stream is used behind them.
  pub parse_packets-Stays :
      (ps : List (List ℕ)) (rest : List ℕ) (fuel : ℕ) (w : W) (s : ByteStream)
      → IsValid s
      → contents s ≡ wire ps ++ rest
      → ArePackets map ps
      → IsPartial rest
      → length ps < fuel
      → (t : ByteStream) × (parse_tcp no_handler map fuel w s
          ≡ record { world = handle_all map w ps; stream = t; ending = returned true })
        × IsValid t
        × (contents t ≡ rest)
        × Stays s t
  parse_packets-Stays ps rest zero w s v c k r f = elim f [ ]
  parse_packets-Stays [] rest (suc fuel) w s v c k r f = elim r [
    | inl short ↦ (s, parse_short no_handler map fuel w s v (rw c short), v, c, (omega arith, refl))
    | inr (small, more) ↦ elim (dec_lt (length rest) sizeof_header) [
      | yes short ↦
          (s, parse_short no_handler map fuel w s v (rw c short), v, c, (omega arith, refl))
      | no long ↦ (
        s,
        parse_incomplete no_handler map fuel w s v (rw c (omega arith)) (rw c small) (rw c more),
        v,
        c,
        (omega arith, refl),
      )
    ]
  ]
  parse_packets-Stays (p ∷ ps) rest (suc fuel) w s v c (k, ks) r f =
      let (s', e, v', c', stays) =
        parse_packet fuel w s p (wire ps ++ rest) v (c ∙ append_assoc p _ rest) k in
      let (t, e', v'', c'', stays') =
        parse_packets-Stays ps rest fuel (handle map w p) s' v' c' ks r (omega arith) in
      (t, e ∙ e', v'', c'', (omega arith, stays'.1 ∙ stays.1))

  -- Let a valid stream hold packets, each of 8 to 65535 bytes with its own length in its header
  -- and a code that has a handler, followed by an incomplete packet, and let the fuel exceed their
  -- number. Then parse returns true after giving every packet to its handler, once and in order,
  -- and the valid stream that is left holds just the incomplete packet.
  pub parse_packets :
      (ps : List (List ℕ)) (rest : List ℕ) (fuel : ℕ) (w : W) (s : ByteStream)
      → IsValid s
      → contents s ≡ wire ps ++ rest
      → ArePackets map ps
      → IsPartial rest
      → length ps < fuel
      → (t : ByteStream) × (parse_tcp no_handler map fuel w s
          ≡ record { world = handle_all map w ps; stream = t; ending = returned true })
        × IsValid t
        × (contents t ≡ rest)
  parse_packets ps rest fuel w s v c k r f =
      let (t, e, v', c', _) = parse_packets-Stays ps rest fuel w s v c k r f in (t, e, v', c')

  -- Let a valid stream hold a rest and have room for further bytes (below the range of an
  -- int32_t), and let the rest and these bytes together be whole packets, each with a handler for
  -- its code, and an incomplete packet. Then writing the bytes succeeds, and parse, with fuel
  -- above the number of packets, returns true after giving each of the packets to its handler in
  -- order and leaves just the incomplete packet, in a valid stream.
  pub parse_resumes :
      (qs : List (List ℕ)) (rest more rest' : List ℕ) (fuel : ℕ) (w : W) (t : ByteStream)
      → IsValid t
      → contents t ≡ rest
      → t.pos_write + length more < 2 ^ 31
      → HasRoom t (length more)
      → rest ++ more ≡ wire qs ++ rest'
      → ArePackets map qs
      → IsPartial rest'
      → length qs < fuel
      → (u x : ByteStream) × (write t more ≡ ok u)
        × (parse_tcp no_handler map fuel w u
            ≡ record { world = handle_all map w qs; stream = x; ending = returned true })
        × IsValid x
        × (contents x ≡ rest')
  parse_resumes qs rest more rest' fuel w t v c h room joined k r f =
      let (u, e, v', c', _, _, _) = write_appends t more v h room in
      let (x, e', v'', c'') =
        parse_packets qs rest' fuel w u v' (c' ∙ ap (λ (ys : List ℕ). ys ++ more) c ∙ joined) k r
          f in
      (u, x, e, e', v'', c'')
