-- ===== src/Packet/Parser/Chunks.antt =====
-- packetParser.hpp on the bytes of a connection in the pieces that they come in: each piece is
-- written to the stream of byteStream.hpp, and then parsed.
use mlnsdk.Base.{
  ℕ, ◌+◌, ◌^◌, ◌≤◌, ◌<◌, ◌≡◌, sym, ap, ◌∙◌, inr, true, false, List, [], ◌∷◌, ◌++◌, append-nil,
  append_assoc, length, arith, length-append,
}
use mlnsdk.Base.Outcome.{Outcome, ok, thrown, fault, ◌>>=◌}
use mlnsdk.ByteStream.{ByteStream, write}
use mlnsdk.ByteStream.Contents.{IsValid, contents}
use mlnsdk.ByteStream.Writing.{HasRoom, write_appends, write-longer}
use mlnsdk.Packet.Parser.{PacketMap, Parsed, returned, bad_call, broken, running, parse_tcp}
use mlnsdk.Packet.Parser.Splitting.{split, handle_all-append, none_whole}
use mlnsdk.Packet.Parser.Framing.{wire, IsPartial, ArePackets, handle_all, parse_packets-Stays}

abbrev pub joined : List (List ℕ) → List ℕ
joined [] = []
joined (c ∷ cs) = c ++ joined cs

-- A connection goes on if parse returned true.
abbrev goes_on : {W : Type 0} → Parsed W → Outcome (W × ByteStream)
goes_on p = elim p.ending [
  | returned true ↦ ok (p.world, p.stream)
  | returned false ↦ thrown
  | bad_call ↦ thrown
  | broken ↦ fault
  | running ↦ fault
]

module _ {W : Type 0} (no_handler : W → ByteStream → W × ByteStream) (map : PacketMap W)
    (fuel : ℕ) where
  -- What the read handler and the dispatch after it do with each piece.
  abbrev pub feed : W → ByteStream → List (List ℕ) → Outcome (W × ByteStream)
  feed w s [] = ok (w, s)
  feed w s (c ∷ cs) = do
    t ← write s c
    (w', u) ← goes_on (parse_tcp no_handler map fuel w t)
    feed w' u cs

  -- Let a valid stream hold an incomplete packet and have room behind its write position for all
  -- pieces that come, and let what it holds and the pieces together be packets, each of 8 to 65535
  -- bytes with its own length in its header and a code that has a handler, and then an incomplete
  -- packet; let the fuel exceed the number of packets. Then, however the bytes are cut into pieces,
  -- writing each piece and parsing after it succeeds: every parse returns true, every packet is
  -- given to its handler once and in order, and the valid stream that is left holds just the
  -- incomplete packet.
  pub fed_whole :
      (cs ps : List (List ℕ)) (left rest : List ℕ) (w : W) (s : ByteStream)
      → IsValid s
      → contents s ≡ left
      → IsPartial left
      → s.pos_write + length (joined cs) ≤ length s.buffer
      → left ++ joined cs ≡ wire ps ++ rest
      → ArePackets map ps
      → IsPartial rest
      → length ps < fuel
      → (t : ByteStream) × (feed w s cs ≡ ok (handle_all map w ps, t))
        × IsValid t
        × (contents t ≡ rest)
  fed_whole [] ps left rest w s v c l room e k r f =
      let e' : left ≡ wire ps ++ rest = sym (append-nil left) ∙ e in
      let none = none_whole map ps rest left e' k l in
      (
        s,
        ap (λ (qs : List (List ℕ)). ok (handle_all map w qs, s)) (sym none),
        v,
        c ∙ e' ∙ ap (λ (qs : List (List ℕ)). wire qs ++ rest) none,
      )
  fed_whole (x ∷ cs) ps left rest w s v c l room e k r f =
      let o = split map ps (left ++ x) (joined cs) rest (append_assoc left x (joined cs) ∙ e) k r in
      let len = length-append x (joined cs) in
      let below : s.pos_write + length x < 2 ^ 31 = omega (arith, v.bounded) in
      let fits : HasRoom s (length x) = inr (omega arith) in
      let (t, we, tv, tc, _, tw, _) = write_appends s x v below fits in
      let longer = write-longer s t x v below fits we in
      let count = ap length o.all ∙ length-append o.come o.coming in
      let (u, pe, uv, uc, stays) =
        parse_packets-Stays no_handler map o.come o.left fuel w t tv
          (tc ∙ ap (λ (ys : List ℕ). ys ++ x) c ∙ o.had) o.are_come o.partial (omega arith) in
      let (z, fe, zv, zc) =
        fed_whole cs o.coming o.left rest (handle_all map w o.come) u uv uc o.partial (omega arith)
          o.to_have o.are_coming r (omega arith) in
      (
        z,
        rw (we, pe)
            (fe
              ∙ ap (λ (w' : W). ok (w', z))
                  (sym (ap (handle_all map w) o.all ∙ handle_all-append map o.come o.coming w))),
        zv,
        zc,
      )
