-- ===== src/Session/Sparing.antt =====
-- session.hpp with the parser of packetJson/packetParser.hpp: when a parse spares the pending reads.
use mlnsdk.Base.{
  ℕ, zero, suc, ◌≡◌, refl, ◌∙◌, ◌⊎◌, inl, inr, ◌||◌, Bool-cases, none, some, Option-cases, ltb,
  lookup, negative_int32,
}
use mlnsdk.Base.Outcome.{Outcome, ok, thrown, fault}
use mlnsdk.ByteStream.{ByteStream, size, try_read}
use mlnsdk.Packet.Protocol.{decode_header, json_for_websocket_value}
use mlnsdk.Packet.Parser.{Handler, PacketMap, parse_tcp, parse_websocket, cut_packet}
use mlnsdk.Packet.Parse.{parse}
use mlnsdk.Session.Types.{Session, is_tcp}
use mlnsdk.Session.Counting.{Spares}

Spares-refl : (s : Session) → Spares s s
Spares-refl s = record { same_count = refl; same_dispatches = refl; not_opened = λ h. h }

Spares-trans : {s t u : Session} → Spares s t → Spares t u → Spares s u
Spares-trans p q = record {
  same_count = q.same_count ∙ p.same_count;
  same_dispatches = q.same_dispatches ∙ p.same_dispatches;
  not_opened = λ h. p.not_opened (q.not_opened h);
}

Outcome-cases : {A : Type 0} (o : Outcome A) → ((a : A) × (o ≡ ok a)) ⊎ ((o ≡ thrown) ⊎ (o ≡ fault))
Outcome-cases (ok a) = inl (a, refl)
Outcome-cases thrown = inr (inl refl)
Outcome-cases fault = inr (inr refl)

module _ (no_handler : Session → ByteStream → Session × ByteStream) (map : PacketMap Session)
    (default_spares : (s : Session) (b : ByteStream) → Spares s (no_handler s b).0)
    (handlers_spare : (k : ℕ) (h : Handler Session)
      → lookup k map ≡ some h
      → (s : Session) (n : ℕ) (b : ByteStream) → Spares s (h s n b).0) where
  parse_tcp-Spares :
      (fuel : ℕ) (s : Session) (b : ByteStream) → Spares s (parse_tcp no_handler map fuel s b).world
  unfolding parse_tcp
  parse_tcp-Spares zero s b = Spares-refl s
  parse_tcp-Spares (suc fuel) s b = elim (Outcome-cases (try_read b 8)) [
    | inr (inl e) ↦ rw (e, parse_tcp) (Spares-refl s)
    | inr (inr e) ↦ rw (e, parse_tcp) (Spares-refl s)
    | inl (none, e) ↦ rw (e, parse_tcp) (Spares-refl s)
    | inl (some bytes, e) ↦
        let h = decode_header bytes in
        elim (Bool-cases (negative_int32 h.size || ltb 65535 h.size)) [
          | inl big ↦ rw (e, parse_tcp) (rw (big, parse_tcp) (Spares-refl s))
          | inr small ↦ elim (Bool-cases (ltb (size b) h.size)) [
            | inl short ↦
                rw (e, parse_tcp) (rw (small, parse_tcp) (rw (short, parse_tcp) (Spares-refl s)))
            | inr whole ↦ elim (Outcome-cases (cut_packet b h.size)) [
              | inr (inl cut) ↦
                  rw (e, parse_tcp)
                    (rw (small, parse_tcp)
                      (rw (whole, parse_tcp) (rw (cut, parse_tcp) (Spares-refl s))))
              | inr (inr cut) ↦
                  rw (e, parse_tcp)
                    (rw (small, parse_tcp)
                      (rw (whole, parse_tcp) (rw (cut, parse_tcp) (Spares-refl s))))
              | inl ((packet, b'), cut) ↦ elim (Option-cases (lookup h.code map)) [
                | inl unknown ↦
                    rw (e, parse_tcp)
                      (rw (small, parse_tcp)
                        (rw (whole, parse_tcp)
                          (rw (cut, parse_tcp)
                            (rw (unknown, parse_tcp) (default_spares s packet)))))
                | inr (handler, known) ↦
                    let s' = (handler s h.size packet).0 in
                    let first = handlers_spare h.code handler known s h.size packet in
                    rw (e, parse_tcp)
                      (rw (small, parse_tcp)
                        (rw (whole, parse_tcp)
                          (rw (cut, parse_tcp)
                            (rw (known, parse_tcp)
                              (Spares-trans first (parse_tcp-Spares fuel s' b'))))))
              ]
            ]
          ]
        ]
  ]

  parse_websocket-Spares :
      (s : Session) (b : ByteStream) → Spares s (parse_websocket no_handler map s b).world
  unfolding parse_websocket
  parse_websocket-Spares s b = elim (Option-cases (lookup json_for_websocket_value map)) [
    | inl unknown ↦ rw (unknown, parse_websocket) (Spares-refl s)
    | inr (handler, known) ↦
        rw (known, parse_websocket)
          (handlers_spare json_for_websocket_value handler known s (size b) b)
  ]

  pub parse-Spares :
      (fuel : ℕ) (s : Session) (b : ByteStream) (members : PacketMap Session)
      → Spares s (parse no_handler fuel s b members map).world
  unfolding parse
  parse-Spares fuel s b members = elim (Bool-cases (is_tcp s.session_type)) [
    | inl tcp ↦ rw tcp (parse_tcp-Spares fuel s b)
    | inr web ↦ rw web (parse_websocket-Spares s b)
  ]
