-- ===== src/Packet/Parser/Progress.antt =====
-- When the loop of `PacketJsonParser::parse` ends, and when it does not.
use native.Mathlib.Decide.{dec_lt, dec_le}
use mlnsdk.Base.{
  ℕ, zero, suc, ◌≤◌, ◌<◌, ◌≡◌, ◌≢◌, refl, ap, ◌∙◌, ◌⊎◌, inl, inr, some, List, lookup, length, drop,
  arith, length-drop, Option-cases,
}
use mlnsdk.ByteStream.{ByteStream}
use mlnsdk.ByteStream.Contents.{IsValid, contents}
use mlnsdk.Packet.Protocol.{sizeof_header}
use mlnsdk.Packet.Parser.{Handler, PacketMap, running, parse_tcp}
use mlnsdk.Packet.Parser.Steps.{
  front, parse_short, parse_bad_size, parse_incomplete, parse_handled, parse_unknown,
}

-- No packet at the front of the bytes, nor behind it, states the size 0.
pub data Progresses : List ℕ → Type 0 where
  short : (bs : List ℕ) → length bs < sizeof_header → Progresses bs
  unusable :
      (bs : List ℕ) → (65535 < (front bs).size) ⊎ (length bs < (front bs).size) → Progresses bs
  next : (bs : List ℕ) → 0 < (front bs).size → Progresses (drop (front bs).size bs) → Progresses bs

Progresses-next :
    (bs : List ℕ)
    → Progresses bs
    → sizeof_header ≤ length bs
    → (front bs).size ≤ 65535
    → (front bs).size ≤ length bs
    → (0 < (front bs).size) × Progresses (drop (front bs).size bs)
Progresses-next bs (short _ h) long small whole = absurd (omega arith)
Progresses-next bs (unusable _ h) long small whole = absurd (omega arith)
Progresses-next bs (next _ pos rest) long small whole = (pos, rest)

module _ {W : Type 0} (no_handler : W → ByteStream → W × ByteStream) (map : PacketMap W) where
  -- On a valid stream whose bytes have no packet of size 0 at the front, nor behind the whole
  -- packets of usable size that are there, the loop of parse ends within one round more than there
  -- are bytes: with that fuel it does not run out of fuel.
  pub parse_ends :
      (fuel : ℕ) (w : W) (s : ByteStream)
      → IsValid s
      → Progresses (contents s)
      → length (contents s) < fuel
      → (parse_tcp no_handler map fuel w s).ending ≢ running
  parse_ends zero w s v p f = elim f [ ]
  parse_ends (suc fuel) w s v p f = elim (dec_lt (length (contents s)) sizeof_header) [
    | yes few ↦ rw (parse_short no_handler map fuel w s v few) (λ e. cc)
    | no enough ↦
        let long : sizeof_header ≤ length (contents s) = omega arith in
        elim (dec_le (front (contents s)).size 65535) [
          | no big ↦ rw (parse_bad_size no_handler map fuel w s v long (omega arith)) (λ e. cc)
          | yes small ↦ elim (dec_le (front (contents s)).size (length (contents s))) [
            | no more ↦
                rw (parse_incomplete no_handler map fuel w s v long small (omega arith)) (λ e. cc)
            | yes whole ↦
                let (pos, rest) = Progresses-next (contents s) p long small whole in
                elim (Option-cases (lookup (front (contents s)).code map)) [
                  | inl unknown ↦
                      let (s', e, _, _) =
                        parse_unknown no_handler map fuel w s v long small whole unknown in
                      rw e (λ q. cc)
                  | inr (handler, known) ↦
                      let (s', e, v', c, _) =
                        parse_handled no_handler map fuel w s v long small whole handler known in
                      rw e (
                        parse_ends fuel _ s' v' (rw c rest) (
                          rw c (omega (arith, length-drop (front (contents s)).size (contents s)))))
                ]
          ]
        ]
  ]

  -- On a valid stream that starts with a header of size 0 and a code that has a handler, the loop
  -- of parse runs out of every fuel.
  pub parse_spins :
      (fuel : ℕ) (w : W) (s : ByteStream) (handler : Handler W)
      → IsValid s
      → sizeof_header ≤ length (contents s)
      → (front (contents s)).size ≡ 0
      → lookup (front (contents s)).code map ≡ some handler
      → (parse_tcp no_handler map fuel w s).ending ≡ running
  unfolding parse_tcp
  parse_spins zero w s handler v long empty known = refl
  parse_spins (suc fuel) w s handler v long empty known =
      let (s', e, v', c, _) =
        parse_handled no_handler map fuel w s v long (omega arith) (omega arith) handler known in
      let same : contents s' ≡ contents s = c ∙ ap (λ (n : ℕ). drop n (contents s)) empty in
      rw e (parse_spins fuel _ s' handler v' (rw same long) (rw same empty) (rw same known))
