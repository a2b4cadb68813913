-- ===== src/Packet/Parser/Splitting.antt =====
-- Where the bytes of packets are cut: the packets that have come in whole, and those that have not.
use native.Mathlib.Decide.{dec_lt}
use mlnsdk.Base.{
  ℕ, ◌+◌, ◌≤◌, ◌<◌, ◌≡◌, refl, sym, ap, ◌∙◌, inl, inr, List, [], ◌∷◌, ◌++◌, append-nil,
  append_assoc, length, take, drop, arith, length-append, take-append, take-append-drop,
  take_prefix, drop_prefix, drop-append,
}
use mlnsdk.Packet.Protocol.{Header, sizeof_header}
use mlnsdk.Packet.Parser.{PacketMap}
use mlnsdk.Packet.Parser.Steps.{front}
use mlnsdk.Packet.Parser.Framing.{
  wire, IsPartial, IsPacket, ArePackets, handle, handle_all, front-append,
}

module _ {W : Type 0} (map : PacketMap W) where
  -- What comes before the end of a packet is no whole packet.
  IsPartial-prefix : (xs ys rest : List ℕ) → xs ++ ys ≡ rest → IsPartial rest → IsPartial xs
  IsPartial-prefix xs ys rest e r = elim (dec_lt (length xs) sizeof_header) [
    | yes short ↦ inl short
    | no long ↦
        let len : length rest ≡ length xs + length ys = ap length (sym e) ∙ length-append xs ys in
        let same : (front rest).size ≡ (front xs).size =
          ap (λ (bs : List ℕ). (front bs).size) (sym e)
          ∙ ap (λ (h : Header). h.size) (front-append map xs ys (omega arith)) in
        elim r [
          | inl short ↦ absurd (omega arith)
          | inr (small, more) ↦ inr (omega arith, omega arith)
        ]
  ]

  sized_prefix :
      (xs ys p zs : List ℕ)
      → xs ++ ys ≡ p ++ zs
      → IsPacket map p
      → sizeof_header ≤ length xs
      → (front xs).size ≡ length p
  sized_prefix xs ys p zs e k long =
      ap (λ (h : Header). h.size)
        (sym (front-append map xs ys long) ∙ ap front e ∙ front-append map p zs k.long)
      ∙ k.sized

  IsPartial-packet :
      (xs ys p zs : List ℕ)
      → xs ++ ys ≡ p ++ zs
      → IsPacket map p
      → length xs < length p
      → IsPartial xs
  IsPartial-packet xs ys p zs e k h = elim (dec_lt (length xs) sizeof_header) [
    | yes short ↦ inl short
    | no long ↦
        let same = sized_prefix xs ys p zs e k (omega arith) in
        inr (omega (arith, same, k.small), omega (arith, same))
  ]

  -- The packets that have come in whole, and those that have not.
  pub record Split (xs ys : List ℕ) (ps : List (List ℕ)) (rest : List ℕ) : Type 0 where
    pub come : List (List ℕ)
    pub coming : List (List ℕ)
    pub left : List ℕ
    pub all : ps ≡ come ++ coming
    pub had : xs ≡ wire come ++ left
    pub to_have : left ++ ys ≡ wire coming ++ rest
    pub are_come : ArePackets map come
    pub are_coming : ArePackets map coming
    pub partial : IsPartial left

  pub split :
      (ps : List (List ℕ)) (xs ys rest : List ℕ)
      → xs ++ ys ≡ wire ps ++ rest
      → ArePackets map ps
      → IsPartial rest
      → Split xs ys ps rest
  split [] xs ys rest e k r = record {
    come = [];
    coming = [];
    left = xs;
    all = refl;
    had = refl;
    to_have = e;
    are_come = tt;
    are_coming = tt;
    partial = IsPartial-prefix xs ys rest e r;
  }
  split (p ∷ ps) xs ys rest e (k, ks) r = elim (dec_lt (length xs) (length p)) [
    | yes few ↦ record {
      come = [];
      coming = p ∷ ps;
      left = xs;
      all = refl;
      had = refl;
      to_have = e;
      are_come = tt;
      are_coming = (k, ks);
      partial = IsPartial-packet xs ys p (wire ps ++ rest) (e ∙ append_assoc p _ rest) k few;
    }
    | no enough ↦
        let n = length p in
        let e' : xs ++ ys ≡ p ++ (wire ps ++ rest) = e ∙ append_assoc p _ rest in
        let behind : drop n xs ++ ys ≡ wire ps ++ rest =
          sym (drop_prefix xs ys n (omega arith))
          ∙ ap (drop n) e'
          ∙ drop-append p (wire ps ++ rest) n refl in
        let first : take n xs ≡ p =
          sym (take_prefix xs ys n (omega arith))
          ∙ ap (take n) e'
          ∙ take-append p (wire ps ++ rest) n refl in
        let o = split ps (drop n xs) ys rest behind ks r in
        record {
          come = p ∷ o.come;
          coming = o.coming;
          left = o.left;
          all = ap (◌∷◌ p) o.all;
          had =
              sym (take-append-drop n xs)
              ∙ ap (λ (q : List ℕ). q ++ drop n xs) first
              ∙ ap (λ (q : List ℕ). p ++ q) o.had
              ∙ sym (append_assoc p _ _);
          to_have = o.to_have;
          are_come = (k, o.are_come);
          are_coming = o.are_coming;
          partial = o.partial;
        }
  ]

  pub handle_all-append :
      (ps qs : List (List ℕ)) (w : W)
      → handle_all map w (ps ++ qs) ≡ handle_all map (handle_all map w ps) qs
  handle_all-append [] qs w = refl
  handle_all-append (p ∷ ps) qs w = handle_all-append ps qs (handle map w p)

  -- An incomplete packet holds no whole one.
  pub none_whole :
      (ps : List (List ℕ)) (rest left : List ℕ)
      → left ≡ wire ps ++ rest
      → ArePackets map ps
      → IsPartial left
      → ps ≡ []
  none_whole [] rest left e k r = refl
  none_whole (p ∷ ps) rest left e (k, ks) r =
      let len : length left ≡ length p + length (wire ps ++ rest) =
        ap length (e ∙ append_assoc p _ rest) ∙ length-append p _ in
      let same =
        sized_prefix left [] p (wire ps ++ rest) (append-nil left ∙ e ∙ append_assoc p _ rest) k
          (omega (arith, k.long)) in
      elim r [
        | inl short ↦ absurd (omega (arith, k.long))
        | inr (small, more) ↦ absurd (omega (arith, same))
      ]
