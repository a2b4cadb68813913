-- ===== src/Packet/Parser/Steps.antt =====
-- One round of the loop of packetParser.hpp, on each of its branches.
use mlnsdk.Base.{
  ℕ, suc, ◌≤◌, ◌<◌, ◌≡◌, ◌||◌, true, false, none, some, List, ltb, lookup, negative_int32, length,
  take, drop, arith, lt→ltb, le→ltb,
}
use mlnsdk.Base.Outcome.{ok}
use mlnsdk.ByteStream.{ByteStream, size, try_read}
use mlnsdk.ByteStream.Contents.{IsValid, contents, length-contents}
use mlnsdk.ByteStream.Reading.{try_read_lem, Stays}
use mlnsdk.Packet.Protocol.{Header, decode_header, sizeof_header}
use mlnsdk.Packet.Parser.{Handler, PacketMap, returned, parse_tcp}
use mlnsdk.Packet.Parser.Cut.{packet_of, cut_packet_lem}

-- The header at the front of the received bytes.
abbrev pub front : List ℕ → Header
front bs = decode_header (take sizeof_header bs)

out_of_range : (n : ℕ) → 65535 < n → (negative_int32 n || ltb 65535 n) ≡ true
out_of_range n h = ground arith

in_range : (n : ℕ) → n ≤ 65535 → (negative_int32 n || ltb 65535 n) ≡ false
in_range n h = ground arith

module _ {W : Type 0} (no_handler : W → ByteStream → W × ByteStream) (map : PacketMap W) where
  module _ (fuel : ℕ) (w : W) (s : ByteStream) (v : IsValid s) where
    pub parse_short :
        length (contents s) < sizeof_header
        → parse_tcp no_handler map (suc fuel) w s
          ≡ record { world = w; stream = s; ending = returned true }
    unfolding parse_tcp
    parse_short h =
        let e : try_read s 8 ≡ ok none =
          rw (try_read_lem s 8 v, lt→ltb (length (contents s)) 8 h) in
        rw (e, parse_tcp)

    module _ (h : sizeof_header ≤ length (contents s)) where
      header_read : try_read s 8 ≡ ok (some (take 8 (contents s)))
      header_read = rw (try_read_lem s 8 v, le→ltb (length (contents s)) 8 h)

      pub parse_bad_size :
          65535 < (front (contents s)).size
          → parse_tcp no_handler map (suc fuel) w s
            ≡ record { world = w; stream = s; ending = returned false }
      unfolding parse_tcp
      parse_bad_size big = rw (header_read, parse_tcp) (rw (out_of_range _ big, parse_tcp))

      pub parse_incomplete :
          (front (contents s)).size ≤ 65535
          → length (contents s) < (front (contents s)).size
          → parse_tcp no_handler map (suc fuel) w s
            ≡ record { world = w; stream = s; ending = returned true }
      unfolding parse_tcp
      parse_incomplete small more =
          let n = (front (contents s)).size in
          let e : ltb (size s) n ≡ true = lt→ltb (size s) n (omega (arith, length-contents s v)) in
          rw (header_read, parse_tcp) (rw (in_range n small, parse_tcp) (rw (e, parse_tcp)))

      module _ (small : (front (contents s)).size ≤ 65535)
          (whole : (front (contents s)).size ≤ length (contents s)) where
        not_short : ltb (size s) (front (contents s)).size ≡ false
        not_short = le→ltb (size s) _ (omega (arith, length-contents s v))

        pub parse_handled :
            (handler : Handler W)
            → lookup (front (contents s)).code map ≡ some handler
            → (s' : ByteStream) × (parse_tcp no_handler map (suc fuel) w s
                ≡ parse_tcp no_handler map fuel
                    (handler w
                      (front (contents s)).size
                      (packet_of (take (front (contents s)).size (contents s)))).0
                    s')
              × IsValid s'
              × (contents s' ≡ drop (front (contents s)).size (contents s))
              × Stays s s'
        unfolding parse_tcp
        parse_handled handler known =
            let n = (front (contents s)).size in
            let (s', e, v', c, stays) = cut_packet_lem s n v whole in
            (
              s',
              rw (header_read, parse_tcp)
                  (rw (in_range n small, parse_tcp)
                    (rw (not_short, parse_tcp) (rw (e, parse_tcp) (rw (known, parse_tcp))))),
              v',
              c,
              stays,
            )

        pub parse_unknown :
            lookup (front (contents s)).code map ≡ none
            → (s' : ByteStream) × (parse_tcp no_handler map (suc fuel) w s ≡ record {
              world = (no_handler w (packet_of (take (front (contents s)).size (contents s)))).0;
              stream = s';
              ending = returned false;
            })
              × IsValid s'
              × (contents s' ≡ drop (front (contents s)).size (contents s))
        unfolding parse_tcp
        parse_unknown unknown =
            let n = (front (contents s)).size in
            let (s', e, v', c, _) = cut_packet_lem s n v whole in
            (
              s',
              rw (header_read, parse_tcp)
                  (rw (in_range n small, parse_tcp)
                    (rw (not_short, parse_tcp) (rw (e, parse_tcp) (rw (unknown, parse_tcp))))),
              v',
              c,
            )
