-- ===== src/Packet/Json/Delivery.antt =====
-- From `sendJsonPacket` of one side, over the wire and the framing, to the URL's handler of the other.
use mlnsdk.Base.{
  ℕ, suc, ◌+◌, ◌-◌, ◌≤◌, ◌<◌, ◌≡◌, sym, ap, ap₂, ◌∙◌, Bool, true, false, ◌||◌, Option, some, List,
  ◌∷◌, ◌++◌, append_assoc, ltb, ◌==◌, length, take, drop, replicate, to_uint16, arith,
  length-append, length-replicate, le→ltb, ne→==, take_all, take-append, drop-append,
}
use mlnsdk.Base.Outcome.{ok}
use mlnsdk.ByteStream.{ByteStream, read}
use mlnsdk.ByteStream.Contents.{IsValid, contents}
use mlnsdk.ByteStream.Reading.{read_takes}
use mlnsdk.Packet.Protocol.{
  JsonHeader, encode_header, encode_json_header, decode_json_header, json_value, json_header_size,
  max_url_string, max_body_size, json_manipulator,
}
use mlnsdk.Packet.Protocol.RoundTrip.{
  FitsJsonHeader, after_header, length-encode_header, length-encode_json_header,
  decode-encode_json_header,
}
use mlnsdk.Packet.Parser.Cut.{packet_of, packet_of_lem}
use mlnsdk.Packet.Json.{JsonHandler, json_dispatch, read_json_body, read_json_packet}
use mlnsdk.Text.{c_string, HasNoZero, c_string-append}
use mlnsdk.Session.{Session, emit, async_write, send_byte_stream}
use mlnsdk.User.{greeting, user_send, json_packet, send_json_packet}
use mlnsdk.User.Wire.{headed, send_byte_stream_lem}

-- What `sendJsonPacket` takes: the URL fits its array and ends in a zero there, and there is a body.
pub record IsSendable (url body : List ℕ) : Type 0 where
  pub url_fits : length url < max_url_string
  pub url_text : HasNoZero url
  pub body_fits : length body ≤ max_body_size
  pub body_nonempty : 0 < length body

-- The packet as it is sent.
abbrev pub sent_header : List ℕ → List ℕ → JsonHeader
sent_header url body = record (json_packet 0 url body) {
  header = record { size = json_header_size + length body; code = json_value };
}

abbrev pub json_wire : List ℕ → List ℕ → List ℕ
json_wire url body = encode_json_header (sent_header url body) ++ body

module _ (url body : List ℕ) (fit : IsSendable url body) where
  length-url : (garbage : ℕ) → length (json_packet garbage url body).url ≡ max_url_string
  length-url garbage = omega (
    arith,
    fit.url_fits,
    length-append url (replicate {A = ℕ} (32 - length url) 0),
    length-replicate {A = ℕ} (32 - length url) 0,
  )

  pub length-json_wire : length (json_wire url body) ≡ json_header_size + length body
  length-json_wire = omega (
    arith,
    length-append (encode_json_header (sent_header url body)) body,
    length-encode_json_header (sent_header url body) (length-url 0),
  )

  pub sent-FitsJsonHeader : FitsJsonHeader (sent_header url body)
  sent-FitsJsonHeader = record {
    header_fits = record { size_fits = omega (arith, fit.body_fits); code_fits = omega arith };
    sequence_fits = omega arith;
    compressed_fits = omega arith;
    url_fits = length-url 0;
    body_fits = omega arith;
  }

  length-packet :
      (garbage : ℕ)
      → length (encode_json_header (json_packet garbage url body) ++ body)
        ≡ json_header_size + length body
  length-packet garbage = omega (
    arith,
    length-append (encode_json_header (json_packet garbage url body)) body,
    length-encode_json_header (json_packet garbage url body) (length-url garbage),
  )

  -- The manipulator puts the true size and the code over whatever the header held.
  headed-packet :
      (garbage : ℕ)
      → headed (encode_json_header (json_packet garbage url body) ++ body) ≡ json_wire url body
  unfolding encode_json_header
  headed-packet garbage =
      let p = json_packet garbage url body in
      let t = after_header p in
      ap₂ (λ (n : ℕ) (ys : List ℕ). encode_header (record { size = n; code = json_value }) ++ ys)
        (length-packet garbage)
        (ap (drop 8) (append_assoc (encode_header p.header) t body)
          ∙ drop-append (encode_header p.header) (t ++ body) 8 (length-encode_header p.header))
      ∙ sym (append_assoc (encode_header (sent_header url body).header) t body)

  -- For a URL of less than 32 bytes and without a zero byte and a body of 1 to 8192 bytes, on a
  -- session with the JSON manipulator, sendJsonPacket writes the PT_JSON packet of that URL and
  -- body, its header filled in, to the socket and returns 47 more than the length of the body,
  -- whatever the uninitialised fields of the packet held.
  pub send_json_packet_lem :
      (s : Session) (garbage : ℕ)
      → s.packet_manipulator ≡ some json_manipulator
      → send_json_packet greeting garbage url body (some s)
        ≡ ok (some (emit (async_write (json_wire url body)) s), json_header_size + length body)
  unfolding send_json_packet user_send
  send_json_packet_lem s garbage m =
      let w = encode_json_header (json_packet garbage url body) ++ body in
      let all : take (json_header_size + to_uint16 (length body)) w ≡ w =
        take_all w _ (omega (arith, length-packet garbage, fit.body_fits)) in
      let e : send_byte_stream w false s ≡ ok (emit (async_write (json_wire url body)) s) =
        send_byte_stream_lem s w m (omega (arith, length-packet garbage))
          (omega (arith, length-packet garbage, fit.body_fits))
        ∙ ap (λ (xs : List ℕ). ok (emit (async_write xs) s)) (headed-packet garbage) in
      rw (
        le→ltb 32 (length url) (omega (arith, fit.url_fits)),
        le→ltb 8192 (length body) fit.body_fits,
        all,
        e,
        length-packet garbage,
      )

  module _ {J : Type 0} (json_parse : List ℕ → Bool → Option (J × List ℕ)) (beyond : List ℕ)
      (urls : List (List ℕ × JsonHandler J)) where
    url_read_back : c_string ((sent_header url body).url ++ beyond) ≡ url
    url_read_back =
        let k = 31 - length url in
        let some_zero : 32 - length url ≡ suc k = omega (arith, fit.url_fits) in
        ap (λ (m : ℕ). c_string ((url ++ replicate m 0) ++ beyond)) some_zero
        ∙ ap c_string (append_assoc url (0 ∷ replicate k 0) beyond)
        ∙ c_string-append url (replicate k 0 ++ beyond) fit.url_text

    sized : (sent_header url body).body_size ≡ length body
    sized = omega (arith, fit.body_fits)

    size_accepted :
        (ltb max_body_size (sent_header url body).body_size
          || ((sent_header url body).body_size == 0))
        ≡ false
    size_accepted = rw sized (
        rw (le→ltb 8192 (length body) fit.body_fits)
          (ne→== (length body) 0 (λ e. omega (arith, fit.body_nonempty))))

    read_json_body_lem :
        (s : Session) (t : ByteStream) (jv : J) (ignored : List ℕ)
        → IsValid t
        → contents t ≡ body
        → json_parse body false ≡ some (jv, ignored)
        → (rest : ByteStream) × (read_json_body json_parse beyond urls s (sent_header url body) t
            ≡ ok (json_dispatch json_parse beyond urls s url jv, rest, true))
    unfolding read_json_body
    read_json_body_lem s t jv ignored v left parsed =
        let (t', e, _, _, _, _) = read_takes t (length body) v (rw left (omega arith)) in
        let taken : read t (sent_header url body).body_size ≡ ok (body, t') =
          ap (read t) sized
          ∙ e
          ∙ ap (λ (xs : List ℕ). ok (xs, t'))
              (ap (take (length body)) left ∙ take_all body (length body) (omega arith)) in
        (
          t',
          rw (size_accepted, read_json_body)
              (rw (taken, read_json_body)
                (rw (parsed, read_json_body)
                  (ap (λ (u : List ℕ). ok (json_dispatch json_parse beyond urls s u jv, t', true))
                    url_read_back))),
        )

    -- Given the whole packet of a sendable URL and body whose body the JSON parser accepts,
    -- readJsonPacket returns true after dispatching exactly that URL and the parsed value.
    pub read_json_packet_lem :
        (s : Session) (jv : J) (ignored : List ℕ)
        → json_parse body false ≡ some (jv, ignored)
        → (rest : ByteStream) × (read_json_packet json_parse beyond urls s
              (length (json_wire url body))
              (packet_of (json_wire url body))
            ≡ ok (json_dispatch json_parse beyond urls s url jv, rest, true))
    unfolding read_json_packet
    read_json_packet_lem s jv ignored parsed =
        let w = json_wire url body in
        let h = encode_json_header (sent_header url body) in
        let n : length w ≡ json_header_size + length body = length-json_wire in
        let (_, v, c) = packet_of_lem w (omega (arith, fit.body_fits)) in
        let (t, e, v', c', _, _) =
          read_takes (packet_of w) json_header_size v (rw c (omega arith)) in
        let eh : length h ≡ 47 = length-encode_json_header (sent_header url body) (length-url 0) in
        let header : decode_json_header (take json_header_size (contents (packet_of w)))
            ≡ sent_header url body =
          ap (λ (xs : List ℕ). decode_json_header (take 47 xs)) c
          ∙ ap decode_json_header (take-append h body 47 eh)
          ∙ decode-encode_json_header (sent_header url body) sent-FitsJsonHeader in
        let left : contents t ≡ body = c' ∙ ap (drop 47) c ∙ drop-append h body 47 eh in
        let (t', e') = read_json_body_lem s t jv ignored v' left parsed in
        (t', rw (le→ltb (length w) 47 (omega arith), e, header) e')
