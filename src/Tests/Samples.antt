-- ===== src/Tests/Samples.antt =====
-- Runs of the sample server's handlers.
use mlnsdk.Base.{
  ℕ, ◌≡◌, ◌≢◌, refl, ltb, ltb→lt, Bool, true, Option, none, some, List, [], ◌∷◌, ◌++◌, inl, length,
  arith,
}
use mlnsdk.ByteStream.{ByteStream}
use mlnsdk.ByteStream.Contents.{IsValid, contents}
use mlnsdk.Packet.Protocol.{json_manipulator}
use mlnsdk.Packet.Parser.{returned, parse_tcp}
use mlnsdk.Packet.Json.Delivery.{IsSendable, json_wire}
use mlnsdk.Packet.Json.EndToEnd.{Message}
use mlnsdk.Procedure.{Procedure, new_procedure}
use mlnsdk.Session.Types.{Session, tcp}
use mlnsdk.Session.{create}
use mlnsdk.Sample.{login_url, init_handler, no_handler}
use mlnsdk.Sample.Echo.{written, IsServed, logins_answered}

-- A JSON library whose value is the body itself.
abbrev same : List ℕ → Bool → Option (List ℕ × List ℕ)
same body get_url = some (body, [])

abbrev as_it_is : List ℕ → List ℕ
as_it_is v = v

abbrev joined : List ℕ → List ℕ → List ℕ
joined url body = url ++ body

abbrev text : List ℕ
text = 123 ∷ 125 ∷ []

abbrev member : Session
member = record (create tcp (some json_manipulator) true 1 0) { user = some 5 }

above_zero : (n : ℕ) → ltb 0 n ≡ true → n ≢ 0
above_zero n t e = absurd (omega (arith, ltb→lt 0 n t, e))

text-IsSendable : IsSendable login_url text
text-IsSendable = record {
  url_fits = omega arith;
  url_text = (
    above_zero 47 refl,
    (
      above_zero 108 refl,
      (
        above_zero 111 refl,
        (
          above_zero 98 refl,
          (
            above_zero 98 refl,
            (
              above_zero 121 refl,
              (
                above_zero 47 refl,
                (
                  above_zero 108 refl,
                  (
                    above_zero 111 refl,
                    (above_zero 103 refl, (above_zero 105 refl, (above_zero 110 refl, tt))),
                  ),
                ),
              ),
            ),
          ),
        ),
      ),
    ),
  );
  body_fits = omega arith;
  body_nonempty = omega arith;
}

abbrev request : Message (List ℕ)
request = record { url = login_url; body = text; value = text }

abbrev calls : ByteStream
calls = record {
  buffer = json_wire login_url text ++ 49 ∷ [];
  pos_read = 0;
  pos_write = length (json_wire login_url text ++ 49 ∷ []);
  manipulator = none;
}

calls-IsValid : IsValid calls
unfolding mlnsdk.Packet.Protocol.encode_json_header mlnsdk.Packet.Protocol.encode_header
    mlnsdk.Packet.Protocol.le_bytes
calls-IsValid = record { ordered = omega arith; inside = omega arith; bounded = omega arith }

member-IsServed : IsServed as_it_is joined 9 member
unfolding create
member-IsServed = record { user = 5; known = refl; manipulator = refl; by_tcp = refl }

abbrev started : Procedure Unit
started = init_handler as_it_is joined 9 same [] (new_procedure none (some json_manipulator))

logins_answered_example :
    (t : Session) × (b' : ByteStream) × (parse_tcp no_handler started.static_elements 2 member calls
      ≡ record { world = t; stream = b'; ending = returned true })
    × (written t.log ≡ json_wire login_url text)
    × IsValid b'
    × (contents b' ≡ 49 ∷ [])
unfolding create mlnsdk.Packet.Protocol.encode_json_header mlnsdk.Packet.Protocol.encode_header
    mlnsdk.Packet.Protocol.le_bytes
logins_answered_example =
    logins_answered as_it_is joined 9 Unit same [] none (request ∷ []) (49 ∷ []) 2 member calls
      (record { sendable = text-IsSendable; ignored = []; parsed = refl }, tt)
      (refl, text-IsSendable, tt) member-IsServed calls-IsValid refl (inl (omega arith))
      (omega arith)
