-- ===== src/Tests/Websockets.antt =====
-- Runs of a websocket session.
use mlnsdk.Base.{
  ℕ, ◌≡◌, refl, ap, subst, Bool, true, false, Option, none, some, List, [], ◌∷◌, length, ◌==◌,
  if◌then◌else◌, arith,
}
use mlnsdk.Base.Outcome.{ok}
use mlnsdk.Text.{find_text, text_eq}
use mlnsdk.ByteStream.{ByteStream, new_stream}
use mlnsdk.ByteStream.Contents.{IsValid}
use mlnsdk.Packet.Json.{JsonHandler}
use mlnsdk.Packet.Websocket.{idle, serve, round}
use mlnsdk.Packet.Websocket.Piling.{IsMild, second_text_closes}
use mlnsdk.Session.Types.{Session, websocket, async_read, async_write, arm_close_reserve}
use mlnsdk.Session.{create, start_accept, emit}
use mlnsdk.Session.Events.{run}

-- A JSON library for texts of two bytes, whose URL is "/a".
abbrev two_bytes : List ℕ → Bool → Option (List ℕ × List ℕ)
two_bytes text get_url = if length text == 2 then some (text, 47 ∷ 97 ∷ []) else none

abbrev text : List ℕ
text = 123 ∷ 125 ∷ []

abbrev echo : JsonHandler (List ℕ)
echo user url value s = (emit (async_write value) s, false)

abbrev urls : List (List ℕ × JsonHandler (List ℕ))
urls = (47 ∷ 97 ∷ [], echo) ∷ []

abbrev ignoring : Session → ByteStream → Session × ByteStream
ignoring s b = (s, b)

echo_found :
    (found : Bool) (h : JsonHandler (List ℕ))
    → (if found then some echo else none) ≡ some h
    → IsMild h
echo_found true h e =
    subst IsMild (ap (λ x. elim x [ none ↦ echo | some h ↦ h ]) e) (λ user url value s. refl)
echo_found false h e = absurd (ground (arith, e))

urls-AreMild : (url : List ℕ) (h : JsonHandler (List ℕ)) → find_text url urls ≡ some h → IsMild h
unfolding find_text
urls-AreMild url h e = echo_found (text_eq (47 ∷ 97 ∷ []) url) h e

-- A session that was just accepted, for a user.
abbrev guest : Session
guest = record (start_accept (create websocket none true 1 0)) { user = some 5 }

abbrev empty : ByteStream
empty = new_stream 8

empty-IsValid : IsValid empty
unfolding new_stream
empty-IsValid = record { ordered = omega arith; inside = omega arith; bounded = omega arith }

second_text_closes_example :
    (t t' : Session) × (run
        (serve two_bytes [] urls none ignoring 1)
        (round text)
        (idle guest empty)
      ≡ ok t)
    × (run (serve two_bytes [] urls none ignoring 1) (round text) t ≡ ok t')
    × (t'.log ≡ arm_close_reserve 0 ∷ async_read websocket ∷ t.log)
    × (t'.user ≡ t.user)
unfolding create start_accept new_stream
second_text_closes_example =
    second_text_closes two_bytes [] urls none ignoring 1 guest empty text text urls-AreMild
      empty-IsValid refl refl (omega arith) refl
