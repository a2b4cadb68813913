-- ===== src/Packet/Websocket/Piling.antt =====
-- What the texts after the first do to a websocket session.
use mlnsdk.Base.{
  ℕ, ◌+◌, ◌^◌, ◌<◌, ◌≡◌, refl, sym, ap, ◌∙◌, Bool, true, false, Option, none, some, List, [], ◌∷◌,
  ◌++◌, if◌then◌else◌, length, arith,
}
use mlnsdk.Base.Outcome.{ok}
use mlnsdk.Text.{find_text}
use mlnsdk.ByteStream.{ByteStream, PacketManipulator}
use mlnsdk.ByteStream.Contents.{IsValid, contents}
use mlnsdk.Packet.Json.{JsonHandler, json_dispatch}
use mlnsdk.Session.Types.{Session, websocket, Effect, async_read, arm_close_reserve}
use mlnsdk.Session.{close_reserve, dec_read_handler_pending}
use mlnsdk.Session.Events.{DispatchCallback, run}
use mlnsdk.Packet.Websocket.{
  renewed, idle, heard, finished, round, told, told_by, serve, websocket_round,
}

-- A handler that leaves its session as it was but for the user and what it asked for.
abbrev pub IsMild : {J : Type 0} → JsonHandler J → Type 0
IsMild {J} h =
    (user : ℕ) (url : List ℕ) (jv : J) (s : Session)
    → (h user url jv s).0
      ≡ record s { user = (h user url jv s).0.user; log = (h user url jv s).0.log }

module _ {J : Type 0} (json_parse : List ℕ → Bool → Option (J × List ℕ)) (beyond : List ℕ)
    (urls : List (List ℕ × JsonHandler J)) (manip : Option PacketManipulator)
    (no_handler : Session → ByteStream → Session × ByteStream) (fuel : ℕ) where
  -- The dispatch of the service, and what a session does with a text.
  abbrev pub service : DispatchCallback
  service = serve json_parse beyond urls manip no_handler fuel

  abbrev answered_by : Option (J × List ℕ) → Session → Session
  answered_by = told_by json_parse beyond urls manip no_handler fuel

  abbrev answered : List ℕ → Session → Session
  answered = told json_parse beyond urls manip no_handler fuel

  -- The handlers leave the session as it was but for its user and its log.
  abbrev pub AreMild : Type 0
  AreMild = (url : List ℕ) (h : JsonHandler J) → find_text url urls ≡ some h → IsMild h

  abbrev Keeps : Session → Session → Type 0
  Keeps s t = (u : Option ℕ) × (l : List Effect) × (t ≡ record s { user = u; log = l })

  handler-Keeps :
      (h : JsonHandler J) (user : ℕ) (url : List ℕ) (jv : J) (s : Session)
      → IsMild h
      → Keeps s (let (s', threw) = h user url jv s in if threw then close_reserve 0 s' else s')
  unfolding close_reserve
  handler-Keeps h user url jv s mild =
      let s' = (h user url jv s).0 in
      elim (h user url jv s).1 as (λ threw. Keeps s (if threw then close_reserve 0 s' else s')) [
        | true ↦ (s'.user, arm_close_reserve 0 ∷ s'.log, ap (close_reserve 0) (mild user url jv s))
        | false ↦ (s'.user, s'.log, mild user url jv s)
      ]

  -- The session after a dispatch, by what is found for the URL and by its user.
  abbrev dispatched : Session → List ℕ → J → Option (JsonHandler J) → Option ℕ → Session
  dispatched s url jv x u = elim x [
    | none ↦ close_reserve 0 s
    | some h ↦ elim u [
      | none ↦ close_reserve 0 s
      | some user ↦ let (s', threw) = h user url jv s in if threw then close_reserve 0 s' else s'
    ]
  ]

  json_dispatch_lem :
      (url : List ℕ) (jv : J) (s : Session)
      → json_dispatch json_parse beyond urls s url jv
        ≡ dispatched s url jv (find_text url urls) s.user
  unfolding json_dispatch
  json_dispatch_lem url jv s = refl

  dispatched-Keeps :
      (url : List ℕ) (jv : J) (s : Session) (x : Option (JsonHandler J)) (u : Option ℕ)
      → ((h : JsonHandler J) → x ≡ some h → IsMild h)
      → Keeps s (dispatched s url jv x u)
  unfolding close_reserve
  dispatched-Keeps url jv s none u mild = (s.user, arm_close_reserve 0 ∷ s.log, refl)
  dispatched-Keeps url jv s (some h) none mild = (s.user, arm_close_reserve 0 ∷ s.log, refl)
  dispatched-Keeps url jv s (some h) (some user) mild = handler-Keeps h user url jv s (mild h refl)

  dispatch-Keeps :
      (url : List ℕ) (jv : J) (s : Session)
      → AreMild
      → Keeps s (json_dispatch json_parse beyond urls s url jv)
  dispatch-Keeps url jv s mild =
      rw (json_dispatch_lem url jv s)
        (dispatched-Keeps url jv s (find_text url urls) s.user (mild url))

  told-Keeps : (text : List ℕ) (s : Session) → AreMild → Keeps s (answered text s)
  unfolding close_reserve
  told-Keeps text s mild = elim (json_parse text true) as (λ r. Keeps s (answered_by r s)) [
    | none ↦ (s.user, arm_close_reserve 0 ∷ s.log, refl)
    | some (jv, url) ↦ dispatch-Keeps url jv s mild
  ]

  -- The session after one round.
  abbrev after_text : Session → ByteStream → Option ℕ → List Effect → Session
  after_text s b u l = finished b (record (heard s b) { user = u; log = l })

  round-idle :
      (s : Session) (b : ByteStream) (u : Option ℕ) (l : List Effect)
      → idle (after_text s b u l) b ≡ after_text s b u l
  unfolding dec_read_handler_pending
  round-idle s b u l = refl

  -- Let an open websocket session have nothing queued and a valid, empty stream at its front that
  -- stays below the range of an int32_t, let every URL handler change no more of the session than
  -- its user and what it asked for, and let the JSON parser refuse one text with another after it.
  -- When the session has received and dispatched the first and then the second, its user is as
  -- after the first, and all that the second has led to is that the session asked for the next
  -- read, renewed its keep-alive timer where it has one, and asked to be closed at once.
  pub second_text_closes :
      (s : Session) (b : ByteStream) (text next : List ℕ)
      → AreMild
      → IsValid b
      → b.pos_read ≡ 0
      → contents b ≡ []
      → b.pos_write + length text + length next < 2 ^ 31
      → json_parse (text ++ next) true ≡ none
      → (t t' : Session) × (run service (round text) (idle s b) ≡ ok t)
        × (run service (round next) t ≡ ok t')
        × (t'.log ≡ arm_close_reserve 0 ∷ renewed s.keep_alive_time (async_read websocket ∷ t.log))
        × (t'.user ≡ t.user)
  unfolding close_reserve dec_read_handler_pending
  second_text_closes s b text next mild v front empty small refused =
      let (b1, e, v1, c, r, w) =
        websocket_round json_parse beyond urls manip no_handler fuel s b text v front
          (omega arith) in
      let (u, l, k) = told-Keeps (contents b ++ text) (heard s b1) mild in
      let (b2, e2, v2, c2, r2, w2) =
        websocket_round json_parse beyond urls manip no_handler fuel (after_text s b1 u l) b1 next
          v1 r (omega (arith, w)) in
      (
        after_text s b1 u l,
        finished b2 (close_reserve 0 (heard (after_text s b1 u l) b2)),
        e ∙ ap (λ x. ok (finished b1 x)) k,
        ap (run service (round next)) (sym (round-idle s b1 u l))
            ∙ e2
            ∙ ap (λ x. ok (finished b2 (answered_by x (heard (after_text s b1 u l) b2))))
                (ap (λ x. json_parse (x ++ next) true) (c ∙ ap (λ x. x ++ text) empty) ∙ refused),
        refl,
        refl,
      )
