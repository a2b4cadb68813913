-- ===== src/Sample/Echo.antt =====
-- What the sample server answers to logins, from the bytes it received to those it writes.
use mlnsdk.Base.{
  ℕ, ◌<◌, ◌≡◌, refl, sym, ap, ◌∙◌, Bool, true, false, Option, some, List, [], ◌∷◌, ◌++◌,
  append_assoc, length, if◌then◌else◌, append-nil,
}
use mlnsdk.Text.{find_text, insert_text, text_eq}
use mlnsdk.ByteStream.{ByteStream}
use mlnsdk.ByteStream.Contents.{IsValid, contents}
use mlnsdk.Packet.Protocol.{json_manipulator}
use mlnsdk.Packet.Parser.{parse_tcp, returned}
use mlnsdk.Packet.Parser.Framing.{IsPartial, wire}
use mlnsdk.Packet.Json.{JsonHandler, json_dispatch, init, regist_json_packet_handler}
use mlnsdk.Packet.Json.Delivery.{IsSendable, json_wire, send_json_packet_lem}
use mlnsdk.Packet.Json.EndToEnd.{Message, AreMessages, deliver_all, wires, messages_dispatched}
use mlnsdk.Procedure.{Procedure, CustomPacketParser, new_procedure, regist_packet, insert}
use mlnsdk.Session.Types.{
  Session, tcp, is_tcp, Effect, async_read, async_write, arm_keep_alive, arm_close_reserve,
  cancel_timers, close_socket, close_websocket, retried, post_callback, shutdown, event_close,
  event_expired,
}
use mlnsdk.Session.{emit}
use mlnsdk.User.{greeting, send_json_packet, send_json_websocket_packet}
use mlnsdk.Sample.{login_url, sent_last, login, init_handler, no_handler}

-- The bytes that were written, the earliest first.
abbrev pub written : List Effect → List ℕ
written [] = []
written (async_write bytes ∷ l) = written l ++ bytes
written (async_read _ ∷ l) = written l
written (arm_keep_alive _ ∷ l) = written l
written (arm_close_reserve _ ∷ l) = written l
written (cancel_timers ∷ l) = written l
written (close_socket ∷ l) = written l
written (close_websocket ∷ l) = written l
written (retried ∷ l) = written l
written (post_callback ∷ l) = written l
written (shutdown _ ∷ l) = written l
written (event_close ∷ l) = written l
written (event_expired ∷ l) = written l

module _ {J : Type 0} (serialize : J → List ℕ) (wrap : List ℕ → List ℕ → List ℕ) (garbage : ℕ) where
  -- Logins, whose values have texts that can be sent.
  abbrev pub AreLogins : List (Message J) → Type 0
  AreLogins [] = Unit
  AreLogins (m ∷ ms) = (m.url ≡ login_url) × IsSendable login_url (serialize m.value) × AreLogins ms

  -- The answer to each.
  abbrev pub answers : List (Message J) → List (Message J)
  answers [] = []
  answers (m ∷ ms) =
      record { url = login_url; body = serialize m.value; value = m.value } ∷ answers ms

  -- The session of a logged user.
  pub record IsServed (s : Session) : Type 0 where
    pub user : ℕ
    pub known : s.user ≡ some user
    pub manipulator : s.packet_manipulator ≡ some json_manipulator
    pub by_tcp : s.session_type ≡ tcp

  abbrev handlers : List (List ℕ × JsonHandler J)
  handlers = (login_url, login serialize wrap garbage) ∷ []

  -- The session once a login was answered.
  abbrev answered : Session → J → Session
  answered s v = emit (async_write (json_wire login_url (serialize v))) s

  login_lem :
      (user : ℕ) (s : Session) (v : J)
      → IsSendable login_url (serialize v)
      → IsServed s
      → login serialize wrap garbage user login_url v s ≡ (answered s v, false)
  unfolding login
  login_lem user s v fit i =
      ap
        (λ b.
          if b
          then sent_last s (send_json_packet greeting garbage login_url (serialize v) (some s))
          else sent_last s (send_json_websocket_packet (wrap login_url (serialize v)) (some s)))
        (ap is_tcp i.by_tcp)
      ∙ ap (sent_last s) (send_json_packet_lem login_url (serialize v) fit s garbage i.manipulator)

  dispatch_login :
      (json_parse : List ℕ → Bool → Option (J × List ℕ)) (beyond : List ℕ) (s : Session) (v : J)
      → IsSendable login_url (serialize v)
      → IsServed s
      → json_dispatch json_parse beyond handlers s login_url v ≡ answered s v
  unfolding json_dispatch find_text text_eq
  dispatch_login json_parse beyond s v fit i =
      rw (i.known, json_dispatch)
        (rw (login_lem i.user s v fit i) (ap (λ o. record (answered s v) { user = o }) i.known))

  -- The session once all logins were answered.
  abbrev pub answered_all : Session → List (Message J) → Session
  answered_all s [] = s
  answered_all s (m ∷ ms) = answered_all (answered s m.value) ms

  deliver_all-logins :
      (json_parse : List ℕ → Bool → Option (J × List ℕ)) (beyond : List ℕ) (ms : List (Message J))
      (s : Session)
      → AreLogins ms
      → IsServed s
      → deliver_all json_parse beyond handlers s ms ≡ answered_all s ms
  deliver_all-logins json_parse beyond [] s a i = refl
  deliver_all-logins json_parse beyond (m ∷ ms) s (at_login, fit, later) i =
      ap
        (λ u.
          deliver_all json_parse beyond handlers
            (json_dispatch json_parse beyond handlers s u m.value) ms)
        at_login
      ∙ ap (λ t. deliver_all json_parse beyond handlers t ms)
          (dispatch_login json_parse beyond s m.value fit i)
      ∙ deliver_all-logins json_parse beyond ms (answered s m.value) later (record {
        user = i.user;
        known = i.known;
        manipulator = i.manipulator;
        by_tcp = i.by_tcp;
      })

  written-answered_all :
      (ms : List (Message J)) (s : Session)
      → written (answered_all s ms).log ≡ written s.log ++ wire (wires (answers ms))
  written-answered_all [] s = sym (append-nil (written s.log))
  written-answered_all (m ∷ ms) s =
      written-answered_all ms (answered s m.value)
      ∙ append_assoc (written s.log) (json_wire login_url (serialize m.value))
          (wire (wires (answers ms)))

  -- Let a valid stream hold login messages that sendJsonPacket puts on the wire (accepted by the
  -- JSON parser, for the URL /lobby/login, with values whose texts can be sent again), followed by
  -- an incomplete packet, and let a TCP session with the JSON manipulator have a user. Then the
  -- parser of a service whose handlers initHandler registered, with fuel above the number of
  -- messages, returns true; the session has written, after what it had written before, just the
  -- PT_JSON packets of that URL and the values' texts in the order of the logins; and the valid
  -- stream that is left holds just the incomplete packet.
  pub logins_answered :
      (C : Type 0) (json_parse : List ℕ → Bool → Option (J × List ℕ)) (beyond : List ℕ)
      (parser : Option CustomPacketParser) (ms : List (Message J)) (rest : List ℕ) (fuel : ℕ)
      (s : Session) (b : ByteStream)
      → AreMessages json_parse beyond handlers ms
      → AreLogins ms
      → IsServed s
      → IsValid b
      → contents b ≡ wire (wires ms) ++ rest
      → IsPartial rest
      → length ms < fuel
      → let p : Procedure C =
          init_handler serialize wrap garbage json_parse beyond
            (new_procedure parser (some json_manipulator)) in
        (t : Session) × (b' : ByteStream) × (parse_tcp no_handler p.static_elements fuel s b
          ≡ record { world = t; stream = b'; ending = returned true })
        × (written t.log ≡ written s.log ++ wire (wires (answers ms)))
        × IsValid b'
        × (contents b' ≡ rest)
  unfolding init_handler init regist_json_packet_handler insert_text new_procedure regist_packet
      insert
  logins_answered C json_parse beyond parser ms rest fuel s b k a i v c r f =
      let p : Procedure C =
        init_handler serialize wrap garbage json_parse beyond
          (new_procedure parser (some json_manipulator)) in
      let (b', e, v', c') =
        messages_dispatched json_parse beyond handlers p.static_elements refl no_handler ms rest
          fuel s b k v c r f in
      (
        answered_all s ms,
        b',
        e
            ∙ ap (λ t. record { world = t; stream = b'; ending = returned true })
                (deliver_all-logins json_parse beyond ms s a i),
        written-answered_all ms s,
        v',
        c',
      )
