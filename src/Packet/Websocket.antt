-- ===== src/Packet/Websocket.antt =====
-- What a websocket session does with the texts that it receives, from `handleRead` over `dispatch`,
-- `parse` and `readJsonWebsocketPacket` to the URL's handler.
pub mod Piling
use mlnsdk.Base.{
  ℕ, ◌+◌, ◌^◌, ◌<◌, ◌≡◌, refl, sym, ap, ◌∙◌, Bool, true, false, Option, none, some, List, [], ◌∷◌,
  ◌++◌, ltb, if◌then◌else◌, length, to_uint64, inl, arith, take_all,
}
use mlnsdk.Base.Outcome.{Outcome, ok}
use mlnsdk.Text.{find_text}
use mlnsdk.ByteStream.{ByteStream, PacketManipulator, size, read_data}
use mlnsdk.ByteStream.Contents.{IsValid, contents, size_lem, length-contents}
use mlnsdk.ByteStream.Reading.{read_data_lem}
use mlnsdk.ByteStream.Writing.{write_appends}
use mlnsdk.Packet.Parser.{parse_websocket}
use mlnsdk.Packet.Parse.{parse}
use mlnsdk.Packet.Json.{JsonHandler, json_dispatch, read_json_websocket_packet, init}
use mlnsdk.Procedure.{new_procedure, dispatch, insert, regist_packet, after_parse}
use mlnsdk.Session.Types.{
  Session, websocket, open_status, Effect, async_read, arm_keep_alive, arm_close_reserve, success,
  dispatch_task,
}
use mlnsdk.Session.{
  emit, close_reserve, renew_expire_time, dec_read_handler_pending, handle_read,
  handle_read_success, inc_read_handler_pending,
}
use mlnsdk.Session.Events.{Event, received, task, run, step, pop_task, run_task, session_dispatch}

abbrev pub renewed : ℕ → List Effect → List Effect
renewed k l = if ltb 0 k then arm_keep_alive k ∷ l else l

pub renew_lem :
    (s : Session) → renew_expire_time s ≡ record s { log = renewed s.keep_alive_time s.log }
unfolding renew_expire_time
renew_lem s =
    elim (ltb 0 s.keep_alive_time)
      as (λ t.
        (if t then emit (arm_keep_alive s.keep_alive_time) s else s)
        ≡ record s { log = if t then arm_keep_alive s.keep_alive_time ∷ s.log else s.log }) [
          | true ↦ refl
          | false ↦ refl
        ]

read_all : (b : ByteStream) → IsValid b → read_data b (size b) ≡ ok (contents b)
read_all b v =
    read_data_lem b (size b) v (omega (arith, size_lem b v))
    ∙ ap ok (take_all (contents b) _ (omega (arith, length-contents b v)))

-- An open websocket session with nothing to do and a stream.
abbrev pub idle : Session → ByteStream → Session
idle s b = record s {
  session_type = websocket;
  status = open_status;
  recv_stream = some b;
  queue = [];
}

-- The session that a handler is given, and the one after it.
abbrev pub heard : Session → ByteStream → Session
heard s b = record (idle s b) {
  read_pending = to_uint64 (s.read_pending + 1);
  log = renewed s.keep_alive_time (async_read websocket ∷ s.log);
}

abbrev pub finished : ByteStream → Session → Session
finished b s = dec_read_handler_pending (record s { recv_stream = some b })

-- One text arrives, and the task that this posts is run.
abbrev pub round : List ℕ → List Event
round text = received success text ∷ task ∷ []

module _ {J : Type 0} (json_parse : List ℕ → Bool → Option (J × List ℕ)) (beyond : List ℕ)
    (urls : List (List ℕ × JsonHandler J)) (manip : Option PacketManipulator)
    (no_handler : Session → ByteStream → Session × ByteStream) (fuel : ℕ) where
  -- What a session does when it is given a text.
  abbrev pub told_by : Option (J × List ℕ) → Session → Session
  told_by none s = close_reserve 0 s
  told_by (some (jv, url)) s = json_dispatch json_parse beyond urls s url jv

  abbrev pub told : List ℕ → Session → Session
  told text s = told_by (json_parse text true) s

  -- The dispatch of a service with the JSON parser and these handlers.
  abbrev pub serve : Session → ByteStream → Session
  serve s b =
      (dispatch
        (init {C = Unit {0}} json_parse beyond urls
          (new_procedure (some (parse no_handler fuel)) manip))
        s b).0

  -- What the handler returns for what the JSON library finds.
  abbrev reply : Session → ByteStream → Option (J × List ℕ) → Outcome (Session × ByteStream × Bool)
  reply s b none = ok (close_reserve 0 s, b, false)
  reply s b (some (jv, url)) = ok (json_dispatch json_parse beyond urls s url jv, b, true)

  abbrev is_some : Option (J × List ℕ) → Bool
  is_some none = false
  is_some (some _) = true

  reply_lem :
      (s : Session) (b : ByteStream) (r : Option (J × List ℕ))
      → reply s b r ≡ ok (told_by r s, b, is_some r)
  reply_lem s b none = refl
  reply_lem s b (some (jv, url)) = refl

  read_lem :
      (n : ℕ) (s : Session) (b : ByteStream)
      → IsValid b
      → read_json_websocket_packet json_parse beyond urls s n b
        ≡ ok (told (contents b) s, b, is_some (json_parse (contents b) true))
  unfolding read_json_websocket_packet
  read_lem n s b v = rw (read_all b v) (reply_lem s b (json_parse (contents b) true))

  serve_lem :
      (s : Session) (b : ByteStream)
      → IsValid b
      → serve (idle s b) b ≡ finished b (told (contents b) (idle s b))
  unfolding dispatch init new_procedure regist_packet insert after_parse parse parse_websocket
  serve_lem s b v =
      ap
        (λ (o : Outcome (Session × ByteStream × Bool)).
          let r : Session × ByteStream × Bool = elim o [ ok r ↦ r | _ ↦ (idle s b, b, false) ] in
          dec_read_handler_pending (record r.0 { recv_stream = some r.1 }))
        (read_lem (size b) (idle s b) b v)

  pub websocket_round :
      (s : Session) (b : ByteStream) (text : List ℕ)
      → IsValid b
      → b.pos_read ≡ 0
      → b.pos_write + length text < 2 ^ 31
      → (b' : ByteStream) × (run serve (round text) (idle s b)
          ≡ ok (finished b' (told (contents b ++ text) (heard s b'))))
        × IsValid b'
        × (contents b' ≡ contents b ++ text)
        × (b'.pos_read ≡ 0)
        × (b'.pos_write ≡ b.pos_write + length text)
  unfolding run step pop_task run_task session_dispatch handle_read handle_read_success
      inc_read_handler_pending
  websocket_round s b text v front small =
      let (b', wrote, v', c, r, w, m) = write_appends b text v small (inl front) in
      (
        b',
        rw wrote (
            rw
              (renew_lem (record (idle s b') {
                read_pending = to_uint64 (s.read_pending + 1);
                log = async_read websocket ∷ s.log;
                queue = dispatch_task ∷ [];
              }))
              (ap ok
                (serve_lem (heard s b') b' v' ∙ ap (λ t. finished b' (told t (heard s b'))) c))),
        v',
        c,
        r ∙ front,
        w,
      )
