-- ===== src/Procedure/Pieces.antt =====
-- What an open TCP session does with the bytes of its peer, in the pieces that they come in: from
-- `handleRead` of session.hpp over `dispatch` and `parse` to the handlers.
use mlnsdk.Base.{
  ℕ, ◌+◌, ◌^◌, ◌≤◌, ◌<◌, ◌≡◌, refl, sym, ap, ◌∙◌, inr, Option, some, List, [], ◌∷◌, ◌++◌,
  append-nil, append_assoc, length, to_uint64, arith, length-append,
}
use mlnsdk.Base.Outcome.{ok}
use mlnsdk.ByteStream.{ByteStream, PacketManipulator}
use mlnsdk.ByteStream.Contents.{IsValid, contents}
use mlnsdk.ByteStream.Writing.{HasRoom, write_appends, write-longer}
use mlnsdk.Packet.Parser.{Ending}
use mlnsdk.Packet.Parser.Chunks.{joined}
use mlnsdk.Packet.Parser.Framing.{wire, IsPartial, ArePackets, handle, handle_all}
use mlnsdk.Packet.Parser.Splitting.{split, none_whole}
use mlnsdk.Packet.Websocket.{renewed, renew_lem}
use mlnsdk.Procedure.{dispatch}
use mlnsdk.Procedure.Written.{writes, sending, writes-sending, writes-renewed}
use mlnsdk.Procedure.Registering.{Registration, functions, service, first_functions-Stays}
use mlnsdk.Session.Types.{Session, tcp, open_status, Effect, async_read, success, dispatch_task}
use mlnsdk.Session.{
  dec_read_handler_pending, handle_read, handle_read_success, inc_read_handler_pending,
}
use mlnsdk.Session.Events.{Event, received, task, run, step, pop_task, run_task, session_dispatch}

-- An open TCP session with nothing to do and a stream.
abbrev pub listening : Session → ByteStream → Session
listening s b = record s {
  session_type = tcp;
  status = open_status;
  recv_stream = some b;
  queue = [];
}

-- The session that the handlers are given.
abbrev heard : Session → ByteStream → Session
heard s b = record (listening s b) {
  read_pending = to_uint64 (s.read_pending + 1);
  log = renewed s.keep_alive_time (async_read tcp ∷ s.log);
}

-- Each piece arrives, and the task that this posts is run.
abbrev pub rounds : List (List ℕ) → List Event
rounds [] = []
rounds (c ∷ cs) = received success c ∷ task ∷ rounds cs

module _ (act : Option ℕ → List ℕ → Option ℕ) (replies : Option ℕ → List ℕ → List (List ℕ)) where
  abbrev pub user_after : Option ℕ → List (List ℕ) → Option ℕ
  user_after u [] = u
  user_after u (p ∷ ps) = user_after (act u p) ps

  abbrev log_after : Option ℕ → List Effect → List (List ℕ) → List Effect
  log_after u l [] = l
  log_after u l (p ∷ ps) = log_after (act u p) (sending (replies u p) l) ps

  -- What is written for packets, the latest first, on top of what was.
  abbrev pub written_after : Option ℕ → List (List ℕ) → List (List ℕ) → List (List ℕ)
  written_after u w [] = w
  written_after u w (p ∷ ps) = written_after (act u p) (replies u p ++ w) ps

  writes-log_after :
      (ps : List (List ℕ)) (u : Option ℕ) (l : List Effect)
      → writes (log_after u l ps) ≡ written_after u (writes l) ps
  writes-log_after [] u l = refl
  writes-log_after (p ∷ ps) u l =
      writes-log_after ps (act u p) (sending (replies u p) l)
      ∙ ap (λ (w : List (List ℕ)). written_after (act u p) w ps) (writes-sending (replies u p) l)

  user_after-append :
      (ps qs : List (List ℕ)) (u : Option ℕ)
      → user_after u (ps ++ qs) ≡ user_after (user_after u ps) qs
  user_after-append [] qs u = refl
  user_after-append (p ∷ ps) qs u = user_after-append ps qs (act u p)

  written_after-append :
      (ps qs : List (List ℕ)) (u : Option ℕ) (w : List (List ℕ))
      → written_after u w (ps ++ qs) ≡ written_after (user_after u ps) (written_after u w ps) qs
  written_after-append [] qs u w = refl
  written_after-append (p ∷ ps) qs u w = written_after-append ps qs (act u p) (replies u p ++ w)

  module _ (no_handler : Session → ByteStream → Session × ByteStream) (fuel : ℕ)
      (manip : Option PacketManipulator) (rs : List Registration) where
    -- The handlers look at the user and the packet only, change the user and write replies.
    abbrev pub AreReplying : Type 0
    AreReplying =
        (s : Session) (p : List ℕ)
        → s.session_type ≡ tcp
        → handle (functions rs) s p
          ≡ record s { user = act s.user p; log = sending (replies s.user p) s.log }

    abbrev pub serve : Session → ByteStream → Session
    serve s b = (dispatch (service no_handler fuel manip rs) s b).0

    handled_lem :
        (ps : List (List ℕ)) (s : Session)
        → AreReplying
        → s.session_type ≡ tcp
        → handle_all (functions rs) s ps
          ≡ record s { user = user_after s.user ps; log = log_after s.user s.log ps }
    handled_lem [] s k t = refl
    handled_lem (p ∷ ps) s k t =
        ap (λ (x : Session). handle_all (functions rs) x ps) (k s p t)
        ∙ handled_lem ps (record s { user = act s.user p; log = sending (replies s.user p) s.log })
            k t

    -- The session after a piece.
    abbrev told : Session → ByteStream → List (List ℕ) → Session
    told s b ps = dec_read_handler_pending (record (heard s b) {
      user = user_after s.user ps;
      log = log_after s.user (heard s b).log ps;
    })

    round_lem :
        (c : List ℕ) (come : List (List ℕ)) (left : List ℕ) (es : List Event) (s : Session)
        (b : ByteStream)
        → AreReplying
        → IsValid b
        → b.pos_write + length c ≤ length b.buffer
        → contents b ++ c ≡ wire come ++ left
        → ArePackets (functions rs) come
        → IsPartial left
        → length come < fuel
        → (b1 b2 : ByteStream) × (run serve (received success c ∷ task ∷ es) (listening s b)
            ≡ run serve es (listening (told s b1 come) b2))
          × IsValid b2
          × (contents b2 ≡ left)
          × (b2.pos_write ≤ b.pos_write + length c)
          × (length b.buffer ≤ length b2.buffer)
    unfolding run step pop_task run_task session_dispatch handle_read handle_read_success
        inc_read_handler_pending dec_read_handler_pending
    round_lem c come left es s b k v room joins ks part f =
        let below : b.pos_write + length c < 2 ^ 31 = omega (arith, v.bounded) in
        let fits : HasRoom b (length c) = inr (omega arith) in
        let (b1, wrote, v1, c1, _, w1, _) = write_appends b c v below fits in
        let longer = write-longer b b1 c v below fits wrote in
        let (b2, e, v2, c2, stays) =
          first_functions-Stays no_handler fuel manip rs come left (heard s b1) b1 refl refl v1
            (c1 ∙ joins) ks part f in
        (
          b1,
          b2,
          rw wrote (
              rw
                (renew_lem (record (listening s b1) {
                  read_pending = to_uint64 (s.read_pending + 1);
                  log = async_read tcp ∷ s.log;
                  queue = dispatch_task ∷ [];
                }))
                (ap (λ (r : Session × Ending). run serve es r.0) e
                  ∙ ap
                      (λ (x : Session).
                        run serve es
                          (dec_read_handler_pending (record x { recv_stream = some b2 })))
                      (handled_lem come (heard s b1) k refl))),
          v2,
          c2,
          omega arith,
          omega arith,
        )

    -- Let a service have the JSON parser and any registrations, and let every function among them
    -- look at no more than the user and the packet, and change the user and write replies only. Let
    -- an open TCP session with nothing queued have a valid stream that holds an incomplete packet
    -- and has room behind its write position for all pieces that come; and let what it holds and
    -- the pieces together be packets, each of 8 to 65535 bytes with its own length in its header and
    -- a code for which a function is registered, and then an incomplete packet. With fuel above the
    -- number of packets, each piece can be received and its task be run, and then, however the bytes
    -- were cut, the user is the one that the packets make in order, what was written is what was
    -- before and then the replies to the packets in order, and the stream holds the incomplete packet.
    pub pieces_served :
        (cs ps : List (List ℕ)) (left rest : List ℕ) (s : Session) (b : ByteStream)
        → AreReplying
        → IsValid b
        → contents b ≡ left
        → IsPartial left
        → b.pos_write + length (joined cs) ≤ length b.buffer
        → left ++ joined cs ≡ wire ps ++ rest
        → ArePackets (functions rs) ps
        → IsPartial rest
        → length ps < fuel
        → (t : Session) × (b' : ByteStream) × (run serve (rounds cs) (listening s b)
            ≡ ok (listening t b'))
          × IsValid b'
          × (contents b' ≡ rest)
          × (t.user ≡ user_after s.user ps)
          × (writes t.log ≡ written_after s.user (writes s.log) ps)
    unfolding run dec_read_handler_pending
    pieces_served [] ps left rest s b k v c l room e ks r f =
        let e' : left ≡ wire ps ++ rest = sym (append-nil left) ∙ e in
        let none = none_whole (functions rs) ps rest left e' ks l in
        (
          s,
          b,
          refl,
          v,
          c ∙ e' ∙ ap (λ (qs : List (List ℕ)). wire qs ++ rest) none,
          ap (user_after s.user) (sym none),
          ap (written_after s.user (writes s.log)) (sym none),
        )
    pieces_served (x ∷ cs) ps left rest s b k v c l room e ks r f =
        let o =
          split (functions rs) ps (left ++ x) (joined cs) rest (append_assoc left x (joined cs) ∙ e)
            ks r in
        let len = length-append x (joined cs) in
        let count = ap length o.all ∙ length-append o.come o.coming in
        let (b1, b2, once, v2, c2, down, up) =
          round_lem x o.come o.left (rounds cs) s b k v (omega arith)
            (ap (λ (ys : List ℕ). ys ++ x) c ∙ o.had) o.are_come o.partial (omega arith) in
        let next = told s b1 o.come in
        let (t, b', more, v', c', user, written) =
          pieces_served cs o.coming o.left rest next b2 k v2 c2 o.partial (omega arith) o.to_have
            o.are_coming r (omega arith) in
        let logged : writes next.log ≡ written_after s.user (writes s.log) o.come =
          writes-log_after o.come s.user (heard s b1).log
          ∙ ap (λ (w : List (List ℕ)). written_after s.user w o.come)
              (writes-renewed s.keep_alive_time s.log) in
        (
          t,
          b',
          once ∙ more,
          v',
          c',
          user ∙ sym (ap (user_after s.user) o.all ∙ user_after-append o.come o.coming s.user),
          written
              ∙ ap (λ (w : List (List ℕ)). written_after (user_after s.user o.come) w o.coming)
                  logged
              ∙ sym (
                  ap (written_after s.user (writes s.log)) o.all
                  ∙ written_after-append o.come o.coming s.user (writes s.log)),
        )
