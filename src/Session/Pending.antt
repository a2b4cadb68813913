-- ===== src/Session/Pending.antt =====
-- session.hpp with the dispatch of packetProcedure.hpp: what the count of pending reads counts.
use mlnsdk.Base.{
  ℕ, suc, ◌+◌, ◌^◌, ◌≤◌, ◌<◌, ◌≡◌, refl, ap, sym, subst, ◌∙◌, inl, inr, Bool-cases, Bool, true,
  false, Option, none, some, List, [], ◌∷◌, length, lookup, ◌&&◌, arith,
}
use mlnsdk.Base.Outcome.{Outcome, ok, thrown, fault, ◌>>=◌}
use mlnsdk.ByteStream.{ByteStream, PacketManipulator}
use mlnsdk.Packet.Parser.{Handler, Parsed, Ending, returned, bad_call, broken, running}
use mlnsdk.Packet.Parse.{parse}
use mlnsdk.Session.Sparing.{parse-Spares}
use mlnsdk.Procedure.{Procedure, CustomPacketParser, dispatch, after_parse}
use mlnsdk.Session.Types.{Session, SessionType, is_open, Task, dispatch_task, close_task, read_task}
use mlnsdk.Session.{
  create, start_accept, renew_expire_time, handle_write, on_expired, try_close_by_failed, on_close,
  close_reserve, on_close_reserve_time, send_byte_stream, send_raw, send_fixed_buffer, set_user,
  dec_read_handler_pending,
}
use mlnsdk.Session.Events.{
  Event, DispatchCallback, session_dispatch, run_task, pop_task, step, run, Ensures, Ensures-ok,
}
use mlnsdk.Session.Counting.{
  dispatches, IsCounted, Spares, Spares-IsCounted, on_close-Spares, try_close-Spares,
  handle_read-IsCounted, handle_write-Spares, on_expired-Spares, on_close_reserve_time-Spares,
  send_byte_stream-Spares, send_raw-Spares, counted,
}

abbrev pub is_returned : Ending → Bool
is_returned (returned r) = true
is_returned bad_call = false
is_returned broken = false
is_returned running = false

both : (a b : Bool) → (a && b) ≡ true → (a ≡ true) × (b ≡ true)
both a b e = ground arith

after_parse-returned :
    (r : Parsed Session)
    → is_returned (after_parse r).1 ≡ true
    → (after_parse r).0 ≡ dec_read_handler_pending (record r.world { recv_stream = some r.stream })
unfolding after_parse
after_parse-returned r e = ground arith

-- A dispatch that was counted is done.
dec-IsCounted :
    (n : ℕ) (s : Session) (b : ByteStream)
    → n < 2 ^ 64
    → s.read_pending ≤ n
    → s.read_pending ≡ suc (dispatches s.queue)
    → IsCounted (suc n) (dec_read_handler_pending (record s { recv_stream = some b }))
unfolding dec_read_handler_pending
dec-IsCounted n s b small bounded counts = ground arith

started-IsCounted :
    (type : SessionType) (manip : Option PacketManipulator) (receiver : Bool)
    (identity keep_alive_ms : ℕ)
    → IsCounted 0 (start_accept (create type manip receiver identity keep_alive_ms))
unfolding start_accept create renew_expire_time
started-IsCounted type manip receiver identity keep_alive_ms = ground arith

module _ {C : Type 0} (p : Procedure C) (custom : CustomPacketParser) where
  -- What the service's sessions are given as their dispatch callback.
  abbrev pub callback : DispatchCallback
  callback s b = (dispatch p s b).0

  -- Whether a dispatch that is run returns.
  abbrev pub returns_on : List Task → Option ByteStream → Session → Bool
  returns_on (dispatch_task ∷ q) (some b) s = is_returned (dispatch p (record s { queue = q }) b).1
  returns_on (dispatch_task ∷ q) none s = true
  returns_on (close_task ∷ q) o s = true
  returns_on (read_task ec bytes ∷ q) o s = true
  returns_on [] o s = true

  abbrev pub returns_at : Event → Session → Bool
  returns_at Event.task s = returns_on s.queue s.recv_stream s
  returns_at _ s = true

  unfoldable pub all_return : List Event → Session → Bool
  all_return [] s = true
  all_return (e ∷ es) s =
      returns_at e s && (elim (step callback e s) [ ok t ↦ all_return es t | _ ↦ true ])

  go_on :
      (P Q : Session → Type 0) (es : List Event) (o : Outcome Session)
      → Ensures P o
      → (elim o [ ok t ↦ all_return es t | _ ↦ true ]) ≡ true
      → ((t : Session) → P t → all_return es t ≡ true → Ensures Q (run callback es t))
      → Ensures Q (o >>= run callback es)
  go_on P Q es (ok t) h e k = k t h e
  go_on P Q es thrown h e k = tt
  go_on P Q es fault h e k = tt

  dispatch_open :
      (s : Session) (b : ByteStream)
      → p.packet_parser ≡ some custom
      → is_open s.status ≡ true
      → dispatch p s b ≡ after_parse (custom s b p.instance_elements p.static_elements)
  unfolding dispatch
  dispatch_open s b parser opened = ground arith

  dispatch_shut : (s : Session) (b : ByteStream) → is_open s.status ≡ false → callback s b ≡ s
  unfolding dispatch
  dispatch_shut s b shut = ground arith

  module _ (parser : p.packet_parser ≡ some custom)
      (parse_spares : (s : Session) (b : ByteStream)
        → Spares s (custom s b p.instance_elements p.static_elements).world) where
    dispatched-IsCounted :
        (n : ℕ) (s : Session) (b : ByteStream) (q : List Task)
        → n < 2 ^ 64
        → s.queue ≡ dispatch_task ∷ q
        → IsCounted n s
        → is_returned (dispatch p (record s { queue = q }) b).1 ≡ true
        → IsCounted (suc n) (callback (record s { queue = q }) b)
    dispatched-IsCounted n s b q small queued v returns = elim (Bool-cases (is_open s.status)) [
      | inr shut ↦
          subst (IsCounted (suc n)) (sym (dispatch_shut (record s { queue = q }) b shut))
            (record { bounded = omega (arith, v.bounded); exact = λ h. cc })
      | inl opened ↦
          let s' : Session = record s { queue = q } in
          let r = custom s' b p.instance_elements p.static_elements in
          let spared = parse_spares s' b in
          let same = dispatch_open s' b parser opened in
          let e = after_parse-returned r (ap (λ d. is_returned d.1) (sym same) ∙ returns) in
          subst (IsCounted (suc n)) (sym (ap (λ d. d.0) same ∙ e)) (
            dec-IsCounted n r.world r.stream small (omega (arith, spared.same_count, v.bounded)) (
              spared.same_count
              ∙ v.exact opened
              ∙ ap dispatches queued
              ∙ ap suc (sym spared.same_dispatches)))
    ]

    -- A task of another kind is taken off.
    taken-IsCounted :
        (n : ℕ) (s : Session) (t : Task) (q : List Task)
        → s.queue ≡ t ∷ q
        → dispatches (t ∷ q) ≡ dispatches q
        → IsCounted n s
        → IsCounted n (record s { queue = q })
    taken-IsCounted n s t q e same v = record {
      bounded = v.bounded;
      exact = λ h. v.exact h ∙ ap dispatches e ∙ same;
    }

    session_dispatch-IsCounted :
        (n : ℕ) (s : Session) (q : List Task) (o : Option ByteStream)
        → n < 2 ^ 64
        → s.queue ≡ dispatch_task ∷ q
        → s.recv_stream ≡ o
        → IsCounted n s
        → returns_on (dispatch_task ∷ q) o s ≡ true
        → Ensures (IsCounted (suc n)) (session_dispatch callback (record s { queue = q }))
    unfolding session_dispatch
    session_dispatch-IsCounted n s q none small e none_there v returns = ground arith
    session_dispatch-IsCounted n s q (some b) small e there v returns =
        ground (arith, dispatched-IsCounted n s b q small e v returns)

    pop_task-IsCounted :
        (n : ℕ) (s : Session) (q : List Task)
        → n + 1 < 2 ^ 64
        → s.queue ≡ q
        → IsCounted n s
        → returns_on q s.recv_stream s ≡ true
        → Ensures (IsCounted (suc n)) (pop_task callback q s)
    unfolding pop_task run_task
    pop_task-IsCounted n s [] small e v returns = record {
      bounded = omega (arith, v.bounded);
      exact = v.exact;
    }
    pop_task-IsCounted n s (dispatch_task ∷ q) small e v returns =
        session_dispatch-IsCounted n s q s.recv_stream (omega arith) e refl v returns
    pop_task-IsCounted n s (close_task ∷ q) small e v returns =
        let s' : Session = record s { queue = q } in
        counted n s' (on_close s') (taken-IsCounted n s close_task q e refl v) (on_close-Spares s')
    pop_task-IsCounted n s (read_task ec bytes ∷ q) small e v returns =
        handle_read-IsCounted n ec bytes (record s { queue = q }) small
          (taken-IsCounted n s (read_task ec bytes) q e refl v)

    step-IsCounted :
        (n : ℕ) (e : Event) (s : Session)
        → n + 1 < 2 ^ 64
        → IsCounted n s
        → returns_at e s ≡ true
        → Ensures (IsCounted (suc n)) (step callback e s)
    unfolding step close_reserve send_fixed_buffer set_user
    step-IsCounted n (Event.received ec bytes) s small v returns =
        handle_read-IsCounted n ec bytes s small v
    step-IsCounted n (Event.wrote ec) s small v returns =
        Spares-IsCounted n s (handle_write ec s) v (handle_write-Spares ec s)
    step-IsCounted n (Event.expired ec) s small v returns =
        Spares-IsCounted n s (on_expired ec s) v (on_expired-Spares ec s)
    step-IsCounted n (Event.reserve_elapsed ec post) s small v returns =
        counted n s (on_close_reserve_time ec post s) v (on_close_reserve_time-Spares ec post s)
    step-IsCounted n (Event.failed what) s small v returns =
        Spares-IsCounted n s (try_close_by_failed what s) v (try_close-Spares what s)
    step-IsCounted n Event.task s small v returns =
        pop_task-IsCounted n s s.queue small refl v returns
    step-IsCounted n Event.close s small v returns = counted n s (on_close s) v (on_close-Spares s)
    step-IsCounted n (Event.reserves ms) s small v returns = record {
      bounded = omega (arith, v.bounded);
      exact = v.exact;
    }
    step-IsCounted n (Event.sends bytes header) s small v returns =
        counted n s (send_byte_stream bytes header s) v (send_byte_stream-Spares bytes header s)
    step-IsCounted n (Event.sends_raw bytes) s small v returns =
        counted n s (send_raw bytes s) v (send_raw-Spares bytes s)
    step-IsCounted n (Event.sends_fixed bytes) s small v returns = record {
      bounded = omega (arith, v.bounded);
      exact = v.exact;
    }
    step-IsCounted n (Event.sets_user u) s small v returns = record {
      bounded = omega (arith, v.bounded);
      exact = v.exact;
    }

    run-IsCounted :
        (n : ℕ) (es : List Event) (s : Session)
        → n + length es < 2 ^ 64
        → IsCounted n s
        → all_return es s ≡ true
        → Ensures (IsCounted (n + length es)) (run callback es s)
    unfolding run all_return
    run-IsCounted n [] s small v returns = record {
      bounded = omega (arith, v.bounded);
      exact = v.exact;
    }
    run-IsCounted n (e ∷ es) s small v returns =
        let rest = run-IsCounted (suc n) es in
        let (first, others) = both (returns_at e s) _ returns in
        go_on (IsCounted (suc n)) (IsCounted (n + length (e ∷ es))) es (step callback e s)
          (step-IsCounted n e s (omega arith) v first) others
          (λ t v' returns'.
            subst (λ m. Ensures (IsCounted m) (run callback es t)) (omega arith)
              (rest t (omega arith) v' returns'))

-- Let the dispatch callback of a session be the dispatch of a procedure with the JSON parser, and let
-- neither its registered functions nor the one for other packets change the count of pending reads or the
-- dispatches that wait on the strand, or open the session again. After any run of fewer than 2 ^ 64
-- events that returns, from the accept of a new session on, in which every dispatch that is run returns,
-- the count of an open session is the number of dispatches that wait on its strand.
pub pending_exact :
    {C : Type 0} (p : Procedure C) (no_handler : Session → ByteStream → Session × ByteStream)
    (fuel : ℕ) (type : SessionType) (manip : Option PacketManipulator) (receiver : Bool)
    (identity keep_alive_ms : ℕ) (es : List Event) (t : Session)
    → p.packet_parser ≡ some (parse no_handler fuel)
    → ((s : Session) (b : ByteStream) → Spares s (no_handler s b).0)
    → ((k : ℕ) (h : Handler Session)
        → lookup k p.static_elements ≡ some h
        → (s : Session) (n : ℕ) (b : ByteStream) → Spares s (h s n b).0)
    → length es < 2 ^ 64
    → let s = start_accept (create type manip receiver identity keep_alive_ms) in
      all_return p (parse no_handler fuel) es s ≡ true
      → run (callback p (parse no_handler fuel)) es s ≡ ok t
      → is_open t.status ≡ true
      → t.read_pending ≡ dispatches t.queue
pending_exact p no_handler fuel type manip receiver identity keep_alive_ms es t parser
      default_spares handlers_spare small returns ran opened =
    let s = start_accept (create type manip receiver identity keep_alive_ms) in
    let v =
      run-IsCounted p (parse no_handler fuel) parser
        (λ s b.
          parse-Spares no_handler p.static_elements default_spares handlers_spare fuel s b
            p.instance_elements)
        0 es s (omega arith) (started-IsCounted type manip receiver identity keep_alive_ms)
        returns in
    (Ensures-ok (IsCounted (0 + length es)) v ran).exact opened
