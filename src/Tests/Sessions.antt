-- ===== src/Tests/Sessions.antt =====
-- Runs of session.hpp.
use mlnsdk.Base.{
  ℕ, lookup, inl, inr, Bool-cases, ◌==◌, ◌≤◌, ◌≡◌, refl, true, none, some, List, [], ◌∷◌, arith,
}
use mlnsdk.Base.Outcome.{Outcome, ok}
use mlnsdk.ByteStream.{ByteStream, new_stream}
use mlnsdk.Session.Types.{Session, tcp, success, eof, other}
use mlnsdk.Session.{create, start_accept, close_reserve, on_close_reserve_time}
use mlnsdk.Session.Events.{
  Event, received, task, close, failed, reserve_elapsed, run, DispatchCallback, AreQuiet, closes,
  retries, arms,
}
use mlnsdk.Session.Lifecycle.{close_told_once}
use mlnsdk.Session.Counting.{dispatches, Spares}
use mlnsdk.Session.Pending.{callback, pending_exact}
use mlnsdk.Packet.Parser.{Handler, PacketMap}
use mlnsdk.Packet.Parse.{parse}
use mlnsdk.Sample.{no_handler}
use mlnsdk.Procedure.{Procedure, new_procedure, dispatch}
use mlnsdk.Session.Timers.{keep_alive_never_armed, retries_bounded}

-- A callback that takes what has been received.
abbrev taking : DispatchCallback
taking s b = record s { recv_stream = some (new_stream 8); read_pending = 0 }

taking-quiet : AreQuiet taking
taking-quiet s b = record {
  status = refl;
  keep_alive_time = refl;
  retry_count = refl;
  queue = refl;
  closes_same = refl;
  retries_same = refl;
  arms_same = refl;
}

abbrev fresh : Session
fresh = start_accept (create tcp none true 1 5000)

-- Bytes come in, the peer ends the connection, and the tasks posted for both run.
abbrev talk : List Event
talk = received success (1 ∷ 2 ∷ []) ∷ received eof [] ∷ task ∷ task ∷ []

abbrev result_of : Outcome Session → Session
result_of (ok s) = s
result_of _ = fresh

abbrev after_talk : Session
after_talk = result_of (run taking talk fresh)

close_told_once_example : closes after_talk.log ≡ 1
unfolding create start_accept run mlnsdk.Session.Events.step mlnsdk.Session.handle_read
    mlnsdk.ByteStream.write mlnsdk.ByteStream.check_advance_write_buffer new_stream
    mlnsdk.ByteStream.size mlnsdk.Session.Events.pop_task mlnsdk.Session.Events.run_task
    mlnsdk.Session.Events.session_dispatch mlnsdk.Session.on_close
close_told_once_example = close_told_once taking taking-quiet talk fresh after_talk refl refl

keep_alive_never_armed_example : arms after_talk.log ≡ 0
unfolding run mlnsdk.Session.Events.step mlnsdk.Session.handle_read start_accept create
    mlnsdk.ByteStream.write mlnsdk.ByteStream.check_advance_write_buffer new_stream
    mlnsdk.ByteStream.size mlnsdk.Session.Events.pop_task mlnsdk.Session.Events.run_task
    mlnsdk.Session.Events.session_dispatch mlnsdk.Session.on_close
keep_alive_never_armed_example =
    keep_alive_never_armed taking taking-quiet tcp none true 1 5000 talk after_talk refl

-- An error that is retried while a packet is pending.
abbrev retrying : List Event
retrying = received success (1 ∷ []) ∷ received (other 4) [] ∷ task ∷ task ∷ []

retries_bounded_example : retries (result_of (run taking retrying fresh)).log ≤ 5
unfolding start_accept create run mlnsdk.Session.Events.step mlnsdk.Session.handle_read
    mlnsdk.ByteStream.write mlnsdk.ByteStream.check_advance_write_buffer new_stream
    mlnsdk.ByteStream.size mlnsdk.Session.Events.pop_task mlnsdk.Session.Events.run_task
    mlnsdk.Session.Events.session_dispatch
retries_bounded_example =
    retries_bounded taking taking-quiet retrying fresh (result_of (run taking retrying fresh))
      (omega arith) (omega arith) (omega arith) refl

-- A handler that leaves the size as the session's user, and the procedure of a service with the
-- sample's handler for other packets.
abbrev sizing : Handler Session
sizing s n b = (record s { user = some n }, b, true)

abbrev sizing_map : PacketMap Session
sizing_map = (2, sizing) ∷ []

sizing-Spares :
    (k : ℕ) (h : Handler Session)
    → lookup k sizing_map ≡ some h
    → (s : Session) (n : ℕ) (b : ByteStream) → Spares s (h s n b).0
sizing-Spares k h e s n b = elim (Bool-cases (2 == k)) [
  | inl same ↦
      let found : h ≡ sizing = cc (rw (same, lookup) at e) in
      rw found (record { same_count = refl; same_dispatches = refl; not_opened = λ o. o })
  | inr differs ↦ absurd (cc (rw (differs, lookup) at e))
]

no_handler-Spares : (s : Session) (b : ByteStream) → Spares s (no_handler s b).0
unfolding no_handler close_reserve
no_handler-Spares s b = record { same_count = refl; same_dispatches = refl; not_opened = λ o. o }

abbrev procedure : Procedure (Unit {0})
procedure = record (new_procedure (some (parse no_handler 3)) none) { static_elements = sizing_map }

procedure-parser : procedure.packet_parser ≡ some (parse no_handler 3)
unfolding new_procedure
procedure-parser = refl

-- A packet and a byte of the next come in, and the task for the first runs.
abbrev packet : List ℕ
packet = 9 ∷ 0 ∷ 0 ∷ 0 ∷ 2 ∷ 0 ∷ 0 ∷ 0 ∷ 77 ∷ []

abbrev reading : List Event
reading = received success packet ∷ received success (9 ∷ []) ∷ task ∷ []

abbrev after_reading : Session
after_reading = result_of (run (callback procedure (parse no_handler 3)) reading fresh)

pending_exact_example : after_reading.read_pending ≡ dispatches after_reading.queue
unfolding create start_accept run mlnsdk.Session.Events.step mlnsdk.Session.handle_read
    mlnsdk.ByteStream.write mlnsdk.ByteStream.check_advance_write_buffer new_stream
    mlnsdk.ByteStream.size mlnsdk.Session.Events.pop_task mlnsdk.Session.Events.run_task
    mlnsdk.Session.Events.session_dispatch dispatch new_procedure
    mlnsdk.Session.dec_read_handler_pending parse mlnsdk.Session.Pending.all_return
    mlnsdk.Packet.Parser.parse_tcp mlnsdk.ByteStream.try_read mlnsdk.ByteStream.read_data
    mlnsdk.Packet.Protocol.decode_header mlnsdk.Packet.Protocol.le_value
    mlnsdk.Packet.Parser.cut_packet mlnsdk.ByteStream.advance_pos_read
    mlnsdk.ByteStream.check_advance_read_buffer mlnsdk.ByteStream.available
    mlnsdk.ByteStream.capacity
pending_exact_example =
    pending_exact procedure no_handler 3 tcp none true 1 5000 reading after_reading procedure-parser
      no_handler-Spares sizing-Spares (omega arith) refl refl refl
