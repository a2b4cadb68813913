-- ===== src/Session/Counting.antt =====
-- session.hpp: which calls change the count of pending reads, and which spare it.
use mlnsdk.Base.{ℕ, suc, ◌+◌, ◌^◌, ◌≤◌, ◌<◌, ◌≡◌, ◌∙◌, Bool, true, List, [], ◌∷◌, ◌++◌, arith}
use mlnsdk.Base.Outcome.{Outcome}
use mlnsdk.Session.Types.{
  Session, is_open, ErrorCode, success, Shutdown, Task, dispatch_task, close_task, read_task,
  send_side,
}
use mlnsdk.Session.{
  renew_expire_time, handle_read_error, handle_read_success, handle_read, handle_write, on_expired,
  try_close_by_failed, on_close, on_close_reserve_time, send_byte_stream, send_raw,
}
use mlnsdk.Session.Events.{Ensures, Ensures-map}

-- The dispatches that wait on the strand.
abbrev pub dispatches : List Task → ℕ
dispatches [] = 0
dispatches (dispatch_task ∷ q) = suc (dispatches q)
dispatches (close_task ∷ q) = dispatches q
dispatches (read_task ec bytes ∷ q) = dispatches q

dispatches-snoc :
    (q : List Task) (t : Task) → dispatches (q ++ t ∷ []) ≡ dispatches q + dispatches (t ∷ [])
dispatches-snoc [] t = ground arith
dispatches-snoc (dispatch_task ∷ q) t = omega (arith, dispatches-snoc q t)
dispatches-snoc (close_task ∷ q) t = dispatches-snoc q t
dispatches-snoc (read_task ec bytes ∷ q) t = dispatches-snoc q t

-- After at most `n` calls: while the session is open, exactly the dispatches that wait are counted.
pub record IsCounted (n : ℕ) (s : Session) : Type 0 where
  pub bounded : s.read_pending ≤ n
  pub exact : is_open s.status ≡ true → s.read_pending ≡ dispatches s.queue

-- A call that leaves count and posted dispatches alone, and does not open the session again.
pub record Spares (s t : Session) : Type 0 where
  pub same_count : t.read_pending ≡ s.read_pending
  pub same_dispatches : dispatches t.queue ≡ dispatches s.queue
  pub not_opened : is_open t.status ≡ true → is_open s.status ≡ true

pub Spares-IsCounted : (n : ℕ) (s t : Session) → IsCounted n s → Spares s t → IsCounted (suc n) t
Spares-IsCounted n s t v p = record {
  bounded = omega (arith, p.same_count, v.bounded);
  exact = λ h. p.same_count ∙ v.exact (p.not_opened h) ∙ (omega (arith, p.same_dispatches));
}

pub on_close-Spares : (s : Session) → Ensures (Spares s) (on_close s)
unfolding on_close
on_close-Spares s = ground arith

pub try_close-Spares : (what : Shutdown) (s : Session) → Spares s (try_close_by_failed what s)
unfolding try_close_by_failed
try_close-Spares what s = ground (arith, dispatches-snoc s.queue close_task)

handle_read_error-Spares :
    (ec : ErrorCode) (bytes : List ℕ) (s : Session) → Spares s (handle_read_error ec bytes s)
unfolding handle_read_error
handle_read_error-Spares ec bytes s =
    ground (arith, dispatches-snoc s.queue close_task, dispatches-snoc s.queue (read_task ec bytes))

handle_read_success-IsCounted :
    (n : ℕ) (bytes : List ℕ) (s : Session)
    → n + 1 < 2 ^ 64
    → IsCounted n s
    → Ensures (IsCounted (suc n)) (handle_read_success bytes s)
unfolding handle_read_success
handle_read_success-IsCounted n bytes s small v =
    ground (arith, dispatches-snoc s.queue dispatch_task, v.exact)

pub handle_read-IsCounted :
    (n : ℕ) (ec : ErrorCode) (bytes : List ℕ) (s : Session)
    → n + 1 < 2 ^ 64
    → IsCounted n s
    → Ensures (IsCounted (suc n)) (handle_read ec bytes s)
unfolding handle_read
handle_read-IsCounted n success bytes s small v = handle_read_success-IsCounted n bytes s small v
handle_read-IsCounted n ec bytes s small v =
    Spares-IsCounted n s (handle_read_error ec bytes s) v (handle_read_error-Spares ec bytes s)

pub handle_write-Spares : (ec : ErrorCode) (s : Session) → Spares s (handle_write ec s)
unfolding handle_write renew_expire_time
handle_write-Spares success s = ground arith
handle_write-Spares ec s = try_close-Spares send_side s

pub on_expired-Spares : (ec : ErrorCode) (s : Session) → Spares s (on_expired ec s)
unfolding on_expired
on_expired-Spares success s = ground arith
on_expired-Spares ec s = ground arith

pub on_close_reserve_time-Spares :
    (ec : ErrorCode) (post : Bool) (s : Session)
    → Ensures (Spares s) (on_close_reserve_time ec post s)
unfolding on_close_reserve_time
on_close_reserve_time-Spares ec post s = ground arith

pub send_byte_stream-Spares :
    (bytes : List ℕ) (header : Bool) (s : Session)
    → Ensures (Spares s) (send_byte_stream bytes header s)
unfolding send_byte_stream
send_byte_stream-Spares bytes header s = ground arith

pub send_raw-Spares : (bytes : List ℕ) (s : Session) → Ensures (Spares s) (send_raw bytes s)
unfolding send_raw
send_raw-Spares bytes s = ground arith

pub counted :
    (n : ℕ) (s : Session) (r : Outcome Session)
    → IsCounted n s
    → Ensures (Spares s) r
    → Ensures (IsCounted (suc n)) r
counted n s r v p =
    Ensures-map (Spares s) (IsCounted (suc n)) r (λ t q. Spares-IsCounted n s t v q) p
