-- ===== src/Service/Common.antt =====
-- include/net/netCommonObjects.hpp: what a service keeps beside its sockets, and its timer. Times are
-- those of the system clock, in nanoseconds. The packet procedure is of a type P, which the callback
-- initHandler changes by `init`.
pub mod Rounding
use mlnsdk.Base.{
  ℕ, ◌+◌, ◌-◌, ◌*◌, ◌/◌, ◌%◌, ◌^◌, ◌≤◌, ◌<◌, ◌≡◌, refl, ◌∙◌, ap, Bool, true, false, Option, none,
  some, List, [], ◌∷◌, length, leb, ◌==◌, if◌then◌else◌, arith,
}
use mlnsdk.Base.Outcome.{Outcome, ok, thrown, ◌>>=◌}
use mlnsdk.Service.Receiver.{Callback, EventReceiver, new_receiver, clone, invoked}

-- `waiting`: a wait of the timer is under way whose handler is to be called with no error; `told` are
-- the calls of onUpdate, the latest first.
pub record NetCommonObjects (P : Type 0) : Type 0 where
  pub packet_proc : P
  pub event_receiver : EventReceiver
  pub keep_alive_time_ms : ℕ
  pub update_time_ms : ℕ
  pub index : ℕ
  pub prev_time : ℕ
  pub waiting : Bool
  pub told : List (Callback × ℕ)

module _ {P : Type 0} where
  -- The constructor; it leaves the index uninitialised.
  unfoldable pub new_common :
      (Callback → P → P) → P → EventReceiver → ℕ → ℕ → ℕ → Outcome (NetCommonObjects P)
  new_common init proc receiver update_time keep_alive_time index =
      let r = clone receiver new_receiver in
      invoked r.init_handler >>= λ c. ok (record {
        packet_proc = init c proc;
        event_receiver = r;
        keep_alive_time_ms = keep_alive_time;
        update_time_ms = update_time;
        index = index;
        prev_time = 0;
        waiting = false;
        told = [];
      })

  unfoldable pub set_index : ℕ → NetCommonObjects P → NetCommonObjects P
  set_index index n = record n { index = index }

  -- `expireTimerReady`, at a time.
  unfoldable pub expire_timer_ready : ℕ → NetCommonObjects P → NetCommonObjects P
  expire_timer_ready now n =
      if n.update_time_ms == 0 then n else record n { prev_time = now; waiting = true }

-- A time since another one in milliseconds, rounded towards zero, as an `unsigned long` of 64 bits.
unfoldable pub elapsed : ℕ → ℕ → ℕ
elapsed now prev =
    if leb prev now
    then ((now - prev) / 1000000) % 2 ^ 64
    else (2 ^ 64 - ((prev - now) / 1000000) % 2 ^ 64) % 2 ^ 64

module _ {P : Type 0} where
  -- `handleUpdate`, given whether there is an error, at a time.
  unfoldable pub handle_update : Bool → ℕ → NetCommonObjects P → Outcome (NetCommonObjects P)
  unfolding elapsed
  handle_update true now n = ok (record n { waiting = false })
  handle_update false now n = invoked n.event_receiver.on_update >>= λ c.
      ok
        (record n { prev_time = now; told = (c, elapsed now n.prev_time) ∷ n.told; waiting = true })

  -- The timer fires at these times.
  unfoldable pub updates : List ℕ → NetCommonObjects P → Outcome (NetCommonObjects P)
  updates [] n = ok n
  updates (t ∷ ts) n = handle_update false t n >>= updates ts
