-- ===== src/Service/Receiver.antt =====
-- include/net/eventReceiver.hpp: the callbacks of a service. A callback is an instance of the class
-- they are bound to, a number, and the member that is called.
use mlnsdk.Base.{ℕ, ◌≡◌, refl, Bool, true, false, Option, none, some, if◌then◌else◌}
use mlnsdk.Base.Outcome.{Outcome, ok, thrown}

pub data Member : Type 0 where
  accepting failing_accept connecting failing_connect closing failing_close : Member
  expiring updating missing_handler initialising : Member

abbrev pub Callback : Type 0
Callback = ℕ × Member

-- An empty `std::function` is `none`.
pub record EventReceiver : Type 0 where
  pub on_accept : Option Callback
  pub on_accept_failed : Option Callback
  pub on_connect : Option Callback
  pub on_connect_failed : Option Callback
  pub on_close : Option Callback
  pub on_close_failed : Option Callback
  pub on_expired_session : Option Callback
  pub on_update : Option Callback
  pub no_handler : Option Callback
  pub init_handler : Option Callback

unfoldable pub new_receiver : EventReceiver
new_receiver = record {
  on_accept = none;
  on_accept_failed = none;
  on_connect = none;
  on_connect_failed = none;
  on_close = none;
  on_close_failed = none;
  on_expired_session = none;
  on_update = none;
  no_handler = none;
  init_handler = none;
}

-- `clone`: the receiver and its target.
unfoldable pub clone : EventReceiver → EventReceiver → EventReceiver
clone r target = record target {
  on_accept = r.on_accept;
  on_accept_failed = r.on_accept_failed;
  on_connect = r.on_connect;
  on_connect_failed = r.on_connect_failed;
  on_close = r.on_close;
  on_close_failed = r.on_close_failed;
  on_expired_session = r.on_expired_session;
  on_update = r.on_update;
  no_handler = r.no_handler;
  init_handler = r.init_handler;
}

-- The bindings that both registers make.
unfoldable pub set_common : ℕ → EventReceiver → EventReceiver
set_common inst r = record r {
  on_close = some (inst, closing);
  on_close_failed = some (inst, failing_close);
  on_expired_session = some (inst, expiring);
  on_update = some (inst, updating);
  no_handler = some (inst, missing_handler);
  init_handler = some (inst, initialising);
}

-- `EventReceiverAcceptorRegister`
unfoldable pub acceptor_register : ℕ → EventReceiver
unfolding set_common new_receiver
acceptor_register inst = set_common inst (record new_receiver {
  on_accept = some (inst, accepting);
  on_accept_failed = some (inst, failing_accept);
})

-- `EventReceiverConnectorRegister`
unfoldable pub connector_register : ℕ → EventReceiver
unfolding set_common new_receiver
connector_register inst = set_common inst (record new_receiver {
  on_connect = some (inst, connecting);
  on_connect_failed = some (inst, failing_connect);
})

abbrev pub callback : Member → EventReceiver → Option Callback
callback accepting r = r.on_accept
callback failing_accept r = r.on_accept_failed
callback connecting r = r.on_connect
callback failing_connect r = r.on_connect_failed
callback closing r = r.on_close
callback failing_close r = r.on_close_failed
callback expiring r = r.on_expired_session
callback updating r = r.on_update
callback missing_handler r = r.no_handler
callback initialising r = r.init_handler

-- A call of a `std::function`: an empty one throws `std::bad_function_call`.
abbrev pub invoked : Option Callback → Outcome Callback
invoked none = thrown
invoked (some c) = ok c

abbrev pub of_accepts : Member → Bool
of_accepts accepting = true
of_accepts failing_accept = true
of_accepts m = false

abbrev pub of_connects : Member → Bool
of_connects connecting = true
of_connects failing_connect = true
of_connects m = false

-- In a receiver that an acceptor's or a connector's register was cloned to, every callback calls its
-- own member of the instance, except that of a connect in the first and of an accept in the second,
-- which throw.
pub invoked-clone :
    (m : Member) (inst : ℕ) (target : EventReceiver)
    → (invoked (callback m (clone (acceptor_register inst) target))
        ≡ (if of_connects m then thrown else ok (inst, m)))
      × (invoked (callback m (clone (connector_register inst) target))
          ≡ (if of_accepts m then thrown else ok (inst, m)))
unfolding clone acceptor_register connector_register set_common new_receiver
invoked-clone accepting inst target = (refl, refl)
invoked-clone m inst target = (refl, refl)
