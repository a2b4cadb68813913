-- ===== src/Tests/Services.antt =====
-- Runs of the acceptor, the connector, the schedulers and the pool.
use mlnsdk.Base.{
  ℕ, ◌*◌, ◌≤◌, ◌+◌, ◌≡◌, refl, Bool, true, false, Option, none, some, List, [], ◌∷◌, length, ◌==◌,
  if◌then◌else◌, arith,
}
use mlnsdk.Base.Outcome.{ok}
use mlnsdk.Session.Types.{tcp}
use mlnsdk.Service.Acceptor.{
  new_acceptor, Acceptor, Endpoint, Pending, idle, accepting, handshaking, tcp_accept, web_accept,
  handshake, run,
}
use mlnsdk.Service.Acceptor.Listening.{IsListening, IsListening-stays}
use mlnsdk.Service.Acceptor.Stopping.{failed_handshake_stops, web_accepts}
use mlnsdk.Service.Receiver.{updating, acceptor_register, clone, new_receiver, set_common}
use mlnsdk.Service.Common.{NetCommonObjects, updates}
use mlnsdk.Service.Common.Rounding.{total, last, updates_lem}
use mlnsdk.Service.Net.{Services, AcceptorParams}
use mlnsdk.Service.Connector.{
  Connector, run_attempts, unresolved, resolved, connect_async, connect_sync, set_end_point,
  set_target_server, new_connector,
}
use mlnsdk.Service.Connector.Connecting.{connect_async_lem, copies, finished}
use mlnsdk.Time.Simple.{new_entry, new_scheduler}
use mlnsdk.Time.Simple.Firing.{called, called-new_entry}
use mlnsdk.Time.Strand.{Stranded}
use mlnsdk.RentalPool.{lend_times}
use mlnsdk.RentalPool.Lending.{lent_twice, pool}

abbrev acceptor : Acceptor
acceptor = record {
  tcp_pending = idle;
  web_pending = idle;
  next_session = 1;
  accepted = [];
  keep_alive_time = 0;
  timeouts = [];
  update_time = 1000;
  update_waits = 0;
}

abbrev free_port : Endpoint
free_port = record { resolves = true; opens = true; binds = true; listens = true }

abbrev used_port : Endpoint
used_port = record { resolves = true; opens = true; binds = false; listens = true }

abbrev listening : Acceptor
listening = record acceptor {
  tcp_pending = accepting 1;
  web_pending = handshaking 2;
  next_session = 3;
}

IsListening-stays_example :
    (b : Acceptor) × (run
        (tcp_accept false false ∷ handshake false false ∷ web_accept false ∷ [])
        listening
      ≡ ok b)
    × IsListening b
unfolding mlnsdk.Service.Acceptor.Listening.AllGood mlnsdk.Service.Acceptor.Listening.IsGood
    IsListening mlnsdk.Service.Acceptor.Listening.IsBusy
IsListening-stays_example =
    IsListening-stays (tcp_accept false false ∷ handshake false false ∷ web_accept false ∷ [])
      listening ((refl, refl), ((refl, refl), (refl, tt))) (omega arith, omega arith)

abbrev stopped : Acceptor
stopped = record listening {
  tcp_pending = accepting 3;
  web_pending = idle;
  next_session = 4;
  accepted = (tcp, 1) ∷ [];
}

failed_handshake_example : (stopped.web_pending ≡ idle) × (web_accepts stopped.accepted ≡ 0)
unfolding run mlnsdk.Service.Acceptor.complete mlnsdk.Service.Acceptor.complete_handshake
    mlnsdk.Service.Acceptor.handle_accept mlnsdk.Service.Acceptor.complete_tcp
    mlnsdk.Service.Acceptor.complete_web mlnsdk.Service.Acceptor.accept_next web_accepts
failed_handshake_example =
    failed_handshake_stops (tcp_accept false false ∷ web_accept false ∷ []) 2 false listening
      stopped refl refl

-- A resolver that knows port 80 alone.
abbrev resolver : List ℕ → ℕ → Option ℕ
resolver addr port = if port == 80 then some (length addr) else none

abbrev connector : Connector
connector = record {
  target_addr = 49 ∷ [];
  target_port = 80;
  endpoint = unresolved;
  attempt = none;
  next_session = 5;
  connected = [];
  failed = [];
  update_time = 1000;
  update_waits = 0;
}

abbrev ready : Connector
ready = record connector { endpoint = resolved 1 }

connect_async_example :
    run_attempts (copies 3) (connect_async resolver true 3 ready).0
    ≡ ok (record ready { next_session = 8; connected = 5 ∷ 6 ∷ 7 ∷ []; update_waits = 1 })
unfolding finished mlnsdk.Service.Connector.expire_timer_ready
    mlnsdk.Service.Connector.Connecting.numbers
connect_async_example = connect_async_lem resolver 1 2 ready refl (omega arith)

called_example : called 50 25 (new_entry 0 50 10 1) ≡ 2
called_example = called-new_entry 50 0 10 1 25 (omega arith) (omega arith) (omega arith)

abbrev none_alive : ℕ → Bool
none_alive strand = false

abbrev external : Stranded
external = record {
  using_external_strand = true;
  external = some 3;
  own = none;
  scheduler = new_scheduler 4 50;
}

abbrev internal : Stranded
internal = record {
  using_external_strand = false;
  external = none;
  own = none;
  scheduler = new_scheduler 4 50;
}

lent_twice_example : lend_times 4 (pool 0) ≡ (pool 2, 0 ∷ 0 ∷ 1 ∷ 1 ∷ [])
unfolding mlnsdk.RentalPool.Lending.twice_each
lent_twice_example = lent_twice 2 0

abbrev services : Services
services = record { ioc = some 7; acceptors = some acceptor ∷ []; connectors = []; threads = 2 }

abbrev params : AcceptorParams
params = record {
  service_ioc = 8;
  update_time = 0;
  keep_alive_time = 30;
  workers = 4;
  tcp_port = free_port;
  web_port = used_port;
}

abbrev half : Acceptor
half = record (new_acceptor 30 0) { next_session = 2; tcp_pending = accepting 0 }

-- A service of an acceptor whose timer is set.
abbrev service : NetCommonObjects ℕ
service = record {
  packet_proc = 0;
  event_receiver = clone (acceptor_register 7) new_receiver;
  keep_alive_time_ms = 0;
  update_time_ms = 1000;
  index = 0;
  prev_time = 500;
  waiting = true;
  told = [];
}

service-bound : service.event_receiver.on_update ≡ some (7, updating)
unfolding clone acceptor_register set_common
service-bound = refl

updates_example :
    (n : NetCommonObjects ℕ) × (updates (1000000900 ∷ 2000001400 ∷ []) service ≡ ok n)
    × (n.prev_time ≡ last 500 (1000000900 ∷ 2000001400 ∷ []))
    × (length n.told ≡ 2)
    × (total n.told * 1000000 + 500 ≤ 0 * 1000000 + n.prev_time)
    × (0 * 1000000 + n.prev_time ≤ (total n.told + 2) * 1000000 + 500)
updates_example =
    updates_lem (7, updating) (1000000900 ∷ 2000001400 ∷ []) service service-bound
      (omega arith, omega arith, (omega arith, omega arith, tt))
