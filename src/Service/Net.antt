-- ===== src/Service/Net.antt =====
-- include/net/netService.hpp: the tables of acceptors and connectors and the worker threads. The
-- callbacks and the packet parser that are passed on are no state of the tables. An io_context is a
-- number; `hardware` is `boost::thread::hardware_concurrency()`.
pub mod Tables
use mlnsdk.Base.{
  ℕ, zero, suc, ◌+◌, ◌-◌, ◌*◌, Bool, true, false, Option, none, some, List, [], ◌∷◌, ◌++◌, ◌==◌,
  if◌then◌else◌, length, replicate, to_uint16,
}
use mlnsdk.Base.Outcome.{Outcome, ok, thrown, fault, ◌>>=◌}
use mlnsdk.Service.Acceptor.{Acceptor, Endpoint, new_acceptor, accept_wait}
use mlnsdk.Service.Connector.{Connector, new_connector, connect_async}

pub record Services : Type 0 where
  pub ioc : Option ℕ
  pub acceptors : List (Option Acceptor)
  pub connectors : List (Option Connector)
  pub threads : ℕ

-- What `ServiceParams` and `AcceptorUserParams` hold of state; `tcp_port` and `web_port` are what asio
-- answers for `port` and `port + 1`.
pub record AcceptorParams : Type 0 where
  pub service_ioc : ℕ
  pub update_time : ℕ
  pub keep_alive_time : ℕ
  pub workers : ℕ
  pub tcp_port : Endpoint
  pub web_port : Endpoint

pub record ConnectorParams : Type 0 where
  pub service_ioc : ℕ
  pub update_time : ℕ
  pub addr : List ℕ
  pub port : ℕ

-- `std::vector::resize` to at least `n` entries, an entry, and setting one.
unfoldable pub resize : {V : Type 0} → ℕ → List (Option V) → List (Option V)
resize n xs = xs ++ replicate (n - length xs) none

unfoldable pub slot : {V : Type 0} → ℕ → List (Option V) → Option V
slot n [] = none
slot zero (x ∷ xs) = x
slot (suc n) (x ∷ xs) = slot n xs

unfoldable pub set_slot : {V : Type 0} → ℕ → V → List (Option V) → List (Option V)
set_slot n v [] = []
set_slot zero v (x ∷ xs) = some v ∷ xs
set_slot (suc n) v (x ∷ xs) = x ∷ set_slot n v xs

-- `if (!s_ioc) s_ioc = ...`
unfoldable pub keep_ioc : Option ℕ → Option ℕ → Option ℕ
keep_ioc none ioc = ioc
keep_ioc (some ioc) _ = some ioc

-- `addWorkerThreads`: how many threads there are, then.
unfoldable pub count_threads : Option ℕ → ℕ → Services → Outcome Services
count_threads none n s = thrown
count_threads (some ioc) n s = ok (record s { threads = s.threads + n })

unfoldable pub add_worker_threads : ℕ → Option ℕ → Services → Outcome Services
add_worker_threads n ioc s =
    let kept = keep_ioc s.ioc ioc in count_threads kept n (record s { ioc = kept })

-- What `createTcpAcceptor` does with the result of `acceptWait`.
unfoldable pub place_acceptor : ℕ → ℕ → Acceptor × Bool → Services → Outcome Services
place_acceptor index workers (a, true) s =
    add_worker_threads workers s.ioc (record s { acceptors = set_slot index a s.acceptors })
place_acceptor index workers (a, false) s =
    ok (record s { acceptors = set_slot index a s.acceptors })

unfoldable pub open_slot : ℕ → AcceptorParams → Option Acceptor → Services → Outcome Services
open_slot index p (some a) s = ok s
open_slot index p none s =
    accept_wait p.tcp_port p.web_port (new_acceptor p.keep_alive_time p.update_time)
    >>= (λ made. place_acceptor index p.workers made s)

-- `createTcpAcceptor`; what it returns is the acceptor in its slot.
unfoldable pub create_tcp_acceptor : ℕ → AcceptorParams → Services → Outcome Services
create_tcp_acceptor index p s =
    let s' = record s {
      ioc = keep_ioc s.ioc (some p.service_ioc);
      acceptors = resize (index + 1) s.acceptors;
    } in
    open_slot index p (slot index s'.acceptors) s'

-- `createAcceptor`
unfoldable pub create_acceptor : AcceptorParams → Services → Outcome Services
create_acceptor p s = create_tcp_acceptor (length s.acceptors) p s

-- `getAcceptor`
unfoldable pub get_acceptor : ℕ → Services → Option Acceptor
get_acceptor index s = slot index s.acceptors

-- `registAcceptor` and `accept`: the number of workers that is passed on.
unfoldable pub regist_acceptor : ℕ → AcceptorParams → Services → Outcome Services
regist_acceptor hardware p s =
    create_acceptor (record p { workers = if p.workers == 0 then hardware * 2 else p.workers }) s

-- `createTcpConnector`
unfoldable pub open_connector : ℕ → ConnectorParams → Option Connector → Services → Services
open_connector index p (some c) s = s
open_connector index p none s = record s {
  connectors = set_slot index (new_connector p.addr p.port p.update_time) s.connectors;
}

unfoldable pub create_tcp_connector : ℕ → ConnectorParams → Services → Services
create_tcp_connector index p s =
    let s' = record s {
      ioc = keep_ioc s.ioc (some p.service_ioc);
      connectors = resize (index + 1) s.connectors;
    } in
    open_connector index p (slot index s'.connectors) s'

-- `createConnector`
unfoldable pub create_connector : ConnectorParams → Services → Services
create_connector p s = create_tcp_connector (length s.connectors) p s

unfoldable pub connect_slot :
    (List ℕ → ℕ → Option ℕ) → Bool → ℕ → Option Connector → Services → Outcome Services
connect_slot resolve opens index none s = fault
connect_slot resolve opens index (some c) s =
    ok (record s { connectors = set_slot index (connect_async resolve opens 1 c).0 s.connectors })

-- `connect`: a new connector, and its first session.
unfoldable pub connect :
    (List ℕ → ℕ → Option ℕ) → Bool → ConnectorParams → Services → Outcome Services
connect resolve opens p s =
    let s' = create_connector p s in
    connect_slot resolve opens (length s.connectors) (slot (length s.connectors) s'.connectors) s'

-- `registConnector`: a new connector, and no session yet.
unfoldable pub regist_connector : ConnectorParams → Services → Services
unfolding create_connector
regist_connector p s = create_connector p s

-- `run`: it returns once the io_context has stopped and the workers are joined.
unfoldable pub run_joined : Option ℕ → Services → Outcome Services
run_joined none s = fault
run_joined (some ioc) s = ok (record s { ioc = some ioc; threads = 0 })

unfoldable pub run : Option ℕ → Services → Outcome Services
unfolding run_joined
run opt_ioc s = run_joined (keep_ioc s.ioc opt_ioc) s

-- The worker that `runService` starts where there is none.
unfoldable pub first_worker : ℕ → ℕ
first_worker threads = if threads == 0 then 1 else threads

-- `runService`, with the assert as in a release build; `setWork` dereferences the io_context. What it
-- leaves, and how many workers ran.
unfoldable pub run_service : Option ℕ → Services → Outcome (Services × ℕ)
unfolding run first_worker
run_service opt_ioc s =
    let s' = record s { ioc = keep_ioc s.ioc opt_ioc; threads = first_worker s.threads } in
    run none s' >>= λ left. ok (left, s'.threads)

-- `waitServiceStart`, given whether the io_context is stopped at each look at it: whether the callback
-- was called.
unfoldable pub wait_service_start : List Bool → Bool
wait_service_start [] = false
wait_service_start (true ∷ later) = wait_service_start later
wait_service_start (false ∷ later) = true
