-- ===== src/Mysql.antt =====
-- include/net/mysql-legacy/connection.hpp over MySQL Connector/C++. What the client library answers to
-- a call is a function of all calls made so far; the calls stand in a log, the latest first. Messages
-- are the texts that the code puts together; printing is left out.
pub mod Queries
pub mod Untold
pub mod Runs
use mlnsdk.Base.{
  ℕ, ◌+◌, Bool, true, false, ◌||◌, Option, none, some, List, [], ◌∷◌, ◌++◌, ◌==◌, if◌then◌else◌,
}
use mlnsdk.Base.Outcome.{Outcome, ok, thrown, fault, ◌>>=◌}

-- `sql::SQLException`
pub record SqlException : Type 0 where
  pub error_code : ℕ
  pub what : List ℕ
  pub sql_state : List ℕ

pub data Answer {ℓ} (A : Type ℓ) : Type ℓ where
  gives : A → Answer A
  raises : SqlException → Answer A

-- The arguments of a query, by their C++ types; numbers are bit patterns.
pub data Param : Type 0 where
  short unsigned_short int unsigned_int int64 uint64 : ℕ → Param
  text : List ℕ → Param

pub data Setter : Type 0 where
  set_int set_uint set_int64 set_uint64 : ℕ → Setter
  set_string : List ℕ → Setter

-- `setParam`
unfoldable pub set_param : Param → Setter
set_param (short n) = set_int n
set_param (unsigned_short n) = set_uint n
set_param (int n) = set_int n
set_param (unsigned_int n) = set_uint n
set_param (int64 n) = set_int64 n
set_param (uint64 n) = set_uint64 n
set_param (text s) = set_string s

-- `sql::ConnectOptionsMap`
pub record ConnectOptions : Type 0 where
  pub host_name : List ℕ
  pub user_name : List ℕ
  pub password : List ℕ
  pub schema : List ℕ
  pub opt_reconnect : Bool
  pub opt_read_timeout : ℕ
  pub opt_connect_timeout : ℕ
  pub opt_write_timeout : ℕ
  pub client_multi_statements : Bool

-- A call of the client library, or a `delete`; sessions, statements and results are numbers.
pub data Call : Type 0 where
  open_session : ConnectOptions → Call
  is_closed reconnect : ℕ → Call
  set_schema prepare_statement : ℕ → List ℕ → Call
  bind : ℕ → ℕ → Setter → Call
  execute_query : ℕ → List ℕ → Call
  delete_result delete_statement : ℕ → Call

-- The client library: what it answers to the last call of a log.
pub record Driver : Type 0 where
  pub connects : List Call → Answer ℕ
  pub closed : List Call → Answer Bool
  pub reconnects : List Call → Answer Bool
  pub sets_schema : List Call → Answer (Unit {0})
  pub prepares : List Call → Answer ℕ
  pub binds : List Call → Answer (Unit {0})
  pub executes : List Call → Answer ℕ

pub data Status : Type 0 where
  closed connecting connected using : Status

pub data Message : Type 0 where
  empty reconnecting : Message
  invalid_session undefined_exception : ℕ → Message
  sql_exception : SqlException → Message

-- `PoolOptions`
pub record PoolOptions : Type 0 where
  pub idle_timeout_sec : ℕ
  pub pool_min : ℕ
  pub pool_limit : ℕ

pub record Connection : Type 0 where
  pub pool_opts : PoolOptions
  pub status : Status
  pub conn : Option ℕ
  pub res : Option ℕ
  pub pstmt : Option ℕ
  pub query_string : List ℕ
  pub last_message : Message
  pub log : List Call

unfoldable pub default_pool_options : PoolOptions
default_pool_options = record { idle_timeout_sec = 0; pool_min = 1; pool_limit = 100 }

-- `Connection(poolOpts)`; the other constructor has the default options.
unfoldable pub new_connection : PoolOptions → Connection
new_connection opts = record {
  pool_opts = opts;
  status = Status.closed;
  conn = none;
  res = none;
  pstmt = none;
  query_string = [];
  last_message = empty;
  log = [];
}

unfoldable pub ask : Call → Connection → Connection
ask call c = record c { log = call ∷ c.log }

-- `printException`
unfoldable pub print_exception : SqlException → Connection → Connection
print_exception e c = if e.error_code == 0 then c else record c { last_message = sql_exception e }

-- The options of `connect`: the argument `useAutoReconnect` is not read.
unfoldable pub connect_options :
    (addr port id pw db : List ℕ) → (use_auto_reconnect : Bool) → ConnectOptions
connect_options addr port id pw db use_auto_reconnect = record {
  host_name = addr ++ b':' ∷ port;
  user_name = id;
  password = pw;
  schema = db;
  opt_reconnect = true;
  opt_read_timeout = 3;
  opt_connect_timeout = 3;
  opt_write_timeout = 3;
  client_multi_statements = true;
}

unfoldable pub opened : Answer ℕ → Connection → Bool × Connection
unfolding print_exception
opened (raises e) c = (false, print_exception e c)
opened (gives conn) c = (true, record c { conn = some conn; status = connected })

unfoldable pub connect : Driver → ConnectOptions → Connection → Bool × Connection
unfolding ask opened
connect d options c = let c' = ask (open_session options) c in opened (d.connects c'.log) c'

-- The message that the switch of the handler chooses.
unfoldable pub switch_message : ℕ → Message
switch_message code =
    if (code == 2006) || ((code == 2013) || ((code == 2048) || (code == 2055)))
    then invalid_session code
    else undefined_exception code

-- The handler of `workWithCheckSessionValid`.
unfoldable pub caught : SqlException → Connection → Bool × Connection
unfolding print_exception switch_message
caught e c = (false, print_exception e (record c { last_message = switch_message e.error_code }))

-- What is to be done on a session: it is left by an exception or not.
abbrev pub Work : Type 0
Work = ℕ → Connection → Answer (Unit {0}) × Connection

unfoldable pub finished : Answer (Unit {0}) × Connection → Bool × Connection
unfolding caught
finished (gives done, c) = (true, c)
finished (raises e, c) = caught e c

-- After an attempt to reconnect.
unfoldable pub reconnected : Answer Bool → Work → ℕ → Connection → Bool × Connection
unfolding finished caught
reconnected (raises e) work conn c = caught e c
reconnected (gives true) work conn c = finished (work conn c)
reconnected (gives false) work conn c = (false, record c { last_message = reconnecting })

unfoldable pub checked : Driver → Answer Bool → Work → ℕ → Connection → Bool × Connection
unfolding finished caught reconnected ask
checked d (raises e) work conn c = caught e c
checked d (gives false) work conn c = finished (work conn c)
checked d (gives true) work conn c =
    let c' = ask (reconnect conn) c in reconnected (d.reconnects c'.log) work conn c'

unfoldable pub on_session : Driver → Option ℕ → Work → Connection → Outcome (Bool × Connection)
unfolding checked ask
on_session d none work c = fault
on_session d (some conn) work c =
    let c' = ask (is_closed conn) c in ok (checked d (d.closed c'.log) work conn c')

-- `workWithCheckSessionValid`
unfoldable pub work_with_check : Driver → Work → Connection → Outcome (Bool × Connection)
unfolding on_session
work_with_check d work c = on_session d c.conn work c

unfoldable pub schema_work : Driver → List ℕ → Work
unfolding ask
schema_work d dbname conn c = let c' = ask (set_schema conn dbname) c in (d.sets_schema c'.log, c')

-- `switchDB`
unfoldable pub switch_db : Driver → List ℕ → Connection → Outcome (Bool × Connection)
unfolding work_with_check schema_work
switch_db d dbname c = work_with_check d (schema_work d dbname) c

abbrev pub is_null : Option ℕ → Bool
is_null none = true
is_null (some p) = false

-- The pointer is deleted and cleared where it is null, and kept otherwise.
unfoldable pub forget_null : Connection → Connection
forget_null c = if is_null c.pstmt then record c { pstmt = none } else c

unfoldable pub keep_statement : Answer ℕ → Connection → Answer (Unit {0}) × Connection
keep_statement (raises e) c = (raises e, c)
keep_statement (gives statement) c = (gives tt, record c { pstmt = some statement })

unfoldable pub prepare_work : Driver → List ℕ → Work
unfolding ask keep_statement
prepare_work d query conn c =
    let c' = ask (prepare_statement conn query) c in keep_statement (d.prepares c'.log) c'

unfoldable pub prepare : Driver → List ℕ → Connection → Outcome (Bool × Connection)
unfolding work_with_check prepare_work forget_null
prepare d query c = work_with_check d (prepare_work d query) (forget_null c)

unfoldable pub after_bind : Answer (Unit {0}) → Outcome Connection → Outcome Connection
after_bind (raises e) rest = thrown
after_bind (gives done) rest = rest

-- `setInputParam`; an exception of a setter is not caught.
unfoldable pub set_input_param :
    Driver → Option ℕ → ℕ → List Param → Connection → Outcome Connection
unfolding ask set_param after_bind
set_input_param d statement index [] c = ok c
set_input_param d none index (p ∷ ps) c = fault
set_input_param d (some statement) index (p ∷ ps) c =
    let c' = ask (bind statement index (set_param p)) c in
    let rest = set_input_param d (some statement) (index + 1) ps c' in
    after_bind (d.binds c'.log) rest

-- `prepareSql`
unfoldable pub bind_prepared : Driver → List Param → Bool × Connection → Outcome (Bool × Connection)
unfolding set_input_param
bind_prepared d params (true, c) = set_input_param d c.pstmt 1 params c >>= λ c'. ok (true, c')
bind_prepared d params (false, c) = ok (false, c)

unfoldable pub prepare_sql : Driver → List ℕ → List Param → Connection → Outcome (Bool × Connection)
unfolding prepare bind_prepared
prepare_sql d format params c =
    prepare d format (record c { query_string = format }) >>= bind_prepared d params

unfoldable pub keep_result : Answer ℕ → Connection → Answer (Unit {0}) × Connection
keep_result (raises e) c = (raises e, c)
keep_result (gives result) c = (gives tt, record c { res = some result })

unfoldable pub query_work : Driver → ℕ → Work
unfolding ask keep_result
query_work d statement conn c =
    let c' = ask (execute_query statement c.query_string) c in keep_result (d.executes c'.log) c'

-- The statement is there, since it was prepared.
unfoldable pub run_statement : Driver → Option ℕ → Connection → Outcome (Bool × Connection)
unfolding work_with_check query_work
run_statement d none c = fault
run_statement d (some statement) c = work_with_check d (query_work d statement) c

unfoldable pub drop_result : Option ℕ → Connection → Connection
unfolding ask
drop_result none c = c
drop_result (some result) c = record (ask (delete_result result) c) { res = none }

-- `exeSql`
unfoldable pub run_prepared : Driver → Bool × Connection → Outcome (Bool × Connection)
unfolding run_statement
run_prepared d (true, c) = run_statement d c.pstmt c
run_prepared d (false, c) = ok (false, c)

unfoldable pub exe_sql : Driver → List ℕ → List Param → Connection → Outcome (Bool × Connection)
unfolding prepare_sql run_prepared drop_result
exe_sql d format params c = prepare_sql d format params (drop_result c.res c) >>= run_prepared d
