-- ===== src/Tests/Databases.antt =====
-- Runs of mysql-legacy/connection.hpp.
use mlnsdk.Base.{ℕ, ◌≡◌, refl, true, false, none, some, List, [], ◌∷◌}
use mlnsdk.Base.Outcome.{Outcome, ok}
use mlnsdk.Text.{codes}
use mlnsdk.Mysql.{
  SqlException, gives, raises, Param, int, short, uint64, text, Driver, Connection, connected,
  empty, default_pool_options, new_connection, ask, opened, connect, connect_options, exe_sql,
  prepare_sql, prepare, bind_prepared, set_input_param, after_bind, set_param, run_prepared,
  run_statement, query_work, keep_result, prepare_work, keep_statement, work_with_check, on_session,
  checked, finished, caught, print_exception, switch_message, drop_result, forget_null, switch_db,
  schema_work,
}
use mlnsdk.Mysql.Untold.{deleted, is_invalid}
use mlnsdk.Mysql.Runs.{
  Operation, connecting, switching, querying, operate, operate_all, operate_all_lem,
}

-- A client library that answers everything by 1, and an error of the server.
abbrev steady : Driver
steady = record {
  connects = λ l. gives 1;
  closed = λ l. gives false;
  reconnects = λ l. gives true;
  sets_schema = λ l. gives tt;
  prepares = λ l. gives 1;
  binds = λ l. gives tt;
  executes = λ l. gives 1;
}

abbrev gone : SqlException
gone = record { error_code = 2006; what = codes "gone"; sql_state = codes "HY000" }

-- The session is lost when its schema is set.
abbrev failing : Driver
failing = record steady { sets_schema = λ l. raises gone }

abbrev with_session : Connection
with_session = record {
  pool_opts = default_pool_options;
  status = connected;
  conn = some 1;
  res = some 4;
  pstmt = none;
  query_string = [];
  last_message = empty;
  log = [];
}

abbrev params : List Param
params = int 39 ∷ short 6 ∷ uint64 5 ∷ text (codes "a") ∷ []

abbrev query : List ℕ
query = codes "SELECT * from build where a = ? and b = ? and c = ? and d = ?"

abbrev text_1 : List ℕ
text_1 = codes "a"

abbrev operations : List Operation
operations =
    connecting text_1 text_1 text_1 text_1 text_1 false
    ∷ querying query params
    ∷ querying query params
    ∷ switching text_1
    ∷ []

abbrev left : Outcome Connection
left = operate_all failing operations (new_connection default_pool_options)

abbrev final : Connection
final = elim left [ ok c ↦ c | _ ↦ with_session ]

returns : operate_all failing operations (new_connection default_pool_options) ≡ ok final
unfolding operate_all operate new_connection default_pool_options ask opened connect connect_options
    exe_sql prepare_sql prepare bind_prepared set_input_param after_bind set_param run_prepared
    run_statement query_work keep_result prepare_work keep_statement work_with_check on_session
    checked finished caught print_exception switch_message drop_result forget_null switch_db
    schema_work
returns = refl

operate_all_example : (deleted final.log ≡ []) × (is_invalid final.last_message ≡ false)
operate_all_example = operate_all_lem failing default_pool_options operations final returns
