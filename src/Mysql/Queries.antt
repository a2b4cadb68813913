-- ===== src/Mysql/Queries.antt =====
-- What `exeSql` of connection.hpp asks of a client library, and what it makes of the answer to the query.
use mlnsdk.Base.{
  ℕ, ◌+◌, ◌==◌, if◌then◌else◌, Bool, ◌≡◌, true, false, Option, none, some, List, [], ◌∷◌,
}
use mlnsdk.Mysql.{
  Answer, gives, raises, SqlException, Message, undefined_exception, sql_exception, short,
  unsigned_short, int, unsigned_int, int64, uint64, text, set_int, set_uint, set_int64, set_uint64,
  set_string, Param, Call, is_closed, prepare_statement, bind, execute_query, delete_result, Driver,
  Connection,
}

-- The session is open, and statements are prepared and their parameters bound without an exception.
pub record IsHealthy (d : Driver) : Type 0 where
  pub open_sessions : (l : List Call) → d.closed l ≡ gives false
  pub statement : List Call → ℕ
  pub prepared : (l : List Call) → d.prepares l ≡ gives (statement l)
  pub bound : (l : List Call) → d.binds l ≡ gives tt

-- The calls that bind parameters to a statement, from an index on.
unfoldable pub bindings : ℕ → ℕ → List Param → List Call → List Call
bindings s i [] log = log
bindings s i (short n ∷ ps) log = bindings s (i + 1) ps (bind s i (set_int n) ∷ log)
bindings s i (unsigned_short n ∷ ps) log = bindings s (i + 1) ps (bind s i (set_uint n) ∷ log)
bindings s i (int n ∷ ps) log = bindings s (i + 1) ps (bind s i (set_int n) ∷ log)
bindings s i (unsigned_int n ∷ ps) log = bindings s (i + 1) ps (bind s i (set_uint n) ∷ log)
bindings s i (int64 n ∷ ps) log = bindings s (i + 1) ps (bind s i (set_int64 n) ∷ log)
bindings s i (uint64 n ∷ ps) log = bindings s (i + 1) ps (bind s i (set_uint64 n) ∷ log)
bindings s i (text t ∷ ps) log = bindings s (i + 1) ps (bind s i (set_string t) ∷ log)

-- The last message that an exception of the query leaves.
abbrev pub told : SqlException → Message
told e = if e.error_code == 0 then undefined_exception 0 else sql_exception e

unfoldable pub deletion : Option ℕ → List Call → List Call
deletion none log = log
deletion (some result) log = delete_result result ∷ log

module _ (d : Driver) (h : IsHealthy d) where
  -- The connection once the statement is prepared.
  abbrev with_statement : ℕ → List ℕ → Connection → Connection
  with_statement conn query c =
      let log = prepare_statement conn query ∷ is_closed conn ∷ c.log in
      record c { pstmt = some (h.statement log); log = log }

  -- What a connection is after the answer to its query.
  abbrev pub answered : Answer ℕ → Connection → Bool × Connection
  answered (gives result) c = (true, record c { res = some result })
  answered (raises e) c = (false, record c { last_message = told e })

  module _ (query : List ℕ) (params : List Param) (conn : ℕ) (c : Connection) where
    -- The calls up to the preparation, the statement, and all calls.
    abbrev pub prepared_log : Option ℕ → List Call
    prepared_log res = prepare_statement conn query ∷ is_closed conn ∷ deletion res c.log

    abbrev pub statement_of : Option ℕ → ℕ
    statement_of res = h.statement (prepared_log res)

    abbrev pub query_log : Option ℕ → List Call
    query_log res =
        execute_query (statement_of res) query
        ∷ is_closed conn
        ∷ bindings (statement_of res) 1 params (prepared_log res)

    -- The deleted result is gone, whether the query gives one or not.
    abbrev pub after_query : Option ℕ → Bool × Connection
    after_query res = answered (d.executes (query_log res)) (record c {
      res = none;
      pstmt = some (statement_of res);
      query_string = query;
      log = query_log res;
    })
