-- ===== src/Mysql/Runs.antt =====
-- connection.hpp over whole runs: any operations on a new connection, whatever the client library
-- answers.
use mlnsdk.Base.{
  ℕ, ◌+◌, ◌≡◌, refl, subst, Bool, true, false, Option, none, some, List, [], ◌∷◌, arith,
}
use mlnsdk.Base.Outcome.{Outcome, ok, ◌>>=◌}
use mlnsdk.Mysql.{
  Answer, gives, raises, Param, set_param, open_session, bind, Driver, PoolOptions, Connection,
  new_connection, ask, print_exception, opened, connect, connect_options, schema_work, switch_db,
  forget_null, prepare_work, prepare, after_bind, set_input_param, bind_prepared, prepare_sql,
  query_work, run_statement, drop_result, run_prepared, exe_sql,
}
use mlnsdk.Mysql.Untold.{
  deleted, is_invalid, IsUntold, Returning, Returning-bind, After, checked_work, schema_work-Keeps,
  prepare_work-Keeps, query_work-Keeps,
}

pub data Operation : Type 0 where
  connecting : (addr port id pw db : List ℕ) → Bool → Operation
  switching : List ℕ → Operation
  querying : List ℕ → List Param → Operation

unfoldable pub operate : Driver → Operation → Connection → Outcome (Bool × Connection)
operate d (connecting addr port id pw db auto) c =
    ok (connect d (connect_options addr port id pw db auto) c)
operate d (switching dbname) c = switch_db d dbname c
operate d (querying query params) c = exe_sql d query params c

unfoldable pub operate_all : Driver → List Operation → Connection → Outcome Connection
operate_all d [] c = ok c
operate_all d (op ∷ ops) c = operate d op c >>= λ r. operate_all d ops r.1

module _ (d : Driver) where
  bound-IsUntold :
      (a : Answer (Unit {0})) (rest : Outcome Connection)
      → Returning IsUntold rest
      → Returning IsUntold (after_bind a rest)
  unfolding after_bind
  bound-IsUntold (raises e) rest v = tt
  bound-IsUntold (gives done) rest v = v

  set_input_param-IsUntold :
      (s : Option ℕ) (index : ℕ) (ps : List Param) (c : Connection)
      → IsUntold c
      → Returning IsUntold (set_input_param d s index ps c)
  unfolding set_input_param ask
  set_input_param-IsUntold s index [] c v = v
  set_input_param-IsUntold none index (p ∷ ps) c v = tt
  set_input_param-IsUntold (some s) index (p ∷ ps) c v =
      let c' = ask (bind s index (set_param p)) c in
      bound-IsUntold (d.binds c'.log) (set_input_param d (some s) (index + 1) ps c') (
        set_input_param-IsUntold (some s) (index + 1) ps c'
          (record { kept = v.kept; untold = v.untold }))

  bind_prepared-IsUntold :
      (ps : List Param) (r : Bool × Connection) → After r → Returning After (bind_prepared d ps r)
  unfolding bind_prepared
  bind_prepared-IsUntold ps (false, c) v = v
  bind_prepared-IsUntold ps (true, c) v =
      Returning-bind IsUntold After (set_input_param d c.pstmt 1 ps c) (λ c'. ok (true, c'))
        (set_input_param-IsUntold c.pstmt 1 ps c v) (λ c' v'. v')

  forget_null-IsUntold :
      (c : Connection) (query : List ℕ)
      → IsUntold c
      → IsUntold (forget_null (record c { query_string = query }))
  unfolding forget_null
  forget_null-IsUntold c query v = ground arith

  prepare_sql-IsUntold :
      (query : List ℕ) (ps : List Param) (c : Connection)
      → IsUntold c
      → Returning After (prepare_sql d query ps c)
  unfolding prepare_sql prepare forget_null
  prepare_sql-IsUntold query ps c v =
      let c' = forget_null (record c { query_string = query }) in
      Returning-bind After After (prepare d query (record c { query_string = query }))
        (bind_prepared d ps)
        (checked_work d (prepare_work d query) c' (prepare_work-Keeps d query)
          (forget_null-IsUntold c query v))
        (bind_prepared-IsUntold ps)

  statement-IsUntold :
      (s : Option ℕ) (c : Connection) → IsUntold c → Returning After (run_statement d s c)
  unfolding run_statement
  statement-IsUntold none c v = tt
  statement-IsUntold (some s) c v = checked_work d (query_work d s) c (query_work-Keeps d s) v

  run_prepared-IsUntold : (r : Bool × Connection) → After r → Returning After (run_prepared d r)
  unfolding run_prepared
  run_prepared-IsUntold (false, c) v = v
  run_prepared-IsUntold (true, c) v = statement-IsUntold c.pstmt c v

  drop_result-IsUntold : (o : Option ℕ) (c : Connection) → IsUntold c → IsUntold (drop_result o c)
  unfolding drop_result ask
  drop_result-IsUntold none c v = v
  drop_result-IsUntold (some r) c v = record { kept = v.kept; untold = v.untold }

  opened-IsUntold : (a : Answer ℕ) (c : Connection) → IsUntold c → After (opened a c)
  unfolding opened print_exception
  opened-IsUntold (raises e) c v = ground arith
  opened-IsUntold (gives conn) c v = record { kept = v.kept; untold = v.untold }

  operate-IsUntold :
      (op : Operation) (c : Connection) → IsUntold c → Returning After (operate d op c)
  unfolding operate connect switch_db exe_sql ask
  operate-IsUntold (connecting addr port id pw db auto) c v =
      let c' = ask (open_session (connect_options addr port id pw db auto)) c in
      opened-IsUntold (d.connects c'.log) c' (record { kept = v.kept; untold = v.untold })
  operate-IsUntold (switching dbname) c v =
      checked_work d (schema_work d dbname) c (schema_work-Keeps d dbname) v
  operate-IsUntold (querying query ps) c v =
      Returning-bind After After (prepare_sql d query ps (drop_result c.res c)) (run_prepared d)
        (prepare_sql-IsUntold query ps (drop_result c.res c) (drop_result-IsUntold c.res c v))
        run_prepared-IsUntold

  operate_all-IsUntold :
      (ops : List Operation) (c : Connection)
      → IsUntold c
      → Returning IsUntold (operate_all d ops c)
  unfolding operate_all
  operate_all-IsUntold [] c v = v
  operate_all-IsUntold (op ∷ ops) c v =
      Returning-bind After IsUntold (operate d op c) (λ r. operate_all d ops r.1)
        (operate-IsUntold op c v) (λ r v'. operate_all-IsUntold ops r.1 v')

  -- After any operations on a new connection that return, whatever the client library answered, no
  -- prepared statement has been deleted, and the last message is none of those that the switch over
  -- the error codes chooses, but for the one for an undefined exception where the code is 0.
  pub operate_all_lem :
      (opts : PoolOptions) (ops : List Operation) (c : Connection)
      → operate_all d ops (new_connection opts) ≡ ok c
      → (deleted c.log ≡ []) × (is_invalid c.last_message ≡ false)
  unfolding new_connection
  operate_all_lem opts ops c e =
      let v : IsUntold (new_connection opts) = record { kept = refl; untold = refl } in
      let u : IsUntold c =
        subst (Returning IsUntold) e (operate_all-IsUntold ops (new_connection opts) v) in
      (u.kept, u.untold)
