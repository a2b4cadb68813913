-- ===== src/Mysql/Untold.antt =====
-- connection.hpp: what its parts keep: which statements were deleted, and which message stands.
use mlnsdk.Base.{
  ℕ, ◌≡◌, ◌==◌, not, refl, Bool, true, false, Option, none, some, List, [], ◌∷◌, arith,
}
use mlnsdk.Base.Outcome.{Outcome, ok, thrown, fault, ◌>>=◌}
use mlnsdk.Mysql.{
  SqlException, Answer, gives, raises, Call, open_session, is_closed, reconnect, set_schema,
  prepare_statement, bind, execute_query, delete_result, delete_statement, Driver, Message, empty,
  reconnecting, invalid_session, undefined_exception, sql_exception, Connection, ask,
  print_exception, switch_message, caught, Work, finished, reconnected, checked, on_session,
  work_with_check, schema_work, keep_statement, prepare_work, keep_result, query_work,
}

-- The statements that were deleted.
abbrev pub deleted : List Call → List ℕ
deleted [] = []
deleted (delete_statement s ∷ log) = s ∷ deleted log
deleted (open_session o ∷ log) = deleted log
deleted (is_closed n ∷ log) = deleted log
deleted (reconnect n ∷ log) = deleted log
deleted (set_schema n s ∷ log) = deleted log
deleted (prepare_statement n s ∷ log) = deleted log
deleted (bind s i p ∷ log) = deleted log
deleted (execute_query s q ∷ log) = deleted log
deleted (delete_result r ∷ log) = deleted log

-- A message that the switch chose, but for an exception with the code 0.
abbrev pub is_invalid : Message → Bool
is_invalid (invalid_session code) = true
is_invalid empty = false
is_invalid reconnecting = false
is_invalid (undefined_exception code) = not (code == 0)
is_invalid (sql_exception e) = false

-- No statement was deleted, and the last message is no such message.
pub record IsUntold (c : Connection) : Type 0 where
  pub kept : deleted c.log ≡ []
  pub untold : is_invalid c.last_message ≡ false

-- What holds of the value of a call, if it returns.
abbrev pub Returning {ℓ} : {A : Type ℓ} → (A → Type 0) → Outcome A → Type 0
Returning P (ok a) = P a
Returning P thrown = Unit
Returning P fault = Unit

pub Returning-bind {ℓ κ} :
    {A : Type ℓ} {B : Type κ} (P : A → Type 0) (Q : B → Type 0) (m : Outcome A) (f : A → Outcome B)
    → Returning P m
    → ((a : A) → P a → Returning Q (f a))
    → Returning Q (m >>= f)
Returning-bind P Q (ok a) f h k = k a h
Returning-bind P Q thrown f h k = tt
Returning-bind P Q fault f h k = tt

abbrev pub After : Bool × Connection → Type 0
After r = IsUntold r.1

-- The handler's own message stands only where the code of the exception is 0.
pub caught-IsUntold : (e : SqlException) (c : Connection) → IsUntold c → After (caught e c)
unfolding caught print_exception switch_message
caught-IsUntold e c v = ground arith

finished-IsUntold : (r : Answer (Unit {0}) × Connection) → IsUntold r.1 → After (finished r)
unfolding finished
finished-IsUntold (gives done, c) v = v
finished-IsUntold (raises e, c) v = caught-IsUntold e c v

-- Work that keeps the invariant.
abbrev pub Keeps : Work → Type 0
Keeps work = (conn : ℕ) (c : Connection) → IsUntold c → IsUntold (work conn c).1

module _ (work : Work) (k : Keeps work) where
  reconnected-IsUntold :
      (a : Answer Bool) (conn : ℕ) (c : Connection) → IsUntold c → After (reconnected a work conn c)
  unfolding reconnected
  reconnected-IsUntold (raises e) conn c v = caught-IsUntold e c v
  reconnected-IsUntold (gives true) conn c v = finished-IsUntold (work conn c) (k conn c v)
  reconnected-IsUntold (gives false) conn c v = record { kept = v.kept; untold = refl }

  checked-IsUntold :
      (d : Driver) (a : Answer Bool) (conn : ℕ) (c : Connection)
      → IsUntold c
      → After (checked d a work conn c)
  unfolding checked ask
  checked-IsUntold d (raises e) conn c v = caught-IsUntold e c v
  checked-IsUntold d (gives false) conn c v = finished-IsUntold (work conn c) (k conn c v)
  checked-IsUntold d (gives true) conn c v =
      let c' = ask (reconnect conn) c in
      reconnected-IsUntold (d.reconnects c'.log) conn c'
        (record { kept = v.kept; untold = v.untold })

  on_session-IsUntold :
      (d : Driver) (o : Option ℕ) (c : Connection)
      → IsUntold c
      → Returning After (on_session d o work c)
  unfolding on_session ask
  on_session-IsUntold d none c v = tt
  on_session-IsUntold d (some conn) c v =
      let c' = ask (is_closed conn) c in
      checked-IsUntold d (d.closed c'.log) conn c' (record { kept = v.kept; untold = v.untold })

module _ (d : Driver) where
  pub checked_work :
      (work : Work) (c : Connection)
      → Keeps work
      → IsUntold c
      → Returning After (work_with_check d work c)
  unfolding work_with_check
  checked_work work c k v = on_session-IsUntold work k d c.conn c v

  pub schema_work-Keeps : (dbname : List ℕ) → Keeps (schema_work d dbname)
  unfolding schema_work ask
  schema_work-Keeps dbname conn c v = record { kept = v.kept; untold = v.untold }

  keep_statement-IsUntold :
      (a : Answer ℕ) (c : Connection) → IsUntold c → IsUntold (keep_statement a c).1
  unfolding keep_statement
  keep_statement-IsUntold (raises e) c v = v
  keep_statement-IsUntold (gives s) c v = record { kept = v.kept; untold = v.untold }

  pub prepare_work-Keeps : (query : List ℕ) → Keeps (prepare_work d query)
  unfolding prepare_work ask
  prepare_work-Keeps query conn c v =
      let c' = ask (prepare_statement conn query) c in
      keep_statement-IsUntold (d.prepares c'.log) c' (record { kept = v.kept; untold = v.untold })

  keep_result-IsUntold : (a : Answer ℕ) (c : Connection) → IsUntold c → IsUntold (keep_result a c).1
  unfolding keep_result
  keep_result-IsUntold (raises e) c v = v
  keep_result-IsUntold (gives r) c v = record { kept = v.kept; untold = v.untold }

  pub query_work-Keeps : (s : ℕ) → Keeps (query_work d s)
  unfolding query_work ask
  query_work-Keeps s conn c v =
      let c' = ask (execute_query s c.query_string) c in
      keep_result-IsUntold (d.executes c'.log) c' (record { kept = v.kept; untold = v.untold })
