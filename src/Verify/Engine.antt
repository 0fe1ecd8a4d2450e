-- ===== src/Verify/Engine.antt =====
-- `sqlEngine` of pkg/verify/engine.go over a database handle, which is a parameter.
use fire_drill.Base.{ℕ, ℤ, Option, none, some, String, ok, err, Result}
use fire_drill.Verify.Types.{EngineError, Engine, no_checksum_dialect, no_connection, query_error}

-- What `database/sql` answers: the scanned value of one row, or the rows that the iteration gave
-- and the error that ended it.
pub record Database : Type 0 where
  pub query_int : String → Result String ℤ
  pub query_text : String → Result String String
  pub query_rows : String → Result String (ℕ × Option String)

abbrev scanned : {A : Type 0} → Result String A → Result EngineError A
scanned (ok a) = ok a
scanned (err e) = err (query_error e)

unfoldable pub sql_count : Option Database → String → Result EngineError ℤ
sql_count none query = err no_connection
sql_count (some db) query = scanned (db.query_int query)

-- The loop over the rows counts them; `rows.Err()` is returned with the count.
abbrev counted : Result String (ℕ × Option String) → Result EngineError ℕ
counted (err e) = err (query_error e)
counted (ok (n, none)) = ok n
counted (ok (n, some e)) = err (query_error e)

unfoldable pub sql_rows : Option Database → String → Result EngineError ℕ
sql_rows none query = err no_connection
sql_rows (some db) query = counted (db.query_rows query)

unfoldable pub sql_scalar : Option Database → String → Result EngineError String
sql_scalar none query = err no_connection
sql_scalar (some db) query = scanned (db.query_text query)

unfoldable pub sql_checksum :
    Option Database
    → Option (String → String → String)
    → String
    → String
    → Result EngineError String
sql_checksum db none table column = err no_checksum_dialect
sql_checksum none (some dialect) table column = err no_connection
sql_checksum (some db) (some dialect) table column = scanned (db.query_text (dialect table column))

abbrev pub sql_engine : Option Database → Option (String → String → String) → Engine
sql_engine db dialect = record {
  count = sql_count db;
  rows = sql_rows db;
  scalar = sql_scalar db;
  checksum = sql_checksum db dialect;
}

-- `NewSQL`: no handle, no engine.
unfoldable pub new_sql : Option Database → Option (String → String → String) → Option Engine
new_sql none dialect = none
new_sql (some db) dialect = some (sql_engine (some db) dialect)
