-- ===== src/Drivers/Postgres.antt =====
-- `Restore`, `restoreBasebackup` and `detectFormat` of pkg/drivers/postgres/postgres.go. A restore
-- meets a machine: what the file system and the commands in the sandbox answer.
use fire_drill.Base.{
  ℕ, ◌+◌, ◌*◌, ◌∷◌, [], List, ok, err, Result, Bool, true, false, ◌&&◌, ◌==◌, nat_eq, string_eq,
  if◌then◌else◌, none, some, String, Option, codes,
}
use Prim.Native.String.{◌++◌ as cat}
use fire_drill.Std.Poll.{Round, again, done, Ended, out_of_fuel, timed_out, returned, poll}
use fire_drill.Drivers.Texts.{Text, tail, fatal_startup_line}
use fire_drill.Drivers.Outcome.{
  ExecAnswer, Outcome, Restore, DriverError, fails, fails_with, succeeds, finish, opening,
  reading_header, rewinding, step_error, step_failed, startup_broken, not_ready_in_time,
  context_over,
}
use fire_drill.Spec.Document.{Source}

-- The connection facts of a sandbox.
pub record Access : Type 0 where
  pub host : String
  pub host_port : String
  pub user : String
  pub password : String
  pub db : String

-- The first read of the backup, an end of the file left out, and the error of going back.
pub record Header : Type 0 where
  pub read : Result String Text
  pub rewind : Option String

-- A round of the wait for a restored cluster: the query, and the log that is read after it fails.
pub record PgProbe : Type 0 where
  pub at : ℕ
  pub cancelled : Option String
  pub psql : List String → ExecAnswer
  pub log : ExecAnswer

pub record Machine : Type 0 where
  pub access : Access
  pub open_file : String → Result String Header
  pub exec : List String → ExecAnswer
  pub elapsed : ℕ
  pub wait_start : ℕ
  pub probes : ℕ → PgProbe

abbrev pub magic : Text
magic = codes "PGDMP"

abbrev prefix_of : Text → Text → Bool
prefix_of [] s = true
prefix_of (p ∷ ps) [] = false
prefix_of (p ∷ ps) (c ∷ cs) = p == c && prefix_of ps cs

abbrev pub format_of : Option String → Text → Result DriverError String
format_of (some e) header = err (rewinding e)
format_of none header = ok (if prefix_of magic header then "custom" else "plain")

abbrev pub format_read : Option String → Result String Text → Result DriverError String
format_read rewind (err e) = err (reading_header e)
format_read rewind (ok header) = format_of rewind header

unfoldable pub detect_format : Header → Result DriverError String
detect_format h = format_read h.rewind h.read

unfoldable pub restore_command : Access → String → List String
restore_command a format =
    if format == "custom"
    then "pg_restore" ∷ "-U" ∷ a.user ∷ "-d" ∷ a.db ∷ "--no-owner" ∷ "--no-privileges"
      ∷ "--exit-on-error" ∷ []
    else "psql" ∷ "-U" ∷ a.user ∷ "-d" ∷ a.db ∷ "-v" ∷ "ON_ERROR_STOP=1" ∷ "-f" ∷ "-" ∷ []

abbrev pub restore_as : Machine → Result DriverError String → Outcome
restore_as m (err e) = fails e
restore_as m (ok format) = finish m.elapsed format (m.exec (restore_command m.access format))

abbrev pub restore_dump : Machine → Result String Header → Outcome
restore_dump m (err e) = fails (opening e)
restore_dump m (ok h) = restore_as m (detect_format h)

abbrev pub pgdata : String
pgdata = "/var/lib/postgresql/data"

abbrev pub untar : List String
untar = "sh" ∷ "-c" ∷ cat "mkdir -p " (cat pgdata (cat " && tar -xf - -C " pgdata)) ∷ []

abbrev pub prepare_data : List String
prepare_data =
    "sh"
    ∷ "-c"
    ∷ cat "chown -R postgres:postgres " (
        cat pgdata (
          cat " && chmod 700 " (
            cat pgdata (
              cat " && printf 'local all all trust\\nhost all all all trust\\n' > "
                (cat pgdata "/pg_hba.conf")))))
    ∷ []

abbrev pub start_postgres : List String
start_postgres =
    "sh" ∷ "-c" ∷ "nohup docker-entrypoint.sh postgres >/tmp/firedrill-pg.log 2>&1 & echo started"
    ∷ []

-- `fail`, of a step that did not end with 0.
abbrev pub base_result : Machine → Restore
base_result m = record { duration = m.elapsed; output = []; format = "basebackup"; dsn = "" }

abbrev pub step : Machine → String → ExecAnswer → Outcome → Outcome
step m name (err e) rest = fails (step_error name e)
step m name (ok (code, out)) rest =
    if code == 0
    then rest
    else fails_with (record (base_result m) { output = tail out 4000 })
        (step_failed name code (tail out 4000))

abbrev pub database_of : String → String
database_of db = if db == "" then "postgres" else db

abbrev pub select_one : String → List String
select_one db = "psql" ∷ "-U" ∷ "postgres" ∷ "-d" ∷ db ∷ "-c" ∷ "select 1" ∷ []

-- How the wait is decided.
pub data PgEnd : Type 0 where
  accepts : PgEnd
  cancelled : String → PgEnd
  broken : Text → PgEnd

abbrev pub line_round : Text → Round PgEnd
line_round [] = again
line_round (c ∷ cs) = done (broken (c ∷ cs))

abbrev pub log_round : ExecAnswer → Round PgEnd
log_round (err e) = again
log_round (ok (code, out)) = if code == 0 then line_round (fatal_startup_line out) else again

abbrev pub query_round : ExecAnswer → ExecAnswer → Round PgEnd
query_round (err e) log = log_round log
query_round (ok (code, out)) log = if code == 0 then done accepts else log_round log

abbrev pub unless_cancelled : Option String → Round PgEnd → Round PgEnd
unless_cancelled (some e) rest = done (cancelled e)
unless_cancelled none rest = rest

unfoldable pub pg_round : String → PgProbe → Round PgEnd
pg_round db p = unless_cancelled p.cancelled (query_round (p.psql (select_one db)) p.log)

abbrev pub second : ℕ
second = 1000000000

-- The test is that the deadline is not passed: one nanosecond more than three minutes.
abbrev pub pg_timeout : ℕ
pg_timeout = 180 * second + 1

-- The timeout is within 181 seconds.
abbrev pub pg_rounds : ℕ
pg_rounds = 182

unfoldable pub await_cluster : Machine → String → Ended PgEnd
await_cluster m db =
    poll pg_rounds (m.wait_start + pg_timeout) (λ i. (m.probes i).at)
      (λ i. pg_round db (m.probes i)) 0

abbrev pub base_dsn : Access → String → String
base_dsn a db =
    cat "postgres://postgres@"
      (cat a.host (cat ":" (cat a.host_port (cat "/" (cat db "?sslmode=disable")))))

abbrev pub after_wait : Machine → String → Ended PgEnd → Outcome
after_wait m db out_of_fuel = fails not_ready_in_time
after_wait m db timed_out = fails not_ready_in_time
after_wait m db (returned accepts) =
    succeeds (record (base_result m) { dsn = base_dsn m.access db })
after_wait m db (returned (cancelled e)) = fails (context_over e)
after_wait m db (returned (broken line)) =
    fails_with (record (base_result m) { output = tail line 4000 })
      (startup_broken (tail line 4000))

abbrev pub restore_opened : Machine → Source → Result String Header → Outcome
restore_opened m src (err e) = fails (opening e)
restore_opened m src (ok h) =
    let db = database_of src.database in
    step m "untar basebackup" (m.exec untar) (
      step m "preparing data directory" (m.exec prepare_data)
        (step m "starting postgres" (m.exec start_postgres) (after_wait m db (await_cluster m db))))

unfoldable pub restore_basebackup : Machine → String → Source → Outcome
restore_basebackup m path src = restore_opened m src (m.open_file path)

unfoldable pub restore : Machine → String → Source → Outcome
restore m path src =
    if src.format == "basebackup"
    then restore_basebackup m path src
    else restore_dump m (m.open_file path)
