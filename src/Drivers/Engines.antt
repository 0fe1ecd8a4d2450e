-- ===== src/Drivers/Engines.antt =====
-- `Restore` of pkg/drivers/mysql/mysql.go and pkg/drivers/mongodb/mongodb.go, with `preflight`, and the
-- registry of the three engines.
use fire_drill.Base.{
  ◌∷◌, [], List, ok, err, Result, ◌!=◌, nat_eq, string_eq, if◌then◌else◌, none, some, String,
  Option,
}
use Prim.Native.String.{◌++◌ as cat}
use fire_drill.Spec.Document.{Source}
use fire_drill.Drivers.Texts.{tail}
use fire_drill.Drivers.Outcome.{
  ExecAnswer, Outcome, DriverError, fails, finish, opening, checking_tools, no_mongorestore,
  credentials_error, credentials_failed,
}
use fire_drill.Drivers.Postgres.{Access, Header, Machine, restore as restore_postgres}

-- `shellWithPwd`: the password comes from the container's environment.
abbrev pub shell_with_pwd : String → List String
shell_with_pwd cmd = "sh" ∷ "-c" ∷ cat "export MYSQL_PWD=\"$MYSQL_PASSWORD\"; exec " cmd ∷ []

abbrev pub mysql_command : Access → List String
mysql_command a = shell_with_pwd (cat "mysql -u" (cat a.user (cat " " a.db)))

abbrev pub load_mysql : Machine → Result String Header → Outcome
load_mysql m (err e) = fails (opening e)
load_mysql m (ok h) = finish m.elapsed "plain" (m.exec (mysql_command m.access))

unfoldable pub restore_mysql : Machine → String → Outcome
restore_mysql m path = load_mysql m (m.open_file path)

abbrev pub tools_config_path : String
tools_config_path = "/tmp/.firedrill-mongo.conf"

abbrev pub has_tools : List String
has_tools = "sh" ∷ "-c" ∷ "command -v mongorestore >/dev/null" ∷ []

-- `writePasswordConfig`
abbrev pub write_password_config : List String
write_password_config =
    "sh"
    ∷ "-c"
    ∷ cat "umask 077 && printf 'password: %s\\n' \"$MONGO_INITDB_ROOT_PASSWORD\" > "
        tools_config_path
    ∷ []

abbrev pub mongo_command : Access → List String
mongo_command a =
    "mongorestore" ∷ "--username" ∷ a.user ∷ "--config" ∷ tools_config_path
    ∷ "--authenticationDatabase" ∷ "admin" ∷ "--nsExclude" ∷ "admin.*" ∷ "--nsExclude" ∷ "config.*"
    ∷ "--archive" ∷ []

-- `preflight`: what keeps a restore from starting.
abbrev pub preflight : ExecAnswer → Option DriverError
preflight (err e) = some (checking_tools e)
preflight (ok (code, out)) = if code != 0 then some no_mongorestore else none

abbrev pub with_credentials : Machine → ExecAnswer → Outcome
with_credentials m (err e) = fails (credentials_error e)
with_credentials m (ok (code, out)) =
    if code != 0
    then fails (credentials_failed code (tail out 500))
    else finish m.elapsed "archive" (m.exec (mongo_command m.access))

abbrev pub load_mongo : Machine → Result String Header → Outcome
load_mongo m (err e) = fails (opening e)
load_mongo m (ok h) = with_credentials m (m.exec write_password_config)

abbrev pub checked_mongo : Machine → String → Option DriverError → Outcome
checked_mongo m path (some e) = fails e
checked_mongo m path none = load_mongo m (m.open_file path)

unfoldable pub restore_mongodb : Machine → String → Outcome
restore_mongodb m path = checked_mongo m path (preflight (m.exec has_tools))

-- The drivers that register themselves and restore into a sandbox.
pub data EngineDriver : Type 0 where
  postgres mysql mongodb : EngineDriver

unfoldable pub restore : EngineDriver → Machine → String → Source → Outcome
restore postgres m path src = restore_postgres m path src
restore mysql m path src = restore_mysql m path
restore mongodb m path src = restore_mongodb m path
