-- ===== src/Drill/World.antt =====
-- What a drill asks of the other packages and of the machine, as the answers that it gets: the
-- interfaces `drivers.Driver` and `sandbox.Sandbox`, the functions of pkg/source, pkg/report,
-- pkg/notify and pkg/metrics that it calls, and the clock. Deadlines show as the errors answered.
use fire_drill.Base.{ℕ, ℤ, Bool, String, List, Option, Result}
use fire_drill.Spec.Document.{From, Source, Sink}
use fire_drill.Verify.Types.{Engine, Cluster}
use fire_drill.Verify.Engine.{Database}
use fire_drill.Source.Backup.{Backup}
use fire_drill.Report.Evidence.{Evidence}

-- `sandbox.Config`, without the driver's object.
pub record SandboxConfig : Type 0 where
  pub image : String
  pub ttl : ℤ
  pub name : String
  pub namespace : String
  pub cold_start : Bool

-- `drivers.RestoreResult`, as far as a drill reads it.
pub record RestoreResult : Type 0 where
  pub duration : ℤ
  pub dsn : String

-- A result and an error, either of which may be nil.
pub record Restored : Type 0 where
  pub result : Option RestoreResult
  pub error : Option String

-- A driver that speaks `database/sql`.
pub record SqlPath : Type 0 where
  pub dsn : String
  pub open_db : String → Result String Database
  pub dialect : String → String → String

-- `drivers.Driver` with the verification path that its type has, if any.
pub data VerifyPath : Type 0 where
  verifier : Engine → VerifyPath
  sql_capable : SqlPath → VerifyPath
  no_path : VerifyPath

pub record Driver : Type 0 where
  pub name : String
  pub verify_path : VerifyPath
  pub restore : String → Source → Restored

-- A prepared Velero drill.
pub record VeleroDrill : Type 0 where
  pub target_ns : String
  pub backup_age : ℤ
  pub restore : Restored
  pub cluster : Cluster

pub record World : Type 0 where
  pub started_at : ℕ
  pub fetched_at : ℕ
  pub finished_at : ℕ
  pub velero_mod_time : ℕ
  pub registry : List Driver
  pub fetch : From → Result String Backup
  pub docker : SandboxConfig → Result String (Unit {0})
  pub kubernetes : SandboxConfig → Result String (Unit {0})
  pub prepare : String → String → String → ℤ → Result String VeleroDrill
  pub was_destroyed : Bool
  pub write : String → Evidence → Result String String
  pub default_key_dir : Result String String
  pub load_key : String → Result String String
  pub sign : String → String → Result String String
  pub attest : String → String → Result String String
  pub write_html : Evidence → String → Result String String
  pub slack : Evidence → Sink → Option String
  pub webhook : Evidence → Sink → Option String
  pub export : Evidence → List Sink → List String

-- What `Options` sets, without the printer.
pub record Options : Type 0 where
  pub evidence_dir : String
  pub key_dir : String
  pub version : String

pub data RunError : Type 0 where
  unknown_driver : String → RunError
  fetching provisioning connecting : String → RunError
  no_verification : String → RunError
  preparing writing key_dir_error loading_key signing attesting html_error : String → RunError

-- What a drill does to the world, in order.
pub data Event : Type 0 where
  fetched : Event
  provisioned : Event
  restored : Event
  connected closed : Event
  destroyed : Event
  cleaned : Event
  written : String → Evidence → Event
  signed attested rendered : String → Event
  notified : Sink → Event
  exported : List Sink → Event

-- An early return: the evidence, the path and the error that it returns.
pub record Stop : Type 0 where
  pub evidence : Option Evidence
  pub path : String
  pub error : RunError
