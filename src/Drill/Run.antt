-- ===== src/Drill/Run.antt =====
-- `Run` and `RunAll` of pkg/drill/drill.go, and `runVelero` of velero.go. Progress lines are left
-- out; a failure of the teardown is a warning, and shows in whether the sandbox was destroyed.

pub mod Trace
pub mod Truth
use fire_drill.Base.{
  ok, err, Result, ℕ, ℤ, pos, Bool, true, false, List, [], ◌∷◌, ◌++◌, Option, none, some, String,
  ◌==◌, ◌!=◌, string_eq, if◌then◌else◌, time_sub, map,
}
use Prim.Native.String.{◌++◌ as cat}
use fire_drill.Spec.Document.{Drill, Check}
use fire_drill.Verify.Types.{Engine, Cluster, Context, CheckResult}
use fire_drill.Verify.Engine.{new_sql}
use fire_drill.Verify.Run
use fire_drill.Source.Backup.{Backup}
use fire_drill.Report.Evidence.{Evidence}
use fire_drill.Drill.World.{
  World, Options, SandboxConfig, RestoreResult, Restored, SqlPath, VerifyPath, verifier,
  sql_capable, no_path, Driver, VeleroDrill, Event, Stop, RunError, unknown_driver, fetching,
  provisioning, connecting, no_verification, preparing, fetched, provisioned, restored, connected,
  closed, destroyed, cleaned,
}
use fire_drill.Drill.Steps.{Step, ◌>>=◌, ◌>>◌, pure, emit, attempt, deferring}
use fire_drill.Drill.Finalize.{finalize}

-- An error before there is evidence to return.
abbrev bare : (String → RunError) → String → Stop
bare wrap msg = record { evidence = none; path = ""; error = wrap msg }

abbrev pub start_evidence : World → Drill → Options → Evidence
start_evidence w d opts = record {
  drill = d.metadata.name;
  tool = cat "firedrill " opts.version;
  started_at = w.started_at;
  finished_at = 0;
  backup = record {
    uri = "";
    mod_time = 0;
    age = pos 0;
    bytes = pos 0;
    resolved_uri = "";
    encryption = "";
    compression = "";
    uncompressed_bytes = pos 0;
  };
  objectives = record { rto = d.spec.objectives.rto; rpo = d.spec.objectives.rpo };
  measured = record { restore = pos 0; rto_met = false; rpo_met = false };
  sandbox = record {
    provider = d.spec.sandbox.provider;
    image = d.spec.sandbox.image;
    destroyed = false;
  };
  checks = [];
  controls = d.spec.report.controls;
  verified = false;
  error = none;
}

abbrev pub with_backup : String → Backup → ℤ → Evidence → Evidence
with_backup uri b age e = record e {
  backup = record {
    uri = uri;
    mod_time = b.mod_time;
    age = age;
    bytes = b.size;
    resolved_uri = if b.resolved_uri != uri then b.resolved_uri else "";
    encryption = b.encryption;
    compression = b.compression;
    uncompressed_bytes = b.uncompressed_bytes;
  };
}

-- `res` may be nil: then nothing was measured.
abbrev pub duration_of : Option RestoreResult → ℤ
duration_of none = pos 0
duration_of (some r) = r.duration

abbrev pub measure : Option RestoreResult → Evidence → Evidence
measure r e = record e { measured = record e.measured { restore = duration_of r } }

abbrev pub with_checks : List CheckResult → Evidence → Evidence
with_checks rs e = record e { checks = rs }

abbrev pub with_fate : Bool → Evidence → Evidence
with_fate gone e = record e { sandbox = record e.sandbox { destroyed = gone } }

unfoldable pub get_driver : List Driver → String → Result String Driver
get_driver [] name = err name
get_driver (r ∷ rs) name = if r.name == name then ok r else get_driver rs name

abbrev pub dsn_of : SqlPath → Option RestoreResult → String
dsn_of s none = s.dsn
dsn_of s (some r) = if r.dsn != "" then r.dsn else s.dsn

-- The engine that the checks are asked of, with whether a connection is to be closed: none after
-- a failed restore.
unfoldable pub find_engine : Driver → Restored → Result Stop (Option Engine × Bool)
find_engine drv res = elim res.error [
  | some _ ↦ ok (none, false)
  | none ↦ elim drv.verify_path [
    | verifier eng ↦ ok (some eng, false)
    | sql_capable s ↦ elim (s.open_db (dsn_of s res.result)) [
      | err e ↦ err (bare connecting e)
      | ok db ↦ ok (new_sql (some db) (some s.dialect), true)
    ]
    | no_path ↦ err (bare no_verification drv.name)
  ]
]

abbrev pub drill_context : Drill → Restored → ℤ → Option Cluster → String → Context
drill_context d res age k8s ns = record {
  restore_err = res.error;
  backup_age = age;
  rto = d.spec.objectives.rto;
  k8s = k8s;
  namespace = ns;
}

-- The checks, the explicit teardown and `finalize`.
unfoldable pub verify_and_finish :
    World
    → Drill
    → Options
    → Evidence
    → Restored
    → ℤ
    → Option Engine
    → Option Cluster
    → String
    → Step (Evidence × String)
verify_and_finish w d opts e res age eng k8s ns =
    let results = Run.run eng d.spec.verify (drill_context d res age k8s ns) in
    do
      emit destroyed
      finalize w d opts (with_fate w.was_destroyed (with_checks results e)) res.error
          (duration_of res.result) age

-- A connection that was opened is closed when the drill returns.
unfoldable pub with_engine :
    World
    → Drill
    → Options
    → Evidence
    → Restored
    → ℤ
    → Option Engine × Bool
    → Step (Evidence × String)
with_engine w d opts e res age (eng, true) =
    deferring closed (emit connected >> verify_and_finish w d opts e res age eng none "")
with_engine w d opts e res age (eng, false) = verify_and_finish w d opts e res age eng none ""

-- From the provisioned sandbox on.
unfoldable pub in_sandbox :
    World → Drill → Options → Driver → Backup → ℤ → Evidence → Step (Evidence × String)
in_sandbox w d opts drv b age e =
    let res = drv.restore b.path d.spec.source in
    do
      emit restored
      found ← attempt (find_engine drv res) (λ stop. stop)
      with_engine w d opts (measure res.result e) res age found

unfoldable pub provision : World → String → SandboxConfig → Result String (Unit {0})
provision w provider cfg =
    if provider == "docker"
    then w.docker cfg
    else if provider == "kubernetes"
    then w.kubernetes cfg
    else err provider

abbrev pub sandbox_config : Drill → SandboxConfig
sandbox_config d = record {
  image = d.spec.sandbox.image;
  ttl = d.spec.sandbox.ttl;
  name = d.metadata.name;
  namespace = d.spec.sandbox.namespace;
  cold_start = d.spec.source.format == "basebackup";
}

unfoldable pub with_artifact : World → Drill → Options → Driver → Backup → Step (Evidence × String)
with_artifact w d opts drv b =
    let age = time_sub w.fetched_at b.mod_time in
    let e = with_backup d.spec.source.source_from.uri b age (start_evidence w d opts) in
    do
      attempt (provision w d.spec.sandbox.provider (sandbox_config d)) (bare provisioning)
      emit provisioned
      deferring destroyed (in_sandbox w d opts drv b age e)

unfoldable pub run_engine : World → Drill → Options → Step (Evidence × String)
run_engine w d opts = do
  drv ← attempt (get_driver w.registry d.spec.source.driver) (bare unknown_driver)
  b ← attempt (w.fetch d.spec.source.source_from) (bare fetching)
  emit fetched
  deferring cleaned (with_artifact w d opts drv b)

-- The facts about a Velero backup that `runVelero` sets.
abbrev pub with_velero : World → Drill → VeleroDrill → Evidence → Evidence
with_velero w d v e = record e {
  backup = record e.backup {
    uri = cat "velero://" (
        cat d.spec.source.source_from.backup
          (cat " (namespace " (cat d.spec.source.source_from.namespace ")")));
    mod_time = w.velero_mod_time;
    age = v.backup_age;
  };
  sandbox = record e.sandbox { image = cat "namespace:" v.target_ns };
}

unfoldable pub in_namespace : World → Drill → Options → VeleroDrill → Step (Evidence × String)
in_namespace w d opts v =
    let e = with_velero w d v (start_evidence w d opts) in
    do
      emit restored
      verify_and_finish w d opts (measure v.restore.result e) v.restore v.backup_age none
          (some v.cluster) v.target_ns

unfoldable pub run_velero : World → Drill → Options → Step (Evidence × String)
run_velero w d opts =
    let from = d.spec.source.source_from in
    do
      v ←
          attempt (w.prepare d.metadata.name from.backup from.namespace d.spec.sandbox.ttl)
            (bare preparing)
      emit provisioned
      deferring destroyed (in_namespace w d opts v)

unfoldable pub run : World → Drill → Options → Step (Evidence × String)
run w d opts = if d.spec.source.driver == "velero" then run_velero w d opts else run_engine w d opts

-- `report.Outcome` of pkg/report/scorecard.go.
pub record Outcome : Type 0 where
  pub drill : String
  pub evidence : Option Evidence
  pub evidence_path : String
  pub error : Option RunError

abbrev pub outcome_of : String → Result Stop (Evidence × String) → Outcome
outcome_of name (ok (e, path)) = record {
  drill = name;
  evidence = some e;
  evidence_path = path;
  error = none;
}
outcome_of name (err s) = record {
  drill = name;
  evidence = s.evidence;
  evidence_path = s.path;
  error = some s.error;
}

-- Each drill meets the world as it is when its turn comes.
unfoldable pub run_all : List (World × Drill) → Options → List Outcome
run_all drills opts = map (λ (w, d). outcome_of d.metadata.name (run w d opts).outcome) drills
