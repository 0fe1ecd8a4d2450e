-- ===== src/Spec/Validate/WellFormed.antt =====
-- The documents that `Validate` accepts, described block by block.
use fire_drill.Base.{
  ◌≡◌, ◌↔◌, ◌⊎◌, Bool, true, [], ◌==◌, string_eq, eq_iff, arith, ◌<ℤ◌, pos, All, codes,
  append-eq-nil,
}
use fire_drill.Spec.Document.{api_version, kind, Drill}
use fire_drill.Spec.Name.{IsDnsLabel, name_re, name_re_iff}
use fire_drill.Spec.Validate.{header_problems, sink_problems, validate}
use fire_drill.Spec.Validate.Blocks.{
  FormatFits, IsDriver, FromFits, SandboxFits, format_problems_iff, database_problems_iff,
  driver_problems_iff, from_problems_iff, sandbox_problems_sound, sandbox_problems_complete,
  objective_problems_iff,
}
use fire_drill.Spec.Validate.Loops.{
  VerifyFits, SinkFits, each_sound, each_complete, verify_problems_sound, verify_problems_complete,
  sink_problems_iff,
}

abbrev pub is_velero : Drill → Bool
is_velero d = d.spec.source.driver == "velero"

pub record WellFormed (d : Drill) : Type 0 where
  pub version : d.api_version ≡ api_version
  pub kind_named : d.kind ≡ kind
  pub name : IsDnsLabel (codes d.metadata.name)
  pub format : FormatFits d.spec.source.driver d.spec.source.format
  pub database :
      (d.spec.source.database ≡ "")
      ⊎ (d.spec.source.format ≡ "basebackup")
      ⊎ (d.spec.source.driver ≡ "mongodb")
  pub driver : IsDriver d.spec.source.driver
  pub source : FromFits (is_velero d) d.spec.source.source_from
  pub sandbox : SandboxFits (is_velero d) d.spec.sandbox
  pub objectives : (pos 0 <ℤ d.spec.objectives.rto) × (pos 0 <ℤ d.spec.objectives.rpo)
  pub verify : VerifyFits (is_velero d) d.spec.verify
  pub sinks : All SinkFits d.spec.report.sinks

header_problems_sound :
    (d : Drill)
    → header_problems d ≡ []
    → (d.api_version ≡ api_version) × (d.kind ≡ kind) × IsDnsLabel (codes d.metadata.name)
unfolding header_problems
header_problems_sound d h =
    let facts : (d.api_version ≡ api_version) × (d.kind ≡ kind) × (name_re d.metadata.name ≡ true) =
      ground (arith, eq_iff d.api_version api_version, eq_iff d.kind kind) in
    (facts.0, facts.1, (name_re_iff d.metadata.name).0 facts.2)

header_problems_complete : (d : Drill) → WellFormed d → header_problems d ≡ []
unfolding header_problems
header_problems_complete d w =
    let a : d.api_version ≡ api_version = w.version in
    let b : d.kind ≡ kind = w.kind_named in
    let c : name_re d.metadata.name ≡ true = (name_re_iff d.metadata.name).1 w.name in
    ground (arith, a, b, c, eq_iff d.api_version api_version, eq_iff d.kind kind)

well_formed : (d : Drill) → validate d ≡ [] → WellFormed d
unfolding validate
well_formed d h =
    let (r7, sinks) = (append-eq-nil _ _).0 h in
    let (r6, verify) = (append-eq-nil _ _).0 r7 in
    let (r5, objectives) = (append-eq-nil _ _).0 r6 in
    let (r4, sandbox) = (append-eq-nil _ _).0 r5 in
    let (r3, from) = (append-eq-nil _ _).0 r4 in
    let (r2, driver) = (append-eq-nil _ _).0 r3 in
    let (r1, database) = (append-eq-nil _ _).0 r2 in
    let (header, format) = (append-eq-nil _ _).0 r1 in
    let (version, kind_named, name) = header_problems_sound d header in
    record {
      version = version;
      kind_named = kind_named;
      name = name;
      format = (format_problems_iff d.spec.source.driver d.spec.source.format).0 format;
      database = (database_problems_iff d.spec.source).0 database;
      driver = (driver_problems_iff d.spec.source.driver).0 driver;
      source = (from_problems_iff (is_velero d) d.spec.source.source_from).0 from;
      sandbox = sandbox_problems_sound (is_velero d) d.spec.sandbox sandbox;
      objectives = (objective_problems_iff d.spec.objectives).0 objectives;
      verify = verify_problems_sound (is_velero d) d.spec.verify verify;
      sinks = each_sound sink_problems SinkFits sink_problems_iff 0 d.spec.report.sinks sinks;
    }

-- A drill document passes validation exactly when it is well formed: the right version and kind, a
-- DNS label for a name, a format and a database that fit the driver, a known driver with a source
-- that fits it, a sandbox that can hold it, positive objectives, at least one check that inspects
-- the restored data with every check valid and fit for the driver, and sinks with destinations.
pub validate_iff : (d : Drill) → (validate d ≡ []) ↔ WellFormed d
unfolding validate
validate_iff d = (
  well_formed d,
  λ w. rw (
    header_problems_complete d w,
    (format_problems_iff d.spec.source.driver d.spec.source.format).1 w.format,
    (database_problems_iff d.spec.source).1 w.database,
    (driver_problems_iff d.spec.source.driver).1 w.driver,
    (from_problems_iff (is_velero d) d.spec.source.source_from).1 w.source,
    sandbox_problems_complete (is_velero d) d.spec.sandbox w.sandbox,
    (objective_problems_iff d.spec.objectives).1 w.objectives,
    verify_problems_complete (is_velero d) d.spec.verify w.verify,
    each_complete sink_problems SinkFits sink_problems_iff 0 d.spec.report.sinks w.sinks,
  ),
)
