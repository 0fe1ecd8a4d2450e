-- ===== src/Spec/Validate.antt =====
-- `(*Drill).Validate` of pkg/spec/spec.go: the errors that it joins, in its order. The function
-- returns nil exactly when the list is empty.
pub mod Blocks
pub mod Loops
pub mod WellFormed
use fire_drill.Base.{
  ℕ, suc, Bool, true, false, not, ◌&&◌, ◌||◌, Option, none, some, List, [], ◌∷◌, ◌++◌, String, ℤ,
  pos, leb_ℤ, ok, err, any, is_empty, ◌==◌, ◌!=◌, string_eq, if◌then◌else◌, Result,
}
use fire_drill.Spec.Document.{
  api_version, kind, Decrypt, From, Source, Sandbox, Objectives, Check, Sink, Drill, is_set, is_sql,
  is_k8s, proves_data,
}
use fire_drill.Std.Glob.{path_match}
use fire_drill.Spec.Name.{name_re}
use fire_drill.Spec.Checks.{CheckProblem, check_validate}

-- One constructor for each message, with the values that the message shows.
pub data Problem : Type 0 where
  bad_api_version bad_kind bad_name : String → Problem
  mongo_dump basebackup_driver archive_driver : Problem
  unknown_format : String → Problem
  database_not_valid : Problem
  unknown_driver : String → Problem
  velero_driver_type uri_required endpoint_not_s3 : Problem
  unknown_select : String → Problem
  match_without_select : Problem
  bad_glob : String → Problem
  age_without_key gpg_with_identity : Problem
  unknown_decrypt : String → Problem
  velero_type_driver velero_select velero_decrypt backup_required namespace_required : Problem
  unknown_type : String → Problem
  velero_provider : Problem
  unknown_provider : String → Problem
  image_required ttl_positive rto_positive rpo_positive : Problem
  no_checks no_data_check : Problem
  check_invalid : ℕ → CheckProblem → Problem
  check_sql check_k8s : ℕ → Problem
  sink_textfile_dir sink_url sink_webhook_env sink_url_env : ℕ → Problem
  sink_unknown : ℕ → String → Problem

-- `if test { add(…) }`
abbrev pub add_if : Bool → Problem → List Problem
add_if true p = p ∷ []
add_if false p = []

-- `for i, x := range xs`, from an index on.
abbrev pub each : {A : Type 0} → (ℕ → A → List Problem) → ℕ → List A → List Problem
each f i [] = []
each f i (x ∷ xs) = f i x ++ each f (suc i) xs

unfoldable pub header_problems : Drill → List Problem
header_problems d =
    add_if (d.api_version != api_version) (bad_api_version d.api_version)
    ++ add_if (d.kind != kind) (bad_kind d.kind)
    ++ add_if (not (name_re d.metadata.name)) (bad_name d.metadata.name)

unfoldable pub format_problems : String → String → List Problem
format_problems driver format =
    if format == ""
    then []
    else if format == "dump"
    then add_if (driver == "mongodb") mongo_dump
    else if format == "basebackup"
    then add_if (driver != "postgres") basebackup_driver
    else if format == "archive"
    then add_if (driver != "mongodb") archive_driver
    else unknown_format format ∷ []

unfoldable pub database_problems : Source → List Problem
database_problems s =
    add_if (s.database != "" && s.format != "basebackup" && s.driver != "mongodb")
      database_not_valid

unfoldable pub driver_problems : String → List Problem
driver_problems driver =
    if driver == "postgres" || driver == "mysql" || driver == "mongodb" || driver == "velero"
    then []
    else unknown_driver driver ∷ []

unfoldable pub decrypt_problems : Option Decrypt → List Problem
decrypt_problems none = []
decrypt_problems (some dec) =
    if dec.type == "age"
    then add_if (dec.identity_file == "" && dec.identity_env == "" && dec.passphrase_env == "")
        age_without_key
    else if dec.type == "gpg"
    then add_if (dec.identity_file != "" || dec.identity_env != "") gpg_with_identity
    else unknown_decrypt dec.type ∷ []

-- The case of `file` and `s3`.
unfoldable pub fetch_problems : Bool → From → List Problem
fetch_problems velero f =
    add_if velero velero_driver_type
    ++ add_if (f.uri == "") uri_required
    ++ add_if (f.endpoint != "" && f.type != "s3") endpoint_not_s3
    ++ add_if (not (f.select == "" || f.select == "latest")) (unknown_select f.select)
    ++ add_if (f.match != "" && f.select == "") match_without_select
    ++ add_if (not (is_set (path_match f.match "probe"))) (bad_glob f.match)
    ++ decrypt_problems f.decrypt

-- The case of `velero`.
unfoldable pub velero_problems : Bool → From → List Problem
velero_problems velero f =
    add_if (not velero) velero_type_driver
    ++ add_if (f.select != "" || f.match != "") velero_select
    ++ add_if (is_set f.decrypt) velero_decrypt
    ++ add_if (f.backup == "") backup_required
    ++ add_if (f.namespace == "") namespace_required

unfoldable pub from_problems : Bool → From → List Problem
from_problems velero f =
    if f.type == "file" || f.type == "s3"
    then fetch_problems velero f
    else if f.type == "velero"
    then velero_problems velero f
    else unknown_type f.type ∷ []

unfoldable pub sandbox_problems : Bool → Sandbox → List Problem
sandbox_problems velero s =
    (if s.provider == "docker" || s.provider == "kubernetes"
      then add_if (velero && s.provider != "kubernetes") velero_provider
      else unknown_provider s.provider ∷ [])
    ++ add_if (s.image == "" && not velero) image_required
    ++ add_if (leb_ℤ s.ttl (pos 0)) ttl_positive

unfoldable pub objective_problems : Objectives → List Problem
objective_problems o =
    add_if (leb_ℤ o.rto (pos 0)) rto_positive ++ add_if (leb_ℤ o.rpo (pos 0)) rpo_positive

abbrev pub invalid_check : ℕ → Result CheckProblem (Unit {0}) → List Problem
invalid_check i (ok _) = []
invalid_check i (err p) = check_invalid i p ∷ []

unfoldable pub check_problems : Bool → ℕ → Check → List Problem
check_problems velero i c =
    invalid_check i (check_validate c)
    ++ add_if (velero && is_sql c) (check_sql i)
    ++ add_if (not velero && is_k8s c) (check_k8s i)

unfoldable pub verify_problems : Bool → List Check → List Problem
verify_problems velero cs =
    add_if (is_empty cs) no_checks
    ++ add_if (not (is_empty cs) && not (any proves_data cs)) no_data_check
    ++ each (check_problems velero) 0 cs

unfoldable pub sink_problems : ℕ → Sink → List Problem
sink_problems i s =
    if s.type == "prometheus"
    then add_if (s.textfile_dir == "") (sink_textfile_dir i)
    else if s.type == "pushgateway"
    then add_if (s.url == "") (sink_url i)
    else if s.type == "slack"
    then add_if (s.webhook_env == "") (sink_webhook_env i)
    else if s.type == "webhook"
    then add_if (s.url_env == "") (sink_url_env i)
    else sink_unknown i s.type ∷ []

unfoldable pub validate : Drill → List Problem
validate d =
    let velero = d.spec.source.driver == "velero" in
    header_problems d
    ++ format_problems d.spec.source.driver d.spec.source.format
    ++ database_problems d.spec.source
    ++ driver_problems d.spec.source.driver
    ++ from_problems velero d.spec.source.source_from
    ++ sandbox_problems velero d.spec.sandbox
    ++ objective_problems d.spec.objectives
    ++ verify_problems velero d.spec.verify
    ++ each sink_problems 0 d.spec.report.sinks
