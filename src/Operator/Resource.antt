-- ===== src/Operator/Resource.antt =====
-- The custom resource of pkg/operator/controller.go, `drillFromCR` and `patchStatus`. The fields of
-- the status are kept as the values that they print; a missing field is none. `lastRunTime` is
-- written in whole seconds, and read as the zero time where it is missing or no time.
use fire_drill.Base.{
  ℕ, ℤ, Bool, ◌-◌, ◌%◌, Option, none, some, List, [], ◌∷◌, String, Result, ok, err, is_empty,
  if◌then◌else◌, ◌≡◌, refl, subst,
}
use fire_drill.Spec.Document.{Spec, Drill, api_version, kind}
use fire_drill.Spec.Validate.{Problem, validate}
use fire_drill.Drill.World.{RunError}

-- What `unstructured.NestedMap`, `json.Marshal` and `yaml.Unmarshal` answer on `.spec`.
pub data RawSpec : Type 0 where
  unreadable : String → RawSpec
  absent : RawSpec
  unencodable undecodable : String → RawSpec
  decoded : Spec → RawSpec

-- The errors of `drillFromCR`.
pub data CrProblem : Type 0 where
  reading_spec : String → CrProblem
  missing_spec : CrProblem
  encoding_spec parsing_spec : String → CrProblem
  invalid_spec : List Problem → CrProblem

pub data Phase : Type 0 where
  invalid running error verified failed : Phase

-- `failureSummary`, before it is printed.
pub data Summary : Type 0 where
  not_verified : Summary
  failed_checks : List String → Summary

pub data Note : Type 0 where
  spec_problem : CrProblem → Note
  bad_schedule : String → Note
  in_progress : Note
  run_error : RunError → Note
  recovery_verified : Note
  summary : Summary → Note

-- The fields that a run with evidence sets.
pub record Facts : Type 0 where
  pub restore : ℤ
  pub backup_age : ℤ
  pub rto_met : Bool
  pub rpo_met : Bool

-- A map of status fields: those to set, or those that the resource has.
pub record Status : Type 0 where
  pub phase : Option Phase
  pub message : Option Note
  pub is_verified : Option Bool
  pub last_run_time : Option ℕ
  pub observed_generation : Option ℕ
  pub facts : Option Facts

abbrev pub no_status : Status
no_status = record {
  phase = none;
  message = none;
  is_verified = none;
  last_run_time = none;
  observed_generation = none;
  facts = none;
}

pub record Resource : Type 0 where
  pub name : String
  pub generation : ℕ
  pub created : ℕ
  pub raw_spec : RawSpec
  pub status : Status

-- `existing[k] = v`
abbrev pub or_kept : {A : Type 0} → Option A → Option A → Option A
or_kept none old = old
or_kept (some new) old = some new

unfoldable pub merge : Status → Status → Status
merge fields old = record {
  phase = or_kept fields.phase old.phase;
  message = or_kept fields.message old.message;
  is_verified = or_kept fields.is_verified old.is_verified;
  last_run_time = or_kept fields.last_run_time old.last_run_time;
  observed_generation = or_kept fields.observed_generation old.observed_generation;
  facts = or_kept fields.facts old.facts;
}

-- `retry.RetryOnConflict` ends with the status that was fresh in the attempt that got through, or
-- with an error.
unfoldable pub patch_status : Result String Status → Status → Result String Status
patch_status (err e) fields = err e
patch_status (ok fresh) fields = ok (merge fields fresh)

abbrev pub drill_of : Resource → Spec → Drill
drill_of cr s = record {
  api_version = api_version;
  kind = kind;
  metadata = record { name = cr.name };
  spec = s;
}

abbrev pub checked_drill : Drill → List Problem → Result CrProblem Drill
checked_drill d ps = if is_empty ps then ok d else err (invalid_spec ps)

abbrev pub drill_from_raw : Resource → RawSpec → Result CrProblem Drill
drill_from_raw cr (unreadable e) = err (reading_spec e)
drill_from_raw cr absent = err missing_spec
drill_from_raw cr (unencodable e) = err (encoding_spec e)
drill_from_raw cr (undecodable e) = err (parsing_spec e)
drill_from_raw cr (decoded s) = checked_drill (drill_of cr s) (validate (drill_of cr s))

unfoldable pub drill_from_cr : Resource → Result CrProblem Drill
drill_from_cr cr = drill_from_raw cr cr.raw_spec

checked_drill-validates :
    (d : Drill) (ps : List Problem) {r : Drill} → checked_drill d ps ≡ ok r → (ps ≡ []) × (d ≡ r)
checked_drill-validates d [] h = (refl, cc)
checked_drill-validates d (p ∷ ps) h = cc

drill_from_raw-validates :
    (cr : Resource) (raw : RawSpec) {d : Drill}
    → drill_from_raw cr raw ≡ ok d
    → (validate d ≡ []) × (d.metadata.name ≡ cr.name)
drill_from_raw-validates cr (decoded s) h =
    let found = checked_drill-validates (drill_of cr s) (validate (drill_of cr s)) h in
    subst (λ x. (validate x ≡ []) × (x.metadata.name ≡ cr.name)) found.1 (found.0, refl)
drill_from_raw-validates cr (unreadable e) h = cc
drill_from_raw-validates cr absent h = cc
drill_from_raw-validates cr (unencodable e) h = cc
drill_from_raw-validates cr (undecodable e) h = cc

-- A resource gives a drill only when the document with the resource's name is valid.
pub drill_from_cr-validates :
    (cr : Resource) {d : Drill}
    → drill_from_cr cr ≡ ok d
    → (validate d ≡ []) × (d.metadata.name ≡ cr.name)
unfolding drill_from_cr
drill_from_cr-validates cr h = drill_from_raw-validates cr cr.raw_spec h

-- `UTC().Format(time.RFC3339)`, read again.
abbrev pub second : ℕ
second = 1000000000

unfoldable pub whole_seconds : ℕ → ℕ
whole_seconds t = t - t % second

-- The resource with another status gives the same drill.
abbrev pub with_status : Resource → Status → Resource
with_status cr s = record cr { status = s }

drill_from_raw-with_status :
    (cr : Resource) (s : Status) (raw : RawSpec)
    → drill_from_raw (with_status cr s) raw ≡ drill_from_raw cr raw
drill_from_raw-with_status cr s (unreadable e) = refl
drill_from_raw-with_status cr s absent = refl
drill_from_raw-with_status cr s (unencodable e) = refl
drill_from_raw-with_status cr s (undecodable e) = refl
drill_from_raw-with_status cr s (decoded d) = refl

pub drill_from_cr-with_status :
    (cr : Resource) (s : Status) → drill_from_cr (with_status cr s) ≡ drill_from_cr cr
unfolding drill_from_cr
drill_from_cr-with_status cr s = drill_from_raw-with_status cr s cr.raw_spec
