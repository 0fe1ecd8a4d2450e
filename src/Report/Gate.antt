-- ===== src/Report/Gate.antt =====
-- `Gate` of pkg/report/gate.go: whether recovery is still being proven. The check of a signature,
-- `Verify(path, key) == nil`, is a parameter, and so is the sort of the runs, whose order of runs
-- that ended at the same instant the source leaves open. The tables that show a report are left out.
pub mod Evidenced
pub mod Sound
pub mod Complete
use fire_drill.Base.{
  ℕ, suc, ℤ, pos, Bool, true, false, not, ◌&&◌, ◌||◌, List, [], ◌∷◌, ◌++◌, Option, none, some,
  String, Result, ok, err, ◌>>=◌, length, is_empty, any, map, ltb, ltb_ℤ, time_sub, string_lt, sort,
  Sorter, ◌==◌, ◌!=◌, string_eq, if◌then◌else◌,
}
use mathlib.Core.Option.{map as option_map}
use fire_drill.Spec.Document.{is_set}
use fire_drill.Report.Evidence.{Evidence}
use fire_drill.Report.Scan.{EvidenceFile, JsonFile, scan_evidence}

-- `GateOptions`; `now` is the instant that it injects or that the clock gives.
pub record GateOptions : Type 0 where
  pub dir : String
  pub max_age : ℤ
  pub by : String
  pub subjects : List String
  pub require_signed : Bool
  pub public_key : Option String
  pub allow_unverified : Bool
  pub now : ℕ

-- One constructor for each message: the age and its limit, and whether a key was pinned.
pub data Violation : Type 0 where
  no_evidence latest_unverified no_verified_run : Violation
  aged_out : ℤ → ℤ → Violation
  unsigned : Bool → Violation

pub record SubjectStatus : Type 0 where
  pub subject : String
  pub runs : ℕ
  pub last_run : Option ℕ
  pub last_verified : Option ℕ
  pub signed : Bool
  pub violations : List Violation
  pub evidence : String

pub record GateReport : Type 0 where
  pub generated_at : ℕ
  pub evidence_dir : String
  pub by : String
  pub max_age : Option ℤ
  pub subjects : List SubjectStatus
  pub violations : ℕ

pub data GateError : Type 0 where
  scanning unsupported_by : String → GateError

-- `SubjectStatus.OK`
unfoldable pub is_ok : SubjectStatus → Bool
is_ok s = is_empty s.violations

abbrev pub newer : EvidenceFile → EvidenceFile → Bool
newer f g = ltb g.e.finished_at f.e.finished_at

-- The loop that looks for the first verified run.
unfoldable pub first_verified : List EvidenceFile → Option EvidenceFile
first_verified [] = none
first_verified (f ∷ fs) = if f.e.verified then some f else first_verified fs

-- `if test { append }`
abbrev pub when : Bool → Violation → List Violation
when true v = v ∷ []
when false v = []

abbrev pub age_violations : GateOptions → Option EvidenceFile → List Violation
age_violations o none = no_verified_run ∷ []
age_violations o (some f) =
    let age = time_sub o.now f.e.finished_at in when (ltb_ℤ o.max_age age) (aged_out age o.max_age)

unfoldable pub stale : GateOptions → Option EvidenceFile → List Violation
stale o verified = if ltb_ℤ (pos 0) o.max_age then age_violations o verified else []

abbrev pub or_else {ℓ} : {A : Type ℓ} → Option A → A → A
or_else none a = a
or_else (some b) a = b

-- `runs[0]` of the sorted runs, which are not empty when `f` is one of the runs.
abbrev pub head_or : EvidenceFile → List EvidenceFile → EvidenceFile
head_or f [] = f
head_or f (g ∷ gs) = g

abbrev finish : EvidenceFile → ℕ
finish f = f.e.finished_at

module _ (verify : String → Option String → Bool) (by_newest : Sorter newer) where
  -- The status of a subject whose latest run is `latest` and whose latest verified run is `verified`.
  unfoldable pub assess :
      String → ℕ → GateOptions → EvidenceFile → Option EvidenceFile → SubjectStatus
  assess name n o latest verified =
      let signed = verify (or_else verified latest).path o.public_key in
      record {
        subject = name;
        runs = n;
        last_run = some (finish latest);
        last_verified = option_map finish verified;
        signed = signed;
        violations =
            when (not latest.e.verified && not o.allow_unverified) latest_unverified
            ++ stale o verified
            ++ when (o.require_signed && not signed) (unsigned (is_set o.public_key));
        evidence = latest.path;
      }

  unfoldable pub evaluate : String → List EvidenceFile → GateOptions → SubjectStatus
  evaluate name [] o = record {
    subject = name;
    runs = 0;
    last_run = none;
    last_verified = none;
    signed = false;
    violations = no_evidence ∷ [];
    evidence = "";
  }
  evaluate name (f ∷ fs) o =
      let runs = by_newest.sorted (f ∷ fs) in
      assess name (length (f ∷ fs)) o (head_or f runs) (first_verified runs)

  unfoldable pub evaluate_all :
      List String → (String → List EvidenceFile) → GateOptions → List SubjectStatus
  evaluate_all names runs_of o = map (λ name. evaluate name (runs_of name) o) names

-- `subjectsOf`
unfoldable pub subjects_of : Evidence → String → List String
subjects_of e by = if by == "control" then e.controls else e.drill ∷ []

-- A file is appended to a group once for each time that it names the subject.
abbrev pub attribute : EvidenceFile → String → List String → List EvidenceFile → List EvidenceFile
attribute f name [] rest = rest
attribute f name (s ∷ ss) rest =
    let more = attribute f name ss rest in if s == name then f ∷ more else more

-- `groups[name]`
unfoldable pub group : String → List EvidenceFile → String → List EvidenceFile
group by [] name = []
group by (f ∷ fs) name = attribute f name (subjects_of f.e by) (group by fs name)

abbrev add_key : String → List String → List String
add_key s keys = if any (λ k. k == s) keys then keys else s ∷ keys

abbrev add_keys : List String → List String → List String
add_keys [] keys = keys
add_keys (s ∷ ss) keys = add_key s (add_keys ss keys)

-- The keys of `groups`.
unfoldable pub group_names : String → List EvidenceFile → List String
group_names by [] = []
group_names by (f ∷ fs) = add_keys (subjects_of f.e by) (group_names by fs)

abbrev pub required : GateOptions → String → List EvidenceFile → List String
required o by files = if is_empty o.subjects then group_names by files else o.subjects

unfoldable pub count_failing : List SubjectStatus → ℕ
count_failing [] = 0
count_failing (s ∷ ss) = let rest = count_failing ss in if is_ok s then rest else suc rest

abbrev pub by_of : GateOptions → String
by_of o = if o.by == "" then "drill" else o.by

abbrev scanned : Result String (List EvidenceFile) → Result GateError (List EvidenceFile)
scanned (ok files) = ok files
scanned (err e) = err (scanning e)

module _ (verify : String → Option String → Bool) (by_newest : Sorter newer) where
  unfoldable pub report_on : GateOptions → String → List EvidenceFile → GateReport
  report_on o by files =
      let names = sort string_lt (required o by files) in
      let statuses = evaluate_all verify by_newest names (group by files) o in
      record {
        generated_at = o.now;
        evidence_dir = o.dir;
        by = by;
        max_age = if ltb_ℤ (pos 0) o.max_age then some o.max_age else none;
        subjects = statuses;
        violations = count_failing statuses;
      }

  unfoldable pub gate : List JsonFile → GateOptions → Result GateError GateReport
  gate dir o = do
    files ← scanned (scan_evidence dir)
    let by = by_of o
    if by != "drill" && by != "control" then err (unsupported_by by) else ok (report_on o by files)
