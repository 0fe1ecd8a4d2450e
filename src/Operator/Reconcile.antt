-- ===== src/Operator/Reconcile.antt =====
-- `Reconcile` of pkg/operator/controller.go. A pass meets what the cluster, the clock, the cron
-- parser and a drill answer, and is the list of what it does. Log lines are left out.
pub mod Due
pub mod Recorded
pub mod Effect
pub mod Once
pub mod Next
pub mod Told
use fire_drill.Base.{
  ℕ, ℤ, pos, Bool, true, false, not, ◌&&◌, Option, none, some, List, [], ◌∷◌, ◌++◌, String, Result,
  ok, err, ltb, ltb_ℤ, ◌==◌, ◌!=◌, string_eq, nat_eq, if◌then◌else◌, time_sub, is_empty, map,
}
use fire_drill.Spec.Document.{Drill}
use fire_drill.Verify.Types.{CheckResult}
use fire_drill.Report.Evidence.{Evidence}
use fire_drill.Drill.World.{World, Options, Stop, RunError}
use fire_drill.Drill.Run.{run}
use fire_drill.Operator.Resource.{
  Resource, Status, no_status, patch_status, drill_from_cr, CrProblem, whole_seconds, Note, Summary,
  spec_problem, bad_schedule, in_progress, run_error, recovery_verified, summary, not_verified,
  failed_checks, invalid, running, error, verified, failed, Phase, Facts,
}

-- The answer to `r.Get`.
pub data Lookup : Type 0 where
  missing : Lookup
  get_failed : String → Lookup
  found : Resource → Lookup

pub data Notice : Type 0 where
  invalid_resource : CrProblem → Notice
  missed_schedule : ℤ → ℕ → Notice
  drill_error : RunError → Notice
  drill_verified : ℤ → ℤ → Notice
  drill_failed : Summary → Notice

pub data Action : Type 0 where
  patch : Status → Result String Status → Action
  event : Notice → Action
  ran : Drill → Action

-- What one pass meets: `now`, `run_ended` and `rescheduled` are the three calls of `r.now`, and
-- `clock` is the `time.Now` of `time.Until`; `first` and `last` are what the patches before and
-- after a run settle on.
pub record Turn : Type 0 where
  pub object : Lookup
  pub now : ℕ
  pub run_ended : ℕ
  pub rescheduled : ℕ
  pub clock : ℕ
  pub cron : String → Result String (ℕ → ℕ)
  pub world : World
  pub first : Result String Status
  pub last : Result String Status

-- The `Reconciler`: whether it has a recorder, and the options of its drills.
pub record Reconciler : Type 0 where
  pub recorder : Bool
  pub options : Options

pub record Pass : Type 0 where
  pub actions : List Action
  pub requeue_after : Option ℤ
  pub error : Option String

abbrev pub ends : List Action → Pass
ends actions = record { actions = actions; requeue_after = none; error = none }

abbrev pub requeues : List Action → ℤ → Pass
requeues actions after = record { actions = actions; requeue_after = some after; error = none }

abbrev pub fails : List Action → String → Pass
fails actions e = record { actions = actions; requeue_after = none; error = some e }

abbrev pub patches : Result String Status → Status → Action
patches answer fields = patch fields (patch_status answer fields)

unfoldable pub event_of : Reconciler → Notice → List Action
event_of r n = if r.recorder then event n ∷ [] else []

unfoldable pub failed_names : List CheckResult → List String
failed_names [] = []
failed_names (c ∷ cs) =
    let rest = failed_names cs in if not c.passed && not c.skipped then c.name ∷ rest else rest

abbrev pub summary_of : List String → Summary
summary_of [] = not_verified
summary_of (n ∷ ns) = failed_checks (n ∷ ns)

unfoldable pub failure_summary : Evidence → Summary
failure_summary e = summary_of (
    failed_names e.checks
    ++ (if e.measured.rto_met then [] else "rto-objective" ∷ [])
    ++ (if e.measured.rpo_met then [] else "rpo-objective" ∷ []))

abbrev pub facts_of : Option Evidence → Option Facts
facts_of none = none
facts_of (some e) = some (record {
  restore = e.measured.restore;
  backup_age = e.backup.age;
  rto_met = e.measured.rto_met;
  rpo_met = e.measured.rpo_met;
})

abbrev pub judged : Phase → Note → Bool → Status → Status
judged p n v s = record s { phase = some p; message = some n; is_verified = some v }

-- The status fields of a run that ended at a time, for a generation.
unfoldable pub outcome_fields : ℕ → ℕ → Result Stop (Evidence × String) → Status
outcome_fields at generation (err s) =
    judged error (run_error s.error) false
      (record no_status { last_run_time = some (whole_seconds at); facts = facts_of s.evidence })
outcome_fields at generation (ok (e, path)) =
    let fields = record no_status {
      last_run_time = some (whole_seconds at);
      observed_generation = some generation;
      facts = facts_of (some e);
    } in
    if e.verified
    then judged verified recovery_verified true fields
    else judged failed (summary (failure_summary e)) false fields

unfoldable pub outcome_notice : Result Stop (Evidence × String) → Notice
outcome_notice (err s) = drill_error s.error
outcome_notice (ok (e, path)) =
    if e.verified
    then drill_verified e.measured.restore e.backup.age
    else drill_failed (failure_summary e)

abbrev pub retry_delay : ℤ
retry_delay = pos 300000000000

abbrev pub no_error : Result Stop (Evidence × String) → Bool
no_error (ok _) = true
no_error (err _) = false

-- The second `ParseStandard` is of the text that the first one accepted.
abbrev pub until_next : Turn → Result String (ℕ → ℕ) → List Action → Pass
until_next t (err _) actions = ends actions
until_next t (ok next) actions = requeues actions (time_sub (next t.rescheduled) t.clock)

abbrev pub when_patched : Turn → Drill → Bool → List Action → Result String Status → Pass
when_patched t d executed actions (err e) = fails actions e
when_patched t d executed actions (ok _) =
    if not executed
    then requeues actions retry_delay
    else if d.spec.schedule != ""
    then until_next t (t.cron d.spec.schedule) actions
    else ends actions

abbrev pub in_progress_fields : Status
in_progress_fields = record no_status { phase = some running; message = some in_progress }

unfoldable pub run_actions :
    Reconciler → Turn → ℕ → Drill → Result Stop (Evidence × String) → List Action
run_actions r t generation d outcome =
    patches t.first in_progress_fields
    ∷ ran d
    ∷ (event_of r (outcome_notice outcome)
        ++ patches t.last (outcome_fields t.run_ended generation outcome) ∷ [])

-- From the first patch on, after what was done before.
unfoldable pub run_now : Reconciler → Turn → Resource → Drill → List Action → Pass
run_now r t cr d before =
    let outcome = (run t.world d r.options).outcome in
    when_patched t d (no_error outcome) (before ++ run_actions r t cr.generation d outcome)
      (patch_status t.last (outcome_fields t.run_ended cr.generation outcome))

-- `time.Parse` of the status field; the zero time is 0.
abbrev pub time_of : Option ℕ → ℕ
time_of none = 0
time_of (some t) = t

abbrev pub last_run : Resource → ℕ
last_run cr = time_of cr.status.last_run_time

abbrev pub is_generation : Option ℕ → ℕ → Bool
is_generation none g = false
is_generation (some o) g = o == g

unfoldable pub ran_once : Resource → Bool
ran_once cr = last_run cr != 0 && is_generation cr.status.observed_generation cr.generation

unfoldable pub base_time : Resource → ℕ
base_time cr = if last_run cr == 0 then cr.created else last_run cr

unfoldable pub lateness : Reconciler → Turn → Resource → ℕ → List Action
lateness r t cr at =
    let lag = time_sub t.now at in
    if ltb_ℤ retry_delay lag && last_run cr != 0 then event_of r (missed_schedule lag at) else []

unfoldable pub on_schedule : Reconciler → Turn → Resource → Drill → (ℕ → ℕ) → Pass
on_schedule r t cr d next =
    let at = next (base_time cr) in
    if ltb t.now at then requeues [] (time_sub at t.now) else run_now r t cr d (lateness r t cr at)

abbrev pub invalid_fields : Note → Status
invalid_fields n = record no_status { phase = some invalid; message = some n }

abbrev pub scheduled : Reconciler → Turn → Resource → Drill → Result String (ℕ → ℕ) → Pass
scheduled r t cr d (err e) = ends (patches t.first (invalid_fields (bad_schedule e)) ∷ [])
scheduled r t cr d (ok next) = on_schedule r t cr d next

unfoldable pub reconcile_drill : Reconciler → Turn → Resource → Drill → Pass
reconcile_drill r t cr d =
    if d.spec.schedule == ""
    then if ran_once cr then ends [] else run_now r t cr d []
    else scheduled r t cr d (t.cron d.spec.schedule)

abbrev pub reconcile_checked : Reconciler → Turn → Resource → Result CrProblem Drill → Pass
reconcile_checked r t cr (err p) =
    ends (patches t.first (invalid_fields (spec_problem p)) ∷ event_of r (invalid_resource p))
reconcile_checked r t cr (ok d) = reconcile_drill r t cr d

abbrev pub reconcile_found : Reconciler → Turn → Lookup → Pass
reconcile_found r t missing = ends []
reconcile_found r t (get_failed e) = fails [] e
reconcile_found r t (found cr) = reconcile_checked r t cr (drill_from_cr cr)

unfoldable pub reconcile : Reconciler → Turn → Pass
reconcile r t = reconcile_found r t t.object
