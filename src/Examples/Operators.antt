-- ===== src/Examples/Operators.antt =====
-- The controller of pkg/operator on a resource without a schedule and on one with a schedule.
use fire_drill.Base.{
  String, ◌+◌, ◌*◌, ◌≤◌, ◌≡◌, refl, sym, subst, ◌++◌, ◌∷◌, [], inl, inr, ◌↔◌, ok, err, true, false,
  nat_eq, string_eq, arith, some, Option, length,
}
use fire_drill.Spec.Document.{Drill}
use fire_drill.Verify.Types.{Engine, Context}
use fire_drill.Drill.World.{World}
use fire_drill.Drill.Run.{run}
use fire_drill.Drill.Run.Truth.{Asked, Proven}
use fire_drill.Report.Evidence.{Evidence}
use fire_drill.Operator.Resource.{
  Resource, Status, no_status, merge, drill_from_cr, decoded, verified, with_status, whole_seconds,
}
use fire_drill.Operator.Reconcile.{
  Reconciler, Turn, found, in_progress_fields, reconcile, ran_once, base_time, outcome_fields,
  no_error,
}
use fire_drill.Operator.Reconcile.Due.{runs, HasDue, reconcile-runs_iff}
use fire_drill.Operator.Reconcile.Effect.{reconcile-Effect}
use fire_drill.Examples.Runs.{payments-run}
use fire_drill.Operator.Reconcile.Recorded.{left, IsAlone, recorded}
use fire_drill.Operator.Reconcile.Once.{
  HasNoSchedule, Descends, created, edited, passed, completed_once, completed,
}
use fire_drill.Operator.Reconcile.Next.{
  FollowedBy, runs-IsDue, left_after_run, next_one_shot_iff, next_scheduled_iff,
}
use fire_drill.Operator.Reconcile.Told.{status_honest}
use fire_drill.Examples.Data.{payments, repeated, world, options, second}
use fire_drill.Examples.Documents.{payments_valid, repeated_valid}

abbrev reconciler : Reconciler
reconciler = record { recorder = true; options = options }

abbrev resource : Resource
resource = record {
  name = "payments";
  generation = 1;
  created = 4 * second;
  raw_spec = decoded payments.spec;
  status = no_status;
}

abbrev turn : Resource → World → Turn
turn cr w = record {
  object = found cr;
  now = 4000 * second;
  run_ended = 4045 * second;
  rescheduled = 4045 * second;
  clock = 4045 * second;
  cron = λ _. ok (λ at. at + 3600 * second);
  world = w;
  first = ok cr.status;
  last = ok (merge in_progress_fields cr.status);
}

abbrev first_turn : Turn
first_turn = turn resource world

gives : drill_from_cr resource ≡ ok payments
unfolding drill_from_cr
gives = rw payments_valid refl

reconcile-runs_iff_example :
    ((d : Drill) → (runs (reconcile reconciler first_turn).actions ≡ d ∷ []) ↔ HasDue first_turn d)
    × (length (runs (reconcile reconciler first_turn).actions) ≤ 1)
reconcile-runs_iff_example = reconcile-runs_iff reconciler first_turn

first_runs : runs (reconcile reconciler first_turn).actions ≡ payments ∷ []
unfolding ran_once
first_runs = (runs-IsDue reconciler first_turn resource payments refl gives).1 (inl (refl, refl))

first_IsAlone : IsAlone resource.status first_turn
first_IsAlone = record { first_read = refl; last_read = refl }

first_status : Status
first_status = left resource.status (reconcile reconciler first_turn).actions

first_verified : first_status.phase ≡ some verified
unfolding first_status recorded merge outcome_fields
first_verified =
    subst (λ s. s.phase ≡ some verified)
      (sym (
        left_after_run reconciler first_turn first_turn resource payments _
          (reconcile-Effect reconciler first_turn resource refl first_IsAlone) gives first_runs))
      (rw payments-run refl)

status_honest_example :
    (e : Evidence) × (path : String) × ((run world payments options).outcome ≡ ok (e, path))
    × ((eng : Option Engine) × (dc : Context) × Asked world payments eng dc
        × Proven payments eng dc e)
unfolding first_status
status_honest_example =
    status_honest reconciler first_turn resource payments refl gives first_IsAlone first_runs
      first_verified

-- The backup cannot be fetched.
abbrev offline : World
offline = record world { fetch = λ _. err "no route" }

abbrev offline_turn : Resource → Turn
offline_turn cr = turn cr offline

-- The resource as a pass with an offline source leaves it, and the next pass.
abbrev next_turn : Resource → Turn
next_turn cr =
    record (turn (with_status cr (left cr.status (reconcile reconciler (offline_turn cr)).actions))
      world) { now = 4345 * second }

offline_runs : runs (reconcile reconciler (offline_turn resource)).actions ≡ payments ∷ []
unfolding ran_once
offline_runs =
    (runs-IsDue reconciler (offline_turn resource) resource payments refl gives).1
      (inl (refl, refl))

followed : FollowedBy reconciler (offline_turn resource) (next_turn resource) resource payments
followed = record {
  finds = refl;
  gives = gives;
  alone = record { first_read = refl; last_read = refl };
  ran_it = offline_runs;
  late = ground arith;
  then_finds = refl;
}

next_one_shot_iff_example :
    (runs (reconcile reconciler (next_turn resource)).actions ≡ payments ∷ [])
    ↔ (no_error (run offline payments options).outcome ≡ false)
next_one_shot_iff_example =
    next_one_shot_iff reconciler (offline_turn resource) (next_turn resource) resource payments
      followed refl λ h. cc

abbrev repeating : Resource
repeating = record resource { raw_spec = decoded repeated.spec }

gives_repeated : drill_from_cr repeating ≡ ok repeated
unfolding drill_from_cr
gives_repeated = rw repeated_valid refl

repeated_runs : runs (reconcile reconciler (offline_turn repeating)).actions ≡ repeated ∷ []
unfolding base_time
repeated_runs =
    (runs-IsDue reconciler (offline_turn repeating) repeating repeated refl gives_repeated).1
      (inr (λ h. cc, (_, refl, ground arith)))

followed_repeated :
    FollowedBy reconciler (offline_turn repeating) (next_turn repeating) repeating repeated
followed_repeated = record {
  finds = refl;
  gives = gives_repeated;
  alone = record { first_read = refl; last_read = refl };
  ran_it = repeated_runs;
  late = ground arith;
  then_finds = refl;
}

-- The source was offline; five minutes later, for which the controller asked, the drill is not due.
next_scheduled_iff_example :
    (runs (reconcile reconciler (next_turn repeating)).actions ≡ repeated ∷ [])
    ↔ (whole_seconds (4045 * second) + 3600 * second ≤ 4345 * second)
next_scheduled_iff_example =
    next_scheduled_iff reconciler (offline_turn repeating) (next_turn repeating) repeating repeated
      followed_repeated (λ at. at + 3600 * second) (λ h. cc) refl

abbrev edited_resource : Resource
edited_resource = record resource { generation = 2; status = first_status }

still_gives : drill_from_cr edited_resource ≡ ok payments
unfolding drill_from_cr
still_gives = rw payments_valid refl

still_unscheduled : HasNoSchedule edited_resource
still_unscheduled d e =
    let g = still_gives in
    let same : payments ≡ d = cc in subst (λ x. x.spec.schedule ≡ "") same refl

unscheduled : HasNoSchedule resource
unscheduled d e =
    let g = gives in let same : payments ≡ d = cc in subst (λ x. x.spec.schedule ≡ "") same refl

completed_once_example :
    Descends 3
      (completed reconciler first_turn 1 (runs (reconcile reconciler first_turn).actions) ++ [])
unfolding first_status
completed_once_example = completed_once (
    edited edited_resource
      (passed first_turn (created resource unscheduled) refl first_IsAlone (ground arith))
      (omega arith) still_unscheduled refl)
