-- ===== src/Examples/Runs.antt =====
-- Runs of the two drills of pkg/drill.
use fire_drill.Base.{
  map, pos, ◌≡◌, ◌≤ℤ◌, refl, true, [], ◌∷◌, Option, none, some, String, ok, All, Any, time_sub,
}
use fire_drill.Verify.Types.{Engine, Context, restore_completed, result}
use fire_drill.Verify.Engine.{sql_count, sql_scalar, new_sql}
use fire_drill.Verify.Run as VerifyRun
use fire_drill.Report.Evidence.{Evidence}
use fire_drill.Drill.Verdict.{is_data_name, weigh, verdict}
use fire_drill.Drill.Verdict.Meaning.{Passed, Proof, verdict_iff}
use fire_drill.Drill.Finalize.{finalize, sign_evidence, render_html, notify_events, metric_sinks}
use fire_drill.Drill.Run.{
  run, run_engine, with_artifact, provision, in_sandbox, with_engine, verify_and_finish,
  find_engine, get_driver, start_evidence, with_backup, run_all,
}
use fire_drill.Drill.Run.Trace.{audit, start, run_releases}
use fire_drill.Drill.Run.Truth.{Asked, Proven, run_honest}
use fire_drill.Report.Scorecard.{
  start as start_score, ending, ends_verified, ends_failed, ends_errored, write_scorecard,
  write_scorecard-run_all,
}
use fire_drill.Examples.Data.{web, payments, world, options, backup, database}
use fire_drill.Examples.Documents.{payments_valid}

run_releases_example : audit (run world payments options).events start ≡ start
run_releases_example = run_releases world payments options

abbrev no_error : Option String
no_error = none

abbrev measured : Evidence
measured = record (start_evidence world payments options) {
  checks =
      result "restoreSucceeded" true restore_completed
      ∷ result "canary" true restore_completed
      ∷ [];
}

enough : (verdict payments.spec.objectives none (pos 5) (pos 6) measured).verified ≡ true
unfolding verdict weigh is_data_name
enough = refl

verdict_iff_example :
    (no_error ≡ none)
    × (pos 5 ≤ℤ pos 900000000000)
    × (pos 6 ≤ℤ pos 86400000000000)
    × All Passed measured.checks
    × Any Proof measured.checks
verdict_iff_example = (verdict_iff payments.spec.objectives none (pos 5) (pos 6) measured).0 enough

abbrev engine : Option Engine
engine = new_sql (some database) (some λ table column. table)

abbrev context : Context
context = record {
  restore_err = none;
  backup_age = pos 5000000000;
  rto = pos 900000000000;
  k8s = none;
  namespace = "";
}

abbrev pub evidence : Evidence
evidence =
    let found = start_evidence world payments options in
    record (with_backup "backups/payments.dump" backup (pos 5000000000) found) {
      finished_at = world.finished_at;
      measured = record { restore = pos 42000000000; rto_met = true; rpo_met = true };
      sandbox = record { provider = "docker"; image = "postgres:16"; destroyed = true };
      checks = VerifyRun.run engine payments.spec.verify context;
      verified = true;
    }

pub payments-run : (run world payments options).outcome ≡ ok (evidence, "evidence/payments.json")
unfolding run run_engine with_artifact provision in_sandbox with_engine verify_and_finish
    find_engine get_driver finalize sign_evidence render_html notify_events metric_sinks verdict
    weigh is_data_name VerifyRun.run VerifyRun.run_one VerifyRun.data_check VerifyRun.require_engine
    VerifyRun.row_count VerifyRun.canary VerifyRun.restore_succeeded new_sql sql_count sql_scalar
    time_sub
payments-run = refl

run_honest_example :
    (eng : Option Engine) × (dc : Context) × Asked world payments eng dc
    × Proven payments eng dc evidence
run_honest_example =
    run_honest world payments options evidence "evidence/payments.json" payments_valid payments-run
      refl

write_scorecard-run_all_example :
    (write_scorecard start_score (run_all ((world, payments) ∷ (world, web) ∷ []) options)
      ≡ some (record {
        verified = ending ends_verified options ((world, payments) ∷ (world, web) ∷ []);
        failed = ending ends_failed options ((world, payments) ∷ (world, web) ∷ []);
        errored = ending ends_errored options ((world, payments) ∷ (world, web) ∷ []);
      }))
    × (map (λ x. x.drill) (run_all ((world, payments) ∷ (world, web) ∷ []) options)
        ≡ "payments" ∷ "web" ∷ [])
write_scorecard-run_all_example =
    write_scorecard-run_all ((world, payments) ∷ (world, web) ∷ []) options
