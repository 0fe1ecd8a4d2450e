-- ===== src/Examples/Checks.antt =====
-- The checks of pkg/verify on the answers of one engine and one cluster.
use fire_drill.Base.{
  ◌↔◌, ℕ, pos, ◌≡◌, refl, true, List, Option, none, some, String, ok, codes, ◌&&◌, string_eq,
}
use fire_drill.Std.Strings.{is_space, trim_left, trim_right, trim_space, is_digit, atoi}
use fire_drill.Spec.Document.{CanaryCheck, proves_data}
use fire_drill.Spec.Checks.Valid.{only}
use fire_drill.Verify.Types.{Engine, Context, no_detail}
use fire_drill.Verify.Engine.{sql_count, new_sql}
use fire_drill.Verify.Rows.{read_op, is_blank, skip_blanks, rows_expr, eval_rows, Op}
use fire_drill.Verify.Rows.Language.{Reads, Claims, eval_rows_iff}
use fire_drill.Verify.Pods.{pod_is_ready, not_ready, poll}
use fire_drill.Verify.Pods.Stable.{HoldsReady, poll_iff}
use fire_drill.Verify.Run.{data_check, require_engine, row_count, canary, run_one}
use fire_drill.Verify.Run.Holds.{Holds, run_one_iff}
use fire_drill.Verify.Run.Skipped.{run_one-reports, canary_private}
use fire_drill.Examples.Data.{cluster, database, min_rows, sentinel, rounds}

abbrev engine : Option Engine
engine = new_sql (some database) none

abbrev context : Context
context = record {
  restore_err = none;
  backup_age = pos 60;
  rto = pos 900;
  k8s = some cluster;
  namespace = "web";
}

enough_rows : (run_one engine (only min_rows) context).passed ≡ true
unfolding run_one data_check require_engine row_count new_sql sql_count
enough_rows = refl

run_one_iff_example : Holds engine context min_rows
run_one_iff_example = (run_one_iff engine context min_rows).0 enough_rows

pods_stay : (poll (pos 60) 0 no_detail rounds).passed ≡ true
unfolding poll not_ready pod_is_ready
pods_stay = refl

poll_iff_example : HoldsReady rounds
poll_iff_example = (poll_iff (pos 60) no_detail rounds).0 pods_stay

abbrev broken : Context
broken = record context { restore_err = some "exit status 1" }

run_one-reports_example :
    ((run_one engine (only sentinel) broken).name ≡ "canary")
    × ((run_one engine (only sentinel) broken).skipped ≡ (true && proves_data (only sentinel)))
run_one-reports_example = run_one-reports engine broken sentinel

abbrev answering : String → Engine
answering text = record {
  count = λ _. ok (pos 0);
  rows = λ _. ok 0;
  scalar = λ _. ok text;
  checksum = λ _ _. ok "";
}

abbrev expecting : String → CanaryCheck
expecting text = record { sql = "SELECT marker FROM drill"; query = ""; expect = text }

canary_private_example :
    canary (expecting "secret") (answering "stale") ≡ canary (expecting "token") (answering "lost")
canary_private_example =
    canary_private (expecting "secret") (expecting "token") (answering "stale") (answering "lost")
      "stale" "lost" refl refl refl

three_rows : eval_rows 3 " >= 2" ≡ ok true
unfolding eval_rows rows_expr read_op is_blank skip_blanks is_space trim_left trim_right trim_space
    is_digit atoi
three_rows = refl

eval_rows_iff_example :
    (op : Op) × (ds : List ℕ) × Reads (trim_space (codes " >= 2")) op ds
    × ((true ≡ true) ↔ Claims op 3 (atoi ds))
eval_rows_iff_example = (eval_rows_iff 3 " >= 2" true).0 three_rows
