-- ===== src/Examples/Restores.antt =====
-- The drivers of pkg/drivers on a physical backup and on a Velero backup.
use fire_drill.Base.{
  pos, ◌+◌, ◌*◌, ◌≡◌, ◌++◌, ◌∷◌, [], ◌↔◌, ok, err, false, nat_eq, string_eq, arith, ltb,
  if◌then◌else◌, none, some, String, drop, codes,
}
use fire_drill.Std.Poll.{IsPaced, returned}
use fire_drill.Spec.Document.{Source}
use fire_drill.Drivers.Quotes.{quote_js, shell_quote, read_js, read_shell, outside, quote_js-read}
use fire_drill.Drivers.Outcome.{IsTotal}
use fire_drill.Drivers.Postgres.{Machine, Header}
use fire_drill.Drivers.Engines.{restore, postgres}
use fire_drill.Drivers.Restores.{Restores, restore_iff}
use fire_drill.Drivers.Velero.{VeleroServer, RestoreObject, Restored, prepare, await_restore}
use fire_drill.Drivers.Velero.Cleanup.{LeavesNothing, velero_cleans}
use fire_drill.Drivers.Velero.Phases.{EndsIn, IsCompleted, await_restore_iff}
use fire_drill.Sandbox.Kubernetes.{create_failed, deleted}
use fire_drill.Examples.Data.{second, no_source}

-- A name with a quote.
quote_js-read_example :
    (read_js false (drop 1 (quote_js (110 ∷ 34 ∷ 39 ∷ []) ++ 41 ∷ []))
      ≡ some (110 ∷ 34 ∷ 39 ∷ [], 41 ∷ []))
    × (read_shell outside (shell_quote (110 ∷ 34 ∷ 39 ∷ []) ++ 59 ∷ 41 ∷ [])
        ≡ some (110 ∷ 34 ∷ 39 ∷ [], 59 ∷ 41 ∷ []))
quote_js-read_example = quote_js-read (110 ∷ 34 ∷ 39 ∷ []) (41 ∷ [])

abbrev base_source : Source
base_source = record {
  driver = "postgres";
  source_from = no_source;
  format = "basebackup";
  database = "";
}

abbrev header : Header
header = record { read = ok (codes "PGDMP"); rewind = none }

abbrev machine : Machine
machine = record {
  access = record {
    host = "127.0.0.1";
    host_port = "49153";
    user = "firedrill";
    password = "pw";
    db = "firedrill";
  };
  open_file = λ path. ok header;
  exec = λ cmd. ok (0, []);
  elapsed = 5 * second;
  wait_start = 10 * second;
  probes = λ i. record {
    at = 10 * second + i * second;
    cancelled = none;
    psql = λ cmd. if ltb i 3 then err "starting" else ok (0, []);
    log = ok (0, codes "FATAL:  the database system is starting up");
  };
}

timed : IsPaced second (10 * second) (λ i. (machine.probes i).at)
timed = record { begins = omega arith; sleeps = λ i. omega arith }

restore_iff_example :
    (((restore postgres machine "/tmp/base.tar" base_source).error ≡ none)
      ↔ Restores postgres machine "/tmp/base.tar" base_source)
    × IsTotal (restore postgres machine "/tmp/base.tar" base_source)
restore_iff_example = restore_iff postgres machine "/tmp/base.tar" base_source timed

abbrev in_phase : String → RestoreObject
in_phase p = record { phase = p; warnings = pos 0; errors = pos 2; validation_errors = [] }

-- The policy cannot be created; the third round finds the restore partially failed.
abbrev velero : VeleroServer
velero = record {
  config = none;
  dynamic_client = none;
  client = none;
  get_backup =
      λ name. ok (record { phase = "Completed"; created_at = 3 * second; completed_at = none });
  create_namespace = λ ns. none;
  create_policy = λ policy. create_failed "forbidden";
  create_restore = λ name. none;
  rounds = λ i. record {
    cancelled = none;
    get = if ltb i 2 then err "timeout" else ok (in_phase "PartiallyFailed");
    elapsed = i * second;
  };
  delete_namespace = deleted;
  delete_restore = deleted;
  now = 9 * second;
}

velero_cleans_example :
    LeavesNothing velero "firedrill-web-0a-1"
      (prepare velero "nightly" "firedrill-web-0a" (pos 60000000000))
velero_cleans_example =
    velero_cleans velero "nightly" "firedrill-web-0a" "firedrill-web-0a-1" (pos 60000000000)

abbrev completed : Restored
completed = record {
  result =
      some
        (record { duration = 2 * second; phase = "Completed"; warnings = pos 0; errors = pos 0 });
  error = none;
}

await_restore_iff_example :
    ((await_restore 10 velero ≡ returned completed) ↔ EndsIn 10 velero completed 0)
    × (await_restore 10 velero ≡ returned completed
        → (completed.error ≡ none) ↔ IsCompleted completed)
await_restore_iff_example = await_restore_iff 10 velero completed
