-- ===== src/Verify/Run/Skipped.antt =====
-- Which checks are skipped, under what name a check reports, and what a canary's result reveals.
use fire_drill.Base.{
  [], ◌∷◌, ℕ, ◌≡◌, refl, false, Option, none, some, String, ok, ◌==◌, string_eq, arith, ◌&&◌, ℤ,
  List, ◌∷◌, suc, length,
}
use fire_drill.Spec.Document.{
  CanaryCheck, canary_statement, is_set, proves_data, RowCountCheck, ChecksumCheck, SmokeCheck,
  PodsReadyCheck, ResourceCountCheck,
}
use fire_drill.Spec.Checks.Valid.{
  Kind, restore_succeeded, freshness, row_count, checksum, smoke, canary, pods_ready,
  resource_count, only,
}
use fire_drill.Verify.Types.{
  cancelled, list_error, listed, Engine, Context, CheckResult, Sample, no_detail, listing_pods,
  no_pods, pods_not_ready,
}
use fire_drill.Verify.Pods
use fire_drill.Verify.Run
use fire_drill.Verify.Run.{data_check, require_engine, run_one, Cluster, Detail}

-- The name that a kind of check reports under.
abbrev pub kind_name : Kind → String
kind_name restore_succeeded = "restoreSucceeded"
kind_name (freshness c) = "freshness"
kind_name (row_count c) = "rowCount"
kind_name (checksum c) = "checksum"
kind_name (smoke c) = "smoke"
kind_name (canary c) = "canary"
kind_name (pods_ready c) = "podsReady"
kind_name (resource_count c) = "resourceCount"

-- A result that ran under its name.
abbrev Ran : String → CheckResult → Type 0
Ran name r = (r.name ≡ name) × (r.skipped ≡ false)

module _ (e : Engine) where
  Ran-row_count : (c : RowCountCheck) → Ran "rowCount" (Run.row_count c e)
  unfolding Run.row_count
  Ran-row_count c = ground arith

  Ran-checksum : (c : ChecksumCheck) → Ran "checksum" (Run.checksum c e)
  unfolding Run.checksum
  Ran-checksum c = ground arith

  Ran-smoke : (c : SmokeCheck) → Ran "smoke" (Run.smoke c e)
  unfolding Run.smoke
  Ran-smoke c = ground arith

  Ran-canary : (c : CanaryCheck) → Ran "canary" (Run.canary c e)
  unfolding Run.canary
  Ran-canary c = ground arith

Ran-poll :
    (t : ℤ) (n : ℕ) (last : Detail) (ss : List Sample) → Ran "podsReady" (Pods.poll t n last ss)
unfolding Pods.poll
Ran-poll t n last [] = (refl, refl)
Ran-poll t n last (cancelled x ∷ ss) = (refl, refl)
Ran-poll t n last (list_error x ∷ ss) = Ran-poll t 0 (listing_pods x) ss
Ran-poll t n last (listed [] ∷ ss) = Ran-poll t 0 no_pods ss
Ran-poll t n last (listed (p ∷ ps) ∷ ss) = ground (
  arith,
  Ran-poll t (suc n) last ss,
  Ran-poll t 0 (pods_not_ready (Pods.not_ready (p ∷ ps)) (length (p ∷ ps))) ss,
)

Ran-pods_ready :
    (o : Option Cluster) (ns : String) (c : PodsReadyCheck)
    → Ran "podsReady" (Pods.pods_ready o ns c)
unfolding Pods.pods_ready
Ran-pods_ready none ns c = (refl, refl)
Ran-pods_ready (some k) ns c = Ran-poll c.timeout 0 no_detail (k.samples ns c.timeout)

Ran-resource_count :
    (o : Option Cluster) (ns : String) (c : ResourceCountCheck)
    → Ran "resourceCount" (Run.resource_count o ns c)
unfolding Run.resource_count
Ran-resource_count none ns c = (refl, refl)
Ran-resource_count (some k) ns c = ground arith

Ran-engine :
    (name : String) (run : Engine → CheckResult)
    → ((e : Engine) → Ran name (run e))
    → (o : Option Engine) → Ran name (require_engine o name run)
unfolding require_engine
Ran-engine name run h none = (refl, refl)
Ran-engine name run h (some e) = h e

-- How a check reports: under its own name, and skipped or not.
abbrev Reports : Context → Kind → CheckResult → Type 0
Reports dc k r =
    (r.name ≡ kind_name k) × (r.skipped ≡ (is_set dc.restore_err && proves_data (only k)))

guarded :
    (dc : Context) (name : String) (r : CheckResult)
    → Ran name r
    → ((data_check dc name r).name ≡ name)
      × ((data_check dc name r).skipped ≡ is_set dc.restore_err)
unfolding data_check
guarded dc name r h = ground arith

engine_reports :
    (dc : Context) (name : String) (run : Engine → CheckResult)
    → ((e : Engine) → Ran name (run e))
    → (o : Option Engine)
    → ((data_check dc name (require_engine o name run)).name ≡ name)
      × ((data_check dc name (require_engine o name run)).skipped ≡ is_set dc.restore_err)
engine_reports dc name run h o =
    guarded dc name (require_engine o name run) (Ran-engine name run h o)

-- Every check reports under the name of its kind, and it is skipped exactly when it inspects
-- restored data and the restore failed.
pub run_one-reports :
    (eng : Option Engine) (dc : Context) (k : Kind)
    → ((run_one eng (only k) dc).name ≡ kind_name k)
      × ((run_one eng (only k) dc).skipped ≡ (is_set dc.restore_err && proves_data (only k)))
unfolding run_one proves_data
run_one-reports eng dc restore_succeeded = unfold Run.restore_succeeded in ground arith
run_one-reports eng dc (freshness c) = unfold Run.freshness in ground arith
run_one-reports eng dc (row_count c) =
    ground (arith, engine_reports dc "rowCount" (Run.row_count c) (λ e. Ran-row_count e c) eng)
run_one-reports eng dc (checksum c) =
    ground (arith, engine_reports dc "checksum" (Run.checksum c) (λ e. Ran-checksum e c) eng)
run_one-reports eng dc (smoke c) =
    ground (arith, engine_reports dc "smoke" (Run.smoke c) (λ e. Ran-smoke e c) eng)
run_one-reports eng dc (canary c) =
    ground (arith, engine_reports dc "canary" (Run.canary c) (λ e. Ran-canary e c) eng)
run_one-reports eng dc (pods_ready c) = ground (
  arith,
  guarded dc "podsReady" (Pods.pods_ready dc.k8s dc.namespace c)
      (Ran-pods_ready dc.k8s dc.namespace c),
)
run_one-reports eng dc (resource_count c) = ground (
  arith,
  guarded dc "resourceCount" (Run.resource_count dc.k8s dc.namespace c)
      (Ran-resource_count dc.k8s dc.namespace c),
)

-- A canary's result says only whether the value read is the expected one: two canaries that
-- both match, or both do not, give the same result, whatever their sentinels are.
pub canary_private :
    (c d : CanaryCheck) (e f : Engine) (got seen : String)
    → e.scalar (canary_statement c) ≡ ok got
    → f.scalar (canary_statement d) ≡ ok seen
    → (got == c.expect) ≡ (seen == d.expect)
    → Run.canary c e ≡ Run.canary d f
unfolding Run.canary
canary_private c d e f got seen p q same = ground arith
