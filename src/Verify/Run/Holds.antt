-- ===== src/Verify/Run/Holds.antt =====
-- What a passed check proves of the restored system.
use fire_drill.Base.{
  ℕ, ◌≡◌, refl, ◌↔◌, ◌⊎◌, inl, inr, true, false, Option, none, some, ℤ, pos, ◌≤ℤ◌, String, ok,
  leb_ℤ_iff, eq_iff, string_eq, arith, Result-cases,
}
use fire_drill.Spec.Document.{
  RowCountCheck, ChecksumCheck, SmokeCheck, CanaryCheck, ResourceCountCheck, smoke_statement,
  canary_statement,
}
use fire_drill.Spec.Checks.{known_resource}
use fire_drill.Spec.Checks.Valid.{
  Kind, restore_succeeded, freshness, row_count, checksum, smoke, canary, pods_ready,
  resource_count, only,
}
use fire_drill.Verify.Types.{Engine, Cluster, Context, CheckResult, no_detail}
use fire_drill.Verify.Rows.{eval_rows}
use fire_drill.Verify.Pods
use fire_drill.Verify.Pods.Stable.{HoldsReady, poll_iff}
use fire_drill.Verify.Run
use fire_drill.Verify.Run.{ident_re, data_check, require_engine, expected_rows, run_one}

module _ (dc : Context) where
  -- The restore succeeded, and `P` holds of the engine that is there.
  abbrev Restored : Option Engine → (Engine → Type 0) → Type 0
  Restored none P = ⊥
  Restored (some eng) P = (dc.restore_err ≡ none) × P eng

  abbrev InCluster : (Cluster → Type 0) → Option Cluster → Type 0
  InCluster P none = ⊥
  InCluster P (some k) = (dc.restore_err ≡ none) × P k

abbrev Counted : RowCountCheck → Engine → Type 0
Counted c eng = (n : ℤ) × (eng.count c.query ≡ ok n) × (c.min ≤ℤ n)

abbrev Summed : ChecksumCheck → Engine → Type 0
Summed c eng =
    (sum : String) × (ident_re c.table ≡ true)
    × (ident_re c.column ≡ true)
    × (eng.checksum c.table c.column ≡ ok sum)
    × ((c.expect ≡ "") ⊎ (sum ≡ c.expect))

abbrev Rowed : SmokeCheck → Engine → Type 0
Rowed c eng =
    (n : ℕ) × (eng.rows (smoke_statement c) ≡ ok n) × (eval_rows n (expected_rows c) ≡ ok true)

abbrev Sentinel : CanaryCheck → Engine → Type 0
Sentinel c eng = eng.scalar (canary_statement c) ≡ ok c.expect

abbrev Listed : String → ResourceCountCheck → Cluster → Type 0
Listed namespace c k =
    (n : ℕ) × (known_resource c.kind ≡ true) × (k.count c.kind namespace ≡ ok n) × (c.min ≤ℤ pos n)

abbrev pub Holds : Option Engine → Context → Kind → Type 0
Holds eng dc restore_succeeded = dc.restore_err ≡ none
Holds eng dc (freshness c) = dc.backup_age ≤ℤ c.max_age
Holds eng dc (row_count c) = Restored dc eng (Counted c)
Holds eng dc (checksum c) = Restored dc eng (Summed c)
Holds eng dc (smoke c) = Restored dc eng (Rowed c)
Holds eng dc (canary c) = Restored dc eng (Sentinel c)
Holds eng dc (pods_ready c) =
    InCluster dc (λ k. HoldsReady (k.samples dc.namespace c.timeout)) dc.k8s
Holds eng dc (resource_count c) = InCluster dc (Listed dc.namespace c) dc.k8s

-- A data check passes exactly when the restore succeeded, an engine is there, and it passes there.
engine_check :
    (dc : Context) (name : String) (run : Engine → CheckResult) (P : Engine → Type 0)
    → ((e : Engine) → ((run e).passed ≡ true) ↔ P e)
    → (eng : Option Engine)
    → ((data_check dc name (require_engine eng name run)).passed ≡ true) ↔ Restored dc eng P
unfolding data_check require_engine
engine_check dc name run P iff none = (λ h. absurd (ground arith), λ h. elim h [ ])
engine_check dc name run P iff (some e) =
    (λ h. (ground arith, (iff e).0 (ground arith)), λ h. ground (arith, (iff e).1 h.1))

cluster_check :
    (dc : Context) (name : String) (run : Option Cluster → CheckResult) (P : Cluster → Type 0)
    → (run none).passed ≡ false
    → ((k : Cluster) → ((run (some k)).passed ≡ true) ↔ P k)
    → (o : Option Cluster) → ((data_check dc name (run o)).passed ≡ true) ↔ InCluster dc P o
unfolding data_check
cluster_check dc name run P fails iff none = (λ h. absurd (ground arith), λ h. elim h [ ])
cluster_check dc name run P fails iff (some k) =
    (λ h. (ground arith, (iff k).0 (ground arith)), λ h. ground (arith, (iff k).1 h.1))

row_count_iff : (c : RowCountCheck) (e : Engine) → ((Run.row_count c e).passed ≡ true) ↔ Counted c e
unfolding Run.row_count
row_count_iff c e = elim (Result-cases (e.count c.query)) [
  | inl (n, q) ↦ ((λ h. (n, q, ground arith)), λ (m, p, le). ground arith)
  | inr (x, q) ↦ ((λ h. absurd (ground arith)), λ (m, p, le). ground arith)
]

checksum_iff : (c : ChecksumCheck) (e : Engine) → ((Run.checksum c e).passed ≡ true) ↔ Summed c e
unfolding Run.checksum
checksum_iff c e = elim (Result-cases (e.checksum c.table c.column)) [
  | inl (sum, q) ↦ (
    λ h. (
      sum,
      ground arith,
      ground arith,
      q,
      ground (arith, eq_iff c.expect "", eq_iff sum c.expect),
    ),
    λ (s, t, u, p, x). ground (arith, eq_iff c.expect "", eq_iff sum c.expect),
  )
  | inr (x, q) ↦ ((λ h. absurd (ground arith)), λ (s, t, u, p, x). ground arith)
]

smoke_iff : (c : SmokeCheck) (e : Engine) → ((Run.smoke c e).passed ≡ true) ↔ Rowed c e
unfolding Run.smoke
smoke_iff c e = elim (Result-cases (e.rows (smoke_statement c))) [
  | inl (n, q) ↦ ((λ h. (n, q, ground arith)), λ (m, p, x). ground arith)
  | inr (x, q) ↦ ((λ h. absurd (ground arith)), λ (m, p, x). ground arith)
]

canary_iff : (c : CanaryCheck) (e : Engine) → ((Run.canary c e).passed ≡ true) ↔ Sentinel c e
unfolding Run.canary
canary_iff c e = elim (Result-cases (e.scalar (canary_statement c))) [
  | inl (got, q) ↦
      (λ h. ground (arith, eq_iff got c.expect), λ h. ground (arith, eq_iff got c.expect))
  | inr (x, q) ↦ ((λ h. absurd (ground arith)), λ h. ground arith)
]

resource_count_iff :
    (namespace : String) (c : ResourceCountCheck) (k : Cluster)
    → ((Run.resource_count (some k) namespace c).passed ≡ true) ↔ Listed namespace c k
unfolding Run.resource_count
resource_count_iff namespace c k = elim (Result-cases (k.count c.kind namespace)) [
  | inl (n, q) ↦ ((λ h. (n, ground arith, q, ground arith)), λ (m, s, p, le). ground arith)
  | inr (x, q) ↦ ((λ h. absurd (ground arith)), λ (m, s, p, le). ground arith)
]

restore_succeeded_iff :
    (dc : Context) → ((Run.restore_succeeded dc).passed ≡ true) ↔ (dc.restore_err ≡ none)
unfolding Run.restore_succeeded
restore_succeeded_iff dc = (λ h. ground arith, λ h. ground arith)

-- A check of one kind passes exactly when what it claims holds: the restore succeeded; the backup is
-- young enough; or, after a successful restore, the engine counts enough rows, sums the column
-- to the expected value, returns rows as expected or returns the sentinel itself, or the cluster
-- keeps its pods ready or lists enough objects.
pub run_one_iff :
    (eng : Option Engine) (dc : Context) (k : Kind)
    → ((run_one eng (only k) dc).passed ≡ true) ↔ Holds eng dc k
unfolding run_one
run_one_iff eng dc restore_succeeded = restore_succeeded_iff dc
run_one_iff eng dc (freshness c) = unfold Run.freshness in leb_ℤ_iff dc.backup_age c.max_age
run_one_iff eng dc (row_count c) =
    engine_check dc "rowCount" (Run.row_count c) (Counted c) (row_count_iff c) eng
run_one_iff eng dc (checksum c) =
    engine_check dc "checksum" (Run.checksum c) (Summed c) (checksum_iff c) eng
run_one_iff eng dc (smoke c) = engine_check dc "smoke" (Run.smoke c) (Rowed c) (smoke_iff c) eng
run_one_iff eng dc (canary c) =
    engine_check dc "canary" (Run.canary c) (Sentinel c) (canary_iff c) eng
run_one_iff eng dc (pods_ready c) =
    cluster_check dc "podsReady" (λ o. Pods.pods_ready o dc.namespace c)
      (λ k. HoldsReady (k.samples dc.namespace c.timeout)) (unfold Pods.pods_ready in refl)
      (λ k.
        unfold Pods.pods_ready in poll_iff c.timeout no_detail (k.samples dc.namespace c.timeout))
      dc.k8s
run_one_iff eng dc (resource_count c) =
    cluster_check dc "resourceCount" (λ o. Run.resource_count o dc.namespace c)
      (Listed dc.namespace c) (unfold Run.resource_count in refl)
      (resource_count_iff dc.namespace c) dc.k8s
