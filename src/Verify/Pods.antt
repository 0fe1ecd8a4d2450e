-- ===== src/Verify/Pods.antt =====
-- `podsReady` of pkg/verify/k8s.go. The rounds of its loop that begin before the deadline are a
-- list, so the loop ends when the list does; the sleep between two rounds is left out.
pub mod Stable
use fire_drill.Base.{
  ℕ, zero, suc, Bool, true, false, List, [], ◌∷◌, Option, none, some, ℤ, String, leb, ltb, length,
  ◌==◌, nat_eq, if◌then◌else◌,
}
use fire_drill.Spec.Document.{PodsReadyCheck}
use fire_drill.Verify.Types.{
  Phase, Condition, Pod, Sample, Cluster, Detail, CheckResult, result, pending, running, succeeded,
  cancelled, list_error, listed, no_cluster, context_error, listing_pods, no_pods, no_detail,
  pods_not_ready, pods_stable, timeout_after,
}

abbrev pub stable_polls : ℕ
stable_polls = 3

-- The first condition of type `Ready` decides.
abbrev pub ready_condition : List Condition → Bool
ready_condition [] = false
ready_condition (c ∷ cs) = if c.is_ready_type then c.is_true else ready_condition cs

abbrev is_running : Phase → Bool
is_running running = true
is_running _ = false

abbrev is_succeeded : Phase → Bool
is_succeeded succeeded = true
is_succeeded _ = false

unfoldable pub pod_is_ready : Pod → Bool
pod_is_ready p = if is_running p.phase then ready_condition p.conditions else false

-- The loop that counts the pods which are neither completed nor ready.
unfoldable pub not_ready : List Pod → ℕ
not_ready [] = 0
not_ready (p ∷ ps) =
    let rest = not_ready ps in
    if is_succeeded p.phase then rest else if pod_is_ready p then rest else suc rest

-- The polling loop: the consecutive ready rounds so far, and the detail of the last other one.
unfoldable pub poll : ℤ → ℕ → Detail → List Sample → CheckResult
poll timeout stable last [] = result "podsReady" false (timeout_after timeout last)
poll timeout stable last (cancelled e ∷ rest) = result "podsReady" false (context_error e)
poll timeout stable last (list_error e ∷ rest) = poll timeout 0 (listing_pods e) rest
poll timeout stable last (listed [] ∷ rest) = poll timeout 0 no_pods rest
poll timeout stable last (listed (p ∷ ps) ∷ rest) =
    let pods = p ∷ ps in
    elim (not_ready pods == 0) [
      | true ↦ elim (leb stable_polls (suc stable)) [
        | true ↦ result "podsReady" true (pods_stable (length pods))
        | false ↦ poll timeout (suc stable) last rest
      ]
      | false ↦ poll timeout 0 (pods_not_ready (not_ready pods) (length pods)) rest
    ]

unfoldable pub pods_ready : Option Cluster → String → PodsReadyCheck → CheckResult
pods_ready none namespace c = result "podsReady" false no_cluster
pods_ready (some k) namespace c = poll c.timeout 0 no_detail (k.samples namespace c.timeout)
