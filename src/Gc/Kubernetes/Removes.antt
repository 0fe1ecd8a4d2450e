-- ===== src/Gc/Kubernetes/Removes.antt =====
-- What the sweep of Kubernetes deletes.
use fire_drill.Base.{
  ◌<ℤ◌, ◌≡◌, ◌≢◌, refl, ◌↔◌, ◌⊎◌, inl, inr, true, false, List, none, some, ok, map, Any, arith,
  time_sub, eq_false_iff, string_eq,
}
use fire_drill.Gc.Lease.{Options, IsOrphan, expired_iff}
use fire_drill.Gc.Sweep.{Call, delete_pod, delete_namespace, delete_restore, Swept, sweep, nothing}
use fire_drill.Gc.Sweep.Calls.{IsRemoved, sweep-map_iff}
use fire_drill.Gc.Kubernetes.{
  SandboxPod, DrillNamespace, Restore, Clients, pod_task, namespace_task, restore_task,
  sweep_listed, sweep_kubernetes,
}

module _ (k : Clients) (o : Options) where
  abbrev pub IsLeftPod : SandboxPod → Type 0
  IsLeftPod p = IsOrphan k.parse o p.expires p.created k.now

  abbrev pub IsLeftNamespace : DrillNamespace → Type 0
  IsLeftNamespace n = (n.phase ≢ "Terminating") × IsOrphan k.parse o n.expires n.created k.now

  abbrev pub IsLeftRestore : Restore → Type 0
  IsLeftRestore r = (o.force ≡ true) ⊎ (o.older_than <ℤ time_sub k.now r.created)

  pod_iff :
      (p : SandboxPod) → IsRemoved o.dry_run (pod_task k o p) ↔ ((o.dry_run ≡ false) × IsLeftPod p)
  unfolding pod_task
  pod_iff p =
      let due = expired_iff k.parse o p.expires p.created k.now in
      (λ (_, _, old, wet). (wet, due.0 old), λ (wet, old). (refl, refl, due.1 old, wet))

  namespace_iff :
      (n : DrillNamespace)
      → IsRemoved o.dry_run (namespace_task k o n) ↔ ((o.dry_run ≡ false) × IsLeftNamespace n)
  unfolding namespace_task
  namespace_iff n =
      let due = expired_iff k.parse o n.expires n.created k.now in
      let live = eq_false_iff n.phase "Terminating" in
      (
        λ (_, here, old, wet). (wet, (live.0 here, due.0 old)),
        λ (wet, (here, old)). (refl, live.1 here, due.1 old, wet),
      )

  restore_iff :
      (r : Restore)
      → IsRemoved o.dry_run (restore_task k o r) ↔ ((o.dry_run ≡ false) × IsLeftRestore r)
  unfolding restore_task
  restore_iff r =
      (λ (_, _, old, wet). (wet, ground arith), λ (wet, old). (refl, refl, ground arith, wet))

  swept :
      (ps : List SandboxPod) (ns : List DrillNamespace) (rs : List Restore) (s : Swept)
      → k.pods ≡ ok ps
      → k.namespaces ≡ ok ns
      → k.restores ≡ ok rs
      → sweep_kubernetes k o ≡ (some s, none)
      → s
        ≡ sweep o.dry_run (map (pod_task k o) ps) (
            sweep o.dry_run
              (map (namespace_task k o) ns)
              (sweep o.dry_run (map (restore_task k o) rs) nothing))
  unfolding sweep_kubernetes sweep_listed
  swept ps ns rs s found spaces restored ran = ground arith

  -- A sweep of Kubernetes that lists all three kinds asks for exactly these deletions: with no dry run,
  -- of each sandbox pod and of each namespace that is not terminating whose lease is over (or that is
  -- older than the threshold, where it has no lease or the sweep is forced), and of each Velero restore
  -- that is older than the threshold, or of any age when the sweep is forced.
  pub sweep_kubernetes-calls_iff :
      (P : Call → Type 0) (ps : List SandboxPod) (ns : List DrillNamespace) (rs : List Restore)
      (s : Swept)
      → k.pods ≡ ok ps
      → k.namespaces ≡ ok ns
      → k.restores ≡ ok rs
      → sweep_kubernetes k o ≡ (some s, none)
      → Any P s.calls ↔ (
          Any (λ p. ((o.dry_run ≡ false) × IsLeftPod p) × P (delete_pod p.namespace p.name)) ps
          ⊎ Any (λ n. ((o.dry_run ≡ false) × IsLeftNamespace n) × P (delete_namespace n.name)) ns
          ⊎ Any (λ r. ((o.dry_run ≡ false) × IsLeftRestore r) × P (delete_restore r.name)) rs)
  unfolding pod_task namespace_task restore_task
  sweep_kubernetes-calls_iff P ps ns rs s found spaces restored ran =
      let dry = o.dry_run in
      let last = sweep dry (map (restore_task k o) rs) nothing in
      let later = sweep dry (map (namespace_task k o) ns) last in
      let first = sweep-map_iff P dry (pod_task k o) _ pod_iff ps later in
      let second = sweep-map_iff P dry (namespace_task k o) _ namespace_iff ns last in
      let third = sweep-map_iff P dry (restore_task k o) _ restore_iff rs nothing in
      rw (swept ps ns rs s found spaces restored ran) (
        λ h. elim (first.0 h) [
          | inl x ↦ inl x
          | inr y ↦ elim (second.0 y) [
            | inl z ↦ inr (inl z)
            | inr w ↦ elim (third.0 w) [ inl z ↦ inr (inr z) | inr q ↦ elim q [ ] ]
          ]
        ],
        λ h. first.1 (elim h [
          | inl x ↦ inl x
          | inr (inl z) ↦ inr (second.1 (inl z))
          | inr (inr z) ↦ inr (second.1 (inr (third.1 (inl z))))
        ]),
      )
