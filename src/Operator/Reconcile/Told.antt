-- ===== src/Operator/Reconcile/Told.antt =====
-- What the status of a resource says of the run that it records.
use fire_drill.Base.{
  ℕ, ◌≡◌, refl, subst, ◌∷◌, [], inl, inr, ok, err, Result, true, nat_eq, string_eq, arith,
  Bool-cases, some, String, Option,
}
use fire_drill.Spec.Document.{Drill}
use fire_drill.Verify.Types.{Engine, Context}
use fire_drill.Drill.Run.{run}
use fire_drill.Drill.Run.Truth.{Asked, Proven, run_honest}
use fire_drill.Drill.World.{Stop}
use fire_drill.Report.Evidence.{Evidence}
use fire_drill.Operator.Resource.{
  Resource, Status, drill_from_cr, drill_from_cr-validates, verified, merge,
}
use fire_drill.Operator.Reconcile.{Reconciler, Turn, found, reconcile, outcome_fields}
use fire_drill.Operator.Reconcile.Due.{runs}
use fire_drill.Operator.Reconcile.Recorded.{left, IsAlone, recorded}
use fire_drill.Operator.Reconcile.Effect.{reconcile-Effect}
use fire_drill.Operator.Reconcile.Next.{left_after_run}

-- A run that ended without an execution error, and with a verdict of verified.
pub record IsVerifiedRun (o : Result Stop (Evidence × String)) : Type 0 where
  pub evidence : Evidence
  pub path : String
  pub ended : o ≡ ok (evidence, path)
  pub verdict : evidence.verified ≡ true

recorded-IsVerifiedRun :
    (s : Status) (at g : ℕ) (o : Result Stop (Evidence × String))
    → (recorded s at g o).phase ≡ some verified
    → IsVerifiedRun o
unfolding recorded merge outcome_fields
recorded-IsVerifiedRun s at g (ok (e, path)) h = elim (Bool-cases e.verified) [
  | inl v ↦ record { evidence = e; path = path; ended = refl; verdict = v }
  | inr v ↦ absurd (ground arith)
]
recorded-IsVerifiedRun s at g (err x) h = cc

-- When a pass that alone writes the status runs a drill and leaves the phase Verified, the run
-- ended without an execution error, and by the evidence that it returned the restore of the resource's backup met the
-- objectives, and every check of its spec, one that inspects data among them, holds of what was
-- restored.
pub status_honest :
    (r : Reconciler) (t : Turn) (cr : Resource) (d : Drill)
    → t.object ≡ found cr
    → drill_from_cr cr ≡ ok d
    → IsAlone cr.status t
    → runs (reconcile r t).actions ≡ d ∷ []
    → (left cr.status (reconcile r t).actions).phase ≡ some verified
    → (e : Evidence) × (path : String) × ((run t.world d r.options).outcome ≡ ok (e, path))
      × ((eng : Option Engine) × (dc : Context) × Asked t.world d eng dc × Proven d eng dc e)
status_honest r t cr d o c alone ran phase =
    let kept = left_after_run r t t cr d (reconcile r t) (reconcile-Effect r t cr o alone) c ran in
    let good =
      recorded-IsVerifiedRun cr.status t.run_ended cr.generation (run t.world d r.options).outcome
        (subst (λ s. s.phase ≡ some verified) kept phase) in
    (
      good.evidence,
      good.path,
      good.ended,
      run_honest t.world d r.options good.evidence good.path (drill_from_cr-validates cr c).0
          good.ended good.verdict,
    )
