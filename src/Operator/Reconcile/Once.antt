-- ===== src/Operator/Reconcile/Once.antt =====
-- How often a drill runs, over the passes that follow each other.
use fire_drill.Base.{
  ℕ, suc, ◌≤◌, ◌<◌, ◌≡◌, refl, sym, subst, ◌∙◌, ◌++◌, ◌∷◌, [], List, ◌⊎◌, inl, inr, ok, err, Result,
  true, false, nat_eq, string_eq, arith, Bool-cases, if◌then◌else◌, String,
}
use fire_drill.Spec.Document.{Drill}
use fire_drill.Drill.Run.{run}
use fire_drill.Drill.World.{Stop}
use fire_drill.Report.Evidence.{Evidence}
use fire_drill.Operator.Resource.{
  Resource, Status, drill_from_cr, merge, second, with_status, drill_from_cr-with_status,
}
use fire_drill.Operator.Reconcile.{
  Reconciler, Turn, Pass, found, ran_once, reconcile, no_error, outcome_fields,
}
use fire_drill.Operator.Reconcile.Due.{IsDue, runs}
use fire_drill.Operator.Reconcile.Recorded.{left, IsAlone, recorded, whole_seconds-positive}
use fire_drill.Operator.Reconcile.Effect.{Effect, runs_it, runs_none, reconcile-Effect, KeepsRuns}

-- Below a bound, each below the one before it.
abbrev pub Descends : ℕ → List ℕ → Type 0
Descends b [] = Unit
Descends b (g ∷ gs) = (g < b) × Descends g gs

Descends-below : (a b : ℕ) (gs : List ℕ) → a ≤ b → Descends a gs → Descends b gs
Descends-below a b [] l h = tt
Descends-below a b (g ∷ gs) l h = (omega (arith, h.0), h.1)

-- The drill of a resource has no schedule, where it has one at all.
abbrev pub HasNoSchedule : Resource → Type 0
HasNoSchedule cr = (d : Drill) → drill_from_cr cr ≡ ok d → d.spec.schedule ≡ ""

-- The generations that a pass completes: those of drills that end without an execution error.
abbrev pub completed : Reconciler → Turn → ℕ → List Drill → List ℕ
completed r t g [] = []
completed r t g (d ∷ ds) =
    let rest = completed r t g ds in
    if no_error (run t.world d r.options).outcome then g ∷ rest else rest

-- What may happen to a resource that never has a schedule, with the generations completed, from
-- the latest on: edits, each of which makes a later generation and leaves the status, and passes
-- of the one controller, at times after the first second.
pub data Life (r : Reconciler) : Resource → List ℕ → Type 0 where
  created : (cr : Resource) → HasNoSchedule cr → Life r cr []
  edited :
      {cr : Resource} {log : List ℕ} (cr' : Resource)
      → Life r cr log
      → cr.generation < cr'.generation
      → HasNoSchedule cr'
      → cr'.status ≡ cr.status
      → Life r cr' log
  passed :
      {cr : Resource} {log : List ℕ} (t : Turn)
      → Life r cr log
      → t.object ≡ found cr
      → IsAlone cr.status t
      → second ≤ t.run_ended
      → Life r
          (with_status cr (left cr.status (reconcile r t).actions))
          (completed r t cr.generation (runs (reconcile r t).actions) ++ log)

-- The current generation is completed at most once, and then recorded.
pub record IsOnce (cr : Resource) (log : List ℕ) : Type 0 where
  pub without : HasNoSchedule cr
  pub generations :
      Descends cr.generation log ⊎ ((ran_once cr ≡ true) × Descends (suc cr.generation) log)

KeepsRuns-ran_once :
    (cr : Resource) (s : Status) → KeepsRuns s cr.status → ran_once (with_status cr s) ≡ ran_once cr
unfolding ran_once
KeepsRuns-ran_once cr s h = rw h.0 (rw h.1 refl)

recorded_completed :
    (cr : Resource) (at : ℕ) (o : Result Stop (Evidence × String))
    → second ≤ at
    → no_error o ≡ true
    → ran_once (with_status cr (recorded cr.status at cr.generation o)) ≡ true
unfolding ran_once recorded merge outcome_fields
recorded_completed cr at (ok (e, path)) h n = elim (Bool-cases e.verified) [
  | inl v ↦ rw v (ground (arith, whole_seconds-positive at h))
  | inr v ↦ rw v (ground (arith, whole_seconds-positive at h))
]
recorded_completed cr at (err s) h n = cc

HasNoSchedule-with_status :
    (cr : Resource) (s : Status) → HasNoSchedule cr → HasNoSchedule (with_status cr s)
HasNoSchedule-with_status cr s h d e = h d (sym (drill_from_cr-with_status cr s) ∙ e)

IsDue-one_shot :
    (t : Turn) (cr : Resource) (d : Drill)
    → d.spec.schedule ≡ ""
    → IsDue t cr d
    → ran_once cr ≡ false
IsDue-one_shot t cr d s (inl (_, n)) = n
IsDue-one_shot t cr d s (inr (n, _)) = absurd (n s)

IsOnce-Descends : (cr : Resource) (log : List ℕ) → IsOnce cr log → Descends (suc cr.generation) log
IsOnce-Descends cr log once = elim once.generations [
  | inl h ↦ Descends-below cr.generation (suc cr.generation) log (omega arith) h
  | inr h ↦ h.1
]

not_recorded :
    (cr : Resource) (log : List ℕ)
    → ran_once cr ≡ false
    → IsOnce cr log
    → Descends cr.generation log
not_recorded cr log n once = elim once.generations [ inl h ↦ h | inr h ↦ cc h.0 ]

module _ (r : Reconciler) (t : Turn) (cr : Resource) (log : List ℕ) where
  passed_ran :
      (d : Drill) (s : Status)
      → second ≤ t.run_ended
      → s ≡ recorded cr.status t.run_ended cr.generation (run t.world d r.options).outcome
      → Descends cr.generation log
      → Descends cr.generation (completed r t cr.generation (d ∷ []) ++ log)
        ⊎ ((ran_once (with_status cr s) ≡ true)
            × Descends (suc cr.generation) (completed r t cr.generation (d ∷ []) ++ log))
  passed_ran d s late e below = elim (Bool-cases (no_error (run t.world d r.options).outcome)) [
    | inl x ↦ rw x (
        inr (
          subst (λ u. ran_once (with_status cr u) ≡ true) (sym e)
              (recorded_completed cr t.run_ended (run t.world d r.options).outcome late x),
          (omega arith, below),
        ))
    | inr x ↦ rw x (inl below)
  ]

  passed-IsOnce :
      (p : Pass)
      → second ≤ t.run_ended
      → Effect r t cr p
      → IsOnce cr log
      → IsOnce
          (with_status cr (left cr.status p.actions))
          (completed r t cr.generation (runs p.actions) ++ log)
  passed-IsOnce p late (runs_none e k) once = record {
    without = HasNoSchedule-with_status cr (left cr.status p.actions) once.without;
    generations = rw e (rw (KeepsRuns-ran_once cr (left cr.status p.actions) k) once.generations);
  }
  passed-IsOnce p late (runs_it d e c i f) once = record {
    without = HasNoSchedule-with_status cr (left cr.status p.actions) once.without;
    generations = rw e (
        passed_ran d (left cr.status p.actions) late f
          (not_recorded cr log (IsDue-one_shot t cr d (once.without d c) i) once));
  }

Life-IsOnce : {r : Reconciler} {cr : Resource} {log : List ℕ} → Life r cr log → IsOnce cr log
Life-IsOnce (created cr h) = record { without = h; generations = inl tt }
Life-IsOnce (edited {cr} {log} cr' life later h same) = record {
  without = h;
  generations = inl (
      Descends-below (suc cr.generation) cr'.generation log (omega arith)
        (IsOnce-Descends cr log (Life-IsOnce life)));
}
Life-IsOnce {r} (passed {cr} {log} t life o alone late) =
    passed-IsOnce r t cr log (reconcile r t) late (reconcile-Effect r t cr o alone)
      (Life-IsOnce life)

-- Whatever edits and passes follow each other on a resource that never has a schedule, where in each
-- pass both patches of the status are accepted and read what the passes so far left, no generation of
-- it is completed twice: the generations of the drills that ended without an
-- execution error descend, from the current one at most.
pub completed_once :
    {r : Reconciler} {cr : Resource} {log : List ℕ}
    → Life r cr log
    → Descends (suc cr.generation) log
completed_once {r} {cr} {log} life = IsOnce-Descends cr log (Life-IsOnce life)
