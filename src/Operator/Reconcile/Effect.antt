-- ===== src/Operator/Reconcile/Effect.antt =====
-- What a pass does to the resource that it finds: a drill that is due is run and recorded, and
-- otherwise what is recorded of the runs stays.
use fire_drill.Base.{
  ℕ, ◌≡◌, ◌≢◌, refl, sym, subst, ◌∷◌, [], List, inl, inr, ok, err, Result, ◌==◌, nat_eq, string_eq,
  arith, Bool-cases, ltb, eq_iff, if◌then◌else◌, String,
}
use fire_drill.Spec.Document.{Drill}
use fire_drill.Drill.Run.{run}
use fire_drill.Operator.Resource.{
  Resource, Status, drill_from_cr, CrProblem, merge, spec_problem, bad_schedule, patch_status, Note,
}
use fire_drill.Operator.Reconcile.{
  Reconciler, Turn, Action, Pass, found, ends, patches, ran_once, run_now, invalid_fields,
  reconcile_found, reconcile_checked, reconcile_drill, scheduled, on_schedule, invalid_resource,
  base_time, event_of, lateness, reconcile,
}
use fire_drill.Operator.Reconcile.Due.{IsDue, runs, runs-run_now, runs-lateness, runs-event_of}
use fire_drill.Operator.Reconcile.Recorded.{
  left, IsAlone, recorded, left-event_of, left-lateness, left-run_now,
}

-- The two fields that say when a drill is due.
abbrev pub KeepsRuns : Status → Status → Type 0
KeepsRuns new old =
    (new.last_run_time ≡ old.last_run_time) × (new.observed_generation ≡ old.observed_generation)

module _ (r : Reconciler) (t : Turn) (cr : Resource) where
  pub data Effect (p : Pass) : Type 0 where
    runs_it :
        (d : Drill)
        → runs p.actions ≡ d ∷ []
        → drill_from_cr cr ≡ ok d
        → IsDue t cr d
        → left cr.status p.actions
          ≡ recorded cr.status t.run_ended cr.generation (run t.world d r.options).outcome
        → Effect p
    runs_none : runs p.actions ≡ [] → KeepsRuns (left cr.status p.actions) cr.status → Effect p

  invalid_keeps :
      (n : Note) (s : Status) (rest : List Action)
      → t.first ≡ ok s
      → left (merge (invalid_fields n) s) rest ≡ merge (invalid_fields n) s
      → KeepsRuns (left s (patches t.first (invalid_fields n) ∷ rest)) s
  unfolding patch_status merge
  invalid_keeps n s rest h k = rw h (rw k (refl, refl))

  module _ (alone : IsAlone cr.status t) where
    running_now :
        (d : Drill) (before : List Action)
        → drill_from_cr cr ≡ ok d
        → IsDue t cr d
        → runs before ≡ []
        → left cr.status before ≡ cr.status
        → Effect (run_now r t cr d before)
    running_now d before c due quiet keeps =
        runs_it d (runs-run_now r t cr d before quiet) c due
          (left-run_now r t cr d before keeps alone)

    on_schedule-Effect :
        (d : Drill) (next : ℕ → ℕ)
        → drill_from_cr cr ≡ ok d
        → d.spec.schedule ≢ ""
        → t.cron d.spec.schedule ≡ ok next
        → Effect (on_schedule r t cr d next)
    unfolding on_schedule
    on_schedule-Effect d next c s e = elim (Bool-cases (ltb t.now (next (base_time cr)))) [
      | inl l ↦ rw l (runs_none refl (refl, refl))
      | inr l ↦ rw l (
          running_now d (lateness r t cr (next (base_time cr))) c (inr (s, (next, e, ground arith)))
            (runs-lateness r t cr d (next (base_time cr)))
            (left-lateness r t cr d (next (base_time cr)) cr.status))
    ]

    scheduled-Effect :
        (d : Drill) (p : Result String (ℕ → ℕ))
        → drill_from_cr cr ≡ ok d
        → d.spec.schedule ≢ ""
        → t.cron d.spec.schedule ≡ p
        → Effect (scheduled r t cr d p)
    scheduled-Effect d (ok next) c s e = on_schedule-Effect d next c s e
    scheduled-Effect d (err x) c s e =
        runs_none refl (invalid_keeps (bad_schedule x) cr.status [] alone.first_read refl)

    one_shot-Effect :
        (d : Drill)
        → drill_from_cr cr ≡ ok d
        → d.spec.schedule ≡ ""
        → Effect (if ran_once cr then ends [] else run_now r t cr d [])
    one_shot-Effect d c s = elim (Bool-cases (ran_once cr)) [
      | inl e ↦ rw e (runs_none refl (refl, refl))
      | inr e ↦ rw e (running_now d [] c (inl (s, e)) refl refl)
    ]

    reconcile_drill-Effect :
        (d : Drill) → drill_from_cr cr ≡ ok d → Effect (reconcile_drill r t cr d)
    unfolding reconcile_drill
    reconcile_drill-Effect d c = elim (Bool-cases (d.spec.schedule == "")) [
      | inl e ↦ rw e (one_shot-Effect d c ((eq_iff d.spec.schedule "").0 e))
      | inr e ↦ rw e (
          scheduled-Effect d (t.cron d.spec.schedule) c
            (λ h. let same = (eq_iff d.spec.schedule "").1 h in cc) refl)
    ]

    reconcile_checked-Effect :
        (c : Result CrProblem Drill) → drill_from_cr cr ≡ c → Effect (reconcile_checked r t cr c)
    reconcile_checked-Effect (ok d) c = reconcile_drill-Effect d c
    reconcile_checked-Effect (err p) c = runs_none (runs-event_of r (invalid_resource p)) (
        invalid_keeps (spec_problem p) cr.status (event_of r (invalid_resource p)) alone.first_read
          (left-event_of r (invalid_resource p) _))

  pub reconcile-Effect : t.object ≡ found cr → IsAlone cr.status t → Effect (reconcile r t)
  unfolding reconcile
  reconcile-Effect o alone =
      subst (λ l. Effect (reconcile_found r t l)) (sym o)
        (reconcile_checked-Effect alone (drill_from_cr cr) refl)
