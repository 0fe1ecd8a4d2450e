-- ===== src/Operator/Reconcile/Next.antt =====
-- When the pass that follows a run runs the drill again.
use fire_drill.Base.{
  ℕ, ◌≤◌, ◌≡◌, ◌≢◌, refl, sym, subst, ◌∙◌, ◌∷◌, [], inl, inr, ◌↔◌, ok, err, Result, false, nat_eq,
  string_eq, arith, Bool-cases, some, String,
}
use fire_drill.Spec.Document.{Drill}
use fire_drill.Drill.Run.{run}
use fire_drill.Drill.World.{Stop}
use fire_drill.Report.Evidence.{Evidence}
use fire_drill.Operator.Resource.{
  Resource, Status, drill_from_cr, second, whole_seconds, with_status, drill_from_cr-with_status,
  merge,
}
use fire_drill.Operator.Reconcile.{
  Reconciler, Turn, found, base_time, reconcile, no_error, Pass, outcome_fields,
}
use fire_drill.Operator.Reconcile.Due.{IsDue, runs, HasDue, due, reconcile-runs_iff}
use fire_drill.Operator.Reconcile.Recorded.{
  left, IsAlone, recorded, whole_seconds-positive, recorded-ran_once,
}
use fire_drill.Operator.Reconcile.Effect.{Effect, runs_it, runs_none, reconcile-Effect}

HasDue-IsDue :
    {t : Turn} {cr : Resource} {d : Drill}
    → t.object ≡ found cr
    → drill_from_cr cr ≡ ok d
    → HasDue t d
    → IsDue t cr d
HasDue-IsDue {t} {cr} {d} o c (due cr' o' c' h) =
    let same : cr' ≡ cr = cc in subst (λ x. IsDue t x d) same h

pub runs-IsDue :
    (r : Reconciler) (t : Turn) (cr : Resource) (d : Drill)
    → t.object ≡ found cr
    → drill_from_cr cr ≡ ok d
    → (runs (reconcile r t).actions ≡ d ∷ []) ↔ IsDue t cr d
runs-IsDue r t cr d o c =
    let whole = (reconcile-runs_iff r t).0 d in
    (λ h. HasDue-IsDue o c (whole.0 h), λ h. whole.1 (due cr o c h))

-- A pass that runs a drill of a resource, and the next pass on what it leaves.
pub record FollowedBy (r : Reconciler) (t u : Turn) (cr : Resource) (d : Drill) : Type 0 where
  pub finds : t.object ≡ found cr
  pub gives : drill_from_cr cr ≡ ok d
  pub alone : IsAlone cr.status t
  pub ran_it : runs (reconcile r t).actions ≡ d ∷ []
  pub late : second ≤ t.run_ended
  pub then_finds : u.object ≡ found (with_status cr (left cr.status (reconcile r t).actions))

abbrev after_run : Reconciler → Turn → Resource → Drill → Resource
after_run r t cr d =
    with_status cr (recorded cr.status t.run_ended cr.generation (run t.world d r.options).outcome)

module _ (r : Reconciler) (t u : Turn) (cr : Resource) (d : Drill) where
  pub left_after_run :
      (p : Pass)
      → Effect r t cr p
      → drill_from_cr cr ≡ ok d
      → runs p.actions ≡ d ∷ []
      → left cr.status p.actions
        ≡ recorded cr.status t.run_ended cr.generation (run t.world d r.options).outcome
  left_after_run p (runs_none e k) c h = cc
  left_after_run p (runs_it d' e c' i f) c h =
      let same : d' ≡ d = cc in
      subst
        (λ x.
          left cr.status p.actions
          ≡ recorded cr.status t.run_ended cr.generation (run t.world x r.options).outcome)
        same f

  next_runs_iff :
      FollowedBy r t u cr d
      → (runs (reconcile r u).actions ≡ d ∷ []) ↔ IsDue u (after_run r t cr d) d
  next_runs_iff f =
      let kept =
        left_after_run (reconcile r t) (reconcile-Effect r t cr f.finds f.alone) f.gives f.ran_it in
      let finds : u.object ≡ found (after_run r t cr d) =
        subst (λ s. u.object ≡ found (with_status cr s)) kept f.then_finds in
      runs-IsDue r u (after_run r t cr d) d finds (
        drill_from_cr-with_status cr
          (recorded cr.status t.run_ended cr.generation (run t.world d r.options).outcome)
        ∙ f.gives)

IsDue-scheduled :
    (u : Turn) (cr : Resource) (d : Drill) (next : ℕ → ℕ)
    → d.spec.schedule ≢ ""
    → u.cron d.spec.schedule ≡ ok next
    → IsDue u cr d
    → next (base_time cr) ≤ u.now
IsDue-scheduled u cr d next s c (inl (e, _)) = absurd (s e)
IsDue-scheduled u cr d next s c (inr (_, (f, e, l))) =
    let same : f ≡ next = cc in subst (λ g. g (base_time cr) ≤ u.now) same l

recorded-last_run :
    (s : Status) (at g : ℕ) (o : Result Stop (Evidence × String))
    → (recorded s at g o).last_run_time ≡ some (whole_seconds at)
unfolding recorded merge outcome_fields
recorded-last_run s at g (err x) = refl
recorded-last_run s at g (ok (e, path)) = elim (Bool-cases e.verified) [
  | inl v ↦ rw v refl
  | inr v ↦ rw v refl
]

recorded-base_time :
    (cr : Resource) (at : ℕ) (o : Result Stop (Evidence × String))
    → second ≤ at
    → base_time (with_status cr (recorded cr.status at cr.generation o)) ≡ whole_seconds at
unfolding base_time
recorded-base_time cr at o h =
    rw (recorded-last_run cr.status at cr.generation o)
      (ground (arith, whole_seconds-positive at h))

module _ (r : Reconciler) (t u : Turn) (cr : Resource) (d : Drill) (f : FollowedBy r t u cr d) where
  -- A drill without a schedule that a pass ran, for a generation of which no run was recorded, and
  -- whose both patches of the status were accepted and read what that pass left, runs again in the
  -- next pass exactly when it ended with an execution error.
  pub next_one_shot_iff :
      d.spec.schedule ≡ ""
      → cr.status.observed_generation ≢ some cr.generation
      → (runs (reconcile r u).actions ≡ d ∷ [])
        ↔ (no_error (run t.world d r.options).outcome ≡ false)
  next_one_shot_iff s n =
      let o = (run t.world d r.options).outcome in
      let whole = next_runs_iff r t u cr d f in
      let told = recorded-ran_once cr t.run_ended o f.late n in
      (
        λ e. elim (whole.0 e) [ inl p ↦ sym told ∙ p.1 | inr p ↦ absurd (p.0 s) ],
        λ e. whole.1 (inl (s, told ∙ e)),
      )

  -- A drill with a schedule that a pass ran, with or without an error, and whose both patches of the
  -- status were accepted and read what that pass left, runs again in the next pass exactly when the
  -- first activation after the second in which the run ended has come.
  pub next_scheduled_iff :
      (next : ℕ → ℕ)
      → d.spec.schedule ≢ ""
      → u.cron d.spec.schedule ≡ ok next
      → (runs (reconcile r u).actions ≡ d ∷ []) ↔ (next (whole_seconds t.run_ended) ≤ u.now)
  next_scheduled_iff next s c =
      let whole = next_runs_iff r t u cr d f in
      let base = recorded-base_time cr t.run_ended (run t.world d r.options).outcome f.late in
      (
        λ e.
            subst (λ b. next b ≤ u.now) base
              (IsDue-scheduled u (after_run r t cr d) d next s c (whole.0 e)),
        λ l. whole.1 (inr (s, (next, c, subst (λ b. next b ≤ u.now) (sym base) l))),
      )
