-- ===== src/Operator/Reconcile/Recorded.antt =====
-- What a pass records of a run, and what that means for the passes that follow.
use fire_drill.Base.{
  ℕ, ◌≤◌, ◌≡◌, ◌≢◌, refl, ap, ◌∙◌, ◌++◌, ◌∷◌, [], List, inl, inr, ok, err, Result, true, ◌&&◌, ◌!=◌,
  nat_eq, string_eq, arith, Bool-cases, some, String, ltb_ℤ, time_sub,
}
use fire_drill.Spec.Document.{Drill}
use fire_drill.Drill.World.{Stop}
use fire_drill.Report.Evidence.{Evidence}
use fire_drill.Drill.Run.{run}
use fire_drill.Operator.Resource.{
  Resource, Status, patch_status, merge, whole_seconds, second, with_status,
}
use fire_drill.Operator.Reconcile.{
  Reconciler, Turn, Action, ran, patch, event, patches, outcome_fields, run_actions, ran_once,
  in_progress_fields, event_of, Notice, outcome_notice, lateness, missed_schedule, last_run,
  retry_delay, run_now, no_error,
}
use fire_drill.Operator.Reconcile.Due.{when_patched-actions}

-- The status that the patches of a pass leave, where no one else writes it.
abbrev pub left : Status → List Action → Status
left s [] = s
left s (patch f (ok new) ∷ rest) = left new rest
left s (patch f (err e) ∷ rest) = left s rest
left s (ran d ∷ rest) = left s rest
left s (event n ∷ rest) = left s rest

-- Both patches of a pass read the status as it is.
pub record IsAlone (s : Status) (t : Turn) : Type 0 where
  pub first_read : t.first ≡ ok s
  pub last_read : t.last ≡ ok (merge in_progress_fields s)

-- A run at a time leaves this.
unfoldable pub recorded : Status → ℕ → ℕ → Result Stop (Evidence × String) → Status
recorded s at generation o = merge (outcome_fields at generation o) (merge in_progress_fields s)

pub whole_seconds-positive : (t : ℕ) → second ≤ t → (whole_seconds t != 0) ≡ true
unfolding whole_seconds
whole_seconds-positive t h = ground arith

-- A run is recorded for its generation exactly when it ended without an execution error.
pub recorded-ran_once :
    (cr : Resource) (at : ℕ) (o : Result Stop (Evidence × String))
    → second ≤ at
    → cr.status.observed_generation ≢ some cr.generation
    → ran_once (with_status cr (recorded cr.status at cr.generation o)) ≡ no_error o
unfolding ran_once recorded merge outcome_fields
recorded-ran_once cr at (ok (e, path)) h n = elim (Bool-cases e.verified) [
  | inl v ↦ rw v (ground (arith, whole_seconds-positive at h))
  | inr v ↦ rw v (ground (arith, whole_seconds-positive at h))
]
recorded-ran_once cr at (err s) h n = ground (arith, whole_seconds-positive at h)

left-append : (s : Status) (xs ys : List Action) → left s (xs ++ ys) ≡ left (left s xs) ys
left-append s [] ys = refl
left-append s (patch f (ok new) ∷ xs) ys = left-append new xs ys
left-append s (patch f (err e) ∷ xs) ys = left-append s xs ys
left-append s (ran d ∷ xs) ys = left-append s xs ys
left-append s (event n ∷ xs) ys = left-append s xs ys

pub left-event_of : (r : Reconciler) (n : Notice) (s : Status) → left s (event_of r n) ≡ s
unfolding event_of
left-event_of r n s = elim (Bool-cases r.recorder) [ inl e ↦ rw e refl | inr e ↦ rw e refl ]

pub left-patches :
    (answer : Result String Status) (fields s : Status)
    → answer ≡ ok s
    → left s (patches answer fields ∷ []) ≡ merge fields s
unfolding patch_status
left-patches answer fields s h = rw h refl

left-run_actions :
    (r : Reconciler) (t : Turn) (s : Status) (g : ℕ) (d : Drill)
    (o : Result Stop (Evidence × String))
    → IsAlone s t
    → left s (run_actions r t g d o) ≡ recorded s t.run_ended g o
unfolding run_actions recorded patch_status
left-run_actions r t s g d o h =
    let during = merge in_progress_fields s in
    rw h.first_read (
      left-append during (event_of r (outcome_notice o)) _
      ∙ ap (λ x. left x (patches t.last (outcome_fields t.run_ended g o) ∷ []))
          (left-event_of r (outcome_notice o) during)
      ∙ left-patches t.last (outcome_fields t.run_ended g o) during h.last_read)

module _ (r : Reconciler) (t : Turn) (cr : Resource) (d : Drill) where
  pub left-lateness : (at : ℕ) (s : Status) → left s (lateness r t cr at) ≡ s
  unfolding lateness
  left-lateness at s =
      elim (Bool-cases (ltb_ℤ retry_delay (time_sub t.now at) && last_run cr != 0)) [
        | inl e ↦ rw e (left-event_of r (missed_schedule (time_sub t.now at) at) s)
        | inr e ↦ rw e refl
      ]

  pub left-run_now :
      (before : List Action)
      → left cr.status before ≡ cr.status
      → IsAlone cr.status t
      → left cr.status (run_now r t cr d before).actions
        ≡ recorded cr.status t.run_ended cr.generation (run t.world d r.options).outcome
  unfolding run_now
  left-run_now before h alone =
      let o = (run t.world d r.options).outcome in
      ap (left cr.status) (
        when_patched-actions t d (no_error o) (before ++ run_actions r t cr.generation d o)
          (patch_status t.last (outcome_fields t.run_ended cr.generation o)))
      ∙ left-append cr.status before (run_actions r t cr.generation d o)
      ∙ ap (λ x. left x (run_actions r t cr.generation d o)) h
      ∙ left-run_actions r t cr.status cr.generation d o alone
