-- ===== src/Operator/Reconcile/Due.antt =====
-- When a pass of the controller runs a drill.
use fire_drill.Base.{
  ℕ, ◌≤◌, ◌<◌, ◌≡◌, ◌≢◌, refl, ap, sym, subst, ◌∙◌, ◌++◌, ◌∷◌, [], List, ◌⊎◌, inl, inr, ◌↔◌, ok,
  err, Result, Bool, true, false, ◌&&◌, ◌!=◌, ◌==◌, nat_eq, string_eq, arith, Bool-cases, ltb,
  ltb→lt, eq_iff, if◌then◌else◌, String, ltb_ℤ, time_sub, length,
}
use fire_drill.Spec.Document.{Drill}
use fire_drill.Drill.Run.{run}
use fire_drill.Report.Evidence.{Evidence}
use fire_drill.Drill.World.{Stop}
use fire_drill.Operator.Resource.{Resource, Status, drill_from_cr, patch_status, CrProblem}
use fire_drill.Operator.Reconcile.{
  Reconciler, Turn, Action, ran, patch, event, Notice, event_of, until_next, when_patched, lateness,
  run_now, on_schedule, reconcile_drill, reconcile_checked, reconcile_found, invalid_resource,
  scheduled, retry_delay, last_run, missed_schedule, reconcile, base_time, ran_once, Pass, Lookup,
  found, missing, get_failed, ends, outcome_fields, run_actions, outcome_notice, no_error,
}

-- The drills that a pass runs.
abbrev pub runs : List Action → List Drill
runs [] = []
runs (patch f a ∷ rest) = runs rest
runs (event n ∷ rest) = runs rest
runs (ran d ∷ rest) = d ∷ runs rest

-- Without a schedule a drill is due until a run of this generation is recorded; with one, from
-- the first activation after the last recorded run, or after the creation, on.
abbrev pub IsDue : Turn → Resource → Drill → Type 0
IsDue t cr d =
    ((d.spec.schedule ≡ "") × (ran_once cr ≡ false))
    ⊎ ((d.spec.schedule ≢ "")
        × ((next : ℕ → ℕ) × (t.cron d.spec.schedule ≡ ok next) × (next (base_time cr) ≤ t.now)))

pub runs-append : (xs ys : List Action) → runs (xs ++ ys) ≡ runs xs ++ runs ys
runs-append [] ys = refl
runs-append (patch f a ∷ xs) ys = runs-append xs ys
runs-append (event n ∷ xs) ys = runs-append xs ys
runs-append (ran d ∷ xs) ys = ap (λ zs. d ∷ zs) (runs-append xs ys)

pub runs-event_of : (r : Reconciler) (n : Notice) → runs (event_of r n) ≡ []
unfolding event_of
runs-event_of r n = ground arith

pub until_next-actions :
    (t : Turn) (c : Result String (ℕ → ℕ)) (acts : List Action)
    → (until_next t c acts).actions ≡ acts
until_next-actions t (ok f) acts = refl
until_next-actions t (err e) acts = refl

pub when_patched-actions :
    (t : Turn) (d : Drill) (x : Bool) (acts : List Action) (p : Result String Status)
    → (when_patched t d x acts p).actions ≡ acts
when_patched-actions t d x acts (err e) = refl
when_patched-actions t d false acts (ok s) = refl
when_patched-actions t d true acts (ok s) = elim (Bool-cases (d.spec.schedule != "")) [
  | inl e ↦ rw e (until_next-actions t (t.cron d.spec.schedule) acts)
  | inr e ↦ rw e refl
]

runs-run_actions :
    (r : Reconciler) (t : Turn) (g : ℕ) (d : Drill) (o : Result Stop (Evidence × String))
    → runs (run_actions r t g d o) ≡ d ∷ []
unfolding run_actions
runs-run_actions r t g d o =
    ap (λ ds. d ∷ ds)
      (runs-append (event_of r (outcome_notice o)) _
        ∙ ap (λ ds. ds ++ []) (runs-event_of r (outcome_notice o)))

module _ (r : Reconciler) (t : Turn) (cr : Resource) (d : Drill) where
  pub runs-lateness : (at : ℕ) → runs (lateness r t cr at) ≡ []
  unfolding lateness
  runs-lateness at = elim (Bool-cases (ltb_ℤ retry_delay (time_sub t.now at) && last_run cr != 0)) [
    | inl e ↦ rw e (runs-event_of r (missed_schedule (time_sub t.now at) at))
    | inr e ↦ rw e refl
  ]

  pub runs-run_now :
      (before : List Action) → runs before ≡ [] → runs (run_now r t cr d before).actions ≡ d ∷ []
  unfolding run_now
  runs-run_now before h =
      let o = (run t.world d r.options).outcome in
      ap runs (
        when_patched-actions t d (no_error o) (before ++ run_actions r t cr.generation d o)
          (patch_status t.last (outcome_fields t.run_ended cr.generation o)))
      ∙ runs-append before (run_actions r t cr.generation d o)
      ∙ ap (λ ds. ds ++ runs (run_actions r t cr.generation d o)) h
      ∙ runs-run_actions r t cr.generation d o

  -- A pass on a resource with a drill runs it when it is due, and nothing else.
  pub data Answers (p : Pass) : Type 0 where
    runs_it : runs p.actions ≡ d ∷ [] → IsDue t cr d → Answers p
    runs_none : runs p.actions ≡ [] → (IsDue t cr d → ⊥) → Answers p

  not_yet :
      (next : ℕ → ℕ)
      → d.spec.schedule ≢ ""
      → t.cron d.spec.schedule ≡ ok next
      → t.now < next (base_time cr)
      → IsDue t cr d
      → ⊥
  not_yet next s c h (inl (e, _)) = s e
  not_yet next s c h (inr (_, (f, e, l))) =
      let same : next ≡ f = cc in
      let below : next (base_time cr) ≤ t.now =
        subst (λ g. g (base_time cr) ≤ t.now) (sym same) l in
      omega arith

  on_schedule-Answers :
      (next : ℕ → ℕ)
      → d.spec.schedule ≢ ""
      → t.cron d.spec.schedule ≡ ok next
      → Answers (on_schedule r t cr d next)
  unfolding on_schedule
  on_schedule-Answers next s c = elim (Bool-cases (ltb t.now (next (base_time cr)))) [
    | inl e ↦ rw e (runs_none refl (not_yet next s c (ltb→lt _ _ e)))
    | inr e ↦ rw e (
        runs_it (runs-run_now _ (runs-lateness (next (base_time cr))))
          (inr (s, (next, c, ground arith))))
  ]

  ne_of : (d.spec.schedule == "") ≡ false → d.spec.schedule ≢ ""
  ne_of e h = let same = (eq_iff d.spec.schedule "").1 h in cc

  one_shot-Answers :
      d.spec.schedule ≡ "" → Answers (if ran_once cr then ends [] else run_now r t cr d [])
  one_shot-Answers s = elim (Bool-cases (ran_once cr)) [
    | inl e ↦ rw e (runs_none refl λ h. elim h [ inl p ↦ cc | inr p ↦ p.0 s ])
    | inr e ↦ rw e (runs_it (runs-run_now [] refl) (inl (s, e)))
  ]

  scheduled-Answers :
      d.spec.schedule ≢ ""
      → (c : Result String (ℕ → ℕ)) → t.cron d.spec.schedule ≡ c
      → Answers (scheduled r t cr d c)
  scheduled-Answers s (ok next) c = on_schedule-Answers next s c
  scheduled-Answers s (err e) c = runs_none refl λ h. elim h [ inl p ↦ s p.0 | inr p ↦ cc p.1.1 ]

  reconcile_drill-Answers : Answers (reconcile_drill r t cr d)
  unfolding reconcile_drill
  reconcile_drill-Answers = elim (Bool-cases (d.spec.schedule == "")) [
    | inl e ↦ rw e (one_shot-Answers ((eq_iff d.spec.schedule "").0 e))
    | inr e ↦ rw e (scheduled-Answers (ne_of e) (t.cron d.spec.schedule) refl)
  ]

-- The passes that find a drill that is due.
pub data HasDue (t : Turn) (d : Drill) : Type 0 where
  due : (cr : Resource) → t.object ≡ found cr → drill_from_cr cr ≡ ok d → IsDue t cr d → HasDue t d

not_due :
    {t : Turn} {cr : Resource} {d x : Drill}
    → t.object ≡ found cr
    → drill_from_cr cr ≡ ok d
    → (IsDue t cr d → ⊥)
    → HasDue t x
    → ⊥
not_due {t} {cr} {d} {x} o c h (due cr' o' c' i) =
    let same : cr' ≡ cr = cc in
    let same_drill : x ≡ d = cc in
    h (subst (λ y. IsDue t y d) same (subst (λ y. IsDue t cr' y) same_drill i))

no_drill :
    {t : Turn} {cr : Resource} {x : Drill} {p : CrProblem}
    → t.object ≡ found cr
    → drill_from_cr cr ≡ err p
    → HasDue t x
    → ⊥
no_drill {t} {cr} {x} {p} o c (due cr' o' c' i) = let same : cr' ≡ cr = cc in cc

no_object : {t : Turn} {x : Drill} → ((cr : Resource) → t.object ≡ found cr → ⊥) → HasDue t x → ⊥
no_object h (due cr o c i) = h cr o

-- A pass either runs one drill, which is due, or none, and then none is due.
abbrev RunsWhatIsDue : Turn → Pass → Type 0
RunsWhatIsDue t p =
    ((d : Drill) × (runs p.actions ≡ d ∷ []) × HasDue t d)
    ⊎ ((runs p.actions ≡ []) × ((d : Drill) → HasDue t d → ⊥))

module _ (r : Reconciler) (t : Turn) where
  checked_runs :
      (cr : Resource) (c : Result CrProblem Drill)
      → t.object ≡ found cr
      → drill_from_cr cr ≡ c
      → RunsWhatIsDue t (reconcile_checked r t cr c)
  checked_runs cr (ok d) o c = elim (reconcile_drill-Answers r t cr d) [
    | runs_it e h ↦ inl (d, e, due cr o c h)
    | runs_none e h ↦ inr (e, λ x. not_due o c h)
  ]
  checked_runs cr (err p) o c = inr (runs-event_of r (invalid_resource p), λ x. no_drill o c)

  found_runs : (l : Lookup) → t.object ≡ l → RunsWhatIsDue t (reconcile_found r t l)
  found_runs missing o = inr (refl, λ x. no_object λ cr e. cc)
  found_runs (get_failed e) o = inr (refl, λ x. no_object λ cr f. cc)
  found_runs (found cr) o = checked_runs cr (drill_from_cr cr) o refl

due_unique : {t : Turn} {x y : Drill} → HasDue t x → HasDue t y → x ≡ y
due_unique (due cr o c h) (due cr' o' c' h') = let same : cr ≡ cr' = cc in cc

runs_iff :
    {t : Turn} (p : Pass) → RunsWhatIsDue t p → (d : Drill) → (runs p.actions ≡ d ∷ []) ↔ HasDue t d
runs_iff {t} p (inl (x, e, h)) d =
    (λ f. let same : x ≡ d = cc in subst (HasDue t) same h, λ f. let same = due_unique h f in cc)
runs_iff p (inr (e, n)) d = (λ h. cc, λ h. absurd (n d h))

-- A pass of the controller runs a drill exactly when the resource that it finds gives this drill,
-- valid, and the drill is due: without a schedule when no run of this generation is recorded,
-- with one when an activation after the last recorded run, or after the creation, has passed.
-- And it runs one drill at most.
pub reconcile-runs_iff :
    (r : Reconciler) (t : Turn)
    → ((d : Drill) → (runs (reconcile r t).actions ≡ d ∷ []) ↔ HasDue t d)
      × (length (runs (reconcile r t).actions) ≤ 1)
unfolding reconcile
reconcile-runs_iff r t =
    let answer = found_runs r t t.object refl in
    (
      runs_iff (reconcile_found r t t.object) answer,
      elim answer [ inl (x, e, h) ↦ rw e (omega arith) | inr (e, n) ↦ rw e (omega arith) ],
    )
