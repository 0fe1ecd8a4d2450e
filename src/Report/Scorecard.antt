-- ===== src/Report/Scorecard.antt =====
-- `WriteScorecard` of pkg/report/scorecard.go, without its table: the three counts that it returns,
-- or nothing where it would read the evidence of an outcome that has none.
use fire_drill.Base.{
  count, Bool, true, false, not, Bool-cases, inl, inr, sym, ap, ◌∙◌, ℕ, suc, ◌+◌, ◌≡◌, refl, List,
  [], ◌∷◌, Option, none, some, String, Result, ok, err, map, arith, if◌then◌else◌,
}
use fire_drill.Spec.Document.{Drill}
use fire_drill.Report.Evidence.{Evidence}
use fire_drill.Drill.World.{World, Options, Stop}
use fire_drill.Drill.Run.{Outcome, outcome_of, run, run_all}

-- Verified, failed and errored.
pub record Score : Type 0 where
  pub verified : ℕ
  pub failed : ℕ
  pub errored : ℕ

abbrev pub start : Score
start = record { verified = 0; failed = 0; errored = 0 }

abbrev judged : Evidence → Score → Score
judged e s =
    if e.verified
    then record s { verified = suc s.verified }
    else record s { failed = suc s.failed }

abbrev judged_if : Option Evidence → Score → Option Score
judged_if none s = none
judged_if (some e) s = some (judged e s)

-- The body of the loop.
unfoldable pub score_one : Outcome → Score → Option Score
score_one o s = elim o.error [
  | some e ↦ some (record s { errored = suc s.errored })
  | none ↦ judged_if o.evidence s
]

unfoldable pub write_scorecard : Score → List Outcome → Option Score
write_scorecard s [] = some s
write_scorecard s (o ∷ os) = elim (score_one o s) [ none ↦ none | some t ↦ write_scorecard t os ]

-- The three ways in which a run ends.
abbrev pub ends_verified : Result Stop (Evidence × String) → Bool
ends_verified (ok (e, path)) = e.verified
ends_verified (err x) = false

abbrev pub ends_failed : Result Stop (Evidence × String) → Bool
ends_failed (ok (e, path)) = not e.verified
ends_failed (err x) = false

abbrev pub ends_errored : Result Stop (Evidence × String) → Bool
ends_errored (ok x) = false
ends_errored (err x) = true

abbrev plus_one : Bool → ℕ → ℕ
plus_one b n = if b then suc n else n

score_one-outcome_of :
    (name : String) (r : Result Stop (Evidence × String)) (s : Score)
    → (t : Score) × (score_one (outcome_of name r) s ≡ some t)
      × (t.verified ≡ plus_one (ends_verified r) s.verified)
      × (t.failed ≡ plus_one (ends_failed r) s.failed)
      × (t.errored ≡ plus_one (ends_errored r) s.errored)
unfolding score_one
score_one-outcome_of name (err x) s = (record s { errored = suc s.errored }, refl, refl, refl, refl)
score_one-outcome_of name (ok (e, path)) s = elim (Bool-cases e.verified) [
  | inl v ↦ rw v (record s { verified = suc s.verified }, refl, refl, refl, refl)
  | inr v ↦ rw v (record s { failed = suc s.failed }, refl, refl, refl, refl)
]

-- The number of the drills whose runs end so.
abbrev pub ending : (Result Stop (Evidence × String) → Bool) → Options → List (World × Drill) → ℕ
ending p o ds = count (λ (w, d). p (run w d o).outcome) ds

outcome_of-drill :
    (name : String) (r : Result Stop (Evidence × String)) → (outcome_of name r).drill ≡ name
outcome_of-drill name (ok (e, path)) = refl
outcome_of-drill name (err x) = refl

cons-eq : {a b : String} {xs ys : List String} → a ≡ b → xs ≡ ys → (a ∷ xs) ≡ (b ∷ ys)
cons-eq p q = rw (p, q) refl

score-cons :
    (o : Outcome) (os : List Outcome) (s m t : Score)
    → score_one o s ≡ some m
    → write_scorecard m os ≡ some t
    → write_scorecard s (o ∷ os) ≡ some t
unfolding write_scorecard
score-cons o os s m t e f = ground arith

plus_one-count : (b : Bool) (a n m : ℕ) → m ≡ plus_one b a → m + n ≡ a + plus_one b n
plus_one-count true a n m h = omega arith
plus_one-count false a n m h = omega arith

scored :
    (ds : List (World × Drill)) (o : Options) (s : Score)
    → (t : Score) × (write_scorecard s (run_all ds o) ≡ some t)
      × (t.verified ≡ s.verified + ending ends_verified o ds)
      × (t.failed ≡ s.failed + ending ends_failed o ds)
      × (t.errored ≡ s.errored + ending ends_errored o ds)
unfolding write_scorecard run_all
scored [] o s = (s, refl, omega arith, omega arith, omega arith)
scored ((w, d) ∷ ds) o s =
    let r = (run w d o).outcome in
    let (m, e, v, f, x) = score_one-outcome_of d.metadata.name r s in
    let (t, g, vs, fs, xs) = scored ds o m in
    (
      t,
      score-cons (outcome_of d.metadata.name r) (run_all ds o) s m t e g,
      vs ∙ plus_one-count (ends_verified r) s.verified (ending ends_verified o ds) m.verified v,
      fs ∙ plus_one-count (ends_failed r) s.failed (ending ends_failed o ds) m.failed f,
      xs ∙ plus_one-count (ends_errored r) s.errored (ending ends_errored o ds) m.errored x,
    )

named :
    (ds : List (World × Drill)) (o : Options)
    → map (λ x. x.drill) (run_all ds o) ≡ map (λ (w, d). d.metadata.name) ds
unfolding run_all
named [] o = refl
named ((w, d) ∷ ds) o = cons-eq (outcome_of-drill d.metadata.name (run w d o).outcome) (named ds o)

zero_plus : (n : ℕ) → 0 + n ≡ n
zero_plus n = omega arith

score_of :
    {t : Score} {a b c : ℕ}
    → t.verified ≡ a
    → t.failed ≡ b
    → t.errored ≡ c
    → t ≡ record { verified = a; failed = b; errored = c }
score_of p q r = rw (sym p) (rw (sym q) (rw (sym r) refl))

-- The scorecard of a fleet of drills counts as verified the drills whose run ended with evidence that
-- is verified, as failed those with evidence that is not, and as errored those that ended with an
-- error; and its outcomes keep the drills' names and order.
pub write_scorecard-run_all :
    (ds : List (World × Drill)) (o : Options)
    → (write_scorecard start (run_all ds o)
        ≡ some (record {
          verified = ending ends_verified o ds;
          failed = ending ends_failed o ds;
          errored = ending ends_errored o ds;
        }))
      × (map (λ x. x.drill) (run_all ds o) ≡ map (λ (w, d). d.metadata.name) ds)
write_scorecard-run_all ds o =
    let (t, e, v, f, x) = scored ds o start in
    (e ∙ ap some (score_of (v ∙ zero_plus _) (f ∙ zero_plus _) (x ∙ zero_plus _)), named ds o)
