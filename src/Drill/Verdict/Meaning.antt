-- ===== src/Drill/Verdict/Meaning.antt =====
-- What a verified verdict means.
use fire_drill.Base.{
  ℤ, ◌≡◌, ◌↔◌, ◌⊎◌, Bool, true, false, not, ◌&&◌, ◌||◌, List, [], ◌∷◌, Option, none, String, leb_ℤ,
  ◌≤ℤ◌, All, Any, arith, if◌then◌else◌, inl, inr,
}
use fire_drill.Spec.Document.{Objectives}
use fire_drill.Verify.Types.{CheckResult}
use fire_drill.Report.Evidence.{Evidence}
use fire_drill.Drill.Verdict.{is_data_name, is_none, weigh, verdict}

-- A check that ran and passed.
abbrev pub Passed : CheckResult → Type 0
Passed r = (r.passed ≡ true) × (r.skipped ≡ false)

-- A passed check that inspects restored data.
abbrev pub Proof : CheckResult → Type 0
Proof r = (r.passed ≡ true) × (is_data_name r.name ≡ true)

weigh_verdict :
    (v p : Bool) (rs : List CheckResult) → ((weigh v p rs).0 ≡ true) ↔ ((v ≡ true) × All Passed rs)
unfolding weigh
weigh_verdict v p [] = (λ h. (h, tt), λ h. h.0)
weigh_verdict v p (r ∷ rs) =
    let ih =
      weigh_verdict (v && not (not r.passed && not r.skipped) && not r.skipped)
        (p || (r.passed && is_data_name r.name)) rs in
    (λ h. ground (arith, ih), λ h. ground (arith, ih))

weigh-Proof :
    (v p : Bool) (rs : List CheckResult) → ((weigh v p rs).1 ≡ true) ↔ ((p ≡ true) ⊎ Any Proof rs)
unfolding weigh
weigh-Proof v p [] = (λ h. inl h, λ h. ground arith)
weigh-Proof v p (r ∷ rs) =
    let ih =
      weigh-Proof (v && not (not r.passed && not r.skipped) && not r.skipped)
        (p || (r.passed && is_data_name r.name)) rs in
    (λ h. ground (arith, ih), λ h. ground (arith, ih))

-- What the code weighs the results with.
abbrev in_time : Objectives → Option String → ℤ → ℤ → Bool
in_time o restore_err dur age =
    is_none restore_err && (is_none restore_err && leb_ℤ dur o.rto) && leb_ℤ age o.rpo

in_time_iff :
    (o : Objectives) (restore_err : Option String) (dur age : ℤ)
    → (in_time o restore_err dur age ≡ true)
      ↔ ((restore_err ≡ none) × (dur ≤ℤ o.rto) × (age ≤ℤ o.rpo))
in_time_iff o restore_err dur age = (λ h. ground arith, λ h. ground arith)

both : (v p : Bool) → ((if p then v else false) ≡ true) ↔ ((v ≡ true) × (p ≡ true))
both v p = (λ h. ground arith, λ h. ground arith)

-- A drill is verified exactly when the restore succeeded within the RTO, the backup is younger than
-- the RPO, every check ran and passed, and one that inspects restored data is among them.
pub verdict_iff :
    (o : Objectives) (restore_err : Option String) (dur age : ℤ) (e : Evidence)
    → ((verdict o restore_err dur age e).verified ≡ true) ↔ (
        (restore_err ≡ none)
        × (dur ≤ℤ o.rto)
        × (age ≤ℤ o.rpo)
        × All Passed e.checks
        × Any Proof e.checks)
unfolding verdict
verdict_iff o restore_err dur age e =
    let start = in_time o restore_err dur age in
    let w = weigh start false e.checks in
    let split = both w.0 w.1 in
    let passed = weigh_verdict start false e.checks in
    let proof = weigh-Proof start false e.checks in
    let time = in_time_iff o restore_err dur age in
    (
      λ h.
          let (v, p) = split.0 h in
          let (s, all) = passed.0 v in
          let (none_err, rto, rpo) = time.0 s in
          (none_err, rto, rpo, all, elim (proof.0 p) [ inl x ↦ cc | inr x ↦ x ]),
      λ (none_err, rto, rpo, all, some_proof).
          split.1 (passed.1 (time.1 (none_err, rto, rpo), all), proof.1 (inr some_proof)),
    )
