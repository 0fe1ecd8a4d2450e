-- ===== src/Report/Gate/Complete.antt =====
-- Subjects that pass the gate, in whatever order runs of one instant are sorted.
use fire_drill.Base.{
  if◌then◌else◌, ◌≤◌, ◌<ℤ◌, pos, ◌≡◌, ◌≢◌, refl, ◌⊎◌, inl, inr, true, false, List, [], ◌∷◌, Option,
  none, some, String, All, All-imp, Any, All-Permᴰ, Any-Permᴰ, Permᴰ, arith, Bool-cases, Sorter,
  SortedBy, time_sub-anti, length, Bool, ltb_ℤ, ltb_ℤ_iff, ok,
}
use mathlib.Core.List.Permᴰ
use fire_drill.Report.Gate.Sound.{report_on-gate, report_on_iff}
use fire_drill.Report.Scan.{EvidenceFile}
use fire_drill.Report.Gate.{
  GateOptions, newer, first_verified, head_or, or_else, evaluate, JsonFile, scan_evidence, by_of,
  group, required, GateReport, gate, report_on,
}
use fire_drill.Report.Gate.Evidenced.{
  IsLatest, IsFresh, IsSigned, IsCurrent, IsClean, assess-nil, newer-le,
}

module _ (v : String → Option String → Bool) (o : GateOptions) where
  -- Runs that leave the gate nothing to object to.
  pub record Covered (runs : List EvidenceFile) : Type 0 where
    pub latest :
        All (λ f. IsLatest v o f runs → (f.e.verified ≡ true) ⊎ (o.allow_unverified ≡ true)) runs
    pub fresh : pos 0 <ℤ o.max_age → Any (λ f. (f.e.verified ≡ true) × IsFresh v o f) runs
    pub signed : o.require_signed ≡ true → All (IsSigned v o) runs

  Covered-Permᴰ : {xs ys : List EvidenceFile} → Permᴰ xs ys → Covered ys → Covered xs
  Covered-Permᴰ {xs} {ys} p c =
      let q = Permᴰ.symm p in
      record {
        latest =
            All-imp (λ f h l. h (All-Permᴰ (λ g. g.e.finished_at ≤ f.e.finished_at) p l)) xs
              (All-Permᴰ
                (λ f. IsLatest v o f ys → (f.e.verified ≡ true) ⊎ (o.allow_unverified ≡ true)) q
                c.latest);
        fresh = λ m. Any-Permᴰ (λ f. (f.e.verified ≡ true) × IsFresh v o f) q (c.fresh m);
        signed = λ r. All-Permᴰ (IsSigned v o) q (c.signed r);
      }

  IsFresh-older :
      (x f : EvidenceFile) → f.e.finished_at ≤ x.e.finished_at → IsFresh v o f → IsFresh v o x
  IsFresh-older x f h k =
      let near = time_sub-anti o.now f.e.finished_at x.e.finished_at h in omega arith

  -- The first verified run is at least as fresh as the others.
  Any-IsFresh :
      (x : EvidenceFile) (xs : List EvidenceFile)
      → All (λ y. newer y x ≡ false) xs
      → Any (λ f. (f.e.verified ≡ true) × IsFresh v o f) xs
      → IsFresh v o x
  Any-IsFresh x [] s h = elim h [ ]
  Any-IsFresh x (y ∷ ys) s (inl (t, k)) = IsFresh-older x y (newer-le y x s.0) k
  Any-IsFresh x (y ∷ ys) s (inr h) = Any-IsFresh x ys s.1 h

  first_verified-fresh :
      (xs : List EvidenceFile)
      → SortedBy newer xs
      → Any (λ f. (f.e.verified ≡ true) × IsFresh v o f) xs
      → IsCurrent v o (first_verified xs)
  unfolding first_verified
  first_verified-fresh [] s h = elim h [ ]
  first_verified-fresh (x ∷ xs) s h = elim (Bool-cases x.e.verified) [
    | inl t ↦
        let fresh : IsFresh v o x = elim h [ inl (_, k) ↦ k | inr k ↦ Any-IsFresh x xs s.0 k ] in
        ground arith
    | inr n ↦
        let ih = first_verified-fresh xs s.1 (elim h [ inl (k, _) ↦ absurd (cc) | inr k ↦ k ]) in
        ground arith
  ]

  first_verified-All :
      (P : EvidenceFile → Type 0) (xs : List EvidenceFile) (f : EvidenceFile)
      → All P xs
      → P f
      → P (or_else (first_verified xs) f)
  unfolding first_verified
  first_verified-All P [] f h p = p
  first_verified-All P (x ∷ xs) f h p =
      let ih = first_verified-All P xs f h.1 p in
      choose x.e.verified x (first_verified xs) f P h.0 ih
    where
      choose :
          (b : Bool) (x : EvidenceFile) (rest : Option EvidenceFile) (f : EvidenceFile)
          (P : EvidenceFile → Type 0)
          → P x
          → P (or_else rest f)
          → P (or_else (if b then some x else rest) f)
      choose true x rest f P h k = h
      choose false x rest f P h k = k

  sorted_complete :
      (g : EvidenceFile) (gs : List EvidenceFile)
      → SortedBy newer (g ∷ gs)
      → Covered (g ∷ gs)
      → IsClean v o g (first_verified (g ∷ gs))
  sorted_complete g gs s c =
      let newest : IsLatest v o g (g ∷ gs) =
        (omega arith, All-imp (λ y n. newer-le y g n) gs s.0) in
      (
        c.latest.0 newest,
        elim (Bool-cases (ltb_ℤ (pos 0) o.max_age)) [
          | inl m ↦ first_verified-fresh (g ∷ gs) s (c.fresh ((ltb_ℤ_iff (pos 0) o.max_age).0 m))
          | inr n ↦ not_asked (first_verified (g ∷ gs)) n
        ],
        λ r. first_verified-All (IsSigned v o) (g ∷ gs) g (c.signed r) (c.signed r).0,
      )
    where
      not_asked : (w : Option EvidenceFile) → ltb_ℤ (pos 0) o.max_age ≡ false → IsCurrent v o w
      not_asked none n = λ m. ground arith
      not_asked (some w) n = λ m. ground arith

  rearranged_complete :
      (f : EvidenceFile) (fs xs : List EvidenceFile)
      → Permᴰ xs (f ∷ fs)
      → SortedBy newer xs
      → Covered xs
      → IsClean v o (head_or f xs) (first_verified xs)
  rearranged_complete f fs [] p s c = elim (All-Permᴰ (λ _. ⊥) p tt).0 [ ]
  rearranged_complete f fs (g ∷ gs) p s c = sorted_complete g gs s c

  -- A subject passes the gate when it has runs, each of its latest runs is verified (unless that is
  -- waived), some verified run is within the age that is set, and all its runs are signed when
  -- signatures are required.
  pub evaluate_complete :
      (by_newest : Sorter newer) (name : String) (runs : List EvidenceFile)
      → runs ≢ []
      → Covered runs
      → (evaluate v by_newest name runs o).violations ≡ []
  unfolding evaluate
  evaluate_complete by_newest name [] some_run c = absurd (some_run refl)
  evaluate_complete by_newest name (f ∷ fs) some_run c =
      let xs = by_newest.sorted (f ∷ fs) in
      let p = by_newest.rearranges (f ∷ fs) in
      (assess-nil v o by_newest name (length (f ∷ fs)) (head_or f xs) (first_verified xs)).1
        (rearranged_complete f fs xs p (by_newest.in_order (f ∷ fs)) (Covered-Permᴰ p c))

  -- The gate reports no violation when every required subject has runs that leave it nothing to object
  -- to, in a directory that can be read and grouped as the options say.
  pub gate_complete :
      (by_newest : Sorter newer) (dir : List JsonFile) (files : List EvidenceFile)
      → scan_evidence dir ≡ ok files
      → (by_of o ≡ "drill") ⊎ (by_of o ≡ "control")
      → All
          (λ name. (group (by_of o) files name ≢ []) × Covered (group (by_of o) files name))
          (required o (by_of o) files)
      → (rep : GateReport) × (gate v by_newest dir o ≡ ok rep) × (rep.violations ≡ 0)
  gate_complete by_newest dir files scan known covered =
      let by = by_of o in
      (
        report_on v by_newest o by files,
        report_on-gate v by_newest o dir files scan known,
        (report_on_iff v by_newest o by files).1 (
            All-imp (λ name (r, c). evaluate_complete by_newest name (group by files name) r c)
              (required o by files) covered),
      )
