-- ===== src/Report/Gate/Evidenced.antt =====
-- What a gate that passes says of every subject, and which subjects pass.
use fire_drill.Base.{
  ◌&&◌, not, ℕ, pos, ◌≤◌, ◌≤ℤ◌, ◌<ℤ◌, ◌≡◌, ◌⊎◌, inl, inr, true, false, Bool, List, [], ◌∷◌, ◌++◌,
  Option, none, some, String, All, All-imp, Any, SortedBy, arith, Sorter, All-Permᴰ, Any-Permᴰ,
  append-eq-nil, Bool-cases, time_sub, subst, Permᴰ, Any-imp, ◌↔◌, not, Option-cases, length,
}
use fire_drill.Report.Scan.{EvidenceFile}
use fire_drill.Report.Gate.{
  GateOptions, newer, first_verified, stale, head_or, or_else, when, assess, evaluate, Violation,
  latest_unverified, unsigned, is_set,
}

module _ (verify : String → Option String → Bool) (o : GateOptions) where
  abbrev pub IsLatest : EvidenceFile → List EvidenceFile → Type 0
  IsLatest f runs = All (λ g. g.e.finished_at ≤ f.e.finished_at) runs

  -- The newest of the verified runs.
  abbrev pub IsProof : EvidenceFile → List EvidenceFile → Type 0
  IsProof f runs =
      (f.e.verified ≡ true)
      × All (λ g. g.e.verified ≡ true → g.e.finished_at ≤ f.e.finished_at) runs

  abbrev pub IsFresh : EvidenceFile → Type 0
  IsFresh f = time_sub o.now f.e.finished_at ≤ℤ o.max_age

  abbrev pub IsSigned : EvidenceFile → Type 0
  IsSigned f = verify f.path o.public_key ≡ true

  -- The run that the gate leans on: the newest verified one, or the latest where none is verified.
  abbrev pub IsLeaned : EvidenceFile → List EvidenceFile → Type 0
  IsLeaned f runs = IsProof f runs ⊎ (IsLatest f runs × All (λ g. g.e.verified ≡ false) runs)

  -- The runs of a subject that is still being proven.
  pub record Evidenced (runs : List EvidenceFile) : Type 0 where
    pub latest :
        Any (λ f. IsLatest f runs × ((f.e.verified ≡ true) ⊎ (o.allow_unverified ≡ true))) runs
    pub fresh :
        pos 0 <ℤ o.max_age
        → Any (λ f. IsProof f runs × IsFresh f × (o.require_signed ≡ true → IsSigned f)) runs
    pub signed : o.require_signed ≡ true → Any (λ f. IsLeaned f runs × IsSigned f) runs

  IsProof-Permᴰ :
      {xs ys : List EvidenceFile} (f : EvidenceFile) → Permᴰ xs ys → IsProof f xs → IsProof f ys
  IsProof-Permᴰ f p (v, l) =
      (v, All-Permᴰ (λ g. g.e.verified ≡ true → g.e.finished_at ≤ f.e.finished_at) p l)

  IsLeaned-Permᴰ :
      {xs ys : List EvidenceFile} (f : EvidenceFile) → Permᴰ xs ys → IsLeaned f xs → IsLeaned f ys
  IsLeaned-Permᴰ f p (inl h) = inl (IsProof-Permᴰ f p h)
  IsLeaned-Permᴰ f p (inr (l, n)) = inr (
    All-Permᴰ (λ g. g.e.finished_at ≤ f.e.finished_at) p l,
    All-Permᴰ (λ g. g.e.verified ≡ false) p n,
  )

  Evidenced-Permᴰ : {xs ys : List EvidenceFile} → Permᴰ xs ys → Evidenced xs → Evidenced ys
  Evidenced-Permᴰ {xs} {ys} p e = record {
    latest = Any-Permᴰ _ p (
        Any-imp (λ f (l, v). (All-Permᴰ (λ g. g.e.finished_at ≤ f.e.finished_at) p l, v)) xs
          e.latest);
    fresh = λ h. Any-Permᴰ _ p (
        Any-imp
          (λ f ((v, l), s, t). (
            (v, All-Permᴰ (λ g. g.e.verified ≡ true → g.e.finished_at ≤ f.e.finished_at) p l),
            s,
            t,
          ))
          xs (e.fresh h));
    signed = λ h. Any-Permᴰ _ p (Any-imp (λ f (l, t). (IsLeaned-Permᴰ f p l, t)) xs (e.signed h));
  }

-- Runs that are sorted from the newest on.
pub newer-le : (g f : EvidenceFile) → newer g f ≡ false → g.e.finished_at ≤ f.e.finished_at
newer-le g f h = ground arith

first_verified-IsProof :
    (v : String → Option String → Bool) (o : GateOptions) (P : EvidenceFile → Type 0)
    (xs : List EvidenceFile) (f : EvidenceFile)
    → SortedBy newer xs
    → first_verified xs ≡ some f
    → IsProof v o f xs × (P f → Any P xs)
unfolding first_verified
first_verified-IsProof v o P [] f s h = absurd (cc)
first_verified-IsProof v o P (x ∷ xs) f (s, ss) h = elim (Bool-cases x.e.verified) [
  | inl t ↦
      let same : x ≡ f = ground arith in
      subst (λ y. IsProof v o y (x ∷ xs) × (P y → Any P (x ∷ xs))) same
        ((t, (λ _. omega arith, All-imp (λ g n _. newer-le g x n) xs s)), λ p. inl p)
  | inr n ↦
      let ((t, l), k) = first_verified-IsProof v o P xs f ss (ground arith) in
      ((t, (λ y. cc, l)), λ p. inr (k p))
]

first_verified-none :
    (xs : List EvidenceFile) → first_verified xs ≡ none → All (λ g. g.e.verified ≡ false) xs
unfolding first_verified
first_verified-none [] h = tt
first_verified-none (x ∷ xs) h = elim (Bool-cases x.e.verified) [
  | inl t ↦ absurd (ground arith)
  | inr n ↦ (n, first_verified-none xs (ground arith))
]

when-nil : (b : Bool) (x : Violation) → (when b x ≡ []) ↔ (b ≡ false)
when-nil b x = (λ h. ground arith, λ h. ground arith)

module _ (v : String → Option String → Bool) (o : GateOptions) where
  abbrev pub IsCurrent : Option EvidenceFile → Type 0
  IsCurrent none = pos 0 <ℤ o.max_age → ⊥
  IsCurrent (some w) = pos 0 <ℤ o.max_age → IsFresh v o w

  stale-nil : (verified : Option EvidenceFile) → (stale o verified ≡ []) ↔ IsCurrent verified
  unfolding stale
  stale-nil none = (λ h m. absurd (ground arith), λ h. ground arith)
  stale-nil (some w) = (λ h m. ground arith, λ h. ground arith)

  -- What a status without violations asks of the two runs that it looks at.
  abbrev pub IsClean : EvidenceFile → Option EvidenceFile → Type 0
  IsClean latest verified =
      ((latest.e.verified ≡ true) ⊎ (o.allow_unverified ≡ true))
      × IsCurrent verified
      × (o.require_signed ≡ true → IsSigned v o (or_else verified latest))

  module _ (by_newest : Sorter newer) (name : String) (n : ℕ) where
    pub assess-nil :
        (latest : EvidenceFile) (verified : Option EvidenceFile)
        → ((assess v by_newest name n o latest verified).violations ≡ []) ↔ IsClean latest verified
    unfolding assess
    assess-nil latest verified =
        let signed = v (or_else verified latest).path o.public_key in
        let unproven = not latest.e.verified && not o.allow_unverified in
        let a = when unproven latest_unverified in
        let c = when (o.require_signed && not signed) (unsigned (is_set o.public_key)) in
        let outer = append-eq-nil (a ++ stale o verified) c in
        let inner = append-eq-nil a (stale o verified) in
        let ma = when-nil unproven latest_unverified in
        let mc = when-nil (o.require_signed && not signed) (unsigned (is_set o.public_key)) in
        (
          λ h.
              let (ab, cn) = outer.0 h in
              let (an, bn) = inner.0 ab in
              let x = ma.0 an in
              let y = mc.0 cn in (ground arith, (stale-nil verified).0 bn, λ r. ground arith),
          λ (x, y, z).
              outer.1
                (inner.1 (ma.1 (ground arith), (stale-nil verified).1 y), mc.1 (ground arith)),
        )

    -- Of runs from the newest on.
    clean_sound :
        (f : EvidenceFile) (fs : List EvidenceFile)
        → SortedBy newer (f ∷ fs)
        → IsClean f (first_verified (f ∷ fs))
        → Evidenced v o (f ∷ fs)
    clean_sound f fs (s, ss) (latest, current, signed) =
        let runs = f ∷ fs in
        let newest : IsLatest v o f runs = (omega arith, All-imp (λ g k. newer-le g f k) fs s) in
        elim (Option-cases (first_verified runs)) [
          | inl q ↦ record {
            latest = inl (newest, latest);
            fresh = λ m. absurd (subst IsCurrent q current m);
            signed = λ r. inl (
              inr (newest, first_verified-none runs q),
              subst (λ w. IsSigned v o (or_else w f)) q (signed r),
            );
          }
          | inr (w, q) ↦
              let (proof, _) = first_verified-IsProof v o (λ _. ⊥) runs w (s, ss) q in
              record {
                latest = inl (newest, latest);
                fresh = λ m.
                    (first_verified-IsProof v o
                        (λ u.
                          IsProof v o u runs
                          × IsFresh v o u
                          × (o.require_signed ≡ true → IsSigned v o u))
                        runs w (s, ss) q).1
                      (
                        proof,
                        subst IsCurrent q current m,
                        λ r. subst (λ u. IsSigned v o (or_else u f)) q (signed r),
                      );
                signed = λ r.
                    (first_verified-IsProof v o (λ u. IsLeaned v o u runs × IsSigned v o u) runs w
                        (s, ss) q).1
                      (inl proof, subst (λ u. IsSigned v o (or_else u f)) q (signed r));
              }
        ]

  sorted_sound :
      (by_newest : Sorter newer) (name : String) (n : ℕ) (f : EvidenceFile)
      (fs xs : List EvidenceFile)
      → Permᴰ xs (f ∷ fs)
      → SortedBy newer xs
      → IsClean (head_or f xs) (first_verified xs)
      → Evidenced v o (f ∷ fs)
  sorted_sound by_newest name n f fs [] p s h = elim (All-Permᴰ (λ _. ⊥) p tt).0 [ ]
  sorted_sound by_newest name n f fs (g ∷ gs) p s h =
      Evidenced-Permᴰ v o p (clean_sound by_newest name n g gs s h)

  -- A subject that passes the gate is still being proven.
  pub evaluate_sound :
      (by_newest : Sorter newer) (name : String) (runs : List EvidenceFile)
      → (evaluate v by_newest name runs o).violations ≡ []
      → Evidenced v o runs
  unfolding evaluate
  evaluate_sound by_newest name [] h = absurd (cc)
  evaluate_sound by_newest name (f ∷ fs) h =
      let xs = by_newest.sorted (f ∷ fs) in
      sorted_sound by_newest name (length (f ∷ fs)) f fs xs (by_newest.rearranges (f ∷ fs))
        (by_newest.in_order (f ∷ fs))
        ((assess-nil by_newest name (length (f ∷ fs)) (head_or f xs) (first_verified xs)).0 h)
