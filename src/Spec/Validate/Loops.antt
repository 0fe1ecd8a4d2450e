-- ===== src/Spec/Validate/Loops.antt =====
-- What the loops of `Validate` over checks and sinks accept.
use fire_drill.Base.{
  ℕ, suc, ◌≡◌, ◌≢◌, refl, ◌↔◌, ◌⊎◌, inl, inr, Bool, true, false, List, [], ◌∷◌, ok, any, string_eq,
  eq_iff, arith, All, Any, append-eq-nil, Bool-cases,
}
use fire_drill.Spec.Document.{Check, Sink, is_sql, is_k8s, proves_data}
use fire_drill.Spec.Checks.{check_validate}
use fire_drill.Spec.Validate.{
  Problem, no_data_check, each, check_problems, verify_problems, sink_problems,
}

module _ {A : Type 0} (f : ℕ → A → List Problem) (Q : A → Type 0)
    (f_iff : (i : ℕ) (x : A) → (f i x ≡ []) ↔ Q x) where
  pub each_sound : (i : ℕ) (xs : List A) → each f i xs ≡ [] → All Q xs
  each_sound i [] h = tt
  each_sound i (x ∷ xs) h =
      let (a, b) = (append-eq-nil (f i x) (each f (suc i) xs)).0 h in
      ((f_iff i x).0 a, each_sound (suc i) xs b)

  pub each_complete : (i : ℕ) (xs : List A) → All Q xs → each f i xs ≡ []
  each_complete i [] h = refl
  each_complete i (x ∷ xs) h =
      (append-eq-nil (f i x) (each f (suc i) xs)).1
        ((f_iff i x).1 h.0, each_complete (suc i) xs h.1)

any_iff {ℓ} :
    {A : Type ℓ} (p : A → Bool) (xs : List A) → (any p xs ≡ true) ↔ Any (λ x. p x ≡ true) xs
any_iff p [] = (λ h. cc, λ h. elim h [ ])
any_iff p (x ∷ xs) = (λ h. ground (arith, any_iff p xs), λ h. ground (arith, any_iff p xs))

-- A valid check, of a sort that the drill's driver can answer.
pub record CheckFits (velero : Bool) (c : Check) : Type 0 where
  pub valid : check_validate c ≡ ok tt
  pub engine_only : velero ≡ true → is_sql c ≡ false
  pub cluster_only : velero ≡ false → is_k8s c ≡ false

pub check_problems_iff :
    (v : Bool) (i : ℕ) (c : Check) → (check_problems v i c ≡ []) ↔ CheckFits v c
unfolding check_problems
check_problems_iff v i c = (λ h. ground arith, λ h. ground arith)

-- At least one check, one that inspects the restored data, and each fit for the driver.
pub record VerifyFits (velero : Bool) (cs : List Check) : Type 0 where
  pub proves : Any (λ c. proves_data c ≡ true) cs
  pub each_fits : All (CheckFits velero) cs

pub verify_problems_sound :
    (v : Bool) (cs : List Check) → verify_problems v cs ≡ [] → VerifyFits v cs
unfolding verify_problems
verify_problems_sound v [] h = cc
verify_problems_sound v (c ∷ cs) h = elim (Bool-cases (any proves_data (c ∷ cs))) [
  | inl e ↦ record {
    proves = (any_iff proves_data (c ∷ cs)).0 e;
    each_fits =
        each_sound (check_problems v) (CheckFits v) (check_problems_iff v) 0 (c ∷ cs) (rw e at h);
  }
  | inr e ↦ let stop : no_data_check ∷ each (check_problems v) 0 (c ∷ cs) ≡ [] = rw e at h in cc
]

pub verify_problems_complete :
    (v : Bool) (cs : List Check) → VerifyFits v cs → verify_problems v cs ≡ []
unfolding verify_problems
verify_problems_complete v [] h = elim h.proves [ ]
verify_problems_complete v (c ∷ cs) h =
    rw ((any_iff proves_data (c ∷ cs)).1 h.proves)
      (each_complete (check_problems v) (CheckFits v) (check_problems_iff v) 0 (c ∷ cs) h.each_fits)

-- A sink of a known type names its destination.
abbrev pub SinkFits : Sink → Type 0
SinkFits s =
    (s.type ≡ "prometheus") × (s.textfile_dir ≢ "")
    ⊎ (s.type ≡ "pushgateway") × (s.url ≢ "")
    ⊎ (s.type ≡ "slack") × (s.webhook_env ≢ "")
    ⊎ (s.type ≡ "webhook") × (s.url_env ≢ "")

pub sink_problems_iff : (i : ℕ) (s : Sink) → (sink_problems i s ≡ []) ↔ SinkFits s
unfolding sink_problems
sink_problems_iff i s = (
  λ h. ground (
    arith,
    eq_iff s.type "prometheus",
    eq_iff s.type "pushgateway",
    eq_iff s.type "slack",
    eq_iff s.type "webhook",
    eq_iff s.textfile_dir "",
    eq_iff s.url "",
    eq_iff s.webhook_env "",
    eq_iff s.url_env "",
  ),
  elim [
    | inl (e, n) ↦ simp e (ground (arith, eq_iff s.textfile_dir ""))
    | inr (inl (e, n)) ↦ simp e (ground (arith, eq_iff s.url ""))
    | inr (inr (inl (e, n))) ↦ simp e (ground (arith, eq_iff s.webhook_env ""))
    | inr (inr (inr (e, n))) ↦ simp e (ground (arith, eq_iff s.url_env ""))
  ],
)
