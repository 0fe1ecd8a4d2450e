-- ===== src/Drivers/Velero/Phases.antt =====
-- How the wait for a Velero restore ends.
use fire_drill.Base.{
  ◌&&◌, ◌<◌, suc, eq_false_iff, List, [], ◌∷◌, ◌++◌, ◌⊎◌, ◌≢◌, inl, inr, codes, sym, ap, ◌∙◌, ◌||◌,
  Bool-cases, if_true, if_false, ℕ, ◌≡◌, refl, subst, ◌↔◌, ok, err, Result, Bool, true, false, not,
  ◌==◌, nat_eq, string_eq, arith, eq_iff, if◌then◌else◌, none, some, String, Option,
}
use fire_drill.Std.Poll.{Round, again, done, returned, IsPaced, poll_iff, Reaches, here, later}
use fire_drill.Drivers.Texts.{starts_with}
use fire_drill.Drivers.Velero.{
  VeleroServer, VeleroRound, RestoreObject, RestoreResult, Restored, VeleroError, context_over,
  restore_phase, is_terminal, result_of, terminal_result, got_round, velero_round, await_restore,
}

steady : IsPaced 1 0 (λ i. i)
steady = record { begins = omega arith; sleeps = λ i. omega arith }

-- The phases that end a restore: Completed, PartiallyFailed, and all that begin with Failed.
abbrev pub IsTerminal : String → Type 0
IsTerminal phase =
    (phase ≡ "Completed")
    ⊎ (phase ≡ "PartiallyFailed")
    ⊎ ((rest : List ℕ) × (codes phase ≡ codes "Failed" ++ rest))

-- What a restore that has ended returns.
abbrev pub IsResult : ℕ → RestoreObject → Restored → Type 0
IsResult elapsed r x =
    (x.result
      ≡ some (record {
        duration = elapsed;
        phase = r.phase;
        warnings = r.warnings;
        errors = r.errors;
      }))
    × (((r.phase ≡ "Completed") × (x.error ≡ none))
        ⊎ ((r.phase ≢ "Completed")
            × (x.error ≡ some (restore_phase r.phase r.errors r.warnings r.validation_errors))))

-- What a round returns: the error of a cancelled drill, or what stands in a restore that has ended.
abbrev pub StopsWith : VeleroRound → Restored → Type 0
StopsWith v x =
    ((e : String) × (v.cancelled ≡ some e)
      × (x ≡ record { result = none; error = some (context_over e) }))
    ⊎ ((r : RestoreObject) × (v.cancelled ≡ none)
        × (v.get ≡ ok r)
        × IsTerminal r.phase
        × IsResult v.elapsed r x)

-- A round after which the wait goes on: the API had an error, or the restore has not ended.
abbrev pub GoesOn : VeleroRound → Type 0
GoesOn v =
    (v.cancelled ≡ none)
    × (((e : String) × (v.get ≡ err e))
        ⊎ ((r : RestoreObject) × (v.get ≡ ok r) × (IsTerminal r.phase → ⊥)))

or_iff : (a b : Bool) → (a || b ≡ true) ↔ ((a ≡ true) ⊎ (b ≡ true))
or_iff true b = (λ h. inl refl, λ h. refl)
or_iff false b = (λ h. inr h, λ h. elim h [ inl e ↦ cc | inr e ↦ e ])

and_iff : (a b : Bool) → (a && b ≡ true) ↔ ((a ≡ true) × (b ≡ true))
and_iff true b = (λ h. (refl, h), λ h. h.1)
and_iff false b = (λ h. cc, λ h. h.0)

cons_parts : (c p : ℕ) (xs ys : List ℕ) → (c ∷ xs) ≡ (p ∷ ys) → (c ≡ p) × (xs ≡ ys)
cons_parts c p xs ys h = (cc, cc)

cons_both : (c p : ℕ) (xs ys : List ℕ) → c ≡ p → xs ≡ ys → (c ∷ xs) ≡ (p ∷ ys)
cons_both c p xs ys h k = rw (h, k) refl

starts_with_iff : (p xs : List ℕ) → (starts_with xs p ≡ true) ↔ ((rest : List ℕ) × (xs ≡ p ++ rest))
starts_with_iff [] xs = (λ h. (xs, refl), λ h. refl)
starts_with_iff (p ∷ ps) [] = (λ h. cc, λ (r, e). cc)
starts_with_iff (p ∷ ps) (c ∷ xs) =
    let both = and_iff (c == p) (starts_with xs ps) in
    let more = starts_with_iff ps xs in
    (
      λ h.
          let (e, t) = both.0 h in
          let (rest, same) = more.0 t in
          (rest, cons_both c p xs (ps ++ rest) ((eq_iff c p).0 e) same),
      λ (rest, same).
          let (e, t) = cons_parts c p xs (ps ++ rest) same in
          both.1 ((eq_iff c p).1 e, more.1 (rest, t)),
    )

is_terminal_iff : (phase : String) → (is_terminal phase ≡ true) ↔ IsTerminal phase
unfolding is_terminal
is_terminal_iff phase =
    let whole = eq_iff phase "Completed" in
    let partly = eq_iff phase "PartiallyFailed" in
    let failed = starts_with_iff (codes "Failed") (codes phase) in
    let some_failed = starts_with (codes phase) (codes "Failed") in
    let inner = or_iff (phase == "Completed") (phase == "PartiallyFailed") in
    let outer = or_iff (phase == "Completed" || phase == "PartiallyFailed") some_failed in
    (
      λ h. elim (outer.0 h) [
        | inl t ↦ elim (inner.0 t) [ inl e ↦ inl (whole.0 e) | inr e ↦ inr (inl (partly.0 e)) ]
        | inr e ↦ inr (inr (failed.0 e))
      ],
      λ t. outer.1 (elim t [
        | inl e ↦ inl (inner.1 (inl (whole.1 e)))
        | inr u ↦ elim u [ inl e ↦ inl (inner.1 (inr (partly.1 e))) | inr e ↦ inr (failed.1 e) ]
      ]),
    )

-- The restore has completed.
abbrev pub IsCompleted : Restored → Type 0
IsCompleted x = (r : RestoreResult) × (x.result ≡ some r) × (r.phase ≡ "Completed")

abbrev IsJudged : Restored → Type 0
IsJudged x = (x.error ≡ none) ↔ IsCompleted x

-- The error of a terminal phase, by the test whether it is another than Completed.
abbrev phase_error : Bool → RestoreObject → Option VeleroError
phase_error other r =
    if other then some (restore_phase r.phase r.errors r.warnings r.validation_errors) else none

phase_judged :
    (t : ℕ) (r : RestoreObject) (b : Bool)
    → (r.phase == "Completed") ≡ b
    → (phase_error (not b) r ≡ none) ↔ IsCompleted (terminal_result t r)
phase_judged t r true e = (λ h. (result_of t r, refl, (eq_iff r.phase "Completed").0 e), λ h. refl)
phase_judged t r false e = (
  λ h. cc,
  λ (q, same, c).
      let phase : r.phase ≡ "Completed" = cc in
      let yes = (eq_iff r.phase "Completed").1 phase in absurd (cc),
)

IsJudged-terminal : (t : ℕ) (r : RestoreObject) → IsJudged (terminal_result t r)
IsJudged-terminal t r = phase_judged t r (r.phase == "Completed") refl

-- Such a result is the one that the code makes.
terminal_result-IsResult : (t : ℕ) (r : RestoreObject) → IsResult t r (terminal_result t r)
terminal_result-IsResult t r = elim (Bool-cases (r.phase == "Completed")) [
  | inl e ↦ (refl, inl ((eq_iff r.phase "Completed").0 e, ap (λ b. phase_error (not b) r) e))
  | inr n ↦ (refl, inr ((eq_false_iff r.phase "Completed").0 n, ap (λ b. phase_error (not b) r) n))
]

restored_eq :
    {x : Restored} {q : Option RestoreResult} {e : Option VeleroError}
    → x.result ≡ q
    → x.error ≡ e
    → x ≡ record { result = q; error = e }
restored_eq p q = rw (sym p) (rw (sym q) refl)

IsResult-error :
    (t : ℕ) (r : RestoreObject) (x y : Restored)
    → IsResult t r x
    → IsResult t r y
    → x.error ≡ y.error
IsResult-error t r x y (_, inl (c, e)) (_, inl (d, f)) = e ∙ sym f
IsResult-error t r x y (_, inr (n, e)) (_, inr (m, f)) = e ∙ sym f
IsResult-error t r x y (_, inl (c, e)) (_, inr (m, f)) = absurd (m c)
IsResult-error t r x y (_, inr (n, e)) (_, inl (d, f)) = absurd (n d)

IsResult-unique :
    (t : ℕ) (r : RestoreObject) (x : Restored) → IsResult t r x → terminal_result t r ≡ x
IsResult-unique t r x h =
    sym (
      restored_eq h.0 (IsResult-error t r x (terminal_result t r) h (terminal_result-IsResult t r)))

-- A round does what is said of it.
abbrev Tells : Round Restored → VeleroRound → Type 0
Tells again v = GoesOn v
Tells (done x) v = StopsWith v x

got_round-Tells :
    (v : VeleroRound) (g : Result String RestoreObject)
    → v.cancelled ≡ none
    → v.get ≡ g
    → Tells (got_round v.elapsed g) v
got_round-Tells v (err e) n q = (n, inl (e, q))
got_round-Tells v (ok r) n q = elim (Bool-cases (is_terminal r.phase)) [
  | inl t ↦
      subst (λ m. Tells m v) (sym (if_true (is_terminal r.phase) _ _ t))
        (inr (r, n, q, (is_terminal_iff r.phase).0 t, terminal_result-IsResult v.elapsed r))
  | inr f ↦
      subst (λ m. Tells m v) (sym (if_false (is_terminal r.phase) _ _ f))
        (n, inr (r, q, λ t. let yes = (is_terminal_iff r.phase).1 t in cc))
]

round-Tells : (v : VeleroRound) (c : Option String) → v.cancelled ≡ c → Tells (velero_round c v) v
round-Tells v none q = got_round-Tells v v.get q refl
round-Tells v (some e) q = inl (e, q, refl)

StopsWith-unique : (v : VeleroRound) (x y : Restored) → StopsWith v x → StopsWith v y → x ≡ y
StopsWith-unique v x y (inl (e, p, s)) (inl (f, q, t)) =
    let same : e ≡ f = cc in
    s ∙ ap (λ z. record { result = none; error = some (context_over z) }) same ∙ sym t
StopsWith-unique v x y (inl (e, p, s)) (inr (r, q, g, t, h)) =
    let no : some e ≡ none = sym p ∙ q in cc
StopsWith-unique v x y (inr (r, q, g, t, h)) (inl (e, p, s)) =
    let no : some e ≡ none = sym p ∙ q in cc
StopsWith-unique v x y (inr (r, p, g, t, h)) (inr (r', p', g', t', h')) =
    let same : r' ≡ r = cc in
    sym (IsResult-unique v.elapsed r x h)
    ∙ IsResult-unique v.elapsed r y (subst (λ z. IsResult v.elapsed z y) same h')

never_both : (v : VeleroRound) (x : Restored) → StopsWith v x → GoesOn v → ⊥
never_both v x (inl (e, p, s)) (n, g) = let no : some e ≡ none = sym p ∙ n in cc
never_both v x (inr (r, p, g, t, h)) (n, inl (e, q)) = let no : err e ≡ ok r = sym q ∙ g in cc
never_both v x (inr (r, p, g, t, h)) (n, inr (r', q, f)) =
    let same : r ≡ r' = cc in f (subst (λ z. IsTerminal z.phase) same t)

done_iff :
    (m : Round Restored) (v : VeleroRound) (x : Restored) → Tells m v → (m ≡ done x) ↔ StopsWith v x
done_iff again v x h = (λ e. cc, λ s. absurd (never_both v x s h))
done_iff (done y) v x h = (
  λ e. let same : y ≡ x = cc in subst (StopsWith v) same h,
  λ s. ap done (StopsWith-unique v y x h s),
)

again_iff : (m : Round Restored) (v : VeleroRound) → Tells m v → (m ≡ again) ↔ GoesOn v
again_iff again v h = (λ e. h, λ g. refl)
again_iff (done y) v h = (λ e. cc, λ g. absurd (never_both v y h g))

StopsWith-IsJudged : (v : VeleroRound) (x : Restored) → StopsWith v x → IsJudged x
StopsWith-IsJudged v x (inl (e, p, s)) =
    subst IsJudged (sym s) (λ y. cc, λ (q, none_there, c). absurd (cc))
StopsWith-IsJudged v x (inr (r, p, g, t, h)) =
    subst IsJudged (IsResult-unique v.elapsed r x h) (IsJudged-terminal v.elapsed r)

module _ (limit : ℕ) (v : VeleroServer) where
  -- From a round on, the wait goes on up to one, of so many at most, that returns.
  pub data EndsIn (x : Restored) : ℕ → Type 0 where
    stops : {i : ℕ} → i < limit → StopsWith (v.rounds i) x → EndsIn x i
    goes_on : {i : ℕ} → i < limit → GoesOn (v.rounds i) → EndsIn x (suc i) → EndsIn x i

  abbrev Ends : Restored → ℕ → Type 0
  Ends x i = Reaches limit (λ j. j) (λ j. velero_round (v.rounds j).cancelled (v.rounds j)) x i

  tells : (i : ℕ) → Tells (velero_round (v.rounds i).cancelled (v.rounds i)) (v.rounds i)
  tells i = round-Tells (v.rounds i) (v.rounds i).cancelled refl

  Ends-EndsIn : {x : Restored} {i : ℕ} → Ends x i → EndsIn x i
  Ends-EndsIn {x} {i} (here l e) = stops l ((done_iff _ (v.rounds i) x (tells i)).0 e)
  Ends-EndsIn {x} {i} (later l e r) =
      goes_on l ((again_iff _ (v.rounds i) (tells i)).0 e) (Ends-EndsIn r)

  EndsIn-Ends : {x : Restored} {i : ℕ} → EndsIn x i → Ends x i
  EndsIn-Ends {x} {i} (stops l s) = here l ((done_iff _ (v.rounds i) x (tells i)).1 s)
  EndsIn-Ends {x} {i} (goes_on l g r) =
      later l ((again_iff _ (v.rounds i) (tells i)).1 g) (EndsIn-Ends r)

  EndsIn-IsJudged : {x : Restored} {i : ℕ} → EndsIn x i → IsJudged x
  EndsIn-IsJudged {x} {i} (stops l s) = StopsWith-IsJudged (v.rounds i) x s
  EndsIn-IsJudged (goes_on l g r) = EndsIn-IsJudged r

  -- In so many rounds the wait for a restore ends with the first that is cancelled or finds the phase
  -- Completed, PartiallyFailed or one that begins with Failed, whatever errors of the API and other
  -- phases come before; it returns what stands there, and what it ends with has no error exactly when
  -- it has a result whose phase is Completed.
  pub await_restore_iff :
      (x : Restored)
      → ((await_restore limit v ≡ returned x) ↔ EndsIn x 0)
        × (await_restore limit v ≡ returned x → (x.error ≡ none) ↔ IsCompleted x)
  unfolding await_restore
  await_restore_iff x =
      let whole =
        poll_iff limit (λ j. j) (λ j. velero_round (v.rounds j).cancelled (v.rounds j)) limit 1 0 x
          steady (omega arith) in
      (
        (λ h. Ends-EndsIn (whole.0 h), λ h. whole.1 (EndsIn-Ends h)),
        λ h. EndsIn-IsJudged (Ends-EndsIn (whole.0 h)),
      )
