-- ===== src/Verify/Pods/Stable.antt =====
-- `podsReady` passes exactly when the pods stay ready for three rounds in a row.
use fire_drill.Base.{
  ℕ, zero, suc, ◌+◌, ◌≤◌, ◌≡◌, refl, ◌↔◌, ◌⊎◌, inl, inr, true, false, List, [], ◌∷◌, ℤ, leb, ◌==◌,
  nat_eq, All, arith, Bool-cases, length, subst, eq_iff, eq_false_iff,
}
use fire_drill.Verify.Types.{
  Pod, Sample, Detail, running, succeeded, cancelled, list_error, listed, no_pods, listing_pods,
  pods_not_ready,
}
use fire_drill.Verify.Pods.{ready_condition, pod_is_ready, not_ready, poll, CheckResult}

-- A pod that counts: completed, or running with a true `Ready` condition.
abbrev pub IsUp : Pod → Type 0
IsUp p = (p.phase ≡ succeeded) ⊎ (p.phase ≡ running) × (ready_condition p.conditions ≡ true)

-- A round that lists some pods, all of them up.
abbrev pub IsReady : Sample → Type 0
IsReady (cancelled e) = ⊥
IsReady (list_error e) = ⊥
IsReady (listed []) = ⊥
IsReady (listed (p ∷ ps)) = All IsUp (p ∷ ps)

abbrev pub IsLive : Sample → Type 0
IsLive (cancelled e) = ⊥
IsLive _ = Unit

-- `k` ready rounds are left at the front.
abbrev pub StartsReady : ℕ → List Sample → Type 0
StartsReady zero samples = Unit
StartsReady (suc k) [] = ⊥
StartsReady (suc k) (s ∷ rest) = IsReady s × StartsReady k rest

-- Before any round that is cancelled, there are three ready rounds in a row.
abbrev pub HoldsReady : List Sample → Type 0
HoldsReady [] = ⊥
HoldsReady (s ∷ rest) = StartsReady 3 (s ∷ rest) ⊎ IsLive s × HoldsReady rest

not_ready_iff : (ps : List Pod) → (not_ready ps ≡ 0) ↔ All IsUp ps
unfolding not_ready pod_is_ready
not_ready_iff [] = (λ _. tt, λ _. refl)
not_ready_iff (p ∷ ps) =
    (λ h. ground (arith, not_ready_iff ps), λ h. ground (arith, not_ready_iff ps))

Starts-Holds : (ss : List Sample) → StartsReady 3 ss → HoldsReady ss
Starts-Holds [] h = elim h [ ]
Starts-Holds (s ∷ ss) h = inl h

-- A run of ready rounds has shorter ones at its front.
StartsReady-mono : (k : ℕ) (ss : List Sample) → StartsReady (suc k) ss → StartsReady k ss
StartsReady-mono zero ss h = tt
StartsReady-mono (suc k) [] h = elim h [ ]
StartsReady-mono (suc k) (s ∷ ss) h = (h.0, StartsReady-mono k ss h.1)

StartsReady-two : (k : ℕ) (ss : List Sample) → k ≤ 2 → StartsReady 2 ss → StartsReady k ss
StartsReady-two zero ss h r = tt
StartsReady-two (suc zero) ss h r = StartsReady-mono 1 ss r
StartsReady-two (suc (suc zero)) ss h r = r
StartsReady-two (suc (suc (suc k))) ss h r = absurd (omega arith)

abbrev Goal : ℕ → List Sample → Type 0
Goal k ss = StartsReady (suc k) ss ⊎ HoldsReady ss

-- A round that resets the count leaves it to the rounds after it.
Goal-reset : (k : ℕ) (s : Sample) (ss : List Sample) → IsLive s → Goal 2 ss → Goal k (s ∷ ss)
Goal-reset k s ss live (inl h) = inr (inr (live, Starts-Holds ss h))
Goal-reset k s ss live (inr h) = inr (inr (live, h))

Goal-up :
    (k : ℕ) (p : Pod) (ps : List Pod) (ss : List Sample)
    → All IsUp (p ∷ ps)
    → Goal k ss
    → Goal (suc k) (listed (p ∷ ps) ∷ ss)
Goal-up k p ps ss up (inl h) = inl (up, h)
Goal-up k p ps ss up (inr h) = inr (inr (tt, h))

-- What a goal says of a round that is not ready, and of the rounds after a ready one.
Goal-IsLive : (k : ℕ) (s : Sample) (ss : List Sample) → Goal k (s ∷ ss) → IsReady s ⊎ IsLive s
Goal-IsLive k s ss (inl h) = inl h.0
Goal-IsLive k s ss (inr (inl h)) = inl h.0
Goal-IsLive k s ss (inr (inr h)) = inr h.0

Goal-rest : (k : ℕ) (s : Sample) (ss : List Sample) → ¬ IsReady s → Goal k (s ∷ ss) → Goal 2 ss
Goal-rest k s ss n (inl h) = absurd (n h.0)
Goal-rest k s ss n (inr (inl h)) = absurd (n h.0)
Goal-rest k s ss n (inr (inr h)) = inr h.1

Goal-next : (k : ℕ) (s : Sample) (ss : List Sample) → suc k ≤ 2 → Goal (suc k) (s ∷ ss) → Goal k ss
Goal-next k s ss b (inl h) = inl h.1
Goal-next k s ss b (inr (inl h)) = inl (StartsReady-two (suc k) ss b h.1)
Goal-next k s ss b (inr (inr h)) = inr h.1

module _ (t : ℤ) (stable : ℕ) (last : Detail) (p : Pod) (ps : List Pod) (ss : List Sample) where
  poll_reset :
      (not_ready (p ∷ ps) == 0) ≡ false
      → poll t stable last (listed (p ∷ ps) ∷ ss)
        ≡ poll t 0 (pods_not_ready (not_ready (p ∷ ps)) (length (p ∷ ps))) ss
  unfolding poll
  poll_reset n = rw (n, poll)

  poll_more :
      (not_ready (p ∷ ps) == 0) ≡ true
      → leb 3 (suc stable) ≡ false
      → poll t stable last (listed (p ∷ ps) ∷ ss) ≡ poll t (suc stable) last ss
  unfolding poll
  poll_more r m = rw (r, m, poll)

  poll_pass :
      (not_ready (p ∷ ps) == 0) ≡ true
      → leb 3 (suc stable) ≡ true
      → (poll t stable last (listed (p ∷ ps) ∷ ss)).passed ≡ true
  unfolding poll
  poll_pass r m = rw (r, m, poll)

-- `k` more ready rounds are wanted after the next one.
poll_sound :
    (t : ℤ) (stable k : ℕ) (last : Detail) (ss : List Sample)
    → stable + suc k ≡ 3
    → (poll t stable last ss).passed ≡ true
    → Goal k ss
unfolding poll
poll_sound t stable k last [] e h = cc
poll_sound t stable k last (cancelled x ∷ ss) e h = cc
poll_sound t stable k last (list_error x ∷ ss) e h =
    Goal-reset k (list_error x) ss tt (poll_sound t 0 2 (listing_pods x) ss refl h)
poll_sound t stable k last (listed [] ∷ ss) e h =
    Goal-reset k (listed []) ss tt (poll_sound t 0 2 no_pods ss refl h)
poll_sound t stable zero last (listed (p ∷ ps) ∷ ss) e h =
    elim (Bool-cases (not_ready (p ∷ ps) == 0)) [
      | inr n ↦ Goal-reset zero (listed (p ∷ ps)) ss tt (
          poll_sound t 0 2 (pods_not_ready (not_ready (p ∷ ps)) (length (p ∷ ps))) ss refl
            (subst (λ (x : CheckResult). x.passed ≡ true) (poll_reset t stable last p ps ss n) h))
      | inl r ↦ inl ((not_ready_iff (p ∷ ps)).0 ((eq_iff _ _).0 r), tt)
    ]
poll_sound t stable (suc k) last (listed (p ∷ ps) ∷ ss) e h =
    elim (Bool-cases (not_ready (p ∷ ps) == 0)) [
      | inr n ↦ Goal-reset (suc k) (listed (p ∷ ps)) ss tt (
          poll_sound t 0 2 (pods_not_ready (not_ready (p ∷ ps)) (length (p ∷ ps))) ss refl
            (subst (λ (x : CheckResult). x.passed ≡ true) (poll_reset t stable last p ps ss n) h))
      | inl r ↦ Goal-up k p ps ss ((not_ready_iff (p ∷ ps)).0 ((eq_iff _ _).0 r)) (
          poll_sound t (suc stable) k last ss (omega arith) (
            subst (λ (x : CheckResult). x.passed ≡ true)
              (poll_more t stable last p ps ss r (ground arith)) h))
    ]

not-IsUp : (p : Pod) (ps : List Pod) → (not_ready (p ∷ ps) == 0) ≡ false → ¬ All IsUp (p ∷ ps)
not-IsUp p ps n up = (eq_false_iff (not_ready (p ∷ ps)) 0).0 n ((not_ready_iff (p ∷ ps)).1 up)

poll_complete :
    (t : ℤ) (stable k : ℕ) (last : Detail) (ss : List Sample)
    → stable + suc k ≡ 3
    → Goal k ss
    → (poll t stable last ss).passed ≡ true
unfolding poll
poll_complete t stable k last [] e (inl h) = elim h [ ]
poll_complete t stable k last [] e (inr h) = elim h [ ]
poll_complete t stable k last (cancelled x ∷ ss) e g = elim (Goal-IsLive k (cancelled x) ss g) [
  | inl b ↦ absurd b
  | inr b ↦ absurd b
]
poll_complete t stable k last (list_error x ∷ ss) e g =
    poll_complete t 0 2 (listing_pods x) ss refl (Goal-rest k (list_error x) ss (λ h. h) g)
poll_complete t stable k last (listed [] ∷ ss) e g =
    poll_complete t 0 2 no_pods ss refl (Goal-rest k (listed []) ss (λ h. h) g)
poll_complete t stable zero last (listed (p ∷ ps) ∷ ss) e g =
    elim (Bool-cases (not_ready (p ∷ ps) == 0)) [
      | inl r ↦ poll_pass t stable last p ps ss r (ground arith)
      | inr n ↦ rw (poll_reset t stable last p ps ss n) (
          poll_complete t 0 2 (pods_not_ready (not_ready (p ∷ ps)) (length (p ∷ ps))) ss refl
            (Goal-rest zero (listed (p ∷ ps)) ss (not-IsUp p ps n) g))
    ]
poll_complete t stable (suc k) last (listed (p ∷ ps) ∷ ss) e g =
    elim (Bool-cases (not_ready (p ∷ ps) == 0)) [
      | inl r ↦ rw (poll_more t stable last p ps ss r (ground arith)) (
          poll_complete t (suc stable) k last ss (omega arith)
            (Goal-next k (listed (p ∷ ps)) ss (omega arith) g))
      | inr n ↦ rw (poll_reset t stable last p ps ss n) (
          poll_complete t 0 2 (pods_not_ready (not_ready (p ∷ ps)) (length (p ∷ ps))) ss refl
            (Goal-rest (suc k) (listed (p ∷ ps)) ss (not-IsUp p ps n) g))
    ]

-- The check passes exactly when, before the deadline and before any cancelled round, three rounds in
-- a row list at least one pod, every pod completed or running with a true `Ready` condition.
pub poll_iff :
    (t : ℤ) (last : Detail) (ss : List Sample) → ((poll t 0 last ss).passed ≡ true) ↔ HoldsReady ss
poll_iff t last ss = (
  λ h. elim (poll_sound t 0 2 last ss refl h) [ inl s ↦ Starts-Holds ss s | inr g ↦ g ],
  λ g. poll_complete t 0 2 last ss refl (inr g),
)
