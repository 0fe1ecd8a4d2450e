-- ===== src/Std/Poll.antt =====
-- The loop `for time.Now().Before(deadline) { …; time.Sleep(interval) }`, over what its rounds meet.
use fire_drill.Base.{
  ℕ, zero, suc, ◌+◌, ◌*◌, ◌≤◌, ◌<◌, ◌≡◌, ◌≢◌, refl, ap, sym, ◌∙◌, inl, inr, ◌↔◌, true, false,
  nat_eq, string_eq, arith, Bool-cases, ltb, if◌then◌else◌, ltb→lt, lt→ltb,
}

-- What a round does: it returns, or the loop goes on.
pub data Round (A : Type 0) : Type 0 where
  again : Round A
  done : A → Round A

pub data Ended (A : Type 0) : Type 0 where
  out_of_fuel : Ended A
  timed_out : Ended A
  returned : A → Ended A

module _ {A : Type 0} where
  abbrev pub go_on : Round A → Ended A → Ended A
  go_on again rest = rest
  go_on (done a) rest = returned a

  -- From a round on; `at` is the time that the round's test of the deadline reads.
  unfoldable pub poll : ℕ → ℕ → (ℕ → ℕ) → (ℕ → Round A) → ℕ → Ended A
  poll zero deadline at round i = out_of_fuel
  poll (suc fuel) deadline at round i =
      let rest = poll fuel deadline at round (suc i) in
      if ltb (at i) deadline then go_on (round i) rest else timed_out

-- A clock that starts at a time or after it, and moves on by the interval in every round.
pub record IsPaced (interval start : ℕ) (at : ℕ → ℕ) : Type 0 where
  pub begins : start ≤ at 0
  pub sleeps : (i : ℕ) → at i + interval ≤ at (suc i)

IsPaced-after :
    (interval start : ℕ) (at : ℕ → ℕ) (i : ℕ)
    → IsPaced interval start at
    → start + i * interval ≤ at i
IsPaced-after interval start at zero h = omega (arith, h.begins)
IsPaced-after interval start at (suc i) h =
    let below = IsPaced-after interval start at i h in
    let one_more : suc i * interval ≡ i * interval + interval = omega arith in
    omega (arith, h.sleeps i)

module _ {A : Type 0} (deadline : ℕ) (at : ℕ → ℕ) (round : ℕ → Round A) where
  -- From a round on, the loop comes to one before the deadline that returns a value.
  pub data Reaches (a : A) : ℕ → Type 0 where
    here : {i : ℕ} → at i < deadline → round i ≡ done a → Reaches a i
    later : {i : ℕ} → at i < deadline → round i ≡ again → Reaches a (suc i) → Reaches a i

  go_on-fuel : (r : Round A) (e : Ended A) → e ≢ out_of_fuel → go_on r e ≢ out_of_fuel
  go_on-fuel again e h = h
  go_on-fuel (done a) e h = λ x. cc

  poll_zero : (i : ℕ) → poll 0 deadline at round i ≡ out_of_fuel
  unfolding poll
  poll_zero i = refl

  poll_before :
      (fuel i : ℕ)
      → ltb (at i) deadline ≡ true
      → poll (suc fuel) deadline at round i ≡ go_on (round i) (poll fuel deadline at round (suc i))
  unfolding poll
  poll_before fuel i l = rw l refl

  poll_late :
      (fuel i : ℕ) → ltb (at i) deadline ≡ false → poll (suc fuel) deadline at round i ≡ timed_out
  unfolding poll
  poll_late fuel i l = rw l refl

  -- Enough fuel: the deadline is no later than as many intervals as are left.
  pub poll_ends :
      (fuel i interval start : ℕ)
      → IsPaced interval start at
      → deadline ≤ start + (i + fuel) * interval
      → poll (suc fuel) deadline at round i ≢ out_of_fuel
  poll_ends zero i interval start p h e =
      let late = IsPaced-after interval start at i p in
      let same : (i + 0) * interval ≡ i * interval = omega arith in
      let past : ltb (at i) deadline ≡ false = ground arith in let ended = poll_late 0 i past in cc
  poll_ends (suc fuel) i interval start p h e =
      let same : (i + suc fuel) * interval ≡ (suc i + fuel) * interval = omega arith in
      let rest = poll_ends fuel (suc i) interval start p (omega arith) in
      elim (Bool-cases (ltb (at i) deadline)) [
        | inl l ↦
            go_on-fuel (round i) (poll (suc fuel) deadline at round (suc i)) rest
              (sym (poll_before (suc fuel) i l) ∙ e)
        | inr l ↦ let ended = poll_late (suc fuel) i l in cc
      ]

  go_on_sound :
      (r : Round A) (fuel i : ℕ) (a : A)
      → round i ≡ r
      → at i < deadline
      → go_on r (poll fuel deadline at round (suc i)) ≡ returned a
      → (poll fuel deadline at round (suc i) ≡ returned a → Reaches a (suc i))
      → Reaches a i
  go_on_sound again fuel i a e l h k = later l e (k h)
  go_on_sound (done b) fuel i a e l h k = let same : b ≡ a = cc in here l (e ∙ ap done same)

  poll_sound : (fuel i : ℕ) (a : A) → poll fuel deadline at round i ≡ returned a → Reaches a i
  poll_sound zero i a h = let none_left = poll_zero i in cc
  poll_sound (suc fuel) i a h = elim (Bool-cases (ltb (at i) deadline)) [
    | inl l ↦
        go_on_sound (round i) fuel i a refl (ltb→lt _ _ l) (sym (poll_before fuel i l) ∙ h)
          λ e. poll_sound fuel (suc i) a e
    | inr l ↦ let ended = poll_late fuel i l in cc
  ]

  poll_complete :
      (fuel i : ℕ) (a : A)
      → Reaches a i
      → poll fuel deadline at round i ≢ out_of_fuel
      → poll fuel deadline at round i ≡ returned a
  poll_complete zero i a r h = absurd (h (poll_zero i))
  poll_complete (suc fuel) i a (here l e) h = poll_before fuel i (lt→ltb _ _ l) ∙ (rw e refl)
  poll_complete (suc fuel) i a (later l e r) h =
      let step : poll (suc fuel) deadline at round i ≡ poll fuel deadline at round (suc i) =
        poll_before fuel i (lt→ltb _ _ l) ∙ (rw e refl) in
      step ∙ poll_complete fuel (suc i) a r λ x. h (step ∙ x)

  -- With enough fuel the loop returns exactly the value that it comes to.
  pub poll_iff :
      (fuel interval start : ℕ) (a : A)
      → IsPaced interval start at
      → deadline ≤ start + fuel * interval
      → (poll (suc fuel) deadline at round 0 ≡ returned a) ↔ Reaches a 0
  poll_iff fuel interval start a p h =
      let same : (0 + fuel) * interval ≡ fuel * interval = omega arith in
      (
        λ e. poll_sound (suc fuel) 0 a e,
        λ r. poll_complete (suc fuel) 0 a r (poll_ends fuel 0 interval start p (omega arith)),
      )
