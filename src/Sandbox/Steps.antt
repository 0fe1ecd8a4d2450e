-- ===== src/Sandbox/Steps.antt =====
-- Code that reads and changes a state, and may return early with an error.
use fire_drill.Base.{
  ◌≡◌, ok, err, Result, Bool, true, false, nat_eq, string_eq, if◌then◌else◌, none, some, Option,
}

abbrev pub Action : Type 0 → Type 0 → Type 0 → Type 0
Action S E A = S → Result E A × S

module _ {S E A B : Type 0} where
  abbrev pub proceed : Result E A × S → (A → Action S E B) → Result E B × S
  proceed (ok a, s) f = f a s
  proceed (err e, s) f = (err e, s)

  infixl 5 ◌>>=◌ ◌>>◌
  abbrev pub ◌>>=◌ : Action S E A → (A → Action S E B) → Action S E B
  m >>= f = λ s. proceed (m s) f

  abbrev pub ◌>>◌ : Action S E A → Action S E B → Action S E B
  m >> n = m >>= λ _. n

abbrev pub checked : {E X A : Type 0} → Result X A → (X → E) → Result E A
checked (ok a) wrap = ok a
checked (err x) wrap = err (wrap x)

abbrev pub refused : {E X : Type 0} → Option X → (X → E) → Result E (Unit {0})
refused none wrap = ok tt
refused (some x) wrap = err (wrap x)

module _ {S E : Type 0} where
  abbrev pub pure : {A : Type 0} → A → Action S E A
  pure a s = (ok a, s)

  abbrev pub modify : (S → S) → Action S E (Unit {0})
  modify f s = (ok tt, f s)

  abbrev pub throw : {A : Type 0} → E → Action S E A
  throw e s = (err e, s)

  -- `if err != nil { return nil, … }`
  abbrev pub attempt : {X A : Type 0} → Result X A → (X → E) → Action S E A
  attempt r wrap s = (checked r wrap, s)

  -- The call only says whether it failed.
  abbrev pub unless_error : {X : Type 0} → Option X → (X → E) → Action S E (Unit {0})
  unless_error failure wrap s = (refused failure wrap, s)

  -- `defer func() { if err != nil { … } }()`
  abbrev pub cleaned : {A : Type 0} → (S → S) → Result E A × S → Result E A × S
  cleaned f (ok a, s) = (ok a, s)
  cleaned f (err e, s) = (err e, f s)

  abbrev pub on_error : {A : Type 0} → (S → S) → Action S E A → Action S E A
  on_error f m s = cleaned f (m s)

-- What every step leaves true.
module _ {S E : Type 0} (P : S → Type 0) where
  pub record IsKept {A : Type 0} (m : Action S E A) : Type 0 where
    pub at : (s : S) → P s → P (m s).1

  proceed-keeps :
      {A B : Type 0} (x : Result E A × S) (f : A → Action S E B)
      → P x.1
      → ((a : A) → IsKept (f a))
      → P (proceed x f).1
  proceed-keeps (ok a, s) f h k = (k a).at s h
  proceed-keeps (err e, s) f h k = h

  pub IsKept-bind :
      {A B : Type 0} (m : Action S E A) (f : A → Action S E B)
      → IsKept m
      → ((a : A) → IsKept (f a))
      → IsKept (m >>= f)
  IsKept-bind m f h k = record { at = λ s p. proceed-keeps (m s) f (h.at s p) k }

  pub IsKept-attempt : {X A : Type 0} (r : Result X A) (wrap : X → E) → IsKept (attempt r wrap)
  IsKept-attempt r wrap = record { at = λ s p. p }

  pub IsKept-unless_error :
      {X : Type 0} (r : Option X) (wrap : X → E) → IsKept (unless_error r wrap)
  IsKept-unless_error r wrap = record { at = λ s p. p }

  pub IsKept-pure : {A : Type 0} (a : A) → IsKept (pure a)
  IsKept-pure a = record { at = λ s p. p }

  pub IsKept-throw : {A : Type 0} (e : E) → IsKept (throw {A = A} e)
  IsKept-throw e = record { at = λ s p. p }

  pub IsKept-if :
      {A : Type 0} (b : Bool) (m n : Action S E A)
      → IsKept m
      → IsKept n
      → IsKept (if b then m else n)
  IsKept-if true m n h k = h
  IsKept-if false m n h k = k

-- What holds of the state when the steps end without an error.
module _ {S E : Type 0} (Q : S → Type 0) where
  pub record Leaves {A : Type 0} (m : Action S E A) : Type 0 where
    pub at : (s : S) (a : A) → (m s).0 ≡ ok a → Q (m s).1

  proceed_leaves :
      {A B : Type 0} (x : Result E A × S) (f : A → Action S E B)
      → ((a : A) → Leaves (f a))
      → (b : B) → (proceed x f).0 ≡ ok b
      → Q (proceed x f).1
  proceed_leaves (ok a, s) f k b h = (k a).at s b h
  proceed_leaves (err e, s) f k b h = cc

  pub Leaves-bind :
      {A B : Type 0} (m : Action S E A) (f : A → Action S E B)
      → ((a : A) → Leaves (f a))
      → Leaves (m >>= f)
  Leaves-bind m f k = record { at = λ s b h. proceed_leaves (m s) f k b h }

  pub Leaves-modify : (f : S → S) → ((s : S) → Q (f s)) → Leaves (modify f)
  Leaves-modify f q = record { at = λ s a h. q s }

-- From a state of which `P` holds the steps end in one of which `Q` holds, or with an error and `R`.
abbrev pub Ending : {S E A : Type 0} → (S → Type 0) → (S → Type 0) → Result E A × S → Type 0
Ending Q R (ok a, s) = Q s
Ending Q R (err e, s) = R s

module _ {S E A : Type 0} where
  pub record Triple (P Q R : S → Type 0) (m : Action S E A) : Type 0 where
    pub at : (s : S) → P s → Ending Q R (m s)

module _ {S E A B : Type 0} (P Q T R : S → Type 0) where
  proceed-Ending :
      (x : Result E A × S) (f : A → Action S E B)
      → Ending Q R x
      → ((a : A) → Triple Q T R (f a))
      → Ending T R (proceed x f)
  proceed-Ending (ok a, s) f h k = (k a).at s h
  proceed-Ending (err e, s) f h k = h

  pub Triple-bind :
      (m : Action S E A) (f : A → Action S E B)
      → Triple P Q R m
      → ((a : A) → Triple Q T R (f a))
      → Triple P T R (m >>= f)
  Triple-bind m f h k = record { at = λ s p. proceed-Ending (m s) f (h.at s p) k }

module _ {S E : Type 0} (P R : S → Type 0) (weaken : (s : S) → P s → R s) where
  Ending-checked : {A : Type 0} (r : Result E A) (s : S) → P s → Ending P R (r, s)
  Ending-checked (ok a) s p = p
  Ending-checked (err e) s p = weaken s p

  pub Triple-attempt :
      {X A : Type 0} (r : Result X A) (wrap : X → E) → Triple P P R (attempt r wrap)
  Triple-attempt r wrap = record { at = λ s p. Ending-checked (checked r wrap) s p }

-- A call that may fail, and what it changes when it does not.
pub Triple-guarded :
    {S E X : Type 0} (P Q R : S → Type 0) (r : Option X) (wrap : X → E) (f : S → S)
    → ((s : S) → P s → R s)
    → ((s : S) → P s → Q (f s))
    → Triple P Q R (unless_error r wrap >> modify f)
Triple-guarded P Q R none wrap f weaken moves = record { at = λ s p. moves s p }
Triple-guarded P Q R (some x) wrap f weaken moves = record { at = λ s p. weaken s p }
