-- ===== src/Drill/Steps.antt =====
-- Steps that record what they do, stop at an early return, and run what was deferred.
use fire_drill.Base.{List, [], ◌∷◌, ◌++◌, Result, ok, err, ◌≡◌, refl, subst}
use fire_drill.Drill.World.{Event, Stop}

pub record Step (A : Type 0) : Type 0 where
  pub outcome : Result Stop A
  pub events : List Event

abbrev pub after : {A : Type 0} → List Event → Step A → Step A
after events s = record { outcome = s.outcome; events = events ++ s.events }

abbrev pub next : {A B : Type 0} → Result Stop A → List Event → (A → Step B) → Step B
next (ok a) events f = after events (f a)
next (err e) events f = record { outcome = err e; events = events }

infixl 5 ◌>>=◌ ◌>>◌
abbrev pub ◌>>=◌ : {A B : Type 0} → Step A → (A → Step B) → Step B
s >>= f = next s.outcome s.events f

abbrev pub ◌>>◌ : {B : Type 0} → Step (Unit {0}) → Step B → Step B
s >> t = s >>= λ _. t

abbrev pub pure : {A : Type 0} → A → Step A
pure a = record { outcome = ok a; events = [] }

abbrev pub emit : Event → Step (Unit {0})
emit e = record { outcome = ok tt; events = e ∷ [] }

-- `if err != nil { return … }`
abbrev pub attempt : {E A : Type 0} → Result E A → (E → Stop) → Step A
attempt (ok a) stop = pure a
attempt (err e) stop = record { outcome = err (stop e); events = [] }

-- `defer`: the event happens however the steps end.
abbrev pub deferring : {A : Type 0} → Event → Step A → Step A
deferring e s = record { outcome = s.outcome; events = s.events ++ (e ∷ []) }

-- What holds of the value whenever the steps end without an early return.
pub record Ends {A : Type 0} (P : A → Type 0) (s : Step A) : Type 0 where
  pub at : (a : A) → s.outcome ≡ ok a → P a

next-ends :
    {A B : Type 0} (P : B → Type 0) (o : Result Stop A) (es : List Event) (f : A → Step B)
    → ((a : A) → o ≡ ok a → Ends P (f a))
    → (b : B) → (next o es f).outcome ≡ ok b
    → P b
next-ends P (ok a) es f h b e = (h a refl).at b e
next-ends P (err x) es f h b e = absurd (cc)

module _ {A B : Type 0} (P : B → Type 0) where
  pub Ends-bind :
      (s : Step A) (f : A → Step B) → ((a : A) → s.outcome ≡ ok a → Ends P (f a)) → Ends P (s >>= f)
  Ends-bind s f h = record { at = next-ends P s.outcome s.events f h }

  -- The first step is a call that may fail.
  pub Ends-attempt :
      {E : Type 0} (r : Result E A) (stop : E → Stop) (f : A → Step B)
      → ((a : A) → r ≡ ok a → Ends P (f a))
      → Ends P (attempt r stop >>= f)
  Ends-attempt (ok a) stop f h = record { at = λ b e. (h a refl).at b e }
  Ends-attempt (err x) stop f h = record { at = λ b e. absurd (cc) }

pub Ends-pure : {A : Type 0} (P : A → Type 0) (a : A) → P a → Ends P (pure a)
Ends-pure P a p = record { at = λ b e. let same : a ≡ b = cc in subst P same p }

pub Ends-deferring :
    {A : Type 0} (P : A → Type 0) (event : Event) (s : Step A)
    → Ends P s
    → Ends P (deferring event s)
Ends-deferring P event s h = record { at = h.at }
