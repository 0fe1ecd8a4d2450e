-- ===== src/Base/Fallible.antt =====
-- A value or an error, and the early returns of Go as a monad.
use mathlib.Core.Path.{◌≡◌, refl}
use mathlib.Core.Logic.{◌⊎◌, inl, inr}
use mathlib.Core.Bool.{Bool, true, false}

pub data Result (E V : Type 0) : Type 0 where
  ok : V → Result E V
  err : E → Result E V

-- `if test { return failure }`
abbrev pub fail_if : {E : Type 0} → Bool → E → Result E (Unit {0})
fail_if false failure = ok tt
fail_if true failure = err failure

infixl 5 ◌>>=◌ ◌>>◌
abbrev pub ◌>>=◌ : {E V W : Type 0} → Result E V → (V → Result E W) → Result E W
err failure >>= rest = err failure
ok value >>= rest = rest value

pub Result-cases :
    {E V : Type 0} (r : Result E V) → ((v : V) × (r ≡ ok v)) ⊎ ((e : E) × (r ≡ err e))
Result-cases (ok v) = inl (v, refl)
Result-cases (err e) = inr (e, refl)

pub fail_if-ok : {E : Type 0} (b : Bool) (e : E) {u : Unit {0}} → fail_if b e ≡ ok u → b ≡ false
fail_if-ok true e h = cc
fail_if-ok false e h = refl

pub >>=-eq-ok :
    {E V W : Type 0} (r : Result E V) (rest : V → Result E W) {w : W}
    → (r >>= rest) ≡ ok w
    → (v : V) × (r ≡ ok v) × (rest v ≡ ok w)
>>=-eq-ok (ok v) rest h = (v, refl, h)
>>=-eq-ok (err e) rest h = cc

abbrev pub ◌>>◌ : {E V : Type 0} → Result E (Unit {0}) → Result E V → Result E V
check >> rest = check >>= λ _. rest
