-- ===== src/Base/Sort.antt =====
-- Sorting: `sort.Slice`, which fixes no order of equal elements, as an interface, and insertion sort,
-- which is one of its implementations.
use Prim.Native.Nat.{suc}
use mathlib.Core.Path.{◌≡◌, refl, subst}
use mathlib.Core.Logic.{inl, inr}
use mathlib.Core.Bool.{Bool, true, false}
use mathlib.Core.List.{List, [], ◌∷◌}
use mathlib.Core.List.{Permᴰ}
use mathlib.Core.List.Permᴰ
use native.Mathlib.Omega.{arith}
use fire_drill.Base.Tests.{if◌then◌else◌, Bool-cases}
use fire_drill.Base.Lists.{All, All-imp, length, Any}

module _ {ℓ} {A : Type ℓ} (less : A → A → Bool) where
  unfoldable pub insert : A → List A → List A
  insert x [] = x ∷ []
  insert x (y ∷ ys) = if less y x then y ∷ insert x ys else x ∷ y ∷ ys

  unfoldable pub sort : List A → List A
  unfolding insert
  sort [] = []
  sort (x ∷ xs) = insert x (sort xs)

  insert-perm : (x : A) (ys : List A) → Permᴰ (insert x ys) (x ∷ ys)
  unfolding insert
  insert-perm x [] = Permᴰ.refl (x ∷ [])
  insert-perm x (y ∷ ys) = elim (Bool-cases (less y x)) [
    | inl e ↦ rw e (Permᴰ.trans (Permᴰ.cons refl (insert-perm x ys)) (Permᴰ.swap refl refl))
    | inr e ↦ rw e (Permᴰ.refl (x ∷ y ∷ ys))
  ]

  pub sort-perm : (xs : List A) → Permᴰ (sort xs) xs
  unfolding sort
  sort-perm [] = Permᴰ.nil
  sort-perm (x ∷ xs) = Permᴰ.trans (insert-perm x (sort xs)) (Permᴰ.cons refl (sort-perm xs))

  -- `P` of all elements does not depend on their order.
  All-insert : (P : A → Type 0) (x : A) (ys : List A) → P x → All P ys → All P (insert x ys)
  unfolding insert
  All-insert P x [] p h = (p, tt)
  All-insert P x (y ∷ ys) p h = elim (Bool-cases (less y x)) [
    | inl e ↦ rw e (h.0, All-insert P x ys p h.1)
    | inr e ↦ rw e (p, h)
  ]

  pub All-sort : (P : A → Type 0) (xs : List A) → All P xs → All P (sort xs)
  unfolding sort
  All-sort P [] h = tt
  All-sort P (x ∷ xs) h = All-insert P x (sort xs) h.0 (All-sort P xs h.1)

  length-insert : (x : A) (ys : List A) → length (insert x ys) ≡ suc (length ys)
  unfolding insert
  length-insert x [] = refl
  length-insert x (y ∷ ys) = ground (arith, length-insert x ys)

  pub length-sort : (xs : List A) → length (sort xs) ≡ length xs
  unfolding sort
  length-sort [] = refl
  length-sort (x ∷ xs) = omega (arith, length-insert x (sort xs), length-sort xs)

-- In order of a number: no element comes before one with a smaller key.
abbrev pub SortedBy {ℓ} : {A : Type ℓ} → (A → A → Bool) → List A → Type ℓ
SortedBy less [] = Unit
SortedBy less (x ∷ xs) = All (λ y. less y x ≡ false) xs × SortedBy less xs

-- The order may leave elements unrelated, as the order of a key does.
module _ {ℓ} {A : Type ℓ} (less : A → A → Bool)
    (asym : (a b : A) → less a b ≡ true → less b a ≡ false)
    (negtrans : (a b c : A) → less b a ≡ false → less c b ≡ false → less c a ≡ false) where
  SortedBy-insert : (x : A) (ys : List A) → SortedBy less ys → SortedBy less (insert less x ys)
  unfolding insert
  SortedBy-insert x [] h = (tt, tt)
  SortedBy-insert x (y ∷ ys) h = elim (Bool-cases (less y x)) [
    | inl e ↦
        rw e
          (All-insert less (λ z. less z y ≡ false) x ys (asym y x e) h.0, SortedBy-insert x ys h.1)
    | inr e ↦ rw e ((e, All-imp (λ z n. negtrans x y z e n) ys h.0), h)
  ]

  pub SortedBy-sort : (xs : List A) → SortedBy less (sort less xs)
  unfolding sort
  SortedBy-sort [] = tt
  SortedBy-sort (x ∷ xs) = SortedBy-insert x (sort less xs) (SortedBy-sort xs)

-- What `sort.Slice` promises of the list that it leaves.
pub record Sorter {A : Type 0} (less : A → A → Bool) : Type 0 where
  pub sorted : List A → List A
  pub rearranges : (xs : List A) → Permᴰ (sorted xs) xs
  pub in_order : (xs : List A) → SortedBy less (sorted xs)

pub All-Permᴰ {ℓ} :
    {A : Type ℓ} (P : A → Type 0) {xs ys : List A} → Permᴰ xs ys → All P xs → All P ys
All-Permᴰ P Permᴰ.nil h = tt
All-Permᴰ P (Permᴰ.cons e p) h = (subst P e h.0, All-Permᴰ P p h.1)
All-Permᴰ P (Permᴰ.swap e f) h = (subst P f h.1.0, (subst P e h.0, h.1.1))
All-Permᴰ P (Permᴰ.trans p q) h = All-Permᴰ P q (All-Permᴰ P p h)

pub Any-Permᴰ {ℓ} :
    {A : Type ℓ} (P : A → Type 0) {xs ys : List A} → Permᴰ xs ys → Any P xs → Any P ys
Any-Permᴰ P Permᴰ.nil h = h
Any-Permᴰ P (Permᴰ.cons e p) (inl h) = inl (subst P e h)
Any-Permᴰ P (Permᴰ.cons e p) (inr h) = inr (Any-Permᴰ P p h)
Any-Permᴰ P (Permᴰ.swap e f) (inl h) = inr (inl (subst P e h))
Any-Permᴰ P (Permᴰ.swap e f) (inr (inl h)) = inl (subst P f h)
Any-Permᴰ P (Permᴰ.swap e f) (inr (inr h)) = inr (inr h)
Any-Permᴰ P (Permᴰ.trans p q) h = Any-Permᴰ P q (Any-Permᴰ P p h)
