-- ===== src/Gc/Sweep/Calls.antt =====
-- What a sweep removes, and that it reports on every item.
use fire_drill.Base.{
  ℕ, suc, ◌+◌, ◌≡◌, refl, ◌↔◌, ◌⊎◌, inl, inr, Bool, true, false, List, [], ◌∷◌, Any, length, arith,
  if◌then◌else◌, map, count,
}
use fire_drill.Gc.Sweep.{Task, Call, Swept, handle, sweep}

-- The items that a sweep removes.
abbrev pub IsRemoved : Bool → Task → Type 0
IsRemoved dry t =
    (t.is_ours ≡ true) × (t.is_terminating ≡ false) × (t.is_due ≡ true) × (dry ≡ false)

module _ (P : Call → Type 0) (dry : Bool) where
  handle-calls_iff :
      (t : Task) (s : Swept)
      → Any P (handle dry t s).calls ↔ ((IsRemoved dry t × P t.call) ⊎ Any P s.calls)
  unfolding handle
  handle-calls_iff t s = (λ h. ground arith, λ h. ground arith)

  pub sweep-calls_iff :
      (ts : List Task) (s : Swept)
      → Any P (sweep dry ts s).calls ↔ (Any (λ t. IsRemoved dry t × P t.call) ts ⊎ Any P s.calls)
  unfolding sweep
  sweep-calls_iff [] s = (λ h. inr h, λ h. elim h [ inl x ↦ elim x [ ] | inr x ↦ x ])
  sweep-calls_iff (t ∷ ts) s =
      let here = handle-calls_iff t (sweep dry ts s) in
      let rest = sweep-calls_iff ts s in
      (λ h. ground (arith, here, rest), λ h. ground (arith, here, rest))

-- How many lines a result has.
abbrev pub lines : Swept → ℕ
lines s = length s.reaped + length s.skipped + length s.errors

unfoldable pub count_ours : List Task → ℕ
count_ours [] = 0
count_ours (t ∷ ts) = let rest = count_ours ts in if t.is_ours then suc rest else rest

answered_lines :
    (dry : Bool) (t : Task) (s : Swept)
    → lines (handle dry t s) ≡ (if t.is_ours then suc (lines s) else lines s)
unfolding handle
answered_lines dry t s = ground arith

pub sweep-lines :
    (dry : Bool) (ts : List Task) (s : Swept) → lines (sweep dry ts s) ≡ count_ours ts + lines s
unfolding sweep count_ours
sweep-lines dry [] s = omega arith
sweep-lines dry (t ∷ ts) s =
    ground (arith, answered_lines dry t (sweep dry ts s), sweep-lines dry ts s)

-- A sweep of items of one kind, each of which is removed exactly when `Q` holds of it.
pub sweep-map_iff :
    {A : Type 0} (P : Call → Type 0) (dry : Bool) (task : A → Task) (Q : A → Type 0)
    → ((x : A) → IsRemoved dry (task x) ↔ Q x)
    → (xs : List A) (s : Swept)
    → Any P (sweep dry (map task xs) s).calls
      ↔ (Any (λ x. Q x × P (task x).call) xs ⊎ Any P s.calls)
unfolding sweep
sweep-map_iff P dry task Q iff [] s = (λ h. inr h, λ h. elim h [ inl x ↦ elim x [ ] | inr x ↦ x ])
sweep-map_iff P dry task Q iff (x ∷ xs) s =
    let here = handle-calls_iff P dry (task x) (sweep dry (map task xs) s) in
    let rest = sweep-map_iff P dry task Q iff xs s in
    let this = iff x in
    (λ h. ground (arith, here, rest, this), λ h. ground (arith, here, rest, this))

pub count_ours-map :
    {A : Type 0} (task : A → Task) (xs : List A)
    → count_ours (map task xs) ≡ count (λ x. (task x).is_ours) xs
unfolding count_ours
count_ours-map task [] = refl
count_ours-map task (x ∷ xs) = ground (arith, count_ours-map task xs)
