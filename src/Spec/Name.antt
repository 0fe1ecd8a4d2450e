-- ===== src/Spec/Name.antt =====
-- `nameRe` of pkg/spec/spec.go, `^[a-z0-9]([a-z0-9-]{0,61}[a-z0-9])?$`.
use fire_drill.Base.{
  ℕ, zero, suc, ◌≤◌, ◌≡◌, refl, ◌↔◌, Bool, true, false, ◌&&◌, ◌||◌, List, [], ◌∷◌, String, arith,
  codes, length, all, leb, ◌==◌, nat_eq,
}

unfoldable pub is_alnum : ℕ → Bool
is_alnum c = (leb b'a' c && leb c b'z') || (leb b'0' c && leb c b'9')

unfoldable pub is_label_char : ℕ → Bool
is_label_char c = is_alnum c || c == b'-'

-- `[a-z0-9-]{0,n}[a-z0-9]` against the whole text.
label_tail : ℕ → List ℕ → Bool
label_tail n [] = false
label_tail n (c ∷ []) = is_alnum c
label_tail zero (c ∷ d ∷ cs) = false
label_tail (suc n) (c ∷ d ∷ cs) = is_label_char c && label_tail n (d ∷ cs)

-- The whole pattern: its optional group is absent when nothing follows the first character.
label : List ℕ → Bool
label [] = false
label (c ∷ []) = is_alnum c
label (c ∷ d ∷ cs) = is_alnum c && label_tail 61 (d ∷ cs)

unfoldable pub name_re : String → Bool
unfolding label label_tail is_alnum is_label_char
name_re s = label (codes s)

abbrev ends_alnum : List ℕ → Bool
ends_alnum [] = false
ends_alnum (c ∷ []) = is_alnum c
ends_alnum (c ∷ d ∷ cs) = ends_alnum (d ∷ cs)

abbrev starts_alnum : List ℕ → Bool
starts_alnum [] = false
starts_alnum (c ∷ cs) = is_alnum c

-- A lowercase DNS label: 1 to 63 letters, digits and dashes, with no dash at either end.
pub record IsDnsLabel (cs : List ℕ) : Type 0 where
  pub nonempty : 1 ≤ length cs
  pub short : length cs ≤ 63
  pub chars : all is_label_char cs ≡ true
  pub first : starts_alnum cs ≡ true
  pub last : ends_alnum cs ≡ true

label_tail_sound :
    (n : ℕ) (cs : List ℕ)
    → label_tail n cs ≡ true
    → (length cs ≤ suc n) × (all is_label_char cs ≡ true) × (ends_alnum cs ≡ true)
unfolding label_tail is_label_char
label_tail_sound n [] h = cc
label_tail_sound n (c ∷ []) h = ground arith
label_tail_sound zero (c ∷ d ∷ cs) h = cc
label_tail_sound (suc n) (c ∷ d ∷ cs) h = ground (arith, label_tail_sound n (d ∷ cs))

label_tail_complete :
    (n : ℕ) (cs : List ℕ)
    → length cs ≤ suc n
    → all is_label_char cs ≡ true
    → ends_alnum cs ≡ true
    → label_tail n cs ≡ true
unfolding label_tail is_label_char
label_tail_complete n [] l a e = cc
label_tail_complete n (c ∷ []) l a e = e
label_tail_complete zero (c ∷ d ∷ cs) l a e = absurd (omega arith)
label_tail_complete (suc n) (c ∷ d ∷ cs) l a e = ground (arith, label_tail_complete n (d ∷ cs))

label_iff : (cs : List ℕ) → (label cs ≡ true) ↔ IsDnsLabel cs
unfolding label is_label_char
label_iff [] = (λ h. cc, λ h. h.first)
label_iff (c ∷ []) = (λ h. ground arith, λ h. h.first)
label_iff (c ∷ d ∷ cs) = (
  λ h. ground (arith, label_tail_sound 61 (d ∷ cs)),
  λ h. ground (arith, label_tail_complete 61 (d ∷ cs)),
)

-- The pattern of drill names accepts exactly the lowercase DNS labels: 1 to 63 letters, digits and
-- dashes, with no dash at either end.
pub name_re_iff : (s : String) → (name_re s ≡ true) ↔ IsDnsLabel (codes s)
unfolding name_re
name_re_iff s = label_iff (codes s)

name_re_plain : name_re "payments-db" ≡ true
unfolding name_re
name_re_plain = refl

name_re_dash : name_re "payments-" ≡ false
unfolding name_re
name_re_dash = refl
