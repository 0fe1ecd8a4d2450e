-- ===== src/Sandbox/Names.antt =====
-- `sanitize` of pkg/sandbox/docker/docker.go and kubernetes.go, on the code points of a name.
use fire_drill.Base.{
  ℕ, ◌+◌, ◌≡◌, refl, ap, ◌∷◌, [], List, Bool, true, ◌&&◌, ◌||◌, ◌==◌, nat_eq, string_eq, arith, leb,
  if◌then◌else◌, map, length, All, length-map,
}

-- 'a' to 'z', '0' to '9', and '-'.
abbrev pub is_plain : ℕ → Bool
is_plain c = (leb 97 c && leb c 122) || (leb 48 c && leb c 57) || c == 45

abbrev pub is_capital : ℕ → Bool
is_capital c = leb 65 c && leb c 90

unfoldable pub sanitize_rune : ℕ → ℕ
sanitize_rune c = if is_plain c then c else if is_capital c then c + 32 else 45

-- `strings.Map`
unfoldable pub sanitize : List ℕ → List ℕ
sanitize cs = map sanitize_rune cs

sanitize_rune-plain : (c : ℕ) → is_plain (sanitize_rune c) ≡ true
unfolding sanitize_rune
sanitize_rune-plain c = ground arith

sanitize_rune-again : (c : ℕ) → is_plain c ≡ true → sanitize_rune c ≡ c
unfolding sanitize_rune
sanitize_rune-again c h = rw h refl

map-plain : (cs : List ℕ) → All (λ c. is_plain c ≡ true) (map sanitize_rune cs)
map-plain [] = tt
map-plain (c ∷ cs) = (sanitize_rune-plain c, map-plain cs)

map-kept : (cs : List ℕ) → All (λ c. is_plain c ≡ true) cs → map sanitize_rune cs ≡ cs
map-kept [] h = refl
map-kept (c ∷ cs) h = rw (sanitize_rune-again c h.0) (ap (λ xs. c ∷ xs) (map-kept cs h.1))

-- A name that is plain already is kept, and any other becomes one of as many characters, all of
-- which may stand in a label.
pub sanitize-plain :
    (cs : List ℕ)
    → All (λ c. is_plain c ≡ true) (sanitize cs)
      × (length (sanitize cs) ≡ length cs)
      × (All (λ c. is_plain c ≡ true) cs → sanitize cs ≡ cs)
unfolding sanitize
sanitize-plain cs = (map-plain cs, length-map sanitize_rune cs, map-kept cs)
