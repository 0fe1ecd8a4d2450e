-- ===== src/Verify/Rows.antt =====
-- `evalRows` of pkg/verify/verify.go: `rowsExprRe` is `^(>=|<=|==|>|<)\s*(\d+)$`.
pub mod Language
use fire_drill.Base.{
  ℕ, ◌≡◌, refl, Bool, true, false, not, ◌&&◌, Option, none, some, List, [], ◌∷◌, String, Result, ok,
  err, codes, all, any, is_empty, leb, ltb, ◌==◌, nat_eq, if◌then◌else◌,
}
use fire_drill.Std.Strings.{trim_space, is_digit, atoi}

pub data Op : Type 0 where
  ge le eq gt lt : Op

abbrev pub with_op : Op → List ℕ → Option (Op × List ℕ)
with_op o rest = some (o, rest)

-- The first group: the two-character operators come before their one-character prefixes.
unfoldable pub read_op : List ℕ → Option (Op × List ℕ)
read_op [] = none
read_op (c ∷ []) = if c == b'>' then some (gt, []) else if c == b'<' then some (lt, []) else none
read_op (c ∷ d ∷ rest) =
    if c == b'>' && d == b'='
    then some (ge, rest)
    else if c == b'<' && d == b'='
    then some (le, rest)
    else if c == b'=' && d == b'='
    then some (eq, rest)
    else if c == b'>'
    then some (gt, d ∷ rest)
    else if c == b'<'
    then some (lt, d ∷ rest)
    else none

-- `\s` of a Go regular expression.
unfoldable pub is_blank : ℕ → Bool
is_blank c = any (λ s. c == s) (9 ∷ 10 ∷ 12 ∷ 13 ∷ 32 ∷ [])

unfoldable pub skip_blanks : List ℕ → List ℕ
skip_blanks [] = []
skip_blanks (c ∷ cs) = if is_blank c then skip_blanks cs else c ∷ cs

abbrev pub digits_only : List ℕ → Bool
digits_only cs = not (is_empty cs) && all is_digit cs

-- The two groups of a match.
unfoldable pub rows_expr : List ℕ → Option (Op × List ℕ)
rows_expr cs = elim (read_op cs) [
  | none ↦ none
  | some (op, rest) ↦ if digits_only (skip_blanks rest) then some (op, skip_blanks rest) else none
]

abbrev pub compare_rows : Op → ℕ → ℕ → Bool
compare_rows ge n v = leb v n
compare_rows le n v = leb n v
compare_rows eq n v = n == v
compare_rows gt n v = ltb v n
compare_rows lt n v = ltb n v

-- The error names the expression.
unfoldable pub eval_rows : ℕ → String → Result String Bool
eval_rows n expr = elim (rows_expr (trim_space (codes expr))) [
  | none ↦ err expr
  | some (op, digits) ↦ ok (compare_rows op n (atoi digits))
]

eval_rows_at_least : eval_rows 3 " >= 2 " ≡ ok true
unfolding eval_rows rows_expr read_op skip_blanks is_blank trim_space is_digit atoi
eval_rows_at_least = refl

eval_rows_invalid : eval_rows 3 ">=1x" ≡ err ">=1x"
unfolding eval_rows rows_expr read_op skip_blanks is_blank trim_space is_digit atoi
eval_rows_invalid = refl
