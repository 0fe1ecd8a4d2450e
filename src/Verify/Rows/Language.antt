-- ===== src/Verify/Rows/Language.antt =====
-- The expressions that `evalRows` reads, and what they mean.
use fire_drill.Base.{
  ◌≤◌, ◌<◌, sym, ℕ, ◌≡◌, refl, Bool, true, false, some, List, [], ◌∷◌, ◌++◌, String, ok, codes, all,
  is_empty, nat_eq, ◌↔◌, arith, Bool-cases, inl, ◌∙◌, ap, inr, Option-cases, subst,
}
use fire_drill.Std.Strings.{trim_space, is_digit, atoi}
use fire_drill.Verify.Rows.{
  Op, ge, le, eq, gt, lt, read_op, is_blank, skip_blanks, digits_only, rows_expr, compare_rows,
  eval_rows,
}

abbrev pub op_text : Op → List ℕ
op_text ge = b'>' ∷ b'=' ∷ []
op_text le = b'<' ∷ b'=' ∷ []
op_text eq = b'=' ∷ b'=' ∷ []
op_text gt = b'>' ∷ []
op_text lt = b'<' ∷ []

-- An operator, blanks, and digits.
pub record Reads (cs : List ℕ) (op : Op) (digits : List ℕ) : Type 0 where
  pub blanks : List ℕ
  pub spelled : cs ≡ op_text op ++ (blanks ++ digits)
  pub blank : all is_blank blanks ≡ true
  pub some_digit : is_empty digits ≡ false
  pub only_digits : all is_digit digits ≡ true

skip_blanks-digits :
    (bs ds : List ℕ)
    → all is_blank bs ≡ true
    → is_empty ds ≡ false
    → all is_digit ds ≡ true
    → skip_blanks (bs ++ ds) ≡ ds
unfolding skip_blanks is_blank is_digit
skip_blanks-digits [] [] b e d = refl
skip_blanks-digits [] (x ∷ ds) b e d = ground arith
skip_blanks-digits (x ∷ bs) ds b e d = ground (arith, skip_blanks-digits bs ds)

read_op-text :
    (op : Op) (bs ds : List ℕ)
    → all is_blank bs ≡ true
    → is_empty ds ≡ false
    → all is_digit ds ≡ true
    → read_op (op_text op ++ (bs ++ ds)) ≡ some (op, bs ++ ds)
unfolding read_op is_blank is_digit
read_op-text ge bs ds b e d = refl
read_op-text le bs ds b e d = refl
read_op-text eq bs ds b e d = refl
read_op-text gt [] [] b e d = cc
read_op-text gt [] (x ∷ ds) b e d = ground arith
read_op-text gt (x ∷ bs) ds b e d = ground arith
read_op-text lt [] [] b e d = cc
read_op-text lt [] (x ∷ ds) b e d = ground arith
read_op-text lt (x ∷ bs) ds b e d = ground arith

read_op_sound :
    (cs : List ℕ) (op : Op) (rest : List ℕ) → read_op cs ≡ some (op, rest) → cs ≡ op_text op ++ rest
unfolding read_op
read_op_sound [] op rest h = cc
read_op_sound (c ∷ []) op rest h = ground arith
read_op_sound (c ∷ d ∷ cs) op rest h = ground arith

skip_blanks-splits :
    (cs : List ℕ) → (bs : List ℕ) × (cs ≡ bs ++ skip_blanks cs) × (all is_blank bs ≡ true)
unfolding skip_blanks
skip_blanks-splits [] = ([], refl, refl)
skip_blanks-splits (c ∷ cs) = elim (Bool-cases (is_blank c)) [
  | inl b ↦ let (bs, e, a) = skip_blanks-splits cs in (c ∷ bs, rw b (ap (λ l. c ∷ l) e), rw (b, a))
  | inr n ↦ ([], rw n, refl)
]

-- A match takes an operator off, and digits after the blanks.
rows_expr-parts :
    (cs : List ℕ) (op : Op) (ds : List ℕ)
    → rows_expr cs ≡ some (op, ds)
    → (rest : List ℕ) × (read_op cs ≡ some (op, rest))
      × (skip_blanks rest ≡ ds)
      × (digits_only ds ≡ true)
unfolding rows_expr
rows_expr-parts cs op ds h = elim (Option-cases (read_op cs)) [
  | inl e ↦ absurd (ground arith)
  | inr ((o, rest), e) ↦ (rest, ground arith, ground arith, ground arith)
]

rows_expr_sound :
    (cs : List ℕ) (op : Op) (ds : List ℕ) → rows_expr cs ≡ some (op, ds) → Reads cs op ds
rows_expr_sound cs op ds h =
    let (rest, e, same, digits) = rows_expr-parts cs op ds h in
    let (bs, split, blank) = skip_blanks-splits rest in
    record {
      blanks = bs;
      spelled =
          read_op_sound cs op rest e
          ∙ ap (λ l. op_text op ++ l) (subst (λ t. rest ≡ bs ++ t) same split);
      blank = blank;
      some_digit = ground arith;
      only_digits = ground arith;
    }

rows_expr_complete :
    (cs : List ℕ) (op : Op) (ds : List ℕ) → Reads cs op ds → rows_expr cs ≡ some (op, ds)
unfolding rows_expr
rows_expr_complete cs op ds r =
    rw (r.spelled, rows_expr, read_op-text op r.blanks ds r.blank r.some_digit r.only_digits)
      (rw (
        skip_blanks-digits r.blanks ds r.blank r.some_digit r.only_digits,
        r.some_digit,
        r.only_digits,
      ))

eval_rows-parts :
    (n : ℕ) (expr : String) (b : Bool)
    → eval_rows n expr ≡ ok b
    → (op : Op) × (ds : List ℕ) × (rows_expr (trim_space (codes expr)) ≡ some (op, ds))
      × (b ≡ compare_rows op n (atoi ds))
unfolding eval_rows
eval_rows-parts n expr b h = elim (Option-cases (rows_expr (trim_space (codes expr)))) [
  | inl e ↦ absurd (ground arith)
  | inr ((op, ds), e) ↦ (op, ds, e, ground arith)
]

eval_rows-some :
    (n : ℕ) (expr : String) (b : Bool) (op : Op) (ds : List ℕ)
    → rows_expr (trim_space (codes expr)) ≡ some (op, ds)
    → b ≡ compare_rows op n (atoi ds)
    → eval_rows n expr ≡ ok b
unfolding eval_rows
eval_rows-some n expr b op ds e same = ground arith

-- What an operator claims of the number of rows and the number that is expected.
abbrev pub Claims : Op → ℕ → ℕ → Type 0
Claims ge n m = m ≤ n
Claims le n m = n ≤ m
Claims eq n m = n ≡ m
Claims gt n m = m < n
Claims lt n m = n < m

compare_rows_iff : (op : Op) (n m : ℕ) → (compare_rows op n m ≡ true) ↔ Claims op n m
compare_rows_iff ge n m = ground arith
compare_rows_iff le n m = ground arith
compare_rows_iff eq n m = ground arith
compare_rows_iff gt n m = ground arith
compare_rows_iff lt n m = ground arith

same_truth : (a b : Bool) (C : Type 0) → ((a ≡ true) ↔ C) → (b ≡ a) ↔ ((b ≡ true) ↔ C)
same_truth true true C i = (λ h. i, λ h. refl)
same_truth true false C i = (λ h. cc, λ h. h.1 (i.0 refl))
same_truth false true C i = (λ h. cc, λ h. sym (i.1 (h.0 refl)))
same_truth false false C i = (λ h. i, λ h. refl)

-- The verdict is true exactly when the rows are in the relation to the expected number that the
-- expression spells between blanks: an operator, blanks, and a number, of which what exceeds an int
-- counts as the largest int. Every other expression is an error.
pub eval_rows_iff :
    (n : ℕ) (expr : String) (b : Bool)
    → (eval_rows n expr ≡ ok b) ↔ (
        (op : Op) × (ds : List ℕ) × Reads (trim_space (codes expr)) op ds
        × ((b ≡ true) ↔ Claims op n (atoi ds)))
eval_rows_iff n expr b = (
  λ h.
      let (op, ds, e, same) = eval_rows-parts n expr b h in
      (
        op,
        ds,
        rows_expr_sound (trim_space (codes expr)) op ds e,
        (same_truth (compare_rows op n (atoi ds)) b _ (compare_rows_iff op n (atoi ds))).0 same,
      ),
  λ (op, ds, r, same).
      eval_rows-some n expr b op ds (rows_expr_complete (trim_space (codes expr)) op ds r)
        ((same_truth (compare_rows op n (atoi ds)) b _ (compare_rows_iff op n (atoi ds))).1 same),
)
