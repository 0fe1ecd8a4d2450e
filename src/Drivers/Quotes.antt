-- ===== src/Drivers/Quotes.antt =====
-- `quoteJS` of pkg/drivers/mongodb/mongodb.go and `shellQuote` of engine.go, and how JavaScript and
-- the shell read what they write.
use fire_drill.Base.{
  ℕ, ◌≡◌, refl, ap, sym, subst, ◌∙◌, ◌++◌, ◌∷◌, [], inl, inr, Bool, true, false, ◌||◌, ◌==◌, nat_eq,
  string_eq, Bool-cases, eq_iff, if◌then◌else◌, none, some, Option, drop, append_assoc,
}
use fire_drill.Drivers.Texts.{Text}

abbrev pub js_escape : ℕ → Text
js_escape c =
    if c == 92
    then 92 ∷ 92 ∷ []
    else if c == 34
    then 92 ∷ 34 ∷ []
    else if c == 10
    then 92 ∷ 110 ∷ []
    else if c == 13
    then 92 ∷ 114 ∷ []
    else c ∷ []

-- A replacer of single characters.
unfoldable pub js_escaped : Text → Text
js_escaped [] = []
js_escaped (c ∷ cs) = js_escape c ++ js_escaped cs

unfoldable pub quote_js : Text → Text
quote_js s = 34 ∷ (js_escaped s ++ 34 ∷ [])

-- `'\''`
abbrev pub shell_escape : ℕ → Text
shell_escape c = if c == 39 then 39 ∷ 92 ∷ 39 ∷ 39 ∷ [] else c ∷ []

unfoldable pub shell_escaped : Text → Text
shell_escaped [] = []
shell_escaped (c ∷ cs) = shell_escape c ++ shell_escaped cs

unfoldable pub shell_quote : Text → Text
shell_quote s = 39 ∷ (shell_escaped s ++ 39 ∷ [])

abbrev pub push : ℕ → Option (Text × Text) → Option (Text × Text)
push c none = none
push c (some (s, rest)) = some (c ∷ s, rest)

abbrev pub js_unescape : ℕ → ℕ
js_unescape c = if c == 110 then 10 else if c == 114 then 13 else c

-- A JavaScript string literal after its opening quote, and what follows it: a raw end of line ends
-- it badly.
unfoldable pub read_js : Bool → Text → Option (Text × Text)
read_js escaped [] = none
read_js true (c ∷ cs) = push (js_unescape c) (read_js false cs)
read_js false (c ∷ cs) =
    let plain = read_js false cs in
    let escape = read_js true cs in
    if c == 34
    then some ([], cs)
    else if c == 92
    then escape
    else if c == 10 || c == 13
    then none
    else push c plain

pub data Mode : Type 0 where
  outside inside escaped : Mode

-- A word of the shell, and what follows it.
unfoldable pub read_shell : Mode → Text → Option (Text × Text)
read_shell outside [] = some ([], [])
read_shell inside [] = none
read_shell escaped [] = none
read_shell escaped (c ∷ cs) = push c (read_shell outside cs)
read_shell inside (c ∷ cs) =
    let leaving = read_shell outside cs in
    let on = read_shell inside cs in if c == 39 then leaving else push c on
read_shell outside (c ∷ cs) =
    let quoted = read_shell inside cs in
    let escape = read_shell escaped cs in
    if c == 39 then quoted else if c == 92 then escape else some ([], c ∷ cs)

abbrev ReadsJs : Text → ℕ → Type 0
ReadsJs rest c = read_js false (js_escape c ++ rest) ≡ push c (read_js false rest)

abbrev ReadsShell : Text → ℕ → Type 0
ReadsShell rest c = read_shell inside (shell_escape c ++ rest) ≡ push c (read_shell inside rest)

-- A test that succeeds decides the character.
at_char : (P : ℕ → Type 0) (c d : ℕ) → P d → (c == d) ≡ true → P c
at_char P c d p e = subst P (sym ((eq_iff c d).0 e)) p

read_js-escape : (rest : Text) (c : ℕ) → ReadsJs rest c
unfolding read_js
read_js-escape rest c = elim (Bool-cases (c == 92)) [
  | inl e ↦ at_char (ReadsJs rest) c 92 refl e
  | inr a ↦ elim (Bool-cases (c == 34)) [
    | inl e ↦ at_char (ReadsJs rest) c 34 refl e
    | inr b ↦ elim (Bool-cases (c == 10)) [
      | inl e ↦ at_char (ReadsJs rest) c 10 refl e
      | inr d ↦ elim (Bool-cases (c == 13)) [
        | inl e ↦ at_char (ReadsJs rest) c 13 refl e
        | inr e ↦ rw (a, b, d, e) (rw (b, a, d, e) refl)
      ]
    ]
  ]
]

read_shell-escape : (rest : Text) (c : ℕ) → ReadsShell rest c
unfolding read_shell
read_shell-escape rest c = elim (Bool-cases (c == 39)) [
  | inl e ↦ at_char (ReadsShell rest) c 39 refl e
  | inr a ↦ rw a (rw a refl)
]

read_js_end : (rest : Text) → read_js false (34 ∷ rest) ≡ some ([], rest)
unfolding read_js
read_js_end rest = refl

read_shell_end : (rest : Text) → read_shell inside (39 ∷ 59 ∷ rest) ≡ some ([], 59 ∷ rest)
unfolding read_shell
read_shell_end rest = refl

read_js-escaped : (s rest : Text) → read_js false (js_escaped s ++ 34 ∷ rest) ≡ some (s, rest)
unfolding js_escaped
read_js-escaped [] rest = read_js_end rest
read_js-escaped (c ∷ s) rest =
    ap (read_js false) (append_assoc (js_escape c) (js_escaped s) (34 ∷ rest))
    ∙ read_js-escape (js_escaped s ++ 34 ∷ rest) c
    ∙ ap (push c) (read_js-escaped s rest)

read_shell-escaped :
    (s rest : Text) → read_shell inside (shell_escaped s ++ 39 ∷ 59 ∷ rest) ≡ some (s, 59 ∷ rest)
unfolding shell_escaped
read_shell-escaped [] rest = read_shell_end rest
read_shell-escaped (c ∷ s) rest =
    ap (read_shell inside) (append_assoc (shell_escape c) (shell_escaped s) (39 ∷ 59 ∷ rest))
    ∙ read_shell-escape (shell_escaped s ++ 39 ∷ 59 ∷ rest) c
    ∙ ap (push c) (read_shell-escaped s rest)

-- A text that was quoted for JavaScript is read back as itself, and the literal ends where the
-- quoting ended, whatever follows. A text that was quoted for the shell is one word, read back as
-- itself, up to a semicolon that follows.
pub quote_js-read :
    (s rest : Text)
    → (read_js false (drop 1 (quote_js s ++ rest)) ≡ some (s, rest))
      × (read_shell outside (shell_quote s ++ 59 ∷ rest) ≡ some (s, 59 ∷ rest))
unfolding quote_js shell_quote shell_escaped read_shell
quote_js-read s rest = (
  ap (read_js false) (append_assoc (js_escaped s) (34 ∷ []) rest) ∙ read_js-escaped s rest,
  ap (read_shell inside) (append_assoc (shell_escaped s) (39 ∷ []) (59 ∷ rest))
      ∙ read_shell-escaped s rest,
)
