-- ===== src/Drivers/Texts.antt =====
-- The texts that the drivers read: `tail`, `lastLine`, and `fatalStartupLine` of
-- pkg/drivers/postgres/postgres.go.
use fire_drill.Base.{
  ℕ, ◌-◌, ◌≡◌, ◌∷◌, [], List, inl, inr, Bool, true, false, not, ◌&&◌, ◌||◌, ◌==◌, nat_eq, string_eq,
  Bool-cases, leb, if◌then◌else◌, String, length, drop, is_empty, any, codes,
}
use fire_drill.Std.Strings.{trim_space}

abbrev pub Text : Type 0
Text = List ℕ

-- The last bytes of an output, after an ellipsis.
unfoldable pub tail : Text → ℕ → Text
tail s n = if leb (length s) n then s else 0xe2 ∷ 0x80 ∷ 0xa6 ∷ drop (length s - n) s

abbrev pub push_head : ℕ → List Text → List Text
push_head c [] = (c ∷ []) ∷ []
push_head c (l ∷ ls) = (c ∷ l) ∷ ls

-- `strings.Split(s, "\n")`
unfoldable pub split_lines : Text → List Text
split_lines [] = [] ∷ []
split_lines (c ∷ cs) = let rest = split_lines cs in if c == 10 then [] ∷ rest else push_head c rest

abbrev pub starts_with : Text → Text → Bool
starts_with s [] = true
starts_with [] (p ∷ ps) = false
starts_with (c ∷ cs) (p ∷ ps) = c == p && starts_with cs ps

-- `strings.Contains`
unfoldable pub contains : Text → Text → Bool
contains [] p = is_empty p
contains (c ∷ cs) p = starts_with (c ∷ cs) p || contains cs p

abbrev pub last_of : List Text → Text
last_of [] = []
last_of (l ∷ []) = l
last_of (l ∷ m ∷ ls) = last_of (m ∷ ls)

-- `lastLine` of pkg/drivers/mongodb/engine.go.
unfoldable pub last_line : Text → Text
last_line s = trim_space (last_of (split_lines (trim_space s)))

abbrev pub transient_startup : List String
transient_startup =
    "the database system is not yet accepting connections" ∷ "the database system is starting up"
    ∷ "the database system is in recovery mode" ∷ "the database system is shutting down"
    ∷ "consistent recovery state has not been yet reached" ∷ []

unfoldable pub is_transient : Text → Bool
is_transient line = any (λ t. contains line (codes t)) transient_startup

abbrev pub mentions_fatal : Text → Bool
mentions_fatal line = contains line (codes "FATAL") || contains line (codes "PANIC")

-- What a trimmed line says: that the cluster is broken.
unfoldable pub is_fatal : Text → Bool
is_fatal line = not (is_empty line) && mentions_fatal line && not (is_transient line)

unfoldable pub first_fatal : List Text → Text
first_fatal [] = []
first_fatal (l ∷ ls) =
    let rest = first_fatal ls in if is_fatal (trim_space l) then trim_space l else rest

unfoldable pub fatal_startup_line : Text → Text
fatal_startup_line log = first_fatal (split_lines log)

-- The first line that says so, if there is one.
pub data FirstFatal : List Text → Text → Type 0 where
  none_fatal : FirstFatal [] []
  fatal_here :
      {l : Text} {ls : List Text}
      → is_fatal (trim_space l) ≡ true
      → FirstFatal (l ∷ ls) (trim_space l)
  harmless :
      {l r : Text} {ls : List Text}
      → is_fatal (trim_space l) ≡ false
      → FirstFatal ls r
      → FirstFatal (l ∷ ls) r

pub first_fatal-FirstFatal : (ls : List Text) → FirstFatal ls (first_fatal ls)
unfolding first_fatal
first_fatal-FirstFatal [] = none_fatal
first_fatal-FirstFatal (l ∷ ls) = elim (Bool-cases (is_fatal (trim_space l))) [
  | inl e ↦ rw e (fatal_here e)
  | inr e ↦ rw e (harmless e (first_fatal-FirstFatal ls))
]
