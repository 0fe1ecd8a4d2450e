-- ===== src/Std/Path.antt =====
-- What the program uses of Go's package path, on texts: `path.Base`, and the suffix "/".
use fire_drill.Base.{
  ◌≡◌, refl, Bool, false, ◌&&◌, Option, none, some, String, ◌==◌, nat_eq, string_eq, if◌then◌else◌,
  ◌≡◌,
}
use Prim.Native.Char.{code}

-- The text without the slashes at its end.
unfoldable pub strip_slashes : String → String
strip_slashes String.[] = ""
strip_slashes (String.◌∷◌ c s) =
    let rest = strip_slashes s in if rest == "" && code c == b'/' then "" else String.◌∷◌ c rest

-- What follows the last slash, if there is one.
unfoldable pub after_slash : String → Option String
after_slash String.[] = none
after_slash (String.◌∷◌ c s) = elim (after_slash s) [
  | some t ↦ some t
  | none ↦ if code c == b'/' then some s else none
]

abbrev last_part : String → String
last_part s = elim (after_slash s) [ none ↦ s | some t ↦ t ]

unfoldable pub base : String → String
base s =
    let stripped = strip_slashes s in
    if s == "" then "." else if stripped == "" then "/" else last_part stripped

unfoldable pub ends_in_slash : String → Bool
ends_in_slash String.[] = false
ends_in_slash (String.◌∷◌ c String.[]) = code c == b'/'
ends_in_slash (String.◌∷◌ c (String.◌∷◌ d s)) = ends_in_slash (String.◌∷◌ d s)

base_key : base "nightly/payments-2.dump" ≡ "payments-2.dump"
unfolding base strip_slashes after_slash
base_key = refl

base_folder : base "nightly//" ≡ "nightly"
unfolding base strip_slashes after_slash
base_folder = refl
