-- ===== src/Sandbox/Leftover.antt =====
-- What is left of a resource when its removal was asked for, by the answer to that.
use fire_drill.Base.{
  ◌≡◌, ◌≢◌, refl, sym, ◌⊎◌, inl, inr, Bool-cases, ◌==◌, string_eq, eq_false_iff, none, some, String,
  Option, if◌then◌else◌,
}

-- Nothing, which is the empty text, unless it was refused.
abbrev pub kept_by : Option String → String → String
kept_by none id = ""
kept_by (some refusal) id = id

-- The one that is held, after the removal of one.
abbrev pub after_removal : Option String → String → String → String
after_removal answer id held = if id == held then kept_by answer id else held

-- There is none, or its removal is refused.
abbrev pub IsRefused : Option String → String → Type 0
IsRefused answer id = (id ≡ "") ⊎ (answer ≢ none)

pub kept_by-IsRefused :
    (answer : Option String) (id : String) → IsRefused answer (kept_by answer id)
kept_by-IsRefused none id = inl refl
kept_by-IsRefused (some x) id = inr λ n. cc

-- When what is held is nothing or what is removed, it is gone or refused.
pub after_removal-IsRefused :
    (answer : Option String) (id held : String)
    → (held ≡ "") ⊎ (held ≡ id)
    → IsRefused answer (after_removal answer id held)
after_removal-IsRefused answer id held h = elim (Bool-cases (id == held)) [
  | inl e ↦ rw e (kept_by-IsRefused answer id)
  | inr n ↦ rw n (elim h [ inl e ↦ inl e | inr e ↦ absurd ((eq_false_iff id held).0 n (sym e)) ])
]
