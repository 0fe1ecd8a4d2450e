-- ===== src/Source/Select/Qualifies.antt =====
-- The files and the objects that discovery chooses from.
use fire_drill.Base.{
  ℕ, ◌≡◌, refl, ◌⊎◌, inl, inr, false, Option, none, some, String, ap, Bool-cases, ◌↔◌, ◌≢◌, not,
  ◌||◌, eq_false_iff, if◌then◌else◌, pos, negsuc, ℤ, true, subst, sym, eq_iff, ◌==◌, string_eq,
  nat_eq, Bool,
}
use fire_drill.Std.Glob.{path_match}
use fire_drill.Std.Path.{base, ends_in_slash}
use fire_drill.Source.Select.{
  Dated, Entry, file_candidate, Object, Info, is_zero, sized, glob_match, matched, object_candidate,
}

-- A name that the glob matches, any where there is no glob.
abbrev pub Matches : String → String → Type 0
Matches glob name = (glob ≡ "") ⊎ (path_match glob name ≡ some true)

-- A file that is not empty and matches the glob, with its name and date.
abbrev pub IsFile : String → Entry → Dated → Type 0
IsFile glob e d =
    (e.is_dir ≡ false)
    × Matches glob e.name
    × ((i : Info) × (e.info ≡ some i)
        × (i.size ≢ pos 0)
        × (d ≡ record { name = e.name; date = i.mod_time }))

-- An object that is no folder, not empty, and whose base name matches the glob, with its key and date.
abbrev pub IsObject : String → Object → Dated → Type 0
IsObject glob o d =
    (ends_in_slash o.key ≡ false)
    × (o.size ≢ pos 0)
    × Matches glob (base o.key)
    × (d ≡ record { name = o.key; date = o.last_modified })

pos_injective : (a b : ℕ) → pos a ≡ pos b → a ≡ b
pos_injective a b h = cc

not_zero_iff : (n : ℤ) → (is_zero n ≡ false) ↔ (n ≢ pos 0)
not_zero_iff (pos n) = (
  λ h e. (eq_false_iff n 0).0 h (pos_injective n 0 e),
  λ h. (eq_false_iff n 0).1 (λ e. h (ap pos e)),
)
not_zero_iff (negsuc n) = (λ h e. cc, λ h. refl)

matched_iff : (m : Option Bool) → (matched m ≡ true) ↔ (m ≡ some true)
matched_iff none = (λ h. cc, λ h. cc)
matched_iff (some b) = (λ h. ap some h, λ h. cc)

glob_match_iff : (glob name : String) → (glob_match glob name ≡ true) ↔ Matches glob name
unfolding glob_match
glob_match_iff glob name = elim (Bool-cases (glob == "")) [
  | inl e ↦ rw e (λ h. inl ((eq_iff glob "").0 e), λ h. refl)
  | inr n ↦ rw n (
    λ h. inr ((matched_iff (path_match glob name)).0 h),
    λ h. elim h [
      | inl e ↦ absurd ((eq_false_iff glob "").0 n e)
      | inr m ↦ (matched_iff (path_match glob name)).1 m
    ],
  )
]

unless_iff :
    (b : Bool) (r : Option Dated) (d : Dated)
    → ((if b then none else r) ≡ some d) ↔ ((b ≡ false) × (r ≡ some d))
unless_iff true r d = (λ h. cc, λ (h, k). cc)
unless_iff false r d = (λ h. (refl, h), λ h. h.1)

some_iff : (x d : Dated) → (some x ≡ some d) ↔ (d ≡ x)
some_iff x d = (λ h. cc, λ h. ap some (sym h))

when_iff :
    (b : Bool) (x d : Dated) → ((if b then some x else none) ≡ some d) ↔ ((b ≡ true) × (d ≡ x))
when_iff true x d = (λ h. (refl, (some_iff x d).0 h), λ h. (some_iff x d).1 h.1)
when_iff false x d = (λ h. cc, λ (h, k). cc)

neither_iff : (a b : Bool) → (a || b ≡ false) ↔ ((a ≡ false) × (b ≡ false))
neither_iff true b = (λ h. cc, λ h. h.0)
neither_iff false b = (λ h. (refl, h), λ h. h.1)

not_iff : (b : Bool) → (not b ≡ false) ↔ (b ≡ true)
not_iff true = (λ h. refl, λ h. refl)
not_iff false = (λ h. cc, λ h. cc)

sized_iff :
    (name : String) (i : Option Info) (d : Dated)
    → (sized name i ≡ some d) ↔ (
        (x : Info) × (i ≡ some x)
        × (x.size ≢ pos 0)
        × (d ≡ record { name = name; date = x.mod_time }))
sized_iff name none d = (λ h. cc, λ (x, e, n, s). cc)
sized_iff name (some x) d =
    let dated = some_iff (record { name = name; date = x.mod_time }) d in
    let whole = unless_iff (is_zero x.size) (some (record { name = name; date = x.mod_time })) d in
    (
      λ h. (x, refl, (not_zero_iff x.size).0 (whole.0 h).0, dated.0 (whole.0 h).1),
      λ (y, e, n, s).
          let same : y ≡ x = cc in
          whole.1 (
            (not_zero_iff x.size).1 (subst (λ z. z.size ≢ pos 0) same n),
            dated.1 (subst (λ z. d ≡ record { name = name; date = z.mod_time }) same s),
          ),
    )

pub file_candidate_iff :
    (glob : String) (e : Entry) (d : Dated) → (file_candidate glob e ≡ some d) ↔ IsFile glob e d
unfolding file_candidate
file_candidate_iff glob e d =
    let whole = unless_iff (e.is_dir || not (glob_match glob e.name)) (sized e.name e.info) d in
    let both = neither_iff e.is_dir (not (glob_match glob e.name)) in
    let yes = not_iff (glob_match glob e.name) in
    let fits = glob_match_iff glob e.name in
    let there = sized_iff e.name e.info d in
    (
      λ h.
          let (b, r) = whole.0 h in
          let (dir, other) = both.0 b in (dir, fits.0 (yes.0 other), there.0 r),
      λ (dir, m, r). whole.1 (both.1 (dir, yes.1 (fits.1 m)), there.1 r),
    )

pub object_candidate_iff :
    (glob : String) (o : Object) (d : Dated)
    → (object_candidate glob o ≡ some d) ↔ IsObject glob o d
unfolding object_candidate
object_candidate_iff glob o d =
    let x : Dated = record { name = o.key; date = o.last_modified } in
    let whole =
      unless_iff (ends_in_slash o.key || is_zero o.size)
        (if glob_match glob (base o.key) then some x else none) d in
    let both = neither_iff (ends_in_slash o.key) (is_zero o.size) in
    let size = not_zero_iff o.size in
    let fits = glob_match_iff glob (base o.key) in
    let there = when_iff (glob_match glob (base o.key)) x d in
    (
      λ h.
          let (b, r) = whole.0 h in
          let (slash, full) = both.0 b in
          let (m, same) = there.0 r in (slash, size.0 full, fits.0 m, same),
      λ (slash, n, m, same). whole.1 (both.1 (slash, size.1 n), there.1 (fits.1 m, same)),
    )
