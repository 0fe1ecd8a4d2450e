-- ===== src/Gc/Lease.antt =====
-- `Options` and `expired` of pkg/gc/gc.go. `time.Parse` of an RFC 3339 text is an argument.
use fire_drill.Base.{
  ℕ, ℤ, ◌<◌, ◌<ℤ◌, ◌≡◌, ◌≢◌, ◌↔◌, ◌⊎◌, inl, inr, Bool, true, false, not, ◌&&◌, String, Option, none,
  some, ltb, ltb_ℤ, time_sub, ◌!=◌, string_eq, eq_iff, if◌then◌else◌, arith, Bool-cases,
  eq_false_iff, Option-cases,
}

pub record Options : Type 0 where
  pub older_than : ℤ
  pub dry_run : Bool
  pub force : Bool

abbrev pub is_older : Options → ℕ → ℕ → Bool
is_older o created now = ltb_ℤ o.older_than (time_sub now created)

abbrev expired_at : Options → Option ℕ → ℕ → ℕ → Bool
expired_at o (some t) created now = ltb t now
expired_at o none created now = is_older o created now

unfoldable pub expired : (String → Option ℕ) → Options → String → ℕ → ℕ → Bool
expired parse o expires created now =
    if expires != "" && not o.force
    then expired_at o (parse expires) created now
    else is_older o created now

-- A lease that holds: there is no force, and the label is an instant.
abbrev pub HasLease : (String → Option ℕ) → Options → String → ℕ → Type 0
HasLease parse o expires t = (o.force ≡ false) × (expires ≢ "") × (parse expires ≡ some t)

-- What makes a resource an orphan.
abbrev pub IsOrphan : (String → Option ℕ) → Options → String → ℕ → ℕ → Type 0
IsOrphan parse o expires created now =
    ((t : ℕ) × HasLease parse o expires t × (t < now))
    ⊎ (((t : ℕ) → HasLease parse o expires t → ⊥) × (o.older_than <ℤ time_sub now created))

no_lease :
    (parse : String → Option ℕ) (o : Options) (expires : String)
    → (expires != "" && not o.force) ≡ false
    → (t : ℕ) → HasLease parse o expires t
    → ⊥
no_lease parse o expires n t (f, named, _) = named ((eq_iff expires "").0 (ground arith))

-- A resource counts as expired exactly when its lease is over or, when there is no lease to respect,
-- when it is older than the threshold.
pub expired_iff :
    (parse : String → Option ℕ) (o : Options) (expires : String) (created now : ℕ)
    → (expired parse o expires created now ≡ true) ↔ IsOrphan parse o expires created now
unfolding expired
expired_iff parse o expires created now = elim (Bool-cases (expires != "" && not o.force)) [
  | inr n ↦
      let free = no_lease parse o expires n in
      (
        λ h. inr (free, ground arith),
        λ h. elim h [ inl (t, l, _) ↦ absurd (free t l) | inr (_, old) ↦ ground arith ],
      )
  | inl l ↦
      let calm : o.force ≡ false = ground arith in
      let named : expires ≢ "" = (eq_false_iff expires "").0 (ground arith) in
      elim (Option-cases (parse expires)) [
        | inl e ↦ (
          λ h. inr ((λ t (_, _, p). cc), ground arith),
          λ h. elim h [ inl (t, (_, _, p), _) ↦ absurd (cc) | inr (_, old) ↦ ground arith ],
        )
        | inr (t, e) ↦ (
          λ h. inl (t, (calm, named, e), ground arith),
          λ h. elim h [
            | inl (u, (_, _, p), past) ↦ let same : t ≡ u = cc in ground arith
            | inr (free, _) ↦ absurd (free t (calm, named, e))
          ],
        )
      ]
]
