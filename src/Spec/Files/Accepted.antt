-- ===== src/Spec/Files/Accepted.antt =====
-- Which files `ParseAll` accepts, and what it returns for them.
use fire_drill.Base.{
  ℕ, suc, ◌≡◌, ◌≢◌, refl, sym, ◌↔◌, true, false, not, List, [], ◌∷◌, String, ok, err, fail_if,
  is_empty, string_eq, eq_iff, eq_refl, map, All, All-imp, arith, subst, >>=-eq-ok, fail_if-ok,
  is_empty-eq-nil, ap, is_empty-ne-nil,
}
use fire_drill.Spec.Document.{Drill}
use fire_drill.Spec.Validate.{validate}
use fire_drill.Spec.Validate.WellFormed.{WellFormed, validate_iff}
use fire_drill.Spec.Files.{Document, contains, parse_from, parse_all, named, find_drill}

-- No two drills share a name.
abbrev pub UniqueNames : List Drill → Type 0
UniqueNames [] = Unit
UniqueNames (d ∷ ds) = All (λ e. e.metadata.name ≢ d.metadata.name) ds × UniqueNames ds

-- Drills that a file may hold after the names seen.
abbrev Fresh : List String → List Drill → Type 0
Fresh seen = All (λ d. contains seen d.metadata.name ≡ false)

not_seen :
    (n : String) (seen : List String) (d : Drill)
    → contains (n ∷ seen) d.metadata.name ≡ false
    → (d.metadata.name ≢ n) × (contains seen d.metadata.name ≡ false)
not_seen n seen d h = ground (arith, eq_iff n d.metadata.name)

-- What one accepted document says.
step :
    (seen : List String) (n : ℕ) (d : Drill) (docs : List Document) {drills : List Drill}
    → parse_from seen n (ok d ∷ docs) ≡ ok drills
    → (rest : List Drill) × (drills ≡ d ∷ rest)
      × (validate d ≡ [])
      × (contains seen d.metadata.name ≡ false)
      × (parse_from (d.metadata.name ∷ seen) (suc n) docs ≡ ok rest)
unfolding parse_from
step seen n d docs h =
    let (_, valid, h1) = >>=-eq-ok (fail_if (not (is_empty (validate d))) _) _ h in
    let (_, new, h2) = >>=-eq-ok (fail_if (contains seen d.metadata.name) _) _ h1 in
    let (rest, e, h3) = >>=-eq-ok (parse_from (d.metadata.name ∷ seen) (suc n) docs) _ h2 in
    let empty : is_empty (validate d) ≡ true = ground (arith, fail_if-ok _ _ valid) in
    (rest, cc, is_empty-eq-nil (validate d) empty, fail_if-ok _ _ new, e)

abbrev Accepts : List String → List Document → List Drill → Type 0
Accepts seen docs drills =
    (docs ≡ map ok drills)
    × All (λ d. validate d ≡ []) drills
    × UniqueNames drills
    × Fresh seen drills

parse_from_sound :
    (seen : List String) (n : ℕ) (docs : List Document) (drills : List Drill)
    → parse_from seen n docs ≡ ok drills
    → Accepts seen docs drills
unfolding parse_from
parse_from_sound seen n [] [] h = (refl, tt, tt, tt)
parse_from_sound seen n [] (x ∷ xs) h = cc
parse_from_sound seen n (err e ∷ docs) drills h = cc
parse_from_sound seen n (ok d ∷ docs) drills h =
    let (rest, e, v, c, p) = step seen n d docs h in
    let (same, valid, unique, fresh) =
      parse_from_sound (d.metadata.name ∷ seen) (suc n) docs rest p in
    let split = All-imp (λ x f. not_seen d.metadata.name seen x f) rest fresh in
    subst (Accepts seen (ok d ∷ docs)) (sym e) (
      ap (λ l. ok d ∷ l) same,
      (v, valid),
      (All-imp (λ x f. f.0) rest split, unique),
      (c, All-imp (λ x f. f.1) rest split),
    )

seen_more :
    (n : String) (seen : List String) (d : Drill)
    → d.metadata.name ≢ n
    → contains seen d.metadata.name ≡ false
    → contains (n ∷ seen) d.metadata.name ≡ false
seen_more n seen d e h = ground (arith, eq_iff n d.metadata.name)

seen_more-All :
    (n : String) (seen : List String) (ds : List Drill)
    → All (λ e. e.metadata.name ≢ n) ds
    → Fresh seen ds
    → Fresh (n ∷ seen) ds
seen_more-All n seen [] u f = tt
seen_more-All n seen (d ∷ ds) u f = (seen_more n seen d u.0 f.0, seen_more-All n seen ds u.1 f.1)

parse_from_complete :
    (seen : List String) (n : ℕ) (drills : List Drill)
    → All (λ d. validate d ≡ []) drills
    → UniqueNames drills
    → Fresh seen drills
    → parse_from seen n (map ok drills) ≡ ok drills
unfolding parse_from
parse_from_complete seen n [] v u f = refl
parse_from_complete seen n (d ∷ ds) v u f =
    let fresh = seen_more-All d.metadata.name seen ds u.0 f.1 in
    rw (v.0, f.0, parse_from_complete (d.metadata.name ∷ seen) (suc n) ds v.1 u.1 fresh)

accepted :
    (docs : List Document) (drills : List Drill)
    → parse_all docs ≡ ok drills
    → (parse_from [] 0 docs ≡ ok drills) × (is_empty drills ≡ false)
unfolding parse_all
accepted docs drills h = ground arith

all-Fresh : (ds : List Drill) → Fresh [] ds
all-Fresh [] = tt
all-Fresh (d ∷ ds) = (refl, all-Fresh ds)

-- A file that is accepted holds at least one drill and nothing but drills, all of them well formed
-- and with different names; and every such file is accepted, with its drills in their order.
pub parse_all_iff :
    (docs : List Document) (drills : List Drill)
    → (parse_all docs ≡ ok drills)
      ↔ ((docs ≡ map ok drills) × (drills ≢ []) × All WellFormed drills × UniqueNames drills)
unfolding parse_all
parse_all_iff docs drills = (
  λ h.
      let (e, full) = accepted docs drills h in
      let (same, valid, unique, _) = parse_from_sound [] 0 docs drills e in
      (same, λ nil. cc, All-imp (λ d v. (validate_iff d).0 v) drills valid, unique),
  λ (same, full, wf, unique).
      let valid = All-imp (λ d w. (validate_iff d).1 w) drills wf in
      rw (
        same,
        parse_from_complete [] 0 drills valid unique (all-Fresh drills),
        is_empty-ne-nil drills full,
      ),
)

-- Looking for a name in drills that hold it once finds the drill of that name.
named_first : (d : Drill) (ds : List Drill) → named d.metadata.name (d ∷ ds) ≡ ok d
named_first d ds = rw (eq_refl d.metadata.name)

named_later :
    (d e : Drill) (ds : List Drill)
    → e.metadata.name ≢ d.metadata.name
    → named e.metadata.name ds ≡ ok e
    → named e.metadata.name (d ∷ ds) ≡ ok e
named_later d e ds n h = ground (arith, eq_iff d.metadata.name e.metadata.name)

named_later-All :
    (d : Drill) (ds es : List Drill)
    → All (λ e. e.metadata.name ≢ d.metadata.name) es
    → All (λ e. named e.metadata.name ds ≡ ok e) es
    → All (λ e. named e.metadata.name (d ∷ ds) ≡ ok e) es
named_later-All d ds [] u h = tt
named_later-All d ds (e ∷ es) u h = (named_later d e ds u.0 h.0, named_later-All d ds es u.1 h.1)

named_unique : (ds : List Drill) → UniqueNames ds → All (λ e. named e.metadata.name ds ≡ ok e) ds
named_unique [] u = tt
named_unique (d ∷ ds) u = (named_first d ds, named_later-All d ds ds u.0 (named_unique ds u.1))

find_drill-named :
    (ds : List Drill) (d : Drill)
    → named d.metadata.name ds ≡ ok d
    → find_drill ds d.metadata.name ≡ ok d
unfolding find_drill
find_drill-named ds d h = ground arith

-- Every drill of an accepted file is the one that its own name finds there.
pub find_drill-parse_all :
    (docs : List Document) (drills : List Drill)
    → parse_all docs ≡ ok drills
    → All (λ d. find_drill drills d.metadata.name ≡ ok d) drills
find_drill-parse_all docs drills h =
    let (_, _, _, unique) = (parse_all_iff docs drills).0 h in
    All-imp (find_drill-named drills) drills (named_unique drills unique)
