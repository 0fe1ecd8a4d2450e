-- ===== src/Source/Select/Newest.antt =====
-- The artifact that discovery selects is the newest of the candidates.
use fire_drill.Base.{
  ℕ, suc, ◌+◌, ◌≤◌, ◌≡◌, refl, ◌⊎◌, inl, inr, false, List, [], ◌∷◌, ◌++◌, Option, none, some,
  String, ok, err, All, Any, map, length, arith, Option-cases, ltb, ap, length-append, ◌<◌,
  Bool-cases, ◌↔◌, subst, sym, ◌∙◌, string_eq, nat_eq,
}
use fire_drill.Spec.Document.{From}
use fire_drill.Source.Select.{
  Dated, newer_of, no_match, Entry, file_candidate, newest_file, chosen, latest_file, Object,
  object_candidate, newest_object, newest_paged, latest_object, max_list_keys, too_many,
}
use fire_drill.Source.Select.Qualifies.{IsFile, IsObject, file_candidate_iff, object_candidate_iff}

abbrev best_of : Option Dated → List (Option Dated) → Option Dated
best_of best [] = best
best_of best (c ∷ cs) = best_of (newer_of best c) cs

abbrev IsBelow : ℕ → Option Dated → Type 0
IsBelow n none = Unit
IsBelow n (some d) = d.date ≤ n

newer_of-IsBelow :
    (n : ℕ) (b c : Option Dated) → IsBelow n (newer_of b c) → IsBelow n b × IsBelow n c
newer_of-IsBelow n b c h = ground arith

newer_of-some :
    (b c : Option Dated) (d : Dated) → newer_of b c ≡ some d → (b ≡ some d) ⊎ (c ≡ some d)
newer_of-some b none d h = inl h
newer_of-some none (some c) d h = inr h
newer_of-some (some b) (some c) d h = ground arith

newer_of-none : (b c : Option Dated) → newer_of b c ≡ none → (b ≡ none) × (c ≡ none)
newer_of-none b none h = (h, refl)
newer_of-none none (some c) h = absurd (cc)
newer_of-none (some b) (some c) h = absurd (ground arith)

IsBelow-self : (b : Option Dated) (d : Dated) → b ≡ some d → IsBelow d.date b
IsBelow-self none d h = tt
IsBelow-self (some c) d h = let same : c ≡ d = cc in ground arith

best_of-some :
    (b : Option Dated) (cs : List (Option Dated)) (d : Dated)
    → best_of b cs ≡ some d
    → ((b ≡ some d) ⊎ Any (λ c. c ≡ some d) cs) × IsBelow d.date b × All (IsBelow d.date) cs
best_of-some b [] d h = (inl h, IsBelow-self b d h, tt)
best_of-some b (c ∷ cs) d h =
    let (from, top, rest) = best_of-some (newer_of b c) cs d h in
    let (x, y) = newer_of-IsBelow d.date b c top in
    (
      elim from [
        | inl e ↦ elim (newer_of-some b c d e) [ inl p ↦ inl p | inr q ↦ inr (inl q) ]
        | inr q ↦ inr (inr q)
      ],
      x,
      (y, rest),
    )

best_of-none :
    (b : Option Dated) (cs : List (Option Dated))
    → best_of b cs ≡ none
    → (b ≡ none) × All (λ c. c ≡ none) cs
best_of-none b [] h = (h, tt)
best_of-none b (c ∷ cs) h =
    let (m, rest) = best_of-none (newer_of b c) cs h in
    let (x, y) = newer_of-none b c m in (x, (y, rest))

-- One of the candidates, and none of them is newer.
abbrev IsBest : List (Option Dated) → String → Type 0
IsBest cs name = (d : Dated) × (d.name ≡ name) × Any (λ c. c ≡ some d) cs × All (IsBelow d.date) cs

chosen-IsBest :
    (location glob : String) (cs : List (Option Dated))
    → ((name : String) × (chosen location glob (best_of none cs) ≡ ok name) × IsBest cs name)
      ⊎ ((chosen location glob (best_of none cs) ≡ err (no_match location glob))
          × All (λ c. c ≡ none) cs)
chosen-IsBest location glob cs = elim (Option-cases (best_of none cs)) [
  | inl e ↦ inr (rw e refl, (best_of-none none cs e).1)
  | inr (d, e) ↦
      let (from, _, top) = best_of-some none cs d e in
      inl (d.name, rw e refl, (d, refl, elim from [ inl x ↦ absurd (cc) | inr x ↦ x ], top))
]

newest_file-best :
    (glob : String) (b : Option Dated) (es : List Entry)
    → newest_file glob b es ≡ best_of b (map (file_candidate glob) es)
unfolding newest_file
newest_file-best glob b [] = refl
newest_file-best glob b (e ∷ es) = newest_file-best glob (newer_of b (file_candidate glob e)) es

latest_file-IsBest :
    (f : From) (es : List Entry)
    → ((name : String) × (latest_file f (ok es) ≡ ok name)
        × IsBest (map (file_candidate f.match) es) name)
      ⊎ ((latest_file f (ok es) ≡ err (no_match f.uri f.match))
          × All (λ c. c ≡ none) (map (file_candidate f.match) es))
unfolding latest_file
latest_file-IsBest f es =
    rw (newest_file-best f.match none es)
      (chosen-IsBest f.uri f.match (map (file_candidate f.match) es))

newest_object-best :
    (glob : String) (seen : ℕ) (b : Option Dated) (os : List Object)
    → seen + length os ≤ max_list_keys
    → newest_object glob seen b os
      ≡ ok (seen + length os, best_of b (map (object_candidate glob) os))
unfolding newest_object
newest_object-best glob seen b [] h = let same : seen + 0 ≡ seen = omega arith in rw same refl
newest_object-best glob seen b (o ∷ os) h =
    let ih =
      newest_object-best glob (suc seen) (newer_of b (object_candidate glob o)) os (omega arith) in
    let fits : ltb max_list_keys (suc seen) ≡ false = ground arith in
    let same : suc seen + length os ≡ seen + suc (length os) = omega arith in
    rw (fits, ih, same) refl

abbrev pub objects : List (List Object) → List Object
objects [] = []
objects (page ∷ pages) = page ++ objects pages

best_of-append :
    (b : Option Dated) (cs ds : List (Option Dated))
    → best_of b (cs ++ ds) ≡ best_of (best_of b cs) ds
best_of-append b [] ds = refl
best_of-append b (c ∷ cs) ds = best_of-append (newer_of b c) cs ds

map-append :
    (f : Object → Option Dated) (xs ys : List Object) → map f (xs ++ ys) ≡ map f xs ++ map f ys
map-append f [] ys = refl
map-append f (x ∷ xs) ys = ap (λ zs. f x ∷ zs) (map-append f xs ys)

newest_paged-best :
    (glob : String) (seen : ℕ) (b : Option Dated) (pages : List (List Object))
    → seen + length (objects pages) ≤ max_list_keys
    → newest_paged glob seen b (map ok pages)
      ≡ ok (best_of b (map (object_candidate glob) (objects pages)))
unfolding newest_paged
newest_paged-best glob seen b [] h = refl
newest_paged-best glob seen b (page ∷ pages) h =
    let cand = object_candidate glob in
    let total = length-append page (objects pages) in
    let here = newest_object-best glob seen b page (omega arith) in
    let later =
      newest_paged-best glob (seen + length page) (best_of b (map cand page)) pages (omega arith) in
    rw
      (
        here,
        later,
        map-append cand page (objects pages),
        best_of-append b (map cand page) (map cand (objects pages)),
      )
      refl

latest_object-IsBest :
    (location glob : String) (pages : List (List Object))
    → length (objects pages) ≤ max_list_keys
    → ((key : String) × (latest_object location glob (map ok pages) ≡ ok key)
        × IsBest (map (object_candidate glob) (objects pages)) key)
      ⊎ ((latest_object location glob (map ok pages) ≡ err (no_match location glob))
          × All (λ c. c ≡ none) (map (object_candidate glob) (objects pages)))
unfolding latest_object
latest_object-IsBest location glob pages h =
    rw (newest_paged-best glob 0 none pages (omega arith))
      (chosen-IsBest location glob (map (object_candidate glob) (objects pages)))

newest_object-many :
    (glob : String) (seen : ℕ) (b : Option Dated) (os : List Object)
    → seen ≤ max_list_keys
    → max_list_keys < seen + length os
    → newest_object glob seen b os ≡ err (too_many max_list_keys)
unfolding newest_object
newest_object-many glob seen b [] h k = absurd (omega arith)
newest_object-many glob seen b (o ∷ os) h k = elim (Bool-cases (ltb max_list_keys (suc seen))) [
  | inl over ↦ rw over refl
  | inr fits ↦
      rw
        (
          fits,
          newest_object-many glob (suc seen) (newer_of b (object_candidate glob o)) os
              (ground arith) (omega arith),
        )
        refl
]

newest_paged-many :
    (glob : String) (seen : ℕ) (b : Option Dated) (pages : List (List Object))
    → seen ≤ max_list_keys
    → max_list_keys < seen + length (objects pages)
    → newest_paged glob seen b (map ok pages) ≡ err (too_many max_list_keys)
unfolding newest_paged
newest_paged-many glob seen b [] h k = absurd (omega arith)
newest_paged-many glob seen b (page ∷ pages) h k =
    let total = length-append page (objects pages) in
    elim (Bool-cases (ltb max_list_keys (seen + length page))) [
      | inl over ↦ rw (newest_object-many glob seen b page h (ground arith)) refl
      | inr fits ↦
          let within : seen + length page ≤ max_list_keys = ground arith in
          rw
            (
              newest_object-best glob seen b page within,
              newest_paged-many glob (seen + length page)
                  (best_of b (map (object_candidate glob) page)) pages within (omega arith),
            )
            refl
    ]

-- Discovery in a bucket whose pages hold more objects than the limit fails, whatever they are.
pub latest_object-many :
    (location glob : String) (pages : List (List Object))
    → max_list_keys < length (objects pages)
    → latest_object location glob (map ok pages) ≡ err (too_many max_list_keys)
unfolding latest_object
latest_object-many location glob pages h =
    rw (newest_paged-many glob 0 none pages (omega arith) (omega arith)) refl

module _ {A : Type 0} (Q : A → Dated → Type 0) where
  -- Of those that qualify, one of that name, and none of them is newer.
  abbrev pub IsNewest : List A → String → Type 0
  IsNewest xs name =
      (d : Dated) × (d.name ≡ name)
      × Any (λ x. Q x d) xs
      × All (λ x. (c : Dated) → Q x c → c.date ≤ d.date) xs

  -- None qualifies.
  abbrev pub NoneQualifies : List A → Type 0
  NoneQualifies xs = All (λ x. (d : Dated) → Q x d → ⊥) xs

  module _ (f : A → Option Dated) (same : (x : A) (d : Dated) → (f x ≡ some d) ↔ Q x d) where
    Any-some : (d : Dated) (xs : List A) → Any (λ c. c ≡ some d) (map f xs) → Any (λ x. Q x d) xs
    Any-some d [] h = h
    Any-some d (x ∷ xs) (inl e) = inl ((same x d).0 e)
    Any-some d (x ∷ xs) (inr h) = inr (Any-some d xs h)

    IsBelow-some : (n : ℕ) (c : Option Dated) (d : Dated) → IsBelow n c → c ≡ some d → d.date ≤ n
    IsBelow-some n none d h e = cc
    IsBelow-some n (some c) d h e = let kept : c ≡ d = cc in subst (λ x. x.date ≤ n) kept h

    All-below :
        (n : ℕ) (xs : List A)
        → All (IsBelow n) (map f xs)
        → All (λ x. (c : Dated) → Q x c → c.date ≤ n) xs
    All-below n [] h = tt
    All-below n (x ∷ xs) (h, hs) =
        (λ c q. IsBelow-some n (f x) c h ((same x c).1 q), All-below n xs hs)

    All-none : (xs : List A) → All (λ c. c ≡ none) (map f xs) → NoneQualifies xs
    All-none [] h = tt
    All-none (x ∷ xs) (h, hs) =
        (λ d q. let found : none ≡ some d = sym h ∙ (same x d).1 q in cc, All-none xs hs)

    IsBest-IsNewest : (xs : List A) (name : String) → IsBest (map f xs) name → IsNewest xs name
    IsBest-IsNewest xs name (d, n, h, b) = (d, n, Any-some d xs h, All-below d.date xs b)

-- Discovery in a directory that can be listed selects the newest of the files that are not empty and
-- match the glob, by its name, and it fails exactly when there is none.
pub latest_file-IsNewest :
    (f : From) (es : List Entry)
    → ((name : String) × (latest_file f (ok es) ≡ ok name) × IsNewest (IsFile f.match) es name)
      ⊎ ((latest_file f (ok es) ≡ err (no_match f.uri f.match)) × NoneQualifies (IsFile f.match) es)
latest_file-IsNewest f es =
    let cand = file_candidate f.match in
    let same = file_candidate_iff f.match in
    elim (latest_file-IsBest f es) [
      | inl (name, e, b) ↦ inl (name, e, IsBest-IsNewest (IsFile f.match) cand same es name b)
      | inr (e, n) ↦ inr (e, All-none (IsFile f.match) cand same es n)
    ]

-- Discovery in a bucket whose pages can all be listed, with no more objects than the limit, selects
-- the newest of the objects that are not folders, not empty and match the glob, by its key, and it
-- fails exactly when there is none.
pub latest_object-IsNewest :
    (location glob : String) (pages : List (List Object))
    → length (objects pages) ≤ max_list_keys
    → ((key : String) × (latest_object location glob (map ok pages) ≡ ok key)
        × IsNewest (IsObject glob) (objects pages) key)
      ⊎ ((latest_object location glob (map ok pages) ≡ err (no_match location glob))
          × NoneQualifies (IsObject glob) (objects pages))
latest_object-IsNewest location glob pages h =
    let cand = object_candidate glob in
    let same = object_candidate_iff glob in
    elim (latest_object-IsBest location glob pages h) [
      | inl (key, e, b) ↦
          inl (key, e, IsBest-IsNewest (IsObject glob) cand same (objects pages) key b)
      | inr (e, n) ↦ inr (e, All-none (IsObject glob) cand same (objects pages) n)
    ]
