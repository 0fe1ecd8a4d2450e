-- ===== src/Std/Glob.antt =====
-- Go's `path.Match`, over code points: `none` is `ErrBadPattern`.
use fire_drill.Base.{
  ℕ, zero, suc, ◌≡◌, refl, Bool, true, false, not, ◌&&◌, ◌||◌, Option, none, some, List, [], ◌∷◌,
  String, codes, length, is_empty, any, if◌then◌else◌, ◌==◌, leb, nat_eq,
}

-- `scanChunk`: the leading stars, then the text up to the next star outside brackets.
strip_stars : List ℕ → Bool × List ℕ
strip_stars [] = (false, [])
strip_stars (c ∷ cs) = if c == b'*' then (true, (strip_stars cs).1) else (false, c ∷ cs)

split_chunk : Bool → Bool → List ℕ → List ℕ × List ℕ
split_chunk escaped in_range [] = ([], [])
split_chunk escaped in_range (c ∷ cs) =
    let opens = not escaped && c == b'[' in
    let closes = not escaped && c == b']' in
    let rest = split_chunk (not escaped && c == b'\\') (opens || (in_range && not closes)) cs in
    if not escaped && not in_range && c == b'*' then ([], c ∷ cs) else (c ∷ rest.0, rest.1)

-- `getEsc`: one character of a range, and what follows it, which must not be empty.
get_esc : List ℕ → Option (ℕ × List ℕ)
get_esc [] = none
get_esc (c ∷ []) = none
get_esc (c ∷ d ∷ cs) =
    if c == b'-' || c == b']'
    then none
    else if c == b'\\'
    then (if is_empty cs then none else some (d, cs))
    else some (c, d ∷ cs)

-- The loop over the ranges of a bracket: what follows it, and whether `r` lies in a range. A range
-- takes at least one character, so fuel of the pattern's length is enough.
ranges : ℕ → ℕ → Bool → Bool → List ℕ → Option (List ℕ × Bool)
unfolding get_esc
ranges zero r found later cs = none
ranges (suc f) r found later [] = none
ranges (suc f) r found later (c ∷ cs) = elim (c == b']' && later) [
  | true ↦ some (cs, found)
  | false ↦ elim (get_esc (c ∷ cs)) [
    | none ↦ none
    | some (lo, []) ↦ none
    | some (lo, d ∷ ds) ↦ elim (d == b'-') [
      | false ↦ ranges f r (found || (leb lo r && leb r lo)) true (d ∷ ds)
      | true ↦ elim (get_esc ds) [
        | none ↦ none
        | some (hi, es) ↦ ranges f r (found || (leb lo r && leb r hi)) true es
      ]
    ]
  ]
]

abbrev bracket : ℕ → ℕ → List ℕ → Option (List ℕ × Bool)
bracket f r [] = none
bracket f r (c ∷ cs) = elim (c == b'^') [
  | true ↦ elim (ranges f r false false cs) [
    | none ↦ none
    | some (rest, found) ↦ some (rest, not found)
  ]
  | false ↦ ranges f r false false (c ∷ cs)
]

abbrev head_or : ℕ → List ℕ → ℕ
head_or d [] = d
head_or d (c ∷ cs) = c

abbrev rest_of : List ℕ → List ℕ
rest_of [] = []
rest_of (c ∷ cs) = cs

-- `matchChunk`: `some none` is a mismatch, `some (some s)` a match that leaves `s`.
match_chunk : ℕ → Bool → List ℕ → List ℕ → Option (Option (List ℕ))
match_chunk f failed [] s = some (if failed then none else some s)
match_chunk zero failed (c ∷ cs) s = none
match_chunk (suc f) failed (c ∷ cs) s =
    let failed' = failed || is_empty s in
    elim (c == b'[') [
      | true ↦ elim (bracket (suc (length cs)) (head_or 0 s) cs) [
        | none ↦ none
        | some (rest, found) ↦ match_chunk f (failed' || not found) rest (rest_of s)
      ]
      | false ↦ elim (c == b'?') [
        | true ↦ match_chunk f (failed' || head_or 0 s == b'/') cs (rest_of s)
        | false ↦ elim (c == b'\\') [
          | false ↦ match_chunk f (failed' || not (c == head_or 0 s)) cs (rest_of s)
          | true ↦ elim cs [
            | [] ↦ none
            | d ∷ ds ↦ match_chunk f (failed' || not (d == head_or 0 s)) ds (rest_of s)
          ]
        ]
      ]
    ]

abbrev chunk_at : List ℕ → List ℕ → Option (Option (List ℕ))
chunk_at chunk s = match_chunk (suc (length chunk)) false chunk s

-- The positions after a star: those past a `/` are not tried.
skips : List ℕ → Bool → List ℕ → Option (Option (List ℕ))
unfolding match_chunk
skips chunk last [] = some none
skips chunk last (c ∷ cs) =
    let rest = skips chunk last cs in
    if c == b'/' then some none else elim (chunk_at chunk cs) [
      | none ↦ none
      | some none ↦ rest
      | some (some t) ↦ if last && not (is_empty t) then rest else some (some t)
    ]

-- Before a mismatch is reported the rest of the pattern is read for its syntax. A chunk takes at
-- least one character of the pattern, so its length is fuel enough.
check_rest : ℕ → List ℕ → Option Bool
unfolding match_chunk strip_stars split_chunk
check_rest f [] = some false
check_rest zero (c ∷ cs) = some false
check_rest (suc f) (c ∷ cs) =
    let (chunk, rest) = split_chunk false false (strip_stars (c ∷ cs)).1 in
    elim (chunk_at chunk []) [ none ↦ none | some _ ↦ check_rest f rest ]

match_loop : ℕ → List ℕ → List ℕ → Option Bool
unfolding match_chunk strip_stars split_chunk skips check_rest
match_loop f [] name = some (is_empty name)
match_loop zero (c ∷ cs) name = none
match_loop (suc f) (c ∷ cs) name =
    let (star, body) = strip_stars (c ∷ cs) in
    let (chunk, rest) = split_chunk false false body in
    let mismatch : Option Bool = check_rest f rest in
    let retry : Option Bool = elim (skips chunk (is_empty rest) name) [
      | none ↦ none
      | some none ↦ mismatch
      | some (some t) ↦ match_loop f rest t
    ] in
    let failed : Option Bool = if star then retry else mismatch in
    elim (star && is_empty chunk) [
      | true ↦ some (not (any (λ x. x == b'/') name))
      | false ↦ elim (chunk_at chunk name) [
        | none ↦ none
        | some none ↦ failed
        | some (some t) ↦ elim (is_empty t || not (is_empty rest)) [
          | true ↦ match_loop f rest t
          | false ↦ failed
        ]
      ]
    ]

unfoldable pub path_match : String → String → Option Bool
unfolding match_loop ranges
path_match pattern name = match_loop (suc (length (codes pattern))) (codes pattern) (codes name)

dated : path_match "payments-*.dump.gz" "payments-2026-07-08.dump.gz" ≡ some true
unfolding path_match
dated = refl

classes : path_match "a[b-d]?\\*" "acx*" ≡ some true
unfolding path_match
classes = refl

no_slash : path_match "*.gz" "a/b.gz" ≡ some false
unfolding path_match
no_slash = refl

bad_class : path_match "[a" "probe" ≡ none
unfolding path_match
bad_class = refl

bad_tail : path_match "x*[]" "probe" ≡ none
unfolding path_match
bad_tail = refl
