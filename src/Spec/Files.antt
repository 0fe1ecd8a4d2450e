-- ===== src/Spec/Files.antt =====
-- `ParseAll`, `Parse` and `FindDrill` of pkg/spec/spec.go. The YAML decoder is not modelled: a file
-- is the list of what the decoder makes of its documents, a drill or an error, up to the end of
-- input. `LoadAll` and `Load` open the file and do the same.
pub mod Accepted
use fire_drill.Base.{
  ℕ, zero, suc, Bool, true, false, ◌||◌, List, [], ◌∷◌, String, ok, err, ◌>>=◌, ◌>>◌, fail_if,
  Result, is_empty, not, any, ◌==◌, string_eq, if◌then◌else◌, map,
}
use fire_drill.Spec.Document.{Drill}
use fire_drill.Spec.Validate.{Problem, validate}

-- The document's number, from 1, with the decoder's error or with the name and the problems.
pub data LoadError : Type 0 where
  parsing : ℕ → String → LoadError
  invalid : ℕ → String → List Problem → LoadError
  duplicate : String → LoadError
  no_documents : LoadError
  not_found : String → List String → LoadError

abbrev pub Document : Type 0
Document = Result String Drill

abbrev pub contains : List String → String → Bool
contains seen name = any (λ s. s == name) seen

-- The loop: the names seen, and how many drills have been read.
unfoldable pub parse_from : List String → ℕ → List Document → Result LoadError (List Drill)
parse_from seen n [] = ok []
parse_from seen n (err e ∷ docs) = err (parsing (suc n) e)
parse_from seen n (ok d ∷ docs) = do
  fail_if (not (is_empty (validate d))) (invalid (suc n) d.metadata.name (validate d))
  fail_if (contains seen d.metadata.name) (duplicate d.metadata.name)
  drills ← parse_from (d.metadata.name ∷ seen) (suc n) docs
  ok (d ∷ drills)

unfoldable pub parse_all : List Document → Result LoadError (List Drill)
parse_all docs = do drills ← parse_from [] 0 docs; fail_if (is_empty drills) no_documents; ok drills

abbrev first : List Drill → Result LoadError Drill
first [] = err no_documents
first (d ∷ ds) = ok d

-- `drills[0]` of a list that `ParseAll` has made sure is not empty.
unfoldable pub parse : List Document → Result LoadError Drill
unfolding parse_all
parse docs = do drills ← parse_all docs; first drills

-- The loop of `FindDrill`: the first drill of that name.
abbrev named : String → List Drill → Result (Unit {0}) Drill
named name [] = err tt
named name (d ∷ ds) = if d.metadata.name == name then ok d else named name ds

unfoldable pub find_drill : List Drill → String → Result LoadError Drill
find_drill drills name = elim (named name drills) [
  | ok d ↦ ok d
  | err _ ↦ err (not_found name (map (λ d. d.metadata.name) drills))
]
