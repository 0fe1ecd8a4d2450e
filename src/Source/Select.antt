-- ===== src/Source/Select.antt =====
-- `globMatch`, `latestFile` and `latestObject` of pkg/source/source.go. A directory and a bucket are
-- what their listings answer; every listed object has a key and a date.
pub mod Qualifies
pub mod Newest
use fire_drill.Base.{
  nat_eq, negsuc, ℕ, suc, ℤ, pos, Bool, true, false, not, ◌&&◌, ◌||◌, List, [], ◌∷◌, Option, none,
  some, String, Result, ok, err, ◌>>=◌, ltb, ◌==◌, string_eq, if◌then◌else◌, negsuc,
}
use fire_drill.Spec.Document.{From}
use fire_drill.Std.Glob.{path_match}
use fire_drill.Std.Path.{base, ends_in_slash}

-- Its messages: nothing was found, under a location and for a glob.
pub data SelectError : Type 0 where
  listing_directory listing_objects : String → SelectError
  too_many : ℕ → SelectError
  no_match : String → String → SelectError

abbrev matched : Option Bool → Bool
matched none = false
matched (some b) = b

unfoldable pub glob_match : String → String → Bool
glob_match glob name = if glob == "" then true else matched (path_match glob name)

-- Size and modification time of an entry.
pub record Info : Type 0 where
  pub size : ℤ
  pub mod_time : ℕ

pub record Entry : Type 0 where
  pub name : String
  pub is_dir : Bool
  pub info : Option Info

-- A candidate with its date.
pub record Dated : Type 0 where
  pub name : String
  pub date : ℕ

abbrev is_zero : ℤ → Bool
is_zero (pos n) = n == 0
is_zero (negsuc n) = false

abbrev sized : String → Option Info → Option Dated
sized name none = none
sized name (some i) =
    if is_zero i.size then none else some (record { name = name; date = i.mod_time })

-- The conditions under which an entry is not passed over.
unfoldable pub file_candidate : String → Entry → Option Dated
file_candidate glob e =
    if e.is_dir || not (glob_match glob e.name) then none else sized e.name e.info

-- The newer of the best so far and a candidate; the earlier of two that are as new.
abbrev pub newer_of : Option Dated → Option Dated → Option Dated
newer_of best none = best
newer_of none (some c) = some c
newer_of (some b) (some c) = if ltb b.date c.date then some c else some b

unfoldable pub newest_file : String → Option Dated → List Entry → Option Dated
newest_file glob best [] = best
newest_file glob best (e ∷ es) = newest_file glob (newer_of best (file_candidate glob e)) es

abbrev chosen : String → String → Option Dated → Result SelectError String
chosen location glob none = err (no_match location glob)
chosen location glob (some c) = ok c.name

-- The name of the entry: the source joins it to the directory.
unfoldable pub latest_file : From → Result String (List Entry) → Result SelectError String
latest_file f (err e) = err (listing_directory e)
latest_file f (ok es) = chosen f.uri f.match (newest_file f.match none es)

pub record Object : Type 0 where
  pub key : String
  pub size : ℤ
  pub last_modified : ℕ

abbrev pub max_list_keys : ℕ
max_list_keys = 10000

unfoldable pub object_candidate : String → Object → Option Dated
object_candidate glob o =
    if ends_in_slash o.key || is_zero o.size
    then none
    else if glob_match glob (base o.key)
    then some (record { name = o.key; date = o.last_modified })
    else none

-- The loop over one page: how many objects were seen, and the best of them.
unfoldable pub newest_object :
    String → ℕ → Option Dated → List Object → Result SelectError (ℕ × Option Dated)
newest_object glob seen best [] = ok (seen, best)
newest_object glob seen best (o ∷ os) =
    let rest = newest_object glob (suc seen) (newer_of best (object_candidate glob o)) os in
    if ltb max_list_keys (suc seen) then err (too_many max_list_keys) else rest

unfoldable pub newest_paged :
    String
    → ℕ
    → Option Dated
    → List (Result String (List Object))
    → Result SelectError (Option Dated)
newest_paged glob seen best [] = ok best
newest_paged glob seen best (err e ∷ pages) = err (listing_objects e)
newest_paged glob seen best (ok os ∷ pages) = do
  (seen, best) ← newest_object glob seen best os
  newest_paged glob seen best pages

unfoldable pub latest_object :
    String → String → List (Result String (List Object)) → Result SelectError String
latest_object location glob pages = do
  best ← newest_paged glob 0 none pages
  chosen location glob best
