-- ===== src/Examples/Sources.antt =====
-- Discovery and limits of pkg/source on small listings and inputs.
use fire_drill.Base.{
  refl, zero, suc, ap, pos, ◌≤◌, ◌-◌, ◌^◌, ◌≡◌, ◌↔◌, ◌⊎◌, false, List, [], ◌∷◌, Option, none, some,
  String, ok, err, map, length, arith, ℕ,
}
use fire_drill.Spec.Document.{From}
use fire_drill.Source.Select.{
  Entry, Object, no_match, latest_file, latest_object, too_many, max_list_keys,
}
use fire_drill.Source.Select.Qualifies.{IsFile, IsObject}
use fire_drill.Source.Select.Newest.{
  IsNewest, NoneQualifies, objects, latest_file-IsNewest, latest_object-IsNewest,
  latest_object-many,
}
use fire_drill.Source.Limits.{Room, Stream, copy_limited}
use fire_drill.Source.Limits.Guard.{Takes, copy_limited_iff, copy_limited_overflow}
use fire_drill.Examples.Data.{payments}

abbrev pub from : From
from = payments.spec.source.source_from

abbrev entries : List Entry
entries =
    record { name = "a.dump"; is_dir = false; info = some (record { size = pos 4; mod_time = 1 }) }
    ∷ record {
      name = "b.dump";
      is_dir = false;
      info = some (record { size = pos 4; mod_time = 7 });
    }
    ∷ record { name = "c.log"; is_dir = false; info = some (record { size = pos 4; mod_time = 9 }) }
    ∷ []

latest_file-IsNewest_example :
    ((name : String) × (latest_file from (ok entries) ≡ ok name)
      × IsNewest (IsFile "*.dump") entries name)
    ⊎ ((latest_file from (ok entries) ≡ err (no_match "backups/payments.dump" "*.dump"))
        × NoneQualifies (IsFile "*.dump") entries)
latest_file-IsNewest_example = latest_file-IsNewest from entries

abbrev pages : List (List Object)
pages =
    (record { key = "nightly/"; size = pos 0; last_modified = 9 } ∷ [])
    ∷ (record { key = "nightly/a.dump"; size = pos 5; last_modified = 3 } ∷ [])
    ∷ []

latest_object-IsNewest_example :
    ((key : String) × (latest_object "s3://b/nightly" "*.dump" (map ok pages) ≡ ok key)
      × IsNewest (IsObject "*.dump") (objects pages) key)
    ⊎ ((latest_object "s3://b/nightly" "*.dump" (map ok pages)
          ≡ err (no_match "s3://b/nightly" "*.dump"))
        × NoneQualifies (IsObject "*.dump") (objects pages))
latest_object-IsNewest_example =
    latest_object-IsNewest "s3://b/nightly" "*.dump" pages (omega arith)

abbrev none_read : Option String
none_read = none

abbrev input : Stream
input = record { bytes = 1 ∷ 2 ∷ 3 ∷ []; error = none }

abbrev space : Room
space = some (100, "no space left on device")

copy_limited_iff_example :
    (((copy_limited space input (pos 2)).error ≡ none)
      ↔ ((none_read ≡ none) × (3 ≤ 2) × Takes space 3))
    × ((copy_limited space input (pos 2)).error ≡ none
        → (copy_limited space input (pos 2)).written ≡ input.bytes)
    × (length (copy_limited space input (pos 2)).written ≤ 3)
copy_limited_iff_example = copy_limited_iff space input 2 (omega arith) (omega arith)

copy_limited_overflow_example :
    copy_limited space input (pos (2 ^ 63 - 1)) ≡ record { written = []; error = none }
copy_limited_overflow_example = copy_limited_overflow space input

abbrev repeated : ℕ → List Object
repeated zero = []
repeated (suc n) = record { key = "log"; size = pos 1; last_modified = 1 } ∷ repeated n

length-repeated : (n : ℕ) → length (objects (repeated n ∷ [])) ≡ n
length-repeated zero = refl
length-repeated (suc n) = ap suc (length-repeated n)

latest_object-many_example :
    latest_object "s3://b/logs" "" (map ok (repeated 10001 ∷ [])) ≡ err (too_many max_list_keys)
latest_object-many_example =
    latest_object-many "s3://b/logs" "" (repeated 10001 ∷ [])
      (rw (length-repeated 10001) (omega arith))
