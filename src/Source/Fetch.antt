-- ===== src/Source/Fetch.antt =====
-- `fetchFile`, `spool`, `plainExt`, `parseS3URI` and `Layers` of pkg/source/source.go. The file
-- system is a record of what it answers; a temporary file is a name with what was written to it.
pub mod Spooled
pub mod Honest
use fire_drill.Base.{
  ℕ, ℤ, pos, ◌-◌, ◌*◌, ◌∷◌, [], List, ok, err, Result, Bool, true, false, not, ◌&&◌, ◌||◌, ◌!=◌,
  ◌==◌, nat_eq, string_eq, arith, ◌>>=◌, ◌>>◌, fail_if, if◌then◌else◌, none, some, String, Option,
  ltb_ℤ, length,
}
use Prim.Native.Char.{code}
use Prim.Native.String.{◌++◌ as cat}
use fire_drill.Spec.Document.{From}
use fire_drill.Std.Path.{base}
use fire_drill.Source.Backup.{Backup}
use fire_drill.Source.Select.{Entry, SelectError, latest_file}
use fire_drill.Source.Limits.{Room, Stream, CopyError, Copied, uncompressed_limit, copy_limited}
use fire_drill.Source.Layers.{Decoders, LayerError, wrap, decrypt, decompress}

abbrev also : String → String → String
also a b = if b == "" then a else if a == "" then b else cat a (cat ", " b)

-- `(*Backup).Layers`
unfoldable pub layers : Backup → String
layers b = also b.encryption b.compression

-- `path.Ext` of a text without slashes, if it has a dot, and what comes before it.
abbrev pub ext_of : String → Option String
ext_of String.[] = none
ext_of (String.◌∷◌ c s) = elim (ext_of s) [
  | some e ↦ some e
  | none ↦ if code c == b'.' then some (String.◌∷◌ c s) else none
]

abbrev pub ext : String → String
ext s = elim (ext_of s) [ none ↦ "" | some e ↦ e ]

abbrev pub before_ext : String → String
before_ext String.[] = ""
before_ext (String.◌∷◌ c s) =
    let rest = before_ext s in
    elim (ext_of s) [
      | some e ↦ String.◌∷◌ c rest
      | none ↦ if code c == b'.' then "" else String.◌∷◌ c rest
    ]

abbrev is_compressed_ext : String → Bool
is_compressed_ext e = e == ".gz" || e == ".zst" || e == ".zstd" || e == ".bz2"

-- `plainExt`
unfoldable pub plain_ext : String → String
plain_ext name =
    let b = base name in if is_compressed_ext (ext b) then ext (before_ext b) else ext b

-- What follows a text's prefix, and a text around its first slash.
abbrev pub cut_prefix : String → String → Option String
cut_prefix s String.[] = some s
cut_prefix String.[] (String.◌∷◌ p ps) = none
cut_prefix (String.◌∷◌ c s) (String.◌∷◌ p ps) =
    let rest = cut_prefix s ps in if code c == code p then rest else none

abbrev pub cut_slash : String → String × Option String
cut_slash String.[] = ("", none)
cut_slash (String.◌∷◌ c s) =
    let (before, after) = cut_slash s in
    if code c == b'/' then ("", some s) else (String.◌∷◌ c before, after)

abbrev is_missing_key : Option String → Bool
is_missing_key none = true
is_missing_key (some key) = key == ""

abbrev key_of : Option String → String
key_of none = ""
key_of (some key) = key

pub data UriError : Type 0 where
  no_scheme invalid_uri : String → UriError

abbrev bucket_and_key : String → Bool → Option String → Result UriError (String × String)
bucket_and_key uri allow_empty none = err (no_scheme uri)
bucket_and_key uri allow_empty (some rest) =
    let (bucket, key) = cut_slash rest in
    if bucket == "" || (not allow_empty && is_missing_key key)
    then err (invalid_uri uri)
    else ok (bucket, key_of key)

-- `parseS3URI`
unfoldable pub parse_s3_uri : String → Bool → Result UriError (String × String)
parse_s3_uri uri allow_empty = bucket_and_key uri allow_empty (cut_prefix uri "s3://")

pub record FileInfo : Type 0 where
  pub mod_time : ℕ
  pub size : ℤ
  pub is_dir : Bool

-- The files of the machine; `join` is `filepath.Join`, and `create_temp` names a file for a pattern,
-- and `room` is what may be written to it.
pub record Host : Type 0 where
  pub decoders : Decoders
  pub list_directory : Result String (List Entry)
  pub join : String → String → String
  pub stat : String → Result String FileInfo
  pub open_backup : String → Result String Stream
  pub create_temp : String → Result String String
  pub room : Room
  pub close_temp : Option String
  pub remove_temp : Option String

pub data FetchError : Type 0 where
  selecting : SelectError → FetchError
  no_file is_a_directory opening : String → FetchError
  too_large : ℤ → ℤ → FetchError
  unreadable : String → LayerError → FetchError
  creating_temp closing_temp : String → FetchError
  copying : CopyError → FetchError

abbrev of_layer : {A : Type 0} → String → Result LayerError A → Result FetchError A
of_layer p (ok a) = ok a
of_layer p (err e) = err (unreadable p e)

abbrev selected : Host → String → Result SelectError String → Result FetchError String
selected h directory (ok name) = ok (h.join directory name)
selected h directory (err e) = err (selecting e)

abbrev location : Host → From → Result FetchError String
location h from =
    if from.select != ""
    then selected h from.uri (latest_file from h.list_directory)
    else ok from.uri

-- An artifact that was opened, with its layers undone.
pub record Opened : Type 0 where
  pub path : String
  pub info : FileInfo
  pub stored : Stream
  pub encryption : String
  pub compression : String
  pub contents : Stream

unfoldable pub open_artifact : Host → From → Result FetchError Opened
open_artifact h from = do
  p ← location h from
  info ← wrap (h.stat p) no_file
  fail_if info.is_dir (is_a_directory p)
  fail_if (ltb_ℤ (pos 0) from.max_bytes && ltb_ℤ from.max_bytes info.size)
      (too_large info.size from.max_bytes)
  stored ← wrap (h.open_backup p) opening
  plain ← of_layer p (decrypt h.decoders stored from.decrypt)
  whole ← of_layer p (decompress h.decoders plain.contents)
  ok (record {
    path = p;
    info = info;
    stored = stored;
    encryption = plain.name;
    compression = whole.name;
    contents = whole.contents;
  })

-- A result, and the temporary file that is left, with its contents.
pub record Kept (A : Type 0) : Type 0 where
  pub result : Result FetchError A
  pub left : Option (String × List ℕ)

abbrev nothing_left : {A : Type 0} → FetchError → Kept A
nothing_left e = record { result = err e; left = none }

-- The temporary file is removed, where that is possible.
abbrev pub discarded : Host → String → Copied → FetchError → Kept (String × List ℕ)
discarded h name c e = record {
  result = err e;
  left = elim h.remove_temp [ none ↦ none | some x ↦ some (name, c.written) ];
}

abbrev pub closed : Host → String → Copied → Kept (String × List ℕ)
closed h name c = elim c.error [
  | some e ↦ discarded h name c (copying e)
  | none ↦ elim h.close_temp [
    | some e ↦ discarded h name c (closing_temp e)
    | none ↦ record { result = ok (name, c.written); left = some (name, c.written) }
  ]
]

abbrev created : Host → Result String String → Stream → ℤ → Kept (String × List ℕ)
created h (err e) s limit = nothing_left (creating_temp e)
created h (ok name) s limit = closed h name (copy_limited h.room s limit)

-- `spool`
unfoldable pub spool : Host → Stream → String → ℤ → Kept (String × List ℕ)
spool h s pattern limit = created h (h.create_temp pattern) s limit

abbrev pub direct_backup : Opened → Backup
direct_backup o = record {
  path = o.path;
  mod_time = o.info.mod_time;
  size = o.info.size;
  resolved_uri = o.path;
  encryption = o.encryption;
  compression = o.compression;
  uncompressed_bytes = pos 0;
  temporary = false;
}

abbrev pub spooled_backup : Opened → String × List ℕ → Backup
spooled_backup o (name, written) = record (direct_backup o) {
  path = name;
  uncompressed_bytes = if o.compression != "" then pos (length written) else pos 0;
  temporary = true;
}

abbrev pub of_spool : Opened → Result FetchError (String × List ℕ) → Result FetchError Backup
of_spool o (ok written) = ok (spooled_backup o written)
of_spool o (err e) = err e

abbrev pub is_plain : Opened → Bool
is_plain o = o.compression == "" && o.encryption == ""

unfoldable pub materialize : Host → From → Opened → Kept Backup
materialize h from o =
    if is_plain o
    then record { result = ok (direct_backup o); left = none }
    else (let k =
          spool h o.contents (cat "firedrill-backup-*" (plain_ext o.path))
            (uncompressed_limit from.max_bytes from.max_uncompressed_bytes) in
        record { result = of_spool o k.result; left = k.left })

abbrev fetched : Host → From → Result FetchError Opened → Kept Backup
fetched h from (err e) = nothing_left e
fetched h from (ok o) = materialize h from o

-- `fetchFile`
unfoldable pub fetch_file : Host → From → Kept Backup
fetch_file h from = fetched h from (open_artifact h from)
