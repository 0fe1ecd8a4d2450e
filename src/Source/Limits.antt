-- ===== src/Source/Limits.antt =====
-- `uncompressedLimit` and `copyLimited` of pkg/source/compress.go. A reader is
-- the bytes that it gives and how it ends.
pub mod Guard
use fire_drill.Base.{
  ℕ, ℤ, pos, negsuc, ◌%◌, ◌+◌, ◌-◌, ◌*◌, ◌^◌, Bool, true, false, not, ◌&&◌, ◌||◌, List, [], ◌∷◌,
  Option, none, some, String, Result, ok, err, length, take, leb, ltb, leb_ℤ, ltb_ℤ, ◌==◌,
  string_eq, nat_eq, if◌then◌else◌,
}

-- An `int64` of a number of 64 bits.
abbrev pub signed : ℕ → ℤ
signed n = if ltb n (2 ^ 63) then pos n else negsuc (2 ^ 64 - 1 - n)

abbrev pub wrap : ℕ → ℤ
wrap n = signed (n % 2 ^ 64)

-- The product of a positive `int64` and 100, and its successor, as the machine computes them.
abbrev pub times_100 : ℤ → ℤ
times_100 (pos n) = wrap (n * 100)
times_100 (negsuc n) = pos 0

abbrev pub plus_1 : ℤ → ℤ
plus_1 (pos n) = wrap (n + 1)
plus_1 (negsuc n) = if n == 0 then pos 0 else negsuc (n - 1)

unfoldable pub uncompressed_limit : ℤ → ℤ → ℤ
uncompressed_limit max_bytes max_uncompressed =
    if ltb_ℤ (pos 0) max_uncompressed
    then max_uncompressed
    else if ltb_ℤ (pos 0) max_bytes
    then times_100 max_bytes
    else pos 0

pub record Stream : Type 0 where
  pub bytes : List ℕ
  pub error : Option String

-- What was written, and the error.
pub data CopyError : Type 0 where
  reading writing : String → CopyError
  exceeds : ℤ → CopyError

pub record Copied : Type 0 where
  pub written : List ℕ
  pub error : Option CopyError

abbrev failed_read : Option String → Option CopyError
failed_read none = none
failed_read (some e) = some (reading e)

-- How many bytes a writer takes before it fails, and with what; none where it does not fail.
abbrev pub Room : Type 0
Room = Option (ℕ × String)

-- `io.Copy`: a failure to write ends it before the reader does.
abbrev pub copy : Room → Stream → Copied
copy none s = record { written = s.bytes; error = failed_read s.error }
copy (some (room, e)) s =
    if ltb room (length s.bytes)
    then record { written = take room s.bytes; error = some (writing e) }
    else record { written = s.bytes; error = failed_read s.error }

-- `io.LimitReader`: the end of the input after that many bytes.
unfoldable pub limit_reader : Stream → ℤ → Stream
limit_reader s (negsuc n) = record { bytes = []; error = none }
limit_reader s (pos n) =
    if leb n (length s.bytes) then record { bytes = take n s.bytes; error = none } else s

abbrev over : ℤ → Copied → Copied
over limit c =
    if ltb_ℤ limit (pos (length c.written)) then record c { error = some (exceeds limit) } else c

abbrev checked : ℤ → Copied → Copied
checked limit c = elim c.error [ some e ↦ c | none ↦ over limit c ]

unfoldable pub copy_limited : Room → Stream → ℤ → Copied
copy_limited room s limit =
    if leb_ℤ limit (pos 0)
    then copy room s
    else checked limit (copy room (limit_reader s (plus_1 limit)))
