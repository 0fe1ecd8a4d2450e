-- ===== src/Source/Limits/Guard.antt =====
-- The guard against artifacts that expand without end.
use fire_drill.Base.{
  ℕ, pos, ◌%◌, ◌+◌, ◌-◌, ◌^◌, ◌≤◌, ◌<◌, ◌≡◌, refl, ◌↔◌, [], none, length, arith, length-take,
}
use fire_drill.Base.{ltb, some, take, false}
use fire_drill.Source.Limits.{Room, wrap, Stream, limit_reader, copy_limited}

wrap_small : (n : ℕ) → n < 2 ^ 63 → wrap n ≡ pos n
wrap_small n h = let same : n % 2 ^ 64 ≡ n = omega arith in rw same (ground arith)

-- The writer takes so many bytes.
abbrev pub Takes : Room → ℕ → Type 0
Takes none n = Unit
Takes (some (room, e)) n = n ≤ room

-- Under a limit that is not the largest integer, copying succeeds exactly when the input ends without
-- an error and within the limit, and the writer takes all of it; then all of it was written; and never
-- is more than one byte over the limit written.
pub copy_limited_iff :
    (room : Room) (s : Stream) (n : ℕ)
    → 0 < n
    → n + 1 < 2 ^ 63
    → (((copy_limited room s (pos n)).error ≡ none)
        ↔ ((s.error ≡ none) × (length s.bytes ≤ n) × Takes room (length s.bytes)))
      × ((copy_limited room s (pos n)).error ≡ none
          → (copy_limited room s (pos n)).written ≡ s.bytes)
      × (length (copy_limited room s (pos n)).written ≤ n + 1)
unfolding copy_limited limit_reader
copy_limited_iff none s n h k =
    let w = wrap_small (n + 1) k in
    let t = length-take (n + 1) s.bytes in
    (
      rw w (λ e. ground (arith, t), λ e. ground (arith, t)),
      rw w (λ e. ground (arith, t)),
      rw w (ground (arith, t)),
    )
copy_limited_iff (some (room, x)) s n h k =
    let w = wrap_small (n + 1) k in
    let t = length-take (n + 1) s.bytes in
    let u = length-take room s.bytes in
    let v = length-take room (take (n + 1) s.bytes) in
    (
      rw w (λ e. ground (arith, t, u, v), λ e. ground (arith, t, u, v)),
      rw w (λ e. ground (arith, t, u, v)),
      rw w (ground (arith, t, u, v)),
    )

-- A limit that is the largest integer overflows: nothing of any input is read, and the copy succeeds,
-- whatever the writer.
pub copy_limited_overflow :
    (room : Room) (s : Stream)
    → copy_limited room s (pos (2 ^ 63 - 1)) ≡ record { written = []; error = none }
unfolding copy_limited limit_reader
copy_limited_overflow none s = refl
copy_limited_overflow (some (room, e)) s =
    let enough : ltb room 0 ≡ false = ground arith in rw enough refl
