-- ===== src/Examples/Buffers.antt =====
-- The limited buffer of pkg/sandbox on three writes.
use fire_drill.Base.{ℕ, ◌≡◌, List, [], ◌∷◌}
use fire_drill.Sandbox.Buffer.{write_all, empty, write_all-take}

abbrev writes : List (List ℕ)
writes = (1 ∷ 2 ∷ []) ∷ (3 ∷ 4 ∷ 5 ∷ []) ∷ (6 ∷ []) ∷ []

write_all-take_example :
    ((write_all (empty 4) writes).0.buf ≡ 1 ∷ 2 ∷ 3 ∷ 4 ∷ [])
    × ((write_all (empty 4) writes).1 ≡ 2 ∷ 3 ∷ 1 ∷ [])
write_all-take_example = write_all-take 4 writes
