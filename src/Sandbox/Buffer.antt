-- ===== src/Sandbox/Buffer.antt =====
-- `LimitedBuffer` of pkg/sandbox/buffer.go; `Max` is not negative.
use fire_drill.Base.{
  ℕ, zero, suc, ◌-◌, ◌*◌, ◌≡◌, refl, sym, ap, ◌∙◌, Bool, true, false, List, [], ◌∷◌, ◌++◌, length,
  take, ltb, arith, if◌then◌else◌, append_assoc, append-nil, length-take, map, Bool-cases, inl, inr,
  take-all, take-append, subst,
}

abbrev pub max_exec_output : ℕ
max_exec_output = 4 * 1048576

pub record LimitedBuffer : Type 0 where
  pub buf : List ℕ
  pub max : ℕ

-- What is kept of the text when `remaining` bytes are free.
abbrev kept : ℕ → List ℕ → List ℕ
kept remaining p = if ltb remaining (length p) then take remaining p else p

-- `Write`, with the count that it reports.
unfoldable pub write : LimitedBuffer → List ℕ → LimitedBuffer × ℕ
write l p =
    let remaining = l.max - length l.buf in
    (if ltb 0 remaining then record l { buf = l.buf ++ kept remaining p } else l, length p)

-- The writes of a command: the buffer at the end, and the counts reported.
unfoldable pub write_all : LimitedBuffer → List (List ℕ) → LimitedBuffer × List ℕ
write_all l [] = (l, [])
write_all l (p ∷ ps) = let (m, n) = write l p in let (e, ns) = write_all m ps in (e, n ∷ ns)

abbrev pub concat : List (List ℕ) → List ℕ
concat [] = []
concat (p ∷ ps) = p ++ concat ps

kept-take : (m : ℕ) (p : List ℕ) → kept m p ≡ take m p
kept-take m p = elim (Bool-cases (ltb m (length p))) [
  | inl more ↦ rw more refl
  | inr fits ↦ rw fits (sym (take-all m p (ground arith)))
]

-- A buffer that keeps the first bytes of what was written.
abbrev KeepsFirst : LimitedBuffer → List ℕ → Type 0
KeepsFirst l written = l.buf ≡ take l.max written

write-KeepsFirst :
    (l : LimitedBuffer) (written p : List ℕ)
    → KeepsFirst l written
    → KeepsFirst (write l p).0 (written ++ p)
unfolding write
write-KeepsFirst l written p h =
    let size : length l.buf ≡ length (take l.max written) = ap length h in
    let free : l.max - length l.buf ≡ l.max - length written =
      omega (arith, size, length-take l.max written) in
    let goal = sym (take-append l.max written p) in
    keep_or_not (ltb 0 (l.max - length l.buf)) l written p h free refl goal
  where
    keep_or_not :
        (b : Bool) (l : LimitedBuffer) (written p : List ℕ)
        → KeepsFirst l written
        → l.max - length l.buf ≡ l.max - length written
        → ltb 0 (l.max - length l.buf) ≡ b
        → take l.max written ++ take (l.max - length written) p ≡ take l.max (written ++ p)
        → KeepsFirst
            (if b then record l { buf = l.buf ++ kept (l.max - length l.buf) p } else l)
            (written ++ p)
    keep_or_not true l written p h free e goal =
        ap (λ xs. xs ++ kept (l.max - length l.buf) p) h
        ∙ (ap (λ xs. take l.max written ++ xs) (kept-take (l.max - length l.buf) p)
            ∙ (rw free goal))
    keep_or_not false l written p h free e goal =
        let full : l.max - length written ≡ 0 = ground arith in
        let nothing_free =
          subst (λ n. take l.max written ++ take n p ≡ take l.max (written ++ p)) full goal in
        h ∙ (sym (append-nil (take l.max written)) ∙ nothing_free)

write-max : (l : LimitedBuffer) (p : List ℕ) → (write l p).0.max ≡ l.max
unfolding write
write-max l p = ground arith

write_all-from :
    (l : LimitedBuffer) (written : List ℕ) (ps : List (List ℕ))
    → KeepsFirst l written
    → ((write_all l ps).0.buf ≡ take l.max (written ++ concat ps))
      × ((write_all l ps).1 ≡ map length ps)
unfolding write_all write
write_all-from l written [] h = (rw (append-nil written) h, refl)
write_all-from l written (p ∷ ps) h =
    let (m, n) = write l p in
    let (buf, counts) =
      write_all-from (write l p).0 (written ++ p) ps (write-KeepsFirst l written p h) in
    (
      buf
          ∙ (ap (λ x. take (write l p).0.max x) (append_assoc written p (concat ps))
              ∙ ap (λ k. take k (written ++ (p ++ concat ps))) (write-max l p)),
      ap (λ ns. length p ∷ ns) counts,
    )

take-nil : (n : ℕ) → ◌≡◌ {A = List ℕ} [] (take n [])
take-nil zero = refl
take-nil (suc n) = refl

abbrev pub empty : ℕ → LimitedBuffer
empty max = record { buf = []; max = max }

-- A limited buffer that starts empty keeps the first bytes of all that is written, up to its limit,
-- and reports every write as a full one.
pub write_all-take :
    (max : ℕ) (ps : List (List ℕ))
    → ((write_all (empty max) ps).0.buf ≡ take max (concat ps))
      × ((write_all (empty max) ps).1 ≡ map length ps)
write_all-take max ps = write_all-from (empty max) [] ps (take-nil max)
