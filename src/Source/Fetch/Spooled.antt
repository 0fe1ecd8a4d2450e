-- ===== src/Source/Fetch/Spooled.antt =====
-- What the spooling of an artifact leaves.
use fire_drill.Base.{
  ◌⊎◌, ◌≢◌, inl, inr, Bool-cases, if_true, if_false, ltb, length, take, ℕ, zero, suc, ℤ, pos, ◌+◌,
  ◌<◌, ◌≡◌, refl, ap, sym, ◌∙◌, List, ok, err, Result, nat_eq, string_eq, arith, none, some, String,
  Option,
}
use fire_drill.Base.{◌^◌}
use fire_drill.Source.Limits.{Copied, Room, writing, Stream, CopyError, copy_limited, copy}
use fire_drill.Source.Limits.Guard.{copy_limited_iff}
use fire_drill.Source.Fetch.{
  discarded, copying, closing_temp, Host, FetchError, Kept, closed, created, spool,
}

-- A guard that does not overflow; none is 0.
abbrev pub IsGuard : ℤ → Type 0
IsGuard limit = (n : ℕ) × (limit ≡ pos n) × (n + 1 < 2 ^ 63)

-- No temporary file stays, or it could not be removed.
abbrev pub IsDiscarded : Host → Option (String × List ℕ) → Type 0
IsDiscarded h left = (left ≡ none) ⊎ (h.remove_temp ≢ none)

-- The spooled file has what the stream gives, all of it, and is discarded otherwise.
abbrev pub Spools : Host → Stream → Kept (String × List ℕ) → Type 0
Spools h s k =
    ((e : FetchError) → k.result ≡ err e → IsDiscarded h k.left)
    × ((w : String × List ℕ)
        → k.result ≡ ok w
        → (k.left ≡ some w) × (w.1 ≡ s.bytes) × (s.error ≡ none))

read_error :
    (bytes : List ℕ) (e : Option String)
    → (copy none (record { bytes = bytes; error = e })).error ≡ none
    → e ≡ none
read_error bytes none h = refl
read_error bytes (some e) h = cc

copied-error :
    (room : Room) (bytes : List ℕ) (e : Option String)
    → (copy room (record { bytes = bytes; error = e })).error ≡ none
    → ((copy room (record { bytes = bytes; error = e })).written ≡ bytes) × (e ≡ none)
copied-error none bytes e h = (refl, read_error bytes e h)
copied-error (some (n, x)) bytes e h = elim (Bool-cases (ltb n (length bytes))) [
  | inl over ↦
      let full =
        ap (λ c. c.error)
          (if_true (ltb n (length bytes))
            (record { written = take n bytes; error = some (writing x) })
            (copy none (record { bytes = bytes; error = e })) over) in
      let no = sym full ∙ h in cc
  | inr fits ↦
      let same =
        if_false (ltb n (length bytes))
          (record { written = take n bytes; error = some (writing x) })
          (copy none (record { bytes = bytes; error = e })) fits in
      (ap (λ c. c.written) same, read_error bytes e (sym (ap (λ c. c.error) same) ∙ h))
]

copy_limited-whole :
    (room : Room) (s : Stream) (limit : ℤ)
    → IsGuard limit
    → (copy_limited room s limit).error ≡ none
    → ((copy_limited room s limit).written ≡ s.bytes) × (s.error ≡ none)
unfolding copy_limited
copy_limited-whole room s limit (zero, e, b) h =
    let same : copy_limited room s limit ≡ copy room s = ap (copy_limited room s) e in
    let (w, ended) = copied-error room s.bytes s.error (sym (ap (λ c. c.error) same) ∙ h) in
    (ap (λ c. c.written) same ∙ w, ended)
copy_limited-whole room s limit (suc n, e, b) h =
    let same : copy_limited room s limit ≡ copy_limited room s (pos (suc n)) =
      ap (copy_limited room s) e in
    let fits = sym (ap (λ c. c.error) same) ∙ h in
    let (i, w, _) = copy_limited_iff room s (suc n) (ground arith) b in
    (ap (λ c. c.written) same ∙ w fits, (i.0 fits).0)

kept-IsDiscarded :
    (h : Host) (r : Option String) (w : String × List ℕ)
    → h.remove_temp ≡ r
    → IsDiscarded h (elim r [ none ↦ none | some x ↦ some w ])
kept-IsDiscarded h none w e = inl refl
kept-IsDiscarded h (some x) w e = inr λ n. let no : some x ≡ none = sym e ∙ n in cc

discarded-Spools :
    (h : Host) (s : Stream) (name : String) (c : Copied) (e : FetchError)
    → Spools h s (discarded h name c e)
discarded-Spools h s name c e =
    (λ x k. kept-IsDiscarded h h.remove_temp (name, c.written) refl, λ v k. cc)

closed_at :
    (h : Host) (s : Stream) (name : String) (c : Copied) (e : Option CopyError)
    (close : Option String)
    → c.error ≡ e
    → h.close_temp ≡ close
    → (c.error ≡ none → (c.written ≡ s.bytes) × (s.error ≡ none))
    → Spools h s (closed h name c)
closed_at h s name c (some x) close q r w = rw q (discarded-Spools h s name c (copying x))
closed_at h s name c none (some x) q r w =
    rw q (rw r (discarded-Spools h s name c (closing_temp x)))
closed_at h s name c none none q r w = rw q (
    rw r (
      λ e k. cc,
      λ v k.
          let same : (name, c.written) ≡ v = cc in
          (ap some same, ap (λ x. x.1) (sym same) ∙ (w q).0, (w q).1),
    ))

Spools-created :
    (h : Host) (r : Result String String) (s : Stream) (limit : ℤ)
    → IsGuard limit
    → Spools h s (created h r s limit)
Spools-created h (err e) s limit g = (λ x k. inl refl, λ v k. cc)
Spools-created h (ok name) s limit g =
    let c = copy_limited h.room s limit in
    closed_at h s name c c.error h.close_temp refl refl (copy_limited-whole h.room s limit g)

pub Spools-spool :
    (h : Host) (s : Stream) (pattern : String) (limit : ℤ)
    → IsGuard limit
    → Spools h s (spool h s pattern limit)
unfolding spool
Spools-spool h s pattern limit g = Spools-created h (h.create_temp pattern) s limit g
