-- ===== src/Source/Fetch/Honest.antt =====
-- What a fetch from the file system makes of the backup.
use fire_drill.Base.{
  ℕ, pos, ◌≡◌, refl, ap, sym, subst, ◌∙◌, List, ◌⊎◌, inl, inr, ok, err, Result, Bool, true, false,
  ◌&&◌, ◌==◌, nat_eq, string_eq, fail_if, >>=-eq-ok, if_false, if_true, Bool-cases, Result-cases,
  eq_iff, none, some, String, Option, ltb_ℤ,
}
use Prim.Native.String.{◌++◌ as cat}
use fire_drill.Spec.Document.{From, Decrypt}
use fire_drill.Source.Backup.{Backup}
use fire_drill.Source.Limits.{Stream, uncompressed_limit}
use fire_drill.Source.Layers.{LayerError, wrap, Layer, decrypt, decompress}
use fire_drill.Source.Layers.Undone.{Decrypts, Expands, decrypt-Decrypts, decompress-Expands}
use fire_drill.Source.Fetch.Spooled.{IsGuard, IsDiscarded, Spools, Spools-spool}
use fire_drill.Source.Fetch.{
  Host, FetchError, Opened, open_artifact, Kept, spool, direct_backup, spooled_backup, is_plain,
  materialize, of_spool, fetched, fetch_file, FileInfo, of_layer, location, no_file, opening,
  plain_ext, is_a_directory, too_large,
}

-- How the layers of an artifact were undone: the stored bytes were decrypted by the decrypt block,
-- and what that gave was decompressed.
abbrev pub IsUndone : Host → Opened → Option Decrypt → Type 0
IsUndone h o cfg =
    (plain : Layer) × Decrypts h.decoders o.stored cfg plain
    × (o.encryption ≡ plain.name)
    × Expands h.decoders plain.contents (record { contents = o.contents; name = o.compression })

of_layer-ok :
    {A : Type 0} (p : String) (r : Result LayerError A) {a : A} → of_layer p r ≡ ok a → r ≡ ok a
of_layer-ok p (ok x) h = cc
of_layer-ok p (err e) h = cc

abbrev opened_with : String → FileInfo → Stream → Layer → Layer → Opened
opened_with p info stored plain whole = record {
  path = p;
  info = info;
  stored = stored;
  encryption = plain.name;
  compression = whole.name;
  contents = whole.contents;
}

IsUndone-layers :
    (h : Host) (cfg : Option Decrypt) (p : String) (info : FileInfo) (stored : Stream)
    (plain whole : Layer)
    → decrypt h.decoders stored cfg ≡ ok plain
    → decompress h.decoders plain.contents ≡ ok whole
    → IsUndone h (opened_with p info stored plain whole) cfg
IsUndone-layers h cfg p info stored plain whole d u = (
  plain,
  decrypt-Decrypts h.decoders stored cfg d,
  refl,
  decompress-Expands h.decoders plain.contents u,
)

abbrev accepted : {A : Type 0} → A → Result FetchError A
accepted a = ok a

accepted_injective : {A : Type 0} {a b : A} → accepted a ≡ accepted b → a ≡ b
accepted_injective h = cc

open_artifact-IsUndone :
    (h : Host) (from : From) {o : Opened} → open_artifact h from ≡ ok o → IsUndone h o from.decrypt
unfolding open_artifact
open_artifact-IsUndone h from {o} e =
    let (p, e0, e1) = >>=-eq-ok (location h from) _ e in
    let (info, e2, e3) = >>=-eq-ok (wrap (h.stat p) no_file) _ e1 in
    let (_, e4, e5) = >>=-eq-ok (fail_if info.is_dir (is_a_directory p)) _ e3 in
    let (_, e6, e7) =
      >>=-eq-ok
        (fail_if (ltb_ℤ (pos 0) from.max_bytes && ltb_ℤ from.max_bytes info.size)
          (too_large info.size from.max_bytes))
        _ e5 in
    let (stored, e8, e9) = >>=-eq-ok (wrap (h.open_backup p) opening) _ e7 in
    let (plain, d, r) = >>=-eq-ok (of_layer p (decrypt h.decoders stored from.decrypt)) _ e9 in
    let (whole, u, l) = >>=-eq-ok (of_layer p (decompress h.decoders plain.contents)) _ r in
    let same : opened_with p info stored plain whole ≡ o = accepted_injective l in
    subst (λ x. IsUndone h x from.decrypt) same
      (IsUndone-layers h from.decrypt p info stored plain whole (of_layer-ok p _ d)
        (of_layer-ok p _ u))

-- What a backup is to the artifact: the stored file itself, or a temporary file with all of the
-- artifact's contents.
abbrev pub Stands : Opened → Backup → Option (String × List ℕ) → Type 0
Stands o b left =
    (b.resolved_uri ≡ o.path)
    × (b.size ≡ o.info.size)
    × (b.mod_time ≡ o.info.mod_time)
    × (b.encryption ≡ o.encryption)
    × (b.compression ≡ o.compression)
    × (((o.encryption ≡ "")
          × (o.compression ≡ "")
          × (b.temporary ≡ false)
          × (b.path ≡ o.path)
          × (left ≡ none))
        ⊎ ((b.temporary ≡ true)
            × (left ≡ some (b.path, o.contents.bytes))
            × (o.contents.error ≡ none)))

abbrev Answers : Host → From → Opened → Kept Backup → Type 0
Answers h from o k =
    ((e : FetchError) → k.result ≡ err e → IsDiscarded h k.left)
    × ((b : Backup) → k.result ≡ ok b → Stands o b k.left)

of_spool-Answers :
    (h : Host) (from : From) (o : Opened) (r : Result FetchError (String × List ℕ))
    (left : Option (String × List ℕ))
    → Spools h o.contents (record { result = r; left = left })
    → Answers h from o (record { result = of_spool o r; left = left })
of_spool-Answers h from o (err x) left (n, w) = (λ e k. n x refl, λ b k. cc)
of_spool-Answers h from o (ok (name, written)) left (n, w) = (
  λ e k. cc,
  λ b k.
      let same : spooled_backup o (name, written) ≡ b = cc in
      let (kept, whole, ended) = w (name, written) refl in
      subst (λ x. Stands o x left) same
        (refl, refl, refl, refl, refl, inr (refl, kept ∙ ap (λ x. some (name, x)) whole, ended)),
)

direct_backup-Answers :
    (h : Host) (from : From) (o : Opened)
    → (o.compression ≡ "") × (o.encryption ≡ "")
    → Answers h from o (record { result = ok (direct_backup o); left = none })
direct_backup-Answers h from o (c, e) = (
  λ x k. cc,
  λ b k.
      subst (λ x. Stands o x none) (accepted_injective k)
        (refl, refl, refl, refl, refl, inl (e, c, refl, refl, refl)),
)

both_tests : (a b : Bool) → a && b ≡ true → (a ≡ true) × (b ≡ true)
both_tests true b h = (refl, h)
both_tests false b h = cc

is_plain-names : (o : Opened) → is_plain o ≡ true → (o.compression ≡ "") × (o.encryption ≡ "")
is_plain-names o p =
    let (c, e) = both_tests (o.compression == "") (o.encryption == "") p in
    ((eq_iff o.compression "").0 c, (eq_iff o.encryption "").0 e)

materialize-Answers :
    (h : Host) (from : From) (o : Opened)
    → IsGuard (uncompressed_limit from.max_bytes from.max_uncompressed_bytes)
    → Answers h from o (materialize h from o)
unfolding materialize
materialize-Answers h from o g = elim (Bool-cases (is_plain o)) [
  | inl p ↦
      subst (Answers h from o) (sym (if_true (is_plain o) _ _ p))
        (direct_backup-Answers h from o (is_plain-names o p))
  | inr p ↦
      let limit = uncompressed_limit from.max_bytes from.max_uncompressed_bytes in
      let k = spool h o.contents (cat "firedrill-backup-*" (plain_ext o.path)) limit in
      subst (Answers h from o) (sym (if_false (is_plain o) _ _ p))
        (of_spool-Answers h from o k.result k.left (Spools-spool h o.contents _ limit g))
]

-- Of a fetch, its result and the temporary file that it leaves.
abbrev pub IsFetched : Host → From → Kept Backup → Type 0
IsFetched h from k =
    ((e : FetchError) × (k.result ≡ err e) × IsDiscarded h k.left)
    ⊎ ((b : Backup) × (o : Opened) × (k.result ≡ ok b)
        × (open_artifact h from ≡ ok o)
        × IsUndone h o from.decrypt
        × Stands o b k.left)

Answers-IsFetched :
    (h : Host) (from : From) (o : Opened) (k : Kept Backup)
    → open_artifact h from ≡ ok o
    → Answers h from o k
    → IsFetched h from k
Answers-IsFetched h from o k s (n, w) = elim (Result-cases k.result) [
  | inl (b, e) ↦ inr (b, o, e, s, open_artifact-IsUndone h from s, w b e)
  | inr (x, e) ↦ inl (x, e, n x e)
]

fetched-IsFetched :
    (h : Host) (from : From) (r : Result FetchError Opened)
    → open_artifact h from ≡ r
    → IsGuard (uncompressed_limit from.max_bytes from.max_uncompressed_bytes)
    → IsFetched h from (fetched h from r)
fetched-IsFetched h from (err e) s g = inl (e, refl, inl refl)
fetched-IsFetched h from (ok o) s g =
    Answers-IsFetched h from o (materialize h from o) s (materialize-Answers h from o g)

-- With a guard that does not overflow, a fetch from the file system that fails leaves no temporary
-- file, unless it cannot be removed. One that succeeds opened an artifact whose contents are the stored
-- bytes, decrypted by age or gpg with the keys of the decrypt block, or as they are without such a
-- block and then not looking encrypted, and decompressed by what is named; the backup has the date and
-- size of what is stored, and is the stored file itself, when no layer is named, or else a temporary
-- file with all of the contents, which were read without an error.
pub fetch_file_honest :
    (h : Host) (from : From)
    → IsGuard (uncompressed_limit from.max_bytes from.max_uncompressed_bytes)
    → IsFetched h from (fetch_file h from)
unfolding fetch_file
fetch_file_honest h from g = fetched-IsFetched h from (open_artifact h from) refl g
