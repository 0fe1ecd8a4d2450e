-- ===== src/Source/Layers/Undone.antt =====
-- What decryption and decompression make of a stream, by the names that they report.
use fire_drill.Base.{
  ◌⊎◌, ◌≢◌, subst, ℕ, zero, suc, ◌≡◌, refl, ap, sym, ◌∙◌, ◌∷◌, [], List, inl, inr, ok, err, Result,
  ◌==◌, nat_eq, string_eq, ◌>>=◌, >>=-eq-ok, if_false, if_true, Bool-cases, eq_iff, none, some,
  String, Option, take,
}
use fire_drill.Spec.Document.{Decrypt}
use fire_drill.Source.Limits.{Stream}
use fire_drill.Source.Layers.{
  Decoders, Layer, decrypt, decompress, peek, max_encryption_magic, detect_encryption, decrypt_as,
  decrypt_age, decrypt_gpg, looks_encrypted, plain_layer, expand, detect, max_magic, age_identities,
  has_prefix, LayerError, wrap, gpg_reader, wrong_identity, bad_gzip, bad_zstd, fail_with,
  passphrase_of, no_gpg, gpg_pipe, starting_gpg,
}

take-nil : (n : ℕ) → take {A = ℕ} n [] ≡ []
take-nil zero = refl
take-nil (suc n) = refl

peek_at :
    (n : ℕ) (bytes : List ℕ) (e : Option String) {head : List ℕ}
    → peek n (record { bytes = bytes; error = e }) ≡ ok head
    → head ≡ take n bytes
peek_at n (b ∷ bs) e h = cc
peek_at n [] none {head} h = let none_read : head ≡ [] = cc in none_read ∙ sym (take-nil n)
peek_at n [] (some e) h = cc

decrypt_as-none :
    (d : Decoders) (s : Stream) (head : List ℕ) {l : Layer}
    → decrypt_as d s head none ≡ ok l
    → (l ≡ plain_layer s) × (detect_encryption d head ≡ "")
decrypt_as-none d s head {l} h = elim (Bool-cases (detect_encryption d head == "")) [
  | inl e ↦
      let passed : decrypt_as d s head none ≡ ok (plain_layer s) = rw e refl in
      let same : l ≡ plain_layer s = cc in (same, (eq_iff (detect_encryption d head) "").0 e)
  | inr n ↦
      let shut : decrypt_as d s head none ≡ err (looks_encrypted (detect_encryption d head)) =
        rw n refl in
      cc
]

-- Without a decrypt block the stream is passed on, and does not look encrypted.
decrypt-none :
    (d : Decoders) (s : Stream) {l : Layer}
    → decrypt d s none ≡ ok l
    → (l ≡ plain_layer s) × (detect_encryption d (take (max_encryption_magic d) s.bytes) ≡ "")
unfolding decrypt
decrypt-none d s h =
    let (head, p, r) = >>=-eq-ok (peek (max_encryption_magic d) s) _ h in
    let (same, found) = decrypt_as-none d s head r in
    (
      same,
      ap (detect_encryption d) (sym (peek_at (max_encryption_magic d) s.bytes s.error p)) ∙ found,
    )

-- The stream that gpg gives, with an error where gpg failed.
abbrev pub IsRead : Stream × Option String → Stream → Type 0
IsRead (out, exit) s = ((exit ≡ none) × (s ≡ out)) ⊎ ((exit ≢ none) × (s.error ≢ none))

-- What decryption makes of a stream: without a decrypt block it is passed on, and does not look
-- encrypted; with one it is what age or gpg gives, by the block's type, for the block's keys.
abbrev pub Decrypts : Decoders → Stream → Option Decrypt → Layer → Type 0
Decrypts d s none l =
    (l ≡ plain_layer s) × (detect_encryption d (take (max_encryption_magic d) s.bytes) ≡ "")
Decrypts d s (some cfg) l =
    ((cfg.type ≡ "age")
      × (l.name ≡ "age")
      × ((ids : List String) × (age_identities d cfg ≡ ok ids)
          × (d.age ids (has_prefix (take (max_encryption_magic d) s.bytes) d.header) s
              ≡ ok l.contents)))
    ⊎ ((cfg.type ≡ "gpg")
        × (l.name ≡ "gpg")
        × ((pass : Option String) × (passphrase_of d cfg.passphrase_env ≡ ok pass)
            × IsRead (d.gpg pass s) l.contents))

-- What decompression makes of a stream.
abbrev pub Expands : Decoders → Stream → Layer → Type 0
Expands d s l =
    ((l.name ≡ "") × (l.contents ≡ s))
    ⊎ ((l.name ≡ "gzip") × (d.gzip s ≡ ok l.contents))
    ⊎ ((l.name ≡ "zstd") × (d.zstd s ≡ ok l.contents))
    ⊎ ((l.name ≡ "bzip2") × (l.contents ≡ d.bzip2 s))

failed_gpg :
    (bytes : List ℕ) (e : Option String) (m : String)
    → (gpg_reader (record { bytes = bytes; error = e }) (some m)).error ≢ none
failed_gpg bytes none m = λ n. cc
failed_gpg bytes (some x) m = λ n. cc

gpg_reader-IsRead : (out : Stream) (exit : Option String) → IsRead (out, exit) (gpg_reader out exit)
gpg_reader-IsRead out none = inl (refl, refl)
gpg_reader-IsRead out (some m) = inr (λ n. cc, failed_gpg out.bytes out.error m)

-- A decoder that answers gives the contents of the layer that it names.
layered_ok :
    (r : Result String Stream) (f : String → LayerError) (name : String) {l : Layer}
    → (wrap r f >>= λ a. ok (record { contents = a; name = name })) ≡ ok l
    → (l.name ≡ name) × (r ≡ ok l.contents)
layered_ok (ok a) f name {l} h =
    let same : record { contents = a; name = name } ≡ l = cc in
    (sym (ap (λ x. x.name) same), ap (λ x. ok x.contents) same)
layered_ok (err e) f name h = cc

decrypt_age-Decrypts :
    (d : Decoders) (s : Stream) (head : List ℕ) (cfg : Decrypt) {l : Layer}
    → decrypt_age d s head cfg ≡ ok l
    → (l.name ≡ "age")
      × ((ids : List String) × (age_identities d cfg ≡ ok ids)
          × (d.age ids (has_prefix head d.header) s ≡ ok l.contents))
unfolding decrypt_age
decrypt_age-Decrypts d s head cfg h =
    let (ids, a, r) = >>=-eq-ok (age_identities d cfg) _ h in
    let (name, given) =
      layered_ok (d.age ids (has_prefix head d.header) s) wrong_identity "age" r in
    (name, (ids, a, given))

decrypt_gpg-Decrypts :
    (d : Decoders) (s : Stream) (cfg : Decrypt) {l : Layer}
    → decrypt_gpg d s cfg ≡ ok l
    → (l.name ≡ "gpg")
      × ((pass : Option String) × (passphrase_of d cfg.passphrase_env ≡ ok pass)
          × IsRead (d.gpg pass s) l.contents)
unfolding decrypt_gpg
decrypt_gpg-Decrypts d s cfg {l} h =
    let (_, a, h1) = >>=-eq-ok (fail_with d.gpg_path no_gpg) _ h in
    let (pass, b, h2) = >>=-eq-ok (passphrase_of d cfg.passphrase_env) _ h1 in
    let (_, c, h3) = >>=-eq-ok (fail_with d.stdout_pipe gpg_pipe) _ h2 in
    let (_, e, h4) = >>=-eq-ok (fail_with d.start starting_gpg) _ h3 in
    let same : record { contents = gpg_reader (d.gpg pass s).0 (d.gpg pass s).1; name = "gpg" }
        ≡ l =
      cc in
    (
      sym (ap (λ x. x.name) same),
      (
        pass,
        b,
        subst (λ x. IsRead (d.gpg pass s) x.contents) same
            (gpg_reader-IsRead (d.gpg pass s).0 (d.gpg pass s).1),
      ),
    )

decrypt_some :
    (d : Decoders) (s : Stream) (cfg : Decrypt) {l : Layer}
    → decrypt d s (some cfg) ≡ ok l
    → Decrypts d s (some cfg) l
unfolding decrypt
decrypt_some d s cfg {l} h =
    let (head, p, r) = >>=-eq-ok (peek (max_encryption_magic d) s) _ h in
    let leading = peek_at (max_encryption_magic d) s.bytes s.error p in
    elim (Bool-cases (cfg.type == "age")) [
      | inl a ↦
          let (name, (ids, i, given)) =
            decrypt_age-Decrypts d s head cfg (sym (if_true (cfg.type == "age") _ _ a) ∙ r) in
          inl (
            (eq_iff cfg.type "age").0 a,
            name,
            (
              ids,
              i,
              subst (λ x. d.age ids (has_prefix x d.header) s ≡ ok l.contents) leading given,
            ),
          )
      | inr n ↦
          let more = sym (if_false (cfg.type == "age") _ _ n) ∙ r in
          elim (Bool-cases (cfg.type == "gpg")) [
            | inl g ↦
                let (name, given) =
                  decrypt_gpg-Decrypts d s cfg (sym (if_true (cfg.type == "gpg") _ _ g) ∙ more) in
                inr ((eq_iff cfg.type "gpg").0 g, name, given)
            | inr o ↦ let never = sym (if_false (cfg.type == "gpg") _ _ o) ∙ more in cc
          ]
    ]

pub decrypt-Decrypts :
    (d : Decoders) (s : Stream) (cfg : Option Decrypt) {l : Layer}
    → decrypt d s cfg ≡ ok l
    → Decrypts d s cfg l
decrypt-Decrypts d s none h = decrypt-none d s h
decrypt-Decrypts d s (some cfg) h = decrypt_some d s cfg h

expand-Expands :
    (d : Decoders) (s : Stream) (found : String) {l : Layer}
    → expand d s found ≡ ok l
    → Expands d s l
expand-Expands d s found {l} h = elim (Bool-cases (found == "gzip")) [
  | inl g ↦
      inr (inl (layered_ok (d.gzip s) bad_gzip "gzip" (sym (if_true (found == "gzip") _ _ g) ∙ h)))
  | inr g ↦
      let h1 = sym (if_false (found == "gzip") _ _ g) ∙ h in
      elim (Bool-cases (found == "zstd")) [
        | inl z ↦ inr (
            inr (
              inl (
                layered_ok (d.zstd s) bad_zstd "zstd"
                  (sym (if_true (found == "zstd") _ _ z) ∙ h1))))
        | inr z ↦
            let h2 = sym (if_false (found == "zstd") _ _ z) ∙ h1 in
            elim (Bool-cases (found == "bzip2")) [
              | inl b ↦
                  let h3 = sym (if_true (found == "bzip2") _ _ b) ∙ h2 in
                  let same : record { contents = d.bzip2 s; name = "bzip2" } ≡ l = cc in
                  inr (inr (inr (sym (ap (λ x. x.name) same), sym (ap (λ x. x.contents) same))))
              | inr b ↦
                  let h3 = sym (if_false (found == "bzip2") _ _ b) ∙ h2 in
                  let same : plain_layer s ≡ l = cc in
                  inl (sym (ap (λ x. x.name) same), sym (ap (λ x. x.contents) same))
            ]
      ]
]

pub decompress-Expands :
    (d : Decoders) (s : Stream) {l : Layer} → decompress d s ≡ ok l → Expands d s l
unfolding decompress
decompress-Expands d s h =
    let (head, p, r) = >>=-eq-ok (peek max_magic s) _ h in expand-Expands d s (detect head) r
