-- ===== src/Report/Signature/Proven.antt =====
-- What the verification of a bundle proves.
use fire_drill.Base.{
  ◌⊎◌, inl, inr, ◌≡◌, ◌≢◌, refl, ap, sym, subst, ◌∙◌, [], ok, err, Result, Bool, true, false, not,
  ◌!=◌, nat_eq, string_eq, fail_if, >>=-eq-ok, fail_if-ok, none, some, String, Option,
}
use fire_drill.Report.Signature.{
  fingerprint, no_attestation, Bytes, Text, Signature, Crypto, Files, wrap, key_read, is_trusted,
  signature_read, verify, verify_attestation, signer_key, KeySource, pinned_key, signature_envelope,
  key_directory, BundleResult, fingerprint_of, unchecked, checked_with, from_signer, with_key,
  if_attested, verify_bundle, reading, missing_signature, malformed_envelope, untrusted_key,
}
use fire_drill.Report.Signature.Sound.{wrap-ok}

-- The evidence carries a signature of its bytes by a key, the pinned one if there is one.
pub record IsSignedBy (c : Crypto) (f : Files) (trusted : Option Bytes) (k : Bytes) : Type 0 where
  pub content : Bytes
  pub raw : Bytes
  pub stands : f.evidence ≡ ok content
  pub signed : c.verify k content raw ≡ true
  pub trusts : is_trusted c trusted k ≡ true
  pub own : signer_key c f ≡ ok k

not-false : (b : Bool) → not b ≡ false → b ≡ true
not-false true h = refl
not-false false h = cc

signature_read-ok : (r : Result String Bytes) {s : Bytes} → signature_read r ≡ ok s → r ≡ ok s
signature_read-ok (ok x) h = cc
signature_read-ok (err e) h = cc

signer_key-read :
    (c : Crypto) (f : Files) {file : Bytes} {s : Signature} {k : Bytes}
    → wrap f.sig missing_signature ≡ ok file
    → wrap (c.read_signature file) malformed_envelope ≡ ok s
    → key_read (c.from_hex s.public_key) ≡ ok k
    → signer_key c f ≡ ok k
unfolding signer_key
signer_key-read c f e d h = rw e (rw d h)

verify-IsSignedBy :
    (c : Crypto) (f : Files) (trusted : Option Bytes)
    → verify c f trusted ≡ ok tt
    → (k : Bytes) × IsSignedBy c f trusted k
unfolding verify signer_key
verify-IsSignedBy c f trusted h =
    let (content, e, h1) = >>=-eq-ok (wrap f.evidence reading) _ h in
    let (file, e1, h2) = >>=-eq-ok (wrap f.sig missing_signature) _ h1 in
    let (s, e2, h3) = >>=-eq-ok (wrap (c.read_signature file) malformed_envelope) _ h2 in
    let (_, e3, h4) = >>=-eq-ok (fail_if (s.algorithm != "ed25519") _) _ h3 in
    let (k, e4, h5) = >>=-eq-ok (key_read (c.from_hex s.public_key)) _ h4 in
    let (_, e5, h6) = >>=-eq-ok (fail_if (not (is_trusted c trusted k)) untrusted_key) _ h5 in
    let (raw, e6, h7) = >>=-eq-ok (signature_read (c.from_hex s.signature)) _ h6 in
    (
      k,
      record {
        content = content;
        raw = raw;
        stands = wrap-ok f.evidence reading e;
        signed = not-false _ (fail_if-ok _ _ h7);
        trusts = not-false _ (fail_if-ok _ _ e5);
        own = signer_key-read c f e1 e2 e4;
      },
    )

-- The key that the attestation was checked against: the pinned one, or the signature's own.
abbrev pub attested_key : Option Bytes → Bytes → Bytes
attested_key none k = k
attested_key (some t) k = t

-- What a bundle's result may claim of its attestation.
abbrev pub IsHonest : Crypto → Files → Option Bytes → Bytes → BundleResult → Type 0
IsHonest c f trusted k r =
    (r.signer_fingerprint ≡ fingerprint c k)
    × ((r.attestation_checked ≡ false)
        ⊎ ((r.attestation_checked ≡ true)
            × (verify_attestation c f (attested_key trusted k) ≡ ok tt)))
    × (r.key_source ≢ some key_directory)

abbrev attested_result : Text → KeySource → BundleResult
attested_result signer source = record {
  signer_fingerprint = signer;
  attestation_checked = true;
  key_source = some source;
  notes = [];
}

module _ (c : Crypto) (f : Files) (k : Bytes) where
  checked_with-ok :
      (signer : Text) (source : KeySource) (a : Bytes) {r : BundleResult}
      → checked_with c f signer source a ≡ ok r
      → (verify_attestation c f a ≡ ok tt)
        × (r.signer_fingerprint ≡ signer)
        × (r.key_source ≡ some source)
        × (r.attestation_checked ≡ true)
  checked_with-ok signer source a {r} h =
      let (_, v, e) = >>=-eq-ok (verify_attestation c f a) _ h in
      let same : attested_result signer source ≡ r = cc in
      (
        v,
        sym (ap (λ x. x.signer_fingerprint) same),
        sym (ap (λ x. x.key_source) same),
        sym (ap (λ x. x.attestation_checked) same),
      )

  with_key-IsHonest :
      (trusted : Option Bytes) (dir : Option (Result String Bytes)) {r : BundleResult}
      → signer_key c f ≡ ok k
      → with_key c f (fingerprint c k) trusted dir ≡ ok r
      → IsHonest c f trusted k r
  with_key-IsHonest none dir own h =
      let (v, s, e, a) =
        checked_with-ok (fingerprint c k) signature_envelope k
          (ap (λ x. from_signer c f (fingerprint c k) x dir) (sym own) ∙ h) in
      (s, inr (a, v), λ d. cc)
  with_key-IsHonest (some t) dir own h =
      let (v, s, e, a) = checked_with-ok (fingerprint c k) pinned_key t h in
      (s, inr (a, v), λ d. cc)

  if_attested-IsHonest :
      (there : Bool) (trusted : Option Bytes) (dir : Option (Result String Bytes))
      {r : BundleResult}
      → signer_key c f ≡ ok k
      → if_attested there (fingerprint c k) (with_key c f (fingerprint c k) trusted dir) ≡ ok r
      → IsHonest c f trusted k r
  if_attested-IsHonest true trusted dir own h = with_key-IsHonest trusted dir own h
  if_attested-IsHonest false trusted dir {r} own h =
      let same : unchecked (fingerprint c k) no_attestation ≡ r = cc in
      subst (IsHonest c f trusted k) same (refl, inl refl, λ x. cc)

-- When a bundle verifies, the evidence carries a signature of its bytes, by the pinned key if there is
-- one, the result names the key of that signature, and it claims a check of the attestation only
-- where that verifies against the pinned key, or else the signature's own. And the key directory is
-- never what it was checked with.
pub verify_bundle_sound :
    (c : Crypto) (f : Files) (trusted : Option Bytes) (dir : Option (Result String Bytes))
    (r : BundleResult)
    → verify_bundle c f trusted dir ≡ ok r
    → (k : Bytes) × IsSignedBy c f trusted k × IsHonest c f trusted k r
unfolding verify_bundle
verify_bundle_sound c f trusted dir r h =
    let (_, v, rest) = >>=-eq-ok (verify c f trusted) _ h in
    let (k, signed) = verify-IsSignedBy c f trusted v in
    let shown =
      ap
        (λ x.
          if_attested f.intoto_there (fingerprint_of c x)
            (with_key c f (fingerprint_of c x) trusted dir))
        (sym signed.own) in
    (k, signed, if_attested-IsHonest c f k f.intoto_there trusted dir signed.own (shown ∙ rest))
