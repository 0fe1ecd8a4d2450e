-- ===== src/Report/Signature/Sound.antt =====
-- What signing makes verifiable.
use fire_drill.Base.{
  ◌≡◌, refl, ap, sym, subst, ◌∙◌, ◌++◌, ◌∷◌, [], ok, err, Result, Bool, true, false, nat_eq,
  string_eq, >>=-eq-ok, none, some, String, Option, length,
}
use fire_drill.Report.Signature.{
  fingerprint, Bytes, Text, Crypto, Files, SignError, wrap, written, signature_of, sign, key_read,
  is_trusted, verify, payload_type, pae, statement_of, envelope_of, attest, any_verifies,
  any_subject, verify_attestation, signer_key, KeySource, pinned_key, signature_envelope,
  BundleResult, fingerprint_of, checked_with, from_signer, with_key, if_attested, verify_bundle,
  reading, encoding,
}

-- What the libraries promise: signatures verify, and what is encoded here is decoded.
pub record IsCrypto (c : Crypto) : Type 0 where
  pub signs : (k m : Bytes) → c.verify (c.public k) m (c.sign k m) ≡ true
  pub key_sizes : (k : Bytes) → length (c.public k) ≡ 32
  pub same_keys : (k : Bytes) → c.same_key k k ≡ true
  pub folds : (s : Text) → c.same_fold s s ≡ true
  pub hexes : (b : Bytes) → c.from_hex (c.to_hex b) ≡ ok b
  pub base64s : (b : Bytes) → c.from_base64 (c.to_base64 b) ≡ ok b
  pub signatures_read :
      (k m p : Bytes)
      → c.signature_json (signature_of c k m) ≡ ok p
      → c.read_signature p ≡ ok (signature_of c k m)
  -- The predicate is read back as JSON that means the same: encoding compacts it.
  pub statements_read :
      (base : String) (m p : Bytes)
      → c.statement_json (statement_of c base m) ≡ ok p
      → (q : Bytes) × (c.read_statement p ≡ ok (record (statement_of c base m) { predicate = q }))
  pub envelopes_read :
      (k m p : Bytes)
      → c.envelope_json (envelope_of c k m) ≡ ok p
      → c.read_envelope (p ++ 10 ∷ []) ≡ ok (envelope_of c k m)

pub wrap-ok :
    {A : Type 0} (r : Result String A) (f : String → SignError) {a : A} → wrap r f ≡ ok a → r ≡ ok a
wrap-ok (ok x) f h = cc
wrap-ok (err e) f h = cc

written-ok : (e : Option String) (f : Files) {g : Files} → written e f ≡ ok g → f ≡ g
written-ok none f h = cc
written-ok (some e) f h = cc

module _ (c : Crypto) (f : Files) (k : Bytes) where
  sign-ok :
      {g : Files}
      → sign c f k ≡ ok g
      → (content out : Bytes) × (f.evidence ≡ ok content)
        × (c.signature_json (signature_of c k content) ≡ ok out)
        × (record f { sig = ok out } ≡ g)
  unfolding sign
  sign-ok h =
      let (content, e, rest) = >>=-eq-ok (wrap f.evidence reading) _ h in
      let (out, j, w) =
        >>=-eq-ok (wrap (c.signature_json (signature_of c k content)) encoding) _ rest in
      (content, out, wrap-ok f.evidence reading e, wrap-ok _ encoding j, written-ok f.sig_error _ w)

  attest-ok :
      (base : String) {g : Files}
      → attest c f base k ≡ ok g
      → (content payload out : Bytes) × (f.evidence ≡ ok content)
        × (c.statement_json (statement_of c base content) ≡ ok payload)
        × (c.envelope_json (envelope_of c k payload) ≡ ok out)
        × (record f { intoto = ok (out ++ 10 ∷ []); intoto_there = true } ≡ g)
  unfolding attest
  attest-ok base h =
      let (content, e, rest) = >>=-eq-ok (wrap f.evidence reading) _ h in
      let (payload, s, more) =
        >>=-eq-ok (wrap (c.statement_json (statement_of c base content)) encoding) _ rest in
      let (out, j, w) =
        >>=-eq-ok (wrap (c.envelope_json (envelope_of c k payload)) encoding) _ more in
      (
        content,
        payload,
        out,
        wrap-ok f.evidence reading e,
        wrap-ok _ encoding s,
        wrap-ok _ encoding j,
        written-ok f.intoto_error _ w,
      )

module _ (c : Crypto) (laws : IsCrypto c) (k : Bytes) (f : Files) (content : Bytes) where
  key_read-public : key_read (ok (c.public k)) ≡ ok (c.public k)
  key_read-public = rw (laws.key_sizes k) refl

  signer_key-signed :
      (out : Bytes)
      → f.sig ≡ ok out
      → c.signature_json (signature_of c k content) ≡ ok out
      → signer_key c f ≡ ok (c.public k)
  unfolding signer_key signature_of
  signer_key-signed out s j =
      rw s
        (rw (laws.signatures_read k content out j) (rw (laws.hexes (c.public k)) key_read-public))

  verify-signed :
      (trusted : Option Bytes) (out : Bytes)
      → f.evidence ≡ ok content
      → f.sig ≡ ok out
      → c.signature_json (signature_of c k content) ≡ ok out
      → is_trusted c trusted (c.public k) ≡ true
      → verify c f trusted ≡ ok tt
  unfolding verify signature_of
  verify-signed trusted out e s j t = rw e (
      rw s (
        rw (laws.signatures_read k content out j) (
          rw (laws.hexes (c.public k)) (
            rw (laws.key_sizes k)
              (rw t (rw (laws.hexes (c.sign k content)) (rw (laws.signs k content) refl)))))))

  verify-attested :
      (base : String) (payload out : Bytes)
      → f.evidence ≡ ok content
      → c.statement_json (statement_of c base content) ≡ ok payload
      → c.envelope_json (envelope_of c k payload) ≡ ok out
      → f.intoto ≡ ok (out ++ 10 ∷ [])
      → verify_attestation c f (c.public k) ≡ ok tt
  unfolding verify_attestation envelope_of any_verifies statement_of any_subject
  verify-attested base payload out e s j i =
      let message = pae c payload_type payload in
      let (q, read) = laws.statements_read base content payload s in
      rw i (
        rw (laws.envelopes_read k payload out j) (
          rw (laws.base64s payload) (
            rw (laws.base64s (c.sign k message)) (
              rw (laws.signs k message)
                (rw read (rw e (rw (laws.folds (c.to_hex (c.sha256 content))) refl)))))))

-- The key that an auditor may pin: the signer's.
abbrev pub IsSigner : Crypto → Bytes → Option Bytes → Type 0
IsSigner c k none = Unit
IsSigner c k (some t) = t ≡ c.public k

abbrev pub source_of : Option Bytes → KeySource
source_of none = signature_envelope
source_of (some t) = pinned_key

abbrev pub full_result : Crypto → Bytes → KeySource → BundleResult
full_result c k source = record {
  signer_fingerprint = fingerprint c (c.public k);
  attestation_checked = true;
  key_source = some source;
  notes = [];
}

IsSigner-trusted :
    (c : Crypto)
    → IsCrypto c
    → (k : Bytes) (trusted : Option Bytes) → IsSigner c k trusted
    → is_trusted c trusted (c.public k) ≡ true
IsSigner-trusted c laws k none h = refl
IsSigner-trusted c laws k (some t) h = rw h (laws.same_keys (c.public k))

module _ (c : Crypto) (laws : IsCrypto c) (k : Bytes) (f : Files) where
  checked_with-attested :
      (signer : Text) (source : KeySource)
      → signer ≡ fingerprint c (c.public k)
      → verify_attestation c f (c.public k) ≡ ok tt
      → checked_with c f signer source (c.public k) ≡ ok (full_result c k source)
  checked_with-attested signer source s a = rw a (rw s refl)

  with_key-attested :
      (signer : Text) (trusted : Option Bytes) (dir : Option (Result String Bytes))
      → signer ≡ fingerprint c (c.public k)
      → signer_key c f ≡ ok (c.public k)
      → verify_attestation c f (c.public k) ≡ ok tt
      → IsSigner c k trusted
      → with_key c f signer trusted dir ≡ ok (full_result c k (source_of trusted))
  with_key-attested signer none dir s own a h =
      ap (λ r. from_signer c f signer r dir) own
      ∙ checked_with-attested signer signature_envelope s a
  with_key-attested signer (some t) dir s own a h =
      ap (checked_with c f signer pinned_key) h ∙ checked_with-attested signer pinned_key s a

if_attested-there :
    (b : Bool) (signer : Text) (rest : Result SignError BundleResult)
    → b ≡ true
    → if_attested b signer rest ≡ rest
if_attested-there true signer rest h = refl
if_attested-there false signer rest h = cc

-- Under the laws of the cryptography and of the encodings, evidence that was signed and attested with
-- a key verifies as a bundle, with the attestation checked, whatever key directory there is: against
-- the signer's key when it is pinned, and against that of the signature otherwise.
pub verify_bundle-signed :
    (c : Crypto)
    → IsCrypto c
    → (k : Bytes) (f g h : Files) (base : String) (trusted : Option Bytes)
      (dir : Option (Result String Bytes))
    → sign c f k ≡ ok g
    → attest c g base k ≡ ok h
    → IsSigner c k trusted
    → verify_bundle c h trusted dir ≡ ok (full_result c k (source_of trusted))
unfolding verify_bundle
verify_bundle-signed c laws k f g h base trusted dir s a own =
    let (content, out, e, j, sealed) = sign-ok c f k s in
    let (content', payload, out', e', p, j', attested) = attest-ok c g k base a in
    let evidence : g.evidence ≡ ok content = sym (ap (λ x. x.evidence) sealed) ∙ e in
    let same : content' ≡ content = cc in
    let there = sym (ap (λ x. x.evidence) attested) ∙ evidence in
    let sig = sym (ap (λ x. x.sig) attested) ∙ sym (ap (λ x. x.sig) sealed) in
    let file = sym (ap (λ x. x.intoto) attested) in
    let spoken = subst (λ x. c.statement_json (statement_of c base x) ≡ ok payload) same p in
    let own_key = signer_key-signed c laws k h content out sig j in
    let signer = ap (fingerprint_of c) own_key in
    let good =
      verify-signed c laws k h content trusted out there sig j
        (IsSigner-trusted c laws k trusted own) in
    let whole =
      if_attested-there h.intoto_there (fingerprint_of c (signer_key c h)) _
        (sym (ap (λ x. x.intoto_there) attested))
      ∙ with_key-attested c laws k h (fingerprint_of c (signer_key c h)) trusted dir signer own_key
          (verify-attested c laws k h content base payload out' there spoken j' file) own in
    rw good whole
