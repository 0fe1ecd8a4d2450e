-- ===== src/Examples/Signatures.antt =====
-- Evidence that is signed, attested and verified, with a cipher that a test may use: a signature is
-- the message itself.
use fire_drill.Base.{
  ℕ, zero, suc, ◌≡◌, refl, ap, sym, ◌∙◌, ◌++◌, ◌∷◌, [], List, inl, inr, ok, err, Result, Bool, true,
  false, ◌&&◌, ◌==◌, nat_eq, string_eq, if_false, if_true, Bool-cases, eq_iff, if◌then◌else◌, none,
  some, String, length, take, drop, append_assoc,
}
use fire_drill.Report.Signature.{
  Bytes, Text, Signature, Statement, Envelope, KeySignature, Subject, Crypto, Files, sign, attest,
  verify_bundle, signature_of, statement_of, envelope_of, predicate_type, payload_type, pae,
}
use fire_drill.Report.Signature.Sound.{IsCrypto, verify_bundle-signed, full_result, source_of}
use fire_drill.Report.Signature.Proven.{IsSignedBy, IsHonest, verify_bundle_sound}

abbrev same : Bytes → Bytes → Bool
same [] [] = true
same [] (d ∷ ds) = false
same (c ∷ cs) [] = false
same (c ∷ cs) (d ∷ ds) = c == d && same cs ds

same_self : (b : Bytes) → same b b ≡ true
same_self [] = refl
same_self (c ∷ cs) = rw ((eq_iff c c).1 refl) (same_self cs)

abbrev zeros : ℕ → Bytes
zeros zero = []
zeros (suc n) = 0 ∷ zeros n

-- A text after its length, and back.
abbrev put : Text → Bytes → Bytes
put t rest = length t ∷ (t ++ rest)

unfoldable get : Bytes → Text × Bytes
get [] = ([], [])
get (n ∷ xs) = (take n xs, drop n xs)

take-own : (t rest : Text) → take (length t) (t ++ rest) ≡ t
take-own [] rest = refl
take-own (c ∷ t) rest = ap (λ x. c ∷ x) (take-own t rest)

drop-own : (t rest : Text) → drop (length t) (t ++ rest) ≡ rest
drop-own [] rest = refl
drop-own (c ∷ t) rest = drop-own t rest

get-put : (t : Text) (rest : Bytes) → get (put t rest) ≡ (t, rest)
unfolding get
get-put t rest = rw (take-own t rest) (rw (drop-own t rest) refl)

abbrev signature_read : Bytes → Signature
signature_read b =
    let (k, r) = get b in
    let (f, q) = get r in
    record { algorithm = "ed25519"; public_key = k; key_fingerprint = f; signature = (get q).0 }

abbrev signature_with : Text → Text → Text → Signature
signature_with k f s = record {
  algorithm = "ed25519";
  public_key = k;
  key_fingerprint = f;
  signature = s;
}

abbrev statement_with : String → Text → Bytes → Statement
statement_with base h m = record {
  type = "https://in-toto.io/Statement/v1";
  subjects = record { name = base; sha256 = h } ∷ [];
  predicate_type = predicate_type;
  predicate = m;
}

abbrev envelope_with : Text → Text → Text → Envelope
envelope_with k s p = record {
  payload_type = payload_type;
  payload = p;
  signatures = record { key_id = k; sig = s } ∷ [];
}

-- Encoding drops the blanks of a predicate.
abbrev squeeze : Bytes → Bytes
squeeze [] = []
squeeze (b ∷ bs) = let rest = squeeze bs in if b == 32 then rest else b ∷ rest

abbrev one_subject : List Subject → Bytes → Result String Bytes
one_subject [] predicate = err "no subject"
one_subject (s ∷ ss) predicate =
    if s.name == "payments.json" then ok (put s.sha256 (squeeze predicate)) else err "another name"

abbrev statement_read : Bytes → Statement
statement_read b = record {
  type = "https://in-toto.io/Statement/v1";
  subjects = record { name = "payments.json"; sha256 = (get b).0 } ∷ [];
  predicate_type = predicate_type;
  predicate = (get b).1;
}

abbrev one_signature : List KeySignature → Text → Bytes
one_signature [] payload = []
one_signature (s ∷ ss) payload = put s.key_id (put s.sig (put payload []))

abbrev envelope_read : Bytes → Envelope
envelope_read b =
    let (k, r) = get b in
    let (s, q) = get r in
    record {
      payload_type = payload_type;
      payload = (get q).0;
      signatures = record { key_id = k; sig = s } ∷ [];
    }

abbrev crypto : Crypto
crypto = record {
  public = λ k. zeros 32;
  sign = λ k m. m;
  verify = λ k m s. same m s;
  same_key = same;
  sha256 = λ m. m;
  to_hex = λ b. b;
  from_hex = λ t. ok t;
  to_base64 = λ b. b;
  from_base64 = λ t. ok t;
  same_fold = same;
  print = λ n. n ∷ [];
  signature_json = λ s. ok (put s.public_key (put s.key_fingerprint (put s.signature [])));
  read_signature = λ b. ok (signature_read b);
  statement_json = λ s. one_subject s.subjects s.predicate;
  read_statement = λ b. ok (statement_read b);
  envelope_json = λ e. ok (one_signature e.signatures e.payload);
  read_envelope = λ b. ok (envelope_read b);
}

three : (a b c : Text) (rest : Bytes) → get (put a (put b (put c rest))) ≡ (a, put b (put c rest))
three a b c rest = get-put a (put b (put c rest))

signature_back : (a b c : Text) → signature_read (put a (put b (put c []))) ≡ signature_with a b c
signature_back a b c = rw (three a b c []) (rw (get-put b (put c [])) (rw (get-put c []) refl))

put-append : (t : Text) (rest more : Bytes) → put t rest ++ more ≡ put t (rest ++ more)
put-append t rest more = ap (λ x. length t ∷ x) (append_assoc t rest more)

envelope_back :
    (a b c : Text) → envelope_read (put a (put b (put c [])) ++ 10 ∷ []) ≡ envelope_with a b c
envelope_back a b c =
    ap envelope_read (
      put-append a (put b (put c [])) (10 ∷ [])
      ∙ ap (put a) (put-append b (put c []) (10 ∷ []) ∙ ap (put b) (put-append c [] (10 ∷ []))))
    ∙ rw (three a b c (10 ∷ [])) (rw (get-put b (put c (10 ∷ []))) (rw (get-put c (10 ∷ [])) refl))

statement_back :
    (h : Text) (m : Bytes) → statement_read (put h m) ≡ statement_with "payments.json" h m
statement_back h m = rw (get-put h m) refl

statement_law :
    (base : String) (m p : Bytes)
    → crypto.statement_json (statement_of crypto base m) ≡ ok p
    → (q : Bytes) × (crypto.read_statement p
        ≡ ok (record (statement_of crypto base m) { predicate = q }))
unfolding statement_of
statement_law base m p h = elim (Bool-cases (base == "payments.json")) [
  | inl e ↦
      let same : base ≡ "payments.json" = (eq_iff base "payments.json").0 e in
      let written : ok (put m (squeeze m)) ≡ ok p =
        sym (if_true (base == "payments.json") _ _ e) ∙ h in
      let there : put m (squeeze m) ≡ p = cc in
      (
        squeeze m,
        ap ok (
            ap statement_read (sym there)
            ∙ statement_back m (squeeze m)
            ∙ ap (λ b. statement_with b m (squeeze m)) (sym same)),
      )
  | inr e ↦
      let other : Result String Bytes = err "another name" in
      let wrong : other ≡ ok p = sym (if_false (base == "payments.json") _ _ e) ∙ h in cc
]

laws : IsCrypto crypto
unfolding signature_of statement_of envelope_of
laws = record {
  signs = λ k m. same_self m;
  key_sizes = λ k. refl;
  same_keys = same_self;
  folds = same_self;
  hexes = λ b. refl;
  base64s = λ b. refl;
  signatures_read = λ k m p h.
      let there : put (zeros 32) (put (zeros 8) (put m [])) ≡ p = cc in
      ap ok (ap signature_read (sym there) ∙ signature_back (zeros 32) (zeros 8) m);
  statements_read = statement_law;
  envelopes_read = λ k m p h.
      let s = pae crypto payload_type m in
      let there : put (zeros 8) (put s (put m [])) ≡ p = cc in
      ap ok (ap (λ x. envelope_read (x ++ 10 ∷ [])) (sym there) ∙ envelope_back (zeros 8) s m);
}

abbrev bare : Files
bare = record {
  evidence = ok (7 ∷ 8 ∷ []);
  sig = err "no such file";
  intoto = err "no such file";
  intoto_there = false;
  sig_error = none;
  intoto_error = none;
}

abbrev sealed : Files
sealed = record bare { sig = ok (put (zeros 32) (put (zeros 8) (put (7 ∷ 8 ∷ []) []))) }

abbrev payload : Bytes
payload = put (7 ∷ 8 ∷ []) (7 ∷ 8 ∷ [])

abbrev attested : Files
attested = record sealed {
  intoto = ok (put (zeros 8) (put (pae crypto payload_type payload) (put payload [])) ++ 10 ∷ []);
  intoto_there = true;
}

sealed_lem : sign crypto bare (1 ∷ []) ≡ ok sealed
unfolding sign signature_of
sealed_lem = refl

attested_lem : attest crypto sealed "payments.json" (1 ∷ []) ≡ ok attested
unfolding attest statement_of envelope_of
attested_lem = refl

verify_bundle-signed_example :
    verify_bundle crypto attested (some (zeros 32)) none
    ≡ ok (full_result crypto (1 ∷ []) (source_of (some (zeros 32))))
verify_bundle-signed_example =
    verify_bundle-signed crypto laws (1 ∷ []) bare sealed attested "payments.json" (some (zeros 32))
      none sealed_lem attested_lem refl

verify_bundle_sound_example :
    (k : Bytes) × IsSignedBy crypto attested (some (zeros 32)) k
    × IsHonest crypto attested
        (some (zeros 32))
        k
        (full_result crypto (1 ∷ []) (source_of (some (zeros 32))))
verify_bundle_sound_example =
    verify_bundle_sound crypto attested (some (zeros 32)) none
      (full_result crypto (1 ∷ []) (source_of (some (zeros 32)))) verify_bundle-signed_example
