-- ===== src/Report/Signature.antt =====
-- `Sign`, `Verify` of pkg/report/sign.go, `Attest`, `VerifyAttestation` of attest.go, and
-- `VerifyBundle` of bundle.go. The cryptography and the encodings are outside; the files of an
-- evidence path are the evidence, its signature and its attestation.
pub mod Sound
pub mod Proven
use fire_drill.Base.{
  ℕ, ◌+◌, ◌-◌, ◌++◌, ◌∷◌, [], List, ok, err, Result, Bool, true, false, not, ◌!=◌, ◌==◌, nat_eq,
  string_eq, arith, ◌>>=◌, ◌>>◌, fail_if, if◌then◌else◌, none, some, String, Option, length, take,
  is_empty, any, codes,
}

abbrev pub Bytes : Type 0
Bytes = List ℕ

-- A text in hexadecimal or base 64.
abbrev pub Text : Type 0
Text = List ℕ

-- `Signature`
pub record Signature : Type 0 where
  pub algorithm : String
  pub public_key : Text
  pub key_fingerprint : Text
  pub signature : Text

pub record Subject : Type 0 where
  pub name : String
  pub sha256 : Text

pub record Statement : Type 0 where
  pub type : String
  pub subjects : List Subject
  pub predicate_type : String
  pub predicate : Bytes

pub record KeySignature : Type 0 where
  pub key_id : Text
  pub sig : Text

pub record Envelope : Type 0 where
  pub payload_type : String
  pub payload : Text
  pub signatures : List KeySignature

-- Ed25519, SHA-256, and the encodings in hexadecimal, base 64 and JSON; `same_fold` is
-- `strings.EqualFold`.
pub record Crypto : Type 0 where
  pub public : Bytes → Bytes
  pub sign : Bytes → Bytes → Bytes
  pub verify : Bytes → Bytes → Bytes → Bool
  pub same_key : Bytes → Bytes → Bool
  pub sha256 : Bytes → Bytes
  pub to_hex : Bytes → Text
  pub from_hex : Text → Result String Bytes
  pub to_base64 : Bytes → Text
  pub from_base64 : Text → Result String Bytes
  pub same_fold : Text → Text → Bool
  pub print : ℕ → Bytes
  pub signature_json : Signature → Result String Bytes
  pub read_signature : Bytes → Result String Signature
  pub statement_json : Statement → Result String Bytes
  pub read_statement : Bytes → Result String Statement
  pub envelope_json : Envelope → Result String Bytes
  pub read_envelope : Bytes → Result String Envelope

-- `Fingerprint`
abbrev pub fingerprint : Crypto → Bytes → Text
fingerprint c k = c.to_hex (take 8 (c.sha256 k))

-- What `os.ReadFile` answers on the evidence, its `.sig` and its `.intoto.jsonl`, whether `os.Stat`
-- finds the last, and what writing the last two answers.
pub record Files : Type 0 where
  pub evidence : Result String Bytes
  pub sig : Result String Bytes
  pub intoto : Result String Bytes
  pub intoto_there : Bool
  pub sig_error : Option String
  pub intoto_error : Option String

pub data SignError : Type 0 where
  reading missing_signature malformed_envelope : String → SignError
  unsupported_algorithm : String → SignError
  malformed_public_key malformed_signature : SignError
  untrusted_key signature_invalid : SignError
  missing_attestation malformed_attestation : String → SignError
  unexpected_payload_type : String → SignError
  malformed_payload no_signatures attestation_invalid : SignError
  malformed_statement encoding : String → SignError
  unexpected_predicate_type : String → SignError
  digest_mismatch : SignError
  writing : String → SignError

abbrev pub wrap : {A : Type 0} → Result String A → (String → SignError) → Result SignError A
wrap (ok a) f = ok a
wrap (err e) f = err (f e)

abbrev pub key_size : ℕ
key_size = 32

abbrev pub written : Option String → Files → Result SignError Files
written none f = ok f
written (some e) f = err (writing e)

unfoldable pub signature_of : Crypto → Bytes → Bytes → Signature
signature_of c key content =
    let pub_key = c.public key in
    record {
      algorithm = "ed25519";
      public_key = c.to_hex pub_key;
      key_fingerprint = fingerprint c pub_key;
      signature = c.to_hex (c.sign key content);
    }

-- `Sign`
unfoldable pub sign : Crypto → Files → Bytes → Result SignError Files
sign c f key = do
  content ← wrap f.evidence reading
  out ← wrap (c.signature_json (signature_of c key content)) encoding
  written f.sig_error (record f { sig = ok out })

abbrev pub key_read : Result String Bytes → Result SignError Bytes
key_read (err e) = err malformed_public_key
key_read (ok k) = if length k == key_size then ok k else err malformed_public_key

-- A key that is pinned must be the one that signed.
abbrev pub is_trusted : Crypto → Option Bytes → Bytes → Bool
is_trusted c none k = true
is_trusted c (some t) k = c.same_key t k

abbrev pub signature_read : Result String Bytes → Result SignError Bytes
signature_read (err e) = err malformed_signature
signature_read (ok s) = ok s

-- `Verify`
unfoldable pub verify : Crypto → Files → Option Bytes → Result SignError (Unit {0})
verify c f trusted = do
  content ← wrap f.evidence reading
  file ← wrap f.sig missing_signature
  s ← wrap (c.read_signature file) malformed_envelope
  fail_if (s.algorithm != "ed25519") (unsupported_algorithm s.algorithm)
  k ← key_read (c.from_hex s.public_key)
  fail_if (not (is_trusted c trusted k)) untrusted_key
  raw ← signature_read (c.from_hex s.signature)
  fail_if (not (c.verify k content raw)) signature_invalid

abbrev pub payload_type : String
payload_type = "application/vnd.in-toto+json"

abbrev pub predicate_type : String
predicate_type = "https://firedrill.dev/drill-evidence/v1"

-- `pae`
unfoldable pub pae : Crypto → String → Bytes → Bytes
pae c type payload =
    codes "DSSEv1 "
    ++ c.print (length (codes type))
    ++ codes " "
    ++ codes type
    ++ codes " "
    ++ c.print (length payload)
    ++ codes " "
    ++ payload

unfoldable pub statement_of : Crypto → String → Bytes → Statement
statement_of c base content = record {
  type = "https://in-toto.io/Statement/v1";
  subjects = record { name = base; sha256 = c.to_hex (c.sha256 content) } ∷ [];
  predicate_type = predicate_type;
  predicate = content;
}

unfoldable pub envelope_of : Crypto → Bytes → Bytes → Envelope
envelope_of c key payload = record {
  payload_type = payload_type;
  payload = c.to_base64 payload;
  signatures =
      record {
        key_id = fingerprint c (c.public key);
        sig = c.to_base64 (c.sign key (pae c payload_type payload));
      }
      ∷ [];
}

-- `Attest`; `base` is the name of the evidence file.
unfoldable pub attest : Crypto → Files → String → Bytes → Result SignError Files
attest c f base key = do
  content ← wrap f.evidence reading
  payload ← wrap (c.statement_json (statement_of c base content)) encoding
  out ← wrap (c.envelope_json (envelope_of c key payload)) encoding
  written f.intoto_error (record f { intoto = ok (out ++ 10 ∷ []); intoto_there = true })

abbrev pub payload_read : Result String Bytes → Result SignError Bytes
payload_read (err e) = err malformed_payload
payload_read (ok p) = ok p

-- A signature that cannot be decoded is passed over.
abbrev pub raw_verifies : Crypto → Bytes → Bytes → Result String Bytes → Bool
raw_verifies c k message (err e) = false
raw_verifies c k message (ok raw) = c.verify k message raw

unfoldable pub any_verifies : Crypto → Bytes → Bytes → List KeySignature → Bool
any_verifies c k message ss = any (λ s. raw_verifies c k message (c.from_base64 s.sig)) ss

unfoldable pub any_subject : Crypto → Text → List Subject → Bool
any_subject c want ss = any (λ s. c.same_fold s.sha256 want) ss

-- `VerifyAttestation`
unfoldable pub verify_attestation : Crypto → Files → Bytes → Result SignError (Unit {0})
verify_attestation c f k = do
  file ← wrap f.intoto missing_attestation
  env ← wrap (c.read_envelope file) malformed_attestation
  fail_if (env.payload_type != payload_type) (unexpected_payload_type env.payload_type)
  payload ← payload_read (c.from_base64 env.payload)
  fail_if (is_empty env.signatures) no_signatures
  fail_if (not (any_verifies c k (pae c env.payload_type payload) env.signatures))
      attestation_invalid
  st ← wrap (c.read_statement payload) malformed_statement
  fail_if (st.predicate_type != predicate_type) (unexpected_predicate_type st.predicate_type)
  content ← wrap f.evidence reading
  fail_if (not (any_subject c (c.to_hex (c.sha256 content)) st.subjects)) digest_mismatch

-- `SignerKey`
unfoldable pub signer_key : Crypto → Files → Result SignError Bytes
signer_key c f = do
  file ← wrap f.sig missing_signature
  s ← wrap (c.read_signature file) malformed_envelope
  key_read (c.from_hex s.public_key)

pub data KeySource : Type 0 where
  pinned_key signature_envelope key_directory : KeySource

pub data BundleNote : Type 0 where
  no_attestation not_checked : BundleNote

pub record BundleResult : Type 0 where
  pub signer_fingerprint : Text
  pub attestation_checked : Bool
  pub key_source : Option KeySource
  pub notes : List BundleNote

abbrev fingerprint_of : Crypto → Result SignError Bytes → Text
fingerprint_of c (ok k) = fingerprint c k
fingerprint_of c (err e) = []

abbrev pub unchecked : Text → BundleNote → BundleResult
unchecked signer note = record {
  signer_fingerprint = signer;
  attestation_checked = false;
  key_source = none;
  notes = note ∷ [];
}

abbrev pub checked_with : Crypto → Files → Text → KeySource → Bytes → Result SignError BundleResult
checked_with c f signer source k = do
  verify_attestation c f k
  ok (record {
    signer_fingerprint = signer;
    attestation_checked = true;
    key_source = some source;
    notes = [];
  })

-- The key directory, none where it is not set, gives `LoadPublicKey`'s answer.
abbrev pub from_directory :
    Crypto → Files → Text → Option (Result String Bytes) → Result SignError BundleResult
from_directory c f signer none = ok (unchecked signer not_checked)
from_directory c f signer (some (err e)) = ok (unchecked signer not_checked)
from_directory c f signer (some (ok k)) = checked_with c f signer key_directory k

abbrev pub from_signer :
    Crypto
    → Files
    → Text
    → Result SignError Bytes
    → Option (Result String Bytes)
    → Result SignError BundleResult
from_signer c f signer (ok k) dir = checked_with c f signer signature_envelope k
from_signer c f signer (err e) dir = from_directory c f signer dir

abbrev pub with_key :
    Crypto
    → Files
    → Text
    → Option Bytes
    → Option (Result String Bytes)
    → Result SignError BundleResult
with_key c f signer (some k) dir = checked_with c f signer pinned_key k
with_key c f signer none dir = from_signer c f signer (signer_key c f) dir

abbrev pub if_attested : Bool → Text → Result SignError BundleResult → Result SignError BundleResult
if_attested false signer rest = ok (unchecked signer no_attestation)
if_attested true signer rest = rest

-- `VerifyBundle`
unfoldable pub verify_bundle :
    Crypto → Files → Option Bytes → Option (Result String Bytes) → Result SignError BundleResult
verify_bundle c f trusted dir = do
  verify c f trusted
  let signer = fingerprint_of c (signer_key c f) in
      if_attested f.intoto_there signer (with_key c f signer trusted dir)
