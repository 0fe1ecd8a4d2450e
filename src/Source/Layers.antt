-- ===== src/Source/Layers.antt =====
-- pkg/source/decrypt.go and `decompress` of compress.go: what is undone to read an artifact. The
-- decoders, the keys and the host's gpg are outside, and show as what they answer.
pub mod Undone
use fire_drill.Base.{
  ℕ, ◌+◌, ◌-◌, ◌++◌, ◌∷◌, [], List, ok, err, Result, Bool, true, false, ◌&&◌, ◌!=◌, ◌==◌, nat_eq,
  string_eq, arith, ◌>>=◌, ◌>>◌, fail_if, ltb, if◌then◌else◌, none, some, String, Option, length,
  take, is_empty, any, codes,
}
use fire_drill.Spec.Document.{Decrypt}
use fire_drill.Source.Limits.{Stream}

-- Age, gpg and the decompressors. `header` is what an armored age file begins with, and an identity
-- is its text. The last answers of gpg are its output and the message with which it failed.
pub record Decoders : Type 0 where
  pub header : List ℕ
  pub open_file : String → Result String (List ℕ)
  pub getenv : String → String
  pub parse_identities : List ℕ → Result String (List String)
  pub scrypt_identity : String → Result String String
  pub age : List String → Bool → Stream → Result String Stream
  pub gpg_path : Option String
  pub pipe : Option String
  pub stdout_pipe : Option String
  pub start : Option String
  pub gpg : Option String → Stream → Stream × Option String
  pub gzip : Stream → Result String Stream
  pub zstd : Stream → Result String Stream
  pub bzip2 : Stream → Stream

pub data LayerError : Type 0 where
  reading : String → LayerError
  looks_encrypted unsupported_type : String → LayerError
  identity_file empty_identity_env empty_passphrase_env bad_passphrase : String → LayerError
  parsing : String → String → LayerError
  no_identities : LayerError
  wrong_identity : String → LayerError
  no_gpg gpg_pipe starting_gpg : String → LayerError
  bad_gzip bad_zstd : String → LayerError

abbrev pub wrap : {A E : Type 0} → Result String A → (String → E) → Result E A
wrap (ok a) f = ok a
wrap (err e) f = err (f e)

abbrev pub fail_with : {E : Type 0} → Option String → (String → E) → Result E (Unit {0})
fail_with none f = ok tt
fail_with (some e) f = err (f e)

abbrev pub has_prefix : List ℕ → List ℕ → Bool
has_prefix xs [] = true
has_prefix [] (p ∷ ps) = false
has_prefix (x ∷ xs) (p ∷ ps) = x == p && has_prefix xs ps

-- A table of signatures, and the first that the leading bytes have.
abbrev pub detect_in : List (String × List ℕ) → List ℕ → String
detect_in [] head = ""
detect_in ((name, magic) ∷ ms) head = if has_prefix head magic then name else detect_in ms head

abbrev pub encryption_magics : Decoders → List (String × List ℕ)
encryption_magics d =
    ("age", codes "age-encryption.org/v1")
    ∷ ("age", d.header)
    ∷ ("gpg", codes "-----BEGIN PGP MESSAGE-----")
    ∷ []

abbrev pgp_packet_tags : List ℕ
pgp_packet_tags = 132 ∷ 133 ∷ 140 ∷ 193 ∷ 195 ∷ []

abbrev tagged : List ℕ → Bool
tagged [] = false
tagged (b ∷ bs) = any (λ t. t == b) pgp_packet_tags

unfoldable pub detect_encryption : Decoders → List ℕ → String
detect_encryption d head =
    let name = detect_in (encryption_magics d) head in
    if name != "" then name else if tagged head then "gpg" else ""

abbrev longest : ℕ → List (String × List ℕ) → ℕ
longest n [] = n
longest n ((name, magic) ∷ ms) = longest (if ltb n (length magic) then length magic else n) ms

abbrev pub max_encryption_magic : Decoders → ℕ
max_encryption_magic d = longest 1 (encryption_magics d)

-- What `Peek` answers: the leading bytes, and the error when there are none at all.
abbrev pub peek : ℕ → Stream → Result LayerError (List ℕ)
peek n s =
    if is_empty s.bytes
    then elim s.error [ none ↦ ok [] | some e ↦ err (reading e) ]
    else ok (take n s.bytes)

abbrev unless_empty : String → Result LayerError (List String) → Result LayerError (List String)
unless_empty name r = if name == "" then ok [] else r

abbrev identities_of_file : Decoders → String → Result LayerError (List String)
identities_of_file d path = do
  f ← wrap (d.open_file path) identity_file
  wrap (d.parse_identities f) (parsing path)

abbrev identities_of_env : Decoders → String → Result LayerError (List String)
identities_of_env d name = do
  fail_if (d.getenv name == "") (empty_identity_env name)
  wrap (d.parse_identities (codes (d.getenv name))) (parsing name)

abbrev identities_of_passphrase : Decoders → String → Result LayerError (List String)
identities_of_passphrase d name = do
  fail_if (d.getenv name == "") (empty_passphrase_env name)
  id ← wrap (d.scrypt_identity (d.getenv name)) bad_passphrase
  ok (id ∷ [])

unfoldable pub age_identities : Decoders → Decrypt → Result LayerError (List String)
age_identities d cfg = do
  files ← unless_empty cfg.identity_file (identities_of_file d cfg.identity_file)
  envs ← unless_empty cfg.identity_env (identities_of_env d cfg.identity_env)
  phrases ← unless_empty cfg.passphrase_env (identities_of_passphrase d cfg.passphrase_env)
  fail_if (is_empty (files ++ envs ++ phrases)) no_identities
  ok (files ++ envs ++ phrases)

-- A stream that was read, and the name of the layer that was undone.
pub record Layer : Type 0 where
  pub contents : Stream
  pub name : String

unfoldable pub decrypt_age : Decoders → Stream → List ℕ → Decrypt → Result LayerError Layer
decrypt_age d s head cfg = do
  ids ← age_identities d cfg
  out ← wrap (d.age ids (has_prefix head d.header) s) wrong_identity
  ok (record { contents = out; name = "age" })

-- `gpgReader`: the exit of gpg is an error of the reading.
abbrev pub gpg_reader : Stream → Option String → Stream
gpg_reader out none = out
gpg_reader out (some message) = elim out.error [
  | none ↦ record out { error = some message }
  | some e ↦ out
]

abbrev pub passphrase_of : Decoders → String → Result LayerError (Option String)
passphrase_of d name = if name == "" then ok none else do
  fail_if (d.getenv name == "") (empty_passphrase_env name)
  fail_with d.pipe gpg_pipe
  ok (some (d.getenv name))

unfoldable pub decrypt_gpg : Decoders → Stream → Decrypt → Result LayerError Layer
decrypt_gpg d s cfg = do
  fail_with d.gpg_path no_gpg
  pass ← passphrase_of d cfg.passphrase_env
  fail_with d.stdout_pipe gpg_pipe
  fail_with d.start starting_gpg
  let (out, exit) = d.gpg pass s in ok (record { contents = gpg_reader out exit; name = "gpg" })

abbrev pub plain_layer : Stream → Layer
plain_layer s = record { contents = s; name = "" }

abbrev pub decrypt_as : Decoders → Stream → List ℕ → Option Decrypt → Result LayerError Layer
decrypt_as d s head none =
    let found = detect_encryption d head in
    if found != "" then err (looks_encrypted found) else ok (plain_layer s)
decrypt_as d s head (some cfg) =
    if cfg.type == "age"
    then decrypt_age d s head cfg
    else if cfg.type == "gpg"
    then decrypt_gpg d s cfg
    else err (unsupported_type cfg.type)

unfoldable pub decrypt : Decoders → Stream → Option Decrypt → Result LayerError Layer
decrypt d s cfg = do head ← peek (max_encryption_magic d) s; decrypt_as d s head cfg

abbrev magics : List (String × List ℕ)
magics = ("zstd", 40 ∷ 181 ∷ 47 ∷ 253 ∷ []) ∷ ("gzip", 31 ∷ 139 ∷ []) ∷ ("bzip2", codes "BZh") ∷ []

unfoldable pub detect : List ℕ → String
detect head = detect_in magics head

abbrev pub max_magic : ℕ
max_magic = 4

abbrev pub expand : Decoders → Stream → String → Result LayerError Layer
expand d s found =
    if found == "gzip"
    then (wrap (d.gzip s) bad_gzip >>= λ r. ok (record { contents = r; name = "gzip" }))
    else if found == "zstd"
    then (wrap (d.zstd s) bad_zstd >>= λ r. ok (record { contents = r; name = "zstd" }))
    else if found == "bzip2"
    then ok (record { contents = d.bzip2 s; name = "bzip2" })
    else ok (plain_layer s)

unfoldable pub decompress : Decoders → Stream → Result LayerError Layer
decompress d s = do head ← peek max_magic s; expand d s (detect head)
