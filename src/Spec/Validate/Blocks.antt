-- ===== src/Spec/Validate/Blocks.antt =====
-- What each block of `Validate` accepts, stated of the document and not of the tests.
use fire_drill.Base.{
  ◌≡◌, ◌≢◌, refl, ◌↔◌, ◌⊎◌, inl, inr, Bool, true, false, Option, none, some, [], String, string_eq,
  eq_iff, arith, ◌<ℤ◌, pos,
}
use fire_drill.Std.Glob.{path_match}
use fire_drill.Spec.Document.{Decrypt, From, Source, Sandbox, Objectives, is_set}
use fire_drill.Spec.Validate.{
  format_problems, database_problems, driver_problems, decrypt_problems, fetch_problems,
  velero_problems, from_problems, sandbox_problems, objective_problems,
}

-- The formats that a driver reads.
abbrev pub FormatFits : String → String → Type 0
FormatFits driver format =
    (format ≡ "")
    ⊎ (format ≡ "dump") × (driver ≢ "mongodb")
    ⊎ (format ≡ "basebackup") × (driver ≡ "postgres")
    ⊎ (format ≡ "archive") × (driver ≡ "mongodb")

pub format_problems_iff :
    (driver format : String) → (format_problems driver format ≡ []) ↔ FormatFits driver format
unfolding format_problems
format_problems_iff driver format = (
  λ h. ground (
    arith,
    eq_iff format "",
    eq_iff format "dump",
    eq_iff format "basebackup",
    eq_iff format "archive",
    eq_iff driver "mongodb",
    eq_iff driver "postgres",
  ),
  elim [
    | inl e ↦ rw e
    | inr (inl (e, n)) ↦ rw e (ground (arith, eq_iff driver "mongodb"))
    | inr (inr (inl (e, p))) ↦ rw (e, p)
    | inr (inr (inr (e, p))) ↦ rw (e, p)
  ],
)

pub database_problems_iff :
    (s : Source)
    → (database_problems s ≡ [])
      ↔ ((s.database ≡ "") ⊎ (s.format ≡ "basebackup") ⊎ (s.driver ≡ "mongodb"))
unfolding database_problems
database_problems_iff s = (
  λ h.
      ground (arith, eq_iff s.database "", eq_iff s.format "basebackup", eq_iff s.driver "mongodb"),
  λ h.
      ground (arith, eq_iff s.database "", eq_iff s.format "basebackup", eq_iff s.driver "mongodb"),
)

abbrev pub IsDriver : String → Type 0
IsDriver driver =
    (driver ≡ "postgres") ⊎ (driver ≡ "mysql") ⊎ (driver ≡ "mongodb") ⊎ (driver ≡ "velero")

pub driver_problems_iff : (driver : String) → (driver_problems driver ≡ []) ↔ IsDriver driver
unfolding driver_problems
driver_problems_iff d = (
  λ h. ground (arith, eq_iff d "postgres", eq_iff d "mysql", eq_iff d "mongodb", eq_iff d "velero"),
  λ h. ground (arith, eq_iff d "postgres", eq_iff d "mysql", eq_iff d "mongodb", eq_iff d "velero"),
)

-- Keys that suit the encryption: age needs one, gpg has its own.
abbrev pub DecryptFits : Option Decrypt → Type 0
DecryptFits none = Unit
DecryptFits (some d) =
    (d.type ≡ "age") × ((d.identity_file ≢ "") ⊎ (d.identity_env ≢ "") ⊎ (d.passphrase_env ≢ ""))
    ⊎ (d.type ≡ "gpg") × (d.identity_file ≡ "") × (d.identity_env ≡ "")

pub decrypt_problems_iff : (o : Option Decrypt) → (decrypt_problems o ≡ []) ↔ DecryptFits o
unfolding decrypt_problems
decrypt_problems_iff none = (λ _. tt, λ _. refl)
decrypt_problems_iff (some d) = (
  λ h. ground (
    arith,
    eq_iff d.type "age",
    eq_iff d.type "gpg",
    eq_iff d.identity_file "",
    eq_iff d.identity_env "",
    eq_iff d.passphrase_env "",
  ),
  elim [
    | inl (e, k) ↦ simp e (
        ground
          (arith, eq_iff d.identity_file "", eq_iff d.identity_env "", eq_iff d.passphrase_env ""))
    | inr (e, f, g) ↦ simp (e, f, g)
  ],
)

-- A file or S3 source: where the backup is, how one of several is picked, and how it is read.
pub record FetchFits (velero : Bool) (f : From) : Type 0 where
  pub engine : velero ≡ false
  pub located : f.uri ≢ ""
  pub endpoint_s3 : (f.endpoint ≡ "") ⊎ (f.type ≡ "s3")
  pub selection : (f.select ≡ "") ⊎ (f.select ≡ "latest")
  pub match_selects : (f.match ≡ "") ⊎ (f.select ≢ "")
  pub glob : is_set (path_match f.match "probe") ≡ true
  pub readable : DecryptFits f.decrypt

pub fetch_problems_iff : (v : Bool) (f : From) → (fetch_problems v f ≡ []) ↔ FetchFits v f
unfolding fetch_problems
fetch_problems_iff v f = (
  λ h. ground (
    arith,
    eq_iff f.uri "",
    eq_iff f.endpoint "",
    eq_iff f.type "s3",
    eq_iff f.select "",
    eq_iff f.select "latest",
    eq_iff f.match "",
    decrypt_problems_iff f.decrypt,
  ),
  λ h. ground (
    arith,
    eq_iff f.uri "",
    eq_iff f.endpoint "",
    eq_iff f.type "s3",
    eq_iff f.select "",
    eq_iff f.select "latest",
    eq_iff f.match "",
    (decrypt_problems_iff f.decrypt).1 h.readable,
  ),
)

-- A Velero source names a backup and the namespace that it covers, and nothing of a fetch.
pub record VeleroFits (velero : Bool) (f : From) : Type 0 where
  pub engine : velero ≡ true
  pub no_select : f.select ≡ ""
  pub no_match : f.match ≡ ""
  pub no_decrypt : f.decrypt ≡ none
  pub backup_named : f.backup ≢ ""
  pub namespace_named : f.namespace ≢ ""

pub velero_problems_iff : (v : Bool) (f : From) → (velero_problems v f ≡ []) ↔ VeleroFits v f
unfolding velero_problems
velero_problems_iff v f = (
  λ h.
      ground
        (arith, eq_iff f.select "", eq_iff f.match "", eq_iff f.backup "", eq_iff f.namespace ""),
  λ h.
      ground
        (arith, eq_iff f.select "", eq_iff f.match "", eq_iff f.backup "", eq_iff f.namespace ""),
)

abbrev pub FromFits : Bool → From → Type 0
FromFits velero f =
    ((f.type ≡ "file") ⊎ (f.type ≡ "s3")) × FetchFits velero f
    ⊎ (f.type ≡ "velero") × VeleroFits velero f

pub from_problems_iff : (v : Bool) (f : From) → (from_problems v f ≡ []) ↔ FromFits v f
unfolding from_problems
from_problems_iff v f = (
  λ h. ground (
    arith,
    eq_iff f.type "file",
    eq_iff f.type "s3",
    eq_iff f.type "velero",
    fetch_problems_iff v f,
    velero_problems_iff v f,
  ),
  elim [
    | inl (inl e, h) ↦ simp e ((fetch_problems_iff v f).1 h)
    | inl (inr e, h) ↦ simp e ((fetch_problems_iff v f).1 h)
    | inr (e, h) ↦ simp e ((velero_problems_iff v f).1 h)
  ],
)

-- Velero drills run in Kubernetes; the others name an image for their sandbox.
pub record SandboxFits (velero : Bool) (s : Sandbox) : Type 0 where
  pub provider : (s.provider ≡ "docker") × (velero ≡ false) ⊎ (s.provider ≡ "kubernetes")
  pub image : (s.image ≢ "") ⊎ (velero ≡ true)
  pub ttl : pos 0 <ℤ s.ttl

pub sandbox_problems_sound : (v : Bool) (s : Sandbox) → sandbox_problems v s ≡ [] → SandboxFits v s
unfolding sandbox_problems
sandbox_problems_sound v s h =
    ground (arith, eq_iff s.provider "docker", eq_iff s.provider "kubernetes", eq_iff s.image "")

pub sandbox_problems_complete :
    (v : Bool) (s : Sandbox) → SandboxFits v s → sandbox_problems v s ≡ []
unfolding sandbox_problems
sandbox_problems_complete v s h = elim h.provider [
  | inl (e, d) ↦ simp (e, d) (ground (arith, h.image, h.ttl, eq_iff s.image ""))
  | inr e ↦ simp e (ground (arith, h.image, h.ttl, eq_iff s.image ""))
]

pub objective_problems_iff :
    (o : Objectives) → (objective_problems o ≡ []) ↔ ((pos 0 <ℤ o.rto) × (pos 0 <ℤ o.rpo))
unfolding objective_problems
objective_problems_iff o = (λ h. ground arith, λ h. ground arith)
