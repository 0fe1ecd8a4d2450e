-- ===== src/Spec/Document.antt =====
-- The types of pkg/spec/spec.go. A Go pointer to a block is an option; a duration is in
-- nanoseconds; the YAML tags and the marshalling of durations are left out.
use fire_drill.Base.{
  ℤ, Option, none, some, String, List, Bool, true, false, ◌||◌, ◌!=◌, string_eq, if◌then◌else◌,
}

abbrev pub Duration : Type 0
Duration = ℤ

abbrev pub api_version : String
api_version = "firedrill.dev/v1"

abbrev pub kind : String
kind = "RecoveryDrill"

pub record Metadata : Type 0 where
  pub name : String

pub record Objectives : Type 0 where
  pub rto : Duration
  pub rpo : Duration

-- `type` is the tag of `Type`.
pub record Decrypt : Type 0 where
  pub type : String
  pub identity_file : String
  pub identity_env : String
  pub passphrase_env : String

pub record From : Type 0 where
  pub type : String
  pub uri : String
  pub credentials_ref : String
  pub region : String
  pub endpoint : String
  pub max_bytes : ℤ
  pub max_uncompressed_bytes : ℤ
  pub decrypt : Option Decrypt
  pub select : String
  pub match : String
  pub backup : String
  pub namespace : String

pub record Source : Type 0 where
  pub driver : String
  pub source_from : From
  pub format : String
  pub database : String

pub record Sandbox : Type 0 where
  pub provider : String
  pub image : String
  pub ttl : Duration
  pub namespace : String

pub record FreshnessCheck : Type 0 where
  pub max_age : Duration

pub record RowCountCheck : Type 0 where
  pub query : String
  pub min : ℤ

pub record ChecksumCheck : Type 0 where
  pub table : String
  pub column : String
  pub expect : String

pub record CanaryCheck : Type 0 where
  pub sql : String
  pub query : String
  pub expect : String

pub record PodsReadyCheck : Type 0 where
  pub timeout : Duration

pub record ResourceCountCheck : Type 0 where
  pub kind : String
  pub min : ℤ

pub record SmokeCheck : Type 0 where
  pub sql : String
  pub query : String
  pub expect_rows : String

-- A check whose fields are all set or unset as the document says; `validate` asks for exactly one.
pub record Check : Type 0 where
  pub restore_succeeded : Option (Unit {0})
  pub freshness : Option FreshnessCheck
  pub row_count : Option RowCountCheck
  pub checksum : Option ChecksumCheck
  pub smoke : Option SmokeCheck
  pub canary : Option CanaryCheck
  pub pods_ready : Option PodsReadyCheck
  pub resource_count : Option ResourceCountCheck

pub record Sink : Type 0 where
  pub type : String
  pub textfile_dir : String
  pub url : String
  pub webhook_env : String
  pub url_env : String
  pub only_failures : Bool

pub record Report : Type 0 where
  pub sign : Bool
  pub html : Bool
  pub controls : List String
  pub dir : String
  pub sinks : List Sink

pub record Spec : Type 0 where
  pub schedule : String
  pub objectives : Objectives
  pub source : Source
  pub sandbox : Sandbox
  pub verify : List Check
  pub report : Report

pub record Drill : Type 0 where
  pub api_version : String
  pub kind : String
  pub metadata : Metadata
  pub spec : Spec

-- `(*CanaryCheck).Statement`
unfoldable pub canary_statement : CanaryCheck → String
canary_statement c = if c.query != "" then c.query else c.sql

-- `(*SmokeCheck).Statement`
unfoldable pub smoke_statement : SmokeCheck → String
smoke_statement c = if c.query != "" then c.query else c.sql

-- The fields of a check as the document orders them, and whether each is set.
abbrev pub is_set {ℓ} : {A : Type ℓ} → Option A → Bool
is_set none = false
is_set (some a) = true

-- `(*Check).isSQL`
unfoldable pub is_sql : Check → Bool
is_sql c = is_set c.row_count || is_set c.checksum || is_set c.smoke || is_set c.canary

-- `(*Check).isK8s`
unfoldable pub is_k8s : Check → Bool
is_k8s c = is_set c.pods_ready || is_set c.resource_count

-- `(*Check).provesData`
unfoldable pub proves_data : Check → Bool
unfolding is_sql is_k8s
proves_data c = is_sql c || is_k8s c
