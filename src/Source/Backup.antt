-- ===== src/Source/Backup.antt =====
-- `Backup` of pkg/source/source.go; its `cleanup` is whether there is a temporary file to remove.
use fire_drill.Base.{ℕ, ℤ, Bool, String, string_eq}

pub record Backup : Type 0 where
  pub path : String
  pub mod_time : ℕ
  pub size : ℤ
  pub resolved_uri : String
  pub encryption : String
  pub compression : String
  pub uncompressed_bytes : ℤ
  pub temporary : Bool
