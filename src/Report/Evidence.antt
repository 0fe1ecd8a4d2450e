-- ===== src/Report/Evidence.antt =====
-- `Evidence` of pkg/report/evidence.go. Instants are nanoseconds since the zero time, and the
-- seconds that the source keeps as floats are durations here.
use fire_drill.Base.{ℕ, ℤ, Bool, List, Option, String}
use fire_drill.Verify.Types.{CheckResult}

pub record BackupFacts : Type 0 where
  pub uri : String
  pub mod_time : ℕ
  pub age : ℤ
  pub bytes : ℤ
  pub resolved_uri : String
  pub encryption : String
  pub compression : String
  pub uncompressed_bytes : ℤ

pub record ObjectiveFacts : Type 0 where
  pub rto : ℤ
  pub rpo : ℤ

pub record Measured : Type 0 where
  pub restore : ℤ
  pub rto_met : Bool
  pub rpo_met : Bool

pub record SandboxFacts : Type 0 where
  pub provider : String
  pub image : String
  pub destroyed : Bool

pub record Evidence : Type 0 where
  pub drill : String
  pub tool : String
  pub started_at : ℕ
  pub finished_at : ℕ
  pub backup : BackupFacts
  pub objectives : ObjectiveFacts
  pub measured : Measured
  pub sandbox : SandboxFacts
  pub checks : List CheckResult
  pub controls : List String
  pub verified : Bool
  pub error : Option String
