-- ===== src/Verify/Types.antt =====
-- The types of pkg/verify/verify.go and engine.go. A detail is a constructor for its text, with the
-- values that the text shows. The context carries the cluster's client as what it answers.
use fire_drill.Base.{ℕ, ℤ, Option, String, Bool, List, Result, false}

-- What the code tells apart in an error of an engine's checksum.
pub data EngineError : Type 0 where
  no_checksum_dialect no_connection : EngineError
  query_error : String → EngineError

-- The interface `Engine`: what each query answers.
pub record Engine : Type 0 where
  pub count : String → Result EngineError ℤ
  pub rows : String → Result EngineError ℕ
  pub scalar : String → Result EngineError String
  pub checksum : String → String → Result EngineError String

pub data Phase : Type 0 where
  pending running succeeded failed unknown : Phase

-- A condition: whether its type is `Ready`, and whether its status is `True`.
pub record Condition : Type 0 where
  pub is_ready_type : Bool
  pub is_true : Bool

pub record Pod : Type 0 where
  pub phase : Phase
  pub conditions : List Condition

-- One round of the polling loop, taken before the deadline.
pub data Sample : Type 0 where
  cancelled : String → Sample
  list_error : String → Sample
  listed : List Pod → Sample

-- The Kubernetes client: the rounds that fit before a deadline, and how many objects of a kind a
-- namespace holds.
pub record Cluster : Type 0 where
  pub samples : String → ℤ → List Sample
  pub count : String → String → Result String ℕ

pub record Context : Type 0 where
  pub restore_err : Option String
  pub backup_age : ℤ
  pub rto : ℤ
  pub k8s : Option Cluster
  pub namespace : String

pub data Detail : Type 0 where
  restore_error : String → Detail
  restore_completed : Detail
  age_of : ℤ → ℤ → Detail
  restore_skipped no_engine : Detail
  query_failed : EngineError → Detail
  rows_min : ℤ → ℤ → Detail
  bad_identifier no_dialect : Detail
  checksum_expected : String → String → String → String → Detail
  checksum_is : String → String → String → Detail
  bad_expect_rows : String → Detail
  rows_expect : ℕ → String → Detail
  sentinel_mismatch sentinel_intact : Detail
  no_cluster : Detail
  context_error listing_pods : String → Detail
  no_pods no_detail : Detail
  pods_not_ready : ℕ → ℕ → Detail
  pods_stable : ℕ → Detail
  timeout_after : ℤ → Detail → Detail
  unsupported_kind : String → Detail
  listing_kind : String → String → Detail
  count_min : ℕ → String → ℤ → Detail
  unrecognized : Detail

-- The outcome of one check, `Result` in the source.
pub record CheckResult : Type 0 where
  pub name : String
  pub passed : Bool
  pub detail : Detail
  pub skipped : Bool

-- A result that was not skipped.
abbrev pub result : String → Bool → Detail → CheckResult
result name passed detail = record {
  name = name;
  passed = passed;
  detail = detail;
  skipped = false;
}
