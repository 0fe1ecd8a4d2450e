-- ===== src/Verify/Run.antt =====
-- `Run`, `runOne` and the data checks of pkg/verify/verify.go, and `resourceCount` of k8s.go.
pub mod Holds
pub mod Skipped
use fire_drill.Base.{
  ℕ, Bool, true, false, not, ◌&&◌, ◌||◌, List, [], ◌∷◌, Option, none, some, ℤ, pos, String, ok, err,
  Result, leb_ℤ, codes, all, leb, ◌==◌, ◌!=◌, nat_eq, string_eq, if◌then◌else◌, map,
}
use fire_drill.Spec.Document.{
  Check, ChecksumCheck, SmokeCheck, CanaryCheck, ResourceCountCheck, RowCountCheck, FreshnessCheck,
  smoke_statement, canary_statement,
}
use fire_drill.Spec.Checks.{known_resource}
use fire_drill.Verify.Types.{
  EngineError, Engine, Cluster, Context, Detail, CheckResult, result, no_checksum_dialect,
  restore_error, restore_completed, age_of, restore_skipped, no_engine, query_failed, rows_min,
  bad_identifier, no_dialect, checksum_expected, checksum_is, bad_expect_rows, rows_expect,
  sentinel_mismatch, sentinel_intact, no_cluster, unsupported_kind, listing_kind, count_min,
  unrecognized,
}
use fire_drill.Verify.Rows.{eval_rows}
use fire_drill.Verify.Pods.{pods_ready}

-- `identRe`, `^[a-zA-Z_][a-zA-Z0-9_.]*$`.
abbrev is_letter : ℕ → Bool
is_letter c = (leb b'a' c && leb c b'z') || (leb b'A' c && leb c b'Z') || c == b'_'

abbrev ident : List ℕ → Bool
ident [] = false
ident (c ∷ cs) = is_letter c && all (λ d. is_letter d || (leb b'0' d && leb d b'9') || d == b'.') cs

unfoldable pub ident_re : String → Bool
ident_re s = ident (codes s)

unfoldable pub data_check : Context → String → CheckResult → CheckResult
data_check dc name run = elim dc.restore_err [
  | none ↦ run
  | some e ↦ record { name = name; passed = false; detail = restore_skipped; skipped = true }
]

unfoldable pub require_engine : Option Engine → String → (Engine → CheckResult) → CheckResult
require_engine none name run = result name false no_engine
require_engine (some eng) name run = run eng

unfoldable pub row_count : RowCountCheck → Engine → CheckResult
row_count c eng = elim (eng.count c.query) [
  | err e ↦ result "rowCount" false (query_failed e)
  | ok n ↦ result "rowCount" (leb_ℤ c.min n) (rows_min n c.min)
]

abbrev checksum_error : EngineError → Detail
checksum_error no_checksum_dialect = no_dialect
checksum_error e = query_failed e

unfoldable pub checksum : ChecksumCheck → Engine → CheckResult
checksum c eng =
    if not (ident_re c.table) || not (ident_re c.column)
    then result "checksum" false bad_identifier
    else elim (eng.checksum c.table c.column) [
      | err e ↦ result "checksum" false (checksum_error e)
      | ok sum ↦
          if c.expect != "" && sum != c.expect
          then result "checksum" false (checksum_expected c.table c.column sum c.expect)
          else result "checksum" true (checksum_is c.table c.column sum)
    ]

abbrev pub expected_rows : SmokeCheck → String
expected_rows c = if c.expect_rows == "" then ">=1" else c.expect_rows

unfoldable pub smoke : SmokeCheck → Engine → CheckResult
smoke c eng = elim (eng.rows (smoke_statement c)) [
  | err e ↦ result "smoke" false (query_failed e)
  | ok n ↦ elim (eval_rows n (expected_rows c)) [
    | err e ↦ result "smoke" false (bad_expect_rows e)
    | ok fits ↦ result "smoke" fits (rows_expect n (expected_rows c))
  ]
]

unfoldable pub canary : CanaryCheck → Engine → CheckResult
canary c eng = elim (eng.scalar (canary_statement c)) [
  | err e ↦ result "canary" false (query_failed e)
  | ok got ↦
      if got != c.expect
      then result "canary" false sentinel_mismatch
      else result "canary" true sentinel_intact
]

unfoldable pub resource_count : Option Cluster → String → ResourceCountCheck → CheckResult
resource_count none namespace c = result "resourceCount" false no_cluster
resource_count (some k) namespace c =
    if known_resource c.kind
    then elim (k.count c.kind namespace) [
      | err e ↦ result "resourceCount" false (listing_kind c.kind e)
      | ok n ↦ result "resourceCount" (leb_ℤ c.min (pos n)) (count_min n c.kind c.min)
    ]
    else result "resourceCount" false (unsupported_kind c.kind)

unfoldable pub restore_succeeded : Context → CheckResult
restore_succeeded dc = elim dc.restore_err [
  | none ↦ result "restoreSucceeded" true restore_completed
  | some e ↦ result "restoreSucceeded" false (restore_error e)
]

unfoldable pub freshness : FreshnessCheck → Context → CheckResult
freshness c dc = result "freshness" (leb_ℤ dc.backup_age c.max_age) (age_of dc.backup_age c.max_age)

-- A case of the `switch` on the fields that are set, and the cases after it.
abbrev pub on : {A : Type 0} → Option A → (A → CheckResult) → CheckResult → CheckResult
on none run rest = rest
on (some a) run rest = run a

unfoldable pub run_one : Option Engine → Check → Context → CheckResult
run_one eng c dc =
    on c.restore_succeeded (λ _. restore_succeeded dc)
      (on c.freshness (λ f. freshness f dc)
        (on c.row_count
          (λ r. data_check dc "rowCount" (require_engine eng "rowCount" (row_count r)))
          (on c.checksum
            (λ s. data_check dc "checksum" (require_engine eng "checksum" (checksum s)))
            (on c.smoke (λ s. data_check dc "smoke" (require_engine eng "smoke" (smoke s)))
              (on c.canary (λ s. data_check dc "canary" (require_engine eng "canary" (canary s)))
                (on c.pods_ready (λ p. data_check dc "podsReady" (pods_ready dc.k8s dc.namespace p))
                  (on c.resource_count
                    (λ r. data_check dc "resourceCount" (resource_count dc.k8s dc.namespace r))
                    (result "unknown" false unrecognized))))))))

unfoldable pub run : Option Engine → List Check → Context → List CheckResult
run eng checks dc = map (λ c. run_one eng c dc) checks
