-- ===== src/Spec/Checks.antt =====
-- `(*Check).validate` of pkg/spec/spec.go: a check sets exactly one of its fields, and sets it well.
pub mod Valid
use fire_drill.Base.{
  ℕ, zero, suc, ◌+◌, ◌≡◌, refl, Bool, true, false, ◌&&◌, ◌||◌, Option, none, some, String, ℤ, pos,
  leb_ℤ, ok, err, ◌>>=◌, ◌>>◌, fail_if, ◌==◌, ◌!=◌, nat_eq, string_eq, if◌then◌else◌, Result,
}
use fire_drill.Spec.Document.{
  Check, FreshnessCheck, RowCountCheck, ChecksumCheck, SmokeCheck, CanaryCheck, PodsReadyCheck,
  ResourceCountCheck, smoke_statement, canary_statement,
}

-- The errors that the function returns; the count is the one that its message shows.
pub data CheckProblem : Type 0 where
  freshness_max_age row_count_query checksum_columns : CheckProblem
  smoke_both smoke_missing canary_both canary_missing pods_ready_timeout : CheckProblem
  resource_kind : String → CheckProblem
  not_one : ℕ → CheckProblem

abbrev Outcome : Type 0
Outcome = Result CheckProblem (Unit {0})

unfoldable pub freshness_valid : FreshnessCheck → Result CheckProblem (Unit {0})
freshness_valid c = fail_if (leb_ℤ c.max_age (pos 0)) freshness_max_age

unfoldable pub row_count_valid : RowCountCheck → Result CheckProblem (Unit {0})
row_count_valid c = fail_if (c.query == "") row_count_query

unfoldable pub checksum_valid : ChecksumCheck → Result CheckProblem (Unit {0})
checksum_valid c = fail_if (c.table == "" || c.column == "") checksum_columns

unfoldable pub smoke_valid : SmokeCheck → Result CheckProblem (Unit {0})
unfolding smoke_statement
smoke_valid c = do
  fail_if (c.sql != "" && c.query != "") smoke_both
  fail_if (smoke_statement c == "") smoke_missing

unfoldable pub canary_valid : CanaryCheck → Result CheckProblem (Unit {0})
unfolding canary_statement
canary_valid c = do
  fail_if (c.sql != "" && c.query != "") canary_both
  fail_if (canary_statement c == "" || c.expect == "") canary_missing

unfoldable pub pods_ready_valid : PodsReadyCheck → Result CheckProblem (Unit {0})
pods_ready_valid c = fail_if (leb_ℤ c.timeout (pos 0)) pods_ready_timeout

unfoldable pub known_resource : String → Bool
known_resource k =
    k == "deployments"
    || k == "statefulsets"
    || k == "services"
    || k == "configmaps"
    || k == "secrets"
    || k == "pods"

unfoldable pub resource_count_valid : ResourceCountCheck → Result CheckProblem (Unit {0})
unfolding known_resource
resource_count_valid c = if known_resource c.kind then ok tt else err (resource_kind c.kind)

-- One `if c.Field != nil { n++ … }` block: the count so far, with the early return of its check.
abbrev pub visit :
    {A : Type 0} → (A → Result CheckProblem (Unit {0})) → Option A → ℕ → Result CheckProblem ℕ
visit valid none n = ok n
visit valid (some a) n = valid a >>= λ _. ok (suc n)

unfoldable pub check_validate : Check → Result CheckProblem (Unit {0})
check_validate c = do
  n ← visit (λ _. ok tt) c.restore_succeeded 0
  n ← visit freshness_valid c.freshness n
  n ← visit row_count_valid c.row_count n
  n ← visit checksum_valid c.checksum n
  n ← visit smoke_valid c.smoke n
  n ← visit canary_valid c.canary n
  n ← visit pods_ready_valid c.pods_ready n
  n ← visit resource_count_valid c.resource_count n
  fail_if (n != 1) (not_one n)
