-- ===== src/Examples/Documents.antt =====
-- The documents of pkg/spec on the two drills.
use fire_drill.Base.{◌≡◌, ◌≢◌, refl, List, [], ◌∷◌, ok, err, map, All}
use fire_drill.Spec.Document.{Drill, proves_data, is_sql, is_k8s, canary_statement, smoke_statement}
use fire_drill.Spec.Name.{is_alnum, is_label_char, name_re}
use fire_drill.Spec.Checks.{
  freshness_valid, row_count_valid, checksum_valid, smoke_valid, canary_valid, pods_ready_valid,
  known_resource, resource_count_valid, check_validate,
}
use fire_drill.Spec.Checks.Valid.{only}
use fire_drill.Std.Glob.{path_match}
use fire_drill.Spec.Validate.{
  header_problems, format_problems, database_problems, driver_problems, decrypt_problems,
  fetch_problems, velero_problems, from_problems, sandbox_problems, objective_problems,
  check_problems, verify_problems, sink_problems, validate,
}
use fire_drill.Spec.Validate.WellFormed.{WellFormed, validate_iff}
use fire_drill.Spec.Files.{Document, parse_from, parse_all, find_drill, duplicate}
use fire_drill.Spec.Files.Accepted.{UniqueNames, parse_all_iff, find_drill-parse_all}
use fire_drill.Examples.Data.{payments, web, sentinel, repeated}

pub payments_valid : validate payments ≡ []
unfolding is_alnum is_label_char name_re proves_data is_sql is_k8s canary_statement smoke_statement
    freshness_valid row_count_valid checksum_valid smoke_valid canary_valid pods_ready_valid
    known_resource resource_count_valid check_validate path_match header_problems format_problems
    database_problems driver_problems decrypt_problems fetch_problems velero_problems from_problems
    sandbox_problems objective_problems check_problems verify_problems sink_problems validate
payments_valid = refl

pub repeated_valid : validate repeated ≡ []
unfolding is_alnum is_label_char name_re proves_data is_sql is_k8s canary_statement smoke_statement
    freshness_valid row_count_valid checksum_valid smoke_valid canary_valid pods_ready_valid
    known_resource resource_count_valid check_validate path_match header_problems format_problems
    database_problems driver_problems decrypt_problems fetch_problems velero_problems from_problems
    sandbox_problems objective_problems check_problems verify_problems sink_problems validate
repeated_valid = refl

validate_iff_example : WellFormed payments
validate_iff_example = (validate_iff payments).0 payments_valid

web_valid : validate web ≡ []
unfolding is_alnum is_label_char name_re proves_data is_sql is_k8s canary_statement smoke_statement
    freshness_valid row_count_valid checksum_valid smoke_valid canary_valid pods_ready_valid
    known_resource resource_count_valid check_validate path_match header_problems format_problems
    database_problems driver_problems decrypt_problems fetch_problems velero_problems from_problems
    sandbox_problems objective_problems check_problems verify_problems sink_problems validate
web_valid = refl

abbrev both : List Drill
both = payments ∷ web ∷ []

abbrev documents : List Document
documents = ok payments ∷ ok web ∷ []

both_parsed : parse_all documents ≡ ok both
unfolding parse_all parse_from
both_parsed = rw (payments_valid, web_valid) refl

parse_all_iff_example :
    (documents ≡ map ok both) × (both ≢ []) × All WellFormed both × UniqueNames both
parse_all_iff_example = (parse_all_iff documents both).0 both_parsed

find_drill-parse_all_example : All (λ d. find_drill both d.metadata.name ≡ ok d) both
find_drill-parse_all_example = find_drill-parse_all documents both both_parsed

sentinel_valid : check_validate (only sentinel) ≡ ok tt
unfolding canary_statement canary_valid check_validate
sentinel_valid = refl

-- Two documents of one name are refused.
same_name : parse_all (ok payments ∷ ok payments ∷ []) ≡ err (duplicate "payments")
unfolding parse_all parse_from
same_name = rw payments_valid refl
