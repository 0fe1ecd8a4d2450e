-- ===== src/Spec/Checks/Valid.antt =====
-- The checks that `(*Check).validate` accepts are those of one kind with sensible settings.
use fire_drill.Base.{
  subst, sym, ◌≡◌, refl, true, Option, none, some, String, pos, ok, nat_eq, string_eq, ◌<ℤ◌, ◌≢◌,
  ◌⊎◌, arith, ◌↔◌, eq_iff,
}
use fire_drill.Spec.Document.{
  Check, FreshnessCheck, RowCountCheck, ChecksumCheck, SmokeCheck, CanaryCheck, PodsReadyCheck,
  ResourceCountCheck,
}
use fire_drill.Spec.Checks.{
  freshness_valid, row_count_valid, checksum_valid, smoke_valid, canary_valid, pods_ready_valid,
  known_resource, resource_count_valid, check_validate,
}

-- A check as a value of one kind.
pub data Kind : Type 0 where
  restore_succeeded : Kind
  freshness : FreshnessCheck → Kind
  row_count : RowCountCheck → Kind
  checksum : ChecksumCheck → Kind
  smoke : SmokeCheck → Kind
  canary : CanaryCheck → Kind
  pods_ready : PodsReadyCheck → Kind
  resource_count : ResourceCountCheck → Kind

abbrev nothing : Check
nothing = record {
  restore_succeeded = none;
  freshness = none;
  row_count = none;
  checksum = none;
  smoke = none;
  canary = none;
  pods_ready = none;
  resource_count = none;
}

-- The document that sets the field of one kind, and no other.
abbrev pub only : Kind → Check
only restore_succeeded = record nothing { restore_succeeded = some tt }
only (freshness c) = record nothing { freshness = some c }
only (row_count c) = record nothing { row_count = some c }
only (checksum c) = record nothing { checksum = some c }
only (smoke c) = record nothing { smoke = some c }
only (canary c) = record nothing { canary = some c }
only (pods_ready c) = record nothing { pods_ready = some c }
only (resource_count c) = record nothing { resource_count = some c }

-- Exactly one of two statements is given.
abbrev OneStatement : String → String → Type 0
OneStatement sql query = ((sql ≢ "") × (query ≡ "")) ⊎ ((sql ≡ "") × (query ≢ ""))

-- The settings that make sense for a kind.
abbrev pub IsSensible : Kind → Type 0
IsSensible restore_succeeded = Unit
IsSensible (freshness c) = pos 0 <ℤ c.max_age
IsSensible (row_count c) = c.query ≢ ""
IsSensible (checksum c) = (c.table ≢ "") × (c.column ≢ "")
IsSensible (smoke c) = OneStatement c.sql c.query
IsSensible (canary c) = OneStatement c.sql c.query × (c.expect ≢ "")
IsSensible (pods_ready c) = pos 0 <ℤ c.timeout
IsSensible (resource_count c) = known_resource c.kind ≡ true

abbrev check :
    Option (Unit {0})
    → Option FreshnessCheck
    → Option RowCountCheck
    → Option ChecksumCheck
    → Option SmokeCheck
    → Option CanaryCheck
    → Option PodsReadyCheck
    → Option ResourceCountCheck
    → Check
check a b c d e f g h = record {
  restore_succeeded = a;
  freshness = b;
  row_count = c;
  checksum = d;
  smoke = e;
  canary = f;
  pods_ready = g;
  resource_count = h;
}

complete : (k : Kind) → IsSensible k → check_validate (only k) ≡ ok tt
unfolding check_validate freshness_valid row_count_valid checksum_valid smoke_valid canary_valid
    pods_ready_valid resource_count_valid
complete restore_succeeded h = refl
complete (freshness c) h = ground arith
complete (row_count c) h = ground (arith, eq_iff c.query "")
complete (checksum c) h = ground (arith, eq_iff c.table "", eq_iff c.column "")
complete (smoke c) h = ground (arith, eq_iff c.sql "", eq_iff c.query "")
complete (canary c) h = ground (arith, eq_iff c.sql "", eq_iff c.query "", eq_iff c.expect "")
complete (pods_ready c) h = ground arith
complete (resource_count c) h = ground arith

sensible_smoke : (c : SmokeCheck) → smoke_valid c ≡ ok tt → OneStatement c.sql c.query
unfolding smoke_valid
sensible_smoke c h = ground (arith, eq_iff c.sql "", eq_iff c.query "")

sensible_canary :
    (c : CanaryCheck) → canary_valid c ≡ ok tt → OneStatement c.sql c.query × (c.expect ≢ "")
unfolding canary_valid
sensible_canary c h = ground (arith, eq_iff c.sql "", eq_iff c.query "", eq_iff c.expect "")

sensible : (k : Kind) → check_validate (only k) ≡ ok tt → IsSensible k
unfolding check_validate freshness_valid row_count_valid checksum_valid pods_ready_valid
    resource_count_valid
sensible restore_succeeded h = tt
sensible (freshness c) h = ground arith
sensible (row_count c) h = ground (arith, eq_iff c.query "")
sensible (checksum c) h = ground (arith, eq_iff c.table "", eq_iff c.column "")
sensible (smoke c) h = sensible_smoke c (ground arith)
sensible (canary c) h = sensible_canary c (ground arith)
sensible (pods_ready c) h = ground arith
sensible (resource_count c) h = ground arith

-- Two set fields count to two at least, so an accepted check sets exactly one.
one_kind :
    (a : Option (Unit {0})) (b : Option FreshnessCheck) (c : Option RowCountCheck)
    (d : Option ChecksumCheck) (e : Option SmokeCheck) (f : Option CanaryCheck)
    (g : Option PodsReadyCheck) (h : Option ResourceCountCheck)
    → let all = check a b c d e f g h in check_validate all ≡ ok tt → (k : Kind) × (all ≡ only k)
unfolding check_validate
one_kind (some tt) none none none none none none none v = (restore_succeeded, refl)
one_kind none (some x) none none none none none none v = (freshness x, refl)
one_kind none none (some x) none none none none none v = (row_count x, refl)
one_kind none none none (some x) none none none none v = (checksum x, refl)
one_kind none none none none (some x) none none none v = (smoke x, refl)
one_kind none none none none none (some x) none none v = (canary x, refl)
one_kind none none none none none none (some x) none v = (pods_ready x, refl)
one_kind none none none none none none none (some x) v = (resource_count x, refl)
one_kind _ _ _ _ _ _ _ _ v = absurd (ground arith)

-- A check passes validation exactly when it sets the field of one kind and no other, and the
-- settings of that kind make sense: positive ages and timeouts, a query, exactly one of two
-- statements, an expected canary value, a supported resource kind.
pub check_validate_iff :
    (c : Check) → (check_validate c ≡ ok tt) ↔ ((k : Kind) × (c ≡ only k) × IsSensible k)
check_validate_iff c = (
  λ v.
      let (k, e) =
        one_kind c.restore_succeeded c.freshness c.row_count c.checksum c.smoke c.canary
          c.pods_ready c.resource_count v in
      (k, e, sensible k (subst (λ x. check_validate x ≡ ok tt) e v)),
  λ (k, e, h). subst (λ x. check_validate x ≡ ok tt) (sym e) (complete k h),
)
