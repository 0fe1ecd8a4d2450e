-- ===== src/Drill/Verdict.antt =====
-- The objectives and the verdict of `finalize` in pkg/drill/drill.go.
pub mod Meaning
use fire_drill.Base.{
  ℤ, Bool, true, false, not, ◌&&◌, ◌||◌, List, [], ◌∷◌, Option, none, some, String, leb_ℤ, ◌==◌,
  string_eq, if◌then◌else◌,
}
use fire_drill.Spec.Document.{Objectives}
use fire_drill.Verify.Types.{CheckResult}
use fire_drill.Report.Evidence.{Evidence, Measured}

-- `dataCheckNames`.
unfoldable pub is_data_name : String → Bool
is_data_name n =
    n == "rowCount"
    || n == "checksum"
    || n == "smoke"
    || n == "canary"
    || n == "podsReady"
    || n == "resourceCount"

abbrev pub is_none {ℓ} : {A : Type ℓ} → Option A → Bool
is_none none = true
is_none (some a) = false

-- The loop over the results: the verdict so far, and whether a data check has passed.
unfoldable pub weigh : Bool → Bool → List CheckResult → Bool × Bool
unfolding is_data_name
weigh verified proven [] = (verified, proven)
weigh verified proven (r ∷ rs) =
    weigh (verified && not (not r.passed && not r.skipped) && not r.skipped)
      (proven || (r.passed && is_data_name r.name)) rs

unfoldable pub verdict : Objectives → Option String → ℤ → ℤ → Evidence → Evidence
verdict o restore_err restore_dur backup_age e =
    let rto_met = is_none restore_err && leb_ℤ restore_dur o.rto in
    let rpo_met = leb_ℤ backup_age o.rpo in
    let (verified, proven) = weigh (is_none restore_err && rto_met && rpo_met) false e.checks in
    record e {
      measured = record { restore = e.measured.restore; rto_met = rto_met; rpo_met = rpo_met };
      verified = if proven then verified else false;
      error = restore_err;
    }
