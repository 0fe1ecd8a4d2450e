-- ===== src/Examples/Gates.antt =====
-- The gate of pkg/report on a directory with the evidence of one drill.
use fire_drill.Base.{
  Any, ◌↔◌, ℕ, pos, ◌≡◌, refl, inl, inr, true, false, List, [], ◌∷◌, Option, none, some, String, ok,
  All, Sorter, sort, sort-perm, SortedBy-sort, insert, arith, time_sub, Bool,
}
use fire_drill.Report.Evidence.{Evidence}
use fire_drill.Report.Scan.{JsonFile, EvidenceFile, scan_evidence}
use fire_drill.Report.Gate.{
  GateOptions, GateReport, newer, gate, report_on, group, evaluate, evaluate_all, assess, stale,
  first_verified, subjects_of, count_failing, is_ok,
}
use fire_drill.Report.Gate.Evidenced.{Evidenced}
use fire_drill.Report.Gate.Sound.{gate_sound}
use fire_drill.Report.Gate.Complete.{Covered, gate_complete}
use fire_drill.Report.Controls.{
  ControlEntry, ControlReport, later, entries_of, control_keys, count_unattributed, FromNewest,
  build_control_report, build_control_report_iff,
}
use fire_drill.Drill.Run.{start_evidence}
use fire_drill.Examples.Data.{payments, world, options}

newer-asym : (a b : EvidenceFile) → newer a b ≡ true → newer b a ≡ false
newer-asym a b h = ground arith

newer-negtrans : (a b c : EvidenceFile) → newer b a ≡ false → newer c b ≡ false → newer c a ≡ false
newer-negtrans a b c h k = ground arith

abbrev by_newest : Sorter newer
by_newest = record {
  sorted = sort newer;
  rearranges = sort-perm newer;
  in_order = SortedBy-sort newer newer-asym newer-negtrans;
}

abbrev ran : ℕ → Bool → Evidence
ran finished verified = record (start_evidence world payments options) {
  finished_at = finished;
  verified = verified;
}

abbrev dir : List JsonFile
dir =
    record { path = "a.json"; content = ok (some (ran 1000 false)) }
    ∷ record { path = "b.json"; content = ok none }
    ∷ record { path = "c.json"; content = ok (some (ran 5000 true)) }
    ∷ []

abbrev files : List EvidenceFile
files =
    record { path = "a.json"; e = ran 1000 false }
    ∷ record { path = "c.json"; e = ran 5000 true }
    ∷ []

abbrev gate_options : GateOptions
gate_options = record {
  dir = "evidence";
  max_age = pos 2000;
  by = "";
  subjects = "payments" ∷ [];
  require_signed = true;
  public_key = none;
  allow_unverified = false;
  now = 6000;
}

abbrev all_signed : String → Option String → Bool
all_signed path key = true

dir_scanned : scan_evidence dir ≡ ok files
unfolding scan_evidence
dir_scanned = refl

abbrev report : GateReport
report = report_on all_signed by_newest gate_options "drill" files

gate-dir : gate all_signed by_newest dir gate_options ≡ ok report
unfolding gate scan_evidence
gate-dir = refl

no_violations : report.violations ≡ 0
unfolding report_on evaluate_all evaluate assess stale first_verified subjects_of group
    count_failing is_ok sort insert time_sub
no_violations = refl

gate_sound_example :
    All (λ name. Evidenced all_signed gate_options (group "drill" files name)) ("payments" ∷ [])
gate_sound_example =
    gate_sound all_signed by_newest gate_options dir files report dir_scanned gate-dir no_violations

payments_group : group "drill" files "payments" ≡ files
unfolding group subjects_of
payments_group = refl

files-Covered : Covered all_signed gate_options files
unfolding time_sub
files-Covered = record {
  latest = (λ l. absurd (omega arith), ((λ _. inl refl), tt));
  fresh = λ _. inr (inl (refl, omega arith));
  signed = λ _. (refl, (refl, tt));
}

gate_complete_example :
    (rep : GateReport) × (gate all_signed by_newest dir gate_options ≡ ok rep)
    × (rep.violations ≡ 0)
gate_complete_example =
    gate_complete all_signed gate_options by_newest dir files dir_scanned (inl refl)
      (rw payments_group ((λ nil. cc), files-Covered), tt)

later-asym : (a b : ControlEntry) → later a b ≡ true → later b a ≡ false
later-asym a b h = ground arith

later-negtrans : (a b c : ControlEntry) → later b a ≡ false → later c b ≡ false → later c a ≡ false
later-negtrans a b c h k = ground arith

abbrev newest_first : Sorter later
newest_first = record {
  sorted = sort later;
  rearranges = sort-perm later;
  in_order = SortedBy-sort later later-asym later-negtrans;
}

abbrev control_report : ControlReport
control_report = record {
  generated_at = 6000;
  evidence_dir = "evidence";
  controls = λ control. sort later (entries_of all_signed control files);
  keys = control_keys files;
  unattributed = 0;
}

report_built : build_control_report all_signed newest_first 6000 "evidence" dir ≡ ok control_report
unfolding build_control_report scan_evidence count_unattributed
report_built = refl

build_control_report_iff_example :
    (Any (λ x. x.verified ≡ true) (control_report.controls "SOC2-A1.3")
      ↔ Any (λ f. (f.e.verified ≡ true) × Any (λ c. c ≡ "SOC2-A1.3") f.e.controls) files)
    × FromNewest (control_report.controls "SOC2-A1.3")
build_control_report_iff_example =
    build_control_report_iff all_signed newest_first 6000 "evidence" dir files control_report
      (λ x. x.verified ≡ true) "SOC2-A1.3" dir_scanned report_built
