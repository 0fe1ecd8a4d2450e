-- ===== src/Report/Gate/Sound.antt =====
-- A gate that passes has proof of every subject that it was asked about.
use fire_drill.Base.{
  ◌≡◌, refl, ◌↔◌, ◌⊎◌, inl, inr, true, List, [], ◌∷◌, String, Option, ok, All, All-imp, All-Permᴰ,
  Any, arith, Sorter, sort, sort-perm, string_lt, is_empty-eq-nil, string_eq, eq_iff, Bool, sym,
  All-sort,
}
use fire_drill.Report.Scan.{EvidenceFile, JsonFile, scan_evidence}
use fire_drill.Report.Gate.{
  GateOptions, GateReport, SubjectStatus, newer, is_ok, evaluate, evaluate_all, subjects_of,
  attribute, group, required, count_failing, by_of, report_on, gate,
}
use fire_drill.Report.Gate.Evidenced.{Evidenced, evaluate_sound}

is_ok_iff : (s : SubjectStatus) → (is_ok s ≡ true) ↔ (s.violations ≡ [])
unfolding is_ok
is_ok_iff s = (λ h. is_empty-eq-nil s.violations h, λ h. rw h refl)

pub count_failing_iff :
    (ss : List SubjectStatus) → (count_failing ss ≡ 0) ↔ All (λ s. s.violations ≡ []) ss
unfolding count_failing
count_failing_iff [] = (λ h. tt, λ h. refl)
count_failing_iff (s ∷ ss) = (
  λ h. ground (arith, is_ok_iff s, count_failing_iff ss),
  λ h. ground (arith, is_ok_iff s, count_failing_iff ss),
)

module _ (v : String → Option String → Bool) (by_newest : Sorter newer) (o : GateOptions) where
  pub evaluate_all_iff :
      (names : List String) (runs_of : String → List EvidenceFile)
      → All (λ s. s.violations ≡ []) (evaluate_all v by_newest names runs_of o)
        ↔ All (λ name. (evaluate v by_newest name (runs_of name) o).violations ≡ []) names
  unfolding evaluate_all
  evaluate_all_iff [] runs_of = (λ h. tt, λ h. tt)
  evaluate_all_iff (n ∷ ns) runs_of =
      let ih = evaluate_all_iff ns runs_of in (λ h. (h.0, ih.0 h.1), λ h. (h.0, ih.1 h.1))

  -- No violation is counted exactly when every required subject has none.
  pub report_on_iff :
      (by : String) (files : List EvidenceFile)
      → ((report_on v by_newest o by files).violations ≡ 0)
        ↔ All
            (λ name. (evaluate v by_newest name (group by files name) o).violations ≡ [])
            (required o by files)
  unfolding report_on
  report_on_iff by files =
      let names = required o by files in
      let sorted = sort string_lt names in
      let count = count_failing_iff (evaluate_all v by_newest sorted (group by files) o) in
      let each = evaluate_all_iff sorted (group by files) in
      let clean =
        λ (name : String). (evaluate v by_newest name (group by files name) o).violations ≡ [] in
      (
        λ h. All-Permᴰ clean (sort-perm string_lt names) (each.0 (count.0 h)),
        λ h. count.1 (each.1 (All-sort string_lt clean names h)),
      )

  pub gate-ok :
      (dir : List JsonFile) (files : List EvidenceFile) (rep : GateReport)
      → scan_evidence dir ≡ ok files
      → gate v by_newest dir o ≡ ok rep
      → rep ≡ report_on v by_newest o (by_of o) files
  unfolding gate
  gate-ok dir files rep scan h = ground arith

  pub report_on-gate :
      (dir : List JsonFile) (files : List EvidenceFile)
      → scan_evidence dir ≡ ok files
      → (by_of o ≡ "drill") ⊎ (by_of o ≡ "control")
      → gate v by_newest dir o ≡ ok (report_on v by_newest o (by_of o) files)
  unfolding gate
  report_on-gate dir files scan known =
      ground (arith, eq_iff (by_of o) "drill", eq_iff (by_of o) "control")

  -- When a gate reports no violation, every required subject (each drill or control that the options
  -- name, or, when they name none, each one that the directory has) is still being proven: it has
  -- runs; the latest is verified, unless that is waived; when an age is set, the newest verified run
  -- is within it; and when signatures are required, the newest verified run is signed, or the latest
  -- run where none is verified.
  pub gate_sound :
      (dir : List JsonFile) (files : List EvidenceFile) (rep : GateReport)
      → scan_evidence dir ≡ ok files
      → gate v by_newest dir o ≡ ok rep
      → rep.violations ≡ 0
      → All (λ name. Evidenced v o (group (by_of o) files name)) (required o (by_of o) files)
  gate_sound dir files rep scan h none_found =
      let same = gate-ok dir files rep scan h in
      let clean = (report_on_iff (by_of o) files).0 (rw (sym same) none_found) in
      All-imp (λ name c. evaluate_sound v o by_newest name (group (by_of o) files name) c)
        (required o (by_of o) files) clean

attribute_iff :
    (P : EvidenceFile → Type 0) (f : EvidenceFile) (name : String) (ss : List String)
    (rest : List EvidenceFile)
    → Any P (attribute f name ss rest) ↔ ((P f × Any (λ s. s ≡ name) ss) ⊎ Any P rest)
attribute_iff P f name [] rest = (λ h. inr h, λ h. elim h [ inl (p, e) ↦ elim e [ ] | inr x ↦ x ])
attribute_iff P f name (s ∷ ss) rest =
    let ih = attribute_iff P f name ss rest in
    (λ h. ground (arith, eq_iff s name, ih), λ h. ground (arith, eq_iff s name, ih))

-- A group has a run for each file that names its subject, and no other run.
pub group_iff :
    (P : EvidenceFile → Type 0) (by : String) (files : List EvidenceFile) (name : String)
    → Any P (group by files name) ↔ Any (λ f. P f × Any (λ s. s ≡ name) (subjects_of f.e by)) files
unfolding group
group_iff P by [] name = (λ h. h, λ h. h)
group_iff P by (f ∷ fs) name =
    let head = attribute_iff P f name (subjects_of f.e by) (group by fs name) in
    let rest = group_iff P by fs name in
    (
      λ h. elim (head.0 h) [ inl x ↦ inl x | inr x ↦ inr (rest.0 x) ],
      λ h. head.1 (elim h [ inl x ↦ inl x | inr x ↦ inr (rest.1 x) ]),
    )
