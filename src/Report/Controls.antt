-- ===== src/Report/Controls.antt =====
-- `BuildControlReport` of pkg/report/controls.go: the runs that each compliance control has. The map
-- of the report is a function, with the list of its keys; the check of a signature and the sort are
-- parameters, as for the gate.
use fire_drill.Base.{
  ◌≤◌, false, All, All-imp, ℕ, ℤ, suc, ◌≡◌, ◌↔◌, ◌⊎◌, inl, inr, Bool, List, [], ◌∷◌, Option, none,
  String, Result, ok, ◌>>=◌, ltb, is_empty, any, Any, arith, Sorter, SortedBy, Any-Permᴰ, eq_iff,
  ◌==◌, string_eq, if◌then◌else◌, ap,
}
use mathlib.Core.List.Permᴰ
use fire_drill.Std.Path.{base}
use fire_drill.Report.Scan.{EvidenceFile, JsonFile, scan_evidence}

pub record ControlEntry : Type 0 where
  pub drill : String
  pub finished_at : ℕ
  pub verified : Bool
  pub restore : ℤ
  pub rto_met : Bool
  pub rpo_met : Bool
  pub evidence_file : String
  pub signed : Bool

pub record ControlReport : Type 0 where
  pub generated_at : ℕ
  pub evidence_dir : String
  pub controls : String → List ControlEntry
  pub keys : List String
  pub unattributed : ℕ

abbrev pub later : ControlEntry → ControlEntry → Bool
later x y = ltb y.finished_at x.finished_at

abbrev pub entry_of : (String → Option String → Bool) → EvidenceFile → ControlEntry
entry_of verify f = record {
  drill = f.e.drill;
  finished_at = f.e.finished_at;
  verified = f.e.verified;
  restore = f.e.measured.restore;
  rto_met = f.e.measured.rto_met;
  rpo_met = f.e.measured.rpo_met;
  evidence_file = base f.path;
  signed = verify f.path none;
}

-- An entry is appended to a control once for each time that its file declares it.
abbrev declare : ControlEntry → String → List String → List ControlEntry → List ControlEntry
declare x control [] rest = rest
declare x control (c ∷ cs) rest =
    let more = declare x control cs rest in if c == control then x ∷ more else more

-- `rep.Controls[control]` before it is sorted.
unfoldable pub entries_of :
    (String → Option String → Bool) → String → List EvidenceFile → List ControlEntry
entries_of verify control [] = []
entries_of verify control (f ∷ fs) =
    declare (entry_of verify f) control f.e.controls (entries_of verify control fs)

abbrev insert_key : String → List String → List String
insert_key c keys = if any (λ k. k == c) keys then keys else c ∷ keys

abbrev insert_keys : List String → List String → List String
insert_keys [] keys = keys
insert_keys (c ∷ cs) keys = insert_key c (insert_keys cs keys)

unfoldable pub control_keys : List EvidenceFile → List String
control_keys [] = []
control_keys (f ∷ fs) = insert_keys f.e.controls (control_keys fs)

unfoldable pub count_unattributed : List EvidenceFile → ℕ
count_unattributed [] = 0
count_unattributed (f ∷ fs) =
    let rest = count_unattributed fs in if is_empty f.e.controls then suc rest else rest

module _ (verify : String → Option String → Bool) (newest_first : Sorter later) where
  unfoldable pub build_control_report : ℕ → String → List JsonFile → Result String ControlReport
  build_control_report now dir found = do
    files ← scan_evidence found
    ok (record {
      generated_at = now;
      evidence_dir = dir;
      controls = λ control. newest_first.sorted (entries_of verify control files);
      keys = control_keys files;
      unattributed = count_unattributed files;
    })

later-le : (x y : ControlEntry) → later y x ≡ false → y.finished_at ≤ x.finished_at
later-le x y h = ground arith

declare_iff :
    (P : ControlEntry → Type 0) (x : ControlEntry) (control : String) (cs : List String)
    (rest : List ControlEntry)
    → Any P (declare x control cs rest) ↔ ((P x × Any (λ c. c ≡ control) cs) ⊎ Any P rest)
declare_iff P x control [] rest = (λ h. inr h, λ h. elim h [ inl (p, e) ↦ elim e [ ] | inr y ↦ y ])
declare_iff P x control (c ∷ cs) rest =
    let ih = declare_iff P x control cs rest in
    (λ h. ground (arith, eq_iff c control, ih), λ h. ground (arith, eq_iff c control, ih))

entries_of_iff :
    (v : String → Option String → Bool) (P : ControlEntry → Type 0) (control : String)
    (files : List EvidenceFile)
    → Any P (entries_of v control files)
      ↔ Any (λ f. P (entry_of v f) × Any (λ c. c ≡ control) f.e.controls) files
unfolding entries_of
entries_of_iff v P control [] = (λ h. h, λ h. h)
entries_of_iff v P control (f ∷ fs) =
    let head = declare_iff P (entry_of v f) control f.e.controls (entries_of v control fs) in
    let rest = entries_of_iff v P control fs in
    (
      λ h. elim (head.0 h) [ inl x ↦ inl x | inr x ↦ inr (rest.0 x) ],
      λ h. head.1 (elim h [ inl x ↦ inl x | inr x ↦ inr (rest.1 x) ]),
    )

reported :
    (v : String → Option String → Bool) (newest_first : Sorter later) (now : ℕ) (dir : String)
    (found : List JsonFile) (files : List EvidenceFile) (rep : ControlReport)
    → scan_evidence found ≡ ok files
    → build_control_report v newest_first now dir found ≡ ok rep
    → rep ≡ record {
      generated_at = now;
      evidence_dir = dir;
      controls = λ control. newest_first.sorted (entries_of v control files);
      keys = control_keys files;
      unattributed = count_unattributed files;
    }
unfolding build_control_report
reported v newest_first now dir found files rep scan ran = ground arith

-- No entry is newer than one before it.
abbrev pub FromNewest : List ControlEntry → Type 0
FromNewest [] = Unit
FromNewest (x ∷ xs) = All (λ y. y.finished_at ≤ x.finished_at) xs × FromNewest xs

SortedBy-FromNewest : (xs : List ControlEntry) → SortedBy later xs → FromNewest xs
SortedBy-FromNewest [] s = tt
SortedBy-FromNewest (x ∷ xs) (s, ss) =
    (All-imp (λ y h. later-le x y h) xs s, SortedBy-FromNewest xs ss)

-- What the report is to say of a file.
abbrev pub told_of : (String → Option String → Bool) → EvidenceFile → ControlEntry
told_of verify f = record {
  drill = f.e.drill;
  finished_at = f.e.finished_at;
  verified = f.e.verified;
  restore = f.e.measured.restore;
  rto_met = f.e.measured.rto_met;
  rpo_met = f.e.measured.rpo_met;
  evidence_file = base f.path;
  signed = verify f.path none;
}

-- In the report on a directory, the runs of a control are those of the files that declare it, each
-- with its drill, time, verdict, restore time, objectives, name and signature, and no other; and no
-- run is newer than one before it.
pub build_control_report_iff :
    (v : String → Option String → Bool) (newest_first : Sorter later) (now : ℕ) (dir : String)
    (found : List JsonFile) (files : List EvidenceFile) (rep : ControlReport)
    (P : ControlEntry → Type 0) (control : String)
    → scan_evidence found ≡ ok files
    → build_control_report v newest_first now dir found ≡ ok rep
    → (Any P (rep.controls control)
        ↔ Any (λ f. P (told_of v f) × Any (λ c. c ≡ control) f.e.controls) files)
      × FromNewest (rep.controls control)
build_control_report_iff v newest_first now dir found files rep P control scan ran =
    let entries = entries_of v control files in
    let p = newest_first.rearranges entries in
    let iff = entries_of_iff v P control files in
    let same : rep.controls control ≡ newest_first.sorted entries =
      ap (λ r. r.controls control) (reported v newest_first now dir found files rep scan ran) in
    rw same (
      (λ h. iff.0 (Any-Permᴰ P p h), λ h. Any-Permᴰ P (Permᴰ.symm p) (iff.1 h)),
      SortedBy-FromNewest (newest_first.sorted entries) (newest_first.in_order entries),
    )
