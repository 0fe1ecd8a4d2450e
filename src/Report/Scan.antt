-- ===== src/Report/Scan.antt =====
-- `scanEvidence` of pkg/report/scan.go. A directory is the list of its JSON files in the order of
-- `filepath.Glob`, each with the error of reading it or with what decoding makes of it: nothing when
-- it is not an evidence record.
use fire_drill.Base.{
  List, [], ◌∷◌, Option, none, some, String, Result, ok, ◌>>=◌, ◌==◌, string_eq, if◌then◌else◌,
}
use fire_drill.Report.Evidence.{Evidence}

-- `evidenceFile`
pub record EvidenceFile : Type 0 where
  pub path : String
  pub e : Evidence

pub record JsonFile : Type 0 where
  pub path : String
  pub content : Result String (Option Evidence)

-- The body of the loop, in front of the files after it.
abbrev keep : String → Option Evidence → List EvidenceFile → List EvidenceFile
keep path none rest = rest
keep path (some e) rest = if e.drill == "" then rest else record { path = path; e = e } ∷ rest

unfoldable pub scan_evidence : List JsonFile → Result String (List EvidenceFile)
scan_evidence [] = ok []
scan_evidence (f ∷ fs) = do found ← f.content; rest ← scan_evidence fs; ok (keep f.path found rest)
