-- ===== src/Drill/Run/Truth.antt =====
-- What the evidence of a verified drill proves.
use fire_drill.Base.{
  ok, ℤ, Bool, true, false, List, [], ◌∷◌, Option, none, some, String, ◌==◌, string_eq,
  if◌then◌else◌, ◌≡◌, refl, sym, ap, subst, All, Any, time_sub, ◌≤ℤ◌, ◌∙◌,
}
use fire_drill.Spec.Document.{Drill, Check, proves_data}
use fire_drill.Spec.Checks.Valid.{Kind, only, check_validate_iff}
use fire_drill.Spec.Validate.{validate}
use fire_drill.Spec.Validate.Loops.{CheckFits}
use fire_drill.Spec.Validate.WellFormed.{validate_iff}
use fire_drill.Verify.Types.{Engine, Cluster, Context}
use fire_drill.Verify.Run as VerifyRun
use fire_drill.Verify.Run.Holds.{Holds, run_one_iff}
use fire_drill.Source.Backup.{Backup}
use fire_drill.Report.Evidence.{Evidence}
use fire_drill.Drill.World.{World, Options, Restored, Driver, VeleroDrill}
use fire_drill.Drill.Steps.{
  Step, ◌>>=◌, ◌>>◌, emit, attempt, deferring, Ends, Ends-attempt, Ends-bind, Ends-pure,
  Ends-deferring,
}
use fire_drill.Drill.Verdict.{verdict}
use fire_drill.Drill.Verdict.Meaning.{Passed, verdict_iff}
use fire_drill.Drill.Finalize.{finalize}
use fire_drill.Drill.Run.{
  duration_of, drill_context, verify_and_finish, run_engine, with_checks, with_fate, get_driver,
  destroyed, find_engine, with_engine, in_sandbox, with_artifact, run_velero, run, measure,
  with_backup, in_namespace, closed, restored, start_evidence, with_velero, connected, fetched,
  provisioned, cleaned, provision, sandbox_config,
}

abbrev judged : World → Drill → Option String → ℤ → ℤ → Evidence → Evidence
judged w d x r b e0 = record (verdict d.spec.objectives x r b e0) { finished_at = w.finished_at }

-- A drill that ends without an error returns the evidence that `finalize` judged.
Ends-finalize :
    (w : World) (d : Drill) (o : Options) (e0 : Evidence) (x : Option String) (r b : ℤ)
    → Ends (λ (y : Evidence × String). y.0 ≡ judged w d x r b e0) (finalize w d o e0 x r b)
unfolding finalize
Ends-finalize w d o e0 x r b = search (Ends-bind, Ends-pure) depth 12

-- Checks that validation accepts, and that passed, hold of what was restored.
All-hold :
    (v : Bool) (eng : Option Engine) (dc : Context) (cs : List Check)
    → All (CheckFits v) cs
    → All Passed (VerifyRun.run eng cs dc)
    → All (λ c. (k : Kind) × (c ≡ only k) × Holds eng dc k) cs
unfolding VerifyRun.run
All-hold v eng dc [] f p = tt
All-hold v eng dc (c ∷ cs) f p =
    let (k, e, _) = (check_validate_iff c).0 f.0.valid in
    let passed = subst (λ (x : Check). (VerifyRun.run_one eng x dc).passed ≡ true) e p.0.0 in
    ((k, e, (run_one_iff eng dc k).0 passed), All-hold v eng dc cs f.1 p.1)

-- The claims that verified evidence makes about the engine and the context of its checks.
pub record Proven (d : Drill) (eng : Option Engine) (dc : Context) (e : Evidence) : Type 0 where
  pub restored : dc.restore_err ≡ none
  pub fast : e.measured.restore ≤ℤ d.spec.objectives.rto
  pub young : dc.backup_age ≤ℤ d.spec.objectives.rpo
  pub results : e.checks ≡ VerifyRun.run eng d.spec.verify dc
  pub all_hold : All (λ c. (k : Kind) × (c ≡ only k) × Holds eng dc k) d.spec.verify
  pub some_data : Any (λ c. proves_data c ≡ true) d.spec.verify

judged_keeps :
    (w : World) (d : Drill) (x : Option String) (r b : ℤ) (e0 : Evidence)
    → ((judged w d x r b e0).checks ≡ e0.checks)
      × ((judged w d x r b e0).measured.restore ≡ e0.measured.restore)
unfolding verdict
judged_keeps w d x r b e0 = (refl, refl)

-- Evidence that `finalize` judged verified, of checks that validation accepts.
judged-Proven :
    (w : World) (d : Drill) (eng : Option Engine) (dc : Context) (r : ℤ) (e0 e : Evidence)
    → validate d ≡ []
    → e0.checks ≡ VerifyRun.run eng d.spec.verify dc
    → e0.measured.restore ≡ r
    → e ≡ judged w d dc.restore_err r dc.backup_age e0
    → e.verified ≡ true
    → Proven d eng dc e
judged-Proven w d eng dc r e0 e valid ran took same v =
    let fits = ((validate_iff d).0 valid).verify in
    let (kept, kept_time) = judged_keeps w d dc.restore_err r dc.backup_age e0 in
    let checks = ap (λ (x : Evidence). x.checks) same ∙ kept in
    let time = ap (λ (x : Evidence). x.measured.restore) same ∙ kept_time ∙ took in
    let (none_err, fast, young, passed, _) =
      (verdict_iff d.spec.objectives dc.restore_err r dc.backup_age e0).0
        (subst (λ (x : Evidence). x.verified ≡ true) same v) in
    record {
      restored = none_err;
      fast = subst (λ t. t ≤ℤ d.spec.objectives.rto) (sym time) fast;
      young = young;
      results = checks ∙ ran;
      all_hold = All-hold _ eng dc d.spec.verify fits.each_fits (subst (All Passed) ran passed);
      some_data = fits.proves;
    }

-- How the checks of a drill came to their engine and their context.
pub data Asked (w : World) (d : Drill) (eng : Option Engine) (dc : Context) : Type 0 where
  of_engine :
      (drv : Driver) (b : Backup) (opened : Bool)
      → get_driver w.registry d.spec.source.driver ≡ ok drv
      → w.fetch d.spec.source.source_from ≡ ok b
      → find_engine drv (drv.restore b.path d.spec.source) ≡ ok (eng, opened)
      → dc
        ≡ drill_context d
            (drv.restore b.path d.spec.source)
            (time_sub w.fetched_at b.mod_time)
            none
            ""
      → Asked w d eng dc
  of_velero :
      (v : VeleroDrill)
      → w.prepare d.metadata.name d.spec.source.source_from.backup
          d.spec.source.source_from.namespace d.spec.sandbox.ttl
        ≡ ok v
      → eng ≡ none
      → dc ≡ drill_context d v.restore v.backup_age (some v.cluster) v.target_ns
      → Asked w d eng dc

-- Evidence that is honest when it is verified.
abbrev pub Honest : World → Drill → Evidence → Type 0
Honest w d e =
    e.verified ≡ true
    → (eng : Option Engine) × (dc : Context) × Asked w d eng dc × Proven d eng dc e

Ends-verify_and_finish :
    (w : World) (d : Drill) (o : Options) (e : Evidence) (r : Restored) (t : ℤ) (g : Option Engine)
    (k : Option Cluster) (ns : String)
    → validate d ≡ []
    → e.measured.restore ≡ duration_of r.result
    → Asked w d g (drill_context d r t k ns)
    → Ends (λ (y : Evidence × String). Honest w d y.0) (verify_and_finish w d o e r t g k ns)
unfolding verify_and_finish
Ends-verify_and_finish w d o e r t g k ns valid took asked =
    let dc = drill_context d r t k ns in
    let e0 = with_fate w.was_destroyed (with_checks (VerifyRun.run g d.spec.verify dc) e) in
    let ends = Ends-finalize w d o e0 r.error (duration_of r.result) t in
    let honest : Ends (λ (y : Evidence × String). Honest w d y.0)
        (finalize w d o e0 r.error (duration_of r.result) t) =
      record {
        at = λ y q v. (
          g,
          dc,
          asked,
          judged-Proven w d g dc (duration_of r.result) e0 y.0 valid refl took (ends.at y q) v,
        );
      } in
    Ends-bind (λ (y : Evidence × String). Honest w d y.0) (emit destroyed)
      (λ _. finalize w d o e0 r.error (duration_of r.result) t) λ _ _. honest

Ends-with_engine :
    (w : World) (d : Drill) (o : Options) (e : Evidence) (r : Restored) (t : ℤ) (g : Option Engine)
    (opened : Bool)
    → validate d ≡ []
    → e.measured.restore ≡ duration_of r.result
    → Asked w d g (drill_context d r t none "")
    → Ends (λ (y : Evidence × String). Honest w d y.0) (with_engine w d o e r t (g, opened))
unfolding with_engine
Ends-with_engine w d o e r t g false valid took asked =
    Ends-verify_and_finish w d o e r t g none "" valid took asked
Ends-with_engine w d o e r t g true valid took asked =
    let rest = Ends-verify_and_finish w d o e r t g none "" valid took asked in
    Ends-deferring (λ (y : Evidence × String). Honest w d y.0) closed
      (emit connected >> verify_and_finish w d o e r t g none "")
      (Ends-bind (λ (y : Evidence × String). Honest w d y.0) (emit connected)
        (λ _. verify_and_finish w d o e r t g none "") λ _ _. rest)

Ends-in_sandbox :
    (w : World) (d : Drill) (o : Options) (drv : Driver) (b : Backup) (e : Evidence)
    → validate d ≡ []
    → get_driver w.registry d.spec.source.driver ≡ ok drv
    → w.fetch d.spec.source.source_from ≡ ok b
    → Ends
        (λ (y : Evidence × String). Honest w d y.0)
        (in_sandbox w d o drv b (time_sub w.fetched_at b.mod_time) e)
unfolding in_sandbox
Ends-in_sandbox w d o drv b e valid known got =
    let r = drv.restore b.path d.spec.source in
    let t = time_sub w.fetched_at b.mod_time in
    let goal = λ (y : Evidence × String). Honest w d y.0 in
    let rest = λ (found : Option Engine × Bool). with_engine w d o (measure r.result e) r t found in
    Ends-bind goal (emit restored) (λ _. attempt (find_engine drv r) (λ s. s) >>= rest)
      λ _ _.
        Ends-attempt goal (find_engine drv r) (λ s. s) rest
          λ (g, opened) q.
            Ends-with_engine w d o (measure r.result e) r t g opened valid refl
              (of_engine drv b opened known got q refl)

Ends-run_engine :
    (w : World) (d : Drill) (o : Options)
    → validate d ≡ []
    → Ends (λ (y : Evidence × String). Honest w d y.0) (run_engine w d o)
unfolding run_engine with_artifact
Ends-run_engine w d o valid =
    let goal = λ (y : Evidence × String). Honest w d y.0 in
    Ends-attempt goal (get_driver w.registry d.spec.source.driver) _ _ λ drv known.
      Ends-attempt goal (w.fetch d.spec.source.source_from) _ _ λ b got.
        let t = time_sub w.fetched_at b.mod_time in
        let e = with_backup d.spec.source.source_from.uri b t (start_evidence w d o) in
        Ends-bind goal (emit fetched) (λ _. deferring cleaned (with_artifact w d o drv b))
          λ _ _. Ends-deferring goal cleaned (with_artifact w d o drv b) (
            Ends-attempt goal (provision w d.spec.sandbox.provider (sandbox_config d)) _ _ λ _ _.
              Ends-bind goal (emit provisioned)
                (λ _. deferring destroyed (in_sandbox w d o drv b t e))
                λ _ _.
                  Ends-deferring goal destroyed (in_sandbox w d o drv b t e)
                    (Ends-in_sandbox w d o drv b e valid known got))

Ends-run_velero :
    (w : World) (d : Drill) (o : Options)
    → validate d ≡ []
    → Ends (λ (y : Evidence × String). Honest w d y.0) (run_velero w d o)
unfolding run_velero in_namespace
Ends-run_velero w d o valid =
    let goal = λ (y : Evidence × String). Honest w d y.0 in
    Ends-attempt goal (w.prepare d.metadata.name _ _ d.spec.sandbox.ttl) _ _ λ v got.
      let e = with_velero w d v (start_evidence w d o) in
      let rest =
        Ends-verify_and_finish w d o (measure v.restore.result e) v.restore v.backup_age none
          (some v.cluster) v.target_ns valid refl (of_velero v got refl refl) in
      Ends-bind goal (emit provisioned) (λ _. deferring destroyed (in_namespace w d o v))
        λ _ _. Ends-deferring goal destroyed (in_namespace w d o v) (
          Ends-bind goal (emit restored)
            (λ _.
              verify_and_finish w d o (measure v.restore.result e) v.restore v.backup_age none
                (some v.cluster) v.target_ns)
            λ _ _. rest)

Ends-if :
    {A : Type 0} (P : A → Type 0) (b : Bool) (s t : Step A)
    → Ends P s
    → Ends P t
    → Ends P (if b then s else t)
Ends-if P true s t h k = h
Ends-if P false s t h k = k

-- When the drill of a valid document ends without an error and its evidence says verified, then
-- the restore of that drill's backup succeeded within the RTO, the backup was within the RPO, and
-- every check of the document, one that inspects data among them, holds of what was restored: the
-- engine that was asked is the one that the document's driver gave for this restore (or the
-- cluster that the Velero restore filled).
pub run_honest :
    (w : World) (d : Drill) (o : Options) (e : Evidence) (path : String)
    → validate d ≡ []
    → (run w d o).outcome ≡ ok (e, path)
    → e.verified ≡ true
    → (eng : Option Engine) × (dc : Context) × Asked w d eng dc × Proven d eng dc e
unfolding run
run_honest w d o e path valid ran v =
    let ends =
      Ends-if (λ (y : Evidence × String). Honest w d y.0) (d.spec.source.driver == "velero")
        (run_velero w d o) (run_engine w d o) (Ends-run_velero w d o valid)
        (Ends-run_engine w d o valid) in
    ends.at (e, path) ran v
