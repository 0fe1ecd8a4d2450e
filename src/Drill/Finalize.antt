-- ===== src/Drill/Finalize.antt =====
-- `finalize` of pkg/drill/drill.go: the verdict, the evidence with its signatures, the sinks.
use fire_drill.Base.{
  ok, ℤ, Bool, true, List, [], ◌∷◌, Option, some, String, ◌==◌, ◌!=◌, string_eq, if◌then◌else◌,
}
use fire_drill.Spec.Document.{Drill, Sink}
use fire_drill.Report.Evidence.{Evidence}
use fire_drill.Drill.World.{
  World, Options, Event, Stop, RunError, writing, key_dir_error, loading_key, signing, attesting,
  html_error, written, signed, attested, rendered, notified, exported,
}
use fire_drill.Drill.Steps.{Step, ◌>>=◌, ◌>>◌, pure, emit, attempt}
use fire_drill.Drill.Verdict.{verdict}

-- An error after the evidence exists returns it, with the path if it was written.
abbrev keep : Evidence → String → (String → RunError) → String → Stop
keep e path wrap msg = record { evidence = some e; path = path; error = wrap msg }

unfoldable pub sign_evidence : World → Options → Evidence → String → Step (Unit {0})
sign_evidence w opts e path = do
  dir ←
      if opts.key_dir == ""
      then attempt w.default_key_dir (keep e path key_dir_error)
      else pure opts.key_dir
  key ← attempt (w.load_key dir) (keep e path loading_key)
  sig ← attempt (w.sign path key) (keep e path signing)
  emit (signed sig)
  att ← attempt (w.attest path key) (keep e path attesting)
  emit (attested att)

unfoldable pub render_html : World → Evidence → String → Step (Unit {0})
render_html w e path = do
  html ← attempt (w.write_html e path) (keep e path html_error)
  emit (rendered html)

-- The loop over the sinks: the notifications, whose errors are warnings, and the sinks left for the
-- metrics.
abbrev is_notify : Sink → Bool
is_notify s = if s.type == "slack" then true else s.type == "webhook"

unfoldable pub notify_events : List Sink → List Event
notify_events [] = []
notify_events (s ∷ ss) = if is_notify s then notified s ∷ notify_events ss else notify_events ss

unfoldable pub metric_sinks : List Sink → List Sink
metric_sinks [] = []
metric_sinks (s ∷ ss) = if is_notify s then metric_sinks ss else s ∷ metric_sinks ss

abbrev pub emit_all : List Event → Step (Unit {0})
emit_all events = record { outcome = ok tt; events = events }

unfoldable pub finalize :
    World → Drill → Options → Evidence → Option String → ℤ → ℤ → Step (Evidence × String)
finalize w d opts e0 restore_err restore_dur backup_age =
    let judged = verdict d.spec.objectives restore_err restore_dur backup_age e0 in
    let e = record judged { finished_at = w.finished_at } in
    let dir = if opts.evidence_dir != "" then opts.evidence_dir else d.spec.report.dir in
    do
      path ← attempt (w.write dir e) (keep e "" writing)
      emit (written path e)
      if d.spec.report.sign then sign_evidence w opts e path else pure tt
      if d.spec.report.html then render_html w e path else pure tt
      emit_all (notify_events d.spec.report.sinks)
      emit (exported (metric_sinks d.spec.report.sinks))
      pure (e, path)
