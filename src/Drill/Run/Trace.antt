-- ===== src/Drill/Run/Trace.antt =====
-- What a drill leaves behind: nothing, however it ends.
use fire_drill.Base.{
  ok, err, Result, ℤ, Bool, true, false, not, ◌&&◌, List, [], ◌∷◌, ◌++◌, Option, none, String, ◌==◌,
  string_eq, if◌then◌else◌, ◌≡◌, refl, arith, Bool-cases, ◌∙◌, inr, inl, ap, time_sub,
}
use fire_drill.Spec.Document.{Drill, Sink}
use fire_drill.Drill.World.{
  World, Options, Event, Stop, Driver, Restored, fetched, provisioned, restored, connected, closed,
  destroyed, cleaned, written, signed, attested, rendered, exported,
}
use fire_drill.Drill.Steps.{Step, ◌>>=◌, pure, emit, attempt, deferring, next}
use fire_drill.Drill.Finalize.{finalize, sign_evidence, render_html, notify_events, emit_all}
use fire_drill.Drill.Run.{
  run, Evidence, verify_and_finish, Backup, Engine, in_sandbox, Cluster, find_engine, duration_of,
  with_engine, with_artifact, provision, run_engine, in_namespace, run_velero, sandbox_config,
  get_driver, VeleroDrill, with_backup, start_evidence,
}

-- What is held while a drill runs, and whether each event came when it may: a restore needs a
-- sandbox, and evidence is written, signed and reported only when the sandbox is gone.
pub record Held : Type 0 where
  pub artifact : Bool
  pub sandbox : Bool
  pub connection : Bool
  pub fine : Bool

abbrev pub watch : Event → Held → Held
watch fetched h = record h { artifact = true }
watch provisioned h = record h { sandbox = true }
watch restored h = record h { fine = h.fine && h.sandbox }
watch connected h = record h { connection = true }
watch closed h = record h { connection = false }
watch destroyed h = record h { sandbox = false }
watch cleaned h = record h { artifact = false; fine = h.fine && not h.sandbox }
watch _ h = record h { fine = h.fine && not h.sandbox }

abbrev pub audit : List Event → Held → Held
audit [] h = h
audit (e ∷ es) h = audit es (watch e h)

audit-append : (xs ys : List Event) (h : Held) → audit (xs ++ ys) h ≡ audit ys (audit xs h)
audit-append [] ys h = refl
audit-append (x ∷ xs) ys h = audit-append xs ys (watch x h)

abbrev pub start : Held
start = record { artifact = false; sandbox = false; connection = false; fine = true }

abbrev resting : Bool → Bool → Held
resting a c = record { artifact = a; sandbox = false; connection = c; fine = true }

-- Steps that change nothing held, and do only what may be done when no sandbox is up.
record IsQuiet {A : Type 0} (s : Step A) : Type 0 where
  at : (a c : Bool) → audit s.events (resting a c) ≡ resting a c

next-quiet :
    {A B : Type 0} (o : Result Stop A) (es : List Event) (f : A → Step B) (a c : Bool)
    → audit es (resting a c) ≡ resting a c
    → ((x : A) → IsQuiet (f x))
    → audit (next o es f).events (resting a c) ≡ resting a c
next-quiet (ok x) es f a c h k = audit-append es (f x).events (resting a c) ∙ (rw h ((k x).at a c))
next-quiet (err e) es f a c h k = h

module _ {A B : Type 0} where
  IsQuiet-bind :
      (s : Step A) (f : A → Step B) → IsQuiet s → ((x : A) → IsQuiet (f x)) → IsQuiet (s >>= f)
  IsQuiet-bind s f h k = record { at = λ a c. next-quiet s.outcome s.events f a c (h.at a c) k }

IsQuiet-pure : {A : Type 0} (x : A) → IsQuiet (pure x)
IsQuiet-pure x = record { at = λ a c. refl }

IsQuiet-attempt : {E A : Type 0} (r : Result E A) (stop : E → Stop) → IsQuiet (attempt r stop)
IsQuiet-attempt (ok x) stop = record { at = λ a c. refl }
IsQuiet-attempt (err e) stop = record { at = λ a c. refl }

IsQuiet-if :
    {A : Type 0} (b : Bool) (s t : Step A) → IsQuiet s → IsQuiet t → IsQuiet (if b then s else t)
IsQuiet-if true s t h k = h
IsQuiet-if false s t h k = k

IsQuiet-written : (path : String) (e : Evidence) → IsQuiet (emit (written path e))
IsQuiet-written path e = record { at = λ a c. refl }

IsQuiet-signed : (path : String) → IsQuiet (emit (signed path))
IsQuiet-signed path = record { at = λ a c. refl }

IsQuiet-attested : (path : String) → IsQuiet (emit (attested path))
IsQuiet-attested path = record { at = λ a c. refl }

IsQuiet-rendered : (path : String) → IsQuiet (emit (rendered path))
IsQuiet-rendered path = record { at = λ a c. refl }

IsQuiet-exported : (ss : List Sink) → IsQuiet (emit (exported ss))
IsQuiet-exported ss = record { at = λ a c. refl }

notify_quiet : (ss : List Sink) (a c : Bool) → audit (notify_events ss) (resting a c) ≡ resting a c
unfolding notify_events
notify_quiet [] a c = refl
notify_quiet (s ∷ ss) a c = ground (arith, notify_quiet ss a c)

IsQuiet-notify : (ss : List Sink) → IsQuiet (emit_all (notify_events ss))
IsQuiet-notify ss = record { at = notify_quiet ss }

ruleset quiet = (
  IsQuiet-bind, IsQuiet-pure, IsQuiet-attempt, IsQuiet-if, IsQuiet-written, IsQuiet-signed,
  IsQuiet-attested, IsQuiet-rendered, IsQuiet-exported, IsQuiet-notify,
)

IsQuiet-sign_evidence :
    (w : World) (o : Options) (e : Evidence) (path : String) → IsQuiet (sign_evidence w o e path)
unfolding sign_evidence
IsQuiet-sign_evidence w o e path = search quiet depth 9

IsQuiet-render_html : (w : World) (e : Evidence) (path : String) → IsQuiet (render_html w e path)
unfolding render_html
IsQuiet-render_html w e path = search quiet

IsQuiet-finalize :
    (w : World) (d : Drill) (o : Options) (e : Evidence) (x : Option String) (r b : ℤ)
    → IsQuiet (finalize w d o e x r b)
unfolding finalize
IsQuiet-finalize w d o e x r b = search (quiet, IsQuiet-sign_evidence, IsQuiet-render_html) depth 12

abbrev up : Bool → Bool → Held
up a c = record { artifact = a; sandbox = true; connection = c; fine = true }

-- The explicit teardown comes before all that `finalize` does.
verify_and_finish_trace :
    (w : World) (d : Drill) (o : Options) (e : Evidence) (r : Restored) (t : ℤ) (g : Option Engine)
    (k : Option Cluster) (ns : String) (a c : Bool)
    → audit (verify_and_finish w d o e r t g k ns).events (up a c) ≡ resting a c
unfolding verify_and_finish
verify_and_finish_trace w d o e r t g k ns a c =
    (IsQuiet-finalize w d o _ r.error (duration_of r.result) t).at a c

-- Whatever comes after the restore, the deferred teardown leaves no sandbox and no connection.
with_engine_trace :
    (w : World) (d : Drill) (o : Options) (e : Evidence) (r : Restored) (t : ℤ)
    (found : Option Engine × Bool) (a : Bool)
    → audit (with_engine w d o e r t found).events (up a false) ≡ resting a false
unfolding with_engine
with_engine_trace w d o e r t (g, false) a = verify_and_finish_trace w d o e r t g none "" a false
with_engine_trace w d o e r t (g, true) a =
    audit-append (connected ∷ (verify_and_finish w d o e r t g none "").events) (closed ∷ [])
      (up a false)
    ∙ ap (watch closed) (verify_and_finish_trace w d o e r t g none "" a true)

attempt_keeps :
    {E A B : Type 0} (r : Result E A) (stop : E → Stop) (f : A → Step B) (h : Held)
    → ((x : A) → audit (f x).events h ≡ h)
    → audit (attempt r stop >>= f).events h ≡ h
attempt_keeps (ok x) stop f h k = k x
attempt_keeps (err e) stop f h k = refl

deferring_trace :
    {A : Type 0} (e : Event) (s : Step A) (h : Held)
    → audit (deferring e s).events h ≡ watch e (audit s.events h)
deferring_trace e s h = audit-append s.events (e ∷ []) h

attempted_trace :
    {A B : Type 0} (r : Result Stop A) (f : A → Step B) (h : Held)
    → ((x : A) → watch destroyed (audit (f x).events h) ≡ watch destroyed h)
    → watch destroyed (audit (attempt r (λ s. s) >>= f).events h) ≡ watch destroyed h
attempted_trace (ok x) f h k = k x
attempted_trace (err s) f h k = refl

module _ (w : World) (d : Drill) (o : Options) (drv : Driver) (b : Backup) where
  in_sandbox_trace :
      (t : ℤ) (e : Evidence) (a : Bool)
      → watch destroyed (audit (in_sandbox w d o drv b t e).events (up a false)) ≡ resting a false
  unfolding in_sandbox
  in_sandbox_trace t e a =
      attempted_trace (find_engine drv (drv.restore b.path d.spec.source)) _ (up a false)
        λ found. ap (watch destroyed) (with_engine_trace w d o _ _ t found a)

  with_artifact_trace :
      audit (with_artifact w d o drv b).events (resting true false) ≡ resting true false
  unfolding with_artifact
  with_artifact_trace =
      let t = time_sub w.fetched_at b.mod_time in
      let e = with_backup d.spec.source.source_from.uri b t (start_evidence w d o) in
      attempt_keeps (provision w d.spec.sandbox.provider (sandbox_config d)) _ _
        (resting true false)
        λ _.
          deferring_trace destroyed (in_sandbox w d o drv b t e) (up true false)
          ∙ in_sandbox_trace t e true

run_engine_trace :
    (w : World) (d : Drill) (o : Options)
    → audit (run_engine w d o).events (resting false false) ≡ resting false false
unfolding run_engine
run_engine_trace w d o =
    attempt_keeps (get_driver w.registry d.spec.source.driver) _ _ (resting false false) λ drv.
      attempt_keeps (w.fetch d.spec.source.source_from) _ _ (resting false false) λ b.
        deferring_trace cleaned (with_artifact w d o drv b) (resting true false)
        ∙ ap (watch cleaned) (with_artifact_trace w d o drv b)

in_namespace_trace :
    (w : World) (d : Drill) (o : Options) (v : VeleroDrill)
    → audit (in_namespace w d o v).events (up false false) ≡ resting false false
unfolding in_namespace
in_namespace_trace w d o v =
    verify_and_finish_trace w d o _ v.restore v.backup_age none _ _ false false

run_velero_trace :
    (w : World) (d : Drill) (o : Options)
    → audit (run_velero w d o).events (resting false false) ≡ resting false false
unfolding run_velero
run_velero_trace w d o =
    attempt_keeps (w.prepare d.metadata.name _ _ d.spec.sandbox.ttl) _ _ (resting false false) λ v.
      deferring_trace destroyed (in_namespace w d o v) (up false false)
      ∙ ap (watch destroyed) (in_namespace_trace w d o v)

-- However a drill ends, it releases what it took: the artifact, the sandbox and the connection.
-- And each event came in its time: the restore while the sandbox was up, the evidence, its
-- signatures, reports and notifications only after the sandbox was destroyed.
pub run_releases : (w : World) (d : Drill) (o : Options) → audit (run w d o).events start ≡ start
unfolding run
run_releases w d o = elim (Bool-cases (d.spec.source.driver == "velero")) [
  | inl v ↦ rw v (run_velero_trace w d o)
  | inr n ↦ rw n (run_engine_trace w d o)
]
