-- ===== src/Drivers/Velero.antt =====
-- `Prepare`, `Restore` and `Destroy` of pkg/drivers/velero/velero.go, over what the cluster answers.
pub mod Cleanup
pub mod Phases
use fire_drill.Base.{
  ℕ, zero, suc, ℤ, pos, negsuc, ◌+◌, ◌-◌, ◌*◌, ◌≤◌, ◌<◌, ◌≡◌, ◌≢◌, refl, ap, sym, subst, ◌∙◌, ◌++◌,
  ◌∷◌, [], List, ◌⊎◌, inl, inr, ◌↔◌, ok, err, Result, Bool, true, false, not, ◌&&◌, ◌||◌, ◌!=◌,
  ◌==◌, nat_eq, string_eq, arith, if_false, if_true, Bool-cases, Result-cases, Option-cases, ltb,
  leb, eq_iff, if◌then◌else◌, none, some, String, Option, ltb_ℤ, leb_ℤ, pos_part, time_sub, map,
  length, take, drop, is_empty, all, any, All, Any, append_assoc, append-nil, length-append,
  All-append, length-map, ltb→lt, lt→ltb, codes,
}
use fire_drill.Std.Poll.{Round, again, done, Ended, poll}
use fire_drill.Drivers.Texts.{starts_with}
use fire_drill.Sandbox.Steps.{
  Action, ◌>>=◌, ◌>>◌, pure, modify, attempt, unless_error, throw, on_error,
}
use fire_drill.Sandbox.Kubernetes.{CreateAnswer, Policy, ensured, deny_egress, DeleteAnswer}
use fire_drill.Sandbox.Kubernetes.Provision.{delete_error}

-- A Velero backup: its phase, and its times, the second of which may be missing or no time.
pub record BackupObject : Type 0 where
  pub phase : String
  pub created_at : ℕ
  pub completed_at : Option ℕ

-- A Velero restore's status.
pub record RestoreObject : Type 0 where
  pub phase : String
  pub warnings : ℤ
  pub errors : ℤ
  pub validation_errors : List String

-- What a round of the wait meets, two seconds after the last.
pub record VeleroRound : Type 0 where
  pub cancelled : Option String
  pub get : Result String RestoreObject
  pub elapsed : ℕ

pub record VeleroServer : Type 0 where
  pub config : Option String
  pub dynamic_client : Option String
  pub client : Option String
  pub get_backup : String → Result String BackupObject
  pub create_namespace : String → Option String
  pub create_policy : Policy → CreateAnswer
  pub create_restore : String → Option String
  pub rounds : ℕ → VeleroRound
  pub delete_namespace : DeleteAnswer
  pub delete_restore : DeleteAnswer
  pub now : ℕ

pub data Call : Type 0 where
  namespace_created : String → ℕ → Call
  policy_ensured : Policy → Call
  restore_created : String → Call
  namespace_deleted restore_deleted : String → Call
  watchdog_armed : ℤ → Call
  watchdog_cancelled : Call

pub data VeleroError : Type 0 where
  no_config dynamic_error client_error reading_backup : String → VeleroError
  not_completed : String → VeleroError
  creating_namespace policy_error creating_restore : String → VeleroError
  context_over : String → VeleroError
  restore_phase : String → ℤ → ℤ → List String → VeleroError
  still_waiting : VeleroError

pub data DestroyError : Type 0 where
  deleting_namespace deleting_restore : String → DestroyError

-- `Drill`, with the calls so far.
pub record Session : Type 0 where
  pub target_ns : String
  pub backup_age : ℤ
  pub restore_name : String
  pub once : Bool
  pub destroy_err : Option DestroyError
  pub has_watchdog : Bool
  pub destroyed : Bool
  pub calls : List Call

abbrev pub called : Call → Session → Session
called c s = record s { calls = s.calls ++ (c ∷ []) }

-- Destroy
unfoldable pub cancel_watchdog : Session → Session
cancel_watchdog s = if s.has_watchdog then called watchdog_cancelled s else s

abbrev pub wrapped :
    (String → DestroyError) → Option String → Option DestroyError → Option DestroyError
wrapped wrap none e = e
wrapped wrap (some x) none = some (wrap x)
wrapped wrap (some x) (some e) = some e

unfoldable pub delete_namespace : VeleroServer → Session → Session
delete_namespace v s = record (called (namespace_deleted s.target_ns) s) {
  destroy_err = wrapped deleting_namespace (delete_error v.delete_namespace) none;
}

unfoldable pub delete_restore : VeleroServer → Session → Session
delete_restore v s =
    if s.restore_name != ""
    then record (called (restore_deleted s.restore_name) s) {
      destroy_err = wrapped deleting_restore (delete_error v.delete_restore) s.destroy_err;
    }
    else s

abbrev pub no_destroy_error : Option DestroyError → Bool
no_destroy_error none = true
no_destroy_error (some e) = false

unfoldable pub torn_down : VeleroServer → Session → Session
torn_down v s =
    let t = delete_restore v (delete_namespace v (cancel_watchdog s)) in
    record t { once = true; destroyed = no_destroy_error t.destroy_err }

unfoldable pub destroy : VeleroServer → Session → Session
destroy v s = if s.once then s else torn_down v s

-- The completion time, or else the creation, says how old the backup is.
abbrev pub backup_time : BackupObject → Option ℕ → ℕ
backup_time b none = b.created_at
backup_time b (some t) = t

abbrev pub Velero : Type 0 → Type 0
Velero A = Action Session VeleroError A

-- From the ephemeral namespace on: only a failure of the policy tears down.
abbrev pub ensure_policy : VeleroServer → String → Velero (Unit {0})
ensure_policy v ns = on_error (destroy v) (
    unless_error (ensured (v.create_policy (deny_egress ns))) policy_error
    >> modify (called (policy_ensured (deny_egress ns))))

abbrev pub create_namespace : VeleroServer → String → ℕ → Velero (Unit {0})
create_namespace v ns expires_at =
    unless_error (v.create_namespace ns) creating_namespace
    >> modify (called (namespace_created ns expires_at))

abbrev pub arm_watchdog : ℤ → Velero (Unit {0})
arm_watchdog ttl = modify (λ s. record (called (watchdog_armed ttl) s) { has_watchdog = true })

unfoldable pub enter : VeleroServer → String → ℤ → Velero (Unit {0})
enter v ns ttl =
    create_namespace v ns (v.now + pos_part ttl) >> (ensure_policy v ns >> arm_watchdog ttl)

abbrev pub session : VeleroServer → String → BackupObject → Session
session v ns b = record {
  target_ns = ns;
  backup_age = time_sub v.now (backup_time b b.completed_at);
  restore_name = "";
  once = false;
  destroy_err = none;
  has_watchdog = false;
  destroyed = false;
  calls = [];
}

abbrev pub no_backup : BackupObject
no_backup = record { phase = ""; created_at = 0; completed_at = none }

abbrev pub with_backup :
    VeleroServer → String → ℤ → Result String BackupObject → Result VeleroError (Unit {0}) × Session
with_backup v ns ttl (err e) = (err (reading_backup e), session v ns no_backup)
with_backup v ns ttl (ok b) =
    if b.phase != "Completed"
    then (err (not_completed b.phase), session v ns b)
    else enter v ns ttl (session v ns b)

abbrev pub with_clients :
    VeleroServer
    → String
    → String
    → ℤ
    → Option String
    → Option String
    → Option String
    → Result VeleroError (Unit {0}) × Session
with_clients v backup ns ttl (some e) dyn cli = (err (no_config e), session v ns no_backup)
with_clients v backup ns ttl none (some e) cli = (err (dynamic_error e), session v ns no_backup)
with_clients v backup ns ttl none none (some e) = (err (client_error e), session v ns no_backup)
with_clients v backup ns ttl none none none = with_backup v ns ttl (v.get_backup backup)

-- `ns` is the target's name with its random part.
unfoldable pub prepare :
    VeleroServer → String → String → ℤ → Result VeleroError (Unit {0}) × Session
prepare v backup ns ttl = with_clients v backup ns ttl v.config v.dynamic_client v.client

-- `RestoreResult`
pub record RestoreResult : Type 0 where
  pub duration : ℕ
  pub phase : String
  pub warnings : ℤ
  pub errors : ℤ

-- A result and an error, either of which may be nil.
pub record Restored : Type 0 where
  pub result : Option RestoreResult
  pub error : Option VeleroError

unfoldable pub is_terminal : String → Bool
is_terminal phase =
    phase == "Completed" || phase == "PartiallyFailed" || starts_with (codes phase) (codes "Failed")

abbrev pub result_of : ℕ → RestoreObject → RestoreResult
result_of elapsed r = record {
  duration = elapsed;
  phase = r.phase;
  warnings = r.warnings;
  errors = r.errors;
}

abbrev pub terminal_result : ℕ → RestoreObject → Restored
terminal_result elapsed r = record {
  result = some (result_of elapsed r);
  error =
      if r.phase != "Completed"
      then some (restore_phase r.phase r.errors r.warnings r.validation_errors)
      else none;
}

-- An error of the API is not the drill's: the wait goes on.
abbrev pub got_round : ℕ → Result String RestoreObject → Round Restored
got_round elapsed (err e) = again
got_round elapsed (ok r) = if is_terminal r.phase then done (terminal_result elapsed r) else again

abbrev pub velero_round : Option String → VeleroRound → Round Restored
velero_round (some e) r = done (record { result = none; error = some (context_over e) })
velero_round none r = got_round r.elapsed r.get

-- The loop has no deadline of its own: of so many rounds at most.
unfoldable pub await_restore : ℕ → VeleroServer → Ended Restored
await_restore limit v =
    poll (suc limit) limit (λ i. i) (λ i. velero_round (v.rounds i).cancelled (v.rounds i)) 0

-- The name is set before the call that may fail.
unfoldable pub start_restore : VeleroServer → String → Velero (Unit {0})
start_restore v name =
    modify (λ s. record s { restore_name = name })
    >> (unless_error (v.create_restore name) creating_restore
        >> modify (called (restore_created name)))
