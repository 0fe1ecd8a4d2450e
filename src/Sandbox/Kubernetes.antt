-- ===== src/Sandbox/Kubernetes.antt =====
-- `Provision` and `Destroy` of pkg/sandbox/kubernetes/kubernetes.go, over what the API server answers.
pub mod Provision
pub mod Held
pub mod Cleanup
pub mod Provided
use fire_drill.Base.{
  ℕ, zero, suc, ℤ, pos, negsuc, ◌+◌, ◌-◌, ◌*◌, ◌≤◌, ◌<◌, ◌≡◌, ◌≢◌, refl, ap, sym, subst, ◌∙◌, ◌++◌,
  ◌∷◌, [], List, ◌⊎◌, inl, inr, ◌↔◌, ok, err, Result, Bool, true, false, not, ◌&&◌, ◌||◌, ◌!=◌,
  ◌==◌, nat_eq, string_eq, arith, if_false, if_true, Bool-cases, Result-cases, Option-cases, ltb,
  leb, eq_iff, if◌then◌else◌, none, some, String, Option, ltb_ℤ, leb_ℤ, pos_part, time_sub, map,
  length, take, drop, is_empty, all, any, All, Any, append_assoc, append-nil, length-append,
  All-append, length-map, ltb→lt, lt→ltb, codes,
}
use fire_drill.Drill.World.{SandboxConfig}
use fire_drill.Verify.Types.{Phase, running, succeeded, failed}
use fire_drill.Std.Poll.{Round, again, done, Ended, out_of_fuel, timed_out, returned, poll}
use fire_drill.Sandbox.Steps.{
  Action, ◌>>=◌, ◌>>◌, pure, modify, throw, attempt, unless_error, on_error,
}
use fire_drill.Sandbox.Ready.{all_ready}
use fire_drill.Sandbox.Docker.{Engine, db_name, db_user}
use fire_drill.Sandbox.Env.{EnvVar}

pub data CreateAnswer : Type 0 where
  created already_exists : CreateAnswer
  create_failed : String → CreateAnswer

pub data DeleteAnswer : Type 0 where
  deleted not_found : DeleteAnswer
  delete_failed : String → DeleteAnswer

-- `netv1.NetworkPolicy`: the label that it selects, and the egress that it allows to these pods.
pub record Policy : Type 0 where
  pub namespace : String
  pub selects : String
  pub egress : List String

-- `corev1.Pod`, as far as it is set.
pub record PodSpec : Type 0 where
  pub name : String
  pub namespace : String
  pub sandbox_label : String
  pub drill_label : String
  pub expires_at : ℕ
  pub active_deadline : ℕ
  pub image : String
  pub command : List String
  pub env : List EnvVar
  pub container_port : ℕ
  pub privilege_escalation : Bool

-- What a round of `waitReady` meets.
pub record PodProbe : Type 0 where
  pub at : ℕ
  pub cancelled : Option String
  pub get : Result String Phase
  pub exec : List String → Result String (ℕ × String)

-- How the forward of a port ends its start.
pub data ForwardStart : Type 0 where
  forward_ready : ForwardStart
  forward_failed : String → ForwardStart
  forward_slow : ForwardStart

-- `standing_policy` is the policy that stands where one of its name exists already.
pub record Server : Type 0 where
  pub in_cluster_config : Bool
  pub kubeconfig : Option String
  pub new_client : Option String
  pub create_namespace : String → CreateAnswer
  pub create_policy : Policy → CreateAnswer
  pub standing_policy : Policy
  pub create_pod : PodSpec → Option String
  pub wait_start : ℕ
  pub probes : ℕ → PodProbe
  pub pod_ip : String → Result String String
  pub round_tripper : Option String
  pub new_forwarder : ℕ → Option String
  pub forward_start : ForwardStart
  pub forward_ports : Result String (List ℕ)
  pub delete_pod : DeleteAnswer
  pub now : ℕ

pub data Call : Type 0 where
  namespace_ensured : String → Call
  policy_created : Policy → Call
  policy_found : Call
  pod_created : PodSpec → Call
  forward_opened forward_stopped : Call
  pod_deleted : String → Call
  watchdog_armed : ℤ → Call
  watchdog_cancelled : Call

pub data WaitError : Type 0 where
  context_over : String → WaitError
  pod_exited : Phase → WaitError
  not_ready_in_time : WaitError

pub data ForwardError : Type 0 where
  forward_call : String → ForwardError
  forward_timeout : ForwardError
  forward_no_ports : Option String → ForwardError

pub data ProvisionError : Type 0 where
  no_config client_error : String → ProvisionError
  namespace_error policy_error creating_pod : String → ProvisionError
  waiting : WaitError → ProvisionError
  getting_pod : String → ProvisionError
  forwarding_error : ForwardError → ProvisionError

-- `Sandbox`, with the calls so far; `forwarding` is whether `pfStop` is set.
pub record State : Type 0 where
  pub namespace : String
  pub pod_name : String
  pub password : String
  pub host : String
  pub host_port : String
  pub forwarding : Bool
  pub once : Bool
  pub destroy_err : Option String
  pub has_watchdog : Bool
  pub destroyed : Bool
  pub calls : List Call

abbrev pub called : Call → State → State
called c s = record s { calls = s.calls ++ (c ∷ []) }

abbrev pub Sandboxed : Type 0 → Type 0
Sandboxed A = Action State ProvisionError A

-- `LoadConfig`: whether the program runs in the cluster.
unfoldable pub load_config : Server → Result String Bool
load_config v =
    if v.in_cluster_config then ok true else elim v.kubeconfig [ none ↦ ok false | some e ↦ err e ]

-- What exists already is as good as created.
abbrev pub ensured : CreateAnswer → Option String
ensured created = none
ensured already_exists = none
ensured (create_failed e) = some e

abbrev pub ensure : CreateAnswer → (String → ProvisionError) → Call → Sandboxed (Unit {0})
ensure answer wrap call = unless_error (ensured answer) wrap >> modify (called call)

unfoldable pub ensure_namespace : Server → String → Sandboxed (Unit {0})
ensure_namespace v ns = ensure (v.create_namespace ns) namespace_error (namespace_ensured ns)

abbrev pub sandbox_label : String
sandbox_label = "firedrill/sandbox=true"

-- No rules: all egress is denied.
abbrev pub deny_egress : String → Policy
deny_egress ns = record { namespace = ns; selects = sandbox_label; egress = [] }

abbrev pub settled_policy : CreateAnswer → Policy → Sandboxed (Unit {0})
settled_policy created p = modify (called (policy_created p))
settled_policy already_exists p = modify (called policy_found)
settled_policy (create_failed e) p = throw (policy_error e)

-- A policy that has the name already is left as it is, and not looked at.
unfoldable pub ensure_deny_egress_policy : Server → String → Sandboxed (Unit {0})
ensure_deny_egress_policy v ns = settled_policy (v.create_policy (deny_egress ns)) (deny_egress ns)

-- A round of `waitReady`.
abbrev pub running_round : Bool → Round (Result WaitError (Unit {0}))
running_round ready = if ready then done (ok tt) else again

abbrev pub phase_round : Bool → Result String Phase → Round (Result WaitError (Unit {0}))
phase_round ready (err e) = again
phase_round ready (ok running) = running_round ready
phase_round ready (ok succeeded) = done (err (pod_exited succeeded))
phase_round ready (ok failed) = done (err (pod_exited failed))
phase_round ready (ok other) = again

abbrev pub pod_round :
    List (List String) → PodProbe → Option String → Round (Result WaitError (Unit {0}))
pod_round cmds p (some e) = done (err (context_over e))
pod_round cmds p none = phase_round (all_ready p.exec cmds) p.get

abbrev pub poll_interval : ℕ
poll_interval = 1000000000

abbrev pub ready_timeout : ℕ
ready_timeout = 240000000000

abbrev pub ready_rounds : ℕ
ready_rounds = 241

abbrev pub in_time : Ended (Result WaitError (Unit {0})) → Option (Result WaitError (Unit {0}))
in_time out_of_fuel = none
in_time timed_out = some (err not_ready_in_time)
in_time (returned r) = some r

-- None is the lack of fuel.
unfoldable pub wait_ready :
    ℕ → (ℕ → PodProbe) → List (List String) → Option (Result WaitError (Unit {0}))
wait_ready start probes cmds = in_time (
    poll ready_rounds (start + ready_timeout) (λ i. (probes i).at)
      (λ i. pod_round cmds (probes i) (probes i).cancelled) 0)

abbrev pub ready_or : Option (Result WaitError (Unit {0})) → Sandboxed (Unit {0})
ready_or none = throw (waiting not_ready_in_time)
ready_or (some r) = attempt r waiting

-- `GetPorts`
abbrev pub forwarded_port : Result String (List ℕ) → Result ForwardError ℕ × List Call
forwarded_port (err e) = (err (forward_no_ports (some e)), forward_opened ∷ forward_stopped ∷ [])
forwarded_port (ok []) = (err (forward_no_ports none), forward_opened ∷ forward_stopped ∷ [])
forwarded_port (ok (p ∷ ps)) = (ok p, forward_opened ∷ [])

abbrev pub forward_started : Server → ForwardStart → Result ForwardError ℕ × List Call
forward_started v (forward_failed e) = (err (forward_call e), [])
forward_started v forward_slow = (err forward_timeout, forward_opened ∷ forward_stopped ∷ [])
forward_started v forward_ready = forwarded_port v.forward_ports

abbrev pub forward_with : Server → Option String → Option String → Result ForwardError ℕ × List Call
forward_with v (some e) forwarder = (err (forward_call e), [])
forward_with v none (some e) = (err (forward_call e), [])
forward_with v none none = forward_started v v.forward_start

-- The local port, and whether the forward stays open.
unfoldable pub port_forward : Server → ℕ → Result ForwardError ℕ × List Call
port_forward v port = forward_with v v.round_tripper (v.new_forwarder port)
