-- ===== src/Sandbox/Kubernetes/Provision.antt =====
-- `Destroy`, and `Provision` from its first call on.
use fire_drill.Base.{
  ℕ, ◌+◌, ◌/◌, ◌%◌, ◌++◌, ◌∷◌, [], List, ok, err, Result, Bool, true, false, ◌==◌, nat_eq,
  string_eq, if◌then◌else◌, none, some, String, Option, pos_part,
}
use fire_drill.Drill.World.{SandboxConfig}
use fire_drill.Sandbox.Steps.{◌>>◌, modify, throw, unless_error, on_error}
use fire_drill.Sandbox.Docker.{Engine, db_name, db_user}
use fire_drill.Sandbox.Env.{env_vars}
use fire_drill.Sandbox.Kubernetes.{
  Server, State, Sandboxed, Call, called, PodSpec, pod_created, pod_deleted, forward_stopped,
  watchdog_armed, watchdog_cancelled, DeleteAnswer, deleted, not_found, delete_failed, ForwardError,
  ProvisionError, no_config, client_error, creating_pod, getting_pod, forwarding_error, load_config,
  ensure_namespace, ensure_deny_egress_policy, sandbox_label, wait_ready, ready_or, port_forward,
}

unfoldable pub cancel_watchdog : State → State
cancel_watchdog s = if s.has_watchdog then called watchdog_cancelled s else s

unfoldable pub stop_forward : State → State
stop_forward s = if s.forwarding then called forward_stopped s else s

abbrev pub delete_error : DeleteAnswer → Option String
delete_error deleted = none
delete_error not_found = none
delete_error (delete_failed e) = some e

abbrev pub no_error : Option String → Bool
no_error none = true
no_error (some e) = false

unfoldable pub torn_down : Server → State → State
torn_down v s =
    let t = called (pod_deleted s.pod_name) (stop_forward (cancel_watchdog s)) in
    record t {
      once = true;
      destroy_err = delete_error v.delete_pod;
      destroyed = no_error (delete_error v.delete_pod);
    }

-- `Destroy`; its result is the `destroy_err` of the state.
unfoldable pub destroy : Server → State → State
destroy v s = if s.once then s else torn_down v s

abbrev second : ℕ
second = 1000000000

-- What `intstr.Parse` makes of the driver's port without its protocol.
pub record Port : Type 0 where
  pub number : ℕ
  pub text : String

unfoldable pub pod_spec :
    Server
    → Engine
    → SandboxConfig
    → String
    → String
    → String
    → String
    → List (List ℕ)
    → Port
    → PodSpec
pod_spec v eng cfg ns name label password env port = record {
  name = name;
  namespace = ns;
  sandbox_label = sandbox_label;
  drill_label = label;
  expires_at = v.now + pos_part cfg.ttl;
  active_deadline = pos_part cfg.ttl / second + 60;
  image = cfg.image;
  command = if cfg.cold_start then "sleep" ∷ "infinity" ∷ [] else [];
  env = env_vars env;
  container_port = port.number % 65536;
  privilege_escalation = false;
}

-- In the cluster the drill talks to the pod.
abbrev pub reach_pod : Result String String → Port → Sandboxed (Unit {0})
reach_pod (err e) port = throw (getting_pod e)
reach_pod (ok ip) port = modify (λ s. record s { host = ip; host_port = port.text })

-- Outside, a local port is forwarded to the pod.
abbrev pub reach_forward : (ℕ → String) → Result ForwardError ℕ × List Call → Sandboxed (Unit {0})
reach_forward print (err e, cs) =
    modify (λ s. record s { calls = s.calls ++ cs }) >> throw (forwarding_error e)
reach_forward print (ok p, cs) = modify (λ s. record s {
  calls = s.calls ++ cs;
  host = "127.0.0.1";
  host_port = print p;
  forwarding = true;
})

unfoldable pub connect : Server → (ℕ → String) → Bool → String → Port → Sandboxed (Unit {0})
connect v print in_cluster name port =
    if in_cluster
    then reach_pod (v.pod_ip name) port
    else reach_forward print (port_forward v port.number)

-- No readiness command on a cold start: the pod only has to run.
abbrev pub readiness : Engine → SandboxConfig → String → List (List String)
readiness eng cfg password = if cfg.cold_start then [] else eng.ready_cmds db_user password db_name

unfoldable pub create_pod : Server → PodSpec → Sandboxed (Unit {0})
create_pod v spec =
    unless_error (v.create_pod spec) creating_pod >> modify (called (pod_created spec))

unfoldable pub fill :
    Server
    → (ℕ → String)
    → Bool
    → String
    → SandboxConfig
    → PodSpec
    → List (List String)
    → Port
    → Sandboxed (Unit {0})
fill v print in_cluster ns cfg spec ready_cmds port = do
  ensure_namespace v ns
  ensure_deny_egress_policy v ns
  create_pod v spec
  ready_or (wait_ready v.wait_start v.probes ready_cmds)
  connect v print in_cluster spec.name port
  modify (λ s. record (called (watchdog_armed cfg.ttl) s) { has_watchdog = true })

abbrev pub fresh : String → String → String → State
fresh ns name password = record {
  namespace = ns;
  pod_name = name;
  password = password;
  host = "";
  host_port = "";
  forwarding = false;
  once = false;
  destroy_err = none;
  has_watchdog = false;
  destroyed = false;
  calls = [];
}

abbrev pub namespace_of : String → String
namespace_of ns = if ns == "" then "firedrill" else ns

-- `name` and `password` have the random parts, `label` is the sanitized name of the drill, `env` the
-- assignments of the driver's `ContainerEnv`, and `print` writes a port.
pub record Names : Type 0 where
  pub name : String
  pub label : String
  pub password : String
  pub env : List (List ℕ)
  pub port : Port
  pub print : ℕ → String

unfoldable pub provision_in :
    Server → Engine → SandboxConfig → Names → Bool → Result ProvisionError (Unit {0}) × State
provision_in v eng cfg n in_cluster =
    let ns = namespace_of cfg.namespace in
    on_error (destroy v)
      (fill v n.print in_cluster ns cfg
        (pod_spec v eng cfg ns n.name n.label n.password n.env n.port)
        (readiness eng cfg n.password) n.port)
      (fresh ns n.name n.password)

abbrev pub provision_with :
    Server
    → Engine
    → SandboxConfig
    → Names
    → Result String Bool
    → Option String
    → Result ProvisionError (Unit {0}) × State
provision_with v eng cfg n (err e) client = (err (no_config e), fresh "" "" "")
provision_with v eng cfg n (ok in_cluster) (some e) = (err (client_error e), fresh "" "" "")
provision_with v eng cfg n (ok in_cluster) none = provision_in v eng cfg n in_cluster

unfoldable pub provision :
    Server → Engine → SandboxConfig → Names → Result ProvisionError (Unit {0}) × State
provision v eng cfg n = provision_with v eng cfg n (load_config v) v.new_client
