-- ===== src/Examples/Sandboxes.antt =====
-- The sandboxes of pkg/sandbox, where Docker and a cluster answer well and where they do not.
use fire_drill.Base.{
  ℕ, pos, ◌+◌, ◌*◌, ◌≡◌, ◌≢◌, refl, ◌∷◌, [], List, ◌↔◌, ok, err, true, false, nat_eq, string_eq,
  arith, ltb, if◌then◌else◌, none, some, String,
}
use fire_drill.Std.Poll.{IsPaced}
use fire_drill.Drill.World.{SandboxConfig}
use fire_drill.Sandbox.Ready.{Probe, wait_ready, wait_ready_ends, BecomesReady, ready_timeout}
use fire_drill.Sandbox.Docker.{Daemon, Engine, State, provision as provision_docker, destroy}
use fire_drill.Sandbox.Docker.Cleanup.{IsCleanOr as IsCleanDocker}
use fire_drill.Sandbox.Docker.Destroyed.{destroy_all, destroy_all-first, RemovesAll}
use fire_drill.Sandbox.Kubernetes.{
  Server, deny_egress, created, already_exists, deleted, forward_slow,
}
use fire_drill.Sandbox.Kubernetes.Provision.{Names, provision as provision_pod}
use fire_drill.Sandbox.Kubernetes.Provided.{IsCleanOr as IsCleanPod}
use fire_drill.Verify.Types.{running}
use fire_drill.Examples.Data.{second}

abbrev probes : ℕ → Probe
probes i = record {
  at = 10 * second + i * second;
  cancelled = none;
  exec = λ cmd. if ltb i 2 then err "starting" else ok (0, "");
}

abbrev commands : List (List String)
commands = ("pg_isready" ∷ []) ∷ []

paced : IsPaced 500000000 (10 * second) (λ i. (probes i).at)
paced = record { begins = omega arith; sleeps = λ i. omega arith }

wait_ready_ends_example :
    (wait_ready (10 * second) probes commands ≢ none)
    × ((wait_ready (10 * second) probes commands ≡ some (ok tt))
        ↔ BecomesReady (10 * second + ready_timeout) probes commands 0)
wait_ready_ends_example = wait_ready_ends (10 * second) probes commands paced

abbrev engine : Engine
engine = record {
  port = "5432/tcp";
  container_env = λ user pw db. "POSTGRES_DB" ∷ [];
  ready_cmds = λ user pw db. commands;
}

abbrev config : SandboxConfig
config = record {
  image = "postgres:16";
  ttl = pos 1800000000000;
  name = "payments";
  namespace = "";
  cold_start = true;
}

-- The container does not start.
abbrev daemon : Daemon
daemon = record {
  connect = none;
  ping = none;
  network_create = λ name. ok "net";
  pull = λ image. none;
  pull_wait = λ image. none;
  parse_port = λ port. ok 5432;
  now = 10 * second;
  container_create = λ spec. ok "box";
  container_start = λ id. some "no space";
  wait_start = 10 * second;
  probes = probes;
  inspect = λ id. ok none;
  container_remove = λ id. none;
  network_remove = λ id. none;
}

abbrev sandbox : State
sandbox = record {
  container_id = "box";
  network_id = "net";
  password = "pw";
  host_port = "49153";
  once = false;
  destroy_err = none;
  has_watchdog = true;
  destroyed = false;
  calls = [];
}

-- The drill and then the watchdog.
destroy_all-first_example :
    (destroy_all (daemon ∷ daemon ∷ []) sandbox ≡ destroy daemon sandbox)
    × (((destroy daemon sandbox).destroyed ≡ true) ↔ RemovesAll daemon sandbox)
    × (((destroy daemon sandbox).destroyed ≡ true) ↔ ((destroy daemon sandbox).destroy_err ≡ none))
destroy_all-first_example = destroy_all-first daemon (daemon ∷ []) sandbox refl refl

-- The port is not forwarded in time.
abbrev server : Server
server = record {
  in_cluster_config = false;
  kubeconfig = none;
  new_client = none;
  create_namespace = λ ns. already_exists;
  create_policy = λ policy. created;
  standing_policy = deny_egress "firedrill";
  create_pod = λ spec. none;
  wait_start = 10 * second;
  probes = λ i. record {
    at = 10 * second + i * second;
    cancelled = none;
    get = ok running;
    exec = (probes i).exec;
  };
  pod_ip = λ name. ok "10.0.0.7";
  round_tripper = none;
  new_forwarder = λ port. none;
  forward_start = forward_slow;
  forward_ports = ok (40001 ∷ []);
  delete_pod = deleted;
  now = 10 * second;
}

abbrev names : Names
names = record {
  name = "firedrill-payments-0a";
  label = "payments";
  password = "pw";
  env = (65 ∷ 61 ∷ 66 ∷ []) ∷ [];
  port = record { number = 5432; text = "5432" };
  print = λ p. "40001";
}
