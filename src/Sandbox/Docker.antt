-- ===== src/Sandbox/Docker.antt =====
-- `Provision` and `Destroy` of pkg/sandbox/docker/docker.go, over what the Docker daemon answers.
-- An identifier that is not set is the empty text, as in the source.
pub mod Cleanup
pub mod Destroyed
use fire_drill.Base.{
  ℕ, zero, suc, ℤ, pos, negsuc, ◌+◌, ◌-◌, ◌*◌, ◌≤◌, ◌<◌, ◌≡◌, ◌≢◌, refl, ap, sym, subst, ◌∙◌, ◌++◌,
  ◌∷◌, [], List, ◌⊎◌, inl, inr, ◌↔◌, ok, err, Result, Bool, true, false, not, ◌&&◌, ◌||◌, ◌!=◌,
  ◌==◌, nat_eq, string_eq, arith, Bool-cases, Result-cases, Option-cases, ltb, leb, eq_iff,
  if◌then◌else◌, none, some, String, Option, ltb_ℤ, leb_ℤ, pos_part, time_sub, map, length, take,
  drop, is_empty, all, any, All, Any, append_assoc, append-nil, length-append, length-map, ltb→lt,
  lt→ltb, codes,
}
use Prim.Native.String.{◌++◌ as cat}
use fire_drill.Drill.World.{SandboxConfig}
use fire_drill.Sandbox.Steps.{
  Action, ◌>>=◌, ◌>>◌, pure, modify, throw, attempt, unless_error, on_error,
}
use fire_drill.Sandbox.Ready.{Probe, NotReady, wait_ready, not_ready_in_time}

abbrev pub db_name : String
db_name = "firedrill"

abbrev pub db_user : String
db_user = "firedrill"

-- What a sandbox asks of `drivers.Driver`.
pub record Engine : Type 0 where
  pub port : String
  pub container_env : String → String → String → List String
  pub ready_cmds : String → String → String → List (List String)

-- `container.Config` and `container.HostConfig`, as far as they are set.
pub record ContainerSpec : Type 0 where
  pub name : String
  pub image : String
  pub env : List String
  pub drill_label : String
  pub expires_at : ℕ
  pub exposed_port : ℕ
  pub entrypoint : List String
  pub host_ip : String
  pub host_port : String
  pub network_mode : String

pub data Call : Type 0 where
  network_created : String → String → Call
  container_created : String → ContainerSpec → Call
  container_started : String → Call
  container_removed network_removed : String → Call
  watchdog_armed : ℤ → Call
  watchdog_cancelled : Call

-- `NetworkSettings`: the host ports that a port is published on.
abbrev pub Settings : Type 0
Settings = Option (ℕ → List String)

pub record Daemon : Type 0 where
  pub connect : Option String
  pub ping : Option String
  pub network_create : String → Result String String
  pub pull : String → Option String
  pub pull_wait : String → Option String
  pub parse_port : String → Result String ℕ
  pub now : ℕ
  pub container_create : ContainerSpec → Result String String
  pub container_start : String → Option String
  pub wait_start : ℕ
  pub probes : ℕ → Probe
  pub inspect : String → Result String Settings
  pub container_remove : String → Option String
  pub network_remove : String → Option String

pub data ProvisionError : Type 0 where
  connecting unreachable creating_network pulling driver_port : String → ProvisionError
  creating_container starting inspecting : String → ProvisionError
  waiting : NotReady → ProvisionError
  no_settings no_published_port : ProvisionError

pub data DestroyError : Type 0 where
  removing_container removing_network : String → DestroyError

-- `Sandbox`, with the calls so far. `has_watchdog` is whether `ttlCancel` is set, and `once` whether
-- `destroyOnce` has run.
pub record State : Type 0 where
  pub container_id : String
  pub network_id : String
  pub password : String
  pub host_port : String
  pub once : Bool
  pub destroy_err : Option DestroyError
  pub has_watchdog : Bool
  pub destroyed : Bool
  pub calls : List Call

abbrev pub called : Call → State → State
called c s = record s { calls = s.calls ++ (c ∷ []) }

abbrev pub failing :
    (String → DestroyError) → Option String → Option DestroyError → Option DestroyError
failing wrap none e = e
failing wrap (some x) none = some (wrap x)
failing wrap (some x) (some e) = some e

unfoldable pub cancel_watchdog : State → State
cancel_watchdog s = if s.has_watchdog then called watchdog_cancelled s else s

-- The container's error is assigned, whatever stood there.
unfoldable pub remove_container : Daemon → State → State
remove_container d s =
    if s.container_id != ""
    then record (called (container_removed s.container_id) s) {
      destroy_err = failing removing_container (d.container_remove s.container_id) none;
    }
    else s

unfoldable pub remove_network : Daemon → State → State
remove_network d s =
    if s.network_id != ""
    then record (called (network_removed s.network_id) s) {
      destroy_err = failing removing_network (d.network_remove s.network_id) s.destroy_err;
    }
    else s

abbrev pub no_destroy_error : Option DestroyError → Bool
no_destroy_error none = true
no_destroy_error (some e) = false

unfoldable pub torn_down : Daemon → State → State
torn_down d s =
    let t = remove_network d (remove_container d (cancel_watchdog s)) in
    record t { once = true; destroyed = no_destroy_error t.destroy_err }

-- `Destroy`; its result is the `destroy_err` of the state.
unfoldable pub destroy : Daemon → State → State
destroy d s = if s.once then s else torn_down d s

abbrev pub Sandboxed : Type 0 → Type 0
Sandboxed A = Action State ProvisionError A

unfoldable pub container_spec :
    Daemon → Engine → SandboxConfig → String → String → ℕ → String → ContainerSpec
container_spec d eng cfg name password port network = record {
  name = name;
  image = cfg.image;
  env = eng.container_env db_user password db_name;
  drill_label = cfg.name;
  expires_at = d.now + pos_part cfg.ttl;
  exposed_port = port;
  entrypoint = if cfg.cold_start then "sleep" ∷ "infinity" ∷ [] else [];
  host_ip = "127.0.0.1";
  host_port = "";
  network_mode = network;
}

abbrev pub created_container : Daemon → ContainerSpec → Result String String → Sandboxed String
created_container d spec (err e) = throw (creating_container e)
created_container d spec (ok id) =
    modify (λ s. record (called (container_created id spec) s) { container_id = id }) >> pure id

-- `wait_ready` never lacks fuel.
abbrev pub ready_or : Option (Result NotReady (Unit {0})) → Sandboxed (Unit {0})
ready_or none = throw (waiting not_ready_in_time)
ready_or (some r) = attempt r waiting

-- The readiness commands are not run on a cold start.
unfoldable pub await_ready : Daemon → Engine → SandboxConfig → String → Sandboxed (Unit {0})
await_ready d eng cfg password =
    if cfg.cold_start
    then pure tt
    else ready_or (wait_ready d.wait_start d.probes (eng.ready_cmds db_user password db_name))

abbrev pub first_port : List String → Sandboxed String
first_port [] = throw no_published_port
first_port (p ∷ ps) = pure p

abbrev pub published : ℕ → Settings → Sandboxed String
published port none = throw no_settings
published port (some ports) = first_port (ports port)

-- From the created network on.
unfoldable pub fill :
    Daemon → Engine → SandboxConfig → String → String → String → Sandboxed (Unit {0})
fill d eng cfg name password network = do
  unless_error (d.pull cfg.image) pulling
  unless_error (d.pull_wait cfg.image) pulling
  port ← attempt (d.parse_port eng.port) driver_port
  id ←
      let spec = container_spec d eng cfg name password port network in
      created_container d spec (d.container_create spec)
  unless_error (d.container_start id) starting
  modify (called (container_started id))
  await_ready d eng cfg password
  settings ← attempt (d.inspect id) inspecting
  host ← published port settings
  modify (λ s. record s { host_port = host })
  modify (λ s. record (called (watchdog_armed cfg.ttl) s) { has_watchdog = true })

abbrev fresh : String → String → State
fresh password network = record {
  container_id = "";
  network_id = network;
  password = password;
  host_port = "";
  once = false;
  destroy_err = none;
  has_watchdog = false;
  destroyed = false;
  calls = [];
}

-- The sandbox after a failure is not returned, but its calls were made.
abbrev pub provision_network :
    Daemon
    → Engine
    → SandboxConfig
    → String
    → String
    → Result String String
    → Result ProvisionError (Unit {0}) × State
provision_network d eng cfg name password (err e) = (err (creating_network e), fresh password "")
provision_network d eng cfg name password (ok network) =
    on_error (destroy d) (fill d eng cfg name password network)
      (called (network_created network name) (fresh password network))

-- The answers to connecting and to the ping come first.
abbrev pub provision_reached :
    Daemon
    → Engine
    → SandboxConfig
    → String
    → String
    → Option String
    → Option String
    → Result ProvisionError (Unit {0}) × State
provision_reached d eng cfg name password (some e) ping = (err (connecting e), fresh password "")
provision_reached d eng cfg name password none (some e) = (err (unreachable e), fresh password "")
provision_reached d eng cfg name password none none =
    provision_network d eng cfg name password (d.network_create name)

-- `suffix` and `password` are the two results of `randomHex`, and `label` is the sanitized name.
unfoldable pub provision :
    Daemon
    → Engine
    → SandboxConfig
    → String
    → String
    → String
    → Result ProvisionError (Unit {0}) × State
provision d eng cfg label suffix password =
    provision_reached d eng cfg (cat "firedrill-" (cat label (cat "-" suffix))) password d.connect
      d.ping
