-- ===== src/Examples/Sweeps.antt =====
-- The sweeps of pkg/gc over one live and one orphaned sandbox.
use fire_drill.Base.{
  List, ℕ, pos, ◌≡◌, ◌⊎◌, inl, refl, true, false, [], ◌∷◌, Option, none, some, String, ok, Any,
  time_sub, ◌==◌, string_eq, if◌then◌else◌,
}
use fire_drill.Gc.Lease.{Options, expired}
use fire_drill.Gc.Sweep.{
  nothing, Swept, remove_container, remove_network, delete_pod, delete_namespace, delete_restore,
  handle, sweep, container, pod, plain, network, namespace, in_use, terminating,
}
use fire_drill.Gc.Docker.{
  Container, Network, Daemon, container_task, network_task, sweep_listed, sweep_docker,
}
use fire_drill.Gc.Docker.Removes.{IsLeftContainer, IsLeftNetwork, sweep_docker-calls_iff}
use fire_drill.Gc.Docker.Reports.{ContainerTold, NetworkTold, sweep_docker-lines}
use fire_drill.Gc.Sweep.Told.{Told, Each, Shows}
use fire_drill.Gc.Kubernetes.{
  SandboxPod, DrillNamespace, Restore, Clients, pod_task, namespace_task, restore_task,
}
use fire_drill.Gc.Kubernetes as K8s
use fire_drill.Gc.Kubernetes.Removes.{
  IsLeftPod, IsLeftNamespace, IsLeftRestore, sweep_kubernetes-calls_iff,
}

abbrev parse : String → Option ℕ
parse s = if s == "2026-01-01T00:00:00Z" then some 500 else none

abbrev gc_options : Options
gc_options = record { older_than = pos 100; dry_run = false; force = false }

abbrev live : Container
live = record {
  id = "c1";
  names = "/firedrill-live" ∷ [];
  label = "sandbox";
  expires = "";
  created = 950;
}

abbrev orphan : Container
orphan = record live { id = "c2"; names = "/firedrill-old" ∷ []; expires = "2026-01-01T00:00:00Z" }

abbrev net : Network
net = record { id = "n1"; name = "firedrill-old"; created = 10 }

abbrev daemon : Daemon
daemon = record {
  connect = none;
  ping = none;
  containers = ok (live ∷ orphan ∷ []);
  networks = ok (net ∷ []);
  remove_container = λ _. none;
  remove_network = λ _. some "in use";
  parse = parse;
  now = 1000;
}

orphan_expired : expired parse gc_options "2026-01-01T00:00:00Z" 950 1000 ≡ true
unfolding expired
orphan_expired = refl

abbrev docker_swept : Swept
docker_swept = record {
  reaped = record { item = container "firedrill-old"; remark = plain } ∷ [];
  skipped =
      record { item = container "firedrill-live"; remark = plain }
      ∷ record { item = network "firedrill-old"; remark = in_use }
      ∷ [];
  errors = [];
  calls = remove_container "c2" ∷ remove_network "n1" ∷ [];
}

docker_run : sweep_docker daemon gc_options ≡ (some docker_swept, none)
unfolding sweep_docker sweep_listed container_task network_task expired sweep handle time_sub
docker_run = refl

sweep_docker-calls_iff_example :
    Any
      (λ c.
        ((false ≡ false) × IsLeftContainer daemon gc_options c)
        × (remove_container "c2" ≡ remove_container c.id))
      (live ∷ orphan ∷ [])
    ⊎ Any
        (λ n.
          ((false ≡ false) × IsLeftNetwork daemon gc_options n)
          × (remove_container "c2" ≡ remove_network n.id))
        (net ∷ [])
sweep_docker-calls_iff_example =
    (sweep_docker-calls_iff daemon gc_options (λ call. remove_container "c2" ≡ call)
        (live ∷ orphan ∷ []) (net ∷ []) docker_swept refl refl docker_run).0
      (inl refl)

sweep_docker-lines_example :
    (cts nts : List Told) × (rest : Swept) × Each
      (ContainerTold daemon gc_options)
      (live ∷ orphan ∷ [])
      cts
    × Each (NetworkTold daemon gc_options) (net ∷ []) nts
    × Shows nts nothing rest
    × Shows cts rest docker_swept
sweep_docker-lines_example =
    sweep_docker-lines daemon gc_options (live ∷ orphan ∷ []) (net ∷ []) docker_swept refl refl
      docker_run

abbrev left_pod : SandboxPod
left_pod = record { namespace = "firedrill"; name = "payments"; expires = ""; created = 100 }

abbrev leaving : DrillNamespace
leaving = record { name = "firedrill-web"; phase = "Terminating"; expires = ""; created = 100 }

abbrev clients : Clients
clients = record {
  connect = none;
  pods = ok (left_pod ∷ []);
  namespaces = ok (leaving ∷ []);
  restores = ok [];
  delete_pod = λ _ _. some K8s.not_found;
  delete_namespace = λ _. none;
  delete_restore = λ _. none;
  parse = parse;
  now = 1000;
}

abbrev kubernetes_swept : Swept
kubernetes_swept = record {
  reaped = record { item = pod "firedrill" "payments"; remark = plain } ∷ [];
  skipped = record { item = namespace "firedrill-web"; remark = terminating } ∷ [];
  errors = [];
  calls = delete_pod "firedrill" "payments" ∷ [];
}

kubernetes_run : K8s.sweep_kubernetes clients gc_options ≡ (some kubernetes_swept, none)
unfolding K8s.sweep_kubernetes K8s.sweep_listed pod_task namespace_task restore_task expired sweep
    handle time_sub
kubernetes_run = refl

sweep_kubernetes-calls_iff_example :
    Any
      (λ p.
        ((false ≡ false) × IsLeftPod clients gc_options p)
        × (delete_pod "firedrill" "payments" ≡ delete_pod p.namespace p.name))
      (left_pod ∷ [])
    ⊎ Any
        (λ n.
          ((false ≡ false) × IsLeftNamespace clients gc_options n)
          × (delete_pod "firedrill" "payments" ≡ delete_namespace n.name))
        (leaving ∷ [])
    ⊎ Any
        (λ r.
          ((false ≡ false) × IsLeftRestore clients gc_options r)
          × (delete_pod "firedrill" "payments" ≡ delete_restore r.name))
        []
sweep_kubernetes-calls_iff_example =
    (sweep_kubernetes-calls_iff clients gc_options
        (λ call. delete_pod "firedrill" "payments" ≡ call) (left_pod ∷ []) (leaving ∷ []) []
        kubernetes_swept refl refl refl kubernetes_run).0
      (inl refl)
