-- ===== src/Gc/Kubernetes.antt =====
-- `SweepKubernetes` of pkg/gc/gc.go. The clients are a record of what they answer; a missing object
-- is one that a deletion need not remove.
pub mod Removes
use fire_drill.Base.{
  ℕ, Bool, true, false, not, ◌||◌, List, [], ◌∷◌, Option, none, some, String, Result, ok, err, map,
  ◌==◌, string_eq, if◌then◌else◌,
}
use fire_drill.Gc.Lease.{Options, expired, is_older}
use fire_drill.Gc.Sweep.{
  Item, pod, namespace, restore, Call, delete_pod, delete_namespace, delete_restore, Task, Refusal,
  failure, Swept, nothing, sweep,
}

-- `expires` is the annotation `ExpiresAtLabel`, empty when it is not set.
pub record SandboxPod : Type 0 where
  pub namespace : String
  pub name : String
  pub expires : String
  pub created : ℕ

pub record DrillNamespace : Type 0 where
  pub name : String
  pub phase : String
  pub expires : String
  pub created : ℕ

pub record Restore : Type 0 where
  pub name : String
  pub created : ℕ

-- Why a deletion failed: the object was not there, or anything else.
pub data DeleteError : Type 0 where
  not_found : DeleteError
  other : String → DeleteError

-- The lists are those of the labels that the source asks for. `restores` is an error when there is no
-- dynamic client or its list fails.
pub record Clients : Type 0 where
  pub connect : Option String
  pub pods : Result String (List SandboxPod)
  pub namespaces : Result String (List DrillNamespace)
  pub restores : Result String (List Restore)
  pub delete_pod : String → String → Option DeleteError
  pub delete_namespace : String → Option DeleteError
  pub delete_restore : String → Option DeleteError
  pub parse : String → Option ℕ
  pub now : ℕ

pub data GcError : Type 0 where
  connecting listing_pods listing_namespaces : String → GcError

abbrev deleting : Option DeleteError → Option Refusal
deleting none = none
deleting (some not_found) = none
deleting (some (other e)) = some (failure e)

module _ (k : Clients) (o : Options) where
  unfoldable pub pod_task : SandboxPod → Task
  pod_task p = record {
    item = pod p.namespace p.name;
    is_ours = true;
    is_terminating = false;
    is_due = expired k.parse o p.expires p.created k.now;
    call = delete_pod p.namespace p.name;
    answer = deleting (k.delete_pod p.namespace p.name);
  }

  unfoldable pub namespace_task : DrillNamespace → Task
  namespace_task n = record {
    item = namespace n.name;
    is_ours = true;
    is_terminating = n.phase == "Terminating";
    is_due = expired k.parse o n.expires n.created k.now;
    call = delete_namespace n.name;
    answer = deleting (k.delete_namespace n.name);
  }

  unfoldable pub restore_task : Restore → Task
  restore_task r = record {
    item = restore r.name;
    is_ours = true;
    is_terminating = false;
    is_due = is_older o r.created k.now || o.force;
    call = delete_restore r.name;
    answer = deleting (k.delete_restore r.name);
  }

  -- Restores are swept when there are any to list.
  abbrev sweep_restores : Result String (List Restore) → Swept
  sweep_restores (err e) = nothing
  sweep_restores (ok rs) = sweep o.dry_run (map restore_task rs) nothing

  unfoldable pub sweep_listed :
      List SandboxPod → Result String (List DrillNamespace) → Option Swept × Option GcError
  sweep_listed ps (err e) =
      (some (sweep o.dry_run (map pod_task ps) nothing), some (listing_namespaces e))
  sweep_listed ps (ok ns) = (
    some (
        sweep o.dry_run (map pod_task ps)
          (sweep o.dry_run (map namespace_task ns) (sweep_restores k.restores))),
    none,
  )

  unfoldable pub sweep_kubernetes : Option Swept × Option GcError
  sweep_kubernetes = elim k.connect [
    | some e ↦ (none, some (connecting e))
    | none ↦ elim k.pods [
      | err e ↦ (none, some (listing_pods e))
      | ok ps ↦ sweep_listed ps k.namespaces
    ]
  ]
