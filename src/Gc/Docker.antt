-- ===== src/Gc/Docker.antt =====
-- `SweepDocker` of pkg/gc/gc.go. The Docker client is a record of what it answers.
use Prim.Native.Char.{code}
pub mod Removes
pub mod Reports
use fire_drill.Base.{
  ℕ, ◌<ℤ◌, ◌≡◌, refl, ◌⊎◌, inl, inr, Bool, true, false, not, ◌&&◌, ◌||◌, List, [], ◌∷◌, Option,
  none, some, String, Result, ok, err, codes, map, ltb_ℤ, time_sub, ◌==◌, nat_eq, string_eq,
  if◌then◌else◌, arith,
}
use fire_drill.Gc.Lease.{Options, expired, is_older}
use fire_drill.Gc.Sweep.{
  Item, container, network, Call, remove_container, remove_network, Task, Refusal, failure, busy,
  Swept, nothing, sweep,
}

-- `label` and `expires` are the labels `firedrill` and `ExpiresAtLabel`, empty when they are not set.
pub record Container : Type 0 where
  pub id : String
  pub names : List String
  pub label : String
  pub expires : String
  pub created : ℕ

pub record Network : Type 0 where
  pub id : String
  pub name : String
  pub created : ℕ

pub record Daemon : Type 0 where
  pub connect : Option String
  pub ping : Option String
  pub containers : Result String (List Container)
  pub networks : Result String (List Network)
  pub remove_container : String → Option String
  pub remove_network : String → Option String
  pub parse : String → Option ℕ
  pub now : ℕ

pub data GcError : Type 0 where
  connecting pinging listing_containers listing_networks : String → GcError

-- `firstName`, without a leading slash.
abbrev first_name : List String → String
first_name [] = "?"
first_name (n ∷ ns) = n

abbrev trim_slash : String → String
trim_slash String.[] = ""
trim_slash (String.◌∷◌ c s) = if code c == b'/' then s else String.◌∷◌ c s

-- `strings.HasPrefix`
abbrev pub has_prefix : List ℕ → List ℕ → Bool
has_prefix s [] = true
has_prefix [] (p ∷ ps) = false
has_prefix (c ∷ cs) (p ∷ ps) = c == p && has_prefix cs ps

abbrev failing : Option String → Option Refusal
failing none = none
failing (some e) = some (failure e)

-- A network that cannot be removed is in use.
abbrev refusing : Option String → Option Refusal
refusing none = none
refusing (some e) = some busy

module _ (d : Daemon) (o : Options) where
  unfoldable pub container_task : Container → Task
  container_task c = record {
    item = container (trim_slash (first_name c.names));
    is_ours = c.label == "sandbox";
    is_terminating = false;
    is_due = expired d.parse o c.expires c.created d.now;
    call = remove_container c.id;
    answer = failing (d.remove_container c.id);
  }

  unfoldable pub network_task : Network → Task
  network_task n = record {
    item = network n.name;
    is_ours = has_prefix (codes n.name) (codes "firedrill-");
    is_terminating = false;
    is_due = is_older o n.created d.now || o.force;
    call = remove_network n.id;
    answer = refusing (d.remove_network n.id);
  }

  -- The loops: the networks are listed after the containers are swept.
  unfoldable pub sweep_listed :
      List Container → Result String (List Network) → Option Swept × Option GcError
  sweep_listed cs (err e) =
      (some (sweep o.dry_run (map container_task cs) nothing), some (listing_networks e))
  sweep_listed cs (ok ns) = (
    some (sweep o.dry_run (map container_task cs) (sweep o.dry_run (map network_task ns) nothing)),
    none,
  )

  unfoldable pub sweep_docker : Option Swept × Option GcError
  sweep_docker = elim d.connect [
    | some e ↦ (none, some (connecting e))
    | none ↦ elim d.ping [
      | some e ↦ (none, some (pinging e))
      | none ↦ elim d.containers [
        | err e ↦ (none, some (listing_containers e))
        | ok cs ↦ sweep_listed cs d.networks
      ]
    ]
  ]
