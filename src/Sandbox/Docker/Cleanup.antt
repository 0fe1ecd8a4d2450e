-- ===== src/Sandbox/Docker/Cleanup.antt =====
-- What a provisioning leaves behind.
use fire_drill.Base.{
  ℕ, ℤ, ◌≡◌, refl, ap, ◌∙◌, ◌++◌, ◌∷◌, [], List, ok, err, Result, true, false, nat_eq, string_eq,
  none, some, String, Option, All, All-append,
}
use fire_drill.Drill.World.{SandboxConfig}
use fire_drill.Sandbox.Steps.{
  modify, IsKept, IsKept-bind, IsKept-attempt, IsKept-unless_error, IsKept-pure, IsKept-if,
}
use fire_drill.Sandbox.Leftover.{after_removal, IsRefused}
use fire_drill.Sandbox.Ready.{NotReady, wait_ready}
use fire_drill.Sandbox.Docker.{
  Daemon, Engine, Call, network_created, container_created, container_started, container_removed,
  network_removed, watchdog_armed, watchdog_cancelled, State, called, created_container,
  await_ready, published, first_port, ready_or, ContainerSpec, ProvisionError, Settings, db_user,
  db_name,
}

-- The network and the container that are up, none of which is the empty text.
pub record Held : Type 0 where
  pub network : String
  pub container : String

abbrev pub nothing : Held
nothing = record { network = ""; container = "" }

abbrev pub watch : Daemon → Call → Held → Held
watch d (network_created id _) h = record h { network = id }
watch d (container_created id _) h = record h { container = id }
watch d (network_removed id) h = record h {
  network = after_removal (d.network_remove id) id h.network;
}
watch d (container_removed id) h = record h {
  container = after_removal (d.container_remove id) id h.container;
}
watch d (container_started id) h = h
watch d (watchdog_armed ttl) h = h
watch d watchdog_cancelled h = h

abbrev pub live : Daemon → List Call → Held → Held
live d [] h = h
live d (c ∷ cs) h = live d cs (watch d c h)

pub live-append :
    (d : Daemon) (xs ys : List Call) (h : Held) → live d (xs ++ ys) h ≡ live d ys (live d xs h)
live-append d [] ys h = refl
live-append d (x ∷ xs) ys h = live-append d xs ys (watch d x h)

-- A container is reached from this host alone, and stands on the network that was made for it.
abbrev pub IsIsolated : String → Call → Type 0
IsIsolated network (container_created id spec) =
    (spec.host_ip ≡ "127.0.0.1") × (spec.network_mode ≡ network)
IsIsolated network _ = Unit

-- The sandbox knows what is up.
pub record IsTracked (d : Daemon) (network : String) (s : State) : Type 0 where
  pub up : live d s.calls nothing ≡ record { network = s.network_id; container = s.container_id }
  pub standing : s.once ≡ false
  pub isolated : All (IsIsolated network) s.calls
  pub same_network : s.network_id ≡ network

module _ (d : Daemon) (network : String) where
  called-IsTracked :
      (c : Call) (s : State)
      → ((h : Held) → watch d c h ≡ h)
      → IsIsolated network c
      → IsTracked d network s
      → IsTracked d network (called c s)
  called-IsTracked c s quiet i t = record {
    up = live-append d s.calls (c ∷ []) nothing ∙ (quiet (live d s.calls nothing) ∙ t.up);
    standing = t.standing;
    isolated = All-append (IsIsolated network) s.calls (c ∷ []) t.isolated (i, tt);
    same_network = t.same_network;
  }

  IsKept-created_container :
      (spec : ContainerSpec) (r : Result String String)
      → spec.host_ip ≡ "127.0.0.1"
      → spec.network_mode ≡ network
      → IsKept (IsTracked d network) (created_container d spec r)
  IsKept-created_container spec (err e) h n = record { at = λ s t. t }
  IsKept-created_container spec (ok id) h n = record {
    at = λ s t. record {
      up =
          live-append d s.calls (container_created id spec ∷ []) nothing
          ∙ ap (watch d (container_created id spec)) t.up;
      standing = t.standing;
      isolated =
          All-append (IsIsolated network) s.calls (container_created id spec ∷ []) t.isolated
            ((h, n), tt);
      same_network = t.same_network;
    };
  }

  IsKept-started :
      (id : String)
      → IsKept {E = ProvisionError} (IsTracked d network) (modify (called (container_started id)))
  IsKept-started id = record {
    at = λ s t. called-IsTracked (container_started id) s (λ h. refl) tt t;
  }

  IsKept-host :
      (p : String)
      → IsKept {E = ProvisionError} (IsTracked d network) (modify (λ s. record s { host_port = p }))
  IsKept-host p = record {
    at = λ s t. record {
      up = t.up;
      standing = t.standing;
      isolated = t.isolated;
      same_network = t.same_network;
    };
  }

  IsKept-armed :
      (ttl : ℤ)
      → IsKept {E = ProvisionError}
          (IsTracked d network)
          (modify (λ s. record (called (watchdog_armed ttl) s) { has_watchdog = true }))
  IsKept-armed ttl = record {
    at = λ s t.
        let u = called-IsTracked (watchdog_armed ttl) s (λ h. refl) tt t in
        record {
          up = u.up;
          standing = u.standing;
          isolated = u.isolated;
          same_network = u.same_network;
        };
  }

  IsKept-ready_or :
      (r : Option (Result NotReady (Unit {0}))) → IsKept (IsTracked d network) (ready_or r)
  IsKept-ready_or none = record { at = λ s t. t }
  IsKept-ready_or (some r) = record { at = λ s t. t }

  IsKept-await_ready :
      (eng : Engine) (cfg : SandboxConfig) (pw : String)
      → IsKept (IsTracked d network) (await_ready d eng cfg pw)
  unfolding await_ready
  IsKept-await_ready eng cfg pw =
      IsKept-if (IsTracked d network) cfg.cold_start _ _ (IsKept-pure (IsTracked d network) tt)
        (IsKept-ready_or (wait_ready d.wait_start d.probes (eng.ready_cmds db_user pw db_name)))

  IsKept-first_port : (ps : List String) → IsKept (IsTracked d network) (first_port ps)
  IsKept-first_port [] = record { at = λ s t. t }
  IsKept-first_port (p ∷ ps) = record { at = λ s t. t }

  IsKept-published : (port : ℕ) (s : Settings) → IsKept (IsTracked d network) (published port s)
  IsKept-published port none = record { at = λ s t. t }
  IsKept-published port (some f) = IsKept-first_port (f port)

  ruleset tracked = (
    IsKept-bind, IsKept-attempt, IsKept-unless_error, IsKept-created_container, IsKept-started,
    IsKept-host, IsKept-armed, IsKept-await_ready, IsKept-published,
  )

-- The steps of `destroy` on what is up.
module _ (d : Daemon) where
  abbrev up : State → Held
  up s = live d s.calls nothing

abbrev held : String → String → Held
held n c = record { network = n; container = c }

-- Nothing is up but what the daemon refuses to remove.
abbrev pub IsGone : Daemon → Held → Type 0
IsGone d h =
    IsRefused (d.container_remove h.container) h.container
    × IsRefused (d.network_remove h.network) h.network

module _ (d : Daemon) where
  -- A teardown makes no container.
  module _ (network : String) where
    abbrev AllIsolated : State → Type 0
    AllIsolated s = All (IsIsolated network) s.calls

-- A sandbox is up, known and watched, or nothing is up but what the daemon refuses to remove; and
-- each container was isolated on the network that was made.
abbrev pub IsCleanOr : Daemon → Result ProvisionError (Unit {0}) × State → Type 0
IsCleanOr d (ok _, s) = IsTracked d s.network_id s × (s.has_watchdog ≡ true)
IsCleanOr d (err _, s) =
    IsGone d (live d s.calls nothing) × ((network : String) × All (IsIsolated network) s.calls)
