-- ===== src/Sandbox/Kubernetes/Provided.antt =====
-- What a provisioning in a cluster leaves behind.
use fire_drill.Base.{◌≡◌, ok, err, Result, true, false, nat_eq, string_eq, String}
use fire_drill.Sandbox.Kubernetes.{Server, State, ProvisionError}
use fire_drill.Sandbox.Kubernetes.Provision.{delete_error}
use fire_drill.Sandbox.Leftover.{IsRefused}
use fire_drill.Sandbox.Kubernetes.Held.{Held, up, IsUp}

-- No port is forwarded, no pod is up but one that the server refuses to delete, and all was fine.
abbrev pub IsGone : Server → Held → Type 0
IsGone v h = IsRefused (delete_error v.delete_pod) h.pod × (h.forward ≡ false) × (h.fine ≡ true)

module _ (v : Server) (pod : String) where
  -- A sandbox is up, known and watched, or nothing is but what the server refuses to delete.
  abbrev pub IsCleanOr : Result ProvisionError (Unit {0}) × State → Type 0
  IsCleanOr (ok _, s) = IsUp v pod s
  IsCleanOr (err _, s) = IsGone v (up v pod s)
