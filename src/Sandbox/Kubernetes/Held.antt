-- ===== src/Sandbox/Kubernetes/Held.antt =====
-- What is up, read from the calls, and what a sandbox knows of it.
use fire_drill.Base.{
  ◌⊎◌, sym, subst, String, ◌≡◌, refl, ap, ◌∙◌, ◌++◌, ◌∷◌, [], List, Bool, true, false, not, ◌&&◌,
  ◌==◌, nat_eq, string_eq, is_empty,
}
use fire_drill.Sandbox.Leftover.{after_removal}
use fire_drill.Sandbox.Kubernetes.Provision.{delete_error}
use fire_drill.Sandbox.Kubernetes.{
  Server, State, Call, called, PodSpec, Policy, namespace_ensured, policy_created, policy_found,
  pod_created, pod_deleted, forward_opened, forward_stopped, watchdog_armed, watchdog_cancelled,
  sandbox_label,
}

-- The pod that is up, or the empty text, whether the namespace denies egress to the sandboxes, and whether each pod came only
-- then, with the label that the policy selects and no escalation of its privileges.
pub record Held : Type 0 where
  pub pod : String
  pub forward : Bool
  pub denied : Bool
  pub fine : Bool

abbrev pub denies : Policy → Bool
denies p = p.selects == sandbox_label && is_empty p.egress

abbrev pub is_confined : PodSpec → Bool
is_confined p = p.sandbox_label == sandbox_label && not p.privilege_escalation

abbrev pub watch : Server → Call → Held → Held
watch v (namespace_ensured ns) h = h
watch v (policy_created p) h = record h { denied = denies p }
watch v policy_found h = record h { denied = denies v.standing_policy }
watch v (pod_created p) h = record h { pod = p.name; fine = h.fine && h.denied && is_confined p }
watch v forward_opened h = record h { forward = true }
watch v forward_stopped h = record h { forward = false }
watch v (pod_deleted name) h = record h {
  pod = after_removal (delete_error v.delete_pod) name h.pod;
}
watch v (watchdog_armed ttl) h = h
watch v watchdog_cancelled h = h

abbrev pub live : Server → List Call → Held → Held
live v [] h = h
live v (c ∷ cs) h = live v cs (watch v c h)

pub live-append :
    (v : Server) (xs ys : List Call) (h : Held) → live v (xs ++ ys) h ≡ live v ys (live v xs h)
live-append v [] ys h = refl
live-append v (x ∷ xs) ys h = live-append v xs ys (watch v x h)

abbrev pub start : Held
start = record { pod = ""; forward = false; denied = false; fine = true }

module _ (v : Server) (pod : String) where
  abbrev pub up : State → Held
  up s = live v s.calls start

  -- The sandbox knows its pod and whether a port is forwarded, and everything so far was fine.
  pub record IsTracked (s : State) : Type 0 where
    pub forward_known : (up s).forward ≡ s.forwarding
    pub pod_known : ((up s).pod ≡ "") ⊎ ((up s).pod ≡ pod)
    pub named : s.pod_name ≡ pod
    pub all_fine : (up s).fine ≡ true
    pub standing : s.once ≡ false

  -- The same before a port is forwarded, and then with the policy in place.
  pub record IsClosed (s : State) : Type 0 where
    pub tracked : IsTracked s
    pub closed : s.forwarding ≡ false

  pub record IsDenied (s : State) : Type 0 where
    pub before : IsClosed s
    pub denied : (up s).denied ≡ true

  -- A sandbox that is done is watched.
  pub record IsUp (s : State) : Type 0 where
    pub known : IsTracked s
    pub watched : s.has_watchdog ≡ true

  pub up-called : (c : Call) (s : State) → up (called c s) ≡ watch v c (up s)
  up-called c s = live-append v s.calls (c ∷ []) start

  -- What a state that has the same names knows of what is up then.
  pub told :
      (s t : State) (h : Held)
      → up t ≡ h
      → h.forward ≡ t.forwarding
      → (h.pod ≡ "") ⊎ (h.pod ≡ pod)
      → h.fine ≡ true
      → t.pod_name ≡ s.pod_name
      → t.once ≡ s.once
      → IsTracked s
      → IsTracked t
  told s t h e f p g n o k = record {
    forward_known = ap (λ x. x.forward) e ∙ f;
    pod_known = subst (λ x. (x.pod ≡ "") ⊎ (x.pod ≡ pod)) (sym e) p;
    named = n ∙ k.named;
    all_fine = ap (λ x. x.fine) e ∙ g;
    standing = o ∙ k.standing;
  }

  pub called-IsTracked :
      (c : Call) (s : State)
      → ((h : Held) → (watch v c h).forward ≡ h.forward)
      → ((h : Held) → (watch v c h).pod ≡ h.pod)
      → ((h : Held) → (watch v c h).fine ≡ h.fine)
      → IsTracked s
      → IsTracked (called c s)
  called-IsTracked c s f p g t =
      told s (called c s) (watch v c (up s)) (up-called c s) (f (up s) ∙ t.forward_known)
        (subst (λ x. (x ≡ "") ⊎ (x ≡ pod)) (sym (p (up s))) t.pod_known) (g (up s) ∙ t.all_fine)
        refl refl t

  pub IsDenied-IsTracked : (s : State) → IsDenied s → IsTracked s
  IsDenied-IsTracked s d = d.before.tracked
