-- ===== src/Sandbox/Kubernetes/Cleanup.antt =====
-- What each step of a provisioning leaves up.
use fire_drill.Base.{
  subst, ℕ, ℤ, ◌≡◌, refl, ap, sym, ◌∙◌, ◌++◌, ◌∷◌, [], List, ◌⊎◌, inl, inr, ok, err, Result, Bool,
  true, false, ◌&&◌, nat_eq, string_eq, if◌then◌else◌, none, some, String, Option,
}
use fire_drill.Drill.World.{SandboxConfig}
use fire_drill.Sandbox.Steps.{modify, Triple, Triple-bind, Triple-attempt, Triple-guarded}
use fire_drill.Sandbox.Kubernetes.{
  Server, State, Call, called, PodSpec, namespace_ensured, Policy, policy_created, policy_found,
  CreateAnswer, created, already_exists, create_failed, settled_policy, pod_created, forward_opened,
  forward_stopped, watchdog_armed, ForwardStart, forward_ready, forward_failed, forward_slow,
  ForwardError, ProvisionError, ensure_namespace, ensure_deny_egress_policy, ready_or, WaitError,
  port_forward, forwarded_port, forward_started, forward_with, deny_egress, Sandboxed, wait_ready,
  ensured, namespace_error, creating_pod, waiting,
}
use fire_drill.Sandbox.Kubernetes.Provision.{
  Port, reach_pod, reach_forward, connect, create_pod, fill,
}
use fire_drill.Sandbox.Kubernetes.Held.{
  is_confined, live, live-append, start, up, IsTracked, IsClosed, IsDenied, IsUp, up-called, watch,
  denies, told, called-IsTracked, IsDenied-IsTracked,
}

-- The calls of a forward end open exactly when it is good.
abbrev Forwards : Result ForwardError ℕ × List Call → Type 0
Forwards (ok p, cs) = cs ≡ forward_opened ∷ []
Forwards (err e, cs) = (cs ≡ []) ⊎ (cs ≡ forward_opened ∷ forward_stopped ∷ [])

port_forward_calls : (v : Server) (port : ℕ) → Forwards (port_forward v port)
unfolding port_forward
port_forward_calls v port = with_forwards v v.round_tripper (v.new_forwarder port)
  where
    ports_forwards : (r : Result String (List ℕ)) → Forwards (forwarded_port r)
    ports_forwards (err e) = inr refl
    ports_forwards (ok []) = inr refl
    ports_forwards (ok (p ∷ ps)) = refl

    start_forwards : (v : Server) (f : ForwardStart) → Forwards (forward_started v f)
    start_forwards v (forward_failed e) = inl refl
    start_forwards v forward_slow = inr refl
    start_forwards v forward_ready = ports_forwards v.forward_ports

    with_forwards : (v : Server) (a b : Option String) → Forwards (forward_with v a b)
    with_forwards v (some e) b = inl refl
    with_forwards v none (some e) = inl refl
    with_forwards v none none = start_forwards v v.forward_start

module _ (v : Server) (pod : String) where
  abbrev Tracked : State → Type 0
  Tracked = IsTracked v pod

  abbrev Closed : State → Type 0
  Closed = IsClosed v pod

  abbrev Denied : State → Type 0
  Denied = IsDenied v pod

  abbrev Up : State → Type 0
  Up = IsUp v pod

  ensure_namespace-IsTracked : (ns : String) → Triple Closed Closed Tracked (ensure_namespace v ns)
  unfolding ensure_namespace
  ensure_namespace-IsTracked ns =
      Triple-guarded Closed Closed Tracked (ensured (v.create_namespace ns)) namespace_error
        (called (namespace_ensured ns)) (λ s t. t.tracked)
        λ s t. record {
          tracked =
              called-IsTracked v pod (namespace_ensured ns) s (λ h. refl) (λ h. refl) (λ h. refl)
                t.tracked;
          closed = t.closed;
        }

  settled_policy-denies :
      (answer : CreateAnswer) (p : Policy)
      → denies p ≡ true
      → denies v.standing_policy ≡ true
      → Triple Closed Denied Tracked (settled_policy answer p)
  settled_policy-denies created p n m = record {
    at = λ s t. record {
      before = record {
        tracked =
            called-IsTracked v pod (policy_created p) s (λ h. refl) (λ h. refl) (λ h. refl)
              t.tracked;
        closed = t.closed;
      };
      denied = ap (λ h. h.denied) (up-called v pod (policy_created p) s) ∙ n;
    };
  }
  settled_policy-denies already_exists p n m = record {
    at = λ s t. record {
      before = record {
        tracked =
            called-IsTracked v pod policy_found s (λ h. refl) (λ h. refl) (λ h. refl) t.tracked;
        closed = t.closed;
      };
      denied = ap (λ h. h.denied) (up-called v pod policy_found s) ∙ m;
    };
  }
  settled_policy-denies (create_failed e) p n m = record { at = λ s t. t.tracked }

  policy_denies :
      (ns : String)
      → denies v.standing_policy ≡ true
      → Triple Closed Denied Tracked (ensure_deny_egress_policy v ns)
  unfolding ensure_deny_egress_policy
  policy_denies ns m =
      settled_policy-denies (v.create_policy (deny_egress ns)) (deny_egress ns) refl m

  fine_with : (f d c : Bool) → d ≡ true → c ≡ true → (f && d && c) ≡ f
  fine_with true d c h k = rw h (rw k refl)
  fine_with false d c h k = refl

  create_pod_confined :
      (spec : PodSpec)
      → is_confined spec ≡ true
      → spec.name ≡ pod
      → Triple Denied Denied Tracked (create_pod v spec)
  unfolding create_pod
  create_pod_confined spec c n =
      Triple-guarded Denied Denied Tracked (v.create_pod spec) creating_pod
        (called (pod_created spec)) (IsDenied-IsTracked v pod)
        λ s d.
          let t = d.before.tracked in
          let made = up-called v pod (pod_created spec) s in
          record {
            before = record {
              tracked =
                  told v pod s (called (pod_created spec) s)
                    (watch v (pod_created spec) (up v pod s)) made t.forward_known (inr n)
                    (fine_with (up v pod s).fine (up v pod s).denied _ d.denied c ∙ t.all_fine) refl
                    refl t;
              closed = d.before.closed;
            };
            denied = ap (λ h. h.denied) made ∙ d.denied;
          }

  ready_or-IsDenied :
      (r : Option (Result WaitError (Unit {0}))) → Triple Denied Denied Tracked (ready_or r)
  ready_or-IsDenied none = record { at = λ s d. d.before.tracked }
  ready_or-IsDenied (some r) = Triple-attempt Denied Tracked (IsDenied-IsTracked v pod) r waiting

  -- Only the calls, the forward, the name and the mark of the teardown count.
  moved-IsTracked :
      (s t : State)
      → t.calls ≡ s.calls
      → t.forwarding ≡ s.forwarding
      → t.pod_name ≡ s.pod_name
      → t.once ≡ s.once
      → Tracked s
      → Tracked t
  moved-IsTracked s t c f n o k =
      told v pod s t (up v pod s) (ap (λ cs. live v cs start) c) (k.forward_known ∙ sym f)
        k.pod_known k.all_fine n o k

  reach_pod-IsTracked :
      (r : Result String String) (p : Port) → Triple Denied Tracked Tracked (reach_pod r p)
  reach_pod-IsTracked (err e) p = record { at = λ s d. d.before.tracked }
  reach_pod-IsTracked (ok ip) p = record {
    at = λ s d. moved-IsTracked s _ refl refl refl refl d.before.tracked;
  }

  -- What the calls of a forward make of what is up.
  forwards_live :
      (s t : State) (cs : List Call)
      → t.calls ≡ s.calls ++ cs
      → t.pod_name ≡ s.pod_name
      → t.once ≡ s.once
      → ((live v cs (up v pod s)).forward ≡ t.forwarding)
      → ((live v cs (up v pod s)).pod ≡ (up v pod s).pod)
      → ((live v cs (up v pod s)).fine ≡ (up v pod s).fine)
      → Tracked s
      → Tracked t
  forwards_live s t cs c n o f p g k =
      told v pod s t (live v cs (up v pod s))
        (ap (λ xs. live v xs start) c ∙ live-append v s.calls cs start) f
        (subst (λ x. (x ≡ "") ⊎ (x ≡ pod)) (sym p) k.pod_known) (g ∙ k.all_fine) n o k

  reach_forward-IsTracked :
      (print : ℕ → String) (x : Result ForwardError ℕ × List Call)
      → Forwards x
      → Triple Denied Tracked Tracked (reach_forward print x)
  reach_forward-IsTracked print (ok p, cs) h = record {
    at = λ s d.
        forwards_live s _ cs refl refl refl (rw h refl) (rw h refl) (rw h refl) d.before.tracked;
  }
  reach_forward-IsTracked print (err e, cs) (inl h) = record {
    at = λ s d.
        forwards_live s _ cs refl refl refl (rw h d.before.tracked.forward_known) (rw h refl)
          (rw h refl) d.before.tracked;
  }
  reach_forward-IsTracked print (err e, cs) (inr h) = record {
    at = λ s d.
        forwards_live s _ cs refl refl refl (rw h (sym d.before.closed)) (rw h refl) (rw h refl)
          d.before.tracked;
  }

  Triple-if :
      (b : Bool) (m n : Sandboxed (Unit {0}))
      → Triple Denied Tracked Tracked m
      → Triple Denied Tracked Tracked n
      → Triple Denied Tracked Tracked (if b then m else n)
  Triple-if true m n h k = h
  Triple-if false m n h k = k

  connect-IsTracked :
      (print : ℕ → String) (inside : Bool) (name : String) (p : Port)
      → Triple Denied Tracked Tracked (connect v print inside name p)
  unfolding connect
  connect-IsTracked print inside name p =
      Triple-if inside (reach_pod (v.pod_ip name) p) (reach_forward print (port_forward v p.number))
        (reach_pod-IsTracked (v.pod_ip name) p)
        (reach_forward-IsTracked print (port_forward v p.number) (port_forward_calls v p.number))

  watch-IsUp :
      (ttl : ℤ)
      → Triple {E = ProvisionError} Tracked Up Tracked
          (modify (λ s. record (called (watchdog_armed ttl) s) { has_watchdog = true }))
  watch-IsUp ttl = record {
    at = λ s t. record {
      known =
          moved-IsTracked (called (watchdog_armed ttl) s) _ refl refl refl refl
            (called-IsTracked v pod (watchdog_armed ttl) s (λ h. refl) (λ h. refl) (λ h. refl) t);
      watched = refl;
    };
  }

  pub fill-IsUp :
      (print : ℕ → String) (inside : Bool) (ns : String) (cfg : SandboxConfig) (spec : PodSpec)
      (cmds : List (List String)) (p : Port)
      → denies v.standing_policy ≡ true
      → is_confined spec ≡ true
      → spec.name ≡ pod
      → Triple Closed Up Tracked (fill v print inside ns cfg spec cmds p)
  unfolding fill
  fill-IsUp print inside ns cfg spec cmds p m c n =
      Triple-bind Closed Closed Up Tracked _ _ (ensure_namespace-IsTracked ns) λ _.
        Triple-bind Closed Denied Up Tracked _ _ (policy_denies ns m) λ _.
          Triple-bind Denied Denied Up Tracked _ _ (create_pod_confined spec c n) λ _.
            Triple-bind Denied Denied Up Tracked _ _
              (ready_or-IsDenied (wait_ready v.wait_start v.probes cmds))
              λ _.
                Triple-bind Denied Tracked Up Tracked _ _
                  (connect-IsTracked print inside spec.name p) λ _. watch-IsUp cfg.ttl
