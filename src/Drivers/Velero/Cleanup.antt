-- ===== src/Drivers/Velero/Cleanup.antt =====
-- What a Velero drill leaves in the cluster.
use fire_drill.Base.{
  ℕ, ℤ, ◌+◌, ◌≡◌, refl, ap, sym, subst, ◌∙◌, ◌++◌, ◌∷◌, [], List, ◌⊎◌, inl, inr, ok, err, Result,
  false, ◌!=◌, ◌==◌, nat_eq, string_eq, if_false, Bool-cases, eq_iff, none, some, String, Option,
  pos_part,
}
use fire_drill.Sandbox.Steps.{
  ◌>>◌, modify, unless_error, cleaned, Ending, Triple, Triple-bind, Triple-guarded,
}
use fire_drill.Sandbox.Leftover.{after_removal, IsRefused, after_removal-IsRefused}
use fire_drill.Sandbox.Kubernetes.{ensured, deny_egress}
use fire_drill.Sandbox.Kubernetes.Provision.{delete_error}
use fire_drill.Drivers.Velero.{
  VeleroServer, Call, namespace_created, policy_ensured, restore_created, namespace_deleted,
  restore_deleted, watchdog_armed, watchdog_cancelled, VeleroError, Session, called,
  cancel_watchdog, delete_namespace, delete_restore, torn_down, destroy, create_namespace,
  ensure_policy, arm_watchdog, enter, session, with_backup, with_clients, prepare, start_restore,
  BackupObject, policy_error, creating_namespace, creating_restore,
}

-- The ephemeral namespace and the restore object that are there, none of which is the empty text.
pub record Held : Type 0 where
  pub namespace : String
  pub restore : String

abbrev pub watch : VeleroServer → Call → Held → Held
watch v (namespace_created ns t) h = record h { namespace = ns }
watch v (policy_ensured p) h = h
watch v (restore_created name) h = record h { restore = name }
watch v (namespace_deleted ns) h = record h {
  namespace = after_removal (delete_error v.delete_namespace) ns h.namespace;
}
watch v (restore_deleted name) h = record h {
  restore = after_removal (delete_error v.delete_restore) name h.restore;
}
watch v (watchdog_armed ttl) h = h
watch v watchdog_cancelled h = h

abbrev pub live : VeleroServer → List Call → Held → Held
live v [] h = h
live v (c ∷ cs) h = live v cs (watch v c h)

live-append :
    (v : VeleroServer) (xs ys : List Call) (h : Held)
    → live v (xs ++ ys) h ≡ live v ys (live v xs h)
live-append v [] ys h = refl
live-append v (x ∷ xs) ys h = live-append v xs ys (watch v x h)

abbrev pub nothing : Held
nothing = record { namespace = ""; restore = "" }

-- Nothing is there but what the server refuses to delete.
abbrev pub IsGone : VeleroServer → Held → Type 0
IsGone v h =
    IsRefused (delete_error v.delete_namespace) h.namespace
    × IsRefused (delete_error v.delete_restore) h.restore

abbrev pub up : VeleroServer → Session → Held
up v s = live v s.calls nothing

module _ (v : VeleroServer) where
  up-called : (c : Call) (s : Session) → up v (called c s) ≡ watch v c (up v s)
  up-called c s = live-append v s.calls (c ∷ []) nothing

  -- What is there has the names that the session knows.
  pub record IsTracked (s : Session) : Type 0 where
    pub known_namespace : ((up v s).namespace ≡ "") ⊎ ((up v s).namespace ≡ s.target_ns)
    pub known_restore : ((up v s).restore ≡ "") ⊎ ((up v s).restore ≡ s.restore_name)
    pub standing : s.once ≡ false

  -- Only the calls and the names count.
  record IsKnown (s : Session) (h : Held) : Type 0 where
    pub there : up v s ≡ h
    pub namespace_name : (h.namespace ≡ "") ⊎ (h.namespace ≡ s.target_ns)
    pub restore_name : (h.restore ≡ "") ⊎ (h.restore ≡ s.restore_name)

  cancel_watchdog-IsKnown : (s : Session) → IsTracked s → IsKnown (cancel_watchdog s) (up v s)
  unfolding cancel_watchdog
  cancel_watchdog-IsKnown s t = elim (Bool-cases s.has_watchdog) [
    | inl e ↦ rw e (record {
      there = up-called watchdog_cancelled s;
      namespace_name = t.known_namespace;
      restore_name = t.known_restore;
    })
    | inr e ↦ rw e (record {
      there = refl;
      namespace_name = t.known_namespace;
      restore_name = t.known_restore;
    })
  ]

  abbrev without_namespace : Held → String → Held
  without_namespace h ns = record h {
    namespace = after_removal (delete_error v.delete_namespace) ns h.namespace;
  }

  up-delete_namespace :
      (s : Session) (h : Held)
      → up v s ≡ h
      → up v (delete_namespace v s) ≡ without_namespace h s.target_ns
  unfolding delete_namespace
  up-delete_namespace s h e =
      up-called (namespace_deleted s.target_ns) s ∙ ap (watch v (namespace_deleted s.target_ns)) e

  deleted-restore_name : (s : Session) → (delete_namespace v s).restore_name ≡ s.restore_name
  unfolding delete_namespace
  deleted-restore_name s = refl

  delete_restore-IsGone :
      (s : Session) (h : Held)
      → up v s ≡ h
      → IsRefused (delete_error v.delete_namespace) h.namespace
      → (h.restore ≡ "") ⊎ (h.restore ≡ s.restore_name)
      → IsGone v (up v (delete_restore v s))
  unfolding delete_restore
  delete_restore-IsGone s h e n k = elim (Bool-cases (s.restore_name == "")) [
    | inl b ↦ rw b (
        subst (IsGone v) (sym e)
          (n, inl (elim k [ inl x ↦ x | inr x ↦ x ∙ (eq_iff s.restore_name "").0 b ])))
    | inr b ↦ rw b (
        subst (IsGone v)
          (sym (
            up-called (restore_deleted s.restore_name) s
            ∙ ap (watch v (restore_deleted s.restore_name)) e))
          (n, after_removal-IsRefused (delete_error v.delete_restore) s.restore_name h.restore k))
  ]

  torn_down-IsGone : (s : Session) → IsTracked s → IsGone v (up v (torn_down v s))
  unfolding torn_down
  torn_down-IsGone s t =
      let c = cancel_watchdog s in
      let k = cancel_watchdog-IsKnown s t in
      let h = up v s in
      delete_restore-IsGone (delete_namespace v c) (without_namespace h c.target_ns)
        (up-delete_namespace c h k.there)
        (after_removal-IsRefused (delete_error v.delete_namespace) c.target_ns h.namespace
          k.namespace_name)
        (subst (λ x. (h.restore ≡ "") ⊎ (h.restore ≡ x)) (sym (deleted-restore_name c))
          k.restore_name)

  destroy-IsGone : (s : Session) → IsTracked s → IsGone v (up v (destroy v s))
  unfolding destroy
  destroy-IsGone s t =
      subst (λ x. IsGone v (up v x)) (sym (if_false s.once s (torn_down v s) t.standing))
        (torn_down-IsGone s t)

  -- A session before its restore.
  pub record IsEmpty (s : Session) : Type 0 where
    pub no_restore : (up v s).restore ≡ ""
    pub target : ((up v s).namespace ≡ "") ⊎ ((up v s).namespace ≡ s.target_ns)
    pub alive : s.once ≡ false

  IsEmpty-IsTracked : (s : Session) → IsEmpty s → IsTracked s
  IsEmpty-IsTracked s e = record {
    known_namespace = e.target;
    known_restore = inl e.no_restore;
    standing = e.alive;
  }

  called-IsEmpty :
      (c : Call) (s : Session) → ((h : Held) → watch v c h ≡ h) → IsEmpty s → IsEmpty (called c s)
  called-IsEmpty c s f e =
      let same = up-called c s ∙ f (up v s) in
      record {
        no_restore = ap (λ h. h.restore) same ∙ e.no_restore;
        target =
            subst (λ x. (x ≡ "") ⊎ (x ≡ s.target_ns)) (sym (ap (λ h. h.namespace) same)) e.target;
        alive = e.alive;
      }

  abbrev Clean : Session → Type 0
  Clean s = IsGone v (up v s)

-- A session that has made nothing yet.
pub record IsFresh (v : VeleroServer) (ns : String) (s : Session) : Type 0 where
  pub gone : up v s ≡ nothing
  pub named : s.target_ns ≡ ns
  pub standing : s.once ≡ false

nothing-IsGone : (v : VeleroServer) (h : Held) → h ≡ nothing → IsGone v h
nothing-IsGone v h e = (inl (ap (λ x. x.namespace) e), inl (ap (λ x. x.restore) e))

create_namespace-IsEmpty :
    (v : VeleroServer) (ns : String) (t : ℕ)
    → Triple (IsFresh v ns) (IsEmpty v) (Clean v) (create_namespace v ns t)
create_namespace-IsEmpty v ns t =
    Triple-guarded (IsFresh v ns) (IsEmpty v) (Clean v) (v.create_namespace ns) creating_namespace
      (called (namespace_created ns t)) (λ s f. nothing-IsGone v (up v s) f.gone)
      λ s f.
        let made = up-called v (namespace_created ns t) s in
        record {
          no_restore = ap (λ h. h.restore) made ∙ ap (λ h. h.restore) f.gone;
          target = inr (ap (λ h. h.namespace) made ∙ sym f.named);
          alive = f.standing;
        }

Ending-cleaned :
    (v : VeleroServer) (x : Result VeleroError (Unit {0}) × Session)
    → Ending (IsEmpty v) (IsEmpty v) x
    → Ending (IsEmpty v) (Clean v) (cleaned (destroy v) x)
Ending-cleaned v (ok a, s) h = h
Ending-cleaned v (err e, s) h = destroy-IsGone v s (IsEmpty-IsTracked v s h)

ensure_policy-IsEmpty :
    (v : VeleroServer) (ns : String) → Triple (IsEmpty v) (IsEmpty v) (Clean v) (ensure_policy v ns)
ensure_policy-IsEmpty v ns =
    let policy = policy_ensured (deny_egress ns) in
    let tried =
      Triple-guarded (IsEmpty v) (IsEmpty v) (IsEmpty v)
        (ensured (v.create_policy (deny_egress ns))) policy_error (called policy) (λ s e. e)
        (λ s e. called-IsEmpty v policy s (λ h. refl) e) in
    record { at = λ s e. Ending-cleaned v _ (tried.at s e) }

arm-IsEmpty :
    (v : VeleroServer) (ttl : ℤ) → Triple (IsEmpty v) (IsEmpty v) (Clean v) (arm_watchdog ttl)
arm-IsEmpty v ttl = record {
  at = λ s e.
      let armed = called-IsEmpty v (watchdog_armed ttl) s (λ h. refl) e in
      record { no_restore = armed.no_restore; target = armed.target; alive = armed.alive };
}

enter-IsEmpty :
    (v : VeleroServer) (ns : String) (ttl : ℤ)
    → Triple (IsFresh v ns) (IsEmpty v) (Clean v) (enter v ns ttl)
unfolding enter
enter-IsEmpty v ns ttl =
    Triple-bind (IsFresh v ns) (IsEmpty v) (IsEmpty v) (Clean v) _ _
      (create_namespace-IsEmpty v ns (v.now + pos_part ttl))
      λ _.
        Triple-bind (IsEmpty v) (IsEmpty v) (IsEmpty v) (Clean v) _ _ (ensure_policy-IsEmpty v ns)
          λ _. arm-IsEmpty v ttl

session-IsFresh :
    (v : VeleroServer) (ns : String) (b : BackupObject) → IsFresh v ns (session v ns b)
session-IsFresh v ns b = record { gone = refl; named = refl; standing = refl }

Ending-with_backup :
    (v : VeleroServer) (ns : String) (ttl : ℤ) (r : Result String BackupObject)
    → Ending (IsEmpty v) (Clean v) (with_backup v ns ttl r)
Ending-with_backup v ns ttl (err e) = nothing-IsGone v nothing refl
Ending-with_backup v ns ttl (ok b) = elim (Bool-cases (b.phase != "Completed")) [
  | inl e ↦ rw e (nothing-IsGone v nothing refl)
  | inr e ↦ rw e ((enter-IsEmpty v ns ttl).at (session v ns b) (session-IsFresh v ns b))
]

Ending-with_clients :
    (v : VeleroServer) (backup ns : String) (ttl : ℤ) (a b c : Option String)
    → Ending (IsEmpty v) (Clean v) (with_clients v backup ns ttl a b c)
Ending-with_clients v backup ns ttl (some e) b c = nothing-IsGone v nothing refl
Ending-with_clients v backup ns ttl none (some e) c = nothing-IsGone v nothing refl
Ending-with_clients v backup ns ttl none none (some e) = nothing-IsGone v nothing refl
Ending-with_clients v backup ns ttl none none none =
    Ending-with_backup v ns ttl (v.get_backup backup)

module _ (v : VeleroServer) (name : String) (s : Session) (e : IsEmpty v s) where
  started-IsTracked :
      (r : Option String)
      → IsTracked v
          ((modify (λ t. record t { restore_name = name })
              >> (unless_error r creating_restore >> modify (called (restore_created name))))
            s).1
  started-IsTracked none =
      let made = up-called v (restore_created name) s in
      record {
        known_namespace =
            subst (λ x. (x ≡ "") ⊎ (x ≡ s.target_ns)) (sym (ap (λ h. h.namespace) made)) e.target;
        known_restore = inr (ap (λ h. h.restore) made);
        standing = e.alive;
      }
  started-IsTracked (some x) = record {
    known_namespace = e.target;
    known_restore = inl e.no_restore;
    standing = e.alive;
  }

  start_restore-IsTracked : IsTracked v (start_restore v name s).1
  unfolding start_restore
  start_restore-IsTracked = started-IsTracked (v.create_restore name)

-- What is left after a preparation that failed, or after the restore was started, well or not, and
-- the session destroyed.
abbrev pub LeavesNothing : VeleroServer → String → Result VeleroError (Unit {0}) × Session → Type 0
LeavesNothing v name (err e, s) = IsGone v (up v s)
LeavesNothing v name (ok _, s) =
    IsGone v (up v (destroy v s)) × IsGone v (up v (destroy v (start_restore v name s).1))

Ending-LeavesNothing :
    (v : VeleroServer) (name : String) (x : Result VeleroError (Unit {0}) × Session)
    → Ending (IsEmpty v) (Clean v) x
    → LeavesNothing v name x
Ending-LeavesNothing v name (err e, s) h = h
Ending-LeavesNothing v name (ok a, s) h = (
  destroy-IsGone v s (IsEmpty-IsTracked v s h),
  destroy-IsGone v (start_restore v name s).1 (start_restore-IsTracked v name s h),
)

-- A Velero drill leaves neither its namespace nor its restore object but where the server refuses to
-- delete them: a preparation that fails has deleted the namespace if it was made; and after one that
-- succeeds, the teardown deletes both by their names, with or without a restore that was started, well
-- or not.
pub velero_cleans :
    (v : VeleroServer) (backup ns name : String) (ttl : ℤ)
    → LeavesNothing v name (prepare v backup ns ttl)
unfolding prepare
velero_cleans v backup ns name ttl =
    Ending-LeavesNothing v name _
      (Ending-with_clients v backup ns ttl v.config v.dynamic_client v.client)
