-- ===== src/Gc/Docker/Reports.antt =====
-- What the sweep of Docker reports.
use fire_drill.Base.{
  subst, ℕ, ◌<ℤ◌, ◌≡◌, ◌≢◌, refl, ap, sym, ◌⊎◌, inl, inr, ◌↔◌, Bool-cases, true, false, List, [],
  ◌∷◌, Option, none, some, String, ok, codes, time_sub, eq_iff, eq_false_iff, ◌==◌, nat_eq,
  string_eq, map, arith, ◌||◌,
}
use Prim.Native.Char.{code}
use fire_drill.Gc.Lease.{Options, IsOrphan, expired_iff, is_older}
use fire_drill.Gc.Sweep.{
  container, network, Swept, sweep, nothing, plain, dry_run, in_use, busy, failure,
}
use fire_drill.Gc.Sweep.Told.{
  Report, Told, silent, reaped, skipped, errored, Each, Each-imp, IsTold, Shows, sweep_told,
}
use fire_drill.Gc.Docker.{
  Container, Network, Daemon, has_prefix, container_task, network_task, sweep_docker, first_name,
  trim_slash, failing, refusing,
}
use fire_drill.Gc.Docker.Removes.{swept}

-- The first name without the slash before it, or a question mark.
abbrev pub IsNamed : List String → String → Type 0
IsNamed [] n = n ≡ "?"
IsNamed (x ∷ xs) n = (codes x ≡ b'/' ∷ codes n) ⊎ ((x ≡ n) × ((t : List ℕ) → codes x ≢ b'/' ∷ t))

module _ (d : Daemon) (o : Options) where
  abbrev pub IsDueContainer : Container → Type 0
  IsDueContainer c = IsOrphan d.parse o c.expires c.created d.now

  -- The verdict on a container: it is not a sandbox, or it is removed (or would be), or it is not due,
  -- or its removal failed.
  abbrev pub ContainerVerdict : Container → Report → Type 0
  ContainerVerdict c silent = c.label ≢ "sandbox"
  ContainerVerdict c (reaped r) =
      (c.label ≡ "sandbox")
      × IsDueContainer c
      × (((o.dry_run ≡ true) × (r ≡ dry_run))
          ⊎ ((o.dry_run ≡ false) × (d.remove_container c.id ≡ none) × (r ≡ plain)))
  ContainerVerdict c (skipped r) = (c.label ≡ "sandbox") × (IsDueContainer c → ⊥) × (r ≡ plain)
  ContainerVerdict c (errored e) =
      (c.label ≡ "sandbox")
      × IsDueContainer c
      × (o.dry_run ≡ false)
      × (d.remove_container c.id ≡ some e)

  abbrev pub ContainerTold : Container → Told → Type 0
  ContainerTold c t =
      ((n : String) × (t.item ≡ container n) × IsNamed c.names n) × ContainerVerdict c t.report

  abbrev pub IsOurNetwork : Network → Type 0
  IsOurNetwork n = has_prefix (codes n.name) (codes "firedrill-") ≡ true

  abbrev pub IsDueNetwork : Network → Type 0
  IsDueNetwork n = (o.force ≡ true) ⊎ (o.older_than <ℤ time_sub d.now n.created)

  -- The verdict on a network: one that cannot be removed is in use.
  abbrev pub NetworkVerdict : Network → Report → Type 0
  NetworkVerdict n silent = has_prefix (codes n.name) (codes "firedrill-") ≡ false
  NetworkVerdict n (reaped r) =
      IsOurNetwork n
      × IsDueNetwork n
      × (((o.dry_run ≡ true) × (r ≡ dry_run))
          ⊎ ((o.dry_run ≡ false) × (d.remove_network n.id ≡ none) × (r ≡ plain)))
  NetworkVerdict n (skipped r) =
      IsOurNetwork n
      × (((IsDueNetwork n → ⊥) × (r ≡ plain))
          ⊎ (IsDueNetwork n × (o.dry_run ≡ false) × (d.remove_network n.id ≢ none) × (r ≡ in_use)))
  NetworkVerdict n (errored e) = ⊥

  abbrev pub NetworkTold : Network → Told → Type 0
  NetworkTold n t = (t.item ≡ network n.name) × NetworkVerdict n t.report

same_head : {a b : ℕ} {xs ys : List ℕ} → (a ∷ xs) ≡ (b ∷ ys) → a ≡ b
same_head h = cc

trim_slash-IsNamed : (x : String) (xs : List String) → IsNamed (x ∷ xs) (trim_slash x)
trim_slash-IsNamed String.[] xs = inr (refl, λ t e. cc)
trim_slash-IsNamed (String.◌∷◌ c s) xs = elim (Bool-cases (code c == b'/')) [
  | inl e ↦ rw e (inl (ap (λ x. x ∷ codes s) ((eq_iff (code c) b'/').0 e)))
  | inr n ↦ rw n (inr (refl, λ t h. (eq_false_iff (code c) b'/').0 n (same_head h)))
]

IsNamed-first_name : (names : List String) → IsNamed names (trim_slash (first_name names))
IsNamed-first_name [] = refl
IsNamed-first_name (x ∷ xs) = trim_slash-IsNamed x xs

failing-none : (a : Option String) → failing a ≡ none → a ≡ none
failing-none none h = refl
failing-none (some e) h = cc

failing_busy : (a : Option String) → failing a ≡ some busy → ⊥
failing_busy none h = cc
failing_busy (some e) h = cc

failing_failure : (a : Option String) (e : String) → failing a ≡ some (failure e) → a ≡ some e
failing_failure none e h = cc
failing_failure (some x) e h = cc

refusing-none : (a : Option String) → refusing a ≡ none → a ≡ none
refusing-none none h = refl
refusing-none (some e) h = cc

refusing_busy : (a : Option String) → refusing a ≡ some busy → a ≢ none
refusing_busy none h = cc
refusing_busy (some e) h = λ n. cc

refusing_failure : (a : Option String) (e : String) → refusing a ≡ some (failure e) → ⊥
refusing_failure none e h = cc
refusing_failure (some x) e h = cc

module _ (d : Daemon) (o : Options) where
  container_verdict :
      (c : Container) (k : Report)
      → IsTold o.dry_run (container_task d o c) k
      → ContainerVerdict d o c k
  unfolding container_task
  container_verdict c silent h = (eq_false_iff c.label "sandbox").0 h
  container_verdict c (reaped r) (ours, _, due, rest) = (
    (eq_iff c.label "sandbox").0 ours,
    (expired_iff d.parse o c.expires c.created d.now).0 due,
    elim rest [
      | inl x ↦ inl x
      | inr (wet, a, p) ↦ inr (wet, failing-none (d.remove_container c.id) a, p)
    ],
  )
  container_verdict c (skipped r) (ours, inl (e, p)) = cc
  container_verdict c (skipped r) (ours, inr (inl (_, kept, p))) = (
    (eq_iff c.label "sandbox").0 ours,
    λ due. let yes = (expired_iff d.parse o c.expires c.created d.now).1 due in cc,
    p,
  )
  container_verdict c (skipped r) (ours, inr (inr (_, _, _, a, p))) =
      absurd (failing_busy (d.remove_container c.id) a)
  container_verdict c (errored e) (ours, _, due, wet, a) = (
    (eq_iff c.label "sandbox").0 ours,
    (expired_iff d.parse o c.expires c.created d.now).0 due,
    wet,
    failing_failure (d.remove_container c.id) e a,
  )

  due_network :
      (n : Network) → ((is_older o n.created d.now || o.force) ≡ true) ↔ IsDueNetwork d o n
  due_network n = (λ h. ground arith, λ h. ground arith)

  network_verdict :
      (n : Network) (k : Report) → IsTold o.dry_run (network_task d o n) k → NetworkVerdict d o n k
  unfolding network_task
  network_verdict n silent h = h
  network_verdict n (reaped r) (ours, _, due, rest) = (
    ours,
    (due_network n).0 due,
    elim rest [
      | inl x ↦ inl x
      | inr (wet, a, p) ↦ inr (wet, refusing-none (d.remove_network n.id) a, p)
    ],
  )
  network_verdict n (skipped r) (ours, inl (e, p)) = cc
  network_verdict n (skipped r) (ours, inr (inl (_, kept, p))) =
      (ours, inl (λ due. let yes = (due_network n).1 due in cc, p))
  network_verdict n (skipped r) (ours, inr (inr (_, due, wet, a, p))) =
      (ours, inr ((due_network n).0 due, wet, refusing_busy (d.remove_network n.id) a, p))
  network_verdict n (errored e) (ours, _, due, wet, a) =
      refusing_failure (d.remove_network n.id) e a

  told_container :
      (c : Container) (t : Told)
      → (t.item ≡ (container_task d o c).item) × IsTold o.dry_run (container_task d o c) t.report
      → ContainerTold d o c t
  unfolding container_task
  told_container c t (e, h) = (
    (trim_slash (first_name c.names), e, IsNamed-first_name c.names),
    container_verdict c t.report h,
  )

  told_network :
      (n : Network) (t : Told)
      → (t.item ≡ (network_task d o n).item) × IsTold o.dry_run (network_task d o n) t.report
      → NetworkTold d o n t
  unfolding network_task
  told_network n t (e, h) = (e, network_verdict n t.report h)

  -- A sweep of Docker that lists its containers and networks reports, in their order, on each of those
  -- that are FireDrill's in one line, by its name and as reaped, skipped or failed by what it is and
  -- what the daemon answered, and on nothing else.
  pub sweep_docker-lines :
      (cs : List Container) (ns : List Network) (s : Swept)
      → d.containers ≡ ok cs
      → d.networks ≡ ok ns
      → sweep_docker d o ≡ (some s, none)
      → (cts nts : List Told) × (rest : Swept) × Each (ContainerTold d o) cs cts
        × Each (NetworkTold d o) ns nts
        × Shows nts nothing rest
        × Shows cts rest s
  sweep_docker-lines cs ns s found linked ran =
      let later = sweep o.dry_run (map (network_task d o) ns) nothing in
      let (nts, ne, nshown) = sweep_told o.dry_run (network_task d o) ns nothing in
      let (cts, ce, cshown) = sweep_told o.dry_run (container_task d o) cs later in
      let same = swept d o cs ns s found linked ran in
      (
        cts,
        nts,
        later,
        Each-imp told_container cs cts ce,
        Each-imp told_network ns nts ne,
        nshown,
        subst (Shows cts later) (sym same) cshown,
      )
