-- ===== src/Gc/Docker/Removes.antt =====
-- What the sweep of Docker removes, and what it reports.
use fire_drill.Base.{
  ◌<ℤ◌, ◌≡◌, refl, ◌↔◌, ◌⊎◌, inl, inr, true, false, List, none, some, ok, map, Any, arith, codes,
  time_sub, eq_iff, string_eq,
}
use fire_drill.Gc.Lease.{Options, IsOrphan, expired_iff}
use fire_drill.Gc.Sweep.{Call, remove_container, remove_network, Swept, sweep, nothing}
use fire_drill.Gc.Sweep.Calls.{IsRemoved, sweep-map_iff}
use fire_drill.Gc.Docker.{
  Container, Network, Daemon, has_prefix, container_task, network_task, sweep_listed, sweep_docker,
}

module _ (d : Daemon) (o : Options) where
  -- A container that is FireDrill's and an orphan.
  abbrev pub IsLeftContainer : Container → Type 0
  IsLeftContainer c = (c.label ≡ "sandbox") × IsOrphan d.parse o c.expires c.created d.now

  -- A network that is FireDrill's and older than the threshold, or any when the sweep is forced.
  abbrev pub IsLeftNetwork : Network → Type 0
  IsLeftNetwork n =
      (has_prefix (codes n.name) (codes "firedrill-") ≡ true)
      × ((o.force ≡ true) ⊎ (o.older_than <ℤ time_sub d.now n.created))

  container_iff :
      (c : Container)
      → IsRemoved o.dry_run (container_task d o c) ↔ ((o.dry_run ≡ false) × IsLeftContainer c)
  unfolding container_task
  container_iff c =
      let due = expired_iff d.parse o c.expires c.created d.now in
      (
        λ (ours, _, old, wet). (wet, ((eq_iff c.label "sandbox").0 ours, due.0 old)),
        λ (wet, (ours, old)). ((eq_iff c.label "sandbox").1 ours, refl, due.1 old, wet),
      )

  network_iff :
      (n : Network)
      → IsRemoved o.dry_run (network_task d o n) ↔ ((o.dry_run ≡ false) × IsLeftNetwork n)
  unfolding network_task
  network_iff n = (
    λ (ours, _, old, wet). (wet, (ours, ground arith)),
    λ (wet, (ours, old)). (ours, refl, ground arith, wet),
  )

  pub swept :
      (cs : List Container) (ns : List Network) (s : Swept)
      → d.containers ≡ ok cs
      → d.networks ≡ ok ns
      → sweep_docker d o ≡ (some s, none)
      → s
        ≡ sweep o.dry_run
            (map (container_task d o) cs)
            (sweep o.dry_run (map (network_task d o) ns) nothing)
  unfolding sweep_docker sweep_listed
  swept cs ns s found linked ran = ground arith

  -- A sweep of Docker that lists its containers and networks asks for exactly these removals: with no
  -- dry run, of each container that is labelled as a sandbox and whose lease is over (or that is older
  -- than the threshold, where it has no lease or the sweep is forced), and of each network of
  -- FireDrill's that is older than the threshold, or of any age when the sweep is forced.
  pub sweep_docker-calls_iff :
      (P : Call → Type 0) (cs : List Container) (ns : List Network) (s : Swept)
      → d.containers ≡ ok cs
      → d.networks ≡ ok ns
      → sweep_docker d o ≡ (some s, none)
      → Any P s.calls ↔ (
          Any (λ c. ((o.dry_run ≡ false) × IsLeftContainer c) × P (remove_container c.id)) cs
          ⊎ Any (λ n. ((o.dry_run ≡ false) × IsLeftNetwork n) × P (remove_network n.id)) ns)
  unfolding container_task network_task
  sweep_docker-calls_iff P cs ns s found linked ran =
      let dry = o.dry_run in
      let later = sweep dry (map (network_task d o) ns) nothing in
      let first = sweep-map_iff P dry (container_task d o) _ container_iff cs later in
      let second = sweep-map_iff P dry (network_task d o) _ network_iff ns nothing in
      let same = swept cs ns s found linked ran in
      rw same (
        λ h. elim (first.0 h) [
          | inl x ↦ inl x
          | inr y ↦ elim (second.0 y) [ inl z ↦ inr z | inr none_left ↦ elim none_left [ ] ]
        ],
        λ h. first.1 (elim h [ inl x ↦ inl x | inr z ↦ inr (second.1 (inl z)) ]),
      )
