-- ===== src/Sandbox/Docker/Destroyed.antt =====
-- Tearing a sandbox down, by the drill and by the watchdog, any number of times.
use fire_drill.Base.{
  ◌≡◌, ◌≢◌, refl, ap, sym, subst, ◌∙◌, ◌∷◌, [], List, ◌↔◌, true, false, nat_eq, string_eq, arith,
  if_false, if_true, eq_iff, none, some, String, Option,
}
use fire_drill.Sandbox.Docker.{
  Daemon, State, destroy, torn_down, DestroyError, remove_container, remove_network,
  cancel_watchdog, no_destroy_error, failing, removing_container, removing_network,
}

-- `destroyOnce` lets the callers through one after the other, each with what the daemon answers then.
abbrev pub destroy_all : List Daemon → State → State
destroy_all [] s = s
destroy_all (d ∷ ds) s = destroy_all ds (destroy d s)

destroy-once : (d : Daemon) (s : State) → s.once ≡ true → destroy d s ≡ s
unfolding destroy
destroy-once d s h = if_true s.once s (torn_down d s) h

destroy_all-once : (ds : List Daemon) (s : State) → s.once ≡ true → destroy_all ds s ≡ s
destroy_all-once [] s h = refl
destroy_all-once (d ∷ ds) s h = ap (destroy_all ds) (destroy-once d s h) ∙ destroy_all-once ds s h

torn_down-once : (d : Daemon) (s : State) → (torn_down d s).once ≡ true
unfolding torn_down
torn_down-once d s = refl

destroy-first : (d : Daemon) (s : State) → s.once ≡ false → destroy d s ≡ torn_down d s
unfolding destroy
destroy-first d s h = if_false s.once s (torn_down d s) h

-- What the daemon says of the resources that the sandbox has.
abbrev pub RemovesAll : Daemon → State → Type 0
RemovesAll d s =
    ((s.container_id ≢ "") → d.container_remove s.container_id ≡ none)
    × ((s.network_id ≢ "") → d.network_remove s.network_id ≡ none)

no_destroy_error_iff : (e : Option DestroyError) → (no_destroy_error e ≡ true) ↔ (e ≡ none)
no_destroy_error_iff none = (λ h. refl, λ h. refl)
no_destroy_error_iff (some e) = (λ h. cc, λ h. cc)

destroyed_no_error :
    (d : Daemon) (s : State)
    → ((torn_down d s).destroyed ≡ true) ↔ ((torn_down d s).destroy_err ≡ none)
unfolding torn_down
destroyed_no_error d s = no_destroy_error_iff _

failing-none :
    (wrap : String → DestroyError) (x : Option String) → (failing wrap x none ≡ none) ↔ (x ≡ none)
failing-none wrap none = (λ h. refl, λ h. refl)
failing-none wrap (some x) = (λ h. cc, λ h. cc)

failing-eq-none :
    (wrap : String → DestroyError) (x : Option String) (e : Option DestroyError)
    → (failing wrap x e ≡ none) ↔ ((x ≡ none) × (e ≡ none))
failing-eq-none wrap none e = (λ h. (refl, h), λ h. h.1)
failing-eq-none wrap (some x) none = (λ h. cc, λ h. cc h.0)
failing-eq-none wrap (some x) (some e) = (λ h. cc, λ h. cc)

remove_container-err :
    (d : Daemon) (s : State)
    → s.destroy_err ≡ none
    → ((remove_container d s).destroy_err ≡ none)
      ↔ ((s.container_id ≢ "") → d.container_remove s.container_id ≡ none)
unfolding remove_container
remove_container-err d s h = ground (
  arith,
  eq_iff s.container_id "",
  failing-none removing_container (d.container_remove s.container_id),
)

remove_network-err :
    (d : Daemon) (s : State)
    → ((remove_network d s).destroy_err ≡ none)
      ↔ ((s.destroy_err ≡ none) × ((s.network_id ≢ "") → d.network_remove s.network_id ≡ none))
unfolding remove_network
remove_network-err d s = ground (
  arith,
  eq_iff s.network_id "",
  failing-eq-none removing_network (d.network_remove s.network_id) s.destroy_err,
)

-- Cancelling the watchdog leaves the resources, and removing the container the network.
cancelled_fields :
    (s : State)
    → ((cancel_watchdog s).destroy_err ≡ s.destroy_err)
      × ((cancel_watchdog s).container_id ≡ s.container_id)
      × ((cancel_watchdog s).network_id ≡ s.network_id)
unfolding cancel_watchdog
cancelled_fields s = ground arith

remove_container-network_id :
    (d : Daemon) (s : State) → (remove_container d s).network_id ≡ s.network_id
unfolding remove_container
remove_container-network_id d s = ground arith

abbrev Removed : (String → Option String) → String → Type 0
Removed remove id = (id ≢ "") → remove id ≡ none

torn_down-RemovesAll :
    (d : Daemon) (s : State)
    → s.destroy_err ≡ none
    → ((torn_down d s).destroy_err ≡ none) ↔ RemovesAll d s
unfolding torn_down
torn_down-RemovesAll d s h =
    let c = cancel_watchdog s in
    let r = remove_container d c in
    let (e, i, n) = cancelled_fields s in
    let container =
      subst (λ x. (r.destroy_err ≡ none) ↔ Removed d.container_remove x) i
        (remove_container-err d c (e ∙ h)) in
    let network =
      subst
        (λ x.
          ((remove_network d r).destroy_err ≡ none)
          ↔ ((r.destroy_err ≡ none) × Removed d.network_remove x))
        (remove_container-network_id d c ∙ n) (remove_network-err d r) in
    (λ x. let (a, b) = network.0 x in (container.0 a, b), λ y. network.1 (container.1 y.0, y.1))

destroyed-RemovesAll :
    (d : Daemon) (s : State)
    → s.destroy_err ≡ none
    → ((torn_down d s).destroyed ≡ true) ↔ RemovesAll d s
destroyed-RemovesAll d s h =
    let told = destroyed_no_error d s in
    let all_gone = torn_down-RemovesAll d s h in
    (λ x. all_gone.0 (told.0 x), λ y. told.1 (all_gone.1 y))

-- A sandbox that was not torn down yet is torn down by the first of the callers, and by no later one:
-- they all get the same state and error. And it counts as destroyed exactly when the daemon removed
-- each of its resources without an error, and then no error is returned.
pub destroy_all-first :
    (d : Daemon) (ds : List Daemon) (s : State)
    → s.once ≡ false
    → s.destroy_err ≡ none
    → (destroy_all (d ∷ ds) s ≡ destroy d s)
      × (((destroy d s).destroyed ≡ true) ↔ RemovesAll d s)
      × (((destroy d s).destroyed ≡ true) ↔ ((destroy d s).destroy_err ≡ none))
destroy_all-first d ds s once fine =
    let first = destroy-first d s once in
    let again = ap (λ t. t.once) first ∙ torn_down-once d s in
    (
      destroy_all-once ds (destroy d s) again,
      subst (λ t. (t.destroyed ≡ true) ↔ RemovesAll d s) (sym first)
          (destroyed-RemovesAll d s fine),
      subst (λ t. (t.destroyed ≡ true) ↔ (t.destroy_err ≡ none)) (sym first)
          (destroyed_no_error d s),
    )
