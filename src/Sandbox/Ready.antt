-- ===== src/Sandbox/Ready.antt =====
-- `waitReady` of pkg/sandbox/docker/docker.go.
use fire_drill.Base.{
  ℕ, suc, ◌+◌, ◌<◌, ◌≡◌, ◌≢◌, refl, List, ◌↔◌, ok, err, Result, Bool, true, false, ◌==◌, nat_eq,
  string_eq, arith, if◌then◌else◌, none, some, String, Option, all,
}
use fire_drill.Std.Poll.{
  Round, again, done, Ended, out_of_fuel, timed_out, returned, poll, IsPaced, poll_ends, poll_iff,
  Reaches, here, later,
}

-- What a round of the loop meets: the time of its test of the deadline, whether the context is
-- over, and what a command gives.
pub record Probe : Type 0 where
  pub at : ℕ
  pub cancelled : Option String
  pub exec : List String → Result String (ℕ × String)

pub data NotReady : Type 0 where
  context_over : String → NotReady
  not_ready_in_time : NotReady

abbrev pub exits_zero : Result String (ℕ × String) → Bool
exits_zero (ok (code, out)) = code == 0
exits_zero (err e) = false

-- The commands of one pass: all exit with 0.
unfoldable pub all_ready : (List String → Result String (ℕ × String)) → List (List String) → Bool
all_ready exec cmds = all (λ cmd. exits_zero (exec cmd)) cmds

abbrev pub poll_interval : ℕ
poll_interval = 500000000

abbrev pub ready_timeout : ℕ
ready_timeout = 180000000000

-- The timeout has 360 intervals.
abbrev pub ready_rounds : ℕ
ready_rounds = 361

abbrev unless_cancelled : Option String → Bool → Round (Result NotReady (Unit {0}))
unless_cancelled (some e) ready = done (err (context_over e))
unless_cancelled none ready = if ready then done (ok tt) else again

unfoldable pub ready_round : List (List String) → Probe → Round (Result NotReady (Unit {0}))
ready_round cmds p = unless_cancelled p.cancelled (all_ready p.exec cmds)

abbrev pub in_time : Ended (Result NotReady (Unit {0})) → Option (Result NotReady (Unit {0}))
in_time out_of_fuel = none
in_time timed_out = some (err not_ready_in_time)
in_time (returned r) = some r

-- `start` is the time from which the deadline is counted; none is the lack of fuel.
unfoldable pub wait_ready :
    ℕ → (ℕ → Probe) → List (List String) → Option (Result NotReady (Unit {0}))
wait_ready start probes cmds = in_time (
    poll ready_rounds (start + ready_timeout) (λ i. (probes i).at)
      (λ i. ready_round cmds (probes i)) 0)

-- From a round on: rounds before the deadline that are neither cancelled nor ready, and then one
-- whose commands all exit with 0.
pub data BecomesReady (deadline : ℕ) (probes : ℕ → Probe) (cmds : List (List String))
    : ℕ → Type 0 where
  is_ready :
      {i : ℕ}
      → (probes i).at < deadline
      → (probes i).cancelled ≡ none
      → all_ready (probes i).exec cmds ≡ true
      → BecomesReady deadline probes cmds i
  waits :
      {i : ℕ}
      → (probes i).at < deadline
      → (probes i).cancelled ≡ none
      → all_ready (probes i).exec cmds ≡ false
      → BecomesReady deadline probes cmds (suc i)
      → BecomesReady deadline probes cmds i

in_time_ends : (e : Ended (Result NotReady (Unit {0}))) → e ≢ out_of_fuel → in_time e ≢ none
in_time_ends out_of_fuel h = λ _. h refl
in_time_ends timed_out h = λ x. cc
in_time_ends (returned r) h = λ x. cc

in_time-ok_iff :
    (e : Ended (Result NotReady (Unit {0}))) → (in_time e ≡ some (ok tt)) ↔ (e ≡ returned (ok tt))
in_time-ok_iff out_of_fuel = (λ h. cc, λ h. cc)
in_time-ok_iff timed_out = (λ h. cc, λ h. cc)
in_time-ok_iff (returned r) = (λ h. cc, λ h. cc)

unless_cancelled-ok :
    (c : Option String) (b : Bool) → unless_cancelled c b ≡ done (ok tt) → (c ≡ none) × (b ≡ true)
unless_cancelled-ok none true h = (refl, refl)
unless_cancelled-ok none false h = cc
unless_cancelled-ok (some e) b h = cc

unless_cancelled-again :
    (c : Option String) (b : Bool) → unless_cancelled c b ≡ again → (c ≡ none) × (b ≡ false)
unless_cancelled-again none false h = (refl, refl)
unless_cancelled-again none true h = cc
unless_cancelled-again (some e) b h = cc

module _ (start : ℕ) (probes : ℕ → Probe) (cmds : List (List String)) where
  abbrev deadline_of : ℕ
  deadline_of = start + ready_timeout

  abbrev times : ℕ → ℕ
  times i = (probes i).at

  abbrev rounds : ℕ → Round (Result NotReady (Unit {0}))
  rounds i = ready_round cmds (probes i)

  abbrev Comes : ℕ → Type 0
  Comes i = Reaches deadline_of times rounds (ok tt) i

  Comes-BecomesReady : {i : ℕ} → Comes i → BecomesReady deadline_of probes cmds i
  unfolding ready_round
  Comes-BecomesReady {i} (here l e) =
      let (c, a) = unless_cancelled-ok (probes i).cancelled (all_ready (probes i).exec cmds) e in
      is_ready l c a
  Comes-BecomesReady {i} (later l e r) =
      let (c, a) = unless_cancelled-again (probes i).cancelled (all_ready (probes i).exec cmds) e in
      waits l c a (Comes-BecomesReady r)

  BecomesReady-Comes : {i : ℕ} → BecomesReady deadline_of probes cmds i → Comes i
  unfolding ready_round
  BecomesReady-Comes {i} (is_ready l c a) = here l (rw c (rw a refl))
  BecomesReady-Comes {i} (waits l c a r) = later l (rw c (rw a refl)) (BecomesReady-Comes r)

  -- The loop ends: with a clock that half a second passes in every round, the rounds allowed are
  -- more than it takes. And the sandbox counts as ready exactly when in some round before the
  -- deadline, which no round finds cancelled until then, all the driver's commands exit with 0.
  pub wait_ready_ends :
      IsPaced poll_interval start times
      → (wait_ready start probes cmds ≢ none)
        × ((wait_ready start probes cmds ≡ some (ok tt)) ↔ BecomesReady deadline_of probes cmds 0)
  unfolding wait_ready
  wait_ready_ends p =
      let loop = poll ready_rounds deadline_of times rounds 0 in
      let whole =
        poll_iff deadline_of times rounds 360 poll_interval start (ok tt) p (omega arith) in
      (
        in_time_ends loop
            (poll_ends deadline_of times rounds 360 0 poll_interval start p (omega arith)),
        (
          λ e. Comes-BecomesReady (whole.0 ((in_time-ok_iff loop).0 e)),
          λ r. (in_time-ok_iff loop).1 (whole.1 (BecomesReady-Comes r)),
        ),
      )
