-- ===== src/Gc/Sweep.antt =====
-- The loops of the sweeps of pkg/gc/gc.go. Each of the five has the same body, over what its items
-- answer: `handle` is that body, and a task is what one item answers to it.
pub mod Calls
pub mod Told
use fire_drill.Base.{Bool, true, false, List, [], ◌∷◌, Option, none, some, String, if◌then◌else◌}

-- What a line of the result names, and the remark that it adds.
pub data Item : Type 0 where
  container network namespace restore : String → Item
  pod : String → String → Item

pub data Remark : Type 0 where
  plain dry_run in_use terminating : Remark
  failed : String → Remark

pub record Line : Type 0 where
  pub item : Item
  pub remark : Remark

pub data Call : Type 0 where
  remove_container remove_network : String → Call
  delete_pod : String → String → Call
  delete_namespace delete_restore : String → Call

-- `Result`, with the removals that the sweep has asked for.
pub record Swept : Type 0 where
  pub reaped : List Line
  pub skipped : List Line
  pub errors : List Line
  pub calls : List Call

-- A refusal to remove: an error, or the answer that the thing is in use.
pub data Refusal : Type 0 where
  failure : String → Refusal
  busy : Refusal

-- An item: whether it is FireDrill's, whether it is already going away, whether it is to go, the call
-- that removes it and what that call answers.
pub record Task : Type 0 where
  pub item : Item
  pub is_ours : Bool
  pub is_terminating : Bool
  pub is_due : Bool
  pub call : Call
  pub answer : Option Refusal

abbrev pub nothing : Swept
nothing = record { reaped = []; skipped = []; errors = []; calls = [] }

abbrev line : Item → Remark → Line
line item remark = record { item = item; remark = remark }

abbrev skip : Item → Remark → Swept → Swept
skip item remark s = record s { skipped = line item remark ∷ s.skipped }

abbrev reap : Item → Remark → Swept → Swept
reap item remark s = record s { reaped = line item remark ∷ s.reaped }

abbrev answered : Item → Option Refusal → Swept → Swept
answered item none s = reap item plain s
answered item (some busy) s = skip item in_use s
answered item (some (failure e)) s = record s { errors = line item (failed e) ∷ s.errors }

-- The body of a loop, before what the later items add.
unfoldable pub handle : Bool → Task → Swept → Swept
handle dry t s =
    if t.is_ours
    then if t.is_terminating
      then skip t.item terminating s
      else if t.is_due
      then if dry
        then reap t.item dry_run s
        else answered t.item t.answer (record s { calls = t.call ∷ s.calls })
      else skip t.item plain s
    else s

unfoldable pub sweep : Bool → List Task → Swept → Swept
sweep dry [] s = s
sweep dry (t ∷ ts) s = handle dry t (sweep dry ts s)
