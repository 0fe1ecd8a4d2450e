-- ===== src/Gc/Sweep/Told.antt =====
-- What a sweep reports of each of its items.
use fire_drill.Base.{
  ◌≡◌, refl, ap, ◌∙◌, ◌⊎◌, inl, inr, Bool, true, false, List, [], ◌∷◌, ◌++◌, Option, none, some,
  String, map, append_assoc, append-nil, sym,
}
use fire_drill.Gc.Sweep.{
  Item, Remark, Line, Refusal, Call, Swept, Task, plain, dry_run, in_use, terminating, failed,
  failure, busy, handle, sweep,
}

-- The list of the result in which an item has its line, if it has one, with the remark.
pub data Report : Type 0 where
  silent : Report
  reaped skipped : Remark → Report
  errored : String → Report

pub record Told : Type 0 where
  pub item : Item
  pub report : Report

abbrev pub line_of : Item → Remark → Line
line_of item remark = record { item = item; remark = remark }

abbrev pub reaped_in : Item → Report → List Line
reaped_in i silent = []
reaped_in i (reaped r) = line_of i r ∷ []
reaped_in i (skipped r) = []
reaped_in i (errored e) = []

abbrev pub skipped_in : Item → Report → List Line
skipped_in i silent = []
skipped_in i (reaped r) = []
skipped_in i (skipped r) = line_of i r ∷ []
skipped_in i (errored e) = []

abbrev pub errors_in : Item → Report → List Line
errors_in i silent = []
errors_in i (reaped r) = []
errors_in i (skipped r) = []
errors_in i (errored e) = line_of i (failed e) ∷ []

abbrev pub lines_in : (Item → Report → List Line) → List Told → List Line
lines_in f [] = []
lines_in f (t ∷ ts) = f t.item t.report ++ lines_in f ts

-- The lines of a result are those of the items, in their order, and then those of another.
pub record Shows (ts : List Told) (rest s : Swept) : Type 0 where
  pub reaped_lines : s.reaped ≡ lines_in reaped_in ts ++ rest.reaped
  pub skipped_lines : s.skipped ≡ lines_in skipped_in ts ++ rest.skipped
  pub error_lines : s.errors ≡ lines_in errors_in ts ++ rest.errors

-- What is reported of a task.
abbrev pub IsTold : Bool → Task → Report → Type 0
IsTold dry t silent = t.is_ours ≡ false
IsTold dry t (reaped r) =
    (t.is_ours ≡ true)
    × (t.is_terminating ≡ false)
    × (t.is_due ≡ true)
    × (((dry ≡ true) × (r ≡ dry_run)) ⊎ ((dry ≡ false) × (t.answer ≡ none) × (r ≡ plain)))
IsTold dry t (skipped r) =
    (t.is_ours ≡ true)
    × (((t.is_terminating ≡ true) × (r ≡ terminating))
        ⊎ ((t.is_terminating ≡ false) × (t.is_due ≡ false) × (r ≡ plain))
        ⊎ ((t.is_terminating ≡ false)
            × (t.is_due ≡ true)
            × (dry ≡ false)
            × (t.answer ≡ some busy)
            × (r ≡ in_use)))
IsTold dry t (errored e) =
    (t.is_ours ≡ true)
    × (t.is_terminating ≡ false)
    × (t.is_due ≡ true)
    × (dry ≡ false)
    × (t.answer ≡ some (failure e))

abbrev task_of : Item → Call → Bool → Bool → Bool → Option Refusal → Task
task_of i c ours ending due a = record {
  item = i;
  is_ours = ours;
  is_terminating = ending;
  is_due = due;
  call = c;
  answer = a;
}

handle-IsTold :
    (i : Item) (c : Call) (s : Swept) (ours ending due dry : Bool) (a : Option Refusal)
    → (k : Report) × IsTold dry (task_of i c ours ending due a) k
      × Shows
          (record { item = i; report = k } ∷ [])
          s
          (handle dry (task_of i c ours ending due a) s)
unfolding handle
handle-IsTold i c s false ending due dry a =
    (silent, refl, record { reaped_lines = refl; skipped_lines = refl; error_lines = refl })
handle-IsTold i c s true true due dry a = (
  skipped terminating,
  (refl, inl (refl, refl)),
  record { reaped_lines = refl; skipped_lines = refl; error_lines = refl },
)
handle-IsTold i c s true false false dry a = (
  skipped plain,
  (refl, inr (inl (refl, refl, refl))),
  record { reaped_lines = refl; skipped_lines = refl; error_lines = refl },
)
handle-IsTold i c s true false true true a = (
  reaped dry_run,
  (refl, refl, refl, inl (refl, refl)),
  record { reaped_lines = refl; skipped_lines = refl; error_lines = refl },
)
handle-IsTold i c s true false true false none = (
  reaped plain,
  (refl, refl, refl, inr (refl, refl, refl)),
  record { reaped_lines = refl; skipped_lines = refl; error_lines = refl },
)
handle-IsTold i c s true false true false (some busy) = (
  skipped in_use,
  (refl, inr (inr (refl, refl, refl, refl, refl))),
  record { reaped_lines = refl; skipped_lines = refl; error_lines = refl },
)
handle-IsTold i c s true false true false (some (failure e)) = (
  errored e,
  (refl, refl, refl, refl, refl),
  record { reaped_lines = refl; skipped_lines = refl; error_lines = refl },
)

-- Each item has its own report.
abbrev pub Each : {A : Type 0} → (A → Told → Type 0) → List A → List Told → Type 0
Each Q [] [] = Unit
Each Q [] (t ∷ ts) = ⊥
Each Q (x ∷ xs) [] = ⊥
Each Q (x ∷ xs) (t ∷ ts) = Q x t × Each Q xs ts

lines_in-append :
    (f : Item → Report → List Line) (i : Item) (k : Report) (ts : List Told) (m rest : List Line)
    {s : List Line}
    → s ≡ lines_in f (record { item = i; report = k } ∷ []) ++ m
    → m ≡ lines_in f ts ++ rest
    → s ≡ lines_in f (record { item = i; report = k } ∷ ts) ++ rest
lines_in-append f i k ts m rest h e =
    h
    ∙ ap (λ x. x ++ m) (append-nil (f i k))
    ∙ ap (λ x. f i k ++ x) e
    ∙ sym (append_assoc (f i k) (lines_in f ts) rest)

module _ {A : Type 0} (dry : Bool) (task : A → Task) where
  pub sweep_told :
      (xs : List A) (s : Swept)
      → (ts : List Told) × Each
          (λ x t. (t.item ≡ (task x).item) × IsTold dry (task x) t.report)
          xs
          ts
        × Shows ts s (sweep dry (map task xs) s)
  unfolding sweep
  sweep_told [] s =
      ([], tt, record { reaped_lines = refl; skipped_lines = refl; error_lines = refl })
  sweep_told (x ∷ xs) s =
      let (ts, each, shown) = sweep_told xs s in
      let m = sweep dry (map task xs) s in
      let t = task x in
      let (k, told, first) =
        handle-IsTold t.item t.call m t.is_ours t.is_terminating t.is_due dry t.answer in
      (
        record { item = t.item; report = k } ∷ ts,
        ((refl, told), each),
        record {
          reaped_lines =
              lines_in-append reaped_in t.item k ts m.reaped s.reaped first.reaped_lines
                shown.reaped_lines;
          skipped_lines =
              lines_in-append skipped_in t.item k ts m.skipped s.skipped first.skipped_lines
                shown.skipped_lines;
          error_lines =
              lines_in-append errors_in t.item k ts m.errors s.errors first.error_lines
                shown.error_lines;
        },
      )

pub Each-imp :
    {A : Type 0} {Q R : A → Told → Type 0} (f : (x : A) (t : Told) → Q x t → R x t) (xs : List A)
    (ts : List Told)
    → Each Q xs ts
    → Each R xs ts
Each-imp f [] [] h = tt
Each-imp f [] (t ∷ ts) h = h
Each-imp f (x ∷ xs) [] h = h
Each-imp f (x ∷ xs) (t ∷ ts) (q, h) = (f x t q, Each-imp f xs ts h)
