-- ===== src/Drivers/Restores.antt =====
-- When a restore succeeds: the commands that it needs all ended with 0.
use fire_drill.Base.{
  ℕ, ◌+◌, ◌≡◌, refl, ap, subst, inl, inr, ◌↔◌, ok, err, Result, true, false, ◌==◌, nat_eq,
  string_eq, arith, Bool-cases, eq_iff, if◌then◌else◌, none, String,
}
use fire_drill.Std.Poll.{Ended, out_of_fuel, timed_out, returned, IsPaced, poll_iff, Reaches}
use fire_drill.Spec.Document.{Source}
use fire_drill.Drivers.Texts.{Text}
use fire_drill.Drivers.Outcome.{
  ExecAnswer, Outcome, Restore, DriverError, fails, finish, fails_with, finish_iff, finish-IsTotal,
  IsTotal, restored, ExitsZero,
}
use fire_drill.Drivers.Postgres.{
  restore as restore_postgres, Header, Machine, detect_format, restore_command, restore_as,
  restore_dump, untar, prepare_data, start_postgres, step, after_wait, await_cluster, database_of,
  PgEnd, accepts, cancelled, broken, restore_opened, restore_basebackup, second, pg_timeout,
  pg_round,
}
use fire_drill.Drivers.Engines.{
  EngineDriver, postgres, mysql, mongodb, restore, restore_mysql, restore_mongodb, load_mysql,
  load_mongo, mysql_command, mongo_command, has_tools, write_password_config, preflight,
  with_credentials, checked_mongo,
}

-- The backup could be opened.
abbrev pub Opens : Machine → String → Type 0
Opens m path = (h : Header) × (m.open_file path ≡ ok h)

-- A restored cluster: in some second before the deadline, none cancelled or found broken until then,
-- the query is answered.
abbrev pub Accepts : Machine → String → Type 0
Accepts m db =
    Reaches (m.wait_start + pg_timeout) (λ i. (m.probes i).at) (λ i. pg_round db (m.probes i))
      accepts 0

abbrev pub BaseRestores : Machine → String → Source → Type 0
BaseRestores m path src =
    Opens m path
    × ExitsZero (m.exec untar)
    × ExitsZero (m.exec prepare_data)
    × ExitsZero (m.exec start_postgres)
    × Accepts m (database_of src.database)

abbrev pub DumpRestores : Machine → String → Type 0
DumpRestores m path =
    (h : Header) × (format : String) × (m.open_file path ≡ ok h)
    × (detect_format h ≡ ok format)
    × ExitsZero (m.exec (restore_command m.access format))

abbrev LoadsMongo : Machine → String → Type 0
LoadsMongo m path =
    Opens m path
    × ExitsZero (m.exec write_password_config)
    × ExitsZero (m.exec (mongo_command m.access))

-- What a driver's restore of a backup takes.
abbrev pub Restores : EngineDriver → Machine → String → Source → Type 0
Restores postgres m path src =
    if src.format == "basebackup" then BaseRestores m path src else DumpRestores m path
Restores mysql m path src = Opens m path × ExitsZero (m.exec (mysql_command m.access))
Restores mongodb m path src = ExitsZero (m.exec has_tools) × LoadsMongo m path

-- An outcome without an error has what it takes, and then a result.
pub record Meets (o : Outcome) (X : Type 0) : Type 0 where
  pub exact : (o.error ≡ none) ↔ X
  pub total : IsTotal o

module _ {X Y : Type 0} where
  Meets_iff : {o : Outcome} → X ↔ Y → Meets o X → Meets o Y
  Meets_iff e m = record {
    exact = (λ h. e.0 (m.exact.0 h), λ y. m.exact.1 (e.1 y));
    total = m.total;
  }

Meets-fails : {X : Type 0} (e : DriverError) → (X → ⊥) → Meets (fails e) X
Meets-fails e never = record { exact = (λ h. cc, λ x. absurd (never x)); total = λ h. cc }

Meets-fails_with : {X : Type 0} (r : Restore) (e : DriverError) → (X → ⊥) → Meets (fails_with r e) X
Meets-fails_with r e never = record { exact = (λ h. cc, λ x. absurd (never x)); total = λ h. cc }

Meets-finish : (t : ℕ) (f : String) (a : ExecAnswer) → Meets (finish t f a) (ExitsZero a)
Meets-finish t f a = record { exact = finish_iff t f a; total = finish-IsTotal t f a }

not_zero : (code : ℕ) (out : Text) → (code == 0) ≡ false → ExitsZero (ok (code, out)) → ⊥
not_zero code out n (o, e) =
    let zero_code : code ≡ 0 = cc in let yes = (eq_iff code 0).1 zero_code in cc

zero_out : (code : ℕ) (out : Text) → (code == 0) ≡ true → ExitsZero (ok (code, out))
zero_out code out e = (out, ap (λ c. ok (c, out)) ((eq_iff code 0).0 e))

-- A first command that must end with 0.
Meets-step :
    {X : Type 0} (m : Machine) (name : String) (a : ExecAnswer) (rest : Outcome)
    → Meets rest X
    → Meets (step m name a rest) (ExitsZero a × X)
Meets-step m name (err e) rest h = Meets-fails _ λ x. cc x.0.1
Meets-step m name (ok (code, out)) rest h = elim (Bool-cases (code == 0)) [
  | inl e ↦ rw e (Meets_iff (λ x. (zero_out code out e, x), λ y. y.1) h)
  | inr e ↦ rw e (Meets-fails_with _ _ λ x. not_zero code out e x.0)
]

Meets-load_mysql :
    (m : Machine) (path : String) (f : Result String Header)
    → m.open_file path ≡ f
    → Meets (load_mysql m f) (Opens m path × ExitsZero (m.exec (mysql_command m.access)))
Meets-load_mysql m path (err e) o = Meets-fails _ λ x. cc x.0.1
Meets-load_mysql m path (ok h) o =
    Meets_iff (λ x. ((h, o), x), λ y. y.1)
      (Meets-finish m.elapsed "plain" (m.exec (mysql_command m.access)))

Meets-with_credentials :
    (m : Machine) (a : ExecAnswer)
    → Meets (with_credentials m a) (ExitsZero a × ExitsZero (m.exec (mongo_command m.access)))
Meets-with_credentials m (err e) = Meets-fails _ λ x. cc x.0.1
Meets-with_credentials m (ok (code, out)) = elim (Bool-cases (code == 0)) [
  | inl e ↦ rw e (
      Meets_iff (λ x. (zero_out code out e, x), λ y. y.1)
        (Meets-finish m.elapsed "archive" (m.exec (mongo_command m.access))))
  | inr e ↦ rw e (Meets-fails _ λ x. not_zero code out e x.0)
]

Meets-load_mongo :
    (m : Machine) (path : String) (f : Result String Header)
    → m.open_file path ≡ f
    → Meets (load_mongo m f) (LoadsMongo m path)
Meets-load_mongo m path (err e) o = Meets-fails _ λ x. cc x.0.1
Meets-load_mongo m path (ok h) o =
    Meets_iff (λ x. ((h, o), x.0, x.1), λ y. (y.1, y.2))
      (Meets-with_credentials m (m.exec write_password_config))

Meets-checked_mongo :
    (m : Machine) (path : String) (a : ExecAnswer)
    → Meets (checked_mongo m path (preflight a)) (ExitsZero a × LoadsMongo m path)
Meets-checked_mongo m path (err e) = Meets-fails _ λ x. cc x.0.1
Meets-checked_mongo m path (ok (code, out)) = elim (Bool-cases (code == 0)) [
  | inl e ↦ rw e (
      Meets_iff (λ x. (zero_out code out e, x), λ y. y.1)
        (Meets-load_mongo m path (m.open_file path) refl))
  | inr e ↦ rw e (Meets-fails _ λ x. not_zero code out e x.0)
]

Meets-restore_as :
    (m : Machine) (path : String) (h : Header) (f : Result DriverError String)
    → m.open_file path ≡ ok h
    → detect_format h ≡ f
    → Meets (restore_as m f) (DumpRestores m path)
Meets-restore_as m path h (err e) o d =
    Meets-fails _ λ (h', f', o', d', x). let same : h' ≡ h = cc in cc
Meets-restore_as m path h (ok f) o d =
    Meets_iff
      (
        λ x. (h, f, o, d, x),
        λ (h', f', o', d', x).
            let same : h' ≡ h = cc in
            let same_format : f' ≡ f = cc in
            subst (λ g. ExitsZero (m.exec (restore_command m.access g))) same_format x,
      )
      (Meets-finish m.elapsed f (m.exec (restore_command m.access f)))

Meets-restore_dump :
    (m : Machine) (path : String) (f : Result String Header)
    → m.open_file path ≡ f
    → Meets (restore_dump m f) (DumpRestores m path)
Meets-restore_dump m path (err e) o = Meets-fails _ λ (h', f', o', d', x). cc
Meets-restore_dump m path (ok h) o = Meets-restore_as m path h (detect_format h) o refl

Meets-after_wait :
    (m : Machine) (db : String) (e : Ended PgEnd) → Meets (after_wait m db e) (e ≡ returned accepts)
Meets-after_wait m db out_of_fuel = Meets-fails _ λ x. cc
Meets-after_wait m db timed_out = Meets-fails _ λ x. cc
Meets-after_wait m db (returned accepts) = record {
  exact = (λ h. refl, λ h. refl);
  total = λ h. restored _ refl;
}
Meets-after_wait m db (returned (cancelled e)) = Meets-fails _ λ x. cc
Meets-after_wait m db (returned (broken line)) = Meets-fails_with _ _ λ x. cc

-- A second passes in every round of the wait.
abbrev pub IsTimed : Machine → Type 0
IsTimed m = IsPaced second m.wait_start (λ i. (m.probes i).at)

awaits_iff :
    (m : Machine) (db : String) → IsTimed m → (await_cluster m db ≡ returned accepts) ↔ Accepts m db
unfolding await_cluster
awaits_iff m db p =
    poll_iff (m.wait_start + pg_timeout) (λ i. (m.probes i).at) (λ i. pg_round db (m.probes i)) 181
      second m.wait_start accepts p (omega arith)

Meets-restore_opened :
    (m : Machine) (path : String) (src : Source) (f : Result String Header)
    → IsTimed m
    → m.open_file path ≡ f
    → Meets (restore_opened m src f) (BaseRestores m path src)
Meets-restore_opened m path src (err e) p o = Meets-fails _ λ x. cc x.0.1
Meets-restore_opened m path src (ok h) p o =
    let db = database_of src.database in
    let wait = Meets_iff (awaits_iff m db p) (Meets-after_wait m db (await_cluster m db)) in
    Meets_iff (λ x. ((h, o), x.0, x.1.0, x.1.1.0, x.1.1.1), λ y. (y.1, (y.2, (y.3, y.4))))
      (Meets-step m "untar basebackup" (m.exec untar) _ (
        Meets-step m "preparing data directory" (m.exec prepare_data) _
          (Meets-step m "starting postgres" (m.exec start_postgres) _ wait)))

Meets-postgres :
    (m : Machine) (path : String) (src : Source)
    → IsTimed m
    → Meets (restore postgres m path src) (Restores postgres m path src)
unfolding restore restore_postgres restore_basebackup
Meets-postgres m path src p = elim (Bool-cases (src.format == "basebackup")) [
  | inl e ↦ rw e (Meets-restore_opened m path src (m.open_file path) p refl)
  | inr e ↦ rw e (Meets-restore_dump m path (m.open_file path) refl)
]

Meets-restore :
    (k : EngineDriver) (m : Machine) (path : String) (src : Source)
    → IsTimed m
    → Meets (restore k m path src) (Restores k m path src)
unfolding restore restore_mysql restore_mongodb
Meets-restore postgres m path src p = Meets-postgres m path src p
Meets-restore mysql m path src p = Meets-load_mysql m path (m.open_file path) refl
Meets-restore mongodb m path src p = Meets-checked_mongo m path (m.exec has_tools)

-- With a clock that a second passes in every round of the wait, a driver's restore returns no error
-- exactly when all that it takes went well: the backup was opened, its format read, and every command
-- ended with 0; and of a physical restore, a query was answered in time, before the log said that
-- the cluster is broken. And without an error there is always a result.
pub restore_iff :
    (k : EngineDriver) (m : Machine) (path : String) (src : Source)
    → IsTimed m
    → (((restore k m path src).error ≡ none) ↔ Restores k m path src)
      × IsTotal (restore k m path src)
restore_iff k m path src p = let meets = Meets-restore k m path src p in (meets.exact, meets.total)
