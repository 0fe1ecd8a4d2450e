-- ===== src/Drivers/Outcome.antt =====
-- What the drivers share: a sandbox's answers, the result and the error of a restore.
use fire_drill.Base.{
  ℕ, ◌≡◌, refl, ap, ◌↔◌, ok, err, Result, Bool, true, false, ◌==◌, nat_eq, string_eq, eq_iff, none,
  some, String, Option,
}
use fire_drill.Drivers.Texts.{Text, tail}

-- `Exec`: the exit code and the output, or an error.
abbrev pub ExecAnswer : Type 0
ExecAnswer = Result String (ℕ × Text)

-- `RestoreResult`
pub record Restore : Type 0 where
  pub duration : ℕ
  pub output : Text
  pub format : String
  pub dsn : String

pub data DriverError : Type 0 where
  opening reading_header rewinding restore_exec : String → DriverError
  restore_failed : ℕ → Text → DriverError
  step_error : String → String → DriverError
  step_failed : String → ℕ → Text → DriverError
  startup_broken : Text → DriverError
  not_ready_in_time : DriverError
  context_over : String → DriverError
  checking_tools : String → DriverError
  no_mongorestore : DriverError
  credentials_error : String → DriverError
  credentials_failed : ℕ → Text → DriverError

-- A result and an error, either of which may be nil.
pub record Outcome : Type 0 where
  pub result : Option Restore
  pub error : Option DriverError

abbrev pub fails : DriverError → Outcome
fails e = record { result = none; error = some e }

abbrev pub fails_with : Restore → DriverError → Outcome
fails_with r e = record { result = some r; error = some e }

abbrev pub succeeds : Restore → Outcome
succeeds r = record { result = some r; error = none }

abbrev pub tool_result : ℕ → String → Text → Restore
tool_result elapsed format out = record {
  duration = elapsed;
  output = tail out 4000;
  format = format;
  dsn = "";
}

abbrev pub judged : Bool → ℕ → Restore → Outcome
judged true code r = succeeds r
judged false code r = fails_with r (restore_failed code r.output)

-- The end of every driver's restore: what the tool answered, after a time.
unfoldable pub finish : ℕ → String → ExecAnswer → Outcome
finish elapsed format (err e) = fails (restore_exec e)
finish elapsed format (ok (code, out)) = judged (code == 0) code (tool_result elapsed format out)

-- What a restore that returns no error has.
pub data IsRestored (o : Outcome) : Type 0 where
  restored : (r : Restore) → o ≡ succeeds r → IsRestored o

-- The tool ended, and well.
abbrev pub ExitsZero : ExecAnswer → Type 0
ExitsZero a = (out : Text) × (a ≡ ok (0, out))

judged_iff : (b : Bool) (code : ℕ) (r : Restore) → ((judged b code r).error ≡ none) ↔ (b ≡ true)
judged_iff true code r = (λ h. refl, λ h. refl)
judged_iff false code r = (λ h. cc, λ h. cc)

exited_zero : (code : ℕ) (out : Text) → ExitsZero (ok (code, out)) → (code == 0) ≡ true
exited_zero code out (o, e) = let zero_code : code ≡ 0 = cc in (eq_iff code 0).1 zero_code

pub finish_iff :
    (elapsed : ℕ) (format : String) (a : ExecAnswer)
    → ((finish elapsed format a).error ≡ none) ↔ ExitsZero a
unfolding finish
finish_iff elapsed format (err e) = (λ h. cc, λ h. cc h.1)
finish_iff elapsed format (ok (code, out)) =
    let whole = judged_iff (code == 0) code (tool_result elapsed format out) in
    (
      λ h. (out, ap (λ c. ok (c, out)) ((eq_iff code 0).0 (whole.0 h))),
      λ h. whole.1 (exited_zero code out h),
    )

-- An outcome without an error has a result.
abbrev pub IsTotal : Outcome → Type 0
IsTotal o = o.error ≡ none → IsRestored o

judged-IsTotal : (b : Bool) (code : ℕ) (r : Restore) → IsTotal (judged b code r)
judged-IsTotal true code r h = restored r refl
judged-IsTotal false code r h = cc

pub finish-IsTotal :
    (elapsed : ℕ) (format : String) (a : ExecAnswer) → IsTotal (finish elapsed format a)
unfolding finish
finish-IsTotal elapsed format (err e) h = cc
finish-IsTotal elapsed format (ok (code, out)) h =
    judged-IsTotal (code == 0) code (tool_result elapsed format out) h
