-- ===== src/Runtime/Errors.antt =====
-- Go's `error` values and `ctrl.Result`.
use cluster_stack_provider_o.Base.{ℕ, String, ◌<>◌, Bool, true, false, Option, none, some}

-- An error of a library, known by its text; one of `fmt.Errorf("<text>: %w", err)`; and one of
-- `fmt.Errorf` that wraps nothing.
pub data Error : Type 0 where
  external : String → Error
  wrap : String → Error → Error
  plain : String → Error

-- `err.Error()`
unfoldable pub text : Error → String
text (external s) = s
text (wrap s e) = s <> (": " <> text e)
text (plain s) = s

-- The pair `(value, err)` of a call.
pub data Try (A : Type 0) : Type 0 where
  ok : A → Try A
  err : Error → Try A

abbrev pub is_ok : {A : Type 0} → Try A → Bool
is_ok (ok a) = true
is_ok (err e) = false

-- `return nil, fmt.Errorf("<message>: %w", err)`
abbrev pub wrapped : {A : Type 0} → String → Try A → Try A
wrapped s (ok a) = ok a
wrapped s (err e) = err (wrap s e)

-- `ctrl.Result`; the delay is a `time.Duration` in nanoseconds.
pub record Result : Type 0 where
  pub requeue : Bool
  pub requeue_after : ℕ

abbrev pub empty : Result
empty = record { requeue = false; requeue_after = 0 }

abbrev pub requeue_in : ℕ → Result
requeue_in d = record { requeue = false; requeue_after = d }

-- What `Reconcile` returns: a result and an error, which may be nil.
pub record Outcome : Type 0 where
  pub result : Result
  pub error : Option Error

abbrev pub returns : Result → Outcome
returns r = record { result = r; error = none }

abbrev pub fails : Error → Outcome
fails e = record { result = empty; error = some e }
