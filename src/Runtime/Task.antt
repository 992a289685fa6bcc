-- ===== src/Runtime/Task.antt =====
-- A function that makes calls and returns `(value, err)`; `do` returns at the first error.
use cluster_stack_provider_o.Base.{String, Option, none, some, ◌∷◌}
use cluster_stack_provider_o.Runtime.Errors.{Error, Try, ok, err, wrapped}
use cluster_stack_provider_o.Runtime.Calls.{Call, History}

abbrev pub Task : Type 0 → Type 0
Task A = History → Try A × History

infixl 5 ◌>>=◌ ◌>>◌
abbrev pub ◌>>=◌ : {A B : Type 0} → Task A → (A → Task B) → Task B
◌>>=◌ m f h = let (r, h') = m h in elim r [ ok a ↦ f a h' | err e ↦ (err e, h') ]

abbrev pub ◌>>◌ : {A B : Type 0} → Task A → Task B → Task B
m >> n = m >>= λ _. n

-- A value or an error that is at hand.
abbrev pub lift : {A : Type 0} → Try A → Task A
lift r h = (r, h)

-- `if !ok { return err }`
abbrev pub or_fail : {A : Type 0} → Option A → Error → Task A
or_fail none e h = (err e, h)
or_fail (some a) e h = (ok a, h)

-- Make a call: it is answered after what came before it, and noted.
abbrev pub ask : {A : Type 0} → Call → (History → Try A) → Task A
ask c answer h = (answer h, c ∷ h)

-- `if err != nil { return fmt.Errorf("<text>: %w", err) }`
abbrev pub wrapping : {A : Type 0} → String → Task A → Task A
wrapping s m h = let (r, h') = m h in (wrapped s r, h')

-- `record.Eventf` and `record.Warnf`
abbrev pub emit : Call → Task (Unit {0})
emit c h = (ok tt, c ∷ h)
