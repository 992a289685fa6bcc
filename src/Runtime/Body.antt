-- ===== src/Runtime/Body.antt =====
-- The body of a `Reconcile` between its first call and its deferred functions: it changes the
-- object in hand, makes calls, and returns early or panics.
use cluster_stack_provider_o.Base.{
  String, ◌≡◌, refl, sym, subst, Bool, Option, none, some, List, [], ◌∷◌,
}
use cluster_stack_provider_o.Api.{Object, Severity}
use cluster_stack_provider_o.Runtime.Errors.{Try, Outcome}
use cluster_stack_provider_o.Runtime.Calls.{Call, History}
use cluster_stack_provider_o.Runtime.Env.{Env}
use cluster_stack_provider_o.Runtime.Task.{Task}

pub record Session (O : Type 0) : Type 0 where
  pub object : O
  pub history : History

pub data Flow (A : Type 0) : Type 0 where
  next : A → Flow A
  -- an early `return`
  stop : Outcome → Flow A
  panic : Flow A

abbrev pub Body : Type 0 → Type 0 → Type 0
Body O A = Session O → Flow A × Session O

-- How a step goes on from what the step before it did.
abbrev pub continue : {O A B : Type 0} → (A → Body O B) → Flow A × Session O → Flow B × Session O
continue f (next a, s) = f a s
continue f (stop o, s) = (stop o, s)
continue f (panic, s) = (panic, s)

infixl 5 ◌>>=◌ ◌>>◌
abbrev pub ◌>>=◌ : {O A B : Type 0} → Body O A → (A → Body O B) → Body O B
◌>>=◌ m f s = continue f (m s)

abbrev pub ◌>>◌ : {O A B : Type 0} → Body O A → Body O B → Body O B
m >> n = m >>= λ _. n

module _ {O : Type 0} where
  abbrev pub pure : {A : Type 0} → A → Body O A
  pure a s = (next a, s)

  abbrev pub return : {A : Type 0} → Outcome → Body O A
  return o s = (stop o, s)

  -- `*p`, which panics at nil
  abbrev pub deref : {A : Type 0} → Option A → Body O A
  deref none s = (panic, s)
  deref (some a) s = (next a, s)

  abbrev pub get : Body O O
  get s = (next s.object, s)

  abbrev pub modify : (O → O) → Body O (Unit {0})
  modify f s = (next tt, record s { object = f s.object })

  -- A call of a function with results `(value, err)`.
  abbrev pub call : {A : Type 0} → Task A → Body O (Try A)
  call m s = let (r, h) = m s.history in (next r, record s { history = h })

  -- A call that cannot fail.
  abbrev pub consult : {A : Type 0} → Call → (History → A) → Body O A
  consult c answer s = (next (answer s.history), record s { history = c ∷ s.history })

  -- A look at the world that leaves no trace, such as the time.
  abbrev pub observe : {A : Type 0} → (History → A) → Body O A
  observe answer s = (next (answer s.history), s)

  abbrev pub note : Call → Body O (Unit {0})
  note c s = (next tt, record s { history = c ∷ s.history })

  -- What runs whatever is returned, and also after a panic.
  abbrev pub deferring : {A : Type 0} → (Session O → Session O) → Body O A → Body O A
  deferring last m s = let (r, s') = m s in (r, last s')

module _ {O : Type 0} ⦃object : Object O⦄ (env : Env) where
  abbrev pub mark_true : String → Body O (Unit {0})
  mark_true t s = (
    next tt,
    record s {
      object =
          object.set_conditions
            (env.conditions.mark_true s.history t (object.get_conditions s.object)) s.object;
    },
  )

  abbrev pub mark_false : String → String → Severity → String → Body O (Unit {0})
  mark_false t reason severity message s = (
    next tt,
    record s {
      object =
          object.set_conditions
            (env.conditions.mark_false s.history t reason severity message
              (object.get_conditions s.object))
            s.object;
    },
  )

module _ {O : Type 0} ⦃object : Object O⦄ where
  abbrev pub set_ready : Bool → Body O (Unit {0})
  set_ready b s = (next tt, record s { object = object.set_ready b s.object })

  -- `record.Eventf(object, reason, format, args...)`
  abbrev pub eventf : String → String → List String → Body O (Unit {0})
  eventf reason format args s = (
    next tt,
    record s { history = Call.event (object.get_name s.object) reason format args ∷ s.history },
  )

  -- `record.Warnf(object, reason, format)`
  abbrev pub warnf : String → String → Body O (Unit {0})
  warnf reason format s = (
    next tt,
    record s { history = Call.warning (object.get_name s.object) reason format [] ∷ s.history },
  )

-- What a body returns, by its end or early; none if it panics.
abbrev pub outcome_of : Flow Outcome → Option Outcome
outcome_of (next o) = some o
outcome_of (stop o) = some o
outcome_of panic = none

-- A property of `m >>= f`, from what `m` does: each way in which it ends, with its equation.
pub bind_cases {κ} :
    {O A B : Type 0} (P : Flow B × Session O → Type κ) (m : Body O A) (f : A → Body O B)
    (s : Session O)
    → ((a : A) (s' : Session O) → m s ≡ (next a, s') → P (f a s'))
    → ((o : Outcome) (s' : Session O) → m s ≡ (stop o, s') → P (stop o, s'))
    → ((s' : Session O) → m s ≡ (panic, s') → P (panic, s'))
    → P ((m >>= f) s)
bind_cases {O} {A} {B} P m f s on_next on_stop on_panic = go (m s).0 (m s).1 refl
  where
    go : (r : Flow A) (t : Session O) → m s ≡ (r, t) → P ((m >>= f) s)
    go (next a) t e = subst (λ p. P (continue f p)) (sym e) (on_next a t e)
    go (stop o) t e = subst (λ p. P (continue f p)) (sym e) (on_stop o t e)
    go panic t e = subst (λ p. P (continue f p)) (sym e) (on_panic t e)
