-- ===== src/Runtime/Later.antt =====
-- What is called between one point of a reconciliation and a later one, and stages that go on.
use cluster_stack_provider_o.Base.{◌≡◌, sym, subst, ap, Bool, true, false, ◌∷◌}
use cluster_stack_provider_o.Runtime.Calls.{Call, History}
use cluster_stack_provider_o.Runtime.Body.{Session, Body, next, ◌>>=◌, continue}

abbrev pub is_barred : Call → Bool
is_barred (Call.remove_all path) = true
is_barred (Call.create_image client opts) = true
is_barred c = false

-- The second history is the first one with some calls after it, none of which removes a directory or
-- creates an image.
pub data IsAfter (h : History) : History → Type 0 where
  same : IsAfter h h
  more : {h' : History} (c : Call) → is_barred c ≡ false → IsAfter h h' → IsAfter h (c ∷ h')

pub IsAfter-trans : {a b c : History} → IsAfter a b → IsAfter b c → IsAfter a c
IsAfter-trans first same = first
IsAfter-trans first (more c stays then) = more c stays (IsAfter-trans first then)

pub IsAfter-same : {a b : History} → b ≡ a → IsAfter a b
IsAfter-same {a} e = subst (IsAfter a) (sym e) same

-- The call is one of the history.
pub data Called (c : Call) : History → Type 0 where
  now : {h : History} → Called c (c ∷ h)
  earlier : {h : History} {last : Call} → Called c h → Called c (last ∷ h)

pub IsAfter-Called : {a b : History} {c : Call} → IsAfter a b → Called c a → Called c b
IsAfter-Called same called = called
IsAfter-Called (more c stays then) called = earlier (IsAfter-Called then called)

-- A stage that goes on with `a`, and leaves the object alike.
pub record Passes {O A : Type 0} (Alike : O → O → Type 0) (m : Body O A) (s : Session O) (a : A)
    : Type 0 where
  pub goes_on : (m s).0 ≡ next a
  pub alike : Alike s.object (m s).1.object
  pub later : IsAfter s.history (m s).1.history

-- A step on after a stage that passes.
pub Passes-bind :
    {O A B : Type 0} {Alike : O → O → Type 0} (m : Body O A) (f : A → Body O B) (s : Session O)
    {a : A}
    → Passes Alike m s a
    → (m >>= f) s ≡ f a (m s).1
Passes-bind m f s passed = ap (λ r. continue f (r, (m s).1)) passed.goes_on

pub Passes-next :
    {O A : Type 0} {Alike : O → O → Type 0} (m : Body O A) (s : Session O) {a : A}
    → Passes Alike m s a
    → m s ≡ (next a, (m s).1)
Passes-next m s passed = ap (λ r. (r, (m s).1)) passed.goes_on
