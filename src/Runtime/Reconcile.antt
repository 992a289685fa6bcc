-- ===== src/Runtime/Reconcile.antt =====
-- What the two `Reconcile` methods share: they get the object, and whatever their body returns,
-- also by a panic, a deferred function sums its conditions up and patches it.
use cluster_stack_provider_o.Base.{String, ◌<>◌, ◌≡◌, refl, ◌∙◌, some, ◌∷◌, arith, if◌then◌else◌}
use cluster_stack_provider_o.Api.{NamespacedName, Object}
use cluster_stack_provider_o.Runtime.Errors.{
  Error, wrap, Try, ok, err, Outcome, empty, returns, fails,
}
use cluster_stack_provider_o.Runtime.Calls.{Call, History}
use cluster_stack_provider_o.Runtime.Env.{Env}
use cluster_stack_provider_o.Runtime.Body.{Session, Flow, next, stop, panic, Body, outcome_of}

-- How the type of the object is read and patched.
pub record Resource (O : Type 0) : Type 0 where
  pub kind : String
  pub get_call : NamespacedName → Call
  pub get : History → NamespacedName → Try O
  pub patch_call : O → O → Call
  pub patch : History → O → O → Try (Unit {0})

-- How `Reconcile` ends.
pub data Exit : Type 0 where
  returned : Outcome → Exit
  panicked : Exit

-- The error of the patch takes the place of the body's; a panic goes on.
abbrev pub overrule : String → Outcome → Try (Unit {0}) → Outcome
overrule kind o (ok _) = o
overrule kind o (err e) = record o { error = some (wrap ("failed to patch " <> kind) e) }

abbrev pub settle : String → Flow Outcome → Try (Unit {0}) → Exit
settle kind (next o) patched = returned (overrule kind o patched)
settle kind (stop o) patched = returned (overrule kind o patched)
settle kind panic patched = panicked

module _ {O : Type 0} ⦃object : Object O⦄ (env : Env) (resource : Resource O) where
  -- `conditions.SetSummary(object)`
  abbrev pub summarise : Session O → O
  summarise s =
      object.set_conditions (env.conditions.set_summary s.history (object.get_conditions s.object))
        s.object

  -- The deferred function.
  unfoldable pub finish : O → Flow Outcome × Session O → Exit × History
  finish before (flow, s) =
      let after = summarise s in
      (
        settle resource.kind flow (resource.patch s.history before after),
        resource.patch_call before after ∷ s.history,
      )

  start_failed : NamespacedName → Error → Outcome
  start_failed req e =
      if env.kube.is_not_found e
      then returns empty
      else fails (
          wrap
            ("failed to get " <> (resource.kind <> (" " <> (req.namespace <> ("/" <> req.name)))))
            e)

  with_helper : Body O Outcome → O → Try (Unit {0}) → History → Exit × History
  unfolding finish
  with_helper body before (ok _) h = finish before (body (record { object = before; history = h }))
  with_helper body before (err e) h =
      (returned (fails (wrap ("failed to init patch helper for " <> resource.kind) e)), h)

  with_object : Body O Outcome → NamespacedName → Try O → History → Exit × History
  unfolding with_helper start_failed
  with_object body req (ok before) h =
      with_helper body before (env.kube.new_patch_helper h (object.get_name before))
        (Call.new_patch_helper (object.get_name before) ∷ h)
  with_object body req (err e) h = (returned (start_failed req e), h)

  unfoldable pub reconcile_with : Body O Outcome → NamespacedName → History → Exit × History
  unfolding with_object
  reconcile_with body req h = with_object body req (resource.get h req) (resource.get_call req ∷ h)

module _ {κ} {O : Type 0} ⦃object : Object O⦄ (env : Env) (resource : Resource O) where
  -- The session in which the body starts.
  abbrev pub started : NamespacedName → History → O → Session O
  started req h before = record {
    object = before;
    history = Call.new_patch_helper (object.get_name before) ∷ resource.get_call req ∷ h;
  }

  with_helper_cases :
      (P : Exit × History → Type κ) (body : Body O Outcome) (before : O) (t : Try (Unit {0}))
      (h : History)
      → ((e : Error) → P (returned (fails e), h))
      → P (finish env resource before (body (record { object = before; history = h })))
      → P (with_helper env resource body before t h)
  unfolding with_helper
  with_helper_cases P body before (ok _) h on_error on_body = on_body
  with_helper_cases P body before (err e) h on_error on_body = on_error _

  with_object_cases :
      (P : Exit × History → Type κ) (body : Body O Outcome) (req : NamespacedName) (h : History)
      (t : Try O)
      → resource.get h req ≡ t
      → ((o : Outcome) → P (returned o, resource.get_call req ∷ h))
      → ((before : O) (e : Error) → P (returned (fails e), (started req h before).history))
      → ((before : O)
          → resource.get h req ≡ ok before
          → P (finish env resource before (body (started req h before))))
      → P (with_object env resource body req t (resource.get_call req ∷ h))
  unfolding with_object
  with_object_cases P body req h (ok before) got on_missing on_error on_body =
      with_helper_cases P body before _ _ (on_error before) (on_body before got)
  with_object_cases P body req h (err e) got on_missing on_error on_body = on_missing _

  -- A property of a reconciliation, from its three ends: the object cannot be read, its patch
  -- helper fails, or the body runs and the deferred function after it.
  pub reconcile_with_cases :
      (P : Exit × History → Type κ) (body : Body O Outcome) (req : NamespacedName) (h : History)
      → ((o : Outcome) → P (returned o, resource.get_call req ∷ h))
      → ((before : O) (e : Error) → P (returned (fails e), (started req h before).history))
      → ((before : O)
          → resource.get h req ≡ ok before
          → P (finish env resource before (body (started req h before))))
      → P (reconcile_with env resource body req h)
  unfolding reconcile_with
  reconcile_with_cases P body req h = with_object_cases P body req h (resource.get h req) refl

module _ {O : Type 0} ⦃object : Object O⦄ (env : Env) (resource : Resource O) where
  -- A reconciliation whose object can be read and has a patch helper is its body and what is
  -- deferred.
  reconcile_with-finish :
      (body : Body O Outcome) (req : NamespacedName) (h : History) {before : O}
      → resource.get h req ≡ ok before
      → env.kube.new_patch_helper (resource.get_call req ∷ h) (object.get_name before) ≡ ok tt
      → reconcile_with env resource body req h
        ≡ finish env resource before (body (started {0} env resource req h before))
  unfolding reconcile_with with_object
  reconcile_with-finish body req h got helped = rw (got, helped) refl

  -- What is deferred, where the body returns and the patch succeeds.
  finish_returned :
      (before : O) (r : Flow Outcome × Session O) {o : Outcome}
      → outcome_of r.0 ≡ some o
      → resource.patch r.1.history before (summarise env resource r.1) ≡ ok tt
      → finish env resource before r
        ≡ (returned o, resource.patch_call before (summarise env resource r.1) ∷ r.1.history)
  unfolding finish
  finish_returned before (next a, s) ends patched = ground arith
  finish_returned before (stop a, s) ends patched = ground arith
  finish_returned before (panic, s) ends patched = absurd (ground arith)

  -- A reconciliation that is served, and whose body returns.
  pub reconcile_with_returned :
      (body : Body O Outcome) (req : NamespacedName) (h : History) {before : O} {o : Outcome}
      → resource.get h req ≡ ok before
      → ((h : History) (name : String) → env.kube.new_patch_helper h name ≡ ok tt)
      → ((h : History) (a b : O) → resource.patch h a b ≡ ok tt)
      → let r = body (started {0} env resource req h before) in
        outcome_of r.0 ≡ some o
        → reconcile_with env resource body req h
          ≡ (returned o, resource.patch_call before (summarise env resource r.1) ∷ r.1.history)
  reconcile_with_returned body req h got helped patched ends =
      reconcile_with-finish body req h got (helped _ _) ∙ finish_returned _ _ ends (patched _ _ _)
