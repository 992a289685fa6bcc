-- ===== src/Runtime/Relations.antt =====
-- Relations between the session before a body and the one after it, however the body ends.
use cluster_stack_provider_o.Base.{subst}
use cluster_stack_provider_o.Runtime.Body.{Session, Body, ◌>>=◌, bind_cases}

module _ {κ} {O : Type 0} (R : Session O → Session O → Type κ)
    (transitive : (r s t : Session O) → R r s → R s t → R r t) where
  -- Two stages that each keep a transitive relation keep it together.
  pub relate_andthen :
      {A B : Type 0} (m : Body O A) (f : A → Body O B) (s : Session O)
      → R s (m s).1
      → ((a : A) (s' : Session O) → R s' (f a s').1)
      → R s ((m >>= f) s).1
  relate_andthen m f s first rest =
      bind_cases (λ r. R s r.1) m f s
        (λ a s' e. transitive _ _ _ (subst (λ r. R s r.1) e first) (rest a s'))
        (λ o s' e. subst (λ r. R s r.1) e first) (λ s' e. subst (λ r. R s r.1) e first)
