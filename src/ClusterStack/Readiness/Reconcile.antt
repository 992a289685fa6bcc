-- ===== src/ClusterStack/Readiness/Reconcile.antt =====
-- The same through all the stages of `Reconcile`.
use cluster_stack_provider_o.Base.{
  String, ◌≡◌, refl, ap, ◌∙◌, subst, ◌⊎◌, inl, inr, Bool, true, Option, List, [], ◌∷◌, arith,
  Bool-cases,
}
use cluster_stack_provider_o.Api.{
  NamespacedName, OwnerReference, OpenStackNodeImage, OpenStackClusterStackRelease,
  cluster_stack_release_object,
}
use cluster_stack_provider_o.Runtime.Errors.{Outcome}
use cluster_stack_provider_o.Runtime.Calls.{Release, Call, History}
use cluster_stack_provider_o.Runtime.Env.{Env}
use cluster_stack_provider_o.Runtime.Body.{Session, Flow, next, Body, ◌>>=◌, bind_cases}
use cluster_stack_provider_o.Runtime.Reconcile.{Exit, finish, reconcile_with_cases}
use cluster_stack_provider_o.ClusterStack.Owner.{generate_owner_reference}
use cluster_stack_provider_o.ClusterStack.Download.{
  load_release, fetch_release, new_assets_client, download,
}
use cluster_stack_provider_o.ClusterStack.NodeImages.{
  load_node_images, ensure_node_image, ensure_node_images, use_release,
}
use cluster_stack_provider_o.ClusterStack.Reconcile.{
  with_release, reconcile_body, reconcile, resource,
}
use cluster_stack_provider_o.ClusterStack.Readiness.{
  SawAllReady, SawAllReady-status, Justified, check_owned-Justified,
}

abbrev O : Type 0
O = OpenStackClusterStackRelease

module _ (env : Env) where
  load_release-ready :
      (directory : String) (s : Session O)
      → (load_release env directory s).1.object.status.ready ≡ s.object.status.ready
  unfolding load_release
  load_release-ready directory s = ground arith

  fetch_release-ready :
      (release : Release) (s : Session O)
      → (fetch_release env release s).1.object.status.ready ≡ s.object.status.ready
  unfolding fetch_release new_assets_client download
  fetch_release-ready release s = ground arith

  load_node_images-ready :
      (release : Release) (s : Session O)
      → (load_node_images env release s).1.object.status.ready ≡ s.object.status.ready
  unfolding load_node_images
  load_node_images-ready release s = ground arith

  pub ensure_node_image-object :
      (release : Release) (owner : OwnerReference) (image : Option OpenStackNodeImage)
      (s : Session O)
      → (ensure_node_image env release owner image s).1.object ≡ s.object
  unfolding ensure_node_image
  ensure_node_image-object release owner image s = ground arith

  ensure_node_images-object :
      (release : Release) (owner : OwnerReference) (images : List (Option OpenStackNodeImage))
      (s : Session O)
      → (ensure_node_images env release owner images s).1.object ≡ s.object
  unfolding ensure_node_images
  ensure_node_images-object release owner [] s = refl
  ensure_node_images-object release owner (image ∷ images) s =
      let first = ensure_node_image-object release owner image s in
      bind_cases (λ r. r.1.object ≡ s.object) (ensure_node_image env release owner image) _ s
        (λ a s' e. ensure_node_images-object release owner images s' ∙ cc) (λ o s' e. cc)
        (λ s' e. cc)

  andthen_Justified :
      {A B : Type 0} (m : Body O A) (f : A → Body O B) (s : Session O)
      → (m s).1.object.status.ready ≡ s.object.status.ready
      → ((a : A) (s' : Session O)
          → m s ≡ (next a, s')
          → Justified env s'.object.status.ready (f a s'))
      → Justified env s.object.status.ready ((m >>= f) s)
  andthen_Justified m f s same rest =
      bind_cases (Justified env s.object.status.ready) m f s
        (λ a s' e h. elim (rest a s' e h) [ inl r ↦ inl (cc) | inr saw ↦ inr saw ])
        (λ o s' e h. inl (cc)) (λ s' e h. inl (cc))

  use_release-Justified :
      (release : Release) (s : Session O)
      → Justified env s.object.status.ready (use_release env release s)
  unfolding use_release
  use_release-Justified release s =
      andthen_Justified (load_node_images env release) _ s (load_node_images-ready release s)
        λ images s₁ e₁.
          let owner = generate_owner_reference s₁.object in
          andthen_Justified (ensure_node_images env release owner images) _ s₁
            (ap (λ o. o.status.ready) (ensure_node_images-object release owner images s₁))
            λ _ s₂ e₂. check_owned-Justified env s₂

  with_release-Justified :
      (found : Release × Bool) (s : Session O)
      → Justified env s.object.status.ready (with_release env found s)
  unfolding with_release
  with_release-Justified (release, download) s = elim (Bool-cases download) [
    | inl e ↦ rw e (λ h. inl (cc (fetch_release-ready release s)))
    | inr e ↦ rw e (use_release-Justified release s)
  ]

  reconcile_body-Justified :
      (directory : String) (s : Session O)
      → Justified env s.object.status.ready (reconcile_body env directory s)
  unfolding reconcile_body
  reconcile_body-Justified directory s =
      andthen_Justified (load_release env directory) _ s (load_release-ready directory s)
        λ found s₁ e₁. with_release-Justified found s₁

  -- What a reconciliation may send to the API server as its patch.
  abbrev PatchIsJustified : Exit × History → Type 0
  PatchIsJustified (exit, h) =
      (before after : O) (past : History)
      → h ≡ Call.patch_cluster_stack_release before after ∷ past
      → after.status.ready ≡ true
      → (before.status.ready ≡ true) ⊎ SawAllReady env after past

  finish-PatchIsJustified :
      (before : O) (r : Flow Outcome × Session O)
      → Justified env before.status.ready r
      → PatchIsJustified (finish env (resource env) before r)
  unfolding finish
  finish-PatchIsJustified before (flow, s) because b after past made ready =
      let same : before ≡ b = cc in
      let rest : s.history ≡ past = cc in
      let justified : s.object.status.ready ≡ true = cc in
      let conditions = env.conditions.set_summary s.history s.object.status.conditions in
      let sent : record (s.object) { status = record (s.object.status) { conditions = conditions } }
          ≡ after =
        cc in
      elim (because justified) [
        | inl r ↦ inl (cc)
        | inr saw ↦ inr (
            subst (SawAllReady env after) rest (
              subst (λ o. SawAllReady env o s.history) sent
                (SawAllReady-status env s.object _ s.history saw)))
      ]

  -- If the patch of a reconciliation makes a release ready that was not ready when it was read,
  -- then the last call but one before the patch listed the OpenStackNodeImageReleases of its
  -- namespace, the release owned at least one of them, and all that it owned were ready.
  pub reconcile_ready_needs_all :
      (directory : String) (req : NamespacedName) (h : History) (before after : O) (past : History)
      → (reconcile env directory req h).1 ≡ Call.patch_cluster_stack_release before after ∷ past
      → after.status.ready ≡ true
      → (before.status.ready ≡ true) ⊎ SawAllReady env after past
  unfolding reconcile
  reconcile_ready_needs_all directory req h =
      reconcile_with_cases env (resource env) PatchIsJustified _ req h
        (λ o before after past made. cc) (λ found e before after past made. cc)
        λ before got. finish-PatchIsJustified before _ (reconcile_body-Justified directory _)
