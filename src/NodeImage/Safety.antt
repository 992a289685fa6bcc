-- ===== src/NodeImage/Safety.antt =====
-- When `Reconcile` dereferences a nil pointer, and when it does not.
use cluster_stack_provider_o.Base.{
  String, ◌≡◌, ◌≢◌, refl, subst, ap, true, Option, some, none, arith, ◌=s◌, Bool-cases,
  Option-cases, inl, inr, ◌∷◌,
}
use cluster_stack_provider_o.Base.Int.{ℤ}
use cluster_stack_provider_o.Api.{
  Conditions, OpenStackNodeImageReleaseSpec, OpenStackIdentityReference, OpenStackNodeImageRelease,
  OpenStackNodeImage, CreateOpts, NamespacedName, node_image_release_object,
}
use cluster_stack_provider_o.Api.ConditionType
use cluster_stack_provider_o.Runtime.Errors.{Outcome, ok}
use cluster_stack_provider_o.Runtime.Calls.{
  Image, ImageStatus, active, Address, Bytes, Cloud, AuthOptions, Call, History,
}
use cluster_stack_provider_o.Runtime.Env.{Env}
use cluster_stack_provider_o.Runtime.Body.{
  Session, Body, ◌>>=◌, Flow, next, stop, panic, bind_cases,
}
use cluster_stack_provider_o.Runtime.Reconcile.{
  Exit, panicked, reconcile_with, reconcile_with_cases, finish, summarise,
}
use cluster_stack_provider_o.NodeImage.Connect.{load_cloud, connect, find_image}
use cluster_stack_provider_o.NodeImage.Cloud.{client_opts}
use cluster_stack_provider_o.NodeImage.Import.{
  announce, create_wanted, import_created, start_import,
}
use cluster_stack_provider_o.NodeImage.Await.{fetch_image, check_timeout, judge, await_image}
use cluster_stack_provider_o.NodeImage.Reconcile.{
  load_image, drive_image, with_client, with_cloud, reconcile_body, reconcile, resource,
}

abbrev O : Type 0
O = OpenStackNodeImageRelease

-- The pointers that the resource's schema requires are there.
pub record IsComplete (spec : OpenStackNodeImageReleaseSpec) : Type 0 where
  pub identity : OpenStackIdentityReference
  pub image : OpenStackNodeImage
  pub opts : CreateOpts
  pub has_identity : spec.identity_ref ≡ some identity
  pub has_image : spec.image ≡ some image
  pub has_opts : image.create_opts ≡ some opts

-- A condition that is true has a transition time.
pub record IsDated (env : Env) : Type 0 where
  pub transition :
      (t : String) (cs : Conditions)
      → env.conditions.is_true t cs ≡ true
      → env.conditions.get_last_transition_time t cs ≢ none

module _ (env : Env) where
  -- The pointer that is dereferenced next is nil: one of the release's, the options that
  -- `AuthOptions` has just given for a cloud, or the client that `NewClient` gives for them.
  pub data AtNil (s : Session O) : Type 0 where
    no_identity : s.object.spec.identity_ref ≡ none → AtNil s
    no_image : s.object.spec.image ≡ none → AtNil s
    no_create_opts :
        (image : OpenStackNodeImage)
        → s.object.spec.image ≡ some image
        → image.create_opts ≡ none
        → AtNil s
    no_auth_options :
        (cloud : Cloud) (past : History)
        → s.history ≡ Call.auth_options (client_opts cloud) ∷ past
        → env.openstack.auth_options past (client_opts cloud) ≡ none
        → AtNil s
    no_client :
        (cloud : Cloud) (past : History) (auth : AuthOptions)
        → s.history ≡ Call.auth_options (client_opts cloud) ∷ past
        → env.openstack.auth_options past (client_opts cloud) ≡ some auth
        → env.openstack.new_client auth.identity_endpoint ≡ none
        → AtNil s

  -- A stage that panics only at nil.
  abbrev Safe : {A : Type 0} → Flow A × Session O → Type 0
  Safe r = r.0 ≡ panic → AtNil r.1

  load_cloud-Safe : (s : Session O) → Safe (load_cloud env s)
  unfolding load_cloud
  load_cloud-Safe s p = elim (Option-cases s.object.spec.identity_ref) [
    | inl e ↦ no_identity (ground (arith, e))
    | inr (identity, e) ↦ absurd (ground (arith, e, p))
  ]

  connect-Safe :
      (found : Cloud × Option Bytes) (s : Session O) → Safe (connect env found.0 found.1 s)
  unfolding connect
  connect-Safe found s p =
      elim (Option-cases (env.openstack.auth_options s.history (client_opts found.0))) [
        | inl e ↦ no_auth_options found.0 s.history (ground (arith, e)) e
        | inr (auth, e) ↦ elim (Option-cases (env.openstack.new_client auth.identity_endpoint)) [
          | inl e' ↦ no_client found.0 s.history auth (ground (arith, e, e')) e e'
          | inr (client, e') ↦ absurd (ground (arith, e, e', p))
        ]
      ]

  load_image-Safe : (s : Session O) → Safe (load_image s)
  unfolding load_image
  load_image-Safe s p = elim (Option-cases s.object.spec.image) [
    | inl e ↦ no_image (ground (arith, e))
    | inr (image, e) ↦ elim (Option-cases image.create_opts) [
      | inl e' ↦ no_create_opts image (ground (arith, e, e')) e'
      | inr (opts, e') ↦ absurd (ground (arith, e, e', p))
    ]
  ]

  find_image-Safe :
      (client : Address) (opts : CreateOpts) (s : Session O)
      → (find_image env client opts s).0 ≢ panic
  unfolding find_image
  find_image-Safe client opts s = ground arith

  start_import-Safe :
      (client : Address) (image : OpenStackNodeImage) (opts : CreateOpts) (s : Session O)
      → (start_import env client image opts s).0 ≢ panic
  unfolding start_import announce create_wanted import_created
  start_import-Safe client image opts s = ground arith

  fetch_image-Safe :
      (client : Address) (id : String) (s : Session O) → (fetch_image env client id s).0 ≢ panic
  unfolding fetch_image
  fetch_image-Safe client id s = ground arith

  check_timeout-Safe :
      IsDated env
      → (minutes : ℤ) (image : Image) (s : Session O)
      → (check_timeout env minutes image s).0 ≢ panic
  unfolding check_timeout
  check_timeout-Safe dated minutes image s = ground (
    arith,
    dated.transition ConditionType.open_stack_image_import_started s.object.status.conditions,
  )

  judge-Safe :
      (opts : CreateOpts) (id : String) (status : ImageStatus) (s : Session O)
      → (judge env opts id status s).0 ≢ panic
  unfolding judge
  judge-Safe opts id active s = ground arith
  judge-Safe opts id status s = ground arith

  andthen_Safe :
      {A B : Type 0} (m : Body O A) (f : A → Body O B) (s : Session O)
      → Safe (m s)
      → ((a : A) (s' : Session O) → Safe (f a s'))
      → Safe ((m >>= f) s)
  andthen_Safe m f s safe rest =
      bind_cases Safe m f s (λ a s' e. rest a s') (λ o s' e p. absurd (cc))
        λ s' e p. subst AtNil (ap (λ r. r.1) e) (safe (ap (λ r. r.0) e))

  await_image-Safe :
      IsDated env
      → (minutes : ℤ) (client : Address) (opts : CreateOpts) (id : String) (s : Session O)
      → Safe (await_image env minutes client opts id s)
  unfolding await_image
  await_image-Safe dated minutes client opts id s =
      andthen_Safe (fetch_image env client id) _ s (λ p. absurd (fetch_image-Safe client id s p))
        λ image s₁.
          andthen_Safe (check_timeout env minutes image) _ s₁
            (λ p. absurd (check_timeout-Safe dated minutes image s₁ p))
            λ _ s₂ p. absurd (judge-Safe opts id image.status s₂ p)

  drive_image-Safe :
      IsDated env
      → (minutes : ℤ) (client : Address) (image : OpenStackNodeImage) (opts : CreateOpts)
        (id : String) (s : Session O)
      → Safe (drive_image env minutes client image opts id s)
  unfolding drive_image
  drive_image-Safe dated minutes client image opts id s = elim (Bool-cases (id =s "")) [
    | inl none_found ↦ rw none_found (λ p. absurd (start_import-Safe client image opts s p))
    | inr found ↦ rw found (await_image-Safe dated minutes client opts id s)
  ]

  reconcile_body-Safe :
      IsDated env → (minutes : ℤ) (s : Session O) → Safe (reconcile_body env minutes s)
  unfolding reconcile_body with_cloud with_client
  reconcile_body-Safe dated minutes s =
      andthen_Safe (load_cloud env) _ s (load_cloud-Safe s) λ found s₁.
        andthen_Safe (connect env found.0 found.1) _ s₁ (connect-Safe found s₁) λ client s₂.
          andthen_Safe load_image _ s₂ (load_image-Safe s₂) λ wanted s₃.
            andthen_Safe (find_image env client wanted.1) _ s₃
              (λ p. absurd (find_image-Safe client wanted.1 s₃ p))
              λ id s₄. drive_image-Safe dated minutes client wanted.0 wanted.1 id s₄

  -- How a reconciliation panics: at nil, before the deferred patch, which is made all the same.
  abbrev pub PanicsAtNil : Exit × History → Type 0
  PanicsAtNil r =
      r.0 ≡ panicked
      → (before : O) × (s : Session O) × AtNil s
        × (r.1 ≡ Call.patch_node_image_release before (summarise env (resource env) s) ∷ s.history)

  finish_panics :
      (before : O) (r : Flow Outcome × Session O)
      → Safe r
      → PanicsAtNil (finish env (resource env) before r)
  unfolding finish
  finish_panics before (next o, s) safe p = absurd (ground arith)
  finish_panics before (stop o, s) safe p = absurd (ground arith)
  finish_panics before (panic, s) safe p = (before, s, safe refl, refl)

  -- If a condition that is true has a transition time, then whatever the libraries answer, also with
  -- errors, `Reconcile` panics only at one of five nil pointers: the release's identity reference,
  -- its image, the image's options, the options that `AuthOptions` gave in the last call before, or
  -- the client that `NewClient` gives for these; and the deferred patch is still made after it.
  pub reconcile_panics-AtNil :
      IsDated env
      → (minutes : ℤ) (req : NamespacedName) (h : History)
      → (reconcile env minutes req h).0 ≡ panicked
      → (before : O) × (s : Session O) × AtNil s
        × ((reconcile env minutes req h).1
            ≡ Call.patch_node_image_release before (summarise env (resource env) s) ∷ s.history)
  unfolding reconcile
  reconcile_panics-AtNil dated minutes req h =
      reconcile_with_cases env (resource env) PanicsAtNil _ req h (λ o p. absurd (cc))
        (λ before e p. absurd (cc))
        λ before got. finish_panics before _ (reconcile_body-Safe dated minutes _)

  -- If the release is read, its patch helper is made and the cloud is found, but the options cannot
  -- be built from the cloud, then `Reconcile` panics.
  pub reconcile_panics :
      (minutes : ℤ) (req : NamespacedName) (h : History) {r : O} {found : Cloud × Option Bytes}
      {s : Session O}
      → env.kube.get_node_image_release h req ≡ ok r
      → env.kube.new_patch_helper (Call.get_node_image_release req ∷ h) r.metadata.name ≡ ok tt
      → load_cloud env (record {
        object = r;
        history = Call.new_patch_helper r.metadata.name ∷ Call.get_node_image_release req ∷ h;
      })
        ≡ (next found, s)
      → env.openstack.auth_options s.history (client_opts found.0) ≡ none
      → (reconcile env minutes req h).0 ≡ panicked
  unfolding reconcile reconcile_with reconcile_body with_cloud connect
  reconcile_panics minutes req h got helped loaded failed = ground arith
