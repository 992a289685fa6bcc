-- ===== src/NodeImage/Stuck.antt =====
-- A release whose image was created and not imported: no later reconciliation helps it.
use cluster_stack_provider_o.Base.{
  ℕ, zero, suc, String, ◌≡◌, ◌≢◌, refl, sym, ap, subst, ◌∙◌, true, false, Bool, not, ◌&&◌, arith,
  Option, some, inl, inr, List, [], ◌∷◌, All,
}
use cluster_stack_provider_o.Base.Int.{ℤ}
use cluster_stack_provider_o.Api.{
  NamespacedName, OpenStackNodeImageRelease, OpenStackNodeImage, CreateOpts,
  node_image_release_object,
}
use cluster_stack_provider_o.Runtime.Errors.{ok, Outcome}
use cluster_stack_provider_o.Runtime.Calls.{Address, Bytes, Cloud, Image, active, Call, History}
use cluster_stack_provider_o.Runtime.Env.{Env}
use cluster_stack_provider_o.Runtime.Body.{Session, Body, Flow, ◌>>=◌, next, bind_cases}
use cluster_stack_provider_o.Runtime.Reconcile.{Exit, finish, reconcile_with_cases}
use cluster_stack_provider_o.NodeImage.Glance.{list_opts}
use cluster_stack_provider_o.NodeImage.Connect.{load_cloud, connect, find_image}
use cluster_stack_provider_o.NodeImage.Reconcile.{
  resource, load_image, with_client, with_cloud, reconcile_body, reconcile,
}
use cluster_stack_provider_o.NodeImage.Listing.{Listed, find_image-Listed}
use cluster_stack_provider_o.NodeImage.Absence.{choose_image-eq-nil}
use cluster_stack_provider_o.NodeImage.Frame.{load_cloud-Frames, connect-Frames}
use cluster_stack_provider_o.NodeImage.Writes.{
  writes, load_cloud-writes, connect-writes, load_image-writes, find_image-writes,
  drive_image_found,
}
use cluster_stack_provider_o.NodeImage.Readiness.{SawActive}
use cluster_stack_provider_o.NodeImage.Readiness.Reconcile.{
  load_image_next, reconcile_ready_needs_active,
}

abbrev O : Type 0
O = OpenStackNodeImageRelease

-- Since a history, the release asks for an image with the same options, and as long as nothing is
-- created or imported, Glance lists an image for them that is not active.
pub record IsWaiting (env : Env) (req : NamespacedName) (since : History) : Type 0 where
  pub image : OpenStackNodeImage
  pub opts : CreateOpts
  pub has_opts : image.create_opts ≡ some opts
  pub kept :
      (h : History) (r : O)
      → env.kube.get_node_image_release h req ≡ ok r
      → r.spec.image ≡ some image
  pub listed :
      (h : History) (client : Address) (pages : Address) (images : List Image)
      → writes h ≡ writes since
      → env.openstack.all_pages h client (list_opts opts) ≡ ok pages
      → env.openstack.extract_images (Call.list_images client (list_opts opts) ∷ h) pages
        ≡ ok images
      → (images ≢ []) × All (λ image. image.id ≢ "") images
  pub inactive :
      (h : History) (client : Address) (id : String) (found : Image)
      → writes h ≡ writes since
      → Listed env client opts h id
      → env.openstack.get_image (Call.list_images client (list_opts opts) ∷ h) client id ≡ ok found
      → found.status ≢ active

-- The last call is a patch to ready of a release that was not ready.
abbrev pub makes_ready : History → Bool
makes_ready (Call.patch_node_image_release before after ∷ past) =
    after.status.ready && not before.status.ready
makes_ready h = false

never_made_ready :
    (h : History)
    → ((before after : O) (past : History)
        → h ≡ Call.patch_node_image_release before after ∷ past
        → after.status.ready ≡ true
        → before.status.ready ≡ true)
    → makes_ready h ≡ false
never_made_ready (Call.patch_node_image_release before after ∷ past) was =
    ground (arith, was before after past refl)
never_made_ready h was = ground arith

module _ (env : Env) (minutes : ℤ) (req : NamespacedName) (since : History) where
  -- So many reconciliations, one after the other.
  abbrev pub runs : ℕ → History
  runs zero = since
  runs (suc n) = (reconcile env minutes req (runs n)).1

module _ (env : Env) (req : NamespacedName) (since : History) (waiting : IsWaiting env req since)
    (minutes : ℤ) where
  abbrev Quiet : {A : Type 0} → Session O → Flow A × Session O → Type 0
  Quiet s r = writes s.history ≡ writes since → writes r.1.history ≡ writes since

  found_named :
      (client : Address) (h : History) {id : String}
      → writes h ≡ writes since
      → Listed env client waiting.opts h id
      → id ≢ ""
  found_named client h {id} quiet seen unnamed =
      let (some_there, named) =
        waiting.listed h client seen.pages seen.images quiet seen.paged seen.extracted in
      some_there
        (choose_image-eq-nil env waiting.opts seen.images named (seen.chosen ∙ ap ok unnamed))

  -- A stage that writes nothing, and then one that is quiet.
  andthen_Quiet :
      {A B : Type 0} (m : Body O A) (f : A → Body O B) (s : Session O)
      → writes (m s).1.history ≡ writes s.history
      → ((a : A) (s' : Session O) → m s ≡ (next a, s') → Quiet s' (f a s'))
      → Quiet s ((m >>= f) s)
  andthen_Quiet m f s first rest quiet =
      bind_cases (λ r. writes r.1.history ≡ writes since) m f s (λ a s' e. rest a s' e (cc))
        (λ o s' e. cc) (λ s' e. cc)

  with_client-Quiet :
      (client : Address) (wanted : OpenStackNodeImage × CreateOpts) (s : Session O)
      → wanted.1 ≡ waiting.opts
      → Quiet s (with_client env minutes client wanted s)
  unfolding with_client
  with_client-Quiet client wanted s same quiet =
      andthen_Quiet (find_image env client wanted.1) _ s (find_image-writes env client wanted.1 s)
        (λ id s' e later.
          let seen = find_image-Listed env client wanted.1 s e in
          let named =
            found_named client s.history quiet
              (subst (λ o. Listed env client o s.history id) same seen) in
          drive_image_found env minutes client wanted.0 wanted.1 id s' named ∙ later)
        quiet

  with_cloud-Quiet :
      (found : Cloud × Option Bytes) (s : Session O)
      → s.object.spec.image ≡ some waiting.image
      → Quiet s (with_cloud env minutes found s)
  unfolding with_cloud
  with_cloud-Quiet found s kept =
      andthen_Quiet (connect env found.0 found.1) _ s (connect-writes env found s) λ client s₁ e₁.
        andthen_Quiet load_image _ s₁ (load_image-writes env s₁) λ wanted s₂ e₂.
          let (image, opts) = load_image_next env s₁ e₂ in
          let frames = connect-Frames env found s in
          with_client-Quiet client wanted s₂ (cc (waiting.has_opts))

  reconcile_body-Quiet :
      (s : Session O)
      → s.object.spec.image ≡ some waiting.image
      → Quiet s (reconcile_body env minutes s)
  unfolding reconcile_body
  reconcile_body-Quiet s kept =
      andthen_Quiet (load_cloud env) _ s (load_cloud-writes env s)
        λ found s₁ e₁. let frames = load_cloud-Frames env s in with_cloud-Quiet found s₁ (cc)

  finish-Quiet :
      (before : O) (r : Flow Outcome × Session O)
      → writes r.1.history ≡ writes since
      → writes (finish env (resource env) before r).1 ≡ writes since
  unfolding finish
  finish-Quiet before r quiet = quiet

  reconcile-writes :
      (h : History)
      → writes h ≡ writes since
      → writes (reconcile env minutes req h).1 ≡ writes since
  unfolding reconcile
  reconcile-writes h quiet =
      reconcile_with_cases env (resource env) (λ r. writes r.1 ≡ writes since) _ req h (λ o. quiet)
        (λ before e. quiet)
        λ before got.
          finish-Quiet before _ (reconcile_body-Quiet _ (waiting.kept _ before got) quiet)

  runs-writes : (n : ℕ) → writes (runs env minutes req since n) ≡ writes since
  runs-writes zero = refl
  runs-writes (suc n) = reconcile-writes (runs env minutes req since n) (runs-writes n)

  -- The release that is patched is the one that was read.
  abbrev PatchesKept : Exit × History → Type 0
  PatchesKept r =
      (before after : O) (past : History)
      → r.1 ≡ Call.patch_node_image_release before after ∷ past
      → before.spec.image ≡ some waiting.image

  finish-PatchesKept :
      (read : O) (r : Flow Outcome × Session O)
      → read.spec.image ≡ some waiting.image
      → PatchesKept (finish env (resource env) read r)
  unfolding finish
  finish-PatchesKept read r kept before after past made = cc

  reconcile-PatchesKept : (h : History) → PatchesKept (reconcile env minutes req h)
  unfolding reconcile
  reconcile-PatchesKept h =
      reconcile_with_cases env (resource env) PatchesKept _ req h (λ o before after past made. cc)
        (λ read e before after past made. cc)
        λ read got. finish-PatchesKept read _ (waiting.kept _ read got)

  not_shown_active :
      (client : Address) (past : History)
      → writes past ≡ writes since
      → ¬ (SawActive env client waiting.opts past)
  not_shown_active client past quiet saw =
      waiting.inactive saw.before client saw.id saw.shown.image (sym saw.shown.quiet ∙ quiet)
        saw.listed saw.shown.answered saw.shown.is_active

  -- A patch to ready is of a release that was ready when it was read.
  patch_was_ready :
      (n : ℕ) (before after : O) (past : History)
      → runs env minutes req since (suc n) ≡ Call.patch_node_image_release before after ∷ past
      → after.status.ready ≡ true
      → before.status.ready ≡ true
  patch_was_ready n before after past made ready =
      let quiet : writes past ≡ writes since = sym (ap writes made) ∙ runs-writes (suc n) in
      let kept = reconcile-PatchesKept (runs env minutes req since n) before after past made in
      elim (reconcile_ready_needs_active env minutes req (runs env minutes req since n) before after
        past made ready) [
          | inl was ↦ was
          | inr saw ↦
              let same : saw.opts ≡ waiting.opts =
                cc (kept, saw.has_image, saw.has_opts, waiting.has_opts) in
              absurd (
                not_shown_active saw.client past quiet
                  (subst (λ o. SawActive env saw.client o past) same saw.saw))
        ]

  -- If the release keeps its image, and as long as nothing is created or imported, Glance lists some
  -- images for its options, all with an id, and shows none of them as active, then however often
  -- `Reconcile` is called, and however its other calls are answered, it creates and imports nothing,
  -- and it does not end with a patch that makes the release ready.
  pub runs-makes_ready :
      (n : ℕ)
      → (writes (runs env minutes req since n) ≡ writes since)
        × (makes_ready (runs env minutes req since (suc n)) ≡ false)
  runs-makes_ready n =
      (runs-writes n, never_made_ready (runs env minutes req since (suc n)) (patch_was_ready n))
