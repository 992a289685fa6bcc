-- ===== src/ClusterStack/Frame.antt =====
-- What `Reconcile` leaves alone in the release that it patches.
use cluster_stack_provider_o.Base.{
  String, Bool, ◌≡◌, refl, ◌∙◌, ◌∷◌, [], List, Option, arith, Bool-cases, inl, inr,
}
use cluster_stack_provider_o.Api.{
  OwnerReference, OpenStackNodeImage, OpenStackNodeImageRelease, OpenStackClusterStackRelease,
  NamespacedName, cluster_stack_release_object,
}
use cluster_stack_provider_o.Runtime.Errors.{Outcome}
use cluster_stack_provider_o.Runtime.Calls.{Release, Call, History}
use cluster_stack_provider_o.Runtime.Env.{Env}
use cluster_stack_provider_o.Runtime.Body.{Session, Flow}
use cluster_stack_provider_o.Runtime.Relations.{relate_andthen}
use cluster_stack_provider_o.Runtime.Reconcile.{Exit, finish, reconcile_with_cases}
use cluster_stack_provider_o.ClusterStack.Owner.{generate_owner_reference}
use cluster_stack_provider_o.ClusterStack.Download.{
  load_release, fetch_release, new_assets_client, download,
}
use cluster_stack_provider_o.ClusterStack.NodeImages.{
  load_node_images, ensure_node_image, ensure_node_images, await_owned, report, list_owned,
  check_owned, use_release,
}
use cluster_stack_provider_o.ClusterStack.Reconcile.{
  with_release, reconcile_body, reconcile, resource,
}

abbrev O : Type 0
O = OpenStackClusterStackRelease

-- The second release differs from the first in its status alone.
abbrev pub SameButStatus : O → O → Type 0
SameButStatus a b = (b.type_meta ≡ a.type_meta) × (b.metadata ≡ a.metadata) × (b.spec ≡ a.spec)

abbrev Frames : Session O → Session O → Type 0
Frames s t = SameButStatus s.object t.object

pub SameButStatus-trans : (a b c : O) → SameButStatus a b → SameButStatus b c → SameButStatus a c
SameButStatus-trans _ _ _ (a, b, c) (d, e, f) = (d ∙ a, e ∙ b, f ∙ c)

frames : (r s t : Session O) → Frames r s → Frames s t → Frames r t
frames r s t = SameButStatus-trans r.object s.object t.object

module _ (env : Env) where
  pub load_release-Frames :
      (directory : String) (s : Session O) → Frames s (load_release env directory s).1
  unfolding load_release
  load_release-Frames directory s = (ground arith, ground arith, ground arith)

  fetch_release-Frames :
      (release : Release) (s : Session O) → Frames s (fetch_release env release s).1
  unfolding fetch_release new_assets_client download
  fetch_release-Frames release s = (ground arith, ground arith, ground arith)

  pub load_node_images-Frames :
      (release : Release) (s : Session O) → Frames s (load_node_images env release s).1
  unfolding load_node_images
  load_node_images-Frames release s = (ground arith, ground arith, ground arith)

  pub ensure_node_image-Frames :
      (release : Release) (owner : OwnerReference) (image : Option OpenStackNodeImage)
      (s : Session O)
      → Frames s (ensure_node_image env release owner image s).1
  unfolding ensure_node_image
  ensure_node_image-Frames release owner image s = (ground arith, ground arith, ground arith)

  ensure_node_images-Frames :
      (release : Release) (owner : OwnerReference) (images : List (Option OpenStackNodeImage))
      (s : Session O)
      → Frames s (ensure_node_images env release owner images s).1
  unfolding ensure_node_images
  ensure_node_images-Frames release owner [] s = (refl, refl, refl)
  ensure_node_images-Frames release owner (image ∷ images) s =
      relate_andthen Frames frames (ensure_node_image env release owner image) _ s
        (ensure_node_image-Frames release owner image s)
        λ a s'. ensure_node_images-Frames release owner images s'

  await_owned-Frames :
      (owned : List OpenStackNodeImageRelease) (s : Session O)
      → Frames s (await_owned env owned s).1
  unfolding await_owned
  await_owned-Frames [] s = (refl, refl, refl)
  await_owned-Frames (n ∷ ns) s = elim (Bool-cases n.status.ready) [
    | inl e ↦ rw e (await_owned-Frames ns s)
    | inr e ↦ rw e (refl, refl, refl)
  ]

  report-Frames :
      (owned : List OpenStackNodeImageRelease) (s : Session O) → Frames s (report env owned s).1
  unfolding report
  report-Frames [] s = (refl, refl, refl)
  report-Frames (n ∷ ns) s = await_owned-Frames (n ∷ ns) s

  list_owned-Frames : (s : Session O) → Frames s (list_owned env s).1
  unfolding list_owned
  list_owned-Frames s = (ground arith, ground arith, ground arith)

  check_owned-Frames : (s : Session O) → Frames s (check_owned env s).1
  unfolding check_owned
  check_owned-Frames s =
      relate_andthen Frames frames (list_owned env) _ s (list_owned-Frames s)
        λ owned s'. report-Frames owned s'

  use_release-Frames : (release : Release) (s : Session O) → Frames s (use_release env release s).1
  unfolding use_release
  use_release-Frames release s =
      relate_andthen Frames frames (load_node_images env release) _ s
        (load_node_images-Frames release s)
        λ images s₁.
          let owner = generate_owner_reference s₁.object in
          relate_andthen Frames frames (ensure_node_images env release owner images) _ s₁
            (ensure_node_images-Frames release owner images s₁) λ _ s₂. check_owned-Frames s₂

  with_release-Frames :
      (found : Release × Bool) (s : Session O) → Frames s (with_release env found s).1
  unfolding with_release
  with_release-Frames (release, wanted) s = elim (Bool-cases wanted) [
    | inl e ↦ rw e (fetch_release-Frames release s)
    | inr e ↦ rw e (use_release-Frames release s)
  ]

  reconcile_body-Frames :
      (directory : String) (s : Session O) → Frames s (reconcile_body env directory s).1
  unfolding reconcile_body
  reconcile_body-Frames directory s =
      relate_andthen Frames frames (load_release env directory) _ s
        (load_release-Frames directory s) λ found s'. with_release-Frames found s'

  abbrev PatchFrames : Exit × History → Type 0
  PatchFrames (exit, h) =
      (before after : O) (past : History)
      → h ≡ Call.patch_cluster_stack_release before after ∷ past
      → SameButStatus before after

  finish-PatchFrames :
      (before : O) (r : Flow Outcome × Session O)
      → SameButStatus before r.1.object
      → PatchFrames (finish env (resource env) before r)
  unfolding finish
  finish-PatchFrames before (flow, s) (a, b, c) first after past made = (cc, cc, cc)

  -- The patch of a reconciliation changes nothing but the status of the release that was read.
  pub reconcile_patches_status_only :
      (directory : String) (req : NamespacedName) (h : History) (before after : O) (past : History)
      → (reconcile env directory req h).1 ≡ Call.patch_cluster_stack_release before after ∷ past
      → SameButStatus before after
  unfolding reconcile
  reconcile_patches_status_only directory req h =
      reconcile_with_cases env (resource env) PatchFrames _ req h (λ o before after past made. cc)
        (λ found e before after past made. cc)
        λ before got. finish-PatchFrames before _ (reconcile_body-Frames directory _)
