-- ===== src/System/Glance.antt =====
-- The cluster stack controller does not touch Glance.
use cluster_stack_provider_o.Base.{
  String, Bool, ◌≡◌, refl, ◌∙◌, ◌∷◌, [], List, Option, arith, Bool-cases, inl, inr,
}
use cluster_stack_provider_o.Api.{
  OwnerReference, OpenStackNodeImage, OpenStackNodeImageRelease, OpenStackClusterStackRelease,
  NamespacedName, cluster_stack_release_object,
}
use cluster_stack_provider_o.Runtime.Errors.{Outcome}
use cluster_stack_provider_o.Runtime.Calls.{Release, History}
use cluster_stack_provider_o.Runtime.Env.{Env}
use cluster_stack_provider_o.Runtime.Body.{Session, Flow}
use cluster_stack_provider_o.Runtime.Relations.{relate_andthen}
use cluster_stack_provider_o.Runtime.Reconcile.{finish, reconcile_with_cases}
use cluster_stack_provider_o.ClusterStack.Owner.{
  generate_owner_reference, create_or_update, get_owned,
}
use cluster_stack_provider_o.ClusterStack.Assets.{
  download_release_assets, get_node_images_from_local,
}
use cluster_stack_provider_o.NodeImage.Writes.{writes}
use cluster_stack_provider_o.NodeImage.Creations.{creations}
use cluster_stack_provider_o.ClusterStack.Download.{
  load_release, fetch_release, new_assets_client, download,
}
use cluster_stack_provider_o.ClusterStack.NodeImages.{
  load_node_images, ensure_node_image, ensure_node_images, await_owned, report, list_owned,
  check_owned, use_release,
}
use cluster_stack_provider_o.ClusterStack.Reconcile.{
  with_release, reconcile_body, reconcile, resource,
}

abbrev O : Type 0
O = OpenStackClusterStackRelease

module _ (env : Env) where
  abbrev Leaves : Session O → Session O → Type 0
  Leaves s t =
      (writes t.history ≡ writes s.history) × (creations env t.history ≡ creations env s.history)

  transitive : (r s t : Session O) → Leaves r s → Leaves s t → Leaves r t
  transitive r s t (a, b) (c, d) = (c ∙ a, d ∙ b)

  load_release-Leaves :
      (directory : String) (s : Session O) → Leaves s (load_release env directory s).1
  unfolding load_release
  load_release-Leaves directory s = (ground arith, ground arith)

  fetch_release-Leaves :
      (release : Release) (s : Session O) → Leaves s (fetch_release env release s).1
  unfolding fetch_release new_assets_client download download_release_assets
  fetch_release-Leaves release s = (ground arith, ground arith)

  load_node_images-Leaves :
      (release : Release) (s : Session O) → Leaves s (load_node_images env release s).1
  unfolding load_node_images get_node_images_from_local
  load_node_images-Leaves release s = (ground arith, ground arith)

  ensure_node_image-Leaves :
      (release : Release) (owner : OwnerReference) (image : Option OpenStackNodeImage)
      (s : Session O)
      → Leaves s (ensure_node_image env release owner image s).1
  unfolding ensure_node_image create_or_update
  ensure_node_image-Leaves release owner image s = (ground arith, ground arith)

  ensure_node_images-Leaves :
      (release : Release) (owner : OwnerReference) (images : List (Option OpenStackNodeImage))
      (s : Session O)
      → Leaves s (ensure_node_images env release owner images s).1
  unfolding ensure_node_images
  ensure_node_images-Leaves release owner [] s = (refl, refl)
  ensure_node_images-Leaves release owner (image ∷ images) s =
      relate_andthen Leaves transitive (ensure_node_image env release owner image) _ s
        (ensure_node_image-Leaves release owner image s)
        λ a s'. ensure_node_images-Leaves release owner images s'

  await_owned-Leaves :
      (owned : List OpenStackNodeImageRelease) (s : Session O)
      → Leaves s (await_owned env owned s).1
  unfolding await_owned
  await_owned-Leaves [] s = (refl, refl)
  await_owned-Leaves (n ∷ ns) s = elim (Bool-cases n.status.ready) [
    | inl e ↦ rw e (await_owned-Leaves ns s)
    | inr e ↦ rw e (refl, refl)
  ]

  report-Leaves :
      (owned : List OpenStackNodeImageRelease) (s : Session O) → Leaves s (report env owned s).1
  unfolding report
  report-Leaves [] s = (refl, refl)
  report-Leaves (n ∷ ns) s = await_owned-Leaves (n ∷ ns) s

  list_owned-Leaves : (s : Session O) → Leaves s (list_owned env s).1
  unfolding list_owned get_owned
  list_owned-Leaves s = (ground arith, ground arith)

  check_owned-Leaves : (s : Session O) → Leaves s (check_owned env s).1
  unfolding check_owned
  check_owned-Leaves s =
      relate_andthen Leaves transitive (list_owned env) _ s (list_owned-Leaves s)
        λ owned s'. report-Leaves owned s'

  use_release-Leaves : (release : Release) (s : Session O) → Leaves s (use_release env release s).1
  unfolding use_release
  use_release-Leaves release s =
      relate_andthen Leaves transitive (load_node_images env release) _ s
        (load_node_images-Leaves release s)
        λ images s₁.
          let owner = generate_owner_reference s₁.object in
          relate_andthen Leaves transitive (ensure_node_images env release owner images) _ s₁
            (ensure_node_images-Leaves release owner images s₁) λ _ s₂. check_owned-Leaves s₂

  with_release-Leaves :
      (found : Release × Bool) (s : Session O) → Leaves s (with_release env found s).1
  unfolding with_release
  with_release-Leaves (release, wanted) s = elim (Bool-cases wanted) [
    | inl e ↦ rw e (fetch_release-Leaves release s)
    | inr e ↦ rw e (use_release-Leaves release s)
  ]

  reconcile_body-Leaves :
      (directory : String) (s : Session O) → Leaves s (reconcile_body env directory s).1
  unfolding reconcile_body
  reconcile_body-Leaves directory s =
      relate_andthen Leaves transitive (load_release env directory) _ s
        (load_release-Leaves directory s) λ found s'. with_release-Leaves found s'

  finish-Leaves :
      (before : O) (r : Flow Outcome × Session O) (h : History)
      → (writes r.1.history ≡ writes h) × (creations env r.1.history ≡ creations env h)
      → (writes (finish env (resource env) before r).1 ≡ writes h)
        × (creations env (finish env (resource env) before r).1 ≡ creations env h)
  unfolding finish
  finish-Leaves before r h same = same

  reconcile-Leaves :
      (directory : String) (req : NamespacedName) (h : History)
      → (writes (reconcile env directory req h).1 ≡ writes h)
        × (creations env (reconcile env directory req h).1 ≡ creations env h)
  unfolding reconcile
  reconcile-Leaves directory req h =
      reconcile_with_cases env (resource env)
        (λ r. (writes r.1 ≡ writes h) × (creations env r.1 ≡ creations env h)) _ req h
        (λ o. (refl, refl)) (λ found e. (refl, refl))
        λ before got. finish-Leaves before _ h (reconcile_body-Leaves directory _)

  cluster_stack-writes :
      (directory : String) (req : NamespacedName) (h : History)
      → writes (reconcile env directory req h).1 ≡ writes h
  cluster_stack-writes directory req h = (reconcile-Leaves directory req h).0

  pub cluster_stack-creations :
      (directory : String) (req : NamespacedName) (h : History)
      → creations env (reconcile env directory req h).1 ≡ creations env h
  cluster_stack-creations directory req h = (reconcile-Leaves directory req h).1
