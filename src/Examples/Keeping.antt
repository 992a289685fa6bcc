-- ===== src/Examples/Keeping.antt =====
-- A Glance that keeps its images, and the theorem on creations in it.
use cluster_stack_provider_o.Base.{
  ◌≡◌, ◌≢◌, refl, subst, Bool, true, false, List, [], ◌∷◌, All, if◌then◌else◌, arith,
}
use cluster_stack_provider_o.Base.Int.{pos}
use cluster_stack_provider_o.Api.{CreateOpts}
use cluster_stack_provider_o.Runtime.Errors.{ok}
use cluster_stack_provider_o.Runtime.Calls.{Address, Image, ImageStatus, Call, History}
use cluster_stack_provider_o.Runtime.Env.{Env}
use cluster_stack_provider_o.Runtime.Reconcile.{reconcile_with}
use cluster_stack_provider_o.NodeImage.Cloud.{get_cloud_from_secret, client_opts, tls_config}
use cluster_stack_provider_o.NodeImage.Glance.{list_opts, get_image_id, choose_image}
use cluster_stack_provider_o.NodeImage.Connect.{load_cloud, connect, find_image}
use cluster_stack_provider_o.NodeImage.Import.{
  announce, create_wanted, import_created, start_import,
}
use cluster_stack_provider_o.NodeImage.Await.{await_image, fetch_image, check_timeout, judge}
use cluster_stack_provider_o.NodeImage.Reconcile.{
  load_image, drive_image, with_client, with_cloud, reconcile_body as node_image_body,
  reconcile as reconcile_node_image,
}
use cluster_stack_provider_o.NodeImage.Writes.{writes}
use cluster_stack_provider_o.NodeImage.Creations.{creations, AllNamed}
use cluster_stack_provider_o.System.Runs.{start, node_image}
use cluster_stack_provider_o.Runtime.Attempts.{HasMade, IsSingle}
use cluster_stack_provider_o.System.Once.{SameImage, Keeps, IsReachable-IsSingle}
use cluster_stack_provider_o.Examples.Settings.{fresh}
use cluster_stack_provider_o.Examples.World.{world, glance_image, req, opts}

-- Some creation was asked for.
abbrev was_asked : History → Bool
was_asked [] = false
was_asked (Call.create_image client wanted ∷ h) = true
was_asked (_ ∷ h) = was_asked h

abbrev shown : Bool → List Image
shown asked = if asked then glance_image ImageStatus.queued ∷ [] else []

abbrev keeping : Env
keeping = record (world fresh) {
  openstack = record (world fresh).openstack {
    extract_images = λ h pages. ok (shown (was_asked h));
  };
}

HasMade-was_asked :
    {k : Address × CreateOpts} (h : History)
    → HasMade (SameImage (λ client. 0)) k (creations keeping h)
    → was_asked h ≡ true
HasMade-was_asked [] had = elim had [ ]
HasMade-was_asked (Call.create_image client wanted ∷ h) had = refl
HasMade-was_asked (_ ∷ h) had = HasMade-was_asked h had

keeping-Keeps : Keeps (λ client. 0) keeping
keeping-Keeps h client pages wanted had paged empty =
    let asked = HasMade-was_asked h had in ground arith

ok_inj : {a b : List Image} → ok a ≡ ok b → a ≡ b
ok_inj e = cc

shown-All : (asked : Bool) → All (λ image. image.id ≢ "") (shown asked)
shown-All true = ((λ e. cc), tt)
shown-All false = tt

keeping-AllNamed : AllNamed keeping
keeping-AllNamed h pages images e =
    subst (All (λ image. image.id ≢ "")) (ok_inj e) (shown-All (was_asked h))

-- The same reconciliation twice: the second one finds the image of the first.
abbrev twice : History
twice =
    (reconcile_node_image keeping (pos 60) req (reconcile_node_image keeping (pos 60) req []).1).1

-- One image is created in all, and its import is started once.
twice_run :
    writes twice
    ≡ Call.import_image 2 "f00" "https://images/ubuntu.qcow2" ∷ Call.create_image 2 opts ∷ []
unfolding reconcile_node_image reconcile_with node_image_body load_cloud get_cloud_from_secret
    with_cloud connect client_opts tls_config load_image with_client find_image get_image_id
    list_opts choose_image drive_image start_import announce create_wanted import_created
    await_image fetch_image check_timeout judge
twice_run = refl

IsReachable-IsSingle_example : IsSingle (SameImage (λ client. 0)) (creations keeping twice)
IsReachable-IsSingle_example =
    IsReachable-IsSingle (λ client. 0) keeping (pos 60) "/tmp" twice keeping-AllNamed keeping-Keeps
      (node_image req _ (node_image req [] start))
