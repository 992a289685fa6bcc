-- ===== src/Examples/Together.antt =====
-- Both controllers on one API server and one Glance that keep what they are given: from a release
-- that has just been created until it is ready.
use cluster_stack_provider_o.Base.{◌≡◌, refl, true, false, List, [], ◌∷◌}
use cluster_stack_provider_o.Base.Int.{pos}
use cluster_stack_provider_o.Base.Split.{split}
use cluster_stack_provider_o.Api.{OpenStackNodeImageRelease, OpenStackClusterStackRelease}
use cluster_stack_provider_o.Runtime.Errors.{Try, ok, err, external}
use cluster_stack_provider_o.Runtime.Calls.{Image, ImageStatus, Call, History}
use cluster_stack_provider_o.Runtime.Env.{Env}
use cluster_stack_provider_o.Runtime.Reconcile.{reconcile_with}
use cluster_stack_provider_o.ClusterStack.Tag.{cut_release_version, cut_parts}
use cluster_stack_provider_o.ClusterStack.Owner.{
  generate_owner_reference, match_owner_reference, create_or_update, get_owned, collect_owned,
  append_owned, is_owned, adopt, new_node_image_release,
}
use cluster_stack_provider_o.ClusterStack.Assets.{get_node_images_from_local}
use cluster_stack_provider_o.ClusterStack.Download.{load_release}
use cluster_stack_provider_o.ClusterStack.NodeImages.{
  load_node_images, ensure_node_image, ensure_node_images, await_owned, report, list_owned,
  check_owned, use_release, node_image_release_name,
}
use cluster_stack_provider_o.ClusterStack.Reconcile.{
  with_release, reconcile_body as cluster_stack_body, reconcile as reconcile_cluster_stack,
}
use cluster_stack_provider_o.NodeImage.Cloud.{get_cloud_from_secret, client_opts, tls_config}
use cluster_stack_provider_o.NodeImage.Glance.{list_opts, get_image_id, choose_image}
use cluster_stack_provider_o.NodeImage.Connect.{load_cloud, connect, find_image}
use cluster_stack_provider_o.NodeImage.Import.{
  announce, create_wanted, import_created, start_import,
}
use cluster_stack_provider_o.NodeImage.Await.{
  await_image, fetch_image, check_timeout, exceeds, judge,
}
use cluster_stack_provider_o.NodeImage.Reconcile.{
  load_image, drive_image, with_client, with_cloud, reconcile_body as node_image_body,
  reconcile as reconcile_node_image,
}
use cluster_stack_provider_o.NodeImage.Writes.{writes}
use cluster_stack_provider_o.Examples.Settings.{done}
use cluster_stack_provider_o.Examples.World.{world, cluster_stack, glance_image, req, opts}

-- The one OpenStackNodeImageRelease, as it was last written.
abbrev stored : History → List OpenStackNodeImageRelease
stored [] = []
stored (Call.create_node_image_release n ∷ h) = n ∷ []
stored (Call.update_node_image_release n ∷ h) = n ∷ []
stored (Call.patch_node_image_release before after ∷ h) = after ∷ []
stored (_ ∷ h) = stored h

abbrev found : List OpenStackNodeImageRelease → Try OpenStackNodeImageRelease
found [] = err (external "not found")
found (n ∷ ns) = ok n

-- The release, as it was last patched.
abbrev latest : History → OpenStackClusterStackRelease
latest [] = cluster_stack
latest (Call.patch_cluster_stack_release before after ∷ h) = after
latest (_ ∷ h) = latest h

-- The images, as far as they were created; they are active at once.
abbrev images : History → List Image
images [] = []
images (Call.create_image client wanted ∷ h) = glance_image ImageStatus.active ∷ []
images (_ ∷ h) = images h

abbrev keeping : Env
keeping = record (world done) {
  kube = record (world done).kube {
    get_node_image_release = λ h key. found (stored h);
    get_cluster_stack_release = λ h key. ok (latest h);
    list_node_image_releases = λ h namespace. ok (stored h);
  };
  openstack = record (world done).openstack { extract_images = λ h pages. ok (images h) };
}

abbrev on_cluster_stack : History → History
on_cluster_stack h = (reconcile_cluster_stack keeping "/tmp" req h).1

abbrev on_node_image : History → History
on_node_image h = (reconcile_node_image keeping (pos 60) req h).1

-- After one reconciliation of each, nothing is ready; the image is created and its import started.
-- After a second one of each, the release is ready, and nothing more was written to Glance.
ready_run :
    let begun = on_node_image (on_cluster_stack []) in
    let finished = on_cluster_stack (on_node_image begun) in
    let written =
      Call.import_image 2 "f00" "https://images/ubuntu.qcow2" ∷ Call.create_image 2 opts ∷ [] in
    ((latest begun).status.ready ≡ false)
    × (writes begun ≡ written)
    × ((latest finished).status.ready ≡ true)
    × (writes finished ≡ written)
unfolding reconcile_cluster_stack cluster_stack_body reconcile_with load_release with_release
    use_release load_node_images get_node_images_from_local ensure_node_images ensure_node_image
    cut_release_version split cut_parts node_image_release_name create_or_update adopt
    generate_owner_reference new_node_image_release check_owned list_owned get_owned collect_owned
    append_owned is_owned match_owner_reference report await_owned reconcile_node_image
    node_image_body load_cloud get_cloud_from_secret with_cloud connect client_opts tls_config
    load_image with_client find_image get_image_id list_opts choose_image drive_image start_import
    announce create_wanted import_created await_image fetch_image check_timeout exceeds judge
ready_run = (refl, refl, refl, refl)
