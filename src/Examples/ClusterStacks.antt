-- ===== src/Examples/ClusterStacks.antt =====
-- Runs of the cluster stack controller, and its theorems at concrete data.
use cluster_stack_provider_o.Base.{
  ◌≡◌, refl, ◌⊎◌, ◌↔◌, inr, true, false, some, List, [], ◌∷◌, ◌++◌, All,
}
use cluster_stack_provider_o.Api.{
  OpenStackNodeImageRelease, OpenStackClusterStackRelease, node_image_release_object,
  cluster_stack_release_object,
}
use cluster_stack_provider_o.Runtime.Errors.{is_ok, ok}
use cluster_stack_provider_o.Runtime.Calls.{Call, History, Release}
use cluster_stack_provider_o.Runtime.Body.{Session, outcome_of}
use cluster_stack_provider_o.Runtime.Reconcile.{reconcile_with}
use cluster_stack_provider_o.ClusterStack.TagLaws.{
  cut_release_version-dashes, cut_release_version-base_of,
}
use cluster_stack_provider_o.ClusterStack.Ownership.{
  writes as release_writes, Recognises, WritesOwned, get_owned-keep, Names, create_or_update-writes,
  create_or_update_owned,
}
use cluster_stack_provider_o.ClusterStack.Readiness.{SawAllReady}
use mathlib.Core.List.Perm
use cluster_stack_provider_o.ClusterStack.Fetching.{fetched, fetch_release-fetched}
use cluster_stack_provider_o.ClusterStack.Progress.{Settles, reconcile_body-Settles}
use cluster_stack_provider_o.ClusterStack.Lock.{IsOrderly, reconcile-IsOrderly}
use cluster_stack_provider_o.ClusterStack.Frame.{SameButStatus, reconcile_patches_status_only}
use cluster_stack_provider_o.ClusterStack.Loop.{EnsuresAll, ensure_node_images-EnsuresAll}
use cluster_stack_provider_o.ClusterStack.Order.{judged, judged-Perm}
use cluster_stack_provider_o.ClusterStack.Assets.{
  download_release_assets, get_node_images_from_local,
}
use cluster_stack_provider_o.ClusterStack.Download.{
  fetch_release, new_assets_client, download, load_release,
}
use cluster_stack_provider_o.ClusterStack.Tag.{cut_release_version, cut_parts}
use cluster_stack_provider_o.Base.Split.{split}
use cluster_stack_provider_o.ClusterStack.Owner.{
  generate_owner_reference, match_owner_reference, adopt, create_or_update, is_owned, collect_owned,
  get_owned, append_owned,
}
use cluster_stack_provider_o.ClusterStack.NodeImages.{
  load_node_images, ensure_node_image, ensure_node_images, report, list_owned, check_owned,
  use_release,
}
use cluster_stack_provider_o.ClusterStack.Reconcile.{
  with_release, reconcile as reconcile_cluster_stack, reconcile_body as cluster_stack_body,
}
use cluster_stack_provider_o.ClusterStack.Readiness.Reconcile.{reconcile_ready_needs_all}
use cluster_stack_provider_o.Examples.Settings.{done, missing, past}
use cluster_stack_provider_o.Examples.World.{
  world, node_image, node_image_release, cluster_stack, owner, req,
}

abbrev patched : History → OpenStackClusterStackRelease
patched (Call.patch_cluster_stack_release before after ∷ h) = after
patched h = cluster_stack

cluster_stack_run : History
unfolding reconcile_cluster_stack cluster_stack_body reconcile_with load_release with_release
    use_release load_node_images get_node_images_from_local ensure_node_images ensure_node_image
    cut_release_version split cut_parts create_or_update adopt generate_owner_reference check_owned
    list_owned get_owned collect_owned append_owned is_owned match_owner_reference report
cluster_stack_run = (reconcile_cluster_stack (world done) "/tmp" req []).1

reconcile_ready_needs_all_example :
    (false ≡ true) ⊎ SawAllReady (world done) (patched cluster_stack_run) (past cluster_stack_run)
unfolding cluster_stack_run
reconcile_ready_needs_all_example =
    reconcile_ready_needs_all (world done) "/tmp" req [] cluster_stack (patched cluster_stack_run)
      (past cluster_stack_run) refl refl

abbrev session : Session OpenStackClusterStackRelease
session = record { object = cluster_stack; history = [] }

recognises : Recognises (world done) cluster_stack
recognises = record { ensured = λ p refs owner h. rw h refl; parsed = refl }

create_or_update_owned_example :
    (new : List Call) × (release_writes
        (create_or_update
          (world done)
          cluster_stack
          "ubuntu"
          node_image
          (generate_owner_reference cluster_stack)
          []).1
      ≡ new ++ [])
    × All (WritesOwned (world done) cluster_stack) new
create_or_update_owned_example =
    create_or_update_owned (world done) cluster_stack recognises "ubuntu" node_image []

create_or_update-writes_example :
    release_writes (create_or_update (world done) cluster_stack "ubuntu" node_image owner []).1
    ≡ Call.update_node_image_release (node_image_release false (owner ∷ [])) ∷ []
unfolding adopt
create_or_update-writes_example =
    create_or_update-writes (world done) cluster_stack "ubuntu" node_image owner []

get_owned-keep_example :
    ((get_owned (world done) cluster_stack []).0 ≡ ok (node_image_release true (owner ∷ []) ∷ []))
    × ((n : OpenStackNodeImageRelease)
        → (is_owned (world done) cluster_stack n ≡ true)
          ↔ Names (world done) cluster_stack n.metadata.owner_references)
unfolding is_owned match_owner_reference
get_owned-keep_example = get_owned-keep (world done) cluster_stack [] refl

cut_release_version-dashes_example : is_ok (cut_release_version "openstack-ferrol-1-27-v1") ≡ true
cut_release_version-dashes_example = cut_release_version-dashes "openstack-ferrol-1-27-v1"

cut_release_version-base_of_example :
    cut_release_version "openstack-ferrol-1-27-v1-beta-2" ≡ ok "openstack-ferrol-1-27"
cut_release_version-base_of_example =
    cut_release_version-base_of "openstack" "ferrol" "1" "27" "v1-beta-2" refl refl refl refl
      (inr refl)

reconcile-IsOrderly_example : IsOrderly (reconcile_cluster_stack (world missing) "/tmp" req []).1
reconcile-IsOrderly_example = reconcile-IsOrderly (world missing) "/tmp" req [] (refl, refl)

-- The assets are downloaded under the mutex, and nothing else is done.
missing_run :
    past (reconcile_cluster_stack (world missing) "/tmp" req []).1
    ≡ Call.unlock
      ∷ Call.event "openstack-ferrol-1-27-v1" "ClusterStackReleaseAssetsReady"
          "successfully downloaded ClusterStackReleaseAssets %q"
          ("openstack-ferrol-1-27-v1" ∷ [])
      ∷ Call.download_release_assets 4 "openstack-ferrol-1-27-v1" "/tmp"
      ∷ Call.lock
      ∷ Call.new_assets_client
      ∷ Call.new_release "openstack-ferrol-1-27-v1" "/tmp"
      ∷ Call.new_patch_helper "openstack-ferrol-1-27-v1"
      ∷ Call.get_cluster_stack_release req
      ∷ []
unfolding reconcile_cluster_stack cluster_stack_body reconcile_with load_release with_release
    fetch_release new_assets_client download download_release_assets
missing_run = refl

reconcile_patches_status_only_example : SameButStatus cluster_stack (patched cluster_stack_run)
unfolding cluster_stack_run
reconcile_patches_status_only_example =
    reconcile_patches_status_only (world done) "/tmp" req [] cluster_stack
      (patched cluster_stack_run) (past cluster_stack_run) refl

abbrev release : Release
release = record { local_download_path = "/tmp"; node_image_version = "v1" }

ensured : History
unfolding ensure_node_images ensure_node_image cut_release_version split cut_parts create_or_update
    generate_owner_reference
ensured =
    (ensure_node_images (world done) release (generate_owner_reference cluster_stack)
      (some node_image ∷ []) session).1.history

ensure_node_images-EnsuresAll_example :
    EnsuresAll (world done) cluster_stack release (some node_image ∷ []) [] (release_writes ensured)
unfolding ensured
ensure_node_images-EnsuresAll_example =
    ensure_node_images-EnsuresAll (world done) cluster_stack recognises release
      (some node_image ∷ []) session refl refl

judged-Perm_example :
    let a = node_image_release true (owner ∷ []) in
    let b = node_image_release false (owner ∷ []) in
    judged (world done) cluster_stack (a ∷ b ∷ []) session
    ≡ judged (world done) cluster_stack (b ∷ a ∷ []) session
judged-Perm_example =
    judged-Perm (world done) cluster_stack
      (node_image_release true (owner ∷ []) ∷ node_image_release false (owner ∷ []) ∷ [])
      (node_image_release false (owner ∷ []) ∷ node_image_release true (owner ∷ []) ∷ []) session
      (Perm.swap (node_image_release false (owner ∷ [])) (node_image_release true (owner ∷ [])) [])

fetch_release-fetched_example :
    let r =
      fetch_release (world missing) release (record { object = cluster_stack; history = [] }) in
    (outcome_of r.0, r.1.history)
    ≡ fetched (world missing) "openstack-ferrol-1-27-v1" "/tmp" [] (ok 4)
fetch_release-fetched_example =
    fetch_release-fetched (world missing) release (record { object = cluster_stack; history = [] })

reconcile_body-Settles_example : Settles true (cluster_stack_body (world done) "/tmp" session)
unfolding load_release load_node_images get_node_images_from_local ensure_node_images
    ensure_node_image cut_release_version split cut_parts create_or_update adopt
    generate_owner_reference is_owned match_owner_reference
reconcile_body-Settles_example =
    reconcile_body-Settles (world done) "/tmp" session refl refl refl refl
