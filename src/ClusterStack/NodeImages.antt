-- ===== src/ClusterStack/NodeImages.antt =====
-- `Reconcile` where the assets are there: an OpenStackNodeImageRelease for each node image, and the
-- readiness of all that are owned (lines 155 to 217).
use cluster_stack_provider_o.Base.{String, ◌<>◌, true, false, Option, List, [], ◌∷◌, if◌then◌else◌}
use cluster_stack_provider_o.Api.{
  OwnerReference, OpenStackNodeImage, OpenStackNodeImageRelease, OpenStackClusterStackRelease,
  Severity, cluster_stack_release_object,
}
use cluster_stack_provider_o.Api.ConditionType
use cluster_stack_provider_o.Api.Reason
use cluster_stack_provider_o.Api.Constants.{wait_for_node_image_releases_become_ready}
use cluster_stack_provider_o.Runtime.Errors.{
  Outcome, Try, wrap, ok, err, empty, requeue_in, returns, fails,
}
use cluster_stack_provider_o.Runtime.Calls.{Release}
use cluster_stack_provider_o.Runtime.Env.{Env}
use cluster_stack_provider_o.Runtime.Body.{
  ◌>>=◌, Body, ◌>>◌, pure, return, deref, get, call, mark_true, mark_false, set_ready, eventf,
}
use cluster_stack_provider_o.ClusterStack.Tag.{cut_release_version}
use cluster_stack_provider_o.ClusterStack.Owner.{
  generate_owner_reference, create_or_update, get_owned,
}
use cluster_stack_provider_o.ClusterStack.Assets.{get_node_images_from_local}

abbrev O : Type 0
O = OpenStackClusterStackRelease

-- `fmt.Sprintf("%s-%s-%s", nameWithoutVersion, image, version)`
unfoldable pub node_image_release_name : String → String → String → String
node_image_release_name base image version = base <> ("-" <> (image <> ("-" <> version)))

-- `if err != nil { return ctrl.Result{}, fmt.Errorf("<text>: %w", err) }`
abbrev or_return : {A : Type 0} → String → Try A → Body O A
or_return message (ok a) = pure a
or_return message (err e) = return (fails (wrap message e))

module _ (env : Env) where
  -- Lines 155 to 160.
  unfoldable pub load_node_images : Release → Body O (List (Option OpenStackNodeImage))
  load_node_images release = do
    mark_true env ConditionType.cluster_stack_release_assets_ready
    found ← call (get_node_images_from_local env release.local_download_path)
    or_return "failed to get node images from local" found

  -- One round of the loop, lines 164 to 178.
  unfoldable pub ensure_node_image :
      Release → OwnerReference → Option OpenStackNodeImage → Body O (Unit {0})
  ensure_node_image release owner node_image = do
    r ← get
    base ← or_return "failed to cut release tag" (cut_release_version r.metadata.name)
    image ← deref node_image
    opts ← deref image.create_opts
    let name = node_image_release_name base opts.name release.node_image_version
    done ← call (create_or_update env r name image owner)
    or_return
        ("failed to create or update OpenStackNodeImageRelease "
          <> (r.metadata.namespace <> ("/" <> name)))
        done

  unfoldable pub ensure_node_images :
      Release → OwnerReference → List (Option OpenStackNodeImage) → Body O (Unit {0})
  ensure_node_images release owner [] = pure tt
  ensure_node_images release owner (image ∷ images) =
      ensure_node_image release owner image >> ensure_node_images release owner images

  -- Lines 187 to 194, and 202 to 208.
  not_ready : Body O Outcome
  not_ready = do
    mark_false env ConditionType.open_stack_node_image_releases_ready Reason.process_ongoing
        Severity.info "OpenStackNodeImageReleases not ready yet"
    set_ready false
    return (returns (requeue_in wait_for_node_image_releases_become_ready))

  -- Lines 211 to 216.
  all_ready : Body O Outcome
  all_ready = do
    mark_true env ConditionType.open_stack_node_image_releases_ready
    eventf "OpenStackNodeImageReleasesReady" "OpenStackNodeImageRelease objects are ready" []
    set_ready true
    pure (returns empty)

  -- The loop that stops at the first one that is not ready, lines 196 to 216.
  unfoldable pub await_owned : List OpenStackNodeImageRelease → Body O Outcome
  unfolding not_ready all_ready
  await_owned [] = all_ready
  await_owned (n ∷ ns) = let rest = await_owned ns in if n.status.ready then rest else not_ready

  -- Lines 186 to 216.
  unfoldable pub report : List OpenStackNodeImageRelease → Body O Outcome
  unfolding not_ready await_owned
  report [] = not_ready
  report (n ∷ ns) = await_owned (n ∷ ns)

  -- Lines 181 to 184.
  unfoldable pub list_owned : Body O (List OpenStackNodeImageRelease)
  list_owned = do
    r ← get
    listed ← call (get_owned env r)
    or_return "failed to get owned OpenStackNodeImageReleases" listed

  -- Lines 181 to 216.
  unfoldable pub check_owned : Body O Outcome
  check_owned = do owned ← list_owned; report owned

  -- Lines 155 to 216.
  unfoldable pub use_release : Release → Body O Outcome
  use_release release = do
    node_images ← load_node_images release
    r ← get
    ensure_node_images release (generate_owner_reference r) node_images
    check_owned
