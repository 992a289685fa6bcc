-- ===== src/ClusterStack/Download.antt =====
-- `Reconcile` up to the assets: the release is read, or downloaded first (lines 105 to 153).
use cluster_stack_provider_o.Base.{String, Bool, true, [], ◌∷◌}
use cluster_stack_provider_o.Api.{
  OpenStackClusterStackRelease, Severity, cluster_stack_release_object,
}
use cluster_stack_provider_o.Api.ConditionType
use cluster_stack_provider_o.Api.Reason
use cluster_stack_provider_o.Api.Constants.{minute}
use cluster_stack_provider_o.Runtime.Errors.{
  Outcome, Try, text, ok, err, empty, requeue_in, returns,
}
use cluster_stack_provider_o.Runtime.Calls.{Address, Release, Call}
use cluster_stack_provider_o.Runtime.Env.{Env}
use cluster_stack_provider_o.Runtime.Task
use cluster_stack_provider_o.Runtime.Body.{
  ◌>>=◌, ◌>>◌, Session, Body, pure, return, get, call, note, deferring, mark_true, mark_false,
  eventf, warnf,
}
use cluster_stack_provider_o.ClusterStack.Assets.{download_release_assets}

abbrev O : Type 0
O = OpenStackClusterStackRelease

module _ (env : Env) where
  keep_release : Try (Release × Bool) → Body O (Release × Bool)
  keep_release (ok found) = pure found
  keep_release (err e) = do
    mark_false env ConditionType.cluster_stack_release_assets_ready Reason.issue_with_release_assets
        Severity.error (text e)
    warnf "IssueWithReleaseAssets" (text e)
    return (returns (requeue_in minute))

  -- Lines 105 to 119: the release, and whether it is to be downloaded. The tag is the name.
  unfoldable pub load_release : String → Body O (Release × Bool)
  unfolding keep_release
  load_release directory = do
    r ← get
    found ← call (
        Task.ask (Call.new_release r.metadata.name directory)
          (λ h. env.assets.new_release h r.metadata.name directory))
    keep_release found

  keep_assets_client : Try Address → Body O Address
  keep_assets_client (ok client) = do
    mark_true env ConditionType.assets_client_api_available
    pure client
  keep_assets_client (err e) = do
    mark_false env ConditionType.assets_client_api_available Reason.failed_create_assets_client
        Severity.error (text e)
    warnf "FailedCreateAssetsClient" (text e)
    return (returns empty)

  -- Lines 122 to 137.
  unfoldable pub new_assets_client : Body O Address
  unfolding keep_assets_client
  new_assets_client = do
    mark_false env ConditionType.cluster_stack_release_assets_ready
        Reason.release_assets_not_downloaded_yet Severity.info "assets not downloaded yet"
    found ← call (Task.ask Call.new_assets_client env.assets.new_assets_client)
    keep_assets_client found

  keep_download : String → Try (Unit {0}) → Body O Outcome
  keep_download tag (ok _) = do
    eventf "ClusterStackReleaseAssetsReady" "successfully downloaded ClusterStackReleaseAssets %q"
        (tag ∷ [])
    pure (returns (record { requeue = true; requeue_after = 0 }))
  keep_download tag (err e) = return (returns (requeue_in minute))

  -- Lines 145 to 152, inside the lock.
  unfoldable pub download : Release → Address → Body O Outcome
  unfolding keep_download
  download release client = do
    r ← get
    downloaded ←
        call (download_release_assets env r.metadata.name release.local_download_path client)
    keep_download r.metadata.name downloaded

  -- `defer Unlock()`
  abbrev unlock : Session O → Session O
  unlock s = record s { history = Call.unlock ∷ s.history }

  -- Lines 122 to 153.
  unfoldable pub fetch_release : Release → Body O Outcome
  fetch_release release = do
    client ← new_assets_client
    note Call.lock
    deferring unlock (download release client)
