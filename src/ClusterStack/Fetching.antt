-- ===== src/ClusterStack/Fetching.antt =====
-- What `Reconcile` does where the assets are missing, for each way in which the calls are answered.
use cluster_stack_provider_o.Base.{String, ◌≡◌, refl, true, Option, some, [], ◌∷◌, arith}
use cluster_stack_provider_o.Api.{OpenStackClusterStackRelease, cluster_stack_release_object}
use cluster_stack_provider_o.Api.Constants.{minute}
use cluster_stack_provider_o.Runtime.Errors.{
  Outcome, Try, ok, err, text, empty, requeue_in, returns,
}
use cluster_stack_provider_o.Runtime.Calls.{Address, Release, Call, History}
use cluster_stack_provider_o.Runtime.Env.{Env}
use cluster_stack_provider_o.Runtime.Body.{Session, outcome_of}
use cluster_stack_provider_o.ClusterStack.Assets.{download_release_assets}
use cluster_stack_provider_o.ClusterStack.Download.{fetch_release, new_assets_client, download}

abbrev O : Type 0
O = OpenStackClusterStackRelease

-- From the lock on: what is returned, and the calls.
abbrev pub downloaded :
    String → String → Address → History → Try (Unit {0}) → Option Outcome × History
downloaded tag path client h (ok _) = (
  some (returns (record { requeue = true; requeue_after = 0 })),
  Call.unlock
      ∷ Call.event tag "ClusterStackReleaseAssetsReady"
          "successfully downloaded ClusterStackReleaseAssets %q" (tag ∷ [])
      ∷ Call.download_release_assets client tag path
      ∷ Call.lock
      ∷ h,
)
downloaded tag path client h (err e) = (
  some (returns (requeue_in minute)),
  Call.unlock ∷ Call.remove_all path ∷ Call.download_release_assets client tag path ∷ Call.lock ∷ h,
)

module _ (env : Env) where
  -- All of it, by the answer to the making of the client.
  abbrev pub fetched : String → String → History → Try Address → Option Outcome × History
  fetched tag path h (err e) = (
    some (returns empty),
    Call.warning tag "FailedCreateAssetsClient" (text e) [] ∷ Call.new_assets_client ∷ h,
  )
  fetched tag path h (ok client) =
      let made = Call.new_assets_client ∷ h in
      downloaded tag path client made
        (env.assets.download_release_assets (Call.lock ∷ made) client tag path)

  fetch_release_with :
      (release : Release) (s : Session O) (client : Try Address)
      → env.assets.new_assets_client s.history ≡ client
      → let r = fetch_release env release s in
        (outcome_of r.0, r.1.history)
        ≡ fetched s.object.metadata.name release.local_download_path s.history client
  unfolding fetch_release new_assets_client download download_release_assets
  fetch_release_with release s (err e) made = ground arith
  fetch_release_with release s (ok client) made = go _ refl
    where
      go :
          (t : Try (Unit {0}))
          → env.assets.download_release_assets
              (Call.lock ∷ Call.new_assets_client ∷ s.history)
              client
              s.object.metadata.name
              release.local_download_path
            ≡ t
          → let r = fetch_release env release s in
            (outcome_of r.0, r.1.history)
            ≡ fetched s.object.metadata.name release.local_download_path s.history (ok client)
      go (ok _) e = ground arith
      go (err x) e = ground arith

  -- Where the assets are missing, `Reconcile` returns in all cases. Without an assets client it
  -- takes no lock, warns and does not come back. Otherwise it locks, downloads and unlocks: after a
  -- download it comes back at once, and after a failed one it has first removed the directory,
  -- whatever that removal was answered, and comes back in a minute.
  pub fetch_release-fetched :
      (release : Release) (s : Session O)
      → let r = fetch_release env release s in
        (outcome_of r.0, r.1.history)
        ≡ fetched s.object.metadata.name release.local_download_path s.history
            (env.assets.new_assets_client s.history)
  fetch_release-fetched release s =
      fetch_release_with release s (env.assets.new_assets_client s.history) refl
