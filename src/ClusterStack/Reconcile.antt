-- ===== src/ClusterStack/Reconcile.antt =====
-- `OpenStackClusterStackReleaseReconciler.Reconcile`, put together from its parts.
use cluster_stack_provider_o.Base.{String, Bool, if◌then◌else◌}
use cluster_stack_provider_o.Api.{
  NamespacedName, OpenStackClusterStackRelease, cluster_stack_release_object,
}
use cluster_stack_provider_o.Runtime.Errors.{Outcome}
use cluster_stack_provider_o.Runtime.Calls.{Release, Call, History}
use cluster_stack_provider_o.Runtime.Env.{Env}
use cluster_stack_provider_o.Runtime.Body.{◌>>=◌, Body}
use cluster_stack_provider_o.Runtime.Reconcile.{Resource, Exit, reconcile_with}
use cluster_stack_provider_o.ClusterStack.Download.{load_release, fetch_release}
use cluster_stack_provider_o.ClusterStack.NodeImages.{use_release}

module _ (env : Env) where
  abbrev pub resource : Resource OpenStackClusterStackRelease
  resource = record {
    kind = "OpenStackClusterStackRelease";
    get_call = Call.get_cluster_stack_release;
    get = env.kube.get_cluster_stack_release;
    patch_call = Call.patch_cluster_stack_release;
    patch = env.kube.patch_cluster_stack_release;
  }

  -- A release that is to be downloaded is only used by a later reconciliation.
  unfoldable pub with_release : Release × Bool → Body OpenStackClusterStackRelease Outcome
  with_release (release, download) =
      if download then fetch_release env release else use_release env release

  -- Lines 105 to 216.
  unfoldable pub reconcile_body : String → Body OpenStackClusterStackRelease Outcome
  reconcile_body release_directory = do
    found ← load_release env release_directory
    with_release found

  unfoldable pub reconcile : String → NamespacedName → History → Exit × History
  reconcile release_directory = reconcile_with env resource (reconcile_body release_directory)
