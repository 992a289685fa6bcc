-- ===== src/NodeImage/Reconcile.antt =====
-- `OpenStackNodeImageReleaseReconciler.Reconcile`, put together from its parts.
use cluster_stack_provider_o.Base.{String, Option, ◌=s◌, if◌then◌else◌}
use cluster_stack_provider_o.Base.Int.{ℤ}
use cluster_stack_provider_o.Api.{
  NamespacedName, OpenStackNodeImageRelease, OpenStackNodeImage, CreateOpts,
  node_image_release_object,
}
use cluster_stack_provider_o.Runtime.Errors.{Outcome}
use cluster_stack_provider_o.Runtime.Calls.{Address, Bytes, Cloud, Call, History}
use cluster_stack_provider_o.Runtime.Env.{Env}
use cluster_stack_provider_o.Runtime.Body.{◌>>=◌, Body, pure, deref, get}
use cluster_stack_provider_o.Runtime.Reconcile.{Resource, Exit, reconcile_with}
use cluster_stack_provider_o.NodeImage.Connect.{load_cloud, connect, find_image}
use cluster_stack_provider_o.NodeImage.Import.{start_import}
use cluster_stack_provider_o.NodeImage.Await.{await_image}

-- `Spec.Image` and its `CreateOpts`, as the argument of `getImageID` is read.
unfoldable pub load_image : Body OpenStackNodeImageRelease (OpenStackNodeImage × CreateOpts)
load_image = do
  r ← get
  image ← deref r.spec.image
  opts ← deref image.create_opts
  pure (image, opts)

module _ (env : Env) where
  abbrev pub resource : Resource OpenStackNodeImageRelease
  resource = record {
    kind = "OpenStackNodeImageRelease";
    get_call = Call.get_node_image_release;
    get = env.kube.get_node_image_release;
    patch_call = Call.patch_node_image_release;
    patch = env.kube.patch_node_image_release;
  }

  -- `image_import_timeout` is in minutes. "" stands for no image.
  module _ (image_import_timeout : ℤ) where
    unfoldable pub drive_image :
        Address → OpenStackNodeImage → CreateOpts → String → Body OpenStackNodeImageRelease Outcome
    drive_image client image opts id =
        if id =s ""
        then start_import env client image opts
        else await_image env image_import_timeout client opts id

    -- Lines 184 to 328.
    unfoldable pub with_client :
        Address → OpenStackNodeImage × CreateOpts → Body OpenStackNodeImageRelease Outcome
    with_client client wanted = do
      id ← find_image env client wanted.1
      drive_image client wanted.0 wanted.1 id

    -- Lines 129 to 328.
    unfoldable pub with_cloud : Cloud × Option Bytes → Body OpenStackNodeImageRelease Outcome
    with_cloud found = do
      client ← connect env found.0 found.1
      wanted ← load_image
      with_client client wanted

    -- Lines 103 to 328.
    unfoldable pub reconcile_body : Body OpenStackNodeImageRelease Outcome
    reconcile_body = do found ← load_cloud env; with_cloud found

    unfoldable pub reconcile : NamespacedName → History → Exit × History
    reconcile = reconcile_with env resource reconcile_body
