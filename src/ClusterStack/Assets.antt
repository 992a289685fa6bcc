-- ===== src/ClusterStack/Assets.antt =====
-- The release assets: `downloadReleaseAssets`, `getNodeImagesFromLocal`.
use cluster_stack_provider_o.Base.{String, ◌<>◌, Option, List, ◌∷◌}
use cluster_stack_provider_o.Api.{OpenStackNodeImage}
use cluster_stack_provider_o.Api.Constants.{node_images_file_name}
use cluster_stack_provider_o.Runtime.Errors.{Try, ok, err, wrap, wrapped}
use cluster_stack_provider_o.Runtime.Calls.{Address, Call}
use cluster_stack_provider_o.Runtime.Env.{Env}
use cluster_stack_provider_o.Runtime.Task
use cluster_stack_provider_o.Runtime.Task.{◌>>=◌, ◌>>◌, Task}

module _ (env : Env) where
  open (env.assets) use {download_release_assets as fetch, remove_all, read_file, join_path}

  -- A download that failed leaves no directory behind, so that it is tried again.
  clean_up : String → Try (Unit {0}) → Task (Unit {0})
  clean_up path (ok _) = Task.lift (ok tt)
  clean_up path (err e) = do
    Task.wrapping "failed to remove release"
        (Task.ask (Call.remove_all path) (λ h. remove_all h path))
    Task.lift (err (wrap "failed to download release assets" e))

  unfoldable pub download_release_assets : String → String → Address → Task (Unit {0})
  unfolding clean_up
  download_release_assets tag path client h =
      clean_up path (fetch h client tag path) (Call.download_release_assets client tag path ∷ h)

  unfoldable pub get_node_images_from_local : String → Task (List (Option OpenStackNodeImage))
  get_node_images_from_local local_path = do
    let path = join_path local_path node_images_file_name
    content ←
        Task.wrapping ("failed to read node-images file " <> path)
          (Task.ask (Call.read_file path) (λ h. read_file h path))
    Task.lift (wrapped "failed to unmarshal node-images" (env.yaml.unmarshal_node_images content))
