-- ===== src/Runtime/Env.antt =====
-- What the program does not implement. Each call is answered by a function of all the calls before
-- it, so that the answers may change in any way between two calls.
use cluster_stack_provider_o.Base.{ℕ, String, Bool, Option, List}
use cluster_stack_provider_o.Api.{
  NamespacedName, CreateOpts, OpenStackNodeImage, OpenStackNodeImageRelease,
  OpenStackClusterStackRelease, OwnerReference, TypeMeta, Conditions, Severity,
}
use cluster_stack_provider_o.Runtime.Errors.{Error, Try}
use cluster_stack_provider_o.Runtime.Calls.{
  Address, Bytes, Secret, Cloud, ClientOpts, AuthOptions, TlsConfig, ListOpts, Image, Release,
  History,
}

-- The client of controller-runtime, `patch.Helper`, `apierrors` and the owner references of
-- Cluster API.
pub record Kube : Type 0 where
  pub get_node_image_release : History → NamespacedName → Try OpenStackNodeImageRelease
  pub get_cluster_stack_release : History → NamespacedName → Try OpenStackClusterStackRelease
  pub get_secret : History → NamespacedName → Try Secret
  pub create_node_image_release : History → OpenStackNodeImageRelease → Try (Unit {0})
  pub update_node_image_release : History → OpenStackNodeImageRelease → Try (Unit {0})
  pub list_node_image_releases : History → String → Try (List OpenStackNodeImageRelease)
  pub new_patch_helper : History → String → Try (Unit {0})
  pub patch_node_image_release :
      History → OpenStackNodeImageRelease → OpenStackNodeImageRelease → Try (Unit {0})
  pub patch_cluster_stack_release :
      History → OpenStackClusterStackRelease → OpenStackClusterStackRelease → Try (Unit {0})
  pub is_not_found : Error → Bool
  pub ensure_owner_ref : List OwnerReference → OwnerReference → List OwnerReference
  -- `schema.ParseGroupVersion(s)`: the group, or an error
  pub parse_group : String → Option String
  -- `GroupVersionKind().Group`
  pub kind_group : TypeMeta → String

-- The package `conditions` of Cluster API. A condition is stamped with the time of the history.
pub record ConditionsLib : Type 0 where
  pub mark_true : History → String → Conditions → Conditions
  pub mark_false : History → String → String → Severity → String → Conditions → Conditions
  pub set_summary : History → Conditions → Conditions
  pub is_true : String → Conditions → Bool
  pub get_last_transition_time : String → Conditions → Option ℕ

-- `sigs.k8s.io/yaml`, at the three types that are read.
pub record Yaml : Type 0 where
  pub unmarshal_text : Bytes → Try String
  pub unmarshal_clouds : Bytes → Try (List (String × Cloud))
  pub unmarshal_node_images : Bytes → Try (List (Option OpenStackNodeImage))

-- gophercloud, its `clientconfig`, and `crypto/x509`.
pub record OpenStack : Type 0 where
  -- nil if `clientconfig.AuthOptions` fails; its error is dropped
  pub auth_options : History → ClientOpts → Option AuthOptions
  -- nil if `openstack.NewClient` fails; its error is dropped
  pub new_client : String → Option Address
  pub append_certs_from_pem : Bytes → Bool
  pub authenticate : History → Address → TlsConfig → AuthOptions → Try (Unit {0})
  pub new_image_client : History → Address → String → Try Address
  pub all_pages : History → Address → ListOpts → Try Address
  pub extract_images : History → Address → Try (List Image)
  pub create_image : History → Address → CreateOpts → Try Image
  pub import_image : History → Address → String → String → Try (Unit {0})
  pub get_image : History → Address → String → Try Image

-- The packages `release` and `assetsclient` of cluster-stack-operator, and the file system.
pub record Assets : Type 0 where
  -- the release, and whether it is still to be downloaded
  pub new_release : History → String → String → Try (Release × Bool)
  pub new_assets_client : History → Try Address
  pub download_release_assets : History → Address → String → String → Try (Unit {0})
  pub remove_all : History → String → Try (Unit {0})
  pub read_file : History → String → Try Bytes
  pub join_path : String → String → String

pub record Env : Type 0 where
  pub kube : Kube
  pub conditions : ConditionsLib
  pub yaml : Yaml
  pub openstack : OpenStack
  pub assets : Assets
  -- `time.Now()`, in nanoseconds since Go's zero time
  pub now : History → ℕ
