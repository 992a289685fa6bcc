-- ===== src/Runtime/Calls.antt =====
-- The calls that leave the program, with their arguments, and the data that they exchange.
-- An address stands for a pointer into a library's own data.
use cluster_stack_provider_o.Base.{ℕ, String, Bool, Option, List}
use cluster_stack_provider_o.Api.{
  NamespacedName, CreateOpts, OpenStackNodeImageRelease, OpenStackClusterStackRelease,
}

abbrev pub Address : Type 0
Address = ℕ

abbrev pub Bytes : Type 0
Bytes = List ℕ

-- `corev1.Secret.Data`, a map
abbrev pub Secret : Type 0
Secret = List (String × Bytes)

-- `clientconfig.Cloud`, the fields that the controller reads.
pub record Cloud : Type 0 where
  pub auth_info : Option Address
  pub auth_type : String
  pub region_name : String
  pub endpoint_type : String
  pub verify : Option Bool

-- `clientconfig.ClientOpts`, the fields that the controller sets.
pub record ClientOpts : Type 0 where
  pub auth_info : Option Address
  pub auth_type : String
  pub region_name : String
  pub endpoint_type : String

-- `gophercloud.AuthOptions`, the fields that the controller reads or sets, and the others.
pub record AuthOptions : Type 0 where
  pub identity_endpoint : String
  pub allow_reauth : Bool
  pub others : Address

-- `tls.Config` with `MinVersion` TLS 1.2
pub record TlsConfig : Type 0 where
  pub insecure_skip_verify : Bool
  pub root_cas : Option Bytes

-- `images.ListOpts`; a field that is not set is empty.
pub record ListOpts : Type 0 where
  pub id : String
  pub name : String
  pub tags : List String

-- `images.ImageStatus`: the listed constants, and any other text.
pub data ImageStatus : Type 0 where
  queued saving active killed deleted pending_delete deactivated importing : ImageStatus
  unlisted : String → ImageStatus

pub record Image : Type 0 where
  pub id : String
  pub name : String
  pub status : ImageStatus

-- `release.Release`: where it lies, and `Meta.Versions.Components.NodeImage`.
pub record Release : Type 0 where
  pub local_download_path : String
  pub node_image_version : String

pub data Call : Type 0 where
  get_node_image_release get_cluster_stack_release get_secret : NamespacedName → Call
  create_node_image_release update_node_image_release : OpenStackNodeImageRelease → Call
  list_node_image_releases : String → Call
  new_patch_helper : String → Call
  patch_node_image_release : OpenStackNodeImageRelease → OpenStackNodeImageRelease → Call
  patch_cluster_stack_release : OpenStackClusterStackRelease → OpenStackClusterStackRelease → Call
  -- the object's name, the reason, the format and its arguments
  event warning : String → String → String → List String → Call
  auth_options : ClientOpts → Call
  authenticate : Address → TlsConfig → AuthOptions → Call
  new_image_client : Address → String → Call
  list_images : Address → ListOpts → Call
  create_image : Address → CreateOpts → Call
  -- the image's id, and the URI for the method `web-download`
  import_image : Address → String → String → Call
  get_image : Address → String → Call
  new_release : String → String → Call
  new_assets_client lock unlock : Call
  download_release_assets : Address → String → String → Call
  remove_all read_file : String → Call

-- All calls so far, the latest first.
abbrev pub History : Type 0
History = List Call
