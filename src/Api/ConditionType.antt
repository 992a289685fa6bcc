-- ===== src/Api/ConditionType.antt =====
-- The condition types of api/v1alpha1/conditions_const.go, without `Condition` behind the name.
use cluster_stack_provider_o.Base.{String}

abbrev pub cluster_stack_release_assets_ready : String
cluster_stack_release_assets_ready = "ClusterStackReleaseAssetsReady"

abbrev pub open_stack_node_image_releases_ready : String
open_stack_node_image_releases_ready = "OpenStackNodeImageReleasesReady"

abbrev pub assets_client_api_available : String
assets_client_api_available = "AssetsClientAPIAvailable"

abbrev pub cloud_available : String
cloud_available = "CloudAvailable"

abbrev pub open_stack_image_service_client_available : String
open_stack_image_service_client_available = "OpenStackImageServiceClientAvailable"

abbrev pub open_stack_image_import_started : String
open_stack_image_import_started = "OpenStackImageImportStarted"

abbrev pub open_stack_image_ready : String
open_stack_image_ready = "OpenStackImageActive"
