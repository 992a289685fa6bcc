-- ===== src/Api/Reason.antt =====
-- The reasons of api/v1alpha1/conditions_const.go, without `Reason` behind the name.
use cluster_stack_provider_o.Base.{String}

abbrev pub release_assets_not_downloaded_yet : String
release_assets_not_downloaded_yet = "ReleaseAssetsNotDownloadedYet"

abbrev pub issue_with_release_assets : String
issue_with_release_assets = "IssueWithReleaseAssets"

abbrev pub process_ongoing : String
process_ongoing = "ProcessOngoing"

abbrev pub failed_create_assets_client : String
failed_create_assets_client = "FailedCreateAssetsClient"

abbrev pub cloud_not_set : String
cloud_not_set = "CloudNotSet"

abbrev pub secret_not_found : String
secret_not_found = "SecretNotFound"

abbrev pub open_stack_image_service_client_not_set : String
open_stack_image_service_client_not_set = "OpenStackImageServiceClientNotSet"

abbrev pub open_stack_image_import_not_start : String
open_stack_image_import_not_start = "OpenStackImageImportNotStartReason"

abbrev pub open_stack_image_not_created_yet : String
open_stack_image_not_created_yet = "OpenStackImageNotCreateYet"

abbrev pub open_stack_image_not_imported_yet : String
open_stack_image_not_imported_yet = "OpenStackImageNotImportedYet"

abbrev pub open_stack_image_import_time_out : String
open_stack_image_import_time_out = "OpenStackImageImportTimeOutReason"

abbrev pub issue_with_open_stack_image : String
issue_with_open_stack_image = "IssueWithOpenStackImage"
