-- ===== src/Api/Constants.antt =====
-- The constants of the two controllers.
use cluster_stack_provider_o.Base.{ℕ, String, ◌*◌}

-- `time.Second` and `time.Minute`, in nanoseconds
abbrev pub second : ℕ
second = 1000000000

abbrev pub minute : ℕ
minute = 60 * second

-- `waitForImageBecomeActive`, and `waitForOpenStackNodeImageReleasesBecomeReady`
abbrev pub wait_for_image_become_active : ℕ
wait_for_image_become_active = 30 * second

abbrev pub wait_for_node_image_releases_become_ready : ℕ
wait_for_node_image_releases_become_ready = 30 * second

abbrev pub default_cloud_name : String
default_cloud_name = "openstack"

abbrev pub cloud_name_secret_key : String
cloud_name_secret_key = "cloudName"

abbrev pub clouds_secret_key : String
clouds_secret_key = "clouds.yaml"

abbrev pub ca_secret_key : String
ca_secret_key = "cacert"

abbrev pub node_images_file_name : String
node_images_file_name = "node-images.yaml"
