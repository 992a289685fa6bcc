-- ===== src/Examples/Settings.antt =====
-- The settings that the runs choose from.
use cluster_stack_provider_o.Base.{true, false, none, some, [], ◌∷◌}
use cluster_stack_provider_o.Runtime.Errors.{external, ok, err}
use cluster_stack_provider_o.Runtime.Calls.{ImageStatus, History}
use cluster_stack_provider_o.Examples.World.{
  Setting, secret, auth, glance_image, node_image_release, owner,
}

-- Glance has the image, and shows it as active; the cluster stack's only node image is ready.
abbrev pub done : Setting
done = record {
  secret_answer = ok secret;
  auth_answer = some auth;
  listed_images = glance_image ImageStatus.active ∷ [];
  image_status = ImageStatus.active;
  download = false;
  node_image_releases = node_image_release true (owner ∷ []) ∷ node_image_release false [] ∷ [];
}

-- Glance has no image.
abbrev pub fresh : Setting
fresh = record done { listed_images = [] }

abbrev pub without_secret : Setting
without_secret = record done { secret_answer = err (external "not found") }

-- The options for the login cannot be built.
abbrev pub without_auth : Setting
without_auth = record done { auth_answer = none }

-- The assets of the release are still to be downloaded.
abbrev pub missing : Setting
missing = record done { download = true }

-- The history without its latest call.
abbrev pub past : History → History
past [] = []
past (c ∷ h) = h
