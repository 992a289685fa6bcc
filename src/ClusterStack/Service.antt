-- ===== src/ClusterStack/Service.antt =====
-- What is relied on where a cluster stack release is to become ready: an API server, a release
-- server, a file system, and node image releases that become ready.
use cluster_stack_provider_o.Base.{
  ℕ, ◌≤◌, ◌<◌, String, ◌≡◌, ◌≢◌, ◌⊎◌, Bool, true, false, Option, some, List, ◌∷◌, arith, keep, All,
  subst, sym,
}
use cluster_stack_provider_o.Api.{
  NamespacedName, ReleaseStatus, CreateOpts, OpenStackNodeImage, OpenStackNodeImageRelease,
  OpenStackClusterStackRelease,
}
use cluster_stack_provider_o.Runtime.Errors.{Error, ok, err}
use cluster_stack_provider_o.Runtime.Calls.{Address, Bytes, Release, Call, History}
use cluster_stack_provider_o.Runtime.Env.{Env}
use cluster_stack_provider_o.Runtime.Later.{is_barred, IsAfter, same, more}
use cluster_stack_provider_o.ClusterStack.Tag.{cut_release_version}
use cluster_stack_provider_o.ClusterStack.Owner.{is_owned}
use cluster_stack_provider_o.ClusterStack.Readiness.{is_complete}
use cluster_stack_provider_o.ClusterStack.Ownership.{writes}
use cluster_stack_provider_o.ClusterStack.Loop.{EnsuresAll}

abbrev O : Type 0
O = OpenStackClusterStackRelease

-- A node image that is there, with its options.
abbrev pub IsWhole : Option OpenStackNodeImage → Type 0
IsWhole node_image =
    (image : OpenStackNodeImage) × (opts : CreateOpts) × (node_image ≡ some image)
    × (image.create_opts ≡ some opts)

-- The API server keeps the release, though not its status, and serves the node image releases.
pub record IsServed (env : Env) (req : NamespacedName) (release : O) : Type 0 where
  pub get :
      (h : History)
      → (status : ReleaseStatus) × (env.kube.get_cluster_stack_release h req
          ≡ ok (record release { status = status }))
  pub new_patch_helper : (h : History) (name : String) → env.kube.new_patch_helper h name ≡ ok tt
  pub patch : (h : History) (a b : O) → env.kube.patch_cluster_stack_release h a b ≡ ok tt
  pub find :
      (h : History) (key : NamespacedName)
      → ((n : OpenStackNodeImageRelease) × (env.kube.get_node_image_release h key ≡ ok n))
        ⊎ ((e : Error) × (env.kube.get_node_image_release h key ≡ err e)
            × (env.kube.is_not_found e ≡ true))
  pub create :
      (h : History) (n : OpenStackNodeImageRelease) → env.kube.create_node_image_release h n ≡ ok tt
  pub update :
      (h : History) (n : OpenStackNodeImageRelease) → env.kube.update_node_image_release h n ≡ ok tt

-- The release server gives the assets, which stay in the file system until they are removed; they
-- name whole node images, and the release's name is a tag.
pub record HasAssets (env : Env) (directory : String) (release : O) : Type 0 where
  pub missing : History → Bool
  pub place : Release
  pub client : Address
  pub content : Bytes
  pub images : List (Option OpenStackNodeImage)
  pub base : String
  pub new_release :
      (h : History)
      → env.assets.new_release h release.metadata.name directory ≡ ok (place, missing h)
  pub new_assets_client : (h : History) → env.assets.new_assets_client h ≡ ok client
  pub download :
      (h : History)
      → env.assets.download_release_assets h client release.metadata.name place.local_download_path
        ≡ ok tt
  pub downloaded :
      (h : History)
      → missing
          (Call.download_release_assets client release.metadata.name place.local_download_path ∷ h)
        ≡ false
  pub stays :
      (h : History) (c : Call) → is_barred c ≡ false → missing h ≡ false → missing (c ∷ h) ≡ false
  pub read_file : (h : History) (path : String) → env.assets.read_file h path ≡ ok content
  pub readable : env.yaml.unmarshal_node_images content ≡ ok images
  pub whole : All IsWhole images
  pub tagged : cut_release_version release.metadata.name ≡ ok base

-- The last writes of a history ensure the node images of the release, one for each; whatever the
-- status of the release was then.
pub record IsEnsured (env : Env) (release : O) (place : Release)
    (images : List (Option OpenStackNodeImage)) (h : History) : Type 0 where
  pub status : ReleaseStatus
  pub before : List Call
  pub all : EnsuresAll env (record release { status = status }) place images before (writes h)

-- The node image releases become ready once they are ensured: in how many listings at most all that
-- are owned are, with at least one among them.
pub record BecomeReady (env : Env) (release : O) (place : Release)
    (images : List (Option OpenStackNodeImage)) : Type 0 where
  pub left : History → ℕ
  pub list :
      (h : History)
      → (items : List OpenStackNodeImageRelease) × (env.kube.list_node_image_releases h
            release.metadata.namespace
          ≡ ok items)
  pub progress :
      (h : History) (items : List OpenStackNodeImageRelease)
      → IsEnsured env release place images h
      → env.kube.list_node_image_releases h release.metadata.namespace ≡ ok items
      → (is_complete (keep (is_owned env release) items) ≡ true)
        ⊎ ((is_complete (keep (is_owned env release) items) ≡ false) × (left h ≢ 0))
  pub left_never_grows : (h : History) (c : Call) → left (c ∷ h) ≤ left h
  pub listed :
      (h : History)
      → left h ≢ 0
      → left (Call.list_node_image_releases release.metadata.namespace ∷ h) < left h

pub IsEnsured-same :
    {env : Env} {release : O} {place : Release} {images : List (Option OpenStackNodeImage)}
    {a b : History}
    → writes b ≡ writes a
    → IsEnsured env release place images a
    → IsEnsured env release place images b
IsEnsured-same {env} {release} {place} {images} unchanged ensured = record {
  status = ensured.status;
  before = ensured.before;
  all =
      subst
        (EnsuresAll env (record release { status = ensured.status }) place images ensured.before)
        (sym unchanged) ensured.all;
}

pub IsAfter-left :
    {env : Env} {release : O} {place : Release} {images : List (Option OpenStackNodeImage)}
    (ready : BecomeReady env release place images) {a b : History}
    → IsAfter a b
    → ready.left b ≤ ready.left a
IsAfter-left ready same = omega arith
IsAfter-left ready (more {h'} c stays then) =
    omega (arith, ready.left_never_grows h' c, IsAfter-left ready then)

pub IsAfter-stays :
    {env : Env} {directory : String} {release : O} (assets : HasAssets env directory release)
    {a b : History}
    → IsAfter a b
    → assets.missing a ≡ false
    → assets.missing b ≡ false
IsAfter-stays assets same there = there
IsAfter-stays assets (more {h'} c kept then) there =
    assets.stays h' c kept (IsAfter-stays assets then there)
