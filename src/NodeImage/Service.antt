-- ===== src/NodeImage/Service.antt =====
-- An API server and an OpenStack that serve one node image release: what is relied on where its
-- image is to become active.
use cluster_stack_provider_o.Base.{
  ℕ, ◌≤◌, ◌<◌, String, ◌≡◌, ◌≢◌, ◌⊎◌, true, false, Option, none, some, List, [], ◌∷◌, arith,
}
use cluster_stack_provider_o.Api.{
  NamespacedName, OpenStackNodeImageRelease, CreateOpts, ReleaseStatus, node_image_release_object,
}
use cluster_stack_provider_o.Runtime.Errors.{ok}
use cluster_stack_provider_o.Runtime.Calls.{
  Address, Bytes, Secret, Cloud, AuthOptions, Image, active, Call, History,
}
use cluster_stack_provider_o.Runtime.Env.{Env}
use cluster_stack_provider_o.NodeImage.Cloud.{client_opts, tls_config}
use cluster_stack_provider_o.NodeImage.Glance.{list_opts}
use cluster_stack_provider_o.NodeImage.Verdict.{is_pending}
use cluster_stack_provider_o.NodeImage.Safety.{IsComplete}
use cluster_stack_provider_o.NodeImage.Secrets.{key_of, cloud_in}
use cluster_stack_provider_o.Runtime.Later.{is_barred, Called, IsAfter, same, more}

abbrev O : Type 0
O = OpenStackNodeImageRelease

-- The images that a listing shows where at most one fits.
abbrev pub to_list : Option Image → List Image
to_list none = []
to_list (some image) = image ∷ []

-- The API server keeps the release and its secret, though not its status; the login succeeds.
pub record IsServed (env : Env) (req : NamespacedName) (release : O) : Type 0 where
  pub get :
      (h : History)
      → (status : ReleaseStatus) × (env.kube.get_node_image_release h req
          ≡ ok (record release { status = status }))
  pub new_patch_helper : (h : History) (name : String) → env.kube.new_patch_helper h name ≡ ok tt
  pub patch : (h : History) (a b : O) → env.kube.patch_node_image_release h a b ≡ ok tt
  pub complete : IsComplete release.spec
  pub secret : Secret
  pub found : Cloud × Option Bytes
  pub auth : AuthOptions
  pub provider : Address
  pub client : Address
  pub get_secret :
      (h : History)
      → env.kube.get_secret h (key_of release.metadata.namespace complete.identity.name) ≡ ok secret
  pub has_cloud : cloud_in env secret ≡ some found
  pub auth_options : (h : History) → env.openstack.auth_options h (client_opts found.0) ≡ some auth
  pub new_client : env.openstack.new_client auth.identity_endpoint ≡ some provider
  pub authenticate :
      (h : History)
      → env.openstack.authenticate h provider
          (tls_config env found.0 found.1)
          (record auth { allow_reauth = true })
        ≡ ok tt
  pub new_image_client :
      (h : History) → env.openstack.new_image_client h provider (found.0).region_name ≡ ok client

-- Glance, as one client sees it: the image for the options, if there is one, and in how many looks
-- at it at most it is active. It comes with a creation only, Glance keeps it, and once it is imported
-- from the URL, each look at it brings it nearer.
pub record Glance (env : Env) (client : Address) (opts : CreateOpts) (url : String) : Type 0 where
  pub held : History → Option Image
  pub left : History → ℕ
  pub id : String
  pub named : id ≢ ""
  pub held_id : (h : History) {image : Image} → held h ≡ some image → image.id ≡ id
  pub list :
      (h : History)
      → (pages : Address) × (env.openstack.all_pages h client (list_opts opts) ≡ ok pages)
        × (env.openstack.extract_images (Call.list_images client (list_opts opts) ∷ h) pages
            ≡ ok (to_list (held h)))
  pub get :
      (h : History) {image : Image}
      → held h ≡ some image
      → env.openstack.get_image h client id ≡ ok image
  pub create :
      (h : History)
      → (image : Image) × (env.openstack.create_image h client opts ≡ ok image) × (image.id ≡ id)
  pub import_image :
      (h : History) (image_id uri : String)
      → env.openstack.import_image h client image_id uri ≡ ok tt
  pub created : (h : History) → held (Call.create_image client opts ∷ h) ≢ none
  pub kept : (h : History) (c : Call) → held h ≢ none → held (c ∷ h) ≢ none
  pub absent : (h : History) (c : Call) → is_barred c ≡ false → held h ≡ none → held (c ∷ h) ≡ none
  pub settles :
      (h : History) {image : Image}
      → held h ≡ some image
      → Called (Call.import_image client id url) h
      → (image.status ≡ active) ⊎ ((is_pending image.status ≡ true) × (left h ≢ 0))
  pub left_never_grows : (h : History) (c : Call) → left (c ∷ h) ≤ left h
  pub looked : (h : History) → left h ≢ 0 → left (Call.get_image client id ∷ h) < left h

module _ {env : Env} {client : Address} {opts : CreateOpts} {url : String}
    (glance : Glance env client opts url) where
  -- The image was imported from the URL.
  abbrev pub IsImported : History → Type 0
  IsImported = Called (Call.import_image client glance.id url)

  pub IsAfter-kept : {a b : History} → IsAfter a b → glance.held a ≢ none → glance.held b ≢ none
  IsAfter-kept same held = held
  IsAfter-kept (more {h'} c stays then) held = glance.kept h' c (IsAfter-kept then held)

  pub IsAfter-absent : {a b : History} → IsAfter a b → glance.held a ≡ none → glance.held b ≡ none
  IsAfter-absent same absent = absent
  IsAfter-absent (more {h'} c stays then) absent =
      glance.absent h' c stays (IsAfter-absent then absent)

  pub IsAfter-left : {a b : History} → IsAfter a b → glance.left b ≤ glance.left a
  IsAfter-left same = omega arith
  IsAfter-left (more {h'} c stays then) =
      omega (arith, glance.left_never_grows h' c, IsAfter-left then)
