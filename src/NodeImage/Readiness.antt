-- ===== src/NodeImage/Readiness.antt =====
-- Why a release becomes ready: an induction over nothing but the stages of `Reconcile`.
pub mod Reconcile
use cluster_stack_provider_o.Base.{
  String, ◌≡◌, refl, ◌≢◌, ◌⊎◌, inl, inr, ◌∷◌, Bool, true, false, Option, some, arith,
}
use cluster_stack_provider_o.Base.Int.{ℤ}
use cluster_stack_provider_o.Api.{
  OpenStackNodeImageRelease, OpenStackNodeImage, CreateOpts, OpenStackNodeImageReleaseSpec,
  node_image_release_object,
}
use cluster_stack_provider_o.Runtime.Errors.{ok}
use cluster_stack_provider_o.Runtime.Calls.{
  Address, Bytes, Cloud, Image, ImageStatus, active, Call, History,
}
use cluster_stack_provider_o.Runtime.Env.{Env}
use cluster_stack_provider_o.Runtime.Body.{Session, Flow, next, Body, ◌>>=◌, bind_cases}
use cluster_stack_provider_o.NodeImage.Connect.{load_cloud, connect, find_image}
use cluster_stack_provider_o.NodeImage.Import.{
  announce, create_wanted, import_created, start_import,
}
use cluster_stack_provider_o.NodeImage.Await.{check_timeout, judge, fetch_image}
use cluster_stack_provider_o.NodeImage.Reconcile.{load_image}
use cluster_stack_provider_o.NodeImage.Listing.{Listed}
use cluster_stack_provider_o.NodeImage.Glance.{list_opts}
use cluster_stack_provider_o.NodeImage.Writes.{writes}

abbrev O : Type 0
O = OpenStackNodeImageRelease

module _ (env : Env) where
  -- After the history `past`, Glance was asked for the image, showed it as active, and one call
  -- followed, which changes no image.
  pub record Shown (client : Address) (id : String) (past h : History) : Type 0 where
    pub event : Call
    pub image : Image
    pub made : h ≡ event ∷ Call.get_image client id ∷ past
    pub answered : env.openstack.get_image past client id ≡ ok image
    pub is_active : image.status ≡ active
    pub quiet : writes h ≡ writes past

  -- Before that, the image was found by a listing with the options.
  pub record SawActive (client : Address) (opts : CreateOpts) (h : History) : Type 0 where
    pub id : String
    pub before : History
    pub listed : Listed env client opts before id
    pub named : id ≢ ""
    pub shown : Shown client id (Call.list_images client (list_opts opts) ∷ before) h

  -- The options are those of a release with the given spec.
  pub record SawOwnActive (spec : OpenStackNodeImageReleaseSpec) (h : History) : Type 0 where
    pub client : Address
    pub node_image : OpenStackNodeImage
    pub opts : CreateOpts
    pub has_image : spec.image ≡ some node_image
    pub has_opts : node_image.create_opts ≡ some opts
    pub saw : SawActive client opts h

  -- A stage that begins with readiness `before` makes the release ready only for a cause.
  abbrev pub Justified : (History → Type 0) → Bool → {A : Type 0} → Flow A × Session O → Type 0
  Justified cause before r = r.1.object.status.ready ≡ true → (before ≡ true) ⊎ cause r.1.history

  pub load_cloud-ready :
      (s : Session O) → (load_cloud env s).1.object.status.ready ≡ s.object.status.ready
  unfolding load_cloud
  load_cloud-ready s = ground arith

  pub connect-ready :
      (found : Cloud × Option Bytes) (s : Session O)
      → (connect env found.0 found.1 s).1.object.status.ready ≡ s.object.status.ready
  unfolding connect
  connect-ready found s = ground arith

  pub find_image-ready :
      (client : Address) (opts : CreateOpts) (s : Session O)
      → (find_image env client opts s).1.object.status.ready ≡ s.object.status.ready
  unfolding find_image
  find_image-ready client opts s = ground arith

  pub start_import-not_ready :
      (client : Address) (image : OpenStackNodeImage) (opts : CreateOpts) (s : Session O)
      → (start_import env client image opts s).1.object.status.ready ≡ false
  unfolding start_import announce create_wanted import_created
  start_import-not_ready client image opts s = ground arith

  pub check_timeout-ready :
      (minutes : ℤ) (image : Image) (s : Session O)
      → (check_timeout env minutes image s).1.object.status.ready ≡ s.object.status.ready
  unfolding check_timeout
  check_timeout-ready minutes image s = ground arith

  pub judge_active :
      (opts : CreateOpts) (id : String) (status : ImageStatus) (s : Session O)
      → (judge env opts id status s).1.object.status.ready ≡ true
      → (status ≡ active)
        × ((event : Call) × ((judge env opts id status s).1.history ≡ event ∷ s.history))
        × (writes (judge env opts id status s).1.history ≡ writes s.history)
  unfolding judge
  judge_active opts id active s h = (refl, (_, refl), refl)
  judge_active opts id status s h = cc

  -- A stage that leaves the readiness alone, and then one that is justified.
  pub load_image-ready :
      (s : Session O) → (load_image s).1.object.status.ready ≡ s.object.status.ready
  unfolding load_image
  load_image-ready s = ground arith

  pub andthen_Justified :
      (cause : History → Type 0) {A B : Type 0} (m : Body O A) (f : A → Body O B) (s : Session O)
      → (m s).1.object.status.ready ≡ s.object.status.ready
      → ((a : A) (s' : Session O)
          → m s ≡ (next a, s')
          → Justified cause s'.object.status.ready (f a s'))
      → Justified cause s.object.status.ready ((m >>= f) s)
  andthen_Justified cause m f s same rest =
      bind_cases (Justified cause s.object.status.ready) m f s
        (λ a s' e h. elim (rest a s' e h) [ inl r ↦ inl (cc) | inr saw ↦ inr saw ])
        (λ o s' e h. inl (cc)) (λ s' e h. inl (cc))

  pub fetch_image-ready :
      (client : Address) (id : String) (s : Session O)
      → (fetch_image env client id s).1.object.status.ready ≡ s.object.status.ready
  unfolding fetch_image
  fetch_image-ready client id s = ground arith
