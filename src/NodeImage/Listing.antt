-- ===== src/NodeImage/Listing.antt =====
-- What the lookup of an image sees.
use cluster_stack_provider_o.Base.{String, ◌≡◌, List, ◌∷◌, arith, refl}
use cluster_stack_provider_o.Api.{OpenStackNodeImageRelease, CreateOpts}
use cluster_stack_provider_o.Runtime.Errors.{Try, ok, err}
use cluster_stack_provider_o.Runtime.Calls.{Address, Image, Call, History}
use cluster_stack_provider_o.Runtime.Env.{Env}
use cluster_stack_provider_o.Runtime.Body.{Session, next}
use cluster_stack_provider_o.NodeImage.Glance.{list_opts, get_image_id, choose_image}
use cluster_stack_provider_o.NodeImage.Connect.{find_image}

abbrev O : Type 0
O = OpenStackNodeImageRelease

module _ (env : Env) where
  -- What the lookup saw: the images that were listed, and how one was chosen.
  pub record Listed (client : Address) (opts : CreateOpts) (h : History) (id : String)
      : Type 0 where
    pub pages : Address
    pub images : List Image
    pub paged : env.openstack.all_pages h client (list_opts opts) ≡ ok pages
    pub extracted :
        env.openstack.extract_images (Call.list_images client (list_opts opts) ∷ h) pages
        ≡ ok images
    pub chosen : choose_image opts images ≡ ok id

  pub find_image-Listed :
      (client : Address) (opts : CreateOpts) (s : Session O) {id : String} {s' : Session O}
      → find_image env client opts s ≡ (next id, s')
      → Listed client opts s.history id
  unfolding find_image get_image_id
  find_image-Listed client opts s {id} h =
      on_pages (env.openstack.all_pages s.history client _) refl
    where
      on_images :
          (pages : Address) (t : Try (List Image))
          → env.openstack.all_pages s.history client (list_opts opts) ≡ ok pages
          → env.openstack.extract_images
              (Call.list_images client (list_opts opts) ∷ s.history)
              pages
            ≡ t
          → Listed client opts s.history id
      on_images pages (ok images) paged extracted = record {
        pages = pages;
        images = images;
        paged = paged;
        extracted = extracted;
        chosen = ground arith;
      }
      on_images pages (err e) paged extracted = absurd (ground arith)

      on_pages :
          (t : Try Address)
          → env.openstack.all_pages s.history client (list_opts opts) ≡ t
          → Listed client opts s.history id
      on_pages (ok pages) paged = on_images pages _ paged refl
      on_pages (err e) paged = absurd (ground arith)

  -- It is one call.
  pub find_image_next :
      (client : Address) (opts : CreateOpts) (s : Session O) {id : String} {s' : Session O}
      → find_image env client opts s ≡ (next id, s')
      → s'.history ≡ Call.list_images client (list_opts opts) ∷ s.history
  unfolding find_image get_image_id
  find_image_next client opts s h = ground arith
