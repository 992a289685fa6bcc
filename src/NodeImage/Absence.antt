-- ===== src/NodeImage/Absence.antt =====
-- When `Reconcile` creates an image: after a listing that found none.
use cluster_stack_provider_o.Base.{◌≡◌, ◌≢◌, List, [], ◌∷◌, arith, refl, All, eq_iff}
use cluster_stack_provider_o.Base.Int.{ℤ}
use cluster_stack_provider_o.Api.{OpenStackNodeImageRelease, OpenStackNodeImage, CreateOpts}
use cluster_stack_provider_o.Runtime.Errors.{ok}
use cluster_stack_provider_o.Runtime.Calls.{Address, Image, Call, History}
use cluster_stack_provider_o.Runtime.Env.{Env}
use cluster_stack_provider_o.Runtime.Body.{Session, bind_cases}
use cluster_stack_provider_o.NodeImage.Glance.{list_opts, choose_image}
use cluster_stack_provider_o.NodeImage.Connect.{find_image}
use cluster_stack_provider_o.NodeImage.Reconcile.{with_client}
use cluster_stack_provider_o.NodeImage.Writes.{writes, find_image-writes, drive_image_found}
use cluster_stack_provider_o.NodeImage.Listing.{find_image-Listed}

abbrev O : Type 0
O = OpenStackNodeImageRelease

module _ (env : Env) where
  pub choose_image-eq-nil :
      (opts : CreateOpts) (images : List Image)
      → All (λ image. image.id ≢ "") images
      → choose_image opts images ≡ ok ""
      → images ≡ []
  unfolding choose_image
  choose_image-eq-nil opts [] named h = refl
  choose_image-eq-nil opts (image ∷ []) named h = absurd (named.0 (cc))
  choose_image-eq-nil opts (_ ∷ _ ∷ _) named h = cc

  -- If every image that Glance lists has an id, then `Reconcile`, from where it has an image
  -- client, creates or imports an image only after a listing, by the id of the options or else by
  -- name and tags, that was empty.
  pub with_client-writes_when_absent :
      ((h : History) (pages : Address) (images : List Image)
        → env.openstack.extract_images h pages ≡ ok images
        → All (λ image. image.id ≢ "") images)
      → (minutes : ℤ) (client : Address) (wanted : OpenStackNodeImage × CreateOpts) (s : Session O)
      → writes (with_client env minutes client wanted s).1.history ≢ writes s.history
      → let listing = list_opts (wanted.1) in
        (pages : Address) × (env.openstack.all_pages s.history client listing ≡ ok pages)
        × (env.openstack.extract_images (Call.list_images client listing ∷ s.history) pages ≡ ok [])
  unfolding with_client
  with_client-writes_when_absent named minutes client wanted s =
      let opts = wanted.1 in
      bind_cases
        (λ r.
          writes r.1.history ≢ writes s.history
          → (pages : Address) × (env.openstack.all_pages s.history client (list_opts opts)
              ≡ ok pages)
            × (env.openstack.extract_images (Call.list_images client (list_opts opts) ∷ s.history)
                  pages
                ≡ ok []))
        (find_image env client opts) _ s
        (λ id s' e changed.
          let seen = find_image-Listed env client opts s e in
          let before : writes s'.history ≡ writes s.history =
            cc (find_image-writes env client opts s) in
          let none_found : id ≡ "" =
            ground
              (arith, eq_iff id "", drive_image_found env minutes client wanted.0 opts id s') in
          let chosen : choose_image opts seen.images ≡ ok "" = cc (seen.chosen) in
          let empty = choose_image-eq-nil opts seen.images (named _ _ _ seen.extracted) chosen in
          (seen.pages, seen.paged, cc (seen.extracted)))
        (λ o s' e changed. absurd (changed (cc (find_image-writes env client opts s))))
        (λ s' e changed. absurd (changed (cc (find_image-writes env client opts s))))
