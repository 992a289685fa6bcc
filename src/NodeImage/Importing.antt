-- ===== src/NodeImage/Importing.antt =====
-- What `Reconcile` does where no image is found, for each way in which Glance answers.
use cluster_stack_provider_o.Base.{String, ◌<>◌, ◌≡◌, refl, true, Option, some, [], ◌∷◌, arith}
use cluster_stack_provider_o.Api.{
  OpenStackNodeImageRelease, OpenStackNodeImage, CreateOpts, node_image_release_object,
}
use cluster_stack_provider_o.Runtime.Errors.{Outcome, Try, ok, err, wrap, text, empty, returns}
use cluster_stack_provider_o.Runtime.Calls.{Address, Image, Call, History}
use cluster_stack_provider_o.Runtime.Env.{Env}
use cluster_stack_provider_o.Runtime.Body.{Session, outcome_of}
use cluster_stack_provider_o.NodeImage.Glance.{create_image, import_image}
use cluster_stack_provider_o.NodeImage.Import.{
  announce, create_wanted, import_created, start_import,
}

abbrev O : Type 0
O = OpenStackNodeImageRelease

-- What is returned, and all calls, by the answer to the import of an image; `h` is what was called
-- before that.
abbrev pub after_import :
    Address → String → String → String → Image → History → Try (Unit {0}) → Option Outcome × History
after_import client uri release name image h (ok _) = (
  some (returns (record { requeue = true; requeue_after = 0 })),
  Call.event release "OpenStackImageImportStarted" "successfully started an image import %q, ID %q"
        (name ∷ image.id ∷ [])
      ∷ Call.import_image client image.id uri
      ∷ h,
)
after_import client uri release name image h (err e) = (
  some (returns empty),
  Call.warning release "OpenStackImageFailedToImport"
        (text (wrap ("failed to import image with ID " <> image.id) e)) []
      ∷ Call.import_image client image.id uri
      ∷ h,
)

module _ (env : Env) where
  -- The same, by the answer to the creation.
  abbrev pub after_create :
      Address → String → String → CreateOpts → History → Try Image → Option Outcome × History
  after_create client uri release opts h (err e) = (
    some (returns empty),
    Call.warning release "OpenStackImageFailedToCreate"
          (text (wrap ("failed to create image with name " <> opts.name) e)) []
        ∷ Call.create_image client opts
        ∷ h,
  )
  after_create client uri release opts h (ok image) =
      let created =
        Call.event release "OpenStackImageCreated" "successfully created an image %q, ID %q"
          (opts.name ∷ image.id ∷ [])
        ∷ Call.create_image client opts
        ∷ h in
      after_import client uri release opts.name image created
        (env.openstack.import_image created client image.id uri)

  -- The calls before the creation.
  abbrev pub announced : CreateOpts → Session O → History
  announced opts s =
      Call.event s.object.metadata.name "OpenStackImageImportStarted"
        "image is neither created nor imported yet %q" (opts.name ∷ [])
      ∷ s.history

  start_import_with :
      (client : Address) (image : OpenStackNodeImage) (opts : CreateOpts) (s : Session O)
      (created : Try Image)
      → env.openstack.create_image (announced opts s) client opts ≡ created
      → let r = start_import env client image opts s in
        (outcome_of r.0, r.1.history)
        ≡ after_create client image.url s.object.metadata.name opts (announced opts s) created
  unfolding start_import announce create_wanted import_created create_image import_image
  start_import_with client image opts s (err e) made = ground arith
  start_import_with client image opts s (ok found) made = go _ refl
    where
      go :
          (t : Try (Unit {0}))
          → env.openstack.import_image
              (Call.event s.object.metadata.name "OpenStackImageCreated"
                  "successfully created an image %q, ID %q"
                  (opts.name ∷ found.id ∷ [])
                ∷ Call.create_image client opts
                ∷ announced opts s)
              client
              found.id
              image.url
            ≡ t
          → let r = start_import env client image opts s in
            (outcome_of r.0, r.1.history)
            ≡ after_create client image.url s.object.metadata.name opts
                (announced opts s)
                (ok found)
      go (ok _) e = ground arith
      go (err x) e = ground arith

  -- Where no image is found, `Reconcile` returns in all cases: after a creation that failed it warns,
  -- imports nothing and does not come back; after an import that failed it warns and does not come
  -- back either; after an import that was started it comes back at once. What is imported is the
  -- image that the creation returned, from the URL of the release.
  pub start_import-after_create :
      (client : Address) (image : OpenStackNodeImage) (opts : CreateOpts) (s : Session O)
      → let r = start_import env client image opts s in
        (outcome_of r.0, r.1.history)
        ≡ after_create client image.url s.object.metadata.name opts
            (announced opts s)
            (env.openstack.create_image (announced opts s) client opts)
  start_import-after_create client image opts s =
      start_import_with client image opts s
        (env.openstack.create_image (announced opts s) client opts) refl
