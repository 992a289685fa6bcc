-- ===== src/NodeImage/Import.antt =====
-- `Reconcile` where no image is found: it is created, and its import is started (lines 197 to 240).
use cluster_stack_provider_o.Base.{String, true, false, [], ◌∷◌}
use cluster_stack_provider_o.Api.{
  OpenStackNodeImageRelease, OpenStackNodeImage, CreateOpts, Severity, node_image_release_object,
}
use cluster_stack_provider_o.Api.ConditionType
use cluster_stack_provider_o.Api.Reason
use cluster_stack_provider_o.Runtime.Errors.{Outcome, Try, text, ok, err, empty, returns}
use cluster_stack_provider_o.Runtime.Calls.{Address, Image}
use cluster_stack_provider_o.Runtime.Env.{Env}
use cluster_stack_provider_o.Runtime.Body.{
  ◌>>=◌, ◌>>◌, Body, pure, return, call, mark_true, mark_false, set_ready, eventf, warnf,
}
use cluster_stack_provider_o.NodeImage.Glance.{create_image, import_image}

abbrev O : Type 0
O = OpenStackNodeImageRelease

module _ (env : Env) where
  -- The tail of every failure: the image has an issue.
  give_up : {A : Type 0} → String → String → Body O A
  give_up reason message = do
    mark_false env ConditionType.open_stack_image_ready Reason.issue_with_open_stack_image
        Severity.error message
    warnf reason message
    return (returns empty)

  keep_created : CreateOpts → Try Image → Body O Image
  unfolding give_up
  keep_created opts (ok image) = do
    eventf "OpenStackImageCreated" "successfully created an image %q, ID %q"
        (opts.name ∷ image.id ∷ [])
    pure image
  keep_created opts (err e) = give_up "OpenStackImageFailedToCreate" (text e)

  keep_import : CreateOpts → Image → Try (Unit {0}) → Body O Outcome
  unfolding give_up
  keep_import opts image (ok _) = do
    mark_true env ConditionType.open_stack_image_import_started
    eventf "OpenStackImageImportStarted" "successfully started an image import %q, ID %q"
        (opts.name ∷ image.id ∷ [])
    pure (returns (record { requeue = true; requeue_after = 0 }))
  keep_import opts image (err e) = give_up "OpenStackImageFailedToImport" (text e)

  -- Lines 198 to 201.
  unfoldable pub announce : CreateOpts → Body O (Unit {0})
  announce opts = do
    mark_false env ConditionType.open_stack_image_ready Reason.open_stack_image_not_created_yet
        Severity.info "image is not created yet"
    mark_false env ConditionType.open_stack_image_import_started
        Reason.open_stack_image_import_not_start Severity.info "image import not start yet"
    eventf "OpenStackImageImportStarted" "image is neither created nor imported yet %q"
        (opts.name ∷ [])
    set_ready false

  -- Lines 203 to 216.
  unfoldable pub create_wanted : Address → CreateOpts → Body O Image
  unfolding keep_created create_image
  create_wanted client opts = do
    created ← call (create_image env client opts)
    keep_created opts created

  -- Lines 218 to 239.
  unfoldable pub import_created : Address → String → CreateOpts → Image → Body O Outcome
  unfolding keep_import import_image
  import_created client uri opts image = do
    started ← call (import_image env client image.id uri)
    keep_import opts image started

  unfoldable pub start_import : Address → OpenStackNodeImage → CreateOpts → Body O Outcome
  start_import client node_image opts = do
    announce opts
    image ← create_wanted client opts
    import_created client node_image.url opts image
