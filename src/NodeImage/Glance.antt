-- ===== src/NodeImage/Glance.antt =====
-- `getImageID`, `createImage` and `importImage`.
use cluster_stack_provider_o.Base.{String, ◌<>◌, [], ◌∷◌, List, ◌=s◌, if◌then◌else◌}
use cluster_stack_provider_o.Base.Text.{bracketed}
use cluster_stack_provider_o.Api.{CreateOpts}
use cluster_stack_provider_o.Runtime.Errors.{Try, plain, ok, err}
use cluster_stack_provider_o.Runtime.Calls.{Address, ListOpts, Image, Call}
use cluster_stack_provider_o.Runtime.Env.{Env}
use cluster_stack_provider_o.Runtime.Task
use cluster_stack_provider_o.Runtime.Task.{◌>>=◌, Task}

-- By its id, if the options name one, otherwise by name and tags.
unfoldable pub list_opts : CreateOpts → ListOpts
list_opts opts =
    if opts.id =s ""
    then record { id = ""; name = opts.name; tags = opts.tags }
    else record { id = opts.id; name = ""; tags = [] }

-- The `switch` on the number of images; "" stands for none.
unfoldable pub choose_image : CreateOpts → List Image → Try String
choose_image opts [] = ok ""
choose_image opts (image ∷ []) = ok image.id
choose_image opts (_ ∷ _ ∷ _) = err (
    plain (
      "too many images were found with the given image name: "
      <> (opts.name <> (" and tags: " <> bracketed opts.tags))))

module _ (env : Env) where
  open (env.openstack) use {all_pages, extract_images}

  -- The pages are fetched and read: one call to the service.
  unfoldable pub get_image_id : Address → CreateOpts → Task String
  get_image_id client opts = do
    let wanted = list_opts opts
    pages ←
        Task.wrapping ("failed to list images with name " <> opts.name)
          (Task.ask (Call.list_images client wanted) (λ h. all_pages h client wanted))
    images ←
        Task.wrapping ("failed to extract images with name " <> opts.name)
          (λ h. (extract_images h pages, h))
    Task.lift (choose_image opts images)

  unfoldable pub create_image : Address → CreateOpts → Task Image
  create_image client opts =
      Task.wrapping ("failed to create image with name " <> opts.name)
        (Task.ask (Call.create_image client opts) (λ h. env.openstack.create_image h client opts))

  -- The import is by `web-download` from the URI.
  unfoldable pub import_image : Address → String → String → Task (Unit {0})
  import_image client id uri =
      Task.wrapping ("failed to import image with ID " <> id) (
        Task.ask (Call.import_image client id uri)
          (λ h. env.openstack.import_image h client id uri))
