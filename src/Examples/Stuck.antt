-- ===== src/Examples/Stuck.antt =====
-- A release whose image stays queued, since its import could not be started.
use cluster_stack_provider_o.Base.{sym, ap, ◌∙◌, ◌≡◌, ◌≢◌, false, [], ◌∷◌, refl, subst, All, List}
use cluster_stack_provider_o.Base.Int.{pos}
use cluster_stack_provider_o.Runtime.Errors.{ok}
use cluster_stack_provider_o.Runtime.Calls.{Image, ImageStatus, queued, active}
use cluster_stack_provider_o.NodeImage.Writes.{writes}
use cluster_stack_provider_o.NodeImage.Stuck.{IsWaiting, runs, makes_ready, runs-makes_ready}
use cluster_stack_provider_o.Examples.Settings.{done}
use cluster_stack_provider_o.Examples.World.{Setting, world, opts, node_image, glance_image, req}

abbrev queued_forever : Setting
queued_forever = record done {
  listed_images = glance_image ImageStatus.queued ∷ [];
  image_status = ImageStatus.queued;
}

named :
    (images : List Image)
    → ok (glance_image queued ∷ []) ≡ ok images
    → (images ≢ []) × All (λ image. image.id ≢ "") images
named images e =
    let same : glance_image queued ∷ [] ≡ images = cc in
    subst (λ l. (l ≢ []) × All (λ image. image.id ≢ "") l) same ((λ k. cc), ((λ k. cc), tt))

not_active : (found : Image) → ok (glance_image queued) ≡ ok found → found.status ≢ active
not_active found answered is_active =
    let same : found ≡ glance_image queued = cc in
    let apart : queued ≡ active = sym (ap (λ i. i.status) same) ∙ is_active in cc

waiting : IsWaiting (world queued_forever) req []
waiting = record {
  image = node_image;
  opts = opts;
  has_opts = refl;
  kept = λ h r got. cc;
  listed = λ h client pages images quiet paged extracted. named images extracted;
  inactive = λ h client id found quiet seen answered. not_active found answered;
}

runs-makes_ready_example :
    (writes (runs (world queued_forever) (pos 0) req [] 5) ≡ [])
    × (makes_ready (runs (world queued_forever) (pos 0) req [] 6) ≡ false)
runs-makes_ready_example = runs-makes_ready (world queued_forever) req [] waiting (pos 0) 5
