-- ===== src/System/Once.antt =====
-- Over all runs, no image is created twice.
use cluster_stack_provider_o.Base.{ℕ, String, true, some, ◌≡◌, ◌≢◌, subst, sym, List, [], ◌∷◌}
use cluster_stack_provider_o.Base.Int.{ℤ}
use cluster_stack_provider_o.Api.{
  CreateOpts, NamespacedName, OpenStackNodeImageRelease, node_image_release_object,
}
use cluster_stack_provider_o.Runtime.Errors.{Outcome, ok}
use cluster_stack_provider_o.Runtime.Calls.{Address, Call, History}
use cluster_stack_provider_o.Runtime.Env.{Env}
use cluster_stack_provider_o.Runtime.Body.{Session, Flow}
use cluster_stack_provider_o.Runtime.Reconcile.{finish, reconcile_with_cases}
use cluster_stack_provider_o.NodeImage.Glance.{list_opts}
use cluster_stack_provider_o.NodeImage.Reconcile.{resource, reconcile as reconcile_node_image}
use cluster_stack_provider_o.NodeImage.Creations.{
  creations, IsFree, AllNamed, reconcile_body-Creates,
}
use cluster_stack_provider_o.Runtime.Attempts.{Attempt, HasMade, IsSingle, none_yet, Grows-IsSingle}
use cluster_stack_provider_o.System.Glance.{cluster_stack-creations}
use cluster_stack_provider_o.System.Runs.{IsReachable, start, node_image, cluster_stack}

abbrev O : Type 0
O = OpenStackNodeImageRelease

-- The cloud, and the project in it, that an image client works in.
module _ (cloud_of : Address → ℕ) where
  -- In the same cloud, with the same options, which do not hide the image from a listing.
  abbrev pub SameImage : Address × CreateOpts → Address × CreateOpts → Type 0
  SameImage (c, o) (d, p) = (cloud_of c ≡ cloud_of d) × (o ≡ p) × (o.hidden ≢ some true)

  module _ (env : Env) where
    -- What Glance promises: an image that was created, and not as a hidden one, is listed from then
    -- on, to every client of the cloud that asks by the id, or else by the name and the tags, of
    -- its options. Hidden images are left out of the list that is asked for.
    abbrev pub Keeps : Type 0
    Keeps =
        (h : History) (client pages : Address) (opts : CreateOpts)
        → HasMade SameImage (client, opts) (creations env h)
        → env.openstack.all_pages h client (list_opts opts) ≡ ok pages
        → env.openstack.extract_images (Call.list_images client (list_opts opts) ∷ h) pages ≢ ok []

    lawful :
        Keeps
        → (l : List (Attempt (Address × CreateOpts))) (k : Address × CreateOpts) → IsFree env l k
        → ¬ HasMade SameImage k l
    lawful keeps l (client, opts) (past, pages, at, paged, empty) had =
        keeps past client pages opts (subst (HasMade SameImage (client, opts)) (sym at) had) paged
          empty

    finish-IsSingle :
        (before : O) (r : Flow Outcome × Session O)
        → IsSingle SameImage (creations env r.1.history)
        → IsSingle SameImage (creations env (finish env (resource env) before r).1)
    unfolding finish
    finish-IsSingle before r single = single

    node_image-IsSingle :
        (minutes : ℤ) (req : NamespacedName) (h : History)
        → AllNamed env
        → Keeps
        → IsSingle SameImage (creations env h)
        → IsSingle SameImage (creations env (reconcile_node_image env minutes req h).1)
    unfolding reconcile_node_image
    node_image-IsSingle minutes req h named keeps single =
        reconcile_with_cases env (resource env) (λ r. IsSingle SameImage (creations env r.1)) _ req
          h (λ o. single) (λ found e. single)
          λ before got. finish-IsSingle before _ (
            Grows-IsSingle (IsFree env) SameImage (lawful keeps)
              (reconcile_body-Creates env minutes _ named) single)

    -- If Glance keeps what is created and lists what is not hidden, and every image that it lists has
    -- an id, then in every run of both controllers an image whose options do not set `hidden` is
    -- asked for only if none with the same options was created in the same cloud before, so that at
    -- most one is created.
    pub IsReachable-IsSingle :
        (minutes : ℤ) (directory : String) (h : History)
        → AllNamed env
        → Keeps
        → IsReachable env minutes directory h
        → IsSingle SameImage (creations env h)
    IsReachable-IsSingle minutes directory _ named keeps start = none_yet
    IsReachable-IsSingle minutes directory _ named keeps (node_image req h before) =
        node_image-IsSingle minutes req h named keeps
          (IsReachable-IsSingle minutes directory h named keeps before)
    IsReachable-IsSingle minutes directory _ named keeps (cluster_stack req h before) =
        rw (cluster_stack-creations env directory req h)
          (IsReachable-IsSingle minutes directory h named keeps before)
