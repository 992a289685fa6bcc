-- ===== src/ClusterStack/Lock.antt =====
-- The mutex around the download: when it is taken and given back, and what is done inside.
use cluster_stack_provider_o.Base.{
  String, ◌≡◌, Bool, true, false, not, ◌&&◌, Option, List, [], ◌∷◌, arith, Bool-cases, inl, inr,
}
use cluster_stack_provider_o.Api.{
  NamespacedName, OwnerReference, OpenStackNodeImage, OpenStackNodeImageRelease,
  OpenStackClusterStackRelease, cluster_stack_release_object,
}
use cluster_stack_provider_o.Runtime.Errors.{Outcome}
use cluster_stack_provider_o.Runtime.Calls.{Release, Call, History}
use cluster_stack_provider_o.Runtime.Env.{Env}
use cluster_stack_provider_o.Runtime.Body.{Session, Flow, Body, ◌>>=◌}
use cluster_stack_provider_o.Runtime.Relations.{relate_andthen}
use cluster_stack_provider_o.Runtime.Reconcile.{finish, reconcile_with_cases}
use cluster_stack_provider_o.ClusterStack.Owner.{
  generate_owner_reference, create_or_update, get_owned,
}
use cluster_stack_provider_o.ClusterStack.Assets.{
  download_release_assets, get_node_images_from_local,
}
use cluster_stack_provider_o.ClusterStack.Download.{
  load_release, fetch_release, new_assets_client, download,
}
use cluster_stack_provider_o.ClusterStack.NodeImages.{
  load_node_images, ensure_node_image, ensure_node_images, await_owned, report, list_owned,
  check_owned, use_release,
}
use cluster_stack_provider_o.ClusterStack.Reconcile.{
  with_release, reconcile_body, reconcile, resource,
}

abbrev O : Type 0
O = OpenStackClusterStackRelease

-- The mutex is held at the end of a history.
abbrev pub is_locked : History → Bool
is_locked [] = false
is_locked (Call.lock ∷ h) = true
is_locked (Call.unlock ∷ h) = false
is_locked (_ ∷ h) = is_locked h

-- The release directory is written only while the mutex is held; it is taken only where it is free,
-- and given back only where it is held.
abbrev pub is_guarded : History → Bool
is_guarded [] = true
is_guarded (Call.lock ∷ h) = not (is_locked h) && is_guarded h
is_guarded (Call.unlock ∷ h) = is_locked h && is_guarded h
is_guarded (Call.download_release_assets client tag path ∷ h) = is_locked h && is_guarded h
is_guarded (Call.remove_all path ∷ h) = is_locked h && is_guarded h
is_guarded (_ ∷ h) = is_guarded h

abbrev pub IsOrderly : History → Type 0
IsOrderly h = (is_guarded h ≡ true) × (is_locked h ≡ false)

module _ (env : Env) where
  abbrev Keeps : {A : Type 0} → Session O → Flow A × Session O → Type 0
  Keeps s r = IsOrderly s.history → IsOrderly r.1.history

  load_release-Keeps : (directory : String) (s : Session O) → Keeps s (load_release env directory s)
  unfolding load_release
  load_release-Keeps directory s h = (ground arith, ground arith)

  fetch_release-Keeps : (release : Release) (s : Session O) → Keeps s (fetch_release env release s)
  unfolding fetch_release new_assets_client download download_release_assets
  fetch_release-Keeps release s h = (ground arith, ground arith)

  load_node_images-Keeps :
      (release : Release) (s : Session O) → Keeps s (load_node_images env release s)
  unfolding load_node_images get_node_images_from_local
  load_node_images-Keeps release s h = (ground arith, ground arith)

  ensure_node_image-Keeps :
      (release : Release) (owner : OwnerReference) (image : Option OpenStackNodeImage)
      (s : Session O)
      → Keeps s (ensure_node_image env release owner image s)
  unfolding ensure_node_image create_or_update
  ensure_node_image-Keeps release owner image s h = (ground arith, ground arith)

  await_owned-Keeps :
      (owned : List OpenStackNodeImageRelease) (s : Session O) → Keeps s (await_owned env owned s)
  unfolding await_owned
  await_owned-Keeps [] s h = h
  await_owned-Keeps (n ∷ ns) s h = elim (Bool-cases n.status.ready) [
    | inl e ↦ rw e (await_owned-Keeps ns s h)
    | inr e ↦ rw e h
  ]

  andthen_Keeps :
      {A B : Type 0} (m : Body O A) (f : A → Body O B) (s : Session O)
      → Keeps s (m s)
      → ((a : A) (s' : Session O) → Keeps s' (f a s'))
      → Keeps s ((m >>= f) s)
  andthen_Keeps =
      relate_andthen (λ s t. IsOrderly s.history → IsOrderly t.history) (λ r s t p q h. q (p h))

  ensure_node_images-Keeps :
      (release : Release) (owner : OwnerReference) (images : List (Option OpenStackNodeImage))
      (s : Session O)
      → Keeps s (ensure_node_images env release owner images s)
  unfolding ensure_node_images
  ensure_node_images-Keeps release owner [] s = λ h. h
  ensure_node_images-Keeps release owner (image ∷ images) s =
      andthen_Keeps (ensure_node_image env release owner image) _ s
        (ensure_node_image-Keeps release owner image s)
        λ a s'. ensure_node_images-Keeps release owner images s'

  report-Keeps :
      (owned : List OpenStackNodeImageRelease) (s : Session O) → Keeps s (report env owned s)
  unfolding report
  report-Keeps [] s = λ h. h
  report-Keeps (n ∷ ns) s = await_owned-Keeps (n ∷ ns) s

  list_owned-Keeps : (s : Session O) → Keeps s (list_owned env s)
  unfolding list_owned get_owned
  list_owned-Keeps s h = (ground arith, ground arith)

  check_owned-Keeps : (s : Session O) → Keeps s (check_owned env s)
  unfolding check_owned
  check_owned-Keeps s =
      andthen_Keeps (list_owned env) _ s (list_owned-Keeps s) λ owned s'. report-Keeps owned s'

  use_release-Keeps : (release : Release) (s : Session O) → Keeps s (use_release env release s)
  unfolding use_release
  use_release-Keeps release s =
      andthen_Keeps (load_node_images env release) _ s (load_node_images-Keeps release s)
        λ images s₁.
          let owner = generate_owner_reference s₁.object in
          andthen_Keeps (ensure_node_images env release owner images) _ s₁
            (ensure_node_images-Keeps release owner images s₁) λ _ s₂. check_owned-Keeps s₂

  with_release-Keeps : (found : Release × Bool) (s : Session O) → Keeps s (with_release env found s)
  unfolding with_release
  with_release-Keeps (release, wanted) s = elim (Bool-cases wanted) [
    | inl e ↦ rw e (fetch_release-Keeps release s)
    | inr e ↦ rw e (use_release-Keeps release s)
  ]

  reconcile_body-Keeps :
      (directory : String) (s : Session O) → Keeps s (reconcile_body env directory s)
  unfolding reconcile_body
  reconcile_body-Keeps directory s =
      andthen_Keeps (load_release env directory) _ s (load_release-Keeps directory s)
        λ found s₁. with_release-Keeps found s₁

  finish-Keeps :
      (before : O) (r : Flow Outcome × Session O)
      → IsOrderly r.1.history
      → IsOrderly (finish env (resource env) before r).1
  unfolding finish
  finish-Keeps before r h = h

  -- Whatever the calls are answered, and also where the body panics, a reconciliation that starts
  -- with the mutex free downloads into the release directory and removes it only while it holds
  -- the mutex, never takes it twice, and has given it back at its end.
  pub reconcile-IsOrderly :
      (directory : String) (req : NamespacedName) (h : History)
      → IsOrderly h
      → IsOrderly (reconcile env directory req h).1
  unfolding reconcile
  reconcile-IsOrderly directory req h orderly =
      reconcile_with_cases env (resource env) (λ r. IsOrderly r.1) _ req h (λ o. orderly)
        (λ found e. orderly)
        λ before got. finish-Keeps before _ (reconcile_body-Keeps directory _ orderly)
