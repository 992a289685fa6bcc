-- ===== src/System/Mutex.antt =====
-- The node image controller does not touch the mutex and the release directory.
use cluster_stack_provider_o.Base.{
  String, ◌≡◌, refl, ◌∙◌, Option, arith, ◌=s◌, Bool-cases, inl, inr,
}
use cluster_stack_provider_o.Base.Int.{ℤ}
use cluster_stack_provider_o.Api.{
  OpenStackNodeImageRelease, OpenStackNodeImage, CreateOpts, NamespacedName,
  node_image_release_object,
}
use cluster_stack_provider_o.Runtime.Errors.{Outcome}
use cluster_stack_provider_o.Runtime.Calls.{Address, Bytes, Cloud, History}
use cluster_stack_provider_o.Runtime.Env.{Env}
use cluster_stack_provider_o.Runtime.Body.{Session, Flow}
use cluster_stack_provider_o.Runtime.Relations.{relate_andthen}
use cluster_stack_provider_o.Runtime.Reconcile.{finish, reconcile_with_cases}
use cluster_stack_provider_o.ClusterStack.Lock.{is_locked, is_guarded, IsOrderly}
use cluster_stack_provider_o.NodeImage.Cloud.{get_cloud_from_secret}
use cluster_stack_provider_o.NodeImage.Glance.{get_image_id, choose_image}
use cluster_stack_provider_o.NodeImage.Connect.{load_cloud, connect, find_image}
use cluster_stack_provider_o.NodeImage.Import.{
  announce, create_wanted, import_created, start_import,
}
use cluster_stack_provider_o.NodeImage.Await.{check_timeout, judge, fetch_image, await_image}
use cluster_stack_provider_o.NodeImage.Reconcile.{
  load_image, drive_image, with_client, with_cloud, reconcile_body, resource, reconcile,
}

abbrev O : Type 0
O = OpenStackNodeImageRelease

module _ (env : Env) where
  abbrev Leaves : Session O → Session O → Type 0
  Leaves s t =
      (is_locked t.history ≡ is_locked s.history) × (is_guarded t.history ≡ is_guarded s.history)

  transitive : (r s t : Session O) → Leaves r s → Leaves s t → Leaves r t
  transitive r s t (a, b) (c, d) = (c ∙ a, d ∙ b)

  load_cloud-Leaves : (s : Session O) → Leaves s (load_cloud env s).1
  unfolding load_cloud get_cloud_from_secret
  load_cloud-Leaves s = (ground arith, ground arith)

  connect-Leaves :
      (found : Cloud × Option Bytes) (s : Session O) → Leaves s (connect env found.0 found.1 s).1
  unfolding connect
  connect-Leaves found s = (ground arith, ground arith)

  load_image-Leaves : (s : Session O) → Leaves s (load_image s).1
  unfolding load_image
  load_image-Leaves s = (ground arith, ground arith)

  find_image-Leaves :
      (client : Address) (opts : CreateOpts) (s : Session O)
      → Leaves s (find_image env client opts s).1
  unfolding find_image get_image_id choose_image
  find_image-Leaves client opts s = (ground arith, ground arith)

  start_import-Leaves :
      (client : Address) (image : OpenStackNodeImage) (opts : CreateOpts) (s : Session O)
      → Leaves s (start_import env client image opts s).1
  unfolding start_import announce create_wanted import_created
  start_import-Leaves client image opts s = (ground arith, ground arith)

  await_image-Leaves :
      (minutes : ℤ) (client : Address) (opts : CreateOpts) (id : String) (s : Session O)
      → Leaves s (await_image env minutes client opts id s).1
  unfolding await_image fetch_image check_timeout judge
  await_image-Leaves minutes client opts id s = (ground arith, ground arith)

  drive_image-Leaves :
      (minutes : ℤ) (client : Address) (image : OpenStackNodeImage) (opts : CreateOpts)
      (id : String) (s : Session O)
      → Leaves s (drive_image env minutes client image opts id s).1
  unfolding drive_image
  drive_image-Leaves minutes client image opts id s = elim (Bool-cases (id =s "")) [
    | inl none_found ↦ rw none_found (start_import-Leaves client image opts s)
    | inr found ↦ rw found (await_image-Leaves minutes client opts id s)
  ]

  with_client-Leaves :
      (minutes : ℤ) (client : Address) (wanted : OpenStackNodeImage × CreateOpts) (s : Session O)
      → Leaves s (with_client env minutes client wanted s).1
  unfolding with_client
  with_client-Leaves minutes client wanted s =
      relate_andthen Leaves transitive (find_image env client wanted.1) _ s
        (find_image-Leaves client wanted.1 s)
        λ id s'. drive_image-Leaves minutes client wanted.0 wanted.1 id s'

  with_cloud-Leaves :
      (minutes : ℤ) (found : Cloud × Option Bytes) (s : Session O)
      → Leaves s (with_cloud env minutes found s).1
  unfolding with_cloud
  with_cloud-Leaves minutes found s =
      relate_andthen Leaves transitive (connect env found.0 found.1) _ s (connect-Leaves found s)
        λ client s₁.
          relate_andthen Leaves transitive load_image _ s₁ (load_image-Leaves s₁)
            λ wanted s₂. with_client-Leaves minutes client wanted s₂

  reconcile_body-Leaves : (minutes : ℤ) (s : Session O) → Leaves s (reconcile_body env minutes s).1
  unfolding reconcile_body
  reconcile_body-Leaves minutes s =
      relate_andthen Leaves transitive (load_cloud env) _ s (load_cloud-Leaves s)
        λ found s'. with_cloud-Leaves minutes found s'

  finish-Leaves :
      (before : O) (r : Flow Outcome × Session O) (h : History)
      → (is_locked r.1.history ≡ is_locked h) × (is_guarded r.1.history ≡ is_guarded h)
      → let after = (finish env (resource env) before r).1 in
        (is_locked after ≡ is_locked h) × (is_guarded after ≡ is_guarded h)
  unfolding finish
  finish-Leaves before r h same = same

  reconcile-Leaves :
      (minutes : ℤ) (req : NamespacedName) (h : History)
      → let after = (reconcile env minutes req h).1 in
        (is_locked after ≡ is_locked h) × (is_guarded after ≡ is_guarded h)
  unfolding reconcile
  reconcile-Leaves minutes req h =
      reconcile_with_cases env (resource env)
        (λ r. (is_locked r.1 ≡ is_locked h) × (is_guarded r.1 ≡ is_guarded h)) _ req h
        (λ o. (refl, refl)) (λ found e. (refl, refl))
        λ before got. finish-Leaves before _ h (reconcile_body-Leaves minutes _)

  pub node_image-IsOrderly :
      (minutes : ℤ) (req : NamespacedName) (h : History)
      → IsOrderly h
      → IsOrderly (reconcile env minutes req h).1
  node_image-IsOrderly minutes req h (guards, free) =
      let (locked, guarded) = reconcile-Leaves minutes req h in (guarded ∙ guards, locked ∙ free)
