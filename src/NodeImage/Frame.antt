-- ===== src/NodeImage/Frame.antt =====
-- What `Reconcile` leaves alone in the release that it patches.
use cluster_stack_provider_o.Base.{String, ◌≡◌, ◌∙◌, ◌∷◌, Option, arith, ◌=s◌, Bool-cases, inl, inr}
use cluster_stack_provider_o.Base.Int.{ℤ}
use cluster_stack_provider_o.Api.{
  OpenStackNodeImageRelease, OpenStackNodeImage, CreateOpts, NamespacedName,
  node_image_release_object,
}
use cluster_stack_provider_o.Runtime.Errors.{Outcome}
use cluster_stack_provider_o.Runtime.Calls.{Address, Bytes, Cloud, Call, History}
use cluster_stack_provider_o.Runtime.Env.{Env}
use cluster_stack_provider_o.Runtime.Body.{Session, Flow}
use cluster_stack_provider_o.Runtime.Relations.{relate_andthen}
use cluster_stack_provider_o.Runtime.Reconcile.{Exit, finish, reconcile_with_cases}
use cluster_stack_provider_o.NodeImage.Connect.{load_cloud, connect, find_image}
use cluster_stack_provider_o.NodeImage.Import.{
  announce, create_wanted, import_created, start_import,
}
use cluster_stack_provider_o.NodeImage.Await.{check_timeout, judge, fetch_image, await_image}
use cluster_stack_provider_o.NodeImage.Reconcile.{
  load_image, drive_image, with_client, with_cloud, reconcile_body, resource, reconcile,
}

abbrev O : Type 0
O = OpenStackNodeImageRelease

-- The second release differs from the first in its status alone.
abbrev pub SameButStatus : O → O → Type 0
SameButStatus a b = (b.type_meta ≡ a.type_meta) × (b.metadata ≡ a.metadata) × (b.spec ≡ a.spec)

abbrev pub Frames : Session O → Session O → Type 0
Frames s t = SameButStatus s.object t.object

frames : (r s t : Session O) → Frames r s → Frames s t → Frames r t
frames r s t (a, b, c) (d, e, f) = (d ∙ a, e ∙ b, f ∙ c)

module _ (env : Env) where
  pub load_cloud-Frames : (s : Session O) → Frames s (load_cloud env s).1
  unfolding load_cloud
  load_cloud-Frames s = (ground arith, ground arith, ground arith)

  pub connect-Frames :
      (found : Cloud × Option Bytes) (s : Session O) → Frames s (connect env found.0 found.1 s).1
  unfolding connect
  connect-Frames found s = (ground arith, ground arith, ground arith)

  pub load_image-Frames : (s : Session O) → Frames s (load_image s).1
  unfolding load_image
  load_image-Frames s = (ground arith, ground arith, ground arith)

  find_image-Frames :
      (client : Address) (opts : CreateOpts) (s : Session O)
      → Frames s (find_image env client opts s).1
  unfolding find_image
  find_image-Frames client opts s = (ground arith, ground arith, ground arith)

  start_import-Frames :
      (client : Address) (image : OpenStackNodeImage) (opts : CreateOpts) (s : Session O)
      → Frames s (start_import env client image opts s).1
  unfolding start_import announce create_wanted import_created
  start_import-Frames client image opts s = (ground arith, ground arith, ground arith)

  await_image-Frames :
      (minutes : ℤ) (client : Address) (opts : CreateOpts) (id : String) (s : Session O)
      → Frames s (await_image env minutes client opts id s).1
  unfolding await_image fetch_image check_timeout judge
  await_image-Frames minutes client opts id s = (ground arith, ground arith, ground arith)

  drive_image-Frames :
      (minutes : ℤ) (client : Address) (image : OpenStackNodeImage) (opts : CreateOpts)
      (id : String) (s : Session O)
      → Frames s (drive_image env minutes client image opts id s).1
  unfolding drive_image
  drive_image-Frames minutes client image opts id s = elim (Bool-cases (id =s "")) [
    | inl none_found ↦ rw none_found (start_import-Frames client image opts s)
    | inr found ↦ rw found (await_image-Frames minutes client opts id s)
  ]

  with_client-Frames :
      (minutes : ℤ) (client : Address) (wanted : OpenStackNodeImage × CreateOpts) (s : Session O)
      → Frames s (with_client env minutes client wanted s).1
  unfolding with_client
  with_client-Frames minutes client wanted s =
      relate_andthen Frames frames (find_image env client wanted.1) _ s
        (find_image-Frames client wanted.1 s)
        λ id s'. drive_image-Frames minutes client wanted.0 wanted.1 id s'

  with_cloud-Frames :
      (minutes : ℤ) (found : Cloud × Option Bytes) (s : Session O)
      → Frames s (with_cloud env minutes found s).1
  unfolding with_cloud
  with_cloud-Frames minutes found s =
      relate_andthen Frames frames (connect env found.0 found.1) _ s (connect-Frames found s)
        λ client s₁.
          relate_andthen Frames frames load_image _ s₁ (load_image-Frames s₁)
            λ wanted s₂. with_client-Frames minutes client wanted s₂

  reconcile_body-Frames : (minutes : ℤ) (s : Session O) → Frames s (reconcile_body env minutes s).1
  unfolding reconcile_body
  reconcile_body-Frames minutes s =
      relate_andthen Frames frames (load_cloud env) _ s (load_cloud-Frames s)
        λ found s'. with_cloud-Frames minutes found s'

  abbrev PatchFrames : Exit × History → Type 0
  PatchFrames (exit, h) =
      (before after : O) (past : History)
      → h ≡ Call.patch_node_image_release before after ∷ past
      → SameButStatus before after

  finish-PatchFrames :
      (before : O) (r : Flow Outcome × Session O)
      → SameButStatus before r.1.object
      → PatchFrames (finish env (resource env) before r)
  unfolding finish
  finish-PatchFrames before (flow, s) (a, b, c) first after past made = (cc, cc, cc)

  -- The patch of a reconciliation changes nothing but the status of the release that was read.
  pub reconcile_patches_status :
      (minutes : ℤ) (req : NamespacedName) (h : History) (before after : O) (past : History)
      → (reconcile env minutes req h).1 ≡ Call.patch_node_image_release before after ∷ past
      → SameButStatus before after
  unfolding reconcile
  reconcile_patches_status minutes req h =
      reconcile_with_cases env (resource env) PatchFrames _ req h (λ o before after past made. cc)
        (λ found e before after past made. cc)
        λ before got. finish-PatchFrames before _ (reconcile_body-Frames minutes _)
