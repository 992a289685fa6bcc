-- ===== src/NodeImage/Progress.antt =====
-- A release whose image is active becomes ready, in one reconciliation.
use cluster_stack_provider_o.Base.{String, ◌≡◌, ◌≢◌, true, Option, some, arith, eq_iff}
use cluster_stack_provider_o.Base.Int.{ℤ}
use cluster_stack_provider_o.Api.{OpenStackNodeImageRelease, OpenStackNodeImage, CreateOpts}
use cluster_stack_provider_o.Api.ConditionType
use cluster_stack_provider_o.Runtime.Errors.{ok, empty, returns}
use cluster_stack_provider_o.Runtime.Calls.{Address, Bytes, Cloud, Image, active}
use cluster_stack_provider_o.Runtime.Env.{Env}
use cluster_stack_provider_o.Runtime.Body.{Session, next, outcome_of}
use cluster_stack_provider_o.NodeImage.Connect.{load_cloud, connect, find_image}
use cluster_stack_provider_o.NodeImage.Await.{exceeds, check_timeout, await_image}
use cluster_stack_provider_o.NodeImage.Verdict.{asked, await_image_verdict}
use cluster_stack_provider_o.NodeImage.Safety.{IsDated}
use cluster_stack_provider_o.NodeImage.Reconcile.{
  load_image, drive_image, with_client, with_cloud, reconcile_body,
}

abbrev O : Type 0
O = OpenStackNodeImageRelease

module _ (env : Env) where
  check_timeout_active :
      IsDated env
      → (minutes : ℤ) (image : Image) (s : Session O) → image.status ≡ active
      → (check_timeout env minutes image s).0 ≡ next tt
  unfolding check_timeout exceeds
  check_timeout_active dated minutes image s status = ground (
    arith,
    dated.transition ConditionType.open_stack_image_import_started s.object.status.conditions,
  )

  await_image_active :
      IsDated env
      → (minutes : ℤ) (client : Address) (opts : CreateOpts) (id : String) {image : Image}
        (s : Session O)
      → env.openstack.get_image s.history client id ≡ ok image
      → image.status ≡ active
      → let (flow, s') = await_image env minutes client opts id s in
        (outcome_of flow ≡ some (returns empty)) × (s'.object.status.ready ≡ true)
  await_image_active dated minutes client opts id {image} s found status =
      let passes = check_timeout_active dated minutes image (asked client id s) status in
      let (ends, ready) = await_image_verdict env minutes client opts id s found passes in
      (ground (arith, ends), ground (arith, ready))

  -- If a condition that is true has a transition time, the cloud is found, the login and the lookup
  -- of the image succeed, an image is found and Glance shows it as active, then the body of
  -- `Reconcile` makes the release ready, however late that is, and ends with an empty result.
  pub reconcile_body_active :
      IsDated env
      → (minutes : ℤ) (s : Session O) {found : Cloud × Option Bytes} {client : Address}
        {wanted : OpenStackNodeImage × CreateOpts} {id : String} {image : Image}
        {s₁ s₂ s₃ s₄ : Session O}
      → load_cloud env s ≡ (next found, s₁)
      → connect env found.0 found.1 s₁ ≡ (next client, s₂)
      → load_image s₂ ≡ (next wanted, s₃)
      → find_image env client wanted.1 s₃ ≡ (next id, s₄)
      → id ≢ ""
      → env.openstack.get_image s₄.history client id ≡ ok image
      → image.status ≡ active
      → let (flow, s') = reconcile_body env minutes s in
        (outcome_of flow ≡ some (returns empty)) × (s'.object.status.ready ≡ true)
  unfolding reconcile_body with_cloud with_client drive_image
  reconcile_body_active dated minutes s {client = client} {wanted} {id} {s₄ = s₄} e₁ e₂ e₃ e₄ named
        found status =
      let (ends, ready) = await_image_active dated minutes client wanted.1 id s₄ found status in
      (ground (arith, eq_iff id "", ends), ground (arith, eq_iff id "", ready))
