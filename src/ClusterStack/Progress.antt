-- ===== src/ClusterStack/Progress.antt =====
-- What one reconciliation makes of a release whose assets are there.
use cluster_stack_provider_o.Base.{
  String, ◌≡◌, Bool, false, Option, some, List, keep, arith, if◌then◌else◌,
}
use cluster_stack_provider_o.Api.{
  OpenStackNodeImage, OpenStackNodeImageRelease, OpenStackClusterStackRelease,
}
use cluster_stack_provider_o.Api.Constants.{wait_for_node_image_releases_become_ready}
use cluster_stack_provider_o.Runtime.Errors.{ok, Outcome, empty, requeue_in, returns}
use cluster_stack_provider_o.Runtime.Calls.{Release}
use cluster_stack_provider_o.Runtime.Env.{Env}
use cluster_stack_provider_o.Runtime.Body.{Session, Flow, next, outcome_of}
use cluster_stack_provider_o.ClusterStack.Owner.{generate_owner_reference, is_owned}
use cluster_stack_provider_o.ClusterStack.Download.{load_release}
use cluster_stack_provider_o.ClusterStack.NodeImages.{
  load_node_images, ensure_node_images, check_owned, use_release,
}
use cluster_stack_provider_o.ClusterStack.Readiness.{
  is_complete, report_verdict, check_owned-report, listed,
}
use cluster_stack_provider_o.ClusterStack.Reconcile.{with_release, reconcile_body}

abbrev O : Type 0
O = OpenStackClusterStackRelease

-- Ready, with an empty result, or not, and to be looked at again.
abbrev pub Settles : Bool → Flow Outcome × Session O → Type 0
Settles complete r =
    (r.1.object.status.ready ≡ complete)
    × (outcome_of r.0
        ≡ some (
            returns
              (if complete then empty else requeue_in wait_for_node_image_releases_become_ready)))

module _ (env : Env) where
  pub check_owned-Settles :
      (s : Session O) {items : List OpenStackNodeImageRelease}
      → env.kube.list_node_image_releases s.history s.object.metadata.namespace ≡ ok items
      → Settles (is_complete (keep (is_owned env s.object) items)) (check_owned env s)
  check_owned-Settles s {items} answered =
      rw (check_owned-report env s answered)
        (report_verdict env (keep (is_owned env s.object) items) (listed env s))

  pub reconcile_body-check_owned :
      (directory : String) (s : Session O) {release : Release}
      {images : List (Option OpenStackNodeImage)} {s₁ s₂ s₃ : Session O}
      → load_release env directory s ≡ (next (release, false), s₁)
      → load_node_images env release s₁ ≡ (next images, s₂)
      → ensure_node_images env release (generate_owner_reference s₂.object) images s₂
        ≡ (next tt, s₃)
      → reconcile_body env directory s ≡ check_owned env s₃
  unfolding reconcile_body with_release use_release
  reconcile_body-check_owned directory s found read ensured = ground arith

  -- If the release is there, its node images are read, an OpenStackNodeImageRelease is ensured for
  -- each, and the list call succeeds, then the body of `Reconcile` ends with the release ready and an
  -- empty result exactly if it owns some of what is listed and all of that is ready; otherwise the
  -- release is not ready, and it comes back in 30 seconds.
  pub reconcile_body-Settles :
      (directory : String) (s : Session O) {release : Release}
      {images : List (Option OpenStackNodeImage)} {items : List OpenStackNodeImageRelease}
      {s₁ s₂ s₃ : Session O}
      → load_release env directory s ≡ (next (release, false), s₁)
      → load_node_images env release s₁ ≡ (next images, s₂)
      → ensure_node_images env release (generate_owner_reference s₂.object) images s₂
        ≡ (next tt, s₃)
      → env.kube.list_node_image_releases s₃.history s₃.object.metadata.namespace ≡ ok items
      → Settles (is_complete (keep (is_owned env s₃.object) items)) (reconcile_body env directory s)
  reconcile_body-Settles directory s {s₃ = s₃} found read ensured answered =
      rw (reconcile_body-check_owned directory s found read ensured)
        (check_owned-Settles s₃ answered)
