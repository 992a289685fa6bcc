-- ===== src/Examples/NodeImages.antt =====
-- Runs of the node image controller, and its theorems at concrete data.
use cluster_stack_provider_o.Base.{
  ◌≢◌, All, List, ℕ, ◌≡◌, refl, ◌⊎◌, true, false, some, [], ◌∷◌, arith,
}
use cluster_stack_provider_o.Base.Int.{pos, sub_times}
use cluster_stack_provider_o.Api.{
  OpenStackNodeImageRelease, node_image_release_object, cluster_stack_release_object,
}
use cluster_stack_provider_o.Api.ConditionType
use cluster_stack_provider_o.Api.Constants.{minute}
use cluster_stack_provider_o.Runtime.Errors.{text, ok, empty, requeue_in, returns}
use cluster_stack_provider_o.Runtime.Calls.{Image, ImageStatus, Call, History}
use cluster_stack_provider_o.Runtime.Body.{Session, next, outcome_of}
use cluster_stack_provider_o.Runtime.Reconcile.{panicked, reconcile_with, summarise}
use cluster_stack_provider_o.NodeImage.Readiness.{SawOwnActive}
use cluster_stack_provider_o.NodeImage.Readiness.Reconcile.{reconcile_ready_needs_active}
use cluster_stack_provider_o.NodeImage.Writes.{writes, Wrote, reconcile_body-Wrote}
use cluster_stack_provider_o.NodeImage.Absence.{with_client-writes_when_absent}
use cluster_stack_provider_o.NodeImage.Frame.{SameButStatus, reconcile_patches_status}
use cluster_stack_provider_o.NodeImage.Verdict.{await_image_verdict}
use cluster_stack_provider_o.NodeImage.Safety.{
  IsDated, AtNil, reconcile_panics-AtNil, reconcile_panics,
}
use cluster_stack_provider_o.NodeImage.Secrets.{
  to_option, key_of, TellsNotFound, get_cloud_from_secret-cloud_in, reconcile_without_cloud,
}
use cluster_stack_provider_o.NodeImage.Timeout.{check_timeout_exact, exceeds_wraps}
use cluster_stack_provider_o.NodeImage.Importing.{
  announced, after_create, start_import-after_create,
}
use cluster_stack_provider_o.NodeImage.Cloud.{get_cloud_from_secret, client_opts, tls_config}
use cluster_stack_provider_o.NodeImage.Glance.{list_opts, choose_image, get_image_id}
use cluster_stack_provider_o.NodeImage.Connect.{load_cloud, connect, find_image}
use cluster_stack_provider_o.NodeImage.Import.{
  announce, create_wanted, import_created, start_import,
}
use cluster_stack_provider_o.NodeImage.Await.{
  exceeds, check_timeout, judge, fetch_image, await_image,
}
use cluster_stack_provider_o.NodeImage.Reconcile.{
  load_image, drive_image, with_client, with_cloud, reconcile as reconcile_node_image,
  reconcile_body as node_image_body, resource,
}
use cluster_stack_provider_o.Examples.Settings.{done, fresh, past, without_auth, without_secret}
use cluster_stack_provider_o.Examples.World.{
  world, transition, opts, node_image, cloud, glance_image, node_image_release, req,
}

abbrev patched : History → OpenStackNodeImageRelease
patched (Call.patch_node_image_release before after ∷ h) = after
patched h = node_image_release false []

node_image_run : History
unfolding reconcile_node_image node_image_body reconcile_with load_cloud get_cloud_from_secret
    with_cloud connect client_opts tls_config load_image with_client find_image get_image_id
    list_opts choose_image drive_image await_image fetch_image check_timeout judge
node_image_run = (reconcile_node_image (world done) (pos 0) req []).1

reconcile_ready_needs_active_example :
    (false ≡ true)
    ⊎ SawOwnActive (world done) (node_image_release false []).spec (past node_image_run)
unfolding node_image_run
reconcile_ready_needs_active_example =
    reconcile_ready_needs_active (world done) (pos 0) req [] (node_image_release false [])
      (patched node_image_run) (past node_image_run) refl refl

abbrev session : Session OpenStackNodeImageRelease
session = record { object = node_image_release false []; history = [] }

reconcile_body-Wrote_example :
    Wrote (world fresh) [] (node_image_body (world fresh) (pos 0) session).1.history
reconcile_body-Wrote_example = reconcile_body-Wrote (world fresh) (pos 0) session

-- Nothing is found: the image is created and then imported.
fresh_run :
    writes (node_image_body (world fresh) (pos 0) session).1.history
    ≡ Call.import_image 2 "f00" "https://images/ubuntu.qcow2" ∷ Call.create_image 2 opts ∷ []
unfolding node_image_body load_cloud get_cloud_from_secret with_cloud connect client_opts tls_config
    load_image with_client find_image get_image_id list_opts choose_image drive_image start_import
    announce create_wanted import_created
fresh_run = refl

start_import-after_create_example :
    let r = start_import (world fresh) 2 node_image opts session in
    (outcome_of r.0, r.1.history)
    ≡ after_create
        (world fresh)
        2
        "https://images/ubuntu.qcow2"
        "openstack-ferrol-1-27-ubuntu-v1"
        opts
        (announced (world fresh) opts session)
        (ok (glance_image ImageStatus.queued))
start_import-after_create_example =
    start_import-after_create (world fresh) 2 node_image opts session

fresh_named :
    (h : History) (pages : ℕ) (images : List Image)
    → (world fresh).openstack.extract_images h pages ≡ ok images
    → All (λ image. image.id ≢ "") images
fresh_named h pages [] e = tt
fresh_named h pages (image ∷ images) e = cc

with_client-writes_when_absent_example :
    (pages : ℕ) × (ok 3 ≡ ok pages)
    × ((world fresh).openstack.extract_images (Call.list_images 2 (list_opts opts) ∷ []) pages
        ≡ ok [])
unfolding list_opts with_client find_image get_image_id choose_image drive_image start_import
    announce create_wanted import_created
with_client-writes_when_absent_example =
    with_client-writes_when_absent (world fresh) fresh_named (pos 0) 2 (node_image, opts) session
      (λ e. cc)

await_image_verdict_example :
    let (flow, s') = await_image (world done) (pos 0) 2 opts "f00" session in
    (outcome_of flow ≡ some (returns empty)) × (s'.object.status.ready ≡ true)
await_image_verdict_example =
    await_image_verdict (world done) (pos 0) 2 opts "f00" session refl
      (unfold check_timeout in refl)

dated : IsDated (world without_auth)
dated = record { transition = transition without_auth }

reconcile_panics-AtNil_example :
    (before : OpenStackNodeImageRelease) × (s : Session OpenStackNodeImageRelease) × AtNil
      (world without_auth)
      s
    × ((reconcile_node_image (world without_auth) (pos 60) req []).1
        ≡ Call.patch_node_image_release before
            (summarise (world without_auth) (resource (world without_auth)) s)
          ∷ s.history)
unfolding load_cloud get_cloud_from_secret
reconcile_panics-AtNil_example =
    reconcile_panics-AtNil (world without_auth) dated (pos 60) req []
      (reconcile_panics (world without_auth) (pos 60) req [] refl refl refl refl)

reconcile_panics_example : (reconcile_node_image (world without_auth) (pos 60) req []).0 ≡ panicked
unfolding load_cloud get_cloud_from_secret
reconcile_panics_example = reconcile_panics (world without_auth) (pos 60) req [] refl refl refl refl

get_cloud_from_secret-cloud_in_example :
    to_option (get_cloud_from_secret (world done) "cluster" "creds" []).0
    ≡ some (cloud, some (9 ∷ []))
get_cloud_from_secret-cloud_in_example =
    get_cloud_from_secret-cloud_in (world done) "cluster" "creds" [] refl

telling : TellsNotFound (world without_secret)
telling = record {
  wrapped = λ s e. refl;
  plain_error = λ s. refl;
  yaml_text = λ b e h. cc;
  yaml_clouds = λ b e h. cc;
}

reconcile_without_cloud_example :
    let (flow, s') = node_image_body (world without_secret) (pos 0) session in
    (outcome_of flow ≡ some (returns (requeue_in minute)))
    × (s'.history
        ≡ Call.warning "openstack-ferrol-1-27-ubuntu-v1" "SecretNotFound"
            "failed to get secret creds in namespace cluster: not found" []
          ∷ Call.get_secret (key_of "cluster" "creds")
          ∷ [])
    × (s'.object.status.ready ≡ false)
unfolding get_cloud_from_secret text
reconcile_without_cloud_example =
    reconcile_without_cloud (world without_secret) telling (pos 0) session refl refl

exceeds_wraps_example : exceeds (pos 153722868) ImageStatus.queued (sub_times 5 5) ≡ true
exceeds_wraps_example =
    exceeds_wraps 153722868 ImageStatus.queued 5 5 (omega arith) (omega arith) refl (omega arith)

abbrev importing : Session OpenStackNodeImageRelease
importing = record session {
  object = record (node_image_release false []) {
    status = record {
      ready = false;
      conditions =
          (world done).conditions.mark_true [] ConditionType.open_stack_image_import_started [];
    };
  };
}

check_timeout_exact_example :
    (check_timeout (world done) (pos 1) (glance_image ImageStatus.saving) importing).0 ≡ next tt
check_timeout_exact_example =
    check_timeout_exact (world done) 1 (glance_image ImageStatus.saving) importing 0 (omega arith)
      (omega arith) refl refl

reconcile_patches_status_example :
    SameButStatus (node_image_release false []) (patched node_image_run)
unfolding node_image_run
reconcile_patches_status_example =
    reconcile_patches_status (world done) (pos 0) req [] (node_image_release false [])
      (patched node_image_run) (past node_image_run) refl
