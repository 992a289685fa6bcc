-- ===== src/NodeImage/Verdict.antt =====
-- What `Reconcile` makes of an image that Glance has: readiness and requeueing by its status.
use cluster_stack_provider_o.Base.{
  String, ◌≡◌, refl, ◌∷◌, Bool, true, false, some, arith, if◌then◌else◌,
}
use cluster_stack_provider_o.Base.Int.{ℤ}
use cluster_stack_provider_o.Api.{OpenStackNodeImageRelease, CreateOpts}
use cluster_stack_provider_o.Api.Constants.{wait_for_image_become_active}
use cluster_stack_provider_o.Runtime.Errors.{ok, empty, requeue_in, returns}
use cluster_stack_provider_o.Runtime.Calls.{
  Address, Image, ImageStatus, queued, saving, active, deleted, pending_delete, importing, Call,
}
use cluster_stack_provider_o.Runtime.Env.{Env}
use cluster_stack_provider_o.Runtime.Later.{IsAfter, same, more, IsAfter-trans}
use cluster_stack_provider_o.Runtime.Body.{Session, next, outcome_of}
use cluster_stack_provider_o.NodeImage.Await.{
  is_active, check_timeout, judge, fetch_image, await_image,
}

-- The statuses of an image on its way: the ones that are waited for.
abbrev pub is_pending : ImageStatus → Bool
is_pending queued = true
is_pending saving = true
is_pending deleted = true
is_pending pending_delete = true
is_pending importing = true
is_pending _ = false

module _ (env : Env) (opts : CreateOpts) (id : String) where
  judge-outcome_of :
      (status : ImageStatus) (s : Session OpenStackNodeImageRelease)
      → outcome_of (judge env opts id status s).0
        ≡ some
            (returns (if is_pending status then requeue_in wait_for_image_become_active else empty))
  unfolding judge
  judge-outcome_of active s = ground arith
  judge-outcome_of status s = ground arith

  judge-ready :
      (status : ImageStatus) (s : Session OpenStackNodeImageRelease)
      → (judge env opts id status s).1.object.status.ready ≡ is_active status
  unfolding judge
  judge-ready active s = ground arith
  judge-ready status s = ground arith

  -- Waiting makes no call.
  judge-history :
      (status : ImageStatus) (s : Session OpenStackNodeImageRelease)
      → is_pending status ≡ true
      → (judge env opts id status s).1.history ≡ s.history
  unfolding judge
  judge-history active s pending = absurd (ground arith)
  judge-history status s pending = ground arith

  judge_active-IsAfter :
      (s : Session OpenStackNodeImageRelease)
      → IsAfter s.history (judge env opts id active s).1.history
  unfolding judge
  judge_active-IsAfter s = more _ refl same

-- The session after the call that gets the image.
abbrev pub asked :
    Address → String → Session OpenStackNodeImageRelease → Session OpenStackNodeImageRelease
asked client id s = record s { history = Call.get_image client id ∷ s.history }

module _ (env : Env) where
  -- A check that passes leaves the session as it was.
  pub check_timeout_next :
      (minutes : ℤ) (image : Image) (s : Session OpenStackNodeImageRelease) {a : Unit {0}}
      {s' : Session OpenStackNodeImageRelease}
      → check_timeout env minutes image s ≡ (next a, s')
      → s' ≡ s
  unfolding check_timeout
  check_timeout_next minutes image s h = ground arith

  check_timeout_pass :
      (minutes : ℤ) (image : Image) (s : Session OpenStackNodeImageRelease)
      → (check_timeout env minutes image s).0 ≡ next tt
      → (check_timeout env minutes image s).1 ≡ s
  unfolding check_timeout
  check_timeout_pass minutes image s h = ground arith

  await_image-judge :
      (minutes : ℤ) (client : Address) (opts : CreateOpts) (id : String) {image : Image}
      (s : Session OpenStackNodeImageRelease)
      → env.openstack.get_image s.history client id ≡ ok image
      → (check_timeout env minutes image (asked client id s)).0 ≡ next tt
      → await_image env minutes client opts id s
        ≡ judge env opts id image.status (asked client id s)
  unfolding await_image fetch_image
  await_image-judge minutes client opts id {image} s found passes =
      ground (arith, check_timeout_pass minutes image (asked client id s) passes)

  pub await_image-history :
      (minutes : ℤ) (client : Address) (opts : CreateOpts) (id : String) {image : Image}
      (s : Session OpenStackNodeImageRelease)
      → env.openstack.get_image s.history client id ≡ ok image
      → (check_timeout env minutes image (asked client id s)).0 ≡ next tt
      → is_pending image.status ≡ true
      → (await_image env minutes client opts id s).1.history ≡ Call.get_image client id ∷ s.history
  await_image-history minutes client opts id s found passes pending =
      rw (await_image-judge minutes client opts id s found passes)
        (judge-history env opts id _ _ pending)

  -- What was called before is still in the history once the image is active.
  pub await_image_active-IsAfter :
      (minutes : ℤ) (client : Address) (opts : CreateOpts) (id : String) {image : Image}
      (s : Session OpenStackNodeImageRelease)
      → env.openstack.get_image s.history client id ≡ ok image
      → (check_timeout env minutes image (asked client id s)).0 ≡ next tt
      → image.status ≡ active
      → IsAfter s.history (await_image env minutes client opts id s).1.history
  await_image_active-IsAfter minutes client opts id s found passes status =
      rw (await_image-judge minutes client opts id s found passes, status)
        (IsAfter-trans (more _ refl same) (judge_active-IsAfter env opts id (asked client id s)))

  pub fetch_image_next :
      (client : Address) (id : String) (s : Session OpenStackNodeImageRelease) {image : Image}
      {s' : Session OpenStackNodeImageRelease}
      → fetch_image env client id s ≡ (next image, s')
      → (env.openstack.get_image s.history client id ≡ ok image) × (s' ≡ asked client id s)
  unfolding fetch_image
  fetch_image_next client id s h = ground arith

  -- If Glance answers with the image and its import is not timed out, then there is no error, the
  -- release is ready exactly if the image is active, and it is looked at again after 30 seconds
  -- exactly if the image is queued, saving, importing, deleted or about to be deleted.
  pub await_image_verdict :
      (minutes : ℤ) (client : Address) (opts : CreateOpts) (id : String) {image : Image}
      (s : Session OpenStackNodeImageRelease)
      → env.openstack.get_image s.history client id ≡ ok image
      → (check_timeout env minutes image (asked client id s)).0 ≡ next tt
      → let (flow, s') = await_image env minutes client opts id s in
        (outcome_of flow
          ≡ some (
              returns (
                if is_pending image.status
                then requeue_in wait_for_image_become_active
                else empty)))
        × (s'.object.status.ready ≡ is_active image.status)
  await_image_verdict minutes client opts id {image} s found passes =
      rw (await_image-judge minutes client opts id s found passes)
        (judge-outcome_of env opts id _ _, judge-ready env opts id _ _)
