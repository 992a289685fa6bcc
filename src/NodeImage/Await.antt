-- ===== src/NodeImage/Await.antt =====
-- `Reconcile` where an image is found: its timeout and its status (lines 242 to 328).
use cluster_stack_provider_o.Base.{
  String, ◌<>◌, Bool, true, false, not, ◌&&◌, [], ◌∷◌, if◌then◌else◌,
}
use cluster_stack_provider_o.Base.Int.{ℤ, pos, ltb_ℤ, mul_int64, sub_times}
use cluster_stack_provider_o.Base.Text.{decimal_ℤ}
use cluster_stack_provider_o.Api.{
  OpenStackNodeImageRelease, CreateOpts, Severity, node_image_release_object,
}
use cluster_stack_provider_o.Api.ConditionType
use cluster_stack_provider_o.Api.Reason
use cluster_stack_provider_o.Api.Constants.{minute, wait_for_image_become_active}
use cluster_stack_provider_o.Runtime.Errors.{
  Outcome, Try, text, ok, err, empty, requeue_in, returns,
}
use cluster_stack_provider_o.Runtime.Calls.{
  Address, Image, ImageStatus, queued, saving, active, killed, deleted, pending_delete, deactivated,
  importing, unlisted, Call,
}
use cluster_stack_provider_o.Runtime.Env.{Env}
use cluster_stack_provider_o.Runtime.Task
use cluster_stack_provider_o.Runtime.Body.{
  ◌>>=◌, ◌>>◌, Body, pure, return, deref, get, call, observe, mark_true, mark_false, set_ready,
  eventf, warnf,
}

abbrev O : Type 0
O = OpenStackNodeImageRelease

-- The constants of gophercloud, as they are printed.
abbrev pub status_text : ImageStatus → String
status_text queued = "queued"
status_text saving = "saving"
status_text active = "active"
status_text killed = "killed"
status_text deleted = "deleted"
status_text pending_delete = "pending_delete"
status_text deactivated = "deactivated"
status_text importing = "importing"
status_text (unlisted s) = s

abbrev pub is_active : ImageStatus → Bool
is_active active = true
is_active _ = false

-- `time.Duration(r.ImageImportTimeout) * time.Minute`
unfoldable pub import_timeout : ℤ → ℤ
import_timeout minutes = mul_int64 minutes (pos minute)

-- The test of line 265.
unfoldable pub exceeds : ℤ → ImageStatus → ℤ → Bool
unfolding import_timeout
exceeds minutes status elapsed = not (is_active status) && ltb_ℤ (import_timeout minutes) elapsed

module _ (env : Env) where
  keep_image : Try Image → Body O Image
  keep_image (ok image) = pure image
  keep_image (err e) = do
    mark_false env ConditionType.open_stack_image_ready Reason.issue_with_open_stack_image
        Severity.error (text e)
    warnf "OpenStackImageFailedToGet" (text e)
    return (returns empty)

  -- Lines 266 to 276.
  time_out : ℤ → Image → Body O (Unit {0})
  time_out minutes image = do
    let message =
        "timeout - wait for the image "
        <> (image.name
            <> (" to transition to the ACTIVE status exceeds the timeout duration "
                <> (decimal_ℤ minutes <> " minutes")))
    mark_false env ConditionType.open_stack_image_ready Reason.open_stack_image_import_time_out
        Severity.error message
    warnf "OpenStackImageImportTimeout" message
    return (returns empty)

  -- Lines 258 to 277. `GetLastTransitionTime` may be nil.
  measure_import : ℤ → Image → Body O (Unit {0})
  unfolding time_out
  measure_import minutes image = do
    r ← get
    start ← deref (
        env.conditions.get_last_transition_time ConditionType.open_stack_image_import_started
          r.status.conditions)
    elapsed ← observe (λ h. sub_times (env.now h) start)
    if exceeds minutes image.status elapsed then time_out minutes image else pure tt

  -- Lines 256 to 278.
  unfoldable pub check_timeout : ℤ → Image → Body O (Unit {0})
  unfolding measure_import
  check_timeout minutes image = do
    r ← get
    let started =
        env.conditions.is_true ConditionType.open_stack_image_import_started r.status.conditions
    if ltb_ℤ (pos 0) minutes && started then measure_import minutes image else pure tt

  -- The two branches that set a failure.
  reject : String → String → Body O Outcome
  reject reason message = do
    mark_false env ConditionType.open_stack_image_ready Reason.issue_with_open_stack_image
        Severity.error message
    set_ready false
    warnf reason message
    pure (returns empty)

  wait : Body O Outcome
  wait = do
    mark_false env ConditionType.open_stack_image_ready Reason.open_stack_image_not_imported_yet
        Severity.info "waiting for image to become ACTIVE"
    set_ready false
    return (returns (requeue_in wait_for_image_become_active))

  accept : CreateOpts → String → Body O Outcome
  accept opts id = do
    mark_true env ConditionType.open_stack_image_ready
    set_ready true
    eventf "OpenStackImageActive" "image status is ACTIVE %q, ID %q" (opts.name ∷ id ∷ [])
    pure (returns empty)

  unexpected : ImageStatus → Body O Outcome
  unfolding reject
  unexpected status =
      reject "OpenStackImageStatusUnexpected"
        ("image status " <> (status_text status <> " is unexpected"))

  -- The `switch` of lines 281 to 327.
  unfoldable pub judge : CreateOpts → String → ImageStatus → Body O Outcome
  unfolding accept wait unexpected reject
  judge opts id active = accept opts id
  judge opts id deactivated = unexpected deactivated
  judge opts id killed = unexpected killed
  judge opts id queued = wait
  judge opts id saving = wait
  judge opts id deleted = wait
  judge opts id pending_delete = wait
  judge opts id importing = wait
  judge opts id (unlisted s) =
      reject "OpenStackImageStatusUnknown"
        ("image status " <> (status_text (unlisted s) <> " is unknown"))

  -- Lines 242 to 254.
  unfoldable pub fetch_image : Address → String → Body O Image
  unfolding keep_image
  fetch_image client id = do
    found ← call (Task.ask (Call.get_image client id) (λ h. env.openstack.get_image h client id))
    keep_image found

  unfoldable pub await_image : ℤ → Address → CreateOpts → String → Body O Outcome
  await_image minutes client opts id = do
    image ← fetch_image client id
    check_timeout minutes image
    judge opts id image.status
