-- ===== src/NodeImage/Timeout.antt =====
-- The import timeout, lines 256 to 278: 64-bit durations against plain arithmetic.
use cluster_stack_provider_o.Base.{
  ℕ, ◌+◌, ◌*◌, ◌<◌, ◌≤◌, ◌≡◌, true, false, some, not, ◌&&◌, arith, ltb, if◌then◌else◌,
}
use cluster_stack_provider_o.Base.Int.{pos, ltb_ℤ, mul_int64, mul_int64_exact, sub_times, half}
use cluster_stack_provider_o.Api.{OpenStackNodeImageRelease}
use cluster_stack_provider_o.Api.ConditionType
use cluster_stack_provider_o.Api.Constants.{minute}
use cluster_stack_provider_o.Runtime.Errors.{empty, returns}
use cluster_stack_provider_o.Runtime.Calls.{Image, ImageStatus}
use cluster_stack_provider_o.Runtime.Env.{Env}
use cluster_stack_provider_o.Runtime.Body.{Session, next, stop}
use cluster_stack_provider_o.NodeImage.Await.{import_timeout, exceeds, is_active, check_timeout}

-- The greatest number of minutes that a `time.Duration` holds.
abbrev pub most_minutes : ℕ
most_minutes = 153722867

import_timeout_exact : (n : ℕ) → n ≤ most_minutes → import_timeout (pos n) ≡ pos (n * minute)
unfolding import_timeout
import_timeout_exact n h = mul_int64_exact n minute (omega arith) (omega arith) (omega arith)

ltb_ℤ-sub_times :
    (limit now start : ℕ)
    → limit + 1 < half
    → ltb_ℤ (pos limit) (sub_times now start) ≡ ltb (start + limit) now
unfolding sub_times
ltb_ℤ-sub_times limit now start h = ground arith

exceeds_exact :
    (n : ℕ) (status : ImageStatus) (now start : ℕ)
    → n ≤ most_minutes
    → exceeds (pos n) status (sub_times now start)
      ≡ (not (is_active status) && ltb (start + n * minute) now)
unfolding exceeds
exceeds_exact n status now start h =
    rw (import_timeout_exact n h, ltb_ℤ-sub_times (n * minute) now start (omega arith))

-- From one minute up to `most_minutes`, with an import that was marked as started at `start`: the
-- reconciliation stops, with an empty result and no error, exactly if the image is not active and
-- more than the configured minutes have passed since `start` on the clock; otherwise it goes on.
pub check_timeout_exact :
    (env : Env) (n : ℕ) (image : Image) (s : Session OpenStackNodeImageRelease) (start : ℕ)
    → 0 < n
    → n ≤ most_minutes
    → env.conditions.is_true ConditionType.open_stack_image_import_started
        s.object.status.conditions
      ≡ true
    → env.conditions.get_last_transition_time ConditionType.open_stack_image_import_started
        s.object.status.conditions
      ≡ some start
    → (check_timeout env (pos n) image s).0 ≡ (
        if not (is_active image.status) && ltb (start + n * minute) (env.now s.history)
        then stop (returns empty)
        else next tt)
unfolding check_timeout
check_timeout_exact env n image s start h k marked since =
    ground (arith, exceeds_exact n image.status (env.now s.history) start k)

-- Above it the product wraps to a negative duration: up to twice that many minutes, an image that
-- is not active counts as overdue as soon as the import has started.
pub exceeds_wraps :
    (n : ℕ) (status : ImageStatus) (now start : ℕ)
    → most_minutes < n
    → n ≤ 2 * most_minutes
    → is_active status ≡ false
    → start ≤ now
    → exceeds (pos n) status (sub_times now start) ≡ true
unfolding exceeds import_timeout mul_int64 sub_times
exceeds_wraps n status now start lo hi waiting h = ground arith
