-- ===== src/ClusterStack/Order.antt =====
-- The order in which the API server lists OpenStackNodeImageReleases, which it does not promise.
use mathlib.Core.List.{Perm, Permᴰ}
use mathlib.Core.Logic.{∥∥₁_elim}
use mathlib.Core.Bool.{Bool-set}
use cluster_stack_provider_o.Base.{
  ◌≡◌, refl, ◌∙◌, Option, Bool, ◌&&◌, List, [], ◌∷◌, all, keep, length, ltb, arith,
}
use cluster_stack_provider_o.Api.{OpenStackNodeImageRelease, OpenStackClusterStackRelease}
use cluster_stack_provider_o.Runtime.Errors.{Outcome}
use cluster_stack_provider_o.Runtime.Env.{Env}
use cluster_stack_provider_o.Runtime.Body.{Session, outcome_of}
use cluster_stack_provider_o.ClusterStack.Owner.{is_owned, collect_owned}
use cluster_stack_provider_o.ClusterStack.Ownership.{collect_owned-keep_onto}
use cluster_stack_provider_o.ClusterStack.NodeImages.{report}
use cluster_stack_provider_o.ClusterStack.Readiness.{is_ready, is_complete, report_verdict}

abbrev N : Type 0
N = OpenStackNodeImageRelease

is_complete-length : (ns : List N) → is_complete ns ≡ (ltb 0 (length ns) && all is_ready ns)
is_complete-length [] = refl
is_complete-length (n ∷ ns) = ground arith

module _ (p : N → Bool) where
  all_permuted :
      {ns ms : List N} → Permᴰ ns ms → all is_ready (keep p ns) ≡ all is_ready (keep p ms)
  all_permuted Permᴰ.nil = refl
  all_permuted (Permᴰ.cons e d) = ground (arith, all_permuted d)
  all_permuted (Permᴰ.swap e f) = ground arith
  all_permuted (Permᴰ.trans d e) = all_permuted d ∙ all_permuted e

  length_permuted : {ns ms : List N} → Permᴰ ns ms → length (keep p ns) ≡ length (keep p ms)
  length_permuted Permᴰ.nil = refl
  length_permuted (Permᴰ.cons e d) = ground (arith, length_permuted d)
  length_permuted (Permᴰ.swap e f) = ground arith
  length_permuted (Permᴰ.trans d e) = length_permuted d ∙ length_permuted e

  is_complete_permuted :
      {ns ms : List N} → Permᴰ ns ms → is_complete (keep p ns) ≡ is_complete (keep p ms)
  is_complete_permuted {ns} {ms} d = rw (
    is_complete-length (keep p ns),
    is_complete-length (keep p ms),
    all_permuted d,
    length_permuted d,
  )

module _ (env : Env) (r : OpenStackClusterStackRelease) where
  -- What is made of the listed releases.
  abbrev pub judged : List N → Session OpenStackClusterStackRelease → Option Outcome × Bool
  judged items s =
      let (flow, s') = report env (collect_owned env r [] items) s in
      (outcome_of flow, s'.object.status.ready)

  judged-is_complete :
      (items items' : List N) (s : Session OpenStackClusterStackRelease)
      → is_complete (keep (is_owned env r) items) ≡ is_complete (keep (is_owned env r) items')
      → judged items s ≡ judged items' s
  judged-is_complete items items' s same =
      let (ready, outcome) = report_verdict env (collect_owned env r [] items) s in
      let (ready', outcome') = report_verdict env (collect_owned env r [] items') s in
      cc (
        ready,
        outcome,
        ready',
        outcome',
        collect_owned-keep_onto env r [] items,
        collect_owned-keep_onto env r [] items',
      )

  -- What is made of the listed OpenStackNodeImageReleases, the readiness of the release and when it
  -- is looked at again, does not depend on their order.
  pub judged-Perm :
      (items items' : List N) (s : Session OpenStackClusterStackRelease)
      → Perm items items'
      → judged items s ≡ judged items' s
  judged-Perm items items' s order =
      judged-is_complete items items' s
        (∥∥₁_elim order (Bool-set _ _) (is_complete_permuted (is_owned env r)))
