-- ===== src/ClusterStack/Convergence.antt =====
-- One request for a release that is served, which the workqueue takes up again as long as `Reconcile`
-- asks for it.
use cluster_stack_provider_o.Base.{
  ℕ, ◌+◌, ◌≤◌, ◌<◌, ◌≡◌, inl, inr, refl, ap, true, some, ◌∷◌, arith, Bool-cases, String,
}
use cluster_stack_provider_o.Api.{
  NamespacedName, OpenStackClusterStackRelease, cluster_stack_release_object,
}
use cluster_stack_provider_o.Runtime.Errors.{Outcome, empty, returns}
use cluster_stack_provider_o.Runtime.Calls.{Call, History}
use cluster_stack_provider_o.Runtime.Env.{Env}
use cluster_stack_provider_o.Runtime.Body.{Session, outcome_of}
use cluster_stack_provider_o.Runtime.Reconcile.{
  Exit, returned, started, summarise, reconcile_with_returned,
}
use cluster_stack_provider_o.Runtime.Later.{IsAfter, same, more}
use cluster_stack_provider_o.Runtime.Requeue.{Turn, asks_again, follow, follow-IsSettled}
use cluster_stack_provider_o.ClusterStack.Reconcile.{reconcile_body, reconcile, resource}
use cluster_stack_provider_o.ClusterStack.Service.{
  IsServed, HasAssets, BecomeReady, IsEnsured, IsEnsured-same,
}
use cluster_stack_provider_o.ClusterStack.BodyTurn.{rank, IsAfter-rank, body_turn}
use cluster_stack_provider_o.ClusterStack.Ownership.{writes, Recognises}

abbrev O : Type 0
O = OpenStackClusterStackRelease

-- How a settled request ends: an empty result without an error, after a patch to ready.
abbrev pub HasBecomeReady : Exit × History → Type 0
HasBecomeReady r =
    (before after : O) × (past : History) × (r.0 ≡ returned (returns empty))
    × (r.1 ≡ Call.patch_cluster_stack_release before after ∷ past)
    × (after.status.ready ≡ true)

module _ (env : Env) (directory : String) (req : NamespacedName) (release : O)
    (served : IsServed env req release) (assets : HasAssets env directory release)
    (ready : BecomeReady env release assets.place assets.images)
    (recognises : Recognises env release) where
  -- The session in which the body starts.
  abbrev opened : History → Session O
  opened h = started {0} env (resource env) req h (record release { status = (served.get h).0 })

  closed :
      (h : History) {o : Outcome}
      → let r = reconcile_body env directory (opened h) in
        outcome_of r.0 ≡ some o
        → reconcile env directory req h ≡ (
          returned o,
          Call.patch_cluster_stack_release (opened h).object (summarise env (resource env) r.1)
              ∷ r.1.history,
        )
  unfolding reconcile
  closed h =
      reconcile_with_returned env (resource env) (reconcile_body env directory) req h
        (served.get h).1 served.new_patch_helper served.patch

  -- How it ends, with the node images ensured by the last writes.
  abbrev IsSettled : Exit × History → Type 0
  IsSettled r = HasBecomeReady r × IsEnsured env release assets.place assets.images r.1

  turn :
      (h : History)
      → Turn
          (reconcile env directory req)
          IsSettled
          (rank env directory req release served assets ready recognises)
          (λ h. Unit {0})
          h
  turn h =
      let since : IsAfter h (opened h).history = more _ refl (more _ refl same) in
      let r = reconcile_body env directory (opened h) in
      let patch =
        Call.patch_cluster_stack_release (opened h).object (summarise env (resource env) r.1) in
      let first = IsAfter-rank env directory req release served assets ready recognises since in
      let last =
        IsAfter-rank env directory req release served assets ready recognises {a = r.1.history}
          (more patch refl same) in
      elim (body_turn env directory req release served assets ready recognises (opened h)
        (refl, refl, refl)) [
          | inl (ends, is_ready, ensured) ↦
              let e = closed h ends in
              inl (
                ap (λ r. asks_again r.0) e,
                (
                  (_, _, _, ap (λ r. r.0) e, ap (λ r. r.1) e, is_ready),
                  IsEnsured-same (ap (λ r. writes r.1) e) ensured,
                ),
              )
          | inr goes_on ↦
              let e = closed h goes_on.ends in
              inr (rw e (goes_on.again), rw e (omega (arith, first, last, goes_on.nearer)), tt)
        ]

  at_most_one_more :
      (h : History)
      → rank env directory req release served assets ready recognises h ≤ ready.left h + 1
  at_most_one_more h = elim (Bool-cases (assets.missing h)) [
    | inl gone ↦ rw gone (omega arith)
    | inr there ↦ rw there (omega arith)
  ]

  -- If the API server keeps the release and serves the node image releases, `EnsureOwnerRef` and the
  -- parsing of the version recognise the owner, the assets are there or can be downloaded and then
  -- stay until they are removed, they name whole node images, the release's name is a tag that can
  -- be cut, and once the last writes have ensured one node image release for each node image, all
  -- that the release owns are ready after at most `left` listings, with at least one among them,
  -- then from every history `Reconcile`, called again only as long as it asks for it, makes the
  -- release ready: after at most `left` + 2 calls of it, it returns an empty result with no error,
  -- its last call patches the release to ready, and the last writes before that have ensured a node
  -- image release for each node image.
  pub follow-HasBecomeReady :
      (n : ℕ) (h : History)
      → ready.left h < n
      → let r = follow (reconcile env directory req) n h in
        HasBecomeReady r × IsEnsured env release assets.place assets.images r.1
  follow-HasBecomeReady n h near =
      follow-IsSettled (reconcile env directory req) IsSettled
        (rank env directory req release served assets ready recognises) (λ h. Unit {0})
        (λ h kept. turn h) n h tt (omega (arith, near, at_most_one_more h))
