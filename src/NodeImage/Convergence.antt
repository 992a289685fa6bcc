-- ===== src/NodeImage/Convergence.antt =====
-- One node image release, reconciled again as long as `Reconcile` asks for it.
use cluster_stack_provider_o.Base.{
  ◌+◌, Option-cases, ℕ, ◌≤◌, ◌<◌, ◌≡◌, ◌≢◌, none, inl, inr, false, arith,
}
use cluster_stack_provider_o.Base.Int.{ℤ, pos, ltb_ℤ}
use cluster_stack_provider_o.Api.{
  NamespacedName, OpenStackNodeImageRelease, node_image_release_object,
}
use cluster_stack_provider_o.Runtime.Calls.{Call, History}
use cluster_stack_provider_o.Runtime.Env.{Env}
use cluster_stack_provider_o.Runtime.Requeue.{follow, follow-IsSettled}
use cluster_stack_provider_o.NodeImage.Reconcile.{reconcile}
use cluster_stack_provider_o.NodeImage.Service.{IsServed, Glance}
use cluster_stack_provider_o.NodeImage.Turn.{HasSettled, IsDone, rank, turn}
use cluster_stack_provider_o.NodeImage.BodyTurn.{Kept}
use cluster_stack_provider_o.Runtime.Later.{Called}

abbrev O : Type 0
O = OpenStackNodeImageRelease

module _ (env : Env) (req : NamespacedName) (release : O) (served : IsServed env req release)
    (glance : Glance env served.client served.complete.opts served.complete.image.url) where
  module _ (minutes : ℤ) (unlimited : ltb_ℤ (pos 0) minutes ≡ false) where
    at_most_one_more : (h : History) → rank env req release served glance h ≤ glance.left h + 1
    at_most_one_more h = elim (Option-cases (glance.held h)) [
      | inl absent ↦ rw absent (omega arith)
      | inr (image, present) ↦ rw present (omega arith)
    ]

    -- If the API server keeps the release and its secret, the login succeeds, Glance creates an image
    -- with one fixed id only when it is asked to, imports what it is asked to, lists and keeps the
    -- image, and, once the image is imported from the release's URL, shows it as active after at
    -- most `left` looks and as on its way before that, no import timeout is set, and an image that
    -- is there at first was imported, then `Reconcile`, called again only as long as it asks for it,
    -- makes the release ready: after at most `left` + 2 calls of it, it returns an empty result with
    -- no error, its last call patches the release to ready, and Glance was asked to import the image
    -- from the release's URL.
    pub follow-HasSettled :
        (n : ℕ) (h : History)
        → (glance.held h ≢ none
            → Called (Call.import_image served.client glance.id served.complete.image.url) h)
        → glance.left h < n
        → let r = follow (reconcile env minutes req) n h in
          HasSettled r
          × Called (Call.import_image served.client glance.id served.complete.image.url) r.1
    follow-HasSettled n h kept near =
        follow-IsSettled (reconcile env minutes req)
          (IsDone env req release served glance minutes unlimited)
          (rank env req release served glance) (Kept env req release served glance)
          (turn env req release served glance minutes unlimited) n h kept
          (omega (arith, near, at_most_one_more h))
