-- ===== src/NodeImage/Turn.antt =====
-- One reconciliation of a release that is served: it settles the request, or asks to be called again
-- and has come nearer.
use cluster_stack_provider_o.Base.{
  ℕ, ◌+◌, Option-cases, ◌≤◌, ◌<◌, ◌≡◌, ◌≢◌, inl, inr, refl, ap, true, false, none, some, ◌∷◌, arith,
}
use cluster_stack_provider_o.Base.Int.{ℤ, pos, ltb_ℤ}
use cluster_stack_provider_o.Api.{
  NamespacedName, OpenStackNodeImageRelease, node_image_release_object,
}
use cluster_stack_provider_o.Runtime.Errors.{Outcome, empty, returns}
use cluster_stack_provider_o.Runtime.Calls.{Call, History}
use cluster_stack_provider_o.Runtime.Env.{Env}
use cluster_stack_provider_o.Runtime.Body.{Session, outcome_of}
use cluster_stack_provider_o.Runtime.Reconcile.{
  Exit, returned, started, summarise, reconcile_with_returned,
}
use cluster_stack_provider_o.NodeImage.Reconcile.{resource, reconcile_body, reconcile}
use cluster_stack_provider_o.NodeImage.Service.{
  IsServed, Glance, IsImported, IsAfter-kept, IsAfter-absent, IsAfter-left,
}
use cluster_stack_provider_o.NodeImage.BodyTurn.{Kept, body_turn}
use cluster_stack_provider_o.Runtime.Requeue.{Turn, asks_again}
use cluster_stack_provider_o.Runtime.Later.{IsAfter, same, more, earlier}

abbrev O : Type 0
O = OpenStackNodeImageRelease

-- How a settled request ends: an empty result without an error, after a patch to ready.
abbrev pub HasSettled : Exit × History → Type 0
HasSettled r =
    (before after : O) × (past : History) × (r.0 ≡ returned (returns empty))
    × (r.1 ≡ Call.patch_node_image_release before after ∷ past)
    × (after.status.ready ≡ true)

module _ (env : Env) (req : NamespacedName) (release : O) (served : IsServed env req release)
    (glance : Glance env served.client served.complete.opts served.complete.image.url) where
  -- What is before a release: the creation, if there is no image, and the looks.
  abbrev pub rank : History → ℕ
  rank h = glance.left h + (elim (glance.held h) [ none ↦ 1 | some image ↦ 0 ])

  rank_lower :
      (h h' : History)
      → glance.held h' ≢ none
      → (glance.held h ≢ none → glance.left h' < glance.left h)
      → glance.left h' ≤ glance.left h
      → rank h' < rank h
  rank_lower h h' held closer not_farther = elim (Option-cases (glance.held h')) [
    | inl lost ↦ absurd (held lost)
    | inr (image, there) ↦ elim (Option-cases (glance.held h)) [
      | inl absent ↦ rw (there, absent) (omega (arith, not_farther))
      | inr (before, present) ↦ rw (there, present) (omega (arith, closer (λ e. cc)))
    ]
  ]

  module _ (minutes : ℤ) (unlimited : ltb_ℤ (pos 0) minutes ≡ false) where
    -- The session in which the body starts.
    abbrev opened : History → Session O
    opened h = started {0} env (resource env) req h (record release { status = (served.get h).0 })

    closed :
        (h : History) {o : Outcome}
        → let r = reconcile_body env minutes (opened h) in
          outcome_of r.0 ≡ some o
          → reconcile env minutes req h ≡ (
            returned o,
            Call.patch_node_image_release (opened h).object (summarise env (resource env) r.1)
                ∷ r.1.history,
          )
    unfolding reconcile
    closed h =
        reconcile_with_returned env (resource env) (reconcile_body env minutes) req h
          (served.get h).1 served.new_patch_helper served.patch

    -- The request is settled, and the image was imported.
    abbrev pub IsDone : Exit × History → Type 0
    IsDone r = HasSettled r × IsImported glance r.1

    opened-Kept :
        (h : History)
        → Kept env req release served glance h
        → Kept env req release served glance (opened h).history
    opened-Kept h kept there = elim (Option-cases (glance.held h)) [
      | inl absent ↦ absurd (
          there (
            IsAfter-absent glance {a = h} {b = (opened h).history} (more _ refl (more _ refl same))
              absent))
      | inr (image, present) ↦ earlier (earlier (kept (λ e. cc)))
    ]

    pub turn :
        (h : History)
        → Kept env req release served glance h
        → Turn (reconcile env minutes req) IsDone rank (Kept env req release served glance) h
    turn h kept =
        let since : IsAfter h (opened h).history = more _ refl (more _ refl same) in
        elim (body_turn env req release served glance minutes unlimited (opened h) (refl, refl)
          (opened-Kept h kept)) [
            | inl (ends, ready, imported) ↦
                let e = closed h ends in
                inl (
                  ap (λ r. asks_again r.0) e,
                  ((_, _, _, ap (λ r. r.0) e, ap (λ r. r.1) e, ready), rw e (earlier imported)),
                )
            | inr goes_on ↦
                let e = closed h goes_on.ends in
                let later = IsAfter-left glance since in
                let r = reconcile_body env minutes (opened h) in
                let patch =
                  Call.patch_node_image_release (opened h).object
                    (summarise env (resource env) r.1) in
                let last = glance.left_never_grows r.1.history patch in
                inr (
                  rw e (goes_on.again),
                  rw e (
                      rank_lower h (patch ∷ r.1.history) (glance.kept _ _ goes_on.held)
                        (λ present.
                          omega (
                            arith,
                            last,
                            later,
                            goes_on.closer (IsAfter-kept glance since present),
                          ))
                        (omega (arith, last, later, goes_on.not_farther))),
                  λ _. rw e (earlier goes_on.imported),
                )
          ]
