-- ===== src/NodeImage/BodyTurn.antt =====
-- One run of the body for a release that is served: it makes the release ready, or asks for another
-- one and has come nearer.
use cluster_stack_provider_o.Base.{
  ◌≤◌, ◌<◌, String, ◌≡◌, ◌≢◌, ◌⊎◌, inl, inr, refl, ap, subst, ◌∙◌, true, false, Option, none, some,
  Option-cases, [], ◌∷◌, arith, eq_iff,
}
use cluster_stack_provider_o.Base.Int.{ℤ, pos, ltb_ℤ}
use cluster_stack_provider_o.Api.{
  NamespacedName, OpenStackNodeImageRelease, node_image_release_object,
}
use cluster_stack_provider_o.Api.Constants.{wait_for_image_become_active}
use cluster_stack_provider_o.Runtime.Errors.{Outcome, empty, requeue_in, returns}
use cluster_stack_provider_o.Runtime.Calls.{Image, Call, History}
use cluster_stack_provider_o.Runtime.Env.{Env}
use cluster_stack_provider_o.Runtime.Body.{Session, Flow, next, outcome_of}
use cluster_stack_provider_o.Runtime.Reconcile.{returned}
use cluster_stack_provider_o.NodeImage.Await.{check_timeout, await_image}
use cluster_stack_provider_o.NodeImage.Import.{start_import}
use cluster_stack_provider_o.NodeImage.Reconcile.{drive_image, reconcile_body}
use cluster_stack_provider_o.NodeImage.Verdict.{
  asked, await_image_verdict, await_image-history, await_image_active-IsAfter,
}
use cluster_stack_provider_o.NodeImage.Importing.{announced, start_import-after_create}
use cluster_stack_provider_o.NodeImage.Service.{
  IsServed, Glance, IsImported, IsAfter-kept, IsAfter-absent, IsAfter-left,
}
use cluster_stack_provider_o.NodeImage.Stages.{reaches, IsCurrent}
use cluster_stack_provider_o.Runtime.Requeue.{asks_again}
use cluster_stack_provider_o.Runtime.Later.{
  IsAfter, same, more, Called, now, earlier, IsAfter-trans, IsAfter-Called,
}

abbrev O : Type 0
O = OpenStackNodeImageRelease

module _ (env : Env) (req : NamespacedName) (release : O) (served : IsServed env req release)
    (glance : Glance env served.client served.complete.opts served.complete.image.url) where
  -- What the body comes to: the release is ready, or another reconciliation is asked for, with an
  -- image that is nearer to being active if there was one.
  abbrev pub BodySettles : Flow Outcome × Session O → Type 0
  BodySettles r =
      (outcome_of r.0 ≡ some (returns empty))
      × (r.1.object.status.ready ≡ true)
      × IsImported glance r.1.history

  -- An image that is there was imported.
  abbrev pub Kept : History → Type 0
  Kept h = glance.held h ≢ none → IsImported glance h

  pub record BodyGoesOn (h : History) (r : Flow Outcome × Session O) : Type 0 where
    pub outcome : Outcome
    pub ends : outcome_of r.0 ≡ some outcome
    pub again : asks_again (returned outcome) ≡ true
    pub held : glance.held r.1.history ≢ none
    pub imported : IsImported glance r.1.history
    pub closer : glance.held h ≢ none → glance.left r.1.history < glance.left h
    pub not_farther : glance.left r.1.history ≤ glance.left h

  module _ (minutes : ℤ) (unlimited : ltb_ℤ (pos 0) minutes ≡ false) where
    check_timeout_unlimited :
        (image : Image) (s : Session O) → (check_timeout env minutes image s).0 ≡ next tt
    unfolding check_timeout
    check_timeout_unlimited image s = ground (arith, unlimited)

    await_turn :
        (h : History) (s : Session O) {image : Image}
        → IsAfter h s.history
        → glance.held s.history ≡ some image
        → IsImported glance s.history
        → let r = await_image env minutes served.client served.complete.opts glance.id s in
          BodySettles r ⊎ BodyGoesOn h r
    await_turn h s {image} before held imported =
        let found = glance.get s.history held in
        let passes = check_timeout_unlimited image (asked served.client glance.id s) in
        let (ends, ready) =
          await_image_verdict env minutes served.client served.complete.opts glance.id s found
            passes in
        elim (glance.settles s.history held imported) [
          | inl status ↦ inl (
            rw (ends, status) refl,
            rw (ready, status) refl,
            IsAfter-Called
                (await_image_active-IsAfter env minutes served.client served.complete.opts glance.id
                  s found passes status)
                imported,
          )
          | inr (pending, far) ↦
              let nearer = glance.looked s.history far in
              let near : glance.left (Call.get_image served.client glance.id ∷ s.history)
                  < glance.left h =
                omega (arith, nearer, IsAfter-left glance before) in
              let at =
                await_image-history env minutes served.client served.complete.opts glance.id s found
                  passes pending in
              inr (record {
                outcome = returns (requeue_in wait_for_image_become_active);
                ends = rw (ends, pending) refl;
                again = refl;
                held =
                    rw at
                      (glance.kept s.history (Call.get_image served.client glance.id) (λ e. cc));
                imported = rw at (earlier imported);
                closer = λ _. rw at near;
                not_farther = rw at (omega (arith, near));
              })
        ]

    start_turn :
        (h : History) (s : Session O)
        → IsAfter h s.history
        → ¬ (glance.held h ≢ none)
        → BodyGoesOn h (start_import env served.client served.complete.image served.complete.opts s)
    start_turn h s before absent =
        let opts = served.complete.opts in
        let name = s.object.metadata.name in
        let h₁ = announced env opts s in
        let (image, made, named) = glance.create h₁ in
        let h₂ = Call.create_image served.client opts ∷ h₁ in
        let h₃ =
          Call.event name "OpenStackImageCreated" "successfully created an image %q, ID %q"
            (opts.name ∷ image.id ∷ [])
          ∷ h₂ in
        let h₄ = Call.import_image served.client image.id served.complete.image.url ∷ h₃ in
        let h₅ =
          Call.event name "OpenStackImageImportStarted"
            "successfully started an image import %q, ID %q" (opts.name ∷ image.id ∷ [])
          ∷ h₄ in
        let all : (let r = start_import env served.client served.complete.image opts s in
            (outcome_of r.0, r.1.history)
            ≡ (some (returns (record { requeue = true; requeue_after = 0 })), h₅)) =
          start_import-after_create env served.client served.complete.image opts s
          ∙ rw (made, glance.import_image h₃ image.id served.complete.image.url) refl in
        let at = ap (λ p. p.1) all in
        let since : IsAfter h₂ h₅ = more _ refl (more _ refl (more _ refl same)) in
        let announced_later : IsAfter h h₁ = IsAfter-trans before (more _ refl same) in
        let imported : IsImported glance h₅ = earlier (
          subst (λ id. Called (Call.import_image served.client id served.complete.image.url) h₄)
            named now) in
        record {
          outcome = returns (record { requeue = true; requeue_after = 0 });
          ends = ap (λ p. p.0) all;
          again = refl;
          held = rw at (IsAfter-kept glance since (glance.created h₁));
          imported = rw at imported;
          closer = λ present. absurd (absent present);
          not_farther = rw at (
              omega (
                arith,
                IsAfter-left glance since,
                glance.left_never_grows h₁ (Call.create_image served.client opts),
                IsAfter-left glance announced_later,
              ));
        }

    drive_found :
        (id : String) (s : Session O)
        → id ≢ ""
        → drive_image env minutes served.client served.complete.image served.complete.opts id s
          ≡ await_image env minutes served.client served.complete.opts id s
    unfolding drive_image
    drive_found id s named = ground (arith, eq_iff id "")

    never_both : {o : Option Image} {image : Image} → o ≡ none → o ≡ some image → ⊥
    never_both missing there = cc

    held_later :
        {a b : History} {image : Image}
        → IsAfter a b
        → glance.held a ≡ some image
        → (later : Image) × (glance.held b ≡ some later)
    held_later {b = b} after held = elim (Option-cases (glance.held b)) [
      | inl none_left ↦ absurd (IsAfter-kept glance after (λ e. cc) none_left)
      | inr found ↦ found
    ]

    pub body_turn :
        (s : Session O)
        → IsCurrent env req release served s
        → Kept s.history
        → let r = reconcile_body env minutes s in BodySettles r ⊎ BodyGoesOn s.history r
    unfolding drive_image
    body_turn s current kept =
        let d = reaches env req release served glance minutes s current in
        elim (Option-cases (glance.held d.past)) [
          | inl absent ↦
              let to_start : (reconcile_body env minutes s
                  ≡ start_import env served.client served.complete.image served.complete.opts
                      d.at) =
                d.drives ∙ rw absent refl in
              inr (
                rw to_start (
                  start_turn s.history d.at (IsAfter-trans d.looked_up d.arrived)
                    (λ present. IsAfter-kept glance d.looked_up present absent)))
          | inr (image, present) ↦
              let (image', still) = held_later d.arrived present in
              let to_await : (reconcile_body env minutes s
                  ≡ await_image env minutes served.client served.complete.opts glance.id d.at) =
                d.drives
                ∙ rw (present, glance.held_id d.past present)
                    (drive_found glance.id d.at glance.named) in
              let since = IsAfter-trans d.looked_up d.arrived in
              let there : glance.held s.history ≢ none = λ none_yet.
                absurd (never_both (IsAfter-absent glance d.looked_up none_yet) present) in
              rw to_await
                (await_turn s.history d.at since still (IsAfter-Called since (kept there)))
        ]
