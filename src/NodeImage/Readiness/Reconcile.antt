-- ===== src/NodeImage/Readiness/Reconcile.antt =====
-- The same through all the stages of `Reconcile`.
use cluster_stack_provider_o.Base.{
  String, ◌≡◌, ◌≢◌, eq_iff, ◌∙◌, subst, ◌⊎◌, inl, inr, ◌∷◌, Bool, true, Option, some, arith, ◌=s◌,
  Bool-cases,
}
use cluster_stack_provider_o.Base.Int.{ℤ}
use cluster_stack_provider_o.Api.{
  OpenStackNodeImageRelease, OpenStackNodeImage, CreateOpts, NamespacedName,
  node_image_release_object,
}
use cluster_stack_provider_o.Runtime.Errors.{Outcome, ok}
use cluster_stack_provider_o.Runtime.Calls.{Address, Bytes, Cloud, Image, Call, History}
use cluster_stack_provider_o.Runtime.Env.{Env}
use cluster_stack_provider_o.Runtime.Body.{Session, Flow, next}
use cluster_stack_provider_o.NodeImage.Connect.{load_cloud, connect, find_image}
use cluster_stack_provider_o.NodeImage.Await.{check_timeout, judge, fetch_image, await_image}
use cluster_stack_provider_o.NodeImage.Verdict.{asked, check_timeout_next, fetch_image_next}
use cluster_stack_provider_o.NodeImage.Reconcile.{
  load_image, drive_image, with_client, with_cloud, reconcile_body, resource, reconcile,
}
use cluster_stack_provider_o.Runtime.Reconcile.{Exit, finish, reconcile_with_cases}
use cluster_stack_provider_o.NodeImage.Listing.{find_image-Listed, find_image_next}
use cluster_stack_provider_o.NodeImage.Frame.{load_cloud-Frames, connect-Frames}
use cluster_stack_provider_o.NodeImage.Readiness.{
  andthen_Justified, Justified, SawActive, SawOwnActive, Shown, check_timeout-ready, connect-ready,
  fetch_image-ready, find_image-ready, judge_active, load_cloud-ready, load_image-ready,
  start_import-not_ready,
}

abbrev O : Type 0
O = OpenStackNodeImageRelease

module _ (env : Env) where
  judge-Justified :
      (before : Bool) (client : Address) (opts : CreateOpts) (id : String) (image : Image)
      (s : Session O)
      → env.openstack.get_image s.history client id ≡ ok image
      → Justified env
          (Shown env client id s.history)
          before
          (judge env opts id image.status (asked client id s))
  judge-Justified before client opts id image s found h =
      let (status, (last, made), quiet) =
        judge_active env opts id image.status (asked client id s) h in
      inr (record {
        event = last;
        image = image;
        made = made;
        answered = found;
        is_active = status;
        quiet = quiet;
      })

  await_image-Justified :
      (minutes : ℤ) (client : Address) (opts : CreateOpts) (id : String) (s : Session O)
      → Justified env
          (Shown env client id s.history)
          s.object.status.ready
          (await_image env minutes client opts id s)
  unfolding await_image
  await_image-Justified minutes client opts id s =
      let cause = Shown env client id s.history in
      andthen_Justified env cause (fetch_image env client id) _ s
        (fetch_image-ready env client id s)
        λ image s₁ e₁.
          andthen_Justified env cause (check_timeout env minutes image) _ s₁
            (check_timeout-ready env minutes image s₁)
            λ _ s₂ e₂.
              let (found, made) = fetch_image_next env client id s e₁ in
              let same : s₂ ≡ asked client id s =
                check_timeout_next env minutes image s₁ e₂ ∙ made in
              rw same (judge-Justified _ client opts id image s found)

  drive_image-Justified :
      (minutes : ℤ) (client : Address) (image : OpenStackNodeImage) (opts : CreateOpts)
      (id : String) (s : Session O)
      → Justified env
          (λ h. (id ≢ "") × Shown env client id s.history h)
          s.object.status.ready
          (drive_image env minutes client image opts id s)
  unfolding drive_image
  drive_image-Justified minutes client image opts id s = elim (Bool-cases (id =s "")) [
    | inl none_found ↦ rw none_found (λ h. cc (start_import-not_ready env client image opts s))
    | inr found ↦
        let named : id ≢ "" = λ e. ground (arith, eq_iff id "") in
        rw found λ h. elim (await_image-Justified minutes client opts id s h) [
          | inl r ↦ inl r
          | inr shown ↦ inr (named, shown)
        ]
  ]

  with_client-Justified :
      (minutes : ℤ) (client : Address) (wanted : OpenStackNodeImage × CreateOpts) (s : Session O)
      → Justified env
          (SawActive env client wanted.1)
          s.object.status.ready
          (with_client env minutes client wanted s)
  unfolding with_client
  with_client-Justified minutes client wanted s =
      andthen_Justified env (SawActive env client wanted.1) (find_image env client wanted.1) _ s
        (find_image-ready env client wanted.1 s)
        λ id s₁ e₁ h. elim (drive_image-Justified minutes client wanted.0 wanted.1 id s₁ h) [
          | inl r ↦ inl r
          | inr (named, shown) ↦ inr (record {
            id = id;
            before = s.history;
            listed = find_image-Listed env client wanted.1 s e₁;
            named = named;
            shown =
                subst
                  (λ past.
                    Shown env client id past
                      (drive_image env minutes client wanted.0 wanted.1 id s₁).1.history)
                  (find_image_next env client wanted.1 s e₁) shown;
          })
        ]

  pub load_image_next :
      (s : Session O) {wanted : OpenStackNodeImage × CreateOpts} {s' : Session O}
      → load_image s ≡ (next wanted, s')
      → (s.object.spec.image ≡ some wanted.0) × (wanted.0.create_opts ≡ some wanted.1)
  unfolding load_image
  load_image_next s h = (ground arith, ground arith)

  with_cloud-Justified :
      (minutes : ℤ) (found : Cloud × Option Bytes) (s : Session O)
      → Justified env
          (SawOwnActive env s.object.spec)
          s.object.status.ready
          (with_cloud env minutes found s)
  unfolding with_cloud
  with_cloud-Justified minutes found s =
      let cause = SawOwnActive env s.object.spec in
      andthen_Justified env cause (connect env found.0 found.1) _ s (connect-ready env found s)
        λ client s₁ e₁.
          andthen_Justified env cause load_image _ s₁ (load_image-ready env s₁) λ wanted s₂ e₂ h.
            elim (with_client-Justified minutes client wanted s₂ h) [
              | inl r ↦ inl r
              | inr saw ↦
                  let (image, opts) = load_image_next s₁ e₂ in
                  let (_, _, kept) = connect-Frames env found s in
                  inr (record {
                    client = client;
                    node_image = wanted.0;
                    opts = wanted.1;
                    has_image = cc (kept, e₁, image);
                    has_opts = opts;
                    saw = saw;
                  })
            ]

  reconcile_body-Justified :
      (minutes : ℤ) (s : Session O)
      → Justified env
          (SawOwnActive env s.object.spec)
          s.object.status.ready
          (reconcile_body env minutes s)
  unfolding reconcile_body
  reconcile_body-Justified minutes s =
      andthen_Justified env (SawOwnActive env s.object.spec) (load_cloud env) _ s
        (load_cloud-ready env s)
        λ found s₁ e₁ h. elim (with_cloud-Justified minutes found s₁ h) [
          | inl r ↦ inl r
          | inr saw ↦
              let (_, _, kept) = load_cloud-Frames env s in
              let same : s₁.object.spec ≡ s.object.spec = cc (kept, e₁) in
              inr (
                subst (λ spec. SawOwnActive env spec (with_cloud env minutes found s₁).1.history)
                  same saw)
        ]

  -- What a reconciliation may send to the API server as its patch.
  abbrev PatchIsJustified : Exit × History → Type 0
  PatchIsJustified (exit, h) =
      (before after : O) (past : History)
      → h ≡ Call.patch_node_image_release before after ∷ past
      → after.status.ready ≡ true
      → (before.status.ready ≡ true) ⊎ SawOwnActive env before.spec past

  finish-PatchIsJustified :
      (before : O) (r : Flow Outcome × Session O)
      → Justified env (SawOwnActive env before.spec) before.status.ready r
      → PatchIsJustified (finish env (resource env) before r)
  unfolding finish
  finish-PatchIsJustified before (flow, s) because b after past made ready =
      let same : before ≡ b = cc in
      let rest : s.history ≡ past = cc in
      let justified : s.object.status.ready ≡ true = cc in
      elim (because justified) [
        | inl r ↦ inl (cc)
        | inr saw ↦ inr (
            subst (SawOwnActive env b.spec) rest
              (subst (λ r. SawOwnActive env r.spec s.history) same saw))
      ]

  -- If the patch of a reconciliation makes a release ready that was not ready when it was read, then
  -- before the patch an image was found by a listing with the options of this very release, right
  -- after that Glance was asked for this image and showed it as active, and one call followed.
  pub reconcile_ready_needs_active :
      (minutes : ℤ) (req : NamespacedName) (h : History) (before after : O) (past : History)
      → (reconcile env minutes req h).1 ≡ Call.patch_node_image_release before after ∷ past
      → after.status.ready ≡ true
      → (before.status.ready ≡ true) ⊎ SawOwnActive env before.spec past
  unfolding reconcile
  reconcile_ready_needs_active minutes req h =
      reconcile_with_cases env (resource env) PatchIsJustified _ req h
        (λ o before after past made. cc) (λ found e before after past made. cc)
        λ before got. finish-PatchIsJustified before _ (reconcile_body-Justified minutes _)
