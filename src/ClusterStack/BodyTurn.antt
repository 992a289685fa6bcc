-- ===== src/ClusterStack/BodyTurn.antt =====
-- One run of the body for a release that is served: it makes the release ready, or asks for another
-- one that has less before it.
use cluster_stack_provider_o.Base.{
  ℕ, ◌+◌, ◌≤◌, ◌<◌, ◌≡◌, ◌⊎◌, inl, inr, refl, sym, subst, ap, ◌∙◌, Bool, true, false, Option, some,
  [], ◌∷◌, arith, Bool-cases, keep, if◌then◌else◌, String,
}
use cluster_stack_provider_o.Api.{
  NamespacedName, OpenStackClusterStackRelease, cluster_stack_release_object,
}
use cluster_stack_provider_o.Api.Constants.{wait_for_node_image_releases_become_ready}
use cluster_stack_provider_o.Runtime.Errors.{ok, Outcome, empty, requeue_in, returns}
use cluster_stack_provider_o.Runtime.Calls.{Call, History}
use cluster_stack_provider_o.Runtime.Env.{Env}
use cluster_stack_provider_o.Runtime.Body.{Session, Flow, next, outcome_of}
use cluster_stack_provider_o.Runtime.Reconcile.{returned}
use cluster_stack_provider_o.Runtime.Later.{
  IsAfter, same, more, IsAfter-trans, Passes-bind, Passes-next,
}
use cluster_stack_provider_o.Runtime.Requeue.{asks_again}
use cluster_stack_provider_o.ClusterStack.Owner.{is_owned, generate_owner_reference}
use cluster_stack_provider_o.ClusterStack.Download.{load_release, fetch_release}
use cluster_stack_provider_o.ClusterStack.NodeImages.{
  load_node_images, ensure_node_images, check_owned,
}
use cluster_stack_provider_o.ClusterStack.Reconcile.{with_release, reconcile_body}
use cluster_stack_provider_o.ClusterStack.Fetching.{fetch_release-fetched}
use cluster_stack_provider_o.ClusterStack.Frame.{SameButStatus, SameButStatus-trans}
use cluster_stack_provider_o.ClusterStack.Readiness.{
  report-writes, is_complete, check_owned-report, report-waits, keep_alike, listed,
}
use cluster_stack_provider_o.ClusterStack.Progress.{reconcile_body-check_owned, check_owned-Settles}
use cluster_stack_provider_o.ClusterStack.Service.{
  IsServed, HasAssets, BecomeReady, IsEnsured, IsEnsured-same, IsAfter-left, IsAfter-stays,
}
use cluster_stack_provider_o.ClusterStack.Stages.{
  load_release-Passes, load_node_images-Passes, ensure_node_images-Passes,
}
use cluster_stack_provider_o.ClusterStack.Ownership.{writes, Recognises}
use cluster_stack_provider_o.ClusterStack.Loop.{EnsuresAll, ensure_node_images-EnsuresAll}

abbrev O : Type 0
O = OpenStackClusterStackRelease

abbrev settled_by : Bool → Option Outcome
settled_by complete =
    some
      (returns (if complete then empty else requeue_in wait_for_node_image_releases_become_ready))

Recognises-alike :
    {env : Env} (r o : O) → o.type_meta ≡ r.type_meta → Recognises env r → Recognises env o
Recognises-alike {env} r o typed recognises = record {
  ensured = recognises.ensured;
  parsed =
      subst (λ t. env.kube.parse_group t.api_version ≡ some (env.kube.kind_group t)) (sym typed)
        recognises.parsed;
}

alike_same : (r o : O) → SameButStatus r o → o ≡ record r { status = o.status }
alike_same r o (a, b, c) =
    ap (λ t. record o { type_meta = t }) a
    ∙ ap (λ m. record o { type_meta = r.type_meta; metadata = m }) b
    ∙ ap (λ s. record r { spec = s; status = o.status }) c

module _ (env : Env) (directory : String) (req : NamespacedName) (release : O)
    (served : IsServed env req release) (assets : HasAssets env directory release)
    (ready : BecomeReady env release assets.place assets.images)
    (recognises : Recognises env release) where
  -- What is before a release: the download, if it is missing, and the listings.
  abbrev pub rank : History → ℕ
  rank h = ready.left h + (if assets.missing h then 1 else 0)

  pub IsAfter-rank : {a b : History} → IsAfter a b → rank b ≤ rank a
  IsAfter-rank {a} {b} later = elim (Bool-cases (assets.missing a)) [
    | inl gone ↦ rw gone (elim (Bool-cases (assets.missing b)) [
      | inl still ↦ rw still (omega (arith, IsAfter-left ready later))
      | inr there ↦ rw there (omega (arith, IsAfter-left ready later))
    ])
    | inr there ↦
        rw (there, IsAfter-stays assets later there) (omega (arith, IsAfter-left ready later))
  ]

  -- What the body comes to.
  abbrev pub BodySettles : Flow Outcome × Session O → Type 0
  BodySettles r =
      (outcome_of r.0 ≡ some (returns empty))
      × (r.1.object.status.ready ≡ true)
      × IsEnsured env release assets.place assets.images r.1.history

  pub record BodyGoesOn (h : History) (r : Flow Outcome × Session O) : Type 0 where
    pub outcome : Outcome
    pub ends : outcome_of r.0 ≡ some outcome
    pub again : asks_again (returned outcome) ≡ true
    pub nearer : rank r.1.history < rank h

  fetch_turn :
      (h : History) (s : Session O)
      → IsAfter h s.history
      → SameButStatus release s.object
      → assets.missing h ≡ true
      → BodyGoesOn h (fetch_release env assets.place s)
  fetch_turn h s before current gone =
      let tag = release.metadata.name in
      let path = (assets.place).local_download_path in
      let h₁ = Call.lock ∷ Call.new_assets_client ∷ s.history in
      let h₂ = Call.download_release_assets assets.client tag path ∷ h₁ in
      let h₃ =
        Call.unlock
        ∷ Call.event tag "ClusterStackReleaseAssetsReady"
            "successfully downloaded ClusterStackReleaseAssets %q" (tag ∷ [])
        ∷ h₂ in
      let all : (let r = fetch_release env assets.place s in
          (outcome_of r.0, r.1.history)
          ≡ (some (returns (record { requeue = true; requeue_after = 0 })), h₃)) =
        fetch_release-fetched env assets.place s
        ∙ rw (ap (λ m. m.name) current.1, assets.new_assets_client s.history, assets.download h₁)
            refl in
      let at = ap (λ p. p.1) all in
      let since : IsAfter h₂ h₃ = more _ refl (more _ refl same) in
      let later : IsAfter h h₃ =
        IsAfter-trans before (IsAfter-trans (more _ refl (more _ refl (more _ refl same))) since) in
      record {
        outcome = returns (record { requeue = true; requeue_after = 0 });
        ends = ap (λ p. p.0) all;
        again = refl;
        nearer = rw at (
            rw (gone, IsAfter-stays assets since (assets.downloaded h₁))
              (omega (arith, IsAfter-left ready later)));
      }

  -- An end of a run from a later history is one from an earlier history.
  widen :
      {h h' : History} {r : Flow Outcome × Session O}
      → IsAfter h h'
      → BodySettles r ⊎ BodyGoesOn h' r
      → BodySettles r ⊎ BodyGoesOn h r
  widen later (inl settles) = inl settles
  widen later (inr goes_on) = inr (record {
    outcome = goes_on.outcome;
    ends = goes_on.ends;
    again = goes_on.again;
    nearer = omega (arith, goes_on.nearer, IsAfter-rank later);
  })

  check_turn :
      (s : Session O)
      → SameButStatus release s.object
      → assets.missing s.history ≡ false
      → IsEnsured env release assets.place assets.images s.history
      → BodySettles (check_owned env s) ⊎ BodyGoesOn s.history (check_owned env s)
  check_turn s current there ensured =
      let (items, answered) = ready.list s.history in
      let answered' : (env.kube.list_node_image_releases s.history s.object.metadata.namespace
          ≡ ok items) =
        rw (ap (λ m. m.namespace) current.1) answered in
      let alike = keep_alike env release s.object items (current.0, current.1) in
      let (is_ready, ends) = check_owned-Settles env s answered' in
      elim (ready.progress s.history items ensured answered) [
        | inl complete ↦
            let all = ap is_complete alike ∙ complete in
            inl (
              ends ∙ ap settled_by all,
              is_ready ∙ all,
              IsEnsured-same
                  (ap (λ r. writes r.1.history) (check_owned-report env s answered')
                    ∙ report-writes env (keep (is_owned env s.object) items) (listed env s))
                  ensured,
            )
        | inr (unready, far) ↦
            let all = ap is_complete alike ∙ unready in
            let look = Call.list_node_image_releases release.metadata.namespace in
            let at : (check_owned env s).1.history ≡ look ∷ s.history =
              ap (λ r. r.1.history) (check_owned-report env s answered')
              ∙ report-waits env (keep (is_owned env s.object) items) (listed env s) all
              ∙ ap (λ m. Call.list_node_image_releases m.namespace ∷ s.history) current.1 in
            inr (record {
              outcome = returns (requeue_in wait_for_node_image_releases_become_ready);
              ends = ends ∙ ap settled_by all;
              again = refl;
              nearer = rw at (
                  rw (there, assets.stays s.history look refl there)
                    (omega (arith, ready.listed s.history far)));
            })
      ]

  use_turn :
      (s : Session O)
      → SameButStatus release s.object
      → assets.missing s.history ≡ false
      → let r = reconcile_body env directory s in BodySettles r ⊎ BodyGoesOn s.history r
  use_turn s current there =
      let p₁ = load_release-Passes env req release served assets s current in
      let s₁ = (load_release env directory s).1 in
      let p₂ = load_node_images-Passes env req release served assets s₁ in
      let s₂ = (load_node_images env assets.place s₁).1 in
      let current₂ =
        SameButStatus-trans release s₁.object s₂.object
          (SameButStatus-trans release s.object s₁.object current p₁.alike) p₂.alike in
      let owner = generate_owner_reference s₂.object in
      let p₃ =
        ensure_node_images-Passes env req release served assets owner assets.images s₂ assets.whole
          current₂ in
      let s₃ = (ensure_node_images env assets.place owner assets.images s₂).1 in
      let found : load_release env directory s ≡ (next (assets.place, false), s₁) =
        Passes-next (load_release env directory) s p₁
        ∙ ap (λ b. (next (assets.place, b), s₁)) there in
      let comes : reconcile_body env directory s ≡ check_owned env s₃ =
        reconcile_body-check_owned env directory s found
          (Passes-next (load_node_images env assets.place) s₁ p₂)
          (Passes-next (ensure_node_images env assets.place owner assets.images) s₂ p₃) in
      let next_all = Passes-next (ensure_node_images env assets.place owner assets.images) s₂ p₃ in
      let shape = alike_same release s₂.object current₂ in
      let ensured : IsEnsured env release assets.place assets.images s₃.history = record {
        status = s₂.object.status;
        before = writes s₂.history;
        all =
            subst
              (λ o.
                EnsuresAll env o assets.place assets.images (writes s₂.history) (writes s₃.history))
              shape
              (ensure_node_images-EnsuresAll env s₂.object
                (Recognises-alike release s₂.object current₂.0 recognises) assets.place
                assets.images s₂ refl next_all);
      } in
      let later : IsAfter s.history s₃.history =
        IsAfter-trans p₁.later (IsAfter-trans p₂.later p₃.later) in
      rw comes (
        widen later (
          check_turn s₃ (SameButStatus-trans release s₂.object s₃.object current₂ p₃.alike)
            (IsAfter-stays assets later there) ensured))

  pub body_turn :
      (s : Session O)
      → SameButStatus release s.object
      → let r = reconcile_body env directory s in BodySettles r ⊎ BodyGoesOn s.history r
  unfolding reconcile_body with_release
  body_turn s current = elim (Bool-cases (assets.missing s.history)) [
    | inr there ↦ use_turn s current there
    | inl gone ↦
        let p = load_release-Passes env req release served assets s current in
        let s₁ = (load_release env directory s).1 in
        let comes : reconcile_body env directory s ≡ fetch_release env assets.place s₁ =
          Passes-bind (load_release env directory) _ s p ∙ rw gone refl in
        inr (
          rw comes (
            fetch_turn s.history s₁ p.later
              (SameButStatus-trans release s.object s₁.object current p.alike) gone))
  ]
