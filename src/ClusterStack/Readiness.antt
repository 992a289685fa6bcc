-- ===== src/ClusterStack/Readiness.antt =====
-- Why a cluster stack release becomes ready: the owned releases that the last list showed.
pub mod Reconcile
use cluster_stack_provider_o.Base.{
  ◌≡◌, refl, sym, ◌∙◌, ap, subst, ◌⊎◌, inl, inr, Bool, true, false, some, List, [], ◌∷◌, all, keep,
  arith, Bool-cases, if◌then◌else◌,
}
use cluster_stack_provider_o.Api.{
  OpenStackNodeImageRelease, OpenStackClusterStackRelease, ReleaseStatus,
  cluster_stack_release_object,
}
use cluster_stack_provider_o.Api.Constants.{wait_for_node_image_releases_become_ready}
use cluster_stack_provider_o.Runtime.Errors.{Error, Try, ok, err, empty, requeue_in, returns}
use cluster_stack_provider_o.Runtime.Calls.{Call, History}
use cluster_stack_provider_o.Runtime.Env.{Env}
use cluster_stack_provider_o.Runtime.Body.{Session, Flow, outcome_of}
use cluster_stack_provider_o.ClusterStack.Owner.{match_owner_reference, is_owned, get_owned}
use cluster_stack_provider_o.ClusterStack.Ownership.{writes, get_owned_listed}
use cluster_stack_provider_o.ClusterStack.NodeImages.{await_owned, report, list_owned, check_owned}

abbrev O : Type 0
O = OpenStackClusterStackRelease

abbrev pub is_ready : OpenStackNodeImageRelease → Bool
is_ready n = n.status.ready

-- There is one, and all are ready.
abbrev pub is_complete : List OpenStackNodeImageRelease → Bool
is_complete [] = false
is_complete (n ∷ ns) = all is_ready (n ∷ ns)

module _ (env : Env) where
  await_owned-ready :
      (owned : List OpenStackNodeImageRelease) (s : Session O)
      → (await_owned env owned s).1.object.status.ready ≡ all is_ready owned
  unfolding await_owned
  await_owned-ready [] s = refl
  await_owned-ready (n ∷ ns) s = ground (arith, await_owned-ready ns s)

  await_owned-outcome_of :
      (owned : List OpenStackNodeImageRelease) (s : Session O)
      → outcome_of (await_owned env owned s).0
        ≡ some (
            returns (
              if all is_ready owned
              then empty
              else requeue_in wait_for_node_image_releases_become_ready))
  unfolding await_owned
  await_owned-outcome_of [] s = refl
  await_owned-outcome_of (n ∷ ns) s = ground (arith, await_owned-outcome_of ns s)

  -- The release is ready exactly if it owns at least one OpenStackNodeImageRelease and all that it
  -- owns are ready; otherwise, and only then, it is looked at again after 30 seconds.
  pub report_verdict :
      (owned : List OpenStackNodeImageRelease) (s : Session O)
      → let (flow, s') = report env owned s in
        (s'.object.status.ready ≡ is_complete owned)
        × (outcome_of flow
            ≡ some (
                returns (
                  if is_complete owned
                  then empty
                  else requeue_in wait_for_node_image_releases_become_ready)))
  unfolding report
  report_verdict [] s = (refl, refl)
  report_verdict (n ∷ ns) s = (await_owned-ready (n ∷ ns) s, await_owned-outcome_of (n ∷ ns) s)

  await_owned-history :
      (owned : List OpenStackNodeImageRelease) (s : Session O)
      → (await_owned env owned s).1.object.status.ready ≡ true
      → (event : Call) × ((await_owned env owned s).1.history ≡ event ∷ s.history)
  unfolding await_owned
  await_owned-history [] s h = (_, refl)
  await_owned-history (n ∷ ns) s h = elim (Bool-cases n.status.ready) [
    | inl e ↦ rw e (await_owned-history ns s (rw e at h))
    | inr e ↦ cc (rw e at h)
  ]

  await_owned-waits :
      (owned : List OpenStackNodeImageRelease) (s : Session O)
      → all is_ready owned ≡ false
      → (await_owned env owned s).1.history ≡ s.history
  unfolding await_owned
  await_owned-waits [] s h = absurd (ground arith)
  await_owned-waits (n ∷ ns) s h = elim (Bool-cases n.status.ready) [
    | inl e ↦ rw e (await_owned-waits ns s (rw e at h))
    | inr e ↦ rw e refl
  ]

  -- Waiting for them makes no call.
  pub report-waits :
      (owned : List OpenStackNodeImageRelease) (s : Session O)
      → is_complete owned ≡ false
      → (report env owned s).1.history ≡ s.history
  unfolding report
  report-waits [] s h = refl
  report-waits (n ∷ ns) s h = await_owned-waits (n ∷ ns) s h

  await_owned-writes :
      (owned : List OpenStackNodeImageRelease) (s : Session O)
      → writes (await_owned env owned s).1.history ≡ writes s.history
  unfolding await_owned
  await_owned-writes [] s = refl
  await_owned-writes (n ∷ ns) s = ground (arith, await_owned-writes ns s)

  -- The verdict writes no resource.
  pub report-writes :
      (owned : List OpenStackNodeImageRelease) (s : Session O)
      → writes (report env owned s).1.history ≡ writes s.history
  unfolding report
  report-writes [] s = refl
  report-writes (n ∷ ns) s = await_owned-writes (n ∷ ns) s

  -- Before its last call, the history ends with a list of node image releases of which the release
  -- `r` owned at least one, and all that it owned were ready.
  pub record SawAllReady (r : O) (h : History) : Type 0 where
    pub past : History
    pub event : Call
    pub items : List OpenStackNodeImageRelease
    pub made : h ≡ event ∷ Call.list_node_image_releases r.metadata.namespace ∷ past
    pub answered : env.kube.list_node_image_releases past r.metadata.namespace ≡ ok items
    pub complete : is_complete (keep (is_owned env r) items) ≡ true

  abbrev pub Justified : Bool → {A : Type 0} → Flow A × Session O → Type 0
  Justified before r =
      r.1.object.status.ready ≡ true → (before ≡ true) ⊎ SawAllReady r.1.object r.1.history

  -- The session in which the owned releases are judged.
  abbrev pub listed : Session O → Session O
  listed s = record s {
    history = Call.list_node_image_releases s.object.metadata.namespace ∷ s.history;
  }

  pub check_owned-report :
      (s : Session O) {items : List OpenStackNodeImageRelease}
      → env.kube.list_node_image_releases s.history s.object.metadata.namespace ≡ ok items
      → check_owned env s ≡ report env (keep (is_owned env s.object) items) (listed s)
  unfolding check_owned list_owned
  check_owned-report s answered = rw (get_owned_listed env s.object s.history answered)

  check_owned-error :
      (s : Session O) {e : Error}
      → env.kube.list_node_image_releases s.history s.object.metadata.namespace ≡ err e
      → (check_owned env s).1.object ≡ s.object
  unfolding check_owned list_owned get_owned
  check_owned-error s failed = ground arith

  -- Neither of the two outcomes changes more than the status.
  await_owned-status :
      (owned : List OpenStackNodeImageRelease) (s : Session O)
      → (status : ReleaseStatus) × ((await_owned env owned s).1.object
          ≡ record (s.object) { status = status })
  unfolding await_owned
  await_owned-status [] s = (_, refl)
  await_owned-status (n ∷ ns) s = elim (Bool-cases n.status.ready) [
    | inl e ↦ rw e (await_owned-status ns s)
    | inr e ↦ rw e (_, refl)
  ]

  pub SawAllReady-status :
      (r : O) (status : ReleaseStatus) (h : History)
      → SawAllReady r h
      → SawAllReady (record r { status = status }) h
  unfolding is_owned match_owner_reference
  SawAllReady-status r status h saw = record {
    past = saw.past;
    event = saw.event;
    items = saw.items;
    made = saw.made;
    answered = saw.answered;
    complete = saw.complete;
  }

  -- What is owned does not depend on the status.
  pub keep_alike :
      (r r' : O) (items : List OpenStackNodeImageRelease)
      → (r'.type_meta ≡ r.type_meta) × (r'.metadata ≡ r.metadata)
      → keep (is_owned env r') items ≡ keep (is_owned env r) items
  unfolding is_owned match_owner_reference
  keep_alike r r' items (same_type, same_meta) =
      ap (λ t. keep (is_owned env (record r { type_meta = t; metadata = r'.metadata })) items)
        same_type
      ∙ ap (λ m. keep (is_owned env (record r { metadata = m })) items) same_meta

  report-SawAllReady :
      (s : Session O) {items : List OpenStackNodeImageRelease}
      (owned : List OpenStackNodeImageRelease)
      → env.kube.list_node_image_releases s.history s.object.metadata.namespace ≡ ok items
      → keep (is_owned env s.object) items ≡ owned
      → (report env owned (listed s)).1.object.status.ready ≡ true
      → SawAllReady s.object (report env owned (listed s)).1.history
  unfolding report
  report-SawAllReady s [] answered kept h = cc
  report-SawAllReady s {items} (n ∷ ns) answered kept h =
      let (last, made) = await_owned-history (n ∷ ns) (listed s) h in
      record {
        past = s.history;
        event = last;
        items = items;
        made = made;
        answered = answered;
        complete = rw kept (sym (await_owned-ready (n ∷ ns) (listed s)) ∙ h);
      }

  report-status :
      (owned : List OpenStackNodeImageRelease) (s : Session O)
      → (status : ReleaseStatus) × ((report env owned s).1.object
          ≡ record (s.object) { status = status })
  unfolding report
  report-status [] s = (_, refl)
  report-status (n ∷ ns) s = await_owned-status (n ∷ ns) s

  pub check_owned-Justified : (s : Session O) → Justified s.object.status.ready (check_owned env s)
  check_owned-Justified s = go _ refl
    where
      go :
          (t : Try (List OpenStackNodeImageRelease))
          → env.kube.list_node_image_releases s.history s.object.metadata.namespace ≡ t
          → Justified s.object.status.ready (check_owned env s)
      go (ok items) answered =
          let owned = keep (is_owned env s.object) items in
          let (status, same) = report-status owned (listed s) in
          rw (check_owned-report s answered) λ h. inr (
            subst (λ o. SawAllReady o (report env owned (listed s)).1.history) (sym same)
              (SawAllReady-status s.object status _ (report-SawAllReady s owned answered refl h)))
      go (err e) failed = λ h. inl (cc (check_owned-error s failed))
