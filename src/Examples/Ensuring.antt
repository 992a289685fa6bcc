-- ===== src/Examples/Ensuring.antt =====
-- A cluster stack release that becomes ready once it has written its node image release and has listed
-- it three times.
use cluster_stack_provider_o.Base.{
  ℕ, suc, ◌-◌, ◌≡◌, ◌≢◌, ◌⊎◌, inl, inr, refl, Bool, true, false, some, [], ◌∷◌, arith, leb,
  if◌then◌else◌, Bool-cases, List, keep, subst, ◌∙◌, sym,
}
use cluster_stack_provider_o.Runtime.Errors.{ok, Error, err, external}
use cluster_stack_provider_o.Runtime.Calls.{Call, History, Release}
use cluster_stack_provider_o.Runtime.Env.{Env}
use cluster_stack_provider_o.Runtime.Requeue.{follow}
use cluster_stack_provider_o.Examples.World.{
  world, opts, node_image, node_image_release, req, cluster_stack, owner, tells_not_found,
}
use cluster_stack_provider_o.Base.Split.{split}
use cluster_stack_provider_o.Api.{OpenStackNodeImageRelease, OpenStackClusterStackRelease}
use cluster_stack_provider_o.ClusterStack.Service.{
  IsServed as IsServedClusterStack, HasAssets, BecomeReady, IsEnsured,
}
use cluster_stack_provider_o.ClusterStack.Tag.{cut_release_version, cut_parts}
use cluster_stack_provider_o.ClusterStack.Owner.{is_owned, match_owner_reference}
use cluster_stack_provider_o.ClusterStack.Readiness.{is_complete}
use cluster_stack_provider_o.ClusterStack.Reconcile.{reconcile as reconcile_cluster_stack}
use cluster_stack_provider_o.ClusterStack.Convergence.{HasBecomeReady, follow-HasBecomeReady}
use cluster_stack_provider_o.Examples.Settings.{done}
use cluster_stack_provider_o.ClusterStack.Ownership.{writes as release_writes, Recognises}
use cluster_stack_provider_o.ClusterStack.Loop.{EnsuresAll, and_then, none_left}

abbrev is_listing : Call → Bool
is_listing (Call.list_node_image_releases namespace) = true
is_listing c = false

abbrev listings : History → ℕ
listings [] = 0
listings (c ∷ h) = let rest = listings h in if is_listing c then suc rest else rest

abbrev is_missing : History → Bool
is_missing [] = true
is_missing (Call.download_release_assets client tag path ∷ h) = false
is_missing (Call.remove_all path ∷ h) = true
is_missing (c ∷ h) = is_missing h

abbrev is_written : List Call → Bool
is_written [] = false
is_written (c ∷ calls) = true

-- The release that the cluster stack owns is there once it is written, and ready from the third
-- listing on.
abbrev owned_at : History → List OpenStackNodeImageRelease
owned_at h =
    if is_written (release_writes h)
    then node_image_release (leb 2 (listings h)) (owner ∷ []) ∷ []
    else []

abbrev place : Release
place = record { local_download_path = "/tmp"; node_image_version = "v1" }

abbrev progressing : Env
progressing = record (world done) {
  kube = record ((world done).kube) {
    list_node_image_releases = λ h namespace. ok (owned_at h);
    get_node_image_release = λ h key.
        if is_written (release_writes h)
        then ok (node_image_release false (owner ∷ []))
        else err (external "not found");
  };
  assets = record ((world done).assets) {
    new_release = λ h tag directory. ok (place, is_missing h);
  };
}

found_or_not :
    (written : Bool)
    → let answer =
        if written
        then ok (node_image_release false (owner ∷ []))
        else err (external "not found") in
      ((n : OpenStackNodeImageRelease) × (answer ≡ ok n))
      ⊎ ((e : Error) × (answer ≡ err e) × (tells_not_found e ≡ true))
found_or_not true = inl (_, refl)
found_or_not false = inr (_, refl, refl)

cluster_stack_served : IsServedClusterStack progressing req cluster_stack
cluster_stack_served = record {
  get = λ h. (_, refl);
  new_patch_helper = λ h name. refl;
  patch = λ h a b. refl;
  find = λ h key. found_or_not (is_written (release_writes h));
  create = λ h n. refl;
  update = λ h n. refl;
}

has_assets : HasAssets progressing "/tmp" cluster_stack
unfolding cut_release_version split cut_parts
has_assets = record {
  missing = is_missing;
  place = place;
  client = 4;
  content = [];
  images = some node_image ∷ [];
  base = "openstack-ferrol-1-27";
  new_release = λ h. refl;
  new_assets_client = λ h. refl;
  download = λ h. refl;
  downloaded = λ h. refl;
  stays = λ h c kept there. ground arith;
  read_file = λ h path. refl;
  readable = refl;
  whole = ((node_image, opts, refl, refl), tt);
  tagged = refl;
}

EnsuresAll-is_written :
    {env : Env} {release : OpenStackClusterStackRelease} {p : Release} {before after : List Call}
    → EnsuresAll env release p (some node_image ∷ []) before after
    → is_written after ≡ true
EnsuresAll-is_written (and_then image c ensures none_left) = refl

owned_progress :
    (h : History) (items : List OpenStackNodeImageRelease)
    → is_written (release_writes h) ≡ true
    → owned_at h ≡ items
    → let complete = is_complete (keep (is_owned progressing cluster_stack) items) in
      (complete ≡ true) ⊎ ((complete ≡ false) × (2 - listings h ≢ 0))
unfolding is_owned match_owner_reference
owned_progress h items written answered =
    let shown : node_image_release (leb 2 (listings h)) (owner ∷ []) ∷ [] ≡ items =
      sym (rw written refl) ∙ answered in
    subst
      (λ items.
        let complete = is_complete (keep (is_owned progressing cluster_stack) items) in
        (complete ≡ true) ⊎ ((complete ≡ false) × (2 - listings h ≢ 0)))
      shown
      (elim (Bool-cases (leb 2 (listings h))) [
        | inl seen ↦ inl (ground (arith, seen))
        | inr early ↦ inr (ground (arith, early), ground (arith, early))
      ])

ok_items : {a b : List OpenStackNodeImageRelease} → ok a ≡ ok b → a ≡ b
ok_items e = cc

become_ready : BecomeReady progressing cluster_stack place (some node_image ∷ [])
become_ready = record {
  left = λ h. 2 - listings h;
  list = λ h. (owned_at h, refl);
  progress = λ h items ensured answered.
      owned_progress h items (EnsuresAll-is_written ensured.all) (ok_items answered);
  left_never_grows = λ h c. ground arith;
  listed = λ h far. ground arith;
}

recognises : Recognises progressing cluster_stack
recognises = record { ensured = λ p refs a e. ground (arith, e); parsed = refl }

follow-HasBecomeReady_example :
    let r = follow (reconcile_cluster_stack progressing "/tmp" req) 3 [] in
    HasBecomeReady r × IsEnsured progressing cluster_stack place (some node_image ∷ []) r.1
unfolding become_ready has_assets
follow-HasBecomeReady_example =
    follow-HasBecomeReady progressing "/tmp" req cluster_stack cluster_stack_served has_assets
      become_ready recognises 3 [] (omega arith)
