-- ===== src/ClusterStack/Ownership.antt =====
-- What the reconciler does with one OpenStackNodeImageRelease, and which ones it owns.
use mathlib.Core.List.{append_assoc, append-nil}
use cluster_stack_provider_o.Base.{
  String, ◌≡◌, ◌∙◌, Bool, true, some, List, [], ◌∷◌, ◌++◌, any, All, keep, arith, Bool-cases, inl,
  inr, eq_refl, eq_iff, if◌then◌else◌, ◌⊎◌, ◌↔◌, refl, Option-cases,
}
use cluster_stack_provider_o.Api.{
  OwnerReference, OpenStackNodeImage, OpenStackNodeImageRelease, OpenStackClusterStackRelease,
}
use cluster_stack_provider_o.Runtime.Errors.{Try, ok, err}
use cluster_stack_provider_o.Runtime.Calls.{Call, History}
use cluster_stack_provider_o.Runtime.Env.{Env}
use cluster_stack_provider_o.ClusterStack.Owner.{
  generate_owner_reference, new_node_image_release, match_owner_reference, adopt, create_or_update,
  is_owned, append_owned, collect_owned, get_owned,
}

module _ (env : Env) (r : OpenStackClusterStackRelease) where
  -- However many references match, the item is appended once.
  append_owned-any :
      (n : OpenStackNodeImageRelease) (owned : List OpenStackNodeImageRelease)
      (refs : List OwnerReference)
      → append_owned env r n owned refs
        ≡ (if any (λ a. match_owner_reference env a r) refs then owned ++ n ∷ [] else owned)
  unfolding append_owned
  append_owned-any n owned [] = refl
  append_owned-any n owned (a ∷ refs) = elim (Bool-cases (match_owner_reference env a r)) [
    | inl e ↦ rw e refl
    | inr e ↦ rw e (append_owned-any n owned refs)
  ]

  pub collect_owned-keep_onto :
      (owned items : List OpenStackNodeImageRelease)
      → collect_owned env r owned items ≡ owned ++ keep (is_owned env r) items
  unfolding collect_owned is_owned
  collect_owned-keep_onto owned [] = rw append-nil
  collect_owned-keep_onto owned (n ∷ ns) =
      let refs = n.metadata.owner_references in
      elim (Bool-cases (any (λ a. match_owner_reference env a r) refs)) [
        | inl e ↦
            rw (append_owned-any n owned refs, e)
              (collect_owned-keep_onto (owned ++ n ∷ []) ns ∙ rw append_assoc)
        | inr e ↦ rw (append_owned-any n owned refs, e) (collect_owned-keep_onto owned ns)
      ]

  -- One of the references has the API group, the kind and the name of the release; the version of
  -- the API and the UID are not looked at.
  abbrev pub Names : List OwnerReference → Type 0
  Names [] = ⊥
  Names (a ∷ refs) =
      ((env.kube.parse_group a.api_version ≡ some (env.kube.kind_group r.type_meta))
        × (a.kind ≡ r.type_meta.kind)
        × (a.name ≡ r.metadata.name))
      ⊎ Names refs

  match-names :
      (a : OwnerReference)
      → (match_owner_reference env a r ≡ true) ↔ (
          (env.kube.parse_group a.api_version ≡ some (env.kube.kind_group r.type_meta))
          × (a.kind ≡ r.type_meta.kind)
          × (a.name ≡ r.metadata.name))
  unfolding match_owner_reference
  match-names a =
      let by_kind = eq_iff a.kind r.type_meta.kind in
      let by_name = eq_iff a.name r.metadata.name in
      elim (Option-cases (env.kube.parse_group a.api_version)) [
        | inl nothing ↦
            (λ h. absurd (ground (arith, nothing, h)), λ h. absurd (ground (arith, nothing, h)))
        | inr (group, found) ↦ (
          λ h.
              ground
                (arith, found, h, eq_iff group (env.kube.kind_group r.type_meta), by_kind, by_name),
          λ h.
              ground
                (arith, found, h, eq_iff group (env.kube.kind_group r.type_meta), by_kind, by_name),
        )
      ]

  any-Names :
      (refs : List OwnerReference)
      → (any (λ a. match_owner_reference env a r) refs ≡ true) ↔ Names refs
  any-Names [] = (λ h. absurd (ground arith), λ h. absurd h)
  any-Names (a ∷ refs) = elim (Bool-cases (match_owner_reference env a r)) [
    | inl e ↦ (λ h. inl ((match-names a).0 e), λ h. ground (arith, e))
    | inr e ↦ (
      λ h. inr ((any-Names refs).0 (ground (arith, e, h))),
      elim [
        | inl named ↦ absurd (ground (arith, e, (match-names a).1 named))
        | inr later ↦ ground (arith, e, (any-Names refs).1 later)
      ],
    )
  ]

  -- If the list call succeeds, the two loops keep each listed release once and in its order, and
  -- leave out the others, where the kept ones are exactly those with some owner reference that has
  -- the API group, the kind and the name of the cluster stack release, however many match.
  pub get_owned-keep :
      (h : History) {items : List OpenStackNodeImageRelease}
      → env.kube.list_node_image_releases h r.metadata.namespace ≡ ok items
      → ((get_owned env r h).0 ≡ ok (keep (is_owned env r) items))
        × ((n : OpenStackNodeImageRelease)
            → (is_owned env r n ≡ true) ↔ Names n.metadata.owner_references)
  unfolding get_owned is_owned
  get_owned-keep h {items} listed =
      (ground (arith, collect_owned-keep_onto [] items), λ n. any-Names n.metadata.owner_references)

  -- The call and its answer together.
  pub get_owned_listed :
      (h : History) {items : List OpenStackNodeImageRelease}
      → env.kube.list_node_image_releases h r.metadata.namespace ≡ ok items
      → get_owned env r h
        ≡ (ok (keep (is_owned env r) items), Call.list_node_image_releases r.metadata.namespace ∷ h)
  unfolding get_owned
  get_owned_listed h {items} listed = ground (arith, collect_owned-keep_onto [] items)

-- The calls that change an OpenStackNodeImageRelease, the latest first.
abbrev pub writes : History → List Call
writes [] = []
writes (Call.create_node_image_release n ∷ h) = Call.create_node_image_release n ∷ writes h
writes (Call.update_node_image_release n ∷ h) = Call.update_node_image_release n ∷ writes h
writes (_ ∷ h) = writes h

module _ (env : Env) (r : OpenStackClusterStackRelease) (name : String) where
  -- What is to be written for a node image, by the answer to `Get`.
  abbrev pub wanted :
      OpenStackNodeImage → OwnerReference → Try OpenStackNodeImageRelease → List Call
  wanted image owner (ok found) = Call.update_node_image_release (adopt env owner found) ∷ []
  wanted image owner (err e) =
      if env.kube.is_not_found e
      then Call.create_node_image_release (new_node_image_release r name image owner) ∷ []
      else []

  -- An existing release is updated with the owner added; a missing one is created; on any other
  -- error of `Get` nothing is written. Nothing else is written in any case.
  pub create_or_update-writes :
      (image : OpenStackNodeImage) (owner : OwnerReference) (h : History)
      → writes (create_or_update env r name image owner h).1
        ≡ wanted image owner (
            env.kube.get_node_image_release h
              (record { namespace = r.metadata.namespace; name = name }))
          ++ writes h
  unfolding create_or_update
  create_or_update-writes image owner h = ground arith

-- What is relied on: `EnsureOwnerRef` gives references that contain the given one, and the group of
-- the release's kind is the one that its `apiVersion` parses to.
pub record Recognises (env : Env) (r : OpenStackClusterStackRelease) : Type 0 where
  pub ensured :
      (p : OwnerReference → Bool) (refs : List OwnerReference) (owner : OwnerReference)
      → p owner ≡ true
      → any p (env.kube.ensure_owner_ref refs owner) ≡ true
  pub parsed : env.kube.parse_group r.type_meta.api_version ≡ some (env.kube.kind_group r.type_meta)

abbrev pub WritesOwned : Env → OpenStackClusterStackRelease → Call → Type 0
WritesOwned env r (Call.create_node_image_release n) = is_owned env r n ≡ true
WritesOwned env r (Call.update_node_image_release n) = is_owned env r n ≡ true
WritesOwned env r _ = Unit

module _ (env : Env) (r : OpenStackClusterStackRelease) (recognises : Recognises env r) where
  match-generate : match_owner_reference env (generate_owner_reference r) r ≡ true
  unfolding match_owner_reference generate_owner_reference
  match-generate = ground (
    arith,
    recognises.parsed,
    eq_refl (env.kube.kind_group r.type_meta),
    eq_refl r.type_meta.kind,
    eq_refl r.metadata.name,
  )

  pub adopt_owned :
      (n : OpenStackNodeImageRelease)
      → is_owned env r (adopt env (generate_owner_reference r) n) ≡ true
  unfolding is_owned adopt
  adopt_owned n = recognises.ensured _ n.metadata.owner_references _ match-generate

  pub new_owned :
      (name : String) (image : OpenStackNodeImage)
      → is_owned env r (new_node_image_release r name image (generate_owner_reference r)) ≡ true
  unfolding is_owned new_node_image_release
  new_owned name image = ground (arith, match-generate)

  pub wanted-All :
      (name : String) (image : OpenStackNodeImage) (answer : Try OpenStackNodeImageRelease)
      → All (WritesOwned env r) (wanted env r name image (generate_owner_reference r) answer)
  wanted-All name image (ok found) = (adopt_owned found, tt)
  wanted-All name image (err e) = elim (Bool-cases (env.kube.is_not_found e)) [
    | inl missing ↦ rw missing (new_owned name image, tt)
    | inr other ↦ rw other tt
  ]

  -- If `EnsureOwnerRef` adds the reference and the group of the release's kind is the one that its
  -- version parses to, then whatever is written for a node image is owned:
  -- `getOwnedOpenStackNodeImageReleases` keeps it when it is listed.
  pub create_or_update_owned :
      (name : String) (image : OpenStackNodeImage) (h : History)
      → (new : List Call) × (writes
            (create_or_update env r name image (generate_owner_reference r) h).1
          ≡ new ++ writes h)
        × All (WritesOwned env r) new
  create_or_update_owned name image h = (
    _,
    create_or_update-writes env r name image (generate_owner_reference r) h,
    wanted-All name image _,
  )
