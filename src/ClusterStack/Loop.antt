-- ===== src/ClusterStack/Loop.antt =====
-- The loop over the node images, lines 163 to 179: nothing is left out, nothing is written twice.
use cluster_stack_provider_o.Base.{
  String, ◌<>◌, ◌≡◌, true, Bool-cases, inl, inr, refl, sym, subst, ◌∙◌, ap, Option, none, some,
  List, [], ◌∷◌, ◌++◌, arith,
}
use cluster_stack_provider_o.Api.{
  CreateOpts, NamespacedName, OwnerReference, OpenStackNodeImage, OpenStackNodeImageRelease,
  OpenStackClusterStackRelease,
}
use cluster_stack_provider_o.Runtime.Errors.{Try, ok, err}
use cluster_stack_provider_o.Runtime.Calls.{Release, Call, History}
use cluster_stack_provider_o.Runtime.Env.{Env}
use cluster_stack_provider_o.Runtime.Body.{Session, next, bind_cases}
use cluster_stack_provider_o.ClusterStack.Tag.{cut_release_version}
use cluster_stack_provider_o.ClusterStack.Owner.{
  generate_owner_reference, create_or_update, is_owned, adopt, new_node_image_release,
}
use cluster_stack_provider_o.ClusterStack.Ownership.{
  adopt_owned, new_owned, writes, wanted, Recognises, create_or_update-writes,
}
use cluster_stack_provider_o.ClusterStack.NodeImages.{
  node_image_release_name, ensure_node_image, ensure_node_images,
}
use cluster_stack_provider_o.ClusterStack.Readiness.Reconcile.{ensure_node_image-object}

abbrev O : Type 0
O = OpenStackClusterStackRelease

module _ (env : Env) (r : O) (release : Release) where
  -- The name that the release gives to a node image: the tag without its version, the name of the
  -- image, and the version of the node images.
  pub record IsNamed (image : OpenStackNodeImage) (name : String) : Type 0 where
    pub opts : CreateOpts
    pub base : String
    pub has_opts : image.create_opts ≡ some opts
    pub cut : cut_release_version r.metadata.name ≡ ok base
    pub named : name ≡ base <> ("-" <> (opts.name <> ("-" <> release.node_image_version)))

  abbrev pub key : String → NamespacedName
  key name = record { namespace = r.metadata.namespace; name = name }

  -- A call that ensures a node image: a creation under its name, with this very image and the
  -- identity of the release, or an update of what `Get` found under its name, in its owner
  -- references alone. Both are recognised as owned by the release.
  pub data Ensures (image : OpenStackNodeImage) : Call → Type 0 where
    creates :
        (n : OpenStackNodeImageRelease)
        → IsNamed image n.metadata.name
        → n.metadata.namespace ≡ r.metadata.namespace
        → n.spec ≡ record { identity_ref = r.spec.identity_ref; image = some image }
        → is_owned env r n ≡ true
        → Ensures image (Call.create_node_image_release n)
    updates :
        (past : History) (name : String) (found : OpenStackNodeImageRelease)
        (refs : List OwnerReference) (n : OpenStackNodeImageRelease)
        → IsNamed image name
        → env.kube.get_node_image_release past (key name) ≡ ok found
        → n ≡ record found { metadata = record (found.metadata) { owner_references = refs } }
        → is_owned env r n ≡ true
        → Ensures image (Call.update_node_image_release n)

  -- From some writes to more, the latest first: one that ensures each node image, in their order.
  pub data EnsuresAll : List (Option OpenStackNodeImage) → List Call → List Call → Type 0 where
    none_left : {before : List Call} → EnsuresAll [] before before
    and_then :
        {images : List (Option OpenStackNodeImage)} {before after : List Call}
        (image : OpenStackNodeImage) (c : Call)
        → Ensures image c
        → EnsuresAll images (c ∷ before) after
        → EnsuresAll (some image ∷ images) before after

  module _ (recognises : Recognises env r) where
    abbrev owner : OwnerReference
    owner = generate_owner_reference r

    -- What a successful write of a named node image is.
    create_or_update-Ensures :
        (name : String) (image : OpenStackNodeImage) (h : History)
        → IsNamed image name
        → (create_or_update env r name image owner h).0 ≡ ok tt
        → (c : Call) × (writes (create_or_update env r name image owner h).1 ≡ c ∷ writes h)
          × Ensures image c
    unfolding create_or_update adopt new_node_image_release
    create_or_update-Ensures name image h named fine =
        go (env.kube.get_node_image_release h (key name)) refl
      where
        go :
            (t : Try OpenStackNodeImageRelease)
            → env.kube.get_node_image_release h (key name) ≡ t
            → (c : Call) × (writes (create_or_update env r name image owner h).1 ≡ c ∷ writes h)
              × Ensures image c
        go (ok found) e = (
          Call.update_node_image_release (adopt env owner found),
          create_or_update-writes env r name image owner h
              ∙ ap (λ t. wanted env r name image owner t ++ writes h) e,
          updates h name found (env.kube.ensure_owner_ref found.metadata.owner_references owner)
              (adopt env owner found) named e refl (adopt_owned env r recognises found),
        )
        go (err x) e = elim (Bool-cases (env.kube.is_not_found x)) [
          | inl absent ↦ (
            Call.create_node_image_release (new_node_image_release r name image owner),
            create_or_update-writes env r name image owner h
                ∙ ap (λ t. wanted env r name image owner t ++ writes h) e
                ∙ rw absent refl,
            creates (new_node_image_release r name image owner) named refl refl
                (new_owned env r recognises name image),
          )
          | inr other ↦ absurd (ground (arith, e, other, fine))
        ]

module _ (env : Env) where
  -- One round of the loop that goes on.
  record Round (release : Release) (node_image : Option OpenStackNodeImage) (s s' : Session O)
      : Type 0 where
    name : String
    image : OpenStackNodeImage
    there : node_image ≡ some image
    named : IsNamed env s.object release image name
    fine :
        (create_or_update env s.object name image (generate_owner_reference s.object) s.history).0
        ≡ ok tt
    made :
        s'.history
        ≡ (create_or_update env s.object name image (generate_owner_reference s.object) s.history).1

  ensure_node_image-Round :
      (release : Release) (image : Option OpenStackNodeImage) (s : Session O) {a : Unit {0}}
      {s' : Session O}
      → ensure_node_image env release (generate_owner_reference s.object) image s ≡ (next a, s')
      → Round release image s s'
  unfolding ensure_node_image node_image_release_name
  ensure_node_image-Round release image s {a} {s'} h = go image _ refl h
    where
      goes :
          (image : OpenStackNodeImage) (opts : Option CreateOpts) (cut : Try String)
          → image.create_opts ≡ opts
          → cut_release_version s.object.metadata.name ≡ cut
          → ensure_node_image env release (generate_owner_reference s.object) (some image) s
            ≡ (next a, s')
          → Round release (some image) s s'
      goes image (some opts) (ok base) has e h = record {
        name = node_image_release_name base opts.name release.node_image_version;
        image = image;
        there = refl;
        named = record { opts = opts; base = base; has_opts = has; cut = e; named = refl };
        fine = ground arith;
        made = ground arith;
      }
      goes image none cut has e h = absurd (ground arith)
      goes image (some opts) (err x) has e h = absurd (ground arith)

      go :
          (image : Option OpenStackNodeImage) (cut : Try String)
          → cut_release_version s.object.metadata.name ≡ cut
          → ensure_node_image env release (generate_owner_reference s.object) image s ≡ (next a, s')
          → Round release image s s'
      go none cut e h = absurd (ground arith)
      go (some image) cut e h = goes image image.create_opts cut refl e h

  -- The write of one round.
  abbrev Writes : O → Release → Option OpenStackNodeImage → Session O → Session O → Type 0
  Writes r release node_image s s' =
      (image : OpenStackNodeImage) × (c : Call) × (node_image ≡ some image)
      × (writes s'.history ≡ c ∷ writes s.history)
      × Ensures env r release image c

  ensure_node_image-Writes :
      (release : Release) (node_image : Option OpenStackNodeImage) (s : Session O) {a : Unit {0}}
      {s' : Session O}
      → Recognises env s.object
      → ensure_node_image env release (generate_owner_reference s.object) node_image s
        ≡ (next a, s')
      → Writes s.object release node_image s s'
  ensure_node_image-Writes release node_image s recognises h =
      let round = ensure_node_image-Round release node_image s h in
      let (c, written, ensures) =
        create_or_update-Ensures env s.object release recognises round.name round.image s.history
          round.named round.fine in
      (round.image, c, round.there, ap writes round.made ∙ written, ensures)

  then_ensures :
      (r : O) (release : Release) (node_image : Option OpenStackNodeImage)
      (images : List (Option OpenStackNodeImage)) (s s₁ s' : Session O)
      → Writes r release node_image s s₁
      → EnsuresAll env r release images (writes s₁.history) (writes s'.history)
      → EnsuresAll env r release (node_image ∷ images) (writes s.history) (writes s'.history)
  then_ensures r release node_image images s s₁ s' (image, c, there, written, ensures) rest =
      subst (λ n. EnsuresAll env r release (n ∷ images) (writes s.history) (writes s'.history))
        (sym there)
        (and_then image c ensures
          (subst (λ w. EnsuresAll env r release images w (writes s'.history)) written rest))

  -- If `EnsureOwnerRef` adds the reference, the group of the release's kind is the one that its
  -- version parses to, and the loop runs to its end, then it has written exactly one
  -- OpenStackNodeImageRelease for each node image, in their order: either it has created one with
  -- this image and the identity of the release, under the release's tag without its version, the
  -- image's name and the version of the node images, in the namespace of the release, or it has
  -- updated the one that `Get` found under that name, in nothing but its owner references. Every
  -- one that it wrote is recognised as owned by the release.
  pub ensure_node_images-EnsuresAll :
      (r : O)
      → Recognises env r
      → (release : Release) (images : List (Option OpenStackNodeImage)) (s : Session O)
        {a : Unit {0}} {s' : Session O}
      → s.object ≡ r
      → ensure_node_images env release (generate_owner_reference r) images s ≡ (next a, s')
      → EnsuresAll env r release images (writes s.history) (writes s'.history)
  unfolding ensure_node_images
  ensure_node_images-EnsuresAll r recognises release [] s same = λ h.
      subst (λ t. EnsuresAll env r release [] (writes s.history) (writes t.history))
        (ap (λ p. p.1) h) none_left
  ensure_node_images-EnsuresAll r recognises release (node_image ∷ images) s {a} {s'} same =
      let owner = generate_owner_reference r in
      bind_cases
        (λ t.
          t ≡ (next a, s')
          → EnsuresAll env r release (node_image ∷ images) (writes s.history) (writes s'.history))
        (ensure_node_image env release owner node_image) _ s
        (λ b s₁ e h.
          let first =
            subst
              (λ o.
                Recognises env o
                → ensure_node_image env release (generate_owner_reference o) node_image s
                  ≡ (next b, s₁)
                → Writes o release node_image s s₁)
              same (ensure_node_image-Writes release node_image s) recognises e in
          let kept : s₁.object ≡ r =
            cc (same, ensure_node_image-object env release owner node_image s) in
          then_ensures r release node_image images s s₁ s' first
            (ensure_node_images-EnsuresAll r recognises release images s₁ kept h))
        (λ o s₁ e h. cc) (λ s₁ e h. cc)
