-- ===== src/NodeImage/Stages.antt =====
-- The stages of `Reconcile` on the way to the image's id, where all calls are served.
use cluster_stack_provider_o.Base.{
  String, ◌≡◌, refl, sym, subst, ◌∙◌, true, Option, none, some, ◌∷◌, arith,
}
use cluster_stack_provider_o.Api.{
  NamespacedName, OpenStackNodeImageRelease, CreateOpts, node_image_release_object,
}
use cluster_stack_provider_o.Runtime.Errors.{Try, ok, err}
use cluster_stack_provider_o.Runtime.Calls.{Address, Image, Call, History}
use cluster_stack_provider_o.Runtime.Env.{Env}
use cluster_stack_provider_o.Runtime.Body.{Session}
use cluster_stack_provider_o.NodeImage.Cloud.{get_cloud_from_secret, client_opts, tls_config}
use cluster_stack_provider_o.NodeImage.Glance.{list_opts, get_image_id, choose_image}
use cluster_stack_provider_o.NodeImage.Connect.{load_cloud, connect, find_image}
use cluster_stack_provider_o.NodeImage.Reconcile.{
  load_image, drive_image, with_client, with_cloud, reconcile_body,
}
use cluster_stack_provider_o.NodeImage.Secrets.{
  key_of, to_option, get_cloud_from_secret-history, get_cloud_from_secret-cloud_in,
}
use cluster_stack_provider_o.NodeImage.Service.{IsServed, Glance, to_list}
use cluster_stack_provider_o.Base.Int.{ℤ}
use cluster_stack_provider_o.Runtime.Later.{
  IsAfter, same, more, IsAfter-trans, IsAfter-same, Passes, Passes-bind,
}

abbrev O : Type 0
O = OpenStackNodeImageRelease

abbrev pub Alike : O → O → Type 0
Alike a b = (b.spec ≡ a.spec) × (b.metadata ≡ a.metadata)

to_option-ok : {A : Type 0} (t : Try A) {a : A} → to_option t ≡ some a → t ≡ ok a
to_option-ok (ok a) e = cc
to_option-ok (err x) e = absurd (ground arith)

module _ (env : Env) (req : NamespacedName) (release : O) (served : IsServed env req release) where
  -- The release as it is read, with any status.
  abbrev pub IsCurrent : Session O → Type 0
  IsCurrent s = (s.object.spec ≡ release.spec) × (s.object.metadata ≡ release.metadata)

  get_cloud_found :
      (h : History)
      → (get_cloud_from_secret env release.metadata.namespace served.complete.identity.name h).0
        ≡ ok served.found
  get_cloud_found h = to_option-ok _ (
      get_cloud_from_secret-cloud_in env release.metadata.namespace served.complete.identity.name h
        (served.get_secret h)
      ∙ served.has_cloud)

  pub load_cloud-Passes :
      (s : Session O) → IsCurrent s → Passes Alike (load_cloud env) s served.found
  unfolding load_cloud
  load_cloud-Passes s current =
      let found = get_cloud_found s.history in
      let identity = served.complete.has_identity in
      let asked =
        get_cloud_from_secret-history env release.metadata.namespace served.complete.identity.name
          s.history in
      record {
        goes_on = ground (arith, current, identity, found);
        alike =
            (ground (arith, current, identity, found), ground (arith, current, identity, found));
        later = subst (IsAfter s.history) (sym (ground (arith, current, identity, found, asked))) (
            more (Call.get_secret (key_of release.metadata.namespace served.complete.identity.name))
              refl same);
      }

  pub connect-Passes :
      (s : Session O) → Passes Alike (connect env (served.found).0 (served.found).1) s served.client
  unfolding connect
  connect-Passes s =
      let h = Call.auth_options (client_opts (served.found).0) ∷ s.history in
      let a = served.auth_options s.history in
      let b = served.authenticate h in
      let c = served.new_image_client (
        Call.authenticate served.provider (tls_config env (served.found).0 (served.found).1)
          (record (served.auth) { allow_reauth = true })
        ∷ h) in
      record {
        goes_on = ground (arith, a, served.new_client, b, c);
        alike = (
          ground (arith, a, served.new_client, b, c),
          ground (arith, a, served.new_client, b, c),
        );
        later = subst (IsAfter s.history) (sym (ground (arith, a, served.new_client, b, c))) (
            more (Call.new_image_client served.provider (served.found).0.region_name) refl (
              more
                (Call.authenticate served.provider
                  (tls_config env (served.found).0 (served.found).1)
                  (record (served.auth) { allow_reauth = true }))
                refl (more (Call.auth_options (client_opts (served.found).0)) refl same)));
      }

  pub load_image-Passes :
      (s : Session O)
      → IsCurrent s
      → Passes Alike load_image s (served.complete.image, served.complete.opts)
  unfolding load_image
  load_image-Passes s current =
      let image = served.complete.has_image in
      let opts = served.complete.has_opts in
      record {
        goes_on = ground (arith, current, image, opts);
        alike = (ground (arith, current, image, opts), ground (arith, current, image, opts));
        later = IsAfter-same (ground (arith, current, image, opts));
      }

-- The id that a lookup gives, "" where there is no image.
abbrev pub id_of : Option Image → String
id_of none = ""
id_of (some image) = image.id

choose_image-to_list :
    (opts : CreateOpts) (held : Option Image) → choose_image opts (to_list held) ≡ ok (id_of held)
unfolding choose_image
choose_image-to_list opts none = refl
choose_image-to_list opts (some image) = refl

pub find_image-Passes :
    {env : Env} {client : Address} {opts : CreateOpts} {url : String}
    (glance : Glance env client opts url) (s : Session O)
    → Passes Alike (find_image env client opts) s (id_of (glance.held s.history))
unfolding find_image get_image_id
find_image-Passes {client = client} {opts = opts} glance s =
    let (pages, paged, extracted) = glance.list s.history in
    let chosen = choose_image-to_list opts (glance.held s.history) in
    record {
      goes_on = ground (arith, paged, extracted, chosen);
      alike = (ground (arith, paged, extracted, chosen), ground (arith, paged, extracted, chosen));
      later =
          subst (IsAfter s.history) (sym (ground (arith, paged, extracted, chosen)))
            (more (Call.list_images client (list_opts opts)) refl same);
    }

module _ (env : Env) (req : NamespacedName) (release : O) (served : IsServed env req release)
    (glance : Glance env served.client served.complete.opts served.complete.image.url) where
  -- A session that has come as far as the image's id, with the history of the lookup.
  pub record Driven (minutes : ℤ) (s : Session O) : Type 0 where
    pub past : History
    pub at : Session O
    pub looked_up : IsAfter s.history past
    pub arrived : IsAfter past at.history
    pub drives :
        reconcile_body env minutes s
        ≡ drive_image env minutes served.client served.complete.image served.complete.opts
            (id_of (glance.held past))
            at

  pub reaches :
      (minutes : ℤ) (s : Session O) → IsCurrent env req release served s → Driven minutes s
  unfolding reconcile_body with_cloud with_client
  reaches minutes s current =
      let p₁ = load_cloud-Passes env req release served s current in
      let s₁ = (load_cloud env s).1 in
      let p₂ = connect-Passes env req release served s₁ in
      let s₂ = (connect env (served.found).0 (served.found).1 s₁).1 in
      let current₂ : IsCurrent env req release served s₂ =
        (p₂.alike.0 ∙ p₁.alike.0 ∙ current.0, p₂.alike.1 ∙ p₁.alike.1 ∙ current.1) in
      let p₃ = load_image-Passes env req release served s₂ current₂ in
      let s₃ = (load_image s₂).1 in
      let p₄ = find_image-Passes glance s₃ in
      record {
        past = s₃.history;
        at = (find_image env served.client served.complete.opts s₃).1;
        looked_up = IsAfter-trans p₁.later (IsAfter-trans p₂.later p₃.later);
        arrived = p₄.later;
        drives =
            Passes-bind (load_cloud env) _ s p₁
            ∙ Passes-bind (connect env _ _) _ s₁ p₂
            ∙ Passes-bind load_image _ s₂ p₃
            ∙ Passes-bind (find_image env _ _) _ s₃ p₄;
      }
