-- ===== src/NodeImage/Writes.antt =====
-- What `Reconcile` changes in Glance.
use cluster_stack_provider_o.Base.{
  String, ◌≡◌, ◌≢◌, List, [], ◌∷◌, ◌++◌, arith, refl, Option, ◌=s◌, eq_iff, Bool-cases, inl, inr,
}
use cluster_stack_provider_o.Base.Int.{ℤ}
use cluster_stack_provider_o.Api.{OpenStackNodeImageRelease, OpenStackNodeImage, CreateOpts}
use cluster_stack_provider_o.Runtime.Errors.{Try, ok, err}
use cluster_stack_provider_o.Runtime.Calls.{Address, Bytes, Cloud, Image, Call, History}
use cluster_stack_provider_o.Runtime.Env.{Env}
use cluster_stack_provider_o.Runtime.Body.{Session, Body, ◌>>=◌, next, bind_cases}
use cluster_stack_provider_o.NodeImage.Glance.{get_image_id, choose_image}
use cluster_stack_provider_o.NodeImage.Cloud.{get_cloud_from_secret}
use cluster_stack_provider_o.NodeImage.Connect.{load_cloud, connect, find_image}
use cluster_stack_provider_o.NodeImage.Import.{
  announce, create_wanted, import_created, start_import,
}
use cluster_stack_provider_o.NodeImage.Await.{fetch_image, check_timeout, judge, await_image}
use cluster_stack_provider_o.NodeImage.Reconcile.{
  load_image, drive_image, with_client, with_cloud, reconcile_body,
}

abbrev O : Type 0
O = OpenStackNodeImageRelease

-- The calls that change an image, the latest first.
abbrev pub writes : History → List Call
writes [] = []
writes (Call.create_image client opts ∷ h) = Call.create_image client opts ∷ writes h
writes (Call.import_image client id uri ∷ h) = Call.import_image client id uri ∷ writes h
writes (_ ∷ h) = writes h

module _ (env : Env) where
  -- From the writes `before` to the history `after`: nothing, one creation, or one creation and then
  -- the import of the image that this very call, made after `past`, returned.
  pub data Wrote (before : List Call) (after : History) : Type 0 where
    nothing : writes after ≡ before → Wrote before after
    created :
        (client : Address) (opts : CreateOpts)
        → writes after ≡ Call.create_image client opts ∷ before
        → Wrote before after
    imported :
        (client : Address) (opts : CreateOpts) (uri : String) (image : Image) (past later : History)
        → env.openstack.create_image past client opts ≡ ok image
        → after ≡ later ++ (Call.create_image client opts ∷ past)
        → writes after
          ≡ Call.import_image client image.id uri ∷ Call.create_image client opts ∷ before
        → Wrote before after

  pub load_cloud-writes : (s : Session O) → writes (load_cloud env s).1.history ≡ writes s.history
  unfolding load_cloud get_cloud_from_secret
  load_cloud-writes s = ground arith

  pub connect-writes :
      (found : Cloud × Option Bytes) (s : Session O)
      → writes (connect env found.0 found.1 s).1.history ≡ writes s.history
  unfolding connect
  connect-writes found s = ground arith

  pub load_image-writes : (s : Session O) → writes (load_image s).1.history ≡ writes s.history
  unfolding load_image
  load_image-writes s = ground arith

  pub find_image-writes :
      (client : Address) (opts : CreateOpts) (s : Session O)
      → writes (find_image env client opts s).1.history ≡ writes s.history
  unfolding find_image get_image_id choose_image
  find_image-writes client opts s = ground arith

  await_image-writes :
      (minutes : ℤ) (client : Address) (opts : CreateOpts) (id : String) (s : Session O)
      → writes (await_image env minutes client opts id s).1.history ≡ writes s.history
  unfolding await_image fetch_image check_timeout judge
  await_image-writes minutes client opts id s = ground arith

  announce-writes :
      (opts : CreateOpts) (s : Session O)
      → writes (announce env opts s).1.history ≡ writes s.history
  unfolding announce
  announce-writes opts s = ground arith

  create_wanted-writes :
      (client : Address) (opts : CreateOpts) (s : Session O)
      → writes (create_wanted env client opts s).1.history
        ≡ Call.create_image client opts ∷ writes s.history
  unfolding create_wanted
  create_wanted-writes client opts s = ground arith

  create_wanted_next :
      (client : Address) (opts : CreateOpts) (s : Session O) {image : Image} {s' : Session O}
      → create_wanted env client opts s ≡ (next image, s')
      → env.openstack.create_image s.history client opts ≡ ok image
  unfolding create_wanted
  create_wanted_next client opts s h = ground arith

  create_wanted-last :
      (client : Address) (opts : CreateOpts) (s : Session O)
      → (event : Call) × ((create_wanted env client opts s).1.history
          ≡ event ∷ Call.create_image client opts ∷ s.history)
  unfolding create_wanted
  create_wanted-last client opts s = go (env.openstack.create_image s.history client opts) refl
    where
      go :
          (t : Try Image)
          → env.openstack.create_image s.history client opts ≡ t
          → (event : Call) × ((create_wanted env client opts s).1.history
              ≡ event ∷ Call.create_image client opts ∷ s.history)
      go (ok image) e = rw e (_, refl)
      go (err x) e = rw e (_, refl)

  import_created-last :
      (client : Address) (uri : String) (opts : CreateOpts) (image : Image) (s : Session O)
      → (event : Call) × ((import_created env client uri opts image s).1.history
          ≡ event ∷ Call.import_image client image.id uri ∷ s.history)
  unfolding import_created
  import_created-last client uri opts image s =
      go (env.openstack.import_image s.history client image.id uri) refl
    where
      go :
          (t : Try (Unit {0}))
          → env.openstack.import_image s.history client image.id uri ≡ t
          → (event : Call) × ((import_created env client uri opts image s).1.history
              ≡ event ∷ Call.import_image client image.id uri ∷ s.history)
      go (ok _) e = rw e (_, refl)
      go (err x) e = rw e (_, refl)

  import_created-writes :
      (client : Address) (uri : String) (opts : CreateOpts) (image : Image) (s : Session O)
      → writes (import_created env client uri opts image s).1.history
        ≡ Call.import_image client image.id uri ∷ writes s.history
  unfolding import_created
  import_created-writes client uri opts image s = ground arith

  -- A stage that writes nothing, and then one that writes what is allowed.
  andthen_Wrote :
      {A B : Type 0} (m : Body O A) (f : A → Body O B) (s : Session O)
      → writes (m s).1.history ≡ writes s.history
      → ((a : A) (s' : Session O)
          → m s ≡ (next a, s')
          → Wrote (writes s'.history) (f a s').1.history)
      → Wrote (writes s.history) ((m >>= f) s).1.history
  andthen_Wrote m f s same rest =
      bind_cases (λ r. Wrote (writes s.history) r.1.history) m f s
        (λ a s' e. let kept : writes s.history ≡ writes s'.history = cc in rw kept (rest a s' e))
        (λ o s' e. nothing (cc)) (λ s' e. nothing (cc))

  start_import-Wrote :
      (client : Address) (image : OpenStackNodeImage) (opts : CreateOpts) (s : Session O)
      → Wrote (writes s.history) (start_import env client image opts s).1.history
  unfolding start_import
  start_import-Wrote client image opts s =
      andthen_Wrote (announce env opts) _ s (announce-writes opts s) λ _ s₁ e₁.
        bind_cases (λ r. Wrote (writes s₁.history) r.1.history) (create_wanted env client opts) _ s₁
          (λ made s₂ e₂.
            let (mark, at) = create_wanted-last client opts s₁ in
            let (final, last) = import_created-last client image.url opts made s₂ in
            imported client opts image.url made s₁.history
              (final ∷ Call.import_image client made.id image.url ∷ mark ∷ [])
              (create_wanted_next client opts s₁ e₂) (cc (at, last))
              (cc (
                import_created-writes client image.url opts made s₂,
                create_wanted-writes client opts s₁,
              )))
          (λ o s₂ e₂. created client opts (cc (create_wanted-writes client opts s₁)))
          (λ s₂ e₂. created client opts (cc (create_wanted-writes client opts s₁)))

  drive_image-Wrote :
      (minutes : ℤ) (client : Address) (image : OpenStackNodeImage) (opts : CreateOpts)
      (id : String) (s : Session O)
      → Wrote (writes s.history) (drive_image env minutes client image opts id s).1.history
  unfolding drive_image
  drive_image-Wrote minutes client image opts id s = elim (Bool-cases (id =s "")) [
    | inl none_found ↦ rw none_found (start_import-Wrote client image opts s)
    | inr found ↦ rw found (nothing (await_image-writes minutes client opts id s))
  ]

  -- Once an image is found, whatever its status, the rest of `Reconcile` neither creates nor
  -- imports an image.
  pub drive_image_found :
      (minutes : ℤ) (client : Address) (image : OpenStackNodeImage) (opts : CreateOpts)
      (id : String) (s : Session O)
      → id ≢ ""
      → writes (drive_image env minutes client image opts id s).1.history ≡ writes s.history
  unfolding drive_image
  drive_image_found minutes client image opts id s found =
      ground (arith, eq_iff id "", await_image-writes minutes client opts id s)

  with_client-Wrote :
      (minutes : ℤ) (client : Address) (wanted : OpenStackNodeImage × CreateOpts) (s : Session O)
      → Wrote (writes s.history) (with_client env minutes client wanted s).1.history
  unfolding with_client
  with_client-Wrote minutes client wanted s =
      andthen_Wrote (find_image env client wanted.1) _ s (find_image-writes client wanted.1 s)
        λ id s₁ e₁. drive_image-Wrote minutes client wanted.0 wanted.1 id s₁

  with_cloud-Wrote :
      (minutes : ℤ) (found : Cloud × Option Bytes) (s : Session O)
      → Wrote (writes s.history) (with_cloud env minutes found s).1.history
  unfolding with_cloud
  with_cloud-Wrote minutes found s =
      andthen_Wrote (connect env found.0 found.1) _ s (connect-writes found s) λ client s₁ e₁.
        andthen_Wrote load_image _ s₁ (load_image-writes s₁)
          λ wanted s₂ e₂. with_client-Wrote minutes client wanted s₂

  -- The body of `Reconcile` changes Glance not at all, or creates one image, or creates one image
  -- and then imports the very image that this creation returned.
  pub reconcile_body-Wrote :
      (minutes : ℤ) (s : Session O)
      → Wrote (writes s.history) (reconcile_body env minutes s).1.history
  unfolding reconcile_body
  reconcile_body-Wrote minutes s =
      andthen_Wrote (load_cloud env) _ s (load_cloud-writes s)
        λ found s₁ e₁. with_cloud-Wrote minutes found s₁
