-- ===== src/NodeImage/Creations.antt =====
-- The creations of images: with which client and options, and whether they succeed.
use cluster_stack_provider_o.Base.{
  String, ◌≡◌, refl, sym, subst, ap, ◌∙◌, Bool, true, false, List, [], ◌∷◌, arith, Option, ◌≢◌, All,
  ◌=s◌, eq_iff, Bool-cases, inl, inr,
}
use cluster_stack_provider_o.Base.Int.{ℤ}
use cluster_stack_provider_o.Api.{OpenStackNodeImageRelease, OpenStackNodeImage, CreateOpts}
use cluster_stack_provider_o.Runtime.Errors.{ok, is_ok}
use cluster_stack_provider_o.Runtime.Calls.{Address, Bytes, Cloud, Image, Call, History}
use cluster_stack_provider_o.Runtime.Env.{Env}
use cluster_stack_provider_o.Runtime.Body.{Session, Body, ◌>>=◌, bind_cases}
use cluster_stack_provider_o.Runtime.Attempts.{Attempt, Grows, no_more, one_more, Grows-same}
use cluster_stack_provider_o.NodeImage.Glance.{list_opts, get_image_id, choose_image}
use cluster_stack_provider_o.NodeImage.Cloud.{get_cloud_from_secret}
use cluster_stack_provider_o.NodeImage.Connect.{load_cloud, connect, find_image}
use cluster_stack_provider_o.NodeImage.Import.{
  announce, create_wanted, import_created, start_import,
}
use cluster_stack_provider_o.NodeImage.Await.{fetch_image, check_timeout, judge, await_image}
use cluster_stack_provider_o.NodeImage.Reconcile.{
  load_image, drive_image, with_client, with_cloud, reconcile_body,
}
use cluster_stack_provider_o.NodeImage.Listing.{find_image-Listed}
use cluster_stack_provider_o.NodeImage.Absence.{choose_image-eq-nil}

abbrev O : Type 0
O = OpenStackNodeImageRelease

module _ (env : Env) where
  -- The creations of a history, the latest first, each with its client and options.
  abbrev pub creations : History → List (Attempt (Address × CreateOpts))
  creations [] = []
  creations (Call.create_image client opts ∷ h) =
      record { key = (client, opts); fine = is_ok (env.openstack.create_image h client opts) }
      ∷ creations h
  creations (_ ∷ h) = creations h

  -- After these creations, Glance lists nothing to this client that has these options.
  abbrev pub IsFree : List (Attempt (Address × CreateOpts)) → Address × CreateOpts → Type 0
  IsFree before (client, opts) =
      (past : History) × (pages : Address) × (creations past ≡ before)
      × (env.openstack.all_pages past client (list_opts opts) ≡ ok pages)
      × (env.openstack.extract_images (Call.list_images client (list_opts opts) ∷ past) pages
          ≡ ok [])

  -- From one history to a later one, by its creations.
  abbrev pub Creates :
      List (Attempt (Address × CreateOpts)) → List (Attempt (Address × CreateOpts)) → Type 0
  Creates = Grows IsFree

  load_cloud-creations :
      (s : Session O) → creations (load_cloud env s).1.history ≡ creations s.history
  unfolding load_cloud get_cloud_from_secret
  load_cloud-creations s = ground arith

  connect-creations :
      (found : Cloud × Option Bytes) (s : Session O)
      → creations (connect env found.0 found.1 s).1.history ≡ creations s.history
  unfolding connect
  connect-creations found s = ground arith

  load_image-creations : (s : Session O) → creations (load_image s).1.history ≡ creations s.history
  unfolding load_image
  load_image-creations s = ground arith

  find_image-creations :
      (client : Address) (opts : CreateOpts) (s : Session O)
      → creations (find_image env client opts s).1.history ≡ creations s.history
  unfolding find_image get_image_id choose_image
  find_image-creations client opts s = ground arith

  await_image-creations :
      (minutes : ℤ) (client : Address) (opts : CreateOpts) (id : String) (s : Session O)
      → creations (await_image env minutes client opts id s).1.history ≡ creations s.history
  unfolding await_image fetch_image check_timeout judge
  await_image-creations minutes client opts id s = ground arith

  announce-creations :
      (opts : CreateOpts) (s : Session O)
      → creations (announce env opts s).1.history ≡ creations s.history
  unfolding announce
  announce-creations opts s = ground arith

  import_created-creations :
      (client : Address) (uri : String) (opts : CreateOpts) (image : Image) (s : Session O)
      → creations (import_created env client uri opts image s).1.history ≡ creations s.history
  unfolding import_created
  import_created-creations client uri opts image s = ground arith

  create_wanted-creations :
      (client : Address) (opts : CreateOpts) (s : Session O)
      → creations (create_wanted env client opts s).1.history
        ≡ record {
          key = (client, opts);
          fine = is_ok (env.openstack.create_image s.history client opts);
        }
          ∷ creations s.history
  unfolding create_wanted
  create_wanted-creations client opts s = ground arith

  -- One creation, whatever becomes of it.
  abbrev Adds :
      Address
      → CreateOpts
      → List (Attempt (Address × CreateOpts))
      → List (Attempt (Address × CreateOpts))
      → Type 0
  Adds client opts before after =
      (fine : Bool) × (after ≡ record { key = (client, opts); fine = fine } ∷ before)

  start_import-Adds :
      (client : Address) (image : OpenStackNodeImage) (opts : CreateOpts) (s : Session O)
      → Adds client opts
          (creations s.history)
          (creations (start_import env client image opts s).1.history)
  unfolding start_import announce
  start_import-Adds client image opts s =
      let s₁ = (announce env opts s).1 in
      let fine = is_ok (env.openstack.create_image s₁.history client opts) in
      let same = create_wanted-creations client opts s₁ in
      bind_cases (λ r. Adds client opts (creations s.history) (creations r.1.history))
        (create_wanted env client opts) (import_created env client image.url opts) s₁
        (λ made s₂ e. (fine, cc (same, import_created-creations client image.url opts made s₂)))
        (λ o s₂ e. (fine, cc (same))) (λ s₂ e. (fine, cc (same)))

  -- That every image that Glance lists has an id.
  abbrev pub AllNamed : Type 0
  AllNamed =
      (h : History) (pages : Address) (images : List Image)
      → env.openstack.extract_images h pages ≡ ok images
      → All (λ image. image.id ≢ "") images

  drive_image-Adds :
      (minutes : ℤ) (client : Address) (image : OpenStackNodeImage) (opts : CreateOpts)
      (id : String) (s : Session O)
      → (id =s "") ≡ true
      → Adds client opts
          (creations s.history)
          (creations (drive_image env minutes client image opts id s).1.history)
  unfolding drive_image
  drive_image-Adds minutes client image opts id s e = rw e (start_import-Adds client image opts s)

  drive_image-creations :
      (minutes : ℤ) (client : Address) (image : OpenStackNodeImage) (opts : CreateOpts)
      (id : String) (s : Session O)
      → (id =s "") ≡ false
      → creations (drive_image env minutes client image opts id s).1.history ≡ creations s.history
  unfolding drive_image
  drive_image-creations minutes client image opts id s e =
      rw e (await_image-creations minutes client opts id s)

  with_client-Creates :
      (minutes : ℤ) (client : Address) (wanted : OpenStackNodeImage × CreateOpts) (s : Session O)
      → AllNamed
      → Creates
          (creations s.history)
          (creations (with_client env minutes client wanted s).1.history)
  unfolding with_client
  with_client-Creates minutes client wanted s named =
      let opts = wanted.1 in
      bind_cases (λ r. Creates (creations s.history) (creations r.1.history))
        (find_image env client opts) (drive_image env minutes client wanted.0 opts) s
        (λ id s' e. elim (Bool-cases (id =s "")) [
          | inl none_found ↦
              let seen = find_image-Listed env client opts s e in
              let kept : creations s'.history ≡ creations s.history =
                cc (find_image-creations client opts s) in
              let chosen : choose_image opts seen.images ≡ ok "" =
                seen.chosen ∙ ap ok ((eq_iff id "").0 none_found) in
              let empty =
                choose_image-eq-nil env opts seen.images (named _ _ _ seen.extracted) chosen in
              let (fine, added) = drive_image-Adds minutes client wanted.0 opts id s' none_found in
              let empty_list = seen.extracted ∙ ap ok empty in
              subst (Creates (creations s.history)) (sym (cc (added, kept))) (
                one_more (client, opts) fine no_more
                  (s.history, seen.pages, refl, seen.paged, empty_list))
          | inr found ↦ Grows-same IsFree (
              cc (
                drive_image-creations minutes client wanted.0 opts id s' found,
                find_image-creations client opts s,
              ))
        ])
        (λ o s' e. Grows-same IsFree (cc (find_image-creations client opts s)))
        (λ s' e. Grows-same IsFree (cc (find_image-creations client opts s)))

  -- A stage that creates nothing, and then one that creates what is allowed.
  andthen_Creates :
      {A B : Type 0} (m : Body O A) (f : A → Body O B) (s : Session O)
      → creations (m s).1.history ≡ creations s.history
      → ((a : A) (s' : Session O) → Creates (creations s'.history) (creations (f a s').1.history))
      → Creates (creations s.history) (creations ((m >>= f) s).1.history)
  andthen_Creates m f s same rest =
      bind_cases (λ r. Creates (creations s.history) (creations r.1.history)) m f s
        (λ a s' e.
          let kept : creations s.history ≡ creations s'.history = cc in rw kept (rest a s'))
        (λ o s' e. Grows-same IsFree (cc)) (λ s' e. Grows-same IsFree (cc))

  with_cloud-Creates :
      (minutes : ℤ) (found : Cloud × Option Bytes) (s : Session O)
      → AllNamed
      → Creates (creations s.history) (creations (with_cloud env minutes found s).1.history)
  unfolding with_cloud
  with_cloud-Creates minutes found s named =
      andthen_Creates (connect env found.0 found.1) _ s (connect-creations found s) λ client s₁.
        andthen_Creates load_image _ s₁ (load_image-creations s₁)
          λ wanted s₂. with_client-Creates minutes client wanted s₂ named

  pub reconcile_body-Creates :
      (minutes : ℤ) (s : Session O)
      → AllNamed
      → Creates (creations s.history) (creations (reconcile_body env minutes s).1.history)
  unfolding reconcile_body
  reconcile_body-Creates minutes s named =
      andthen_Creates (load_cloud env) _ s (load_cloud-creations s)
        λ found s₁. with_cloud-Creates minutes found s₁ named
