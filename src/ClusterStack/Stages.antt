-- ===== src/ClusterStack/Stages.antt =====
-- The stages of `Reconcile` up to the listing of the node image releases, where all calls are
-- served.
use cluster_stack_provider_o.Base.{
  String, ◌≡◌, refl, sym, subst, inl, inr, Option, List, [], ◌∷◌, arith, All,
}
use cluster_stack_provider_o.Api.{
  NamespacedName, OwnerReference, OpenStackNodeImage, OpenStackClusterStackRelease,
}
use cluster_stack_provider_o.Api.Constants.{node_images_file_name}
use cluster_stack_provider_o.Runtime.Errors.{ok}
use cluster_stack_provider_o.Runtime.Calls.{Call, History}
use cluster_stack_provider_o.Runtime.Env.{Env}
use cluster_stack_provider_o.Runtime.Body.{Session}
use cluster_stack_provider_o.Runtime.Later.{IsAfter, same, more, IsAfter-trans, Passes, Passes-bind}
use cluster_stack_provider_o.ClusterStack.Owner.{create_or_update, adopt, new_node_image_release}
use cluster_stack_provider_o.ClusterStack.Assets.{get_node_images_from_local}
use cluster_stack_provider_o.ClusterStack.Download.{load_release}
use cluster_stack_provider_o.ClusterStack.NodeImages.{
  load_node_images, ensure_node_image, ensure_node_images, node_image_release_name,
}
use cluster_stack_provider_o.ClusterStack.Frame.{
  SameButStatus-trans, SameButStatus, load_release-Frames, load_node_images-Frames,
  ensure_node_image-Frames,
}
use cluster_stack_provider_o.ClusterStack.Service.{IsWhole, IsServed, HasAssets}

abbrev O : Type 0
O = OpenStackClusterStackRelease

module _ (env : Env) (req : NamespacedName) (release : O) (served : IsServed env req release)
    {directory : String} (assets : HasAssets env directory release) where
  pub load_release-Passes :
      (s : Session O)
      → SameButStatus release s.object
      → Passes SameButStatus (load_release env directory) s (assets.place, assets.missing s.history)
  unfolding load_release
  load_release-Passes s current =
      let found = assets.new_release s.history in
      record {
        goes_on = ground (arith, current, found);
        alike = load_release-Frames env directory s;
        later =
            subst (IsAfter s.history) (sym (ground (arith, current, found)))
              (more (Call.new_release release.metadata.name directory) refl same);
      }

  pub load_node_images-Passes :
      (s : Session O) → Passes SameButStatus (load_node_images env assets.place) s assets.images
  unfolding load_node_images get_node_images_from_local
  load_node_images-Passes s =
      let path = env.assets.join_path (assets.place).local_download_path node_images_file_name in
      let read = assets.read_file s.history path in
      let images = assets.readable in
      record {
        goes_on = ground (arith, read, images);
        alike = load_node_images-Frames env assets.place s;
        later =
            subst (IsAfter s.history) (sym (ground (arith, read, images)))
              (more (Call.read_file path) refl same);
      }

  -- What is written for a node image succeeds, and removes nothing.
  record Wrote (r : O) (name : String) (image : OpenStackNodeImage) (owner : OwnerReference)
      (h : History) : Type 0 where
    fine : (create_or_update env r name image owner h).0 ≡ ok tt
    later : IsAfter h (create_or_update env r name image owner h).1

  create_or_update-Wrote :
      (r : O) (name : String) (image : OpenStackNodeImage) (owner : OwnerReference) (h : History)
      → Wrote r name image owner h
  unfolding create_or_update
  create_or_update-Wrote r name image owner h =
      let key : NamespacedName = record { namespace = r.metadata.namespace; name = name } in
      let h₁ = Call.get_node_image_release key ∷ h in
      elim (served.find h key) [
        | inl (n, found) ↦
            let updated = served.update h₁ (adopt env owner n) in
            record {
              fine = ground (arith, found, updated);
              later = subst (IsAfter h) (sym (ground (arith, found, updated))) (
                  more (Call.update_node_image_release (adopt env owner n)) refl
                    (more (Call.get_node_image_release key) refl same));
            }
        | inr (e, absent, not_found) ↦
            let n = new_node_image_release r name image owner in
            let created = served.create h₁ n in
            record {
              fine = ground (arith, absent, not_found, created);
              later = subst (IsAfter h) (sym (ground (arith, absent, not_found, created))) (
                  more
                    (Call.event r.metadata.name "OpenStackNodeImageReleaseCreated"
                      "successfully created OpenStackNodeImageRelease object %q"
                      (n.metadata.name ∷ []))
                    refl
                    (more (Call.create_node_image_release n) refl
                      (more (Call.get_node_image_release key) refl same)));
            }
      ]

  ensure_node_image-Passes :
      (owner : OwnerReference) (node_image : Option OpenStackNodeImage) (s : Session O)
      → IsWhole node_image
      → SameButStatus release s.object
      → Passes SameButStatus (ensure_node_image env assets.place owner node_image) s tt
  unfolding ensure_node_image
  ensure_node_image-Passes owner node_image s (image, opts, there, has) current =
      let name = node_image_release_name assets.base opts.name (assets.place).node_image_version in
      let wrote = create_or_update-Wrote s.object name image owner s.history in
      let tag = assets.tagged in
      let fine = wrote.fine in
      record {
        goes_on = ground (arith, current, there, has, tag, fine);
        alike = ensure_node_image-Frames env assets.place owner node_image s;
        later =
            subst (IsAfter s.history) (sym (ground (arith, current, there, has, tag, fine)))
              wrote.later;
      }

  pub ensure_node_images-Passes :
      (owner : OwnerReference) (images : List (Option OpenStackNodeImage)) (s : Session O)
      → All IsWhole images
      → SameButStatus release s.object
      → Passes SameButStatus (ensure_node_images env assets.place owner images) s tt
  unfolding ensure_node_images
  ensure_node_images-Passes owner [] s whole current = record {
    goes_on = refl;
    alike = (refl, refl, refl);
    later = same;
  }
  ensure_node_images-Passes owner (image ∷ images) s (whole, wholes) current =
      let first = ensure_node_image-Passes owner image s whole current in
      let s₁ = (ensure_node_image env assets.place owner image s).1 in
      let rest =
        ensure_node_images-Passes owner images s₁ wholes
          (SameButStatus-trans release s.object s₁.object current first.alike) in
      let s₂ = (ensure_node_images env assets.place owner images s₁).1 in
      let step =
        Passes-bind (ensure_node_image env assets.place owner image)
          (λ _. ensure_node_images env assets.place owner images) s first in
      record {
        goes_on = rw step rest.goes_on;
        alike = rw step (SameButStatus-trans s.object s₁.object s₂.object first.alike rest.alike);
        later = rw step (IsAfter-trans first.later rest.later);
      }
