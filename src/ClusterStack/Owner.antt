-- ===== src/ClusterStack/Owner.antt =====
-- `generateOwnerReference`, `matchOwnerReference`, `createOrUpdateOpenStackNodeImageRelease` and
-- `getOwnedOpenStackNodeImageReleases`.
use cluster_stack_provider_o.Base.{
  String, Bool, false, ◌&&◌, some, none, List, [], ◌∷◌, ◌++◌, any, ◌=s◌, if◌then◌else◌,
}
use cluster_stack_provider_o.Api.{
  NamespacedName, OwnerReference, OpenStackNodeImage, OpenStackNodeImageRelease,
  OpenStackClusterStackRelease,
}
use cluster_stack_provider_o.Runtime.Errors.{Try, ok, err, wrap, text}
use cluster_stack_provider_o.Runtime.Calls.{Call}
use cluster_stack_provider_o.Runtime.Env.{Env}
use cluster_stack_provider_o.Runtime.Task
use cluster_stack_provider_o.Runtime.Task.{◌>>=◌, ◌>>◌, Task}

-- `apiv1alpha1.GroupVersion.String()`
abbrev pub group_version : String
group_version = "infrastructure.clusterstack.x-k8s.io/v1alpha1"

unfoldable pub generate_owner_reference : OpenStackClusterStackRelease → OwnerReference
generate_owner_reference r = record {
  api_version = r.type_meta.api_version;
  kind = r.type_meta.kind;
  name = r.metadata.name;
  uid = r.metadata.uid;
}

-- The object that is sent where none exists.
unfoldable pub new_node_image_release :
    OpenStackClusterStackRelease
    → String
    → OpenStackNodeImage
    → OwnerReference
    → OpenStackNodeImageRelease
new_node_image_release r name image owner = record {
  type_meta = record { kind = "OpenStackNodeImageRelease"; api_version = group_version };
  metadata = record {
    name = name;
    namespace = r.metadata.namespace;
    uid = "";
    owner_references = owner ∷ [];
  };
  spec = record { identity_ref = r.spec.identity_ref; image = some image };
  status = record { ready = false; conditions = [] };
}

module _ (env : Env) where
  open (env.kube) use {
    get_node_image_release, create_node_image_release, update_node_image_release,
    list_node_image_releases, is_not_found, ensure_owner_ref, parse_group, kind_group,
  }

  unfoldable pub match_owner_reference : OwnerReference → OpenStackClusterStackRelease → Bool
  match_owner_reference a r = elim (parse_group a.api_version) [
    | none ↦ false
    | some group ↦
        (group =s kind_group r.type_meta)
        && ((a.kind =s r.type_meta.kind) && (a.name =s r.metadata.name))
  ]

  -- The existing object with the owner among its references.
  unfoldable pub adopt : OwnerReference → OpenStackNodeImageRelease → OpenStackNodeImageRelease
  adopt owner n = record n {
    metadata = record (n.metadata) {
      owner_references = ensure_owner_ref n.metadata.owner_references owner;
    };
  }

  -- A warning about the object where the call fails.
  warn_failure : String → String → String → Try (Unit {0}) → Task (Unit {0})
  warn_failure name reason message (ok _) = Task.lift (ok tt)
  warn_failure name reason message (err e) = do
    Task.emit (Call.warning name reason (text e) [])
    Task.lift (err (wrap message e))

  -- Lines 225 to 235.
  update_existing : OwnerReference → OpenStackNodeImageRelease → Task (Unit {0})
  unfolding warn_failure
  update_existing owner found h =
      let n = adopt owner found in
      warn_failure n.metadata.name "FailedUpdateOpenStackNodeImageRelease"
        "failed to update OpenStackNodeImageRelease" (update_node_image_release h n)
        (Call.update_node_image_release n ∷ h)

  -- Lines 242 to 259.
  create_missing : OpenStackClusterStackRelease → OpenStackNodeImageRelease → Task (Unit {0})
  unfolding warn_failure
  create_missing r n = do
    (λ h.
        warn_failure n.metadata.name "FailedCreateOpenStackNodeImageRelease"
          "failed to create OpenStackNodeImageRelease" (create_node_image_release h n)
          (Call.create_node_image_release n ∷ h))
    Task.emit (
        Call.event r.metadata.name "OpenStackNodeImageReleaseCreated"
          "successfully created OpenStackNodeImageRelease object %q" (n.metadata.name ∷ []))

  -- Lines 224 to 259.
  settle :
      OpenStackClusterStackRelease
      → OpenStackNodeImageRelease
      → OwnerReference
      → Try OpenStackNodeImageRelease
      → Task (Unit {0})
  unfolding update_existing create_missing
  settle r fresh owner (ok found) = update_existing owner found
  settle r fresh owner (err e) =
      if is_not_found e
      then create_missing r fresh
      else Task.lift (err (wrap "failed to get OpenStackNodeImageRelease" e))

  unfoldable pub create_or_update :
      OpenStackClusterStackRelease → String → OpenStackNodeImage → OwnerReference → Task (Unit {0})
  unfolding settle
  create_or_update r name image owner h =
      let key : NamespacedName = record { namespace = r.metadata.namespace; name = name } in
      settle r (new_node_image_release r name image owner) owner (get_node_image_release h key)
        (Call.get_node_image_release key ∷ h)

  -- The inner loop over the references: it appends at the first one that matches, and breaks.
  unfoldable pub append_owned :
      OpenStackClusterStackRelease
      → OpenStackNodeImageRelease
      → List OpenStackNodeImageRelease
      → List OwnerReference
      → List OpenStackNodeImageRelease
  append_owned r n owned [] = owned
  append_owned r n owned (a ∷ refs) =
      let rest = append_owned r n owned refs in
      if match_owner_reference a r then owned ++ n ∷ [] else rest

  unfoldable pub collect_owned :
      OpenStackClusterStackRelease
      → List OpenStackNodeImageRelease
      → List OpenStackNodeImageRelease
      → List OpenStackNodeImageRelease
  collect_owned r owned [] = owned
  collect_owned r owned (n ∷ ns) =
      collect_owned r (append_owned r n owned n.metadata.owner_references) ns

  -- Not code: whether one of the references matches.
  unfoldable pub is_owned : OpenStackClusterStackRelease → OpenStackNodeImageRelease → Bool
  is_owned r n = any (λ a. match_owner_reference a r) n.metadata.owner_references

  unfoldable pub get_owned : OpenStackClusterStackRelease → Task (List OpenStackNodeImageRelease)
  get_owned r = do
    items ← Task.wrapping "failed to list OpenStackNodeImageReleases" (
        Task.ask (Call.list_node_image_releases r.metadata.namespace)
          (λ h. list_node_image_releases h r.metadata.namespace))
    Task.lift (ok (collect_owned r [] items))
