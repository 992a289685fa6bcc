-- ===== src/DeepCopy/Functions.antt =====
-- The functions of api/v1alpha1/zz_generated.deepcopy.go. `copy_<type>` is the type's `DeepCopyInto`:
-- from what `*in` holds to what `*out` holds in the end. `deep_copy_<type>` is its `DeepCopy`.
use cluster_stack_provider_o.Base.{String, List, [], ◌∷◌, ◌++◌}
use cluster_stack_provider_o.DeepCopy.Memory.{Ref, Cmd, pure, ◌>>=◌}
use cluster_stack_provider_o.DeepCopy.Copies.{copy_ref, copy_items}
use cluster_stack_provider_o.DeepCopy.Cells.{
  Vendored, CreateOpts, NodeImage, NodeImageSpec, ClusterStackSpec, Status, TemplateResource,
  TemplateSpec, TemplateStatus, NodeImageRelease, ClusterStackRelease, Template, Cell,
}
use cluster_stack_provider_o.DeepCopy.Kinds

-- The `DeepCopyInto` of the vendored types.
pub record VendoredCopies (lib : Vendored) : Type 0 where
  pub copy_meta : lib.Meta → Cmd (Cell lib) lib.Meta
  pub copy_list_meta : lib.ListMeta → Cmd (Cell lib) lib.ListMeta
  pub copy_condition : lib.Condition → Cmd (Cell lib) lib.Condition

-- `for key, val := range *in { (*out)[key] = val }`. The keys of a map differ from each other, so
-- that each round adds an entry.
abbrev pub fill : List (String × String) → List (String × String) → List (String × String)
fill out [] = out
fill out (entry ∷ entries) = fill (out ++ entry ∷ []) entries

module _ {lib : Vendored} where
  abbrev pub copy_entries : List (String × String) → Cmd (Cell lib) (List (String × String))
  copy_entries entries = pure (fill [] entries)

  unfoldable pub copy_create_opts : CreateOpts → Cmd (Cell lib) CreateOpts
  copy_create_opts o = do
    visibility ← copy_ref Kinds.text (λ a. pure a) o.visibility
    hidden ← copy_ref Kinds.flag (λ a. pure a) o.hidden
    tags ← copy_ref Kinds.texts (λ a. pure a) o.tags
    protected ← copy_ref Kinds.flag (λ a. pure a) o.protected
    properties ← copy_ref Kinds.entries copy_entries o.properties
    pure (record o {
      visibility = visibility;
      hidden = hidden;
      tags = tags;
      protected = protected;
      properties = properties;
    })

  unfoldable pub deep_copy_create_opts : Ref → Cmd (Cell lib) Ref
  deep_copy_create_opts = copy_ref Kinds.create_opts copy_create_opts

  unfoldable pub copy_node_image : NodeImage → Cmd (Cell lib) NodeImage
  copy_node_image n = do
    create_opts ← copy_ref Kinds.create_opts copy_create_opts n.create_opts
    pure (record n { create_opts = create_opts })

  unfoldable pub deep_copy_node_image : Ref → Cmd (Cell lib) Ref
  deep_copy_node_image = copy_ref Kinds.node_image copy_node_image

  unfoldable pub copy_node_image_spec : NodeImageSpec → Cmd (Cell lib) NodeImageSpec
  copy_node_image_spec s = do
    identity_ref ← copy_ref Kinds.identity (λ a. pure a) s.identity_ref
    image ← copy_ref Kinds.node_image copy_node_image s.image
    pure (record s { identity_ref = identity_ref; image = image })

  unfoldable pub deep_copy_node_image_spec : Ref → Cmd (Cell lib) Ref
  deep_copy_node_image_spec = copy_ref Kinds.node_image_spec copy_node_image_spec

  unfoldable pub copy_cluster_stack_spec : ClusterStackSpec → Cmd (Cell lib) ClusterStackSpec
  copy_cluster_stack_spec s = do
    identity_ref ← copy_ref Kinds.identity (λ a. pure a) s.identity_ref
    pure (record s { identity_ref = identity_ref })

  unfoldable pub deep_copy_cluster_stack_spec : Ref → Cmd (Cell lib) Ref
  deep_copy_cluster_stack_spec = copy_ref Kinds.cluster_stack_spec copy_cluster_stack_spec

  unfoldable pub copy_template_resource : TemplateResource → Cmd (Cell lib) TemplateResource
  copy_template_resource t = do
    spec ← copy_cluster_stack_spec t.spec
    pure (record t { spec = spec })

  unfoldable pub deep_copy_template_resource : Ref → Cmd (Cell lib) Ref
  deep_copy_template_resource = copy_ref Kinds.template_resource copy_template_resource

  unfoldable pub copy_template_spec : TemplateSpec → Cmd (Cell lib) TemplateSpec
  copy_template_spec t = do
    template ← copy_template_resource t.template
    pure (record t { template = template })

  unfoldable pub deep_copy_template_spec : Ref → Cmd (Cell lib) Ref
  deep_copy_template_spec = copy_ref Kinds.template_spec copy_template_spec

  unfoldable pub copy_template_status : TemplateStatus → Cmd (Cell lib) TemplateStatus
  copy_template_status t = pure t

  unfoldable pub deep_copy_template_status : Ref → Cmd (Cell lib) Ref
  deep_copy_template_status = copy_ref Kinds.template_status copy_template_status

module _ {lib : Vendored} (vendored : VendoredCopies lib) where
  open vendored use {copy_meta, copy_list_meta, copy_condition}

  unfoldable pub copy_cluster_stack_status : Status → Cmd (Cell lib) Status
  copy_cluster_stack_status s = do
    conditions ← copy_ref Kinds.conditions (copy_items copy_condition) s.conditions
    pure (record s { conditions = conditions })

  unfoldable pub deep_copy_cluster_stack_status : Ref → Cmd (Cell lib) Ref
  deep_copy_cluster_stack_status = copy_ref Kinds.status copy_cluster_stack_status

  unfoldable pub copy_node_image_status : Status → Cmd (Cell lib) Status
  copy_node_image_status s = do
    conditions ← copy_ref Kinds.conditions (copy_items copy_condition) s.conditions
    pure (record s { conditions = conditions })

  unfoldable pub deep_copy_node_image_status : Ref → Cmd (Cell lib) Ref
  deep_copy_node_image_status = copy_ref Kinds.status copy_node_image_status

  unfoldable pub copy_node_image_release :
      NodeImageRelease lib → Cmd (Cell lib) (NodeImageRelease lib)
  copy_node_image_release r = do
    metadata ← copy_meta r.metadata
    spec ← copy_node_image_spec r.spec
    status ← copy_node_image_status r.status
    pure (record r { metadata = metadata; spec = spec; status = status })

  unfoldable pub deep_copy_node_image_release : Ref → Cmd (Cell lib) Ref
  deep_copy_node_image_release = copy_ref Kinds.node_image_release copy_node_image_release

  unfoldable pub copy_cluster_stack_release :
      ClusterStackRelease lib → Cmd (Cell lib) (ClusterStackRelease lib)
  copy_cluster_stack_release r = do
    metadata ← copy_meta r.metadata
    spec ← copy_cluster_stack_spec r.spec
    status ← copy_cluster_stack_status r.status
    pure (record r { metadata = metadata; spec = spec; status = status })

  unfoldable pub deep_copy_cluster_stack_release : Ref → Cmd (Cell lib) Ref
  deep_copy_cluster_stack_release = copy_ref Kinds.cluster_stack_release copy_cluster_stack_release

  unfoldable pub copy_template : Template lib → Cmd (Cell lib) (Template lib)
  copy_template r = do
    metadata ← copy_meta r.metadata
    spec ← copy_template_spec r.spec
    pure (record r { metadata = metadata; spec = spec })

  unfoldable pub deep_copy_template : Ref → Cmd (Cell lib) Ref
  deep_copy_template = copy_ref Kinds.template copy_template
