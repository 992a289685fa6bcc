-- ===== src/DeepCopy/Lists.antt =====
-- The deep copies of the three list types, and `DeepCopyObject`.
use cluster_stack_provider_o.Base.{Option, none, some}
use cluster_stack_provider_o.Runtime.Calls.{Address}
use cluster_stack_provider_o.DeepCopy.Memory.{Ref, Cmd, pure, ◌>>=◌}
use cluster_stack_provider_o.DeepCopy.Copies.{copy_ref, copy_items}
use cluster_stack_provider_o.DeepCopy.Cells.{
  Vendored, NodeImageReleaseList, ClusterStackReleaseList, TemplateList, Cell,
}
use cluster_stack_provider_o.DeepCopy.Kinds
use cluster_stack_provider_o.DeepCopy.Functions.{
  VendoredCopies, copy_node_image_release, copy_cluster_stack_release, copy_template,
  deep_copy_node_image_release, deep_copy_cluster_stack_release, deep_copy_template,
}

-- `runtime.RuntimeObject`: a pointer that is not nil, with its type.
pub data RuntimeObject : Type 0 where
  node_image_release cluster_stack_release template : Address → RuntimeObject
  node_image_release_list cluster_stack_release_list template_list : Address → RuntimeObject

-- `if c != nil { return c }; return nil`: a nil pointer becomes a nil interface.
abbrev pub as_object : (Address → RuntimeObject) → Ref → Option RuntimeObject
as_object wrap none = none
as_object wrap (some p) = some (wrap p)

module _ {lib : Vendored} (vendored : VendoredCopies lib) where
  unfoldable pub copy_node_image_release_list :
      NodeImageReleaseList lib → Cmd (Cell lib) (NodeImageReleaseList lib)
  copy_node_image_release_list l = do
    metadata ← vendored.copy_list_meta l.metadata
    items ←
        copy_ref Kinds.node_image_releases (copy_items (copy_node_image_release vendored)) l.items
    pure (record l { metadata = metadata; items = items })

  unfoldable pub deep_copy_node_image_release_list : Ref → Cmd (Cell lib) Ref
  deep_copy_node_image_release_list =
      copy_ref Kinds.node_image_release_list copy_node_image_release_list

  unfoldable pub copy_cluster_stack_release_list :
      ClusterStackReleaseList lib → Cmd (Cell lib) (ClusterStackReleaseList lib)
  copy_cluster_stack_release_list l = do
    metadata ← vendored.copy_list_meta l.metadata
    items ←
        copy_ref Kinds.cluster_stack_releases (copy_items (copy_cluster_stack_release vendored))
          l.items
    pure (record l { metadata = metadata; items = items })

  unfoldable pub deep_copy_cluster_stack_release_list : Ref → Cmd (Cell lib) Ref
  deep_copy_cluster_stack_release_list =
      copy_ref Kinds.cluster_stack_release_list copy_cluster_stack_release_list

  unfoldable pub copy_template_list : TemplateList lib → Cmd (Cell lib) (TemplateList lib)
  copy_template_list l = do
    metadata ← vendored.copy_list_meta l.metadata
    items ← copy_ref Kinds.templates (copy_items (copy_template vendored)) l.items
    pure (record l { metadata = metadata; items = items })

  unfoldable pub deep_copy_template_list : Ref → Cmd (Cell lib) Ref
  deep_copy_template_list = copy_ref Kinds.template_list copy_template_list

  unfoldable pub deep_copy_object_node_image_release : Ref → Cmd (Cell lib) (Option RuntimeObject)
  deep_copy_object_node_image_release r = do
    c ← deep_copy_node_image_release vendored r
    pure (as_object node_image_release c)

  unfoldable pub deep_copy_object_cluster_stack_release :
      Ref → Cmd (Cell lib) (Option RuntimeObject)
  deep_copy_object_cluster_stack_release r = do
    c ← deep_copy_cluster_stack_release vendored r
    pure (as_object cluster_stack_release c)

  unfoldable pub deep_copy_object_template : Ref → Cmd (Cell lib) (Option RuntimeObject)
  deep_copy_object_template r = do c ← deep_copy_template vendored r; pure (as_object template c)

  unfoldable pub deep_copy_object_node_image_release_list :
      Ref → Cmd (Cell lib) (Option RuntimeObject)
  deep_copy_object_node_image_release_list r = do
    c ← deep_copy_node_image_release_list r
    pure (as_object node_image_release_list c)

  unfoldable pub deep_copy_object_cluster_stack_release_list :
      Ref → Cmd (Cell lib) (Option RuntimeObject)
  deep_copy_object_cluster_stack_release_list r = do
    c ← deep_copy_cluster_stack_release_list r
    pure (as_object cluster_stack_release_list c)

  unfoldable pub deep_copy_object_template_list : Ref → Cmd (Cell lib) (Option RuntimeObject)
  deep_copy_object_template_list r = do
    c ← deep_copy_template_list r
    pure (as_object template_list c)
