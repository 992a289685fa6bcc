-- ===== src/DeepCopy/Resources.antt =====
-- The deep copies of the resources and of their lists are deep, if the vendored ones are.
use cluster_stack_provider_o.Base.{Option, List, arith}
use cluster_stack_provider_o.DeepCopy.Structs.{
  StatusOf, ResourceOf, ListOf, TemplateSpecOf, TemplateResourceOf,
}
use cluster_stack_provider_o.DeepCopy.Memory.{Ref, Kind, Cmd, pure, ◌>>=◌, Grows-refl, Grows-trans}
use cluster_stack_provider_o.DeepCopy.Shapes.{Shape, plain, ref, items}
use cluster_stack_provider_o.DeepCopy.Copies.{
  IsDeep, carry, pure-IsDeep, copy_ref, copy_ref-IsDeep, copy_items, copy_items-IsDeep,
}
use cluster_stack_provider_o.DeepCopy.Cells.{
  Vendored, Status, TemplateStatus, NodeImageRelease, ClusterStackRelease, Template,
  NodeImageReleaseList, ClusterStackReleaseList, TemplateList, Cell,
}
use cluster_stack_provider_o.DeepCopy.Kinds
use cluster_stack_provider_o.DeepCopy.Values
use cluster_stack_provider_o.DeepCopy.Values.{NodeImageSpecValue, ClusterStackSpecValue}
use cluster_stack_provider_o.DeepCopy.Functions.{
  VendoredCopies, copy_cluster_stack_status, copy_node_image_status, copy_node_image_release,
  copy_cluster_stack_release, copy_template, copy_node_image_spec, copy_cluster_stack_spec,
  copy_template_spec,
}
use cluster_stack_provider_o.DeepCopy.Lists.{
  copy_node_image_release_list, copy_cluster_stack_release_list, copy_template_list,
}
use cluster_stack_provider_o.DeepCopy.Deep.{
  copy_node_image_spec-IsDeep, copy_cluster_stack_spec-IsDeep, copy_template_spec-IsDeep,
}

-- What the `DeepCopyInto` of the vendored types promise: they are deep too.
pub record IsLawful {lib : Vendored} (vendored : VendoredCopies lib) : Type 1 where
  pub MetaValue : Type 0
  pub ListMetaValue : Type 0
  pub ConditionValue : Type 0
  pub meta : Shape (Cell lib) lib.Meta MetaValue
  pub list_meta : Shape (Cell lib) lib.ListMeta ListMetaValue
  pub condition : Shape (Cell lib) lib.Condition ConditionValue
  pub meta_deep : IsDeep meta vendored.copy_meta
  pub list_meta_deep : IsDeep list_meta vendored.copy_list_meta
  pub condition_deep : IsDeep condition vendored.copy_condition

module _ {lib : Vendored} {M S T MV SV TV : Type 0} (meta : Shape (Cell lib) M MV)
    (spec : Shape (Cell lib) S SV) (status : Shape (Cell lib) T TV)
    (copy_meta : M → Cmd (Cell lib) M) (copy_spec : S → Cmd (Cell lib) S)
    (copy_status : T → Cmd (Cell lib) T) where
  -- What the three resources have in common.
  abbrev copy_resource : ResourceOf M S T → Cmd (Cell lib) (ResourceOf M S T)
  copy_resource r = do
    metadata ← copy_meta r.metadata
    spec ← copy_spec r.spec
    status ← copy_status r.status
    pure (record r { metadata = metadata; spec = spec; status = status })

  copy_resource-IsDeep :
      IsDeep meta copy_meta
      → IsDeep spec copy_spec
      → IsDeep status copy_status
      → IsDeep (Values.resource meta spec status) copy_resource
  copy_resource-IsDeep meta_deep spec_deep status_deep h r v reads =
      let a = meta_deep h r.metadata v.metadata reads.1 in
      let b = spec_deep a.after r.spec v.spec (carry spec 0 a.grows (omega arith) reads.2) in
      let ab = Grows-trans a.grows b.grows in
      let c = status_deep b.after r.status v.status (carry status 0 ab (omega arith) reads.3) in
      record {
        out = record r { metadata = a.out; spec = b.out; status = c.out };
        after = c.after;
        runs = ground (arith, a.runs, b.runs, c.runs);
        grows = Grows-trans ab c.grows;
        reads = (
          reads.0,
          carry meta h.next (Grows-trans b.grows c.grows) (omega arith) a.reads,
          carry spec h.next c.grows a.grows.further b.reads,
          carry status h.next (Grows-refl c.after) ab.further c.reads,
        );
      }

module _ {lib : Vendored} {L A LV V : Type 0} (meta : Shape (Cell lib) L LV)
    (item : Shape (Cell lib) A V) (kind : Kind (Cell lib) (List A))
    (copy_meta : L → Cmd (Cell lib) L) (copy_item : A → Cmd (Cell lib) A) where
  -- What the three lists have in common.
  abbrev copy_list : ListOf L Ref → Cmd (Cell lib) (ListOf L Ref)
  copy_list l = do
    metadata ← copy_meta l.metadata
    items ← copy_ref kind (copy_items copy_item) l.items
    pure (record l { metadata = metadata; items = items })

  copy_list-IsDeep :
      IsDeep meta copy_meta
      → IsDeep item copy_item
      → IsDeep (Values.list_of meta item kind) copy_list
  copy_list-IsDeep meta_deep item_deep h l v reads =
      let slice = ref kind (items item) in
      let slice_deep =
        copy_ref-IsDeep kind (copy_items copy_item) (items item)
          (copy_items-IsDeep copy_item item item_deep) in
      let a = meta_deep h l.metadata v.metadata reads.1 in
      let b = slice_deep a.after l.items v.items (carry slice 0 a.grows (omega arith) reads.2) in
      record {
        out = record l { metadata = a.out; items = b.out };
        after = b.after;
        runs = ground (arith, a.runs, b.runs);
        grows = Grows-trans a.grows b.grows;
        reads = (
          reads.0,
          carry meta h.next b.grows (omega arith) a.reads,
          carry slice h.next (Grows-refl b.after) a.grows.further b.reads,
        );
      }

module _ {lib : Vendored} {vendored : VendoredCopies lib} (lawful : IsLawful vendored) where
  open lawful use {
    MetaValue, ListMetaValue, ConditionValue, meta, list_meta, condition, meta_deep, list_meta_deep,
    condition_deep,
  }

  abbrev pub StatusValue : Type 0
  StatusValue = StatusOf (Option (List ConditionValue))

  abbrev pub NodeImageReleaseValue : Type 0
  NodeImageReleaseValue = ResourceOf MetaValue NodeImageSpecValue StatusValue

  abbrev pub ClusterStackReleaseValue : Type 0
  ClusterStackReleaseValue = ResourceOf MetaValue ClusterStackSpecValue StatusValue

  abbrev pub TemplateValue : Type 0
  TemplateValue =
      ResourceOf MetaValue (TemplateSpecOf (TemplateResourceOf ClusterStackSpecValue))
        TemplateStatus

  abbrev pub ListValue : Type 0 → Type 0
  ListValue A = ListOf ListMetaValue (Option (List A))

  abbrev pub status : Shape (Cell lib) Status StatusValue
  status = Values.status condition Kinds.conditions

  copy_cluster_stack_status-IsDeep : IsDeep status (copy_cluster_stack_status vendored)
  unfolding copy_cluster_stack_status
  copy_cluster_stack_status-IsDeep h s v (ready, reads) =
      let slice_deep =
        copy_ref-IsDeep Kinds.conditions (copy_items vendored.copy_condition) (items condition)
          (copy_items-IsDeep vendored.copy_condition condition condition_deep) in
      let a = slice_deep h s.conditions v.conditions reads in
      record {
        out = record s { conditions = a.out };
        after = a.after;
        runs = ground (arith, a.runs);
        grows = a.grows;
        reads = (ready, a.reads);
      }

  copy_node_image_status-IsDeep : IsDeep status (copy_node_image_status vendored)
  unfolding copy_node_image_status copy_cluster_stack_status
  copy_node_image_status-IsDeep = copy_cluster_stack_status-IsDeep

  abbrev pub node_image_release : Shape (Cell lib) (NodeImageRelease lib) NodeImageReleaseValue
  node_image_release = Values.resource meta Values.node_image_spec status

  pub copy_node_image_release-IsDeep : IsDeep node_image_release (copy_node_image_release vendored)
  unfolding copy_node_image_release
  copy_node_image_release-IsDeep =
      copy_resource-IsDeep meta Values.node_image_spec status vendored.copy_meta
        copy_node_image_spec (copy_node_image_status vendored) meta_deep copy_node_image_spec-IsDeep
        copy_node_image_status-IsDeep

  abbrev pub cluster_stack_release :
      Shape (Cell lib) (ClusterStackRelease lib) ClusterStackReleaseValue
  cluster_stack_release = Values.resource meta Values.cluster_stack_spec status

  pub copy_cluster_stack_release-IsDeep :
      IsDeep cluster_stack_release (copy_cluster_stack_release vendored)
  unfolding copy_cluster_stack_release
  copy_cluster_stack_release-IsDeep =
      copy_resource-IsDeep meta Values.cluster_stack_spec status vendored.copy_meta
        copy_cluster_stack_spec (copy_cluster_stack_status vendored) meta_deep
        copy_cluster_stack_spec-IsDeep copy_cluster_stack_status-IsDeep

  abbrev pub template : Shape (Cell lib) (Template lib) TemplateValue
  template = Values.resource meta Values.template_spec (plain TemplateStatus)

  pub copy_template-IsDeep : IsDeep template (copy_template vendored)
  unfolding copy_template
  copy_template-IsDeep =
      copy_resource-IsDeep meta Values.template_spec (plain TemplateStatus) vendored.copy_meta
        copy_template_spec (λ s. pure s) meta_deep copy_template_spec-IsDeep pure-IsDeep

  abbrev pub node_image_release_list :
      Shape (Cell lib) (NodeImageReleaseList lib) (ListValue NodeImageReleaseValue)
  node_image_release_list = Values.list_of list_meta node_image_release Kinds.node_image_releases

  pub copy_node_image_release_list-IsDeep :
      IsDeep node_image_release_list (copy_node_image_release_list vendored)
  unfolding copy_node_image_release_list
  copy_node_image_release_list-IsDeep =
      copy_list-IsDeep list_meta node_image_release Kinds.node_image_releases
        vendored.copy_list_meta (copy_node_image_release vendored) list_meta_deep
        copy_node_image_release-IsDeep

  abbrev pub cluster_stack_release_list :
      Shape (Cell lib) (ClusterStackReleaseList lib) (ListValue ClusterStackReleaseValue)
  cluster_stack_release_list =
      Values.list_of list_meta cluster_stack_release Kinds.cluster_stack_releases

  pub copy_cluster_stack_release_list-IsDeep :
      IsDeep cluster_stack_release_list (copy_cluster_stack_release_list vendored)
  unfolding copy_cluster_stack_release_list
  copy_cluster_stack_release_list-IsDeep =
      copy_list-IsDeep list_meta cluster_stack_release Kinds.cluster_stack_releases
        vendored.copy_list_meta (copy_cluster_stack_release vendored) list_meta_deep
        copy_cluster_stack_release-IsDeep

  abbrev pub template_list : Shape (Cell lib) (TemplateList lib) (ListValue TemplateValue)
  template_list = Values.list_of list_meta template Kinds.templates

  pub copy_template_list-IsDeep : IsDeep template_list (copy_template_list vendored)
  unfolding copy_template_list
  copy_template_list-IsDeep =
      copy_list-IsDeep list_meta template Kinds.templates vendored.copy_list_meta
        (copy_template vendored) list_meta_deep copy_template-IsDeep
