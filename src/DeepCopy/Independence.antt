-- ===== src/DeepCopy/Independence.antt =====
-- What `DeepCopy` and `DeepCopyObject` of a resource or a list of resources come to.
use cluster_stack_provider_o.Base.{◌≤◌, ◌<◌, ◌≡◌, ◌∙◌, Option, some, arith}
use cluster_stack_provider_o.Runtime.Calls.{Address}
use cluster_stack_provider_o.DeepCopy.Memory.{Ref, Kind, Memory, Cmd}
use cluster_stack_provider_o.DeepCopy.Shapes.{Shape, ref}
use cluster_stack_provider_o.DeepCopy.Copies.{Copied, IsDeep, copy_ref, copy_ref-IsDeep}
use cluster_stack_provider_o.DeepCopy.Cells.{Vendored, Cell}
use cluster_stack_provider_o.DeepCopy.Kinds
use cluster_stack_provider_o.DeepCopy.Functions.{VendoredCopies}
use cluster_stack_provider_o.DeepCopy.Lists.{
  RuntimeObject, as_object, copy_node_image_release_list, copy_cluster_stack_release_list,
  copy_template_list, deep_copy_node_image_release_list, deep_copy_cluster_stack_release_list,
  deep_copy_template_list, deep_copy_object_node_image_release_list,
  deep_copy_object_cluster_stack_release_list, deep_copy_object_template_list,
}
use cluster_stack_provider_o.DeepCopy.Resources
use cluster_stack_provider_o.DeepCopy.Resources.{
  IsLawful, copy_node_image_release_list-IsDeep, copy_cluster_stack_release_list-IsDeep,
  copy_template_list-IsDeep,
}

module _ {Cell : Type 0} {A V : Type 0} (s : Shape Cell A V) where
  -- A copy and its original, which stand for one value. Each of them does so still in any memory `g`
  -- where only cells of the other one were written.
  pub record Independent (copy : A → Cmd Cell A) (h : Memory Cell) (a : A) (v : V) : Type 0 where
    pub out : A
    pub after : Memory Cell
    pub runs : copy a h ≡ some (out, after)
    pub original_stays :
        (g : Memory Cell)
        → ((p : Address) → p < h.next → g.cell p ≡ after.cell p)
        → s.Reads g 0 h.next a v
    pub copy_stays :
        (g : Memory Cell)
        → ((p : Address) → h.next ≤ p → p < after.next → g.cell p ≡ after.cell p)
        → s.Reads g h.next after.next out v

  pub Copied-Independent :
      {copy : A → Cmd Cell A} {h : Memory Cell} {a : A} {v : V}
      → s.Reads h 0 h.next a v
      → Copied s copy h a v
      → Independent copy h a v
  Copied-Independent {h} {a} {v} reads c = record {
    out = c.out;
    after = c.after;
    runs = c.runs;
    original_stays = λ g same.
        s.keep h g 0 h.next 0 h.next a v (omega arith) (omega arith)
          (λ p from below. same p below ∙ c.grows.kept p below) reads;
    copy_stays = λ g same.
        s.keep c.after g h.next c.after.next h.next c.after.next c.out v (omega arith) (omega arith)
          same c.reads;
  }

module _ {lib : Vendored} {A V : Type 0} (kind : Kind (Cell lib) A) (s : Shape (Cell lib) A V) where
  -- `DeepCopy` is independent, and `DeepCopyObject` is the same pointer as an object.
  abbrev pub Deep :
      (Ref → Cmd (Cell lib) Ref)
      → (Ref → Cmd (Cell lib) (Option RuntimeObject))
      → (Address → RuntimeObject)
      → Memory (Cell lib)
      → Ref
      → Option V
      → Type 0
  Deep deep_copy deep_copy_object wrap h r v =
      (c : Independent (ref kind s) deep_copy h r v) × (deep_copy_object r h
        ≡ some (as_object wrap c.out, c.after))

  copy_ref-Independent :
      (copy : A → Cmd (Cell lib) A)
      → IsDeep s copy
      → (h : Memory (Cell lib)) (r : Ref) (v : Option V) → (ref kind s).Reads h 0 h.next r v
      → Independent (ref kind s) (copy_ref kind copy) h r v
  copy_ref-Independent copy deep h r v reads =
      Copied-Independent (ref kind s) reads (copy_ref-IsDeep kind copy s deep h r v reads)

module _ {lib : Vendored} {vendored : VendoredCopies lib} (lawful : IsLawful vendored) where
  -- If the `DeepCopyInto` of the vendored types are deep, then from any memory and any list of
  -- OpenStackNodeImageReleases in it, or nil, `DeepCopy` returns without a fault what stands for the
  -- same value; whatever is written afterwards to cells of the one, the other still stands for that
  -- value. `DeepCopyObject` returns the same pointer as an object, and no object for nil.
  pub deep_copy_node_image_release_list-Deep :
      (h : Memory (Cell lib)) (r : Ref)
      (v : Option (Resources.ListValue lawful (Resources.NodeImageReleaseValue lawful)))
      → (ref Kinds.node_image_release_list (Resources.node_image_release_list lawful)).Reads h 0
          h.next r v
      → Deep Kinds.node_image_release_list
          (Resources.node_image_release_list lawful)
          (deep_copy_node_image_release_list vendored)
          (deep_copy_object_node_image_release_list vendored)
          RuntimeObject.node_image_release_list
          h
          r
          v
  unfolding deep_copy_node_image_release_list deep_copy_object_node_image_release_list
  deep_copy_node_image_release_list-Deep h r v reads =
      let c =
        copy_ref-Independent Kinds.node_image_release_list
          (Resources.node_image_release_list lawful) (copy_node_image_release_list vendored)
          (copy_node_image_release_list-IsDeep lawful) h r v reads in
      (c, ground (arith, c.runs))

  -- If the `DeepCopyInto` of the vendored types are deep, then from any memory and any list of
  -- OpenStackClusterStackReleases in it, or nil, `DeepCopy` returns without a fault what stands for the
  -- same value; whatever is written afterwards to cells of the one, the other still stands for that
  -- value. `DeepCopyObject` returns the same pointer as an object, and no object for nil.
  pub deep_copy_cluster_stack_release_list-Deep :
      (h : Memory (Cell lib)) (r : Ref)
      (v : Option (Resources.ListValue lawful (Resources.ClusterStackReleaseValue lawful)))
      → (ref Kinds.cluster_stack_release_list (Resources.cluster_stack_release_list lawful)).Reads h
          0 h.next r v
      → Deep Kinds.cluster_stack_release_list
          (Resources.cluster_stack_release_list lawful)
          (deep_copy_cluster_stack_release_list vendored)
          (deep_copy_object_cluster_stack_release_list vendored)
          RuntimeObject.cluster_stack_release_list
          h
          r
          v
  unfolding deep_copy_cluster_stack_release_list deep_copy_object_cluster_stack_release_list
  deep_copy_cluster_stack_release_list-Deep h r v reads =
      let c =
        copy_ref-Independent Kinds.cluster_stack_release_list
          (Resources.cluster_stack_release_list lawful) (copy_cluster_stack_release_list vendored)
          (copy_cluster_stack_release_list-IsDeep lawful) h r v reads in
      (c, ground (arith, c.runs))

  -- If the `DeepCopyInto` of the vendored types are deep, then from any memory and any list of
  -- OpenStackClusterStackReleaseTemplates in it, or nil, `DeepCopy` returns without a fault what stands for the
  -- same value; whatever is written afterwards to cells of the one, the other still stands for that
  -- value. `DeepCopyObject` returns the same pointer as an object, and no object for nil.
  pub deep_copy_template_list-Deep :
      (h : Memory (Cell lib)) (r : Ref)
      (v : Option (Resources.ListValue lawful (Resources.TemplateValue lawful)))
      → (ref Kinds.template_list (Resources.template_list lawful)).Reads h 0 h.next r v
      → Deep Kinds.template_list
          (Resources.template_list lawful)
          (deep_copy_template_list vendored)
          (deep_copy_object_template_list vendored)
          RuntimeObject.template_list
          h
          r
          v
  unfolding deep_copy_template_list deep_copy_object_template_list
  deep_copy_template_list-Deep h r v reads =
      let c =
        copy_ref-Independent Kinds.template_list (Resources.template_list lawful)
          (copy_template_list vendored) (copy_template_list-IsDeep lawful) h r v reads in
      (c, ground (arith, c.runs))
