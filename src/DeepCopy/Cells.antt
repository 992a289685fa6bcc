-- ===== src/DeepCopy/Cells.antt =====
-- The types of api/v1alpha1 as they lie in memory, and the cells for all that a pointer, a slice or a
-- map of them leads to.
use cluster_stack_provider_o.Base.{String, Bool, List}
use cluster_stack_provider_o.Api.{OpenStackIdentityReference}
use cluster_stack_provider_o.DeepCopy.Structs.{
  CreateOptsOf, NodeImageOf, NodeImageSpecOf, ClusterStackSpecOf, StatusOf, TemplateResourceOf,
  TemplateSpecOf, ResourceOf, ListOf,
}
use cluster_stack_provider_o.DeepCopy.Memory.{Ref}

-- The vendored types: `metav1.ObjectMeta`, `metav1.ListMeta`, `clusterv1beta1.Condition`.
pub record Vendored : Type 1 where
  pub Meta : Type 0
  pub ListMeta : Type 0
  pub Condition : Type 0

abbrev pub CreateOpts : Type 0
CreateOpts = CreateOptsOf Ref Ref Ref Ref

abbrev pub NodeImage : Type 0
NodeImage = NodeImageOf Ref

abbrev pub NodeImageSpec : Type 0
NodeImageSpec = NodeImageSpecOf Ref Ref

abbrev pub ClusterStackSpec : Type 0
ClusterStackSpec = ClusterStackSpecOf Ref

abbrev pub Status : Type 0
Status = StatusOf Ref

abbrev pub TemplateResource : Type 0
TemplateResource = TemplateResourceOf ClusterStackSpec

abbrev pub TemplateSpec : Type 0
TemplateSpec = TemplateSpecOf TemplateResource

-- `OpenStackClusterStackReleaseTemplateStatus` has no field.
abbrev pub TemplateStatus : Type 0
TemplateStatus = Unit

module _ (lib : Vendored) where
  abbrev pub NodeImageRelease : Type 0
  NodeImageRelease = ResourceOf lib.Meta NodeImageSpec Status

  abbrev pub ClusterStackRelease : Type 0
  ClusterStackRelease = ResourceOf lib.Meta ClusterStackSpec Status

  abbrev pub Template : Type 0
  Template = ResourceOf lib.Meta TemplateSpec TemplateStatus

  abbrev pub NodeImageReleaseList : Type 0
  NodeImageReleaseList = ListOf lib.ListMeta Ref

  abbrev pub ClusterStackReleaseList : Type 0
  ClusterStackReleaseList = ListOf lib.ListMeta Ref

  abbrev pub TemplateList : Type 0
  TemplateList = ListOf lib.ListMeta Ref

  pub data Cell : Type 0 where
    text : String → Cell
    flag : Bool → Cell
    texts : List String → Cell
    entries : List (String × String) → Cell
    identity : OpenStackIdentityReference → Cell
    create_opts : CreateOpts → Cell
    node_image : NodeImage → Cell
    conditions : List lib.Condition → Cell
    node_image_spec : NodeImageSpec → Cell
    cluster_stack_spec : ClusterStackSpec → Cell
    status : Status → Cell
    node_image_release : NodeImageRelease → Cell
    cluster_stack_release : ClusterStackRelease → Cell
    node_image_releases : List NodeImageRelease → Cell
    cluster_stack_releases : List ClusterStackRelease → Cell
    node_image_release_list : NodeImageReleaseList → Cell
    cluster_stack_release_list : ClusterStackReleaseList → Cell
    template_resource : TemplateResource → Cell
    template_spec : TemplateSpec → Cell
    template_status : TemplateStatus → Cell
    template : Template → Cell
    templates : List Template → Cell
    template_list : TemplateList → Cell
