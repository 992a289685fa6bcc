-- ===== src/DeepCopy/Structs.antt =====
-- The types of api/v1alpha1 as they lie in memory. A field that is a pointer, a slice, a map or a
-- vendored type has a parameter for its type: in memory that is an address, and what it stands for
-- is a value.
use cluster_stack_provider_o.Base.{String, Bool}
use cluster_stack_provider_o.Base.Int.{ℤ}
use cluster_stack_provider_o.Api.{TypeMeta}

pub record CreateOptsOf (Visibility Flag Tags Properties : Type 0) : Type 0 where
  pub name : String
  pub id : String
  pub visibility : Visibility
  pub hidden : Flag
  pub tags : Tags
  pub container_format : String
  pub disk_format : String
  pub min_disk : ℤ
  pub min_ram : ℤ
  pub protected : Flag
  pub properties : Properties

pub record NodeImageOf (CreateOpts : Type 0) : Type 0 where
  pub url : String
  pub create_opts : CreateOpts

pub record NodeImageSpecOf (Identity Image : Type 0) : Type 0 where
  pub identity_ref : Identity
  pub image : Image

pub record ClusterStackSpecOf (Identity : Type 0) : Type 0 where
  pub identity_ref : Identity

-- The two status types are alike.
pub record StatusOf (Conditions : Type 0) : Type 0 where
  pub ready : Bool
  pub conditions : Conditions

pub record TemplateResourceOf (Spec : Type 0) : Type 0 where
  pub spec : Spec

pub record TemplateSpecOf (Resource : Type 0) : Type 0 where
  pub template : Resource

-- The three resources.
pub record ResourceOf (Meta Spec Status : Type 0) : Type 0 where
  pub type_meta : TypeMeta
  pub metadata : Meta
  pub spec : Spec
  pub status : Status

-- The three lists.
pub record ListOf (Meta Items : Type 0) : Type 0 where
  pub type_meta : TypeMeta
  pub metadata : Meta
  pub items : Items
