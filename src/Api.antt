-- ===== src/Api.antt =====
-- The custom resources, api/v1alpha1: openstacknodeimagerelease_types.go,
-- openstackclusterstackrelease_types.go, and what they take from the Kubernetes types.
-- Of `ObjectMeta` the fields that the controllers read or write are kept. A pointer is an `Option`.
pub mod ConditionType
pub mod Reason
pub mod Constants
use cluster_stack_provider_o.Base.{ℕ, String, Bool, Option, List}
use cluster_stack_provider_o.Base.Int.{ℤ}

-- `metav1.OwnerReference`; the fields `Controller` and `BlockOwnerDeletion` are never set.
pub record OwnerReference : Type 0 where
  pub api_version : String
  pub kind : String
  pub name : String
  pub uid : String

pub record TypeMeta : Type 0 where
  pub kind : String
  pub api_version : String

pub record ObjectMeta : Type 0 where
  pub name : String
  pub namespace : String
  pub uid : String
  pub owner_references : List OwnerReference

pub record NamespacedName : Type 0 where
  pub namespace : String
  pub name : String

-- `clusterv1beta1.ConditionSeverity`; a condition that is true has none.
pub data Severity : Type 0 where
  error info unset : Severity

-- `clusterv1beta1.Condition`. The time is in nanoseconds since Go's zero time.
pub record Condition : Type 0 where
  pub type : String
  pub status : Bool
  pub severity : Severity
  pub reason : String
  pub message : String
  pub last_transition_time : ℕ

abbrev pub Conditions : Type 0
Conditions = List Condition

-- `apiv1alpha7.OpenStackIdentityReference`
pub record OpenStackIdentityReference : Type 0 where
  pub kind : String
  pub name : String

pub record CreateOpts : Type 0 where
  pub name : String
  pub id : String
  pub visibility : Option String
  pub hidden : Option Bool
  pub tags : List String
  pub container_format : String
  pub disk_format : String
  pub min_disk : ℤ
  pub min_ram : ℤ
  pub protected : Option Bool
  pub properties : List (String × String)

pub record OpenStackNodeImage : Type 0 where
  pub url : String
  pub create_opts : Option CreateOpts

pub record OpenStackNodeImageReleaseSpec : Type 0 where
  pub identity_ref : Option OpenStackIdentityReference
  pub image : Option OpenStackNodeImage

-- `OpenStackNodeImageReleaseStatus` and `OpenStackClusterStackReleaseStatus`, which are alike.
pub record ReleaseStatus : Type 0 where
  pub ready : Bool
  pub conditions : Conditions

pub record OpenStackNodeImageRelease : Type 0 where
  pub type_meta : TypeMeta
  pub metadata : ObjectMeta
  pub spec : OpenStackNodeImageReleaseSpec
  pub status : ReleaseStatus

pub record OpenStackClusterStackReleaseSpec : Type 0 where
  pub identity_ref : Option OpenStackIdentityReference

pub record OpenStackClusterStackRelease : Type 0 where
  pub type_meta : TypeMeta
  pub metadata : ObjectMeta
  pub spec : OpenStackClusterStackReleaseSpec
  pub status : ReleaseStatus

-- The interface `conditions.Setter` (`GetConditions`, `SetConditions`), with the two status fields
-- and the name by which an event is recorded.
pub record Object (A : Type 0) : Type 0 where
  pub get_name : A → String
  pub get_conditions : A → Conditions
  pub set_conditions : Conditions → A → A
  pub set_ready : Bool → A → A

instance abbrev pub node_image_release_object : Object OpenStackNodeImageRelease
node_image_release_object = record {
  get_name = λ r. r.metadata.name;
  get_conditions = λ r. r.status.conditions;
  set_conditions = λ cs r. record r { status = record (r.status) { conditions = cs } };
  set_ready = λ b r. record r { status = record (r.status) { ready = b } };
}

instance abbrev pub cluster_stack_release_object : Object OpenStackClusterStackRelease
cluster_stack_release_object = record {
  get_name = λ r. r.metadata.name;
  get_conditions = λ r. r.status.conditions;
  set_conditions = λ cs r. record r { status = record (r.status) { conditions = cs } };
  set_ready = λ b r. record r { status = record (r.status) { ready = b } };
}
