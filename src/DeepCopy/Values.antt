-- ===== src/DeepCopy/Values.antt =====
-- What the types of api/v1alpha1 stand for: the same types, with values in place of addresses. The
-- addresses that are reached lie in the given range.
use cluster_stack_provider_o.Base.{ℕ, String, Bool, ◌≡◌, Option, List}
use cluster_stack_provider_o.Api.{OpenStackIdentityReference}
use cluster_stack_provider_o.DeepCopy.Structs.{
  CreateOptsOf, NodeImageOf, NodeImageSpecOf, ClusterStackSpecOf, StatusOf, TemplateResourceOf,
  TemplateSpecOf, ResourceOf, ListOf,
}
use cluster_stack_provider_o.DeepCopy.Memory.{Ref, Kind, Memory}
use cluster_stack_provider_o.DeepCopy.Shapes.{Shape, plain, ref, items}
use cluster_stack_provider_o.DeepCopy.Cells.{
  Vendored, CreateOpts, NodeImage, NodeImageSpec, ClusterStackSpec, Status, TemplateResource,
  TemplateSpec, Cell,
}
use cluster_stack_provider_o.DeepCopy.Kinds

abbrev pub CreateOptsValue : Type 0
CreateOptsValue =
    CreateOptsOf (Option String) (Option Bool) (Option (List String))
      (Option (List (String × String)))

abbrev pub NodeImageValue : Type 0
NodeImageValue = NodeImageOf (Option CreateOptsValue)

abbrev pub NodeImageSpecValue : Type 0
NodeImageSpecValue = NodeImageSpecOf (Option OpenStackIdentityReference) (Option NodeImageValue)

abbrev pub ClusterStackSpecValue : Type 0
ClusterStackSpecValue = ClusterStackSpecOf (Option OpenStackIdentityReference)

module _ {lib : Vendored} where
  abbrev pub text : Shape (Cell lib) Ref (Option String)
  text = ref Kinds.text (plain String)

  abbrev pub flag : Shape (Cell lib) Ref (Option Bool)
  flag = ref Kinds.flag (plain Bool)

  abbrev pub texts : Shape (Cell lib) Ref (Option (List String))
  texts = ref Kinds.texts (plain (List String))

  abbrev pub entries : Shape (Cell lib) Ref (Option (List (String × String)))
  entries = ref Kinds.entries (plain (List (String × String)))

  abbrev pub identity : Shape (Cell lib) Ref (Option OpenStackIdentityReference)
  identity = ref Kinds.identity (plain OpenStackIdentityReference)

  pub record ReadsCreateOpts (h : Memory (Cell lib)) (lo hi : ℕ) (o : CreateOpts)
      (v : CreateOptsValue) : Type 0 where
    pub name : o.name ≡ v.name
    pub id : o.id ≡ v.id
    pub container_format : o.container_format ≡ v.container_format
    pub disk_format : o.disk_format ≡ v.disk_format
    pub min_disk : o.min_disk ≡ v.min_disk
    pub min_ram : o.min_ram ≡ v.min_ram
    pub visibility : text.Reads h lo hi o.visibility v.visibility
    pub hidden : flag.Reads h lo hi o.hidden v.hidden
    pub tags : texts.Reads h lo hi o.tags v.tags
    pub protected : flag.Reads h lo hi o.protected v.protected
    pub properties : entries.Reads h lo hi o.properties v.properties

  abbrev pub create_opts : Shape (Cell lib) CreateOpts CreateOptsValue
  create_opts = record {
    Reads = ReadsCreateOpts;
    keep = λ h g lo hi lo' hi' o v wider below same r. record {
      name = r.name;
      id = r.id;
      container_format = r.container_format;
      disk_format = r.disk_format;
      min_disk = r.min_disk;
      min_ram = r.min_ram;
      visibility =
          text.keep h g lo hi lo' hi' o.visibility v.visibility wider below same r.visibility;
      hidden = flag.keep h g lo hi lo' hi' o.hidden v.hidden wider below same r.hidden;
      tags = texts.keep h g lo hi lo' hi' o.tags v.tags wider below same r.tags;
      protected = flag.keep h g lo hi lo' hi' o.protected v.protected wider below same r.protected;
      properties =
          entries.keep h g lo hi lo' hi' o.properties v.properties wider below same r.properties;
    };
  }

  abbrev pub create_opts_ref : Shape (Cell lib) Ref (Option CreateOptsValue)
  create_opts_ref = ref Kinds.create_opts create_opts

  abbrev pub node_image : Shape (Cell lib) NodeImage NodeImageValue
  node_image = record {
    Reads =
        λ h lo hi n v. (n.url ≡ v.url) × create_opts_ref.Reads h lo hi n.create_opts v.create_opts;
    keep = λ h g lo hi lo' hi' n v wider below same r. (
      r.0,
      create_opts_ref.keep h g lo hi lo' hi' n.create_opts v.create_opts wider below same r.1,
    );
  }

  abbrev pub node_image_ref : Shape (Cell lib) Ref (Option NodeImageValue)
  node_image_ref = ref Kinds.node_image node_image

  abbrev pub node_image_spec : Shape (Cell lib) NodeImageSpec NodeImageSpecValue
  node_image_spec = record {
    Reads = λ h lo hi s v.
        identity.Reads h lo hi s.identity_ref v.identity_ref
        × node_image_ref.Reads h lo hi s.image v.image;
    keep = λ h g lo hi lo' hi' s v wider below same r. (
      identity.keep h g lo hi lo' hi' s.identity_ref v.identity_ref wider below same r.0,
      node_image_ref.keep h g lo hi lo' hi' s.image v.image wider below same r.1,
    );
  }

  abbrev pub cluster_stack_spec : Shape (Cell lib) ClusterStackSpec ClusterStackSpecValue
  cluster_stack_spec = record {
    Reads = λ h lo hi s v. identity.Reads h lo hi s.identity_ref v.identity_ref;
    keep = λ h g lo hi lo' hi' s v wider below same r.
        identity.keep h g lo hi lo' hi' s.identity_ref v.identity_ref wider below same r;
  }

  abbrev pub template_resource :
      Shape (Cell lib) TemplateResource (TemplateResourceOf ClusterStackSpecValue)
  template_resource = record {
    Reads = λ h lo hi t v. cluster_stack_spec.Reads h lo hi t.spec v.spec;
    keep = λ h g lo hi lo' hi' t v wider below same r.
        cluster_stack_spec.keep h g lo hi lo' hi' t.spec v.spec wider below same r;
  }

  abbrev pub template_spec :
      Shape (Cell lib) TemplateSpec (TemplateSpecOf (TemplateResourceOf ClusterStackSpecValue))
  template_spec = record {
    Reads = λ h lo hi t v. template_resource.Reads h lo hi t.template v.template;
    keep = λ h g lo hi lo' hi' t v wider below same r.
        template_resource.keep h g lo hi lo' hi' t.template v.template wider below same r;
  }

  -- The rest is built from parts that may be vendored.
  module _ {C V : Type 0} (condition : Shape (Cell lib) C V) (kind : Kind (Cell lib) (List C)) where
    abbrev pub status : Shape (Cell lib) Status (StatusOf (Option (List V)))
    status = record {
      Reads = λ h lo hi s v.
          (s.ready ≡ v.ready)
          × (ref kind (items condition)).Reads h lo hi s.conditions v.conditions;
      keep = λ h g lo hi lo' hi' s v wider below same r. (
        r.0,
        (ref kind (items condition)).keep h g lo hi lo' hi' s.conditions v.conditions wider below
            same r.1,
      );
    }

  module _ {M MV S SV T TV : Type 0} (meta : Shape (Cell lib) M MV) (spec : Shape (Cell lib) S SV)
      (status : Shape (Cell lib) T TV) where
    abbrev pub resource : Shape (Cell lib) (ResourceOf M S T) (ResourceOf MV SV TV)
    resource = record {
      Reads = λ h lo hi r v.
          (r.type_meta ≡ v.type_meta)
          × meta.Reads h lo hi r.metadata v.metadata
          × spec.Reads h lo hi r.spec v.spec
          × status.Reads h lo hi r.status v.status;
      keep = λ h g lo hi lo' hi' r v wider below same reads. (
        reads.0,
        meta.keep h g lo hi lo' hi' r.metadata v.metadata wider below same reads.1,
        spec.keep h g lo hi lo' hi' r.spec v.spec wider below same reads.2,
        status.keep h g lo hi lo' hi' r.status v.status wider below same reads.3,
      );
    }

  module _ {M MV A V : Type 0} (meta : Shape (Cell lib) M MV) (item : Shape (Cell lib) A V)
      (kind : Kind (Cell lib) (List A)) where
    abbrev pub list_of : Shape (Cell lib) (ListOf M Ref) (ListOf MV (Option (List V)))
    list_of = record {
      Reads = λ h lo hi l v.
          (l.type_meta ≡ v.type_meta)
          × meta.Reads h lo hi l.metadata v.metadata
          × (ref kind (items item)).Reads h lo hi l.items v.items;
      keep = λ h g lo hi lo' hi' l v wider below same reads. (
        reads.0,
        meta.keep h g lo hi lo' hi' l.metadata v.metadata wider below same reads.1,
        (ref kind (items item)).keep h g lo hi lo' hi' l.items v.items wider below same reads.2,
      );
    }
