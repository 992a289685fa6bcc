-- ===== src/DeepCopy/Kinds.antt =====
-- How each type lies in a cell.
use cluster_stack_provider_o.Base.{String, Bool, refl, none, some, List}
use cluster_stack_provider_o.Api.{OpenStackIdentityReference}
use cluster_stack_provider_o.DeepCopy.Memory.{Kind}
use cluster_stack_provider_o.DeepCopy.Cells.{
  Vendored, CreateOpts, NodeImage, NodeImageSpec, ClusterStackSpec, Status, TemplateResource,
  TemplateSpec, TemplateStatus, NodeImageRelease, ClusterStackRelease, Template,
  NodeImageReleaseList, ClusterStackReleaseList, TemplateList, Cell,
}

module _ {lib : Vendored} where
  abbrev pub text : Kind (Cell lib) String
  text = record {
    inject = λ a. Cell.text a;
    content = λ c. elim c [ Cell.text a ↦ some a | _ ↦ none ];
    content-inject = λ a. refl;
  }

  abbrev pub flag : Kind (Cell lib) Bool
  flag = record {
    inject = λ a. Cell.flag a;
    content = λ c. elim c [ Cell.flag a ↦ some a | _ ↦ none ];
    content-inject = λ a. refl;
  }

  abbrev pub texts : Kind (Cell lib) (List String)
  texts = record {
    inject = λ a. Cell.texts a;
    content = λ c. elim c [ Cell.texts a ↦ some a | _ ↦ none ];
    content-inject = λ a. refl;
  }

  abbrev pub entries : Kind (Cell lib) (List (String × String))
  entries = record {
    inject = λ a. Cell.entries a;
    content = λ c. elim c [ Cell.entries a ↦ some a | _ ↦ none ];
    content-inject = λ a. refl;
  }

  abbrev pub identity : Kind (Cell lib) OpenStackIdentityReference
  identity = record {
    inject = λ a. Cell.identity a;
    content = λ c. elim c [ Cell.identity a ↦ some a | _ ↦ none ];
    content-inject = λ a. refl;
  }

  abbrev pub create_opts : Kind (Cell lib) CreateOpts
  create_opts = record {
    inject = λ a. Cell.create_opts a;
    content = λ c. elim c [ Cell.create_opts a ↦ some a | _ ↦ none ];
    content-inject = λ a. refl;
  }

  abbrev pub node_image : Kind (Cell lib) NodeImage
  node_image = record {
    inject = λ a. Cell.node_image a;
    content = λ c. elim c [ Cell.node_image a ↦ some a | _ ↦ none ];
    content-inject = λ a. refl;
  }

  abbrev pub conditions : Kind (Cell lib) (List lib.Condition)
  conditions = record {
    inject = λ a. Cell.conditions a;
    content = λ c. elim c [ Cell.conditions a ↦ some a | _ ↦ none ];
    content-inject = λ a. refl;
  }

  abbrev pub node_image_spec : Kind (Cell lib) NodeImageSpec
  node_image_spec = record {
    inject = λ a. Cell.node_image_spec a;
    content = λ c. elim c [ Cell.node_image_spec a ↦ some a | _ ↦ none ];
    content-inject = λ a. refl;
  }

  abbrev pub cluster_stack_spec : Kind (Cell lib) ClusterStackSpec
  cluster_stack_spec = record {
    inject = λ a. Cell.cluster_stack_spec a;
    content = λ c. elim c [ Cell.cluster_stack_spec a ↦ some a | _ ↦ none ];
    content-inject = λ a. refl;
  }

  abbrev pub status : Kind (Cell lib) Status
  status = record {
    inject = λ a. Cell.status a;
    content = λ c. elim c [ Cell.status a ↦ some a | _ ↦ none ];
    content-inject = λ a. refl;
  }

  abbrev pub node_image_release : Kind (Cell lib) (NodeImageRelease lib)
  node_image_release = record {
    inject = λ a. Cell.node_image_release a;
    content = λ c. elim c [ Cell.node_image_release a ↦ some a | _ ↦ none ];
    content-inject = λ a. refl;
  }

  abbrev pub cluster_stack_release : Kind (Cell lib) (ClusterStackRelease lib)
  cluster_stack_release = record {
    inject = λ a. Cell.cluster_stack_release a;
    content = λ c. elim c [ Cell.cluster_stack_release a ↦ some a | _ ↦ none ];
    content-inject = λ a. refl;
  }

  abbrev pub node_image_releases : Kind (Cell lib) (List (NodeImageRelease lib))
  node_image_releases = record {
    inject = λ a. Cell.node_image_releases a;
    content = λ c. elim c [ Cell.node_image_releases a ↦ some a | _ ↦ none ];
    content-inject = λ a. refl;
  }

  abbrev pub cluster_stack_releases : Kind (Cell lib) (List (ClusterStackRelease lib))
  cluster_stack_releases = record {
    inject = λ a. Cell.cluster_stack_releases a;
    content = λ c. elim c [ Cell.cluster_stack_releases a ↦ some a | _ ↦ none ];
    content-inject = λ a. refl;
  }

  abbrev pub node_image_release_list : Kind (Cell lib) (NodeImageReleaseList lib)
  node_image_release_list = record {
    inject = λ a. Cell.node_image_release_list a;
    content = λ c. elim c [ Cell.node_image_release_list a ↦ some a | _ ↦ none ];
    content-inject = λ a. refl;
  }

  abbrev pub cluster_stack_release_list : Kind (Cell lib) (ClusterStackReleaseList lib)
  cluster_stack_release_list = record {
    inject = λ a. Cell.cluster_stack_release_list a;
    content = λ c. elim c [ Cell.cluster_stack_release_list a ↦ some a | _ ↦ none ];
    content-inject = λ a. refl;
  }

  abbrev pub template_resource : Kind (Cell lib) TemplateResource
  template_resource = record {
    inject = λ a. Cell.template_resource a;
    content = λ c. elim c [ Cell.template_resource a ↦ some a | _ ↦ none ];
    content-inject = λ a. refl;
  }

  abbrev pub template_spec : Kind (Cell lib) TemplateSpec
  template_spec = record {
    inject = λ a. Cell.template_spec a;
    content = λ c. elim c [ Cell.template_spec a ↦ some a | _ ↦ none ];
    content-inject = λ a. refl;
  }

  abbrev pub template_status : Kind (Cell lib) TemplateStatus
  template_status = record {
    inject = λ a. Cell.template_status a;
    content = λ c. elim c [ Cell.template_status a ↦ some a | _ ↦ none ];
    content-inject = λ a. refl;
  }

  abbrev pub template : Kind (Cell lib) (Template lib)
  template = record {
    inject = λ a. Cell.template a;
    content = λ c. elim c [ Cell.template a ↦ some a | _ ↦ none ];
    content-inject = λ a. refl;
  }

  abbrev pub templates : Kind (Cell lib) (List (Template lib))
  templates = record {
    inject = λ a. Cell.templates a;
    content = λ c. elim c [ Cell.templates a ↦ some a | _ ↦ none ];
    content-inject = λ a. refl;
  }

  abbrev pub template_list : Kind (Cell lib) (TemplateList lib)
  template_list = record {
    inject = λ a. Cell.template_list a;
    content = λ c. elim c [ Cell.template_list a ↦ some a | _ ↦ none ];
    content-inject = λ a. refl;
  }
