-- ===== src/Examples/DeepCopies.antt =====
-- Deep copies of two lists in a small memory.
use cluster_stack_provider_o.Base.{
  ℕ, zero, suc, String, true, false, refl, Option, none, some, List, [], ◌∷◌, length, arith,
}
use cluster_stack_provider_o.Base.Int.{pos}
use cluster_stack_provider_o.Api.{OpenStackIdentityReference, TypeMeta}
use cluster_stack_provider_o.DeepCopy.Memory.{Memory, pure}
use cluster_stack_provider_o.DeepCopy.Shapes.{plain, ref}
use cluster_stack_provider_o.DeepCopy.Copies.{pure-IsDeep}
use cluster_stack_provider_o.DeepCopy.Cells.{Vendored, Cell, NodeImageRelease, CreateOpts}
use cluster_stack_provider_o.DeepCopy.Kinds
use cluster_stack_provider_o.DeepCopy.Functions.{VendoredCopies}
use cluster_stack_provider_o.DeepCopy.Lists.{
  RuntimeObject, deep_copy_node_image_release_list, deep_copy_object_node_image_release_list,
  deep_copy_cluster_stack_release_list, deep_copy_object_cluster_stack_release_list,
}
use cluster_stack_provider_o.DeepCopy.Values
use cluster_stack_provider_o.DeepCopy.Values.{CreateOptsValue}
use cluster_stack_provider_o.DeepCopy.Resources
use cluster_stack_provider_o.DeepCopy.Resources.{IsLawful}
use cluster_stack_provider_o.DeepCopy.Independence.{
  Deep, deep_copy_node_image_release_list-Deep, deep_copy_cluster_stack_release_list-Deep,
}

-- Texts for the vendored types, which hold no address.
abbrev lib : Vendored
lib = record { Meta = String; ListMeta = String; Condition = String }

abbrev vendored : VendoredCopies lib
vendored = record {
  copy_meta = λ a. pure a;
  copy_list_meta = λ a. pure a;
  copy_condition = λ a. pure a;
}

abbrev lawful : IsLawful vendored
lawful = record {
  MetaValue = String;
  ListMetaValue = String;
  ConditionValue = String;
  meta = plain String;
  list_meta = plain String;
  condition = plain String;
  meta_deep = pure-IsDeep;
  list_meta_deep = pure-IsDeep;
  condition_deep = pure-IsDeep;
}

abbrev nth : List (Cell lib) → ℕ → Option (Cell lib)
nth [] p = none
nth (c ∷ cs) zero = some c
nth (c ∷ cs) (suc p) = nth cs p

abbrev memory : List (Cell lib) → Memory (Cell lib)
memory cells = record { next = length cells; cell = nth cells }

abbrev type_meta : TypeMeta
type_meta = record { kind = ""; api_version = "" }

abbrev opts : CreateOpts
opts = record {
  name = "ubuntu";
  id = "";
  visibility = none;
  hidden = some 5;
  tags = some 6;
  container_format = "bare";
  disk_format = "qcow2";
  min_disk = pos 20;
  min_ram = pos 2048;
  protected = none;
  properties = some 7;
}

abbrev opts_value : CreateOptsValue
opts_value = record {
  name = "ubuntu";
  id = "";
  visibility = none;
  hidden = some false;
  tags = some ("v1" ∷ []);
  container_format = "bare";
  disk_format = "qcow2";
  min_disk = pos 20;
  min_ram = pos 2048;
  protected = none;
  properties = some (("os", "linux") ∷ []);
}

abbrev identity : OpenStackIdentityReference
identity = record { kind = "Secret"; name = "creds" }

abbrev release : NodeImageRelease lib
release = record {
  type_meta = type_meta;
  metadata = "ubuntu-v1";
  spec = record { identity_ref = some 2; image = some 3 };
  status = record { ready = false; conditions = some 8 };
}

abbrev cells : List (Cell lib)
cells =
    Cell.node_image_release_list
      (record { type_meta = type_meta; metadata = "list"; items = some 1 })
    ∷ Cell.node_image_releases (release ∷ [])
    ∷ Cell.identity identity
    ∷ Cell.node_image (record { url = "https://images"; create_opts = some 4 })
    ∷ Cell.create_opts opts
    ∷ Cell.flag false
    ∷ Cell.texts ("v1" ∷ [])
    ∷ Cell.entries (("os", "linux") ∷ [])
    ∷ Cell.conditions ("Ready" ∷ [])
    ∷ []

abbrev value : Resources.ListValue lawful (Resources.NodeImageReleaseValue lawful)
value = record {
  type_meta = type_meta;
  metadata = "list";
  items = some (
      record {
        type_meta = type_meta;
        metadata = "ubuntu-v1";
        spec = record {
          identity_ref = some identity;
          image = some (record { url = "https://images"; create_opts = some opts_value });
        };
        status = record { ready = false; conditions = some ("Ready" ∷ []) };
      }
      ∷ []);
}

abbrev Reads : Type 0
Reads =
    (ref Kinds.node_image_release_list (Resources.node_image_release_list lawful)).Reads
      (memory cells) 0 9 (some 0) (some value)

reads : Reads
reads = (
  omega arith,
  omega arith,
  _,
  refl,
  (refl, refl, (omega arith, omega arith, _, refl, (item, tt))),
)
  where
    opts_read : (Values.create_opts {lib = lib}).Reads (memory cells) 0 9 opts opts_value
    opts_read = record {
      name = refl;
      id = refl;
      container_format = refl;
      disk_format = refl;
      min_disk = refl;
      min_ram = refl;
      visibility = tt;
      hidden = (omega arith, omega arith, _, refl, refl);
      tags = (omega arith, omega arith, _, refl, refl);
      protected = tt;
      properties = (omega arith, omega arith, _, refl, refl);
    }

    item : (Resources.node_image_release lawful).Reads (memory cells) 0 9 release (record {
      type_meta = type_meta;
      metadata = "ubuntu-v1";
      spec = record {
        identity_ref = some identity;
        image = some (record { url = "https://images"; create_opts = some opts_value });
      };
      status = record { ready = false; conditions = some ("Ready" ∷ []) };
    })
    item = (
      refl,
      refl,
      (
        (omega arith, omega arith, _, refl, refl),
        (omega arith, omega arith, _, refl, (refl, (omega arith, omega arith, _, refl, opts_read))),
      ),
      (refl, (omega arith, omega arith, _, refl, (refl, tt))),
    )

deep_copy_node_image_release_list-Deep_example :
    Deep Kinds.node_image_release_list
      (Resources.node_image_release_list lawful)
      (deep_copy_node_image_release_list vendored)
      (deep_copy_object_node_image_release_list vendored)
      RuntimeObject.node_image_release_list
      (memory cells)
      (some 0)
      (some value)
deep_copy_node_image_release_list-Deep_example =
    deep_copy_node_image_release_list-Deep lawful (memory cells) (some 0) (some value) reads

abbrev stacks : List (Cell lib)
stacks =
    Cell.cluster_stack_release_list
      (record { type_meta = type_meta; metadata = "list"; items = some 1 })
    ∷ Cell.cluster_stack_releases (
        record {
          type_meta = type_meta;
          metadata = "openstack-v1";
          spec = record { identity_ref = some 2 };
          status = record { ready = true; conditions = none };
        }
        ∷ [])
    ∷ Cell.identity identity
    ∷ []

abbrev stacks_value : Resources.ListValue lawful (Resources.ClusterStackReleaseValue lawful)
stacks_value = record {
  type_meta = type_meta;
  metadata = "list";
  items = some (
      record {
        type_meta = type_meta;
        metadata = "openstack-v1";
        spec = record { identity_ref = some identity };
        status = record { ready = true; conditions = none };
      }
      ∷ []);
}

deep_copy_cluster_stack_release_list-Deep_example :
    Deep Kinds.cluster_stack_release_list
      (Resources.cluster_stack_release_list lawful)
      (deep_copy_cluster_stack_release_list vendored)
      (deep_copy_object_cluster_stack_release_list vendored)
      RuntimeObject.cluster_stack_release_list
      (memory stacks)
      (some 0)
      (some stacks_value)
deep_copy_cluster_stack_release_list-Deep_example =
    deep_copy_cluster_stack_release_list-Deep lawful (memory stacks) (some 0) (some stacks_value) (
      omega arith,
      omega arith,
      _,
      refl,
      (
        refl,
        refl,
        (
          omega arith,
          omega arith,
          _,
          refl,
          ((refl, refl, (omega arith, omega arith, _, refl, refl), (refl, tt)), tt),
        ),
      ),
    )
