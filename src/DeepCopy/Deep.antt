-- ===== src/DeepCopy/Deep.antt =====
-- The deep copies of the types that hold no vendored type are deep.
use mathlib.Core.List.{append_assoc, append-nil}
use cluster_stack_provider_o.Base.{String, Bool, ◌≡◌, refl, sym, ◌∙◌, List, [], ◌∷◌, ◌++◌, arith}
use cluster_stack_provider_o.Api.{OpenStackIdentityReference}
use cluster_stack_provider_o.DeepCopy.Memory.{pure, Grows-refl, Grows-trans}
use cluster_stack_provider_o.DeepCopy.Shapes.{plain}
use cluster_stack_provider_o.DeepCopy.Copies.{IsDeep, carry, pure-IsDeep, copy_ref, copy_ref-IsDeep}
use cluster_stack_provider_o.DeepCopy.Cells.{Vendored, Cell}
use cluster_stack_provider_o.DeepCopy.Kinds
use cluster_stack_provider_o.DeepCopy.Values
use cluster_stack_provider_o.DeepCopy.Functions.{
  fill, copy_entries, copy_create_opts, copy_node_image, copy_node_image_spec,
  copy_cluster_stack_spec, copy_template_resource, copy_template_spec,
}

fill-append : (out entries : List (String × String)) → fill out entries ≡ out ++ entries
fill-append out [] = sym (append-nil out)
fill-append out (entry ∷ entries) =
    fill-append (out ++ entry ∷ []) entries ∙ append_assoc out (entry ∷ []) entries

module _ {lib : Vendored} where
  copy_entries-IsDeep : IsDeep {Cell = Cell lib} (plain (List (String × String))) copy_entries
  copy_entries-IsDeep h entries v reads = record {
    out = fill [] entries;
    after = h;
    runs = refl;
    grows = Grows-refl h;
    reads = fill-append [] entries ∙ reads;
  }

  text-IsDeep : IsDeep {Cell = Cell lib} Values.text (copy_ref Kinds.text (λ a. pure a))
  text-IsDeep = copy_ref-IsDeep Kinds.text (λ a. pure a) (plain String) pure-IsDeep

  flag-IsDeep : IsDeep {Cell = Cell lib} Values.flag (copy_ref Kinds.flag (λ a. pure a))
  flag-IsDeep = copy_ref-IsDeep Kinds.flag (λ a. pure a) (plain Bool) pure-IsDeep

  texts-IsDeep : IsDeep {Cell = Cell lib} Values.texts (copy_ref Kinds.texts (λ a. pure a))
  texts-IsDeep = copy_ref-IsDeep Kinds.texts (λ a. pure a) (plain (List String)) pure-IsDeep

  entries-IsDeep : IsDeep {Cell = Cell lib} Values.entries (copy_ref Kinds.entries copy_entries)
  entries-IsDeep =
      copy_ref-IsDeep Kinds.entries copy_entries (plain (List (String × String)))
        copy_entries-IsDeep

  identity-IsDeep : IsDeep {Cell = Cell lib} Values.identity (copy_ref Kinds.identity (λ a. pure a))
  identity-IsDeep =
      copy_ref-IsDeep Kinds.identity (λ a. pure a) (plain OpenStackIdentityReference) pure-IsDeep

  pub copy_create_opts-IsDeep : IsDeep {Cell = Cell lib} Values.create_opts copy_create_opts
  unfolding copy_create_opts
  copy_create_opts-IsDeep h o v reads =
      let a = text-IsDeep h o.visibility v.visibility reads.visibility in
      let b =
        flag-IsDeep a.after o.hidden v.hidden
          (carry Values.flag 0 a.grows (omega arith) reads.hidden) in
      let ab = Grows-trans a.grows b.grows in
      let c =
        texts-IsDeep b.after o.tags v.tags (carry Values.texts 0 ab (omega arith) reads.tags) in
      let abc = Grows-trans ab c.grows in
      let d =
        flag-IsDeep c.after o.protected v.protected
          (carry Values.flag 0 abc (omega arith) reads.protected) in
      let abcd = Grows-trans abc d.grows in
      let e =
        entries-IsDeep d.after o.properties v.properties
          (carry Values.entries 0 abcd (omega arith) reads.properties) in
      let de = Grows-trans d.grows e.grows in
      let cde = Grows-trans c.grows de in
      let bcde = Grows-trans b.grows cde in
      record {
        out = record o {
          visibility = a.out;
          hidden = b.out;
          tags = c.out;
          protected = d.out;
          properties = e.out;
        };
        after = e.after;
        runs = ground (arith, a.runs, b.runs, c.runs, d.runs, e.runs);
        grows = Grows-trans abcd e.grows;
        reads = record {
          name = reads.name;
          id = reads.id;
          container_format = reads.container_format;
          disk_format = reads.disk_format;
          min_disk = reads.min_disk;
          min_ram = reads.min_ram;
          visibility = carry Values.text h.next bcde (omega arith) a.reads;
          hidden = carry Values.flag h.next cde a.grows.further b.reads;
          tags = carry Values.texts h.next de ab.further c.reads;
          protected = carry Values.flag h.next e.grows abc.further d.reads;
          properties = carry Values.entries h.next (Grows-refl e.after) abcd.further e.reads;
        };
      }

  create_opts_ref-IsDeep :
      IsDeep {Cell = Cell lib} Values.create_opts_ref (copy_ref Kinds.create_opts copy_create_opts)
  create_opts_ref-IsDeep =
      copy_ref-IsDeep Kinds.create_opts copy_create_opts Values.create_opts copy_create_opts-IsDeep

  pub copy_node_image-IsDeep : IsDeep {Cell = Cell lib} Values.node_image copy_node_image
  unfolding copy_node_image
  copy_node_image-IsDeep h n v (url, reads) =
      let a = create_opts_ref-IsDeep h n.create_opts v.create_opts reads in
      record {
        out = record n { create_opts = a.out };
        after = a.after;
        runs = ground (arith, a.runs);
        grows = a.grows;
        reads = (url, a.reads);
      }

  node_image_ref-IsDeep :
      IsDeep {Cell = Cell lib} Values.node_image_ref (copy_ref Kinds.node_image copy_node_image)
  node_image_ref-IsDeep =
      copy_ref-IsDeep Kinds.node_image copy_node_image Values.node_image copy_node_image-IsDeep

  pub copy_node_image_spec-IsDeep :
      IsDeep {Cell = Cell lib} Values.node_image_spec copy_node_image_spec
  unfolding copy_node_image_spec
  copy_node_image_spec-IsDeep h s v (ref_reads, image_reads) =
      let a = identity-IsDeep h s.identity_ref v.identity_ref ref_reads in
      let b =
        node_image_ref-IsDeep a.after s.image v.image
          (carry Values.node_image_ref 0 a.grows (omega arith) image_reads) in
      record {
        out = record { identity_ref = a.out; image = b.out };
        after = b.after;
        runs = ground (arith, a.runs, b.runs);
        grows = Grows-trans a.grows b.grows;
        reads = (
          carry Values.identity h.next b.grows (omega arith) a.reads,
          carry Values.node_image_ref h.next (Grows-refl b.after) a.grows.further b.reads,
        );
      }

  pub copy_cluster_stack_spec-IsDeep :
      IsDeep {Cell = Cell lib} Values.cluster_stack_spec copy_cluster_stack_spec
  unfolding copy_cluster_stack_spec
  copy_cluster_stack_spec-IsDeep h s v reads =
      let a = identity-IsDeep h s.identity_ref v.identity_ref reads in
      record {
        out = record { identity_ref = a.out };
        after = a.after;
        runs = ground (arith, a.runs);
        grows = a.grows;
        reads = a.reads;
      }

  copy_template_resource-IsDeep :
      IsDeep {Cell = Cell lib} Values.template_resource copy_template_resource
  unfolding copy_template_resource
  copy_template_resource-IsDeep h t v reads =
      let a = copy_cluster_stack_spec-IsDeep h t.spec v.spec reads in
      record {
        out = record { spec = a.out };
        after = a.after;
        runs = ground (arith, a.runs);
        grows = a.grows;
        reads = a.reads;
      }

  pub copy_template_spec-IsDeep : IsDeep {Cell = Cell lib} Values.template_spec copy_template_spec
  unfolding copy_template_spec
  copy_template_spec-IsDeep h t v reads =
      let a = copy_template_resource-IsDeep h t.template v.template reads in
      record {
        out = record { template = a.out };
        after = a.after;
        runs = ground (arith, a.runs);
        grows = a.grows;
        reads = a.reads;
      }
