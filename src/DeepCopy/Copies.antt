-- ===== src/DeepCopy/Copies.antt =====
-- Deep copies: they return, what they return stands for the same value, all of its cells are new, and
-- no cell that was there before is written.
use cluster_stack_provider_o.Base.{ℕ, suc, ◌≤◌, ◌≡◌, refl, none, some, List, [], ◌∷◌, arith}
use cluster_stack_provider_o.DeepCopy.Memory.{
  Ref, Kind, Memory, Cmd, pure, ◌>>=◌, load, alloc, with_cell, Grows, Grows-refl, Grows-trans,
  alloc-Grows,
}
use cluster_stack_provider_o.DeepCopy.Shapes.{Shape, plain, ref, items}

module _ {Cell : Type 0} where
  -- One copy of `a`, which stands for `v` in the memory `h`.
  pub record Copied {A V : Type 0} (s : Shape Cell A V) (copy : A → Cmd Cell A) (h : Memory Cell)
      (a : A) (v : V) : Type 0 where
    pub out : A
    pub after : Memory Cell
    pub runs : copy a h ≡ some (out, after)
    pub grows : Grows h after
    pub reads : s.Reads after h.next after.next out v

  abbrev pub IsDeep : {A V : Type 0} → Shape Cell A V → (A → Cmd Cell A) → Type 0
  IsDeep {A} {V} s copy =
      (h : Memory Cell) (a : A) (v : V) → s.Reads h 0 h.next a v → Copied s copy h a v

  -- What is read goes on to be read while the memory grows.
  pub carry :
      {A V : Type 0} (s : Shape Cell A V) {h g : Memory Cell} {lo : ℕ} (lo' : ℕ) {a : A} {v : V}
      → Grows h g
      → lo' ≤ lo
      → s.Reads h lo h.next a v
      → s.Reads g lo' g.next a v
  carry s {h} {g} {lo} lo' {a} {v} grows wider reads =
      s.keep h g lo h.next lo' g.next a v wider (grows.further) (λ p from to. grows.kept p to) reads

  -- `**out = **in`
  pub pure-IsDeep : {A : Type 0} → IsDeep (plain A) (λ a. pure a)
  pure-IsDeep h a v reads = record {
    out = a;
    after = h;
    runs = refl;
    grows = Grows-refl h;
    reads = reads;
  }

  module _ {A : Type 0} (kind : Kind Cell A) (copy : A → Cmd Cell A) where
    -- `if in != nil { *out = new(T); (*in).DeepCopyInto(*out) }`, and `DeepCopy`.
    unfoldable pub copy_ref : Ref → Cmd Cell Ref
    copy_ref none = pure none
    copy_ref (some p) = do a ← load kind p; b ← copy a; q ← alloc kind b; pure (some q)

    pub copy_ref-IsDeep :
        {V : Type 0} (s : Shape Cell A V) → IsDeep s copy → IsDeep (ref kind s) copy_ref
    unfolding copy_ref load alloc
    copy_ref-IsDeep s deep h none none reads = record {
      out = none;
      after = h;
      runs = refl;
      grows = Grows-refl h;
      reads = tt;
    }
    copy_ref-IsDeep s deep h none (some v) reads = elim reads [ ]
    copy_ref-IsDeep s deep h (some p) none reads = elim reads [ ]
    copy_ref-IsDeep s deep h (some p) (some v) (from, to, a, has, reads) =
        let c = deep h a v reads in
        let last = alloc-Grows kind c.out c.after in
        record {
          out = some c.after.next;
          after = record {
            next = suc c.after.next;
            cell = with_cell c.after.cell c.after.next (kind.inject c.out);
          };
          runs = ground (arith, c.runs);
          grows = Grows-trans c.grows last;
          reads = (
            c.grows.further,
            omega arith,
            c.out,
            ground (arith, kind.content-inject c.out),
            carry s h.next last (omega arith) c.reads,
          );
        }

  module _ {A : Type 0} (copy : A → Cmd Cell A) where
    -- `for i := range *in { (*in)[i].DeepCopyInto(&(*out)[i]) }`
    unfoldable pub copy_items : List A → Cmd Cell (List A)
    copy_items [] = pure []
    copy_items (a ∷ rest) = do b ← copy a; out ← copy_items rest; pure (b ∷ out)

    pub copy_items-IsDeep :
        {V : Type 0} (s : Shape Cell A V) → IsDeep s copy → IsDeep (items s) copy_items
    unfolding copy_items
    copy_items-IsDeep s deep h [] [] reads = record {
      out = [];
      after = h;
      runs = refl;
      grows = Grows-refl h;
      reads = tt;
    }
    copy_items-IsDeep s deep h [] (v ∷ vs) reads = elim reads [ ]
    copy_items-IsDeep s deep h (a ∷ rest) [] reads = elim reads [ ]
    copy_items-IsDeep s deep h (a ∷ rest) (v ∷ vs) (first, others) =
        let c = deep h a v first in
        let d =
          copy_items-IsDeep s deep c.after rest vs
            (carry (items s) 0 c.grows (omega arith) others) in
        record {
          out = c.out ∷ d.out;
          after = d.after;
          runs = ground (arith, c.runs, d.runs);
          grows = Grows-trans c.grows d.grows;
          reads = (
            carry s h.next d.grows (omega arith) c.reads,
            carry (items s) h.next (Grows-refl d.after) (c.grows.further) d.reads,
          );
        }
