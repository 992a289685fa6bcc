-- ===== src/DeepCopy/Shapes.antt =====
-- What a value in memory stands for, and copies that share no cell with what they copy.
use cluster_stack_provider_o.Base.{ℕ, ◌≤◌, ◌<◌, ◌≡◌, Option, none, some, List, [], ◌∷◌, arith}
use cluster_stack_provider_o.Runtime.Calls.{Address}
use cluster_stack_provider_o.DeepCopy.Memory.{Ref, Kind, Memory, held}

module _ (Cell : Type 0) where
  -- `Reads h lo hi a v`: in the memory `h` the value `a` stands for `v`, and all cells that are
  -- reached from it have addresses from `lo` on and below `hi`. Only these cells matter.
  pub record Shape (A V : Type 0) : Type 1 where
    pub Reads : Memory Cell → ℕ → ℕ → A → V → Type 0
    pub keep :
        (h g : Memory Cell) (lo hi lo' hi' : ℕ) (a : A) (v : V)
        → lo' ≤ lo
        → hi ≤ hi'
        → ((p : Address) → lo ≤ p → p < hi → g.cell p ≡ h.cell p)
        → Reads h lo hi a v
        → Reads g lo' hi' a v

module _ {Cell : Type 0} where
  -- A value without any address.
  abbrev pub plain : (A : Type 0) → Shape Cell A A
  plain A = record {
    Reads = λ h lo hi a v. a ≡ v;
    keep = λ h g lo hi lo' hi' a v wider below same reads. reads;
  }

  module _ {A V : Type 0} (kind : Kind Cell A) (s : Shape Cell A V) where
    abbrev pub ReadsRef : Memory Cell → ℕ → ℕ → Ref → Option V → Type 0
    ReadsRef h lo hi none none = Unit
    ReadsRef h lo hi none (some v) = ⊥
    ReadsRef h lo hi (some p) none = ⊥
    ReadsRef h lo hi (some p) (some v) =
        (lo ≤ p) × (p < hi) × (a : A) × (held kind h p ≡ some a) × s.Reads h lo hi a v

    pub ReadsRef-keep :
        (h g : Memory Cell) (lo hi lo' hi' : ℕ) (r : Ref) (v : Option V)
        → lo' ≤ lo
        → hi ≤ hi'
        → ((p : Address) → lo ≤ p → p < hi → g.cell p ≡ h.cell p)
        → ReadsRef h lo hi r v
        → ReadsRef g lo' hi' r v
    ReadsRef-keep h g lo hi lo' hi' none none wider below same reads = tt
    ReadsRef-keep h g lo hi lo' hi' none (some v) wider below same reads = elim reads [ ]
    ReadsRef-keep h g lo hi lo' hi' (some p) none wider below same reads = elim reads [ ]
    ReadsRef-keep h g lo hi lo' hi' (some p) (some v) wider below same (from, to, a, has, reads) = (
      omega arith,
      omega arith,
      a,
      rw (same p from to, held) has,
      s.keep h g lo hi lo' hi' a v wider below same reads,
    )

    -- A pointer, or a slice or map by its content.
    abbrev pub ref : Shape Cell Ref (Option V)
    ref = record { Reads = ReadsRef; keep = ReadsRef-keep }

  module _ {A V : Type 0} (s : Shape Cell A V) where
    abbrev pub ReadsItems : Memory Cell → ℕ → ℕ → List A → List V → Type 0
    ReadsItems h lo hi [] [] = Unit
    ReadsItems h lo hi [] (v ∷ vs) = ⊥
    ReadsItems h lo hi (a ∷ as') [] = ⊥
    ReadsItems h lo hi (a ∷ as') (v ∷ vs) = s.Reads h lo hi a v × ReadsItems h lo hi as' vs

    pub ReadsItems-keep :
        (h g : Memory Cell) (lo hi lo' hi' : ℕ) (l : List A) (vs : List V)
        → lo' ≤ lo
        → hi ≤ hi'
        → ((p : Address) → lo ≤ p → p < hi → g.cell p ≡ h.cell p)
        → ReadsItems h lo hi l vs
        → ReadsItems g lo' hi' l vs
    ReadsItems-keep h g lo hi lo' hi' [] [] wider below same reads = tt
    ReadsItems-keep h g lo hi lo' hi' [] (v ∷ vs) wider below same reads = elim reads [ ]
    ReadsItems-keep h g lo hi lo' hi' (a ∷ l) [] wider below same reads = elim reads [ ]
    ReadsItems-keep h g lo hi lo' hi' (a ∷ l) (v ∷ vs) wider below same (reads, rest) = (
      s.keep h g lo hi lo' hi' a v wider below same reads,
      ReadsItems-keep h g lo hi lo' hi' l vs wider below same rest,
    )

    -- The items of a slice.
    abbrev pub items : Shape Cell (List A) (List V)
    items = record { Reads = ReadsItems; keep = ReadsItems-keep }
