-- ===== src/DeepCopy/Memory.antt =====
-- Memory: the cells that addresses stand for, and code that reads cells and takes new ones.
use cluster_stack_provider_o.Base.{
  ℕ, suc, ◌≤◌, ◌<◌, ◌≡◌, refl, ◌∙◌, Option, none, some, ◌==◌, if◌then◌else◌, arith,
}
use cluster_stack_provider_o.Runtime.Calls.{Address}

-- A pointer, a slice or a map; none is nil.
abbrev pub Ref : Type 0
Ref = Option Address

-- How values of one type lie in a cell.
pub record Kind (Cell A : Type 0) : Type 0 where
  pub inject : A → Cell
  pub content : Cell → Option A
  pub content-inject : (a : A) → content (inject a) ≡ some a

module _ (Cell : Type 0) where
  -- Addresses from `next` on are not taken yet.
  pub record Memory : Type 0 where
    pub next : ℕ
    pub cell : Address → Option Cell

  -- None is a fault: an address that holds nothing, or a value of another type.
  abbrev pub Cmd : Type 0 → Type 0
  Cmd A = Memory → Option (A × Memory)

module _ {Cell : Type 0} where
  abbrev pub pure : {A : Type 0} → A → Cmd Cell A
  pure a h = some (a, h)

  infixl 5 ◌>>=◌
  abbrev pub ◌>>=◌ : {A B : Type 0} → Cmd Cell A → (A → Cmd Cell B) → Cmd Cell B
  ◌>>=◌ m f h = elim (m h) [ none ↦ none | some (a, g) ↦ f a g ]

  -- The cell as a value of one type.
  abbrev pub held : {A : Type 0} → Kind Cell A → Memory Cell → Address → Option A
  held kind h p = elim (h.cell p) [ none ↦ none | some c ↦ kind.content c ]

  -- `*p`
  unfoldable pub load : {A : Type 0} → Kind Cell A → Address → Cmd Cell A
  load kind p h = elim (held kind h p) [ none ↦ none | some a ↦ some (a, h) ]

  abbrev pub with_cell : (Address → Option Cell) → Address → Cell → Address → Option Cell
  with_cell cell p c q = if q == p then some c else cell q

  -- A new cell with its content. `new` and `make` take the cell before it is filled, which shows
  -- only in the order of the addresses.
  unfoldable pub alloc : {A : Type 0} → Kind Cell A → A → Cmd Cell Address
  alloc kind a h =
      some (h.next, record { next = suc h.next; cell = with_cell h.cell h.next (kind.inject a) })

  -- From `h` to `g`, new cells were taken and none of those before was written.
  pub record Grows (h g : Memory Cell) : Type 0 where
    pub further : h.next ≤ g.next
    pub kept : (p : Address) → p < h.next → g.cell p ≡ h.cell p

  pub Grows-refl : (h : Memory Cell) → Grows h h
  Grows-refl h = record { further = omega arith; kept = λ p b. refl }

  pub Grows-trans : {h g k : Memory Cell} → Grows h g → Grows g k → Grows h k
  Grows-trans a b = record {
    further = omega (arith, a.further, b.further);
    kept = λ p below. b.kept p (omega (arith, a.further)) ∙ a.kept p below;
  }

  pub alloc-Grows :
      {A : Type 0} (kind : Kind Cell A) (a : A) (h : Memory Cell)
      → Grows h (record { next = suc h.next; cell = with_cell h.cell h.next (kind.inject a) })
  alloc-Grows kind a h = record { further = omega arith; kept = λ p below. ground arith }
