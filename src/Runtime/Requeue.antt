-- ===== src/Runtime/Requeue.antt =====
-- One request that the workqueue takes up again as long as its reconciliation asks for it.
use cluster_stack_provider_o.Base.{
  ℕ, zero, suc, ◌≤◌, ◌<◌, ◌==◌, ◌≡◌, ◌⊎◌, inl, inr, Bool, true, false, not, ◌||◌, none, some, arith,
  if◌then◌else◌,
}
use cluster_stack_provider_o.Runtime.Calls.{History}
use cluster_stack_provider_o.Runtime.Reconcile.{Exit, returned, panicked}

-- After an error, a requeue or a delay it is taken up again.
abbrev pub asks_again : Exit → Bool
asks_again (returned o) = elim (o.error) [
  | none ↦ o.result.requeue || not (o.result.requeue_after == 0)
  | some e ↦ true
]
asks_again panicked = false

module _ (step : History → Exit × History) where
  -- One reconciliation, and at most so many more, each only if the one before asks for it.
  abbrev pub follow : ℕ → History → Exit × History
  follow zero h = step h
  follow (suc n) h = let r = step h in let rest = follow n r.1 in if asks_again r.0 then rest else r

  module _ (IsSettled : Exit × History → Type 0) (rank : History → ℕ)
      (Kept : History → Type 0) where
    -- A reconciliation settles the request, or asks for another one that has less before it and
    -- starts as this one does.
    abbrev pub Turn : History → Type 0
    Turn h =
        ((asks_again (step h).0 ≡ false) × IsSettled (step h))
        ⊎ ((asks_again (step h).0 ≡ true) × (rank (step h).1 < rank h) × Kept (step h).1)

    -- With as many further reconciliations as there are before it, the request is settled.
    pub follow-IsSettled :
        ((h : History) → Kept h → Turn h)
        → (n : ℕ) (h : History) → Kept h
        → rank h ≤ n
        → IsSettled (follow n h)
    follow-IsSettled turn zero h kept near = elim (turn h kept) [
      | inl (stops, settled) ↦ settled
      | inr (again, nearer, later) ↦ absurd (omega (arith, near, nearer))
    ]
    follow-IsSettled turn (suc n) h kept near = elim (turn h kept) [
      | inl (stops, settled) ↦ rw stops settled
      | inr (again, nearer, later) ↦
          rw again (follow-IsSettled turn n (step h).1 later (omega (arith, near, nearer)))
    ]
