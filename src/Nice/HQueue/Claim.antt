-- ===== src/Nice/HQueue/Claim.antt =====
-- The search for a free node.
use ccbase.Base.{
  ℕ, zero, suc, ◌+◌, ◌-◌, ◌≤◌, ◌<◌, ◌≡◌, ◌⊎◌, inl, inr, refl, true, false, none, some, arith, ◌==◌,
  Bool-cases,
}
use ccbase.Nice.HQueue.{HQueue, set_node, claim, claim_node}

module _ {T : Type 0} where
  -- The queue with the node `i` taken.
  abbrev pub with_claimed : HQueue T → ℕ → HQueue T
  with_claimed q i = record q {
    nodes = set_node q.nodes i (record (q.nodes i) { free = false });
    free_index = i + 1;
  }

  -- No node in the range is free.
  abbrev pub Taken : HQueue T → (from to : ℕ) → Type 0
  Taken q from to = (i : ℕ) → from ≤ i → i < to → (q.nodes i).free ≡ false

  claim-cases :
      (count idx : ℕ) (q : HQueue T)
      → ((i : ℕ) × (idx ≤ i)
          × (i < idx + count)
          × ((q.nodes i).free ≡ true)
          × (claim count idx q ≡ (some i, with_claimed q i)))
        ⊎ (Taken q idx (idx + count) × (claim count idx q ≡ (none, q)))
  unfolding claim
  claim-cases zero idx q = inr (λ i l b. absurd (omega arith), refl)
  claim-cases (suc n) idx q = elim (Bool-cases (q.nodes idx).free) [
    | inl here ↦ inl (idx, omega arith, omega arith, here, rw here refl)
    | inr taken ↦ elim (claim-cases n (idx + 1) q) [
      | inl (i, l, b, f, run) ↦ inl (i, omega arith, omega arith, f, rw (taken, claim) run)
      | inr (none_free, run) ↦ inr (
        λ i l b. elim (Bool-cases (i == idx)) [
          | inl this ↦ let same : i ≡ idx = ground arith in rw same taken
          | inr other ↦ none_free i (ground arith) (omega arith)
        ],
        rw (taken, claim) run,
      )
    ]
  ]

  -- A free node from 1 on is found, or there is none.
  pub claim_node-cases :
      (q : HQueue T)
      → 1 ≤ q.free_index
      → ((i : ℕ) × (1 ≤ i)
          × (i < q.queue_size)
          × ((q.nodes i).free ≡ true)
          × (claim_node q ≡ (some i, with_claimed q i)))
        ⊎ (Taken q 1 q.queue_size × (claim_node q ≡ (none, record q { free_index = 1 })))
  unfolding claim_node
  claim_node-cases q start = elim (claim-cases (q.queue_size - q.free_index) q.free_index q) [
    | inl (i, l, b, f, run) ↦ inl (i, omega arith, omega arith, f, rw (run, claim_node) refl)
    | inr (none_free, run) ↦ elim (claim-cases (q.queue_size - 1) 1 (record q { free_index = 1 })) [
      | inl (i, l, b, f, run₁) ↦ inl (i, l, omega arith, f, rw (run, claim_node) run₁)
      | inr (taken, run₁) ↦ inr (λ i l b. taken i l (omega arith), rw (run, claim_node) run₁)
    ]
  ]
