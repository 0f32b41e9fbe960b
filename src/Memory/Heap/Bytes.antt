-- ===== src/Memory/Heap/Bytes.antt =====
-- The bytes that the buffers of a heap cover.
use ccbase.Base.{ℕ, ◌+◌, ◌≤◌, ◌<◌, ◌≡◌, ◌≢◌, ◌↔◌, ◌⊎◌, inl, inr, true, arith, ◌==◌, ltb, Bool-cases}
use ccbase.Memory.Types.{DynamicMemBufStatus}
use ccbase.Memory.Heap.{Ptr, null, Heap, MemBuf, new, set_status, split, absorb_prev, absorb_next}
use ccbase.Memory.Heap.Linked.{IsLinked}

-- The byte lies in the live buffer `p`.
abbrev pub In : Heap → Ptr → ℕ → Type 0
In h p x = (h.live p ≡ true) × ((h.buf p).addr ≤ x) × (x < (h.buf p).addr + (h.buf p).size)

-- The byte lies in a buffer of the heap.
abbrev pub Covers : Heap → ℕ → Type 0
Covers h x = (p : Ptr) × In h p x

-- The two heaps cover the same bytes.
abbrev pub SameBytes : Heap → Heap → Type 0
SameBytes h g = (x : ℕ) → Covers h x ↔ Covers g x

pub SameBytes-trans : (h g k : Heap) → SameBytes h g → SameBytes g k → SameBytes h k
SameBytes-trans h g k a b x = (λ c. (b x).0 ((a x).0 c), λ c. (a x).1 ((b x).1 c))

pub SameBytes-refl : (h : Heap) → SameBytes h h
SameBytes-refl h x = (λ c. c, λ c. c)

pub set_status-SameBytes :
    (h : Heap) (q : Ptr) (s : DynamicMemBufStatus) → SameBytes h (set_status h q s)
set_status-SameBytes h q s x = (λ (p, i). (p, ground arith), λ (p, i). (p, ground arith))

module _ (h : Heap) (v : IsLinked h) where
  pub new-Covers :
      (b : MemBuf) (x : ℕ)
      → Covers (new h b) x ↔ (Covers h x ⊎ ((b.addr ≤ x) × (x < b.addr + b.size)))
  new-Covers b x = (
    λ (p, i). elim (Bool-cases (p == h.fresh)) [
      | inl here ↦ inr (ground arith)
      | inr there ↦ inl (p, ground arith)
    ],
    λ c. elim c [
      | inl (p, i) ↦ (p, ground (arith, v.below p))
      | inr (m, n) ↦ (h.fresh, ground arith)
    ],
  )

  module _ (c : Ptr) (alive : h.live c ≡ true) (size r : ℕ)
      (parts : size + r ≡ (h.buf c).size) where
    pub split-SameBytes : SameBytes h (split h c size r)
    unfolding split
    split-SameBytes x = (
      λ (p, i). elim (Bool-cases (p == c)) [
        | inr other ↦ (p, ground (arith, v.below p))
        | inl here ↦ elim (Bool-cases (ltb x ((h.buf c).addr + size))) [
          | inl first ↦ (c, ground (arith, v.below c))
          | inr behind ↦ (h.fresh, ground (arith, v.below c))
        ]
      ],
      λ (p, i). elim (Bool-cases (p == h.fresh)) [
        | inl here ↦ (c, ground (arith, v.below c))
        | inr there ↦ (p, ground (arith, v.below c, v.below p))
      ],
    )

  module _ (b : Ptr) (alive : h.live b ≡ true) where
    pub absorb_prev-SameBytes : (h.buf b).prev ≢ null → SameBytes h (absorb_prev h b)
    unfolding absorb_prev
    absorb_prev-SameBytes ne x =
        let a = (h.buf b).prev in
        let here : h.live a ≡ true = v.prev_live b alive ne in
        let link : (h.buf a).next ≡ b = v.prev_next b alive ne in
        let meet : (h.buf a).addr + (h.buf a).size ≡ (h.buf b).addr =
          ground (arith, v.touch a, v.null_dead) in
        (
          λ (p, i). elim (Bool-cases (p == a)) [
            | inl gone ↦ (b, ground arith)
            | inr other ↦ (p, ground arith)
          ],
          λ (p, i). elim (Bool-cases (p == b)) [
            | inr other ↦ (p, ground arith)
            | inl grown ↦ elim (Bool-cases (ltb x (h.buf b).addr)) [
              | inl first ↦ (a, ground arith)
              | inr behind ↦ (b, ground arith)
            ]
          ],
        )

    pub absorb_next-SameBytes : (h.buf b).next ≢ null → SameBytes h (absorb_next h b)
    unfolding absorb_next
    absorb_next-SameBytes ne x =
        let a = (h.buf b).next in
        let here : h.live a ≡ true = v.next_live b alive ne in
        let meet : (h.buf a).addr ≡ (h.buf b).addr + (h.buf b).size = v.touch b alive ne in
        let apart : a ≢ b = λ e. ground (arith, v.sized b alive, e) in
        (
          λ (p, i). elim (Bool-cases (p == a)) [
            | inl gone ↦ (b, ground arith)
            | inr other ↦ (p, ground arith)
          ],
          λ (p, i). elim (Bool-cases (p == b)) [
            | inr other ↦ (p, ground arith)
            | inl grown ↦ elim (Bool-cases (ltb x (h.buf a).addr)) [
              | inl first ↦ (b, ground arith)
              | inr behind ↦ (a, ground arith)
            ]
          ],
        )
