-- ===== src/Memory/Pool/Bound.antt =====
-- The mapped buffers share no byte, and so their sizes add up to less than 2^64.
use ccbase.Base.{
  ℕ, zero, suc, ◌+◌, ◌-◌, ◌≤◌, ◌<◌, ◌≡◌, ◌≢◌, inl, inr, refl, sym, ◌∙◌, ap, subst, Bool, true,
  false, ◌&&◌, ◌||◌, some, [], ◌∷◌, arith, Bool-cases, size_max, ◌==◌, leb, ltb, if◌then◌else◌,
}
use ccbase.Memory.Heap.{Ptr}
use ccbase.Memory.Allocator.Frame.{InUse}
use ccbase.Memory.Pool.State.{find_addr, AllocatorRef, BufRef, AddrMap, Pool, same_ref, same_buf}
use ccbase.Memory.Pool.Accounts.{
  Allocators, heap_of, Absent, Mapped, mapped_size, same_ref-eq, find_addr-Mapped,
}
use ccbase.Memory.Pool.Sound.{PoolSound}

-- How many numbers below `n` pass the test.
abbrev cnt : (ℕ → Bool) → (n : ℕ) → ℕ
cnt f zero = 0
cnt f (suc n) = (if f n then 1 else 0) + cnt f n

cnt_le : (f : ℕ → Bool) (n : ℕ) → cnt f n ≤ n
cnt_le f zero = omega arith
cnt_le f (suc n) = ground (arith, cnt_le f n)

cnt-or :
    (f g : ℕ → Bool) (n : ℕ)
    → ((x : ℕ) → f x ≡ true → g x ≡ false)
    → cnt (λ x. f x || g x) n ≡ cnt f n + cnt g n
cnt-or f g zero apart = refl
cnt-or f g (suc n) apart = ground (arith, cnt-or f g n apart, apart n)

abbrev pub in_range : (a k x : ℕ) → Bool
in_range a k x = leb a x && ltb x (a + k)

cnt-below :
    (a k n : ℕ) → cnt (in_range a k) n ≡ (if leb n a then 0 else if leb n (a + k) then n - a else k)
cnt-below a k zero = ground arith
cnt-below a k (suc n) = ground (arith, cnt-below a k n)

cnt-range : (a k n : ℕ) → a + k ≤ n → cnt (in_range a k) n ≡ k
cnt-range a k n l = ground (arith, cnt-below a k n)

cnt_none : (n : ℕ) → cnt (λ x. false) n ≡ 0
cnt_none zero = refl
cnt_none (suc n) = omega (arith, cnt_none n)

abbrev pub at_byte : Allocators → BufRef → ℕ → Bool
at_byte s (r, b) x = in_range ((heap_of s r).buf b).addr ((heap_of s r).buf b).size x

abbrev mapped_byte : Allocators → AddrMap → ℕ → Bool
mapped_byte s [] x = false
mapped_byte s ((k, c) ∷ m) x = at_byte s c x || mapped_byte s m x

below_top : (a k n top : ℕ) → suc n ≡ top → a + k < top → a + k ≤ n
below_top a k n top e l = omega arith

below_suc : (a n top : ℕ) → suc n ≡ top → a ≤ n → a < top
below_suc a n top e l = omega arith

module _ {D : Type 0} (taken : D → ℕ → Type 0) (p : Pool D) (v : PoolSound taken p) where
  share_heap :
      (r : AllocatorRef) (b q : Ptr) (x : ℕ)
      → (b == q) ≡ false
      → InUse b (heap_of p.allocators r)
      → InUse q (heap_of p.allocators r)
      → at_byte p.allocators (r, b) x ≡ true
      → at_byte p.allocators (r, q) x ≡ false
  share_heap r b q x other i j here =
      ground (arith, (v.valid r).linked.apart b q i.0 j.0 (λ e. ground (arith, other, e)))

  -- Two buffers in use share no byte.
  pub share_none :
      (c d : BufRef) (x : ℕ)
      → same_buf c d ≡ false
      → InUse c.1 (heap_of p.allocators c.0)
      → InUse d.1 (heap_of p.allocators d.0)
      → at_byte p.allocators c x ≡ true
      → at_byte p.allocators d x ≡ false
  share_none (r, b) (t, q) x apart i j here = elim (Bool-cases (at_byte p.allocators (t, q) x)) [
    | inr misses ↦ misses
    | inl there ↦ elim (Bool-cases (same_ref r t)) [
      | inr two ↦
          absurd (v.parted r t x two (b, ground (arith, i, here)) (q, ground (arith, j, there)))
      | inl one ↦
          let same : r ≡ t = same_ref-eq r t one in
          let other : (b == q) ≡ false = ground (arith, apart, one) in
          subst (λ y. InUse q (heap_of p.allocators y) → at_byte p.allocators (y, q) x ≡ false) same
            (λ j₁. share_heap r b q x other i j₁ here) j
    ]
  ]

  Absent-byte :
      (k : ℕ) (c : BufRef) (m : AddrMap) (x : ℕ)
      → Absent k c m
      → Mapped p.allocators m
      → InUse c.1 (heap_of p.allocators c.0)
      → at_byte p.allocators c x ≡ true
      → mapped_byte p.allocators m x ≡ false
  Absent-byte k c [] x absent mapped i here = refl
  Absent-byte k c ((j, d) ∷ m) x absent mapped i here = ground (
    arith,
    share_none c d x absent.1 i mapped.0 here,
    Absent-byte k c m x absent.2 mapped.3 i here,
  )

  module _ (n : ℕ) (top : suc n ≡ size_max) where
    own_bytes :
        (r : AllocatorRef) (b : Ptr)
        → InUse b (heap_of p.allocators r)
        → cnt (at_byte p.allocators (r, b)) n ≡ ((heap_of p.allocators r).buf b).size
    own_bytes r b i =
        let fits = (v.valid r).linked.fits b i.0 in
        cnt-range ((heap_of p.allocators r).buf b).addr ((heap_of p.allocators r).buf b).size n (
          below_top ((heap_of p.allocators r).buf b).addr ((heap_of p.allocators r).buf b).size n
            size_max top fits)

    mapped_size-cnt :
        (m : AddrMap)
        → Mapped p.allocators m
        → mapped_size p.allocators m ≡ cnt (mapped_byte p.allocators m) n
    mapped_size-cnt [] mapped = sym (cnt_none n)
    mapped_size-cnt ((k, (r, b)) ∷ m) mapped =
        let both =
          cnt-or (at_byte p.allocators (r, b)) (mapped_byte p.allocators m) n
            (λ x. Absent-byte k (r, b) m x mapped.2 mapped.3 mapped.0) in
        ap (λ z. z + mapped_size p.allocators m) (sym (own_bytes r b mapped.0))
        ∙ ap (λ z. cnt (at_byte p.allocators (r, b)) n + z) (mapped_size-cnt m mapped.3)
        ∙ sym both

    mapped_size_le : mapped_size p.allocators p.addr_mem_buf_allocators ≤ n
    mapped_size_le =
        subst (λ z. z ≤ n) (sym (mapped_size-cnt p.addr_mem_buf_allocators v.mapped))
          (cnt_le (mapped_byte p.allocators p.addr_mem_buf_allocators) n)

  pub mapped_size-bounded : mapped_size p.allocators p.addr_mem_buf_allocators < size_max
  mapped_size-bounded =
      below_suc (mapped_size p.allocators p.addr_mem_buf_allocators) (size_max - 1) size_max refl
        (mapped_size_le (size_max - 1) refl)

  -- Two addresses that the map knows stand for buffers that share no byte.
  pub known-apart :
      (i j : ℕ) (c d : BufRef) (x : ℕ)
      → i ≢ j
      → find_addr i p.addr_mem_buf_allocators ≡ some c
      → find_addr j p.addr_mem_buf_allocators ≡ some d
      → at_byte p.allocators c x ≡ true
      → at_byte p.allocators d x ≡ false
  known-apart i j (r, b) (t, q) x ne at_i at_j =
      let f = find_addr-Mapped p.allocators i (r, b) p.addr_mem_buf_allocators v.mapped at_i in
      let g = find_addr-Mapped p.allocators j (t, q) p.addr_mem_buf_allocators v.mapped at_j in
      elim (Bool-cases (same_buf (r, b) (t, q))) [
        | inr other ↦ share_none (r, b) (t, q) x other f.0 g.0
        | inl one ↦
            let same_t : r ≡ t = same_ref-eq r t (ground arith) in
            let same_q : b ≡ q = ground arith in
            absurd (
              ne (
                sym f.1
                ∙ ap (λ y. ((heap_of p.allocators y).buf b).addr) same_t
                ∙ ap (λ z. ((heap_of p.allocators t).buf z).addr) same_q
                ∙ g.1))
      ]
