-- ===== src/Memory/Pool/Accounts.antt =====
-- What the address map of the pool stands for, and what it adds up to.
use ccbase.Base.{
  ℕ, ◌+◌, ◌≡◌, ◌≢◌, refl, sym, ◌∙◌, subst, inl, inr, Bool-cases, true, false, some, [], ◌∷◌, arith,
  ◌==◌,
}
use mathlib.Core.Option.{some-injective}
use ccbase.Memory.Heap.{Ptr, Heap}
use ccbase.Memory.Allocator.{MemBufAllocator}
use ccbase.Memory.Allocator.Frame.{InUse, Untouched}
use ccbase.Memory.Allocator.Advance.{Kept}
use ccbase.Memory.Pool.State.{
  AllocatorRef, tiny, stream, BufRef, AddrMap, same_ref, same_buf, find_addr, erase_addr,
}

abbrev pub Allocators : Type 0
Allocators = AllocatorRef → MemBufAllocator

abbrev pub heap_of : Allocators → AllocatorRef → Heap
heap_of s r = (s r).heap

-- Neither the address nor the buffer occurs in the map.
abbrev pub Absent : ℕ → BufRef → AddrMap → Type 0
Absent k b [] = Unit {0}
Absent k b ((j, c) ∷ m) = (k ≢ j) × (same_buf b c ≡ false) × Absent k b m

-- Each entry is a buffer in use at its address, and neither occurs twice.
abbrev pub Mapped : Allocators → AddrMap → Type 0
Mapped s [] = Unit {0}
Mapped s ((k, (r, b)) ∷ m) =
    InUse b (heap_of s r) × (((heap_of s r).buf b).addr ≡ k) × Absent k (r, b) m × Mapped s m

-- The sum of the sizes of the buffers in the map.
abbrev pub mapped_size : Allocators → AddrMap → ℕ
mapped_size s [] = 0
mapped_size s ((k, (r, b)) ∷ m) = ((heap_of s r).buf b).size + mapped_size s m

pub same_ref-eq : (r t : AllocatorRef) → same_ref r t ≡ true → r ≡ t
same_ref-eq tiny tiny e = refl
same_ref-eq tiny (stream l t) e = cc
same_ref-eq (stream k s) tiny e = cc
same_ref-eq (stream k s) (stream l t) e = ground arith

pub same_ref_refl : (r : AllocatorRef) → same_ref r r ≡ true
same_ref_refl tiny = refl
same_ref_refl (stream true s) = ground arith
same_ref_refl (stream false s) = ground arith

-- The entries of the map other than `c` are untouched between two states.
abbrev pub Spares : BufRef → Allocators → Allocators → Type 0
Spares c s t =
    (r : AllocatorRef) (b : Ptr)
    → same_buf c (r, b) ≡ false
    → InUse b (heap_of s r)
    → Untouched b (heap_of s r) (heap_of t r)

module _ (s t : Allocators) (c : BufRef) (spares : Spares c s t) where
  -- Entries that do not hold `c` stay as they are, and so does their sum.
  pub Mapped-frame :
      (k : ℕ) (m : AddrMap)
      → Absent k c m
      → Mapped s m
      → Mapped t m × (mapped_size t m ≡ mapped_size s m)
  Mapped-frame k [] absent mapped = (tt, refl)
  Mapped-frame k ((j, (r, b)) ∷ m) absent mapped =
      let rest = Mapped-frame k m absent.2 mapped.3 in
      let u = spares r b absent.1 mapped.0 in
      ((ground arith, ground arith, mapped.2, rest.0), omega arith)

module _ (s t : Allocators)
    (kept : (r : AllocatorRef) (b : Ptr)
      → InUse b (heap_of s r)
      → Kept b (heap_of s r) (heap_of t r)) where
  pub Mapped-kept : (m : AddrMap) → Mapped s m → Mapped t m × (mapped_size t m ≡ mapped_size s m)
  Mapped-kept [] mapped = (tt, refl)
  Mapped-kept ((j, (r, b)) ∷ m) mapped =
      let rest = Mapped-kept m mapped.3 in
      let u = kept r b mapped.0 in ((u.0, ground arith, mapped.2, rest.0), omega arith)

Absent-erase : (k j : ℕ) (c : BufRef) (m : AddrMap) → Absent j c m → Absent j c (erase_addr k m)
unfolding erase_addr
Absent-erase k j c [] absent = tt
Absent-erase k j c ((i, d) ∷ m) absent = ground (arith, Absent-erase k j c m)

Absent-find :
    (k j : ℕ) (c d : BufRef) (m : AddrMap)
    → Absent j d m
    → find_addr k m ≡ some c
    → (j ≢ k) × (same_buf d c ≡ false)
unfolding find_addr
Absent-find k j c d [] absent e = cc
Absent-find k j c d ((i, b) ∷ m) absent e = ground (arith, Absent-find k j c d m)

pub same_buf_symm : (c d : BufRef) → same_buf c d ≡ same_buf d c
same_buf_symm (tiny, p) (tiny, q) = ground arith
same_buf_symm (tiny, p) (stream l t, q) = refl
same_buf_symm (stream k s, p) (tiny, q) = refl
same_buf_symm (stream true s, p) (stream true t, q) = ground arith
same_buf_symm (stream true s, p) (stream false t, q) = refl
same_buf_symm (stream false s, p) (stream true t, q) = refl
same_buf_symm (stream false s, p) (stream false t, q) = ground arith

abbrev pub size_at : Allocators → BufRef → ℕ
size_at s (r, b) = ((heap_of s r).buf b).size

-- The buffer is in use at the address, the remaining map has neither any more, and the sum splits.
abbrev pub Found : Allocators → ℕ → BufRef → (whole rest : AddrMap) → Type 0
Found s k c whole rest =
    InUse c.1 (heap_of s c.0)
    × (((heap_of s c.0).buf c.1).addr ≡ k)
    × Mapped s rest
    × Absent k c rest
    × (mapped_size s whole ≡ size_at s c + mapped_size s rest)

-- An address that is found, and the map with its entry erased.
pub find_addr-Mapped :
    (s : Allocators) (k : ℕ) (c : BufRef) (m : AddrMap)
    → Mapped s m
    → find_addr k m ≡ some c
    → Found s k c m (erase_addr k m)
unfolding find_addr erase_addr
find_addr-Mapped s k c [] mapped e = cc
find_addr-Mapped s k c ((j, (r, b)) ∷ m) mapped e = elim (Bool-cases (j == k)) [
  | inl here ↦
      let same : j ≡ k = ground arith in
      let c_is : (r, b) ≡ c = some-injective _ _ (rw here at e) in
      let whole : AddrMap = (j, (r, b)) ∷ m in
      rw here (
        subst (λ x. Found s k x whole m) c_is
          (mapped.0, mapped.1 ∙ same, mapped.3, rw (← same) mapped.2, refl))
  | inr there ↦
      let found : find_addr k m ≡ some c = rw there at e in
      let ih = find_addr-Mapped s k c m mapped.3 found in
      let other = Absent-find k j c (r, b) m mapped.2 found in
      rw there (
        ih.0,
        ih.1,
        (mapped.0, mapped.1, Absent-erase k j (r, b) m mapped.2, ih.2),
        (λ x. other.0 (sym x), same_buf_symm c (r, b) ∙ other.1, ih.3),
        omega arith,
      )
]
