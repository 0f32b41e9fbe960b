-- ===== src/Memory/Pool/FreeAccounts.antt =====
-- About DoFreeTensorMem, the address map and the used size.
use ccbase.Base.{
  ℕ, ◌+◌, ◌<◌, ◌≡◌, refl, sym, ◌∙◌, subst, inl, inr, true, false, none, some, [], ◌∷◌, arith,
  Bool-cases, Option-cases, sub64, sub64_exact, size_max, if◌then◌else◌,
}
use ccbase.Memory.Types.{DynamicMemBufStatus, idle}
use ccbase.Memory.Event.{is_event_not_used}
use ccbase.Memory.Heap.{Ptr, MemBuf}
use ccbase.Memory.Allocator.{MemBufAllocator, free}
use ccbase.Memory.Allocator.Valid.{IsValid}
use ccbase.Memory.Allocator.Free.{free-IsValid}
use ccbase.Memory.Allocator.Frame.{InUse, Untouched, free-Untouched}
use ccbase.Memory.Allocator.Advance.{Kept}
use ccbase.Memory.Pool.State.{
  AllocatorRef, BufRef, AddrMap, Pool, same_ref, same_buf, find_addr, erase_addr,
}
use ccbase.Memory.Pool.Accounts.{
  Allocators, heap_of, Absent, Mapped, mapped_size, Found, find_addr-Mapped, same_ref-eq,
  same_ref_refl, Spares, Mapped-frame, Mapped-kept,
}
use ccbase.Memory.Pool.Free.{do_free_tensor_mem}

-- Every allocator is valid, the map holds buffers in use, and `used_size` is the sum of their sizes.
pub record PoolValid {D : Type 0} (p : Pool D) : Type 0 where
  pub allocators_valid : (r : AllocatorRef) → IsValid (p.allocators r)
  pub mapped : Mapped p.allocators p.addr_mem_buf_allocators
  pub counted : p.env.stat.used_size ≡ mapped_size p.allocators p.addr_mem_buf_allocators
  pub bounded : mapped_size p.allocators p.addr_mem_buf_allocators < size_max

abbrev pub with_allocator : Allocators → AllocatorRef → MemBufAllocator → Allocators
with_allocator s r a = λ t. if same_ref t r then a else s t

free-done :
    (b : Ptr) (t : DynamicMemBufStatus) (a : MemBufAllocator)
    → (free b t a).0 ≡ is_event_not_used (a.heap.buf b).event_base
unfolding free
free-done b t a = ground arith

module _ (s : Allocators) (r : AllocatorRef) (b : Ptr) where
  abbrev pub freed : MemBufAllocator
  freed = (free b idle (s r)).1

  freed-Untouched :
      (q : Ptr)
      → same_buf (r, b) (r, q) ≡ false
      → InUse q (heap_of s r)
      → Untouched q (heap_of s r) (heap_of (with_allocator s r freed) r)
  freed-Untouched q other u =
      rw (same_ref_refl r, heap_of)
        (free-Untouched idle (inl refl) b q (ground (arith, same_ref_refl r)) (s r) u)

  -- Only the freed buffer changes hands.
  pub free-Spares : Spares (r, b) s (with_allocator s r freed)
  free-Spares t q other u = elim (Bool-cases (same_ref t r)) [
    | inr no_ref ↦ rw (no_ref, heap_of) (u.0, refl, refl, refl)
    | inl one ↦
        let same : r ≡ t = sym (same_ref-eq t r one) in
        subst
          (λ x.
            same_buf (r, b) (x, q) ≡ false
            → InUse q (heap_of s x)
            → Untouched q (heap_of s x) (heap_of (with_allocator s r freed) x))
          same (freed-Untouched q) other u
  ]

-- The buffer that is freed waits for events instead: it stays in use.
free-Kept :
    (s : Allocators) (r : AllocatorRef) (b : Ptr)
    → is_event_not_used ((heap_of s r).buf b).event_base ≡ false
    → InUse b (heap_of s r)
    → Kept b (heap_of s r) (heap_of (with_allocator s r (freed s r b)) r)
unfolding free
free-Kept s r b waits u = ground (arith, same_ref_refl r)

free-Kept-all :
    (s : Allocators) (r : AllocatorRef) (b : Ptr)
    → is_event_not_used ((heap_of s r).buf b).event_base ≡ false
    → (t : AllocatorRef) (q : Ptr) → InUse q (heap_of s t)
    → Kept q (heap_of s t) (heap_of (with_allocator s r (freed s r b)) t)
free-Kept-all s r b waits t q u = elim (Bool-cases (same_buf (r, b) (t, q))) [
  | inr other ↦
      let w = free-Spares s r b t q other u in ((w.0, rw (w.3) u.1, rw (w.3) u.2), w.1, w.2)
  | inl one ↦
      let same_t : r ≡ t = same_ref-eq r t (ground arith) in
      let same_q : b ≡ q = ground arith in
      subst
        (λ x.
          (y : Ptr)
          → b ≡ y
          → InUse y (heap_of s x)
          → Kept y (heap_of s x) (heap_of (with_allocator s r (freed s r b)) x))
        same_t
        (λ y same i.
          subst
            (λ z.
              InUse z (heap_of s r)
              → Kept z (heap_of s r) (heap_of (with_allocator s r (freed s r b)) r))
            same (free-Kept s r b waits) i)
        q same_q u
]

module _ {D : Type 0} (p : Pool D) (v : PoolValid p) (addr : ℕ) (r : AllocatorRef) (b : Ptr)
    (e : find_addr addr p.addr_mem_buf_allocators ≡ some (r, b)) where
  abbrev found :
      Found p.allocators addr
        (r, b)
        p.addr_mem_buf_allocators
        (erase_addr addr p.addr_mem_buf_allocators)
  found = find_addr-Mapped p.allocators addr (r, b) p.addr_mem_buf_allocators v.mapped e

  freed-IsValid : IsValid (freed p.allocators r b)
  freed-IsValid =
      free-IsValid idle b (p.allocators r) (inl refl) (v.allocators_valid r) found.0.0 found.0.1
        found.0.2

  with_freed-IsValid :
      (t : AllocatorRef) → IsValid (with_allocator p.allocators r (freed p.allocators r b) t)
  with_freed-IsValid t = elim (Bool-cases (same_ref t r)) [
    | inl one ↦ rw one freed-IsValid
    | inr other ↦ rw other (v.allocators_valid t)
  ]

  abbrev target : MemBuf
  target = (heap_of p.allocators r).buf b

  -- The pool without the buffer, and with the size taken off.
  abbrev pub without : Pool D
  without = record p {
    env = record (p.env) {
      stat = record (p.env.stat) { used_size = sub64 p.env.stat.used_size target.size };
    };
    allocators = with_allocator p.allocators r (freed p.allocators r b);
    addr_mem_buf_allocators = erase_addr addr p.addr_mem_buf_allocators;
  }

  -- The pool with the buffer waiting for its events.
  abbrev pub waiting : Pool D
  waiting = record p { allocators = with_allocator p.allocators r (freed p.allocators r b) }

  pub free-without :
      is_event_not_used target.event_base ≡ true → do_free_tensor_mem addr p ≡ (true, without)
  unfolding do_free_tensor_mem
  free-without quiet = rw (e, do_free_tensor_mem, free-done b idle (p.allocators r), quiet)

  pub free-waiting :
      is_event_not_used target.event_base ≡ false → do_free_tensor_mem addr p ≡ (false, waiting)
  unfolding do_free_tensor_mem
  free-waiting waits = rw (e, do_free_tensor_mem, free-done b idle (p.allocators r), waits)

  without-PoolValid : PoolValid without
  without-PoolValid =
      let f =
        Mapped-frame p.allocators (with_allocator p.allocators r (freed p.allocators r b)) (r, b)
          (free-Spares p.allocators r b) addr (erase_addr addr p.addr_mem_buf_allocators) found.3
          found.2 in
      record {
        allocators_valid = with_freed-IsValid;
        mapped = f.0;
        counted = omega (
          arith,
          f.1,
          found.4,
          v.counted,
          v.bounded,
          sub64_exact p.env.stat.used_size target.size,
        );
        bounded = omega (arith, f.1, found.4, v.bounded);
      }

  waiting-PoolValid : is_event_not_used target.event_base ≡ false → PoolValid waiting
  waiting-PoolValid waits =
      let f =
        Mapped-kept p.allocators (with_allocator p.allocators r (freed p.allocators r b))
          (free-Kept-all p.allocators r b waits) p.addr_mem_buf_allocators v.mapped in
      record {
        allocators_valid = with_freed-IsValid;
        mapped = f.0;
        counted = v.counted ∙ sym f.1;
        bounded = omega (arith, f.1, v.bounded);
      }

  found-PoolValid : PoolValid (do_free_tensor_mem addr p).1
  found-PoolValid = elim (Bool-cases (is_event_not_used target.event_base)) [
    | inl quiet ↦ rw (free-without quiet) without-PoolValid
    | inr waits ↦ rw (free-waiting waits) (waiting-PoolValid waits)
  ]

-- In a pool whose allocators are valid, whose address map holds buffers in use, and whose used
-- size is the sum of their sizes, below 2^64, all this still holds after an address was freed, whether the
-- address is known, unknown or waited for.
pub do_free_tensor_mem-PoolValid :
    {D : Type 0} (p : Pool D) (addr : ℕ) → PoolValid p → PoolValid (do_free_tensor_mem addr p).1
unfolding do_free_tensor_mem
do_free_tensor_mem-PoolValid p addr v =
    elim (Option-cases (find_addr addr p.addr_mem_buf_allocators)) [
      | inl unknown ↦ rw (unknown, do_free_tensor_mem) v
      | inr ((r, b), e) ↦ found-PoolValid p v addr r b e
    ]

find-Absent : (k : ℕ) (c : BufRef) (m : AddrMap) → Absent k c m → find_addr k m ≡ none
unfolding find_addr
find-Absent k c [] a = refl
find-Absent k c (x ∷ m) a = ground (arith, find-Absent k c m)

-- In a pool whose allocators are valid, whose address map holds buffers in use, and whose used size
-- is the sum of their sizes, below 2^64, freeing a known address whose buffer no event holds answers
-- true: the address leaves the map, and the used size goes down by exactly the size of the buffer.
pub do_free_tensor_mem-frees :
    {D : Type 0} (p : Pool D) (addr : ℕ) (r : AllocatorRef) (b : Ptr)
    → PoolValid p
    → find_addr addr p.addr_mem_buf_allocators ≡ some (r, b)
    → is_event_not_used ((p.allocators r).heap.buf b).event_base ≡ true
    → let q = do_free_tensor_mem addr p in
      (q.0 ≡ true)
      × (find_addr addr q.1.addr_mem_buf_allocators ≡ none)
      × (q.1.env.stat.used_size + ((p.allocators r).heap.buf b).size ≡ p.env.stat.used_size)
do_free_tensor_mem-frees p addr r b v e quiet =
    let f = found p v addr r b e in
    let w = without-PoolValid p v addr r b e in
    rw (free-without p v addr r b e quiet) (
      refl,
      find-Absent addr (r, b) _ f.3,
      omega (
        arith,
        f.4,
        v.counted,
        v.bounded,
        sub64_exact p.env.stat.used_size ((p.allocators r).heap.buf b).size,
      ),
    )
