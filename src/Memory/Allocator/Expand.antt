-- ===== src/Memory/Allocator/Expand.antt =====
-- About MallocExpandBlock and Malloc, where a new block from the device joins the buffers.
use ccbase.Base.{
  ℕ, ◌+◌, ◌≤◌, ◌<◌, ◌≡◌, ◌⊎◌, inl, inr, true, false, some, List, [], ◌∷◌, ◌++◌, arith, Bool-cases,
  Option-cases, List-cases, size_max, ltb, length, if◌then◌else◌,
}
use ccbase.Memory.Types.{DynamicMemBufStatus, idle, eager_free, is_status}
use ccbase.Memory.Stat.{MemBlock}
use ccbase.Memory.Heap.{Ptr, null, mem_buf, Heap, new}
use ccbase.Memory.Heap.Linked.{IsLinked}
use ccbase.Memory.BufSet.Order.{SameKeys, Sorted-congr}
use ccbase.Memory.Allocator.{
  MemBufAllocator, put_by_status, Hooks, Env, place_block, malloc_expand_block, malloc,
}
use ccbase.Memory.Allocator.Valid.{Holds, IsSpare, IsValidBut, IsValid}
use ccbase.Memory.Allocator.Moves.{emplace_free-IsValid, emplace_eager-IsValid}
use ccbase.Memory.Allocator.Malloc.{Serves, malloc_candidate-Valid, map_and_split-Valid}

-- What the device promises of a block: it is not empty, it lies in the address space, and it
-- overlaps no buffer that the allocator has.
pub record Granted (h : Heap) (b : MemBlock) : Type 0 where
  pub sized : 0 < b.size
  pub fits : b.addr + b.size < size_max
  pub clear :
      (p : Ptr)
      → h.live p ≡ true
      → ((h.buf p).addr + (h.buf p).size ≤ b.addr) ⊎ (b.addr + b.size ≤ (h.buf p).addr)

module _ (h : Heap) (v : IsLinked h) (b : MemBlock) (grant : Granted h b) (stream index : ℕ)
    (s : DynamicMemBufStatus) where
  abbrev g : Heap
  g = new h (mem_buf b.size b.addr stream index s)

  new-IsLinked : IsLinked g
  new-IsLinked = record {
    null_dead = ground (arith, v.null_dead, v.fresh_pos);
    fresh_pos = omega arith;
    below = λ p l. ground (arith, v.below p);
    sized = λ p l. ground (arith, v.sized p, grant.sized);
    fits = λ p l. ground (arith, v.fits p, grant.fits);
    next_live = λ p l n. ground (arith, v.next_live p);
    prev_live = λ p l n. ground (arith, v.prev_live p);
    next_prev = λ p l n. ground (arith, v.next_live p, v.next_prev p, v.below (h.buf p).next);
    prev_next = λ p l n. ground (arith, v.prev_live p, v.prev_next p, v.below (h.buf p).prev);
    touch = λ p l n. ground (arith, v.next_live p, v.touch p, v.below (h.buf p).next);
    apart = λ p q l m n. ground (arith, v.apart p q, grant.clear p, grant.clear q);
  }

  new-Holds : (t : DynamicMemBufStatus) (xs : List Ptr) → Holds t null h xs → Holds t h.fresh g xs
  new-Holds t xs held q = ground (arith, held q, v.below q, v.null_dead)

  new-SameKeys : (t : DynamicMemBufStatus) (xs : List Ptr) → Holds t null h xs → SameKeys h g xs
  new-SameKeys t xs held q m = ground (arith, held q, v.below q)

put_by_status-IsValid :
    (c : Ptr) (a : MemBufAllocator)
    → IsValidBut c a
    → a.heap.live c ≡ true
    → IsSpare a c
    → IsValid (put_by_status c a)
unfolding put_by_status
put_by_status-IsValid c a v l (inl e) = rw e (emplace_free-IsValid a c v l e)
put_by_status-IsValid c a v l (inr e) =
    let i : is_status (a.heap.buf c).status idle ≡ false = ground arith in
    rw i (emplace_eager-IsValid a c v l e)

module _ {D : Type 0} (hooks : Hooks D) (a : MemBufAllocator) (v : IsValid a) (size : ℕ)
    (pos : 0 < size) where
  abbrev pub block_status : DynamicMemBufStatus
  block_status = if a.enable_eager_free then eager_free else idle

  abbrev pub expanded : MemBlock → MemBufAllocator
  expanded b = record a {
    heap = new a.heap (mem_buf b.size b.addr b.stream_id (length a.mem_blocks) block_status);
    mem_blocks = a.mem_blocks ++ b ∷ [];
  }

  pub expanded-IsValidBut : (b : MemBlock) → Granted a.heap b → IsValidBut a.heap.fresh (expanded b)
  expanded-IsValidBut b grant =
      let same : (t : DynamicMemBufStatus) (xs : List Ptr)
          → Holds t null a.heap xs
          → SameKeys a.heap (expanded b).heap xs =
        new-SameKeys a.heap v.linked b grant b.stream_id (length a.mem_blocks) block_status in
      record {
        linked =
            new-IsLinked a.heap v.linked b grant b.stream_id (length a.mem_blocks) block_status;
        frees =
            new-Holds a.heap v.linked b grant b.stream_id (length a.mem_blocks) block_status idle _
              v.frees;
        eagers =
            new-Holds a.heap v.linked b grant b.stream_id (length a.mem_blocks) block_status
              eager_free _ v.eagers;
        free_sorted = Sorted-congr a.heap (expanded b).heap _ (same idle _ v.frees) v.free_sorted;
        eager_sorted =
            Sorted-congr a.heap (expanded b).heap _ (same eager_free _ v.eagers) v.eager_sorted;
      }

  expanded-IsSpare : (b : MemBlock) → IsSpare (expanded b) a.heap.fresh
  expanded-IsSpare b = elim (Bool-cases a.enable_eager_free) [
    | inl e ↦ inr (ground arith)
    | inr e ↦ inl (ground arith)
  ]

  place_block-Valid :
      (b : MemBlock) (e : Env D)
      → Granted a.heap b
      → IsValid (place_block hooks b size a e).1
        × Serves size (place_block hooks b size a e).1 (place_block hooks b size a e).0
  unfolding place_block
  place_block-Valid b e grant = elim (Bool-cases (ltb b.size size)) [
    | inl small ↦ rw small (
      put_by_status-IsValid a.heap.fresh (expanded b) (expanded-IsValidBut b grant) (ground arith)
          (expanded-IsSpare b),
      tt,
    )
    | inr large ↦ rw large (
        map_and_split-Valid hooks (expanded b) a.heap.fresh (expanded-IsValidBut b grant)
          (ground arith) size pos (ground arith) (expanded-IsSpare b) e)
  ]

  -- Under the conditions of `malloc-Valid` (a valid allocator, a positive size, a device that
  -- grants only sound blocks), the allocator is valid after `MallocExpandBlock`, also where the
  -- device grants nothing or too little, and a buffer that is returned is live, in use, and less
  -- than 512 bytes larger than the request.
  pub malloc_expand_block-Valid :
      (e : Env D)
      → ((b : MemBlock) → (hooks.mem_block_expander size e).0 ≡ some b → Granted a.heap b)
      → IsValid (malloc_expand_block hooks size a e).1
        × Serves size (malloc_expand_block hooks size a e).1 (malloc_expand_block hooks size a e).0
  unfolding malloc_expand_block
  malloc_expand_block-Valid e grants = elim (Option-cases (hooks.mem_block_expander size e).0) [
    | inl nothing ↦ rw (nothing, malloc_expand_block) (v, tt)
    | inr (b, got) ↦ rw (got, malloc_expand_block) (place_block-Valid b _ (grants b got))
  ]

  -- For a valid allocator, a positive size, and a device that grants only blocks that are not
  -- empty, fit the address space and overlap no buffer: after `Malloc` the allocator is valid,
  -- and a buffer that it returns is live, in use, at least as large as the request, and larger by
  -- less than 512 bytes.
  pub malloc-Valid :
      (e : Env D)
      → ((b : MemBlock) → (hooks.mem_block_expander size e).0 ≡ some b → Granted a.heap b)
      → IsValid (malloc hooks size a e).1
        × Serves size (malloc hooks size a e).1 (malloc hooks size a e).0
  unfolding malloc
  malloc-Valid e grants = elim (List-cases a.mem_blocks) [
    | inl empty ↦ rw (empty, malloc) (malloc_expand_block-Valid e grants)
    | inr (b, bs, full) ↦ rw (full, malloc) (malloc_candidate-Valid hooks a v size pos e)
  ]
