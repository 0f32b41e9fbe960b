-- ===== src/Memory/Allocator/Valid.antt =====
-- The invariant of an allocator, and the moves of a buffer between the sets and its user.
use ccbase.Base.{◌≡◌, ◌⊎◌, true, not, ◌&&◌, List, arith, has, ◌==◌}
use ccbase.Memory.Types.{DynamicMemBufStatus, idle, eager_free, is_status}
use ccbase.Memory.Heap.{Ptr, null, Heap, set_status}
use ccbase.Memory.Heap.Linked.{IsLinked}
use ccbase.Memory.BufSet.Order.{Sorted}
use ccbase.Memory.BufSet.Members.{Unique}
use ccbase.Memory.Allocator.{MemBufAllocator}

-- The set holds exactly the live buffers of this status, but for the buffer `x` that is in hand.
abbrev pub Holds : DynamicMemBufStatus → Ptr → Heap → List Ptr → Type 0
Holds s x h xs = (p : Ptr) → has p xs ≡ (h.live p && (not (p == x) && is_status (h.buf p).status s))

-- The lists are linked, and the two sets are ordered and hold the idle and the eagerly freed buffers.
pub record IsValidBut (x : Ptr) (a : MemBufAllocator) : Type 0 where
  pub linked : IsLinked a.heap
  pub frees : Holds idle x a.heap a.free_mem_bufs
  pub eagers : Holds eager_free x a.heap a.eager_free_mem_bufs
  pub free_sorted : Sorted a.heap a.free_mem_bufs
  pub eager_sorted : Sorted a.heap a.eager_free_mem_bufs

-- No buffer is in hand.
abbrev pub IsValid : MemBufAllocator → Type 0
IsValid = IsValidBut null

-- The buffer is idle or eagerly freed.
abbrev pub IsSpare : MemBufAllocator → Ptr → Type 0
IsSpare a c =
    (is_status (a.heap.buf c).status idle ≡ true)
    ⊎ (is_status (a.heap.buf c).status eager_free ≡ true)

module _ {h : Heap} (v : IsLinked h) where
  pub Unique-linked :
      (p : Ptr) (xs : List Ptr)
      → h.live p ≡ true
      → ((x : Ptr) → has x xs ≡ true → h.live x ≡ true)
      → Unique h p xs
  Unique-linked p xs l all x m n = ground (arith, v.apart x p, all x m, v.sized x, v.sized p)

  -- The links say nothing about statuses.
  pub set_status-IsLinked : (p : Ptr) (s : DynamicMemBufStatus) → IsLinked (set_status h p s)
  set_status-IsLinked p s = record {
    null_dead = v.null_dead;
    fresh_pos = v.fresh_pos;
    below = v.below;
    sized = λ q l. ground (arith, v.sized q);
    fits = λ q l. ground (arith, v.fits q);
    next_live = λ q l n. ground (arith, v.next_live q);
    prev_live = λ q l n. ground (arith, v.prev_live q);
    next_prev = λ q l n. ground (arith, v.next_prev q);
    prev_next = λ q l n. ground (arith, v.prev_next q);
    touch = λ q l n. ground (arith, v.touch q);
    apart = λ q r l m n. ground (arith, v.apart q r);
  }
