-- ===== src/Memory/Allocator/Moves.antt =====
-- A buffer moves between a set, the hand of an operation, and its user.
use ccbase.Base.{◌≡◌, true, false, List, arith, has}
use ccbase.Memory.Types.{DynamicMemBufStatus, idle, eager_free, is_status}
use ccbase.Memory.Heap.{Ptr, null, Heap, set_status}
use ccbase.Memory.Heap.Linked.{IsLinked}
use ccbase.Memory.BufSet.{emplace, erase_at}
use ccbase.Memory.BufSet.Order.{Sorted, SameKeys, Sorted-congr, emplace-Sorted, erase_at-Sorted}
use ccbase.Memory.BufSet.Members.{has-emplace, has-erase_at}
use ccbase.Memory.Allocator.{MemBufAllocator}
use ccbase.Memory.Allocator.Valid.{Holds, IsValidBut, IsValid, Unique-linked, set_status-IsLinked}

module _ {h : Heap} (v : IsLinked h) where
  -- Where a buffer of status `s` in hand is entered, the set is whole again.
  pub emplace-Holds :
      (s : DynamicMemBufStatus) (p : Ptr) (xs : List Ptr)
      → h.live p ≡ true
      → is_status (h.buf p).status s ≡ true
      → Holds s p h xs
      → Holds s null h (emplace h p xs)
  emplace-Holds s p xs l e held q = ground (
    arith,
    has-emplace h p xs (Unique-linked v p xs l (λ x m. ground (arith, held x))) q,
    held q,
    v.null_dead,
  )

  -- A set of another status is whole without it.
  pub other-Holds :
      (s : DynamicMemBufStatus) (p : Ptr) (xs : List Ptr)
      → is_status (h.buf p).status s ≡ false
      → Holds s p h xs
      → Holds s null h xs
  other-Holds s p xs e held q = ground (arith, held q, v.null_dead)

  -- A member taken out is in hand.
  pub erase_at-Holds :
      (s : DynamicMemBufStatus) (p : Ptr) (xs : List Ptr)
      → Sorted h xs
      → Holds s null h xs
      → Holds s p h (erase_at p xs)
  erase_at-Holds s p xs o held q = ground (arith, has-erase_at h p xs o q, held q, v.null_dead)

  -- A buffer that is in no set may be taken in hand.
  pub hand-Holds :
      (s : DynamicMemBufStatus) (p : Ptr) (xs : List Ptr)
      → is_status (h.buf p).status s ≡ false
      → Holds s null h xs
      → Holds s p h xs
  hand-Holds s p xs e held q = ground (arith, held q, v.null_dead)

-- The status of the buffer in hand does not matter.
pub status-Holds :
    (h : Heap) (s t : DynamicMemBufStatus) (p : Ptr) (xs : List Ptr)
    → Holds s p h xs
    → Holds s p (set_status h p t) xs
status-Holds h s t p xs held q = ground (arith, held q)

pub status-SameKeys :
    (h : Heap) (p : Ptr) (t : DynamicMemBufStatus) (xs : List Ptr)
    → SameKeys h (set_status h p t) xs
status-SameKeys h p t xs q m = ground arith

module _ (a : MemBufAllocator) (p : Ptr) where
  pub set_status-IsValidBut :
      (s : DynamicMemBufStatus)
      → IsValidBut p a
      → IsValidBut p (record a { heap = set_status a.heap p s })
  set_status-IsValidBut s v =
      let g : Heap = set_status a.heap p s in
      record {
        linked = set_status-IsLinked v.linked p s;
        frees = status-Holds a.heap idle s p a.free_mem_bufs v.frees;
        eagers = status-Holds a.heap eager_free s p a.eager_free_mem_bufs v.eagers;
        free_sorted =
            Sorted-congr a.heap g a.free_mem_bufs (status-SameKeys a.heap p s _) v.free_sorted;
        eager_sorted =
            Sorted-congr a.heap g a.eager_free_mem_bufs (status-SameKeys a.heap p s _)
              v.eager_sorted;
      }

  -- A buffer in use is in no set.
  pub hand-IsValidBut :
      is_status (a.heap.buf p).status idle ≡ false
      → is_status (a.heap.buf p).status eager_free ≡ false
      → IsValid a
      → IsValidBut p a
  hand-IsValidBut i e v = record {
    linked = v.linked;
    frees = hand-Holds v.linked idle p a.free_mem_bufs i v.frees;
    eagers = hand-Holds v.linked eager_free p a.eager_free_mem_bufs e v.eagers;
    free_sorted = v.free_sorted;
    eager_sorted = v.eager_sorted;
  }

  -- A buffer that is handed to a user is in no set.
  pub drop-IsValid :
      is_status (a.heap.buf p).status idle ≡ false
      → is_status (a.heap.buf p).status eager_free ≡ false
      → IsValidBut p a
      → IsValid a
  drop-IsValid i e v = record {
    linked = v.linked;
    frees = other-Holds v.linked idle p a.free_mem_bufs i v.frees;
    eagers = other-Holds v.linked eager_free p a.eager_free_mem_bufs e v.eagers;
    free_sorted = v.free_sorted;
    eager_sorted = v.eager_sorted;
  }

  pub take_free-IsValidBut :
      IsValid a
      → has p a.free_mem_bufs ≡ true
      → IsValidBut p (record a { free_mem_bufs = erase_at p a.free_mem_bufs })
  take_free-IsValidBut v m = record {
    linked = v.linked;
    frees = erase_at-Holds v.linked idle p a.free_mem_bufs v.free_sorted v.frees;
    eagers =
        hand-Holds v.linked eager_free p a.eager_free_mem_bufs (ground (arith, v.frees p)) v.eagers;
    free_sorted = erase_at-Sorted a.heap p a.free_mem_bufs v.free_sorted;
    eager_sorted = v.eager_sorted;
  }

  pub take_eager-IsValidBut :
      IsValid a
      → has p a.eager_free_mem_bufs ≡ true
      → IsValidBut p (record a { eager_free_mem_bufs = erase_at p a.eager_free_mem_bufs })
  take_eager-IsValidBut v m = record {
    linked = v.linked;
    frees = hand-Holds v.linked idle p a.free_mem_bufs (ground (arith, v.eagers p)) v.frees;
    eagers = erase_at-Holds v.linked eager_free p a.eager_free_mem_bufs v.eager_sorted v.eagers;
    free_sorted = v.free_sorted;
    eager_sorted = erase_at-Sorted a.heap p a.eager_free_mem_bufs v.eager_sorted;
  }

  pub emplace_free-IsValid :
      IsValidBut p a
      → a.heap.live p ≡ true
      → is_status (a.heap.buf p).status idle ≡ true
      → IsValid (record a { free_mem_bufs = emplace a.heap p a.free_mem_bufs })
  emplace_free-IsValid v l s = record {
    linked = v.linked;
    frees = emplace-Holds v.linked idle p a.free_mem_bufs l s v.frees;
    eagers = other-Holds v.linked eager_free p a.eager_free_mem_bufs (ground arith) v.eagers;
    free_sorted = emplace-Sorted a.heap p a.free_mem_bufs v.free_sorted;
    eager_sorted = v.eager_sorted;
  }

  pub emplace_eager-IsValid :
      IsValidBut p a
      → a.heap.live p ≡ true
      → is_status (a.heap.buf p).status eager_free ≡ true
      → IsValid (record a { eager_free_mem_bufs = emplace a.heap p a.eager_free_mem_bufs })
  emplace_eager-IsValid v l s = record {
    linked = v.linked;
    frees = other-Holds v.linked idle p a.free_mem_bufs (ground arith) v.frees;
    eagers = emplace-Holds v.linked eager_free p a.eager_free_mem_bufs l s v.eagers;
    free_sorted = v.free_sorted;
    eager_sorted = emplace-Sorted a.heap p a.eager_free_mem_bufs v.eager_sorted;
  }
