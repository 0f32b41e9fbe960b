-- ===== src/Memory/Heap/AbsorbNext.antt =====
-- Merging a buffer with the next one, as MemBufAllocator::Free does.
use ccbase.Base.{◌+◌, ◌<◌, ◌≡◌, ◌≢◌, true, false, arith, size_max}
use ccbase.Memory.Heap.{Ptr, null, Heap, absorb_next}
use ccbase.Memory.Heap.Linked.{IsLinked, Apart}

module _ (h : Heap) (v : IsLinked h) (b : Ptr) (alive : h.live b ≡ true)
    (some_next : (h.buf b).next ≢ null) where
  abbrev h' : Heap
  h' = absorb_next h b

  abbrev a : Ptr
  a = (h.buf b).next

  next-null_dead : h'.live null ≡ false
  unfolding absorb_next
  next-null_dead = ground (arith, v.null_dead)

  next-fresh_pos : 0 < h'.fresh
  unfolding absorb_next
  next-fresh_pos = ground (arith, v.fresh_pos)

  next-below : (p : Ptr) → h'.live p ≡ true → p < h'.fresh
  unfolding absorb_next
  next-below p l = ground (arith, v.below p)

  next-sized : (p : Ptr) → h'.live p ≡ true → 0 < (h'.buf p).size
  unfolding absorb_next
  next-sized p l = ground (arith, v.sized p)

  next-fits : (p : Ptr) → h'.live p ≡ true → (h'.buf p).addr + (h'.buf p).size < size_max
  unfolding absorb_next
  next-fits p l = ground (arith, v.fits p, v.fits a, v.next_live b, v.touch b)

  next-next_live :
      (p : Ptr) → h'.live p ≡ true → (h'.buf p).next ≢ null → h'.live (h'.buf p).next ≡ true
  unfolding absorb_next
  next-next_live p l n = ground (
    arith,
    v.next_live p,
    v.next_prev p,
    v.next_live b,
    v.next_prev b,
    v.next_live a,
    v.next_prev a,
    v.touch a,
    v.touch b,
    v.sized a,
    v.sized b,
    v.touch (h.buf a).next,
    v.sized (h.buf a).next,
  )

  next-prev_live :
      (p : Ptr) → h'.live p ≡ true → (h'.buf p).prev ≢ null → h'.live (h'.buf p).prev ≡ true
  unfolding absorb_next
  next-prev_live p l n = ground (
    arith,
    v.prev_live p,
    v.prev_next p,
    v.next_live b,
    v.next_prev b,
    v.next_live a,
    v.next_prev a,
    v.touch b,
    v.touch a,
    v.sized a,
    v.sized b,
  )

  next-next_prev :
      (p : Ptr) → h'.live p ≡ true → (h'.buf p).next ≢ null → (h'.buf (h'.buf p).next).prev ≡ p
  unfolding absorb_next
  next-next_prev p l n = ground (
    arith,
    v.next_live p,
    v.next_prev p,
    v.next_live b,
    v.next_prev b,
    v.next_live a,
    v.next_prev a,
    v.prev_live b,
    v.prev_next b,
  )

  next-prev_next :
      (p : Ptr) → h'.live p ≡ true → (h'.buf p).prev ≢ null → (h'.buf (h'.buf p).prev).next ≡ p
  unfolding absorb_next
  next-prev_next p l n = ground (
    arith,
    v.prev_live p,
    v.prev_next p,
    v.next_live b,
    v.next_prev b,
    v.next_live a,
    v.next_prev a,
  )

  next-touch :
      (p : Ptr)
      → h'.live p ≡ true
      → (h'.buf p).next ≢ null
      → (h'.buf (h'.buf p).next).addr ≡ (h'.buf p).addr + (h'.buf p).size
  unfolding absorb_next
  next-touch p l n = ground (
    arith,
    v.next_live p,
    v.next_prev p,
    v.touch p,
    v.touch b,
    v.touch a,
    v.prev_next b,
    v.prev_live b,
    v.next_live b,
    v.next_prev b,
    v.next_live a,
    v.next_prev a,
    v.touch a,
  )

  next-Apart :
      (p q : Ptr) → h'.live p ≡ true → h'.live q ≡ true → p ≢ q → Apart (h'.buf p) (h'.buf q)
  unfolding absorb_next
  next-Apart p q l m n = ground (
    arith,
    v.apart p q,
    v.apart p a,
    v.apart a q,
    v.next_live b,
    v.next_prev b,
    v.touch b,
    v.sized p,
    v.sized q,
    v.sized a,
    v.sized b,
  )

  -- In a well-formed heap, a live buffer that has a next one may take its bytes, and the heap is
  -- well-formed again.
  pub absorb_next-IsLinked : IsLinked h'
  unfolding absorb_next
  absorb_next-IsLinked = record {
    null_dead = next-null_dead;
    fresh_pos = next-fresh_pos;
    below = next-below;
    sized = next-sized;
    fits = next-fits;
    next_live = next-next_live;
    prev_live = next-prev_live;
    next_prev = next-next_prev;
    prev_next = next-prev_next;
    touch = next-touch;
    apart = next-Apart;
  }
