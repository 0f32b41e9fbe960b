-- ===== src/Memory/Heap/AbsorbPrev.antt =====
-- Merging a buffer with the previous one, as MemBufAllocator::Free does.
use ccbase.Base.{◌+◌, ◌<◌, ◌≡◌, ◌≢◌, true, false, arith, size_max}
use ccbase.Memory.Heap.{Ptr, null, Heap, absorb_prev}
use ccbase.Memory.Heap.Linked.{IsLinked, Apart}

module _ (h : Heap) (v : IsLinked h) (b : Ptr) (alive : h.live b ≡ true)
    (some_prev : (h.buf b).prev ≢ null) where
  abbrev h' : Heap
  h' = absorb_prev h b

  abbrev a : Ptr
  a = (h.buf b).prev

  prev-null_dead : h'.live null ≡ false
  unfolding absorb_prev
  prev-null_dead = ground (arith, v.null_dead)

  prev-fresh_pos : 0 < h'.fresh
  unfolding absorb_prev
  prev-fresh_pos = ground (arith, v.fresh_pos)

  prev-below : (p : Ptr) → h'.live p ≡ true → p < h'.fresh
  unfolding absorb_prev
  prev-below p l = ground (arith, v.below p)

  prev-sized : (p : Ptr) → h'.live p ≡ true → 0 < (h'.buf p).size
  unfolding absorb_prev
  prev-sized p l = ground (arith, v.sized p)

  prev-fits : (p : Ptr) → h'.live p ≡ true → (h'.buf p).addr + (h'.buf p).size < size_max
  unfolding absorb_prev
  prev-fits p l = ground (arith, v.fits p, v.fits b, v.prev_live b, v.prev_next b, v.touch a)

  prev-next_live :
      (p : Ptr) → h'.live p ≡ true → (h'.buf p).next ≢ null → h'.live (h'.buf p).next ≡ true
  unfolding absorb_prev
  prev-next_live p l n = ground (arith, v.next_live p, v.next_prev p, v.prev_live b, v.prev_next b)

  prev-prev_live :
      (p : Ptr) → h'.live p ≡ true → (h'.buf p).prev ≢ null → h'.live (h'.buf p).prev ≡ true
  unfolding absorb_prev
  prev-prev_live p l n = ground (
    arith,
    v.prev_live p,
    v.prev_next p,
    v.prev_live b,
    v.prev_next b,
    v.prev_live a,
    v.prev_next a,
    v.touch a,
    v.touch (h.buf a).prev,
    v.sized a,
    v.sized b,
  )

  prev-next_prev :
      (p : Ptr) → h'.live p ≡ true → (h'.buf p).next ≢ null → (h'.buf (h'.buf p).next).prev ≡ p
  unfolding absorb_prev
  prev-next_prev p l n = ground (
    arith,
    v.next_live p,
    v.next_prev p,
    v.prev_live b,
    v.prev_next b,
    v.prev_live a,
    v.prev_next a,
    v.next_live b,
    v.next_prev b,
  )

  prev-prev_next :
      (p : Ptr) → h'.live p ≡ true → (h'.buf p).prev ≢ null → (h'.buf (h'.buf p).prev).next ≡ p
  unfolding absorb_prev
  prev-prev_next p l n = ground (
    arith,
    v.prev_live p,
    v.prev_next p,
    v.prev_live b,
    v.prev_next b,
    v.prev_live a,
    v.prev_next a,
  )

  prev-touch :
      (p : Ptr)
      → h'.live p ≡ true
      → (h'.buf p).next ≢ null
      → (h'.buf (h'.buf p).next).addr ≡ (h'.buf p).addr + (h'.buf p).size
  unfolding absorb_prev
  prev-touch p l n = ground (
    arith,
    v.next_live p,
    v.next_prev p,
    v.touch p,
    v.touch a,
    v.touch b,
    v.next_prev b,
    v.next_live b,
    v.prev_live b,
    v.prev_next b,
    v.prev_live a,
    v.prev_next a,
    v.touch (h.buf a).prev,
  )

  prev-Apart :
      (p q : Ptr) → h'.live p ≡ true → h'.live q ≡ true → p ≢ q → Apart (h'.buf p) (h'.buf q)
  unfolding absorb_prev
  prev-Apart p q l m n = ground (
    arith,
    v.apart p q,
    v.apart p a,
    v.apart a q,
    v.prev_live b,
    v.prev_next b,
    v.touch a,
    v.sized p,
    v.sized q,
    v.sized a,
    v.sized b,
  )

  -- In a well-formed heap, a live buffer that has a previous one may take its place and bytes,
  -- and the heap is well-formed again.
  pub absorb_prev-IsLinked : IsLinked h'
  unfolding absorb_prev
  absorb_prev-IsLinked = record {
    null_dead = prev-null_dead;
    fresh_pos = prev-fresh_pos;
    below = prev-below;
    sized = prev-sized;
    fits = prev-fits;
    next_live = prev-next_live;
    prev_live = prev-prev_live;
    next_prev = prev-next_prev;
    prev_next = prev-prev_next;
    touch = prev-touch;
    apart = prev-Apart;
  }
