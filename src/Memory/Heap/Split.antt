-- ===== src/Memory/Heap/Split.antt =====
-- Splitting a buffer, as MapAndSplitMemBuf does.
use ccbase.Base.{ℕ, ◌+◌, ◌<◌, ◌≡◌, ◌≢◌, true, false, arith, size_max}
use ccbase.Memory.Heap.{Ptr, null, Heap, split}
use ccbase.Memory.Heap.Linked.{IsLinked, Apart}

module _ (h : Heap) (v : IsLinked h) (c : Ptr) (alive : h.live c ≡ true) (size remaining : ℕ)
    (pos : 0 < size) (more : 0 < remaining) (parts : size + remaining ≡ (h.buf c).size) where
  abbrev h' : Heap
  h' = split h c size remaining

  split-null_dead : h'.live null ≡ false
  unfolding split
  split-null_dead = ground (arith, v.null_dead, v.fresh_pos)

  split-fresh_pos : 0 < h'.fresh
  unfolding split
  split-fresh_pos = ground arith

  split-below : (p : Ptr) → h'.live p ≡ true → p < h'.fresh
  unfolding split
  split-below p l = ground (arith, v.below p)

  split-sized : (p : Ptr) → h'.live p ≡ true → 0 < (h'.buf p).size
  unfolding split
  split-sized p l = ground (arith, v.sized p, v.below c)

  split-fits : (p : Ptr) → h'.live p ≡ true → (h'.buf p).addr + (h'.buf p).size < size_max
  unfolding split
  split-fits p l = ground (arith, v.fits p, v.fits c, v.below c)

  split-next_live :
      (p : Ptr) → h'.live p ≡ true → (h'.buf p).next ≢ null → h'.live (h'.buf p).next ≡ true
  unfolding split
  split-next_live p l n = ground (arith, v.next_live p, v.next_live c, v.below c)

  split-prev_live :
      (p : Ptr) → h'.live p ≡ true → (h'.buf p).prev ≢ null → h'.live (h'.buf p).prev ≡ true
  unfolding split
  split-prev_live p l n = ground (arith, v.prev_live p, v.below c)

  split-next_prev :
      (p : Ptr) → h'.live p ≡ true → (h'.buf p).next ≢ null → (h'.buf (h'.buf p).next).prev ≡ p
  unfolding split
  split-next_prev p l n = ground (
    arith,
    v.next_live p,
    v.next_live c,
    v.next_prev p,
    v.next_prev c,
    v.below c,
    v.below (h.buf p).next,
    v.below (h.buf c).next,
    v.fresh_pos,
  )

  split-prev_next :
      (p : Ptr) → h'.live p ≡ true → (h'.buf p).prev ≢ null → (h'.buf (h'.buf p).prev).next ≡ p
  unfolding split
  split-prev_next p l n = ground (
    arith,
    v.prev_live p,
    v.next_live c,
    v.next_prev c,
    v.prev_next p,
    v.below c,
    v.below (h.buf p).prev,
    v.below (h.buf c).next,
    v.fresh_pos,
  )

  split-touch :
      (p : Ptr)
      → h'.live p ≡ true
      → (h'.buf p).next ≢ null
      → (h'.buf (h'.buf p).next).addr ≡ (h'.buf p).addr + (h'.buf p).size
  unfolding split
  split-touch p l n = ground (
    arith,
    v.next_live p,
    v.next_live c,
    v.next_prev p,
    v.next_prev c,
    v.touch p,
    v.touch c,
    v.below c,
    v.below (h.buf p).next,
    v.below (h.buf c).next,
    v.fresh_pos,
  )

  split-Apart :
      (p q : Ptr) → h'.live p ≡ true → h'.live q ≡ true → p ≢ q → Apart (h'.buf p) (h'.buf q)
  unfolding split
  split-Apart p q l m n = ground (arith, v.apart p q, v.apart p c, v.apart c q, v.below c)

  -- In a well-formed heap, cutting a live buffer into two parts that are not empty and make up
  -- its size gives a well-formed heap.
  pub split-IsLinked : IsLinked h'
  split-IsLinked = record {
    null_dead = split-null_dead;
    fresh_pos = split-fresh_pos;
    below = split-below;
    sized = split-sized;
    fits = split-fits;
    next_live = split-next_live;
    prev_live = split-prev_live;
    next_prev = split-next_prev;
    prev_next = split-prev_next;
    touch = split-touch;
    apart = split-Apart;
  }
