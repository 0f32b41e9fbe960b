-- ===== src/Memory/Allocator/Merge.antt =====
-- Merging with the neighbours keeps the invariant.
use ccbase.Base.{
  ◌≡◌, ◌≢◌, ◌⊎◌, inl, inr, refl, true, false, not, ◌&&◌, List, arith, ◌==◌, Bool-cases,
}
use ccbase.Memory.Types.{DynamicMemBufStatus, idle, used, eager_free, used_by_event, is_status}
use ccbase.Memory.Heap.{Ptr, null, Heap, delete, relink_prev, relink_next, absorb_prev, absorb_next}
use ccbase.Memory.Heap.Linked.{IsLinked}
use ccbase.Memory.Heap.AbsorbPrev.{absorb_prev-IsLinked}
use ccbase.Memory.Heap.AbsorbNext.{absorb_next-IsLinked}
use ccbase.Memory.BufSet.{erase}
use ccbase.Memory.BufSet.Order.{Sorted, SameKeys, Sorted-congr, erase-Sorted}
use ccbase.Memory.BufSet.Members.{Unique, has-erase}
use ccbase.Memory.Allocator.{MemBufAllocator, erase_neighbour, merge_prev, merge_next}
use ccbase.Memory.Allocator.Valid.{Holds, IsValidBut}

-- What both merges do to the buffers: `b` takes the live buffer `a` in, and the keys and statuses of
-- the others stay.
record Absorbs (h g : Heap) (a b : Ptr) : Type 0 where
  ne : a ≢ b
  alive : h.live a ≡ true
  same_live : (q : Ptr) → g.live q ≡ h.live q
  same_size : (q : Ptr) → q ≢ b → (g.buf q).size ≡ (h.buf q).size
  same_addr : (q : Ptr) → q ≢ b → (g.buf q).addr ≡ (h.buf q).addr
  same_status : (q : Ptr) → (g.buf q).status ≡ (h.buf q).status

prev-Absorbs :
    (h : Heap) (v : IsLinked h) (b : Ptr)
    → h.live b ≡ true
    → (h.buf b).prev ≢ null
    → Absorbs h (relink_prev h b) (h.buf b).prev b
unfolding relink_prev
prev-Absorbs h v b l n =
    let a = (h.buf b).prev in
    record {
      ne = ground (arith, v.prev_live b, v.prev_next b, v.touch a, v.sized b, v.sized a);
      alive = v.prev_live b l n;
      same_live = λ q. ground arith;
      same_size = λ q m. ground arith;
      same_addr = λ q m. ground arith;
      same_status = λ q. ground arith;
    }

next-Absorbs :
    (h : Heap) (v : IsLinked h) (b : Ptr)
    → h.live b ≡ true
    → (h.buf b).next ≢ null
    → Absorbs h (relink_next h b) (h.buf b).next b
unfolding relink_next
next-Absorbs h v b l n = record {
  ne = ground (arith, v.next_live b, v.touch b, v.sized b);
  alive = v.next_live b l n;
  same_live = λ q. ground arith;
  same_size = λ q m. ground arith;
  same_addr = λ q m. ground arith;
  same_status = λ q. ground arith;
}

module _ (h g : Heap) (v : IsLinked h) (a b : Ptr) (w : Absorbs h g a b) where
  absorb-SameKeys : (s : DynamicMemBufStatus) (xs : List Ptr) → Holds s b h xs → SameKeys h g xs
  absorb-SameKeys s xs held q m = ground (arith, held q, w.same_size q, w.same_addr q)

  absorb-Unique : (s : DynamicMemBufStatus) (xs : List Ptr) → Holds s b h xs → Unique g a xs
  absorb-Unique s xs held q m n = ground (
    arith,
    held q,
    v.apart q a,
    v.sized q,
    v.sized a,
    w.ne,
    w.alive,
    w.same_addr q,
    w.same_addr a,
  )

  absorb-Sorted :
      (s : DynamicMemBufStatus) (xs : List Ptr) → Holds s b h xs → Sorted h xs → Sorted g xs
  absorb-Sorted s xs held = Sorted-congr h g xs (absorb-SameKeys s xs held)

  -- The set that the neighbour was in.
  erase-Holds :
      (s : DynamicMemBufStatus) (xs : List Ptr)
      → Sorted h xs
      → Holds s b h xs
      → Holds s b (delete g a) (erase g a xs)
  erase-Holds s xs o held q = ground (
    arith,
    has-erase g a xs (absorb-Unique s xs held) (absorb-Sorted s xs held o) q,
    held q,
    w.same_live q,
    w.same_status q,
  )

  -- The set that it was not in.
  kept-Holds :
      (s : DynamicMemBufStatus) (xs : List Ptr)
      → is_status (h.buf a).status s ≡ false
      → Holds s b h xs
      → Holds s b (delete g a) xs
  kept-Holds s xs e held q = ground (arith, held q, w.same_live q, w.same_status q)

  erased-Sorted :
      (s : DynamicMemBufStatus) (xs : List Ptr)
      → Holds s b h xs
      → Sorted h xs
      → Sorted (delete g a) (erase g a xs)
  erased-Sorted s xs held o =
      Sorted-congr g (delete g a) (erase g a xs) (λ q m. (refl, refl))
        (erase-Sorted g a xs (absorb-Sorted s xs held o))

  kept-Sorted :
      (s : DynamicMemBufStatus) (xs : List Ptr)
      → Holds s b h xs
      → Sorted h xs
      → Sorted (delete g a) xs
  kept-Sorted s xs held o =
      Sorted-congr g (delete g a) xs (λ q m. (refl, refl)) (absorb-Sorted s xs held o)

-- A status that a freed buffer may get.
abbrev pub IsTarget : DynamicMemBufStatus → Type 0
IsTarget t = (t ≡ idle) ⊎ (t ≡ eager_free)

module _ (x : MemBufAllocator) (g : Heap) (a b : Ptr) (v : IsValidBut b x)
    (w : Absorbs x.heap g a b) (merged : IsLinked (delete g a)) where
  erase_neighbour-IsValidBut :
      (t : DynamicMemBufStatus)
      → IsTarget t
      → is_status (x.heap.buf a).status t ≡ true
      → IsValidBut b (erase_neighbour t g a x)
  unfolding erase_neighbour
  erase_neighbour-IsValidBut idle _ e = record {
    linked = merged;
    frees = erase-Holds x.heap g v.linked a b w idle _ v.free_sorted v.frees;
    eagers = kept-Holds x.heap g v.linked a b w eager_free _ (ground arith) v.eagers;
    free_sorted = erased-Sorted x.heap g v.linked a b w idle _ v.frees v.free_sorted;
    eager_sorted = kept-Sorted x.heap g v.linked a b w eager_free _ v.eagers v.eager_sorted;
  }
  erase_neighbour-IsValidBut eager_free _ e = record {
    linked = merged;
    frees = kept-Holds x.heap g v.linked a b w idle _ (ground arith) v.frees;
    eagers = erase-Holds x.heap g v.linked a b w eager_free _ v.eager_sorted v.eagers;
    free_sorted = kept-Sorted x.heap g v.linked a b w idle _ v.frees v.free_sorted;
    eager_sorted = erased-Sorted x.heap g v.linked a b w eager_free _ v.eagers v.eager_sorted;
  }
  erase_neighbour-IsValidBut used t e = absurd (ground arith)
  erase_neighbour-IsValidBut used_by_event t e = absurd (ground arith)

module _ (x : MemBufAllocator) (b : Ptr) (v : IsValidBut b x) (alive : x.heap.live b ≡ true)
    (t : DynamicMemBufStatus) (target : IsTarget t) where
  pub merge_prev-IsValidBut : IsValidBut b (merge_prev t b x)
  unfolding merge_prev absorb_prev
  merge_prev-IsValidBut =
      let a = (x.heap.buf b).prev in
      elim (Bool-cases (not (a == null) && is_status (x.heap.buf a).status t)) [
        | inr apart ↦ rw apart v
        | inl merge ↦
            let n : a ≢ null = ground arith in
            rw merge (
              erase_neighbour-IsValidBut x (relink_prev x.heap b) a b v
                (prev-Absorbs x.heap v.linked b alive n)
                (absorb_prev-IsLinked x.heap v.linked b alive n) t target (ground arith))
      ]

  pub merge_next-IsValidBut : IsValidBut b (merge_next t b x)
  unfolding merge_next absorb_next
  merge_next-IsValidBut =
      let a = (x.heap.buf b).next in
      elim (Bool-cases (not (a == null) && is_status (x.heap.buf a).status t)) [
        | inr apart ↦ rw apart v
        | inl merge ↦
            let n : a ≢ null = ground arith in
            rw merge (
              erase_neighbour-IsValidBut x (relink_next x.heap b) a b v
                (next-Absorbs x.heap v.linked b alive n)
                (absorb_next-IsLinked x.heap v.linked b alive n) t target (ground arith))
      ]

  -- The freed buffer itself stays, with its status.
  pub merge_prev-keeps :
      ((merge_prev t b x).heap.live b ≡ true)
      × (((merge_prev t b x).heap.buf b).status ≡ (x.heap.buf b).status)
  unfolding merge_prev absorb_prev erase_neighbour
  merge_prev-keeps = ground (
    arith,
    v.linked.prev_live b,
    v.linked.prev_next b,
    v.linked.touch (x.heap.buf b).prev,
    v.linked.sized b,
  )

  pub merge_next-keeps :
      ((merge_next t b x).heap.live b ≡ true)
      × (((merge_next t b x).heap.buf b).status ≡ (x.heap.buf b).status)
  unfolding merge_next absorb_next erase_neighbour
  merge_next-keeps = ground (arith, v.linked.next_live b, v.linked.touch b, v.linked.sized b)
