-- ===== src/Memory/Allocator/Splits.antt =====
-- MapAndSplitMemBuf keeps the invariant.
use ccbase.Base.{
  ℕ, ◌+◌, ◌<◌, ◌≡◌, inl, inr, if◌then◌else◌, true, false, List, arith, has, leb, Bool-cases,
}
use ccbase.Memory.Types.{DynamicMemBufStatus, idle, eager_free, is_status, dynamic_mem_align_size}
use ccbase.Memory.Heap.{Ptr, Heap, split}
use ccbase.Memory.Heap.Linked.{IsLinked}
use ccbase.Memory.Heap.Split.{split-IsLinked}
use ccbase.Memory.BufSet.{emplace}
use ccbase.Memory.BufSet.Order.{SameKeys, Sorted-congr, emplace-Sorted}
use ccbase.Memory.BufSet.Members.{has-emplace}
use ccbase.Memory.Allocator.{MemBufAllocator, put_by_status, split_candidate}
use ccbase.Memory.Allocator.Valid.{Holds, IsSpare, IsValidBut, Unique-linked}

module _ (h : Heap) (v : IsLinked h) (c : Ptr) (alive : h.live c ≡ true) (size remaining : ℕ)
    (pos : 0 < size) (more : 0 < remaining) (parts : size + remaining ≡ (h.buf c).size) where
  abbrev g : Heap
  g = split h c size remaining

  abbrev linked : IsLinked g
  linked = split-IsLinked h v c alive size remaining pos more parts

  -- The set of another status does not change.
  split-other :
      (s : DynamicMemBufStatus) (xs : List Ptr)
      → is_status (h.buf c).status s ≡ false
      → Holds s c h xs
      → Holds s c g xs
  unfolding split
  split-other s xs e held q = ground (arith, held q, v.below c, v.below q)

  split-members :
      (s : DynamicMemBufStatus) (xs : List Ptr) (q : Ptr)
      → Holds s c h xs
      → has q xs ≡ true
      → g.live q ≡ true
  unfolding split
  split-members s xs q held m = ground (arith, held q)

  split-same : (s : DynamicMemBufStatus) (xs : List Ptr) → Holds s c h xs → SameKeys h g xs
  unfolding split
  split-same s xs held q m = ground (arith, held q, v.below q)

  split-fresh_live : g.live h.fresh ≡ true
  unfolding split
  split-fresh_live = ground arith

  -- The set of the candidate's status takes the remaining buffer in.
  split-emplace :
      (s : DynamicMemBufStatus) (xs : List Ptr)
      → is_status (h.buf c).status s ≡ true
      → Holds s c h xs
      → Holds s c g (emplace g h.fresh xs)
  unfolding split
  split-emplace s xs e held q = ground (
    arith,
    has-emplace g h.fresh xs
        (Unique-linked linked h.fresh xs split-fresh_live (λ x m. split-members s xs x held m)) q,
    held q,
    v.below c,
    v.below q,
  )

  split-status : (g.buf h.fresh).status ≡ (h.buf c).status
  unfolding split
  split-status = ground (arith, v.below c)

module _ (a : MemBufAllocator) (c : Ptr) (v : IsValidBut c a) (alive : a.heap.live c ≡ true)
    (size remaining : ℕ) (pos : 0 < size) (parts : size + remaining ≡ (a.heap.buf c).size) where
  -- The case that the remaining buffer is cut off.
  module _ (more : 0 < remaining) where
    abbrev rest : MemBufAllocator
    rest = record a { heap = split a.heap c size remaining }

    abbrev whole : IsLinked rest.heap
    whole = split-IsLinked a.heap v.linked c alive size remaining pos more parts

    put_idle :
        is_status (a.heap.buf c).status idle ≡ true → IsValidBut c (put_by_status a.heap.fresh rest)
    unfolding put_by_status
    put_idle e =
        rw (split-status a.heap v.linked c alive size remaining pos more parts, e)
          (record {
            linked = whole;
            frees =
                split-emplace a.heap v.linked c alive size remaining pos more parts idle
                  a.free_mem_bufs e v.frees;
            eagers =
                split-other a.heap v.linked c alive size remaining pos more parts eager_free _
                  (ground arith) v.eagers;
            free_sorted = emplace-Sorted rest.heap a.heap.fresh a.free_mem_bufs (
                Sorted-congr a.heap rest.heap _
                  (split-same a.heap v.linked c alive size remaining pos more parts idle _ v.frees)
                  v.free_sorted);
            eager_sorted =
                Sorted-congr a.heap rest.heap _
                  (split-same a.heap v.linked c alive size remaining pos more parts eager_free _
                    v.eagers)
                  v.eager_sorted;
          })

    put_eager :
        is_status (a.heap.buf c).status eager_free ≡ true
        → IsValidBut c (put_by_status a.heap.fresh rest)
    unfolding put_by_status
    put_eager e =
        let i : is_status (a.heap.buf c).status idle ≡ false = ground arith in
        rw (split-status a.heap v.linked c alive size remaining pos more parts, i)
          (record {
            linked = whole;
            frees =
                split-other a.heap v.linked c alive size remaining pos more parts idle _ i v.frees;
            eagers =
                split-emplace a.heap v.linked c alive size remaining pos more parts eager_free _ e
                  v.eagers;
            free_sorted =
                Sorted-congr a.heap rest.heap _
                  (split-same a.heap v.linked c alive size remaining pos more parts idle _ v.frees)
                  v.free_sorted;
            eager_sorted = emplace-Sorted rest.heap a.heap.fresh a.eager_free_mem_bufs (
                Sorted-congr a.heap rest.heap _
                  (split-same a.heap v.linked c alive size remaining pos more parts eager_free _
                    v.eagers)
                  v.eager_sorted);
          })

  pub split_candidate-IsValidBut : IsSpare a c → IsValidBut c (split_candidate c size remaining a)
  unfolding split_candidate
  split_candidate-IsValidBut spare = elim (Bool-cases (leb dynamic_mem_align_size remaining)) [
    | inr small ↦ rw small v
    | inl large ↦
        rw large
          (elim spare [ inl e ↦ put_idle (ground arith) e | inr e ↦ put_eager (ground arith) e ])
  ]

  -- The candidate keeps its place, and has the wanted size, or all of its own where the rest is small.
  pub split_candidate-buf :
      let b = (split_candidate c size remaining a).heap.buf c in
      ((split_candidate c size remaining a).heap.live c ≡ true)
      × (b.addr ≡ (a.heap.buf c).addr)
      × (b.size ≡ (if leb dynamic_mem_align_size remaining then size else (a.heap.buf c).size))
  unfolding split_candidate split
  split_candidate-buf = ground (arith, v.linked.below c)
