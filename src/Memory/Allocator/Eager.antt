-- ===== src/Memory/Allocator/Eager.antt =====
-- About FreeIdleMemsByEagerFree and the invariant of Valid.
use ccbase.Base.{ℕ, ◌≡◌, inr, refl, true, false, List, [], ◌∷◌, arith, ◌==◌}
use ccbase.Memory.Types.{DynamicMemBufStatus, idle, eager_free, is_status}
use ccbase.Memory.Event.{is_event_not_used}
use ccbase.Memory.Heap.{Ptr, Heap, set_status, absorb_prev, absorb_next}
use ccbase.Memory.BufSet.{erase_at}
use ccbase.Memory.Allocator.{
  MemBufAllocator, Hooks, Env, erase_neighbour, merge_prev, merge_next, release_buf, free,
}
use ccbase.Memory.Allocator.Release.{free_each, free_idle_mems_by_eager_free}
use ccbase.Memory.Allocator.Valid.{IsValidBut, IsValid}
use ccbase.Memory.Allocator.Moves.{take_free-IsValidBut}
use ccbase.Memory.Allocator.Free.{release_buf-IsValid}

-- No idle buffer is waited for by an event.
abbrev pub IdleQuiet : MemBufAllocator → Type 0
IdleQuiet a =
    (p : Ptr)
    → a.heap.live p ≡ true
    → is_status (a.heap.buf p).status idle ≡ true
    → is_event_not_used (a.heap.buf p).event_base ≡ true

-- The iteration does not look at the idle set, which keeps its old contents meanwhile.
abbrev pub with_free : List Ptr → MemBufAllocator → MemBufAllocator
with_free xs a = record a { free_mem_bufs = xs }

pub release_buf-with_free :
    (xs : List Ptr) (p : Ptr) (a : MemBufAllocator)
    → release_buf eager_free p (with_free xs a) ≡ with_free xs (release_buf eager_free p a)
unfolding release_buf erase_neighbour
release_buf-with_free xs p a = ground arith

pub head-IsValidBut :
    (p : Ptr) (ps : List Ptr) (a : MemBufAllocator)
    → IsValid (with_free (p ∷ ps) a)
    → IsValidBut p (with_free ps a)
unfolding erase_at
head-IsValidBut p ps a v =
    let same : (p == p) ≡ true = ground arith in
    rw same at (take_free-IsValidBut (with_free (p ∷ ps) a) p v (ground arith))

-- Merging deletes buffers, and changes neither the status nor the events of one that stays.
abbrev pub Keeps : (q : Ptr) → Heap → Heap → Type 0
Keeps q h g =
    g.live q ≡ true
    → (h.live q ≡ true)
      × ((g.buf q).status ≡ (h.buf q).status)
      × ((g.buf q).event_base ≡ (h.buf q).event_base)

module _ (t : DynamicMemBufStatus) (p q : Ptr) (a : MemBufAllocator) where
  pub merge_prev-Keeps : Keeps q a.heap (merge_prev t p a).heap
  unfolding merge_prev absorb_prev
  merge_prev-Keeps l = ground arith

  pub merge_next-Keeps : Keeps q a.heap (merge_next t p a).heap
  unfolding merge_next absorb_next
  merge_next-Keeps l = ground arith

pub release_buf-IdleQuiet :
    (p : Ptr) (a : MemBufAllocator) → IdleQuiet a → IdleQuiet (release_buf eager_free p a)
unfolding release_buf
release_buf-IdleQuiet p a quiet q l i =
    let a₁ : MemBufAllocator = record a { heap = set_status a.heap p eager_free } in
    ground (
      arith,
      quiet q,
      merge_prev-Keeps eager_free p q a₁,
      merge_next-Keeps eager_free p q (merge_prev eager_free p a₁),
    )

pub free-quiet :
    (t : DynamicMemBufStatus) (p : Ptr) (a : MemBufAllocator)
    → is_event_not_used (a.heap.buf p).event_base ≡ true
    → free p t a ≡ (true, release_buf t p a)
unfolding free
free-quiet t p a e = rw e

free_each-IsValid :
    (ps : List Ptr) (n : ℕ) (a : MemBufAllocator)
    → IdleQuiet a
    → IsValid (with_free ps a)
    → IsValid (with_free [] (free_each ps n a).1)
unfolding free_each
free_each-IsValid [] n a quiet v = v
free_each-IsValid (p ∷ ps) n a quiet v =
    let here : IsValidBut p (with_free ps a) = head-IsValidBut p ps a v in
    let m : (a.heap.live p ≡ true) × (is_status (a.heap.buf p).status idle ≡ true) =
      ground (arith, v.frees p) in
    let next : IsValid (with_free ps (release_buf eager_free p a)) =
      rw release_buf-with_free at
        (release_buf-IsValid eager_free p (with_free ps a) (inr refl) here m.0) in
    rw (free-quiet eager_free p a (quiet p m.0 m.1), free_each)
      (free_each-IsValid ps _ (release_buf eager_free p a) (release_buf-IdleQuiet p a quiet) next)

module _ {D : Type 0} (hooks : Hooks D) (a : MemBufAllocator) (e : Env D) where
  -- In a valid allocator where no idle buffer has events, the eager free of all idle buffers
  -- keeps the allocator valid, and no buffer is idle afterwards.
  pub free_idle_mems-IsValid :
      IdleQuiet a
      → IsValid a
      → let r = (free_idle_mems_by_eager_free hooks a e).1 in
        IsValid r
        × ((p : Ptr) → r.heap.live p ≡ true → is_status (r.heap.buf p).status idle ≡ false)
  unfolding free_idle_mems_by_eager_free
  free_idle_mems-IsValid quiet v =
      let w = free_each-IsValid a.free_mem_bufs 0 a quiet v in
      (w, λ p l. ground (arith, w.frees p, w.linked.null_dead))
