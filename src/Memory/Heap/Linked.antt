-- ===== src/Memory/Heap/Linked.antt =====
-- The well-formedness of a heap of buffers.
use ccbase.Base.{◌+◌, ◌≤◌, ◌<◌, ◌≡◌, ◌≢◌, ◌⊎◌, true, false, size_max}
use ccbase.Memory.Heap.{Ptr, null, MemBuf, Heap}

-- The first buffer ends before the second begins, or the other way round.
abbrev pub Apart : MemBuf → MemBuf → Type 0
Apart a b = (a.addr + a.size ≤ b.addr) ⊎ (b.addr + b.size ≤ a.addr)

-- Links run both ways between live buffers, linked buffers touch, and no two buffers overlap.
pub record IsLinked (h : Heap) : Type 0 where
  pub null_dead : h.live null ≡ false
  pub fresh_pos : 0 < h.fresh
  pub below : (p : Ptr) → h.live p ≡ true → p < h.fresh
  pub sized : (p : Ptr) → h.live p ≡ true → 0 < (h.buf p).size
  pub fits : (p : Ptr) → h.live p ≡ true → (h.buf p).addr + (h.buf p).size < size_max
  pub next_live : (p : Ptr) → h.live p ≡ true → (h.buf p).next ≢ null → h.live (h.buf p).next ≡ true
  pub prev_live : (p : Ptr) → h.live p ≡ true → (h.buf p).prev ≢ null → h.live (h.buf p).prev ≡ true
  pub next_prev :
      (p : Ptr) → h.live p ≡ true → (h.buf p).next ≢ null → (h.buf (h.buf p).next).prev ≡ p
  pub prev_next :
      (p : Ptr) → h.live p ≡ true → (h.buf p).prev ≢ null → (h.buf (h.buf p).prev).next ≡ p
  pub touch :
      (p : Ptr)
      → h.live p ≡ true
      → (h.buf p).next ≢ null
      → (h.buf (h.buf p).next).addr ≡ (h.buf p).addr + (h.buf p).size
  pub apart : (p q : Ptr) → h.live p ≡ true → h.live q ≡ true → p ≢ q → Apart (h.buf p) (h.buf q)
