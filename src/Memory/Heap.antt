-- ===== src/Memory/Heap.antt =====
-- The memory buffers of an allocator and their doubly linked lists
-- (MemBuf of memory/abstract_dynamic_memory_pool.h).
pub mod Linked
pub mod Split
pub mod AbsorbPrev
pub mod AbsorbNext
pub mod Bytes
use ccbase.Base.{ℕ, suc, ◌+◌, ◌-◌, Bool, true, false, ◌==◌, if◌then◌else◌}
use ccbase.Memory.Types.{DynamicMemBufStatus, idle}
use ccbase.Memory.Event.{EventBase, no_events}

-- A `MemBuf *` is the number of the buffer in its heap, and null is 0.
abbrev pub Ptr : Type 0
Ptr = ℕ

abbrev pub null : Ptr
null = 0

pub record MemBuf : Type 0 where
  pub prev : Ptr
  pub next : Ptr
  pub size : ℕ
  pub addr : ℕ
  pub stream_id : ℕ
  -- the place of the block in the allocator's list of blocks
  pub mem_block : ℕ
  pub status : DynamicMemBufStatus
  pub event_base : EventBase

-- The constructor `MemBuf::MemBuf`.
abbrev pub mem_buf : (size addr stream_id mem_block : ℕ) → DynamicMemBufStatus → MemBuf
mem_buf size addr stream_id mem_block status = record {
  prev = null;
  next = null;
  size = size;
  addr = addr;
  stream_id = stream_id;
  mem_block = mem_block;
  status = status;
  event_base = no_events;
}

-- `live` says which buffers are allocated; `new` returns `fresh`, which no buffer has had before.
pub record Heap : Type 0 where
  pub live : Ptr → Bool
  pub buf : Ptr → MemBuf
  pub fresh : Ptr

abbrev pub write : Heap → Ptr → MemBuf → Heap
write h p b = record h { buf = λ q. if q == p then b else h.buf q }

abbrev pub set_prev : Heap → Ptr → Ptr → Heap
set_prev h p v = write h p (record (h.buf p) { prev = v })

abbrev pub set_next : Heap → Ptr → Ptr → Heap
set_next h p v = write h p (record (h.buf p) { next = v })

abbrev pub set_size : Heap → Ptr → ℕ → Heap
set_size h p v = write h p (record (h.buf p) { size = v })

abbrev pub set_status : Heap → Ptr → DynamicMemBufStatus → Heap
set_status h p v = write h p (record (h.buf p) { status = v })

-- `new MemBuf(...)`; the result is `h.fresh`.
abbrev pub new : Heap → MemBuf → Heap
new h b = record {
  live = λ q. if q == h.fresh then true else h.live q;
  buf = λ q. if q == h.fresh then b else h.buf q;
  fresh = suc h.fresh;
}

-- `delete p`
abbrev pub delete : Heap → Ptr → Heap
delete h p = record h { live = λ q. if q == p then false else h.live q }

unfoldable pub empty : Heap
empty = record { live = λ _. false; buf = λ _. mem_buf 0 0 0 0 idle; fresh = 1 }

-- The link updates when the new buffer `r` is put behind `c`, in the order of `MapAndSplitMemBuf`.
unfoldable pub link_remaining : Heap → (c r : Ptr) → Heap
link_remaining h c r =
    let n = (h.buf c).next in
    let h₁ = if n == null then h else set_next (set_prev h n r) r n in
    set_prev (set_next h₁ c r) r c

-- Cut `c` to `size` and put the `remaining` bytes into a new buffer behind it.
unfoldable pub split : Heap → (c : Ptr) (size remaining : ℕ) → Heap
unfolding link_remaining
split h c size remaining =
    let b = h.buf c in
    let rest = mem_buf remaining (b.addr + size) b.stream_id b.mem_block b.status in
    set_size (link_remaining (new h rest) c h.fresh) c size

-- `p` takes the place and the bytes of its previous buffer.
unfoldable pub relink_prev : Heap → Ptr → Heap
relink_prev h p =
    let v = (h.buf p).prev in
    let w = (h.buf v).prev in
    let h₁ = set_prev h p w in
    let h₂ = if w == null then h₁ else set_next h₁ w p in
    let b = h₂.buf p in
    write h₂ p (record b { addr = (h₂.buf v).addr; size = b.size + (h₂.buf v).size })

-- `p` takes the place and the bytes of its next buffer.
unfoldable pub relink_next : Heap → Ptr → Heap
relink_next h p =
    let v = (h.buf p).next in
    let w = (h.buf v).next in
    let h₁ = set_next h p w in
    let h₂ = if w == null then h₁ else set_prev h₁ w p in
    set_size h₂ p ((h₂.buf p).size + (h₂.buf v).size)

-- The neighbour is deleted in the end.
unfoldable pub absorb_prev : Heap → Ptr → Heap
unfolding relink_prev
absorb_prev h p = delete (relink_prev h p) (h.buf p).prev

unfoldable pub absorb_next : Heap → Ptr → Heap
unfolding relink_next
absorb_next h p = delete (relink_next h p) (h.buf p).next
