-- ===== src/Memory/Pool/Continuous.antt =====
-- AllocContinuousTensorMem: one allocation that is cut into pieces.
use ccbase.Base.{
  ℕ, ◌+◌, Bool, true, false, none, some, List, [], ◌∷◌, ◌==◌, if◌then◌else◌, add64, sub64,
}
use ccbase.Memory.Types.{used}
use ccbase.Memory.Heap.{Ptr, null, mem_buf, Heap, set_prev, set_next, set_size, new}
use ccbase.Memory.Pool.State.{AllocatorRef, BufRef, Pool, find_addr, emplace_addr, set_allocator}
use ccbase.Memory.Pool.Device.{Device}
use ccbase.Memory.Pool.Alloc.{alloc_tensor_mem}

-- `this->Link(prev, next)`
unfoldable pub link : Heap → (this prev next : Ptr) → Heap
link h this prev next =
    let h₁ = if prev == null then h else set_prev (set_next h prev this) this prev in
    if next == null then h₁ else set_next (set_prev h₁ next this) this next

unfoldable pub total_of : List ℕ → ℕ
total_of [] = 0
total_of (n ∷ ns) = add64 n (total_of ns)

abbrev is_last : List ℕ → Bool
is_last [] = true
is_last (_ ∷ _) = false

module _ {D : Type 0} where
  -- The rest of the sizes, from `next_addr` on, behind the piece `prev`; the last piece gets what is
  -- left of the total.
  unfoldable pub cut_pieces :
      AllocatorRef
      → (stream_id mem_block : ℕ) (prev : Ptr) (next_addr total_size : ℕ) (sizes : List ℕ) → Pool D
      → List ℕ × Pool D
  unfolding link emplace_addr
  cut_pieces r sid blk prev addr total [] p = ([], p)
  cut_pieces r sid blk prev addr total (n ∷ ns) p =
      let a = p.allocators r in
      let piece = a.heap.fresh in
      let size = if is_last ns then total else n in
      let h =
        set_size (link (new a.heap (mem_buf n addr sid blk used)) piece prev (a.heap.buf prev).next)
          piece size in
      let p₁ : Pool D = record (set_allocator p r (record a { heap = h })) {
        addr_mem_buf_allocators = emplace_addr addr (r, piece) p.addr_mem_buf_allocators;
      } in
      let (addrs, p₂) = cut_pieces r sid blk piece (addr + n) (sub64 total n) ns p₁ in
      (addr ∷ addrs, p₂)

  -- Cut the buffer at `device_addr` to the first size and put the other pieces behind it.
  unfoldable pub cut_first :
      (device_addr stream_id : ℕ) (size : ℕ) (sizes : List ℕ) → BufRef → Pool D → List ℕ × Pool D
  unfolding cut_pieces
  cut_first addr sid n ns (r, b) p =
      let a = p.allocators r in
      let p₁ = set_allocator p r (record a { heap = set_size a.heap b n }) in
      let buf = a.heap.buf b in
      let (addrs, p₂) =
        cut_pieces r sid buf.mem_block b (buf.addr + n) (sub64 (total_of (n ∷ ns)) n) ns p₁ in
      (addr ∷ addrs, p₂)

  -- One size needs no cut. (With no size at all the source reads past the end of the empty vector;
  -- here the buffer is then left as it is.)
  unfoldable pub cut_sizes : (device_addr stream_id : ℕ) (sizes : List ℕ) → Pool D → List ℕ × Pool D
  unfolding cut_first find_addr
  cut_sizes addr sid [] p = (addr ∷ [], p)
  cut_sizes addr sid (n ∷ []) p = (addr ∷ [], p)
  cut_sizes addr sid (n ∷ m ∷ ns) p = elim (find_addr addr p.addr_mem_buf_allocators) [
    | none ↦ (addr ∷ [], p)
    | some b ↦ cut_first addr sid n (m ∷ ns) b p
  ]

module _ {D : Type 0} (dev : Device D) where
  -- The addresses of the pieces; none where the allocation fails.
  unfoldable pub alloc_continuous_tensor_mem :
      (size_list : List ℕ) (stream_id : ℕ) → Pool D → List ℕ × Pool D
  unfolding alloc_tensor_mem total_of cut_sizes
  alloc_continuous_tensor_mem sizes sid p =
      let (addr, p₁) = alloc_tensor_mem dev (total_of sizes) false sid p in
      elim addr [ none ↦ ([], p₁) | some a ↦ cut_sizes a sid sizes p₁ ]
