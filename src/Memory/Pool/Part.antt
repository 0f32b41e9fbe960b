-- ===== src/Memory/Pool/Part.antt =====
-- DoFreePartTensorMems: buffers are freed but for the parts that are kept.
use ccbase.Base.{
  ℕ, ◌+◌, Option, none, some, List, [], ◌∷◌, ◌==◌, ltb, leb, has, if◌then◌else◌, add64, sub64,
}
use ccbase.Memory.Heap.{Ptr, mem_buf, set_size, new}
use ccbase.Memory.Pool.State.{
  AllocatorRef, BufRef, AddrMap, Pool, find_addr, emplace_addr, erase_addr, buf_of, set_allocator,
}
use ccbase.Memory.Pool.Free.{do_free_tensor_mem}
use ccbase.Memory.Pool.Continuous.{link}

-- `std::map::emplace`: in the order of addresses, and nothing where the address is there.
unfoldable pub emplace_candidate : (addr : ℕ) → BufRef → AddrMap → AddrMap
emplace_candidate a b [] = (a, b) ∷ []
emplace_candidate a b ((k, c) ∷ m) =
    let rest = emplace_candidate a b m in
    if k == a then (k, c) ∷ m else if ltb a k then (a, b) ∷ (k, c) ∷ m else (k, c) ∷ rest

-- The candidate before `upper_bound(addr)`, or none at the beginning of the map.
unfoldable pub candidate_before : (addr : ℕ) → AddrMap → Option BufRef
candidate_before a [] = none
candidate_before a ((k, c) ∷ m) =
    let rest = candidate_before a m in
    if ltb a k then none else elim rest [ none ↦ some c | some d ↦ some d ]

module _ {D : Type 0} where
  -- The addresses to free that the pool knows.
  unfoldable pub collect_candidates : (free_addrs : List ℕ) → AddrMap → Pool D → AddrMap
  unfolding find_addr emplace_candidate
  collect_candidates [] m p = m
  collect_candidates (a ∷ addrs) m p = elim (find_addr a p.addr_mem_buf_allocators) [
    | none ↦ collect_candidates addrs m p
    | some b ↦ collect_candidates addrs (emplace_candidate a b m) p
  ]

  -- `new MemBuf(size, addr, ...)` with stream, block and status of `like`, linked behind `prev`, and
  -- entered into the pool's address map.
  unfoldable pub part_behind : AllocatorRef → (prev like : Ptr) (size addr : ℕ) → Pool D → Pool D
  unfolding link emplace_addr
  part_behind r prev like size addr p =
      let a = p.allocators r in
      let b = a.heap.buf like in
      let part = a.heap.fresh in
      let h = new a.heap (mem_buf size addr b.stream_id b.mem_block b.status) in
      record (set_allocator p r (record a { heap = link h part prev (h.buf prev).next })) {
        addr_mem_buf_allocators = emplace_addr addr (r, part) p.addr_mem_buf_allocators;
      }

  abbrev resize : AllocatorRef → Ptr → (size : ℕ) → Pool D → Pool D
  resize r b n p =
      let a = p.allocators r in set_allocator p r (record a { heap = set_size a.heap b n })

  -- The kept part becomes a buffer of its own: the candidate itself, if it begins there.
  unfoldable pub keep_part :
      (keep_start keep_size : ℕ) → BufRef → AddrMap → Pool D → BufRef × AddrMap × Pool D
  unfolding part_behind erase_addr
  keep_part start size (r, b) m p =
      let base_start = (buf_of p (r, b)).addr in
      if start == base_start
      then ((r, b), erase_addr base_start m, resize r b size p)
      else (let part = (p.allocators r).heap.fresh in
          ((r, part), m, resize r b (sub64 start base_start) (part_behind r b b size start p)))

  -- What lies behind the kept part becomes a candidate.
  unfoldable pub free_tail :
      (base_end keep_end : ℕ) (base keep : BufRef) → AddrMap → Pool D → AddrMap × Pool D
  unfolding part_behind emplace_candidate
  free_tail base_end keep_end (_, b) (r, k) m p =
      if ltb keep_end base_end
      then (let kept = buf_of p (r, k) in
          let last = (p.allocators r).heap.fresh in
          let addr = kept.addr + kept.size in
          (emplace_candidate addr (r, last) m, part_behind r k b (sub64 base_end keep_end) addr p))
      else (m, p)

  -- One address to keep; it answers the kept buffer, or none where it lies in no candidate.
  unfoldable pub keep_one :
      (keep_addr keep_size : ℕ) → AddrMap → Pool D → Option BufRef × AddrMap × Pool D
  unfolding candidate_before keep_part free_tail
  keep_one start size m p = elim (candidate_before start m) [
    | none ↦ (none, m, p)
    | some c ↦
        let base_end = add64 (buf_of p c).addr (buf_of p c).size in
        if leb base_end start
        then (none, m, p)
        else (let (k, m₁, p₁) = keep_part start size c m p in
            let (m₂, p₂) = free_tail base_end (add64 start size) c k m₁ p₁ in (some k, m₂, p₂))
  ]

  -- The addresses to keep with their sizes in turn, a repeated one only once.
  unfoldable pub keep_each :
      (keeps : List (ℕ × ℕ)) (processed : List ℕ)
      → AddrMap
      → Pool D
      → List BufRef × AddrMap × Pool D
  unfolding keep_one
  keep_each [] done m p = ([], m, p)
  keep_each ((a, n) ∷ ks) done m p =
      let (kept, m₁, p₁) = if has a done then (none, m, p) else keep_one a n m p in
      let (bs, m₂, p₂) = keep_each ks (a ∷ done) m₁ p₁ in
      (elim kept [ none ↦ bs | some b ↦ b ∷ bs ], m₂, p₂)

  -- What is still a candidate in the end is freed, in the order of addresses.
  unfoldable pub free_candidates : AddrMap → Pool D → Pool D
  unfolding do_free_tensor_mem
  free_candidates [] p = p
  free_candidates ((_, b) ∷ m) p = free_candidates m (do_free_tensor_mem (buf_of p b).addr p).1

  unfoldable pub do_free_part_tensor_mems :
      (free_addrs : List ℕ) (keeps : List (ℕ × ℕ)) → Pool D → List BufRef × Pool D
  unfolding collect_candidates keep_each free_candidates
  do_free_part_tensor_mems free_addrs keeps p =
      let (bs, m, p₁) = keep_each keeps [] (collect_candidates free_addrs [] p) p in
      (bs, free_candidates m p₁)
