-- ===== src/Memory/Pool/FreeOthers.antt =====
-- What DoFreeTensorMem does to the other buffers in use.
use ccbase.Base.{ℕ, false, some, Option-cases, ◌≡◌, inl, inr, arith, Bool-cases}
use ccbase.Memory.Event.{is_event_not_used}
use ccbase.Memory.Heap.{Ptr}
use ccbase.Memory.Pool.State.{AllocatorRef, same_buf, find_addr, BufRef, Pool, buf_of}
use ccbase.Memory.Allocator.Frame.{InUse}
use ccbase.Memory.Pool.Free.{free_found, do_free_tensor_mem}
use ccbase.Memory.Pool.Accounts.{heap_of, find_addr-Mapped, same_ref-eq}
use ccbase.Memory.Pool.FreeAccounts.{with_allocator, freed, free-Spares, free-without, free-waiting}
use ccbase.Memory.Pool.Sound.{PoolSound}
use ccbase.Memory.Pool.Enter.{other_address}
use ccbase.Memory.Pool.FreeSound.{sound-PoolValid}

pub do_free_tensor_mem-faulted :
    {D : Type 0} (addr : ℕ) (p : Pool D) → (do_free_tensor_mem addr p).1.faulted ≡ p.faulted
unfolding do_free_tensor_mem free_found
do_free_tensor_mem-faulted addr p = ground arith

-- Freeing the address of a buffer in use leaves any other buffer in use.
module _ {D : Type 0} (taken : D → ℕ → Type 0) (p : Pool D) (v : PoolSound taken p) (c : BufRef)
    (u : InUse c.1 (heap_of p.allocators c.0)) where
  other_found :
      (a d : BufRef)
      → same_buf c d ≡ false
      → find_addr (buf_of p c).addr p.addr_mem_buf_allocators ≡ some a
      → InUse d.1 (heap_of p.allocators d.0)
      → same_buf a d ≡ false
  other_found (r, b) (t, q) other e i =
      let w =
        find_addr-Mapped p.allocators (buf_of p c).addr (r, b) p.addr_mem_buf_allocators v.mapped
          e in
      elim (Bool-cases (same_buf (r, b) (t, q))) [
        | inr apart ↦ apart
        | inl one ↦
            let same_t : r ≡ t = same_ref-eq r t (ground arith) in
            let same_q : b ≡ q = ground arith in
            absurd (other_address taken p v c u (t, q) other i (rw (same_t, same_q) at w.1))
      ]

  pub free-others :
      (t : AllocatorRef) (q : Ptr)
      → same_buf c (t, q) ≡ false
      → InUse q (heap_of p.allocators t)
      → InUse q (heap_of (do_free_tensor_mem (buf_of p c).addr p).1.allocators t)
  unfolding do_free_tensor_mem
  free-others t q other i =
      elim (Option-cases (find_addr (buf_of p c).addr p.addr_mem_buf_allocators)) [
        | inl unknown ↦ rw (unknown, do_free_tensor_mem) i
        | inr ((r, b), e) ↦
            let w = free-Spares p.allocators r b t q (other_found (r, b) (t, q) other e i) i in
            let i' : InUse q (heap_of (with_allocator p.allocators r (freed p.allocators r b)) t) =
              (w.0, rw (w.3) i.1, rw (w.3) i.2) in
            elim (Bool-cases (is_event_not_used ((heap_of p.allocators r).buf b).event_base)) [
              | inl done ↦
                  rw (free-without p (sound-PoolValid taken p v) (buf_of p c).addr r b e done) i'
              | inr waits ↦
                  rw (free-waiting p (sound-PoolValid taken p v) (buf_of p c).addr r b e waits) i'
            ]
      ]
