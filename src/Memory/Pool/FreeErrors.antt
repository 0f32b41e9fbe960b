-- ===== src/Memory/Pool/FreeErrors.antt =====
-- About the refusals of DoFreeTensorMem.
use ccbase.Base.{ℕ, ◌≡◌, false, arith}
use ccbase.Memory.Pool.State.{Pool}
use ccbase.Memory.Pool.Free.{free_found, do_free_tensor_mem}

-- Where freeing an address answers false, the pool's address map, its event sets and all of its
-- statistics are what they were.
pub do_free_tensor_mem-refuses :
    {D : Type 0} (p : Pool D) (addr : ℕ)
    → (do_free_tensor_mem addr p).0 ≡ false
    → let q = (do_free_tensor_mem addr p).1 in
      (q.addr_mem_buf_allocators ≡ p.addr_mem_buf_allocators)
      × (q.stream_pair_mem_bufs ≡ p.stream_pair_mem_bufs)
      × (q.env ≡ p.env)
unfolding do_free_tensor_mem free_found
do_free_tensor_mem-refuses p addr refused = ground arith
