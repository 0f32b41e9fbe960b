-- ===== src/Memory/Pool/Events.antt =====
-- RecordEvent, WaitEvent and SyncAllEvents of the pool.
use ccbase.Base.{
  ℕ, Bool, true, false, ◌&&◌, none, some, List, [], ◌∷◌, ◌==◌, if◌then◌else◌, add64, sub64,
}
use ccbase.Memory.Types.{used_by_event, is_status}
use ccbase.Memory.Event.{EventBase, record_event, wait_event, is_event_not_used, sync_all_events}
use ccbase.Memory.Heap.{write}
use ccbase.Memory.Pool.State.{
  BufRef, PairMap, Pool, find_addr, find_pair, emplace_pair, erase_in_pair, erase_in_all,
  insert_buf, buf_of, set_allocator, set_stat,
}
use ccbase.Memory.Pool.Free.{do_free_tensor_mem}

-- The set under a key when the iteration comes to it.
abbrev set_at : ℕ × ℕ → PairMap → List BufRef
set_at k m = elim (find_pair k m) [ none ↦ [] | some bs ↦ bs ]

abbrev pub insert_all : List BufRef → List BufRef → List BufRef
insert_all [] cs = cs
insert_all (b ∷ bs) cs = insert_all bs (insert_buf b cs)

-- The buffers under all keys, each once.
unfoldable pub carry_event_mem_bufs : PairMap → List BufRef
unfolding insert_buf
carry_event_mem_bufs [] = []
carry_event_mem_bufs ((_, bs) ∷ m) = insert_all bs (carry_event_mem_bufs m)

module _ {D : Type 0} where
  -- The events of one buffer change.
  abbrev pub set_events : Pool D → BufRef → EventBase → Pool D
  set_events p (r, b) v =
      let a = p.allocators r in
      set_allocator p r
        (record a { heap = write a.heap b (record (a.heap.buf b) { event_base = v }) })

  -- Whether the buffer is not deleted.
  abbrev pub is_live : Pool D → BufRef → Bool
  is_live p (r, b) = (p.allocators r).heap.live b

  -- An access to a deleted buffer: nothing is said of what it does.
  abbrev pub fault : Pool D → Pool D
  fault p = record p { faulted = true }

  abbrev pub add_used_by_event : ℕ → Pool D → Pool D
  add_used_by_event n p =
      let s = p.env.stat in
      set_stat p (record s { used_by_event_size = add64 s.used_by_event_size n })

  abbrev pub sub_used_by_event : ℕ → Pool D → Pool D
  sub_used_by_event n p =
      let s = p.env.stat in
      set_stat p (record s { used_by_event_size = sub64 s.used_by_event_size n })

  -- One address of the list: the size counts from the buffer's first event on.
  unfoldable pub record_at : (task_id user_stream_id event : ℕ) → ℕ × ℕ → Pool D → Pool D
  unfolding find_addr emplace_pair record_event
  record_at t u ev (memory_stream_id, addr) p = elim (find_addr addr p.addr_mem_buf_allocators) [
    | none ↦ p
    | some b ↦
        let v = (buf_of p b).event_base in
        let p₁ = if is_event_not_used v then add_used_by_event (buf_of p b).size p else p in
        record (set_events p₁ b (record_event t u ev v)) {
          stream_pair_mem_bufs = emplace_pair (u, memory_stream_id) b p.stream_pair_mem_bufs;
        }
  ]

  unfoldable pub record_event_all :
      (task_id user_stream_id : ℕ) (memory_stream_addresses : List (ℕ × ℕ)) (event : ℕ)
      → Pool D
      → Bool × Pool D
  unfolding record_at
  record_event_all t u [] ev p = (true, p)
  record_event_all t u (x ∷ xs) ev p = record_event_all t u xs ev (record_at t u ev x p)

  -- The buffer has no event left: it leaves the set, and is freed if it was waiting for that.
  unfoldable pub finish_wait : (key : ℕ × ℕ) → BufRef → Pool D → Pool D
  unfolding erase_in_pair erase_in_all do_free_tensor_mem
  finish_wait key b p =
      let p₁ : Pool D = record p {
        stream_pair_mem_bufs = erase_in_pair key b p.stream_pair_mem_bufs;
      } in
      let p₂ = sub_used_by_event (buf_of p b).size p₁ in
      if is_status (buf_of p b).status used_by_event
      then (do_free_tensor_mem (buf_of p b).addr
          (record p₂ { stream_pair_mem_bufs = erase_in_all b p₂.stream_pair_mem_bufs })).1
      else p₂

  -- The task id is cut to 32 bits by `EventBase::WaitEvent`. Nothing checks that the buffer still
  -- exists.
  unfoldable pub wait_at : (task_id : ℕ) (key : ℕ × ℕ) → BufRef → Pool D → Pool D
  unfolding finish_wait wait_event
  wait_at t (u, m) b p =
      let (_, v) = wait_event t u (buf_of p b).event_base in
      let p₁ = set_events p b v in
      let p₂ = if is_event_not_used v then finish_wait (u, m) b p₁ else p₁ in
      if is_live p b then p₂ else fault p

  unfoldable pub wait_each : (task_id : ℕ) (key : ℕ × ℕ) → List BufRef → Pool D → Pool D
  unfolding wait_at
  wait_each t key [] p = p
  wait_each t key (b ∷ bs) p = wait_each t key bs (wait_at t key b p)

  -- `WaitEvent(task_id_on_stream, user_stream_id, memory_stream_id)`: the set is copied first.
  unfoldable pub pool_wait_event :
      (task_id user_stream_id memory_stream_id : ℕ) → Pool D → Bool × Pool D
  unfolding wait_each find_pair
  pool_wait_event t u m p = elim (find_pair (u, m) p.stream_pair_mem_bufs) [
    | none ↦ (false, p)
    | some bs ↦ (true, wait_each t (u, m) bs p)
  ]

  -- `WaitEvent(task_id_on_stream, memory_stream_id)`, over the keys of the map in order.
  unfoldable pub wait_memory_stream : (task_id memory_stream_id : ℕ) → PairMap → Pool D → Pool D
  unfolding wait_each find_pair
  wait_memory_stream t m [] p = p
  wait_memory_stream t m (((u, n), _) ∷ ks) p =
      wait_memory_stream t m ks
        (if n == m then wait_each t (u, n) (set_at (u, n) p.stream_pair_mem_bufs) p else p)

  unfoldable pub pool_wait_all_users : (task_id memory_stream_id : ℕ) → Pool D → Bool × Pool D
  unfolding wait_memory_stream
  pool_wait_all_users t m p = (true, wait_memory_stream t m p.stream_pair_mem_bufs p)

  -- Nothing checks that the buffer still exists.
  unfoldable pub sync_at : BufRef → Pool D → Pool D
  unfolding sync_all_events do_free_tensor_mem
  sync_at b p =
      let (synced, v) = sync_all_events (buf_of p b).event_base in
      let p₁ = set_events p b v in
      let p₂ =
        if synced && is_status (buf_of p b).status used_by_event
        then (do_free_tensor_mem (buf_of p b).addr p₁).1
        else p₁ in
      if is_live p b then p₂ else fault p

  unfoldable pub sync_each : List BufRef → Pool D → Pool D
  unfolding sync_at
  sync_each [] p = p
  sync_each (b ∷ bs) p = sync_each bs (sync_at b p)

  unfoldable pub do_sync_all_events : Pool D → Bool × Pool D
  unfolding sync_each carry_event_mem_bufs
  do_sync_all_events p = elim p.stream_pair_mem_bufs [
    | [] ↦ (false, p)
    | _ ∷ _ ↦ (
      true,
      record (sync_each (carry_event_mem_bufs p.stream_pair_mem_bufs) p) {
        stream_pair_mem_bufs = [];
      },
    )
  ]
