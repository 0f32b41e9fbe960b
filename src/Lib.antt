-- ===== src/Lib.antt =====
-- The ccbase repository: the dynamic memory pool in memory/, and containers beside it.
--
-- The pool hands out device memory. AbstractDynamicMemPool keeps one MemBufAllocator for each
-- stream and kind of memory, with a map from addresses to buffers; an allocator cuts the blocks
-- it gets from the device into buffers (MemBuf), keeps the free ones in two ordered sets, and
-- merges neighbours when a buffer is freed; a buffer may be held back by events of other streams
-- (EventBase).
--
-- Which file is about which code, with the source's function for each operation:
-- Base: numbers, tests, lists, and the 64-bit words (`add64`, `sub64`) of size_t.
-- Memory/Types, Memory/Stat: the enumerations, AlignMemorySize, MemStat and MemBlock
--   (memory/dynamic_memory_pool.h, memory/abstract_dynamic_memory_pool.h).
-- Memory/Event: EventBase (memory/dynamic_memory_pool.cc). An event is a number; the calls
--   on device events are commented out in the source.
-- Memory/Heap: the buffers as a store, a `MemBuf *` being a number and null 0. `split` is the
--   second half of MapAndSplitMemBuf, `relink_prev` and `relink_next` the two merges of Free.
-- Memory/BufSet: std::set with MemBufComparator, as a list in its order.
-- Memory/Allocator: MemBufAllocator: `malloc` (Malloc), `malloc_expand_block`,
--   `map_and_split_mem_buf`, `free` (Free); in Release `free_idle_mems_by_eager_free` and
--   `release_device_res`.
--   The callbacks are the record `Hooks`, which change the shared `Env` (statistics, device).
--   Child modules: the invariant (Valid), lemmas about it by operation (Moves, Splits, Malloc, Expand,
--   Merge, Free, Eager), idle neighbours (Coalesced, Spread), the choice of a buffer (Fit), the
--   other buffers in use (Frame), the
--   bytes that the buffers cover (Bytes), and what one operation of an allocator means to the pool
--   (Advance, MallocAdvance, EagerAdvance, Fresh).
-- Memory/Pool: AbstractDynamicMemPool (memory/abstract_dynamic_memory_pool.cc): State, Device (the
--   virtual functions of the device, a parameter, and the callbacks), BlockSize
--   (CalMemBlockAllocSize), Alloc (AllocTensorMem with its fallbacks), Free (DoFreeTensorMem,
--   DefragMemory), Events (RecordEvent, WaitEvent, DoSyncAllEvents), Continuous
--   (AllocContinuousTensorMem), Part (DoFreePartTensorMems), Statistics. Accounts and FreeAccounts
--   relate the address map to the allocators and to the used size; FreeErrors is about refusals.
--   Sound is the invariant of the pool with its device, and Bound, Enter, FreeSound, FreeOthers,
--   WithEvents, RecordSound, EventSound, IdleSound, GetSound, AllocSound and TensorSound are the
--   lemmas for each operation. The waits for events (`wait_at`, `sync_at`) reach buffers through
--   stream_pair_mem_bufs_, which may hold deleted ones: such an access is undefined, and sets the
--   flag `faulted` of the model's pool, behind which its state says nothing. Tracked is the condition
--   that all those buffers are in use; WaitEvent and DoFreeTensorMem can break it, as a run in
--   SoundTests shows. What is relied on of the device is DeviceLaws in Laws: a
--   predicate `taken` on its state and an address, such that memory that it hands out was not taken
--   before, is taken then, and stays so. MemoryPool (memory/memory_pool.h) is such a device while
--   malloc succeeds; where malloc gives NULL, it answers the requested size all the same, which the
--   laws exclude. SetMemPoolBlockSize, which CalMemBlockAllocSize calls, does nothing in
--   memory/dynamic_memory_pool.h and is left out.
-- Memory/Status: MemStatusManager, DynamicMemBlock and DeviceState (memory/dynamic_memory_pool.cc),
--   whose shared objects are a store that the operations read.
-- Libc/HashMap: RobinHoodHashMap (libc/map.h), the hash table that the tracing library uses. The
--   entries are a function of the index, and what an unoccupied entry holds is left out, as it is
--   never read. `place` is the loop of insert, `probe` that of find, `shift_back` the inner loop of
--   erase. Keys, values, std::hash and == are parameters. Ring and Slots have the indices and the
--   well-formed tables, Find the lookup, Place, Loop, Update, Insert and Resize the insertion,
--   Shift and Erase what an erasure leaves, and Refine the abstract map. Each loop has the capacity, or one
--   round more, as its fuel; insert and resize_table call one another at most twice. The load factor
--   size / capacity ≥ 0.75 is compared without division; a capacity above 2^63 and a probe distance
--   above 2^31 are left out.
-- Libc/ConcurrentQueue: ConcurrentQueue (libc/concurrent_queue.cc), with any number of threads.
--   `act` is the next access of a thread in enqueue, dequeue or try_dequeue, and Step a step of one
--   thread, which leaves open what malloc returns, whom a signal wakes and who wakes without one.
--   The accesses are taken to be sequentially consistent single steps. The source promises less: when
--   the queue is empty, dequeue reads head->next under head_mutex while enqueue writes the same field
--   as tail->next under tail_mutex, a data race, which C leaves undefined.
--   Turns and System have these, Chain the linked list, Owns what each thread relies on (`Holds`),
--   Stable, Keeps, Locks, Writes, Links and Fine that each access leaves it true, Laws all runs,
--   Safety the memory and the values, Waits the mutexes and the signals. `destroy_from` is the loop
--   of destroy; Runs are schedules for the tests.
-- Application/SkipList: SkipList (application/src/skiplist.h), with nodes in a store and `none` for
--   a call that goes through NULL, a deleted node or the end of `forward`. `walk` is the inner and
--   `descend` the outer loop of a search, on fuel for more rounds than there are nodes; Change has
--   insert_element (`link_levels` is its last loop) and delete_element (`unlink`, `lower_level`),
--   Whole dump_file and the destructor. Keys are compared by a parameter, KeyOps, with the laws of a
--   strict order in KeyOrder; the results of rand and the address that new gives are arguments.
--   Towers has the list of each level, Order and Entries the sorted keys, Walks and Search the
--   search, Writes and Splices one write and one level, Links, Loop, Insert and Puts the insertion,
--   Unlink, Removal, Delete and Drops the deletion.
-- Nice/HQueue: HQueue (nice/include/hqueue.h), the linked queue in a fixed set of nodes. `claim` is
--   one search of Enqueue for a free node, `link_node` its loop, `dequeue_loop` that of Dequeue, with
--   as many rounds as there are nodes as their fuel. The calls run one after the other, so that
--   no compare-and-exchange fails; interleavings are not modelled. Tally, Chain and Busy are about
--   the nodes, Claim and Loops about the loops, Bounded is the abstract queue, and Represents, Steps
--   and Refine relate the two.
-- Tests modules run the code on small inputs.
--
-- Numbers: size_t is a number below 2^64 whose wrap-around is written out where the code adds or
-- subtracts sizes. Addresses are numbers, and a buffer ends below 2^64. The doubling loop of
-- CalMemBlockAllocSize has fuel for 65 rounds, one more than the bits of a word; for a unit size
-- of 0 it does not end in the source.
--
-- Not modelled: printing and the pool's dumps, the profiling reports, the lock of the pool and the
-- mutex of the skip list (each of their operations is one step), load_file of the skip list, a
-- malloc that returns NULL in the concurrent queue, the device behind the virtual functions, and the
-- other directories of the repository.
pub mod Application
pub mod Base
pub mod Libc
pub mod Memory
pub mod Nice
