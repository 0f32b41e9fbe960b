-- ===== src/Libc/ConcurrentQueue.antt =====
-- The queue of libc/concurrent_queue.h and .cc: a linked list behind a node without a value, with
-- a mutex for its head, a mutex for its tail and a condition variable. Threads run its operations
-- one access of the shared memory at a time.
pub mod Turns
pub mod System
pub mod Chain
pub mod Owns
pub mod Stable
pub mod Keeps
pub mod Locks
pub mod Writes
pub mod Links
pub mod Fine
pub mod Laws
pub mod Safety
pub mod Waits
mod Runs
mod Tests
use ccbase.Base.{ℕ, Bool, Option}

-- `Node`: `item` for `data`, which is an address, 0 for NULL, and `next` is `none` for NULL.
pub record QueueNode : Type 0 where
  pub item : ℕ
  pub next : Option ℕ

-- The memory that `malloc_func` gave and `free_func` has not taken back.
abbrev pub NodeStore : Type 0
NodeStore = ℕ → Option QueueNode

-- `ConcurrentQueue`: a mutex is the thread that holds it. The condition variable has no state but
-- the threads that wait on it.
pub record ConcurrentQueue : Type 0 where
  pub store : NodeStore
  pub head : ℕ
  pub tail : ℕ
  pub head_mutex : Option ℕ
  pub tail_mutex : Option ℕ

-- Where a thread stands, with its local variables that are live there.
pub data Place : Type 0 where
  outside : Place
  -- concurrent_queue_enqueue
  allocating : (d : ℕ) → Place
  filling : (d n : ℕ) → Place
  tail_lock : (d n : ℕ) → Place
  tail_link : (d n : ℕ) → Place
  tail_move : (n : ℕ) → Place
  tail_unlock : Place
  signalling : Place
  -- concurrent_queue_dequeue (`blocks`) and concurrent_queue_try_dequeue
  head_lock : (blocks : Bool) → Place
  head_test : (blocks : Bool) → Place
  head_wait : Place  -- before `pthread_cond_wait`
  waiting : Place
  take_head : Place
  take_next : (dummy : ℕ) → Place
  take_data : (dummy r : ℕ) → Place
  head_move : (dummy r : ℕ) (v : ℕ) → Place
  head_unlock : (dummy : ℕ) (v : ℕ) → Place
  freeing : (dummy : ℕ) (v : ℕ) → Place
  empty_unlock : Place
  -- the result, `none` for a 0 of concurrent_queue_try_dequeue
  returning : (result : Option ℕ) → Place
  -- an access to memory that is not allocated, or the unlock of a mutex that another thread holds
  crashed : Place
