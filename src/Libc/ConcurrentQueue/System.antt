-- ===== src/Libc/ConcurrentQueue/System.antt =====
-- Threads on one queue of libc/concurrent_queue.cc, interleaved in any order.
use ccbase.Base.{ℕ, ◌≡◌, ◌≢◌, Bool, true, none, some, List, [], ◌++◌, ◌==◌, if◌then◌else◌}
use ccbase.Libc.ConcurrentQueue.{
  QueueNode, ConcurrentQueue, Place, outside, allocating, filling, signalling, head_lock, waiting,
}
use ccbase.Libc.ConcurrentQueue.Turns.{put_node, Turn, act, init_queue}

-- A thread that is not in an operation is `outside`.
pub record System : Type 0 where
  pub queue : ConcurrentQueue
  pub places : ℕ → Place

abbrev pub set_place : (ℕ → Place) → ℕ → Place → ℕ → Place
set_place ps i p = λ j. if j == i then p else ps j

-- A step of the threads, with the values that it puts into the queue and takes out.
pub data Step (s : System) : List ℕ → List ℕ → System → Type 0 where
  call_enqueue :
      (i d : ℕ)
      → s.places i ≡ outside
      → Step s [] [] (record s { places = set_place s.places i (allocating d) })
  call_dequeue :
      (i : ℕ) (blocks : Bool)
      → s.places i ≡ outside
      → Step s [] [] (record s { places = set_place s.places i (head_lock blocks) })
  -- `malloc_func` returns memory that is not in use, with anything in it.
  malloc :
      (i d n : ℕ) (c : QueueNode)
      → s.places i ≡ allocating d
      → s.queue.store n ≡ none
      → Step s [] [] (record {
        queue = record s.queue { store = put_node s.queue.store n (some c) };
        places = set_place s.places i (filling d n);
      })
  turn :
      (i : ℕ) (t : Turn)
      → act i s.queue (s.places i) ≡ some t
      → Step s t.puts t.gots (record { queue = t.queue; places = set_place s.places i t.place })
  -- `pthread_cond_signal` with a thread that waits, and without one
  signal :
      (i j : ℕ)
      → s.places i ≡ signalling
      → s.places j ≡ waiting
      → Step s [] []
          (record s { places = set_place (set_place s.places i outside) j (head_lock true) })
  signal_none :
      (i : ℕ)
      → s.places i ≡ signalling
      → ((j : ℕ) → s.places j ≢ waiting)
      → Step s [] [] (record s { places = set_place s.places i outside })
  -- `pthread_cond_wait` may return without a signal.
  wake :
      (j : ℕ)
      → s.places j ≡ waiting
      → Step s [] [] (record s { places = set_place s.places j (head_lock true) })

abbrev pub start_of : ℕ → System
start_of dummy = record { queue = init_queue (λ a. none) dummy; places = λ i. outside }

-- The states that a queue can come to, with all that was put in and taken out, in order.
pub data Reach (dummy : ℕ) : List ℕ → List ℕ → System → Type 0 where
  begin : Reach dummy [] [] (start_of dummy)
  later :
      {puts gots more_puts more_gots : List ℕ} {s t : System}
      → Reach dummy puts gots s
      → Step s more_puts more_gots t
      → Reach dummy (puts ++ more_puts) (gots ++ more_gots) t
