-- ===== src/Libc/ConcurrentQueue/Tests.antt =====
-- Concrete runs of the queue of libc/concurrent_queue.cc.
use ccbase.Base.{
  ℕ, zero, suc, ◌≤◌, ◌≡◌, ◌≢◌, ◌⊎◌, refl, true, false, none, some, List, [], ◌∷◌, ◌++◌, length,
  arith,
}
use ccbase.Libc.ConcurrentQueue.{
  NodeStore, QueueNode, outside, waiting, signalling, crashed, returning, head_wait,
}
use ccbase.Libc.ConcurrentQueue.Turns.{Turn, act, destroy_from}
use ccbase.Libc.ConcurrentQueue.System.{System, signal_none, Reach, later}
use ccbase.Libc.ConcurrentQueue.Chain.{Linked, items}
use ccbase.Libc.ConcurrentQueue.Owns.{has_head, has_tail}
use ccbase.Libc.ConcurrentQueue.Safety.{Reach-fifo, Reach-safe, destroy_frees_all}
use ccbase.Libc.ConcurrentQueue.Waits.{wants_mutex, mutex_progress, signal_lost}
use ccbase.Libc.ConcurrentQueue.Runs.{Run, new_run, enqueues, dequeues, mallocs, turns, crossed}

crossed_places : (crossed.last.places 0 ≡ head_wait) × (crossed.last.places 1 ≡ signalling)
unfolding turns act
crossed_places = (refl, refl)

crossed_awake : (j : ℕ) → crossed.last.places j ≢ waiting
unfolding turns act
crossed_awake zero e = ground arith
crossed_awake (suc zero) e = ground arith
crossed_awake (suc (suc j)) e = ground arith

crossed_values : (crossed.puts ≡ 7 ∷ []) × (crossed.gots ≡ [])
unfolding turns act
crossed_values = (refl, refl)

some_left : (puts gots : List ℕ) → puts ≡ 7 ∷ [] → gots ≡ [] → puts ≢ gots
some_left puts gots a b e = cc

crossed_left : crossed.puts ≢ crossed.gots
crossed_left = some_left crossed.puts crossed.gots crossed_values.0 crossed_values.1

-- Thread 1 puts in 7 and 8, and thread 2 takes one of them.
abbrev filled : Run
filled = turns (mallocs (enqueues new_run 1 7) 1 20) (1 ∷ 1 ∷ 1 ∷ 1 ∷ 1 ∷ [])

filled_awake : (j : ℕ) → filled.last.places j ≢ waiting
unfolding turns act
filled_awake zero e = ground arith
filled_awake (suc zero) e = ground arith
filled_awake (suc (suc j)) e = ground arith

abbrev idle_run : Run
unfolding turns act
idle_run = record {
  puts = _;
  gots = _;
  last = _;
  reach = later filled.reach (signal_none 1 refl filled_awake);
}

abbrev taken_run : Run
taken_run = turns (dequeues idle_run 2 true) (2 ∷ 2 ∷ 2 ∷ 2 ∷ 2 ∷ 2 ∷ 2 ∷ 2 ∷ [])

taken_result :
    (taken_run.puts ≡ 7 ∷ [])
    × (taken_run.gots ≡ 7 ∷ [])
    × (taken_run.last.places 2 ≡ returning (some 7))
unfolding turns act
taken_result = (refl, refl, refl)

Reach-fifo_example :
    (l : List ℕ) × Linked crossed.last.queue.store crossed.last.queue.head l
    × (crossed.puts ≡ crossed.gots ++ items crossed.last.queue.store l)
Reach-fifo_example = Reach-fifo crossed.reach

Reach-safe_example : taken_run.last.places 2 ≢ crashed
Reach-safe_example = Reach-safe taken_run.reach 2

idle_outside : (i : ℕ) → idle_run.last.places i ≡ outside
unfolding turns act
idle_outside zero = refl
idle_outside (suc zero) = refl
idle_outside (suc (suc i)) = ground arith

destroy_frees_all_example :
    (queued : List ℕ) × (idle_run.puts ≡ idle_run.gots ++ queued)
    × ((fuel : ℕ)
        → suc (length queued) ≤ fuel
        → (ns : NodeStore) × (destroy_from fuel idle_run.last.queue.store
              (some idle_run.last.queue.head)
            ≡ some ns)
          × ((a : ℕ) → ns a ≡ none))
destroy_frees_all_example = destroy_frees_all idle_run.reach idle_outside

-- Thread 0 holds the head, and thread 2 wants it.
abbrev contended : Run
contended = dequeues (turns (dequeues new_run 0 true) (0 ∷ [])) 2 false

contended_wants : wants_mutex (contended.last.places 2) ≡ true
unfolding turns act
contended_wants = refl

mutex_progress_example :
    (j : ℕ) × (t : Turn) × (act j contended.last.queue (contended.last.places j) ≡ some t)
    × ((j ≡ 2)
        ⊎ ((has_head (contended.last.places j) ≡ true)
            ⊎ (has_tail (contended.last.places j) ≡ true)))
mutex_progress_example = mutex_progress contended.reach 2 contended_wants

signal_lost_example :
    (t : System) × Reach 10 crossed.puts crossed.gots t
    × (t.places 0 ≡ waiting)
    × (t.places 1 ≡ outside)
    × ((j : ℕ) → j ≢ 0 → j ≢ 1 → t.places j ≡ crossed.last.places j)
    × (t.queue.store ≡ crossed.last.queue.store)
    × (t.queue.head ≡ crossed.last.queue.head)
    × ((c : QueueNode) × (n : ℕ) × (t.queue.store t.queue.head ≡ some c) × (c.next ≡ some n))
    × (act 0 t.queue (t.places 0) ≡ none)
signal_lost_example =
    signal_lost crossed.reach 0 1 crossed_places.0 crossed_places.1 crossed_awake crossed_left
