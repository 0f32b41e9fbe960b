-- ===== src/Libc/ConcurrentQueue/Runs.antt =====
-- Runs of threads on a queue of libc/concurrent_queue.cc, by evaluation.
use ccbase.Base.{ℕ, ◌≡◌, refl, Bool, true, Option, none, some, List, [], ◌∷◌}
use ccbase.Libc.ConcurrentQueue.{QueueNode, Place, outside, allocating}
use ccbase.Libc.ConcurrentQueue.Turns.{Turn, act}
use ccbase.Libc.ConcurrentQueue.System.{
  System, call_enqueue, call_dequeue, malloc, turn, start_of, Reach, begin, later,
}

pub record Run : Type 0 where
  pub puts : List ℕ
  pub gots : List ℕ
  pub last : System
  pub reach : Reach 10 puts gots last

abbrev pub new_run : Run
new_run = record { puts = []; gots = []; last = start_of 10; reach = begin }

abbrev with_call : (r : Run) (i d : ℕ) (p : Place) → r.last.places i ≡ p → Run
with_call r i d outside e = record {
  puts = _;
  gots = _;
  last = _;
  reach = later r.reach (call_enqueue i d e);
}
with_call r i d p e = r

abbrev pub enqueues : Run → ℕ → ℕ → Run
enqueues r i d = with_call r i d (r.last.places i) refl

abbrev with_dequeue : (r : Run) (i : ℕ) (b : Bool) (p : Place) → r.last.places i ≡ p → Run
with_dequeue r i b outside e = record {
  puts = _;
  gots = _;
  last = _;
  reach = later r.reach (call_dequeue i b e);
}
with_dequeue r i b p e = r

abbrev pub dequeues : Run → ℕ → Bool → Run
dequeues r i b = with_dequeue r i b (r.last.places i) refl

abbrev with_memory :
    (r : Run) (i n : ℕ) (p : Place) (o : Option QueueNode)
    → r.last.places i ≡ p
    → r.last.queue.store n ≡ o
    → Run
with_memory r i n (allocating d) none e f = record {
  puts = _;
  gots = _;
  last = _;
  reach = later r.reach (malloc i d n (record { item = 99; next = some n }) e f);
}
with_memory r i n p o e f = r

abbrev pub mallocs : Run → ℕ → ℕ → Run
mallocs r i n = with_memory r i n (r.last.places i) (r.last.queue.store n) refl refl

abbrev with_turn :
    (r : Run) (i : ℕ) (o : Option Turn) → act i r.last.queue (r.last.places i) ≡ o → Run
with_turn r i none e = r
with_turn r i (some t) e = record {
  puts = _;
  gots = _;
  last = _;
  reach = later r.reach (turn i t e);
}

-- The accesses of the listed threads, each as far as it goes on alone.
unfoldable pub turns : Run → List ℕ → Run
unfolding act
turns r [] = r
turns r (i ∷ is) = turns (with_turn r i (act i r.last.queue (r.last.places i)) refl) is

-- Thread 0 finds the queue empty, and thread 1 puts the value 7 in.
abbrev pub crossed : Run
crossed =
    turns (mallocs (enqueues (turns (dequeues new_run 0 true) (0 ∷ 0 ∷ [])) 1 7) 1 20)
      (1 ∷ 1 ∷ 1 ∷ 1 ∷ 1 ∷ [])
