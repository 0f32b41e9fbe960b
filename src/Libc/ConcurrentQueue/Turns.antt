-- ===== src/Libc/ConcurrentQueue/Turns.antt =====
-- What a thread does with its next access in libc/concurrent_queue.cc.
use ccbase.Base.{
  ℕ, zero, suc, Bool, true, false, Option, none, some, List, [], ◌∷◌, ◌==◌, if◌then◌else◌,
}
use ccbase.Libc.ConcurrentQueue.{
  QueueNode, NodeStore, ConcurrentQueue, Place, outside, allocating, filling, tail_lock, tail_link,
  tail_move, tail_unlock, signalling, head_lock, head_test, head_wait, waiting, take_head,
  take_next, take_data, head_move, head_unlock, freeing, empty_unlock, returning, crashed,
}

abbrev pub put_node : NodeStore → ℕ → Option QueueNode → NodeStore
put_node ns a c = λ b. if b == a then c else ns b

-- The queue and the place behind an access, and the values that it put into the queue or took out.
pub record Turn : Type 0 where
  pub queue : ConcurrentQueue
  pub place : Place
  pub puts : List ℕ
  pub gots : List ℕ

abbrev pub goes : ConcurrentQueue → Place → Turn
goes q p = record { queue = q; place = p; puts = []; gots = [] }

-- `pthread_mutex_lock`: `none` while the mutex is held.
abbrev pub locks : Option ℕ → Turn → Option Turn
locks none t = some t
locks (some j) t = none

-- `pthread_mutex_unlock` by the thread that holds the mutex.
abbrev pub unlocks : ℕ → Option ℕ → ConcurrentQueue → Turn → Turn
unlocks i none q t = goes q crashed
unlocks i (some j) q t = if j == i then t else goes q crashed

-- An access of a node through its address.
abbrev pub reads : Option QueueNode → ConcurrentQueue → (QueueNode → Turn) → Turn
reads none q k = goes q crashed
reads (some c) q k = k c

-- `q->head->next == NULL`
abbrev pub tests : ConcurrentQueue → Bool → Option ℕ → Turn
tests q true none = goes q head_wait
tests q false none = goes q empty_unlock
tests q blocks (some r) = goes q take_head

abbrev pub follows : ConcurrentQueue → ℕ → Option ℕ → Turn
follows q dummy none = goes q crashed
follows q dummy (some r) = goes q (take_data dummy r)

-- The next access of thread `i`: `none` while it waits for a mutex, and where what follows is not
-- the thread's choice (`System.Step`).
unfoldable pub act : ℕ → ConcurrentQueue → Place → Option Turn
act i q outside = none
act i q (allocating d) = none
act i q (filling d n) = some (
    reads (q.store n) q λ c.
      goes (record q { store = put_node q.store n (some (record { item = d; next = none })) })
        (tail_lock d n))
act i q (tail_lock d n) =
    locks q.tail_mutex (goes (record q { tail_mutex = some i }) (tail_link d n))
act i q (tail_link d n) = some (
    reads (q.store q.tail) q λ c. record {
      queue = record q { store = put_node q.store q.tail (some (record c { next = some n })) };
      place = tail_move n;
      puts = d ∷ [];
      gots = [];
    })
act i q (tail_move n) = some (goes (record q { tail = n }) tail_unlock)
act i q tail_unlock =
    some (unlocks i q.tail_mutex q (goes (record q { tail_mutex = none }) signalling))
act i q signalling = none
act i q (head_lock blocks) =
    locks q.head_mutex (goes (record q { head_mutex = some i }) (head_test blocks))
act i q (head_test blocks) = some (reads (q.store q.head) q λ c. tests q blocks c.next)
act i q head_wait = some (unlocks i q.head_mutex q (goes (record q { head_mutex = none }) waiting))
act i q waiting = none
act i q take_head = some (goes q (take_next q.head))
act i q (take_next dummy) = some (reads (q.store dummy) q λ c. follows q dummy c.next)
act i q (take_data dummy r) = some (reads (q.store r) q λ c. goes q (head_move dummy r c.item))
act i q (head_move dummy r v) = some (record {
  queue = record q { head = r };
  place = head_unlock dummy v;
  puts = [];
  gots = v ∷ [];
})
act i q (head_unlock dummy v) =
    some (unlocks i q.head_mutex q (goes (record q { head_mutex = none }) (freeing dummy v)))
act i q (freeing dummy v) = some (
    reads (q.store dummy) q
      λ c. goes (record q { store = put_node q.store dummy none }) (returning (some v)))
act i q empty_unlock =
    some (unlocks i q.head_mutex q (goes (record q { head_mutex = none }) (returning none)))
act i q (returning result) = some (goes q outside)
act i q crashed = none

-- `concurrent_queue_init`, with the address that `malloc_func` returned for the node in front.
abbrev pub init_queue : NodeStore → ℕ → ConcurrentQueue
init_queue ns dummy = record {
  store = put_node ns dummy (some (record { item = 0; next = none }));
  head = dummy;
  tail = dummy;
  head_mutex = none;
  tail_mutex = none;
}

-- The loop of `concurrent_queue_destroy`, on fuel; `none` where it frees what is not allocated or
-- runs out of fuel.
unfoldable pub destroy_from : ℕ → NodeStore → Option ℕ → Option NodeStore
destroy_from fuel ns none = some ns
destroy_from zero ns (some a) = none
destroy_from (suc fuel) ns (some a) = elim (ns a) [
  | none ↦ none
  | some c ↦ destroy_from fuel (put_node ns a none) c.next
]
