-- ===== src/Libc/ConcurrentQueue/Owns.antt =====
-- About what a thread relies on at each place of libc/concurrent_queue.cc.
use ccbase.Base.{ℕ, ◌≡◌, ◌⊎◌, Bool, true, false, Option, none, some, List, ◌∷◌, has, Distinct}
use ccbase.Libc.ConcurrentQueue.{
  QueueNode, ConcurrentQueue, Place, filling, tail_lock, tail_link, tail_move, tail_unlock,
  head_test, head_wait, take_head, take_next, take_data, head_move, head_unlock, freeing,
  empty_unlock, crashed,
}
use ccbase.Libc.ConcurrentQueue.System.{System}
use ccbase.Libc.ConcurrentQueue.Chain.{Linked, first, last_node}

-- A node that is allocated and not in the list.
abbrev pub Private : ConcurrentQueue → List ℕ → ℕ → Type 0
Private q l n = ((c : QueueNode) × (q.store n ≡ some c)) × (has n (q.head ∷ l) ≡ false)

abbrev pub Filled : ConcurrentQueue → List ℕ → ℕ → ℕ → Type 0
Filled q l d n =
    (q.store n ≡ some (record { item = d; next = none })) × (has n (q.head ∷ l) ≡ false)

abbrev pub Owns : ConcurrentQueue → List ℕ → ℕ → Place → Type 0
Owns q l i (filling d n) = Private q l n
Owns q l i (tail_lock d n) = Filled q l d n
Owns q l i (tail_link d n) =
    Filled q l d n × (q.tail_mutex ≡ some i) × (q.tail ≡ last_node q.head l)
Owns q l i (tail_move n) = (q.tail_mutex ≡ some i) × (n ≡ last_node q.head l)
Owns q l i tail_unlock = (q.tail_mutex ≡ some i) × (q.tail ≡ last_node q.head l)
Owns q l i (head_test blocks) = q.head_mutex ≡ some i
Owns q l i head_wait = q.head_mutex ≡ some i
Owns q l i take_head = (q.head_mutex ≡ some i) × ((r : ℕ) × (first l ≡ some r))
Owns q l i (take_next dummy) =
    (q.head_mutex ≡ some i) × (dummy ≡ q.head) × ((r : ℕ) × (first l ≡ some r))
Owns q l i (take_data dummy r) = (q.head_mutex ≡ some i) × (dummy ≡ q.head) × (first l ≡ some r)
Owns q l i (head_move dummy r v) =
    (q.head_mutex ≡ some i)
    × (dummy ≡ q.head)
    × (first l ≡ some r)
    × ((c : QueueNode) × (q.store r ≡ some c) × (c.item ≡ v))
Owns q l i (head_unlock dummy v) = (q.head_mutex ≡ some i) × Private q l dummy
Owns q l i (freeing dummy v) = Private q l dummy
Owns q l i empty_unlock = q.head_mutex ≡ some i
Owns q l i crashed = ⊥
Owns q l i p = Unit {0}

-- The node that belongs to a thread alone.
abbrev pub held : Place → Option ℕ
held (filling d n) = some n
held (tail_lock d n) = some n
held (tail_link d n) = some n
held (head_unlock dummy v) = some dummy
held (freeing dummy v) = some dummy
held p = none

-- The places between taking a mutex and giving it back.
abbrev pub has_head : Place → Bool
has_head (head_test blocks) = true
has_head head_wait = true
has_head take_head = true
has_head (take_next dummy) = true
has_head (take_data dummy r) = true
has_head (head_move dummy r v) = true
has_head (head_unlock dummy v) = true
has_head empty_unlock = true
has_head p = false

abbrev pub has_tail : Place → Bool
has_tail (tail_link d n) = true
has_tail (tail_move n) = true
has_tail tail_unlock = true
has_tail p = false

-- What holds between any two accesses, `l` being the addresses behind the head.
pub record Holds (s : System) (l : List ℕ) : Type 0 where
  pub linked : Linked s.queue.store s.queue.head l
  pub distinct : Distinct (s.queue.head ∷ l)
  pub owns : (i : ℕ) → Owns s.queue l i (s.places i)
  pub apart : (i j n : ℕ) → held (s.places i) ≡ some n → held (s.places j) ≡ some n → i ≡ j
  pub settled : s.queue.tail_mutex ≡ none → s.queue.tail ≡ last_node s.queue.head l
  pub of_head : (i : ℕ) → s.queue.head_mutex ≡ some i → has_head (s.places i) ≡ true
  pub of_tail : (i : ℕ) → s.queue.tail_mutex ≡ some i → has_tail (s.places i) ≡ true
  -- no node is lost
  pub kept :
      (n : ℕ) (c : QueueNode)
      → s.queue.store n ≡ some c
      → (has n (s.queue.head ∷ l) ≡ true) ⊎ ((i : ℕ) × (held (s.places i) ≡ some n))
