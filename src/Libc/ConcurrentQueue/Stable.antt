-- ===== src/Libc/ConcurrentQueue/Stable.antt =====
-- About a thread of libc/concurrent_queue.cc while another one makes its access.
use ccbase.Base.{ℕ, ◌≡◌, ◌≢◌, refl, false, Option, some, List, ◌∷◌, arith, has}
use ccbase.Libc.ConcurrentQueue.{
  QueueNode, ConcurrentQueue, Place, outside, allocating, filling, tail_lock, tail_link, tail_move,
  tail_unlock, signalling, head_lock, head_test, head_wait, waiting, take_head, take_next,
  take_data, head_move, head_unlock, freeing, empty_unlock, returning, crashed,
}
use ccbase.Libc.ConcurrentQueue.Chain.{first, last_node}
use ccbase.Libc.ConcurrentQueue.Owns.{Owns, held}

-- What an access leaves to the thread `j`, where `x` is the private node that it writes.
pub record Leaves (q q' : ConcurrentQueue) (l l' : List ℕ) (j : ℕ) (x : Option ℕ) : Type 0 where
  pub head_left : q.head_mutex ≡ some j → q'.head_mutex ≡ some j
  pub tail_left : q.tail_mutex ≡ some j → q'.tail_mutex ≡ some j
  pub first_left :
      q.head_mutex ≡ some j → (r : ℕ) → first l ≡ some r → (q'.head ≡ q.head) × (first l' ≡ some r)
  pub item_left :
      q.head_mutex ≡ some j
      → (r : ℕ) (c : QueueNode) → first l ≡ some r
      → q.store r ≡ some c
      → (c' : QueueNode) × (q'.store r ≡ some c') × (c'.item ≡ c.item)
  pub last_left :
      q.tail_mutex ≡ some j → (q'.tail ≡ q.tail) × (last_node q'.head l' ≡ last_node q.head l)
  pub node_left :
      (n : ℕ) (c : QueueNode)
      → x ≢ some n
      → q.store n ≡ some c
      → has n (q.head ∷ l) ≡ false
      → (q'.store n ≡ some c) × (has n (q'.head ∷ l') ≡ false)

pub Owns-Leaves :
    {q q' : ConcurrentQueue} {l l' : List ℕ} {j : ℕ} {x : Option ℕ}
    → Leaves q q' l l' j x
    → (p : Place) → ((n : ℕ) → held p ≡ some n → x ≢ some n)
    → Owns q l j p
    → Owns q' l' j p
Owns-Leaves k (filling d n) u ((c, e), o) =
    let f = k.node_left n c (u n refl) e o in ((c, f.0), f.1)
Owns-Leaves k (tail_lock d n) u (e, o) = k.node_left n _ (u n refl) e o
Owns-Leaves k (tail_link d n) u ((e, o), m, t) =
    let f = k.last_left m in (k.node_left n _ (u n refl) e o, k.tail_left m, ground arith)
Owns-Leaves k (tail_move n) u (m, t) = let f = k.last_left m in (k.tail_left m, ground arith)
Owns-Leaves k tail_unlock u (m, t) = let f = k.last_left m in (k.tail_left m, ground arith)
Owns-Leaves k (head_test blocks) u m = k.head_left m
Owns-Leaves k head_wait u m = k.head_left m
Owns-Leaves k take_head u (m, (r, e)) = (k.head_left m, (r, (k.first_left m r e).1))
Owns-Leaves k (take_next dummy) u (m, h, (r, e)) =
    let f = k.first_left m r e in (k.head_left m, ground arith, (r, f.1))
Owns-Leaves k (take_data dummy r) u (m, h, e) =
    let f = k.first_left m r e in (k.head_left m, ground arith, f.1)
Owns-Leaves k (head_move dummy r v) u (m, h, e, (c, g, w)) =
    let f = k.first_left m r e in
    let i = k.item_left m r c e g in (k.head_left m, ground arith, f.1, (i.0, i.1, ground arith))
Owns-Leaves k (head_unlock dummy v) u (m, ((c, e), o)) =
    let f = k.node_left dummy c (u dummy refl) e o in (k.head_left m, ((c, f.0), f.1))
Owns-Leaves k (freeing dummy v) u ((c, e), o) =
    let f = k.node_left dummy c (u dummy refl) e o in ((c, f.0), f.1)
Owns-Leaves k empty_unlock u m = k.head_left m
Owns-Leaves k crashed u o = o
Owns-Leaves k outside u o = tt
Owns-Leaves k (allocating d) u o = tt
Owns-Leaves k signalling u o = tt
Owns-Leaves k (head_lock blocks) u o = tt
Owns-Leaves k waiting u o = tt
Owns-Leaves k (returning v) u o = tt
