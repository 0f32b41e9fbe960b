-- ===== src/Libc/ConcurrentQueue/Writes.antt =====
-- About the accesses of libc/concurrent_queue.cc to a node that is not in the list.
use ccbase.Base.{
  ℕ, ◌≡◌, ◌⊎◌, inl, inr, refl, true, false, Option, none, some, List, [], ◌∷◌, ◌==◌, arith, has,
  Bool-cases, ◌∙◌, sym,
}
use mathlib.Core.List.{append-nil}
use ccbase.Libc.ConcurrentQueue.{QueueNode, Place}
use ccbase.Libc.ConcurrentQueue.Turns.{goes, put_node}
use ccbase.Libc.ConcurrentQueue.System.{System}
use ccbase.Libc.ConcurrentQueue.Chain.{first, Linked-put, items-put}
use ccbase.Libc.ConcurrentQueue.Owns.{Owns, held, has_head, has_tail, Holds}
use ccbase.Libc.ConcurrentQueue.Keeps.{Moves}
use ccbase.Libc.ConcurrentQueue.Locks.{same, Lock-of}

-- The node behind the head is in the list.
pub has-first : (a r : ℕ) (l : List ℕ) → first l ≡ some r → has r (a ∷ l) ≡ true
has-first a r [] e = absurd (ground arith)
has-first a r (b ∷ l) e = ground arith

module _ {s : System} {l : List ℕ} (h : Holds s l) where
  pub Moves-put :
      {i : ℕ} (p p' : Place) (n : ℕ) (o : Option QueueNode)
      → has n (s.queue.head ∷ l) ≡ false
      → (held p ≡ some n) ⊎ ((s.queue.store n ≡ none) × (held p ≡ none))
      → (held p' ≡ some n) ⊎ ((o ≡ none) × (held p' ≡ none))
      → (s.queue.head_mutex ≡ some i → has_head p' ≡ true)
      → (s.queue.tail_mutex ≡ some i → has_tail p' ≡ true)
      → Owns (record s.queue { store = put_node s.queue.store n o }) l i p'
      → Moves s.queue l l i p
          (goes (record s.queue { store = put_node s.queue.store n o }) p')
          (some n)
  Moves-put p p' n o out old new a b own = record {
    linked = Linked-put _ n o s.queue.head l out h.linked;
    distinct = h.distinct;
    owned = own;
    leaves = λ j d. record {
      head_left = λ e. e;
      tail_left = λ e. e;
      first_left = λ m r e. (refl, e);
      item_left = λ m r c e g. (c, ground (arith, has-first s.queue.head r l e), refl);
      last_left = λ m. (refl, refl);
      node_left = λ k c d' e f. (ground arith, f);
    };
    mine = λ k e. ground arith;
    fresh = λ k e. ground arith;
    settled = h.settled;
    of_head = λ j e. Lock-of j (same s.queue.head_mutex a) e;
    of_tail = λ j e. Lock-of j (same s.queue.tail_mutex b) e;
    kept = λ k c e. elim (Bool-cases (k == n)) [
      | inl y ↦ ground arith
      | inr y ↦ elim (Bool-cases (has k (s.queue.head ∷ l))) [
        | inl z ↦ inl z
        | inr z ↦ inr (inr ((c, ground arith), z, λ f. ground arith))
      ]
    ];
    flow = append-nil _ ∙ sym (items-put _ n o l (ground arith));
  }
