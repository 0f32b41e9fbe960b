-- ===== src/Libc/ConcurrentQueue/Links.antt =====
-- About the accesses of libc/concurrent_queue.cc that change the list: to the last node's link, to
-- the tail and to the head.
use ccbase.Base.{
  ℕ, ◌≡◌, ◌≢◌, inl, inr, refl, none, some, List, [], ◌∷◌, ◌++◌, ◌==◌, arith, has, Bool-cases, ◌∙◌,
  sym, subst, Distinct-append, has-append, ap,
}
use mathlib.Core.List.{append-nil}
use ccbase.Libc.ConcurrentQueue.{
  QueueNode, tail_link, tail_move, tail_unlock, head_move, head_unlock,
}
use ccbase.Libc.ConcurrentQueue.Turns.{goes, put_node, Turn}
use ccbase.Libc.ConcurrentQueue.System.{System}
use ccbase.Libc.ConcurrentQueue.Chain.{
  last_node, Linked, Linked-link, items, items-link, items-cons, last_node-append, first-append,
  has-last_node,
}
use ccbase.Libc.ConcurrentQueue.Owns.{Filled, Holds}
use ccbase.Libc.ConcurrentQueue.Keeps.{Moves}
use ccbase.Libc.ConcurrentQueue.Locks.{same, Lock-of, kept_still}

module _ {s : System} {l : List ℕ} (h : Holds s l) where
  abbrev linked_turn : ℕ → ℕ → QueueNode → Turn
  linked_turn d n z = record {
    queue = record s.queue {
      store = put_node s.queue.store s.queue.tail (some (record z { next = some n }));
    };
    place = tail_move n;
    puts = d ∷ [];
    gots = [];
  }

  pub Moves-link :
      {i : ℕ} (d n : ℕ) (z : QueueNode)
      → Filled s.queue l d n
      → s.queue.tail_mutex ≡ some i
      → s.queue.tail ≡ last_node s.queue.head l
      → s.queue.store s.queue.tail ≡ some z
      → (s.queue.head_mutex ≢ some i)
      → Moves s.queue l (l ++ n ∷ []) i (tail_link d n) (linked_turn d n z) (some n)
  Moves-link d n z (e, out) tm tl k hm = record {
    linked =
        subst
          (λ x.
            Linked (put_node s.queue.store x (some (record z { next = some n }))) s.queue.head
              (l ++ n ∷ []))
          (sym tl)
          (Linked-link s.queue.store n d s.queue.head l z h.linked h.distinct e out (ground arith));
    distinct = Distinct-append n (s.queue.head ∷ l) out h.distinct;
    owned = (tm, sym (last_node-append s.queue.head n l));
    leaves = λ j d'. record {
      head_left = λ e. e;
      tail_left = λ e. e;
      first_left = λ m r e. (refl, first-append l n r e);
      item_left = λ m r c f g. elim (Bool-cases (r == s.queue.tail)) [
        | inl y ↦ (record z { next = some n }, ground arith, ground arith)
        | inr y ↦ (c, ground arith, refl)
      ];
      last_left = λ m. absurd (ground arith);
      node_left = λ k c d' e f.
          (ground (arith, has-last_node s.queue.head l), ground (arith, has-append k n l));
    };
    mine = λ k e. inl e;
    fresh = λ k e. absurd (ground arith);
    settled = λ f. absurd (ground arith);
    of_head = λ j e. Lock-of j (same s.queue.head_mutex (λ f. absurd (hm f))) e;
    of_tail = λ j e. Lock-of j (same s.queue.tail_mutex (λ f. refl)) e;
    kept = λ k c e. elim (Bool-cases (has k (s.queue.head ∷ l))) [
      | inl y ↦ inl (ground (arith, has-append k n l))
      | inr y ↦ elim (Bool-cases (k == n)) [
        | inl w ↦ inl (ground (arith, has-append k n l))
        | inr w ↦
            inr (inr ((c, ground (arith, has-last_node s.queue.head l)), y, λ f. ground arith))
      ]
    ];
    flow =
        subst
          (λ x.
            items s.queue.store l ++ d ∷ []
            ≡ items (put_node s.queue.store x (some (record z { next = some n }))) (l ++ n ∷ []))
          (sym tl) (sym (items-link s.queue.store n d s.queue.head l z e (ground arith)));
  }

  pub Moves-tail :
      {i : ℕ} (n : ℕ)
      → s.queue.tail_mutex ≡ some i
      → n ≡ last_node s.queue.head l
      → (s.queue.head_mutex ≢ some i)
      → Moves s.queue l l i (tail_move n) (goes (record s.queue { tail = n }) tail_unlock) none
  Moves-tail n tm e hm = record {
    linked = h.linked;
    distinct = h.distinct;
    owned = (tm, e);
    leaves = λ j d. record {
      head_left = λ e. e;
      tail_left = λ e. e;
      first_left = λ m r e. (refl, e);
      item_left = λ m r c e g. (c, g, refl);
      last_left = λ m. absurd (d (ground arith));
      node_left = λ n c d' e o. (e, o);
    };
    mine = λ k e. absurd (ground arith);
    fresh = λ k e. absurd (ground arith);
    settled = λ f. e;
    of_head = λ j e. Lock-of j (same s.queue.head_mutex (λ f. absurd (hm f))) e;
    of_tail = λ j e. Lock-of j (same s.queue.tail_mutex (λ f. refl)) e;
    kept = kept_still s.queue l (tail_move n) tail_unlock refl;
    flow = append-nil _;
  }

abbrev pub head_turn : System → ℕ → ℕ → ℕ → Turn
head_turn s dummy r v = record {
  queue = record s.queue { head = r };
  place = head_unlock dummy v;
  puts = [];
  gots = v ∷ [];
}

pub Moves-head :
    {s : System} (r : ℕ) (l : List ℕ) (h : Holds s (r ∷ l)) {i : ℕ} (v : ℕ) (c : QueueNode)
    → s.queue.head_mutex ≡ some i
    → s.queue.tail_mutex ≢ some i
    → s.queue.store r ≡ some c
    → c.item ≡ v
    → Moves s.queue (r ∷ l) l i (head_move s.queue.head r v) (head_turn s s.queue.head r v) none
Moves-head {s} r l h {i} v c hm tm e f =
    let (k, g, y, rest) = h.linked in
    record {
      linked = rest;
      distinct = h.distinct.1;
      owned = (hm, ((k, g), h.distinct.0));
      leaves = λ j d. record {
        head_left = λ e. e;
        tail_left = λ e. e;
        first_left = λ m r e. absurd (d (ground arith));
        item_left = λ m r c e g. (c, g, refl);
        last_left = λ m. (refl, refl);
        node_left = λ n c d' e o. (e, ground arith);
      };
      mine = λ k e. absurd (ground arith);
      fresh = λ k e. inr (inr (ground arith));
      settled = h.settled;
      of_head = λ j e. Lock-of j (same s.queue.head_mutex (λ f. refl)) e;
      of_tail = λ j e. Lock-of j (same s.queue.tail_mutex (λ f. absurd (tm f))) e;
      kept = λ k c e. elim (Bool-cases (has k (r ∷ l))) [
        | inl y ↦ inl y
        | inr y ↦ elim (Bool-cases (k == s.queue.head)) [
          | inl w ↦ inr (inl (ground arith))
          | inr w ↦ inr (inr ((c, e), ground arith, λ f. ground arith))
        ]
      ];
      flow =
          append-nil _ ∙ items-cons s.queue.store r l c e ∙ ap (λ x. x ∷ items s.queue.store l) f;
    }
