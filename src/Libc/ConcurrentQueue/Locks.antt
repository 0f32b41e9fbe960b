-- ===== src/Libc/ConcurrentQueue/Locks.antt =====
-- About the accesses of libc/concurrent_queue.cc that change no more than a mutex.
use ccbase.Base.{
  ℕ, ◌≡◌, ◌≢◌, ◌⊎◌, inl, inr, refl, Bool, true, false, Option, none, some, List, ◌∷◌, ◌==◌, arith,
  has, Bool-cases, ◌∙◌, subst,
}
use mathlib.Core.List.{append-nil}
use ccbase.Libc.ConcurrentQueue.{QueueNode, ConcurrentQueue, Place}
use ccbase.Libc.ConcurrentQueue.Turns.{goes}
use ccbase.Libc.ConcurrentQueue.System.{System}
use ccbase.Libc.ConcurrentQueue.Chain.{last_node}
use ccbase.Libc.ConcurrentQueue.Owns.{Owns, held, has_head, has_tail, Holds}
use ccbase.Libc.ConcurrentQueue.Keeps.{Moves}

-- What thread `i` does to a mutex, where `inside` tells whether it holds the mutex afterwards.
pub data Lock (i : ℕ) (inside : Bool) : Option ℕ → Option ℕ → Type 0 where
  same : (m : Option ℕ) → (m ≡ some i → inside ≡ true) → Lock i inside m m
  taken : inside ≡ true → Lock i inside none (some i)
  freed : Lock i inside (some i) none

pub Lock-left :
    {i : ℕ} {b : Bool} {m m' : Option ℕ} (j : ℕ) → Lock i b m m' → j ≢ i → m ≡ some j → m' ≡ some j
Lock-left j (same m f) d e = e
Lock-left j (taken f) d e = absurd (ground arith)
Lock-left j freed d e = absurd (d (ground arith))

pub Lock-of :
    {i : ℕ} {b : Bool} {m m' : Option ℕ} (j : ℕ)
    → Lock i b m m'
    → m' ≡ some j
    → ((j ≡ i) × (b ≡ true)) ⊎ ((j ≢ i) × (m ≡ some j))
Lock-of {i} j (same m f) e = elim (Bool-cases (j == i)) [
  | inl y ↦ let g : j ≡ i = ground arith in inl (g, f (subst (λ k. m ≡ some k) g e))
  | inr y ↦ inr (ground arith, e)
]
Lock-of j (taken f) e = inl (ground arith, f)
Lock-of j freed e = absurd (ground arith)

-- Is the number the node that the place holds?
pub held-cases : (o : Option ℕ) (n : ℕ) → (o ≡ some n) ⊎ (o ≢ some n)
held-cases none n = inr (λ e. ground arith)
held-cases (some m) n = elim (Bool-cases (m == n)) [
  | inl y ↦ inl (ground arith)
  | inr y ↦ inr (λ e. ground arith)
]

-- What is in the memory and not in the list belongs to a thread, before as after.
pub kept_still :
    (q : ConcurrentQueue) (l : List ℕ) (p p' : Place)
    → held p' ≡ held p
    → (n : ℕ) (c : QueueNode) → q.store n ≡ some c
    → (has n (q.head ∷ l) ≡ true)
      ⊎ ((held p' ≡ some n)
          ⊎ (((c' : QueueNode) × (q.store n ≡ some c'))
              × (has n (q.head ∷ l) ≡ false)
              × (held p ≢ some n)))
kept_still q l p p' f n c e = elim (Bool-cases (has n (q.head ∷ l))) [
  | inl y ↦ inl y
  | inr y ↦ elim (held-cases (held p) n) [
    | inl g ↦ inr (inl (f ∙ g))
    | inr g ↦ inr (inr ((c, e), y, g))
  ]
]

module _ {s : System} {l : List ℕ} (h : Holds s l) where
  pub Moves-Lock :
      {i : ℕ} (p p' : Place) {hm tm : Option ℕ}
      → Lock i (has_head p') s.queue.head_mutex hm
      → Lock i (has_tail p') s.queue.tail_mutex tm
      → Owns (record s.queue { head_mutex = hm; tail_mutex = tm }) l i p'
      → held p' ≡ held p
      → (tm ≡ none → s.queue.tail ≡ last_node s.queue.head l)
      → Moves s.queue l l i p (goes (record s.queue { head_mutex = hm; tail_mutex = tm }) p') none
  Moves-Lock p p' a b own f settled = record {
    linked = h.linked;
    distinct = h.distinct;
    owned = own;
    leaves = λ j d. record {
      head_left = Lock-left j a d;
      tail_left = Lock-left j b d;
      first_left = λ m r e. (refl, e);
      item_left = λ m r c e g. (c, g, refl);
      last_left = λ m. (refl, refl);
      node_left = λ n c d' e o. (e, o);
    };
    mine = λ n e. absurd (ground arith);
    fresh = λ n e. inl (ground arith);
    settled = settled;
    of_head = λ j e. Lock-of j a e;
    of_tail = λ j e. Lock-of j b e;
    kept = kept_still s.queue l p p' f;
    flow = append-nil _;
  }
