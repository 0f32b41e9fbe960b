-- ===== src/Libc/ConcurrentQueue/Keeps.antt =====
-- About one access of a thread in libc/concurrent_queue.cc and all that the threads rely on.
use ccbase.Base.{
  ℕ, ◌≡◌, ◌≢◌, ◌⊎◌, inl, inr, refl, sym, subst, true, false, Option, none, some, List, ◌∷◌, ◌++◌,
  ◌==◌, arith, has, Distinct, Bool-cases,
}
use ccbase.Libc.ConcurrentQueue.{
  QueueNode, ConcurrentQueue, Place, filling, tail_lock, tail_link, head_unlock, freeing,
}
use ccbase.Libc.ConcurrentQueue.Turns.{Turn}
use ccbase.Libc.ConcurrentQueue.System.{System, set_place}
use ccbase.Libc.ConcurrentQueue.Chain.{Linked, last_node, items}
use ccbase.Libc.ConcurrentQueue.Owns.{Private, Owns, held, has_head, has_tail, Holds}
use ccbase.Libc.ConcurrentQueue.Stable.{Leaves, Owns-Leaves}

pub held-Private :
    (q : ConcurrentQueue) (l : List ℕ) (i : ℕ) (p : Place) (n : ℕ)
    → held p ≡ some n
    → Owns q l i p
    → Private q l n
held-Private q l i (filling d m) n e o = ground arith
held-Private q l i (tail_lock d m) n e o =
    ((record { item = d; next = none }, ground arith), ground arith)
held-Private q l i (tail_link d m) n e o =
    ((record { item = d; next = none }, ground arith), ground arith)
held-Private q l i (head_unlock dummy v) n e o = ground arith
held-Private q l i (freeing dummy v) n e o = ground arith
held-Private q l i p n e o = absurd (ground arith)

-- What holds at the place of the mover and at those of the others holds at all places.
pub set_place-all :
    (P : ℕ → Place → Type 0) (ps : ℕ → Place) (i : ℕ) (p : Place)
    → P i p
    → ((j : ℕ) → j ≢ i → P j (ps j))
    → (j : ℕ) → P j (set_place ps i p j)
set_place-all P ps i p own others j = elim (Bool-cases (j == i)) [
  | inl e ↦ let f : j ≡ i = ground arith in rw e (subst (λ k. P k p) (sym f) own)
  | inr e ↦ rw e (others j (ground arith))
]

-- An access that takes thread `i` from the place `p` to that of `t`; `x` is the private node that
-- it writes.
pub record Moves (q : ConcurrentQueue) (l l' : List ℕ) (i : ℕ) (p : Place) (t : Turn) (x : Option ℕ)
    : Type 0 where
  pub linked : Linked t.queue.store t.queue.head l'
  pub distinct : Distinct (t.queue.head ∷ l')
  pub owned : Owns t.queue l' i t.place
  pub leaves : (j : ℕ) → j ≢ i → Leaves q t.queue l l' j x
  pub mine : (n : ℕ) → x ≡ some n → (held p ≡ some n) ⊎ (q.store n ≡ none)
  pub fresh :
      (n : ℕ)
      → held t.place ≡ some n
      → (held p ≡ some n) ⊎ ((q.store n ≡ none) ⊎ (has n (q.head ∷ l) ≡ true))
  pub settled : t.queue.tail_mutex ≡ none → t.queue.tail ≡ last_node t.queue.head l'
  pub of_head :
      (j : ℕ)
      → t.queue.head_mutex ≡ some j
      → ((j ≡ i) × (has_head t.place ≡ true)) ⊎ ((j ≢ i) × (q.head_mutex ≡ some j))
  pub of_tail :
      (j : ℕ)
      → t.queue.tail_mutex ≡ some j
      → ((j ≡ i) × (has_tail t.place ≡ true)) ⊎ ((j ≢ i) × (q.tail_mutex ≡ some j))
  pub kept :
      (n : ℕ) (c : QueueNode)
      → t.queue.store n ≡ some c
      → (has n (t.queue.head ∷ l') ≡ true)
        ⊎ ((held t.place ≡ some n)
            ⊎ (((c' : QueueNode) × (q.store n ≡ some c'))
                × (has n (q.head ∷ l) ≡ false)
                × (held p ≢ some n)))
  pub flow : items q.store l ++ t.puts ≡ t.gots ++ items t.queue.store l'

module _ {s : System} {l l' : List ℕ} {i : ℕ} {t : Turn} {x : Option ℕ} (h : Holds s l)
    (m : Moves s.queue l l' i (s.places i) t x) where
  abbrev after : System
  after = record { queue = t.queue; places = set_place s.places i t.place }

  -- The node of another thread is neither the mover's old one nor its new one.
  other_node : (j n : ℕ) → j ≢ i → held (s.places j) ≡ some n → x ≢ some n
  other_node j n d e f = elim (m.mine n f) [
    | inl g ↦ d (h.apart j i n e g)
    | inr g ↦ let k = held-Private s.queue l j (s.places j) n e (h.owns j) in ground arith
  ]

  other_fresh : (j n : ℕ) → j ≢ i → held (s.places j) ≡ some n → held t.place ≢ some n
  other_fresh j n d e f =
      let k = held-Private s.queue l j (s.places j) n e (h.owns j) in
      elim (m.fresh n f) [
        | inl g ↦ d (h.apart j i n e g)
        | inr (inl g) ↦ ground arith
        | inr (inr g) ↦ ground arith
      ]

  apart_after :
      (j k n : ℕ) → held (after.places j) ≡ some n → held (after.places k) ≡ some n → j ≡ k
  apart_after j k n =
      set_place-all (λ j p. held p ≡ some n → held (after.places k) ≡ some n → j ≡ k) s.places i
        t.place
        (λ e.
          set_place-all (λ k p. held p ≡ some n → i ≡ k) s.places i t.place (λ f. refl)
            (λ k d f. absurd (other_fresh k n d f e)) k)
        (λ j d e.
          set_place-all (λ k p. held p ≡ some n → j ≡ k) s.places i t.place
            (λ f. absurd (other_fresh j n d e f)) (λ k d' f. h.apart j k n e f) k)
        j

  kept_after :
      (n : ℕ) (c : QueueNode)
      → t.queue.store n ≡ some c
      → (has n (t.queue.head ∷ l') ≡ true) ⊎ ((j : ℕ) × (held (after.places j) ≡ some n))
  kept_after n c e = elim (m.kept n c e) [
    | inl f ↦ inl f
    | inr (inl f) ↦ inr (i, ground arith)
    | inr (inr ((c', g), f, free)) ↦ elim (h.kept n c' g) [
      | inl y ↦ absurd (ground arith)
      | inr (j, y) ↦ inr (
        j,
        elim (Bool-cases (j == i)) [
          | inl b ↦
              let b' : j ≡ i = ground arith in
              absurd (free (subst (λ k. held (s.places k) ≡ some n) b' y))
          | inr b ↦ ground arith
        ],
      )
    ]
  ]

  of_head_after : (j : ℕ) → t.queue.head_mutex ≡ some j → has_head (after.places j) ≡ true
  of_head_after j e = elim (m.of_head j e) [
    | inl (f, g) ↦ ground arith
    | inr (f, g) ↦ ground (arith, h.of_head j g)
  ]

  of_tail_after : (j : ℕ) → t.queue.tail_mutex ≡ some j → has_tail (after.places j) ≡ true
  of_tail_after j e = elim (m.of_tail j e) [
    | inl (f, g) ↦ ground arith
    | inr (f, g) ↦ ground (arith, h.of_tail j g)
  ]

  pub Holds-Moves : Holds after l'
  Holds-Moves = record {
    linked = m.linked;
    distinct = m.distinct;
    owns =
        set_place-all (λ j p. Owns t.queue l' j p) s.places i t.place m.owned
          (λ j d. Owns-Leaves (m.leaves j d) (s.places j) (λ n e. other_node j n d e) (h.owns j));
    apart = apart_after;
    settled = m.settled;
    of_head = of_head_after;
    of_tail = of_tail_after;
    kept = kept_after;
  }
