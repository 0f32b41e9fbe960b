-- ===== src/Libc/ConcurrentQueue/Safety.antt =====
-- About the memory and the values of a queue of libc/concurrent_queue.cc that threads share.
use ccbase.Base.{
  ℕ, zero, suc, ◌≤◌, ◌≡◌, ◌≢◌, inl, inr, refl, none, some, List, [], ◌∷◌, ◌++◌, if◌then◌else◌,
  arith, has, length, Distinct, Option-cases, subst, ◌∙◌,
}
use ccbase.Libc.ConcurrentQueue.{NodeStore, outside, crashed}
use ccbase.Libc.ConcurrentQueue.Turns.{put_node, destroy_from}
use ccbase.Libc.ConcurrentQueue.System.{System, Reach}
use ccbase.Libc.ConcurrentQueue.Chain.{Linked, items, Linked-put, length-items}
use ccbase.Libc.ConcurrentQueue.Owns.{Owns, Holds}
use ccbase.Libc.ConcurrentQueue.Laws.{Reach-Holds}

-- In whatever order the threads make their accesses, what was put into the queue is what was taken
-- out, in the same order, followed by the values of the nodes that the head's links lead to.
pub Reach-fifo :
    {dummy : ℕ} {puts gots : List ℕ} {s : System}
    → Reach dummy puts gots s
    → (l : List ℕ) × Linked s.queue.store s.queue.head l × (puts ≡ gots ++ items s.queue.store l)
Reach-fifo r = let (l, h, e) = Reach-Holds r in (l, h.linked, e)

-- No thread ever reads, writes or frees a node that is not allocated, follows a NULL link, or
-- unlocks a mutex that it does not hold.
pub Reach-safe :
    {dummy : ℕ} {puts gots : List ℕ} {s : System}
    → Reach dummy puts gots s
    → (i : ℕ) → s.places i ≢ crashed
Reach-safe {s} r i e = let (l, h, f) = Reach-Holds r in subst (Owns s.queue l i) e (h.owns i)

-- The loop frees the nodes of the list and no others.
destroy-Linked :
    (fuel : ℕ) (ns : NodeStore) (a : ℕ) (l : List ℕ)
    → length (a ∷ l) ≤ fuel
    → Linked ns a l
    → Distinct (a ∷ l)
    → (ns' : NodeStore) × (destroy_from fuel ns (some a) ≡ some ns')
      × ((b : ℕ) → ns' b ≡ (if has b (a ∷ l) then none else ns b))
unfolding destroy_from
destroy-Linked zero ns a l le k d = absurd (omega arith)
destroy-Linked (suc fuel) ns a [] le (c, e, f) d =
    (put_node ns a none, rw (destroy_from, e, f) refl, λ b. ground arith)
destroy-Linked (suc fuel) ns a (m ∷ l) le (c, e, f, rest) d =
    let (ns', g, y) =
      destroy-Linked fuel (put_node ns a none) m l (omega arith) (Linked-put ns a none m l d.0 rest)
        d.1 in
    (ns', rw (destroy_from, e, f) g, λ b. ground (arith, y b))

-- With all threads outside, memory that is not in the list is not allocated.
only_listed :
    {s : System} {l : List ℕ}
    → Holds s l
    → ((i : ℕ) → s.places i ≡ outside)
    → (a : ℕ) → (if has a (s.queue.head ∷ l) then none else s.queue.store a) ≡ none
only_listed {s} {l} h quiet a = elim (Option-cases (s.queue.store a)) [
  | inl e ↦ ground arith
  | inr (c, e) ↦ elim (h.kept a c e) [
    | inl f ↦ rw f refl
    | inr (i, f) ↦ let g = quiet i in absurd (ground arith)
  ]
]

-- Once every thread has returned from its operation, the loop of `concurrent_queue_destroy` ends
-- within one round for each value in the queue and one more, and no memory of the queue is left.
pub destroy_frees_all :
    {dummy : ℕ} {puts gots : List ℕ} {s : System}
    → Reach dummy puts gots s
    → ((i : ℕ) → s.places i ≡ outside)
    → (queued : List ℕ) × (puts ≡ gots ++ queued)
      × ((fuel : ℕ)
          → suc (length queued) ≤ fuel
          → (ns : NodeStore) × (destroy_from fuel s.queue.store (some s.queue.head) ≡ some ns)
            × ((a : ℕ) → ns a ≡ none))
destroy_frees_all {s} r quiet =
    let (l, h, e) = Reach-Holds r in
    (
      items s.queue.store l,
      e,
      λ fuel le.
          let k : suc (length l) ≤ fuel =
            omega (arith, length-items s.queue.store s.queue.head l h.linked) in
          let (ns, f, g) = destroy-Linked fuel s.queue.store s.queue.head l k h.linked h.distinct in
          (ns, f, λ a. g a ∙ only_listed h quiet a),
    )
