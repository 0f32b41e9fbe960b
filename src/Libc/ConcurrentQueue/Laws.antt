-- ===== src/Libc/ConcurrentQueue/Laws.antt =====
-- About every order in which threads use a queue of libc/concurrent_queue.cc.
use ccbase.Base.{
  ℕ, ◌≡◌, inl, inr, refl, true, false, none, some, List, [], ◌++◌, ◌==◌, arith, Bool-cases, ◌∙◌,
  sym, ap, subst,
}
use mathlib.Core.List.{append-nil, append_assoc}
use ccbase.Libc.ConcurrentQueue.{
  QueueNode, Place, outside, allocating, filling, signalling, head_lock, waiting,
}
use ccbase.Libc.ConcurrentQueue.Turns.{Turn, act, put_node}
use ccbase.Libc.ConcurrentQueue.System.{
  System, set_place, Step, call_enqueue, call_dequeue, malloc, turn, signal, signal_none, wake,
  start_of, Reach, begin, later,
}
use ccbase.Libc.ConcurrentQueue.Chain.{items, items-put, Linked-absent}
use ccbase.Libc.ConcurrentQueue.Owns.{Owns, held, has_head, has_tail, Holds}
use ccbase.Libc.ConcurrentQueue.Keeps.{Holds-Moves}
use ccbase.Libc.ConcurrentQueue.Locks.{same, Moves-Lock}
use ccbase.Libc.ConcurrentQueue.Writes.{Moves-put}
use ccbase.Libc.ConcurrentQueue.Fine.{IsFine, act-IsFine}

-- The invariant behind a step, and that the step takes values out in the order they came in.
abbrev Follows : System → List ℕ → List ℕ → List ℕ → System → Type 0
Follows s l puts gots t =
    (l' : List ℕ) × Holds t l' × (items s.queue.store l ++ puts ≡ gots ++ items t.queue.store l')

module _ {s : System} {l : List ℕ} (h : Holds s l) where
  -- A thread without a mutex goes to a place where it needs nothing.
  Holds-moved :
      (i : ℕ) (p' : Place)
      → has_head (s.places i) ≡ false
      → has_tail (s.places i) ≡ false
      → held p' ≡ held (s.places i)
      → Owns s.queue l i p'
      → Holds (record s { places = set_place s.places i p' }) l
  Holds-moved i p' a b e own = Holds-Moves h (
      Moves-Lock h (s.places i) p'
        (same s.queue.head_mutex (λ f. let g = h.of_head i f in absurd (ground arith)))
        (same s.queue.tail_mutex (λ f. let g = h.of_tail i f in absurd (ground arith))) own e
        h.settled)

  Holds-turn :
      (i : ℕ) (t : Turn)
      → act i s.queue (s.places i) ≡ some t
      → Follows s l t.puts t.gots
          (record { queue = t.queue; places = set_place s.places i t.place })
  Holds-turn i t e =
      let (l', x, m) =
        subst (IsFine s l i (s.places i)) e
          (act-IsFine h (s.places i) (h.owns i) (h.of_head i) (h.of_tail i)) in
      (l', Holds-Moves h m, m.flow)

  Holds-malloc :
      (i d n : ℕ) (c : QueueNode)
      → s.places i ≡ allocating d
      → s.queue.store n ≡ none
      → Holds
          (record {
            queue = record s.queue { store = put_node s.queue.store n (some c) };
            places = set_place s.places i (filling d n);
          })
          l
  Holds-malloc i d n c e f = Holds-Moves h (
      Moves-put h (s.places i) (filling d n) n (some c)
        (Linked-absent s.queue.store s.queue.head n l h.linked f) (inr (f, rw e refl)) (inl refl)
        (λ g. let k = h.of_head i g in absurd (ground arith))
        (λ g. let k = h.of_tail i g in absurd (ground arith))
        ((c, ground arith), Linked-absent s.queue.store s.queue.head n l h.linked f))

  items-put_fresh :
      (n : ℕ) (c : QueueNode)
      → s.queue.store n ≡ none
      → items (put_node s.queue.store n (some c)) l ≡ items s.queue.store l
  items-put_fresh n c f =
      items-put s.queue.store n (some c) l
        (ground (arith, Linked-absent s.queue.store s.queue.head n l h.linked f))

Holds-signal :
    {s : System} {l : List ℕ} (h : Holds s l) (i j : ℕ)
    → s.places i ≡ signalling
    → s.places j ≡ waiting
    → Holds (record s { places = set_place (set_place s.places i outside) j (head_lock true) }) l
Holds-signal {s} h i j e f =
    let g : set_place s.places i outside j ≡ waiting = elim (Bool-cases (j == i)) [
      | inl y ↦
          let y' : j ≡ i = ground arith in
          let k : s.places i ≡ waiting = subst (λ z. s.places z ≡ waiting) y' f in
          absurd (ground arith)
      | inr y ↦ rw y f
    ] in
    Holds-moved (Holds-moved h i outside (rw e refl) (rw e refl) (rw e refl) tt) j (head_lock true)
      (simp g refl) (simp g refl) (simp g refl) tt

Step-Holds :
    {s t : System} {l puts gots : List ℕ} → Holds s l → Step s puts gots t → Follows s l puts gots t
Step-Holds {s} {l} h (call_enqueue i d e) =
    (l, Holds-moved h i (allocating d) (rw e refl) (rw e refl) (rw e refl) tt, append-nil _)
Step-Holds {s} {l} h (call_dequeue i blocks e) =
    (l, Holds-moved h i (head_lock blocks) (rw e refl) (rw e refl) (rw e refl) tt, append-nil _)
Step-Holds {s} {l} h (malloc i d n c e f) =
    (l, Holds-malloc h i d n c e f, append-nil _ ∙ sym (items-put_fresh h n c f))
Step-Holds {s} {l} h (turn i t e) = Holds-turn h i t e
Step-Holds {s} {l} h (signal i j e f) = (l, Holds-signal h i j e f, append-nil _)
Step-Holds {s} {l} h (signal_none i e none_waits) =
    (l, Holds-moved h i outside (rw e refl) (rw e refl) (rw e refl) tt, append-nil _)
Step-Holds {s} {l} h (wake j e) =
    (l, Holds-moved h j (head_lock true) (rw e refl) (rw e refl) (rw e refl) tt, append-nil _)

Holds-start : (dummy : ℕ) → Holds (start_of dummy) []
Holds-start dummy = record {
  linked = (record { item = 0; next = none }, ground arith, refl);
  distinct = (refl, tt);
  owns = λ i. tt;
  apart = λ i j n e f. absurd (ground arith);
  settled = λ e. refl;
  of_head = λ i e. absurd (ground arith);
  of_tail = λ i e. absurd (ground arith);
  kept = λ n c e. inl (ground arith);
}

pub Reach-Holds :
    {dummy : ℕ} {puts gots : List ℕ} {s : System}
    → Reach dummy puts gots s
    → (l : List ℕ) × Holds s l × (puts ≡ gots ++ items s.queue.store l)
Reach-Holds {dummy} begin = ([], Holds-start dummy, refl)
Reach-Holds (later {puts} {gots} {more_puts} {more_gots} r st) =
    let (l, h, e) = Reach-Holds r in
    let (l', h', f) = Step-Holds h st in
    (
      l',
      h',
      ap (λ z. z ++ more_puts) e
          ∙ append_assoc gots _ more_puts
          ∙ ap (λ z. gots ++ z) f
          ∙ sym (append_assoc gots more_gots _),
    )
