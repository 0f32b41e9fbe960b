-- ===== src/Libc/ConcurrentQueue/Waits.antt =====
-- About the threads that wait in libc/concurrent_queue.cc, for a mutex or for a signal.
use ccbase.Base.{
  ==_refl, ℕ, ◌≡◌, ◌≢◌, ◌⊎◌, inl, inr, refl, Bool, true, false, none, some, List, [], ◌++◌, ◌==◌,
  ◌∙◌, ◌∷◌, arith, Bool-cases, Option-cases, subst, sym,
}
use mathlib.Core.List.{append-nil}
use ccbase.Libc.ConcurrentQueue.{
  QueueNode, ConcurrentQueue, Place, outside, signalling, waiting, head_wait, head_lock, tail_lock,
  head_test, take_head, take_next, take_data, head_move, head_unlock, empty_unlock, tail_link,
  tail_move, tail_unlock,
}
use ccbase.Libc.ConcurrentQueue.Turns.{Turn, act, goes}
use ccbase.Libc.ConcurrentQueue.System.{System, set_place, Step, Reach, later, signal_none, turn}
use ccbase.Libc.ConcurrentQueue.Owns.{Owns, has_head, has_tail, Holds}
use ccbase.Libc.ConcurrentQueue.Fine.{unlocks_own}
use ccbase.Libc.ConcurrentQueue.Chain.{Linked, items}
use ccbase.Libc.ConcurrentQueue.Safety.{Reach-fifo}
use ccbase.Libc.ConcurrentQueue.Laws.{Reach-Holds}

-- A thread that wants a mutex.
abbrev pub wants_mutex : Place → Bool
wants_mutex (head_lock blocks) = true
wants_mutex (tail_lock d n) = true
wants_mutex p = false

head_acts :
    (i : ℕ) (q : ConcurrentQueue) (p : Place)
    → has_head p ≡ true
    → (t : Turn) × (act i q p ≡ some t)
unfolding act
head_acts i q (head_test blocks) e = (_, refl)
head_acts i q head_wait e = (_, refl)
head_acts i q take_head e = (_, refl)
head_acts i q (take_next dummy) e = (_, refl)
head_acts i q (take_data dummy r) e = (_, refl)
head_acts i q (head_move dummy r v) e = (_, refl)
head_acts i q (head_unlock dummy v) e = (_, refl)
head_acts i q empty_unlock e = (_, refl)
head_acts i q p e = absurd (ground arith)

tail_acts :
    (i : ℕ) (q : ConcurrentQueue) (p : Place)
    → has_tail p ≡ true
    → (t : Turn) × (act i q p ≡ some t)
unfolding act
tail_acts i q (tail_link d n) e = (_, refl)
tail_acts i q (tail_move n) e = (_, refl)
tail_acts i q tail_unlock e = (_, refl)
tail_acts i q p e = absurd (ground arith)

-- The thread that acts: the one that wants the mutex, or the one that holds it.
abbrev Acts : System → ℕ → Type 0
Acts s i =
    (j : ℕ) × (t : Turn) × (act j s.queue (s.places j) ≡ some t)
    × ((j ≡ i) ⊎ ((has_head (s.places j) ≡ true) ⊎ (has_tail (s.places j) ≡ true)))

module _ {s : System} {l : List ℕ} (h : Holds s l) (i : ℕ) where
  Acts-place : (p : Place) → wants_mutex p ≡ true → s.places i ≡ p → Acts s i
  unfolding act
  Acts-place (head_lock blocks) w e = elim (Option-cases s.queue.head_mutex) [
    | inl f ↦ (
      i,
      goes (record s.queue { head_mutex = some i }) (head_test blocks),
      simp (e, f) refl,
      inl refl,
    )
    | inr (j, f) ↦
        let (t, g) = head_acts j s.queue (s.places j) (h.of_head j f) in
        (j, t, g, inr (inl (h.of_head j f)))
  ]
  Acts-place (tail_lock d n) w e = elim (Option-cases s.queue.tail_mutex) [
    | inl f ↦ (
      i,
      goes (record s.queue { tail_mutex = some i }) (tail_link d n),
      simp (e, f) refl,
      inl refl,
    )
    | inr (j, f) ↦
        let (t, g) = tail_acts j s.queue (s.places j) (h.of_tail j f) in
        (j, t, g, inr (inr (h.of_tail j f)))
  ]
  Acts-place p w e = absurd (ground arith)

-- No deadlock: while a thread wants a mutex, that thread can go on, or another one can that holds a
-- mutex.
pub mutex_progress :
    {dummy : ℕ} {puts gots : List ℕ} {s : System}
    → Reach dummy puts gots s
    → (i : ℕ) → wants_mutex (s.places i) ≡ true
    → (j : ℕ) × (t : Turn) × (act j s.queue (s.places j) ≡ some t)
      × ((j ≡ i) ⊎ ((has_head (s.places j) ≡ true) ⊎ (has_tail (s.places j) ≡ true)))
mutex_progress {s} r i w = let (l, h, e) = Reach-Holds r in Acts-place h i (s.places i) w refl

later_quiet :
    {dummy : ℕ} {puts gots : List ℕ} {s t : System}
    → Reach dummy puts gots s
    → Step s [] [] t
    → Reach dummy puts gots t
later_quiet {dummy} {puts} {gots} {t} r st =
    subst (λ z. Reach dummy z gots t) (append-nil puts)
      (subst (λ z. Reach dummy (puts ++ []) z t) (append-nil gots) (later r st))

-- The head's node has a next node while a value has been put in that nobody has taken out.
Reach-next :
    {dummy : ℕ} {puts gots : List ℕ} {s : System}
    → Reach dummy puts gots s
    → puts ≢ gots
    → (c : QueueNode) × (n : ℕ) × (s.queue.store s.queue.head ≡ some c) × (c.next ≡ some n)
Reach-next {puts = puts} {gots = gots} {s = s} r left =
    let (l, h, e) = Reach-fifo r in next_of l h e
  where
    next_of :
        (l : List ℕ)
        → Linked s.queue.store s.queue.head l
        → puts ≡ gots ++ items s.queue.store l
        → (c : QueueNode) × (n : ℕ) × (s.queue.store s.queue.head ≡ some c) × (c.next ≡ some n)
    next_of [] h e = absurd (left (e ∙ append-nil gots))
    next_of (n ∷ l) (c, e, f, rest) g = (c, n, e, f)

-- A signal is lost. Let no thread wait, let thread `i` have found the queue empty and be about to
-- wait, and let thread `k` be about to signal, with a value put in that nobody has taken out. Then
-- `i` can come to wait behind the signal, with all other threads where they were and the nodes as
-- they were: the head's node has a next one, so the queue is not empty, and yet `i` makes no access
-- of its own.
pub signal_lost :
    {dummy : ℕ} {puts gots : List ℕ} {s : System}
    → Reach dummy puts gots s
    → (i k : ℕ) → s.places i ≡ head_wait
    → s.places k ≡ signalling
    → ((j : ℕ) → s.places j ≢ waiting)
    → puts ≢ gots
    → (t : System) × Reach dummy puts gots t
      × (t.places i ≡ waiting)
      × (t.places k ≡ outside)
      × ((j : ℕ) → j ≢ i → j ≢ k → t.places j ≡ s.places j)
      × (t.queue.store ≡ s.queue.store)
      × (t.queue.head ≡ s.queue.head)
      × ((c : QueueNode) × (n : ℕ) × (t.queue.store t.queue.head ≡ some c) × (c.next ≡ some n))
      × (act i t.queue (t.places i) ≡ none)
unfolding act
signal_lost {s} r i k e f g left =
    let (l, h, y) = Reach-Holds r in
    let m : s.queue.head_mutex ≡ some i = subst (Owns s.queue l i) e (h.owns i) in
    let ik : (i == k) ≡ false = elim (Bool-cases (i == k)) [
      | inl b ↦
          let c : i ≡ k = ground arith in
          let z : s.places i ≡ signalling = subst (λ x. s.places x ≡ signalling) (sym c) f in
          absurd (ground arith)
      | inr b ↦ b
    ] in
    let ps = set_place s.places k outside in
    let step : act i s.queue (ps i) ≡ some (goes (record s.queue { head_mutex = none }) waiting) =
      simp (ik, e, m, unlocks_own i) refl in
    (
      record { queue = record s.queue { head_mutex = none }; places = set_place ps i waiting },
      later_quiet (later_quiet r (signal_none k f g))
          (turn i (goes (record s.queue { head_mutex = none }) waiting) step),
      ground arith,
      ground arith,
      λ j d d'. ground arith,
      refl,
      refl,
      Reach-next r left,
      rw (==_refl i) refl,
    )
