-- ===== src/Libc/ConcurrentQueue/Fine.antt =====
-- About every access of a thread in libc/concurrent_queue.cc.
use ccbase.Base.{
  ℕ, ◌≡◌, ◌≢◌, inl, inr, refl, Bool, true, false, Option, none, some, List, [], ◌∷◌, ◌++◌, arith,
  ◌∙◌, sym, subst,
}
use ccbase.Libc.ConcurrentQueue.{
  QueueNode, ConcurrentQueue, Place, outside, allocating, filling, tail_lock, tail_link, tail_move,
  tail_unlock, signalling, head_lock, head_test, head_wait, waiting, take_head, take_next,
  take_data, head_move, head_unlock, freeing, empty_unlock, returning, crashed,
}
use ccbase.Libc.ConcurrentQueue.Turns.{Turn, act, goes, locks, unlocks, tests}
use ccbase.Libc.ConcurrentQueue.System.{System}
use ccbase.Libc.ConcurrentQueue.Chain.{first, Linked-first, Linked-second, Linked-last_node}
use ccbase.Libc.ConcurrentQueue.Owns.{Owns, held, has_head, has_tail, Holds}
use ccbase.Libc.ConcurrentQueue.Keeps.{Moves}
use ccbase.Libc.ConcurrentQueue.Locks.{Lock, same, taken, freed, Moves-Lock}
use ccbase.Libc.ConcurrentQueue.Writes.{Moves-put}
use ccbase.Libc.ConcurrentQueue.Links.{Moves-link, Moves-tail, head_turn, Moves-head}

-- An access that does not wait keeps to `Moves`.
abbrev pub IsFine : System → List ℕ → ℕ → Place → Option Turn → Type 0
IsFine s l i p none = Unit {0}
IsFine s l i p (some t) = (l' : List ℕ) × (x : Option ℕ) × Moves s.queue l l' i p t x

pub unlocks_own : (i : ℕ) (q : ConcurrentQueue) (t : Turn) → unlocks i (some i) q t ≡ t
unlocks_own i q t = ground arith

move_head :
    {s : System} (l : List ℕ) (h : Holds s l) {i : ℕ} (dummy r v : ℕ) (c : QueueNode)
    → s.queue.head_mutex ≡ some i
    → s.queue.tail_mutex ≢ some i
    → dummy ≡ s.queue.head
    → first l ≡ some r
    → s.queue.store r ≡ some c
    → c.item ≡ v
    → (l' : List ℕ) × Moves s.queue l l' i (head_move dummy r v) (head_turn s dummy r v) none
move_head [] h dummy r v c hm tm d f e g = absurd (ground arith)
move_head {s} (b ∷ m) h {i} dummy r v c hm tm d f e g =
    let y : b ≡ r = ground arith in
    (
      m,
      subst (λ z. Moves s.queue (b ∷ m) m i (head_move z r v) (head_turn s z r v) none) (sym d)
          (subst
            (λ z.
              Moves s.queue (b ∷ m) m i (head_move s.queue.head z v) (head_turn s s.queue.head z v)
                none)
            y (Moves-head b m h v c hm tm (ground arith) g)),
    )

module _ {s : System} {l : List ℕ} (h : Holds s l) {i : ℕ} where
  take_tail :
      (d n : ℕ)
      → Owns s.queue l i (tail_lock d n)
      → (s.queue.head_mutex ≢ some i)
      → (m : Option ℕ) → s.queue.tail_mutex ≡ m
      → IsFine s l i
          (tail_lock d n)
          (locks m (goes (record s.queue { tail_mutex = some i }) (tail_link d n)))
  take_tail d n o hm none e = (
    l,
    none,
    Moves-Lock h (tail_lock d n) (tail_link d n) (same _ (λ f. absurd (hm f)))
        (subst (λ m. Lock i true m (some i)) (sym e) (taken refl)) (o, refl, h.settled e) refl
        (λ f. absurd (ground arith)),
  )
  take_tail d n o hm (some j) e = tt

  take_mutex :
      (blocks : Bool)
      → (s.queue.tail_mutex ≢ some i)
      → (m : Option ℕ) → s.queue.head_mutex ≡ m
      → IsFine s l i
          (head_lock blocks)
          (locks m (goes (record s.queue { head_mutex = some i }) (head_test blocks)))
  take_mutex blocks tm none e = (
    l,
    none,
    Moves-Lock h (head_lock blocks) (head_test blocks)
        (subst (λ m. Lock i true m (some i)) (sym e) (taken refl)) (same _ (λ f. absurd (tm f)))
        refl refl h.settled,
  )
  take_mutex blocks tm (some j) e = tt

  give_head :
      (p p' : Place)
      → s.queue.head_mutex ≡ some i
      → (s.queue.tail_mutex ≡ some i → has_tail p' ≡ true)
      → Owns (record s.queue { head_mutex = none }) l i p'
      → held p' ≡ held p
      → Moves s.queue l l i p (goes (record s.queue { head_mutex = none }) p') none
  give_head p p' m tm own e =
      Moves-Lock h p p' (subst (λ z. Lock i (has_head p') z none) (sym m) freed) (same _ tm) own e
        h.settled

  test_head :
      (blocks : Bool) (m : Option ℕ)
      → first l ≡ m
      → s.queue.head_mutex ≡ some i
      → (s.queue.tail_mutex ≢ some i)
      → IsFine s l i (head_test blocks) (some (tests s.queue blocks m))
  test_head true none e m tm = (
    l,
    none,
    Moves-Lock h (head_test true) head_wait (same _ (λ f. refl)) (same _ (λ f. absurd (tm f))) m
        refl h.settled,
  )
  test_head false none e m tm = (
    l,
    none,
    Moves-Lock h (head_test false) empty_unlock (same _ (λ f. refl)) (same _ (λ f. absurd (tm f))) m
        refl h.settled,
  )
  test_head true (some r) e m tm = (
    l,
    none,
    Moves-Lock h (head_test true) take_head (same _ (λ f. refl)) (same _ (λ f. absurd (tm f)))
        (m, (r, e)) refl h.settled,
  )
  test_head false (some r) e m tm = (
    l,
    none,
    Moves-Lock h (head_test false) take_head (same _ (λ f. refl)) (same _ (λ f. absurd (tm f)))
        (m, (r, e)) refl h.settled,
  )

  pub act-IsFine :
      (p : Place)
      → Owns s.queue l i p
      → (s.queue.head_mutex ≡ some i → has_head p ≡ true)
      → (s.queue.tail_mutex ≡ some i → has_tail p ≡ true)
      → IsFine s l i p (act i s.queue p)
  unfolding act
  act-IsFine outside o hm tm = tt
  act-IsFine (allocating d) o hm tm = tt
  act-IsFine (filling d n) ((c, e), out) hm tm = rw e (
    l,
    some n,
    Moves-put h (filling d n) (tail_lock d n) n (some (record { item = d; next = none })) out
        (inl refl) (inl refl) (λ f. absurd (ground arith)) (λ f. absurd (ground arith))
        (ground arith, out),
  )
  act-IsFine (tail_lock d n) o hm tm =
      take_tail d n o (λ f. absurd (ground arith)) s.queue.tail_mutex refl
  act-IsFine (tail_link d n) (own, m, e) hm tm =
      let (z, k) = Linked-last_node s.queue.store s.queue.head l h.linked in
      let k' : s.queue.store s.queue.tail ≡ some z = ground arith in
      rw k' (l ++ n ∷ [], some n, Moves-link h d n z own m e k' (λ f. absurd (ground arith)))
  act-IsFine (tail_move n) (m, e) hm tm = (l, none, Moves-tail h n m e (λ f. absurd (ground arith)))
  act-IsFine tail_unlock (m, e) hm tm =
      simp (m, unlocks_own i)
        (
          l,
          none,
          Moves-Lock h tail_unlock signalling (same _ (λ f. absurd (ground arith)))
              (subst (λ z. Lock i false z none) (sym m) freed) tt refl (λ f. e),
        )
  act-IsFine signalling o hm tm = tt
  act-IsFine (head_lock blocks) o hm tm =
      take_mutex blocks (λ f. absurd (ground arith)) s.queue.head_mutex refl
  act-IsFine (head_test blocks) m hm tm =
      let (c, e, f) = Linked-first s.queue.store s.queue.head l h.linked in
      rw e (test_head blocks c.next (sym f) m (λ f. absurd (ground arith)))
  act-IsFine head_wait m hm tm =
      simp (m, unlocks_own i)
        (l, none, give_head head_wait waiting m (λ f. absurd (ground arith)) tt refl)
  act-IsFine waiting o hm tm = tt
  act-IsFine take_head (m, r) hm tm = (
    l,
    none,
    Moves-Lock h take_head (take_next s.queue.head) (same _ (λ f. refl))
        (same _ (λ f. absurd (ground arith))) (m, refl, r) refl h.settled,
  )
  act-IsFine (take_next dummy) (m, y, (r, k)) hm tm =
      let (c, e, f) = Linked-first s.queue.store s.queue.head l h.linked in
      let g : s.queue.store dummy ≡ some c = ground arith in
      let f' : c.next ≡ some r = f ∙ k in
      rw (g, f')
        (
          l,
          none,
          Moves-Lock h (take_next dummy) (take_data dummy r) (same _ (λ f. refl))
              (same _ (λ f. absurd (ground arith))) (m, y, k) refl h.settled,
        )
  act-IsFine (take_data dummy r) (m, y, k) hm tm =
      let (c, e) = Linked-second s.queue.store s.queue.head r l h.linked k in
      rw e (
        l,
        none,
        Moves-Lock h (take_data dummy r) (head_move dummy r c.item) (same _ (λ f. refl))
            (same _ (λ f. absurd (ground arith))) (m, y, k, (c, e, refl)) refl h.settled,
      )
  act-IsFine (head_move dummy r v) (m, y, k, (c, e, w)) hm tm =
      let (l', mv) = move_head l h dummy r v c m (λ f. absurd (ground arith)) y k e w in
      (l', none, mv)
  act-IsFine (head_unlock dummy v) (m, own) hm tm =
      simp (m, unlocks_own i)
        (
          l,
          none,
          give_head (head_unlock dummy v) (freeing dummy v) m (λ f. absurd (ground arith)) own refl,
        )
  act-IsFine (freeing dummy v) ((c, e), out) hm tm = rw e (
    l,
    some dummy,
    Moves-put h (freeing dummy v) (returning (some v)) dummy none out (inl refl) (inr (refl, refl))
        (λ f. absurd (ground arith)) (λ f. absurd (ground arith)) tt,
  )
  act-IsFine empty_unlock m hm tm =
      simp (m, unlocks_own i)
        (l, none, give_head empty_unlock (returning none) m (λ f. absurd (ground arith)) tt refl)
  act-IsFine (returning r) o hm tm = (
    l,
    none,
    Moves-Lock h (returning r) outside (same _ (λ f. absurd (ground arith)))
        (same _ (λ f. absurd (ground arith))) tt refl h.settled,
  )
  act-IsFine crashed o hm tm = tt
