-- ===== src/Nice/HQueue/Loops.antt =====
-- The loops of Enqueue and Dequeue where no other thread interferes.
use ccbase.Base.{ℕ, zero, suc, ◌+◌, ◌<◌, ◌≡◌, refl, true, false, none, some, arith, ◌==◌}
use ccbase.Nice.HQueue.{HQueue, move_to, set_node, same_index, link_node, dequeue_loop}

suc_last : (f : ℕ) → f + 1 ≡ suc f
suc_last f = omega arith

module _ {T : Type 0} where
  -- Where the tail is the last node, the first round links the new one.
  pub link_node-links :
      (f i t : ℕ) (q : HQueue T)
      → 0 < f
      → q.qtail.index ≡ some t
      → (q.nodes t).next.index ≡ none
      → link_node f i q
        ≡ some (record q {
          nodes =
              set_node q.nodes t (record (q.nodes t) { next = move_to (some i) (q.nodes t).next });
          qtail = move_to (some i) q.qtail;
        })
  unfolding link_node
  link_node-links zero i t q pos e last = absurd (omega arith)
  link_node-links (suc f) i t q pos e last = rw (e, link_node, last) refl

  pub dequeue_loop-ends :
      (f : ℕ) (q : HQueue T) (h : ℕ)
      → q.qhead.index ≡ some h
      → q.qtail.index ≡ some h
      → (q.nodes h).next.index ≡ none
      → dequeue_loop (f + 1) q ≡ some (none, q)
  unfolding dequeue_loop
  dequeue_loop-ends f q h at_head at_tail last =
      rw (suc_last f, dequeue_loop, at_head, last, at_tail) (ground arith)

  pub dequeue_loop-takes :
      (f : ℕ) (q : HQueue T) (h t n : ℕ)
      → q.qhead.index ≡ some h
      → q.qtail.index ≡ some t
      → (h == t) ≡ false
      → (q.nodes h).next.index ≡ some n
      → dequeue_loop (f + 1) q
        ≡ some (
          (q.nodes n).value,
          record q {
            qhead = move_to (some n) q.qhead;
            nodes = set_node q.nodes h (record (q.nodes h) { free = true });
          },
        )
  unfolding dequeue_loop
  dequeue_loop-takes f q h t n at_head at_tail apart link =
      let other : same_index (some h) q.qtail.index ≡ false = rw at_tail apart in
      simp (suc_last f, dequeue_loop, at_head, link, other) refl
