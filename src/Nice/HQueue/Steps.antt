-- ===== src/Nice/HQueue/Steps.antt =====
-- About one call, on each of its branches.
use ccbase.Base.{
  ℕ, ◌-◌, ◌≤◌, ◌<◌, ◌≡◌, ◌≢◌, inl, inr, refl, sym, ◌∙◌, ap, true, false, not, Option, none, some,
  List, [], ◌∷◌, ◌++◌, arith, has, ◌==◌, if◌then◌else◌, List-cases,
}
use ccbase.Nice.HQueue.{HQueue, nowhere, move_to, set_node, claim_node, fill_node, enqueue, dequeue}
use ccbase.Nice.HQueue.Tally.{Distinct, has-append, Distinct-append, Below-append}
use ccbase.Nice.HQueue.Chain.{
  Chain, values, Chain-last, Chain-frame, values-frame, Chain-append, values-append,
}
use ccbase.Nice.HQueue.Claim.{with_claimed}
use ccbase.Nice.HQueue.Bounded.{Bounded}
use ccbase.Nice.HQueue.Busy.{
  busy, busy-append, off-chain, busy-Distinct, busy_next, busy_next-Below, busy-later,
}
use ccbase.Nice.HQueue.Loops.{link_node-links, dequeue_loop-ends, dequeue_loop-takes}
use ccbase.Nice.HQueue.Represents.{Represents}

module _ {T : Type 0} where
  module _ (sz : ℕ) (q : HQueue T) (b : Bounded T) (w : Represents sz q b) where
    -- The queue after `v` was put into the node `i`.
    abbrev pub prepared : Option T → ℕ → HQueue T
    prepared v i =
        let q₁ = with_claimed q i in
        record q₁ {
          nodes = set_node q₁.nodes i (record (q₁.nodes i) { value = v; next = nowhere });
        }

    abbrev pub with_put : Option T → ℕ → HQueue T
    with_put v i =
        let q₂ = prepared v i in
        let ns = q₂.nodes in
        record q₂ {
          nodes = set_node ns w.t (record (ns w.t) { next = move_to (some i) (ns w.t).next });
          qtail = move_to (some i) q.qtail;
        }

    pub enqueue-put :
        (v : Option T) (i : ℕ)
        → 0 < sz
        → i ≢ w.t
        → claim_node q ≡ (some i, with_claimed q i)
        → enqueue v q ≡ some (true, with_put v i)
    unfolding enqueue
    enqueue-put v i pos ne run =
        rw
          (
            run,
            enqueue,
            fill_node,
            link_node-links q.queue_size i w.t (prepared v i) (omega (arith, w.sized)) w.tail_at
                (ground (arith, ne, (Chain-last q.nodes w.h w.chain w.t w.linked).0)),
          )
          refl

    pub put-Represents :
        (v : Option T) (i : ℕ)
        → 1 ≤ i
        → i < sz
        → has i (busy w.h w.chain) ≡ false
        → Represents sz (with_put v i) (record b { items = b.items ++ v ∷ [] })
    put-Represents v i l m lacks =
        let ms = (with_put v i).nodes in
        let off : has i (w.h ∷ w.chain) ≡ false = off-chain w.h i w.chain lacks in
        let last = Chain-last q.nodes w.h w.chain w.t w.linked in
        let apart : i ≢ w.t = λ e. ground (arith, off, last.1, e) in
        record {
          h = w.h;
          t = i;
          chain = w.chain ++ i ∷ [];
          head_at = w.head_at;
          tail_at = refl;
          linked =
              Chain-append q.nodes ms i w.h w.chain w.t (busy-Distinct w.h w.chain w.distinct)
                (λ j k n. ground (arith, off, k, n)) (ground (arith, apart)) (ground (arith, apart))
                w.linked;
          held =
              rw
                (
                  values-append ms i w.chain,
                  values-frame q.nodes ms w.chain (λ j k. ground (arith, off, k)),
                  w.held,
                )
                (ap (λ x. values q.nodes w.chain ++ x ∷ []) (ground (arith, apart)));
          distinct =
              rw (busy-append w.h i w.chain)
                (Distinct-append i (busy w.h w.chain) lacks w.distinct);
          below = rw (busy-append w.h i w.chain) (Below-append sz i (busy w.h w.chain) m w.below);
          frees = λ j k n.
              ground
                (arith, busy-append w.h i w.chain, has-append j i (busy w.h w.chain), w.frees j);
          room_is = w.room_is;
          begun_is = w.begun_is;
          sized = w.sized;
          from = omega arith;
        }

    pub free_index-Represents : Represents sz (record q { free_index = 1 }) b
    free_index-Represents = record {
      h = w.h;
      t = w.t;
      chain = w.chain;
      head_at = w.head_at;
      tail_at = w.tail_at;
      linked = w.linked;
      held = w.held;
      distinct = w.distinct;
      below = w.below;
      frees = w.frees;
      room_is = w.room_is;
      begun_is = w.begun_is;
      sized = w.sized;
      from = omega arith;
    }

    -- The queue after the node `n` became the head.
    abbrev pub with_taken : ℕ → HQueue T
    with_taken n = record q {
      qhead = move_to (some n) q.qhead;
      nodes = set_node q.nodes w.h (record (q.nodes w.h) { free = true });
    }

    pub dequeue-none : b.items ≡ [] → dequeue q ≡ some (none, q)
    unfolding dequeue
    dequeue-none bare =
        let nil : w.chain ≡ [] = elim (List-cases w.chain) [
          | inl e ↦ e
          | inr (n, c, e) ↦ cc (bare, w.held, ap (values q.nodes) e)
        ] in
        let l : Chain q.nodes w.h [] w.t = rw nil at w.linked in
        dequeue_loop-ends q.queue_size q w.h w.head_at (w.tail_at ∙ ap some (sym l.0)) l.1

    pub dequeue-some :
        (n : ℕ) (c : List ℕ) → w.chain ≡ n ∷ c → dequeue q ≡ some ((q.nodes n).value, with_taken n)
    unfolding dequeue
    dequeue-some n c full =
        let l : Chain q.nodes w.h (n ∷ c) w.t = rw full at w.linked in
        let d : Distinct (busy w.h (n ∷ c)) = rw full at w.distinct in
        let last = (Chain-last q.nodes n c w.t l.1).1 in
        let apart : (w.h == w.t) ≡ false = ground (arith, (busy-Distinct w.h (n ∷ c) d).0, last) in
        dequeue_loop-takes q.queue_size q w.h w.t n w.head_at w.tail_at apart l.0

    pub take-Represents :
        (n : ℕ) (c : List ℕ)
        → w.chain ≡ n ∷ c
        → Represents sz (with_taken n) (record {
          items = values q.nodes c;
          room = if b.begun then b.room else b.room - 1;
          begun = true;
        })
    take-Represents n c full =
        let d = busy_next w.h n c (rw full at w.distinct) in
        let b₀ = busy_next-Below sz w.h n c (rw full at w.below) in
        let old : (i : ℕ) → 1 ≤ i → i < sz → (q.nodes i).free ≡ not (has i (busy w.h (n ∷ c))) =
          rw full at w.frees in
        let l : Chain q.nodes w.h (n ∷ c) w.t = rw full at w.linked in
        record {
          h = n;
          t = w.t;
          chain = c;
          head_at = refl;
          tail_at = w.tail_at;
          linked = Chain-frame q.nodes (with_taken n).nodes n c w.t (λ i m. ground arith) l.1;
          held = sym (values-frame q.nodes (with_taken n).nodes c (λ i m. ground arith));
          distinct = rw (busy-later n c d.0) d.1;
          below = rw (busy-later n c d.0) b₀;
          frees = λ i k m. ground (
            arith,
            old i k m,
            busy-later n c d.0,
            busy-Distinct w.h (n ∷ c) (rw full at w.distinct),
          );
          room_is = ground (arith, d.0, w.room_is, w.begun_is);
          begun_is = ground (arith, d.0);
          sized = w.sized;
          from = w.from;
        }
