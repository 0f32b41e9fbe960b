-- ===== src/Nice/HQueue/Refine.antt =====
-- About sequences of calls.
use ccbase.Base.{
  ℕ, ◌-◌, ◌<◌, ◌≡◌, ◌≢◌, inl, inr, refl, sym, ◌∙◌, ap, false, Option, some, List, [], ◌∷◌, arith,
  has, ◌==◌, List-cases,
}
use ccbase.Nice.HQueue.{HQueue, new_queue, init, enqueue, dequeue, is_empty}
use ccbase.Nice.HQueue.Chain.{Chain, values, Chain-last}
use ccbase.Nice.HQueue.Claim.{claim_node-cases}
use ccbase.Nice.HQueue.Bounded.{
  Bounded, Call, put, take, ask, start, put_spec, take_from, take_spec, ask_spec, answers_spec,
  answers,
}
use ccbase.Nice.HQueue.Busy.{busy, off-chain}
use ccbase.Nice.HQueue.Represents.{Represents, Taken-full, free-roomy}
use ccbase.Nice.HQueue.Steps.{
  with_put, enqueue-put, put-Represents, free_index-Represents, with_taken, dequeue-none,
  dequeue-some, take-Represents,
}

module _ {T : Type 0} where
  init-Represents : (sz : ℕ) → 0 < sz → Represents {T = T} sz (init sz new_queue).1 (start (sz - 1))
  unfolding init
  init-Represents sz pos =
      let ready : (sz == 0) ≡ false = ground arith in
      rw ready (record {
        h = 0;
        t = 0;
        chain = [];
        head_at = refl;
        tail_at = refl;
        linked = (refl, refl);
        held = refl;
        distinct = (refl, tt);
        below = (pos, tt);
        frees = λ i l m. ground arith;
        room_is = refl;
        begun_is = refl;
        sized = refl;
        from = omega arith;
      })

  -- `Enqueue` answers as the list does, and the queue represents the list after it.
  enqueue-refines :
      (sz : ℕ) (q : HQueue T) (b : Bounded T) (v : Option T)
      → Represents sz q b
      → (q' : HQueue T) × (enqueue v q ≡ some ((put_spec v b).0, q'))
        × Represents sz q' (put_spec v b).1
  unfolding put_spec enqueue
  enqueue-refines sz q b v w = elim (claim_node-cases q w.from) [
    | inl (i, l, m, f, run) ↦
        let roomy = free-roomy sz q b w i l m f in
        let lacks : has i (busy w.h w.chain) ≡ false = ground (arith, w.frees i, w.sized, f) in
        let last = (Chain-last q.nodes w.h w.chain w.t w.linked).1 in
        let apart : i ≢ w.t = λ e. ground (arith, off-chain w.h i w.chain lacks, last, e) in
        (
          with_put sz q b w v i,
          rw roomy (enqueue-put sz q b w v i (omega (arith, w.sized)) apart run),
          rw roomy (put-Represents sz q b w v i l (omega (arith, w.sized)) lacks),
        )
    | inr (all, run) ↦
        let full = Taken-full sz q b w all in
        (
          record q { free_index = 1 },
          rw full (rw (run, enqueue) refl),
          rw full (free_index-Represents sz q b w),
        )
  ]

  take_spec-items :
      (b : Bounded T) (l : List (Option T)) → b.items ≡ l → take_spec b ≡ take_from l b
  unfolding take_spec
  take_spec-items b l e = ap (λ x. take_from x b) e

  dequeue-refines :
      (sz : ℕ) (q : HQueue T) (b : Bounded T)
      → Represents sz q b
      → (q' : HQueue T) × (dequeue q ≡ some ((take_spec b).0, q'))
        × Represents sz q' (take_spec b).1
  dequeue-refines sz q b w = elim (List-cases w.chain) [
    | inl nil ↦
        let bare : b.items ≡ [] = w.held ∙ ap (values q.nodes) nil in
        (
          q,
          rw (take_spec-items b [] bare) (dequeue-none sz q b w bare),
          rw (take_spec-items b [] bare) w,
        )
    | inr (n, c, full) ↦
        let items : b.items ≡ (q.nodes n).value ∷ values q.nodes c =
          w.held ∙ ap (values q.nodes) full in
        let spec = take_spec-items b _ items in
        (
          with_taken sz q b w n,
          rw spec (dequeue-some sz q b w n c full),
          rw spec (take-Represents sz q b w n c full),
        )
  ]

  is_empty-refines :
      (sz : ℕ) (q : HQueue T) (b : Bounded T) → Represents sz q b → is_empty q ≡ ask_spec b
  unfolding is_empty
  is_empty-refines sz q b w = elim (List-cases w.chain) [
    | inl nil ↦
        let bare : b.items ≡ [] = w.held ∙ ap (values q.nodes) nil in
        let l : Chain q.nodes w.h [] w.t = rw nil at w.linked in
        let at_tail : q.qtail.index ≡ some w.h = w.tail_at ∙ ap some (sym l.0) in
        ground (arith, bare, w.head_at, at_tail, l.1)
    | inr (n, c, full) ↦
        let items : b.items ≡ (q.nodes n).value ∷ values q.nodes c =
          w.held ∙ ap (values q.nodes) full in
        let l : Chain q.nodes w.h (n ∷ c) w.t = rw full at w.linked in
        ground (arith, items, w.head_at, w.tail_at, l.0)
  ]

  answers-refine :
      (sz : ℕ) (l : List (Call T)) (q : HQueue T) (b : Bounded T)
      → Represents sz q b
      → answers l q ≡ some (answers_spec l b)
  unfolding answers answers_spec
  answers-refine sz [] q b w = refl
  answers-refine sz (put v ∷ l) q b w =
      let (q', run, w') = enqueue-refines sz q b v w in
      rw (run, answers, answers-refine sz l q' (put_spec v b).1 w') refl
  answers-refine sz (take ∷ l) q b w =
      let (q', run, w') = dequeue-refines sz q b w in
      rw (run, answers, answers-refine sz l q' (take_spec b).1 w') refl
  answers-refine sz (ask ∷ l) q b w =
      rw (answers-refine sz l q b w, answers, is_empty-refines sz q b w) refl

  -- An HQueue that is initialised with a size above 0 refines a bounded list: any calls of Enqueue,
  -- Dequeue and Empty, one after the other, all end, and their answers are those of a list that
  -- takes values at its end and gives them from its front. It has room for one value less than
  -- the size, and, from the first value taken on, for two less.
  pub answers-init :
      (sz : ℕ) (l : List (Call T))
      → 0 < sz
      → answers l (init sz new_queue).1 ≡ some (answers_spec l (start (sz - 1)))
  answers-init sz l pos =
      answers-refine sz l (init sz new_queue).1 (start (sz - 1)) (init-Represents sz pos)
