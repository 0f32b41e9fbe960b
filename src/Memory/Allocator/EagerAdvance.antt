-- ===== src/Memory/Allocator/EagerAdvance.antt =====
-- FreeIdleMemsByEagerFree as an operation that advances its allocator.
use ccbase.Base.{ℕ, ◌≡◌, inl, inr, refl, ap, true, List, [], ◌∷◌, arith, add64}
use ccbase.Memory.Types.{idle, eager_free, is_status}
use ccbase.Memory.Heap.{Ptr, Heap}
use ccbase.Memory.Heap.Bytes.{SameBytes, SameBytes-trans, SameBytes-refl}
use ccbase.Memory.Allocator.{MemBufAllocator, Hooks, Env, free, release_buf}
use ccbase.Memory.Allocator.Release.{free_each, eager_free_each, free_idle_mems_by_eager_free}
use ccbase.Memory.Allocator.Valid.{IsValidBut, IsValid}
use ccbase.Memory.Allocator.Frame.{InUse, Untouched, free-Untouched}
use ccbase.Memory.Allocator.Bytes.{release_buf-SameBytes}
use ccbase.Memory.Allocator.Free.{release_buf-IsValid}
use ccbase.Memory.Allocator.Eager.{
  IdleQuiet, with_free, release_buf-with_free, head-IsValidBut, release_buf-IdleQuiet, free-quiet,
  free_idle_mems-IsValid,
}
use ccbase.Memory.Allocator.Advance.{
  Kept, Untouched-Kept, Steady, Steady-refl, Steady-trans, HookLaws, Advances,
}

Kept-trans : (q : Ptr) (h g k : Heap) → Kept q h g → Kept q g k → Kept q h k
Kept-trans q h g k a b = (b.0, ground (arith, a.1, b.1), ground (arith, a.2, b.2))

Kept-refl : (q : Ptr) (h : Heap) → InUse q h → Kept q h h
Kept-refl q h u = (u, refl, refl)

-- What each step of the iteration keeps.
free_each-keeps :
    (ps : List Ptr) (n : ℕ) (a : MemBufAllocator)
    → IdleQuiet a
    → IsValid (with_free ps a)
    → SameBytes a.heap (free_each ps n a).1.heap
      × ((q : Ptr) → InUse q a.heap → Kept q a.heap (free_each ps n a).1.heap)
unfolding free_each
free_each-keeps [] n a quiet v = (SameBytes-refl a.heap, λ q u. Kept-refl q a.heap u)
free_each-keeps (p ∷ ps) n a quiet v =
    let here : IsValidBut p (with_free ps a) = head-IsValidBut p ps a v in
    let m : (a.heap.live p ≡ true) × (is_status (a.heap.buf p).status idle ≡ true) =
      ground (arith, v.frees p) in
    let a' = release_buf eager_free p a in
    let next : IsValid (with_free ps a') =
      rw release_buf-with_free at
        (release_buf-IsValid eager_free p (with_free ps a) (inr refl) here m.0) in
    let run = free-quiet eager_free p a (quiet p m.0 m.1) in
    let bytes : SameBytes a.heap a'.heap =
      rw (ap (λ x. x.heap) (release_buf-with_free ps p a)) at
        (release_buf-SameBytes eager_free p (with_free ps a) (inr refl) here m.0) in
    let kept : (q : Ptr) → InUse q a.heap → Kept q a.heap a'.heap = λ q u.
      let w : Untouched q a.heap (free p eager_free a).1.heap =
        free-Untouched eager_free (inr refl) p q (λ e. ground (arith, e, u, m)) a u in
      Untouched-Kept q a.heap a'.heap u (rw run at w) in
    rw (run, free_each)
      (let ih =
          free_each-keeps ps (add64 n (a.heap.buf p).size) a' (release_buf-IdleQuiet p a quiet)
            next in
        (
          SameBytes-trans a.heap a'.heap (free_each ps (add64 n (a.heap.buf p).size) a').1.heap
              bytes ih.0,
          λ q u.
              let k = kept q u in
              Kept-trans q a.heap a'.heap (free_each ps (add64 n (a.heap.buf p).size) a').1.heap k
                (ih.1 q k.0),
        ))

module _ {D : Type 0} (taken : D → ℕ → Type 0) (hooks : Hooks D) (laws : HookLaws taken hooks) where
  eager_free_each-Steady :
      (h : Heap) (ps : List Ptr) (n : ℕ) (e : Env D)
      → Steady taken e (eager_free_each hooks h ps n e).1
  unfolding eager_free_each
  eager_free_each-Steady h [] n e = Steady-refl taken e
  eager_free_each-Steady h (p ∷ ps) n e =
      let r = hooks.mem_eager_freer (h.buf p).addr (h.buf p).size e in
      Steady-trans taken e r.1 _ (laws.freer (h.buf p).addr (h.buf p).size e)
        (eager_free_each-Steady h ps _ r.1)

  pub free_idle_mems-Advances :
      (a : MemBufAllocator) (e : Env D)
      → IsValid a
      → IdleQuiet a
      → Advances taken a
          (free_idle_mems_by_eager_free hooks a e).1
          e
          (free_idle_mems_by_eager_free hooks a e).2
  unfolding free_idle_mems_by_eager_free
  free_idle_mems-Advances a e v quiet =
      let w = free_idle_mems-IsValid hooks a e quiet v in
      let k = free_each-keeps a.free_mem_bufs 0 a quiet v in
      record {
        valid = w.0;
        quiet = λ p l i. cc (w.1 p l, i);
        kept = k.1;
        owned = λ x c. inl ((k.0 x).1 c);
        steady =
            eager_free_each-Steady (free_each a.free_mem_bufs 0 a).1.heap
              (free_each a.free_mem_bufs 0 a).1.eager_free_mem_bufs 0 e;
      }
