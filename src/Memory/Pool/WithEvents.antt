-- ===== src/Memory/Pool/WithEvents.antt =====
-- An allocator in which the events of one buffer change.
use ccbase.Base.{ℕ, ◌≡◌, inl, true, arith}
use ccbase.Memory.Types.{is_status}
use ccbase.Memory.Event.{EventBase, is_event_not_used}
use ccbase.Memory.Heap.{Ptr, write}
use ccbase.Memory.Heap.Linked.{IsLinked}
use ccbase.Memory.BufSet.Order.{Sorted-congr}
use ccbase.Memory.Allocator.{MemBufAllocator, Env}
use ccbase.Memory.Allocator.Valid.{IsValid}
use ccbase.Memory.Allocator.Eager.{IdleQuiet}
use ccbase.Memory.Allocator.Advance.{Advances, Steady-refl}
use ccbase.Memory.Types.{idle}

module _ (a : MemBufAllocator) (b : Ptr) (e : EventBase) where
  -- The allocator with the events of one buffer changed.
  abbrev pub with_events : MemBufAllocator
  with_events = record a { heap = write a.heap b (record (a.heap.buf b) { event_base = e }) }

  with_events-IsLinked : IsLinked a.heap → IsLinked with_events.heap
  with_events-IsLinked v = record {
    null_dead = v.null_dead;
    fresh_pos = v.fresh_pos;
    below = v.below;
    sized = λ p l. ground (arith, v.sized p);
    fits = λ p l. ground (arith, v.fits p);
    next_live = λ p l n. ground (arith, v.next_live p);
    prev_live = λ p l n. ground (arith, v.prev_live p);
    next_prev = λ p l n. ground (arith, v.next_prev p);
    prev_next = λ p l n. ground (arith, v.prev_next p);
    touch = λ p l n. ground (arith, v.touch p);
    apart = λ p q l m n. ground (arith, v.apart p q);
  }

  pub with_events-IsValid : IsValid a → IsValid with_events
  with_events-IsValid v = record {
    linked = with_events-IsLinked v.linked;
    frees = λ p. ground (arith, v.frees p);
    eagers = λ p. ground (arith, v.eagers p);
    free_sorted =
        Sorted-congr a.heap with_events.heap _ (λ q m. (ground arith, ground arith)) v.free_sorted;
    eager_sorted =
        Sorted-congr a.heap with_events.heap _ (λ q m. (ground arith, ground arith)) v.eager_sorted;
  }

  -- A change of the events advances the allocator, if an idle buffer gets none.
  pub with_events-Advances :
      {D : Type 0} (taken : D → ℕ → Type 0) (env : Env D)
      → IsValid a
      → IdleQuiet a
      → (a.heap.live b ≡ true
          → is_status (a.heap.buf b).status idle ≡ true
          → is_event_not_used e ≡ true)
      → Advances taken a with_events env env
  with_events-Advances taken env v quiet clears = record {
    valid = with_events-IsValid v;
    quiet = λ p l i. ground (arith, quiet p, clears);
    kept = λ q u. ground arith;
    owned = λ x (p, i). inl (p, ground arith);
    steady = Steady-refl taken env;
  }
