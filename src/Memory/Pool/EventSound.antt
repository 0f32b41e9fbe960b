-- ===== src/Memory/Pool/EventSound.antt =====
-- DoSyncAllEvents and the invariant of the pool with the device.
use ccbase.Base.{
  ℕ, false, All, ◌≡◌, ◌∙◌, inl, inr, refl, sym, subst, true, ◌&&◌, List, [], ◌∷◌, arith, Bool-cases,
  List-cases,
}
use ccbase.Memory.Types.{is_status, used_by_event}
use ccbase.Memory.Event.{EventBase, is_event_not_used, sync_all_events}
use ccbase.Memory.Heap.{Ptr}
use ccbase.Memory.Allocator.Advance.{Kept, Advances}
use ccbase.Memory.Pool.State.{AllocatorRef, same_buf, BufRef, Pool, buf_of}
use ccbase.Memory.Pool.Events.{
  fault, is_live, set_events, sync_at, sync_each, carry_event_mem_bufs, do_sync_all_events,
}
use ccbase.Memory.Allocator.Frame.{InUse}
use ccbase.Memory.Pool.Free.{do_free_tensor_mem}
use ccbase.Memory.Pool.Accounts.{heap_of}
use ccbase.Memory.Pool.Sound.{PoolSound, advanced-PoolSound, Kept-all}
use ccbase.Memory.Pool.Tracked.{
  BufInUse, Tracked, Once, carry_event_mem_bufs-Once, carry_event_mem_bufs-All,
}
use ccbase.Memory.Pool.FreeSound.{free-frame, do_free_tensor_mem-PoolSound}
use ccbase.Memory.Pool.WithEvents.{with_events, with_events-Advances}
use ccbase.Memory.Pool.FreeOthers.{do_free_tensor_mem-faulted, free-others}

sync-clears :
    (e : EventBase) → is_event_not_used e ≡ true → is_event_not_used (sync_all_events e).1 ≡ true
unfolding sync_all_events
sync-clears e quiet = rw (quiet, sync_all_events) quiet

module _ {D : Type 0} (taken : D → ℕ → Type 0) where
  -- The pool stays sound.
  abbrev Sounds : Pool D → Pool D → Type 0
  Sounds p q = PoolSound taken q × (q.stream_keys ≡ p.stream_keys)

  -- The pool stays sound, and no deleted buffer is accessed or left in a pair of streams.
  abbrev pub Keeps : Pool D → Pool D → Type 0
  Keeps p q = PoolSound taken q × (q.stream_keys ≡ p.stream_keys) × (Tracked p → Tracked q)

  fault-PoolSound : (p : Pool D) → PoolSound taken p → PoolSound taken (fault p)
  fault-PoolSound p v = record {
    valid = v.valid;
    quiet = v.quiet;
    owned = v.owned;
    parted = v.parted;
    unmade = v.unmade;
    mapped = v.mapped;
    counted = v.counted;
  }

  module _ (r : AllocatorRef) (b : Ptr) (p : Pool D) (v : PoolSound taken p) where
    abbrev synced_events : EventBase
    synced_events = (sync_all_events (buf_of p (r, b)).event_base).1

    abbrev event_advances :
        Advances taken (p.allocators r) (with_events (p.allocators r) b synced_events) p.env p.env
    event_advances =
        with_events-Advances (p.allocators r) b synced_events taken p.env (v.valid r) (v.quiet r)
          (λ l i. sync-clears (buf_of p (r, b)).event_base (v.quiet r b l i))

    synced-PoolSound : PoolSound taken (set_events p (r, b) synced_events)
    synced-PoolSound =
        advanced-PoolSound taken p v r (with_events (p.allocators r) b synced_events) p.env
          (λ n q. v.unmade r q n) event_advances

    -- Clearing events leaves every buffer in use that was.
    synced-Kept :
        (t : AllocatorRef) (q : Ptr)
        → InUse q (heap_of p.allocators t)
        → Kept q (heap_of p.allocators t) (heap_of (set_events p (r, b) synced_events).allocators t)
    synced-Kept =
        Kept-all taken p v r (with_events (p.allocators r) b synced_events) p.env
          (λ n z. v.unmade r z n) event_advances

  sync_at-Sounds : (c : BufRef) (p : Pool D) → PoolSound taken p → Sounds p (sync_at c p)
  unfolding sync_at
  sync_at-Sounds (r, b) p v =
      let e = synced_events r b p v in
      let p₁ = set_events p (r, b) e in
      let v₁ = synced-PoolSound r b p v in
      elim (Bool-cases (is_live p (r, b))) [
        | inr deleted ↦ rw deleted (fault-PoolSound p v, refl)
        | inl alive ↦
            elim (Bool-cases (
              (sync_all_events (buf_of p (r, b)).event_base).0
              && is_status (buf_of p (r, b)).status used_by_event)) [
                | inl ends ↦
                    rw (alive, ends)
                      (
                        do_free_tensor_mem-PoolSound taken p₁ v₁ (buf_of p (r, b)).addr,
                        (free-frame taken p₁ v₁ (buf_of p (r, b)).addr).1,
                      )
                | inr stays ↦ rw (alive, stays) (v₁, refl)
              ]
      ]

  -- Synchronising a buffer that exists faults nowhere, and leaves any other buffer in use.
  module _ (r t : AllocatorRef) (b q : Ptr) (p : Pool D) (v : PoolSound taken p)
      (u : InUse b (heap_of p.allocators r)) where
    sync_at-faulted : (sync_at (r, b) p).faulted ≡ p.faulted
    unfolding sync_at
    sync_at-faulted =
        let p₁ = set_events p (r, b) (synced_events r b p v) in
        ground (arith, u.0, do_free_tensor_mem-faulted (buf_of p (r, b)).addr p₁)

    sync_at-InUse :
        same_buf (r, b) (t, q) ≡ false
        → InUse q (heap_of p.allocators t)
        → InUse q (heap_of (sync_at (r, b) p).allocators t)
    unfolding sync_at
    sync_at-InUse other i =
        let v₁ = synced-PoolSound r b p v in
        let p₁ = set_events p (r, b) (synced_events r b p v) in
        let u₁ = synced-Kept r b p v r b u in
        let i₁ = synced-Kept r b p v t q i in
        elim (Bool-cases (
          (sync_all_events (buf_of p (r, b)).event_base).0
          && is_status (buf_of p (r, b)).status used_by_event)) [
            | inl ends ↦
                rw (u.0, ends)
                  (subst (λ x. InUse q (heap_of (do_free_tensor_mem x p₁).1.allocators t)) u₁.1
                    (free-others taken p₁ v₁ (r, b) u₁.0 t q other i₁.0))
            | inr stays ↦ rw (u.0, stays) i₁.0
          ]

  sync_each-Sounds : (cs : List BufRef) (p : Pool D) → PoolSound taken p → Sounds p (sync_each cs p)
  unfolding sync_each
  sync_each-Sounds [] p v = (v, refl)
  sync_each-Sounds (c ∷ cs) p v =
      let w = sync_at-Sounds c p v in
      let u = sync_each-Sounds cs (sync_at c p) w.0 in (u.0, u.1 ∙ w.1)

  module _ (r : AllocatorRef) (b : Ptr) (p : Pool D) (v : PoolSound taken p)
      (u : InUse b (heap_of p.allocators r)) where
    sync_at-All :
        (cs : List BufRef)
        → All (λ d. same_buf (r, b) d ≡ false) cs
        → All (BufInUse p.allocators) cs
        → All (BufInUse (sync_at (r, b) p).allocators) cs
    sync_at-All [] others held = tt
    sync_at-All ((t, q) ∷ cs) others held =
        (sync_at-InUse r t b q p v u others.0 held.0, sync_at-All cs others.1 held.1)

  sync_each-faulted :
      (cs : List BufRef) (p : Pool D)
      → PoolSound taken p
      → Once cs
      → All (BufInUse p.allocators) cs
      → (sync_each cs p).faulted ≡ p.faulted
  unfolding sync_each
  sync_each-faulted [] p v once held = refl
  sync_each-faulted ((r, b) ∷ cs) p v once held =
      sync_each-faulted cs (sync_at (r, b) p) (sync_at-Sounds (r, b) p v).0 once.1
        (sync_at-All r b p v held.0 cs once.0 held.1)
      ∙ sync_at-faulted r r b b p v held.0

  -- Waiting for all events keeps the pool sound, and accesses no deleted buffer if the pairs of
  -- streams hold none.
  pub do_sync_all_events-Keeps : (p : Pool D) → PoolSound taken p → Keeps p (do_sync_all_events p).1
  unfolding do_sync_all_events
  do_sync_all_events-Keeps p v = elim (List-cases p.stream_pair_mem_bufs) [
    | inl none_held ↦
        let same : (do_sync_all_events p).1 ≡ p = simp (none_held, do_sync_all_events) in
        subst (Keeps p) (sym same) (v, refl, λ k. k)
    | inr (x, xs, some_held) ↦
        let w = sync_each-Sounds (carry_event_mem_bufs p.stream_pair_mem_bufs) p v in
        let q = sync_each (carry_event_mem_bufs p.stream_pair_mem_bufs) p in
        let same : (do_sync_all_events p).1 ≡ record q { stream_pair_mem_bufs = [] } =
          simp (some_held, do_sync_all_events) in
        subst (Keeps p) (sym same) (
          record {
            valid = w.0.valid;
            quiet = w.0.quiet;
            owned = w.0.owned;
            parted = w.0.parted;
            unmade = w.0.unmade;
            mapped = w.0.mapped;
            counted = w.0.counted;
          },
          w.1,
          λ k. (
            sync_each-faulted (carry_event_mem_bufs p.stream_pair_mem_bufs) p v
                  (carry_event_mem_bufs-Once p.stream_pair_mem_bufs)
                  (carry_event_mem_bufs-All p.allocators p.stream_pair_mem_bufs k.1)
                ∙ k.0,
            tt,
          ),
        )
  ]
