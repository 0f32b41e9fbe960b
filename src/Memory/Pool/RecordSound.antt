-- ===== src/Memory/Pool/RecordSound.antt =====
-- RecordEvent and the invariant of the pool with the device.
use ccbase.Base.{
  ap, sym, subst, Option, arith, All, none, some, false, refl, ◌∙◌, ℕ, ◌≡◌, inl, inr, List, [], ◌∷◌,
  Bool-cases, Option-cases,
}
use ccbase.Memory.Event.{EventBase, record_event, is_event_not_used}
use ccbase.Memory.Event.Laws.{record_event-used}
use ccbase.Memory.Stat.{MemStat}
use ccbase.Memory.Heap.{Ptr}
use ccbase.Memory.Allocator.Frame.{InUse}
use ccbase.Memory.Allocator.Advance.{Advances}
use ccbase.Memory.Pool.State.{
  set_stat, AllocatorRef, BufRef, PairMap, Pool, same_pair, buf_of, find_addr, emplace_pair,
}
use ccbase.Memory.Pool.Events.{add_used_by_event, set_events, record_at, record_event_all}
use ccbase.Memory.Pool.Accounts.{Allocators, heap_of, same_ref_refl, find_addr-Mapped}
use ccbase.Memory.Pool.Sound.{PoolSound, advanced-PoolSound, Kept-all}
use ccbase.Memory.Pool.Tracked.{BufInUse, PairsInUse, Tracked, insert_buf-All, advanced-Tracked}
use ccbase.Memory.Pool.WithEvents.{with_events, with_events-Advances}

emplace_pair-PairsInUse :
    (s : Allocators) (k : ℕ × ℕ) (c : BufRef) (m : PairMap)
    → BufInUse s c
    → PairsInUse s m
    → PairsInUse s (emplace_pair k c m)
unfolding emplace_pair
emplace_pair-PairsInUse s k c [] u held = ((u, tt), tt)
emplace_pair-PairsInUse s k c ((j, bs) ∷ m) u held = elim (Bool-cases (same_pair j k)) [
  | inl here ↦ rw here (insert_buf-All (BufInUse s) c bs u held.0, held.1)
  | inr there ↦ rw there (held.0, emplace_pair-PairsInUse s k c m u held.1)
]

abbrev BufHasEvents : {D : Type 0} → Pool D → Option BufRef → Type 0
BufHasEvents p none = Unit {0}
BufHasEvents p (some c) = is_event_not_used (buf_of p c).event_base ≡ false

-- A buffer that the pool knows at the address has events.
abbrev pub HasEvents : {D : Type 0} → Pool D → ℕ × ℕ → Type 0
HasEvents p (m, addr) = BufHasEvents p (find_addr addr p.addr_mem_buf_allocators)

module _ {D : Type 0} where
  record_at-map :
      (t s e : ℕ) (x : ℕ × ℕ) (p : Pool D)
      → (record_at t s e x p).addr_mem_buf_allocators ≡ p.addr_mem_buf_allocators
  unfolding record_at
  record_at-map t s e x p = ground arith

  known_as :
      (t s e : ℕ) (x : ℕ × ℕ) (p : Pool D) (addr : ℕ) (c : Option BufRef)
      → find_addr addr p.addr_mem_buf_allocators ≡ c
      → BufHasEvents (record_at t s e x p) c
      → BufHasEvents
          (record_at t s e x p)
          (find_addr addr (record_at t s e x p).addr_mem_buf_allocators)
  known_as t s e x p addr c known has =
      subst (BufHasEvents (record_at t s e x p))
        (sym (ap (find_addr addr) (record_at-map t s e x p) ∙ known)) has

  record_at-later :
      (t s e : ℕ) (x : ℕ × ℕ) (p : Pool D) (r : AllocatorRef) (b : Ptr)
      → is_event_not_used (buf_of p (r, b)).event_base ≡ false
      → is_event_not_used (buf_of (record_at t s e x p) (r, b)).event_base ≡ false
  unfolding record_at
  record_at-later t s e (m, addr) p r b used =
      elim (Option-cases (find_addr addr p.addr_mem_buf_allocators)) [
        | inl unknown ↦ rw (unknown, record_at) used
        | inr ((r', b'), known) ↦
            rw (known, record_at)
              (ground (arith, used, record_event-used t s e (buf_of p (r', b')).event_base))
      ]

  record_at-HasEvents : (t s e : ℕ) (x : ℕ × ℕ) (p : Pool D) → HasEvents (record_at t s e x p) x
  unfolding record_at
  record_at-HasEvents t s e (m, addr) p =
      elim (Option-cases (find_addr addr p.addr_mem_buf_allocators)) [
        | inl unknown ↦ known_as t s e (m, addr) p addr none unknown tt
        | inr ((r, b), known) ↦
            known_as t s e (m, addr) p addr (some (r, b)) known
              (rw (known, record_at)
                (ground
                  (arith, same_ref_refl r, record_event-used t s e (buf_of p (r, b)).event_base)))
      ]

  later-HasEvents :
      (t s e : ℕ) (x y : ℕ × ℕ) (p : Pool D) → HasEvents p y → HasEvents (record_at t s e x p) y
  later-HasEvents t s e x (m, addr) p has =
      elim (Option-cases (find_addr addr p.addr_mem_buf_allocators)) [
        | inl unknown ↦ known_as t s e x p addr none unknown tt
        | inr ((r, b), known) ↦
            known_as t s e x p addr (some (r, b)) known
              (record_at-later t s e x p r b (subst (BufHasEvents p) known has))
      ]

  record_event_all-HasEvents :
      (t s : ℕ) (xs : List (ℕ × ℕ)) (e : ℕ) (y : ℕ × ℕ) (p : Pool D)
      → HasEvents p y
      → HasEvents (record_event_all t s xs e p).1 y
  unfolding record_event_all
  record_event_all-HasEvents t s [] e y p has = has
  record_event_all-HasEvents t s (x ∷ xs) e y p has =
      record_event_all-HasEvents t s xs e y (record_at t s e x p) (later-HasEvents t s e x y p has)

module _ {D : Type 0} (taken : D → ℕ → Type 0) where
  module _ (p : Pool D) (v : PoolSound taken p) (r : AllocatorRef) (b : Ptr) (e : EventBase)
      (u : InUse b (heap_of p.allocators r)) where
    busy : Advances taken (p.allocators r) (with_events (p.allocators r) b e) p.env p.env
    busy =
        with_events-Advances (p.allocators r) b e taken p.env (v.valid r) (v.quiet r)
          (λ l i. cc (u.1, i))

    busy-InUse : InUse b (heap_of (set_events p (r, b) e).allocators r)
    busy-InUse =
        (Kept-all taken p v r (with_events (p.allocators r) b e) p.env (λ n q. v.unmade r q n) busy
          r b u).0

    -- A buffer in use may get any events.
    busy-PoolSound :
        Tracked p → PoolSound taken (set_events p (r, b) e) × Tracked (set_events p (r, b) e)
    busy-PoolSound held = (
      advanced-PoolSound taken p v r (with_events (p.allocators r) b e) p.env
          (λ n q. v.unmade r q n) busy,
      advanced-Tracked taken p v r (with_events (p.allocators r) b e) p.env (λ n q. v.unmade r q n)
          busy held,
    )

  -- The used size and the allocators are all that the invariant reads of what changes here.
  noted-PoolSound :
      (p : Pool D) (z : MemStat) (m : PairMap)
      → z.used_size ≡ p.env.stat.used_size
      → PoolSound taken p
      → PoolSound taken (record (set_stat p z) { stream_pair_mem_bufs = m })
  noted-PoolSound p z m same v = record {
    valid = v.valid;
    quiet = v.quiet;
    owned = v.owned;
    parted = v.parted;
    unmade = v.unmade;
    mapped = v.mapped;
    counted = same ∙ v.counted;
  }

  record_at-PoolSound :
      (t s e : ℕ) (x : ℕ × ℕ) (p : Pool D)
      → PoolSound taken p
      → Tracked p
      → PoolSound taken (record_at t s e x p) × Tracked (record_at t s e x p)
  unfolding record_at
  record_at-PoolSound t s e (m, addr) p v held =
      elim (Option-cases (find_addr addr p.addr_mem_buf_allocators)) [
        | inl unknown ↦ rw (unknown, record_at) (v, held)
        | inr ((r, b), known) ↦
            let u =
              find_addr-Mapped p.allocators addr (r, b) p.addr_mem_buf_allocators v.mapped known in
            let b₀ = (buf_of p (r, b)).event_base in
            let e' = record_event t s e b₀ in
            let q = set_events p (r, b) e' in
            let (v', held') = busy-PoolSound p v r b e' u.0 held in
            let m' = emplace_pair (s, m) (r, b) p.stream_pair_mem_bufs in
            let kept =
              emplace_pair-PairsInUse q.allocators (s, m) (r, b) p.stream_pair_mem_bufs
                (busy-InUse p v r b e' u.0) held'.1 in
            elim (Bool-cases (is_event_not_used b₀)) [
              | inl first ↦
                  rw (known, record_at, first)
                    (
                      noted-PoolSound q (add_used_by_event (buf_of p (r, b)).size p).env.stat m'
                          refl v',
                      (held'.0, kept),
                    )
              | inr later ↦
                  rw (known, record_at, later)
                    (noted-PoolSound q p.env.stat m' refl v', (held'.0, kept))
            ]
      ]

  pub record_event_all-PoolSound :
      (t s : ℕ) (xs : List (ℕ × ℕ)) (e : ℕ) (p : Pool D)
      → PoolSound taken p
      → Tracked p
      → let q = (record_event_all t s xs e p).1 in
        PoolSound taken q × Tracked q × All (HasEvents q) xs
  unfolding record_event_all
  record_event_all-PoolSound t s [] e p v held = (v, held, tt)
  record_event_all-PoolSound t s (x ∷ xs) e p v held =
      let (v', held') = record_at-PoolSound t s e x p v held in
      let p' = record_at t s e x p in
      let (w, tracked, rest) = record_event_all-PoolSound t s xs e p' v' held' in
      (w, tracked, (record_event_all-HasEvents t s xs e x p' (record_at-HasEvents t s e x p), rest))
