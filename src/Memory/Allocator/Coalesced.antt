-- ===== src/Memory/Allocator/Coalesced.antt =====
-- About Free and idle buffers that are neighbours.
use ccbase.Base.{◌≡◌, ◌≢◌, inl, inr, refl, sym, subst, Bool, true, false, arith, ◌==◌, Bool-cases}
use ccbase.Memory.Types.{idle, eager_free, is_status}
use ccbase.Memory.Event.{is_event_not_used}
use ccbase.Memory.Heap.{Ptr, null, Heap, set_status, absorb_prev, absorb_next}
use ccbase.Memory.Heap.Linked.{IsLinked}
use ccbase.Memory.Allocator.{
  MemBufAllocator, merge_prev, merge_next, put_by_target, release_buf, free,
}
use ccbase.Memory.Allocator.Valid.{IsValidBut, IsValid}
use ccbase.Memory.Allocator.Moves.{set_status-IsValidBut, hand-IsValidBut}
use ccbase.Memory.Allocator.Merge.{merge_prev-IsValidBut, merge_prev-keeps}

abbrev pub is_idle : Heap → Ptr → Bool
is_idle h p = is_status (h.buf p).status idle

-- The buffer behind an idle one is not idle.
abbrev pub IsCoalesced : Heap → Type 0
IsCoalesced h =
    (p : Ptr)
    → h.live p ≡ true
    → is_idle h p ≡ true
    → (h.buf p).next ≢ null
    → is_idle h (h.buf p).next ≡ false

-- The same for all neighbours that `b` is none of.
abbrev Elsewhere : Ptr → Heap → Type 0
Elsewhere b h =
    (p : Ptr)
    → h.live p ≡ true
    → p ≢ b
    → is_idle h p ≡ true
    → (h.buf p).next ≢ null
    → (h.buf p).next ≢ b
    → is_idle h (h.buf p).next ≡ false

-- The buffer before `b` is not idle.
abbrev FreeBefore : Ptr → Heap → Type 0
FreeBefore b h = (p : Ptr) → h.live p ≡ true → p ≢ b → (h.buf p).next ≡ b → is_idle h p ≡ false

module _ (a : MemBufAllocator) (b : Ptr) (v : IsLinked a.heap) (alive : a.heap.live b ≡ true)
    (near : Elsewhere b a.heap) where
  merge_prev-Elsewhere : Elsewhere b (merge_prev idle b a).heap
  unfolding merge_prev absorb_prev
  merge_prev-Elsewhere p l n i e f = ground (
    arith,
    near p,
    v.next_prev p,
    v.prev_next b,
    v.next_prev (a.heap.buf b).prev,
    v.prev_next (a.heap.buf b).prev,
    v.prev_live b,
  )

  merge_prev-FreeBefore : FreeBefore b (merge_prev idle b a).heap
  unfolding merge_prev absorb_prev
  merge_prev-FreeBefore p l n e = ground (
    arith,
    near p,
    v.next_prev p,
    v.prev_next b,
    v.next_prev (a.heap.buf b).prev,
    v.prev_next (a.heap.buf b).prev,
    v.prev_live b,
    v.prev_live (a.heap.buf b).prev,
    v.null_dead,
  )

  merge_next-Elsewhere : Elsewhere b (merge_next idle b a).heap
  unfolding merge_next absorb_next
  merge_next-Elsewhere p l n i e f = ground (
    arith,
    near p,
    v.next_prev p,
    v.prev_next b,
    v.next_prev (a.heap.buf b).next,
    v.prev_next (a.heap.buf b).next,
    v.next_live b,
    v.next_prev b,
  )

  merge_next-after :
      (merge_next idle b a).heap.live b ≡ true
      → ((merge_next idle b a).heap.buf b).next ≢ null
      → is_idle (merge_next idle b a).heap ((merge_next idle b a).heap.buf b).next ≡ false
  unfolding merge_next absorb_next
  merge_next-after l n = ground (
    arith,
    near (a.heap.buf b).next,
    v.next_live b,
    v.next_prev b,
    v.next_live (a.heap.buf b).next,
    v.next_prev (a.heap.buf b).next,
    v.touch b,
    v.touch (a.heap.buf b).next,
    v.sized b,
    v.sized (a.heap.buf b).next,
    v.null_dead,
  )

  merge_next-FreeBefore : FreeBefore b a.heap → FreeBefore b (merge_next idle b a).heap
  unfolding merge_next absorb_next
  merge_next-FreeBefore before p l n e = ground (
    arith,
    before p,
    v.next_prev p,
    v.next_live b,
    v.next_prev b,
    v.next_prev (a.heap.buf b).next,
    v.touch b,
    v.touch (a.heap.buf b).next,
    v.sized b,
    v.sized (a.heap.buf b).next,
    v.null_dead,
  )

joined :
    (h : Heap) (b : Ptr)
    → Elsewhere b h
    → FreeBefore b h
    → (h.live b ≡ true → (h.buf b).next ≢ null → is_idle h (h.buf b).next ≡ false)
    → IsCoalesced h
joined h b near before after p l i n = elim (Bool-cases (p == b)) [
  | inl same ↦
      let e : p ≡ b = ground arith in
      subst (λ x. h.live x ≡ true → (h.buf x).next ≢ null → is_idle h (h.buf x).next ≡ false)
        (sym e) after l n
  | inr other ↦ ground (arith, near p, before p)
]

module _ (a : MemBufAllocator) (b : Ptr) (v : IsValidBut b a) (alive : a.heap.live b ≡ true) where
  release_buf-IsCoalesced : IsCoalesced a.heap → IsCoalesced (release_buf idle b a).heap
  unfolding release_buf put_by_target
  release_buf-IsCoalesced c =
      let a₁ : MemBufAllocator = record a { heap = set_status a.heap b idle } in
      let v₁ : IsValidBut b a₁ = set_status-IsValidBut a b idle v in
      let near : Elsewhere b a₁.heap = λ p l n i e f. ground (arith, c p) in
      let k = merge_prev-keeps a₁ b v₁ alive idle (inl refl) in
      let v₂ = merge_prev-IsValidBut a₁ b v₁ alive idle (inl refl) in
      let a₂ = merge_prev idle b a₁ in
      let near₂ = merge_prev-Elsewhere a₁ b v₁.linked alive near in
      let before = merge_prev-FreeBefore a₁ b v₁.linked alive near in
      joined (merge_next idle b a₂).heap b (merge_next-Elsewhere a₂ b v₂.linked k.0 near₂)
        (merge_next-FreeBefore a₂ b v₂.linked k.0 near₂ before)
        (merge_next-after a₂ b v₂.linked k.0 near₂)

-- In a valid allocator where no two idle buffers are neighbours, the latter still holds after a
-- live buffer that is neither idle nor eagerly freed was freed to idle, also when events hold it
-- back.
pub free-IsCoalesced :
    (a : MemBufAllocator) (b : Ptr)
    → IsValid a
    → a.heap.live b ≡ true
    → is_idle a.heap b ≡ false
    → is_status (a.heap.buf b).status eager_free ≡ false
    → IsCoalesced a.heap
    → IsCoalesced (free b idle a).1.heap
unfolding free
free-IsCoalesced a b v l i e c = elim (Bool-cases (is_event_not_used (a.heap.buf b).event_base)) [
  | inl done ↦ rw done (release_buf-IsCoalesced a b (hand-IsValidBut a b i e v) l c)
  | inr waits ↦ rw waits (λ p m j n. ground (arith, c p))
]
