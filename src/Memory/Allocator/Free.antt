-- ===== src/Memory/Allocator/Free.antt =====
-- About Free of MemBufAllocator and the invariant of Valid.
use ccbase.Base.{◌≡◌, inl, inr, true, false, arith, Bool-cases}
use ccbase.Memory.Types.{DynamicMemBufStatus, idle, used, eager_free, used_by_event, is_status}
use ccbase.Memory.Event.{is_event_not_used}
use ccbase.Memory.Heap.{Ptr, set_status}
use ccbase.Memory.Allocator.{MemBufAllocator, merge_prev, put_by_target, release_buf, free}
use ccbase.Memory.Allocator.Valid.{IsValidBut, IsValid}
use ccbase.Memory.Allocator.Moves.{
  set_status-IsValidBut, hand-IsValidBut, drop-IsValid, emplace_free-IsValid, emplace_eager-IsValid,
}
use ccbase.Memory.Allocator.Merge.{
  IsTarget, merge_prev-IsValidBut, merge_next-IsValidBut, merge_prev-keeps, merge_next-keeps,
}

put_by_target-IsValid :
    (t : DynamicMemBufStatus) (b : Ptr) (a : MemBufAllocator)
    → IsTarget t
    → IsValidBut b a
    → a.heap.live b ≡ true
    → (a.heap.buf b).status ≡ t
    → IsValid (put_by_target t b a)
unfolding put_by_target
put_by_target-IsValid idle b a target v l s = emplace_free-IsValid a b v l (rw s)
put_by_target-IsValid eager_free b a target v l s = emplace_eager-IsValid a b v l (rw s)
put_by_target-IsValid used b a target v l s = absurd (ground arith)
put_by_target-IsValid used_by_event b a target v l s = absurd (ground arith)

-- A buffer in hand, of whatever status, is entered and merged.
pub release_buf-IsValid :
    (t : DynamicMemBufStatus) (b : Ptr) (a : MemBufAllocator)
    → IsTarget t
    → IsValidBut b a
    → a.heap.live b ≡ true
    → IsValid (release_buf t b a)
unfolding release_buf
release_buf-IsValid t b a target v l =
    let a₁ : MemBufAllocator = record a { heap = set_status a.heap b t } in
    let v₁ : IsValidBut b a₁ = set_status-IsValidBut a b t v in
    let k₁ = merge_prev-keeps a₁ b v₁ l t target in
    let v₂ = merge_prev-IsValidBut a₁ b v₁ l t target in
    let k₂ = merge_next-keeps (merge_prev t b a₁) b v₂ k₁.0 t target in
    put_by_target-IsValid t b _ target
      (merge_next-IsValidBut (merge_prev t b a₁) b v₂ k₁.0 t target) k₂.0 (ground arith)

-- In a valid allocator, freeing to idle or eagerly a live buffer that is neither idle nor eagerly
-- freed leaves a valid allocator, also when events hold the buffer back.
pub free-IsValid :
    (t : DynamicMemBufStatus) (b : Ptr) (a : MemBufAllocator)
    → IsTarget t
    → IsValid a
    → a.heap.live b ≡ true
    → is_status (a.heap.buf b).status idle ≡ false
    → is_status (a.heap.buf b).status eager_free ≡ false
    → IsValid (free b t a).1
unfolding free
free-IsValid t b a target v l i e =
    let hand = hand-IsValidBut a b i e v in
    elim (Bool-cases (is_event_not_used (a.heap.buf b).event_base)) [
      | inl done ↦ rw done (release_buf-IsValid t b a target hand l)
      | inr waits ↦ rw waits (
          drop-IsValid _ b (ground arith) (ground arith)
            (set_status-IsValidBut a b used_by_event hand))
    ]
