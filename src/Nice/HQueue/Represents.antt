-- ===== src/Nice/HQueue/Represents.antt =====
-- The queue as the holder of a list.
use ccbase.Base.{
  ℕ, suc, ◌+◌, ◌-◌, ◌≤◌, ◌<◌, ◌≡◌, inl, inr, refl, sym, ◌∙◌, ap, true, false, not, some, List, [],
  ◌∷◌, arith, has, length, ltb, ◌==◌, if◌then◌else◌, Bool-cases,
}
use ccbase.Nice.HQueue.{HqNode, HQueue}
use ccbase.Nice.HQueue.Tally.{Distinct, Below, tally, tally-length, tally_full, tally_lacks}
use ccbase.Nice.HQueue.Chain.{Chain, values}
use ccbase.Nice.HQueue.Claim.{Taken}
use ccbase.Nice.HQueue.Bounded.{Bounded}
use ccbase.Nice.HQueue.Busy.{busy, busy-length, busy_zero}

module _ {T : Type 0} where
  pub length-values : (ns : ℕ → HqNode T) (c : List ℕ) → length (values ns c) ≡ length c
  length-values ns [] = refl
  length-values ns (n ∷ c) = ap suc (length-values ns c)

  -- The queue holds the items in the nodes of the chain, and every other node from 1 on is free.
  pub record Represents (sz : ℕ) (q : HQueue T) (b : Bounded T) : Type 0 where
    pub h : ℕ
    pub t : ℕ
    pub chain : List ℕ
    pub head_at : q.qhead.index ≡ some h
    pub tail_at : q.qtail.index ≡ some t
    pub linked : Chain q.nodes h chain t
    pub held : b.items ≡ values q.nodes chain
    pub distinct : Distinct (busy h chain)
    pub below : Below sz (busy h chain)
    pub frees : (i : ℕ) → 1 ≤ i → i < sz → (q.nodes i).free ≡ not (has i (busy h chain))
    pub room_is : b.room ≡ sz - (if h == 0 then 1 else 2)
    pub begun_is : b.begun ≡ not (h == 0)
    pub sized : q.queue_size ≡ sz
    pub from : 1 ≤ q.free_index

  module _ (sz : ℕ) (q : HQueue T) (b : Bounded T) (w : Represents sz q b) where
    pub count : tally (busy w.h w.chain) sz ≡ length b.items + (if w.h == 0 then 1 else 2)
    count =
        tally-length (busy w.h w.chain) sz w.distinct w.below
        ∙ busy-length w.h w.chain
        ∙ ap (λ n. n + (if w.h == 0 then 1 else 2))
            (sym (ap length w.held ∙ length-values q.nodes w.chain))

    -- Where all nodes from 1 on are taken, the list is full.
    pub Taken-full : Taken q 1 q.queue_size → ltb (length b.items) b.room ≡ false
    Taken-full all =
        let every : (i : ℕ) → i < sz → has i (busy w.h w.chain) ≡ true = λ i l.
          elim (Bool-cases (i == 0)) [
            | inl e ↦ let is : i ≡ 0 = ground arith in rw is (busy_zero w.h w.chain)
            | inr e ↦ ground (arith, all i, w.frees i, w.sized)
          ] in
        ground (arith, tally_full (busy w.h w.chain) sz every, count, w.room_is)

    pub free-roomy :
        (i : ℕ)
        → 1 ≤ i
        → i < q.queue_size
        → (q.nodes i).free ≡ true
        → ltb (length b.items) b.room ≡ true
    free-roomy i l m f =
        let lacks : has i (busy w.h w.chain) ≡ false = ground (arith, w.frees i, w.sized, f) in
        ground (
          arith,
          tally_lacks (busy w.h w.chain) sz i (omega (arith, w.sized)) lacks,
          count,
          w.room_is,
        )
