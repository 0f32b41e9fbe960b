-- ===== src/Libc/HashMap/Update.antt =====
-- About the loop of `insert` for a key that is in the table.
use ccbase.Base.{
  ℕ, zero, suc, ◌+◌, ◌≤◌, ◌<◌, ◌≡◌, inl, inr, ◌∙◌, ap, false, some, arith, ◌==◌, ltb, Bool-cases,
  Option-cases,
}
use mathlib.Core.Option.{some-injective}
use mathlib.Core.Logic.{if_pos, if_neg}
use ccbase.Libc.HashMap.{Entry, RobinHoodHashMap, next_index, place}
use ccbase.Libc.HashMap.Ring.{dist, dist-inj, next_index-lt, dist-next, dist-lt}
use ccbase.Libc.HashMap.Slots.{Passed, Passage, home, IsPlaced}
use ccbase.Libc.HashMap.Place.{put}

module _ {K V : Type 0} (hasher : K → ℕ) (same : Discrete K) where
  module _ (m : RobinHoodHashMap K V) (t : ℕ) (e : Entry K V) (v : V) (p : IsPlaced hasher same m)
      (b : t < m.capacity) (s : m.table t ≡ some e) where
    abbrev pub updated : RobinHoodHashMap K V
    updated = put hasher same m t (record e { value = v })

    updated-way :
        (i : ℕ) (d : Entry K V)
        → i < m.capacity
        → m.table i ≡ some d
        → Passage updated.table m.capacity (home hasher same m d.key) d.key i
    updated-way i d c r j a l = elim (Bool-cases (j == t)) [
      | inr other ↦ rw other (p.way i d c r j a l)
      | inl here ↦
          let at : j ≡ t = ground arith in
          let old : Passed d.key (dist m.capacity (home hasher same m d.key) t) (m.table t) =
            rw at at (p.way i d c r j a l) in
          let old' : Passed d.key (dist m.capacity (home hasher same m d.key) t) (some e) =
            rw s at old in
          rw (here, at) old'
    ]

    pub updated-IsPlaced : IsPlaced hasher same updated
    updated-IsPlaced = record {
      near = λ i d c r. elim (Bool-cases (i == t)) [
        | inr other ↦ p.near i d c (rw other at r)
        | inl here ↦
            let one : record e { value = v } ≡ d = some-injective _ _ (rw here at r) in
            let at : i ≡ t = ground arith in rw (← one, at) (p.near t e b s)
      ];
      way = λ i d c r. elim (Bool-cases (i == t)) [
        | inr other ↦ updated-way i d c (rw other at r)
        | inl here ↦
            let one : record e { value = v } ≡ d = some-injective _ _ (rw here at r) in
            let at : i ≡ t = ground arith in rw (← one, at) (updated-way t e b s)
      ];
      home_lt = p.home_lt;
    }

  -- The loop passes what stands before the key and writes its value.
  pub place-updates :
      (f idx t : ℕ) (m : RobinHoodHashMap K V) (x e : Entry K V) (v : V)
      → IsPlaced hasher same m
      → t < m.capacity
      → m.table t ≡ some e
      → e.key ≡ x.key
      → idx < m.capacity
      → x.probe_distance ≡ dist m.capacity (home hasher same m x.key) idx
      → dist m.capacity (home hasher same m x.key) idx
        ≤ dist m.capacity (home hasher same m x.key) t
      → dist m.capacity (home hasher same m x.key) t
        < dist m.capacity (home hasher same m x.key) idx + f
      → place hasher same f x.key v x idx x.probe_distance m
        ≡ some (put hasher same m t (record e { value = v }))
  unfolding place
  place-updates zero idx t m x e v p b s hit l dc before enough = absurd (omega arith)
  place-updates (suc f) idx t m x e v p b s hit l dc before enough =
      let n = m.capacity in
      let h = home hasher same m x.key in
      elim (Bool-cases (idx == t)) [
        | inl here ↦
            let at : idx ≡ t = ground arith in
            let s' : m.table idx ≡ some e = ap m.table at ∙ s in
            rw (s', place)
              (if_pos (same e.key x.key) hit _ _
                ∙ ap (λ i. some (put hasher same m i (record e { value = v }))) at)
        | inr other ↦
            let closer : dist n h idx < dist n h t =
              ground (arith, dist-inj n h idx t (p.home_lt x.key) l b) in
            let same_home : home hasher same m e.key ≡ h = ap (home hasher same m) hit in
            let w : Passed x.key (dist n h idx) (m.table idx) =
              rw (same_home, hit) at (p.way t e b s idx l (rw same_home closer)) in
            elim (Option-cases (m.table idx)) [
              | inl free ↦ absurd (rw free at w)
              | inr (y, full) ↦
                  let w' : Passed x.key (dist n h idx) (some y) = rw full at w in
                  let on : ltb y.probe_distance x.probe_distance ≡ false = ground arith in
                  let step =
                    dist-next n h idx (p.home_lt x.key) l
                      (omega (arith, dist-lt n h t (p.home_lt x.key) b)) in
                  rw (full, place)
                    (if_neg (same y.key x.key) w'.0 _ _
                      ∙ rw on (
                          place-updates f (next_index n idx) t m
                            (record x { probe_distance = x.probe_distance + 1 }) e v p b s hit
                            (next_index-lt n idx l) (omega (arith, step)) (omega (arith, step))
                            (omega (arith, step))))
            ]
      ]
