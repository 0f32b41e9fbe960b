-- ===== src/Libc/HashMap/Find.antt =====
-- About `find`.
use ccbase.Base.{
  ℕ, zero, suc, ◌+◌, ◌≤◌, ◌<◌, ◌≡◌, ◌≢◌, ◌⊎◌, inl, inr, refl, sym, ◌∙◌, ap, false, none, some,
  arith, ◌==◌, ltb, Bool-cases, Option-cases,
}
use mathlib.Core.Option.{some-injective}
use mathlib.Core.Logic.{if_pos, if_neg}
use ccbase.Libc.HashMap.{Entry, RobinHoodHashMap, next_index, probe, find}
use ccbase.Libc.HashMap.Ring.{dist, dist-inj, next_index-lt, dist-next, dist-towards, dist-lt}
use ccbase.Libc.HashMap.Slots.{free_slot, Passed, home, IsPlaced, IsValid}

module _ {K V : Type 0} (hasher : K → ℕ) (same : Discrete K) where
  -- The key stands at the index.
  abbrev pub At : RobinHoodHashMap K V → K → ℕ → Type 0
  At m k i = (i < m.capacity) × ((e : Entry K V) × (m.table i ≡ some e) × (e.key ≡ k))

  abbrev pub Absent : RobinHoodHashMap K V → K → Type 0
  Absent m k = (i : ℕ) (e : Entry K V) → i < m.capacity → m.table i ≡ some e → e.key ≢ k

  module _ (m : RobinHoodHashMap K V) (k : K) where
    search_below :
        (n : ℕ)
        → n ≤ m.capacity
        → ((i : ℕ) × At m k i) ⊎ ((i : ℕ) (e : Entry K V) → i < n → m.table i ≡ some e → e.key ≢ k)
    search_below zero l = inr (λ i e b s. absurd (omega arith))
    search_below (suc n) l = elim (search_below n (omega arith)) [
      | inl found ↦ inl found
      | inr missed ↦ elim (Option-cases (m.table n)) [
        | inl free ↦ inr (λ i e b s. elim (Bool-cases (i == n)) [
          | inr other ↦ missed i e (ground arith) s
          | inl here ↦
              let at : i ≡ n = ground arith in
              let no_entry : none ≡ some e = sym free ∙ ap m.table (sym at) ∙ s in cc
        ])
        | inr (d, full) ↦ elim (same d.key k) [
          | yes hit ↦ inl (n, (omega arith, (d, full, hit)))
          | no miss ↦ inr (λ i e b s. elim (Bool-cases (i == n)) [
            | inr other ↦ missed i e (ground arith) s
            | inl here ↦
                let at : i ≡ n = ground arith in
                let one : d ≡ e = some-injective _ _ (sym full ∙ ap m.table (sym at) ∙ s) in
                rw (← one) miss
          ])
        ]
      ]
    ]

    -- Either the key stands somewhere or nowhere.
    pub At-cases : ((i : ℕ) × At m k i) ⊎ Absent m k
    At-cases = search_below m.capacity (omega arith)

    probe-finds :
        (f idx c t : ℕ) (e : Entry K V)
        → IsPlaced hasher same m
        → t < m.capacity
        → m.table t ≡ some e
        → e.key ≡ k
        → idx < m.capacity
        → c ≡ dist m.capacity (home hasher same m k) idx
        → dist m.capacity (home hasher same m k) idx ≤ dist m.capacity (home hasher same m k) t
        → dist m.capacity (home hasher same m k) t < dist m.capacity (home hasher same m k) idx + f
        → probe hasher same f k idx c m ≡ some (some t)
    unfolding probe
    probe-finds zero idx c t e p b s hit l dc before enough = absurd (omega arith)
    probe-finds (suc f) idx c t e p b s hit l dc before enough =
        let n = m.capacity in
        let h = home hasher same m k in
        elim (Bool-cases (idx == t)) [
          | inl here ↦
              let at : idx ≡ t = ground arith in
              let s' : m.table idx ≡ some e = ap m.table at ∙ s in
              rw (s', probe) (if_pos (same e.key k) hit _ _ ∙ ap (λ x. some (some x)) at)
          | inr other ↦
              let closer : dist n h idx < dist n h t =
                ground (arith, dist-inj n h idx t (p.home_lt k) l b) in
              let same_home : home hasher same m e.key ≡ h = ap (home hasher same m) hit in
              let w : Passed k (dist n h idx) (m.table idx) =
                rw (same_home, hit) at (p.way t e b s idx l (rw same_home closer)) in
              elim (Option-cases (m.table idx)) [
                | inl free ↦ absurd (rw free at w)
                | inr (y, full) ↦
                    let w' : Passed k (dist n h idx) (some y) = rw full at w in
                    let on : ltb y.probe_distance c ≡ false = ground arith in
                    let step =
                      dist-next n h idx (p.home_lt k) l
                        (omega (arith, dist-lt n h t (p.home_lt k) b)) in
                    rw (full, probe)
                      (if_neg (same y.key k) w'.0 _ _
                        ∙ rw on (
                            probe-finds f (next_index n idx) (c + 1) t e p b s hit
                              (next_index-lt n idx l) (omega (arith, step)) (omega (arith, step))
                              (omega (arith, step))))
              ]
        ]

    probe-misses :
        (f idx c e0 : ℕ)
        → Absent m k
        → e0 < m.capacity
        → m.table e0 ≡ none
        → idx < m.capacity
        → dist m.capacity idx e0 < f
        → probe hasher same f k idx c m ≡ some none
    unfolding probe
    probe-misses zero idx c e0 absent b free l enough = absurd (omega arith)
    probe-misses (suc f) idx c e0 absent b free l enough = elim (Option-cases (m.table idx)) [
      | inl stop ↦ rw (stop, probe) refl
      | inr (y, full) ↦
          let apart : idx ≢ e0 =
            λ at. (let bad : none ≡ some y = sym free ∙ ap m.table (sym at) ∙ full in cc) in
          let step = dist-towards m.capacity e0 idx b l apart in
          let ih =
            probe-misses f (next_index m.capacity idx) (c + 1) e0 absent b free
              (next_index-lt m.capacity idx l) (omega (arith, step)) in
          rw (full, probe)
            (if_neg (same y.key k) (absent idx y l full) _ _
              ∙ (elim (Bool-cases (ltb y.probe_distance c)) [
                | inl early ↦ rw early refl
                | inr on ↦ rw on ih
              ]))
    ]

    -- In a well-formed map `find` ends within one round. It answers the one index at which the key
    -- stands, or null, and then the key stands nowhere.
    pub find-At :
        IsValid hasher same m
        → ((i : ℕ) × (find hasher same k m ≡ some (some i)) × At m k i)
          ⊎ ((find hasher same k m ≡ some none) × Absent m k)
    unfolding find
    find-At v = elim At-cases [
      | inl (i, (b, (e, s, hit))) ↦
          let n = m.capacity in
          let h = home hasher same m k in
          let l = v.placed.home_lt k in
          let own : dist n h h ≡ 0 = ground arith in
          inl (
            i,
            probe-finds (n + 1) h 0 i e v.placed b s hit l (omega (arith, own)) (omega (arith, own))
                (omega (arith, own, dist-lt n h i l b)),
            (b, (e, s, hit)),
          )
      | inr absent ↦
          let (e0, b, free) = free_slot m.table m.capacity (omega (arith, v.counted, v.sparse)) in
          let l = v.placed.home_lt k in
          inr (
            probe-misses (m.capacity + 1) (home hasher same m k) 0 e0 absent b free l
                (omega (arith, dist-lt m.capacity (home hasher same m k) e0 l b)),
            absent,
          )
    ]
