-- ===== src/Libc/HashMap/Place.antt =====
-- About the loop of `insert`.
use ccbase.Base.{
  ℕ, ◌≤◌, ◌<◌, ◌≡◌, inl, inr, sym, false, Option, some, arith, ◌==◌, Bool-cases, Option-cases,
}
use mathlib.Core.Option.{some-injective}
use ccbase.Libc.HashMap.{Entry, RobinHoodHashMap, set_entry}
use ccbase.Libc.HashMap.Ring.{dist}
use ccbase.Libc.HashMap.Slots.{Passed, Passage, home, IsPlaced}
use ccbase.Libc.HashMap.Find.{Absent}

module _ {K V : Type 0} (hasher : K → ℕ) (same : Discrete K) where
  -- The map with an entry written.
  abbrev pub put : RobinHoodHashMap K V → ℕ → Entry K V → RobinHoodHashMap K V
  put m i x = record m { table = set_entry m.table i (some x) }

  -- The entry in hand has come the right way to the index, and its key is nowhere else.
  pub record InHand (m : RobinHoodHashMap K V) (x : Entry K V) (idx : ℕ) : Type 0 where
    pub in_range : idx < m.capacity
    pub near : dist m.capacity (home hasher same m x.key) idx ≤ x.probe_distance
    pub way : Passage m.table m.capacity (home hasher same m x.key) x.key idx
    pub absent : Absent hasher same m x.key

  abbrev pub Weaker : Option (Entry K V) → Entry K V → Type 0
  Weaker o x = (y : Entry K V) → o ≡ some y → y.probe_distance ≤ x.probe_distance

  module _ (m : RobinHoodHashMap K V) (x : Entry K V) (idx : ℕ) (p : IsPlaced hasher same m)
      (w : InHand m x idx) (weak : Weaker (m.table idx) x) where
    put-near :
        (i : ℕ) (e : Entry K V)
        → i < m.capacity
        → (put m idx x).table i ≡ some e
        → dist m.capacity (home hasher same m e.key) i ≤ e.probe_distance
    put-near i e b s = elim (Bool-cases (i == idx)) [
      | inl here ↦
          let at : i ≡ idx = ground arith in
          let one : x ≡ e = some-injective _ _ (rw here at s) in rw (← one, at) w.near
      | inr other ↦ p.near i e b (rw other at s)
    ]

    Passed-new :
        (j i : ℕ) (e : Entry K V)
        → i < m.capacity
        → m.table i ≡ some e
        → Passed e.key (dist m.capacity (home hasher same m e.key) idx) (m.table idx)
        → Passed e.key (dist m.capacity (home hasher same m e.key) idx) (some x)
    Passed-new j i e b s old = elim (Option-cases (m.table idx)) [
      | inl free ↦ absurd (rw free at old)
      | inr (y, full) ↦
          let old' : Passed e.key (dist m.capacity (home hasher same m e.key) idx) (some y) =
            rw full at old in
          ((λ k. w.absent i e b s (sym k)), omega (arith, old'.1, weak y full))
    ]

    put-way :
        (i : ℕ) (e : Entry K V)
        → i < m.capacity
        → (put m idx x).table i ≡ some e
        → Passage (put m idx x).table m.capacity (home hasher same m e.key) e.key i
    put-way i e b s j c l = elim (Bool-cases (i == idx)) [
      | inl here ↦
          let at : i ≡ idx = ground arith in
          let one : x ≡ e = some-injective _ _ (rw here at s) in
          let l' : dist m.capacity (home hasher same m x.key) j
              < dist m.capacity (home hasher same m x.key) idx =
            rw (one, (sym at)) l in
          let apart : (j == idx) ≡ false = ground arith in rw (apart, ← one) (w.way j c l')
      | inr other ↦
          let s' : m.table i ≡ some e = rw other at s in
          elim (Bool-cases (j == idx)) [
            | inr far ↦ rw far (p.way i e b s' j c l)
            | inl hit ↦
                let at : j ≡ idx = ground arith in
                let old : Passed e.key (dist m.capacity (home hasher same m e.key) idx)
                    (m.table idx) =
                  p.way i e b s' idx w.in_range (rw at at l) in
                rw (hit, at) (Passed-new j i e b s' old)
          ]
    ]

    pub put-IsPlaced : IsPlaced hasher same (put m idx x)
    put-IsPlaced = record { near = put-near; way = put-way; home_lt = p.home_lt }
