-- ===== src/Libc/HashMap/Loop.antt =====
-- About the loop of `insert` for a key that is not in the table.
use ccbase.Base.{
  ℕ, zero, suc, ◌+◌, ◌≤◌, ◌<◌, ◌≡◌, ◌≢◌, ◌⊎◌, inl, inr, refl, sym, ◌∙◌, ap, true, false, none, some,
  arith, ◌==◌, ltb, Bool-cases, Option-cases,
}
use mathlib.Core.Option.{some-injective}
use mathlib.Core.Logic.{if_neg}
use ccbase.Libc.HashMap.{Entry, RobinHoodHashMap, next_index, place}
use ccbase.Libc.HashMap.Ring.{
  dist, dist-inj, next_index-lt, dist-next, dist-towards, dist-lt, dist-last,
}
use ccbase.Libc.HashMap.Slots.{
  occupied, occupied-set_entry, occupied-set_entry_new, Passed, home, Has, IsPlaced,
  IsPlaced-unique,
}
use ccbase.Libc.HashMap.Place.{put, InHand, put-IsPlaced}

module _ {K V : Type 0} (hasher : K → ℕ) (same : Discrete K) where
  -- The key and the value are those of the entry.
  abbrev pub Is : Entry K V → K → V → Type 0
  Is x q u = (x.key ≡ q) × (x.value ≡ u)

  module _ (m : RobinHoodHashMap K V) (x : Entry K V) (idx : ℕ) (q : K) (u : V) where
    put-Has-to : Has hasher same (put hasher same m idx x) q u → Has hasher same m q u ⊎ Is x q u
    put-Has-to (i, e, b, s, k, v) = elim (Bool-cases (i == idx)) [
      | inr other ↦ inl (i, e, b, rw other at s, k, v)
      | inl here ↦
          let one : x ≡ e = some-injective _ _ (rw here at s) in
          inr (ap (λ z. z.key) one ∙ k, ap (λ z. z.value) one ∙ v)
    ]

    put-Has-new : idx < m.capacity → Is x q u → Has hasher same (put hasher same m idx x) q u
    put-Has-new b w =
        let own : (idx == idx) ≡ true = ground arith in (idx, x, b, rw own refl, w.0, w.1)

    -- What had the value still has it, unless it stood where the entry is now.
    put-Has-old :
        Has hasher same m q u
        → Has hasher same (put hasher same m idx x) q u
          ⊎ ((y : Entry K V) × (m.table idx ≡ some y) × Is y q u)
    put-Has-old (i, e, b, s, k, v) = elim (Bool-cases (i == idx)) [
      | inr other ↦ inl (i, e, b, rw other s, k, v)
      | inl here ↦ let at : i ≡ idx = ground arith in inr (e, ap m.table (sym at) ∙ s, (k, v))
    ]

  module _ (m : RobinHoodHashMap K V) (idx e0 : ℕ) (y : Entry K V) (full : m.table idx ≡ some y)
      (b0 : e0 < m.capacity) (free : m.table e0 ≡ none) where
    pub apart_free : idx ≢ e0
    apart_free at = (let bad : none ≡ some y = sym free ∙ ap m.table (sym at) ∙ full in cc)

    -- The entry goes on where the entry that it passes is at least as far from its home.
    advance :
        (x : Entry K V) (d : ℕ)
        → IsPlaced hasher same m
        → InHand hasher same m x idx
        → y.key ≢ x.key
        → x.probe_distance ≤ y.probe_distance
        → x.probe_distance < d
        → InHand hasher same m (record x { probe_distance = d }) (next_index m.capacity idx)
    advance x d p w ne far more =
        let n = m.capacity in
        let h = home hasher same m x.key in
        let l = p.home_lt x.key in
        let not_last : dist n h idx + 1 ≢ n =
          λ last. rw free at (w.way e0 b0 (dist-last n h idx e0 l w.in_range b0 last apart_free)) in
        let room : dist n h idx + 1 < n = omega (arith, dist-lt n h idx l w.in_range) in
        let step = dist-next n h idx l w.in_range room in
        let passed : Passed x.key (dist n h idx) (some y) = (ne, omega (arith, w.near)) in
        record {
          in_range = next_index-lt n idx w.in_range;
          near = omega (arith, step, w.near);
          way = λ j c closer. elim (Bool-cases (j == idx)) [
            | inl here ↦ let at : j ≡ idx = ground arith in rw (at, full) passed
            | inr other ↦ w.way j c (ground (arith, step, dist-inj n h j idx l c w.in_range))
          ];
          absent = w.absent;
        }

    -- The entry that was driven out goes on in its place.
    displaced :
        (x : Entry K V) (d : ℕ)
        → IsPlaced hasher same m
        → InHand hasher same m x idx
        → y.probe_distance ≤ x.probe_distance
        → InHand hasher same (put hasher same m idx x) y idx
    displaced x d p w less = record {
      in_range = w.in_range;
      near = p.near idx y w.in_range full;
      way = λ j c closer.
          let other : (j == idx) ≡ false = ground arith in
          rw other (p.way idx y w.in_range full j c closer);
      absent = λ i e b s k. elim (Bool-cases (i == idx)) [
        | inl here ↦
            let one : x ≡ e = some-injective _ _ (rw here at s) in
            w.absent idx y w.in_range full (sym k ∙ ap (λ z. z.key) (sym one))
        | inr other ↦
            let at =
              IsPlaced-unique hasher same m i idx e y p b w.in_range (rw other at s) full k in
            ground arith
      ];
    }

  -- No entry from the index up to the free one has the key.
  abbrev pub Ahead : RobinHoodHashMap K V → K → (idx e0 : ℕ) → Type 0
  Ahead m k idx e0 =
      (i : ℕ) (e : Entry K V)
      → i < m.capacity
      → dist m.capacity i e0 ≤ dist m.capacity idx e0
      → m.table i ≡ some e
      → e.key ≢ k

  -- `m'` is `m` with the entry `x` in addition.
  pub record Gains (m : RobinHoodHashMap K V) (x : Entry K V) (m' : RobinHoodHashMap K V)
      : Type 0 where
    pub placed : IsPlaced hasher same m'
    pub same_capacity : m'.capacity ≡ m.capacity
    pub bigger : m'.size ≡ m.size + 1
    pub one_more : occupied m'.table m.capacity ≡ occupied m.table m.capacity + 1
    pub to : (q : K) (u : V) → Has hasher same m' q u → Has hasher same m q u ⊎ Is x q u
    pub old : (q : K) (u : V) → Has hasher same m q u → Has hasher same m' q u
    pub own : (q : K) (u : V) → Is x q u → Has hasher same m' q u

  Gains-free :
      (m : RobinHoodHashMap K V) (x : Entry K V) (idx : ℕ)
      → IsPlaced hasher same m
      → InHand hasher same m x idx
      → m.table idx ≡ none
      → Gains m x (record (put hasher same m idx x) { size = m.size + 1 })
  Gains-free m x idx p w free =
      let pl =
        put-IsPlaced hasher same m x idx p w
          (λ y full. (let bad : none ≡ some y = sym free ∙ full in cc)) in
      record {
        placed = record { near = pl.near; way = pl.way; home_lt = pl.home_lt };
        same_capacity = refl;
        bigger = refl;
        one_more = ground (arith, occupied-set_entry_new m.table idx m.capacity x free, w.in_range);
        to = λ q u h. put-Has-to m x idx q u h;
        old = λ q u h. elim (put-Has-old m x idx q u h) [
          | inl kept ↦ kept
          | inr (y, full, is) ↦ (let bad : none ≡ some y = sym free ∙ full in cc)
        ];
        own = λ q u is. put-Has-new m x idx q u w.in_range is;
      }

  -- First `x` drives out `y`, and then `y` finds its place.
  Gains-swapped :
      (m m' : RobinHoodHashMap K V) (x y : Entry K V) (d idx : ℕ)
      → InHand hasher same m x idx
      → m.table idx ≡ some y
      → Gains (put hasher same m idx x) (record y { probe_distance = d }) m'
      → Gains m x m'
  Gains-swapped m m' x y d idx w full g = record {
    placed = g.placed;
    same_capacity = g.same_capacity;
    bigger = g.bigger;
    one_more = g.one_more ∙ ap (λ n. n + 1) (occupied-set_entry m.table idx m.capacity y x full);
    to = λ q u h. elim (g.to q u h) [
      | inl kept ↦ put-Has-to m x idx q u kept
      | inr is ↦ inl (idx, y, w.in_range, full, is.0, is.1)
    ];
    old = λ q u h. elim (put-Has-old m x idx q u h) [
      | inl kept ↦ g.old q u kept
      | inr (z, there, is) ↦
          let one : y ≡ z = some-injective _ _ (sym full ∙ there) in
          g.own q u (ap (λ c. c.key) one ∙ is.0, ap (λ c. c.value) one ∙ is.1)
    ];
    own = λ q u is. g.old q u (put-Has-new m x idx q u w.in_range is);
  }

  Ahead-next :
      (m : RobinHoodHashMap K V) (k : K) (idx e0 : ℕ)
      → idx < m.capacity
      → e0 < m.capacity
      → idx ≢ e0
      → Ahead m k idx e0
      → Ahead m k (next_index m.capacity idx) e0
  Ahead-next m k idx e0 l b0 apart ahead i e b le s =
      ahead i e b (omega (arith, dist-towards m.capacity e0 idx b0 l apart)) s

  Ahead-put :
      (m : RobinHoodHashMap K V) (k : K) (x : Entry K V) (idx e0 : ℕ)
      → idx < m.capacity
      → e0 < m.capacity
      → idx ≢ e0
      → Ahead m k idx e0
      → Ahead (put hasher same m idx x) k (next_index m.capacity idx) e0
  Ahead-put m k x idx e0 l b0 apart ahead i e b le s = elim (Bool-cases (i == idx)) [
    | inl here ↦
        let at : i ≡ idx = ground arith in
        absurd (omega (arith, dist-towards m.capacity e0 idx b0 l apart, rw at at le))
    | inr other ↦
        ahead i e b (omega (arith, dist-towards m.capacity e0 idx b0 l apart)) (rw other at s)
  ]

  -- The loop ends at the free entry at the latest, and the entry in hand is gained.
  pub place-Gains :
      (f : ℕ) (m : RobinHoodHashMap K V) (x : Entry K V) (idx e0 : ℕ) (k : K) (v : V)
      → IsPlaced hasher same m
      → InHand hasher same m x idx
      → e0 < m.capacity
      → m.table e0 ≡ none
      → dist m.capacity idx e0 < f
      → Ahead m k idx e0
      → (m' : RobinHoodHashMap K V) × (place hasher same f k v x idx x.probe_distance m ≡ some m')
        × Gains m x m'
  unfolding place
  place-Gains zero m x idx e0 k v p w b0 free enough ahead = absurd (omega arith)
  place-Gains (suc f) m x idx e0 k v p w b0 free enough ahead = elim (Option-cases (m.table idx)) [
    | inl stop ↦ (_, rw (stop, place) refl, Gains-free m x idx p w stop)
    | inr (y, full) ↦
        let apart = apart_free m idx e0 y full b0 free in
        let step = dist-towards m.capacity e0 idx b0 w.in_range apart in
        let ne : y.key ≢ k = ahead idx y w.in_range (omega arith) full in
        let differ : y.key ≢ x.key = w.absent idx y w.in_range full in
        elim (Bool-cases (ltb y.probe_distance x.probe_distance)) [
          | inr on ↦
              let x' = record x { probe_distance = x.probe_distance + 1 } in
              let (m', run, g) =
                place-Gains f m x' (next_index m.capacity idx) e0 k v p
                  (advance m idx e0 y full b0 free x (x.probe_distance + 1) p w differ
                    (ground arith) (omega arith))
                  b0 free (omega (arith, step)) (Ahead-next m k idx e0 w.in_range b0 apart ahead) in
              (
                m',
                rw (full, place) (if_neg (same y.key k) ne _ _ ∙ rw on run),
                record {
                  placed = g.placed;
                  same_capacity = g.same_capacity;
                  bigger = g.bigger;
                  one_more = g.one_more;
                  to = g.to;
                  old = g.old;
                  own = g.own;
                },
              )
          | inl rich ↦
              let m₁ = put hasher same m idx x in
              let y' = record y { probe_distance = x.probe_distance + 1 } in
              let less : y.probe_distance ≤ x.probe_distance = ground arith in
              let p₁ : IsPlaced hasher same m₁ =
                put-IsPlaced hasher same m x idx p w
                  (λ z there. rw (some-injective _ _ (sym there ∙ full)) less) in
              let own : (idx == idx) ≡ true = ground arith in
              let not_free : (e0 == idx) ≡ false = ground arith in
              let there : m₁.table idx ≡ some x = rw own refl in
              let free₁ : m₁.table e0 ≡ none = rw not_free free in
              let w₁ = displaced m idx e0 y full b0 free x (x.probe_distance + 1) p w less in
              let (m', run, g) =
                place-Gains f m₁ y' (next_index m.capacity idx) e0 k v p₁
                  (advance m₁ idx e0 x there b0 free₁ y (x.probe_distance + 1) p₁ w₁
                    (λ r. differ (sym r)) less (omega arith))
                  b0 free₁ (omega (arith, step))
                  (Ahead-put m k x idx e0 w.in_range b0 apart ahead) in
              (
                m',
                rw (full, place) (if_neg (same y.key k) ne _ _ ∙ rw rich run),
                Gains-swapped m m' x y (x.probe_distance + 1) idx w full g,
              )
        ]
  ]
