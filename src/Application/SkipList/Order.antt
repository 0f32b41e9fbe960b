-- ===== src/Application/SkipList/Order.antt =====
-- About the order of the keys in a skip list (application/src/skiplist.h).
use ccbase.Base.{
  ℕ, ◌≡◌, refl, ap, subst, true, false, Option, none, some, List, [], ◌∷◌, ◌++◌, if◌then◌else◌, All,
  length, Bool-cases, inl, inr, arith, ◌≤◌,
}
use ccbase.Application.SkipList.{KeyOps}
use ccbase.Application.SkipList.Towers.{Tower}

-- What the list relies on of its keys.
pub record KeyOrder {K : Type 0} (o : KeyOps K) : Type 0 where
  pub irrefl : (a : K) → o.less a a ≡ false
  pub trans : (a b c : K) → o.less a b ≡ true → o.less b c ≡ true → o.less a c ≡ true
  pub total : (a b : K) → o.less a b ≡ false → o.same a b ≡ false → o.less b a ≡ true
  pub same-eq : (a b : K) → o.same a b ≡ true → a ≡ b
  pub same-refl : (a : K) → o.same a a ≡ true

module _ {K V : Type 0} (o : KeyOps K) where
  abbrev pub Sorted : List (Tower K V) → Type 0
  Sorted [] = Unit {0}
  Sorted (t ∷ ts) = All (λ u. o.less t.key u.key ≡ true) ts × Sorted ts

  abbrev pub smaller : K → List (Tower K V) → List (Tower K V)
  smaller k [] = []
  smaller k (t ∷ ts) = let rest = smaller k ts in if o.less t.key k then t ∷ rest else []

  abbrev pub others : K → List (Tower K V) → List (Tower K V)
  others k [] = []
  others k (t ∷ ts) = let rest = others k ts in if o.less t.key k then rest else t ∷ ts

  -- The first node with the key.
  abbrev pub lookup : K → List (Tower K V) → Option ℕ
  lookup k [] = none
  lookup k (t ∷ ts) = let rest = lookup k ts in if o.same t.key k then some t.at else rest

  pub smaller-others : (k : K) (ts : List (Tower K V)) → smaller k ts ++ others k ts ≡ ts
  smaller-others k [] = refl
  smaller-others k (t ∷ ts) = elim (Bool-cases (o.less t.key k)) [
    | inl e ↦ rw e (ap (λ l. t ∷ l) (smaller-others k ts))
    | inr e ↦ rw e refl
  ]

  pub length-smaller : (k : K) (ts : List (Tower K V)) → length (smaller k ts) ≤ length ts
  length-smaller k [] = omega arith
  length-smaller k (t ∷ ts) = ground (arith, length-smaller k ts)

  pub smaller-All :
      (k : K) (ts : List (Tower K V)) → All (λ t. o.less t.key k ≡ true) (smaller k ts)
  smaller-All k [] = tt
  smaller-All k (t ∷ ts) = elim (Bool-cases (o.less t.key k)) [
    | inl e ↦ rw e (e, smaller-All k ts)
    | inr e ↦ rw e tt
  ]

  pub Sorted-others : (k : K) (ts : List (Tower K V)) → Sorted ts → Sorted (others k ts)
  Sorted-others k [] s = tt
  Sorted-others k (t ∷ ts) (p, s) = elim (Bool-cases (o.less t.key k)) [
    | inl e ↦ rw e (Sorted-others k ts s)
    | inr e ↦ rw e (p, s)
  ]

pub less-same :
    {K : Type 0} (o : KeyOps K) (w : KeyOrder o) (a k : K) → o.less a k ≡ true → o.same a k ≡ false
less-same o w a k e = elim (Bool-cases (o.same a k)) [
  | inl f ↦
      let g = subst (λ z. o.less z k ≡ true) (w.same-eq a k f) e in
      let i = w.irrefl k in absurd (ground arith)
  | inr f ↦ f
]

module _ {K V : Type 0} (o : KeyOps K) (w : KeyOrder o) where
  -- Behind a key that is not below `k` there is none.
  above-All :
      (k : K) (t : Tower K V) (ts : List (Tower K V))
      → o.less t.key k ≡ false
      → All (λ u. o.less t.key u.key ≡ true) ts
      → All (λ u. o.less u.key k ≡ false) ts
  above-All k t [] e a = tt
  above-All k t (u ∷ us) e (p, a) = (
    elim (Bool-cases (o.less u.key k)) [
      | inl f ↦ let g = w.trans t.key u.key k p f in absurd (ground arith)
      | inr f ↦ f
    ],
    above-All k t us e a,
  )

  pub others-All :
      (k : K) (ts : List (Tower K V))
      → Sorted o ts
      → All (λ t. o.less t.key k ≡ false) (others o k ts)
  others-All k [] s = tt
  others-All k (t ∷ ts) (a, s) = elim (Bool-cases (o.less t.key k)) [
    | inl e ↦ rw e (others-All k ts s)
    | inr e ↦ rw e (e, above-All k t ts e a)
  ]

  pub lookup-others : (k : K) (ts : List (Tower K V)) → lookup o k ts ≡ lookup o k (others o k ts)
  lookup-others k [] = refl
  lookup-others k (t ∷ ts) = elim (Bool-cases (o.less t.key k)) [
    | inl e ↦ rw (e, less-same o w t.key k e) (lookup-others k ts)
    | inr e ↦ rw e refl
  ]

  -- Where the first key is above `k`, no key is `k`.
  pub lookup_above :
      (k : K) (ts : List (Tower K V)) → All (λ u. o.less k u.key ≡ true) ts → lookup o k ts ≡ none
  lookup_above k [] a = refl
  lookup_above k (u ∷ us) (p, a) = elim (Bool-cases (o.same u.key k)) [
    | inl f ↦
        let g = subst (λ z. o.less k z ≡ true) (w.same-eq u.key k f) p in
        let i = w.irrefl k in absurd (ground arith)
    | inr f ↦ rw f (lookup_above k us a)
  ]

  pub All-above :
      (k : K) (t : Tower K V) (ts : List (Tower K V))
      → o.less k t.key ≡ true
      → All (λ u. o.less t.key u.key ≡ true) ts
      → All (λ u. o.less k u.key ≡ true) ts
  All-above k t [] e a = tt
  All-above k t (u ∷ us) e (p, a) = (w.trans k t.key u.key e p, All-above k t us e a)
