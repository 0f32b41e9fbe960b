-- ===== src/Application/SkipList/Entries.antt =====
-- About a skip list (application/src/skiplist.h) as a sorted list of keys and values.
use ccbase.Base.{
  ℕ, ◌≡◌, refl, sym, ap, subst, true, false, Option, none, some, List, [], ◌∷◌, ◌++◌, if◌then◌else◌,
  All, Bool-cases, inl, inr, arith,
}
use ccbase.Application.SkipList.{KeyOps}
use ccbase.Application.SkipList.Towers.{Tower, All-append}
use ccbase.Application.SkipList.Order.{
  KeyOrder, Sorted, smaller, others, lookup, All-above, less-same, lookup_above, smaller-others,
}

module _ {K V : Type 0} where
  abbrev pub entries : List (Tower K V) → List (K × V)
  entries [] = []
  entries (t ∷ ts) = (t.key, t.value) ∷ entries ts

  module _ (o : KeyOps K) where
    -- A new key is put in its place, and the value of a key that is there stays.
    abbrev pub put_entry : K → V → List (K × V) → List (K × V)
    put_entry k v [] = (k, v) ∷ []
    put_entry k v ((a, b) ∷ es) =
        let rest = put_entry k v es in
        if o.less a k
        then (a, b) ∷ rest
        else if o.same a k
        then (a, b) ∷ es
        else (k, v) ∷ (a, b) ∷ es

    abbrev pub get_entry : K → List (K × V) → Option V
    get_entry k [] = none
    get_entry k ((a, b) ∷ es) = let rest = get_entry k es in if o.same a k then some b else rest

    abbrev pub drop_entry : K → List (K × V) → List (K × V)
    drop_entry k [] = []
    drop_entry k ((a, b) ∷ es) =
        let rest = drop_entry k es in if o.same a k then es else (a, b) ∷ rest

    pub All-join :
        (P : Tower K V → Type 0) (xs ys : List (Tower K V)) → All P xs → All P ys → All P (xs ++ ys)
    All-join P [] ys a b = b
    All-join P (x ∷ xs) ys (p, a) b = (p, All-join P xs ys a b)

    pub Sorted-insert :
        (w : KeyOrder o) (t : Tower K V) (ts : List (Tower K V))
        → Sorted o ts
        → lookup o t.key ts ≡ none
        → Sorted o (smaller o t.key ts ++ t ∷ others o t.key ts)
    Sorted-insert w t [] s e = (tt, tt)
    Sorted-insert w t (x ∷ xs) (p, s) e = elim (Bool-cases (o.less x.key t.key)) [
      | inl z ↦
          let y = less-same o w x.key t.key z in
          let q =
            All-append (λ u. o.less x.key u.key ≡ true) (smaller o t.key xs) (others o t.key xs)
              (subst (All (λ u. o.less x.key u.key ≡ true)) (sym (smaller-others o t.key xs)) p) in
          rw z (
            All-join _ _ (t ∷ others o t.key xs) q.0 (z, q.1),
            Sorted-insert w t xs s (ground arith),
          )
      | inr z ↦
          let y : o.same x.key t.key ≡ false = elim (Bool-cases (o.same x.key t.key)) [
            | inl f ↦ absurd (ground arith)
            | inr f ↦ f
          ] in
          let lt = w.total x.key t.key z y in rw z ((lt, All-above o w t.key x xs lt p), (p, s))
    ]

    pub entries-insert :
        (w : KeyOrder o) (t : Tower K V) (ts : List (Tower K V))
        → lookup o t.key ts ≡ none
        → entries (smaller o t.key ts ++ t ∷ others o t.key ts)
          ≡ put_entry t.key t.value (entries ts)
    entries-insert w t [] e = refl
    entries-insert w t (x ∷ xs) e = elim (Bool-cases (o.same x.key t.key)) [
      | inl y ↦ absurd (ground arith)
      | inr y ↦ elim (Bool-cases (o.less x.key t.key)) [
        | inl z ↦ rw z (ap (λ l. (x.key, x.value) ∷ l) (entries-insert w t xs (ground arith)))
        | inr z ↦ rw (z, y) refl
      ]
    ]

    -- A key that is there is not put in again.
    pub put-present :
        (w : KeyOrder o) (k : K) (v : V) (b : ℕ) (ts : List (Tower K V))
        → Sorted o ts
        → lookup o k ts ≡ some b
        → put_entry k v (entries ts) ≡ entries ts
    put-present w k v b [] s e = absurd (ground arith)
    put-present w k v b (x ∷ xs) (p, s) e = elim (Bool-cases (o.less x.key k)) [
      | inl z ↦
          let y = less-same o w x.key k z in
          rw z (ap (λ l. (x.key, x.value) ∷ l) (put-present w k v b xs s (ground arith)))
      | inr z ↦ elim (Bool-cases (o.same x.key k)) [
        | inl y ↦ rw (z, y) refl
        | inr y ↦
            let lt = w.total x.key k z y in
            let none_there = lookup_above o w k xs (All-above o w k x xs lt p) in
            absurd (ground arith)
      ]
    ]
