-- ===== src/Application/SkipList/Unlink.antt =====
-- About all levels of a skip list (application/src/skiplist.h) when a node is taken out.
use ccbase.Base.{
  ==_refl, ℕ, zero, suc, ◌+◌, ◌≤◌, ◌<◌, ◌≡◌, refl, ap, subst, ◌∙◌, true, false, Option, some, List,
  [], ◌∷◌, ◌++◌, ◌==◌, leb, has, Distinct, Bool-cases, inl, inr, arith,
}
use ccbase.Application.SkipList.{SkipNode, read_forward, bind_some}
use ccbase.Application.SkipList.Change.{unlink}
use ccbase.Application.SkipList.Towers.{
  Tower, Leads, at_level, at_level-append, last_at, first_at, places_of, Leads-first, Leads-behind,
}
use ccbase.Application.SkipList.Writes.{Same, Same-trans, write-Wrote}
use ccbase.Application.SkipList.Splices.{has-at_level, Distinct-at_level, Leads-frame, Leads-Cut}
use ccbase.Application.SkipList.Links.{Same-refl}

module _ {K V : Type 0} (h max top : ℕ) (bs cs : List (Tower K V)) (t : Tower K V)
    (d : Distinct (h ∷ places_of (bs ++ t ∷ cs))) (low : t.height ≤ top) (u : ℕ → Option ℕ) where
  level_of : (i : ℕ) → at_level i (bs ++ t ∷ cs) ≡ at_level i bs ++ at_level i (t ∷ cs)
  level_of i = at_level-append i bs (t ∷ cs)

  level_apart : (i : ℕ) → Distinct (h ∷ places_of (at_level i bs ++ at_level i (t ∷ cs)))
  level_apart i = (
    subst (λ z. has h (places_of z) ≡ false) (level_of i) (has-at_level h i (bs ++ t ∷ cs) d.0),
    subst (λ z. Distinct (places_of z)) (level_of i) (Distinct-at_level i (bs ++ t ∷ cs) d.1),
  )

  -- The links of the removed node at level `i` and those before it.
  reads_first :
      (ns : ℕ → Option (SkipNode K V)) (i : ℕ)
      → Leads ns i h (at_level i bs ++ at_level i (t ∷ cs))
      → read_forward ns (last_at h (at_level i bs)) i ≡ some (first_at (at_level i (t ∷ cs)))
  reads_first ns i l =
      Leads-first ns i (last_at h (at_level i bs)) (at_level i (t ∷ cs))
        (Leads-behind ns i h (at_level i bs) (at_level i (t ∷ cs)) l)

  -- The node before the removed one is another one.
  not_self :
      (xs ys : List (Tower K V)) (a : ℕ)
      → Distinct (a ∷ places_of (xs ++ t ∷ ys))
      → (t.at == last_at a xs) ≡ false
  not_self [] ys a e = ground (arith, e.0)
  not_self (x ∷ xs) ys a e = not_self xs ys x.at e.1

  apart_cs :
      (xs : List (Tower K V)) (a : ℕ)
      → Distinct (a ∷ places_of (xs ++ t ∷ cs))
      → has t.at (places_of cs) ≡ false
  apart_cs [] a e = e.1.0
  apart_cs (x ∷ xs) a e = apart_cs xs x.at e.1

  abbrev Unlinked : (ns ns' : ℕ → Option (SkipNode K V)) → Type 0
  Unlinked ns ns' =
      ((j : ℕ) → j ≤ max → Leads ns' j h (at_level j bs ++ at_level j cs))
      × Same ns ns'
      × ((j : ℕ) → read_forward ns' t.at j ≡ read_forward ns t.at j)

  -- A level above the node is without it.
  above_level : (j : ℕ) → t.height < j → at_level j (t ∷ cs) ≡ at_level j cs
  above_level j lt = ground arith

  without_node :
      (ns : ℕ → Option (SkipNode K V)) (i : ℕ)
      → t.height < i
      → ((j : ℕ) → j < i → Leads ns j h (at_level j bs ++ at_level j cs))
      → ((j : ℕ) → i ≤ j → j ≤ max → Leads ns j h (at_level j bs ++ at_level j (t ∷ cs)))
      → Unlinked ns ns
  without_node ns i lt done todo = (
    λ j b. elim (Bool-cases (leb i j)) [
      | inl y ↦
          subst (λ z. Leads ns j h (at_level j bs ++ z)) (above_level j (ground arith))
            (todo j (ground arith) b)
      | inr y ↦ done j (ground arith)
    ],
    Same-refl ns,
    λ j. refl,
  )

  -- What the round for a level that the node is in leaves.
  record Round (count i : ℕ) (ns ns' : ℕ → Option (SkipNode K V)) : Type 0 where
    goes_on :
        (r : ℕ → Option (SkipNode K V))
        → unlink count ns' t.at u (suc i) ≡ some r
        → unlink (suc count) ns t.at u i ≡ some r
    cut : Leads ns' i h (at_level i bs ++ at_level i cs)
    rest : (j : ℕ) (ts : List (Tower K V)) → (j == i) ≡ false → Leads ns j h ts → Leads ns' j h ts
    kept : Same ns ns'
    own : (j : ℕ) → read_forward ns' t.at j ≡ read_forward ns t.at j

  unlink-Round :
      (count i : ℕ) (ns : ℕ → Option (SkipNode K V))
      → leb i t.height ≡ true
      → u i ≡ some (last_at h (at_level i bs))
      → Leads ns i h (at_level i bs ++ at_level i (t ∷ cs))
      → (ns' : ℕ → Option (SkipNode K V)) × Round count i ns ns'
  unfolding unlink
  unlink-Round count i ns y e l =
      let on : at_level i (t ∷ cs) ≡ t ∷ at_level i cs = rw y refl in
      let l' = subst (λ z. Leads ns i h (at_level i bs ++ z)) on l in
      let a = subst (λ z. Distinct (h ∷ places_of (at_level i bs ++ z))) on (level_apart i) in
      let (rx, lt) = Leads-behind ns i h (at_level i bs) (t ∷ at_level i cs) l' in
      let rt = Leads-first ns i t.at (at_level i cs) lt in
      let (ns₁, w) =
        write-Wrote ns (last_at h (at_level i bs)) i (first_at (at_level i cs)) (some t.at) rx in
      (
        ns₁,
        record {
          goes_on = λ r g.
              bind_some _ e
                (bind_some _ rx (rw (==_refl t.at) (bind_some _ rt (bind_some _ w.done g))));
          cut =
              Leads-Cut ns ns₁ i h (at_level i bs) (at_level i cs) t
                (record { past = w.here; others = w.others }) l' a;
          rest = λ j ts f g. Leads-frame ns ns₁ j h ts (λ b z. w.others b j (ground arith)) g;
          kept = w.kept;
          own = λ j.
              let f = not_self (at_level i bs) (at_level i cs) h a in
              w.others t.at j (ground arith);
        },
      )

  unlink-stops :
      (count i : ℕ) (ns : ℕ → Option (SkipNode K V)) (ys : List (Tower K V)) (x : ℕ)
      → u i ≡ some x
      → read_forward ns x i ≡ some (first_at ys)
      → has t.at (places_of ys) ≡ false
      → unlink (suc count) ns t.at u i ≡ some ns
  unfolding unlink
  unlink-stops count i ns [] x e f o = bind_some _ e (bind_some _ f refl)
  unlink-stops count i ns (y ∷ ys) x e f o =
      let z : (y.at == t.at) ≡ false = ground arith in bind_some _ e (bind_some _ f (rw z refl))

  pub unlink-Unlinked :
      (count i : ℕ) (ns : ℕ → Option (SkipNode K V))
      → count + i ≡ suc top
      → top ≤ max
      → ((j : ℕ) → j ≤ top → u j ≡ some (last_at h (at_level j bs)))
      → ((j : ℕ) → j < i → Leads ns j h (at_level j bs ++ at_level j cs))
      → ((j : ℕ) → i ≤ j → j ≤ max → Leads ns j h (at_level j bs ++ at_level j (t ∷ cs)))
      → (ns' : ℕ → Option (SkipNode K V)) × (unlink count ns t.at u i ≡ some ns') × Unlinked ns ns'
  unfolding unlink
  unlink-Unlinked zero i ns n le last done todo =
      (ns, refl, without_node ns i (omega arith) done todo)
  unlink-Unlinked (suc count) i ns n le last done todo =
      let l = todo i (omega arith) (omega arith) in
      let e = last i (omega arith) in
      elim (Bool-cases (leb i t.height)) [
        | inl y ↦
            let (ns₁, r) = unlink-Round count i ns y e l in
            let (ns₂, f, (g, k, own)) =
              unlink-Unlinked count (suc i) ns₁ (omega arith) le last
                (λ j b. elim (Bool-cases (j == i)) [
                  | inl z ↦
                      let ij : i ≡ j = ground arith in
                      subst (λ j. Leads ns₁ j h (at_level j bs ++ at_level j cs)) ij r.cut
                  | inr z ↦ r.rest j _ z (done j (ground arith))
                ])
                (λ j b b'. r.rest j _ (ground arith) (todo j (omega arith) b')) in
            (ns₂, r.goes_on ns₂ f, (g, Same-trans ns ns₁ ns₂ r.kept k, λ j. own j ∙ r.own j))
        | inr y ↦ (
          ns,
          unlink-stops count i ns (at_level i cs) _ e
              (reads_first ns i l ∙ ap (λ z. some (first_at z)) (above_level i (ground arith)))
              (has-at_level t.at i cs (apart_cs bs h d)),
          without_node ns i (ground arith) done todo,
        )
      ]
