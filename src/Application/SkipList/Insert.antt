-- ===== src/Application/SkipList/Insert.antt =====
-- About insert_element of application/src/skiplist.h.
use ccbase.Base.{
  ==_refl, ℕ, ◌+◌, ◌≤◌, ◌<◌, ◌≡◌, refl, sym, ap, subst, ◌∙◌, true, false, Option, none, some, List,
  [], ◌∷◌, ◌++◌, ◌==◌, leb, ltb, if◌then◌else◌, has, All, Distinct, length, length-append,
  Bool-cases, inl, inr, arith,
}
use ccbase.Application.SkipList.{
  KeyOps, SkipNode, SkipList, at_index, new_node, read_forward, bind_some,
}
use ccbase.Application.SkipList.Change.{random_level, raise_update, insert_new}
use ccbase.Application.SkipList.Towers.{
  Tower, Stands, Leads, at_level, at_level-append, last_at, places_of, All-append,
}
use ccbase.Application.SkipList.Order.{KeyOrder, smaller, others, lookup, smaller-others}
use ccbase.Application.SkipList.Search.{IsSkipList}
use ccbase.Application.SkipList.Writes.{Same, Stands-All, Stands-Same, Same-trans}
use ccbase.Application.SkipList.Splices.{Leads-frame, absent, has-at_level, Distinct-insert}
use ccbase.Application.SkipList.Loop.{Woven, link_levels-Woven}
use ccbase.Application.SkipList.Entries.{All-join, Sorted-insert}

pub random_level-le : (max : ℕ) (rands : List ℕ) → random_level max rands ≤ max
random_level-le max rands = ground arith

module _ {K V : Type 0} where
  pub at_level_high :
      (l i : ℕ) (ts : List (Tower K V)) → All (λ t. t.height ≤ l) ts → l < i → at_level i ts ≡ []
  at_level_high l i [] a lt = refl
  at_level_high l i (t ∷ ts) (p, a) lt = ground (arith, at_level_high l i ts a lt)

  -- Memory that was not allocated is not in the list.
  unplaced :
      (ns : ℕ → Option (SkipNode K V)) (n : ℕ) (ts : List (Tower K V))
      → ns n ≡ none
      → All (Stands ns) ts
      → has n (places_of ts) ≡ false
  unplaced ns n [] e a = refl
  unplaced ns n (t ∷ ts) e ((c, f, g, g', g''), a) = elim (Bool-cases (n == t.at)) [
    | inl y ↦
        let z : n ≡ t.at = ground arith in
        let k = subst (λ x. ns x ≡ none) z e in absurd (ground arith)
    | inr y ↦ ground (arith, unplaced ns n ts e a)
  ]

module _ {K V : Type 0} {o : KeyOps K} (w : KeyOrder o) {m : SkipList K V} {ts : List (Tower K V)}
    (s : IsSkipList o m ts) (t : Tower K V) (free : m.tower t.at ≡ none)
    (missing : lookup o t.key ts ≡ none) (le : t.height ≤ m.max_level) where
  abbrev bs : List (Tower K V)
  bs = smaller o t.key ts

  abbrev cs : List (Tower K V)
  cs = others o t.key ts

  abbrev grown : ℕ → Option (SkipNode K V)
  grown = at_index m.tower t.at (some (new_node t.key t.value t.height))

  whole : bs ++ cs ≡ ts
  whole = smaller-others o t.key ts

  out : has t.at (m.header ∷ places_of ts) ≡ false
  out = elim (Bool-cases (t.at == m.header)) [
    | inl y ↦
        let z : t.at ≡ m.header = ground arith in
        let k = subst (λ x. m.tower x ≡ none) z free in
        let (n, e, f) = s.top in absurd (ground arith)
    | inr y ↦ ground (arith, unplaced m.tower t.at ts free s.stand)
  ]

  grown-Same : Same m.tower grown
  grown-Same a n e = elim (Bool-cases (a == t.at)) [
    | inl y ↦
        let z : t.at ≡ a = ground arith in
        let k = subst (λ x. m.tower x ≡ none) z free in absurd (ground arith)
    | inr y ↦ (n, rw y e, refl, refl, refl)
  ]

  level_out : (i : ℕ) → has t.at (m.header ∷ places_of (at_level i ts)) ≡ false
  level_out i = ground (arith, out, has-at_level t.at i ts)

  grown-Leads : (i : ℕ) → i ≤ m.max_level → Leads grown i m.header (at_level i bs ++ at_level i cs)
  unfolding read_forward
  grown-Leads i b =
      let e = ap (at_level i) (sym whole) ∙ at_level-append i bs cs in
      subst (Leads grown i m.header) e (
        Leads-frame m.tower grown i m.header (at_level i ts)
          (λ x y.
            let z = absent x t.at (m.header ∷ places_of (at_level i ts)) y (level_out i) in
            rw z refl)
          (s.leads i b))

  bs-low : All (λ x. x.height ≤ m.skip_list_level) bs
  bs-low =
      (All-append _ bs cs (subst (All (λ x. x.height ≤ m.skip_list_level)) (sym whole) s.low)).0

  cs-low : All (λ x. x.height ≤ m.skip_list_level) cs
  cs-low =
      (All-append _ bs cs (subst (All (λ x. x.height ≤ m.skip_list_level)) (sym whole) s.low)).1

  raised :
      (u : ℕ → Option ℕ)
      → ((i : ℕ) → i ≤ m.skip_list_level → u i ≡ some (last_at m.header (at_level i bs)))
      → (i : ℕ) → i ≤ t.height
      → raise_update m t.height u i ≡ some (last_at m.header (at_level i bs))
  raised u f i b = elim (Bool-cases (ltb m.skip_list_level i)) [
    | inl y ↦
        let z = at_level_high m.skip_list_level i bs bs-low (ground arith) in
        let y' : leb i t.height ≡ true = ground arith in rw (y, y', z) refl
    | inr y ↦ rw y (f i (ground arith))
  ]

  abbrev raised_level : ℕ
  raised_level = if ltb m.skip_list_level t.height then t.height else m.skip_list_level

  new_low :
      (ts' : List (Tower K V))
      → All (λ x. x.height ≤ m.skip_list_level) ts'
      → All (λ x. x.height ≤ raised_level) ts'
  new_low [] a = tt
  new_low (x ∷ xs) (p, a) = (ground arith, new_low xs a)

  new_leads :
      (ns' : ℕ → Option (SkipNode K V))
      → Woven grown ns' m.header m.max_level t.height bs cs t
      → (i : ℕ) → i ≤ m.max_level
      → Leads ns' i m.header (at_level i (bs ++ t ∷ cs))
  new_leads ns' v i b =
      subst (Leads ns' i m.header) (sym (at_level-append i bs (t ∷ cs)))
        (elim (Bool-cases (leb i t.height)) [
          | inl y ↦ rw y (v.lower i (ground arith))
          | inr y ↦ rw y (v.upper i (ground arith) b)
        ])

  new-Distinct : Distinct (m.header ∷ places_of (bs ++ t ∷ cs))
  new-Distinct =
      Distinct-insert m.header bs cs t
        (subst (λ z. Distinct (m.header ∷ places_of z)) (sym whole) s.distinct)
        (subst (λ z. has t.at (m.header ∷ places_of z) ≡ false) (sym whole) out)

  abbrev inserted : (ℕ → Option (SkipNode K V)) → SkipList K V
  inserted ns' = record m {
    skip_list_level = raised_level;
    tower = ns';
    element_count = m.element_count + 1;
  }

  pub insert_new-inserts :
      (u : ℕ → Option ℕ)
      → ((i : ℕ) → i ≤ m.skip_list_level → u i ≡ some (last_at m.header (at_level i bs)))
      → (m' : SkipList K V) × (insert_new m t.key t.value t.at t.height u ≡ some m')
        × IsSkipList o m' (bs ++ t ∷ cs)
  unfolding insert_new
  insert_new-inserts u f =
      let st : Stands grown t =
        (new_node t.key t.value t.height, rw (==_refl t.at) refl, refl, refl, refl) in
      let d = subst (λ z. Distinct (m.header ∷ places_of z)) (sym whole) s.distinct in
      let d' = subst (λ z. has t.at (m.header ∷ places_of z) ≡ false) (sym whole) out in
      let (ns', e, v) =
        link_levels-Woven m.header m.max_level bs cs t d d' grown (raise_update m t.height u)
          t.height le (omega arith) (raised u f) st grown-Leads in
      let kept : Same m.tower ns' = Same-trans m.tower grown ns' grown-Same v.kept in
      let all =
        All-append (Stands ns') bs cs
          (subst (All (Stands ns')) (sym whole) (Stands-All m.tower ns' kept ts s.stand)) in
      let (n, ne, nl) = s.top in
      let (n', ne', nk, nv, nl') = kept m.header n ne in
      (
        inserted ns',
        bind_some _ e refl,
        record {
          levels = ground arith;
          top = (n', ne', nl' ∙ nl);
          leads = new_leads ns' v;
          stand =
              All-join o (Stands ns') bs (t ∷ cs) all.0 (Stands-Same grown ns' v.kept t st, all.1);
          low = All-join o _ bs (t ∷ cs) (new_low bs bs-low) (ground arith, new_low cs cs-low);
          distinct = new-Distinct;
          sorted = Sorted-insert o w t ts s.sorted missing;
          counted =
              omega
                (arith, s.counted, ap length whole, length-append bs cs, length-append bs (t ∷ cs));
        },
      )
