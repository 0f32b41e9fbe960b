-- ===== src/Application/SkipList/Delete.antt =====
-- About delete_element of application/src/skiplist.h.
use ccbase.Base.{
  ℕ, suc, ◌-◌, ◌≤◌, ◌≡◌, refl, sym, subst, ◌∙◌, false, Option, none, some, List, [], ◌∷◌, ◌++◌,
  ◌==◌, has, All, length-append, arith,
}
use ccbase.Application.SkipList.{KeyOps, SkipNode, SkipList, at_index, read_forward, bind_some}
use ccbase.Application.SkipList.Change.{delete_found, unlink, lower_level, mend_prev}
use ccbase.Application.SkipList.Towers.{
  Tower, Stands, Leads, at_level, at_level-append, last_at, first_at, places_of, All-append,
  Leads-behind, Leads-first, at_level-zero,
}
use ccbase.Application.SkipList.Order.{KeyOrder}
use ccbase.Application.SkipList.Search.{IsSkipList}
use ccbase.Application.SkipList.Writes.{Same, Stands-All, Same-trans, Kept, prev-Kept}
use ccbase.Application.SkipList.Splices.{
  Leads-frame, absent, has-at_level, neither, nor, places_of-append,
}
use ccbase.Application.SkipList.Entries.{All-join}
use ccbase.Application.SkipList.Unlink.{unlink-Unlinked}
use ccbase.Application.SkipList.Removal.{lower_level-low, Distinct-without, Sorted-without}

module _ {K V : Type 0} (t : Tower K V) (ns : ℕ → Option (SkipNode K V)) where
  -- What stays of the memory and the links when the removed node is deleted.
  gone-Stands :
      (ts : List (Tower K V))
      → has t.at (places_of ts) ≡ false
      → All (Stands ns) ts
      → All (Stands (at_index ns t.at none)) ts
  gone-Stands [] e a = tt
  gone-Stands (x ∷ xs) e ((n, f, g, g', g''), a) =
      let (y, z) = neither (t.at == x.at) (has t.at (places_of xs)) e in
      let y' : (x.at == t.at) ≡ false = ground arith in
      ((n, rw y' f, g, g', g''), gone-Stands xs z a)

  gone-Leads :
      (h i : ℕ) (ts : List (Tower K V))
      → has t.at (h ∷ places_of ts) ≡ false
      → Leads ns i h (at_level i ts)
      → Leads (at_index ns t.at none) i h (at_level i ts)
  unfolding read_forward
  gone-Leads h i ts e l =
      let (p, q) = neither (t.at == h) (has t.at (places_of ts)) e in
      Leads-frame ns (at_index ns t.at none) i h (at_level i ts)
        (λ x y.
          let z =
            absent x t.at (h ∷ places_of (at_level i ts)) y
              (nor (t.at == h) _ p (has-at_level t.at i ts q)) in
          rw z refl)
        l

module _ {K V : Type 0} {o : KeyOps K} {m : SkipList K V} (bs cs : List (Tower K V)) (t : Tower K V)
    (s : IsSkipList o m (bs ++ t ∷ cs)) where
  -- After the two loops every level leads past the node, and its own links are as they were.
  record Loops (u : ℕ → Option ℕ) (ns : ℕ → Option (SkipNode K V)) (l : ℕ) : Type 0 where
    unlinks : unlink (suc m.skip_list_level) m.tower t.at u 0 ≡ some ns
    lowers : lower_level ns m.header m.skip_list_level ≡ some l
    le : l ≤ m.skip_list_level
    low : All (λ x. x.height ≤ l) (bs ++ cs)
    leads : (i : ℕ) → i ≤ m.max_level → Leads ns i m.header (at_level i (bs ++ cs))
    kept : Same m.tower ns
    own : (j : ℕ) → read_forward ns t.at j ≡ read_forward m.tower t.at j

  delete-Loops :
      (u : ℕ → Option ℕ)
      → ((i : ℕ) → i ≤ m.skip_list_level → u i ≡ some (last_at m.header (at_level i bs)))
      → (ns : ℕ → Option (SkipNode K V)) × (l : ℕ) × Loops u ns l
  delete-Loops u f =
      let (a, (low_t, b)) = All-append (λ x. x.height ≤ m.skip_list_level) bs (t ∷ cs) s.low in
      let (ns₁, e₁, (leads₁, same₁, own)) =
        unlink-Unlinked m.header m.max_level m.skip_list_level bs cs t s.distinct low_t u
          (suc m.skip_list_level) 0 m.tower (omega arith) s.levels f (λ j lt. absurd (omega arith))
          (λ j b b'.
            subst (Leads m.tower j m.header) (at_level-append j bs (t ∷ cs)) (s.leads j b')) in
      let whole₁ : (i : ℕ) → i ≤ m.max_level → Leads ns₁ i m.header (at_level i (bs ++ cs)) =
        λ i b. subst (Leads ns₁ i m.header) (sym (at_level-append i bs cs)) (leads₁ i b) in
      let (l', e₂, le, low') =
        lower_level-low ns₁ m.header m.max_level m.skip_list_level (bs ++ cs) s.levels whole₁
          (All-join o _ bs cs a b) in
      (
        ns₁,
        l',
        record {
          unlinks = e₁;
          lowers = e₂;
          le = le;
          low = low';
          leads = whole₁;
          kept = same₁;
          own = own;
        },
      )

  next_read : read_forward m.tower t.at 0 ≡ some (first_at cs)
  next_read =
      let l =
        subst (Leads m.tower 0 m.header) (at_level-zero (bs ++ t ∷ cs)) (s.leads 0 (omega arith)) in
      Leads-first m.tower 0 t.at cs (Leads-behind m.tower 0 m.header bs (t ∷ cs) l).1

module _ {K V : Type 0} {o : KeyOps K} {m : SkipList K V} (bs : List (Tower K V)) (t : Tower K V)
    (s : IsSkipList o m (bs ++ t ∷ [])) where
  -- The last node has no next one whose `prev` could be set.
  pub delete_found-crashes :
      (u : ℕ → Option ℕ)
      → ((i : ℕ) → i ≤ m.skip_list_level → u i ≡ some (last_at m.header (at_level i bs)))
      → delete_found m u (some t.at) ≡ none
  unfolding mend_prev
  delete_found-crashes u f =
      let (ns, l, p) = delete-Loops bs [] t s u f in
      bind_some _ p.unlinks
        (bind_some _ p.lowers (bind_some _ (p.own 0 ∙ next_read bs [] t s) refl))

module _ {K V : Type 0} {o : KeyOps K} (w : KeyOrder o) {m : SkipList K V}
    (bs cs : List (Tower K V)) (t c : Tower K V) (s : IsSkipList o m (bs ++ t ∷ c ∷ cs)) where
  abbrev left : List (Tower K V)
  left = bs ++ c ∷ cs

  not_header : (c.at == m.header) ≡ false
  not_header =
      let e = s.distinct.0 in
      let (f, g) =
        neither (has m.header (places_of bs)) _
          (sym (places_of-append m.header bs (t ∷ c ∷ cs)) ∙ e) in
      let (i, j) = neither (m.header == t.at) _ g in
      let (k, l) = neither (m.header == c.at) _ j in ground arith

  mended :
      (ns : ℕ → Option (SkipNode K V))
      → Same m.tower ns
      → (ns' : ℕ → Option (SkipNode K V)) × (mend_prev ns m.header t.at (some c.at) ≡ some ns')
        × Kept ns ns'
  unfolding mend_prev
  mended ns k =
      let (a, (st_t, (st_c, b))) = All-append (Stands m.tower) bs (t ∷ c ∷ cs) s.stand in
      let (n', e', p₁, p₂, p₃) = k t.at st_t.0 st_t.1 in
      let (y', z'', q₁, q₂, q₃) = k c.at st_c.0 st_c.1 in
      let (ns', g, v) = prev-Kept ns c.at n'.prev y' z'' in (ns', rw (not_header, e') g, v)

  pub delete_found-drops :
      (u : ℕ → Option ℕ)
      → ((i : ℕ) → i ≤ m.skip_list_level → u i ≡ some (last_at m.header (at_level i bs)))
      → (m' : SkipList K V) × (delete_found m u (some t.at) ≡ some m') × IsSkipList o m' left
  delete_found-drops u f =
      let (ns₁, l', p) = delete-Loops bs (c ∷ cs) t s u f in
      let (ns₂, e₃, k) = mended ns₁ p.kept in
      let same₂ : Same m.tower ns₂ = Same-trans m.tower ns₁ ns₂ p.kept k.kept in
      let (d, out) = Distinct-without m.header bs (c ∷ cs) t s.distinct in
      let (st, (st_t, st')) =
        All-append (Stands ns₂) bs (t ∷ c ∷ cs) (Stands-All m.tower ns₂ same₂ _ s.stand) in
      let (out_h, out_l) = neither (t.at == m.header) (has t.at (places_of left)) out in
      let (n, ne, nl) = s.top in
      let (n', ne', nk, nv, nl') = same₂ m.header n ne in
      let not_t : (m.header == t.at) ≡ false = ground arith in
      (
        record m {
          skip_list_level = l';
          tower = at_index ns₂ t.at none;
          element_count = m.element_count - 1;
        },
        bind_some _ p.unlinks (
            bind_some _ p.lowers
              (bind_some _ (p.own 0 ∙ next_read bs (c ∷ cs) t s) (bind_some _ e₃ refl))),
        record {
          levels = omega (arith, s.levels, p.le);
          top = (n', rw not_t ne', nl' ∙ nl);
          leads = λ i b.
              gone-Leads t ns₂ m.header i left out (
                Leads-frame ns₁ ns₂ i m.header (at_level i left) (λ x y. k.reads x i)
                  (p.leads i b));
          stand = gone-Stands t ns₂ left out_l (All-join o (Stands ns₂) bs (c ∷ cs) st st');
          low = p.low;
          distinct = d;
          sorted = Sorted-without o w bs (c ∷ cs) t s.sorted;
          counted =
              omega (arith, s.counted, length-append bs (c ∷ cs), length-append bs (t ∷ c ∷ cs));
        },
      )
