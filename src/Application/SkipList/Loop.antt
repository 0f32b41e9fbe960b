-- ===== src/Application/SkipList/Loop.antt =====
-- About all levels of a skip list (application/src/skiplist.h) when a node is put in.
use ccbase.Base.{
  ℕ, zero, suc, ◌≤◌, ◌<◌, ◌≡◌, refl, subst, true, false, Option, some, List, ◌∷◌, ◌++◌, ◌==◌, has,
  Distinct, Bool-cases, inl, inr, arith,
}
use ccbase.Application.SkipList.{SkipNode, read_forward, bind_some}
use ccbase.Application.SkipList.Change.{link_levels}
use ccbase.Application.SkipList.Towers.{
  Tower, Stands, Leads, at_level, at_level-append, last_at, first_at, places_of, Leads-first,
  Leads-behind,
}
use ccbase.Application.SkipList.Writes.{Same, Same-trans, Stands-Same, node-reads}
use ccbase.Application.SkipList.Splices.{
  places_of-append, has-at_level, Distinct-at_level, has-last_at, Leads-frame, Spliced,
  Leads-Spliced,
}
use ccbase.Application.SkipList.Links.{link_level-Spliced, link_bottom-Spliced}

module _ {K V : Type 0} where
  pub Stands-reads :
      (ns : ℕ → Option (SkipNode K V)) (t : Tower K V) (i : ℕ)
      → Stands ns t
      → i ≤ t.height
      → (q : Option ℕ) × (read_forward ns t.at i ≡ some q)
  Stands-reads ns t i (n, e, f, g, y) le = (n.forward i, node-reads ns t.at i n e (ground arith))

  -- What the loop has done up to level `r`.
  pub record Woven (ns ns' : ℕ → Option (SkipNode K V)) (h max r : ℕ) (bs cs : List (Tower K V))
      (t : Tower K V) : Type 0 where
    pub lower : (i : ℕ) → i ≤ r → Leads ns' i h (at_level i bs ++ t ∷ at_level i cs)
    pub upper : (i : ℕ) → r < i → i ≤ max → Leads ns' i h (at_level i bs ++ at_level i cs)
    pub kept : Same ns ns'

  module _ (h max : ℕ) (bs cs : List (Tower K V)) (t : Tower K V)
      (d : Distinct (h ∷ places_of (bs ++ cs)))
      (out : has t.at (h ∷ places_of (bs ++ cs)) ≡ false) where
    level_places :
        (i b : ℕ)
        → has b (places_of (bs ++ cs)) ≡ false
        → has b (places_of (at_level i bs ++ at_level i cs)) ≡ false
    level_places i b e =
        subst (λ z. has b (places_of z) ≡ false) (at_level-append i bs cs)
          (has-at_level b i (bs ++ cs) e)

    level-Distinct : (i : ℕ) → Distinct (h ∷ places_of (at_level i bs ++ at_level i cs))
    level-Distinct i = (
      level_places i h d.0,
      subst (λ z. Distinct (places_of z)) (at_level-append i bs cs)
          (Distinct-at_level i (bs ++ cs) d.1),
    )

    level_out : (i : ℕ) → has t.at (h ∷ places_of (at_level i bs ++ at_level i cs)) ≡ false
    level_out i = ground (arith, level_places i t.at)

    not_last : (i : ℕ) → (t.at == last_at h (at_level i bs)) ≡ false
    not_last i = elim (Bool-cases (t.at == last_at h (at_level i bs))) [
      | inl y ↦
          let e : last_at h (at_level i bs) ≡ t.at = ground arith in
          let f =
            subst (λ z. has z (h ∷ places_of (at_level i bs)) ≡ true) e
              (has-last_at h (at_level i bs)) in
          absurd
            (ground (arith, level_out i, places_of-append t.at (at_level i bs) (at_level i cs)))
      | inr y ↦ y
    ]

    Spliced-Woven :
        (ns ns' : ℕ → Option (SkipNode K V)) (i : ℕ)
        → Leads ns i h (at_level i bs ++ at_level i cs)
        → Spliced ns ns' (last_at h (at_level i bs)) t.at i (first_at (at_level i cs))
        → Leads ns' i h (at_level i bs ++ t ∷ at_level i cs)
    Spliced-Woven ns ns' i l s =
        Leads-Spliced ns ns' i h (at_level i bs) (at_level i cs) t s l (level-Distinct i)
          (level_out i)

    -- The other levels are as they were.
    Spliced-other :
        (ns ns' : ℕ → Option (SkipNode K V)) (i j x : ℕ) (p : Option ℕ) (ts : List (Tower K V))
        → Spliced ns ns' x t.at i p
        → (j == i) ≡ false
        → Leads ns j h ts
        → Leads ns' j h ts
    Spliced-other ns ns' i j x p ts s e l =
        Leads-frame ns ns' j h ts (λ b y. s.others b j (rw e refl)) l

    reads_first :
        (ns : ℕ → Option (SkipNode K V)) (i : ℕ)
        → Leads ns i h (at_level i bs ++ at_level i cs)
        → read_forward ns (last_at h (at_level i bs)) i ≡ some (first_at (at_level i cs))
    reads_first ns i l =
        Leads-first ns i (last_at h (at_level i bs)) (at_level i cs)
          (Leads-behind ns i h (at_level i bs) (at_level i cs) l)

    pub link_levels-Woven :
        (ns : ℕ → Option (SkipNode K V)) (u : ℕ → Option ℕ) (r : ℕ)
        → r ≤ max
        → r ≤ t.height
        → ((i : ℕ) → i ≤ r → u i ≡ some (last_at h (at_level i bs)))
        → Stands ns t
        → ((i : ℕ) → i ≤ max → Leads ns i h (at_level i bs ++ at_level i cs))
        → (ns' : ℕ → Option (SkipNode K V)) × (link_levels ns t.at u r ≡ some ns')
          × Woven ns ns' h max r bs cs t
    unfolding link_levels
    link_levels-Woven ns u zero le lt last st l =
        let (q, rn) = Stands-reads ns t 0 st (omega arith) in
        let l₀ = l 0 (omega arith) in
        let (ns', e, s, k) =
          link_bottom-Spliced ns _ t.at u _ q (last 0 (omega arith)) (reads_first ns 0 l₀) rn
            (not_last 0) in
        (
          ns',
          e,
          record {
            lower = λ i b.
                let i_zero : 0 ≡ i = omega arith in
                subst (λ i. Leads ns' i h (at_level i bs ++ t ∷ at_level i cs)) i_zero
                  (Spliced-Woven ns ns' 0 l₀ s);
            upper = λ i b b'. Spliced-other ns ns' 0 i _ _ _ s (ground arith) (l i b');
            kept = k;
          },
        )
    link_levels-Woven ns u (suc r) le lt last st l =
        let (ns₁, e₁, w) =
          link_levels-Woven ns u r (omega arith) (omega arith) (λ i b. last i (omega arith)) st l in
        let (q, rn) = Stands-reads ns₁ t (suc r) (Stands-Same ns ns₁ w.kept t st) lt in
        let l₁ = w.upper (suc r) (omega arith) le in
        let (ns₂, e₂, s, k) =
          link_level-Spliced ns₁ _ t.at (suc r) u _ q (last (suc r) (omega arith))
            (reads_first ns₁ (suc r) l₁) rn (not_last (suc r)) in
        (
          ns₂,
          bind_some _ e₁ e₂,
          record {
            lower = λ i b. elim (Bool-cases (i == suc r)) [
              | inl y ↦
                  let i_top : suc r ≡ i = ground arith in
                  subst (λ i. Leads ns₂ i h (at_level i bs ++ t ∷ at_level i cs)) i_top
                    (Spliced-Woven ns₁ ns₂ (suc r) l₁ s)
              | inr y ↦ Spliced-other ns₁ ns₂ (suc r) i _ _ _ s y (w.lower i (ground arith))
            ];
            upper = λ i b b'.
                Spliced-other ns₁ ns₂ (suc r) i _ _ _ s (ground arith) (w.upper i (omega arith) b');
            kept = Same-trans ns ns₁ ns₂ w.kept k;
          },
        )
