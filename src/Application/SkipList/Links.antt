-- ===== src/Application/SkipList/Links.antt =====
-- About the loop of insert_element that links the new node (application/src/skiplist.h).
use ccbase.Base.{ℕ, ◌≡◌, refl, ◌∙◌, false, Option, none, some, ◌==◌, arith}
use ccbase.Application.SkipList.{SkipNode, read_forward, bind_some}
use ccbase.Application.SkipList.Change.{link_level, link_bottom, set_prev_of}
use ccbase.Application.SkipList.Writes.{Same, Same-trans, reads-node, write-Wrote, Kept, prev-Kept}
use ccbase.Application.SkipList.Splices.{Spliced}

module _ {K V : Type 0} where
  pub Same-refl : (ns : ℕ → Option (SkipNode K V)) → Same ns ns
  Same-refl ns a n e = (n, e, refl, refl, refl)

  pub link_level-Spliced :
      (ns : ℕ → Option (SkipNode K V)) (x n i : ℕ) (u : ℕ → Option ℕ) (p q : Option ℕ)
      → u i ≡ some x
      → read_forward ns x i ≡ some p
      → read_forward ns n i ≡ some q
      → (n == x) ≡ false
      → (ns' : ℕ → Option (SkipNode K V)) × (link_level ns n u i ≡ some ns')
        × Spliced ns ns' x n i p
        × Same ns ns'
  unfolding link_level
  link_level-Spliced ns x n i u p q ux rx rn d =
      let (ns₁, w₁) = write-Wrote ns n i p q rn in
      let rx' : read_forward ns₁ x i ≡ some p = w₁.others x i (ground arith) ∙ rx in
      let (ns₂, w₂) = write-Wrote ns₁ x i (some n) p rx' in
      (
        ns₂,
        bind_some _ ux (bind_some _ rx (bind_some _ w₁.done w₂.done)),
        record {
          behind = w₂.here;
          through = w₂.others n i (ground arith) ∙ w₁.here;
          others = λ b j e. w₂.others b j (ground arith) ∙ w₁.others b j (ground arith);
        },
        Same-trans ns ns₁ ns₂ w₁.kept w₂.kept,
      )

  set_prev_of-Kept :
      (ns : ℕ → Option (SkipNode K V)) (n x : ℕ) (p : Option ℕ) (y : SkipNode K V)
      → ns x ≡ some y
      → (ns' : ℕ → Option (SkipNode K V)) × (set_prev_of ns n x p ≡ some ns') × Kept ns ns'
  set_prev_of-Kept ns n x none y e = (ns, refl, record { reads = λ b j. refl; kept = Same-refl ns })
  set_prev_of-Kept ns n x (some b) y e = prev-Kept ns x (some n) y e

  pub link_bottom-Spliced :
      (ns : ℕ → Option (SkipNode K V)) (x n : ℕ) (u : ℕ → Option ℕ) (p q : Option ℕ)
      → u 0 ≡ some x
      → read_forward ns x 0 ≡ some p
      → read_forward ns n 0 ≡ some q
      → (n == x) ≡ false
      → (ns' : ℕ → Option (SkipNode K V)) × (link_bottom ns n u ≡ some ns')
        × Spliced ns ns' x n 0 p
        × Same ns ns'
  unfolding link_bottom
  link_bottom-Spliced ns x n u p q ux rx rn d =
      let (ns₁, w₁) = write-Wrote ns n 0 p q rn in
      let rx₁ : read_forward ns₁ x 0 ≡ some p = w₁.others x 0 (ground arith) ∙ rx in
      let (y, ey, z, f) = reads-node ns₁ x 0 p rx₁ in
      let (ns₂, e₂, k₂) = set_prev_of-Kept ns₁ n x p y ey in
      let (ns₃, w₃) = write-Wrote ns₂ x 0 (some n) p (k₂.reads x 0 ∙ rx₁) in
      let rn₃ : read_forward ns₃ n 0 ≡ some p =
        w₃.others n 0 (ground arith) ∙ k₂.reads n 0 ∙ w₁.here in
      let (m, em, z', f') = reads-node ns₃ n 0 p rn₃ in
      let (ns₄, e₄, k₄) = prev-Kept ns₃ n (some x) m em in
      (
        ns₄,
        bind_some _ ux
            (bind_some _ rx (bind_some _ w₁.done (bind_some _ e₂ (bind_some _ w₃.done e₄)))),
        record {
          behind = k₄.reads x 0 ∙ w₃.here;
          through = k₄.reads n 0 ∙ rn₃;
          others = λ b j e.
              k₄.reads b j
              ∙ w₃.others b j (ground arith)
              ∙ k₂.reads b j
              ∙ w₁.others b j (ground arith);
        },
        Same-trans ns ns₁ ns₄ w₁.kept
            (Same-trans ns₁ ns₂ ns₄ k₂.kept (Same-trans ns₂ ns₃ ns₄ w₃.kept k₄.kept)),
      )
