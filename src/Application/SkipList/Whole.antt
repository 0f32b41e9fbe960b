-- ===== src/Application/SkipList/Whole.antt =====
-- About dump_file, clear and the destructor of application/src/skiplist.h, which go through all
-- nodes. What dump_file writes is a list of keys and values.
use ccbase.Base.{
  ℕ, zero, suc, ◌≤◌, ◌≡◌, refl, subst, ◌∙◌, Option, none, some, List, [], ◌∷◌, ◌==◌, if◌then◌else◌,
  All, has, Distinct, length, Bool-cases, inl, inr, arith,
}
use ccbase.Application.SkipList.{
  ◌>>=◌, KeyOps, SkipNode, SkipList, at_index, read_forward, bind_some,
}
use ccbase.Application.SkipList.Towers.{
  Tower, Stands, Leads, Leads-first, first_at, at_level-zero, places_of,
}
use ccbase.Application.SkipList.Search.{IsSkipList}
use ccbase.Application.SkipList.Entries.{entries}

module _ {K V : Type 0} where
  -- The loop of dump_file, on fuel.
  unfoldable pub dump_from : ℕ → (ℕ → Option (SkipNode K V)) → Option ℕ → Option (List (K × V))
  dump_from fuel ns none = some []
  dump_from zero ns (some a) = none
  dump_from (suc fuel) ns (some a) = ns a >>= λ n.
      read_forward ns a 0 >>= λ p. dump_from fuel ns p >>= λ rest. some ((n.key, n.value) ∷ rest)

  unfoldable pub dump_file : ℕ → SkipList K V → Option (List (K × V))
  dump_file fuel m = read_forward m.tower m.header 0 >>= λ p. dump_from fuel m.tower p

  -- `delete a`
  abbrev pub delete_node : (ℕ → Option (SkipNode K V)) → ℕ → Option (ℕ → Option (SkipNode K V))
  delete_node ns a = ns a >>= λ n. some (at_index ns a none)

  -- clear, on fuel for its depth, with the test that stands before its calls.
  unfoldable pub clear_from :
      ℕ → (ℕ → Option (SkipNode K V)) → Option ℕ → Option (ℕ → Option (SkipNode K V))
  clear_from fuel ns none = some ns
  clear_from zero ns (some a) = none
  clear_from (suc fuel) ns (some a) =
      read_forward ns a 0 >>= λ p. clear_from fuel ns p >>= λ ns'. delete_node ns' a

  -- SkipList::~SkipList
  unfoldable pub destruct : ℕ → SkipList K V → Option (ℕ → Option (SkipNode K V))
  destruct fuel m = read_forward m.tower m.header 0 >>= λ p.
      clear_from fuel m.tower p >>= λ ns. delete_node ns m.header

  dump_from-Leads :
      (fuel : ℕ) (ns : ℕ → Option (SkipNode K V)) (h : ℕ) (ts : List (Tower K V))
      → length ts ≤ fuel
      → Leads ns 0 h ts
      → All (Stands ns) ts
      → dump_from fuel ns (first_at ts) ≡ some (entries ts)
  unfolding dump_from
  dump_from-Leads fuel ns h [] le e a = refl
  dump_from-Leads zero ns h (t ∷ ts) le l a = absurd (omega arith)
  dump_from-Leads (suc fuel) ns h (t ∷ ts) le (e, l) ((n, f, g, g', g''), a) =
      let rest = dump_from-Leads fuel ns t.at ts (omega arith) l a in
      bind_some _ f (bind_some _ (Leads-first ns 0 t.at ts l) (bind_some _ rest (rw (g, g') refl)))

  gone_also :
      (x : ℕ) (l : List ℕ) (ns ns' : ℕ → Option (SkipNode K V))
      → ((a : ℕ) → ns' a ≡ (if has a l then none else ns a))
      → (a : ℕ) → at_index ns' x none a ≡ (if has a (x ∷ l) then none else ns a)
  gone_also x l ns ns' k a = elim (Bool-cases (a == x)) [ inl y ↦ rw y refl | inr y ↦ rw y (k a) ]

  clear_from-frees :
      (fuel : ℕ) (ns : ℕ → Option (SkipNode K V)) (h : ℕ) (ts : List (Tower K V))
      → length ts ≤ fuel
      → Leads ns 0 h ts
      → All (Stands ns) ts
      → Distinct (places_of ts)
      → (ns' : ℕ → Option (SkipNode K V)) × (clear_from fuel ns (first_at ts) ≡ some ns')
        × ((a : ℕ) → ns' a ≡ (if has a (places_of ts) then none else ns a))
  unfolding clear_from
  clear_from-frees fuel ns h [] le e a d = (ns, refl, λ x. refl)
  clear_from-frees zero ns h (t ∷ ts) le l a d = absurd (omega arith)
  clear_from-frees (suc fuel) ns h (t ∷ ts) le (e, l) ((n, f, g, g', g''), a) (out, d) =
      let (ns₁, e₁, k) = clear_from-frees fuel ns t.at ts (omega arith) l a d in
      let alive : ns₁ t.at ≡ some n = k t.at ∙ rw out f in
      (
        at_index ns₁ t.at none,
        bind_some _ (Leads-first ns 0 t.at ts l) (bind_some _ e₁ (bind_some _ alive refl)),
        gone_also t.at (places_of ts) ns ns₁ k,
      )

module _ {K V : Type 0} {o : KeyOps K} {m : SkipList K V} {ts : List (Tower K V)}
    (s : IsSkipList o m ts) where
  bottom : Leads m.tower 0 m.header ts
  bottom = subst (Leads m.tower 0 m.header) (at_level-zero ts) (s.leads 0 (omega arith))

  -- dump_file writes the keys and values of a well-formed list by rising keys, with as many rounds as
  -- there are nodes.
  pub dump_file-entries : (fuel : ℕ) → length ts ≤ fuel → dump_file fuel m ≡ some (entries ts)
  unfolding dump_file
  dump_file-entries fuel le =
      bind_some _ (Leads-first m.tower 0 m.header ts bottom)
        (dump_from-Leads fuel m.tower m.header ts le bottom s.stand)

  -- The destructor deletes the header and every node of a well-formed list once, and nothing else,
  -- with calls of clear as deep as there are nodes.
  pub destruct-frees :
      (fuel : ℕ)
      → length ts ≤ fuel
      → (ns : ℕ → Option (SkipNode K V)) × (destruct fuel m ≡ some ns)
        × ((a : ℕ) → ns a ≡ (if has a (m.header ∷ places_of ts) then none else m.tower a))
  unfolding destruct
  destruct-frees fuel le =
      let (ns, e, k) = clear_from-frees fuel m.tower m.header ts le bottom s.stand s.distinct.1 in
      let (n, f, g) = s.top in
      let alive : ns m.header ≡ some n = k m.header ∙ rw s.distinct.0 f in
      (
        at_index ns m.header none,
        bind_some _ (Leads-first m.tower 0 m.header ts bottom)
            (bind_some _ e (bind_some _ alive refl)),
        gone_also m.header (places_of ts) m.tower ns k,
      )
