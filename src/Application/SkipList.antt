-- ===== src/Application/SkipList.antt =====
-- SkipList of application/src/skiplist.h. A `Node *` is an address, NULL is `none`. A call gives
-- `none` where the code reads or writes through NULL or a deleted node, or leaves the array
-- `forward` of a node.
pub mod Change
pub mod Towers
pub mod Walks
pub mod Order
pub mod Search
pub mod Writes
pub mod Splices
pub mod Links
pub mod Loop
pub mod Entries
pub mod Insert
pub mod Puts
pub mod Unlink
pub mod Removal
pub mod Delete
pub mod Drops
pub mod Whole
mod Tests
use ccbase.Base.{ℕ, zero, suc, ◌≡◌, Bool, Option, none, some, ◌==◌, leb, if◌then◌else◌}

infixl 5 ◌>>=◌
abbrev pub ◌>>=◌ {ℓ κ} : {A : Type ℓ} {B : Type κ} → Option A → (A → Option B) → Option B
none >>= f = none
some a >>= f = f a

-- A call goes on with the result of its first step.
pub bind_some {ℓ κ} :
    {A : Type ℓ} {B : Type κ} {o : Option A} {a : A} (f : A → Option B) {r : Option B}
    → o ≡ some a
    → f a ≡ r
    → (o >>= f) ≡ r
bind_some f e g = rw e g

-- `operator<` and `operator==` of the keys.
pub record KeyOps (K : Type 0) : Type 0 where
  pub less : K → K → Bool
  pub same : K → K → Bool

-- `Node`; `forward` is read up to `node_level`.
pub record SkipNode (K V : Type 0) : Type 0 where
  pub key : K
  pub value : V
  pub node_level : ℕ
  pub forward : ℕ → Option ℕ
  pub prev : Option ℕ

pub record SkipList (K V : Type 0) : Type 0 where
  pub max_level : ℕ
  pub skip_list_level : ℕ
  pub header : ℕ
  pub tower : ℕ → Option (SkipNode K V)
  pub element_count : ℕ

abbrev pub at_index {ℓ} : {A : Type ℓ} → (ℕ → A) → ℕ → A → ℕ → A
at_index f i a = λ j. if j == i then a else f j

module _ {K V : Type 0} where
  -- Node::Node
  abbrev pub new_node : K → V → ℕ → SkipNode K V
  new_node k v level = record {
    key = k;
    value = v;
    node_level = level;
    forward = λ i. none;
    prev = none;
  }

  -- SkipList::SkipList, with what `new` gave for the header, whose key and value are not set.
  abbrev pub new_list : ℕ → ℕ → K → V → SkipList K V
  new_list max_level header k v = record {
    max_level = max_level;
    skip_list_level = 0;
    header = header;
    tower = at_index (λ a. none) header (some (new_node k v max_level));
    element_count = 0;
  }

  abbrev pub forward_of : ℕ → SkipNode K V → Option (Option ℕ)
  forward_of i n = if leb i n.node_level then some (n.forward i) else none

  -- `a->forward[i]`
  unfoldable pub read_forward : (ℕ → Option (SkipNode K V)) → ℕ → ℕ → Option (Option ℕ)
  read_forward ns a i = ns a >>= forward_of i

  abbrev with_forward :
      (ℕ → Option (SkipNode K V))
      → ℕ
      → ℕ
      → Option ℕ
      → SkipNode K V
      → Option (ℕ → Option (SkipNode K V))
  with_forward ns a i p n =
      if leb i n.node_level
      then some (at_index ns a (some (record n { forward = at_index n.forward i p })))
      else none

  -- `a->forward[i] = p`
  unfoldable pub write_forward :
      (ℕ → Option (SkipNode K V)) → ℕ → ℕ → Option ℕ → Option (ℕ → Option (SkipNode K V))
  write_forward ns a i p = ns a >>= with_forward ns a i p

  -- `a->prev = p`
  unfoldable pub write_prev :
      (ℕ → Option (SkipNode K V)) → ℕ → Option ℕ → Option (ℕ → Option (SkipNode K V))
  write_prev ns a p = ns a >>= λ n. some (at_index ns a (some (record n { prev = p })))

  module _ (o : KeyOps K) where
    -- The inner loop of the search: how far level `i` leads to keys below `k`.
    unfoldable pub walk : ℕ → (ℕ → Option (SkipNode K V)) → ℕ → K → ℕ → Option ℕ
    walk zero ns i k current = none
    walk (suc fuel) ns i k current = read_forward ns current i >>= λ p. elim p [
      | none ↦ some current
      | some b ↦ ns b >>= λ n.
          let rest = walk fuel ns i k b in if o.less n.key k then rest else some current
    ]

    -- The outer loop of insert_element and delete_element, from level `i` down, with `update`.
    unfoldable pub descend :
        ℕ → (ℕ → Option (SkipNode K V)) → ℕ → K → ℕ → (ℕ → Option ℕ) → Option (ℕ × (ℕ → Option ℕ))
    descend fuel ns zero k current update =
        walk fuel ns 0 k current >>= λ c. some (c, at_index update 0 (some c))
    descend fuel ns (suc i) k current update = walk fuel ns (suc i) k current >>= λ c.
        descend fuel ns i k c (at_index update (suc i) (some c))

    -- The outer loop of search_element.
    unfoldable pub search_down : ℕ → (ℕ → Option (SkipNode K V)) → ℕ → K → ℕ → Option ℕ
    search_down fuel ns zero k current = walk fuel ns 0 k current
    search_down fuel ns (suc i) k current =
        walk fuel ns (suc i) k current >>= λ c. search_down fuel ns i k c

    -- `current != NULL && current->get_key() == key`
    unfoldable pub hits : (ℕ → Option (SkipNode K V)) → K → Option ℕ → Option (Option ℕ)
    hits ns k none = some none
    hits ns k (some b) = ns b >>= λ n. some (if o.same n.key k then some b else none)

    -- `fuel` bounds the rounds of each inner loop.
    unfoldable pub search_element : ℕ → SkipList K V → K → Option (Option ℕ)
    search_element fuel m k = search_down fuel m.tower m.skip_list_level k m.header >>= λ c.
        read_forward m.tower c 0 >>= λ p. hits m.tower k p
