-- ===== src/Memory/BufSet.antt =====
-- `std::set<MemBuf *, MemBufComparator>`: buffers ordered by size, then by address.
pub mod Order
pub mod Members
use ccbase.Base.{
  ℕ, Bool, true, false, not, ◌&&◌, ◌||◌, Option, none, some, List, [], ◌∷◌, ◌==◌, ltb,
  if◌then◌else◌,
}
use ccbase.Memory.Types.{idle}
use ccbase.Memory.Heap.{Ptr, MemBuf, mem_buf, Heap, null}

-- MemBufComparator
abbrev pub less : MemBuf → MemBuf → Bool
less l r = if not (l.size == r.size) then ltb l.size r.size else ltb l.addr r.addr

-- `search_key_` once its size is set: its address is null.
abbrev pub search_key : ℕ → MemBuf
search_key size = mem_buf size null 0 null idle

-- `set.emplace(p)`: nothing happens where an equivalent element stands.
unfoldable pub emplace : Heap → Ptr → List Ptr → List Ptr
emplace h p [] = p ∷ []
emplace h p (x ∷ xs) =
    let rest = emplace h p xs in
    if less (h.buf x) (h.buf p)
    then x ∷ rest
    else if less (h.buf p) (h.buf x)
    then p ∷ x ∷ xs
    else x ∷ xs

-- `set.erase(p)`: the element that is equivalent to `p` goes.
unfoldable pub erase : Heap → Ptr → List Ptr → List Ptr
erase h p [] = []
erase h p (x ∷ xs) =
    let rest = erase h p xs in
    if less (h.buf x) (h.buf p) then x ∷ rest else if less (h.buf p) (h.buf x) then x ∷ xs else xs

-- `set.erase(it)`, for the iterator that stands at `p`.
unfoldable pub erase_at : Ptr → List Ptr → List Ptr
erase_at p [] = []
erase_at p (x ∷ xs) = if x == p then xs else x ∷ erase_at p xs

-- `*set.lower_bound(search_key_)`, or none at the end of the set.
unfoldable pub lower_bound : Heap → (size : ℕ) → List Ptr → Option Ptr
lower_bound h n [] = none
lower_bound h n (x ∷ xs) =
    let rest = lower_bound h n xs in if less (h.buf x) (search_key n) then rest else some x
