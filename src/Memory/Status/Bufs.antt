-- ===== src/Memory/Status/Bufs.antt =====
-- About the multimaps of buffers by size that MemStatusManager keeps.
use ccbase.Base.{
  ℕ, ◌≡◌, ◌≢◌, ◌⊎◌, refl, sym, ap, ◌∙◌, subst, inl, inr, true, false, List, [], ◌∷◌, arith,
  if◌then◌else◌, Bool-cases,
}
use ccbase.Memory.Types.{DynamicMemBufStatus, is_status, idle, used, eager_free, used_by_event}
use ccbase.Memory.Status.{
  BufPtr, BufKey, SizeMapMemBuf, Store, MemStatusManager, emplace_size, erase_size, same_key,
  modify_key, key_of, add_mem_buf, remove_mem_buf,
}

-- The multimap of a key, which is empty where there is none.
abbrev pub bufs_at : BufKey → List (BufKey × SizeMapMemBuf) → SizeMapMemBuf
bufs_at k [] = []
bufs_at k ((j, l) ∷ m) = if same_key j k then l else bufs_at k m

-- No buffer of the size in the multimap has the address.
abbrev pub NoSame : Store → (size addr : ℕ) → SizeMapMemBuf → Type 0
NoSame s n a [] = Unit {0}
NoSame s n a ((k, q) ∷ m) = ((k ≢ n) ⊎ ((s.buf q).device_addr ≢ a)) × NoSame s n a m

is_status-eq : (t v : DynamicMemBufStatus) → is_status t v ≡ true → t ≡ v
is_status-eq idle v e = ground arith
is_status-eq used v e = ground arith
is_status-eq eager_free v e = ground arith
is_status-eq used_by_event v e = ground arith

same_key-eq : (k j : BufKey) → same_key k j ≡ true → k ≡ j
same_key-eq (n, t) (i, v) e = ground (arith, is_status-eq t v)

same_key_refl : (k : BufKey) → same_key k k ≡ true
same_key_refl (n, idle) = ground arith
same_key_refl (n, used) = ground arith
same_key_refl (n, eager_free) = ground arith
same_key_refl (n, used_by_event) = ground arith

bufs_at-here :
    (f : SizeMapMemBuf → SizeMapMemBuf) (k : BufKey) (m : List (BufKey × SizeMapMemBuf))
    → bufs_at k (modify_key f k m) ≡ f (bufs_at k m)
unfolding modify_key
bufs_at-here f k [] = rw (same_key_refl k) refl
bufs_at-here f k ((i, l) ∷ m) = elim (Bool-cases (same_key i k)) [
  | inl e ↦ rw (e, e) refl
  | inr e ↦ rw (e, e) (bufs_at-here f k m)
]

bufs_at-other :
    (f : SizeMapMemBuf → SizeMapMemBuf) (k j : BufKey) (m : List (BufKey × SizeMapMemBuf))
    → same_key k j ≡ false
    → bufs_at j (modify_key f k m) ≡ bufs_at j m
unfolding modify_key
bufs_at-other f k j [] d = rw d refl
bufs_at-other f k j ((i, l) ∷ m) d = elim (Bool-cases (same_key i k)) [
  | inl e ↦
      let apart : same_key i j ≡ false =
        subst (λ x. same_key x j ≡ false) (sym (same_key-eq i k e)) d in
      rw (e, apart) refl
  | inr e ↦ ground (arith, bufs_at-other f k j m d)
]

module _ (s : Store) (p : BufPtr) where
  erase-emplace :
      (n : ℕ) (m : SizeMapMemBuf)
      → NoSame s n (s.buf p).device_addr m
      → erase_size s n (s.buf p).device_addr (emplace_size n p m) ≡ m
  unfolding erase_size emplace_size
  erase-emplace n [] f = ground arith
  erase-emplace n ((k, q) ∷ m) f = ground (arith, erase-emplace n m f.1, f.0)

  -- Adding a buffer and removing it leaves the buffers of every key as they were, where no other
  -- buffer of the size and the address was there.
  pub remove_mem_buf-add_mem_buf :
      (m : MemStatusManager) (k : BufKey)
      → NoSame s (s.buf p).size (s.buf p).device_addr (bufs_at (key_of s p) m.mem_bufs)
      → bufs_at k (remove_mem_buf s p (add_mem_buf s p m)).mem_bufs ≡ bufs_at k m.mem_bufs
  unfolding remove_mem_buf add_mem_buf
  remove_mem_buf-add_mem_buf m k fresh =
      let put = emplace_size (s.buf p).size p in
      let drop = erase_size s (s.buf p).size (s.buf p).device_addr in
      let added = modify_key put (key_of s p) m.mem_bufs in
      elim (Bool-cases (same_key (key_of s p) k)) [
        | inr other ↦
            bufs_at-other drop (key_of s p) k added other
            ∙ bufs_at-other put (key_of s p) k m.mem_bufs other
        | inl here ↦
            subst (λ x. bufs_at x (modify_key drop (key_of s p) added) ≡ bufs_at x m.mem_bufs)
              (same_key-eq (key_of s p) k here)
              (bufs_at-here drop (key_of s p) added
                ∙ ap drop (bufs_at-here put (key_of s p) m.mem_bufs)
                ∙ erase-emplace (s.buf p).size (bufs_at (key_of s p) m.mem_bufs) fresh)
      ]
