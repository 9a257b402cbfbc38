-- ===== src/Allocator/Heap/Steps.antt =====
-- What the parts of `AllocBlock` and `FreeBlock` (src/allocator.cc) do to the words of a heap.
use nvds.Base.{
  ℕ, ◌+◌, ◌-◌, ◌*◌, ◌/◌, ◌^◌, ◌≤◌, ◌<◌, ◌≡◌, ◌⊎◌, inl, inr, arith, refl, true, false, not, leb,
  ◌==◌, if◌then◌else◌, Bool-cases, add32, update,
}
use nvds.Command.{pure, assert, ◌>>=◌, read32, write32}
use nvds.Allocator.{
  prev_field, next_field, free_mask, max_block_size, last_free_list, mask, set_mask, clear_mask,
  set_the_free_tag, reset_the_free_tag, read_the_free_tag, read_the_prev_free_tag,
  read_the_size_tag, free_list_by_block_size, lead_past, lead_back, remove_block,
}
use nvds.Allocator.Words.{Words, IsListOffset, IsBlockOffset}
use nvds.Allocator.Words.Runs.{
  Open, Runs, Runs-bind, Runs-then, Runs-pure, Runs-assert, read-prev, read-next, read-header,
  write-head, write-prev, write-next, write-header,
}
use nvds.Allocator.Lists.{removed}
use nvds.Allocator.Tiling.{given_words, taken_words}
use nvds.Allocator.Heap.{list_of}

module _ (Kept : ℕ → Type 0) where
  pub Runs-set_tag :
      (a n : ℕ) (w : Words)
      → IsBlockOffset (a + n)
      → Open Kept (a + n)
      → Runs Kept (set_the_free_tag a n) w tt (given_words (a + n) w)
  unfolding set_the_free_tag
  Runs-set_tag a n w h o =
      let at_next : add32 a n ≡ a + n = omega arith in
      rw at_next (
        Runs-bind Kept (read32 (a + n)) (λ v. write32 (a + n) (set_mask v)) w w _ _ _
          (read-header Kept (a + n) w h) (write-header Kept (a + n) _ w h (omega arith) o))

  pub Runs-reset_tag :
      (a n : ℕ) (w : Words)
      → IsBlockOffset (a + n)
      → Open Kept (a + n)
      → Runs Kept (reset_the_free_tag a n) w tt (taken_words (a + n) w)
  unfolding reset_the_free_tag
  Runs-reset_tag a n w h o =
      let at_next : add32 a n ≡ a + n = omega arith in
      rw at_next (
        Runs-bind Kept (read32 (a + n)) (λ v. write32 (a + n) (clear_mask v)) w w _ _ _
          (read-header Kept (a + n) w h) (write-header Kept (a + n) _ w h (omega arith) o))

  pub Runs-free_tag :
      (a n : ℕ) (w : Words)
      → IsBlockOffset (a + n)
      → Runs Kept (read_the_free_tag a n) w (mask (w.header (a + n))) w
  unfolding read_the_free_tag
  Runs-free_tag a n w h =
      let at_next : add32 a n ≡ a + n = omega arith in
      rw at_next (
        Runs-bind Kept (read32 (a + n)) (λ v. pure (mask v)) w w w _ _
          (read-header Kept (a + n) w h) (Runs-pure Kept (mask (w.header (a + n))) w))

  pub Runs-prev_tag :
      (a : ℕ) (w : Words)
      → IsBlockOffset a
      → Runs Kept (read_the_prev_free_tag a) w (mask (w.header a)) w
  unfolding read_the_prev_free_tag
  Runs-prev_tag a w h =
      Runs-bind Kept (read32 a) (λ v. pure (mask v)) w w w _ _ (read-header Kept a w h)
        (Runs-pure Kept (mask (w.header a)) w)

  pub Runs-size_tag :
      (a : ℕ) (w : Words)
      → IsBlockOffset a
      → Runs Kept (read_the_size_tag a) w (clear_mask (w.header a)) w
  unfolding read_the_size_tag
  Runs-size_tag a w h =
      Runs-bind Kept (read32 a) (λ v. pure (clear_mask v)) w w w _ _ (read-header Kept a w h)
        (Runs-pure Kept (clear_mask (w.header a)) w)

  pub Runs-free_list :
      (n : ℕ) (w : Words) → 16 ≤ n → Runs Kept (free_list_by_block_size n) w (list_of n) w
  unfolding free_list_by_block_size
  Runs-free_list n w h =
      let big : leb 16 n ≡ true = ground arith in
      Runs-then Kept (assert (leb 16 n))
        (if leb n max_block_size then pure ((n / 16 - 1) * 4) else pure last_free_list) w w w _
        (Runs-assert Kept _ w big)
        (elim (Bool-cases (leb n max_block_size)) [
          | inl e ↦ rw e (Runs-pure Kept ((n / 16 - 1) * 4) w)
          | inr e ↦ rw e (Runs-pure Kept last_free_list w)
        ])

  -- What `RemoveBlock` relies on: the block `a` of size `n` is tagged as free, and its neighbours in
  -- its list are null or blocks.
  pub record Removable (w : Words) (a n : ℕ) : Type 0 where
    pub block : IsBlockOffset a
    pub big : 16 ≤ n
    pub after : IsBlockOffset (a + n)
    pub free : mask (w.header (a + n)) ≡ free_mask
    pub list : IsListOffset (list_of n)
    pub open_list : Open Kept (list_of n)
    pub prev : (w.prev a ≡ 0) ⊎ (IsBlockOffset (w.prev a) × Open Kept (w.prev a + 8))
    pub next : (w.next a ≡ 0) ⊎ (IsBlockOffset (w.next a) × Open Kept (w.next a + 4))

  abbrev unlinked : (i a : ℕ) → Words → Words
  unlinked i a w = record w {
    head = if w.prev a == 0 then update w.head i (w.next a) else w.head;
    next = if w.prev a == 0 then w.next else update w.next (w.prev a) (w.next a);
  }

  next-fits : (w : Words) (a n : ℕ) → Removable w a n → w.next a < 2 ^ 32
  next-fits w a n r = elim r.next [ inl e ↦ omega arith | inr k ↦ omega (arith, k.0) ]

  prev-fits : (w : Words) (a n : ℕ) → Removable w a n → w.prev a < 2 ^ 32
  prev-fits w a n r = elim r.prev [ inl e ↦ omega arith | inr k ↦ omega (arith, k.0) ]

  Runs-unlink_head :
      (a n : ℕ) (w : Words)
      → Removable w a n
      → Runs Kept
          (free_list_by_block_size n >>= (λ l. read32 (next_field a) >>= (λ v. write32 l v)))
          w
          tt
          (record w { head = update w.head (list_of n) (w.next a) })
  Runs-unlink_head a n w r =
      Runs-bind Kept (free_list_by_block_size n) (λ l. read32 (next_field a) >>= (λ v. write32 l v))
        w w _ _ _ (Runs-free_list n w r.big)
        (Runs-bind Kept (read32 (next_field a)) (λ v. write32 (list_of n) v) w w _ _ _
          (read-next Kept a w r.block)
          (write-head Kept (list_of n) (w.next a) w r.list (next-fits w a n r) r.open_list))

  Runs-unlink_next :
      (a n p : ℕ) (w : Words)
      → Removable w a n
      → IsBlockOffset p
      → Open Kept (p + 8)
      → Runs Kept
          (read32 (next_field a) >>= (λ v. write32 (next_field p) v))
          w
          tt
          (record w { next = update w.next p (w.next a) })
  Runs-unlink_next a n p w r h o =
      Runs-bind Kept (read32 (next_field a)) (λ v. write32 (next_field p) v) w w _ _ _
        (read-next Kept a w r.block) (write-next Kept p (w.next a) w h (next-fits w a n r) o)

  Runs-lead_past :
      (a n : ℕ) (w : Words)
      → Removable w a n
      → Runs Kept (lead_past a n (w.prev a)) w tt (unlinked (list_of n) a w)
  Runs-lead_past a n w r = elim r.prev [
    | inl e ↦ let null : (w.prev a == 0) ≡ true = ground arith in rw null (Runs-unlink_head a n w r)
    | inr k ↦
        let block : (w.prev a == 0) ≡ false = ground (arith, k.0) in
        rw block (Runs-unlink_next a n (w.prev a) w r k.0 k.1)
  ]

  Runs-lead_back :
      (a n : ℕ) (w : Words)
      → Removable w a n
      → Runs Kept (lead_back a (w.next a)) (unlinked (list_of n) a w) tt (removed (list_of n) a w)
  Runs-lead_back a n w r = elim r.next [
    | inl e ↦ let null : (w.next a == 0) ≡ true = ground arith in rw null (Runs-pure Kept tt _)
    | inr k ↦
        let block : (w.next a == 0) ≡ false = ground (arith, k.0) in
        let u = unlinked (list_of n) a w in
        rw block (
          Runs-bind Kept (read32 (prev_field a)) (λ v. write32 (prev_field (w.next a)) v) u u _ _ _
            (read-prev Kept a u r.block)
            (write-prev Kept (w.next a) (w.prev a) u k.0 (prev-fits w a n r) k.1))
  ]

  pub Runs-remove_block :
      (a n : ℕ) (w : Words)
      → Removable w a n
      → Runs Kept (remove_block a n) w tt (removed (list_of n) a w)
  unfolding remove_block
  Runs-remove_block a n w r =
      let tagged : not (mask (w.header (a + n)) == 0) ≡ true = rw r.free refl in
      Runs-bind Kept (read_the_free_tag a n) _ w w _ _ _ (Runs-free_tag a n w r.after) (
        Runs-then Kept (assert (not (mask (w.header (a + n)) == 0))) _ w w _ _
          (Runs-assert Kept _ w tagged)
          (Runs-bind Kept (read32 (prev_field a)) _ w w _ _ _ (read-prev Kept a w r.block) (
            Runs-bind Kept (read32 (next_field a)) _ w w _ _ _ (read-next Kept a w r.block) (
              Runs-then Kept (lead_past a n (w.prev a)) _ w _ _ _ (Runs-lead_past a n w r)
                (Runs-lead_back a n w r)))))
