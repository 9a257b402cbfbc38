-- ===== src/Allocator/Heap/Take.antt =====
-- What `AllocBlock` (src/allocator.cc) does to the words of a heap when it takes a whole block or
-- splits one.
use nvds.Base.{
  ℕ, ◌+◌, ◌^◌, ◌<◌, ◌≡◌, ◌⊎◌, inl, inr, arith, refl, false, ◌==◌, if◌then◌else◌, update,
}
use nvds.Command.{read32, write32}
use nvds.Allocator.{prev_field, next_field, reset_the_free_tag, take_head}
use nvds.Allocator.Words.{Words, IsListOffset, IsBlockOffset}
use nvds.Allocator.Words.Runs.{
  Open, Runs, Runs-bind, Runs-then, Runs-pure, read-next, write-head, write-prev,
}
use nvds.Allocator.Tiling.{taken_words}
use nvds.Allocator.Heap.Steps.{Runs-reset_tag}

-- The head `a` of the list at `i` is taken off, as the code does it: where it was the last one, the
-- word at 4 is cleared too.
abbrev pub popped : (i a : ℕ) → Words → Words
popped i a w = record w {
  head = update w.head i (w.next a);
  prev = if w.next a == 0 then w.prev else update w.prev (w.next a) 0;
}

abbrev pub popped_whole : (i a : ℕ) → Words → Words
popped_whole i a w = record w {
  head =
      if w.next a == 0 then update (update w.head i (w.next a)) 4 0 else update w.head i (w.next a);
  prev = if w.next a == 0 then w.prev else update w.prev (w.next a) 0;
}

module _ (Kept : ℕ → Type 0) where
  -- What taking the head `a` of the list at `i`, a block of `n` bytes, relies on
  pub record Takeable (w : Words) (i a n : ℕ) : Type 0 where
    pub block : IsBlockOffset a
    pub after : IsBlockOffset (a + n)
    pub open_after : Open Kept (a + n)
    pub list : IsListOffset i
    pub open_lists : (j : ℕ) → IsListOffset j → Open Kept j
    pub next : (w.next a ≡ 0) ⊎ (IsBlockOffset (w.next a) × Open Kept (w.next a + 4))

  pub next-fits : (w : Words) (i a n : ℕ) → Takeable w i a n → w.next a < 2 ^ 32
  next-fits w i a n t = elim t.next [ inl e ↦ omega arith | inr k ↦ omega (arith, k.0) ]

  Runs-clear_prev :
      (w : Words) (i a n : ℕ)
      → Takeable w i a n
      → let u : Words = record w { head = update w.head i (w.next a) } in
        Runs Kept (write32 (prev_field (w.next a)) 0) u tt (popped_whole i a w)
  Runs-clear_prev w i a n t =
      let u : Words = record w { head = update w.head i (w.next a) } in
      elim t.next [
        | inl e ↦
            let four : IsListOffset 4 = (omega arith, omega arith, refl) in
            rw e (
              write-head Kept 4 0 (record w { head = update w.head i 0 }) four (omega arith)
                (t.open_lists 4 four))
        | inr k ↦
            let block : (w.next a == 0) ≡ false = ground (arith, k.0) in
            rw block (write-prev Kept (w.next a) 0 u k.0 (omega arith) k.1)
      ]

  pub Runs-take_head :
      (w : Words) (i a n : ℕ)
      → Takeable w i a n
      → Runs Kept (take_head i a n) w a (popped_whole i a (taken_words (a + n) w))
  unfolding take_head
  Runs-take_head w i a n t =
      let v = taken_words (a + n) w in
      let tv : Takeable v i a n = record {
        block = t.block;
        after = t.after;
        open_after = t.open_after;
        list = t.list;
        open_lists = t.open_lists;
        next = t.next;
      } in
      Runs-bind Kept (read32 (next_field a)) _ w w _ _ _ (read-next Kept a w t.block) (
        Runs-then Kept (reset_the_free_tag a n) _ w v _ _
          (Runs-reset_tag Kept a n w t.after t.open_after)
          (Runs-then Kept (write32 i (w.next a)) _ v _ _ _
            (write-head Kept i (w.next a) v t.list (next-fits w i a n t) (t.open_lists i t.list))
            (Runs-then Kept (write32 (prev_field (w.next a)) 0) _ _ _ _ _
              (Runs-clear_prev v i a n tv) (Runs-pure Kept a _))))
