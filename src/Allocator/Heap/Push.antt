-- ===== src/Allocator/Heap/Push.antt =====
-- What `SplitBlock` and `FreeBlock` (src/allocator.cc) do to the words of a heap when they push a block
-- on a free list.
use nvds.Base.{ℕ, ◌+◌, ◌^◌, ◌≤◌, ◌<◌, ◌≡◌, ◌⊎◌, inl, inr, arith, true, false, ◌==◌, update}
use nvds.Command.{read32, write32}
use nvds.Allocator.{
  prev_field, next_field, link_back, push_free, free_list_by_block_size, set_the_free_tag,
}
use nvds.Allocator.Words.{Words, IsListOffset, IsBlockOffset}
use nvds.Allocator.Words.Runs.{
  Open, Runs, Runs-bind, Runs-then, Runs-pure, read-head, write-head, write-prev, write-next,
}
use nvds.Allocator.Lists.{pushed}
use nvds.Allocator.Tiling.{given_words}
use nvds.Allocator.Heap.{list_of}
use nvds.Allocator.Heap.Steps.{Runs-set_tag, Runs-free_list}

module _ (Kept : ℕ → Type 0) where
  -- What pushing the block `a` on the list at `i` relies on
  pub record Pushable (w : Words) (i a : ℕ) : Type 0 where
    pub block : IsBlockOffset a
    pub open_prev : Open Kept (a + 4)
    pub open_next : Open Kept (a + 8)
    pub list : IsListOffset i
    pub open_list : Open Kept i
    pub head : (w.head i ≡ 0) ⊎ (IsBlockOffset (w.head i) × Open Kept (w.head i + 4))

  pub head-fits : (w : Words) (i a : ℕ) → Pushable w i a → w.head i < 2 ^ 32
  head-fits w i a p = elim p.head [ inl e ↦ omega arith | inr k ↦ omega (arith, k.0) ]

  -- The words before the old head is led back to `a`
  abbrev pub fronted : (i a : ℕ) → Words → Words
  fronted i a w = record w {
    head = update w.head i a;
    next = update w.next a (w.head i);
    prev = update w.prev a 0;
  }

  pub Runs-link_back :
      (w : Words) (i a : ℕ)
      → Pushable w i a
      → Runs Kept (link_back (w.head i) a) (fronted i a w) tt (pushed i a w)
  unfolding link_back
  Runs-link_back w i a p = elim p.head [
    | inl e ↦ let null : (w.head i == 0) ≡ true = ground arith in rw null (Runs-pure Kept tt _)
    | inr k ↦
        let block : (w.head i == 0) ≡ false = ground (arith, k.0) in
        let fits : a < 2 ^ 32 = omega (arith, p.block) in
        rw block (write-prev Kept (w.head i) a (fronted i a w) k.0 fits k.1)
  ]

  -- In the order of `FreeBlock`: the list, `prev` and `next`
  pub Runs-push_free :
      (w : Words) (a n : ℕ)
      → 16 ≤ n
      → IsBlockOffset (a + n)
      → Open Kept (a + n)
      → Pushable w (list_of n) a
      → Runs Kept (push_free a n) w tt (pushed (list_of n) a (given_words (a + n) w))
  unfolding push_free
  Runs-push_free w a n big after o p =
      let v = given_words (a + n) w in
      let i = list_of n in
      let pv : Pushable v i a = record {
        block = p.block;
        open_prev = p.open_prev;
        open_next = p.open_next;
        list = p.list;
        open_list = p.open_list;
        head = p.head;
      } in
      let fits : a < 2 ^ 32 = omega (arith, p.block) in
      Runs-then Kept (set_the_free_tag a n) _ w v _ _ (Runs-set_tag Kept a n w after o) (
        Runs-bind Kept (free_list_by_block_size n) _ v v _ _ _ (Runs-free_list Kept n v big) (
          Runs-bind Kept (read32 i) _ v v _ _ _ (read-head Kept i v p.list) (
            Runs-then Kept (write32 i a) _ v _ _ _ (write-head Kept i a v p.list fits p.open_list) (
              Runs-then Kept (write32 (prev_field a) 0) _ _ _ _ _
                (write-prev Kept a 0 _ p.block (omega arith) p.open_prev)
                (Runs-then Kept (write32 (next_field a) (w.head i)) _ _ _ _ _
                  (write-next Kept a (w.head i) _ p.block (head-fits w i a p) p.open_next)
                  (Runs-link_back v i a pv))))))
