-- ===== src/Allocator/Heap/MergeNext.antt =====
-- The second test of `FreeBlock` (src/allocator.cc), for merging a block with the one after it, on a heap.
use nvds.Base.{
  ℕ, ◌+◌, ◌%◌, ◌^◌, ◌<◌, ◌≡◌, ◌≢◌, inl, inr, arith, refl, sym, ◌∙◌, Bool, true, false, not, ◌&&◌,
  leb, ◌==◌, if◌then◌else◌, Bool-cases, add32, update, update_other,
}
use nvds.Command.{pure, ◌>>◌}
use nvds.Allocator.{max_block_size, mask, clear_mask, read_the_free_tag, remove_block, merge_next}
use nvds.Allocator.Words.{Words, IsBlockOffset}
use nvds.Allocator.Words.Runs.{Runs, Runs-bind, Runs-pure}
use nvds.Allocator.Lists.{removed}
use nvds.Allocator.Tiling.{Blocks}
use nvds.Allocator.Heap.{IsHeap, list_of, listed, after-IsBlockOffset}
use nvds.Allocator.Heap.Links.{free-listed}
use nvds.Allocator.Heap.Steps.{Runs-free_tag}
use nvds.Allocator.Heap.Loose.{removed-IsLoose}
use nvds.Allocator.Heap.Merge.{
  Others, Loose, PrevStage, alone, with_prev, NextStage, stop, with_next, Open-heads, Open-fields,
  Runs-remove,
}

module _ (g : Blocks) (w : Words) (heap : IsHeap g w) (a : ℕ) (here : 0 < g.sizes a)
    (used : g.free a ≡ false) where
  stage-linked :
      (at n : ℕ) (l : ℕ → ℕ) (v : Words)
      → PrevStage g w heap a here used at n l v
      → (q : ℕ) → g.free q ≡ true
      → a + g.sizes a ≡ q
      → l q ≢ 0
  stage-linked at n l v alone q free after = free-listed g w heap q free
  stage-linked at n l v (with_prev p free' before) q free after =
      let some = heap.tiling.block p free' in
      let other : q ≢ p = λ e. omega (arith, e, before, after, here, some) in
      let kept : update (listed g) p 0 q ≡ listed g q = update_other (listed g) p 0 q other in
      λ z. free-listed g w heap q free (sym kept ∙ z)

  stage-small :
      (at n : ℕ) (l : ℕ → ℕ) (v : Words) → PrevStage g w heap a here used at n l v → n < 2 ^ 30
  stage-small at n l v alone = omega (arith, heap.tiling.bounds a here)
  stage-small at n l v (with_prev p free before) =
      omega (arith, heap.tiling.bounds a here, heap.tiling.bounds p (heap.tiling.block p free))

  -- What the second test reads is the tag of a block after the block, or its own.
  next-tagged :
      let next = a + g.sizes a in
      let size = clear_mask (w.header next) in
      mask (w.header (next + size)) ≢ 0
      → (g.free next ≡ true) × (next ≡ next) × (size ≡ g.sizes next)
  next-tagged h =
      let t = heap.tiling in
      let next = a + g.sizes a in
      let own : mask (w.header next) ≡ 0 = rw used at (t.tag a here) in
      elim (t.next a here) [
        | inl e ↦
            let none : w.header next % 2 ^ 31 ≡ 0 = rw e t.last in
            let plain : next + w.header next % 2 ^ 31 ≡ next = omega (arith, none) in
            absurd (h (rw plain own))
        | inr some ↦
            let size = t.size next some in
            elim (Bool-cases (g.free next)) [
              | inl free ↦ (free, refl, size)
              | inr busy ↦
                  let tag : mask (w.header (next + g.sizes next)) ≡ 0 =
                    rw busy at (t.tag next some) in
                  absurd (h (rw size tag))
            ]
      ]

  merge-next-test :
      (at n : ℕ) (l : ℕ → ℕ) (v : Words) (next size : ℕ)
      → PrevStage g w heap a here used at n l v
      → Loose g w heap a here used l v
      → n < 2 ^ 30
      → (mask (w.header (next + size)) ≢ 0
          → (g.free next ≡ true) × (a + g.sizes a ≡ next) × (size ≡ g.sizes next))
      → (test : Bool)
      → (not (mask (w.header (next + size)) == 0)
          && leb n max_block_size
          && leb size max_block_size)
        ≡ test
      → (total : ℕ) × (l' : ℕ → ℕ) × (v' : Words) × Runs
          (Others g w heap a here used)
          (if test then remove_block next size >> pure (add32 n size) else pure n)
          v
          total
          v'
        × NextStage g w heap a here used n l v total l' v'
        × Loose g w heap a here used l' v'
  merge-next-test at n l v next size stage loose small tagged false e =
      (n, l, v, Runs-pure (Others g w heap a here used) n v, stop, loose)
  merge-next-test at n l v next size stage loose small tagged true e =
      let (free, after, same) = tagged (λ z. ground (arith, z, e)) in
      let big = heap.tiling.bounds next (heap.tiling.block next free) in
      let sum : add32 n size ≡ n + g.sizes next = omega (arith, big, small, same) in
      let linked : l next ≢ 0 = stage-linked at n l v stage next free after in
      (
        n + g.sizes next,
        update l next 0,
        removed (list_of (g.sizes next)) next v,
        rw (sum, same) (Runs-remove g w heap a here used l v next _ loose linked),
        with_next next free after,
        removed-IsLoose g w heap (Others g w heap a here used) (Open-heads g w heap a here used)
            (Open-fields g w heap a here used) l v loose next linked,
      )

  next-offset : IsBlockOffset (a + g.sizes a + clear_mask (w.header (a + g.sizes a)))
  next-offset =
      let t = heap.tiling in
      let next = a + g.sizes a in
      elim (t.next a here) [
        | inl e ↦
            let none : w.header next % 2 ^ 31 ≡ 0 = rw e t.last in
            (omega (arith, e), omega (arith, e, none), omega (arith, e, none))
        | inr some ↦ let size = t.size next some in rw size (after-IsBlockOffset g w t next some)
      ]

  -- The second test, given the size that is read after the block
  pub Runs-merge_next :
      (at n : ℕ) (l : ℕ → ℕ) (v : Words)
      → PrevStage g w heap a here used at n l v
      → Loose g w heap a here used l v
      → let next = a + g.sizes a in
        let size = clear_mask (w.header next) in
        (total : ℕ) × (l' : ℕ → ℕ) × (v' : Words) × Runs
          (Others g w heap a here used)
          (merge_next n next size)
          v
          total
          v'
        × NextStage g w heap a here used n l v total l' v'
        × Loose g w heap a here used l' v'
  unfolding merge_next
  Runs-merge_next at n l v stage loose =
      let next = a + g.sizes a in
      let size = clear_mask (w.header next) in
      let (total, l', v', run, stage', loose') =
        merge-next-test at n l v next size stage loose (stage-small at n l v stage) next-tagged _
          refl in
      (
        total,
        l',
        v',
        Runs-bind (Others g w heap a here used) (read_the_free_tag next size) _ v v v'
            (mask (w.header (next + size))) total
            (rw (loose.header (next + size)) at
              (Runs-free_tag (Others g w heap a here used) next size v next-offset))
            run,
        stage',
        loose',
      )
