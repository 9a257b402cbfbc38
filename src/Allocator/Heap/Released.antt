-- ===== src/Allocator/Heap/Released.antt =====
-- `Free` of src/allocator.h as a whole, on a memory that holds a heap.
use nvds.Base.{
  ℕ, ◌+◌, ◌-◌, ◌<◌, ◌≡◌, ◌≢◌, inl, inr, arith, refl, sym, ◌∙◌, true, false, ◌&&◌, leb, ltb, ◌==◌,
  Bool-cases, add32, sub32,
}
use nvds.Nvm.{get32}
use nvds.Command.{Allocator, ok, assert, ◌>>◌, read32}
use nvds.Allocator.{
  size, mask, clear_mask, read_the_size_tag, merge_prev, merge_next, free_block, free,
}
use nvds.Allocator.Words.{Words, IsListOffset, IsFooterOffset, first_block}
use nvds.Allocator.Words.Runs.{Runs, Runs-bind, Runs-then, Runs-assert, read-head, read-footer}
use nvds.Allocator.Tiling.{Blocks}
use nvds.Allocator.Heap.{
  IsHeap, Held, block-IsBlockOffset, after-IsBlockOffset, footer-IsFooterOffset,
}
use nvds.Allocator.Heap.Steps.{Runs-size_tag}
use nvds.Allocator.Heap.MergeNext.{Runs-merge_next}
use nvds.Allocator.Heap.Merge.{Others, Runs-merge_prev}
use nvds.Allocator.Heap.Freed.{Freed, stage-Leads}
use nvds.Allocator.Heap.Finish.{freed-IsHeap, Runs-finish}
use nvds.Allocator.Heap.Served.{HasHeap}

module _ (g : Blocks) (w : Words) (heap : IsHeap g w) (a : ℕ) (here : 0 < g.sizes a)
    (used : g.free a ≡ false) where
  -- The size that is read from the word before the block is that of the free block there, if the tag
  -- says that there is one.
  Runs-prev_size :
      (ps : ℕ) × Runs (Others g w heap a here used) (read32 (sub32 a 4)) w ps w
      × (mask (w.header a) ≢ 0
          → (p : ℕ) × (g.free p ≡ true) × (p + g.sizes p ≡ a) × (ps ≡ g.sizes p))
  Runs-prev_size =
      let t = heap.tiling in
      let k = Others g w heap a here used in
      let big = t.bounds a here in
      elim (Bool-cases (a == first_block)) [
        | inl e ↦
            let first : a ≡ first_block = ground (arith, e) in
            let at_list : sub32 a 4 ≡ 288 = omega arith in
            let list : IsListOffset 288 = (omega arith, omega arith, refl) in
            (
              w.head 288,
              rw at_list (read-head k 288 w list),
              λ h.
                  let (p, f, before) = t.tagged a here h in
                  absurd (omega (arith, before, first, t.bounds p (t.block p f), t.block p f)),
            )
        | inr e ↦
            let other : a ≢ first_block = λ z. ground (arith, z, e) in
            let at_foot : sub32 a 4 ≡ a - 4 = omega (arith, big) in
            let foot : IsFooterOffset (a - 4) =
              (omega (arith, big, other), omega (arith, big), omega (arith, big)) in
            (
              w.footer (a - 4),
              rw at_foot (read-footer k (a - 4) w foot),
              λ h.
                  let (p, f, before) = t.tagged a here h in
                  (p, f, before, rw before at (t.footer p f)),
            )
      ]

  pub Runs-free_block :
      w.footer (a + g.sizes a - 4) ≡ g.sizes a
      → (g' : Blocks) × (w' : Words) × Runs (Others g w heap a here used) (free_block a) w tt w'
        × IsHeap g' w'
        × Freed g a g'
  unfolding free_block
  Runs-free_block intact =
      let t = heap.tiling in
      let k = Others g w heap a here used in
      let n = g.sizes a in
      let size : clear_mask (w.header a) ≡ n = t.size a here in
      let at_next : add32 a n ≡ a + n = omega (arith, t.bounds a here) in
      let next_size = clear_mask (w.header (a + n)) in
      let (ps, read, tagged) = Runs-prev_size in
      let (at, m, l, v, run, stage, loose) = Runs-merge_prev g w heap a here used ps tagged in
      let (total, l', v', run', stage', loose') =
        Runs-merge_next g w heap a here used at m l v stage loose in
      let leads = stage-Leads g w heap a here used at m total l l' v v' stage stage' intact in
      (
        leads.blocks,
        _,
        Runs-bind k (read_the_size_tag a) _ w w _ _ _
            (Runs-size_tag k a w (block-IsBlockOffset g w t a here))
            (rw (size, at_next)
              (Runs-bind k (read32 (sub32 a 4)) _ w w _ ps _ read (
                Runs-bind k (read_the_size_tag (a + n)) _ w w _ next_size _
                  (Runs-size_tag k (a + n) w (after-IsBlockOffset g w t a here))
                  (Runs-bind k (merge_prev a n ps) _ w v _ (at, m) _ run
                    (Runs-bind k (merge_next m (a + n) next_size) _ v v' _ total _ run'
                      (Runs-finish g w heap a here used at total l' v' loose' leads)))))),
        freed-IsHeap g w heap a here used at total l' v' loose' leads,
        leads.freed,
      )

-- What is held after was held before: what is in use after was in use before, and not the block that was freed.
before :
    (g : Blocks) (w : Words) (heap : IsHeap g w) (a : ℕ) (here : 0 < g.sizes a)
    (used : g.free a ≡ false) (g' : Blocks)
    → Freed g a g'
    → (x : ℕ) → Held g' x
    → Others g w heap a here used x
before g w heap a here used g' freed x (inr past) = inr past
before g w heap a here used g' freed x (inl u) =
    let same = freed.no_more u.block u.some u.used in
    inl (record {
      block = u.block;
      some = omega (arith, u.some, same.2);
      used = ground (arith, same.0, same.1);
      above = u.above;
      below = omega (arith, u.below, same.2);
    })

pub free-Freed :
    (g : Blocks) (s : Allocator) (a : ℕ)
    → HasHeap g s.memory
    → 0 < g.sizes a
    → g.free a ≡ false
    → get32 s.memory (a + g.sizes a - 4) ≡ g.sizes a
    → (g' : Blocks) × (s' : Allocator) × (free (a + 4) s ≡ ok tt s')
      × HasHeap g' s'.memory
      × Freed g a g'
      × ((x : ℕ) → Held g' x → s'.memory x ≡ s.memory x)
unfolding free ◌>>◌
free-Freed g s a h here used last =
    let w = h.words in
    let t = h.heap.tiling in
    let big = t.bounds a here in
    let foot =
      footer-IsFooterOffset g w t a (g.sizes a) here (omega (arith, big)) (omega arith)
        (omega (arith, big)) in
    let intact : w.footer (a + g.sizes a - 4) ≡ g.sizes a =
      sym (h.shows.footer (a + g.sizes a - 4) foot) ∙ last in
    let (g', w', run, heap', freed) = Runs-free_block g w h.heap a here used intact in
    let (s', ran, shows, kept) =
      Runs-then (Others g w h.heap a here used) (assert (ltb 4 (a + 4) && leb (a + 4) size))
        (free_block (a + 4 - 4)) w w w' tt
        (Runs-assert (Others g w h.heap a here used) _ w (ground (arith, big)))
        (let back : a + 4 - 4 ≡ a = omega arith in rw back run) s h.shows in
    (
      g',
      s',
      ran,
      record { words = w'; shows = shows; heap = heap' },
      freed,
      λ x u. kept x (before g w h.heap a here used g' freed x u),
    )
