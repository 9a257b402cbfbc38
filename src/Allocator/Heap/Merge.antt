-- ===== src/Allocator/Heap/Merge.antt =====
-- The two tests of `FreeBlock` (src/allocator.cc) for merging a block with a free neighbour, on a heap.
use nvds.Base.{
  ℕ, ◌+◌, ◌≤◌, ◌<◌, ◌≡◌, ◌≢◌, arith, refl, Bool, true, false, not, ◌&&◌, leb, ◌==◌, if◌then◌else◌,
  add32, sub32, update,
}
use nvds.Command.{pure, ◌>>◌}
use nvds.Allocator.{max_block_size, mask, read_the_prev_free_tag, remove_block, merge_prev}
use nvds.Allocator.Words.{Words, IsListOffset}
use nvds.Allocator.Words.Runs.{Open, Runs, Runs-bind, Runs-then, Runs-pure}
use nvds.Allocator.Lists.{removed}
use nvds.Allocator.Tiling.{
  Blocks, IsTiling, given, given_words, given-IsTiling, footed_words, footed-IsTiling,
}
use nvds.Allocator.Heap.{IsHeap, Held, list_of, listed, block-IsBlockOffset, Open-list, Open-inside}
use nvds.Allocator.Heap.Links.{free-listed}
use nvds.Allocator.Heap.Steps.{Runs-prev_tag, Runs-remove_block}
use nvds.Allocator.Heap.Loose.{IsLoose, all-IsLoose, loose-Removable, removed-IsLoose}

module _ (g : Blocks) (w : Words) (heap : IsHeap g w) (a : ℕ) (here : 0 < g.sizes a)
    (used : g.free a ≡ false) where
  -- What is kept: the other blocks in use
  abbrev pub Others : ℕ → Type 0
  Others = Held (given a g)

  pub others-IsTiling :
      IsTiling (given a g) (given_words (a + g.sizes a) (footed_words a (g.sizes a) w))
  others-IsTiling =
      given-IsTiling g (footed_words a (g.sizes a) w) (footed-IsTiling g w heap.tiling a here used)
        a here (ground arith)

  pub Open-others :
      (b c : ℕ) → (given a g).free b ≡ true → b ≤ c → c + 4 ≤ b + g.sizes b → Open Others c
  Open-others b c free = Open-inside (given a g) _ others-IsTiling b c free

  pub Open-heads : (i : ℕ) → IsListOffset i → Open Others i
  Open-heads = Open-list (given a g) _ others-IsTiling

  pub Open-fields : (c : ℕ) → g.free c ≡ true → Open Others (c + 4) × Open Others (c + 8)
  Open-fields c free =
      let big = heap.tiling.bounds c (heap.tiling.block c free) in
      let free' : (given a g).free c ≡ true = ground (arith, free) in
      (
        Open-others c (c + 4) free' (omega arith) (omega (arith, big)),
        Open-others c (c + 8) free' (omega arith) (omega (arith, big)),
      )

  abbrev pub Loose : (ℕ → ℕ) → Words → Type 0
  Loose = IsLoose g w heap Others Open-heads Open-fields

  -- After the first test: the block alone, or joined with the free block `p` before it
  pub data PrevStage : (at n : ℕ) → (ℕ → ℕ) → Words → Type 0 where
    alone : PrevStage a (g.sizes a) (listed g) w
    with_prev :
        (p : ℕ)
        → g.free p ≡ true
        → p + g.sizes p ≡ a
        → PrevStage p
            (g.sizes a + g.sizes p)
            (update (listed g) p 0)
            (removed (list_of (g.sizes p)) p w)

  -- After the second: as before, or joined with the free block `q` after it
  pub data NextStage (n : ℕ) (l : ℕ → ℕ) (v : Words) : ℕ → (ℕ → ℕ) → Words → Type 0 where
    stop : NextStage n l v n l v
    with_next :
        (q : ℕ)
        → g.free q ≡ true
        → a + g.sizes a ≡ q
        → NextStage n l v (n + g.sizes q) (update l q 0) (removed (list_of (g.sizes q)) q v)

  -- A removal that a test of `FreeBlock` is followed by
  pub Runs-remove :
      {A : Type 0}
      → (l : ℕ → ℕ) (v : Words) (b : ℕ) (r : A) → Loose l v
      → l b ≢ 0
      → Runs Others (remove_block b (g.sizes b) >> pure r) v r (removed (list_of (g.sizes b)) b v)
  Runs-remove l v b r loose h =
      Runs-then Others (remove_block b (g.sizes b)) (pure r) v _ _ r
        (Runs-remove_block Others b (g.sizes b) v
          (loose-Removable g w heap Others Open-heads Open-fields l v loose b h))
        (Runs-pure Others r _)

  merge-prev-test :
      (ps : ℕ)
      → (mask (w.header a) ≢ 0
          → (p : ℕ) × (g.free p ≡ true) × (p + g.sizes p ≡ a) × (ps ≡ g.sizes p))
      → (test : Bool)
      → (not (mask (w.header a) == 0) && leb (g.sizes a) max_block_size && leb ps max_block_size)
        ≡ test
      → (at : ℕ) × (n : ℕ) × (l : ℕ → ℕ) × (v : Words) × Runs Others {A = ℕ × ℕ}
          (if test
            then remove_block (sub32 a ps) ps >> pure (sub32 a ps, add32 (g.sizes a) ps)
            else pure (a, g.sizes a))
          w
          (at, n)
          v
        × PrevStage at n l v
        × Loose l v
  merge-prev-test ps tagged false e = (
    a,
    g.sizes a,
    listed g,
    w,
    Runs-pure Others _ w,
    alone,
    all-IsLoose g w heap Others Open-heads Open-fields,
  )
  merge-prev-test ps tagged true e =
      let (p, free, before, size) = tagged (λ z. ground (arith, z, e)) in
      let t = heap.tiling in
      let big = t.bounds a here in
      let at_p : sub32 a ps ≡ p = omega (arith, big, before, size) in
      let sum : add32 (g.sizes a) ps ≡ g.sizes a + g.sizes p =
        omega (arith, big, size, t.bounds p (t.block p free)) in
      let start = all-IsLoose g w heap Others Open-heads Open-fields in
      let linked = free-listed g w heap p free in
      (
        p,
        g.sizes a + g.sizes p,
        update (listed g) p 0,
        removed (list_of (g.sizes p)) p w,
        rw (sum, at_p, size) (Runs-remove (listed g) w p _ start linked),
        with_prev p free before,
        removed-IsLoose g w heap Others Open-heads Open-fields (listed g) w start p linked,
      )

  -- The first test, given the word before the block
  pub Runs-merge_prev :
      (ps : ℕ)
      → (mask (w.header a) ≢ 0
          → (p : ℕ) × (g.free p ≡ true) × (p + g.sizes p ≡ a) × (ps ≡ g.sizes p))
      → (at : ℕ) × (n : ℕ) × (l : ℕ → ℕ) × (v : Words) × Runs Others {A = ℕ × ℕ}
          (merge_prev a (g.sizes a) ps)
          w
          (at, n)
          v
        × PrevStage at n l v
        × Loose l v
  unfolding merge_prev
  Runs-merge_prev ps tagged =
      let (at, n, l, v, run, stage, loose) = merge-prev-test ps tagged _ refl in
      (
        at,
        n,
        l,
        v,
        Runs-bind Others (read_the_prev_free_tag a) _ w w v (mask (w.header a)) (at, n)
            (Runs-prev_tag Others a w (block-IsBlockOffset g w heap.tiling a here)) run,
        stage,
        loose,
      )
