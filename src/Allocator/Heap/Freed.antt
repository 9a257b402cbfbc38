-- ===== src/Allocator/Heap/Freed.antt =====
-- `Free` of src/allocator.h on a heap: the block becomes free, alone or joined with its free neighbours.
use nvds.Base.{
  ℕ, ◌+◌, ◌-◌, ◌≤◌, ◌<◌, ◌≡◌, ◌≢◌, arith, refl, true, false, ◌==◌, if◌then◌else◌, update, subst,
}
use nvds.Allocator.Words.{Words}
use nvds.Allocator.Tiling.{
  Blocks, IsTiling, given, given_words, given-IsTiling, joined, sized_words, footed_words,
}
use nvds.Allocator.Heap.{IsHeap, list_of, listed}
use nvds.Allocator.Heap.Free.{
  freed_words, freed_prev-IsTiling, freed_next-IsTiling, freed_both-IsTiling,
}
use nvds.Allocator.Heap.Merge.{PrevStage, alone, with_prev, NextStage, stop, with_next}

-- The block `a` lies in a free block after; every other block in use is as it was, and no other
-- block is in use.
pub record Freed (g : Blocks) (a : ℕ) (g' : Blocks) : Type 0 where
  pub into : ℕ
  pub free : g'.free into ≡ true
  pub above : into ≤ a
  pub below : a + g.sizes a ≤ into + g'.sizes into
  pub others :
      (b : ℕ)
      → 0 < g.sizes b
      → g.free b ≡ false
      → b ≢ a
      → (g'.sizes b ≡ g.sizes b) × (g'.free b ≡ false)
  pub no_more :
      (b : ℕ)
      → 0 < g'.sizes b
      → g'.free b ≡ false
      → (b ≢ a) × (g.free b ≡ false) × (g.sizes b ≡ g'.sizes b)

module _ (g : Blocks) (w : Words) (heap : IsHeap g w) (a : ℕ) (here : 0 < g.sizes a)
    (used : g.free a ≡ false) where
  -- The words after the size was written, if it changed
  abbrev pub resized : (at total : ℕ) → Words → Words
  resized at total v =
      if total == g.sizes a then v else footed_words at total (sized_words at total v)

  -- The blocks to which the two tests lead, the block that is freed being `total` bytes at `at`
  pub record Leads (at total : ℕ) (l : ℕ → ℕ) : Type 0 where
    pub blocks : Blocks
    pub tiling : IsTiling blocks (given_words (at + total) (resized at total w))
    pub free : blocks.free at ≡ true
    pub size : blocks.sizes at ≡ total
    pub listed : (c : ℕ) → listed blocks c ≡ update l at (list_of total) c
    pub loose : l at ≡ 0
    pub freed : Freed g a blocks

  resized-IsTiling :
      (g' : Blocks) (at n total : ℕ)
      → n ≡ total
      → total ≢ g.sizes a
      → IsTiling g' (freed_words at n w)
      → IsTiling g' (given_words (at + total) (resized at total w))
  resized-IsTiling g' at n total sum more t =
      let changed : (total == g.sizes a) ≡ false = ground (arith, more) in
      rw changed (subst (λ x. IsTiling g' (freed_words at x w)) sum t)

  Leads-alone : w.footer (a + g.sizes a - 4) ≡ g.sizes a → Leads a (g.sizes a) (listed g)
  Leads-alone intact = record {
    blocks = given a g;
    tiling =
        let same : (g.sizes a == g.sizes a) ≡ true = ground arith in
        rw same (given-IsTiling g w heap.tiling a here intact);
    free = ground arith;
    size = refl;
    listed = λ c. ground arith;
    loose = ground (arith, used);
    freed = record {
      into = a;
      free = ground arith;
      above = omega arith;
      below = omega arith;
      others = λ b h u e. (refl, ground (arith, u, e));
      no_more = λ b h u. (λ e. ground (arith, e, u), ground (arith, u), refl);
    };
  }

  Leads-prev :
      (p : ℕ)
      → g.free p ≡ true
      → p + g.sizes p ≡ a
      → Leads p (g.sizes a + g.sizes p) (update (listed g) p 0)
  Leads-prev p free before =
      let t = heap.tiling in
      let some = t.block p free in
      let sum : g.sizes p + g.sizes a ≡ g.sizes a + g.sizes p = omega arith in
      record {
        blocks = given p (joined p a g);
        tiling =
            resized-IsTiling (given p (joined p a g)) p (g.sizes p + g.sizes a)
              (g.sizes a + g.sizes p) sum (omega arith)
              (freed_prev-IsTiling g w t a here used p free before);
        free = ground arith;
        size = ground (arith, sum);
        listed = λ c. ground (arith, used, sum);
        loose = ground arith;
        freed = record {
          into = p;
          free = ground arith;
          above = omega (arith, before);
          below = ground (arith, before);
          others = λ b h u e. (ground (arith, h, u, e, free), ground (arith, u, e, free));
          no_more = λ b h u. (
            λ e. ground (arith, e, u, h, before, some),
            ground (arith, u, h),
            ground (arith, u, h),
          );
        };
      }

  Leads-next :
      (q : ℕ)
      → g.free q ≡ true
      → a + g.sizes a ≡ q
      → Leads a (g.sizes a + g.sizes q) (update (listed g) q 0)
  Leads-next q free after =
      let t = heap.tiling in
      let some = t.block q free in
      record {
        blocks = given a (joined a q g);
        tiling =
            resized-IsTiling (given a (joined a q g)) a (g.sizes a + g.sizes q)
              (g.sizes a + g.sizes q) refl (omega arith)
              (freed_next-IsTiling g w t a here used q free after);
        free = ground arith;
        size = ground arith;
        listed = λ c. ground arith;
        loose = ground (arith, used);
        freed = record {
          into = a;
          free = ground arith;
          above = omega arith;
          below = ground arith;
          others = λ b h u e. (ground (arith, h, u, e, free), ground (arith, u, e, free));
          no_more =
              λ b h u. (λ e. ground (arith, e, u, h), ground (arith, u, h), ground (arith, u, h));
        };
      }

  Leads-both :
      (p q : ℕ)
      → g.free p ≡ true
      → p + g.sizes p ≡ a
      → g.free q ≡ true
      → a + g.sizes a ≡ q
      → Leads p (g.sizes a + g.sizes p + g.sizes q) (update (update (listed g) p 0) q 0)
  Leads-both p q free before free₁ after =
      let t = heap.tiling in
      let some = t.block p free in
      let some₁ = t.block q free₁ in
      let sum : g.sizes p + g.sizes a + g.sizes q ≡ g.sizes a + g.sizes p + g.sizes q =
        omega arith in
      let apart : (q ≢ p) × (q ≢ a) = (λ z. omega (arith, z), λ z. omega (arith, z)) in
      let g' = given p (joined p q (joined p a g)) in
      let size : g'.sizes p ≡ g.sizes a + g.sizes p + g.sizes q = ground (arith, apart) in
      record {
        blocks = g';
        tiling =
            resized-IsTiling g' p (g.sizes p + g.sizes a + g.sizes q)
              (g.sizes a + g.sizes p + g.sizes q) sum (omega arith)
              (freed_both-IsTiling g w t a here used p q free before free₁ after);
        free = ground arith;
        size = size;
        listed = λ c. ground (arith, used, size);
        loose = ground arith;
        freed = record {
          into = p;
          free = ground arith;
          above = omega (arith, before);
          below = omega (arith, before, size);
          others =
              λ b h u e. (ground (arith, h, u, e, free, free₁), ground (arith, u, e, free, free₁));
          no_more = λ b h u. (
            λ e. ground (arith, e, u, h, before, some, apart),
            ground (arith, u, h),
            ground (arith, u, h),
          );
        };
      }

  pub stage-Leads :
      (at n total : ℕ) (l l' : ℕ → ℕ) (v v' : Words)
      → PrevStage g w heap a here used at n l v
      → NextStage g w heap a here used n l v total l' v'
      → w.footer (a + g.sizes a - 4) ≡ g.sizes a
      → Leads at total l'
  stage-Leads at n total l l' v v' alone stop intact = Leads-alone intact
  stage-Leads at n total l l' v v' alone (with_next q free after) intact = Leads-next q free after
  stage-Leads at n total l l' v v' (with_prev p free before) stop intact = Leads-prev p free before
  stage-Leads at n total l l' v v' (with_prev p free before) (with_next q free₁ after) intact =
      Leads-both p q free before free₁ after
