-- ===== src/Allocator/Heap/Alloc.antt =====
-- The heap after `AllocBlock` (src/allocator.cc) has taken a whole block, or split one.
use nvds.Base.{
  ℕ, ◌+◌, ◌-◌, ◌%◌, ◌≤◌, ◌≡◌, ◌≢◌, ◌⊎◌, inl, inr, arith, refl, true, ◌==◌, Bool-cases, update,
}
use nvds.Allocator.Words.{Words, IsListOffset, IsBlockOffset}
use nvds.Allocator.Words.Runs.{Open}
use nvds.Allocator.Lists.{IsLists, IsLists-Same, removed, removed-IsLists, pushed, pushed-IsLists}
use nvds.Allocator.Tiling.{
  Blocks, taken, taken_words, taken-IsTiling, split, split_words, IsTiling-Same,
}
use nvds.Allocator.Tiling.Split.{split-IsTiling}
use nvds.Allocator.Heap.{
  IsHeap, Held, list_of, listed, list_of-IsListOffset, list-IsListOffset, block-IsBlockOffset,
  after-IsBlockOffset, footer-IsFooterOffset, Open-list, Open-header, Open-after, Open-inside,
}
use nvds.Allocator.Heap.Links.{free-listed, linked-Open, next-linked}
use nvds.Allocator.Heap.Take.{Takeable, popped, popped_whole}
use nvds.Allocator.Heap.Split.{Splittable}

module _ (g : Blocks) (w : Words) (heap : IsHeap g w) (a : ℕ) (free : g.free a ≡ true)
    (first : w.prev a ≡ 0) where
  -- Clearing the word at 4 does no harm.
  abbrev pub IsTight : Type 0
  IsTight = (w.next a ≢ 0) ⊎ ((w.head 4 ≡ 0) ⊎ (listed g a ≡ 4))

  removed-lists : IsLists (update (listed g) a 0) (removed (listed g a) a w)
  removed-lists = removed-IsLists (listed g) w heap.lists a (free-listed g w heap a free)

  pub take-IsHeap :
      IsTight → IsHeap (taken a g) (popped_whole (listed g a) a (taken_words (a + g.sizes a) w))
  take-IsHeap tight = record {
    tiling =
        IsTiling-Same (taken a g) (taken_words (a + g.sizes a) w) _
          (record { header = λ b. refl; footer = λ c. refl })
          (taken-IsTiling g w heap.tiling a (heap.tiling.block a free));
    lists =
        IsLists-Same (update (listed g) a 0) (listed (taken a g)) (removed (listed g a) a w) _
          (record {
            listed = λ b. ground arith;
            head = λ i. ground (arith, first, tight);
            prev = λ b. ground (arith, first);
            next = λ b. ground (arith, first);
          })
          removed-lists;
  }

  popped-lists : IsLists (update (listed g) a 0) (popped (listed g a) a w)
  popped-lists =
      IsLists-Same (update (listed g) a 0) _ (removed (listed g a) a w) _
        (record {
          listed = λ b. refl;
          head = λ i. ground (arith, first);
          prev = λ b. ground (arith, first);
          next = λ b. ground (arith, first);
        })
        removed-lists

  module _ (n k : ℕ) (sum : g.sizes a ≡ n + k) (hn : 32 ≤ n) (hk : 32 ≤ k) (m : k % 16 ≡ 0) where
    size_fits : (32 ≤ n) × (n % 16 ≡ 0)
    size_fits =
        let big = heap.tiling.bounds a (heap.tiling.block a free) in
        (hn, omega (arith, big, sum, m))

    pub split-IsHeap :
        IsHeap (split a n k g) (split_words a n k (pushed (list_of n) a (popped (listed g a) a w)))
    split-IsHeap =
        let t = heap.tiling in
        let here = t.block a free in
        let big = t.bounds a here in
        record {
          tiling =
              IsTiling-Same (split a n k g) (split_words a n k w) _
                (record { header = λ b. refl; footer = λ c. refl })
                (split-IsTiling g w t a here n k free sum hn hk m);
          lists =
              IsLists-Same (update (update (listed g) a 0) a (list_of n)) _
                (pushed (list_of n) a (popped (listed g a) a w)) _
                (record {
                  listed = λ b. ground (arith, sum, free, hk, hn, t.block b, t.apart a b here);
                  head = λ i. refl;
                  prev = λ b. refl;
                  next = λ b. refl;
                })
                (pushed-IsLists (update (listed g) a 0) (popped (listed g a) a w) popped-lists
                  (list_of n) a (list_of-IsListOffset n hn size_fits.1) (ground arith)
                  (λ z. omega (arith, big, z)));
        }

module _ (g : Blocks) (w : Words) (heap : IsHeap g w) (a : ℕ) (free : g.free a ≡ true) where
  pub free-Takeable : Takeable (Held g) w (listed g a) a (g.sizes a)
  free-Takeable =
      let t = heap.tiling in
      let here = t.block a free in
      record {
        block = block-IsBlockOffset g w t a here;
        after = after-IsBlockOffset g w t a here;
        open_after = Open-after g w t a here;
        list = list-IsListOffset g w t a free;
        open_lists = Open-list g w t;
        next = next-linked g w heap a free;
      }

  -- The head of a list after `a` was taken off its list
  popped-head :
      (j : ℕ)
      → IsListOffset j
      → let h = (popped (listed g a) a w).head j in
        (h ≡ 0) ⊎ (IsBlockOffset h × Open (Held g) (h + 4))
  popped-head j list = elim (Bool-cases (j == listed g a)) [
    | inl e ↦ rw e (next-linked g w heap a free)
    | inr e ↦ elim (heap.lists.heads j list) [
      | inl z ↦ rw e (inl z)
      | inr k ↦
          let o = linked-Open g w heap (w.head j) (λ z. omega (arith, list, z, k.0)) in
          rw e (inr (o.0, o.1))
    ]
  ]

  pub free-Splittable :
      (n k : ℕ) → g.sizes a ≡ n + k → 32 ≤ n → 32 ≤ k → k % 16 ≡ 0 → Splittable (Held g) w a n k
  free-Splittable n k sum hn hk m =
      let t = heap.tiling in
      let here = t.block a free in
      let big = t.bounds a here in
      let n_m : n % 16 ≡ 0 = omega (arith, big, sum, m) in
      let inside = Open-inside g w t a in
      let list = list_of-IsListOffset n hn n_m in
      let take : Takeable (Held g) w (list_of (n + k)) a (n + k) =
        rw (free, sum) at free-Takeable in
      record {
        big = (hn, hk, omega (arith, big, sum));
        take = take;
        front_footer = footer-IsFooterOffset g w t a n here (omega arith) (omega arith) n_m;
        open_front_footer = inside (a + n - 4) free (omega arith) (omega arith);
        open_block = Open-header g w t a here;
        rest = (omega (arith, big), omega (arith, big, sum), omega (arith, big, n_m));
        open_rest = inside (a + n) free (omega arith) (omega (arith, sum));
        rest_footer = (omega (arith, big, sum), omega (arith, big, sum), omega (arith, big, sum));
        open_rest_footer = inside (a + n + k - 4) free (omega arith) (omega (arith, sum));
        push = record {
          block = take.block;
          open_prev = inside (a + 4) free (omega arith) (omega (arith, big));
          open_next = inside (a + 8) free (omega arith) (omega (arith, big));
          list = list;
          open_list = Open-list g w t (list_of n) list;
          head = rw (free, sum) at (popped-head (list_of n) list);
        };
      }
