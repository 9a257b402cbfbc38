-- ===== src/Allocator/Heap/Free.antt =====
-- The blocks after `FreeBlock` (src/allocator.cc): the block is free, alone or joined with its free
-- neighbours, and its tags say so.
use nvds.Base.{
  ℕ, ◌+◌, ◌^◌, ◌<◌, ◌≡◌, ◌≢◌, arith, refl, true, false, update, update_self, ◌∙◌, subst,
}
use nvds.Allocator.Words.{Words}
use nvds.Allocator.Tiling.{
  Blocks, IsTiling, given, given_words, given-IsTiling, joined, sized_words, footed_words,
  footed-IsTiling, SameTags, IsTiling-Same,
}
use nvds.Allocator.Tiling.Joined.{joined_used-IsTiling, joined_free-IsTiling}

-- What `FreeBlock` leaves of the tags where the block that it frees is now at `a` with `n` bytes
abbrev pub freed_words : (a n : ℕ) → Words → Words
freed_words a n w = given_words (a + n) (footed_words a n (sized_words a n w))

-- A block that is tagged as free after its size was written to its footer
finish_given :
    (g : Blocks) (w : Words) (a n : ℕ)
    → g.sizes a ≡ n
    → 0 < n
    → IsTiling g (footed_words a n w)
    → IsTiling (given a g) (given_words (a + n) (footed_words a n w))
finish_given g w a n size some t =
    let here : 0 < g.sizes a = omega arith in
    rw size at (given-IsTiling g (footed_words a n w) t a here (rw size (ground arith)))

-- A header that is written twice keeps its tag.
resized-Same :
    (w : Words) (p n total : ℕ)
    → n < 2 ^ 31
    → SameTags (freed_words p total (sized_words p n w)) (freed_words p total w)
resized-Same w p n total small = record { header = λ a. ground (arith, small); footer = λ c. refl }

module _ (g : Blocks) (w : Words) (t : IsTiling g w) (a : ℕ) (here : 0 < g.sizes a)
    (used : g.free a ≡ false) where
  -- Joined with the free block `p` before it
  pub freed_prev-IsTiling :
      (p : ℕ)
      → g.free p ≡ true
      → p + g.sizes p ≡ a
      → IsTiling (given p (joined p a g)) (freed_words p (g.sizes p + g.sizes a) w)
  freed_prev-IsTiling p free before =
      let some = t.block p free in
      let total = g.sizes p + g.sizes a in
      let size : (joined p a g).sizes p ≡ total = ground arith in
      let not_free : (joined p a g).free p ≡ false = ground (arith, used) in
      let u = joined_used-IsTiling g w t p some a here before used in
      finish_given (joined p a g) (sized_words p total w) p total size (omega arith) (
        rw size at (
          footed-IsTiling (joined p a g) (sized_words p total w) u p (rw size (omega arith))
            not_free))

  -- Joined with the free block after it
  pub freed_next-IsTiling :
      (q : ℕ)
      → g.free q ≡ true
      → a + g.sizes a ≡ q
      → IsTiling (given a (joined a q g)) (freed_words a (g.sizes a + g.sizes q) w)
  freed_next-IsTiling q free after =
      let total = g.sizes a + g.sizes q in
      let size : (joined a q g).sizes a ≡ total = ground arith in
      finish_given (joined a q g) (sized_words a total w) a total size (omega arith)
        (joined_free-IsTiling g w t a here q (t.block q free) after free)

  pub freed_both-IsTiling :
      (p q : ℕ)
      → g.free p ≡ true
      → p + g.sizes p ≡ a
      → g.free q ≡ true
      → a + g.sizes a ≡ q
      → IsTiling
          (given p (joined p q (joined p a g)))
          (freed_words p (g.sizes p + g.sizes a + g.sizes q) w)
  freed_both-IsTiling p q free before free₁ after =
      let some = t.block p free in
      let g₂ = joined p a g in
      let n = g.sizes p + g.sizes a in
      let total = n + g.sizes q in
      let w₂ = sized_words p n w in
      let t₂ = joined_used-IsTiling g w t p some a here before used in
      let size : g₂.sizes p ≡ n = ground arith in
      let apart : (q ≢ p) × (q ≢ a) = (λ z. omega (arith, z), λ z. omega (arith, z)) in
      let next_size : g₂.sizes q ≡ g.sizes q = ground (arith, apart) in
      let next_free : g₂.free q ≡ true = ground (arith, apart, free₁) in
      let t₃ =
        joined_free-IsTiling g₂ w₂ t₂ p (rw size (omega arith)) q (rw next_size (t.block q free₁))
          (rw size (omega arith)) next_free in
      let sum : g₂.sizes p + g₂.sizes q ≡ total = omega (arith, size, next_size) in
      let size₃ : (joined p q g₂).sizes p ≡ total =
        update_self (update g₂.sizes q 0) p (g₂.sizes p + g₂.sizes q) ∙ sum in
      IsTiling-Same (given p (joined p q g₂)) (freed_words p total w₂) (freed_words p total w)
        (resized-Same w p n total (omega (arith, t.bounds p some, t.bounds a here)))
        (finish_given (joined p q g₂) (sized_words p total w₂) p total size₃ (omega arith)
          (subst (λ x. IsTiling (joined p q g₂) (footed_words p x (sized_words p x w₂))) sum t₃))
