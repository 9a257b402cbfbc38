-- ===== src/Allocator/Tiling/Split.antt =====
-- `SplitBlock` (src/allocator.cc) cuts a free block in two.
use nvds.Base.{ℕ, ◌+◌, ◌%◌, ◌≤◌, ◌<◌, ◌≡◌, ◌≢◌, inl, inr, arith, true, Bool-cases, ◌==◌}
use nvds.Allocator.Words.{Words}
use nvds.Allocator.Tiling.{Blocks, IsTiling, split, split_words}

split-keeps :
    (g : Blocks) (a n k p b : ℕ)
    → p ≢ a
    → p ≢ a + n
    → g.free p ≡ true
    → p + g.sizes p ≡ b
    → ((split a n k g).free p ≡ true) × (p + (split a n k g).sizes p ≡ b)
split-keeps g a n k p b not_a not_rest f e =
    (ground (arith, not_rest, f), ground (arith, not_a, not_rest, e))

module _ (g : Blocks) (w : Words) (t : IsTiling g w) (a : ℕ) (here : 0 < g.sizes a) where
  pub split-IsTiling :
      (n k : ℕ)
      → g.free a ≡ true
      → g.sizes a ≡ n + k
      → 32 ≤ n
      → 32 ≤ k
      → k % 16 ≡ 0
      → IsTiling (split a n k g) (split_words a n k w)
  split-IsTiling n k free sum hn hk hm =
      let at_a = t.bounds a here in
      record {
        block = λ b h. ground (arith, t.block b, h);
        bounds = λ b h. ground (arith, t.bounds b, at_a, sum, h);
        apart = λ b c h j l. ground (
          arith,
          t.apart b c,
          t.apart a c here,
          t.apart b a,
          t.apart a b here,
          t.apart c a,
          at_a,
          sum,
          h,
          j,
          l,
        );
        next = λ b h.
            ground (arith, t.next b, t.next a here, t.apart b a, t.apart a b here, at_a, sum, h);
        size = λ b h. ground (
          arith,
          t.size b,
          t.size a here,
          t.apart b a,
          t.apart a b here,
          t.bounds b,
          at_a,
          sum,
          h,
        );
        tag = λ b h. ground (
          arith,
          t.tag b,
          t.tag a here,
          t.apart b a,
          t.apart a b here,
          t.bounds b,
          at_a,
          sum,
          h,
          free,
        );
        footer = λ b h. ground (
          arith,
          t.footer b,
          t.block b,
          t.bounds b,
          t.apart b a,
          t.apart a b here,
          at_a,
          sum,
          h,
          free,
        );
        tagged = λ b h l. elim (Bool-cases (b == a + n)) [
          | inl rest ↦ (a, ground (arith, free, hn), ground (arith, rest, hn))
          | inr other ↦
              let some : 0 < g.sizes b = ground (arith, h, here, other) in
              let (p, f, e) = t.tagged b some (λ z. l (ground (arith, z, other, at_a, sum))) in
              let not_a : p ≢ a = λ z. l (ground (arith, z, e, sum)) in
              let not_rest : p ≢ a + n =
                λ z. omega (arith, z, t.apart a p here (t.block p f), sum, hn, hk) in
              let kept = split-keeps g a n k p b not_a not_rest f e in (p, kept.0, kept.1)
        ];
        last = ground (arith, t.last, at_a, sum, hk);
      }
