-- ===== src/Allocator/Tiling/Joined.antt =====
-- `FreeBlock` (src/allocator.cc) joins two blocks that lie side by side.
use nvds.Base.{ℕ, ◌+◌, ◌<◌, ◌≡◌, inl, inr, arith, true, false, Bool-cases, ◌==◌}
use nvds.Allocator.Words.{Words}
use nvds.Allocator.Tiling.{Blocks, IsTiling, joined, sized_words, footed_words}

module _ (g : Blocks) (w : Words) (t : IsTiling g w) (a : ℕ) (here : 0 < g.sizes a) where
  module _ (b : ℕ) (there : 0 < g.sizes b) (after : a + g.sizes a ≡ b) where
    pub joined_used-IsTiling :
        g.free b ≡ false → IsTiling (joined a b g) (sized_words a (g.sizes a + g.sizes b) w)
    joined_used-IsTiling used =
        let at_a = t.bounds a here in
        let at_b = t.bounds b there in
        record {
          block = λ c h. ground (arith, t.block c, h, here, used);
          bounds = λ c h. ground (arith, t.bounds c, at_a, at_b, h, after);
          apart = λ c d h j l. ground (
            arith,
            t.apart c d,
            t.apart a d here,
            t.apart b d there,
            t.apart c a,
            t.apart c b,
            at_a,
            at_b,
            h,
            j,
            l,
            after,
          );
          next = λ c h. ground (
            arith,
            t.next c,
            t.next b there,
            t.next a here,
            t.apart c b,
            t.apart c a,
            t.apart a c,
            t.apart b c,
            at_a,
            at_b,
            h,
            after,
          );
          size = λ c h. ground (arith, t.size c, t.bounds c, at_a, at_b, h, after);
          tag = λ c h. ground (
            arith,
            t.tag c,
            t.tag a here,
            t.tag b there,
            t.size a here,
            t.apart c b,
            t.apart c a,
            t.apart a c,
            t.apart b c,
            t.bounds c,
            at_a,
            at_b,
            h,
            after,
            used,
          );
          footer = λ c h. ground (arith, t.footer c, t.block c, h, after, used);
          tagged = λ c h k.
              let some : 0 < g.sizes c = ground (arith, h, here) in
              let (p, f, e) = t.tagged c some (λ z. k (ground (arith, z, at_a, at_b))) in
              (p, ground (arith, f, e, h, after, used), ground (arith, f, e, h, after, used));
          last = ground (arith, t.last, at_a);
        }

    pub joined_free-IsTiling :
        g.free b ≡ true
        → IsTiling
            (joined a b g)
            (footed_words a (g.sizes a + g.sizes b) (sized_words a (g.sizes a + g.sizes b) w))
    joined_free-IsTiling free =
        let at_a = t.bounds a here in
        let at_b = t.bounds b there in
        record {
          block = λ c h. ground (arith, t.block c, h, here);
          bounds = λ c h. ground (arith, t.bounds c, at_a, at_b, h, after);
          apart = λ c d h j l. ground (
            arith,
            t.apart c d,
            t.apart a d here,
            t.apart b d there,
            t.apart c a,
            t.apart c b,
            at_a,
            at_b,
            h,
            j,
            l,
            after,
          );
          next = λ c h. ground (
            arith,
            t.next c,
            t.next b there,
            t.next a here,
            t.apart c b,
            t.apart c a,
            t.apart a c,
            t.apart b c,
            at_a,
            at_b,
            h,
            after,
          );
          size = λ c h. ground (arith, t.size c, t.bounds c, at_a, at_b, h, after);
          tag = λ c h. ground (
            arith,
            t.tag c,
            t.tag a here,
            t.tag b there,
            t.size a here,
            t.apart c b,
            t.apart c a,
            t.apart a c,
            t.apart b c,
            t.bounds c,
            at_a,
            at_b,
            h,
            after,
            free,
          );
          footer = λ c h. ground (
            arith,
            t.footer c,
            t.block c,
            t.bounds c,
            t.apart c a,
            t.apart a c,
            t.apart c b,
            t.apart b c,
            at_a,
            at_b,
            here,
            there,
            h,
            after,
            free,
          );
          tagged = λ c h k. elim (Bool-cases (c == b + g.sizes b)) [
            | inl next ↦ (a, ground (arith, free), ground (arith, next, after))
            | inr other ↦
                let some : 0 < g.sizes c = ground (arith, h, here) in
                let (p, f, e) = t.tagged c some (λ z. k (ground (arith, z, at_a, at_b))) in
                (
                  p,
                  ground (arith, f, e, h, after, other),
                  ground (arith, f, e, h, after, other, here, there),
                )
          ];
          last = ground (arith, t.last, at_a);
        }
