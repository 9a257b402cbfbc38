-- ===== src/Allocator/Tiling.antt =====
-- The blocks of the allocator (src/allocator.cc) between the free lists and the last tag: they tile
-- the space, and the boundary tags say how.
pub mod Joined
pub mod Split
use nvds.Base.{
  ℕ, ◌+◌, ◌-◌, ◌%◌, ◌^◌, ◌≤◌, ◌<◌, ◌≡◌, ◌≢◌, ◌⊎◌, inl, inr, arith, Bool, true, false, Bool-cases,
  ◌==◌, if◌then◌else◌, update,
}
use nvds.Allocator.{set_mask, clear_mask, mask, or_tag}
use nvds.Allocator.Words.{Words, first_block, end}

-- The block at an offset: its size, 0 where no block begins, and whether it is free
pub record Blocks : Type 0 where
  pub sizes : ℕ → ℕ
  pub free : ℕ → Bool

pub record IsTiling (g : Blocks) (w : Words) : Type 0 where
  pub block : (a : ℕ) → g.free a ≡ true → 0 < g.sizes a
  pub bounds :
      (a : ℕ)
      → 0 < g.sizes a
      → (first_block ≤ a)
        × (a % 16 ≡ 4)
        × (32 ≤ g.sizes a)
        × (g.sizes a % 16 ≡ 0)
        × (a + g.sizes a ≤ end)
  pub apart : (a b : ℕ) → 0 < g.sizes a → 0 < g.sizes b → a < b → a + g.sizes a ≤ b
  pub next : (a : ℕ) → 0 < g.sizes a → (a + g.sizes a ≡ end) ⊎ (0 < g.sizes (a + g.sizes a))
  pub size : (a : ℕ) → 0 < g.sizes a → w.header a % 2 ^ 31 ≡ g.sizes a
  pub tag :
      (a : ℕ) → 0 < g.sizes a → mask (w.header (a + g.sizes a)) ≡ (if g.free a then 2 ^ 31 else 0)
  pub footer : (a : ℕ) → g.free a ≡ true → w.footer (a + g.sizes a - 4) ≡ g.sizes a
  pub tagged :
      (a : ℕ)
      → 0 < g.sizes a
      → mask (w.header a) ≢ 0
      → (p : ℕ) × (g.free p ≡ true) × (p + g.sizes p ≡ a)
  pub last : w.header end % 2 ^ 31 ≡ 0

-- The block `a` is tagged as used, or as free.
abbrev pub taken : ℕ → Blocks → Blocks
taken a g = record g { free = update g.free a false }

abbrev pub taken_words : (next_blk : ℕ) → Words → Words
taken_words b w = record w { header = update w.header b (clear_mask (w.header b)) }

abbrev pub given : ℕ → Blocks → Blocks
given a g = record g { free = update g.free a true }

abbrev pub given_words : (next_blk : ℕ) → Words → Words
given_words b w = record w { header = update w.header b (set_mask (w.header b)) }

-- The block `a` keeps its first `n` bytes, and the `k` bytes after them become a used block.
abbrev pub split : (a n k : ℕ) → Blocks → Blocks
split a n k g = record {
  sizes = update (update g.sizes a n) (a + n) k;
  free = update g.free (a + n) false;
}

abbrev pub split_words : (a n k : ℕ) → Words → Words
split_words a n k w = taken_words (a + n + k) (record w {
  header = update (update w.header a (or_tag (mask (w.header a)) n)) (a + n) (set_mask k);
  footer = update (update w.footer (a + n - 4) n) (a + n + k - 4) k;
})

-- The block `b` is joined to `a`, the one before it, and the result is free if `b` was.
abbrev pub joined : (a b : ℕ) → Blocks → Blocks
joined a b g = record {
  sizes = update (update g.sizes b 0) a (g.sizes a + g.sizes b);
  free = update (update g.free b false) a (g.free b);
}

-- The size `n` is written to the header of `a`, whose tag is kept, or to its footer.
abbrev pub sized_words : (a n : ℕ) → Words → Words
sized_words a n w = record w { header = update w.header a (or_tag (mask (w.header a)) n) }

abbrev pub footed_words : (a n : ℕ) → Words → Words
footed_words a n w = record w { footer = update w.footer (a + n - 4) n }

module _ (g : Blocks) (w : Words) (t : IsTiling g w) (a : ℕ) (here : 0 < g.sizes a) where
  pub taken-IsTiling : IsTiling (taken a g) (taken_words (a + g.sizes a) w)
  taken-IsTiling = record {
    block = λ b h. ground (arith, t.block b, h);
    bounds = t.bounds;
    apart = t.apart;
    next = t.next;
    size = λ b h. ground (arith, t.size b h);
    tag = λ b h. ground (arith, t.tag b h, t.apart a b here h, t.apart b a h here);
    footer = λ b h. ground (arith, t.footer b, h);
    tagged = λ b h k.
        let (p, f, e) = t.tagged b h (λ z. k (ground (arith, z))) in
        (p, ground (arith, f, e, k), e);
    last = ground (arith, t.last);
  }

  pub given-IsTiling :
      w.footer (a + g.sizes a - 4) ≡ g.sizes a
      → IsTiling (given a g) (given_words (a + g.sizes a) w)
  given-IsTiling e = record {
    block = λ b h. ground (arith, t.block b, h, here);
    bounds = t.bounds;
    apart = t.apart;
    next = t.next;
    size = λ b h. ground (arith, t.size b h);
    tag = λ b h. ground (arith, t.tag b h, t.apart a b here h, t.apart b a h here);
    footer = λ b h. ground (arith, t.footer b, h, e);
    tagged = λ b h k. elim (Bool-cases (b == a + g.sizes a)) [
      | inl here₁ ↦ (a, ground arith, ground (arith, here₁))
      | inr other ↦
          let (p, f, e) = t.tagged b h (λ z. k (ground (arith, z, other))) in
          (p, ground (arith, f), e)
    ];
    last = ground (arith, t.last);
  }

  pub footed-IsTiling : g.free a ≡ false → IsTiling g (footed_words a (g.sizes a) w)
  footed-IsTiling used = record {
    block = t.block;
    bounds = t.bounds;
    apart = t.apart;
    next = t.next;
    size = t.size;
    tag = t.tag;
    footer = λ b h. ground (
      arith,
      t.footer b,
      t.block b,
      t.bounds b,
      t.bounds a here,
      t.apart a b here,
      t.apart b a,
      here,
      used,
      h,
    );
    tagged = t.tagged;
    last = t.last;
  }

-- The words between which the tags do not distinguish
pub record SameTags (v w : Words) : Type 0 where
  pub header : (a : ℕ) → w.header a ≡ v.header a
  pub footer : (c : ℕ) → w.footer c ≡ v.footer c

pub IsTiling-Same : (g : Blocks) (v w : Words) → SameTags v w → IsTiling g v → IsTiling g w
IsTiling-Same g v w s t = record {
  block = t.block;
  bounds = t.bounds;
  apart = t.apart;
  next = t.next;
  size = λ a h. rw (s.header a) (t.size a h);
  tag = λ a h. rw (s.header (a + g.sizes a)) (t.tag a h);
  footer = λ a h. rw (s.footer (a + g.sizes a - 4)) (t.footer a h);
  tagged = λ a h k. t.tagged a h (rw (s.header a) at k);
  last = rw (s.header end) t.last;
}
