-- ===== src/Allocator/Heap/Allocated.antt =====
-- `Alloc` of src/allocator.h on a heap: it hands out a part of a free block.
use nvds.Base.{
  ltb, ℕ, ◌+◌, ◌-◌, ◌%◌, ◌≤◌, ◌<◌, ◌≡◌, ◌≢◌, ◌⊎◌, inl, inr, arith, refl, true, false, not, leb,
  ◌==◌, if◌then◌else◌, Bool-cases,
}
use nvds.Command.{pure, assert, ◌>>=◌, ◌>>◌}
use nvds.Allocator.{
  max_block_size, num_free_lists, mask, clear_mask, free_list_by_block_size, find_free_list,
  read_the_size_tag, read_the_free_tag, take_head, split_block, alloc_block,
}
use nvds.Allocator.Words.{Words}
use nvds.Allocator.Words.Runs.{Runs, Runs-bind, Runs-then, Runs-pure, Runs-assert}
use nvds.Allocator.Lists.{listed-head}
use nvds.Allocator.Words.{IsListOffset}
use nvds.Allocator.Tiling.{Blocks, taken, taken_words, split}
use nvds.Allocator.Heap.{
  list-IsListOffset, IsHeap, Held, list_of, listed, list_of-IsListOffset, block-IsBlockOffset,
  after-IsBlockOffset,
}
use nvds.Allocator.Heap.Steps.{Runs-free_list, Runs-size_tag, Runs-free_tag}
use nvds.Allocator.Heap.Find.{Found, Empty, SearchEnd, Runs-find}
use nvds.Allocator.Heap.Links.{listed-free, free-listed}
use nvds.Allocator.Heap.Take.{popped_whole, Runs-take_head}
use nvds.Allocator.Heap.Split.{Runs-split_block}
use nvds.Allocator.Heap.Alloc.{IsTight, take-IsHeap, split-IsHeap, free-Takeable, free-Splittable}

-- The block at `a`, of `n` bytes, is in use after and was part of a free block before; every other
-- block in use is as it was, and no others are in use.
pub record Allocated (g : Blocks) (n a : ℕ) (g' : Blocks) : Type 0 where
  pub from : ℕ
  pub was_free : g.free from ≡ true
  pub above : from ≤ a
  pub below : a + n ≤ from + g.sizes from
  pub size : g'.sizes a ≡ n
  pub used : g'.free a ≡ false
  pub others :
      (b : ℕ) → 0 < g.sizes b → g.free b ≡ false → (g'.sizes b ≡ g.sizes b) × (g'.free b ≡ false)
  pub no_more :
      (b : ℕ)
      → 0 < g'.sizes b
      → g'.free b ≡ false
      → b ≢ a
      → (g.free b ≡ false) × (g.sizes b ≡ g'.sizes b)

-- No free block has 16 bytes more than `n`, and clearing the word at 4 does no harm for those that
-- have exactly `n`: each has a successor in its list, or the list at 4 is empty or theirs.
pub record Serves (g : Blocks) (w : Words) (n : ℕ) : Type 0 where
  pub no_remainder_16 : (b : ℕ) → g.free b ≡ true → g.sizes b ≢ n + 16
  pub tight :
      (b : ℕ) → g.free b ≡ true → g.sizes b ≡ n → (w.next b ≢ 0) ⊎ ((w.head 4 ≡ 0) ⊎ (n ≡ 32))

-- There is no space for a block of `n` bytes: every free block is smaller.
abbrev pub NoSpace : Blocks → ℕ → Type 0
NoSpace g n = (b : ℕ) → g.free b ≡ true → g.sizes b < n

-- What `AllocBlock` may leave for `n` bytes: null and all words as they were, or a block and a heap
pub data Allotted (g : Blocks) (w : Words) (n : ℕ) : ℕ → Words → Type 0 where
  full : NoSpace g n → Allotted g w n 0 w
  block :
      {a : ℕ} {w' : Words}
      → (g' : Blocks) → IsHeap g' w'
      → Allocated g n a g'
      → w'.footer (a + n - 4) ≡ n
      → Allotted g w n a w'

module _ (g : Blocks) (w : Words) (heap : IsHeap g w) (k : ℕ) (hk : 32 ≤ k)
    (fits : k ≤ max_block_size) (m : k % 16 ≡ 0) (serves : Serves g w k) where
  -- The head of a list is free, and no block comes before it.
  head-free : (i h : ℕ) → Found w (list_of k) i h → (listed g h ≡ i) × (w.prev h ≡ 0)
  head-free i h f = elim (heap.lists.heads i f.list) [
    | inl z ↦ absurd (f.some (let e = f.head in cc))
    | inr l ↦ rw f.head at l
  ]

  -- Where the lists for `k` bytes and more are empty, there is no space.
  Empty-NoSpace : Empty w (list_of k) → NoSpace g k
  Empty-NoSpace none b free =
      let big = heap.tiling.bounds b (heap.tiling.block b free) in
      let linked = free-listed g w heap b free in
      let list : IsListOffset (listed g b) = list-IsListOffset g w heap.tiling b free in
      let some = listed-head (listed g) w heap.lists b linked in
      elim (Bool-cases (ltb (g.sizes b) k)) [
        | inl less ↦ ground (arith, less)
        | inr more ↦
            let from : list_of k ≤ listed g b = ground (arith, more, free, big, hk, fits) in
            absurd (some (none (listed g b) list from))
      ]

  take-Allocated : (a : ℕ) → g.free a ≡ true → g.sizes a ≡ k → Allocated g k a (taken a g)
  take-Allocated a free exact = record {
    from = a;
    was_free = free;
    above = omega arith;
    below = omega arith;
    size = exact;
    used = ground arith;
    others = λ b h u. (refl, ground (arith, u));
    no_more = λ b h u e. (ground (arith, u, e), refl);
  }

  split-Allocated :
      (a n : ℕ)
      → g.free a ≡ true
      → g.sizes a ≡ n + k
      → 32 ≤ n
      → Allocated g k (a + n) (split a n k g)
  split-Allocated a n free sum hn =
      let t = heap.tiling in
      let here = t.block a free in
      record {
        from = a;
        was_free = free;
        above = omega arith;
        below = omega arith;
        size = ground arith;
        used = ground arith;
        others = λ b h u. (ground (arith, free, u, sum, t.apart a b here h, h), ground (arith, u));
        no_more = λ b h u e. (ground (arith, u, e), ground (arith, u, e, free));
      }

  serve-split :
      (a n : ℕ)
      → g.free a ≡ true
      → w.prev a ≡ 0
      → g.sizes a ≡ n + k
      → 32 ≤ n
      → (b : ℕ) × (w' : Words) × (g' : Blocks) × Runs (Held g) (split_block a (g.sizes a) k) w b w'
        × IsHeap g' w'
        × Allocated g k b g'
        × (w'.footer (b + k - 4) ≡ k)
  serve-split a n free first sum hn = (
    a + n,
    _,
    split a n k g,
    rw sum (Runs-split_block (Held g) w a n k (free-Splittable g w heap a free n k sum hn hk m)),
    rw (free, sum) at (split-IsHeap g w heap a free first n k sum hn hk m),
    split-Allocated a n free sum hn,
    ground arith,
  )

  -- The block at the head of a list serves: it is taken, or it is split.
  serve-head :
      (i a : ℕ)
      → g.free a ≡ true
      → listed g a ≡ i
      → w.prev a ≡ 0
      → list_of k ≤ i
      → (b : ℕ) × (w' : Words) × (g' : Blocks) × Runs
          (Held g)
          (if g.sizes a == k then take_head i a (g.sizes a) else split_block a (g.sizes a) k)
          w
          b
          w'
        × IsHeap g' w'
        × Allocated g k b g'
        × (w'.footer (b + k - 4) ≡ k)
  serve-head i a free here first from = elim (Bool-cases (g.sizes a == k)) [
    | inl e ↦
        let exact : g.sizes a ≡ k = ground (arith, e) in
        let tight : IsTight g w heap a free first =
          ground (arith, serves.tight a free exact, free, exact) in
        (
          a,
          popped_whole i a (taken_words (a + g.sizes a) w),
          taken a g,
          rw e (
              rw here at (
                Runs-take_head (Held g) w (listed g a) a (g.sizes a)
                  (free-Takeable g w heap a free))),
          rw here at (take-IsHeap g w heap a free first tight),
          take-Allocated a free exact,
          rw exact at (heap.tiling.footer a free),
        )
    | inr e ↦
        let big = heap.tiling.bounds a (heap.tiling.block a free) in
        let other : g.sizes a ≢ k = λ z. ground (arith, z, e) in
        let enough : k ≤ g.sizes a = ground (arith, here, free, big, m, fits, hk, from) in
        let n = g.sizes a - k in
        let sum : g.sizes a ≡ n + k = omega arith in
        let hn : 32 ≤ n = omega (arith, big, m, other, serves.no_remainder_16 a free) in
        let (b, w', g', run, after, part, last) = serve-split a n free first sum hn in
        (b, w', g', rw e run, after, part, last)
  ]

  -- The tests of `AllocBlock` on the head that was found hold.
  Runs-serve :
      (i a b : ℕ) (w' : Words)
      → g.free a ≡ true
      → list_of k ≤ i
      → listed g a ≡ i
      → Runs
          (Held g)
          (if g.sizes a == k then take_head i a (g.sizes a) else split_block a (g.sizes a) k)
          w
          b
          w'
      → Runs
          (Held g)
          (do
            head_size ← read_the_size_tag a
            tag ← read_the_free_tag a head_size
            assert (not (tag == 0))
            assert (leb k head_size)
            if head_size == k then take_head i a head_size else split_block a head_size k)
          w
          b
          w'
  Runs-serve i a b w' free from here run =
      let t = heap.tiling in
      let some = t.block a free in
      let big = t.bounds a some in
      let size : clear_mask (w.header a) ≡ g.sizes a = t.size a some in
      let tagged : not (mask (w.header (a + g.sizes a)) == 0) ≡ true =
        rw (t.tag a some, free) refl in
      let enough : leb k (g.sizes a) ≡ true = ground (arith, here, free, big, m, fits, hk, from) in
      Runs-bind (Held g) (read_the_size_tag a) _ w w _ _ _
        (Runs-size_tag (Held g) a w (block-IsBlockOffset g w t a some))
        (rw size (
          Runs-bind (Held g) (read_the_free_tag a (g.sizes a)) _ w w _ _ _
            (Runs-free_tag (Held g) a (g.sizes a) w (after-IsBlockOffset g w t a some))
            (Runs-then (Held g) (assert (not (mask (w.header (a + g.sizes a)) == 0))) _ w w _ _
              (Runs-assert (Held g) _ w tagged)
              (Runs-then (Held g) (assert (leb k (g.sizes a))) _ w w _ _
                (Runs-assert (Held g) _ w enough) run))))

  after_find :
      (i h : ℕ)
      → SearchEnd w (list_of k) i h
      → (a : ℕ) × (w' : Words) × Runs
          (Held g)
          (if h == 0 then pure 0 else (do
            head_size ← read_the_size_tag h
            tag ← read_the_free_tag h head_size
            assert (not (tag == 0))
            assert (leb k head_size)
            if head_size == k then take_head i h head_size else split_block h head_size k))
          w
          a
          w'
        × Allotted g w k a w'
  after_find i h (inl (e, none)) =
      let null : (h == 0) ≡ true = ground (arith, e) in
      (0, w, rw null (Runs-pure (Held g) 0 w), full (Empty-NoSpace none))
  after_find i h (inr f) =
      let (here, first) = head-free i h f in
      let free : g.free h ≡ true = listed-free g w heap h (λ z. omega (arith, f.list, here, z)) in
      let some : (h == 0) ≡ false = ground (arith, f.some) in
      let (a, w', g', run, after, part, last) = serve-head i h free here first f.from in
      (a, w', rw some (Runs-serve i h a w' free f.from here run), block g' after part last)

  pub Runs-alloc_block :
      (a : ℕ) × (w' : Words) × Runs (Held g) (alloc_block k) w a w' × Allotted g w k a w'
  unfolding alloc_block
  Runs-alloc_block =
      let list = list_of-IsListOffset k hk m in
      let (i, h, search, found) =
        Runs-find (Held g) w (num_free_lists + 1) (list_of k) 0 (omega (arith, list))
          (omega (arith, list)) (omega (arith, list)) (omega (arith, list))
          (inl (omega (arith, list))) in
      let (a, w', run, out) = after_find i h found in
      (
        a,
        w',
        Runs-bind (Held g) (free_list_by_block_size k) _ w w _ _ _
            (Runs-free_list (Held g) k w (omega arith))
            (Runs-bind (Held g) (find_free_list (num_free_lists + 1) (list_of k) 0) _ w w _ _ _
              search run),
        out,
      )
