-- ===== src/Allocator/Heap.antt =====
-- The heap of the allocator (src/allocator.cc): blocks that tile the space, and the free lists of its
-- free blocks.
pub mod Alloc
pub mod Allocated
pub mod Served
pub mod Find
pub mod Finish
pub mod Formatted
pub mod Fresh
pub mod Free
pub mod Loose
pub mod Merge
pub mod MergeNext
pub mod Freed
pub mod Cycle
pub mod Released
pub mod Stored
pub mod Links
pub mod Push
pub mod Split
pub mod Steps
pub mod Take
use nvds.Base.{
  ℕ, ◌+◌, ◌-◌, ◌*◌, ◌/◌, ◌%◌, ◌^◌, ◌≤◌, ◌<◌, ◌≡◌, ◌≢◌, ◌⊎◌, inl, inr, arith, refl, Bool, true,
  false, leb, if◌then◌else◌,
}
use nvds.Allocator.{size, max_block_size, last_free_list}
use nvds.Allocator.Words.{Words, IsListOffset, IsBlockOffset, IsFooterOffset, first_block, end}
use nvds.Allocator.Words.Runs.{Open}
use nvds.Allocator.Lists.{IsLists}
use nvds.Allocator.Tiling.{Blocks, IsTiling}

-- The list of the free blocks of a size, and the list of a block, 0 for a block in use
abbrev pub list_of : ℕ → ℕ
list_of n = if leb n max_block_size then (n / 16 - 1) * 4 else last_free_list

abbrev pub listed : Blocks → ℕ → ℕ
listed g a = if g.free a then list_of (g.sizes a) else 0

pub record IsHeap (g : Blocks) (w : Words) : Type 0 where
  pub tiling : IsTiling g w
  pub lists : IsLists (listed g) w

-- The byte `x` is in a block in use, past its header.
pub record Used (g : Blocks) (x : ℕ) : Type 0 where
  pub block : ℕ
  pub some : 0 < g.sizes block
  pub used : g.free block ≡ false
  pub above : block + 4 ≤ x
  pub below : x < block + g.sizes block

-- What the allocator leaves as it is: such bytes, and those past its 64 MB
abbrev pub Held : Blocks → ℕ → Type 0
Held g x = Used g x ⊎ (size ≤ x)

pub list_of-IsListOffset : (n : ℕ) → 32 ≤ n → n % 16 ≡ 0 → IsListOffset (list_of n)
list_of-IsListOffset n h m = ground arith

module _ (g : Blocks) (w : Words) (t : IsTiling g w) where
  pub block-IsBlockOffset : (a : ℕ) → 0 < g.sizes a → IsBlockOffset a
  block-IsBlockOffset a h = ground (arith, t.bounds a h)

  pub after-IsBlockOffset : (a : ℕ) → 0 < g.sizes a → IsBlockOffset (a + g.sizes a)
  after-IsBlockOffset a h = ground (arith, t.bounds a h)

  pub footer-IsFooterOffset :
      (a n : ℕ) → 0 < g.sizes a → 16 ≤ n → n ≤ g.sizes a → n % 16 ≡ 0 → IsFooterOffset (a + n - 4)
  footer-IsFooterOffset a n h k l m = ground (arith, t.bounds a h)

  pub list-IsListOffset : (a : ℕ) → g.free a ≡ true → IsListOffset (listed g a)
  list-IsListOffset a f =
      let at_a = t.bounds a (t.block a f) in
      rw f (list_of-IsListOffset (g.sizes a) (omega (arith, at_a)) (omega (arith, at_a)))

  pub Open-list : (i : ℕ) → IsListOffset i → Open (Held g) i
  Open-list i h x (inl u) = ground (arith, t.bounds u.block u.some, u.above, h)
  Open-list i h x (inr past) = inl (omega (arith, h, past))

  pub Open-header : (a : ℕ) → 0 < g.sizes a → Open (Held g) a
  Open-header a h x (inl u) = ground (
    arith,
    t.apart a u.block h u.some,
    t.apart u.block a u.some h,
    t.bounds a h,
    u.above,
    u.below,
  )
  Open-header a h x (inr past) = inl (omega (arith, t.bounds a h, past))

  pub Open-after : (a : ℕ) → 0 < g.sizes a → Open (Held g) (a + g.sizes a)
  Open-after a h x (inl u) = ground (
    arith,
    t.next a h,
    t.apart a u.block h u.some,
    t.apart u.block a u.some h,
    t.apart (a + g.sizes a) u.block,
    t.apart u.block (a + g.sizes a) u.some,
    t.bounds u.block u.some,
    t.bounds (a + g.sizes a),
    t.bounds a h,
    u.some,
    u.above,
    u.below,
  )
  Open-after a h x (inr past) = inl (omega (arith, t.bounds a h, past))

  pub Open-inside : (a c : ℕ) → g.free a ≡ true → a ≤ c → c + 4 ≤ a + g.sizes a → Open (Held g) c
  Open-inside a c f l k x (inl u) =
      let h = t.block a f in
      ground (
        arith,
        t.apart a u.block h u.some,
        t.apart u.block a u.some h,
        u.some,
        u.used,
        u.above,
        u.below,
        f,
        l,
        k,
      )
  Open-inside a c f l k x (inr past) = inl (omega (arith, t.bounds a (t.block a f), k, past))
