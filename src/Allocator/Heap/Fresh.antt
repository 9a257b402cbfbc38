-- ===== src/Allocator/Heap/Fresh.antt =====
-- A block that `Alloc` (src/allocator.h) hands out is none of those that were in use.
use nvds.Base.{ℕ, ◌+◌, ◌≤◌, ◌<◌, ◌≡◌, ◌≢◌, inl, inr, arith, false}
use nvds.Nvm.{Memory}
use nvds.Nvm.Words.{Apart}
use nvds.Allocator.Tiling.{Blocks}
use nvds.Allocator.Heap.{Held}
use nvds.Allocator.Heap.Allocated.{Allocated}
use nvds.Allocator.Heap.Served.{HasHeap}

-- A block that was handed out begins at no block that was in use.
pub new_block :
    (g g' : Blocks) (m : Memory) (n a : ℕ)
    → HasHeap g m
    → 32 ≤ n
    → Allocated g n a g'
    → (b : ℕ) → 0 < g.sizes b
    → g.free b ≡ false
    → b ≢ a
new_block g g' m n a h big part b some used e =
    let t = h.heap.tiling in
    let c = part.from in
    let here = t.block c part.was_free in
    ground (
      arith,
      e,
      some,
      used,
      big,
      part.above,
      part.below,
      part.was_free,
      t.apart c b here some,
      t.apart b c some here,
    )

-- Bytes inside it, past its header, are apart from what is held.
pub new-Apart :
    (g g' : Blocks) (m m' : Memory) (n a c l : ℕ)
    → HasHeap g m
    → HasHeap g' m'
    → 32 ≤ n
    → Allocated g n a g'
    → a + 4 ≤ c
    → c + l ≤ a + n
    → (x : ℕ) → Held g x
    → Apart c l x 1
new-Apart g g' m m' n a c l h h' big part above below x (inr past) =
    let t = h'.heap.tiling in
    inl (omega (arith, below, part.size, t.bounds a (omega (arith, part.size, big)), past))
new-Apart g g' m m' n a c l h h' big part above below x (inl u) =
    let b = u.block in
    let t = h'.heap.tiling in
    let same = part.others b u.some u.used in
    let here : 0 < g'.sizes a = omega (arith, part.size, big) in
    let some : 0 < g'.sizes b = omega (arith, u.some, same.0) in
    let other = new_block g g' m n a h big part b u.some u.used in
    ground (
      arith,
      t.apart a b here some,
      t.apart b a some here,
      other,
      same.0,
      part.size,
      u.above,
      u.below,
      above,
      below,
    )
