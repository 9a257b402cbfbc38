-- ===== src/Allocator/Heap/Cycle.antt =====
-- An object's memory from `Alloc` to `Free` (src/allocator.h).
use nvds.Base.{ℕ, ◌+◌, ◌-◌, ◌≤◌, ◌<◌, ◌≡◌, ◌⊎◌, inl, inr, arith, refl, ◌∙◌, false, List, length}
use nvds.Nvm.{Memory, get32, poke}
use nvds.Nvm.Words.{get32-poke-Apart, poke_outside}
use nvds.Command.{Allocator, ok, store}
use nvds.Allocator.{max_block_size, alloc, free}
use nvds.Allocator.Tiling.{Blocks}
use nvds.Allocator.Heap.{Held}
use nvds.Allocator.Heap.Allocated.{NoSpace, Allocated}
use nvds.Allocator.Heap.Fresh.{new_block, new-Apart}
use nvds.Allocator.Heap.Served.{HasHeap, CanServe, Returned, null, pointer, rounded, alloc-Returned}
use nvds.Allocator.Heap.Freed.{Freed}
use nvds.Allocator.Heap.Released.{free-Freed}
use nvds.Allocator.Heap.Stored.{stored-HasHeap}

-- The blocks in use are the same, with their sizes.
pub record SameUse (g g' : Blocks) : Type 0 where
  pub kept :
      (b : ℕ) → 0 < g.sizes b → g.free b ≡ false → (g'.sizes b ≡ g.sizes b) × (g'.free b ≡ false)
  pub no_more :
      (b : ℕ) → 0 < g'.sizes b → g'.free b ≡ false → (g.free b ≡ false) × (g.sizes b ≡ g'.sizes b)

same-Held : (g g' : Blocks) → SameUse g g' → (x : ℕ) → Held g x → Held g' x
same-Held g g' same x (inr past) = inr past
same-Held g g' same x (inl u) =
    let k = same.kept u.block u.some u.used in
    inl (record {
      block = u.block;
      some = omega (arith, u.some, k.0);
      used = k.1;
      above = u.above;
      below = omega (arith, u.below, k.0);
    })

back-SameUse :
    (g g' g'' : Blocks) (m : Memory) (n a : ℕ)
    → HasHeap g m
    → 32 ≤ n
    → Allocated g n a g'
    → Freed g' a g''
    → SameUse g g''
back-SameUse g g' g'' m n a h big part freed = record {
  kept = λ b some used.
      let same = part.others b some used in
      let other = new_block g g' m n a h big part b some used in
      let same' = freed.others b (omega (arith, some, same.0)) same.1 other in
      (same'.0 ∙ same.0, same'.1);
  no_more = λ b some used.
      let same = freed.no_more b some used in
      let same' = part.no_more b (omega (arith, some, same.2)) same.1 same.0 in
      (same'.0, same'.1 ∙ same.2);
}

-- Freed again: the heap after, with the same blocks in use and the same bytes in them
pub record Back (g : Blocks) (s : Allocator) (p : ℕ) (t : Allocator) : Type 0 where
  pub blocks : Blocks
  pub after : Allocator
  pub frees : free p t ≡ ok tt after
  pub heap : HasHeap blocks after.memory
  pub same : SameUse g blocks
  pub kept : (x : ℕ) → Held g x → after.memory x ≡ s.memory x

module _ (g : Blocks) (s : Allocator) (h : HasHeap g s.memory) (n a c : ℕ) (bs : List ℕ)
    (g' : Blocks) (s' : Allocator) (h' : HasHeap g' s'.memory) (big : 32 ≤ n)
    (part : Allocated g n a g') (last : get32 s'.memory (a + n - 4) ≡ n)
    (kept : (x : ℕ) → Held g x → s'.memory x ≡ s.memory x) (above : a + 4 ≤ c)
    (below : c + length bs + 4 ≤ a + n) where
  here : 0 < g'.sizes a
  here = omega (arith, part.size, big)

  below_size : c + length bs ≤ a + g'.sizes a
  below_size = omega (arith, part.size, below)

  still-last : get32 (poke s'.memory c bs) (a + g'.sizes a - 4) ≡ g'.sizes a
  still-last =
      rw part.size (get32-poke-Apart s'.memory c bs (a + n - 4) (inl (omega (arith, below))) ∙ last)

  others-stored : (x : ℕ) → Held g x → poke s'.memory c bs x ≡ s'.memory x
  others-stored x u = poke_outside s'.memory c bs x (
      new-Apart g g' s.memory s'.memory n a c (length bs) h h' big part above (omega (arith, below))
        x u)

  stored-Back : Back g s (a + 4) (store c bs s')
  stored-Back =
      let stored = stored-HasHeap g' s'.memory h' a c bs here part.used above below_size in
      let (g'', s'', frees, heap, freed, unchanged) =
        free-Freed g' (store c bs s') a stored here part.used still-last in
      let same = back-SameUse g g' g'' s.memory n a h big part freed in
      record {
        blocks = g'';
        after = s'';
        frees = frees;
        heap = heap;
        same = same;
        kept = λ x u. unchanged x (same-Held g g'' same x u) ∙ (others-stored x u ∙ kept x u);
      }

served-Back :
    (g : Blocks) (s : Allocator) (n k : ℕ) (bs : List ℕ) (p : ℕ) (s' : Allocator)
    → HasHeap g s.memory
    → 32 ≤ n
    → k + length bs + 8 ≤ n
    → ((x : ℕ) → Held g x → s'.memory x ≡ s.memory x)
    → Returned g n s'.memory p
    → ((p ≡ 0) × NoSpace g n) ⊎ Back g s p (store (p + k) bs s')
served-Back g s n k bs p s' h big fits kept (null none h') = inl (refl, none)
served-Back g s n k bs p s' h big fits kept (pointer a g' h' part last) = inr (
    stored-Back g s h n a (a + 4 + k) bs g' s' h' big part last kept (omega arith)
      (omega (arith, fits)))

-- Let the memory hold a heap, and let `Alloc` be able to serve an object of `size` bytes, 13 or more:
-- no free block has 16 bytes more than it needs, and taking a whole block does no harm. Then `Alloc`
-- returns. It returns null only if every free block is smaller than it needs, and else bytes may be stored in the block that was handed out, from
-- the offset `k` on and up to its last word, and `Free` of it then returns too: the memory holds a
-- heap with the same blocks in use as before `Alloc`, and every byte of them past their headers
-- is as it was, as is every byte past the 64 MB.
pub alloc-store-free :
    (g : Blocks) (s : Allocator) (size k : ℕ) (bs : List ℕ)
    → HasHeap g s.memory
    → 13 ≤ size
    → size + 4 ≤ max_block_size
    → CanServe g s.memory (rounded size)
    → k + length bs + 8 ≤ rounded size
    → (p : ℕ) × (s' : Allocator) × (alloc size s ≡ ok p s')
      × (((p ≡ 0) × NoSpace g (rounded size)) ⊎ Back g s p (store (p + k) bs s'))
alloc-store-free g s size k bs h low high can fits =
    let (p, s', ran, kept, returned) = alloc-Returned g s size h low high can in
    (p, s', ran, served-Back g s (rounded size) k bs p s' h (omega arith) fits kept returned)
