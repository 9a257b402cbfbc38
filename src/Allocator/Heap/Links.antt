-- ===== src/Allocator/Heap/Links.antt =====
-- Free blocks of a heap: what their places in the free lists say of them.
use nvds.Base.{ℕ, ◌+◌, ◌≡◌, ◌≢◌, ◌⊎◌, inl, inr, arith, true}
use nvds.Allocator.Words.{Words, IsBlockOffset}
use nvds.Allocator.Words.Runs.{Open}
use nvds.Allocator.Tiling.{Blocks}
use nvds.Allocator.Heap.{IsHeap, Held, listed, list-IsListOffset, block-IsBlockOffset, Open-inside}

module _ (g : Blocks) (w : Words) (heap : IsHeap g w) where
  pub listed-free : (a : ℕ) → listed g a ≢ 0 → g.free a ≡ true
  listed-free a h = ground (arith, h)

  pub free-listed : (a : ℕ) → g.free a ≡ true → listed g a ≢ 0
  free-listed a f e = let list = list-IsListOffset g w heap.tiling a f in omega (arith, list, e)

  -- A block that is in a list, and the words `prev` and `next` of it
  pub linked-Open :
      (b : ℕ) → listed g b ≢ 0 → IsBlockOffset b × Open (Held g) (b + 4) × Open (Held g) (b + 8)
  linked-Open b h =
      let f = listed-free b h in
      let some = heap.tiling.block b f in
      let big = heap.tiling.bounds b some in
      (
        block-IsBlockOffset g w heap.tiling b some,
        Open-inside g w heap.tiling b (b + 4) f (omega arith) (omega (arith, big)),
        Open-inside g w heap.tiling b (b + 8) f (omega arith) (omega (arith, big)),
      )

  pub next-linked :
      (a : ℕ)
      → g.free a ≡ true
      → (w.next a ≡ 0) ⊎ (IsBlockOffset (w.next a) × Open (Held g) (w.next a + 4))
  next-linked a f =
      let here = free-listed a f in
      elim (heap.lists.nexts a here) [
        | inl e ↦ inl e
        | inr k ↦
            let o = linked-Open (w.next a) (λ z. here (let same = k.0 in cc)) in inr (o.0, o.1)
      ]
