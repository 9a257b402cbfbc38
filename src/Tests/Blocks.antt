-- ===== src/Tests/Blocks.antt =====
-- A fresh heap, and one with a block in use before the free one.
use nvds.Base.{ℕ, ◌+◌, ◌-◌, ◌^◌, ◌≡◌, ◌⊎◌, refl, arith, ◌==◌, update, [], ◌∷◌}
use nvds.Nvm.{Memory, get32}
use nvds.Command.{Allocator, ok, store}
use nvds.Allocator.{alloc, free, format, size}
use nvds.Allocator.Words.{
  Words, Shows, Shows-head, Shows-header, Shows-footer, IsBlockOffset, IsFooterOffset, first_block,
  end,
}
use nvds.Allocator.Tiling.{Blocks}
use nvds.Allocator.Heap.{Held}
use nvds.Allocator.Heap.Allocated.{NoSpace}
use nvds.Allocator.Heap.Served.{HasHeap, CanServe, Returned, alloc-Returned}
use nvds.Allocator.Heap.Formatted.{whole, one_block, zeros, format-HasHeap}
use nvds.Allocator.Heap.Freed.{Freed}
use nvds.Allocator.Heap.Cycle.{Back, alloc-store-free}

abbrev state : Memory → Allocator
state m = record { base = 0; cnt_writes = 0; modifications = []; memory = m }

abbrev sevens : Allocator
sevens = state (λ x. 7)

format-HasHeap_example :
    (s' : Allocator) × (format sevens ≡ ok tt s')
    × HasHeap one_block s'.memory
    × ((x : ℕ) → s'.memory (size + x) ≡ 7)
format-HasHeap_example = format-HasHeap sevens

abbrev fresh : Allocator
fresh = (format-HasHeap sevens).0

fresh-HasHeap : HasHeap one_block fresh.memory
fresh-HasHeap = (format-HasHeap sevens).2

fresh-CanServe : CanServe one_block fresh.memory 32
fresh-CanServe = record {
  no_remainder_16 = λ b f e. ground (arith, f, e);
  tight = λ b f e. ground (arith, f, e);
}

alloc-Returned_example :
    (p : ℕ) × (s' : Allocator) × (alloc 20 fresh ≡ ok p s')
    × ((x : ℕ) → Held one_block x → s'.memory x ≡ fresh.memory x)
    × Returned one_block 32 s'.memory p
alloc-Returned_example =
    alloc-Returned one_block fresh 20 fresh-HasHeap (omega arith) (omega arith) fresh-CanServe

alloc-store-free_example :
    (p : ℕ) × (s' : Allocator) × (alloc 20 fresh ≡ ok p s')
    × (((p ≡ 0) × NoSpace one_block 32) ⊎ Back one_block fresh p (store (p + 4) (1 ∷ 2 ∷ []) s'))
alloc-store-free_example =
    alloc-store-free one_block fresh 20 4 (1 ∷ 2 ∷ []) fresh-HasHeap (omega arith) (omega arith)
      fresh-CanServe (omega arith)

-- A block in use of 32 bytes, and the rest free
abbrev second : ℕ
second = 324

abbrev two_blocks : Blocks
two_blocks = record {
  sizes = update (update (λ a. 0) first_block 32) second (whole - 32);
  free = λ a. a == second;
}

abbrev words : Words
words = record zeros {
  head = update (λ i. 0) 288 second;
  header = update (update (update (λ a. 0) first_block 32) second (whole - 32)) end (2 ^ 31);
  footer = update (update (λ c. 0) 320 32) (end - 4) (whole - 32);
}

zero : Shows (λ x. 0) zeros
unfolding get32
zero = record {
  head = λ i h. refl;
  prev = λ b h. refl;
  next = λ b h. refl;
  header = λ b h. refl;
  footer = λ c h. refl;
}

-- A memory that has the words
built : (m : Memory) × Shows m words
built =
    let block : IsBlockOffset first_block = (omega arith, omega arith, refl) in
    let rest : IsBlockOffset second = (omega arith, omega arith, refl) in
    let last : IsBlockOffset end = (omega arith, omega arith, refl) in
    let foot : IsFooterOffset 320 = (omega arith, omega arith, refl) in
    let foot₁ : IsFooterOffset (end - 4) = (omega arith, omega arith, refl) in
    let s₁ = Shows-head _ _ zero second (omega arith) 288 (omega arith, omega arith, refl) in
    let s₂ = Shows-header _ _ s₁ 32 (omega arith) first_block block in
    let s₃ = Shows-header _ _ s₂ (whole - 32) (omega arith) second rest in
    let s₄ = Shows-header _ _ s₃ (2 ^ 31) (omega arith) end last in
    let s₅ = Shows-footer _ _ s₄ 32 (omega arith) 320 foot in
    (_, Shows-footer _ _ s₅ (whole - 32) (omega arith) (end - 4) foot₁)

abbrev used : Allocator
used = state built.0
