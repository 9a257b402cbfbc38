-- ===== src/Allocator/Heap/Served.antt =====
-- A tablet's memory that holds a heap, and `Alloc` of src/allocator.h on it.
use nvds.Base.{
  ℕ, ◌+◌, ◌-◌, ◌*◌, ◌/◌, ◌%◌, ◌≤◌, ◌<◌, ◌≡◌, ◌≢◌, ◌⊎◌, arith, refl, ◌∙◌, true, false, leb, ◌==◌,
  if◌then◌else◌, add32,
}
use nvds.Nvm.{Memory, get32}
use nvds.Command.{Allocator, ok, assert}
use nvds.Allocator.{max_block_size, alloc_block, alloc, roundup_block_size}
use nvds.Allocator.Words.{Words, Shows}
use nvds.Allocator.Words.Runs.{Runs, Runs-bind, Runs-then, Runs-pure, Runs-assert}
use nvds.Allocator.Tiling.{Blocks}
use nvds.Allocator.Heap.{IsHeap, Held, block-IsBlockOffset, footer-IsFooterOffset}
use nvds.Allocator.Heap.Allocated.{
  NoSpace, Allocated, Serves, Allotted, full, block, Runs-alloc_block,
}

pub record HasHeap (g : Blocks) (m : Memory) : Type 0 where
  pub words : Words
  pub shows : Shows m words
  pub heap : IsHeap g words

-- The size of the block for an object of `size` bytes
abbrev pub rounded : ℕ → ℕ
rounded size = (size + 4 + 16 - 1) / 16 * 16

-- No free block has 16 bytes more than `n`. If one has exactly `n`, it has a successor in its list,
-- or the list of 32-byte blocks is empty or its own.
pub record CanServe (g : Blocks) (m : Memory) (n : ℕ) : Type 0 where
  pub no_remainder_16 : (b : ℕ) → g.free b ≡ true → g.sizes b ≢ n + 16
  pub tight :
      (b : ℕ)
      → g.free b ≡ true
      → g.sizes b ≡ n
      → (get32 m (b + 8) ≢ 0) ⊎ ((get32 m 4 ≡ 0) ⊎ (n ≡ 32))

CanServe-Serves :
    (g : Blocks) (m : Memory) (n : ℕ) (h : HasHeap g m) → CanServe g m n → Serves g h.words n
CanServe-Serves g m n h c = record {
  no_remainder_16 = c.no_remainder_16;
  tight = λ b f e.
      let some = h.heap.tiling.block b f in
      let next = h.shows.next b (block-IsBlockOffset g h.words h.heap.tiling b some) in
      let list = h.shows.head 4 (omega arith, omega arith, refl) in
      ground (arith, c.tight b f e, next, list);
}

-- What `Alloc` of an object for which a block of `n` bytes is needed returns: null, where there is
-- no space, and the same heap, or the offset past the header of a block that was
-- handed out
pub data Returned (g : Blocks) (n : ℕ) (m : Memory) : ℕ → Type 0 where
  null : NoSpace g n → HasHeap g m → Returned g n m 0
  pointer :
      (a : ℕ) (g' : Blocks)
      → HasHeap g' m
      → Allocated g n a g'
      → get32 m (a + n - 4) ≡ n
      → Returned g n m (a + 4)

Runs-alloc :
    (Kept : ℕ → Type 0) (w w' : Words) (size a : ℕ)
    → size + 4 ≤ max_block_size
    → Runs Kept (alloc_block (rounded size)) w a w'
    → Runs Kept (alloc size) w (if a == 0 then 0 else add32 a 4) w'
unfolding alloc roundup_block_size
Runs-alloc Kept w w' size a fits run =
    let sum : add32 size 4 ≡ size + 4 = omega arith in
    let small : leb (size + 4) max_block_size ≡ true = ground arith in
    let aligned : ((size + 4 + 16 - 1) / 16 * 16 % 16 == 0) ≡ true = ground arith in
    let fits' : leb ((size + 4 + 16 - 1) / 16 * 16) max_block_size ≡ true = ground arith in
    rw (alloc, sum)
      (Runs-bind Kept (roundup_block_size (size + 4)) _ w w w' (rounded size) _
        (rw small (Runs-pure Kept (rounded size) w))
        (Runs-then Kept (assert (rounded size % 16 == 0)) _ w w w' _ (Runs-assert Kept _ w aligned)
          (Runs-then Kept (assert (leb (rounded size) max_block_size)) _ w w w' _
            (Runs-assert Kept _ w fits')
            (Runs-bind Kept (alloc_block (rounded size)) _ w w' w' a _ run (Runs-pure Kept _ w')))))

-- A run at the memory that it starts with
run_at :
    {w w' : Words} {p : ℕ}
    → (g : Blocks) (size : ℕ) (s : Allocator) → Shows s.memory w
    → Runs (Held g) (alloc size) w p w'
    → (s' : Allocator) × (alloc size s ≡ ok p s')
      × Shows s'.memory w'
      × ((x : ℕ) → Held g x → s'.memory x ≡ s.memory x)
run_at g size s shows run = run s shows

finish :
    (g : Blocks) (n a : ℕ) (w w' : Words) (m : Memory)
    → IsHeap g w
    → Shows m w'
    → 32 ≤ n
    → n % 16 ≡ 0
    → Allotted g w n a w'
    → Returned g n m (if a == 0 then 0 else add32 a 4)
finish g n a w w' m heap shows big_n m_n (full none) =
    null none (record { words = w; shows = shows; heap = heap })
finish g n a w w' m heap shows big_n m_n (block g' heap' part last) =
    let big = heap.tiling.bounds part.from (heap.tiling.block part.from part.was_free) in
    let some : (a == 0) ≡ false = ground (arith, big, part.above) in
    let at_ptr : add32 a 4 ≡ a + 4 = omega (arith, big, part.below) in
    let here : 0 < g'.sizes a = omega (arith, part.size) in
    let foot =
      footer-IsFooterOffset g' w' heap'.tiling a n here (omega arith) (omega (arith, part.size))
        m_n in
    rw (some, at_ptr)
      (pointer a g' (record { words = w'; shows = shows; heap = heap' }) part
        (shows.footer (a + n - 4) foot ∙ last))

-- Let the memory hold a heap, and let an object of 13 bytes or more, with its 4 bytes of header at
-- most the largest block size, need a block of `n` bytes, `n` being the least multiple of 16. If no
-- free block has 16 bytes more than that, and each of exactly that size has a successor in its free
-- list (or the list of 32-byte blocks is empty or its own), then `Alloc` fails no assertion and
-- returns. It returns null, only if every free block has less than `n` bytes, and the memory holds the same heap, or it returns the offset past the
-- header of a block of `n` bytes that is in use in the new heap, was part of one free block, and has
-- its size in its last word; all other blocks in use stay so with their sizes, and no others are
-- in use. Every byte of the blocks that were in use, past their headers, and past the 64 MB is
-- unchanged.
pub alloc-Returned :
    (g : Blocks) (s : Allocator) (size : ℕ)
    → HasHeap g s.memory
    → 13 ≤ size
    → size + 4 ≤ max_block_size
    → CanServe g s.memory (rounded size)
    → (p : ℕ) × (s' : Allocator) × (alloc size s ≡ ok p s')
      × ((x : ℕ) → Held g x → s'.memory x ≡ s.memory x)
      × Returned g (rounded size) s'.memory p
alloc-Returned g s size h big fits can =
    let w = h.words in
    let (a, w', run, out) =
      Runs-alloc_block g w h.heap (rounded size) (omega arith) (omega arith) (omega arith)
        (CanServe-Serves g s.memory (rounded size) h can) in
    let (s', ran, shows, kept) =
      run_at g size s h.shows (Runs-alloc (Held g) w w' size a fits run) in
    (
      _,
      s',
      ran,
      kept,
      finish g (rounded size) a w w' s'.memory h.heap shows (omega arith) (omega arith) out,
    )
