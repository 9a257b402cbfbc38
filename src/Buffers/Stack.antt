-- ===== src/Buffers/Stack.antt =====
-- The buffer pool is a stack of distinct buffers.
use nvds.Base.{
  ℕ, zero, suc, ◌+◌, ◌<◌, ◌≡◌, ◌≢◌, refl, arith, ◌==◌, if◌then◌else◌, List, [], ◌∷◌, ◌∙◌, true,
  false,
}
use nvds.Buffers.{Ptr, Next, set_next, Pool, alloc, free, link_from}
use nvds.Buffers.Fifo.{NotIn, first, others}

-- From `root` the links lead through the distinct buffers `bs` to the null pointer.
abbrev pub Stacked : Next → Ptr → List Ptr → Type 0
Stacked next root [] = root ≡ 0
Stacked next root (b ∷ bs) = (root ≡ b) × (b ≢ 0) × NotIn b bs × Stacked next (next b) bs

abbrev pub Free : Pool → List Ptr → Type 0
Free pool bs = Stacked pool.next pool.root bs

Stacked-set_next :
    (next : Next) (x p root : Ptr) (bs : List Ptr)
    → NotIn x bs
    → Stacked next root bs
    → Stacked (set_next next x p) root bs
Stacked-set_next next x p root [] n s = s
Stacked-set_next next x p root (b ∷ bs) n s =
    let kept : set_next next x p b ≡ next b = ground arith in
    (s.0, s.1, s.2, rw kept (Stacked-set_next next x p (next b) bs n.1 s.3))

-- The pool hands out the buffer that was freed last and keeps the others; an empty pool hands out
-- the null pointer.
pub alloc-Free :
    (pool : Pool) (bs : List Ptr)
    → Free pool bs
    → ((alloc pool).0 ≡ first bs) × Free (alloc pool).1 (others bs)
unfolding alloc
alloc-Free pool [] s = let none_left : (pool.root == 0) ≡ true = ground arith in rw none_left (s, s)
alloc-Free pool (b ∷ bs) s =
    let some_left : (pool.root == 0) ≡ false = ground (arith, s.1) in rw some_left (s.0, rw s.0 s.3)

-- A buffer that is not in the pool becomes its first.
pub free-Free :
    (pool : Pool) (bs : List Ptr) (b : Ptr)
    → Free pool bs
    → b ≢ 0
    → NotIn b bs
    → Free (free b pool) (b ∷ bs)
unfolding free
free-Free pool bs b s nz n =
    let top : set_next pool.next b pool.root b ≡ pool.root = ground arith in
    (refl, nz, n, rw top (Stacked-set_next pool.next b pool.root pool.root bs n s))

-- The addresses of `n` buffers of `size` bytes from `start` on
unfoldable pub addresses : ℕ → Ptr → ℕ → List Ptr
addresses zero start size = []
addresses (suc n) start size = start ∷ addresses n (start + size) size

NotIn-addresses : (n : ℕ) (w start size : ℕ) → w < start → NotIn w (addresses n start size)
unfolding addresses
NotIn-addresses zero w start size h = tt
NotIn-addresses (suc n) w start size h =
    (omega arith, NotIn-addresses n w (start + size) size (omega arith))

link_from-below :
    (n start size : ℕ) (next : Next) (w : Ptr) → w < start → link_from n start size next w ≡ next w
unfolding link_from
link_from-below zero start size next w h = refl
link_from-below (suc n) start size next w h =
    let after : Ptr = if n == 0 then 0 else start + size in
    link_from-below n (start + size) size (set_next next start after) w (omega arith)
    ∙ (ground arith)

link_from-Stacked :
    (n start size : ℕ) (next : Next)
    → 0 < start
    → 0 < size
    → Stacked (link_from (suc n) start size next) start (addresses (suc n) start size)
unfolding link_from addresses
link_from-Stacked zero start size next h k = (refl, omega arith, tt, ground arith)
link_from-Stacked (suc n) start size next h k =
    let after : Ptr = if suc n == 0 then 0 else start + size in
    let linked = set_next next start after in
    let at_first : link_from (suc n) (start + size) size linked start ≡ start + size =
      link_from-below (suc n) (start + size) size linked start (omega arith) ∙ (ground arith) in
    (
      refl,
      omega arith,
      NotIn-addresses (suc n) start (start + size) size (omega arith),
      rw at_first (link_from-Stacked n (start + size) size linked (omega arith) k),
    )

-- The constructor's pool holds its buffers, all distinct, the first of them on top.
pub pool-Free :
    (n start size : ℕ) (next : Next)
    → 0 < start
    → 0 < size
    → Free
        (record { root = start; next = link_from (suc n) start size next })
        (addresses (suc n) start size)
pool-Free n start size next h k = link_from-Stacked n start size next h k
