-- ===== src/Allocator/Footer.antt =====
-- Freeing a block that merges with neither neighbour.
use nvds.Base.{
  ℕ, ◌+◌, ◌-◌, ◌*◌, ◌/◌, ◌^◌, ◌≤◌, ◌<◌, ◌≡◌, arith, ◌==◌, if◌then◌else◌, true, Bool-cases, inl, inr,
  add32, sub32, ◌∙◌, ◌⊎◌,
}
use nvds.Nvm.{Memory, get32, bytes32, poke}
use nvds.Nvm.Words.{Apart, get32-poke-Apart, get32-poke_self}
use nvds.Command.{Allocator, ok, pure, ◌>>=◌, ◌>>◌, assert, read32-ok}
use nvds.Allocator.{
  max_block_size, num_free_lists, clear_mask, set_mask, mask, free_list_by_block_size,
  set_the_free_tag, read_the_size_tag, link_back, read_the_free_tag, read_the_prev_free_tag,
  merge_prev, merge_next, update_size, push_free, free_block,
}
use nvds.Allocator.Faults.{wrote, write32-ok}

read_the_size_tag-ok :
    (blk : ℕ) (s : Allocator)
    → 0 < blk
    → read_the_size_tag blk s ≡ ok (clear_mask (get32 s.memory blk)) s
unfolding read_the_size_tag ◌>>=◌ pure
read_the_size_tag-ok blk s pos = rw (read32-ok blk s pos)

read_the_prev_free_tag-ok :
    (blk : ℕ) (s : Allocator)
    → 0 < blk
    → read_the_prev_free_tag blk s ≡ ok (mask (get32 s.memory blk)) s
unfolding read_the_prev_free_tag ◌>>=◌ pure
read_the_prev_free_tag-ok blk s pos = rw (read32-ok blk s pos)

read_the_free_tag-ok :
    (blk n : ℕ) (s : Allocator)
    → 0 < blk
    → blk + n < 2 ^ 32
    → read_the_free_tag blk n s ≡ ok (mask (get32 s.memory (blk + n))) s
unfolding read_the_free_tag ◌>>=◌ pure
read_the_free_tag-ok blk n s pos fits =
    let at_next : add32 blk n ≡ blk + n = omega arith in
    rw (at_next, read32-ok (blk + n) s (omega arith))

-- A block of `n` bytes in use, with a neighbour on each side that is in use.
pub record InUse (m : Memory) (blk n : ℕ) : Type 0 where
  pub above_lists : 4 * num_free_lists ≤ blk
  pub below_end : blk + n + 2 ^ 31 < 2 ^ 32
  pub size_class : (16 ≤ n) × (n ≤ max_block_size)
  pub header : get32 m blk ≡ n
  pub next_in_use : get32 m (blk + n + clear_mask (get32 m (blk + n))) < 2 ^ 31

free_block-unmerged :
    (blk n : ℕ) (s : Allocator) → InUse s.memory blk n → free_block blk s ≡ push_free blk n s
unfolding free_block merge_prev merge_next update_size ◌>>=◌ ◌>>◌ pure
free_block-unmerged blk n s u =
    let at_footer : sub32 blk 4 ≡ blk - 4 = omega (arith, u.below_end, u.above_lists) in
    let at_next : add32 blk n ≡ blk + n = omega (arith, u.below_end) in
    let size_of : clear_mask n ≡ n = omega (arith, u.below_end) in
    let no_tag : mask n ≡ 0 = ground (arith, u.below_end) in
    let next_size : ℕ = clear_mask (get32 s.memory (blk + n)) in
    let no_next : mask (get32 s.memory (blk + n + next_size)) ≡ 0 = ground (arith, u.next_in_use) in
    let same : (n == n) ≡ true = ground arith in
    rw (
      read_the_size_tag-ok blk s (omega (arith, u.above_lists)),
      u.header,
      size_of,
      at_footer,
      at_next,
      read32-ok (blk - 4) s (omega (arith, u.above_lists)),
      read_the_size_tag-ok (blk + n) s (omega (arith, u.above_lists)),
      read_the_prev_free_tag-ok blk s (omega (arith, u.above_lists)),
      u.header,
      no_tag,
      read_the_free_tag-ok (blk + n) next_size s (omega (arith, u.above_lists))
          (omega (arith, u.below_end)),
      no_next,
      same,
    )

set_the_free_tag-ok :
    (blk n : ℕ) (s : Allocator)
    → 0 < blk
    → blk + n < 2 ^ 32
    → set_the_free_tag blk n s ≡ ok tt (wrote (blk + n) (set_mask (get32 s.memory (blk + n))) s)
unfolding set_the_free_tag ◌>>=◌
set_the_free_tag-ok blk n s pos fits =
    let at_next : add32 blk n ≡ blk + n = omega arith in
    rw (at_next, read32-ok (blk + n) s (omega arith), write32-ok (blk + n) _ s (omega arith))

free_list_by_block_size-ok :
    (n : ℕ) (s : Allocator)
    → 16 ≤ n
    → n ≤ max_block_size
    → free_list_by_block_size n s ≡ ok ((n / 16 - 1) * 4) s
unfolding free_list_by_block_size assert pure ◌>>◌
free_list_by_block_size-ok n s lo hi = ground arith

-- The state of `push_free` before the old head is linked back, given that head
abbrev pub pushed : ℕ → ℕ → ℕ → ℕ → Allocator → Allocator
pushed blk n free_list head s = wrote (blk + 8) head (
    wrote (blk + 4) 0
      (wrote free_list blk (wrote (blk + n) (set_mask (get32 s.memory (blk + n))) s)))

push_free-ok :
    (blk n : ℕ) (s : Allocator)
    → 0 < blk
    → blk + n + 8 < 2 ^ 32
    → 32 ≤ n
    → n ≤ max_block_size
    → (let fl = (n / 16 - 1) * 4 in
        let head =
          get32 (poke s.memory (blk + n) (bytes32 (set_mask (get32 s.memory (blk + n))))) fl in
        push_free blk n s ≡ link_back head blk (pushed blk n fl head s))
unfolding push_free ◌>>=◌ ◌>>◌
push_free-ok blk n s pos fits lo hi =
    let at_prev : add32 blk 4 ≡ blk + 4 = omega arith in
    let at_field : add32 blk 8 ≡ blk + 8 = omega arith in
    let fl : ℕ = (n / 16 - 1) * 4 in
    let fl_pos : 0 < fl = omega arith in
    rw (
      set_the_free_tag-ok blk n s pos (omega arith),
      free_list_by_block_size-ok n _ (omega arith) hi,
      read32-ok fl _ fl_pos,
      write32-ok fl blk _ fl_pos,
      at_prev,
      write32-ok (blk + 4) 0 _ (omega arith),
      at_field,
      write32-ok (blk + 8) _ _ (omega arith),
    )

link_back-ok :
    (head blk : ℕ) (s : Allocator)
    → head + 8 < 2 ^ 32
    → link_back head blk s ≡ ok tt (if head == 0 then s else wrote (head + 4) blk s)
unfolding link_back pure
link_back-ok head blk s fits =
    let at_prev : add32 head 4 ≡ head + 4 = omega arith in
    elim (Bool-cases (head == 0)) [
      | inl e ↦ rw e
      | inr e ↦ rw (e, at_prev) (write32-ok (head + 4) blk s (omega arith))
    ]

get32-linked :
    (head blk x : ℕ) (s : Allocator)
    → (head ≡ 0) ⊎ Apart (head + 4) 4 x 4
    → get32 (if head == 0 then s else wrote (head + 4) blk s).memory x ≡ get32 s.memory x
get32-linked head blk x s h = elim (Bool-cases (head == 0)) [
  | inl e ↦ rw e
  | inr e ↦ rw e (get32-poke-Apart s.memory (head + 4) (bytes32 blk) x (ground arith))
]

-- A word of the block, or its free tag, after `pushed`
get32-pushed :
    (blk n fl head x : ℕ) (s : Allocator)
    → fl + 4 ≤ blk
    → 16 ≤ n
    → blk + 12 ≤ x
    → get32 (pushed blk n fl head s).memory x
      ≡ get32 (poke s.memory (blk + n) (bytes32 (set_mask (get32 s.memory (blk + n))))) x
get32-pushed blk n fl head x s lists lo above =
    let m₀ : Memory = poke s.memory (blk + n) (bytes32 (set_mask (get32 s.memory (blk + n)))) in
    let m₁ : Memory = poke m₀ fl (bytes32 blk) in
    let m₂ : Memory = poke m₁ (blk + 4) (bytes32 0) in
    get32-poke-Apart m₂ (blk + 8) (bytes32 head) x (omega arith)
    ∙ (get32-poke-Apart m₁ (blk + 4) (bytes32 0) x (omega arith)
        ∙ get32-poke-Apart m₀ fl (bytes32 blk) x (omega arith))

-- The head of the block's free list is none, or lies outside the block.
abbrev pub HeadApart : Memory → (blk n : ℕ) → Type 0
HeadApart m blk n =
    let head = get32 m ((n / 16 - 1) * 4) in
    (head + 8 < 2 ^ 32) × ((head ≡ 0) ⊎ (blk + n ≤ head) ⊎ (head + 8 ≤ blk))

-- `Free` of a block of 32 to 1152 bytes in use, between neighbours in use, succeeds and tags it free,
-- and leaves the block's last word as its user left it; there the next `Free`, of the block after
-- it, reads the size of the free block before it.
pub free_block-keeps_last_word :
    (blk n : ℕ) (s : Allocator)
    → InUse s.memory blk n
    → 32 ≤ n
    → HeadApart s.memory blk n
    → (t : Allocator) × (free_block blk s ≡ ok tt t)
      × (2 ^ 31 ≤ get32 t.memory (blk + n))
      × (get32 t.memory (blk + n - 4) ≡ get32 s.memory (blk + n - 4))
free_block-keeps_last_word blk n s u lo apart =
    let fl : ℕ = (n / 16 - 1) * 4 in
    let tag : ℕ = set_mask (get32 s.memory (blk + n)) in
    let m₀ : Memory = poke s.memory (blk + n) (bytes32 tag) in
    let below : fl + 4 ≤ blk = omega (arith, u.size_class, u.above_lists) in
    let same_head : get32 m₀ fl ≡ get32 s.memory fl =
      get32-poke-Apart s.memory (blk + n) (bytes32 tag) fl (omega arith) in
    let head : ℕ = get32 m₀ fl in
    let room : head + 8 < 2 ^ 32 = omega (arith, same_head, apart.0) in
    let p = pushed blk n fl head s in
    let at_tag : get32 (if head == 0 then p else wrote (head + 4) blk p).memory (blk + n) ≡ tag =
      get32-linked head blk (blk + n) p (ground (arith, same_head, apart.1))
      ∙ (get32-pushed blk n fl head (blk + n) s below (omega arith) (omega arith)
          ∙ get32-poke_self s.memory (blk + n) tag (omega arith)) in
    (
      (if head == 0 then p else wrote (head + 4) blk p),
      free_block-unmerged blk n s u
          ∙ (push_free-ok blk n s (omega (arith, u.above_lists)) (omega (arith, u.below_end)) lo
                u.size_class.1
              ∙ link_back-ok head blk p room),
      omega (arith, at_tag),
      get32-linked head blk (blk + n - 4) p (ground (arith, same_head, apart.1))
          ∙ (get32-pushed blk n fl head (blk + n - 4) s below (omega arith) (omega arith)
              ∙ get32-poke-Apart s.memory (blk + n) (bytes32 tag) (blk + n - 4) (omega arith)),
    )
