-- ===== src/Allocator/Ends.antt =====
-- The allocator's operations end on every heap, well-formed or not.
use nvds.Base.{
  ltb, add32, ℕ, zero, suc, ◌+◌, ◌*◌, ◌-◌, ◌≤◌, ◌≡◌, refl, arith, false, ◌==◌, Bool-cases, inl, inr,
}
use nvds.Command.{Cmd, pure, ◌>>=◌, ◌>>◌, assert, read32}
use nvds.Command.Ends.{
  Ends, Fails, ends, Ends->>=, Ends-if, Ends-pure, Ends-read32, Fails->>=, Fails->>,
}
use nvds.Allocator.{
  free_list_by_block_size, set_the_free_tag, reset_the_free_tag, read_the_free_tag,
  read_the_prev_free_tag, read_the_size_tag, roundup_block_size, remove_block, link_back,
  split_block, find_free_list, take_head, alloc_block, alloc, merge_prev, merge_next, update_size,
  push_free, free_block, free, num_free_lists,
}

Ends-free_list_by_block_size : (n : ℕ) → Ends (free_list_by_block_size n)
unfolding free_list_by_block_size
Ends-free_list_by_block_size n = search ends

Ends-set_the_free_tag : (blk n : ℕ) → Ends (set_the_free_tag blk n)
unfolding set_the_free_tag
Ends-set_the_free_tag blk n = search ends

Ends-reset_the_free_tag : (blk n : ℕ) → Ends (reset_the_free_tag blk n)
unfolding reset_the_free_tag
Ends-reset_the_free_tag blk n = search ends

Ends-read_the_free_tag : (blk n : ℕ) → Ends (read_the_free_tag blk n)
unfolding read_the_free_tag
Ends-read_the_free_tag blk n = search ends

Ends-read_the_prev_free_tag : (blk : ℕ) → Ends (read_the_prev_free_tag blk)
unfolding read_the_prev_free_tag
Ends-read_the_prev_free_tag blk = search ends

Ends-read_the_size_tag : (blk : ℕ) → Ends (read_the_size_tag blk)
unfolding read_the_size_tag
Ends-read_the_size_tag blk = search ends

Ends-roundup_block_size : (n : ℕ) → Ends (roundup_block_size n)
unfolding roundup_block_size
Ends-roundup_block_size n = search ends

ruleset tag_ends = (
  ends, Ends-free_list_by_block_size, Ends-set_the_free_tag, Ends-reset_the_free_tag,
  Ends-read_the_free_tag, Ends-read_the_prev_free_tag, Ends-read_the_size_tag,
)

Ends-remove_block : (blk n : ℕ) → Ends (remove_block blk n)
unfolding remove_block
Ends-remove_block blk n = search tag_ends depth 20

Ends-link_back : (head blk : ℕ) → Ends (link_back head blk)
unfolding link_back
Ends-link_back head blk = search ends

Ends-split_block : (blk n k : ℕ) → Ends (split_block blk n k)
unfolding split_block
Ends-split_block blk n k = search (tag_ends, Ends-link_back) depth 40

Ends-take_head : (fl head n : ℕ) → Ends (take_head fl head n)
unfolding take_head
Ends-take_head fl head n = search tag_ends depth 12

-- One round more than a quarter of the bytes to the end is enough.
Ends-find_free_list :
    (rounds fl head : ℕ)
    → num_free_lists * 4 ≤ fl + 4 * rounds
    → Ends (find_free_list (suc rounds) fl head)
unfolding find_free_list
Ends-find_free_list zero fl head h =
    let past : ltb fl (num_free_lists * 4) ≡ false = ground arith in rw past (Ends-pure _)
Ends-find_free_list (suc k) fl head h = elim (Bool-cases (ltb fl (num_free_lists * 4))) [
  | inr past ↦ rw past (Ends-pure _)
  | inl more ↦
      let next : add32 fl 4 ≡ fl + 4 = ground arith in
      let ih : num_free_lists * 4 ≤ add32 fl 4 + 4 * k = omega (arith, next) in
      rw more (
        Ends->>= (Ends-read32 fl)
          (λ v. Ends-if (v == 0) (Ends-find_free_list k (add32 fl 4) v ih) (Ends-pure _)))
]

ruleset block_ends = (
  tag_ends, Ends-link_back, Ends-remove_block, Ends-split_block, Ends-take_head,
  Ends-roundup_block_size,
)

Ends-alloc_block : (n : ℕ) → Ends (alloc_block n)
unfolding alloc_block
Ends-alloc_block n =
    let found = λ (fl : ℕ). Ends-find_free_list num_free_lists fl 0 (omega arith) in
    search (block_ends, found) depth 20

-- `Alloc` ends on every heap, well-formed or not.
pub alloc-Ends : (n : ℕ) → Ends (alloc n)
unfolding alloc
alloc-Ends n = search (block_ends, Ends-alloc_block) depth 12

Ends-merge_prev : (blk n k : ℕ) → Ends (merge_prev blk n k)
unfolding merge_prev
Ends-merge_prev blk n k = search block_ends depth 12

Ends-merge_next : (blk n k : ℕ) → Ends (merge_next blk n k)
unfolding merge_next
Ends-merge_next blk n k = search block_ends depth 12

Ends-update_size : (blk n k : ℕ) → Ends (update_size blk n k)
unfolding update_size
Ends-update_size blk n k = search block_ends depth 12

Ends-push_free : (blk n : ℕ) → Ends (push_free blk n)
unfolding push_free
Ends-push_free blk n = search block_ends depth 20

Ends-free_block : (blk : ℕ) → Ends (free_block blk)
unfolding free_block
Ends-free_block blk =
    search (block_ends, Ends-merge_prev, Ends-merge_next, Ends-update_size, Ends-push_free) depth 20

-- Whatever the heap holds, `Alloc` and `Free` of any argument return or fail an assertion: no loop
-- of the allocator runs on, and `AllocBlock`'s search makes at most one round for each list and one
-- more.
pub alloc-free-Ends : (n ptr : ℕ) → Ends (alloc n) × Ends (free ptr)
unfolding free
alloc-free-Ends n ptr = (alloc-Ends n, search (ends, Ends-free_block) depth 6)

size_list-16 : (f : ℕ → Cmd ℕ) → Fails (f 0) → Fails (free_list_by_block_size 16 >>= f)
unfolding free_list_by_block_size pure assert ◌>>=◌ ◌>>◌
size_list-16 f h = record { apply = λ s. h.apply s }

read_null : (f : ℕ → Cmd ℕ) → Fails (read32 0 >>= f)
unfolding read32 ◌>>=◌
read_null f = record { apply = λ s. refl }

-- A free block that is 16 bytes larger than what is asked for cannot be split: on every heap
-- `SplitBlock` fails an assertion, since the rest would go to the list of 16-byte blocks, whose
-- offset 0 `Read` refuses.
pub split_block-remainder_16 : (blk n : ℕ) → Fails (split_block blk (n + 16) n)
unfolding split_block
split_block-remainder_16 blk n =
    let rest : n + 16 - n ≡ 16 = omega arith in
    rw rest (search (size_list-16, read_null, Fails->>=, Fails->>, tag_ends) depth 30)
