-- ===== src/Allocator.antt =====
-- The allocator (src/allocator.h, src/allocator.cc): a segregated-fit heap with boundary tags,
-- kept in the first 64 MB of a tablet. Blocks are named by their offsets, which wrap at 2 ^ 32.
pub mod Ends
pub mod Faults
pub mod Footer
pub mod Logged
pub mod Heap
pub mod Lists
pub mod Sizes
pub mod Tiling
pub mod Words
use nvds.Base.{
  ℕ, zero, suc, ◌+◌, ◌-◌, ◌*◌, ◌/◌, ◌%◌, ◌^◌, Bool, not, ◌&&◌, ltb, leb, ◌==◌, if◌then◌else◌, add32,
  sub32, [],
}
use nvds.Command.{
  Allocator, Cmd, Run, ok, pure, ◌>>=◌, ◌>>◌, assert, stuck, read32, write32, set_modifications,
}

abbrev pub max_block_size : ℕ
max_block_size = 1024 + 128

abbrev pub size : ℕ
size = 64 * 1024 * 1024

abbrev pub num_free_lists : ℕ
num_free_lists = max_block_size / 16 + 1

-- `kFreeMask`, and what `x | kFreeMask`, `x & ~kFreeMask` and `x & kFreeMask` are for a 32-bit `x`
abbrev pub free_mask : ℕ
free_mask = 2 ^ 31

abbrev pub set_mask : ℕ → ℕ
set_mask x = x % 2 ^ 31 + free_mask

abbrev pub clear_mask : ℕ → ℕ
clear_mask x = x % 2 ^ 31

abbrev pub mask : ℕ → ℕ
mask x = if ltb x free_mask then 0 else free_mask

-- `tag | x`, where `tag` is 0 or the mask
abbrev pub or_tag : ℕ → ℕ → ℕ
or_tag tag x = if tag == 0 then x else set_mask x

-- `offsetof(BlockHeader, prev)` and `offsetof(BlockHeader, next)`
abbrev pub prev_field : ℕ → ℕ
prev_field blk = add32 blk 4

abbrev pub next_field : ℕ → ℕ
next_field blk = add32 blk 8

-- `GetLastFreeList`
abbrev pub last_free_list : ℕ
last_free_list = (num_free_lists - 1) * 4

-- `GetFreeListByBlockSize`
unfoldable pub free_list_by_block_size : ℕ → Cmd ℕ
free_list_by_block_size blk_size = do
  assert (leb 16 blk_size)
  if leb blk_size max_block_size then pure ((blk_size / 16 - 1) * 4) else pure last_free_list

-- The tags: bit 31 of a block's first word says that the block before it is free, and the rest of
-- the word is the block's size.
unfoldable pub set_the_free_tag : ℕ → ℕ → Cmd (Unit {0})
set_the_free_tag blk blk_size = do
  let next_blk = add32 blk blk_size
  w ← read32 next_blk
  write32 next_blk (set_mask w)

unfoldable pub reset_the_free_tag : ℕ → ℕ → Cmd (Unit {0})
reset_the_free_tag blk blk_size = do
  let next_blk = add32 blk blk_size
  w ← read32 next_blk
  write32 next_blk (clear_mask w)

unfoldable pub read_the_free_tag : ℕ → ℕ → Cmd ℕ
read_the_free_tag blk blk_size = do w ← read32 (add32 blk blk_size); pure (mask w)

unfoldable pub read_the_prev_free_tag : ℕ → Cmd ℕ
read_the_prev_free_tag blk = do w ← read32 blk; pure (mask w)

unfoldable pub read_the_size_tag : ℕ → Cmd ℕ
read_the_size_tag blk = do w ← read32 blk; pure (clear_mask w)

-- `GetBlockSizeByFreeList`
unfoldable pub block_size_by_free_list : ℕ → Cmd ℕ
block_size_by_free_list free_list = do
  let index = free_list / 4
  if ltb index (num_free_lists - 1) then pure ((index + 1) * 16) else do
    assert (index == num_free_lists - 1)
    head ← read32 (index * 4)
    if head == 0 then pure 0 else read_the_size_tag head

-- `RoundupBlockSize`
unfoldable pub roundup_block_size : ℕ → Cmd ℕ
roundup_block_size blk_size =
    if leb blk_size max_block_size
    then pure ((blk_size + 16 - 1) / 16 * 16)
    else do assert Bool.false; pure 0

-- `Format`: the free lists, then one free block, then a word for that block's free tag
unfoldable pub format : Cmd (Unit {0})
format = do
  set_modifications []
  (λ s. ok tt (record s { memory = λ x. if ltb x size then 0 else s.memory x }))
  let blk = num_free_lists * 4
  write32 last_free_list blk
  let blk_size = (size - blk - 4) / 16 * 16
  write32 blk (clear_mask blk_size)
  write32 (sub32 (add32 blk blk_size) 4) blk_size
  set_the_free_tag blk blk_size

-- The two parts of `RemoveBlock` after its reads: the block before, or the list, is led past `blk`,
-- and the block after is led back to the one before.
abbrev pub lead_past : (blk blk_size prev_blk : ℕ) → Cmd (Unit {0})
lead_past blk blk_size prev_blk =
    if not (prev_blk == 0)
    then (do next ← read32 (next_field blk); write32 (next_field prev_blk) next)
    else (do
      free_list ← free_list_by_block_size blk_size
      next ← read32 (next_field blk)
      write32 free_list next)

abbrev pub lead_back : (blk next_blk : ℕ) → Cmd (Unit {0})
lead_back blk next_blk =
    if not (next_blk == 0)
    then (do prev ← read32 (prev_field blk); write32 (prev_field next_blk) prev)
    else pure tt

-- `RemoveBlock`
unfoldable pub remove_block : ℕ → ℕ → Cmd (Unit {0})
remove_block blk blk_size = do
  tag ← read_the_free_tag blk blk_size
  assert (not (tag == 0))
  prev_blk ← read32 (prev_field blk)
  next_blk ← read32 (next_field blk)
  lead_past blk blk_size prev_blk
  lead_back blk next_blk

-- The last part of `SplitBlock` and of `FreeBlock`: `blk` becomes the head of its free list.
unfoldable pub link_back : ℕ → ℕ → Cmd (Unit {0})
link_back head blk = if not (head == 0) then write32 (prev_field head) blk else pure tt

-- `SplitBlock`: the front keeps the free block, the rest is handed out
unfoldable pub split_block : ℕ → ℕ → ℕ → Cmd ℕ
split_block blk blk_size needed_size = do
  next_blk ← read32 (next_field blk)
  free_list ← free_list_by_block_size blk_size
  assert (ltb needed_size blk_size)
  let new_size = blk_size - needed_size
  write32 free_list next_blk
  (if not (next_blk == 0) then write32 (prev_field next_blk) 0 else pure tt)
  tag ← read_the_prev_free_tag blk
  write32 blk (or_tag tag new_size)
  write32 (sub32 (add32 blk new_size) 4) new_size
  free_list ← free_list_by_block_size new_size
  head ← read32 free_list
  write32 (prev_field blk) 0
  write32 (next_field blk) head
  write32 free_list blk
  link_back head blk
  write32 (add32 blk new_size) (set_mask needed_size)
  write32 (sub32 (add32 blk blk_size) 4) needed_size
  reset_the_free_tag (add32 blk new_size) needed_size
  pure (add32 blk new_size)

-- The loop of `AllocBlock`: the first free list from `free_list` on that is not empty, and its
-- head. The source leaves `head` unset before the first round, which is always made.
unfoldable pub find_free_list : ℕ → ℕ → ℕ → Cmd (ℕ × ℕ)
find_free_list zero free_list head = stuck
find_free_list (suc rounds) free_list head =
    if ltb free_list (num_free_lists * 4)
    then (do
      head' ← read32 free_list
      if head' == 0
          then find_free_list rounds (add32 free_list 4) head'
          else pure (free_list, head'))
    else pure (free_list, head)

-- The branch of `AllocBlock` for a head of exactly the size that is asked for
unfoldable pub take_head : ℕ → ℕ → ℕ → Cmd ℕ
take_head free_list head head_size = do
  next_blk ← read32 (next_field head)
  reset_the_free_tag head head_size
  write32 free_list next_blk
  write32 (prev_field next_blk) 0
  pure head

-- `AllocBlock`
unfoldable pub alloc_block : ℕ → Cmd ℕ
alloc_block blk_size = do
  first ← free_list_by_block_size blk_size
  (free_list, head) ← find_free_list (num_free_lists + 1) first 0
  if head == 0 then pure 0 else do
    head_size ← read_the_size_tag head
    tag ← read_the_free_tag head head_size
    assert (not (tag == 0))
    assert (leb blk_size head_size)
    if head_size == blk_size
        then take_head free_list head head_size
        else split_block head head_size blk_size

-- `Alloc`
unfoldable pub alloc : ℕ → Cmd ℕ
alloc size = do
  blk_size ← roundup_block_size (add32 size 4)
  assert (blk_size % 16 == 0)
  assert (leb blk_size max_block_size)
  blk ← alloc_block blk_size
  pure (if blk == 0 then 0 else add32 blk 4)

-- The two tests of `FreeBlock` for merging with a free neighbour: the block before, whose size is
-- read from the word before `blk`, and the block after.
unfoldable pub merge_prev : ℕ → ℕ → ℕ → Cmd (ℕ × ℕ)
merge_prev blk blk_size prev_blk_size = do
  tag ← read_the_prev_free_tag blk
  if not (tag == 0) && leb blk_size max_block_size && leb prev_blk_size max_block_size
      then (do
        remove_block (sub32 blk prev_blk_size) prev_blk_size
        pure (sub32 blk prev_blk_size, add32 blk_size prev_blk_size))
      else pure (blk, blk_size)

unfoldable pub merge_next : ℕ → ℕ → ℕ → Cmd ℕ
merge_next blk_size next_blk next_blk_size = do
  tag ← read_the_free_tag next_blk next_blk_size
  if not (tag == 0) && leb blk_size max_block_size && leb next_blk_size max_block_size
      then (do remove_block next_blk next_blk_size; pure (add32 blk_size next_blk_size))
      else pure blk_size

-- "If the blk_size changed, write it."
unfoldable pub update_size : ℕ → ℕ → ℕ → Cmd (Unit {0})
update_size blk blk_size blk_size_old =
    if not (blk_size == blk_size_old)
    then (do
      tag ← read_the_prev_free_tag blk
      write32 blk (or_tag tag blk_size)
      write32 (sub32 (add32 blk blk_size) 4) blk_size)
    else pure tt

-- The block is tagged free and pushed on its free list.
unfoldable pub push_free : ℕ → ℕ → Cmd (Unit {0})
push_free blk blk_size = do
  set_the_free_tag blk blk_size
  free_list ← free_list_by_block_size blk_size
  head ← read32 free_list
  write32 free_list blk
  write32 (prev_field blk) 0
  write32 (next_field blk) head
  link_back head blk

-- `FreeBlock`
unfoldable pub free_block : ℕ → Cmd (Unit {0})
free_block blk = do
  blk_size ← read_the_size_tag blk
  prev_blk_size ← read32 (sub32 blk 4)
  let next_blk = add32 blk blk_size
  next_blk_size ← read_the_size_tag next_blk
  (blk', merged) ← merge_prev blk blk_size prev_blk_size
  total ← merge_next merged next_blk next_blk_size
  update_size blk' total blk_size
  push_free blk' total

-- `Free`
unfoldable pub free : ℕ → Cmd (Unit {0})
free ptr = do assert (ltb 4 ptr && leb ptr size); free_block (ptr - 4)
