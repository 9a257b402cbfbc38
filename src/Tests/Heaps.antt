-- ===== src/Tests/Heaps.antt =====
-- A heap that was formatted, and blocks taken from it and given back.
use nvds.Base.{inl, ℕ, ◌+◌, ◌*◌, ◌^◌, ◌≡◌, ◌≢◌, ◌≤◌, ◌<◌, refl, [], arith}
use nvds.Nvm.{poke, peek, get32, bytes32}
use nvds.Command.{
  Allocator, Run, ok, assert_failed, final, pure, ◌>>=◌, ◌>>◌, Cmd, assert, read32, write, write32,
  set_modifications,
}
use nvds.Command.Ends.{Ends, Fails}
use nvds.Allocator.{
  num_free_lists, free_list_by_block_size, set_the_free_tag, reset_the_free_tag, read_the_free_tag,
  read_the_prev_free_tag, read_the_size_tag, roundup_block_size, format, remove_block, link_back,
  split_block, find_free_list, take_head, alloc_block, alloc, merge_prev, merge_next, update_size,
  push_free, free_block, free,
}
use nvds.Allocator.Sizes.{find_free_list-total, Searched}
use nvds.Allocator.Ends.{alloc-free-Ends, split_block-remainder_16}
use nvds.Allocator.Faults.{take_head-loses_list}
use nvds.Allocator.Footer.{InUse, free_block-keeps_last_word}

program : Unit {0}
unfolding poke peek get32 ◌>>=◌ ◌>>◌ pure assert read32 write set_modifications
    free_list_by_block_size set_the_free_tag reset_the_free_tag read_the_free_tag
    read_the_prev_free_tag read_the_size_tag roundup_block_size format remove_block link_back
    split_block find_free_list take_head alloc_block alloc merge_prev merge_next update_size
    push_free free_block free
program = tt

abbrev blank : Allocator
blank = record { base = 4096; cnt_writes = 0; modifications = []; memory = λ _. 0 }

abbrev result : {A : Type 0} → Run A → A → A
result (ok a s) d = a
result (assert_failed s) d = d
result (Run.out_of_fuel s) d = d

abbrev heap : Allocator
heap = final (format blank)

-- Blocks are cut from the end of the free block.
abbrev pair : ℕ × ℕ
pair = (67108824, 67108792)

two_blocks : result ((do a ← alloc 28; b ← alloc 28; pure (a, b)) heap) (0, 0) ≡ pair
unfolding program
two_blocks = refl

-- A block that is freed is taken again.
reuse : result ((do a ← alloc 28; b ← alloc 28; free b; alloc 28) heap) 0 ≡ 67108792
unfolding program
reuse = refl

-- The user of the lower block fills it so that its last word is 16 and the two words before are
-- 77 and 1000. Freeing both blocks stores the 77 at the offset 1008.
abbrev user_words : Cmd ℕ
user_words = do
  a ← alloc 28
  b ← alloc 28
  write32 (b + 16) 1000
  write32 (b + 20) 77
  write32 (b + 24) 16
  free b
  free a
  read32 1008

stray_write : result (user_words heap) 0 ≡ 77
unfolding program
stray_write = refl

find_free_list-total_example :
    (found : ℕ) × (head : ℕ) × (find_free_list (num_free_lists + 1) 4 0 heap
      ≡ ok (found, head) heap)
    × Searched heap 4 found head
find_free_list-total_example = find_free_list-total 1 heap (omega arith) (omega arith)

alloc-free-Ends_example : Ends (alloc 28) × Ends (free 300)
alloc-free-Ends_example = alloc-free-Ends 28 300

split_block-remainder_16_example : Fails (split_block 292 48 32)
split_block-remainder_16_example = split_block-remainder_16 292 32

-- One free block of 48 bytes, the only one in its list, and a list of 32-byte blocks
abbrev lists : Allocator
lists = record {
  base = 4096;
  cnt_writes = 0;
  modifications = [];
  memory = poke (poke (λ _. 0) 4 (bytes32 5000)) 8 (bytes32 1000);
}

take_head-loses_list_example :
    (t : Allocator) × (take_head 8 1000 48 lists ≡ ok 1000 t)
    × (get32 t.memory 4 ≡ 0)
    × (get32 t.memory 8 ≡ 0)
    × ((j : ℕ)
        → 2 ≤ j
        → j < num_free_lists
        → j ≢ 2
        → get32 t.memory (4 * j) ≡ get32 lists.memory (4 * j))
unfolding poke get32
take_head-loses_list_example =
    take_head-loses_list 2 1000 48 lists (omega arith) (omega arith) (omega arith) (omega arith)
      refl

-- A block of 32 bytes in use, whose last word is 16
abbrev used : Allocator
used = record {
  base = 4096;
  cnt_writes = 0;
  modifications = [];
  memory = poke (poke (λ _. 0) 1000 (bytes32 32)) 1028 (bytes32 16);
}

used-InUse : InUse used.memory 1000 32
unfolding poke get32
used-InUse = record {
  above_lists = omega arith;
  below_end = omega arith;
  size_class = omega arith;
  header = refl;
  next_in_use = omega arith;
}

free_block-keeps_last_word_example :
    (t : Allocator) × (free_block 1000 used ≡ ok tt t)
    × (2 ^ 31 ≤ get32 t.memory 1032)
    × (get32 t.memory 1028 ≡ get32 used.memory 1028)
unfolding poke get32
free_block-keeps_last_word_example =
    free_block-keeps_last_word 1000 32 used used-InUse (omega arith) (omega arith, inl refl)
