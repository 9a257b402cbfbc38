-- ===== src/Allocator/Logged.antt =====
-- The operations of the allocator log every write.
use nvds.Base.{ℕ, zero, suc}
use nvds.Command.Logged.{Logs, logs, Logs-stuck}
use nvds.Allocator.{
  free_list_by_block_size, set_the_free_tag, reset_the_free_tag, read_the_free_tag,
  read_the_prev_free_tag, read_the_size_tag, roundup_block_size, remove_block, link_back,
  split_block, find_free_list, take_head, alloc_block, alloc, merge_prev, merge_next, update_size,
  push_free, free_block, free,
}

Logs-free_list_by_block_size : (n : ℕ) → Logs (free_list_by_block_size n)
unfolding free_list_by_block_size
Logs-free_list_by_block_size n = search logs

Logs-set_the_free_tag : (blk n : ℕ) → Logs (set_the_free_tag blk n)
unfolding set_the_free_tag
Logs-set_the_free_tag blk n = search logs

Logs-reset_the_free_tag : (blk n : ℕ) → Logs (reset_the_free_tag blk n)
unfolding reset_the_free_tag
Logs-reset_the_free_tag blk n = search logs

Logs-read_the_free_tag : (blk n : ℕ) → Logs (read_the_free_tag blk n)
unfolding read_the_free_tag
Logs-read_the_free_tag blk n = search logs

Logs-read_the_prev_free_tag : (blk : ℕ) → Logs (read_the_prev_free_tag blk)
unfolding read_the_prev_free_tag
Logs-read_the_prev_free_tag blk = search logs

Logs-read_the_size_tag : (blk : ℕ) → Logs (read_the_size_tag blk)
unfolding read_the_size_tag
Logs-read_the_size_tag blk = search logs

Logs-roundup_block_size : (n : ℕ) → Logs (roundup_block_size n)
unfolding roundup_block_size
Logs-roundup_block_size n = search logs

ruleset tag_logs = (
  logs, Logs-free_list_by_block_size, Logs-set_the_free_tag, Logs-reset_the_free_tag,
  Logs-read_the_free_tag, Logs-read_the_prev_free_tag, Logs-read_the_size_tag,
)

Logs-remove_block : (blk n : ℕ) → Logs (remove_block blk n)
unfolding remove_block
Logs-remove_block blk n = search tag_logs depth 20

Logs-link_back : (head blk : ℕ) → Logs (link_back head blk)
unfolding link_back
Logs-link_back head blk = search logs

Logs-split_block : (blk n k : ℕ) → Logs (split_block blk n k)
unfolding split_block
Logs-split_block blk n k = search (tag_logs, Logs-link_back) depth 40

Logs-find_free_list : (k fl head : ℕ) → Logs (find_free_list k fl head)
unfolding find_free_list
Logs-find_free_list zero fl head = Logs-stuck _
Logs-find_free_list (suc k) fl head = let ih = Logs-find_free_list k in search (logs, ih) depth 10

Logs-take_head : (fl head n : ℕ) → Logs (take_head fl head n)
unfolding take_head
Logs-take_head fl head n = search tag_logs depth 12

ruleset block_logs = (
  tag_logs, Logs-link_back, Logs-remove_block, Logs-split_block, Logs-find_free_list,
  Logs-take_head, Logs-roundup_block_size,
)

Logs-alloc_block : (n : ℕ) → Logs (alloc_block n)
unfolding alloc_block
Logs-alloc_block n = search block_logs depth 20

pub Logs-alloc : (n : ℕ) → Logs (alloc n)
unfolding alloc
Logs-alloc n = search (block_logs, Logs-alloc_block) depth 12

Logs-merge_prev : (blk n k : ℕ) → Logs (merge_prev blk n k)
unfolding merge_prev
Logs-merge_prev blk n k = search block_logs depth 12

Logs-merge_next : (blk n k : ℕ) → Logs (merge_next blk n k)
unfolding merge_next
Logs-merge_next blk n k = search block_logs depth 12

Logs-update_size : (blk n k : ℕ) → Logs (update_size blk n k)
unfolding update_size
Logs-update_size blk n k = search block_logs depth 12

Logs-push_free : (blk n : ℕ) → Logs (push_free blk n)
unfolding push_free
Logs-push_free blk n = search block_logs depth 20

Logs-free_block : (blk : ℕ) → Logs (free_block blk)
unfolding free_block
Logs-free_block blk =
    search (block_logs, Logs-merge_prev, Logs-merge_next, Logs-update_size, Logs-push_free) depth 20

pub Logs-free : (ptr : ℕ) → Logs (free ptr)
unfolding free
Logs-free ptr = search (logs, Logs-free_block) depth 6
