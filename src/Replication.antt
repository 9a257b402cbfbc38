-- ===== src/Replication.antt =====
-- Replication of a tablet's modifications to its backups (`MergeModifications` and `Sync` of
-- src/tablet.cc).
pub mod Merge
pub mod Sort
pub mod Sync
use nvds.Base.{
  ℕ, zero, suc, ◌+◌, ◌-◌, ◌%◌, ◌^◌, max, Bool, false, true, not, ◌&&◌, Option, none, some, List, [],
  ◌∷◌, ltb, leb, ◌==◌, if◌then◌else◌, length, add32, sub32,
}
use nvds.Modification.{Modification, modification, ModificationList, before, within}
use nvds.Nvm.{Memory}
use nvds.Index.{TabletInfo}

-- One round of the outer loop: `x` is `modifications[i]`, the list what stands after it. Each
-- smaller element is swapped with it in turn.
unfoldable pub sweep : Modification → ModificationList → Modification × ModificationList
sweep x [] = (x, [])
sweep x (y ∷ ys) =
    let (m, rest) = sweep (if before y x then y else x) ys in
    (m, (if before y x then x else y) ∷ rest)

-- The two loops, with the number of elements left
unfoldable pub sort : ℕ → ModificationList → ModificationList
sort zero ms = ms
sort (suc n) [] = []
sort (suc n) (x ∷ xs) = let (m, rest) = sweep x xs in m ∷ sort n rest

abbrev pub gap : ℕ
gap = 16

abbrev pub end_of : Modification → ℕ
end_of m = add32 m.des m.len

-- The merging loop. The source stores the merged ranges at the front of the vector that it reads,
-- never ahead of the element that it reads.
unfoldable pub merge_loop : (begin src end : ℕ) → ModificationList → ModificationList
merge_loop begin src end [] = modification begin src (sub32 end begin) ∷ []
merge_loop begin src end (m ∷ ms) =
    if ltb (end + gap) m.des
    then modification begin src (sub32 end begin) ∷ merge_loop m.des m.src (end_of m) ms
    else merge_loop begin src (max end (end_of m)) ms

merge_ordered : ModificationList → Option ModificationList
merge_ordered [] = none
merge_ordered (m ∷ ms) = some (merge_loop m.des m.src (end_of m) (m ∷ ms))

-- `MergeModifications`; `none` is the failed `assert(n > 0)`
unfoldable pub merge_modifications : ModificationList → Option ModificationList
unfolding merge_ordered
merge_modifications ms = merge_ordered (sort (length ms) ms)

-- `ibv_send_wr` with its one `ibv_sge`, as far as `Sync` fills it
pub record WorkRequest : Type 0 where
  pub remote_addr : ℕ
  pub rkey : ℕ
  pub addr : ℕ
  pub len : ℕ
  pub lkey : ℕ
  pub inline : Bool
  pub signaled : Bool

abbrev pub work_request : ℕ → TabletInfo → Modification → WorkRequest
work_request lkey backup m = record {
  remote_addr = ((backup.qpis 0).vaddr + m.des) % 2 ^ 64;
  rkey = (backup.qpis 0).rkey;
  addr = m.src;
  len = m.len;
  lkey = lkey;
  inline = true;
  signaled = false;
}

-- The loop over the modifications leaves by its `break` after the first round.
unfoldable pub fill_requests : ℕ → TabletInfo → ModificationList → List WorkRequest
fill_requests lkey backup [] = []
fill_requests lkey backup (m ∷ ms) = work_request lkey backup m ∷ []

-- `wrs[i-1]` ends the chain and is signaled.
unfoldable pub sign_last : List WorkRequest → List WorkRequest
sign_last [] = []
sign_last (w ∷ []) = record w { signaled = true } ∷ []
sign_last (w ∷ v ∷ ws) = w ∷ sign_last (v ∷ ws)

-- What `Sync` did: the requests that it posted on each queue pair, in order, and how it ended.
pub data Outcome : Type 0 where
  done : Outcome
  assert_failed : Outcome
  transport_exception : ℕ → Outcome

abbrev pub Posts : Type 0
Posts = List (ℕ × List WorkRequest)

-- What the source calls of libibverbs: the error of `ibv_post_send` on a queue pair, and the status
-- of the completion that is polled from it, 0 being `IBV_WC_SUCCESS`.
pub record Verbs : Type 0 where
  pub post_send : ℕ → List WorkRequest → ℕ
  pub completion : ℕ → ℕ

-- The loop over the backups, `k` being the queue pair's index
unfoldable pub post_all : Verbs → ℕ → ModificationList → ℕ → List TabletInfo → Posts × Outcome
unfolding fill_requests sign_last
post_all v lkey ms k [] = ([], done)
post_all v lkey ms k (b ∷ bs) =
    let wrs = sign_last (fill_requests lkey b ms) in
    let rest = post_all v lkey ms (k + 1) bs in
    if not b.is_backup
    then ([], assert_failed)
    else if v.post_send k wrs == 0
    then ((k, wrs) ∷ rest.0, rest.1)
    else ((k, wrs) ∷ [], transport_exception (v.post_send k wrs))

-- The loop that polls each queue pair for its completion; `n` queue pairs are left of `of`.
unfoldable pub poll_all : Verbs → ℕ → ℕ → Outcome
poll_all v zero k = done
poll_all v (suc n) k =
    let rest = poll_all v n (k + 1) in
    if v.completion k == 0 then rest else transport_exception (v.completion k)

finish : Verbs → ℕ → Posts × Outcome → Posts × Outcome
unfolding poll_all
finish v n (posts, done) = (posts, poll_all v n 0)
finish v n (posts, assert_failed) = (posts, assert_failed)
finish v n (posts, transport_exception e) = (posts, transport_exception e)

sync_merged : Verbs → ℕ → List TabletInfo → Option ModificationList → Posts × Outcome
unfolding post_all finish
sync_merged v lkey backups none = ([], assert_failed)
sync_merged v lkey backups (some ms) = finish v (length backups) (post_all v lkey ms 0 backups)

-- `Sync`, given the information on the tablet's backups
unfoldable pub sync : Verbs → ℕ → List TabletInfo → ModificationList → Posts × Outcome
unfolding sync_merged
sync v lkey backups ms =
    if length ms == 0 then ([], done) else sync_merged v lkey backups (merge_modifications ms)

-- What a completed RDMA write does to the memory of a backup whose region begins at `vaddr`: the
-- bytes at the local addresses from `addr` on are stored at the remote ones.
abbrev pub rdma_write : (ℕ → ℕ) → ℕ → WorkRequest → Memory → Memory
rdma_write local vaddr w m x =
    if leb w.remote_addr (vaddr + x) && ltb (vaddr + x) (w.remote_addr + w.len)
    then local (w.addr + (vaddr + x - w.remote_addr))
    else m x

abbrev pub rdma_writes : (ℕ → ℕ) → ℕ → List WorkRequest → Memory → Memory
rdma_writes local vaddr [] m = m
rdma_writes local vaddr (w ∷ ws) m = rdma_writes local vaddr ws (rdma_write local vaddr w m)

-- A tablet's memory, addressed from its base
abbrev pub at_base : ℕ → Memory → ℕ → ℕ
at_base base m a = m (a - base)
