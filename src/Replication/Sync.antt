-- ===== src/Replication/Sync.antt =====
-- What a backup holds after `Sync`, and what it would hold if every merged range were sent.
use nvds.Base.{
  ℕ, ◌+◌, ◌-◌, ◌%◌, ◌^◌, ◌≤◌, ◌≡◌, refl, arith, ◌==◌, if◌then◌else◌, true, false, List, [], ◌∷◌,
  ◌≢◌, Bool-cases, inl, inr, ◌∙◌, All, map, some, length,
}
use nvds.Nvm.{Memory}
use nvds.Modification.{Modification, ModificationList, within, covered}
use nvds.Index.{TabletInfo}
use nvds.Command.Logged.{SourceOf}
use nvds.Replication.{
  WorkRequest, work_request, rdma_write, rdma_writes, at_base, merge_modifications, sync, finish,
  Verbs, done, Posts, Outcome,
}
use nvds.Replication.Merge.{Fits}

-- The tablet's region and its backup's lie inside the 64-bit address space.
pub record IsRegion (base vaddr : ℕ) : Type 0 where
  pub local : base + 2 ^ 32 ≤ 2 ^ 64
  pub remote : vaddr + 2 ^ 32 ≤ 2 ^ 64

module _ (lkey base : ℕ) (backup : TabletInfo) (region : IsRegion base (backup.qpis 0).vaddr) where
  -- One request copies the range's bytes from the tablet to the same offsets of the backup.
  rdma_write-within :
      (now old : Memory) (m : Modification) (x : ℕ)
      → Fits m
      → SourceOf base m
      → rdma_write (at_base base now) (backup.qpis 0).vaddr (work_request lkey backup m) old x
        ≡ (if within x m then now x else old x)
  rdma_write-within now old m x fit src =
      let v = (backup.qpis 0).vaddr in
      let remote : (v + m.des) % 2 ^ 64 ≡ v + m.des = omega (arith, region.remote) in
      let at_src : m.src ≡ base + m.des = omega (arith, src, region.local) in
      rw (remote, at_src)
        (elim (Bool-cases (within x m)) [
          | inl there ↦
              let same : base + m.des + (v + x - (v + m.des)) - base ≡ x = ground (arith, there) in
              rw same (ground (arith, there))
          | inr not_there ↦ ground (arith, not_there)
        ])

  -- Requests for all ranges of a list bring the covered bytes up to date, and no others.
  pub rdma_writes-covered :
      (now old : Memory) (ms : ModificationList) (x : ℕ)
      → All Fits ms
      → All (SourceOf base) ms
      → rdma_writes
          (at_base base now)
          (backup.qpis 0).vaddr
          (map (work_request lkey backup) ms)
          old
          x
        ≡ (if covered x ms then now x else old x)
  rdma_writes-covered now old [] x f k = refl
  rdma_writes-covered now old (m ∷ ms) x f k =
      rdma_writes-covered now
        (rdma_write (at_base base now) (backup.qpis 0).vaddr (work_request lkey backup m) old) ms x
        f.1 k.1
      ∙ (rw (rdma_write-within now old m x f.0 k.0) (ground arith))

-- The requests that were posted on the queue pair `k`
abbrev pub posted_on : ℕ → Posts → List WorkRequest
posted_on k [] = []
posted_on k ((j, ws) ∷ ps) = if j == k then ws else posted_on k ps

-- `ibv_post_send` accepts every request.
pub record Accepts (v : Verbs) : Type 0 where
  pub posts : (k : ℕ) (ws : List WorkRequest) → v.post_send k ws ≡ 0

-- The requests of a whole merged list, one for each range
abbrev pub requests : ℕ → TabletInfo → ModificationList → List WorkRequest
requests lkey backup ms = map (work_request lkey backup) ms

posts-finish : (v : Verbs) (n : ℕ) (r : Posts × Outcome) → (finish v n r).0 ≡ r.0
unfolding finish
posts-finish v n (ps, done) = refl
posts-finish v n (ps, Outcome.assert_failed) = refl
posts-finish v n (ps, Outcome.transport_exception e) = refl

-- `Sync` of a list with a merged range posts one request on the backup's queue pair, for the first
-- merged range alone.
sync-posts :
    (v : Verbs) (lkey : ℕ) (b : TabletInfo) (ms : ModificationList) (a : Modification)
    (rest : ModificationList)
    → Accepts v
    → b.is_backup ≡ true
    → merge_modifications ms ≡ some (a ∷ rest)
    → length ms ≢ 0
    → posted_on 0 (sync v lkey (b ∷ []) ms).0
      ≡ record (work_request lkey b a) { signaled = true } ∷ []
unfolding sync
sync-posts v lkey b ms a rest acc is merged ne =
    let some_left : (length ms == 0) ≡ false = ground (arith, ne) in
    rw (some_left, merged, posts-finish) (rw (is, acc.posts))

-- On a tablet with one backup, when `ibv_post_send` accepts every request, `Sync` copies the bytes of
-- the first merged range to the backup and leaves every other byte there as it was, also where later
-- merged ranges hold it.
pub sync-first_range :
    (v : Verbs) (lkey base : ℕ) (b : TabletInfo) (ms : ModificationList) (a : Modification)
    (rest : ModificationList) (now old : Memory) (x : ℕ)
    → Accepts v
    → IsRegion base (b.qpis 0).vaddr
    → b.is_backup ≡ true
    → merge_modifications ms ≡ some (a ∷ rest)
    → length ms ≢ 0
    → Fits a
    → SourceOf base a
    → rdma_writes
        (at_base base now)
        (b.qpis 0).vaddr
        (posted_on 0 (sync v lkey (b ∷ []) ms).0)
        old
        x
      ≡ (if within x a then now x else old x)
sync-first_range v lkey base b ms a rest now old x acc region is merged ne fit src =
    rw (sync-posts v lkey b ms a rest acc is merged ne)
      (rdma_write-within lkey base b region now old a x fit src)
