-- ===== src/Server/Replicated.antt =====
-- A request's modifications carry its whole effect: what the server would send for them makes a
-- backup that was equal to the tablet equal to it again.
use nvds.Base.{ℕ, ◌≡◌, refl, false, if◌then◌else◌, Bool, [], ◌∷◌, All, some, ◌∙◌, sym, true}
use nvds.Nvm.{Memory}
use nvds.Modification.{Modification, ModificationList, covered}
use nvds.Index.{TabletInfo}
use nvds.Command.{Allocator, final}
use nvds.Command.Logged.{Logged, Logs-pure, SourceOf}
use nvds.Request.{Kind, Request, Response}
use nvds.Tablet.Logged.{LogsIn, LogsIn->>=, LogsIn-put, LogsIn-add, LogsIn-get, LogsIn-del}
use nvds.Replication.{rdma_writes, at_base, merge_modifications}
use nvds.Replication.Merge.{Fits, merge_modifications-IsMerged}
use nvds.Replication.Sync.{IsRegion, requests, rdma_writes-covered}
use nvds.Server.{operate, serve_request}

LogsIn-operate :
    (kind : Kind) (rounds : ℕ) (resp : Response) (r : Request) (ms : ModificationList)
    → LogsIn ms (operate kind rounds resp r ms)
unfolding operate
LogsIn-operate Kind.put rounds resp r ms = LogsIn->>= (LogsIn-put rounds r ms) (λ a. Logs-pure _)
LogsIn-operate Kind.add rounds resp r ms = LogsIn->>= (LogsIn-add rounds r ms) (λ a. Logs-pure _)
LogsIn-operate Kind.get rounds resp r ms =
    LogsIn->>= (LogsIn-get rounds resp r ms) (λ a. Logs-pure _)
LogsIn-operate Kind.del rounds resp r ms = LogsIn->>= (LogsIn-del rounds r ms) (λ a. Logs-pure _)

-- The state in which a request is served
abbrev pub cleared : Allocator → Allocator
cleared s = record s { modifications = [] }

serve_request-Logged :
    (rounds : ℕ) (r : Request) (s : Allocator)
    → Logged (cleared s) (final (serve_request rounds r s))
unfolding serve_request
serve_request-Logged rounds r s = (LogsIn-operate r.kind rounds _ r []).apply s

-- However the serving of a request ends, and whatever the heap and the table hold: every byte that
-- differs afterwards from before is held by the list of modifications, and each modification's
-- source is the tablet's own address of its destination.
pub serve_request-logs :
    (rounds : ℕ) (r : Request) (s : Allocator)
    → ((x : ℕ)
        → covered x (final (serve_request rounds r s)).modifications ≡ false
        → (final (serve_request rounds r s)).memory x ≡ s.memory x)
      × All (SourceOf s.base) (final (serve_request rounds r s)).modifications
serve_request-logs rounds r s =
    let l = serve_request-Logged rounds r s in
    (λ x h. l.elsewhere x (rw l.appended at h), rw l.appended l.sources)

-- A byte that no merged range holds was not modified, so the old one serves.
settled :
    {now old before : ℕ} (in_out in_log : Bool)
    → old ≡ before
    → (in_log ≡ false → now ≡ before)
    → (in_log ≡ true → in_out ≡ true)
    → (if in_out then now else old) ≡ now
settled true l same kept covers = refl
settled false true same kept covers = cc (covers refl)
settled false false same kept covers = same ∙ sym (kept refl)

-- When a request left modifications that end inside the 32-bit offsets, merging them succeeds, and
-- one RDMA write for each merged range makes a backup that held what the tablet held before the
-- request hold what the tablet holds after it, byte for byte.
pub serve_request-replicated :
    (rounds : ℕ) (r : Request) (s : Allocator) (m : Modification) (ms : ModificationList) (lkey : ℕ)
    (backup : TabletInfo) (old : Memory)
    → (final (serve_request rounds r s)).modifications ≡ m ∷ ms
    → All Fits (m ∷ ms)
    → IsRegion s.base (backup.qpis 0).vaddr
    → ((x : ℕ) → old x ≡ s.memory x)
    → (out : ModificationList) × (merge_modifications (m ∷ ms) ≡ some out)
      × ((x : ℕ)
          → rdma_writes
              (at_base s.base (final (serve_request rounds r s)).memory)
              (backup.qpis 0).vaddr
              (requests lkey backup out)
              old
              x
            ≡ (final (serve_request rounds r s)).memory x)
serve_request-replicated rounds r s m ms lkey backup old e fit region same =
    let logged = serve_request-logs rounds r s in
    let now : Memory = (final (serve_request rounds r s)).memory in
    let src = rw e at logged.1 in
    let merged = merge_modifications-IsMerged s.base m ms fit src in
    (
      merged.0,
      merged.1,
      λ x.
          rdma_writes-covered lkey s.base backup region now old merged.0 x merged.2.fits
            merged.2.sources
          ∙ settled (covered x merged.0) (covered x (m ∷ ms)) (same x) (λ n. logged.0 x (rw e n))
              (merged.2.covers x),
    )
