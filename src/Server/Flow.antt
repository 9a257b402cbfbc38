-- ===== src/Server/Flow.antt =====
-- Where the server's buffers are (`Server::Poll`, `Server::Dispatch` and `Server::Worker::Serve` of
-- src/server.cc), in the configuration of one worker. The poller and the worker run at once; each
-- call on a pool or a queue is one step, with the call on the queue pair beside it. Only the worker's
-- `Dequeue` and the `Alloc` for the response are one step together: in between the poller can but add
-- to the work queue and to the pool. The pools and the work queue are lists, which `Buffers` shows
-- them to be.
pub mod Conserved
use nvds.Base.{
  ℕ, zero, suc, ◌+◌, ◌≡◌, Option, none, some, List, [], ◌∷◌, ◌++◌, ◌==◌, if◌then◌else◌, length,
}

-- `kMaxIBQueueDepth`
abbrev pub max_ib_queue_depth : ℕ
max_ib_queue_depth = 128

-- Buffers for requests: free in `recv_bufs_`, posted to the receive queue, in the worker's queue.
-- Buffers for responses: free in `send_bufs_`, posted to the send queue. The worker holds none, or a
-- request and the buffer for its response.
pub record Flow : Type 0 where
  pub recv_free : List ℕ
  pub posted : List ℕ
  pub work : List ℕ
  pub send_free : List ℕ
  pub sending : List ℕ
  pub serving : Option (ℕ × ℕ)

-- `recv_bufs_.Alloc()` and `PostReceive`; `none` if the pool is empty
abbrev pub post_receive : Flow → Option Flow
post_receive f = elim f.recv_free [
  | [] ↦ none
  | b ∷ bs ↦ some (record f { recv_free = bs; posted = b ∷ f.posted })
]

-- The loop at the start of `Poll`; `none` is the failed `assert(b)`
unfoldable pub fill : ℕ → Flow → Option Flow
fill zero f = some f
fill (suc n) f = elim (post_receive f) [ none ↦ none | some g ↦ fill n g ]

-- `Dispatch` of a buffer that `TryReceive` returned
abbrev pub dispatch : ℕ → Flow → Flow
dispatch b f = record f { work = f.work ++ (b ∷ []) }

-- `send_bufs_.Free(b)` of a buffer that `TrySend` returned
abbrev pub free_sent : ℕ → Flow → Flow
free_sent b f = record f { send_free = b ∷ f.send_free }

-- The worker takes a request and allocates the buffer of its response. `none` is the failed
-- assertion that there is one; without a request the worker waits.
unfoldable pub take_work : Flow → Option Flow
take_work f = elim f.work [
  | [] ↦ some f
  | w ∷ ws ↦ elim f.send_free [
    | [] ↦ none
    | b ∷ bs ↦ some (record f { work = ws; send_free = bs; serving = some (w, b) })
  ]
]

-- The worker posts the response and frees the request.
abbrev pub respond : (w b : ℕ) → Flow → Flow
respond w b f = record f { sending = b ∷ f.sending; recv_free = w ∷ f.recv_free; serving = none }

-- One step of the poller or the worker. What completes is any buffer of those that are posted.
pub data Step : Flow → Flow → Type 0 where
  receive :
      {f : Flow} (b : ℕ) (before after : List ℕ)
      → f.posted ≡ before ++ (b ∷ after)
      → Step f (dispatch b (record f { posted = before ++ after }))
  sent :
      {f : Flow} (b : ℕ) (before after : List ℕ)
      → f.sending ≡ before ++ (b ∷ after)
      → Step f (free_sent b (record f { sending = before ++ after }))
  post : {f g : Flow} → post_receive f ≡ some g → Step f g
  take : {f g : Flow} → f.serving ≡ none → take_work f ≡ some g → Step f g
  respond_to : {f : Flow} (w b : ℕ) → f.serving ≡ some (w, b) → Step f (respond w b f)

pub data Steps : Flow → Flow → Type 0 where
  stop : {f : Flow} → Steps f f
  step_then : {f g h : Flow} → Step f g → Steps g h → Steps f h
