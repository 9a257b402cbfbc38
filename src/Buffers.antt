-- ===== src/Buffers.antt =====
-- Message buffers (src/infiniband.h): the pool that they are taken from, and the links in them that
-- the pool and the server's work queues (src/server.h) use. A buffer is its address, 0 being
-- `nullptr`; both structures lock around each operation, so an operation is one step.
pub mod Fifo
pub mod Stack
use nvds.Base.{ℕ, ◌+◌, Bool, ◌==◌, if◌then◌else◌, List, [], ◌∷◌}

abbrev pub Ptr : Type 0
Ptr = ℕ

-- `Buffer::next` of every buffer
abbrev pub Next : Type 0
Next = Ptr → Ptr

abbrev pub set_next : Next → Ptr → Ptr → Next
set_next next b p x = if x == b then p else next x

-- `RegisteredBuffers`: `root_`
pub record Pool : Type 0 where
  pub root : Ptr
  pub next : Next

-- `Alloc`
unfoldable pub alloc : Pool → Ptr × Pool
alloc pool =
    (pool.root, if pool.root == 0 then pool else record pool { root = pool.next pool.root })

-- `Free`
unfoldable pub free : Ptr → Pool → Pool
free b pool = record pool { root = b; next = set_next pool.next b pool.root }

-- The constructor's loop: `n` buffers of `size` bytes from `first` on, linked in order
unfoldable pub link_from : ℕ → Ptr → ℕ → Next → Next
link_from ℕ.zero first size next = next
link_from (ℕ.suc n) first size next =
    let after : Ptr = if n == 0 then 0 else first + size in
    link_from n (first + size) size (set_next next first after)

-- `WorkQueue`: `head_` and `tail_`
pub record WorkQueue : Type 0 where
  pub head : Ptr
  pub tail : Ptr
  pub next : Next

unfoldable pub enqueue : Ptr → WorkQueue → WorkQueue
enqueue work q =
    if q.head == 0
    then record q { head = work; tail = work }
    else record q { tail = work; next = set_next q.next q.tail work }

unfoldable pub dequeue : WorkQueue → Ptr × WorkQueue
dequeue q =
    if q.head == 0
    then (0, q)
    else if q.head == q.tail
    then (q.head, record q { head = 0; tail = 0 })
    else (q.head, record q { head = q.next q.head })
