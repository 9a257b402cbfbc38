-- ===== src/Buffers/Fifo.antt =====
-- A work queue is a first-in first-out list of buffers.
use nvds.Base.{
  ◌≡◌, ◌≢◌, refl, ap, arith, ◌==◌, List, [], ◌∷◌, ◌++◌, Bool-cases, inl, inr, true, false,
}
use nvds.Buffers.{Ptr, Next, set_next, WorkQueue, enqueue, dequeue}

abbrev pub NotIn : Ptr → List Ptr → Type 0
NotIn w [] = Unit
NotIn w (v ∷ vs) = (w ≢ v) × NotIn w vs

-- From the buffer `w` the links lead through `ws` to `tail`; no buffer is null or stands twice.
abbrev pub Links : Next → Ptr → List Ptr → Ptr → Type 0
Links next w [] tail = (w ≢ 0) × (tail ≡ w)
Links next w (v ∷ vs) tail = ((w ≢ 0) × NotIn w (v ∷ vs)) × (next w ≡ v) × Links next v vs tail

-- The queue holds the buffers `ws`, the next one to be served first.
abbrev pub Holds : WorkQueue → List Ptr → Type 0
Holds q [] = q.head ≡ 0
Holds q (w ∷ ws) = (q.head ≡ w) × Links q.next w ws q.tail

NotIn-append : (w x : Ptr) (ws : List Ptr) → NotIn w ws → w ≢ x → NotIn w (ws ++ x ∷ [])
NotIn-append w x [] h k = (k, tt)
NotIn-append w x (v ∷ vs) h k = (h.0, NotIn-append w x vs h.1 k)

tail_ne :
    (next : Next) (w tail x : Ptr) (ws : List Ptr)
    → Links next w ws tail
    → NotIn x (w ∷ ws)
    → x ≢ tail
tail_ne next w tail x [] l n = ground arith
tail_ne next w tail x (v ∷ vs) l n = tail_ne next v tail x vs l.2 n.1

Links-enqueue :
    (next : Next) (w tail x : Ptr) (ws : List Ptr)
    → Links next w ws tail
    → x ≢ 0
    → NotIn x (w ∷ ws)
    → Links (set_next next tail x) w (ws ++ x ∷ []) x
Links-enqueue next w tail x [] l nz n = ((l.0, (ground arith, tt)), ground arith, (nz, refl))
Links-enqueue next w tail x (v ∷ vs) l nz n = (
  (l.0.0, NotIn-append w x (v ∷ vs) l.0.1 (ground arith)),
  ground (arith, tail_ne next v tail w vs l.2 l.0.1),
  Links-enqueue next v tail x vs l.2 nz n.1,
)

first_ne_null : (next : Next) (w tail : Ptr) (ws : List Ptr) → Links next w ws tail → w ≢ 0
first_ne_null next w tail [] l = l.0
first_ne_null next w tail (v ∷ vs) l = l.0.0

-- A buffer that the queue does not hold goes to the end of it.
pub enqueue-Holds :
    (q : WorkQueue) (ws : List Ptr) (x : Ptr)
    → Holds q ws
    → x ≢ 0
    → NotIn x ws
    → Holds (enqueue x q) (ws ++ x ∷ [])
unfolding enqueue
enqueue-Holds q [] x h nz n = rw h (refl, (nz, refl))
enqueue-Holds q (w ∷ ws) x h nz n = elim (Bool-cases (q.head == 0)) [
  | inl e ↦ absurd (first_ne_null q.next w q.tail ws h.1 (ground arith))
  | inr e ↦ rw e (h.0, Links-enqueue q.next w q.tail x ws h.1 nz n)
]

-- The first buffer leaves the queue, and the rest stays.
pub dequeue-Holds :
    (q : WorkQueue) (w : Ptr) (ws : List Ptr)
    → Holds q (w ∷ ws)
    → ((dequeue q).0 ≡ w) × Holds (dequeue q).1 ws
unfolding dequeue
dequeue-Holds q w [] h =
    let busy : (q.head == 0) ≡ false = ground (arith, h.1.0) in
    let last : (q.head == q.tail) ≡ true = ground arith in rw (busy, last) (h.0, refl)
dequeue-Holds q w (v ∷ vs) h =
    let busy : (q.head == 0) ≡ false = ground (arith, h.1.0.0) in
    let more : (q.head == q.tail) ≡ false =
      ground (arith, tail_ne q.next v q.tail w vs h.1.2 h.1.0.1) in
    rw (busy, more) (h.0, (rw h.0 h.1.1, h.1.2))

pub dequeue-empty : (q : WorkQueue) → Holds q [] → (dequeue q).0 ≡ 0 × Holds (dequeue q).1 []
unfolding dequeue
dequeue-empty q h = let idle : (q.head == 0) ≡ true = ground arith in rw idle (refl, h)

-- What the poller and a worker do to a queue
pub data Op : Type 0 where
  enq : Ptr → Op
  deq : Op

-- What the worker gets, a null pointer included, and the queue that is left
unfoldable pub run : WorkQueue → List Op → List Ptr
run q [] = []
run q (enq w ∷ ops) = run (enqueue w q) ops
run q (deq ∷ ops) = (dequeue q).0 ∷ run (dequeue q).1 ops

abbrev pub first : List Ptr → Ptr
first [] = 0
first (w ∷ ws) = w

abbrev pub others : List Ptr → List Ptr
others [] = []
others (w ∷ ws) = ws

-- The same on a list, at whose end buffers are added and from whose front they are taken
unfoldable pub run_list : List Ptr → List Op → List Ptr
run_list ws [] = []
run_list ws (enq w ∷ ops) = run_list (ws ++ w ∷ []) ops
run_list ws (deq ∷ ops) = first ws ∷ run_list (others ws) ops

-- No null pointer is added, and no buffer that is in the queue at the time.
abbrev pub Proper : List Ptr → List Op → Type 0
Proper ws [] = Unit
Proper ws (enq w ∷ ops) = ((w ≢ 0) × NotIn w ws) × Proper (ws ++ w ∷ []) ops
Proper ws (deq ∷ ops) = Proper (others ws) ops

-- Any sequence of enqueues and dequeues, of buffers that are not in the queue when they are added,
-- gets from the linked queue what it gets from a first-in first-out list.
pub run-run_list :
    (q : WorkQueue) (ws : List Ptr) (ops : List Op)
    → Holds q ws
    → Proper ws ops
    → run q ops ≡ run_list ws ops
unfolding run run_list
run-run_list q ws [] h p = refl
run-run_list q ws (enq w ∷ ops) h p =
    run-run_list (enqueue w q) (ws ++ w ∷ []) ops (enqueue-Holds q ws w h p.0.0 p.0.1) p.1
run-run_list q [] (deq ∷ ops) h p =
    let d = dequeue-empty q h in rw d.0 (ap (λ l. 0 ∷ l) (run-run_list (dequeue q).1 [] ops d.1 p))
run-run_list q (w ∷ ws) (deq ∷ ops) h p =
    let d = dequeue-Holds q w ws h in
    rw d.0 (ap (λ l. w ∷ l) (run-run_list (dequeue q).1 ws ops d.1 p))
