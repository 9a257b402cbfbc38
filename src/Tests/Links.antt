-- ===== src/Tests/Links.antt =====
-- Queues and pools of three buffers.
use nvds.Base.{◌≡◌, refl, List, [], ◌∷◌, arith}
use nvds.Buffers.{Pool, WorkQueue, link_from, enqueue, dequeue}
use nvds.Buffers.Fifo.{Op, enq, deq, run, run_list, run-run_list}

abbrev idle : WorkQueue
idle = record { head = 0; tail = 0; next = λ _. 0 }

abbrev session : List Op
session = enq 8 ∷ enq 16 ∷ deq ∷ enq 8 ∷ deq ∷ deq ∷ deq ∷ []

run-run_list_example : run idle session ≡ run_list [] session
run-run_list_example = run-run_list idle [] session refl (omega arith)

session_served : run idle session ≡ 8 ∷ 16 ∷ 8 ∷ 0 ∷ []
unfolding run enqueue dequeue
session_served = refl

abbrev pool : Pool
pool = record { root = 80; next = link_from 3 80 56 (λ _. 0) }
