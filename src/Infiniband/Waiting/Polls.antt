-- ===== src/Infiniband/Waiting/Polls.antt =====
-- Waiting for a completion: the first one ends the wait, and errors of the poll do not.
use nvds.Base.{ℕ, ◌≡◌, refl, List, [], ◌∷◌, ◌++◌, All}
use nvds.Index.{Address}
use nvds.Infiniband.{
  Completion, Polled, empty, failed, completed, Received, SendRequest, AhVerbs, Handlers, poll_cq,
  post_send,
}
use nvds.Infiniband.Waiting.{ended, waits, wait, receive, check_status, post_send_and_wait}
use nvds.QueuePair.{QpType, done, transport_exception}

-- A poll that finds no completion, and one that finds nothing at all
pub data IsQuiet : Polled → Type 0 where
  none_yet : IsQuiet empty
  poll_error : {e : ℕ} → IsQuiet (failed e)

pub data IsEmpty : Polled → Type 0 where
  nothing : IsEmpty empty

wait-quiet : {A : Type 0} → (a : A) (ps : List Polled) → All IsQuiet ps → wait a ps ≡ waits
unfolding wait
wait-quiet a [] q = refl
wait-quiet a (empty ∷ ps) q = wait-quiet a ps q.1
wait-quiet a (failed e ∷ ps) q = wait-quiet a ps q.1
wait-quiet a (completed wc ∷ ps) (q, qs) = elim q [ ]

wait-first :
    {A : Type 0}
    → (a : A) (ps rest : List Polled) (wc : Completion) → All IsQuiet ps
    → wait a (ps ++ (completed wc ∷ rest)) ≡ ended (check_status a wc)
unfolding wait
wait-first a [] rest wc q = refl
wait-first a (empty ∷ ps) rest wc q = wait-first a ps rest wc q.1
wait-first a (failed e ∷ ps) rest wc q = wait-first a ps rest wc q.1
wait-first a (completed wc' ∷ ps) rest wc (q, qs) = elim q [ ]

receive-first :
    (old : Received) (ps rest : List Polled) (e : ℕ)
    → All IsEmpty ps
    → receive old (ps ++ (failed e ∷ rest)) ≡ ended (transport_exception e)
unfolding receive poll_cq
receive-first old [] rest e q = refl
receive-first old (empty ∷ ps) rest e q = receive-first old ps rest e q.1
receive-first old (failed e' ∷ ps) rest e (q, qs) = elim q [ ]
receive-first old (completed wc ∷ ps) rest e (q, qs) = elim q [ ]

-- Once `PostSendAndWait` of a queue pair for datagrams has posted its message, polls that find no
-- completion do not end it, however many they are and also where `ibv_poll_cq` returns errors; the
-- first completion ends it, with an exception if its status is an error. `Receive` instead throws
-- the first error of the poll.
pub post_send_and_wait-polls :
    (v : AhVerbs) (b buf len : ℕ) (peer : Address) (hs : Handlers) (a : SendRequest × Handlers)
    (ps : List Polled)
    → post_send v QpType.ud b buf len peer hs ≡ done a
    → All IsQuiet ps
    → (post_send_and_wait v QpType.ud b buf len peer hs ps ≡ waits)
      × ((wc : Completion) (rest : List Polled)
          → post_send_and_wait v QpType.ud b buf len peer hs (ps ++ (completed wc ∷ rest))
            ≡ ended (check_status a wc))
      × ((old : Received) (qs rest : List Polled) (e : ℕ)
          → All IsEmpty qs
          → receive old (qs ++ (failed e ∷ rest)) ≡ ended (transport_exception e))
unfolding post_send_and_wait
post_send_and_wait-polls v b buf len peer hs a ps posted quiet = (
  rw (post_send_and_wait, posted) (wait-quiet a ps quiet),
  λ wc rest. rw (post_send_and_wait, posted) (wait-first a ps rest wc quiet),
  receive-first,
)
