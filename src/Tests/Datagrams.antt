-- ===== src/Tests/Datagrams.antt =====
-- A wait for a completion after two polls without one, and a response to a request from the queue pair 70 at the local id 4.
use nvds.Base.{◌+◌, ◌≡◌, ◌≤◌, refl, arith, true, ℕ, List, [], ◌∷◌, ◌++◌, All}
use nvds.Index.{Address, update}
use nvds.QueuePair.{QpType, done, transport_exception}
use nvds.Infiniband.{
  AhVerbs, SendRequest, Handlers, post_send, Completion, Polled, empty, failed, completed, Received,
  poll_cq, max_inline_data,
}
use nvds.Infiniband.Waiting.{receive, post_send_and_wait, ended, waits, check_status}
use nvds.Infiniband.Waiting.Polls.{IsQuiet, IsEmpty, post_send_and_wait-polls}
use nvds.Infiniband.Reply.{IsHandlers, post_send-poll_cq}

abbrev verbs : AhVerbs
verbs = record { create_ah = λ lid p. lid + 1; post_send = λ swr. 0 }

abbrev none_kept : Handlers
none_kept lid = 0

none_kept-IsHandlers : IsHandlers verbs none_kept
none_kept-IsHandlers = record { made = λ lid h. absurd (h refl) }

abbrev completion : Completion
completion = record { status = 0; wr_id = 8; byte_len = 60; slid = 4; src_qp = 70 }

abbrev before : Received
before = record { buffer = 0; msg_len = 0; peer_addr = record { ib_port = 1; lid = 0; qpn = 0 } }

post_send-poll_cq_example :
    (r : Received) × (swr : SendRequest) × (hs' : Handlers) × (poll_cq before (completed completion)
      ≡ done r)
    × (post_send verbs QpType.ud 16 1000 20 r.peer_addr none_kept ≡ done (swr, hs'))
    × (r.buffer ≡ 8)
    × (swr.remote_qpn ≡ 70)
    × (swr.ah ≡ 5)
    × (swr.wr_id ≡ 16)
    × (swr.inline ≡ true → 20 ≤ max_inline_data)
    × IsHandlers verbs hs'
post_send-poll_cq_example =
    post_send-poll_cq verbs (λ lid. omega arith) before completion 16 1000 20 none_kept
      none_kept-IsHandlers refl (λ swr. refl)

abbrev peer : Address
peer = record { ib_port = 1; lid = 4; qpn = 70 }

abbrev sent : SendRequest
sent = record {
  wr_id = 16;
  addr = 1000;
  len = 20;
  ah = 5;
  remote_qpn = 70;
  signaled = true;
  inline = true;
}

abbrev two_polls : List Polled
two_polls = empty ∷ failed 12 ∷ []

post_send_and_wait-polls_example :
    (post_send_and_wait verbs QpType.ud 16 1000 20 peer none_kept two_polls ≡ waits)
    × ((wc : Completion) (rest : List Polled)
        → post_send_and_wait verbs QpType.ud 16 1000 20 peer none_kept
            (two_polls ++ (completed wc ∷ rest))
          ≡ ended (check_status (sent, update none_kept 4 5) wc))
    × ((old : Received) (qs rest : List Polled) (e : ℕ)
        → All IsEmpty qs
        → receive old (qs ++ (failed e ∷ rest)) ≡ ended (transport_exception e))
unfolding post_send nvds.Infiniband.get_addr_handler
post_send_and_wait-polls_example =
    post_send_and_wait-polls verbs 16 1000 20 peer none_kept (sent, update none_kept 4 5) two_polls
      refl (IsQuiet.none_yet, (IsQuiet.poll_error, tt))
