-- ===== src/Infiniband/Waiting.antt =====
-- The operations of src/infiniband.cc that post a receive or a write, or wait for a completion:
-- `PostReceive`, `Receive`, `PostSendAndWait`, `PostWrite` and `PostWriteAndWait`.
pub mod Polls
use nvds.Base.{ℕ, ◌≡◌, Bool, true, false, List, [], ◌∷◌, ◌==◌, if◌then◌else◌}
use nvds.Index.{QueuePairInfo, Address}
use nvds.Infiniband.{
  Completion, Polled, empty, failed, completed, Received, SendRequest, AhVerbs, Handlers, poll_cq,
  post_send,
}
use nvds.QueuePair.{QpType, is_rc, Stepped, done, assert_failed, transport_exception, next_step}

-- How a wait ends, given what the calls of `ibv_poll_cq` in it find: `waits` where all calls of
-- the list were made and another would be
pub data Waited (A : Type 0) : Type 0 where
  ended : Stepped A → Waited A
  waits : Waited A

-- `Receive`: the loop of `TryReceive`, until a buffer is returned or an error is thrown
unfoldable pub receive : Received → List Polled → Waited Received
unfolding poll_cq
receive old [] = waits
receive old (empty ∷ ps) = receive old ps
receive old (failed e ∷ ps) = ended (poll_cq old (failed e))
receive old (completed wc ∷ ps) = ended (poll_cq old (completed wc))

-- `ibv_recv_wr` and its one `ibv_sge`, as `PostReceive` fills them
pub record ReceiveRequest : Type 0 where
  pub wr_id : ℕ
  pub addr : ℕ
  pub len : ℕ
  pub lkey : ℕ

-- `PostReceive` of the buffer `b` of `size` bytes at `buf`; `post_recv` is the error of
-- `ibv_post_recv`, 0 on success.
unfoldable pub post_receive :
    (post_recv : ReceiveRequest → ℕ) (b buf size lkey : ℕ) → Stepped ReceiveRequest
post_receive post_recv b buf size lkey =
    let rwr : ReceiveRequest = record { wr_id = b; addr = buf; len = size; lkey = lkey } in
    if post_recv rwr == 0 then done rwr else transport_exception (post_recv rwr)

-- The test of the completion's status after a wait
abbrev pub check_status : {A : Type 0} → A → Completion → Stepped A
check_status a wc = if wc.status == 0 then done a else transport_exception wc.status

-- The loops of `PostSendAndWait` and of `PostWriteAndWait`, which go on while `ibv_poll_cq` does
-- not return a completion: also where it returns an error
unfoldable pub wait : {A : Type 0} → A → List Polled → Waited A
wait a [] = waits
wait a (empty ∷ ps) = wait a ps
wait a (failed e ∷ ps) = wait a ps
wait a (completed wc ∷ ps) = ended (check_status a wc)

-- What follows the post: the wait, unless the post failed
abbrev pub and_wait : {A : Type 0} → Stepped A → List Polled → Waited A
and_wait (done a) ps = wait a ps
and_wait assert_failed ps = ended assert_failed
and_wait (transport_exception e) ps = ended (transport_exception e)

unfoldable pub post_send_and_wait :
    AhVerbs
    → QpType
    → (b buf len : ℕ) → Address
    → Handlers
    → List Polled
    → Waited (SendRequest × Handlers)
unfolding post_send wait
post_send_and_wait v type b buf len peer hs ps =
    if is_rc type then ended assert_failed else and_wait (post_send v type b buf len peer hs) ps

-- `ibv_send_wr` and its one `ibv_sge`, as `PostWrite` fills them
pub record WriteRequest : Type 0 where
  pub wr_id : ℕ
  pub addr : ℕ
  pub len : ℕ
  pub lkey : ℕ
  pub remote_addr : ℕ
  pub rkey : ℕ
  pub signaled : Bool

-- `PostWrite` of the first 64 bytes of the registered memory `raw_mem`
unfoldable pub post_write :
    (post : WriteRequest → ℕ) (raw_mem lkey : ℕ) → QueuePairInfo → Stepped WriteRequest
post_write post raw_mem lkey peer =
    let swr : WriteRequest = record {
      wr_id = 3;
      addr = raw_mem;
      len = 64;
      lkey = lkey;
      remote_addr = peer.vaddr;
      rkey = peer.rkey;
      signaled = true;
    } in
    if post swr == 0 then done swr else transport_exception (post swr)

unfoldable pub post_write_and_wait :
    (post : WriteRequest → ℕ) (raw_mem lkey : ℕ) → QueuePairInfo → List Polled → Waited WriteRequest
unfolding post_write wait
post_write_and_wait post raw_mem lkey peer ps = and_wait (post_write post raw_mem lkey peer) ps
