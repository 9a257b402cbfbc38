-- ===== src/Infiniband.antt =====
-- Sending and receiving datagrams (`PostSend`, `GetAddrHandler` and `PollCQ` of src/infiniband.cc).
-- libibverbs is the parameter `AhVerbs`; a pointer is a number, 0 being null.
pub mod Reply
pub mod Waiting
use nvds.Base.{ℕ, ◌+◌, ◌≡◌, Bool, true, false, leb, ltb, ◌==◌, if◌then◌else◌}
use nvds.Index.{Address, update}
use nvds.QueuePair.{QpType, is_rc, Stepped, done, assert_failed, transport_exception, next_step}

abbrev pub max_inline_data : ℕ
max_inline_data = 128

abbrev pub port : ℕ
port = 1

-- `ibv_send_wr` and its one `ibv_sge`, as `PostSend` fills them
pub record SendRequest : Type 0 where
  pub wr_id : ℕ
  pub addr : ℕ
  pub len : ℕ
  pub ah : ℕ
  pub remote_qpn : ℕ
  pub signaled : Bool
  pub inline : Bool

-- `ibv_create_ah` on the attributes that vary, and the error of `ibv_post_send`
pub record AhVerbs : Type 0 where
  pub create_ah : (dlid port_num : ℕ) → ℕ
  pub post_send : SendRequest → ℕ

-- `addr_handlers_`, by local id
abbrev pub Handlers : Type 0
Handlers = ℕ → ℕ

-- `GetAddrHandler`
unfoldable pub get_addr_handler : AhVerbs → Address → Handlers → Stepped (ℕ × Handlers)
get_addr_handler v addr hs =
    let ah = v.create_ah addr.lid port in
    if hs addr.lid == 0
    then if ah == 0 then assert_failed else done (ah, update hs addr.lid ah)
    else done (hs addr.lid, hs)

-- `PostSend` of the buffer `b`, which holds its message at `buf`: what it posts, and the handlers
unfoldable pub post_send :
    AhVerbs → QpType → (b buf len : ℕ) → Address → Handlers → Stepped (SendRequest × Handlers)
unfolding get_addr_handler
post_send v type b buf len peer hs =
    if is_rc type
    then assert_failed
    else next_step (get_addr_handler v peer hs) (λ a.
      let swr : SendRequest = record {
        wr_id = b;
        addr = buf;
        len = len;
        ah = a.0;
        remote_qpn = peer.qpn;
        signaled = true;
        inline = leb len max_inline_data;
      } in
      if a.0 == 0
      then assert_failed
      else if v.post_send swr == 0
      then done (swr, a.1)
      else transport_exception (v.post_send swr))

-- `ibv_wc`, as far as `PollCQ` reads it; `status` 0 is `IBV_WC_SUCCESS`.
pub record Completion : Type 0 where
  pub status : ℕ
  pub wr_id : ℕ
  pub byte_len : ℕ
  pub slid : ℕ
  pub src_qp : ℕ

-- The number of completions that `ibv_poll_cq` returns
pub data Polled : Type 0 where
  empty : Polled
  failed : ℕ → Polled
  completed : Completion → Polled

-- The buffer that is returned, 0 if there is none, with the fields that are set
pub record Received : Type 0 where
  pub buffer : ℕ
  pub msg_len : ℕ
  pub peer_addr : Address

-- `PollCQ`; the error of the poll itself is negative, and stands here by its absolute value.
unfoldable pub poll_cq : Received → Polled → Stepped Received
poll_cq old empty = done (record old { buffer = 0 })
poll_cq old (failed e) = transport_exception e
poll_cq old (completed wc) =
    if wc.status == 0
    then done (record {
      buffer = wc.wr_id;
      msg_len = wc.byte_len;
      peer_addr = record { ib_port = port; lid = wc.slid; qpn = wc.src_qp };
    })
    else transport_exception wc.status
