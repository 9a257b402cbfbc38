-- ===== src/Client.antt =====
-- The client (src/client.h, src/client.cc): a request goes to the server of its key's hash, and the
-- response comes back in a buffer that was posted for it. The buffer pools are lists, which `Buffers`
-- shows them to be. What is not under src/ or is another machine is the parameter `Fabric`.
pub mod Answer
use nvds.Base.{ℕ, ◌+◌, ◌*◌, ◌≡◌, Bool, true, false, List, [], ◌∷◌, leb, ◌==◌, if◌then◌else◌, length}
use nvds.Index.{Address, ServerInfo, IndexManager, get_server, get_server_id}
use nvds.Request.{Kind, Status, Request, request, Response}

-- `kMaxItemSize`
abbrev pub max_item_size : ℕ
max_item_size = 1024

-- The sizes of the buffers, and the bytes in front of a received message: `kSendBufSize` and
-- `kRecvBufSize` of the client and of src/common.h, which the server uses, and `kIBUDPadding`
abbrev pub client_send_buf_size : ℕ
client_send_buf_size = 1024 * 2 + 128

abbrev pub client_recv_buf_size : ℕ
client_recv_buf_size = 1024 + 128

abbrev pub server_send_buf_size : ℕ
server_send_buf_size = 1024 + 128

abbrev pub server_recv_buf_size : ℕ
server_recv_buf_size = 1024 * 2 + 128

abbrev pub ib_ud_padding : ℕ
ib_ud_padding = 40

-- The pools, and the index that the coordinator sent
pub record Client : Type 0 where
  pub send_bufs : List ℕ
  pub recv_bufs : List ℕ
  pub index_manager : IndexManager

-- The hash of a key; the errors of `PostReceive` and `PostSendAndWait`, 0 being none; and the
-- buffer that the receive queue completes next, with the response in it, when the buffer `rb` is
-- posted and the request was sent.
pub record Fabric : Type 0 where
  pub hash : List ℕ → ℕ
  pub post_receive : (rb : ℕ) → ℕ
  pub post_send : Address → Request → ℕ
  pub receive : (rb : ℕ) → Address → Request → ℕ × Response

pub data Answered (A : Type 0) : Type 0 where
  done : A → Client → Answered A
  assert_failed : Answered A
  transport_exception : ℕ → Answered A

-- From the two buffers on
abbrev pub exchange : Fabric → ServerInfo → Request → (sb rb : ℕ) → Client → Answered (ℕ × Response)
exchange f server r sb rb c =
    let got = f.receive rb server.ib_addr r in
    if f.post_receive rb == 0
    then if f.post_send server.ib_addr r == 0
      then if rb == got.0
        then done (rb, got.1) (record c { send_bufs = sb ∷ c.send_bufs })
        else assert_failed
      else transport_exception (f.post_send server.ib_addr r)
    else transport_exception (f.post_receive rb)

-- `send_bufs_.Alloc()` and `recv_bufs_.Alloc()`, with the assertions that they gave a buffer
unfoldable pub allocate : Fabric → ServerInfo → Request → Client → Answered (ℕ × Response)
allocate f server r c = elim c.send_bufs [
  | [] ↦ assert_failed
  | sb ∷ sbs ↦ elim c.recv_bufs [
    | [] ↦ assert_failed
    | rb ∷ rbs ↦ exchange f server r sb rb (record c { send_bufs = sbs; recv_bufs = rbs })
  ]
]

-- `RequestAndWait`. `GetServer` asserts that the server has the number that it is found under.
unfoldable pub request_and_wait : Fabric → List ℕ → List ℕ → Kind → Client → Answered (ℕ × Response)
unfolding allocate
request_and_wait f key val kind c =
    let hash = f.hash key in
    let server = get_server c.index_manager hash in
    if leb (length key + length val) max_item_size
    then if server.id == get_server_id c.index_manager hash
      then allocate f server (request kind key val hash) c
      else assert_failed
    else assert_failed

-- `recv_bufs_.Free(rb)`, after the answer was read
abbrev pub finish : {A : Type 0} → (Response → A) → Answered (ℕ × Response) → Answered A
finish g (done (rb, resp) c) = done (g resp) (record c { recv_bufs = rb ∷ c.recv_bufs })
finish g assert_failed = assert_failed
finish g (transport_exception e) = transport_exception e

abbrev pub is_ok : Status → Bool
is_ok Status.ok = true
is_ok _ = false

-- `Get`, `Put`, `Add` and `Del`
unfoldable pub client_get : Fabric → List ℕ → Client → Answered (List ℕ)
unfolding request_and_wait
client_get f key c = finish (λ resp. resp.val) (request_and_wait f key [] Kind.get c)

unfoldable pub client_put : Fabric → List ℕ → List ℕ → Client → Answered Bool
unfolding request_and_wait
client_put f key val c = finish (λ resp. is_ok resp.status) (request_and_wait f key val Kind.put c)

unfoldable pub client_add : Fabric → List ℕ → List ℕ → Client → Answered Bool
unfolding request_and_wait
client_add f key val c = finish (λ resp. is_ok resp.status) (request_and_wait f key val Kind.add c)

unfoldable pub client_del : Fabric → List ℕ → Client → Answered Bool
unfolding request_and_wait
client_del f key c = finish (λ resp. is_ok resp.status) (request_and_wait f key [] Kind.del c)
