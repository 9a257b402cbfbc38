-- ===== src/Session.antt =====
-- A session (src/session.h, src/session.cc): messages over one direction of a TCP connection, sent
-- and received with and without blocking. Boost.Asio is the parameter `Pipe`.
pub mod Async
pub mod Framing
use nvds.Base.{
  ℕ, zero, suc, ◌+◌, ◌-◌, ◌%◌, ◌^◌, ◌≡◌, Bool, true, false, Option, none, some, List, [], ◌∷◌, ◌++◌,
  length, leb, if◌then◌else◌,
}
use nvds.Message.{Header, Message, header_size, header_bytes, header_of}

-- What the source calls of Boost.Asio on a connected socket: `read` and `async_read` into a buffer
-- of some bytes, and `write` and `async_write`. `none` is the error.
pub record Pipe : Type 1 where
  pub Conn : Type 0
  pub read : ℕ → Conn → Option (List ℕ × Conn)
  pub write : List ℕ → Conn → Option Conn

-- What Boost.Asio documents of them, for a connection that does not fail: `Pending c bs` says that
-- `bs` were written to it and not read. A read that succeeds has filled its buffer.
pub record IsPipe (p : Pipe) : Type 1 where
  pub Pending : p.Conn → List ℕ → Type 0
  pub write_all :
      (c : p.Conn) (bs xs : List ℕ)
      → Pending c bs
      → (c' : p.Conn) × (p.write xs c ≡ some c') × Pending c' (bs ++ xs)
  pub read_all :
      (c : p.Conn) (xs ys : List ℕ)
      → Pending c (xs ++ ys)
      → (c' : p.Conn) × (p.read (length xs) c ≡ some (xs, c')) × Pending c' ys
  pub read_full : (c c' : p.Conn) (n : ℕ) (xs : List ℕ) → p.read n c ≡ some (xs, c') → length xs ≡ n

module _ (p : Pipe) where
  -- `SendMessage` and `RecvMessage`; `none` is the exception
  unfoldable pub send_message : Message → p.Conn → Option p.Conn
  send_message m c = elim (p.write (header_bytes m.header) c) [
    | none ↦ none
    | some c' ↦ p.write m.body c'
  ]

  unfoldable pub recv_body : Header → Option (List ℕ × p.Conn) → Option (Message × p.Conn)
  recv_body h none = none
  recv_body h (some (body, c)) = some (record { header = h; body = body }, c)

  unfoldable pub recv_header : Option (List ℕ × p.Conn) → Option (Message × p.Conn)
  unfolding recv_body
  recv_header none = none
  recv_header (some (bs, c)) = recv_body (header_of bs) (p.read (header_of bs).body_len c)

  unfoldable pub recv_message : p.Conn → Option (Message × p.Conn)
  unfolding recv_header
  recv_message c = recv_header (p.read header_size c)

  -- Messages one after the other
  unfoldable pub send_all : List Message → p.Conn → Option p.Conn
  send_all [] c = some c
  send_all (m ∷ ms) c = elim (send_message m c) [ none ↦ none | some c' ↦ send_all ms c' ]

  unfoldable pub recv_all : ℕ → p.Conn → Option (List Message × p.Conn)
  recv_all zero c = some ([], c)
  recv_all (suc n) c = elim (recv_message c) [
    | none ↦ none
    | some (m, c') ↦ elim (recv_all n c') [ none ↦ none | some (ms, c'') ↦ some (m ∷ ms, c'') ]
  ]

-- What a handler of `AsyncRecvMessage` does next: an `async_read` of `requested` bytes into a body
-- that was resized to `size`, a call of `recv_msg_handler_`, an error message, or a failed
-- assertion
pub data Action : Type 0 where
  read_body : (size requested : ℕ) → Header → Action
  deliver : Message → Action
  log_error : Action
  assert_failed : Action

-- `header_handler`, on the outcome of the read; `size_t` wraps at 2 ^ 64.
unfoldable pub header_handler : (err : Bool) (bytes_transferred : ℕ) → Header → Action
header_handler true bytes_transferred h = log_error
header_handler false bytes_transferred h =
    if leb header_size bytes_transferred
    then read_body ((header_size + h.body_len + 2 ^ 64 - bytes_transferred) % 2 ^ 64) h.body_len h
    else assert_failed

-- `body_handler`
unfoldable pub body_handler : (err : Bool) → Header → List ℕ → Action
body_handler true h body = log_error
body_handler false h body = deliver (record { header = h; body = body })

module _ (p : Pipe) where
  -- The action runs: the read of the body completes with its handler.
  unfoldable pub perform : Action → p.Conn → Action × Option p.Conn
  unfolding body_handler
  perform (read_body size requested h) c = elim (p.read requested c) [
    | none ↦ (body_handler true h [], none)
    | some (body, c') ↦ (body_handler false h body, some c')
  ]
  perform a c = (a, some c)

  -- `AsyncRecvMessage` until one of its handlers starts no other read
  unfoldable pub async_recv_message : p.Conn → Action × Option p.Conn
  unfolding perform header_handler
  async_recv_message c = elim (p.read header_size c) [
    | none ↦ (header_handler true 0 (header_of []), none)
    | some (bs, c') ↦ perform (header_handler false (length bs) (header_of bs)) c'
  ]

-- What the handlers of `AsyncSendMessage` do next: an `async_write` of the body, a call of
-- `send_msg_handler_`, an error message, or a failed assertion
pub data SendAction : Type 0 where
  write_body : SendAction
  notify : SendAction
  log_error : SendAction
  assert_failed : SendAction

unfoldable pub send_header_handler : (err : Bool) (bytes_transferred : ℕ) → SendAction
send_header_handler true n = log_error
send_header_handler false n = if leb header_size n then write_body else assert_failed

abbrev pub send_body_handler : (err : Bool) → SendAction
send_body_handler true = log_error
send_body_handler false = notify

module _ (p : Pipe) where
  unfoldable pub send_perform : List ℕ → SendAction → p.Conn → SendAction × Option p.Conn
  send_perform body write_body c = elim (p.write body c) [
    | none ↦ (send_body_handler true, none)
    | some c' ↦ (send_body_handler false, some c')
  ]
  send_perform body a c = (a, some c)

  -- `AsyncSendMessage` until its last handler
  unfoldable pub async_send_message : Message → p.Conn → SendAction × Option p.Conn
  unfolding send_perform send_header_handler
  async_send_message m c = elim (p.write (header_bytes m.header) c) [
    | none ↦ (send_header_handler true 0, none)
    | some c' ↦ send_perform m.body (send_header_handler false (length (header_bytes m.header))) c'
  ]
