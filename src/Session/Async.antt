-- ===== src/Session/Async.antt =====
-- Sending and receiving without blocking does what the blocking calls do.
use nvds.Base.{
  ◌∙◌, ℕ, ◌+◌, ◌-◌, ◌%◌, ◌^◌, ◌≡◌, ◌<◌, refl, sym, ap, arith, false, Option, none, some, List,
}
use nvds.Message.{Header, Message, header_size, header_bytes, header_of}
use nvds.Session.{
  Pipe, IsPipe, send_message, recv_message, Action, read_body, deliver, log_error, header_handler,
  async_recv_message, perform, SendAction, async_send_message, send_perform, send_header_handler,
  body_handler, recv_body, recv_header,
}

module _ (p : Pipe) (w : IsPipe p) where
  abbrev pub outcome : Option (Message × p.Conn) → Action × Option p.Conn
  outcome none = (log_error, none)
  outcome (some (m, c)) = (deliver m, some c)

  async_body :
      (size : ℕ) (h : Header) (c : p.Conn) (r : Option (List ℕ × p.Conn))
      → p.read h.body_len c ≡ r
      → perform p (read_body size h.body_len h) c ≡ outcome (recv_body p h r)
  unfolding perform body_handler recv_body
  async_body size h c none e = rw (perform, e) refl
  async_body size h c (some (body, c')) e = rw (perform, e) refl

  async_header :
      (c : p.Conn) (r : Option (List ℕ × p.Conn))
      → p.read header_size c ≡ r
      → async_recv_message p c ≡ outcome (recv_header p r)
  unfolding async_recv_message header_handler recv_header
  async_header c none e = rw (async_recv_message, e) refl
  async_header c (some (bs, c')) e =
      rw (async_recv_message, e, w.read_full c c' header_size bs e)
        (async_body ((header_size + (header_of bs).body_len + 2 ^ 64 - header_size) % 2 ^ 64)
          (header_of bs) c' (p.read (header_of bs).body_len c') refl)

  -- On every connection whose successful reads fill their buffers, `AsyncRecvMessage` hands its
  -- handler the message that `RecvMessage` returns, and logs an error where that throws; and for a
  -- body of less than 4 GB the buffer that it reads the body into has exactly the body's size.
  pub async_recv_message-recv_message :
      (c : p.Conn) (h : Header)
      → h.body_len < 2 ^ 32
      → (async_recv_message p c ≡ outcome (recv_message p c))
        × (header_handler false header_size h ≡ read_body h.body_len h.body_len h)
  unfolding recv_message header_handler
  async_recv_message-recv_message c h k =
      let fits : (header_size + h.body_len + 2 ^ 64 - header_size) % 2 ^ 64 ≡ h.body_len =
        omega arith in
      (async_header c (p.read header_size c) refl, rw fits refl)

  send_message-header :
      (m : Message) (c c₁ : p.Conn)
      → p.write (header_bytes m.header) c ≡ some c₁
      → send_message p m c ≡ p.write m.body c₁
  unfolding send_message
  send_message-header m c c₁ e = rw (send_message, e) refl

  abbrev pub send_outcome : Option p.Conn → SendAction × Option p.Conn
  send_outcome none = (SendAction.log_error, none)
  send_outcome (some c) = (SendAction.notify, some c)

  send_body_step :
      (m : Message) (c c₁ : p.Conn) (r : Option p.Conn)
      → p.write (header_bytes m.header) c ≡ some c₁
      → p.write m.body c₁ ≡ r
      → async_send_message p m c ≡ send_outcome r
  unfolding async_send_message send_perform send_header_handler
  send_body_step m c c₁ none e₁ e₂ = rw (async_send_message, e₁, e₂) refl
  send_body_step m c c₁ (some c₂) e₁ e₂ = rw (async_send_message, e₁, e₂) refl

  send_header_step :
      (m : Message) (c : p.Conn) (r : Option p.Conn)
      → p.write (header_bytes m.header) c ≡ r
      → async_send_message p m c ≡ send_outcome (send_message p m c)
  unfolding async_send_message send_message send_header_handler
  send_header_step m c none e = rw (async_send_message, send_message, e) refl
  send_header_step m c (some c₁) e =
      send_body_step m c c₁ (p.write m.body c₁) e refl
      ∙ ap send_outcome (sym (send_message-header m c c₁ e))

  -- On every connection `AsyncSendMessage` writes what `SendMessage` writes: where that returns, its
  -- handler is called over the connection that is left, and where that throws an error is logged; its
  -- assertion on the header's length does not fail.
  pub async_send_message-send_message :
      (m : Message) (c : p.Conn) → async_send_message p m c ≡ send_outcome (send_message p m c)
  async_send_message-send_message m c =
      send_header_step m c (p.write (header_bytes m.header) c) refl
