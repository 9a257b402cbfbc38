-- ===== src/Session/Framing.antt =====
-- Messages sent over a connection are received as they were sent.
use nvds.Base.{
  ℕ, suc, ◌≡◌, refl, sym, ap, subst, some, List, [], ◌∷◌, ◌++◌, append_assoc, append-nil, length,
  All,
}
use nvds.Message.{
  Header, Message, IsMessage, header_size, header_bytes, header_of, header_of-header_bytes,
}
use nvds.Session.{Pipe, IsPipe, send_message, recv_message, send_all, recv_all}

abbrev pub bytes_of : List Message → List ℕ
bytes_of [] = []
bytes_of (m ∷ ms) = (header_bytes m.header ++ m.body) ++ bytes_of ms

module _ (p : Pipe) (w : IsPipe p) where
  send_message-step :
      (m : Message) (c c₁ c₂ : p.Conn)
      → p.write (header_bytes m.header) c ≡ some c₁
      → p.write m.body c₁ ≡ some c₂
      → send_message p m c ≡ some c₂
  unfolding send_message
  send_message-step m c c₁ c₂ e₁ e₂ = rw (send_message, e₁) e₂

  recv_message-step :
      (h : Header) (bs body : List ℕ) (c c₁ c₂ : p.Conn)
      → p.read header_size c ≡ some (bs, c₁)
      → header_of bs ≡ h
      → p.read h.body_len c₁ ≡ some (body, c₂)
      → recv_message p c ≡ some (record { header = h; body = body }, c₂)
  unfolding recv_message
  recv_message-step h bs body c c₁ c₂ e₁ eh e₂ =
      rw (recv_message, e₁, eh, ap (λ x. x.body_len) eh, e₂) refl

  pub send_message-Pending :
      (m : Message) (c : p.Conn) (bs : List ℕ)
      → w.Pending c bs
      → (c' : p.Conn) × (send_message p m c ≡ some c')
        × w.Pending c' (bs ++ (header_bytes m.header ++ m.body))
  send_message-Pending m c bs h =
      let (c₁, sent, h₁) = w.write_all c bs (header_bytes m.header) h in
      let (c₂, sent₂, h₂) = w.write_all c₁ (bs ++ header_bytes m.header) m.body h₁ in
      (
        c₂,
        send_message-step m c c₁ c₂ sent sent₂,
        subst (w.Pending c₂) (append_assoc bs (header_bytes m.header) m.body) h₂,
      )

  pub recv_message-Pending :
      (m : Message) (c : p.Conn) (bs : List ℕ)
      → IsMessage m
      → w.Pending c ((header_bytes m.header ++ m.body) ++ bs)
      → (c' : p.Conn) × (recv_message p c ≡ some (m, c')) × w.Pending c' bs
  recv_message-Pending m c bs k h =
      let (c₁, got, h₁) =
        w.read_all c (header_bytes m.header) (m.body ++ bs)
          (subst (w.Pending c) (append_assoc (header_bytes m.header) m.body bs) h) in
      let (c₂, got₂, h₂) = w.read_all c₁ m.body bs h₁ in
      (
        c₂,
        recv_message-step m.header (header_bytes m.header) m.body c c₁ c₂ got
            (header_of-header_bytes m k)
            (subst (λ n. p.read n c₁ ≡ some (m.body, c₂)) (sym k.body) got₂),
        h₂,
      )

  send_all-step :
      (m : Message) (ms : List Message) (c c₁ c₂ : p.Conn)
      → send_message p m c ≡ some c₁
      → send_all p ms c₁ ≡ some c₂
      → send_all p (m ∷ ms) c ≡ some c₂
  unfolding send_all
  send_all-step m ms c c₁ c₂ e₁ e₂ = rw (send_all, e₁) e₂

  recv_all-step :
      (m : Message) (ms : List Message) (n : ℕ) (c c₁ c₂ : p.Conn)
      → recv_message p c ≡ some (m, c₁)
      → recv_all p n c₁ ≡ some (ms, c₂)
      → recv_all p (suc n) c ≡ some (m ∷ ms, c₂)
  unfolding recv_all
  recv_all-step m ms n c c₁ c₂ e₁ e₂ = rw (recv_all, e₁, e₂) refl

  send_all-Pending :
      (ms : List Message) (c : p.Conn) (bs : List ℕ)
      → w.Pending c bs
      → (c' : p.Conn) × (send_all p ms c ≡ some c') × w.Pending c' (bs ++ bytes_of ms)
  unfolding send_all
  send_all-Pending [] c bs h = (c, refl, subst (w.Pending c) (sym (append-nil bs)) h)
  send_all-Pending (m ∷ ms) c bs h =
      let (c₁, sent, h₁) = send_message-Pending m c bs h in
      let (c₂, sent₂, h₂) = send_all-Pending ms c₁ (bs ++ (header_bytes m.header ++ m.body)) h₁ in
      (
        c₂,
        send_all-step m ms c c₁ c₂ sent sent₂,
        subst (w.Pending c₂) (append_assoc bs (header_bytes m.header ++ m.body) (bytes_of ms)) h₂,
      )

  recv_all-Pending :
      (ms : List Message) (c : p.Conn)
      → All IsMessage ms
      → w.Pending c (bytes_of ms)
      → (c' : p.Conn) × (recv_all p (length ms) c ≡ some (ms, c')) × w.Pending c' []
  unfolding recv_all
  recv_all-Pending [] c k h = (c, refl, h)
  recv_all-Pending (m ∷ ms) c k h =
      let (c₁, got, h₁) = recv_message-Pending m c (bytes_of ms) k.0 h in
      let (c₂, got₂, h₂) = recv_all-Pending ms c₁ k.1 h₁ in
      (c₂, recv_all-step m ms (length ms) c c₁ c₂ got got₂, h₂)

  -- Over a connection that delivers bytes in order and on which nothing is pending, messages with
  -- bodies of less than 4 GB that are sent with `SendMessage` are received by as many calls of
  -- `RecvMessage`, each as it was sent and in order, and nothing is left.
  pub recv_all-send_all :
      (ms : List Message) (c : p.Conn)
      → All IsMessage ms
      → w.Pending c []
      → (c₁ : p.Conn) × (c₂ : p.Conn) × (send_all p ms c ≡ some c₁)
        × (recv_all p (length ms) c₁ ≡ some (ms, c₂))
        × w.Pending c₂ []
  recv_all-send_all ms c k h =
      let (c₁, sent, h₁) = send_all-Pending ms c [] h in
      let (c₂, got, h₂) = recv_all-Pending ms c₁ k h₁ in (c₁, c₂, sent, got, h₂)
