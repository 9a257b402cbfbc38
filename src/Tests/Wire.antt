-- ===== src/Tests/Wire.antt =====
-- Messages over a connection that is the list of its bytes.
use nvds.Base.{
  ℕ, zero, suc, ◌≡◌, refl, sym, ap, arith, true, false, Option, none, some, List, [], ◌∷◌, ◌++◌,
  length, take, drop, leb, if◌then◌else◌, All, Bool-cases, inl, inr,
}
use nvds.Message.{SenderType, MessageType, Message, Header, message, IsMessage, header_size}
use nvds.Session.{
  Pipe, IsPipe, send_all, recv_all, recv_message, send_message, async_send_message,
  async_recv_message, header_handler, read_body,
}
use nvds.Session.Framing.{recv_all-send_all}
use nvds.Session.Async.{
  async_recv_message-recv_message, outcome, async_send_message-send_message, send_outcome,
}

abbrev read_bytes : ℕ → List ℕ → Option (List ℕ × List ℕ)
read_bytes n c = if leb n (length c) then some (take n c, drop n c) else none

abbrev pub bytes_pipe : Pipe
bytes_pipe = record { Conn = List ℕ; read = read_bytes; write = λ xs c. some (c ++ xs) }

leb-length : (xs ys : List ℕ) → leb (length xs) (length (xs ++ ys)) ≡ true
leb-length [] ys = ground arith
leb-length (x ∷ xs) ys = let ih = leb-length xs ys in ground arith

take-append : (xs ys : List ℕ) → take (length xs) (xs ++ ys) ≡ xs
take-append [] ys = refl
take-append (x ∷ xs) ys = ap (λ zs. x ∷ zs) (take-append xs ys)

drop-append : (xs ys : List ℕ) → drop (length xs) (xs ++ ys) ≡ ys
drop-append [] ys = refl
drop-append (x ∷ xs) ys = drop-append xs ys

length-take : (n : ℕ) (c : List ℕ) → leb n (length c) ≡ true → length (take n c) ≡ n
length-take zero c h = refl
length-take (suc n) [] h = ground arith
length-take (suc n) (x ∷ c) h = ap suc (length-take n c (ground arith))

read_bytes-full :
    (c c' : List ℕ) (n : ℕ) (xs : List ℕ) → read_bytes n c ≡ some (xs, c') → length xs ≡ n
read_bytes-full c c' n xs e = elim (Bool-cases (leb n (length c))) [
  | inl h ↦ let same : take n c ≡ xs = cc in rw (sym same) (length-take n c h)
  | inr h ↦ cc
]

pub bytes_pipe-IsPipe : IsPipe bytes_pipe
bytes_pipe-IsPipe = record {
  Pending = λ c bs. c ≡ bs;
  write_all = λ c bs xs e. (c ++ xs, refl, ap (λ zs. zs ++ xs) e);
  read_all =
      λ c xs ys e. (ys, rw (e, leb-length xs ys, take-append xs ys, drop-append xs ys) refl, refl);
  read_full = λ c c' n xs e. read_bytes-full c c' n xs e;
}

abbrev requests : List Message
requests =
    message SenderType.server MessageType.req_join (123 ∷ 125 ∷ [])
    ∷ message SenderType.client MessageType.req_join []
    ∷ []

requests-IsMessage : All IsMessage requests
requests-IsMessage = (
  record { sender = tt; type = tt; body = refl; size = omega arith },
  (record { sender = tt; type = tt; body = refl; size = omega arith }, tt),
)

pub all_pending : (c : List ℕ) → bytes_pipe-IsPipe.Pending c c
unfolding bytes_pipe-IsPipe
all_pending c = refl

recv_all-send_all_example :
    (c₁ : List ℕ) × (c₂ : List ℕ) × (send_all bytes_pipe requests [] ≡ some c₁)
    × (recv_all bytes_pipe 2 c₁ ≡ some (requests, c₂))
    × bytes_pipe-IsPipe.Pending c₂ []
recv_all-send_all_example =
    recv_all-send_all bytes_pipe bytes_pipe-IsPipe requests [] requests-IsMessage (all_pending [])

abbrev one_message : List ℕ
one_message = 1 ∷ 0 ∷ 2 ∷ 0 ∷ 0 ∷ 0 ∷ 123 ∷ 125 ∷ []

abbrev join_header : Header
join_header = record { sender_type = SenderType.server; type = MessageType.req_join; body_len = 2 }

async_recv_message-recv_message_example :
    (async_recv_message bytes_pipe one_message
      ≡ outcome bytes_pipe bytes_pipe-IsPipe (recv_message bytes_pipe one_message))
    × (header_handler false header_size join_header ≡ read_body 2 2 join_header)
async_recv_message-recv_message_example =
    async_recv_message-recv_message bytes_pipe bytes_pipe-IsPipe one_message join_header
      (omega arith)

async_send_message-send_message_example :
    async_send_message bytes_pipe (message SenderType.server MessageType.ack_ok []) []
    ≡ send_outcome bytes_pipe bytes_pipe-IsPipe
        (send_message bytes_pipe (message SenderType.server MessageType.ack_ok []) [])
async_send_message-send_message_example =
    async_send_message-send_message bytes_pipe bytes_pipe-IsPipe
      (message SenderType.server MessageType.ack_ok []) []
