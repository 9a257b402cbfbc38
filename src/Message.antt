-- ===== src/Message.antt =====
-- Messages between the programs of the cluster (`Message` of src/message.h) and the bytes of their
-- header. An `enum class` of one byte can hold any byte: `other` holds those that have no name.
pub mod Json
use nvds.Base.{
  ℕ, zero, suc, ◌+◌, ◌*◌, ◌/◌, ◌%◌, ◌^◌, ◌<◌, ◌≤◌, ◌≡◌, refl, arith, List, [], ◌∷◌, length, get_or,
  ◌==◌, if◌then◌else◌,
}
use nvds.Nvm.{bytes32}

pub data SenderType : Type 0 where
  coordinator server client : SenderType
  other : ℕ → SenderType

pub data MessageType : Type 0 where
  req_join req_leave res_join res_cluster_info qp_info_exch ack_reject ack_error ack_ok :
      MessageType
  other : ℕ → MessageType

abbrev pub sender_code : SenderType → ℕ
sender_code SenderType.coordinator = 0
sender_code SenderType.server = 1
sender_code SenderType.client = 2
sender_code (SenderType.other n) = n

abbrev pub type_code : MessageType → ℕ
type_code MessageType.req_join = 0
type_code MessageType.req_leave = 1
type_code MessageType.res_join = 2
type_code MessageType.res_cluster_info = 3
type_code MessageType.qp_info_exch = 4
type_code MessageType.ack_reject = 5
type_code MessageType.ack_error = 6
type_code MessageType.ack_ok = 7
type_code (MessageType.other n) = n

abbrev pub sender_of : ℕ → SenderType
sender_of n =
    if n == 0
    then SenderType.coordinator
    else if n == 1
    then SenderType.server
    else if n == 2
    then SenderType.client
    else SenderType.other n

abbrev pub type_of : ℕ → MessageType
type_of n =
    if n == 0
    then MessageType.req_join
    else if n == 1
    then MessageType.req_leave
    else if n == 2
    then MessageType.res_join
    else if n == 3
    then MessageType.res_cluster_info
    else if n == 4
    then MessageType.qp_info_exch
    else if n == 5
    then MessageType.ack_reject
    else if n == 6
    then MessageType.ack_error
    else if n == 7
    then MessageType.ack_ok
    else MessageType.other n

-- `Message::Header`, which is packed
pub record Header : Type 0 where
  pub sender_type : SenderType
  pub type : MessageType
  pub body_len : ℕ

pub record Message : Type 0 where
  pub header : Header
  pub body : List ℕ

-- `kHeaderSize`
abbrev pub header_size : ℕ
header_size = 6

-- `Message(Header header, std::string body)`
abbrev pub message : SenderType → MessageType → List ℕ → Message
message s t body = record {
  header = record { sender_type = s; type = t; body_len = length body % 2 ^ 32 };
  body = body;
}

-- The header's bytes, and the header that bytes are
abbrev pub header_bytes : Header → List ℕ
header_bytes h = sender_code h.sender_type ∷ type_code h.type ∷ bytes32 h.body_len

abbrev pub header_of : List ℕ → Header
header_of bs = record {
  sender_type = sender_of (get_or bs 0 0);
  type = type_of (get_or bs 1 0);
  body_len =
      get_or bs 2 0 + 2 ^ 8 * get_or bs 3 0 + 2 ^ 16 * get_or bs 4 0 + 2 ^ 24 * get_or bs 5 0;
}

-- A byte without a name is one that no name has.
abbrev IsSender : SenderType → Type 0
IsSender (SenderType.other n) = 2 < n
IsSender s = Unit

abbrev IsType : MessageType → Type 0
IsType (MessageType.other n) = 7 < n
IsType t = Unit

-- A message as the constructor makes it, with a body of less than 4 GB
pub record IsMessage (m : Message) : Type 0 where
  pub sender : IsSender m.header.sender_type
  pub type : IsType m.header.type
  pub body : m.header.body_len ≡ length m.body
  pub size : length m.body < 2 ^ 32

sender_of-sender_code : (s : SenderType) → IsSender s → sender_of (sender_code s) ≡ s
sender_of-sender_code SenderType.coordinator h = refl
sender_of-sender_code SenderType.server h = refl
sender_of-sender_code SenderType.client h = refl
sender_of-sender_code (SenderType.other n) h = ground arith

type_of-type_code : (t : MessageType) → IsType t → type_of (type_code t) ≡ t
type_of-type_code MessageType.req_join h = refl
type_of-type_code MessageType.req_leave h = refl
type_of-type_code MessageType.res_join h = refl
type_of-type_code MessageType.res_cluster_info h = refl
type_of-type_code MessageType.qp_info_exch h = refl
type_of-type_code MessageType.ack_reject h = refl
type_of-type_code MessageType.ack_error h = refl
type_of-type_code MessageType.ack_ok h = refl
type_of-type_code (MessageType.other n) h = ground arith

word_of-bytes32 :
    (n : ℕ)
    → n < 2 ^ 32
    → n % 256
        + 2 ^ 8 * (n / 2 ^ 8 % 256)
        + 2 ^ 16 * (n / 2 ^ 16 % 256)
        + 2 ^ 24 * (n / 2 ^ 24 % 256)
      ≡ n
word_of-bytes32 n h = omega arith

pub header_of-header_bytes :
    (m : Message) → IsMessage m → header_of (header_bytes m.header) ≡ m.header
header_of-header_bytes m w = rw (sender_of-sender_code m.header.sender_type w.sender) (
    rw (type_of-type_code m.header.type w.type)
      (rw (word_of-bytes32 m.header.body_len (omega (arith, w.body, w.size))) refl))
