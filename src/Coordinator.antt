-- ===== src/Coordinator.antt =====
-- The coordinator (src/coordinator.h, src/coordinator.cc): servers join until the cluster is full,
-- then each is told its number and the index; clients are told the index. A session is named by a
-- number. The JSON library is the parameter `Json`; what a vector of queue pairs that is too short
-- gives is the parameter `past_end`.
pub mod Cluster
pub mod Join
use nvds.Base.{
  ℕ, ◌+◌, ◌%◌, ◌^◌, Bool, Option, none, some, List, [], ◌∷◌, ◌++◌, length, get_or, leb, ◌==◌,
  if◌then◌else◌,
}
use nvds.Index.{QueuePairInfo, Address, IndexManager, num_servers, add_server}
use nvds.Message.{SenderType, MessageType, Message, message}
use nvds.Message.Json.{
  Json, ◌>>=◌, map_option, to_uint, address_from_json, qpi_from_json, index_to_json,
}

pub record Coordinator : Type 0 where
  pub num_servers : ℕ
  pub total_storage : ℕ
  pub sessions : List ℕ
  pub index_manager : IndexManager

-- The messages that a handler sends, each with its session
abbrev pub Sends : Type 0
Sends = List (ℕ × Message)

-- How a handler ends: `exception` leaves it uncaught, and so the program.
pub data Handled : Type 0 where
  done : Coordinator → Sends → Handled
  assert_failed : Handled
  exception : Handled

abbrev pub and_then : Handled → (Coordinator → Sends → Handled) → Handled
and_then (done c out) f = f c out
and_then assert_failed f = assert_failed
and_then exception f = exception

module _ (l : Json) (past_end : ℕ → QueuePairInfo) where
  -- The message for the server `i`
  unfoldable pub join_response : ℕ → IndexManager → Message
  join_response i im =
      message SenderType.coordinator MessageType.res_join
        (l.dump (l.object (("id", l.number i) ∷ ("index_manager", index_to_json l im) ∷ [])))

  -- `ResponseAllJoins`, from session `i` on
  unfoldable pub respond_from : ℕ → IndexManager → List ℕ → Sends
  unfolding join_response
  respond_from i im [] = []
  respond_from i im (s ∷ ss) = (s, join_response i im) ∷ respond_from (i + 1) im ss

  unfoldable pub response_all_joins : Coordinator → Handled
  response_all_joins c =
      if length c.sessions == num_servers
      then done (record c { sessions = [] }) (respond_from 0 c.index_manager c.sessions)
      else assert_failed

  -- What `AddServer` reads of the body
  unfoldable pub join_body : l.Value → Option (Address × List QueuePairInfo)
  join_body body = do
    ib_addr ← address_from_json l (l.at body "ib_addr")
    vs ← l.to_array (l.at body "tablet_qpis")
    qpis ← map_option (qpi_from_json l) vs
    some (ib_addr, qpis)

  -- The rest of `HandleServerRequestJoin` after the server was added
  unfoldable pub joined : Coordinator → Handled
  unfolding response_all_joins
  joined c =
      if leb c.num_servers num_servers
      then if c.num_servers == num_servers then response_all_joins c else done c []
      else assert_failed

  unfoldable pub admit :
      (peer : List ℕ) (session nvm_size : ℕ)
      → Coordinator
      → Option (Address × List QueuePairInfo)
      → Handled
  unfolding joined
  admit peer session nvm_size c none = exception
  admit peer session nvm_size c (some (ib_addr, qpis)) = joined (record {
    num_servers = (c.num_servers + 1) % 2 ^ 32;
    total_storage = (c.total_storage + nvm_size) % 2 ^ 64;
    sessions = c.sessions ++ (session ∷ []);
    index_manager = add_server peer ib_addr (λ n. get_or qpis n (past_end n)) c.index_manager;
  })

  -- `HandleServerRequestJoin`, given the address of the session's peer: from the body's size on,
  -- and whole
  unfoldable pub join_sized :
      (peer : List ℕ) (session : ℕ) → l.Value → Coordinator → Option ℕ → Handled
  unfolding admit join_body
  join_sized peer session body c none = exception
  join_sized peer session body c (some nvm_size) =
      if leb num_servers c.num_servers
      then done c []
      else admit peer session nvm_size c (join_body body)

  unfoldable pub join_parsed :
      (peer : List ℕ) (session : ℕ) → Coordinator → Option l.Value → Handled
  unfolding join_sized
  join_parsed peer session c none = exception
  join_parsed peer session c (some body) =
      join_sized peer session body c (to_uint l 64 (l.at body "size"))

  unfoldable pub handle_server_request_join :
      (peer : List ℕ) (session : ℕ) → Message → Coordinator → Handled
  unfolding join_parsed
  handle_server_request_join peer session req c = join_parsed peer session c (l.parse req.body)

  unfoldable pub handle_message_from_server :
      MessageType → (peer : List ℕ) (session : ℕ) → Message → Coordinator → Handled
  handle_message_from_server MessageType.req_join peer s m c = handle_server_request_join peer s m c
  handle_message_from_server MessageType.req_leave peer s m c = done c []
  handle_message_from_server MessageType.ack_reject peer s m c = done c []
  handle_message_from_server MessageType.ack_error peer s m c = done c []
  handle_message_from_server MessageType.ack_ok peer s m c = done c []
  handle_message_from_server _ peer s m c = assert_failed

  -- `HandleClientRequestJoin`; its assertions on the sender and the type hold where it is called.
  unfoldable pub handle_client_request_join : (session : ℕ) → Coordinator → Handled
  handle_client_request_join session c =
      if c.num_servers == num_servers
      then done c (
          (
            session,
            message SenderType.coordinator MessageType.res_join
                (l.dump (l.object (("index_manager", index_to_json l c.index_manager) ∷ []))),
          )
          ∷ [])
      else assert_failed

  unfoldable pub handle_message_from_client : MessageType → (session : ℕ) → Coordinator → Handled
  unfolding handle_client_request_join
  handle_message_from_client MessageType.req_join s c = handle_client_request_join s c
  handle_message_from_client MessageType.req_leave s c = done c []
  handle_message_from_client MessageType.ack_reject s c = done c []
  handle_message_from_client MessageType.ack_error s c = done c []
  handle_message_from_client MessageType.ack_ok s c = done c []
  handle_message_from_client _ s c = assert_failed

  -- `HandleRecvMessage`; the switch does nothing for a byte that is no sender's.
  unfoldable pub handle_from :
      SenderType → (peer : List ℕ) (session : ℕ) → Message → Coordinator → Handled
  unfolding handle_message_from_server handle_message_from_client handle_server_request_join
  handle_from SenderType.server peer s m c = handle_message_from_server m.header.type peer s m c
  handle_from SenderType.client peer s m c = handle_message_from_client m.header.type s c
  handle_from SenderType.coordinator peer s m c = assert_failed
  handle_from (SenderType.other n) peer s m c = done c []

  unfoldable pub handle_recv_message :
      (peer : List ℕ) (session : ℕ) → Message → Coordinator → Handled
  unfolding handle_from
  handle_recv_message peer s m c = handle_from m.header.sender_type peer s m c

  -- The messages of a list, each with its session's peer and its session, are handled in order.
  unfoldable pub serve : List (List ℕ × (ℕ × Message)) → Coordinator → Sends → Handled
  unfolding handle_recv_message
  serve [] c sent = done c sent
  serve ((peer, (s, m)) ∷ ds) c sent =
      and_then (handle_recv_message peer s m c) (λ c' out. serve ds c' (sent ++ out))
