-- ===== src/Server/Join.antt =====
-- Joining a cluster: `Server::Join` of src/server.cc and `Client::Join` of src/client.cc. The two
-- directions of the connection are two pipes of Boost.Asio's parameter `Pipe`.
pub mod Joined
pub mod Requested
use nvds.Base.{
  ℕ, zero, suc, ◌+◌, Bool, true, false, Option, none, some, List, [], ◌∷◌, ◌++◌, map, if◌then◌else◌,
}
use nvds.Index.{
  QueuePairInfo, Address, TabletInfo, ServerInfo, IndexManager, update, num_replicas,
  num_tablet_and_backups_per_server,
}
use nvds.Message.{SenderType, MessageType, Header, Message, message}
use nvds.Message.Json.{
  Json, ◌>>=◌, elements, to_uint, from_function, qpi_to_json, address_to_json, index_from_json,
}
use nvds.QueuePair.{QpVerbs, QueuePair, Stepped, done, next_step}
use nvds.Session.{Pipe, send_message, recv_message}
use nvds.Tablet.Connect.{Linked, settingup_qp_connect}

abbrev is_coordinator : SenderType → Bool
is_coordinator SenderType.coordinator = true
is_coordinator _ = false

abbrev is_res_join : MessageType → Bool
is_res_join MessageType.res_join = true
is_res_join _ = false

-- How a call of `Join` ends. `exception` is one that it does not catch: of the JSON library, or a
-- `TransportException`.
pub data Joining (A : Type 0) : Type 0 where
  returned : Bool → A → Joining A
  assert_failed : Joining A
  exception : Joining A

module _ (p : Pipe) (l : Json) (v : QpVerbs) where
  -- The part of a `Server` that its constructor and joining read and set
  pub record Server : Type 0 where
    pub id : ℕ
    pub active : Bool
    pub nvm_size : ℕ
    pub ib_addr : Address
    pub index_manager : IndexManager
    pub qp : QueuePair v
    pub tablets : ℕ → Linked v

  -- The loops that collect the queue pairs of all tablets
  abbrev pub tablet_qpis : Server → ℕ → ℕ → List QueuePairInfo
  tablet_qpis s zero i = []
  tablet_qpis s (suc n) i = elements num_replicas (s.tablets i).info.qpis ++ tablet_qpis s n (i + 1)

  unfoldable pub join_request : Server → Message
  join_request s = message SenderType.server MessageType.req_join (
      l.dump (
        l.object (
          ("size", l.number s.nvm_size)
          ∷ ("ib_addr", address_to_json l s.ib_addr)
          ∷ (
            "tablet_qpis",
            l.array (map (qpi_to_json l) (tablet_qpis s num_tablet_and_backups_per_server 0)),
          )
          ∷ [])))

  -- The loop over the tablets, `i` on with `n` rounds left
  unfoldable pub connect_tablets : (n i : ℕ) → ServerInfo → Server → Stepped Server
  connect_tablets zero i info s = done s
  connect_tablets (suc n) i info s =
      next_step (settingup_qp_connect v (info.tablets i) s.index_manager (s.tablets i))
        (λ t. connect_tablets n (i + 1) info (record s { tablets = update s.tablets i t }))

  abbrev pub returned_from : Stepped Server → Joining Server
  returned_from (done s) = returned true s
  returned_from Stepped.assert_failed = Joining.assert_failed
  returned_from (Stepped.transport_exception e) = exception

  -- What the response's body sets: the number and the index. `blank_tablet` and `blank_server` are
  -- what the elements of the new arrays are before they are read.
  unfoldable pub read_response : TabletInfo → ServerInfo → Server → List ℕ → Option Server
  read_response blank_tablet blank_server s bytes = do
    body ← l.parse bytes
    id ← to_uint l 32 (l.at body "id")
    im ← index_from_json l blank_tablet blank_server s.index_manager (l.at body "index_manager")
    some (record s { id = id; index_manager = im; active = true })

  abbrev pub set_up : Option Server → Joining Server
  set_up none = exception
  set_up (some s) =
      returned_from
        (connect_tablets num_tablet_and_backups_per_server 0 (s.index_manager.servers s.id) s)

  -- The response that was received; its sender and type are asserted.
  unfoldable pub handle_response :
      TabletInfo → ServerInfo → Server → Option (Message × p.Conn) → Joining Server
  unfolding connect_tablets read_response
  handle_response bt bs s none = returned false s
  handle_response bt bs s (some (m, c)) =
      if is_coordinator m.header.sender_type
      then if is_res_join m.header.type
        then set_up (read_response bt bs s m.body)
        else assert_failed
      else assert_failed

  -- `Join`, given the two directions of the connection, or nothing where connecting fails
  unfoldable pub join : TabletInfo → ServerInfo → Option (p.Conn × p.Conn) → Server → Joining Server
  unfolding handle_response join_request
  join bt bs none s = returned false s
  join bt bs (some (out, inc)) s = elim (send_message p (join_request s) out) [
    | none ↦ returned false s
    | some out' ↦ handle_response bt bs s (recv_message p inc)
  ]

  -- `Client::Join`: `none` where a session's exception or one of the JSON library is thrown. The
  -- inner option is empty where an assertion fails.
  unfoldable pub client_response :
      TabletInfo → ServerInfo → IndexManager → Message → Option (Option IndexManager)
  client_response bt bs old m =
      if is_coordinator m.header.sender_type
      then if is_res_join m.header.type
        then l.parse m.body >>= (λ body.
          index_from_json l bt bs old (l.at body "index_manager") >>= (λ im. some (some im)))
        else some none
      else some none

  unfoldable pub client_join :
      TabletInfo → ServerInfo → (out inc : p.Conn) → IndexManager → Option (Option IndexManager)
  unfolding client_response
  client_join bt bs out inc old =
      send_message p (message SenderType.client MessageType.req_join (l.dump l.null)) out
      >>= (λ out'. recv_message p inc >>= (λ r. client_response bt bs old r.0))
