-- ===== src/Coordinator/Cluster.antt =====
-- How a cluster comes together at the coordinator.
use nvds.Base.{
  ℕ, ◌+◌, ◌%◌, ◌^◌, ◌≡◌, All, append-nil, true, leb, if◌then◌else◌, refl, arith, some, List, [],
  ◌∷◌, get_or,
}
use nvds.Index.{
  QueuePairInfo, Address, TabletInfo, ServerInfo, IndexManager, num_servers, add_server,
}
use nvds.Index.Topology.{fresh, cluster}
use nvds.Message.{SenderType, MessageType, Message}
use nvds.Message.Json.{Json, to_uint}
use nvds.Coordinator.{
  Coordinator, Sends, done, serve, join_response, respond_from, response_all_joins, join_body,
  joined, admit, join_sized, join_parsed, handle_server_request_join, handle_message_from_server,
  handle_from, handle_recv_message,
}

module _ (l : Json) (past_end : ℕ → QueuePairInfo) where
  -- A server's request to join, and what its body says
  pub record IsJoin (m : Message) (size : ℕ) (a : Address) (qpis : List QueuePairInfo)
      : Type 0 where
    pub sender : m.header.sender_type ≡ SenderType.server
    pub type : m.header.type ≡ MessageType.req_join
    pub body : l.Value
    pub parsed : l.parse m.body ≡ some body
    pub sized : to_uint l 64 (l.at body "size") ≡ some size
    pub read : join_body l past_end body ≡ some (a, qpis)

  abbrev pub vector : List QueuePairInfo → ℕ → QueuePairInfo
  vector qpis n = get_or qpis n (past_end n)

  join_step :
      (peer : List ℕ) (s : ℕ) (m : Message) (c : Coordinator) (size : ℕ) (a : Address)
      (qpis : List QueuePairInfo)
      → IsJoin m size a qpis
      → handle_recv_message l past_end peer s m c ≡ (
          if leb num_servers c.num_servers
          then done c []
          else admit l past_end peer s size c (some (a, qpis)))
  unfolding handle_recv_message handle_from handle_message_from_server handle_server_request_join
      join_parsed join_sized
  join_step peer s m c size a qpis j = rw (j.sender, j.type, j.parsed, j.sized, j.read) refl

  late_step :
      (peer : List ℕ) (s : ℕ) (m : Message) (c : Coordinator) (size : ℕ) (a : Address)
      (qpis : List QueuePairInfo)
      → IsJoin m size a qpis
      → c.num_servers ≡ num_servers
      → handle_recv_message l past_end peer s m c ≡ done c []
  late_step peer s m c size a qpis j e =
      let full : leb num_servers c.num_servers ≡ true = ground arith in
      rw (join_step peer s m c size a qpis j, full) refl

  -- A server's request to join that comes in some session
  pub record Joins (d : List ℕ × (ℕ × Message)) : Type 0 where
    pub size : ℕ
    pub address : Address
    pub qpis : List QueuePairInfo
    pub join : IsJoin d.1.1 size address qpis

  late_steps :
      (ds : List (List ℕ × (ℕ × Message))) (c : Coordinator) (sent : Sends)
      → All Joins ds
      → c.num_servers ≡ num_servers
      → serve l past_end ds c sent ≡ done c sent
  unfolding serve
  late_steps [] c sent j e = refl
  late_steps ((peer, (s, m)) ∷ ds) c sent j e =
      rw (late_step peer s m c j.0.size j.0.address j.0.qpis j.0.join e, append-nil sent)
        (late_steps ds c sent j.1 e)

  module _ (keys : ℕ → ℕ) (tablets : ℕ → TabletInfo) (servers : ℕ → ServerInfo)
      (d₀ d₁ : List ℕ × (ℕ × Message)) (j₀ : Joins d₀) (j₁ : Joins d₁) where
    abbrev pub no_servers : Coordinator
    no_servers = record {
      num_servers = 0;
      total_storage = 0;
      sessions = [];
      index_manager = fresh keys tablets servers;
    }

    abbrev pub full_index : IndexManager
    full_index =
        cluster keys tablets servers d₀.0 d₁.0 j₀.address j₁.address (vector j₀.qpis)
          (vector j₁.qpis)

    -- A new coordinator that is sent readable requests to join by two servers, and then any number
    -- of others: it tells the first server that its number is 0 and the second that it is 1, sends
    -- both the index to which both were added in that order, sends nothing else, keeps no session,
    -- and has counted two servers and their storage.
    pub serve-two_joins :
        (ds : List (List ℕ × (ℕ × Message)))
        → All Joins ds
        → serve l past_end (d₀ ∷ d₁ ∷ ds) no_servers []
          ≡ done
              (record {
                num_servers = 2;
                total_storage = (j₀.size % 2 ^ 64 + j₁.size) % 2 ^ 64;
                sessions = [];
                index_manager = full_index;
              })
              ((d₀.1.0, join_response l past_end 0 full_index)
                ∷ (d₁.1.0, join_response l past_end 1 full_index)
                ∷ [])
    unfolding serve admit joined response_all_joins respond_from
    serve-two_joins ds js =
        let first : Coordinator = record {
          num_servers = 1;
          total_storage = j₀.size % 2 ^ 64;
          sessions = d₀.1.0 ∷ [];
          index_manager = add_server d₀.0 j₀.address (vector j₀.qpis) (fresh keys tablets servers);
        } in
        let stored : (0 + j₀.size) % 2 ^ 64 ≡ j₀.size % 2 ^ 64 = omega arith in
        rw
          (
            join_step d₀.0 d₀.1.0 d₀.1.1 no_servers j₀.size j₀.address j₀.qpis j₀.join,
            stored,
            join_step d₁.0 d₁.1.0 d₁.1.1 first j₁.size j₁.address j₁.qpis j₁.join,
          )
          (late_steps ds _ _ js refl)
