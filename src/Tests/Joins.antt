-- ===== src/Tests/Joins.antt =====
-- A coordinator whose messages all have the same body.
use nvds.Base.{ℕ, ◌+◌, ◌≡◌, ◌%◌, ◌^◌, refl, arith, some, List, [], ◌∷◌}
use nvds.Index.{QueuePairInfo, Address, IndexManager}
use nvds.Message.{SenderType, MessageType, Message, message}
use nvds.Message.Json.{Json, to_uint, address_from_json, qpi_from_json}
use nvds.Coordinator.{Coordinator, done, join_response, join_body, handle_recv_message, serve}
use nvds.Coordinator.Join.{IsCoordinator, Sound, refused, handle_recv_message-Sound}
use nvds.Coordinator.Cluster.{IsJoin, Joins, no_servers, full_index, serve-two_joins}
use nvds.Tests.Cluster.{no_tablet, no_server, no_qpi}
use nvds.Tests.Trees.{json, Tree}

abbrev port : Tree
port =
    json.object (("ib_port", json.number 1) ∷ ("lid", json.number 4) ∷ ("qpn", json.number 70) ∷ [])

abbrev body : Tree
body =
    json.object
      (("size", json.number 1000) ∷ ("ib_addr", port) ∷ ("tablet_qpis", json.array []) ∷ [])

abbrev same_body : Json
same_body = record json { parse = λ bs. some body }

abbrev past_end : ℕ → QueuePairInfo
past_end n = no_qpi

abbrev address : Address
address = record { ib_port = 1; lid = 4; qpn = 70 }

abbrev request : Message
request = message SenderType.server MessageType.req_join []

request-IsJoin : IsJoin same_body past_end request 1000 address []
unfolding to_uint join_body address_from_json qpi_from_json
request-IsJoin = record {
  sender = refl;
  type = refl;
  body = body;
  parsed = refl;
  sized = refl;
  read = refl;
}

abbrev joins :
    (d : List ℕ × (ℕ × Message))
    → IsJoin same_body past_end d.1.1 1000 address []
    → Joins same_body past_end d
joins d j = record { size = 1000; address = address; qpis = []; join = j }

abbrev delivery : ℕ → List ℕ × (ℕ × Message)
delivery s = (s ∷ [], (s, request))

abbrev delivery-Joins : (s : ℕ) → Joins same_body past_end (delivery s)
delivery-Joins s = joins (delivery s) request-IsJoin

abbrev empty : Coordinator
empty =
    no_servers same_body past_end (λ _. 0) (λ _. no_tablet) (λ _. no_server) (delivery 7)
      (delivery 8) (delivery-Joins 7) (delivery-Joins 8)

abbrev both : IndexManager
both =
    full_index same_body past_end (λ _. 0) (λ _. no_tablet) (λ _. no_server) (delivery 7)
      (delivery 8) (delivery-Joins 7) (delivery-Joins 8)

serve-two_joins_example :
    serve same_body past_end (delivery 7 ∷ delivery 8 ∷ delivery 9 ∷ []) empty []
    ≡ done
        (record {
          num_servers = 2;
          total_storage = (1000 % 2 ^ 64 + 1000) % 2 ^ 64;
          sessions = [];
          index_manager = both;
        })
        ((7, join_response same_body past_end 0 both)
          ∷ (8, join_response same_body past_end 1 both)
          ∷ [])
serve-two_joins_example =
    serve-two_joins same_body past_end (λ _. 0) (λ _. no_tablet) (λ _. no_server) (delivery 7)
      (delivery 8) (delivery-Joins 7) (delivery-Joins 8) (delivery 9 ∷ []) (delivery-Joins 9, tt)

empty-IsCoordinator : IsCoordinator empty
empty-IsCoordinator = record { limit = omega arith; numbered = refl; waiting = refl }

handle_recv_message-Sound_example :
    Sound
      (refused empty SenderType.server MessageType.req_join)
      (handle_recv_message same_body past_end [] 7 request empty)
handle_recv_message-Sound_example =
    handle_recv_message-Sound same_body past_end [] 7 request empty empty-IsCoordinator
