-- ===== src/Tests/Joined.antt =====
-- The second server of a cluster joins, and a server's request is read.
use nvds.Base.{◌≡◌, refl, arith, true, false, none, some, [], ◌∷◌, ◌++◌}
use nvds.Message.{header_bytes}
use nvds.Message.Json.{Json, IsJson}
use nvds.Coordinator.{join_response}
use nvds.Coordinator.Cluster.{IsJoin}
use nvds.Server.Join.{Server, returned, join, join_request}
use nvds.Server.Join.Requested.{request_value, join_request-IsJoin}
use nvds.Server.Join.Joined.{HasJoined, response_value, join-HasJoined}
use nvds.Tests.Cluster.{two_servers, no_qpi, no_address, no_tablet, no_server}
use nvds.Tests.Trees.{json, reads, reads-IsJson, no_qpi-FitsQpi, two_servers-FitsIndex}
use nvds.Tests.Pairs.{verbs, verbs-IsQpVerbs, verbs-Works, linked, linked-IsFresh}
use nvds.Tests.Wire.{bytes_pipe, bytes_pipe-IsPipe, all_pending}

abbrev answers : Json
answers = reads (
    some (
      response_value bytes_pipe bytes_pipe-IsPipe json (reads-IsJson none) verbs verbs-IsQpVerbs
        verbs-Works 1 two_servers))

answers-IsJson : IsJson answers
answers-IsJson = reads-IsJson _

abbrev server : (l : Json) → Server bytes_pipe l verbs
server l = record {
  id = 0;
  active = false;
  nvm_size = 1000;
  ib_addr = no_address;
  index_manager = two_servers;
  qp = linked.qps 0;
  tablets = λ i. linked;
}

join-HasJoined_example :
    let m = join_response answers (λ _. no_qpi) 1 two_servers in
    (s' : Server bytes_pipe answers verbs) × (join bytes_pipe answers verbs no_tablet no_server
        (some ([], header_bytes m.header ++ m.body))
        (server answers)
      ≡ returned true s')
    × HasJoined bytes_pipe bytes_pipe-IsPipe answers answers-IsJson verbs verbs-IsQpVerbs
        verbs-Works two_servers 1 s'
unfolding join_response nvds.Message.Json.index_to_json nvds.Message.Json.from_function
    nvds.Message.Json.tablet_to_json nvds.Message.Json.server_to_json nvds.Message.Json.qpi_to_json
    nvds.Message.Json.address_to_json
join-HasJoined_example =
    let m = join_response answers (λ _. no_qpi) 1 two_servers in
    join-HasJoined bytes_pipe bytes_pipe-IsPipe answers answers-IsJson verbs verbs-IsQpVerbs
      verbs-Works (λ _. no_qpi) no_tablet no_server (λ _. 0) (λ _. no_tablet) (λ _. no_server) [] []
      no_address no_address (λ _. no_qpi) (λ _. no_qpi) [] (header_bytes m.header ++ m.body)
      (server answers) 1 (omega arith) two_servers-FitsIndex refl (omega arith) linked-IsFresh
      linked-IsFresh (all_pending []) (all_pending (header_bytes m.header ++ m.body))

abbrev asks : Json
asks = reads (some (request_value bytes_pipe json (reads-IsJson none) verbs (server json)))

join_request-IsJoin_example :
    IsJoin asks
      (λ _. no_qpi)
      (join_request bytes_pipe asks verbs (server asks))
      1000
      no_address
      (no_qpi ∷ no_qpi ∷ [])
unfolding join_request nvds.Message.Json.qpi_to_json nvds.Message.Json.address_to_json
join_request-IsJoin_example =
    join_request-IsJoin bytes_pipe asks (reads-IsJson _) verbs (λ _. no_qpi) (server asks)
      (record {
        size = omega arith;
        ib_port = omega arith;
        lid = omega arith;
        qpn = omega arith;
        tablets = λ t i h k. no_qpi-FitsQpi;
      })
      refl
