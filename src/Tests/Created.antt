-- ===== src/Tests/Created.antt =====
-- A server that is made where the calls of libibverbs succeed along the states of a queue pair.
use nvds.Base.{◌+◌, ◌≡◌, refl, arith, some, inl}
use nvds.QueuePair.{QpState, done}
use nvds.QueuePair.Create.{CreateVerbs}
use nvds.Server.Join.{Server}
use nvds.Server.Create.{new_server}
use nvds.Server.Create.Fresh.{IsNewServer, new_server-IsNewServer}
use nvds.Tablet.Create.Fresh.{Makes}
use nvds.Tests.Cluster.{two_servers}
use nvds.Tests.Trees.{json}
use nvds.Tests.Pairs.{verbs, verbs-IsQpVerbs, verbs-Works, linked}
use nvds.Tests.Wire.{bytes_pipe}

abbrev makers : CreateVerbs verbs
makers = record {
  create_cq = λ n is_recv cqe. n + 1;
  create_qp = λ n a. inl (QpState.reset, n);
  qp_num = λ q. q.1;
  query_port = λ port. (0, 4);
}

makers-Makes : Makes verbs makers
makers-Makes = record {
  cq = λ n is_recv cqe e. absurd (omega arith);
  qp = λ n a. ((QpState.reset, n), refl, refl);
  lid = refl;
}

new_server-IsNewServer_example :
    (s : Server bytes_pipe json verbs) × (new_server bytes_pipe json verbs makers 4096 1000
        (λ i. some (i + 9))
        two_servers
        (λ i. linked)
      ≡ done s)
    × IsNewServer bytes_pipe json verbs verbs-IsQpVerbs verbs-Works makers makers-Makes 4096 1000
        (λ i. i + 9)
        (λ i. linked)
        s
new_server-IsNewServer_example =
    new_server-IsNewServer bytes_pipe json verbs verbs-IsQpVerbs verbs-Works makers makers-Makes
      4096 1000 (λ i. i + 9) two_servers (λ i. linked)
