-- ===== src/Tests/Calls.antt =====
-- A client whose requests are served from the bucket of `Tests/Buckets`.
use nvds.Base.{
  ℕ, zero, suc, ◌+◌, ◌-◌, ◌*◌, ◌≡◌, ◌≤◌, ◌<◌, refl, arith, [], ◌∷◌, add32, ◌==◌, if◌then◌else◌,
}
use nvds.Nvm.{get32}
use nvds.Command.{Allocator, Run, ok, assert_failed, out_of_fuel}
use nvds.Index.Topology.{IsCluster, cluster, cluster-IsCluster}
use nvds.Index.Route.{IsRouted, cluster-IsRouted}
use nvds.Index.{
  Address, IndexManager, num_servers, get_tablet_id, worker_of, key_index, to_double, add_server,
  add_tablet, for_below, calc_tablet_id,
}
use nvds.Request.{Kind, Status, Request, request, Response, response, request_len, response_len}
use nvds.Server.{serve_request}
use nvds.Tablet.{slot_of, object_size}
use nvds.Tablet.Chain.{Chain, lookup}
use nvds.Allocator.{roundup_block_size, max_block_size}
use nvds.Client.{
  Client, Fabric, done, client_get, client_send_buf_size, client_recv_buf_size,
  server_send_buf_size, server_recv_buf_size, ib_ud_padding,
}
use nvds.Client.Answer.{Serves, client_get-lookup, or_empty, item-fits}
use nvds.Tests.Buckets.{state, entry, entry-Chain}
use nvds.Tests.Cluster.{no_tablet, no_server, no_qpi}

abbrev no_response : Response
no_response = response Kind.get Status.error

abbrev response_of : Run Response → Response
response_of (ok resp s) = resp
response_of (assert_failed s) = no_response
response_of (out_of_fuel s) = no_response

-- Two servers with different addresses, and the tablets of both: the tablet 0 has the bucket.
abbrev address : ℕ → Address
address n = record { ib_port = 1; lid = 4; qpn = n }

abbrev index : IndexManager
index =
    cluster (λ _. 0) (λ _. no_tablet) (λ _. no_server) [] [] (address 70) (address 71) (λ _. no_qpi)
      (λ _. no_qpi)

index-IsCluster : IsCluster index
index-IsCluster =
    cluster-IsCluster (λ _. 0) (λ _. no_tablet) (λ _. no_server) [] [] (address 70) (address 71)
      (λ _. no_qpi) (λ _. no_qpi)

abbrev tablets : ℕ → Allocator
tablets n = if n == 0 then state else record state { memory = λ x. 0 }

-- The server that the number of the queue pair names serves its tablet.
abbrev served : ℕ → Request → Run Response
served j r = serve_request 2 r (tablets ((index.servers j).tablets (worker_of index r.key_hash)))

abbrev fabric : Fabric
fabric = record {
  hash = λ k. 7;
  post_receive = λ rb. 0;
  post_send = λ a r. 0;
  receive = λ rb a r. (rb, response_of (served (a.qpn - 70) r));
}

address_of : (j : ℕ) → j < num_servers → (index.servers j).ib_addr.qpn - 70 ≡ j
unfolding add_server add_tablet for_below calc_tablet_id
address_of zero h = refl
address_of (suc zero) h = refl
address_of (suc (suc j)) h = absurd (omega arith)

fabric-Serves : Serves fabric 2 index tablets
fabric-Serves = record {
  received = λ rb. refl;
  sent = λ a r. refl;
  answered = λ rb j r resp s' h e. rw (address_of j h, e) refl;
}

abbrev client : Client
client = record { send_bufs = 8 ∷ []; recv_bufs = 16 ∷ []; index_manager = index }

-- The hash 7 leads to the tablet 0.
home : get_tablet_id index 7 ≡ 0
unfolding key_index to_double add_server add_tablet for_below calc_tablet_id
home = refl

home-Chain :
    let m = (tablets (get_tablet_id index 7)).memory in
    Chain m (get32 m (slot_of (request Kind.get (1 ∷ 2 ∷ []) [] 7))) (entry ∷ [])
unfolding request
home-Chain = rw home entry-Chain

cluster-IsRouted_example : IsRouted index 7
cluster-IsRouted_example = cluster-IsRouted index 7 index-IsCluster (omega arith)

client_get-lookup_example :
    client_get fabric (1 ∷ 2 ∷ []) client
    ≡ done (or_empty (lookup (1 ∷ 2 ∷ []) (entry ∷ []))) client
client_get-lookup_example =
    client_get-lookup fabric 2 tablets (1 ∷ 2 ∷ []) (entry ∷ []) 8 16 [] [] index (omega arith)
      index-IsCluster (omega arith) home-Chain (omega arith) fabric-Serves

item-fits_example :
    let r = request Kind.put (1 ∷ []) (2 ∷ []) 7 in
    (request_len r ≤ client_send_buf_size)
    × (ib_ud_padding + request_len r ≤ server_recv_buf_size)
    × (response_len no_response ≤ server_send_buf_size)
    × (ib_ud_padding + response_len no_response ≤ client_recv_buf_size)
    × ((m : ℕ) × (roundup_block_size (add32 (object_size + r.key_len + r.val_len) 4) state
          ≡ ok (16 * m) state)
        × (16 * m ≤ max_block_size))
item-fits_example =
    item-fits Kind.put (1 ∷ []) (2 ∷ []) 7 no_response state (omega arith) (omega arith)
