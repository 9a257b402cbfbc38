-- ===== src/Tests/Cluster.antt =====
-- A cluster of two servers.
use nvds.Base.{ℕ, ◌^◌, ◌-◌, ◌<◌, ◌≤◌, ◌≡◌, refl, false, true, [], arith}
use nvds.Index.{
  QueuePairInfo, Address, TabletInfo, ServerInfo, IndexManager, key_index, get_tablet,
  get_tablet_id, get_server, worker_of, num_tablets_per_server, to_double,
}
use nvds.Index.KeyHash.{key_index-thresholds}
use nvds.Index.Topology.{cluster, IsCluster, cluster-IsCluster, dispatch_lem}

abbrev pub no_qpi : QueuePairInfo
no_qpi = record { lid = 0; qpn = 0; psn = 33; rkey = 0; vaddr = 0 }

abbrev pub no_address : Address
no_address = record { ib_port = 1; lid = 0; qpn = 0 }

abbrev pub no_tablet : TabletInfo
no_tablet = record { id = 0; server_id = 0; is_backup = false; qpis = λ _. no_qpi; links = λ _. 0 }

abbrev pub no_server : ServerInfo
no_server = record { id = 0; active = false; addr = []; ib_addr = no_address; tablets = λ _. 0 }

abbrev pub two_servers : IndexManager
two_servers =
    cluster (λ _. 0) (λ _. no_tablet) (λ _. no_server) [] [] no_address no_address (λ _. no_qpi)
      (λ _. no_qpi)

cluster-IsCluster_example : IsCluster two_servers
cluster-IsCluster_example =
    cluster-IsCluster (λ _. 0) (λ _. no_tablet) (λ _. no_server) [] [] no_address no_address
      (λ _. no_qpi) (λ _. no_qpi)

dispatch_lem_example :
    ((get_tablet two_servers 12345).is_backup ≡ false)
    × ((get_tablet two_servers 12345).id ≡ get_tablet_id two_servers 12345)
    × ((get_server two_servers 12345).active ≡ true)
    × ((get_server two_servers 12345).id ≡ key_index 12345)
    × (worker_of two_servers 12345 < num_tablets_per_server)
dispatch_lem_example =
    dispatch_lem (λ _. 0) (λ _. no_tablet) (λ _. no_server) [] [] no_address no_address
      (λ _. no_qpi) (λ _. no_qpi) 12345 (omega arith)

abbrev top_hash : ℕ
top_hash = 2 ^ 64 - 1

key_index-thresholds_example :
    (top_hash < 2 ^ 63 - 512 → key_index top_hash ≡ 0)
    × (2 ^ 63 - 512 ≤ top_hash → top_hash < 2 ^ 64 - 1024 → key_index top_hash ≡ 1)
    × (2 ^ 64 - 1024 ≤ top_hash → key_index top_hash ≡ 2)
key_index-thresholds_example = key_index-thresholds top_hash (omega arith)

top_hash_outside : key_index top_hash ≡ 2
unfolding key_index to_double
top_hash_outside = refl
