-- ===== src/Index/Route.antt =====
-- The way from a key hash to a tablet: the client takes the server from the index, and that server the
-- worker of one of its own tablets (src/index.h, `Server::Dispatch` of src/server.cc).
use nvds.Base.{ℕ, ◌-◌, ◌*◌, ◌/◌, ◌%◌, ◌^◌, ◌<◌, ◌≡◌, arith, ◌∙◌}
use nvds.Index.{
  IndexManager, num_servers, num_tablets, num_tablet_and_backups_per_server, key_index,
  get_tablet_id, get_server_id, get_server, get_tablet, worker_of,
}
use nvds.Index.KeyHash.{key_index-in_range}
use nvds.Index.Topology.{IsCluster}

-- The key hash leads to a server under its number, and the tablet that this server has at the place of
-- the worker is the one of the key hash.
pub record IsRouted (im : IndexManager) (key_hash : ℕ) : Type 0 where
  pub in_range : get_server_id im key_hash < num_servers
  pub named : (get_server im key_hash).id ≡ get_server_id im key_hash
  pub tablet : (get_server im key_hash).tablets (worker_of im key_hash) ≡ get_tablet_id im key_hash

at_index :
    (im : IndexManager)
    → IsCluster im
    → (i t : ℕ) → i < num_servers
    → t ≡ i * num_tablet_and_backups_per_server
    → ((im.tablets t).server_id ≡ i)
      × ((im.servers i).tablets (t % num_tablet_and_backups_per_server) ≡ t)
at_index im c i t h e =
    let at = c.placed t (omega (arith, e, h)) in
    let server : t / num_tablet_and_backups_per_server ≡ i = omega (arith, e) in
    (at.server ∙ server, rw server at at.listed)

-- In the index of a cluster a key hash below `2 ^ 64 - 1024` is routed: the client finds a server that
-- is there under the number it is found by, and what this server has at the place of the worker
-- to which it dispatches the hash is the tablet that the index has for the hash.
pub cluster-IsRouted :
    (im : IndexManager) (key_hash : ℕ)
    → IsCluster im
    → key_hash < 2 ^ 64 - 1024
    → IsRouted im key_hash
cluster-IsRouted im key_hash c h =
    let i = key_index key_hash in
    let below : i < num_tablets = (key_index-in_range key_hash (omega (arith, h))).1 h in
    let in_range : i < num_servers = omega (arith, below) in
    let joined = c.joined i in_range in
    let (server, listed) = at_index im c i (im.key_tablet_map i) in_range joined.keys in
    record {
      in_range = omega (arith, server, in_range);
      named = rw (get_server, get_server_id, get_tablet, get_tablet_id, server) joined.id;
      tablet = rw (get_server, get_server_id, get_tablet, get_tablet_id, server) listed;
    }
