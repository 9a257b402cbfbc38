-- ===== src/Index.antt =====
-- The index manager (src/index.h, src/index.cc), which maps key hashes to tablets and tablets to
-- servers, with the cluster's configuration (src/common.h). `std::array`s are functions of the
-- index; what the coordinator reads from a server's JSON message is an argument.
pub mod KeyHash
pub mod Route
pub mod Topology
pub use nvds.Base.{update}
use nvds.Base.{
  ℕ, zero, suc, ◌+◌, ◌-◌, ◌*◌, ◌/◌, ◌%◌, ◌^◌, Bool, true, false, not, ltb, leb, ◌==◌, if◌then◌else◌,
  List,
}

-- `kNumReplicas`, `kNumServers`, `kNumTabletsPerServer` and what is computed from them
abbrev pub num_replicas : ℕ
num_replicas = 1

abbrev pub num_servers : ℕ
num_servers = 2

abbrev pub num_tablets_per_server : ℕ
num_tablets_per_server = 1

abbrev pub num_tablet_and_backups_per_server : ℕ
num_tablet_and_backups_per_server = num_tablets_per_server * (1 + num_replicas)

abbrev pub num_tablets : ℕ
num_tablets = num_tablets_per_server * num_servers

abbrev pub num_tablet_and_backups : ℕ
num_tablet_and_backups = num_tablet_and_backups_per_server * num_servers

-- `Infiniband::QueuePairInfo`
pub record QueuePairInfo : Type 0 where
  pub lid : ℕ
  pub qpn : ℕ
  pub psn : ℕ
  pub rkey : ℕ
  pub vaddr : ℕ

-- `Infiniband::Address`. `ib_port` is an `int32_t` that holds the number of a port, which is at least 1.
pub record Address : Type 0 where
  pub ib_port : ℕ
  pub lid : ℕ
  pub qpn : ℕ

-- `links` is the union of `backups` and `master`, which is its element 0.
pub record TabletInfo : Type 0 where
  pub id : ℕ
  pub server_id : ℕ
  pub is_backup : Bool
  pub qpis : ℕ → QueuePairInfo
  pub links : ℕ → ℕ

abbrev pub master : TabletInfo → ℕ
master t = t.links 0

pub record ServerInfo : Type 0 where
  pub id : ℕ
  pub active : Bool
  pub addr : List ℕ
  pub ib_addr : Address
  pub tablets : ℕ → ℕ

-- `next_id` is the static variable of `AllocServerId`.
pub record IndexManager : Type 0 where
  pub next_id : ℕ
  pub key_tablet_map : ℕ → ℕ
  pub tablets : ℕ → TabletInfo
  pub servers : ℕ → ServerInfo

-- `CalcTabletId`: `s_idx` is the server, `r_idx` the replication index, `t_idx` the tablet.
unfoldable pub calc_tablet_id : (s_idx r_idx t_idx : ℕ) → ℕ
calc_tablet_id s_idx r_idx t_idx =
    (s_idx * num_tablet_and_backups_per_server + r_idx * num_tablets_per_server + t_idx) % 2 ^ 32

-- `for (i = 0; i < n; ++i) body(i)`
unfoldable pub for_below {ℓ} : {S : Type ℓ} → ℕ → (ℕ → S → S) → S → S
for_below zero body s = s
for_below (suc n) body s = body n (for_below n body s)

-- The body of the two loops of `AddServer`, for server `i`, without `assert(backup_id != 0)`
unfoldable pub add_tablet : (ℕ → QueuePairInfo) → (i j k : ℕ) → IndexManager → IndexManager
add_tablet qpis i j k im =
    let tablet_id = calc_tablet_id i j k in
    let tablet_idx = calc_tablet_id 0 j k in
    let old = im.tablets tablet_id in
    let own : TabletInfo = record old {
      id = tablet_id;
      server_id = i;
      is_backup = ltb 0 j;
      qpis = λ n. if ltb n num_replicas then qpis (tablet_idx * num_replicas + n) else old.qpis n;
    } in
    let tablets = update im.tablets tablet_id own in
    let linked : IndexManager =
      if not (ltb 0 j)
      then record im {
        tablets = tablets;
        key_tablet_map = update im.key_tablet_map (calc_tablet_id 0 i k) tablet_id;
      }
      else (let master_id = calc_tablet_id ((num_servers + i - j) % num_servers) 0 k in
          let m = tablets master_id in
          let with_backup =
            update tablets master_id (record m { links = update m.links (j - 1) tablet_id }) in
          let b = with_backup tablet_id in
          record im {
            tablets =
                update with_backup tablet_id (record b { links = update b.links 0 master_id });
          }) in
    let server = linked.servers i in
    record linked {
      servers =
          update linked.servers i
            (record server { tablets = update server.tablets tablet_idx tablet_id });
    }

-- `AddServer`, given the address and the parsed `ib_addr` and `tablet_qpis` of the message
unfoldable pub add_server : List ℕ → Address → (ℕ → QueuePairInfo) → IndexManager → IndexManager
add_server addr ib_addr qpis im =
    let id = im.next_id in
    let server = im.servers id in
    let joined : IndexManager = record im {
      next_id = id + 1;
      servers = update im.servers id (record server {
        id = id;
        active = true;
        addr = addr;
        ib_addr = ib_addr;
        tablets = λ _. 0;
      });
    } in
    for_below (num_replicas + 1)
      (λ j. for_below num_tablets_per_server (λ k. add_tablet qpis id j k)) joined

-- A 64-bit number as a `double`: rounded to a multiple of the last place, ties to even. The last
-- place is the first power of two, `2 ^ 53` of which exceed the number.
abbrev pub round_to : ℕ → ℕ → ℕ
round_to unit n =
    let q = n / unit in
    let r = n % unit in
    if ltb (2 * r) unit
    then q * unit
    else if ltb unit (2 * r)
    then (q + 1) * unit
    else if q % 2 == 0
    then q * unit
    else (q + 1) * unit

unfoldable pub to_double_from : ℕ → ℕ → ℕ → ℕ
to_double_from zero unit n = round_to unit n
to_double_from (suc k) unit n =
    let rest = to_double_from k (2 * unit) n in
    if ltb n (2 ^ 53 * unit) then round_to unit n else rest

unfoldable pub to_double : ℕ → ℕ
unfolding to_double_from
to_double n = to_double_from 11 1 n

-- `GetTabletId`'s index. With two tablets `(1.0 + kMaxKeyHash) / key_tablet_map_.size()` is
-- `2 ^ 63`, and the division by it is exact.
unfoldable pub key_index : ℕ → ℕ
key_index key_hash = to_double key_hash / (2 ^ 64 / num_tablets)

abbrev pub get_tablet_id : IndexManager → ℕ → ℕ
get_tablet_id im key_hash = im.key_tablet_map (key_index key_hash)

-- `GetTablet(KeyHash)`, `GetServerId` and `GetServer(KeyHash)`
abbrev pub get_tablet : IndexManager → ℕ → TabletInfo
get_tablet im key_hash = im.tablets (get_tablet_id im key_hash)

abbrev pub get_server_id : IndexManager → ℕ → ℕ
get_server_id im key_hash = (get_tablet im key_hash).server_id

abbrev pub get_server : IndexManager → ℕ → ServerInfo
get_server im key_hash = im.servers (get_server_id im key_hash)

-- `Server::Dispatch`: the worker of a key hash's tablet
abbrev pub worker_of : IndexManager → ℕ → ℕ
worker_of im key_hash = get_tablet_id im key_hash % num_tablet_and_backups_per_server
