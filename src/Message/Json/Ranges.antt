-- ===== src/Message/Json/Ranges.antt =====
-- The ranges of the fields of the records that src/message.cc converts, and when two such records are
-- the same in what the source's arrays hold.
use nvds.Base.{ℕ, ◌^◌, ◌<◌, ◌≡◌, true}
use nvds.Index.{
  QueuePairInfo, TabletInfo, ServerInfo, IndexManager, num_replicas, num_servers, num_tablets,
  num_tablet_and_backups, num_tablet_and_backups_per_server,
}

-- The fields are in the ranges of their types in the source.
pub record FitsQpi (q : QueuePairInfo) : Type 0 where
  pub lid : q.lid < 2 ^ 16
  pub qpn : q.qpn < 2 ^ 32
  pub psn : q.psn < 2 ^ 32
  pub rkey : q.rkey < 2 ^ 32
  pub vaddr : q.vaddr < 2 ^ 64

pub record FitsTablet (t : TabletInfo) : Type 0 where
  pub id : t.id < 2 ^ 32
  pub server_id : t.server_id < 2 ^ 32
  pub qpis : (i : ℕ) → i < num_replicas → FitsQpi (t.qpis i)
  pub links : (i : ℕ) → i < num_replicas → t.links i < 2 ^ 32

pub record FitsServer (s : ServerInfo) : Type 0 where
  pub id : s.id < 2 ^ 32
  pub ib_port : s.ib_addr.ib_port < 2 ^ 32
  pub lid : s.ib_addr.lid < 2 ^ 16
  pub qpn : s.ib_addr.qpn < 2 ^ 32
  pub tablets : (i : ℕ) → i < num_tablet_and_backups_per_server → s.tablets i < 2 ^ 32

pub record FitsIndex (im : IndexManager) : Type 0 where
  pub keys : (i : ℕ) → i < num_tablets → im.key_tablet_map i < 2 ^ 32
  pub tablets : (i : ℕ) → i < num_tablet_and_backups → FitsTablet (im.tablets i)
  pub servers : (i : ℕ) → i < num_servers → FitsServer (im.servers i)

-- Equal in what the source's arrays hold; of the union's members, in the one that is written.
pub record SameTablet (t u : TabletInfo) : Type 0 where
  pub id : u.id ≡ t.id
  pub server_id : u.server_id ≡ t.server_id
  pub is_backup : u.is_backup ≡ t.is_backup
  pub qpis : (i : ℕ) → i < num_replicas → u.qpis i ≡ t.qpis i
  pub links : (i : ℕ) → i < num_replicas → (t.is_backup ≡ true → i ≡ 0) → u.links i ≡ t.links i

pub record SameServer (s u : ServerInfo) : Type 0 where
  pub id : u.id ≡ s.id
  pub active : u.active ≡ s.active
  pub addr : u.addr ≡ s.addr
  pub ib_addr : u.ib_addr ≡ s.ib_addr
  pub tablets : (i : ℕ) → i < num_tablet_and_backups_per_server → u.tablets i ≡ s.tablets i

pub record SameIndex (im jm : IndexManager) : Type 0 where
  pub keys : (i : ℕ) → i < num_tablets → jm.key_tablet_map i ≡ im.key_tablet_map i
  pub tablets : (i : ℕ) → i < num_tablet_and_backups → SameTablet (im.tablets i) (jm.tablets i)
  pub servers : (i : ℕ) → i < num_servers → SameServer (im.servers i) (jm.servers i)
