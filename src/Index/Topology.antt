-- ===== src/Index/Topology.antt =====
-- The index manager after every server has joined: masters and backups lead to one another across
-- servers, and a key hash leads to a master tablet and to a worker of its server.
use nvds.Base.{
  ℕ, zero, suc, ◌-◌, ◌*◌, ◌/◌, ◌%◌, ◌^◌, ◌<◌, ◌≡◌, ◌≢◌, refl, arith, ltb, true, false, List,
}
use nvds.Index.{
  QueuePairInfo, Address, TabletInfo, ServerInfo, IndexManager, master, calc_tablet_id, for_below,
  add_tablet, add_server, key_index, get_tablet_id, get_tablet, get_server, worker_of, num_servers,
  num_tablets, num_tablet_and_backups, num_tablet_and_backups_per_server, num_tablets_per_server,
}
use nvds.Index.KeyHash.{key_index-in_range}

-- An index manager to which no server was added; its arrays hold anything.
abbrev pub fresh : (ℕ → ℕ) → (ℕ → TabletInfo) → (ℕ → ServerInfo) → IndexManager
fresh keys tablets servers = record {
  next_id = 0;
  key_tablet_map = keys;
  tablets = tablets;
  servers = servers;
}

-- The tablet `t` is the one of its number, on its server, and is a backup where its place says so.
pub record IsPlaced (im : IndexManager) (t : ℕ) : Type 0 where
  pub id : (im.tablets t).id ≡ t
  pub server : (im.tablets t).server_id ≡ t / num_tablet_and_backups_per_server
  pub backup :
      (im.tablets t).is_backup
      ≡ ltb 0 (t % num_tablet_and_backups_per_server / num_tablets_per_server)
  pub listed :
      (im.servers (t / num_tablet_and_backups_per_server)).tablets
        (t % num_tablet_and_backups_per_server)
      ≡ t

-- The backup `b` and its master lead to one another, and are on different servers.
pub record IsPaired (im : IndexManager) (b : ℕ) : Type 0 where
  pub in_range : master (im.tablets b) < num_tablet_and_backups
  pub to_master : (im.tablets (master (im.tablets b))).is_backup ≡ false
  pub back : (im.tablets (master (im.tablets b))).links 0 ≡ b
  pub apart : (im.tablets (master (im.tablets b))).server_id ≢ (im.tablets b).server_id

-- The server `i` is active under its number.
pub record IsJoined (im : IndexManager) (i : ℕ) : Type 0 where
  pub id : (im.servers i).id ≡ i
  pub active : (im.servers i).active ≡ true
  pub keys : im.key_tablet_map i ≡ i * num_tablet_and_backups_per_server

pub record IsCluster (im : IndexManager) : Type 0 where
  pub placed : (t : ℕ) → t < num_tablet_and_backups → IsPlaced im t
  pub paired :
      (t : ℕ) → t < num_tablet_and_backups → (im.tablets t).is_backup ≡ true → IsPaired im t
  pub joined : (i : ℕ) → i < num_servers → IsJoined im i

module _ (keys : ℕ → ℕ) (tablets : ℕ → TabletInfo) (servers : ℕ → ServerInfo) (addr₀ addr₁ : List ℕ)
    (ib₀ ib₁ : Address) (qpis₀ qpis₁ : ℕ → QueuePairInfo) where
  abbrev pub cluster : IndexManager
  cluster = add_server addr₁ ib₁ qpis₁ (add_server addr₀ ib₀ qpis₀ (fresh keys tablets servers))

  cluster-IsPlaced : (t : ℕ) → t < num_tablet_and_backups → IsPlaced cluster t
  unfolding add_server add_tablet for_below calc_tablet_id
  cluster-IsPlaced zero h = record { id = refl; server = refl; backup = refl; listed = refl }
  cluster-IsPlaced (suc zero) h = record { id = refl; server = refl; backup = refl; listed = refl }
  cluster-IsPlaced (suc (suc zero)) h = record {
    id = refl;
    server = refl;
    backup = refl;
    listed = refl;
  }
  cluster-IsPlaced (suc (suc (suc zero))) h = record {
    id = refl;
    server = refl;
    backup = refl;
    listed = refl;
  }
  cluster-IsPlaced (suc (suc (suc (suc t)))) h = absurd (omega arith)

  cluster-IsPaired :
      (t : ℕ)
      → t < num_tablet_and_backups
      → (cluster.tablets t).is_backup ≡ true
      → IsPaired cluster t
  unfolding add_server add_tablet for_below calc_tablet_id
  cluster-IsPaired zero h b = cc
  cluster-IsPaired (suc zero) h b = record {
    in_range = omega arith;
    to_master = refl;
    back = refl;
    apart = omega arith;
  }
  cluster-IsPaired (suc (suc zero)) h b = cc
  cluster-IsPaired (suc (suc (suc zero))) h b = record {
    in_range = omega arith;
    to_master = refl;
    back = refl;
    apart = omega arith;
  }
  cluster-IsPaired (suc (suc (suc (suc t)))) h b = absurd (omega arith)

  cluster-IsJoined : (i : ℕ) → i < num_servers → IsJoined cluster i
  unfolding add_server add_tablet for_below calc_tablet_id
  cluster-IsJoined zero h = record { id = refl; active = refl; keys = refl }
  cluster-IsJoined (suc zero) h = record { id = refl; active = refl; keys = refl }
  cluster-IsJoined (suc (suc i)) h = absurd (omega arith)

  -- After both servers were added to an index manager that had none, whatever its arrays held
  -- before: each tablet is on the server of its number, listed there, and a backup exactly where
  -- its place says so; each backup and its master lead to one another and are on different servers;
  -- each server is active under its number, and the key map names its master tablet.
  pub cluster-IsCluster : IsCluster cluster
  cluster-IsCluster = record {
    placed = cluster-IsPlaced;
    paired = cluster-IsPaired;
    joined = cluster-IsJoined;
  }

  -- A 64-bit key hash below `2 ^ 64 - 1024` leads to a master tablet, to the active server that has
  -- this tablet, and to a worker that the server has.
  pub dispatch_lem :
      (key_hash : ℕ)
      → key_hash < 2 ^ 64 - 1024
      → ((get_tablet cluster key_hash).is_backup ≡ false)
        × ((get_tablet cluster key_hash).id ≡ get_tablet_id cluster key_hash)
        × ((get_server cluster key_hash).active ≡ true)
        × ((get_server cluster key_hash).id ≡ key_index key_hash)
        × (worker_of cluster key_hash < num_tablets_per_server)
  unfolding add_server add_tablet for_below calc_tablet_id
  dispatch_lem key_hash h =
      at_index (key_index key_hash) ((key_index-in_range key_hash (omega arith)).1 h)
    where
      at_index :
          (i : ℕ)
          → i < num_tablets
          → let t = cluster.key_tablet_map i in
            ((cluster.tablets t).is_backup ≡ false)
            × ((cluster.tablets t).id ≡ t)
            × ((cluster.servers (cluster.tablets t).server_id).active ≡ true)
            × ((cluster.servers (cluster.tablets t).server_id).id ≡ i)
            × (t % num_tablet_and_backups_per_server < num_tablets_per_server)
      at_index zero h = (refl, refl, refl, refl, omega arith)
      at_index (suc zero) h = (refl, refl, refl, refl, omega arith)
      at_index (suc (suc i)) h = absurd (omega arith)
