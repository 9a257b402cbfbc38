-- ===== src/Server/Create.antt =====
-- The constructor of `Server` of src/server.cc, without its buffers, which `Buffers` makes, and
-- without the threads of its workers.
pub mod Fresh
use nvds.Base.{ℕ, zero, suc, ◌+◌, ◌*◌, Bool, false, leb, Option}
use nvds.Index.{
  IndexManager, num_replicas, num_tablets_per_server, num_tablet_and_backups_per_server, update,
}
use nvds.Message.Json.{Json}
use nvds.Infiniband.{port}
use nvds.QueuePair.{QpVerbs, QueuePair, QpType, Stepped, done, next_step, activate}
use nvds.QueuePair.Create.{CreateVerbs, new_queue_pair, get_lid, local_qp_num}
use nvds.Session.{Pipe}
use nvds.Tablet.{hash_table_size, hash_table_field}
use nvds.Tablet.Connect.{Linked}
use nvds.Tablet.Create.{new_tablet}
use nvds.Server.Flow.{max_ib_queue_depth}
use nvds.Server.Join.{Server}

-- `kNVMTabletSize`, and `offsetof(NVMDevice, tablets)`
abbrev pub nvm_tablet_size : ℕ
nvm_tablet_size = hash_table_field + 4 * hash_table_size

abbrev pub tablets_field : ℕ
tablets_field = 36

-- The address of the tablet `i` of the device at `nvm`
abbrev pub tablet_addr : (nvm i : ℕ) → ℕ
tablet_addr nvm i = nvm + tablets_field + i * nvm_tablet_size

module _ (p : Pipe) (l : Json) (v : QpVerbs) (c : CreateVerbs v) where
  -- The loop over the tablets, `i` on with `n` rounds left. `mrs` gives the key of each tablet's
  -- region; the server's own queue pair has the number 0, and each tablet's come next.
  unfoldable pub new_tablets :
      (n i nvm : ℕ) → (mrs : ℕ → Option ℕ) → Server p l v → Stepped (Server p l v)
  new_tablets zero i nvm mrs s = done s
  new_tablets (suc n) i nvm mrs s =
      next_step
        (new_tablet v c (leb num_tablets_per_server i) (mrs i) (1 + num_replicas * i)
          (tablet_addr nvm i) (s.tablets i))
        (λ t. new_tablets n (i + 1) nvm mrs (record s { tablets = update s.tablets i t }))

  -- What the constructor sets, given its queue pair and the local id
  abbrev pub unplaced :
      (nvm_size : ℕ) → IndexManager → (ℕ → Linked v) → QueuePair v → ℕ → Server p l v
  unplaced nvm_size im blank q lid = record {
    id = 0;
    active = false;
    nvm_size = nvm_size;
    ib_addr = record { ib_port = port; lid = lid; qpn = local_qp_num v c q };
    index_manager = im;
    qp = q;
    tablets = blank;
  }

  -- The constructor; `im` and `blank` are what the members hold before.
  unfoldable pub new_server :
      (nvm nvm_size : ℕ)
      → (mrs : ℕ → Option ℕ) → IndexManager
      → (blank : ℕ → Linked v) → Stepped (Server p l v)
  new_server nvm nvm_size mrs im blank =
      next_step (new_queue_pair v c 0 QpType.ud max_ib_queue_depth max_ib_queue_depth) (λ q.
        next_step (activate v q) (λ q'. next_step (get_lid v c port) (λ lid.
          new_tablets num_tablet_and_backups_per_server 0 nvm mrs
            (unplaced nvm_size im blank q' lid))))
