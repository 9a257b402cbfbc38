-- ===== src/Server/Create/Fresh.antt =====
-- A server as its constructor leaves it: ready for datagrams, and with a tablet and a backup that
-- wait to be connected.
use nvds.Base.{below_two, ℕ, ◌+◌, ◌<◌, ◌≡◌, refl, true, false, leb, some}
use nvds.Index.{IndexManager, update, num_tablets_per_server, num_tablet_and_backups_per_server}
use nvds.Message.Json.{Json}
use nvds.Infiniband.{port}
use nvds.QueuePair.{
  QpVerbs, IsQpVerbs, Works, QueuePair, QpType, QpState, done, activate, get_state, activate_rtr,
  activate_rts,
}
use nvds.QueuePair.Active.{at_rtr, activate_lem}
use nvds.QueuePair.Create.{CreateVerbs, get_lid, local_qp_num}
use nvds.Allocator
use nvds.Session.{Pipe}
use nvds.Tablet.Connect.{Linked}
use nvds.Tablet.Create.Fresh.{
  Makes, IsNew, IsNewTablet, new_queue_pair-IsNew, new_tablet-IsNewTablet,
}
use nvds.Server.Flow.{max_ib_queue_depth}
use nvds.Server.Join.{Server}
use nvds.Server.Create.{unplaced, tablet_addr, new_tablets, new_server}

module _ (p : Pipe) (l : Json) (v : QpVerbs) (w : IsQpVerbs v) (works : Works v) (c : CreateVerbs v)
    (makes : Makes v c) where
  activate-ready :
      (q : QueuePair v)
      → IsNew v w works c makes QpType.ud q
      → (q' : QueuePair v) × (activate v q ≡ done q') × (get_state v q' ≡ done QpState.rts)
  activate-ready q n =
      let to_rtr = works activate_rtr q.qp n.state in
      (activate_lem v w q).5 n.type n.state to_rtr
        (works (activate_rts q.psn) (at_rtr v w q) (w.state_of activate_rtr q.qp to_rtr))

  -- A new server over the device at `nvm`, whose tablets' regions have the keys `keys`, and which
  -- held `blank` before
  pub record IsNewServer (nvm nvm_size : ℕ) (keys : ℕ → ℕ) (blank : ℕ → Linked v) (s : Server p l v)
      : Type 0 where
    pub id : s.id ≡ 0
    pub inactive : s.active ≡ false
    pub size : s.nvm_size ≡ nvm_size
    pub ready : get_state v s.qp ≡ done QpState.rts
    pub addr :
        s.ib_addr
        ≡ record { ib_port = port; lid = (c.query_port port).1; qpn = local_qp_num v c s.qp }
    pub tablets :
        (i : ℕ)
        → i < num_tablet_and_backups_per_server
        → IsNewTablet v w works c makes
            (leb num_tablets_per_server i)
            (keys i)
            (tablet_addr nvm i)
            (s.tablets i)
    pub tables :
        (i : ℕ)
        → i < num_tablet_and_backups_per_server
        → (x : ℕ)
        → (s.tablets i).allocator.memory (Allocator.size + x)
          ≡ (blank i).allocator.memory (Allocator.size + x)

  -- When the calls of libibverbs succeed, those of `ibv_modify_qp` along the states, the constructor
  -- of `Server` makes a server that is not active, whose queue pair for datagrams is ready to send and is the one that its address names,
  -- and each of whose tablets is new, lies in its place of the device, has the heap that
  -- `Format` makes and its hash table's bytes as before, and is a backup except for the first
  -- `kNumTabletsPerServer`.
  pub new_server-IsNewServer :
      (nvm nvm_size : ℕ) (keys : ℕ → ℕ) (im : IndexManager) (blank : ℕ → Linked v)
      → (s : Server p l v) × (new_server p l v c nvm nvm_size (λ i. some (keys i)) im blank
          ≡ done s)
        × IsNewServer nvm nvm_size keys blank s
  unfolding new_server new_tablets get_lid
  new_server-IsNewServer nvm nvm_size keys im blank =
      let (q, made, new) =
        new_queue_pair-IsNew v w works c makes 0 QpType.ud max_ib_queue_depth max_ib_queue_depth in
      let (q', active, ready) = activate-ready q new in
      let s = unplaced p l v c nvm_size im blank q' (c.query_port port).1 in
      let (t₀, made₀, new₀, kept₀) =
        new_tablet-IsNewTablet v w works c makes false (keys 0) 1 (tablet_addr nvm 0)
          (s.tablets 0) in
      let (t₁, made₁, new₁, kept₁) =
        new_tablet-IsNewTablet v w works c makes true (keys 1) 2 (tablet_addr nvm 1)
          (s.tablets 1) in
      (
        record s { tablets = update (update s.tablets 0 t₀) 1 t₁ },
        rw (made, active, makes.lid, made₀, made₁) refl,
        record {
          id = refl;
          inactive = refl;
          size = refl;
          ready = ready;
          addr = refl;
          tablets =
              below_two
                (λ i.
                  IsNewTablet v w works c makes (leb num_tablets_per_server i) (keys i)
                    (tablet_addr nvm i) (update (update s.tablets 0 t₀) 1 t₁ i))
                new₀ new₁;
          tables =
              below_two
                (λ i.
                  (x : ℕ)
                  → (update (update s.tablets 0 t₀) 1 t₁ i).allocator.memory (Allocator.size + x)
                    ≡ (blank i).allocator.memory (Allocator.size + x))
                kept₀ kept₁;
        },
      )
