-- ===== src/Tablet/Create/Fresh.antt =====
-- A tablet as its constructor leaves it: its queue pairs are fresh, and its information is theirs.
use nvds.Base.{
  below_one, ℕ, ◌+◌, ◌<◌, ◌≡◌, ◌≢◌, refl, arith, Bool, true, false, ◌==◌, some, inl, ap, sym,
}
use nvds.Index.{num_replicas}
use nvds.Infiniband.{port}
use nvds.Command.{Allocator, ok, final, set_modifications, write, read32, ◌>>=◌, ◌>>◌}
use nvds.Allocator.{size, format, set_the_free_tag}
use nvds.Allocator.Heap.Formatted.{one_block, format-HasHeap}
use nvds.Allocator.Heap.Served.{HasHeap}
use nvds.QueuePair.{Works, QpVerbs, IsQpVerbs, QueuePair, QpType, QpState, done, to_init}
use nvds.QueuePair.Create.{
  CreateVerbs, InitAttr, to_ready, new_queue_pair, get_lid, default_psn, init_attr,
}
use nvds.Tablet.Connect.{Linked}
use nvds.Tablet.Connect.Paired.{IsFresh}
use nvds.Tablet.Create.{unformatted, new_qps, new_tablet, tablet_queue_depth, qp_info, with_new}

-- `Format` keeps the address of the allocator's memory.
format-base : (s s' : Allocator) → format s ≡ ok tt s' → s'.base ≡ s.base
unfolding format set_the_free_tag set_modifications write read32 ◌>>=◌ ◌>>◌
format-base s s' e = ap (λ r. (final r).base) (sym e)

-- The calls that make queue pairs succeed, and a queue pair is made in the state `RESET`.
pub record Makes (v : QpVerbs) (c : CreateVerbs v) : Type 0 where
  pub cq : (n : ℕ) (is_recv : Bool) (cqe : ℕ) → c.create_cq n is_recv cqe ≢ 0
  pub qp :
      (n : ℕ) (a : InitAttr)
      → (q : v.Qp) × (c.create_qp n a ≡ inl q) × (v.query_state q ≡ (0, QpState.reset))
  pub lid : (c.query_port port).0 ≡ 0

module _ (v : QpVerbs) (w : IsQpVerbs v) (works : Works v) (c : CreateVerbs v)
    (makes : Makes v c) where
  -- A queue pair that was made with the type `type`
  pub record IsNew (t : QpType) (q : QueuePair v) : Type 0 where
    pub type : q.type ≡ t
    pub state : v.query_state q.qp ≡ (0, QpState.init)
    pub psn : q.psn ≡ default_psn

  pub new_queue_pair-IsNew :
      (n : ℕ) (type : QpType) (max_send max_recv : ℕ)
      → (q : QueuePair v) × (new_queue_pair v c n type max_send max_recv ≡ done q) × IsNew type q
  unfolding new_queue_pair to_ready
  new_queue_pair-IsNew n type max_send max_recv =
      let scq = c.create_cq n false max_send in
      let rcq = c.create_cq n true max_recv in
      let a = init_attr type scq rcq max_send max_recv in
      let (qp, got, reset) = makes.qp n a in
      let no_scq : (scq == 0) ≡ false = ground (arith, makes.cq n false max_send) in
      let no_rcq : (rcq == 0) ≡ false = ground (arith, makes.cq n true max_recv) in
      (
        record {
          type = type;
          qp = (v.modify (to_init type) qp).1;
          scq = scq;
          rcq = rcq;
          psn = default_psn;
        },
        rw (no_scq, no_rcq, got, works (to_init type) qp reset) refl,
        record {
          type = refl;
          state = w.state_of (to_init type) qp (works (to_init type) qp reset);
          psn = refl;
        },
      )

  -- A tablet that was made at `vaddr`, whose region has the key `rkey`
  pub record IsNewTablet (b : Bool) (rkey vaddr : ℕ) (t : Linked v) : Type 0 where
    pub backup : t.info.is_backup ≡ b
    pub base : t.allocator.base ≡ vaddr
    pub heap : HasHeap one_block t.allocator.memory
    pub fresh : (i : ℕ) → i < num_replicas → IsFresh v w works (t.qps i)
    pub described :
        (i : ℕ)
        → i < num_replicas
        → t.info.qpis i ≡ qp_info v c (c.query_port port).1 rkey vaddr (t.qps i)

  -- When the calls of libibverbs succeed, those of `ibv_modify_qp` along the states, the constructor
  -- of `Tablet` makes a tablet that is a backup as it is told, whose allocator is at the tablet's
  -- address and has made its memory a heap of one free block, the hash table's being as before, whose queue pairs are of reliable connections and in the state `INIT`,
  -- and whose information on each names the device's local id, the number of that queue pair,
  -- the default packet number, and the key and the address of the tablet's memory.
  pub new_tablet-IsNewTablet :
      (is_backup : Bool) (rkey first vaddr : ℕ) (blank : Linked v)
      → (t : Linked v) × (new_tablet v c is_backup (some rkey) first vaddr blank ≡ done t)
        × IsNewTablet is_backup rkey vaddr t
        × ((x : ℕ) → t.allocator.memory (size + x) ≡ blank.allocator.memory (size + x))
  unfolding new_tablet new_qps get_lid
  new_tablet-IsNewTablet is_backup rkey first vaddr blank =
      let start = unformatted v c vaddr blank.allocator.memory in
      let (s, formats, heap, kept) = format-HasHeap start in
      let base : s.base ≡ vaddr = format-base start s formats in
      let (q, made, new) =
        new_queue_pair-IsNew (first + 0) QpType.rc tablet_queue_depth tablet_queue_depth in
      let t =
        with_new v c (c.query_port port).1 rkey vaddr 0 q
          (record blank { info = record blank.info { is_backup = is_backup }; allocator = s }) in
      (
        t,
        rw (formats, made, makes.lid) refl,
        record {
          backup = refl;
          base = base;
          heap = heap;
          fresh =
              below_one (λ i. IsFresh v w works (t.qps i))
                (record { type = new.type; state = new.state });
          described =
              below_one
                (λ i. t.info.qpis i ≡ qp_info v c (c.query_port port).1 rkey vaddr (t.qps i)) refl;
        },
        kept,
      )
