-- ===== src/Tablet/Create.antt =====
-- The constructor of `Tablet` of src/tablet.cc.
pub mod Fresh
use nvds.Base.{ℕ, zero, suc, ◌+◌, Bool, true, false, Option, none, some, []}
use nvds.Index.{QueuePairInfo, TabletInfo, num_replicas, update}
use nvds.Infiniband.{port}
use nvds.Nvm.{Memory}
use nvds.Command.{Allocator, Run, ok, out_of_fuel}
use nvds.Allocator.{format}
use nvds.QueuePair.{QpVerbs, QueuePair, QpType, Stepped, done, assert_failed, next_step}
use nvds.QueuePair.Create.{CreateVerbs, new_queue_pair, get_lid, local_qp_num, default_psn}
use nvds.Tablet.Connect.{Linked}

-- `kMaxIBQueueDepth` of `Tablet`
abbrev pub tablet_queue_depth : ℕ
tablet_queue_depth = 128

module _ (v : QpVerbs) (c : CreateVerbs v) where
  -- The information on the queue pair `q` of a tablet at `vaddr` whose region has the key `rkey`
  abbrev pub qp_info : (lid rkey vaddr : ℕ) → QueuePair v → QueuePairInfo
  qp_info lid rkey vaddr q = record {
    lid = lid;
    qpn = local_qp_num v c q;
    psn = default_psn;
    rkey = rkey;
    vaddr = vaddr;
  }

  -- The tablet with its queue pair `i` made
  abbrev pub with_new : (lid rkey vaddr i : ℕ) → QueuePair v → Linked v → Linked v
  with_new lid rkey vaddr i q t = record t {
    info = record t.info { qpis = update t.info.qpis i (qp_info lid rkey vaddr q) };
    qps = update t.qps i q;
  }

  -- The loop over the replicas, `i` on with `n` rounds left; `first` is the number of the tablet's
  -- first queue pair.
  unfoldable pub new_qps : (n i first rkey vaddr : ℕ) → Linked v → Stepped (Linked v)
  unfolding new_queue_pair get_lid
  new_qps zero i first rkey vaddr t = done t
  new_qps (suc n) i first rkey vaddr t =
      next_step (new_queue_pair v c (first + i) QpType.rc tablet_queue_depth tablet_queue_depth)
        (λ q.
          next_step (get_lid v c port)
            (λ lid. new_qps n (i + 1) first rkey vaddr (with_new lid rkey vaddr i q t)))

  -- From `ibv_reg_mr` on
  abbrev pub registered : (mr : Option ℕ) (first vaddr : ℕ) → Linked v → Stepped (Linked v)
  registered none first vaddr t = assert_failed
  registered (some rkey) first vaddr t = new_qps num_replicas 0 first rkey vaddr t

  -- The allocator of a tablet at `vaddr`, before its constructor formats the memory `m`
  abbrev pub unformatted : (vaddr : ℕ) → Memory → Allocator
  unformatted vaddr m = record { base = vaddr; cnt_writes = 0; modifications = []; memory = m }

  -- After the allocator was made; `Format` has no loop that could go on.
  abbrev pub with_heap :
      Run (Unit {0}) → Linked v → (Linked v → Stepped (Linked v)) → Stepped (Linked v)
  with_heap (ok tt s) t f = f (record t { allocator = s })
  with_heap (Run.assert_failed s) t f = assert_failed
  with_heap (out_of_fuel s) t f = assert_failed

  -- The constructor, for a tablet at `vaddr`: the allocator formats the tablet's memory, and then the
  -- region is registered. `mr` is the key of the region that `ibv_reg_mr` makes, or nothing where
  -- it returns null; `blank` is what the record and the tablet's memory hold before.
  unfoldable pub new_tablet :
      (is_backup : Bool) (mr : Option ℕ) (first vaddr : ℕ) → Linked v → Stepped (Linked v)
  unfolding new_qps
  new_tablet is_backup mr first vaddr blank =
      with_heap (format (unformatted vaddr blank.allocator.memory)) blank (λ t.
        registered mr first vaddr (record t { info = record t.info { is_backup = is_backup } }))
