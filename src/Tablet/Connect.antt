-- ===== src/Tablet/Connect.antt =====
-- `Tablet::SettingupQPConnect` of src/tablet.cc: the queue pairs of a tablet are connected with
-- those of its backups, or of its master.
pub mod Paired
use nvds.Base.{ℕ, zero, suc, ◌+◌, ◌-◌, Bool, not, ltb, ◌==◌, if◌then◌else◌}
use nvds.Command.{Allocator}
use nvds.Index.{TabletInfo, IndexManager, master, num_replicas, update}
use nvds.QueuePair.{
  QpVerbs, QueuePair, Stepped, done, assert_failed, next_step, set_state_rtr, set_state_rts,
}

module _ (v : QpVerbs) where
  -- A `Tablet`: its information, its queue pairs, and its allocator, which has the tablet's memory
  pub record Linked : Type 0 where
    pub info : TabletInfo
    pub qps : ℕ → QueuePair v
    pub allocator : Allocator

  abbrev pub with_qp : Linked → ℕ → QueuePair v → Linked
  with_qp t i q = record t { qps = update t.qps i q }

  -- The loop of a backup, from `i` on with `n` rounds left
  unfoldable pub connect_backup : (n i id : ℕ) → TabletInfo → Linked → Stepped Linked
  unfolding set_state_rtr
  connect_backup zero i id m t = done t
  connect_backup (suc n) i id m t =
      let rest = connect_backup n (i + 1) id m t in
      if m.links i == id
      then next_step (set_state_rtr v (m.qpis i) (t.qps 0)) (λ q. done (with_qp t 0 q))
      else if ltb i (num_replicas - 1)
      then rest
      else assert_failed

  -- The loop of a master
  unfoldable pub connect_master : (n i : ℕ) → IndexManager → Linked → Stepped Linked
  unfolding set_state_rts
  connect_master zero i im t = done t
  connect_master (suc n) i im t =
      if (im.tablets (t.info.links i)).is_backup
      then next_step (set_state_rts v ((im.tablets (t.info.links i)).qpis 0) (t.qps i))
          (λ q. connect_master n (i + 1) im (with_qp t i q))
      else assert_failed

  unfoldable pub settingup_qp_connect : ℕ → IndexManager → Linked → Stepped Linked
  unfolding connect_backup connect_master
  settingup_qp_connect id im old =
      let info = im.tablets id in
      let t : Linked = record old { info = info } in
      if info.is_backup
      then if (im.tablets (master info)).is_backup
        then assert_failed
        else connect_backup num_replicas 0 id (im.tablets (master info)) t
      else connect_master num_replicas 0 im t
