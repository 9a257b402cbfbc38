-- ===== src/Tablet/Connect/Paired.antt =====
-- In a cluster the queue pairs of a backup and of its master are connected with one another.
use nvds.Base.{ℕ, ◌<◌, ◌≡◌, refl, arith, true, false, ◌==◌}
use nvds.Index.{QueuePairInfo, IndexManager, master, num_tablet_and_backups, update}
use nvds.Index.Topology.{IsCluster}
use nvds.QueuePair.{
  QpVerbs, IsQpVerbs, Works, QueuePair, QpType, QpState, connect_rtr, connect_rts, done, get_state,
  get_peer_qp_num, modify_qp, assert_init, set_state_rtr, set_state_rts,
}
use nvds.Tablet.Connect.{Linked, connect_backup, connect_master, settingup_qp_connect}

module _ (v : QpVerbs) (w : IsQpVerbs v) (works : Works v) where
  -- A queue pair of a reliable connection as its constructor leaves it
  pub record IsFresh (q : QueuePair v) : Type 0 where
    pub type : q.type ≡ QpType.rc
    pub state : v.query_state q.qp ≡ (0, QpState.init)

  -- A queue pair in state `s` whose peer has the number `qpn`
  pub record IsConnected (s : QpState) (qpn : ℕ) (q : QueuePair v) : Type 0 where
    pub state : get_state v q ≡ done s
    pub peer : get_peer_qp_num v q ≡ done qpn

  abbrev pub at_rtr : QueuePairInfo → QueuePair v → QueuePair v
  at_rtr peer q = record q { qp = (v.modify (connect_rtr peer.qpn peer.psn peer.lid) q.qp).1 }

  set_state_rtr-done :
      (peer : QueuePairInfo) (q : QueuePair v)
      → IsFresh q
      → set_state_rtr v peer q ≡ done (at_rtr peer q)
  unfolding set_state_rtr assert_init get_state modify_qp
  set_state_rtr-done peer q f =
      rw (f.type, f.state, works (connect_rtr peer.qpn peer.psn peer.lid) q.qp f.state) refl

  after_rtr :
      (peer : QueuePairInfo) (q : QueuePair v)
      → IsFresh q
      → v.query_state (at_rtr peer q).qp ≡ (0, QpState.rtr)
  after_rtr peer q f =
      w.state_of (connect_rtr peer.qpn peer.psn peer.lid) q.qp
        (works (connect_rtr peer.qpn peer.psn peer.lid) q.qp f.state)

  pub at_rtr-IsConnected :
      (peer : QueuePairInfo) (q : QueuePair v)
      → IsFresh q
      → IsConnected QpState.rtr peer.qpn (at_rtr peer q)
  unfolding get_state get_peer_qp_num
  at_rtr-IsConnected peer q f =
      let ok = works (connect_rtr peer.qpn peer.psn peer.lid) q.qp f.state in
      record {
        state = rw (w.state_of (connect_rtr peer.qpn peer.psn peer.lid) q.qp ok) refl;
        peer = rw (w.dest_of peer.qpn peer.psn peer.lid q.qp ok) refl;
      }

  abbrev pub at_rts : QueuePairInfo → QueuePair v → QueuePair v
  at_rts peer q = record q { qp = (v.modify (connect_rts q.psn) (at_rtr peer q).qp).1 }

  set_state_rts-done :
      (peer : QueuePairInfo) (q : QueuePair v)
      → IsFresh q
      → set_state_rts v peer q ≡ done (at_rts peer q)
  unfolding set_state_rts modify_qp
  set_state_rts-done peer q f =
      rw
        (
          set_state_rtr-done peer q f,
          works (connect_rts q.psn) (at_rtr peer q).qp (after_rtr peer q f),
        )
        refl

  pub at_rts-IsConnected :
      (peer : QueuePairInfo) (q : QueuePair v)
      → IsFresh q
      → IsConnected QpState.rts peer.qpn (at_rts peer q)
  unfolding get_state get_peer_qp_num
  at_rts-IsConnected peer q f =
      let ok = works (connect_rts q.psn) (at_rtr peer q).qp (after_rtr peer q f) in
      let ok₁ = works (connect_rtr peer.qpn peer.psn peer.lid) q.qp f.state in
      record {
        state = rw (w.state_of (connect_rts q.psn) (at_rtr peer q).qp ok) refl;
        peer =
            rw
              (
                w.dest_kept q.psn (at_rtr peer q).qp ok,
                w.dest_of peer.qpn peer.psn peer.lid q.qp ok₁,
              )
              refl;
      }

  pub settingup-backup :
      (im : IndexManager) (b : ℕ) (t : Linked v)
      → (im.tablets b).is_backup ≡ true
      → (im.tablets (master (im.tablets b))).is_backup ≡ false
      → (im.tablets (master (im.tablets b))).links 0 ≡ b
      → IsFresh (t.qps 0)
      → settingup_qp_connect v b im t
        ≡ done (record t {
          info = im.tablets b;
          qps = update t.qps 0 (at_rtr ((im.tablets (master (im.tablets b))).qpis 0) (t.qps 0));
        })
  unfolding settingup_qp_connect connect_backup
  settingup-backup im b t backup is_master back f =
      let found : ((im.tablets (master (im.tablets b))).links 0 == b) ≡ true = ground arith in
      rw
        (
          backup,
          is_master,
          found,
          set_state_rtr-done ((im.tablets (master (im.tablets b))).qpis 0) (t.qps 0) f,
        )
        refl

  pub settingup-master :
      (im : IndexManager) (m b : ℕ) (u : Linked v)
      → (im.tablets m).is_backup ≡ false
      → (im.tablets m).links 0 ≡ b
      → (im.tablets b).is_backup ≡ true
      → IsFresh (u.qps 0)
      → settingup_qp_connect v m im u
        ≡ done (record u {
          info = im.tablets m;
          qps = update u.qps 0 (at_rts ((im.tablets b).qpis 0) (u.qps 0));
        })
  unfolding settingup_qp_connect connect_master
  settingup-master im m b u is_master back backup f =
      rw (is_master, back, backup, set_state_rts-done ((im.tablets b).qpis 0) (u.qps 0) f) refl

  -- In a cluster, let `b` be a backup, and let the queue pairs of `b` and of its master be fresh.
  -- When the calls of `ibv_modify_qp` succeed along the states, `SettingupQPConnect` fails no assertion on either
  -- of the two tablets: the backup's queue pair is left ready to receive with the master's number as
  -- its peer, and the master's is left ready to send with the backup's.
  pub settingup-Paired :
      (im : IndexManager) (b : ℕ) (t u : Linked v)
      → IsCluster im
      → b < num_tablet_and_backups
      → (im.tablets b).is_backup ≡ true
      → IsFresh (t.qps 0)
      → IsFresh (u.qps 0)
      → let m = master (im.tablets b) in
        (t' : Linked v) × (u' : Linked v) × (settingup_qp_connect v b im t ≡ done t')
        × (settingup_qp_connect v m im u ≡ done u')
        × IsConnected QpState.rtr ((im.tablets m).qpis 0).qpn (t'.qps 0)
        × IsConnected QpState.rts ((im.tablets b).qpis 0).qpn (u'.qps 0)
  settingup-Paired im b t u c h backup ft fu =
      let pair = c.paired b h backup in
      let m = master (im.tablets b) in
      (
        record t {
          info = im.tablets b;
          qps = update t.qps 0 (at_rtr ((im.tablets m).qpis 0) (t.qps 0));
        },
        record u {
          info = im.tablets m;
          qps = update u.qps 0 (at_rts ((im.tablets b).qpis 0) (u.qps 0));
        },
        settingup-backup im b t backup pair.to_master pair.back ft,
        settingup-master im m b u pair.to_master pair.back backup fu,
        at_rtr-IsConnected ((im.tablets m).qpis 0) (t.qps 0) ft,
        at_rts-IsConnected ((im.tablets b).qpis 0) (u.qps 0) fu,
      )
