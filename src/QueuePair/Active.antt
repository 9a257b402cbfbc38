-- ===== src/QueuePair/Active.antt =====
-- Bringing a queue pair for datagrams into service (`Activate` of src/infiniband.cc).
use nvds.Base.{◌≡◌, ◌≢◌, refl, arith, false, ◌==◌}
use nvds.QueuePair.{
  QpVerbs, IsQpVerbs, QueuePair, QpType, QpState, activate_rtr, activate_rts, done, assert_failed,
  transport_exception, is_init, get_state, modify_qp, assert_init, activate,
}

module _ (v : QpVerbs) (w : IsQpVerbs v) where
  -- The queue pair after the first of the two calls
  abbrev pub at_rtr : QueuePair v → v.Qp
  at_rtr q = (v.modify activate_rtr q.qp).1

  -- How `Activate` ends, by its conditions in turn: it fails an assertion on a queue pair that is not
  -- for datagrams, and on one whose state can be read and is not `INIT`; it throws the error of
  -- reading the state, or of the first or of the second `ibv_modify_qp`; and if all succeed the
  -- queue pair is left ready to send.
  pub activate_lem :
      (q : QueuePair v)
      → (q.type ≡ QpType.rc → activate v q ≡ assert_failed)
        × (q.type ≡ QpType.ud
            → (v.query_state q.qp).0 ≢ 0
            → activate v q ≡ transport_exception (v.query_state q.qp).0)
        × (q.type ≡ QpType.ud
            → (v.query_state q.qp).0 ≡ 0
            → is_init (v.query_state q.qp).1 ≡ false
            → activate v q ≡ assert_failed)
        × (q.type ≡ QpType.ud
            → v.query_state q.qp ≡ (0, QpState.init)
            → (v.modify activate_rtr q.qp).0 ≢ 0
            → activate v q ≡ transport_exception (v.modify activate_rtr q.qp).0)
        × (q.type ≡ QpType.ud
            → v.query_state q.qp ≡ (0, QpState.init)
            → (v.modify activate_rtr q.qp).0 ≡ 0
            → (v.modify (activate_rts q.psn) (at_rtr q)).0 ≢ 0
            → activate v q ≡ transport_exception (v.modify (activate_rts q.psn) (at_rtr q)).0)
        × (q.type ≡ QpType.ud
            → v.query_state q.qp ≡ (0, QpState.init)
            → (v.modify activate_rtr q.qp).0 ≡ 0
            → (v.modify (activate_rts q.psn) (at_rtr q)).0 ≡ 0
            → (q' : QueuePair v) × (activate v q ≡ done q') × (get_state v q' ≡ done QpState.rts))
  unfolding activate assert_init get_state modify_qp
  activate_lem q = (
    λ t. rw t refl,
    λ t e. let bad : ((v.query_state q.qp).0 == 0) ≡ false = ground arith in rw (t, bad) refl,
    λ t e i. rw (t, e, i) refl,
    λ t s e.
        let bad : ((v.modify activate_rtr q.qp).0 == 0) ≡ false = ground arith in
        rw (t, s, bad) refl,
    λ t s e e'.
        let bad : ((v.modify (activate_rts q.psn) (at_rtr q)).0 == 0) ≡ false = ground arith in
        rw (t, s, e, bad) refl,
    λ t s e e'. (
      record q { qp = (v.modify (activate_rts q.psn) (at_rtr q)).1 },
      rw (t, s, e, e') refl,
      rw (w.state_of (activate_rts q.psn) (at_rtr q) e') refl,
    ),
  )
