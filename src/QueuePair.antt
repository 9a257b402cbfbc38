-- ===== src/QueuePair.antt =====
-- Queue pairs and the steps that bring them into service (`Infiniband::QueuePair` of
-- src/infiniband.h and src/infiniband.cc). libibverbs is the parameter `QpVerbs`.
pub mod Active
pub mod Create
use nvds.Base.{ℕ, ◌≡◌, Bool, true, false, ◌==◌, if◌then◌else◌}
use nvds.Index.{QueuePairInfo}

-- `ibv_qp_type`, as far as the source uses it, and `ibv_qp_state`
pub data QpType : Type 0 where
  rc ud : QpType

pub data QpState : Type 0 where
  reset init rtr rts sqd sqe err : QpState

-- The calls of `ibv_modify_qp`: with the attributes that vary, in the order of the source
pub data Modify : Type 0 where
  to_init : QpType → Modify
  activate_rtr : Modify
  activate_rts : (sq_psn : ℕ) → Modify
  connect_rtr : (dest_qp_num rq_psn dlid : ℕ) → Modify
  connect_rts : (sq_psn : ℕ) → Modify

abbrev pub target : Modify → QpState
target (to_init t) = QpState.init
target activate_rtr = QpState.rtr
target (activate_rts psn) = QpState.rts
target (connect_rtr qpn psn lid) = QpState.rtr
target (connect_rts psn) = QpState.rts

-- The state that a queue pair is in before each
abbrev pub origin : Modify → QpState
origin (to_init t) = QpState.reset
origin activate_rtr = QpState.init
origin (activate_rts psn) = QpState.rtr
origin (connect_rtr qpn psn lid) = QpState.init
origin (connect_rts psn) = QpState.rtr

-- What the source calls: `ibv_modify_qp`, and `ibv_query_qp` for the state and for the peer's
-- number, each with its error, which is 0 on success
pub record QpVerbs : Type 1 where
  pub Qp : Type 0
  pub modify : Modify → Qp → ℕ × Qp
  pub query_state : Qp → ℕ × QpState
  pub query_dest : Qp → ℕ × ℕ

-- What libibverbs documents of them: a queue pair that was modified without error is in the state
-- that was asked for, and has the peer that the last call which names one names.
pub record IsQpVerbs (v : QpVerbs) : Type 0 where
  pub state_of :
      (c : Modify) (q : v.Qp)
      → (v.modify c q).0 ≡ 0
      → v.query_state (v.modify c q).1 ≡ (0, target c)
  pub dest_of :
      (qpn psn lid : ℕ) (q : v.Qp)
      → (v.modify (connect_rtr qpn psn lid) q).0 ≡ 0
      → v.query_dest (v.modify (connect_rtr qpn psn lid) q).1 ≡ (0, qpn)
  pub dest_kept :
      (psn : ℕ) (q : v.Qp)
      → (v.modify (connect_rts psn) q).0 ≡ 0
      → v.query_dest (v.modify (connect_rts psn) q).1 ≡ v.query_dest q

-- The calls of `ibv_modify_qp` succeed along the states of libibverbs, from `RESET` over `INIT` and
-- `RTR` to `RTS`. Of a call in another state nothing is said.
abbrev pub Works : QpVerbs → Type 0
Works v = (c : Modify) (q : v.Qp) → v.query_state q ≡ (0, origin c) → (v.modify c q).0 ≡ 0

-- How a step ends; the exception is `TransportException`, with its error.
pub data Stepped (A : Type 0) : Type 0 where
  done : A → Stepped A
  assert_failed : Stepped A
  transport_exception : ℕ → Stepped A

abbrev pub next_step : {A B : Type 0} → Stepped A → (A → Stepped B) → Stepped B
next_step (done a) f = f a
next_step assert_failed f = assert_failed
next_step (transport_exception e) f = transport_exception e

abbrev pub is_rc : QpType → Bool
is_rc QpType.rc = true
is_rc QpType.ud = false

abbrev pub is_init : QpState → Bool
is_init QpState.init = true
is_init _ = false

module _ (v : QpVerbs) where
  pub record QueuePair : Type 0 where
    pub type : QpType
    pub qp : v.Qp
    pub scq : ℕ
    pub rcq : ℕ
    pub psn : ℕ

  -- `GetState` and `GetPeerQPNum`
  unfoldable pub get_state : QueuePair → Stepped QpState
  get_state q =
      if (v.query_state q.qp).0 == 0
      then done (v.query_state q.qp).1
      else transport_exception (v.query_state q.qp).0

  unfoldable pub get_peer_qp_num : QueuePair → Stepped ℕ
  get_peer_qp_num q =
      if (v.query_dest q.qp).0 == 0
      then done (v.query_dest q.qp).1
      else transport_exception (v.query_dest q.qp).0

  -- One call of `ibv_modify_qp` and the test of its error
  unfoldable pub modify_qp : Modify → QueuePair → Stepped QueuePair
  modify_qp c q =
      if (v.modify c q.qp).0 == 0
      then done (record q { qp = (v.modify c q.qp).1 })
      else transport_exception (v.modify c q.qp).0

  -- `assert(GetState() == IBV_QPS_INIT)`
  unfoldable pub assert_init : QueuePair → Stepped QueuePair
  unfolding get_state
  assert_init q = next_step (get_state q) (λ s. if is_init s then done q else assert_failed)

  -- `Activate`, for a UD queue pair
  unfoldable pub activate : QueuePair → Stepped QueuePair
  unfolding assert_init modify_qp
  activate q =
      if is_rc q.type
      then assert_failed
      else next_step (assert_init q)
          (λ q₁. next_step (modify_qp activate_rtr q₁) (λ q₂. modify_qp (activate_rts q.psn) q₂))

  unfoldable pub set_state_rtr : QueuePairInfo → QueuePair → Stepped QueuePair
  unfolding assert_init modify_qp
  set_state_rtr peer q =
      if is_rc q.type
      then next_step (assert_init q) (modify_qp (connect_rtr peer.qpn peer.psn peer.lid))
      else assert_failed

  unfoldable pub set_state_rts : QueuePairInfo → QueuePair → Stepped QueuePair
  unfolding set_state_rtr modify_qp
  set_state_rts peer q = next_step (set_state_rtr peer q) (modify_qp (connect_rts q.psn))
