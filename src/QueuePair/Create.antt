-- ===== src/QueuePair/Create.antt =====
-- The constructor of `Infiniband::QueuePair`, and `GetLid`, of src/infiniband.cc.
use nvds.Base.{ℕ, ◌⊎◌, inl, inr, Bool, true, false, ◌&&◌, not, ◌==◌, if◌then◌else◌}
use nvds.Infiniband.{max_inline_data}
use nvds.QueuePair.{
  QpVerbs, QueuePair, QpType, Stepped, done, assert_failed, transport_exception, to_init,
}

abbrev pub default_psn : ℕ
default_psn = 33

-- `kMaxSendSge` and `kMaxRecvSge`
abbrev pub max_sge : ℕ
max_sge = 12

-- `ibv_qp_init_attr`, as the constructor fills it
pub record InitAttr : Type 0 where
  pub send_cq : ℕ
  pub recv_cq : ℕ
  pub qp_type : QpType
  pub max_send_wr : ℕ
  pub max_recv_wr : ℕ
  pub max_send_sge : ℕ
  pub max_recv_sge : ℕ
  pub max_inline : ℕ
  pub sq_sig_all : Bool

abbrev pub init_attr : QpType → (scq rcq max_send max_recv : ℕ) → InitAttr
init_attr type scq rcq max_send max_recv = record {
  send_cq = scq;
  recv_cq = rcq;
  qp_type = type;
  max_send_wr = max_send;
  max_recv_wr = max_recv;
  max_send_sge = max_sge;
  max_recv_sge = max_sge;
  max_inline = max_inline_data;
  sq_sig_all = false;
}

-- Calls of libibverbs that make a queue pair: `ibv_create_cq`, whose result is null (0) where it fails, and
-- `ibv_create_qp`, which gives a queue pair or the error in `errno`. Since each call makes another
-- object, they take the number of the queue pair, and the first also whether it is for receiving.
-- `qp_num` is the field of an `ibv_qp`, and `query_port` gives an error, 0 on success, and a local id.
pub record CreateVerbs (v : QpVerbs) : Type 0 where
  pub create_cq : (n : ℕ) → (is_recv : Bool) → (cqe : ℕ) → ℕ
  pub create_qp : (n : ℕ) → InitAttr → v.Qp ⊎ ℕ
  pub qp_num : v.Qp → ℕ
  pub query_port : ℕ → ℕ × ℕ

module _ (v : QpVerbs) (c : CreateVerbs v) where
  -- What follows `ibv_create_qp`
  unfoldable pub to_ready : QpType → (scq rcq : ℕ) → v.Qp ⊎ ℕ → Stepped (QueuePair v)
  to_ready type scq rcq (inr errno) = transport_exception errno
  to_ready type scq rcq (inl qp) =
      if (v.modify (to_init type) qp).0 == 0
      then done (record {
        type = type;
        qp = (v.modify (to_init type) qp).1;
        scq = scq;
        rcq = rcq;
        psn = default_psn;
      })
      else transport_exception (v.modify (to_init type) qp).0

  -- The queue pair of number `n`. `QpType` has only the two types that the first assertion allows.
  unfoldable pub new_queue_pair : (n : ℕ) → QpType → (max_send max_recv : ℕ) → Stepped (QueuePair v)
  unfolding to_ready
  new_queue_pair n type max_send max_recv =
      let scq = c.create_cq n false max_send in
      let rcq = c.create_cq n true max_recv in
      if not (scq == 0) && not (rcq == 0)
      then to_ready type scq rcq (c.create_qp n (init_attr type scq rcq max_send max_recv))
      else assert_failed

  -- `GetLocalQPNum`
  abbrev pub local_qp_num : QueuePair v → ℕ
  local_qp_num q = c.qp_num q.qp

  unfoldable pub get_lid : ℕ → Stepped ℕ
  get_lid port =
      if (c.query_port port).0 == 0
      then done (c.query_port port).1
      else transport_exception (c.query_port port).0
