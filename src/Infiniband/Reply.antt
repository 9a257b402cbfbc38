-- ===== src/Infiniband/Reply.antt =====
-- A response goes back to where its request came from.
use nvds.Base.{
  ℕ, ◌≤◌, ◌≡◌, ◌≢◌, refl, sym, ap, arith, true, false, leb, ◌==◌, Bool-cases, inl, inr, ==_iff,
  leb→le,
}
use nvds.Index.{Address, update}
use nvds.QueuePair.{QpType, done}
use nvds.Infiniband.{
  AhVerbs, SendRequest, Handlers, get_addr_handler, post_send, Completion, completed, Received,
  poll_cq, max_inline_data, port,
}

-- A handle that is kept was made for its local id.
pub record IsHandlers (v : AhVerbs) (hs : Handlers) : Type 0 where
  pub made : (lid : ℕ) → hs lid ≢ 0 → hs lid ≡ v.create_ah lid port

module _ (v : AhVerbs) (made : (lid : ℕ) → v.create_ah lid port ≢ 0) where
  IsHandlers-update :
      (hs : Handlers) (lid : ℕ)
      → IsHandlers v hs
      → IsHandlers v (update hs lid (v.create_ah lid port))
  IsHandlers-update hs lid w = record {
    made = λ i h. elim (Bool-cases (i == lid)) [
      | inl e ↦
          let same : i ≡ lid = (==_iff i lid).0 e in rw e (ap (λ n. v.create_ah n port) (sym same))
      | inr e ↦ let kept : hs i ≢ 0 = rw e at h in rw e (w.made i kept)
    ];
  }

  -- The handle for a local id, from the table or new, and the table after
  handler-found :
      (addr : Address) (hs : Handlers)
      → IsHandlers v hs
      → (hs' : Handlers) × (get_addr_handler v addr hs ≡ done (v.create_ah addr.lid port, hs'))
        × IsHandlers v hs'
  unfolding get_addr_handler
  handler-found addr hs w = elim (Bool-cases (hs addr.lid == 0)) [
    | inl e ↦
        let some_handle : (v.create_ah addr.lid port == 0) ≡ false =
          ground (arith, made addr.lid) in
        (
          update hs addr.lid (v.create_ah addr.lid port),
          rw (e, some_handle) refl,
          IsHandlers-update hs addr.lid w,
        )
    | inr e ↦
        let there : hs addr.lid ≢ 0 = λ z. ground (arith, z) in
        (hs, rw (e, w.made addr.lid there) refl, w)
  ]

  -- A completed receive is polled, and a response is posted to the address that it left in its
  -- buffer, by a queue pair for datagrams, when address handles can be made and the post succeeds:
  -- the response goes to the queue pair that the request came from, by a handle for the local id
  -- that it came from, whether the handle is new or was kept; it is sent inline only if it has at
  -- most 128 bytes; and the handles that are kept stay those of their local ids.
  pub post_send-poll_cq :
      (old : Received) (wc : Completion) (b buf len : ℕ) (hs : Handlers)
      → IsHandlers v hs
      → wc.status ≡ 0
      → ((swr : SendRequest) → v.post_send swr ≡ 0)
      → (r : Received) × (swr : SendRequest) × (hs' : Handlers) × (poll_cq old (completed wc)
          ≡ done r)
        × (post_send v QpType.ud b buf len r.peer_addr hs ≡ done (swr, hs'))
        × (r.buffer ≡ wc.wr_id)
        × (swr.remote_qpn ≡ wc.src_qp)
        × (swr.ah ≡ v.create_ah wc.slid port)
        × (swr.wr_id ≡ b)
        × (swr.inline ≡ true → len ≤ max_inline_data)
        × IsHandlers v hs'
  unfolding post_send poll_cq
  post_send-poll_cq old wc b buf len hs w ok posts =
      let from : Address = record { ib_port = port; lid = wc.slid; qpn = wc.src_qp } in
      let swr : SendRequest = record {
        wr_id = b;
        addr = buf;
        len = len;
        ah = v.create_ah wc.slid port;
        remote_qpn = wc.src_qp;
        signaled = true;
        inline = leb len max_inline_data;
      } in
      let found = handler-found from hs w in
      let some_handle : (v.create_ah wc.slid port == 0) ≡ false = ground (arith, made wc.slid) in
      let success : (wc.status == 0) ≡ true = ground arith in
      (
        record { buffer = wc.wr_id; msg_len = wc.byte_len; peer_addr = from },
        swr,
        found.0,
        rw success refl,
        rw (found.1, some_handle, posts swr) refl,
        refl,
        refl,
        refl,
        refl,
        λ h. leb→le len max_inline_data h,
        found.2,
      )
