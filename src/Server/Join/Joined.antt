-- ===== src/Server/Join/Joined.antt =====
-- A server that the coordinator answers has joined: it has its number and the index, and its tablets
-- are connected with those of the other server.
use nvds.Base.{
  ℕ, zero, suc, ◌^◌, ◌<◌, ◌≡◌, refl, sym, ◌∙◌, subst, arith, true, false, Option, some, List, [],
  ◌∷◌, ◌++◌, append-nil, length,
}
use nvds.Index.{
  QueuePairInfo, Address, TabletInfo, ServerInfo, IndexManager, num_servers, master, update,
  add_server, add_tablet, for_below, calc_tablet_id,
}
use nvds.Index.Topology.{cluster}
use native.Mathlib.Nat.{mod-eq_of_lt}
use nvds.Message.{IsMessage, header_bytes}
use nvds.Message.Json.{Json, IsJson, index_to_json}
use nvds.Message.Json.Ranges.{FitsIndex, SameIndex}
use nvds.Message.Json.RoundTrip.{to_uint-number, index-round_trip}
use nvds.Coordinator.{join_response}
use nvds.QueuePair.{QpVerbs, IsQpVerbs, Works, QpState, done}
use nvds.Session.{Pipe, IsPipe, send_message, recv_message}
use nvds.Session.Framing.{send_message-Pending, recv_message-Pending}
use nvds.Tablet.Connect.{Linked}
use nvds.Tablet.Connect.Paired.{
  IsFresh, IsConnected, at_rtr, at_rts, at_rtr-IsConnected, at_rts-IsConnected, settingup-backup,
  settingup-master,
}
use nvds.Server.Join.{
  Server, returned, join, join_request, handle_response, set_up, read_response, connect_tablets,
}

-- What the connection of a server's tablets needs of an index: its first tablet `m` is a master with
-- the backup `b`, and its second a backup `c` with the master `n`, which leads back to it.
record IsWired (im : IndexManager) (i m b c n : ℕ) : Type 0 where
  small : (m < 4) × (b < 4) × (c < 4) × (n < 4)
  first : (im.servers i).tablets 0 ≡ m
  second : (im.servers i).tablets 1 ≡ c
  m_master : (im.tablets m).is_backup ≡ false
  m_link : (im.tablets m).links 0 ≡ b
  b_backup : (im.tablets b).is_backup ≡ true
  c_backup : (im.tablets c).is_backup ≡ true
  c_link : (im.tablets c).links 0 ≡ n
  n_master : (im.tablets n).is_backup ≡ false
  n_link : (im.tablets n).links 0 ≡ c

IsWired-Same :
    (im jm : IndexManager) (i m b c n : ℕ)
    → i < num_servers
    → SameIndex im jm
    → IsWired im i m b c n
    → IsWired jm i m b c n
IsWired-Same im jm i m b c n h s w =
    let server = s.servers i h in
    let at_m = s.tablets m w.small.0 in
    let at_b = s.tablets b w.small.1 in
    let at_c = s.tablets c w.small.2 in
    let at_n = s.tablets n w.small.3 in
    record {
      small = w.small;
      first = server.tablets 0 (omega arith) ∙ w.first;
      second = server.tablets 1 (omega arith) ∙ w.second;
      m_master = at_m.is_backup ∙ w.m_master;
      m_link = at_m.links 0 (omega arith) (λ _. refl) ∙ w.m_link;
      b_backup = at_b.is_backup ∙ w.b_backup;
      c_backup = at_c.is_backup ∙ w.c_backup;
      c_link = at_c.links 0 (omega arith) (λ _. refl) ∙ w.c_link;
      n_master = at_n.is_backup ∙ w.n_master;
      n_link = at_n.links 0 (omega arith) (λ _. refl) ∙ w.n_link;
    }

module _ (keys : ℕ → ℕ) (tablets : ℕ → TabletInfo) (servers : ℕ → ServerInfo) (addr₀ addr₁ : List ℕ)
    (ib₀ ib₁ : Address) (qpis₀ qpis₁ : ℕ → QueuePairInfo) where
  cluster-IsWired :
      (i : ℕ)
      → i < num_servers
      → (m : ℕ) × (b : ℕ) × (c : ℕ) × (n : ℕ) × IsWired
          (cluster keys tablets servers addr₀ addr₁ ib₀ ib₁ qpis₀ qpis₁)
          i
          m
          b
          c
          n
  unfolding add_server add_tablet for_below calc_tablet_id
  cluster-IsWired zero h = (
    0,
    3,
    1,
    2,
    record {
      small = (omega arith, omega arith, omega arith, omega arith);
      first = refl;
      second = refl;
      m_master = refl;
      m_link = refl;
      b_backup = refl;
      c_backup = refl;
      c_link = refl;
      n_master = refl;
      n_link = refl;
    },
  )
  cluster-IsWired (suc zero) h = (
    2,
    1,
    3,
    0,
    record {
      small = (omega arith, omega arith, omega arith, omega arith);
      first = refl;
      second = refl;
      m_master = refl;
      m_link = refl;
      b_backup = refl;
      c_backup = refl;
      c_link = refl;
      n_master = refl;
      n_link = refl;
    },
  )
  cluster-IsWired (suc (suc i)) h = absurd (omega arith)

module _ (p : Pipe) (wp : IsPipe p) (l : Json) (wl : IsJson l) (v : QpVerbs) (wv : IsQpVerbs v)
    (works : Works v) where
  connect_tablets-done :
      (i m b c n : ℕ) (s : Server p l v)
      → IsWired s.index_manager i m b c n
      → IsFresh v wv works ((s.tablets 0).qps 0)
      → IsFresh v wv works ((s.tablets 1).qps 0)
      → (ts : ℕ → Linked v) × (connect_tablets p l v 2 0 (s.index_manager.servers i) s
          ≡ done (record s { tablets = ts }))
        × IsConnected v wv works QpState.rts ((s.index_manager.tablets b).qpis 0).qpn ((ts 0).qps 0)
        × IsConnected v wv works QpState.rtr ((s.index_manager.tablets n).qpis 0).qpn ((ts 1).qps 0)
  unfolding connect_tablets
  connect_tablets-done i m b c n s w f₀ f₁ =
      let im = s.index_manager in
      let t = s.tablets 0 in
      let u = s.tablets 1 in
      let q₀ = at_rts v wv works ((im.tablets b).qpis 0) (t.qps 0) in
      let q₁ = at_rtr v wv works ((im.tablets n).qpis 0) (u.qps 0) in
      let t' : Linked v = record t { info = im.tablets m; qps = update t.qps 0 q₀ } in
      let u' : Linked v = record u { info = im.tablets c; qps = update u.qps 0 q₁ } in
      let is_master : (im.tablets ((im.tablets c).links 0)).is_backup ≡ false =
        rw w.c_link w.n_master in
      let back : (im.tablets ((im.tablets c).links 0)).links 0 ≡ c = rw w.c_link w.n_link in
      (
        update (update s.tablets 0 t') 1 u',
        rw
            (
              w.first,
              settingup-master v wv works im m b t w.m_master w.m_link w.b_backup f₀,
              w.second,
              settingup-backup v wv works im c u w.c_backup is_master back f₁,
              w.c_link,
            )
            refl,
        at_rts-IsConnected v wv works ((im.tablets b).qpis 0) (t.qps 0) f₀,
        at_rtr-IsConnected v wv works ((im.tablets n).qpis 0) (u.qps 0) f₁,
      )

  -- The server `i` of the index `im` after it has joined
  pub record HasJoined (im : IndexManager) (i : ℕ) (s : Server p l v) : Type 0 where
    pub numbered : s.id ≡ i
    pub active : s.active ≡ true
    pub index : SameIndex im s.index_manager
    pub master_linked :
        IsConnected v wv works QpState.rts
          ((s.index_manager.tablets ((im.tablets ((im.servers i).tablets 0)).links 0)).qpis 0).qpn
          ((s.tablets 0).qps 0)
    pub backup_linked :
        IsConnected v wv works QpState.rtr
          ((s.index_manager.tablets (master (im.tablets ((im.servers i).tablets 1)))).qpis 0).qpn
          ((s.tablets 1).qps 0)

  abbrev pub response_value : ℕ → IndexManager → l.Value
  response_value i im = l.object (("id", l.number i) ∷ ("index_manager", index_to_json l im) ∷ [])

  set_up-HasJoined :
      (im : IndexManager) (m b c n : ℕ) (s : Server p l v)
      → IsWired im s.id m b c n
      → s.active ≡ true
      → SameIndex im s.index_manager
      → s.id < num_servers
      → IsFresh v wv works ((s.tablets 0).qps 0)
      → IsFresh v wv works ((s.tablets 1).qps 0)
      → (s' : Server p l v) × (set_up p l v (some s) ≡ returned true s') × HasJoined im s.id s'
  set_up-HasJoined im m b c n s w act same h f₀ f₁ =
      let w' = IsWired-Same im s.index_manager s.id m b c n h same w in
      let (ts, run, c₀, c₁) = connect_tablets-done s.id m b c n s w' f₀ f₁ in
      (
        record s { tablets = ts },
        rw run refl,
        record {
          numbered = refl;
          active = act;
          index = same;
          master_linked = rw (w.first, w.m_link) c₀;
          backup_linked = rw (w.second, w.c_link) c₁;
        },
      )

  read_response-done :
      (bt : TabletInfo) (bs : ServerInfo) (im : IndexManager) (i : ℕ) (s : Server p l v)
      → i < num_servers
      → FitsIndex im
      → l.parse (l.dump (response_value i im)) ≡ some (response_value i im)
      → (jm : IndexManager) × (read_response p l v bt bs s (l.dump (response_value i im))
          ≡ some (record s { id = i; index_manager = jm; active = true }))
        × SameIndex im jm
  unfolding read_response
  read_response-done bt bs im i s h fits parsed =
      let (jm, read, same) = index-round_trip l wl bt bs s.index_manager im fits in
      (
        jm,
        rw
            (
              parsed,
              wl.at-object _ "id" (l.number i) refl,
              wl.at-object _ "index_manager" (index_to_json l im) refl,
              to_uint-number l wl 32 i (omega arith) (omega arith) (omega arith),
              read,
            )
            refl,
        same,
      )

  module _ (past_end : ℕ → QueuePairInfo) (bt : TabletInfo) (bs : ServerInfo) (keys : ℕ → ℕ)
      (tablets : ℕ → TabletInfo) (servers : ℕ → ServerInfo) (addr₀ addr₁ : List ℕ)
      (ib₀ ib₁ : Address) (qpis₀ qpis₁ : ℕ → QueuePairInfo) where
    join-set_up :
        (out out' inc inc' : p.Conn) (s : Server p l v) (i : ℕ) (im : IndexManager)
        (r : Option (Server p l v))
        → send_message p (join_request p l v s) out ≡ some out'
        → recv_message p inc ≡ some (join_response l past_end i im, inc')
        → read_response p l v bt bs s (join_response l past_end i im).body ≡ r
        → join p l v bt bs (some (out, inc)) s ≡ set_up p l v r
    unfolding join handle_response join_response
    join-set_up out out' inc inc' s i im r sent got read = rw (join, sent, got, read) refl

    -- A server sends its request to join over a connection that takes all bytes, and on the other
    -- direction of it the coordinator's response is pending: the number `i` and the index of the
    -- full cluster, whose fields are in their ranges, whose text is less than 4 GB and which the
    -- JSON library parses as what it printed. The first queue pairs of the server's two tablets
    -- are fresh, and `ibv_modify_qp` succeeds along the states. Then `Join` fails no assertion, throws
    -- nothing and returns true: the server is active, has the number `i` and the coordinator's
    -- index, its master tablet's queue pair is ready to send to the one of its backup, and its
    -- backup tablet's is ready to receive from the one of its master.
    pub join-HasJoined :
        (out inc : p.Conn) (s : Server p l v) (i : ℕ)
        → let im = cluster keys tablets servers addr₀ addr₁ ib₀ ib₁ qpis₀ qpis₁ in
          let m = join_response l past_end i im in
          i < num_servers
          → FitsIndex im
          → l.parse m.body ≡ some (response_value i im)
          → length m.body < 2 ^ 32
          → IsFresh v wv works ((s.tablets 0).qps 0)
          → IsFresh v wv works ((s.tablets 1).qps 0)
          → wp.Pending out []
          → wp.Pending inc (header_bytes m.header ++ m.body)
          → (s' : Server p l v) × (join p l v bt bs (some (out, inc)) s ≡ returned true s')
            × HasJoined im i s'
    unfolding join_response
    join-HasJoined out inc s i h fits parsed size f₀ f₁ empty pending =
        let im = cluster keys tablets servers addr₀ addr₁ ib₀ ib₁ qpis₀ qpis₁ in
        let response = join_response l past_end i im in
        let valid : IsMessage response = record {
          sender = tt;
          type = tt;
          body = mod-eq_of_lt size;
          size = size;
        } in
        let (m, b, c, n, wired) =
          cluster-IsWired keys tablets servers addr₀ addr₁ ib₀ ib₁ qpis₀ qpis₁ i h in
        let (out', sent, _) = send_message-Pending p wp (join_request p l v s) out [] empty in
        let (inc', got, _) =
          recv_message-Pending p wp response inc [] valid
            (subst (wp.Pending inc) (sym (append-nil _)) pending) in
        let (jm, read, same) = read_response-done bt bs im i s h fits parsed in
        let (s', ready, joined) =
          set_up-HasJoined im m b c n (record s { id = i; index_manager = jm; active = true }) wired
            refl same h f₀ f₁ in
        (s', join-set_up out out' inc inc' s i im _ sent got read ∙ ready, joined)
