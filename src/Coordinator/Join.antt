-- ===== src/Coordinator/Join.antt =====
-- The join protocol: what the coordinator keeps true, when it fails an assertion, and how a cluster
-- comes together.
use nvds.Base.{
  ℕ, ◌+◌, ◌%◌, ◌^◌, ◌<◌, ◌≤◌, ◌≡◌, refl, sym, ap, ◌∙◌, arith, Bool, true, false, not, Option, none,
  some, List, [], ◌∷◌, length, length-append, leb, ◌==◌, if◌then◌else◌, get_or, Bool-cases, inl,
  inr,
}
use nvds.Index.{
  QueuePairInfo, Address, IndexManager, num_servers, add_server, add_tablet, for_below,
}
use nvds.Message.{SenderType, MessageType, Message}
use nvds.Message.Json.{Json, to_uint}
use nvds.Coordinator.{
  Coordinator, Handled, done, assert_failed, exception, Sends, response_all_joins, join_body,
  joined, admit, join_sized, join_parsed, handle_server_request_join, handle_message_from_server,
  handle_client_request_join, handle_message_from_client, handle_recv_message, handle_from,
}

-- As many servers as have a number, and a session of each that waits for its answer, until the
-- cluster is full; then none waits.
pub record IsCoordinator (c : Coordinator) : Type 0 where
  pub limit : c.num_servers ≤ num_servers
  pub numbered : c.index_manager.next_id ≡ c.num_servers
  pub waiting : length c.sessions ≡ (if c.num_servers == num_servers then 0 else c.num_servers)

abbrev known : MessageType → Bool
known MessageType.req_join = true
known MessageType.req_leave = true
known MessageType.ack_reject = true
known MessageType.ack_error = true
known MessageType.ack_ok = true
known _ = false

abbrev is_join : MessageType → Bool
is_join MessageType.req_join = true
is_join _ = false

-- The messages that no coordinator should be sent: from a coordinator, of a type that is not one of
-- the five, or a client's request to join before the cluster is full
abbrev pub refused : Coordinator → SenderType → MessageType → Bool
refused c SenderType.coordinator t = true
refused c SenderType.server t = not (known t)
refused c SenderType.client t =
    if is_join t then not (c.num_servers == num_servers) else not (known t)
refused c (SenderType.other n) t = false

-- What a handler may leave
pub data Keeps : Handled → Type 0 where
  kept : {c : Coordinator} {out : Sends} → IsCoordinator c → Keeps (done c out)
  thrown : Keeps exception

-- The handler fails an assertion exactly when it should, and keeps what it must otherwise.
pub record Sound (is_refused : Bool) (h : Handled) : Type 0 where
  pub fails : is_refused ≡ true → h ≡ assert_failed
  pub keeps : is_refused ≡ false → Keeps h

module _ (l : Json) (past_end : ℕ → QueuePairInfo) where
  next_id-add_server :
      (peer : List ℕ) (a : Address) (qpis : ℕ → QueuePairInfo) (im : IndexManager)
      → (add_server peer a qpis im).next_id ≡ im.next_id + 1
  unfolding add_server add_tablet for_below
  next_id-add_server peer a qpis im = refl

  joined-Keeps :
      (c : Coordinator)
      → c.num_servers ≤ num_servers
      → c.index_manager.next_id ≡ c.num_servers
      → length c.sessions ≡ c.num_servers
      → Keeps (joined l past_end c)
  unfolding joined response_all_joins
  joined-Keeps c h n w =
      let fits : leb c.num_servers num_servers ≡ true = ground arith in
      elim (Bool-cases (c.num_servers == num_servers)) [
        | inl e ↦
            let all : (length c.sessions == num_servers) ≡ true = ground arith in
            rw (fits, e, all) (kept (record { limit = h; numbered = n; waiting = rw e refl }))
        | inr e ↦ rw (fits, e) (kept (record { limit = h; numbered = n; waiting = rw e w }))
      ]

  admit-Keeps :
      (peer : List ℕ) (s nvm_size : ℕ) (c : Coordinator) (r : Option (Address × List QueuePairInfo))
      → IsCoordinator c
      → c.num_servers < num_servers
      → Keeps (admit l past_end peer s nvm_size c r)
  unfolding admit
  admit-Keeps peer s nvm_size c none k h = thrown
  admit-Keeps peer s nvm_size c (some (a, qpis)) k h =
      let open_ : (c.num_servers == num_servers) ≡ false = ground arith in
      let waiting : length c.sessions ≡ c.num_servers = rw open_ at k.waiting in
      let one_more : (c.num_servers + 1) % 2 ^ 32 ≡ c.num_servers + 1 = omega arith in
      joined-Keeps _ (omega arith)
        (next_id-add_server peer a (λ n. get_or qpis n (past_end n)) c.index_manager
          ∙ ap (λ n. n + 1) k.numbered
          ∙ sym one_more)
        (length-append c.sessions (s ∷ []) ∙ omega arith)

  sized-Keeps :
      (peer : List ℕ) (s : ℕ) (body : l.Value) (c : Coordinator) (n : Option ℕ)
      → IsCoordinator c
      → Keeps (join_sized l past_end peer s body c n)
  unfolding join_sized
  sized-Keeps peer s body c none k = thrown
  sized-Keeps peer s body c (some n) k = elim (Bool-cases (leb num_servers c.num_servers)) [
    | inl full ↦ rw full (kept k)
    | inr free ↦ rw free (admit-Keeps peer s n c (join_body l past_end body) k (ground arith))
  ]

  parsed-Keeps :
      (peer : List ℕ) (s : ℕ) (c : Coordinator) (body : Option l.Value)
      → IsCoordinator c
      → Keeps (join_parsed l past_end peer s c body)
  unfolding join_parsed
  parsed-Keeps peer s c none k = thrown
  parsed-Keeps peer s c (some body) k =
      sized-Keeps peer s body c (to_uint l 64 (l.at body "size")) k

  server_join-Keeps :
      (peer : List ℕ) (s : ℕ) (m : Message) (c : Coordinator)
      → IsCoordinator c
      → Keeps (handle_server_request_join l past_end peer s m c)
  unfolding handle_server_request_join
  server_join-Keeps peer s m c k = parsed-Keeps peer s c (l.parse m.body) k

  client_join-Sound :
      (s : ℕ) (c : Coordinator)
      → IsCoordinator c
      → Sound (not (c.num_servers == num_servers)) (handle_client_request_join l past_end s c)
  unfolding handle_client_request_join
  client_join-Sound s c k = elim (Bool-cases (c.num_servers == num_servers)) [
    | inl e ↦ rw e (record { fails = λ h. cc; keeps = λ h. kept k })
    | inr e ↦ rw e (record { fails = λ h. refl; keeps = λ h. cc })
  ]

  from_server-Sound :
      (t : MessageType) (peer : List ℕ) (s : ℕ) (m : Message) (c : Coordinator)
      → IsCoordinator c
      → Sound (refused c SenderType.server t) (handle_message_from_server l past_end t peer s m c)
  unfolding handle_message_from_server
  from_server-Sound MessageType.req_join peer s m c k = record {
    fails = λ h. cc;
    keeps = λ h. server_join-Keeps peer s m c k;
  }
  from_server-Sound MessageType.req_leave peer s m c k = record {
    fails = λ h. cc;
    keeps = λ h. kept k;
  }
  from_server-Sound MessageType.ack_reject peer s m c k = record {
    fails = λ h. cc;
    keeps = λ h. kept k;
  }
  from_server-Sound MessageType.ack_error peer s m c k = record {
    fails = λ h. cc;
    keeps = λ h. kept k;
  }
  from_server-Sound MessageType.ack_ok peer s m c k = record {
    fails = λ h. cc;
    keeps = λ h. kept k;
  }
  from_server-Sound MessageType.res_join peer s m c k = record {
    fails = λ h. refl;
    keeps = λ h. cc;
  }
  from_server-Sound MessageType.res_cluster_info peer s m c k = record {
    fails = λ h. refl;
    keeps = λ h. cc;
  }
  from_server-Sound MessageType.qp_info_exch peer s m c k = record {
    fails = λ h. refl;
    keeps = λ h. cc;
  }
  from_server-Sound (MessageType.other n) peer s m c k = record {
    fails = λ h. refl;
    keeps = λ h. cc;
  }

  from_client-Sound :
      (t : MessageType) (s : ℕ) (c : Coordinator)
      → IsCoordinator c
      → Sound (refused c SenderType.client t) (handle_message_from_client l past_end t s c)
  unfolding handle_message_from_client
  from_client-Sound MessageType.req_join s c k = client_join-Sound s c k
  from_client-Sound MessageType.req_leave s c k = record { fails = λ h. cc; keeps = λ h. kept k }
  from_client-Sound MessageType.ack_reject s c k = record { fails = λ h. cc; keeps = λ h. kept k }
  from_client-Sound MessageType.ack_error s c k = record { fails = λ h. cc; keeps = λ h. kept k }
  from_client-Sound MessageType.ack_ok s c k = record { fails = λ h. cc; keeps = λ h. kept k }
  from_client-Sound MessageType.res_join s c k = record { fails = λ h. refl; keeps = λ h. cc }
  from_client-Sound MessageType.res_cluster_info s c k = record {
    fails = λ h. refl;
    keeps = λ h. cc;
  }
  from_client-Sound MessageType.qp_info_exch s c k = record { fails = λ h. refl; keeps = λ h. cc }
  from_client-Sound (MessageType.other n) s c k = record { fails = λ h. refl; keeps = λ h. cc }

  from-Sound :
      (f : SenderType) (peer : List ℕ) (s : ℕ) (m : Message) (c : Coordinator)
      → IsCoordinator c
      → Sound (refused c f m.header.type) (handle_from l past_end f peer s m c)
  unfolding handle_from
  from-Sound SenderType.server peer s m c k = from_server-Sound m.header.type peer s m c k
  from-Sound SenderType.client peer s m c k = from_client-Sound m.header.type s c k
  from-Sound SenderType.coordinator peer s m c k = record { fails = λ h. refl; keeps = λ h. cc }
  from-Sound (SenderType.other n) peer s m c k = record { fails = λ h. cc; keeps = λ h. kept k }

  -- Whatever message comes while the coordinator is well formed (at most two servers, each numbered
  -- and with its session waiting until all are there): the handler fails an assertion if the message
  -- is refused (it names a coordinator as its sender, its type is not one of the five, or a client
  -- asks to join before the cluster is full), and otherwise leaves a well-formed coordinator or an
  -- exception of the JSON library. In particular the assertions on the number of servers and of
  -- sessions never fail.
  pub handle_recv_message-Sound :
      (peer : List ℕ) (s : ℕ) (m : Message) (c : Coordinator)
      → IsCoordinator c
      → Sound
          (refused c m.header.sender_type m.header.type)
          (handle_recv_message l past_end peer s m c)
  unfolding handle_recv_message
  handle_recv_message-Sound peer s m c k = from-Sound m.header.sender_type peer s m c k
