-- ===== src/Server/Join/Requested.antt =====
-- The coordinator reads a server's request to join as the server wrote it.
use nvds.Base.{
  ℕ, zero, suc, ◌+◌, ◌^◌, ◌<◌, ◌≤◌, ◌≡◌, refl, arith, some, List, [], ◌∷◌, map, All, All-append,
}
use nvds.Index.{QueuePairInfo, num_replicas, num_tablet_and_backups_per_server}
use nvds.Message.Json.{
  Json, IsJson, elements, map_option, qpi_to_json, qpi_from_json, address_to_json,
}
use nvds.Message.Json.Ranges.{FitsQpi}
use nvds.Message.Json.RoundTrip.{to_uint-number, address-round_trip, qpi-round_trip}
use nvds.Coordinator.{join_body}
use nvds.Coordinator.Cluster.{IsJoin}
use nvds.QueuePair.{QpVerbs}
use nvds.Session.{Pipe}
use nvds.Server.Join.{Server, tablet_qpis, join_request}

module _ (p : Pipe) (l : Json) (wl : IsJson l) (v : QpVerbs) where
  qpis-round_trip :
      (qs : List QueuePairInfo)
      → All FitsQpi qs
      → map_option (qpi_from_json l) (map (qpi_to_json l) qs) ≡ some qs
  qpis-round_trip [] f = refl
  qpis-round_trip (q ∷ qs) f = rw (qpi-round_trip l wl q f.0, qpis-round_trip qs f.1) refl

  All-elements :
      (n : ℕ) (f : ℕ → QueuePairInfo)
      → ((i : ℕ) → i < n → FitsQpi (f i))
      → All FitsQpi (elements n f)
  All-elements zero f h = tt
  All-elements (suc n) f h =
      (h 0 (omega arith), All-elements n (λ i. f (suc i)) (λ i k. h (suc i) (omega arith)))

  -- The queue pairs of the server's tablets are in the ranges of their types.
  abbrev pub TabletsFit : Server p l v → Type 0
  TabletsFit s =
      (t i : ℕ)
      → t < num_tablet_and_backups_per_server
      → i < num_replicas
      → FitsQpi ((s.tablets t).info.qpis i)

  tablet_qpis-Fits :
      (s : Server p l v) (n i : ℕ)
      → i + n ≤ num_tablet_and_backups_per_server
      → TabletsFit s
      → All FitsQpi (tablet_qpis p l v s n i)
  tablet_qpis-Fits s zero i h f = tt
  tablet_qpis-Fits s (suc n) i h f =
      All-append FitsQpi (elements num_replicas (s.tablets i).info.qpis)
        (tablet_qpis p l v s n (i + 1))
        (All-elements num_replicas (s.tablets i).info.qpis (λ j k. f i j (omega arith) k))
        (tablet_qpis-Fits s n (i + 1) (omega arith) f)

  abbrev pub request_value : Server p l v → l.Value
  request_value s = l.object (
      ("size", l.number s.nvm_size)
      ∷ ("ib_addr", address_to_json l s.ib_addr)
      ∷ (
        "tablet_qpis",
        l.array (map (qpi_to_json l) (tablet_qpis p l v s num_tablet_and_backups_per_server 0)),
      )
      ∷ [])

  -- The fields of the server's own record, in the ranges of their types
  pub record FitsServerState (s : Server p l v) : Type 0 where
    pub size : s.nvm_size < 2 ^ 64
    pub ib_port : s.ib_addr.ib_port < 2 ^ 32
    pub lid : s.ib_addr.lid < 2 ^ 16
    pub qpn : s.ib_addr.qpn < 2 ^ 32
    pub tablets : TabletsFit s

  -- Let the fields of the server be in the ranges of their types, and let the JSON library parse the
  -- request's body as what it printed. Then the message that `Server::Join` sends is a request to
  -- join as the coordinator reads it, with the server's storage, its address, and the queue pairs
  -- of its tablets in order.
  pub join_request-IsJoin :
      (past_end : ℕ → QueuePairInfo) (s : Server p l v)
      → FitsServerState s
      → l.parse (join_request p l v s).body ≡ some (request_value s)
      → IsJoin l past_end
          (join_request p l v s)
          s.nvm_size
          s.ib_addr
          (tablet_qpis p l v s num_tablet_and_backups_per_server 0)
  unfolding join_request join_body
  join_request-IsJoin past_end s f parsed =
      let qs = tablet_qpis p l v s num_tablet_and_backups_per_server 0 in
      let fits = tablet_qpis-Fits s num_tablet_and_backups_per_server 0 (omega arith) f.tablets in
      record {
        sender = refl;
        type = refl;
        body = request_value s;
        parsed = parsed;
        sized =
            rw
              (
                wl.at-object _ "size" (l.number s.nvm_size) refl,
                to_uint-number l wl 64 s.nvm_size (omega arith) f.size f.size,
              )
              refl;
        read =
            rw
              (
                wl.at-object _ "ib_addr" (address_to_json l s.ib_addr) refl,
                address-round_trip l wl s.ib_addr f.ib_port f.lid f.qpn,
                wl.at-object _ "tablet_qpis" (l.array (map (qpi_to_json l) qs)) refl,
                wl.to_array-array (map (qpi_to_json l) qs),
                qpis-round_trip qs fits,
              )
              refl;
      }
