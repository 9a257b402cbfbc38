-- ===== src/Message/Json/RoundTrip.antt =====
-- What the coordinator writes as JSON a server or client reads back.
use nvds.Base.{
  ℕ, zero, suc, ◌%◌, ◌^◌, ◌<◌, ◌≤◌, ◌≡◌, refl, arith, Bool, true, false, Option, some, List, [],
  ◌∷◌, get_or,
}
use native.Mathlib.Nat.{mod-eq_of_lt}
use nvds.Index.{
  QueuePairInfo, Address, TabletInfo, ServerInfo, IndexManager, num_replicas, num_servers,
  num_tablets, num_tablet_and_backups, num_tablet_and_backups_per_server,
}
use nvds.Message.Json.{
  Json, IsJson, elements, map_option, to_uint, to_function, from_function, address_to_json,
  address_from_json, qpi_to_json, qpi_from_json, links_to_json, tablet_to_json, links_from_json,
  tablet_from_json, server_to_json, server_from_json, index_to_json, index_from_json,
}
use nvds.Message.Json.Ranges.{
  FitsQpi, FitsTablet, FitsServer, FitsIndex, SameTablet, SameServer, SameIndex,
}

map_option-elements :
    {V A B : Type 0} (dec : V → Option B) (enc : A → V) (n : ℕ) (h : ℕ → A) (R : ℕ → B → Type 0)
    → ((i : ℕ) → i < n → (b : B) × (dec (enc (h i)) ≡ some b) × R i b)
    → (bs : List B) × (map_option dec (elements n (λ i. enc (h i))) ≡ some bs)
      × ((old : ℕ → B) → (i : ℕ) → i < n → R i (get_or bs i (old i)))
map_option-elements dec enc zero h R each = ([], refl, λ old i k. absurd (omega arith))
map_option-elements {V} {A} {B} dec enc (suc n) h R each =
    let (b, e, r) = each 0 (omega arith) in
    let (bs, es, rs) =
      map_option-elements dec enc n (λ i. h (suc i)) (λ i. R (suc i))
        (λ i k. each (suc i) (omega arith)) in
    (b ∷ bs, rw (e, es) refl, at_index b bs r (λ old. rs (λ i. old (suc i))))
  where
    at_index :
        (b : B) (bs : List B)
        → R 0 b
        → ((old : ℕ → B) → (i : ℕ) → i < n → R (suc i) (get_or bs i (old (suc i))))
        → (old : ℕ → B) (i : ℕ) → i < suc n
        → R i (get_or (b ∷ bs) i (old i))
    at_index b bs r rs old zero k = r
    at_index b bs r rs old (suc i) k = rs old i (omega arith)

module _ (l : Json) (w : IsJson l) where
  pub to_uint-number :
      (k n : ℕ) → k ≤ 64 → n < 2 ^ k → n < 2 ^ 64 → to_uint l k (l.number n) ≡ some n
  unfolding to_uint
  to_uint-number k n hk h h64 =
      let same : n % 2 ^ k ≡ n = mod-eq_of_lt h in rw (w.to_number-number n h64, same) refl

  to_function-from_function :
      {A B : Type 0} (dec : l.Value → Option B) (enc : A → l.Value) (n : ℕ) (h : ℕ → A)
      (old : ℕ → B) (R : ℕ → B → Type 0)
      → ((i : ℕ) → i < n → (b : B) × (dec (enc (h i)) ≡ some b) × R i b)
      → (g : ℕ → B) × (to_function l dec old (from_function l enc n h) ≡ some g)
        × ((i : ℕ) → i < n → R i (g i))
  unfolding to_function from_function
  to_function-from_function dec enc n h old R each =
      let (bs, e, r) = map_option-elements dec enc n h R each in
      (λ i. get_or bs i (old i), rw (w.to_array-array (elements n (λ i. enc (h i))), e) refl, r old)

  numbers-round_trip :
      (n : ℕ) (h old : ℕ → ℕ)
      → ((i : ℕ) → i < n → h i < 2 ^ 32)
      → (g : ℕ → ℕ) × (to_function l (to_uint l 32) old (from_function l l.number n h) ≡ some g)
        × ((i : ℕ) → i < n → g i ≡ h i)
  numbers-round_trip n h old k =
      to_function-from_function (to_uint l 32) l.number n h old (λ i b. b ≡ h i)
        (λ i ki.
          (h i, to_uint-number 32 (h i) (omega arith) (k i ki) (omega (arith, k i ki)), refl))

  pub address-round_trip :
      (a : Address)
      → a.ib_port < 2 ^ 32
      → a.lid < 2 ^ 16
      → a.qpn < 2 ^ 32
      → address_from_json l (address_to_json l a) ≡ some a
  unfolding address_from_json address_to_json
  address-round_trip a h₁ h₂ h₃ =
      rw
        (
          w.at-object _ "ib_port" (l.number a.ib_port) refl,
          w.at-object _ "lid" (l.number a.lid) refl,
          w.at-object _ "qpn" (l.number a.qpn) refl,
          to_uint-number 32 a.ib_port (omega arith) h₁ (omega arith),
          to_uint-number 16 a.lid (omega arith) h₂ (omega arith),
          to_uint-number 32 a.qpn (omega arith) h₃ (omega arith),
        )
        refl

  pub qpi-round_trip : (q : QueuePairInfo) → FitsQpi q → qpi_from_json l (qpi_to_json l q) ≡ some q
  unfolding qpi_from_json qpi_to_json
  qpi-round_trip q f =
      rw
        (
          w.at-object _ "lid" (l.number q.lid) refl,
          w.at-object _ "qpn" (l.number q.qpn) refl,
          w.at-object _ "psn" (l.number q.psn) refl,
          w.at-object _ "rkey" (l.number q.rkey) refl,
          w.at-object _ "vaddr" (l.number q.vaddr) refl,
          to_uint-number 16 q.lid (omega arith) f.lid (omega (arith, f.lid)),
          to_uint-number 32 q.qpn (omega arith) f.qpn (omega (arith, f.qpn)),
          to_uint-number 32 q.psn (omega arith) f.psn (omega (arith, f.psn)),
          to_uint-number 32 q.rkey (omega arith) f.rkey (omega (arith, f.rkey)),
          to_uint-number 64 q.vaddr (omega arith) f.vaddr f.vaddr,
        )
        refl

  qpis-round_trip :
      (t : TabletInfo) (old : ℕ → QueuePairInfo)
      → FitsTablet t
      → (g : ℕ → QueuePairInfo) × (to_function l
            (qpi_from_json l)
            old
            (from_function l (qpi_to_json l) num_replicas t.qpis)
          ≡ some g)
        × ((i : ℕ) → i < num_replicas → g i ≡ t.qpis i)
  qpis-round_trip t old f =
      to_function-from_function (qpi_from_json l) (qpi_to_json l) num_replicas t.qpis old
        (λ i b. b ≡ t.qpis i) (λ i k. (t.qpis i, qpi-round_trip (t.qpis i) (f.qpis i k), refl))

  -- The member of the union, in any object that has its field
  links-round_trip :
      (is_backup : Bool) (links old : ℕ → ℕ) (j : l.Value)
      → ((i : ℕ) → i < num_replicas → links i < 2 ^ 32)
      → l.at j (links_to_json l is_backup links).0 ≡ (links_to_json l is_backup links).1
      → (g : ℕ → ℕ) × (links_from_json l is_backup old j ≡ some g)
        × ((i : ℕ) → i < num_replicas → (is_backup ≡ true → i ≡ 0) → g i ≡ links i)
  unfolding links_from_json links_to_json
  links-round_trip true links old j f e =
      let number =
        to_uint-number 32 (links 0) (omega arith) (f 0 (omega arith))
          (omega (arith, f 0 (omega arith))) in
      (λ i. get_or (links 0 ∷ []) i (old i), rw (e, number) refl, λ i k z. rw (z refl) refl)
  links-round_trip false links old j f e =
      let (g, eg, r) = numbers-round_trip num_replicas links old f in (g, rw e eg, λ i k _. r i k)

  at-links :
      (is_backup : Bool) (links : ℕ → ℕ) (v₁ v₂ v₃ v₄ : l.Value)
      → l.at
          (l.object (
            ("id", v₁)
            ∷ ("server_id", v₂)
            ∷ ("is_backup", v₃)
            ∷ ("qpis", v₄)
            ∷ links_to_json l is_backup links
            ∷ []))
          (links_to_json l is_backup links).0
        ≡ (links_to_json l is_backup links).1
  unfolding links_to_json
  at-links true links v₁ v₂ v₃ v₄ = w.at-object _ "master" (l.number (links 0)) refl
  at-links false links v₁ v₂ v₃ v₄ =
      w.at-object _ "backups" (from_function l l.number num_replicas links) refl

  tablet-round_trip :
      (blank t : TabletInfo)
      → FitsTablet t
      → (u : TabletInfo) × (tablet_from_json l blank (tablet_to_json l t) ≡ some u) × SameTablet t u
  unfolding tablet_from_json tablet_to_json
  tablet-round_trip blank t f =
      let (qpis, e_qpis, r_qpis) = qpis-round_trip t blank.qpis f in
      let (links, e_links, r_links) =
        links-round_trip t.is_backup t.links blank.links (tablet_to_json l t) f.links (
          at-links t.is_backup t.links (l.number t.id) (l.number t.server_id)
            (l.boolean t.is_backup) (from_function l (qpi_to_json l) num_replicas t.qpis)) in
      (
        record {
          id = t.id;
          server_id = t.server_id;
          is_backup = t.is_backup;
          qpis = qpis;
          links = links;
        },
        rw
            (
              w.at-object _ "id" (l.number t.id) refl,
              w.at-object _ "server_id" (l.number t.server_id) refl,
              w.at-object _ "is_backup" (l.boolean t.is_backup) refl,
              w.at-object _ "qpis" (from_function l (qpi_to_json l) num_replicas t.qpis) refl,
              to_uint-number 32 t.id (omega arith) f.id (omega (arith, f.id)),
              to_uint-number 32 t.server_id (omega arith) f.server_id (omega (arith, f.server_id)),
              w.to_boolean-boolean t.is_backup,
              e_qpis,
              e_links,
            )
            refl,
        record { id = refl; server_id = refl; is_backup = refl; qpis = r_qpis; links = r_links },
      )

  server-round_trip :
      (blank s : ServerInfo)
      → FitsServer s
      → (u : ServerInfo) × (server_from_json l blank (server_to_json l s) ≡ some u) × SameServer s u
  unfolding server_from_json server_to_json
  server-round_trip blank s f =
      let (tablets, e_tablets, r_tablets) =
        numbers-round_trip num_tablet_and_backups_per_server s.tablets blank.tablets f.tablets in
      (
        record s { tablets = tablets },
        rw
            (
              w.at-object _ "id" (l.number s.id) refl,
              w.at-object _ "active" (l.boolean s.active) refl,
              w.at-object _ "addr" (l.text s.addr) refl,
              w.at-object _ "ib_addr" (address_to_json l s.ib_addr) refl,
              w.at-object _ "tablets"
                  (from_function l l.number num_tablet_and_backups_per_server s.tablets) refl,
              to_uint-number 32 s.id (omega arith) f.id (omega (arith, f.id)),
              w.to_boolean-boolean s.active,
              w.to_text-text s.addr,
              address-round_trip s.ib_addr f.ib_port f.lid f.qpn,
              e_tablets,
            )
            refl,
        record { id = refl; active = refl; addr = refl; ib_addr = refl; tablets = r_tablets },
      )

  -- An index manager whose fields are in the ranges of their types, written as JSON and read back
  -- over any other one, is the same in all that the source's arrays hold: the key map, the tablets
  -- (of a backup its master, of a master its backups) and the servers.
  pub index-round_trip :
      (blank_tablet : TabletInfo) (blank_server : ServerInfo) (old im : IndexManager)
      → FitsIndex im
      → (jm : IndexManager) × (index_from_json l blank_tablet blank_server old (index_to_json l im)
          ≡ some jm)
        × SameIndex im jm
  unfolding index_from_json index_to_json
  index-round_trip blank_tablet blank_server old im f =
      let (keys, e_keys, r_keys) =
        numbers-round_trip num_tablets im.key_tablet_map old.key_tablet_map f.keys in
      let (tablets, e_tablets, r_tablets) =
        to_function-from_function (tablet_from_json l blank_tablet) (tablet_to_json l)
          num_tablet_and_backups im.tablets old.tablets (λ i. SameTablet (im.tablets i))
          (λ i k. tablet-round_trip blank_tablet (im.tablets i) (f.tablets i k)) in
      let (servers, e_servers, r_servers) =
        to_function-from_function (server_from_json l blank_server) (server_to_json l) num_servers
          im.servers old.servers (λ i. SameServer (im.servers i))
          (λ i k. server-round_trip blank_server (im.servers i) (f.servers i k)) in
      (
        record old { key_tablet_map = keys; tablets = tablets; servers = servers },
        rw
            (
              w.at-object _ "key_tablet_map"
                  (from_function l l.number num_tablets im.key_tablet_map) refl,
              w.at-object _ "tablets"
                  (from_function l (tablet_to_json l) num_tablet_and_backups im.tablets) refl,
              w.at-object _ "servers" (from_function l (server_to_json l) num_servers im.servers)
                  refl,
              e_keys,
              e_tablets,
              e_servers,
            )
            refl,
        record { keys = r_keys; tablets = r_tablets; servers = r_servers },
      )
