-- ===== src/Message/Json.antt =====
-- The conversions of src/message.cc between the records of the cluster and JSON values. The JSON
-- library is the parameter `Json`. A conversion from JSON takes the value that it overwrites.
pub mod Ranges
pub mod RoundTrip
use nvds.Base.{
  ℕ, zero, suc, ◌+◌, ◌%◌, ◌^◌, ◌<◌, ◌≡◌, Bool, Option, none, some, List, [], ◌∷◌, get_or,
  if◌then◌else◌,
}
use nvds.Index.{
  QueuePairInfo, Address, TabletInfo, ServerInfo, IndexManager, num_replicas, num_servers,
  num_tablets, num_tablet_and_backups, num_tablet_and_backups_per_server,
}
use Prim.Native.String.{String}
use text.Mathlib.Text.{◌==◌ as str_eq}

-- What the source uses of the library: values of each kind, the conversions from a value, which
-- throw if it has another kind, and `operator[]`, which gives a null value for a missing key.
pub record Json : Type 1 where
  pub Value : Type 0
  pub null : Value
  pub number : ℕ → Value
  pub boolean : Bool → Value
  pub text : List ℕ → Value
  pub array : List Value → Value
  pub object : List (String × Value) → Value
  pub to_number : Value → Option ℕ
  pub to_boolean : Value → Option Bool
  pub to_text : Value → Option (List ℕ)
  pub to_array : Value → Option (List Value)
  pub at : Value → String → Value
  pub dump : Value → List ℕ
  pub parse : List ℕ → Option Value

abbrev pub lookup {ℓ} : {A : Type ℓ} → String → List (String × A) → Option A
lookup k [] = none
lookup k ((j, v) ∷ fs) = if str_eq j k then some v else lookup k fs

-- What the library documents: a value is converted back to what it was made of.
pub record IsJson (l : Json) : Type 0 where
  pub to_number-number : (n : ℕ) → n < 2 ^ 64 → l.to_number (l.number n) ≡ some n
  pub to_boolean-boolean : (b : Bool) → l.to_boolean (l.boolean b) ≡ some b
  pub to_text-text : (bs : List ℕ) → l.to_text (l.text bs) ≡ some bs
  pub to_array-array : (vs : List l.Value) → l.to_array (l.array vs) ≡ some vs
  pub at-object :
      (fs : List (String × l.Value)) (k : String) (v : l.Value)
      → lookup k fs ≡ some v
      → l.at (l.object fs) k ≡ v

infixl 5 ◌>>=◌
abbrev pub ◌>>=◌ {ℓ κ} : {A : Type ℓ} {B : Type κ} → Option A → (A → Option B) → Option B
none >>= f = none
(some a) >>= f = f a

-- The elements of an array of `n`, and a conversion of each element of a list
abbrev pub elements {ℓ} : {A : Type ℓ} → ℕ → (ℕ → A) → List A
elements zero f = []
elements (suc n) f = f 0 ∷ elements n (λ i. f (suc i))

abbrev pub map_option {ℓ κ} : {A : Type ℓ} {B : Type κ} → (A → Option B) → List A → Option (List B)
map_option f [] = some []
map_option f (x ∷ xs) = f x >>= (λ y. map_option f xs >>= (λ ys. some (y ∷ ys)))

module _ (l : Json) where
  -- A number that is read into an unsigned integer of `w` bits
  unfoldable pub to_uint : ℕ → l.Value → Option ℕ
  to_uint w v = l.to_number v >>= (λ n. some (n % 2 ^ w))

  -- The library's conversion to a `std::array`; what stands past the end stays.
  unfoldable pub to_function :
      {A : Type 0} → (l.Value → Option A) → (ℕ → A) → l.Value → Option (ℕ → A)
  to_function f old v = do vs ← l.to_array v; xs ← map_option f vs; some (λ i. get_or xs i (old i))

  unfoldable pub from_function : {A : Type 0} → (A → l.Value) → ℕ → (ℕ → A) → l.Value
  from_function f n g = l.array (elements n (λ i. f (g i)))

  unfoldable pub address_to_json : Address → l.Value
  address_to_json ia =
      l.object (
        ("ib_port", l.number ia.ib_port) ∷ ("lid", l.number ia.lid) ∷ ("qpn", l.number ia.qpn) ∷ [])

  unfoldable pub address_from_json : l.Value → Option Address
  address_from_json j = do
    ib_port ← to_uint 32 (l.at j "ib_port")
    lid ← to_uint 16 (l.at j "lid")
    qpn ← to_uint 32 (l.at j "qpn")
    some (record { ib_port = ib_port; lid = lid; qpn = qpn })

  unfoldable pub qpi_to_json : QueuePairInfo → l.Value
  qpi_to_json qpi = l.object (
      ("lid", l.number qpi.lid)
      ∷ ("qpn", l.number qpi.qpn)
      ∷ ("psn", l.number qpi.psn)
      ∷ ("rkey", l.number qpi.rkey)
      ∷ ("vaddr", l.number qpi.vaddr)
      ∷ [])

  unfoldable pub qpi_from_json : l.Value → Option QueuePairInfo
  qpi_from_json j = do
    lid ← to_uint 16 (l.at j "lid")
    qpn ← to_uint 32 (l.at j "qpn")
    psn ← to_uint 32 (l.at j "psn")
    rkey ← to_uint 32 (l.at j "rkey")
    vaddr ← to_uint 64 (l.at j "vaddr")
    some (record { lid = lid; qpn = qpn; psn = psn; rkey = rkey; vaddr = vaddr })

  -- The member of the union that the flag says is written.
  unfoldable pub links_to_json : Bool → (ℕ → ℕ) → String × l.Value
  links_to_json is_backup links =
      if is_backup
      then ("master", l.number (links 0))
      else ("backups", from_function l.number num_replicas links)

  unfoldable pub tablet_to_json : TabletInfo → l.Value
  unfolding links_to_json
  tablet_to_json ti = l.object (
      ("id", l.number ti.id)
      ∷ ("server_id", l.number ti.server_id)
      ∷ ("is_backup", l.boolean ti.is_backup)
      ∷ ("qpis", from_function qpi_to_json num_replicas ti.qpis)
      ∷ links_to_json ti.is_backup ti.links
      ∷ [])

  unfoldable pub links_from_json : Bool → (ℕ → ℕ) → l.Value → Option (ℕ → ℕ)
  links_from_json is_backup old j =
      if is_backup
      then (do m ← to_uint 32 (l.at j "master"); some (λ i. get_or (m ∷ []) i (old i)))
      else to_function (to_uint 32) old (l.at j "backups")

  unfoldable pub tablet_from_json : TabletInfo → l.Value → Option TabletInfo
  unfolding links_from_json
  tablet_from_json old j = do
    id ← to_uint 32 (l.at j "id")
    server_id ← to_uint 32 (l.at j "server_id")
    is_backup ← l.to_boolean (l.at j "is_backup")
    qpis ← to_function qpi_from_json old.qpis (l.at j "qpis")
    links ← links_from_json is_backup old.links j
    some (record {
      id = id;
      server_id = server_id;
      is_backup = is_backup;
      qpis = qpis;
      links = links;
    })

  unfoldable pub server_to_json : ServerInfo → l.Value
  server_to_json si = l.object (
      ("id", l.number si.id)
      ∷ ("active", l.boolean si.active)
      ∷ ("addr", l.text si.addr)
      ∷ ("ib_addr", address_to_json si.ib_addr)
      ∷ ("tablets", from_function l.number num_tablet_and_backups_per_server si.tablets)
      ∷ [])

  unfoldable pub server_from_json : ServerInfo → l.Value → Option ServerInfo
  server_from_json old j = do
    id ← to_uint 32 (l.at j "id")
    active ← l.to_boolean (l.at j "active")
    addr ← l.to_text (l.at j "addr")
    ib_addr ← address_from_json (l.at j "ib_addr")
    tablets ← to_function (to_uint 32) old.tablets (l.at j "tablets")
    some (record { id = id; active = active; addr = addr; ib_addr = ib_addr; tablets = tablets })

  unfoldable pub index_to_json : IndexManager → l.Value
  index_to_json im = l.object (
      ("key_tablet_map", from_function l.number num_tablets im.key_tablet_map)
      ∷ ("tablets", from_function tablet_to_json num_tablet_and_backups im.tablets)
      ∷ ("servers", from_function server_to_json num_servers im.servers)
      ∷ [])

  -- The elements of the arrays are made anew; `blank_tablet` and `blank_server` are what they are
  -- before they are read.
  unfoldable pub index_from_json :
      TabletInfo → ServerInfo → IndexManager → l.Value → Option IndexManager
  index_from_json blank_tablet blank_server old j = do
    keys ← to_function (to_uint 32) old.key_tablet_map (l.at j "key_tablet_map")
    tablets ← to_function (tablet_from_json blank_tablet) old.tablets (l.at j "tablets")
    servers ← to_function (server_from_json blank_server) old.servers (l.at j "servers")
    some (record old { key_tablet_map = keys; tablets = tablets; servers = servers })
