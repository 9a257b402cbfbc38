-- ===== src/Tests/Trees.antt =====
-- JSON values as trees, and a cluster's index written as one.
use nvds.Base.{
  below_one, below_two, ℕ, zero, suc, Bool-cases, inl, inr, ◌≡◌, ◌<◌, ◌^◌, refl, ap, arith, Bool,
  Option, none, some, List, [], ◌∷◌, if◌then◌else◌,
}
use nvds.Index.{
  IndexManager, TabletInfo, ServerInfo, num_tablets, num_tablet_and_backups, num_servers,
  add_server, add_tablet, for_below, calc_tablet_id,
}
use nvds.Message.Json.{Json, IsJson, lookup, index_to_json, index_from_json}
use nvds.Message.Json.Ranges.{FitsQpi, FitsTablet, FitsServer, FitsIndex, SameIndex}
use nvds.Message.Json.RoundTrip.{index-round_trip}
use nvds.Tests.Cluster.{two_servers, no_qpi, no_address, no_tablet, no_server}
use Prim.Native.String.{String}
use text.Mathlib.Text.{◌==◌ as str_eq}

mutual
  pub data Tree : Type 0 where
    null : Tree
    number : ℕ → Tree
    boolean : Bool → Tree
    chars : List ℕ → Tree
    array : Trees → Tree
    object : Fields → Tree

  pub data Trees : Type 0 where
    last : Trees
    then : Tree → Trees → Trees

  pub data Fields : Type 0 where
    no_field : Fields
    field : String → Tree → Fields → Fields

abbrev trees : List Tree → Trees
trees [] = Trees.last
trees (t ∷ ts) = Trees.then t (trees ts)

abbrev listed : Trees → List Tree
listed Trees.last = []
listed (Trees.then t ts) = t ∷ listed ts

abbrev fields : List (String × Tree) → Fields
fields [] = Fields.no_field
fields ((k, t) ∷ fs) = Fields.field k t (fields fs)

abbrev find : Fields → String → Tree
find Fields.no_field k = Tree.null
find (Fields.field j t fs) k = if str_eq j k then t else find fs k

abbrev to_number : Tree → Option ℕ
to_number (Tree.number n) = some n
to_number _ = none

abbrev to_boolean : Tree → Option Bool
to_boolean (Tree.boolean b) = some b
to_boolean _ = none

abbrev to_text : Tree → Option (List ℕ)
to_text (Tree.chars bs) = some bs
to_text _ = none

abbrev to_array : Tree → Option (List Tree)
to_array (Tree.array ts) = some (listed ts)
to_array _ = none

abbrev at : Tree → String → Tree
at (Tree.object fs) k = find fs k
at _ k = Tree.null

-- Every text is parsed as `t`.
abbrev pub reads : Option Tree → Json
reads t = record {
  Value = Tree;
  null = Tree.null;
  number = Tree.number;
  boolean = Tree.boolean;
  text = Tree.chars;
  array = λ ts. Tree.array (trees ts);
  object = λ fs. Tree.object (fields fs);
  to_number = to_number;
  to_boolean = to_boolean;
  to_text = to_text;
  to_array = to_array;
  at = at;
  dump = λ v. [];
  parse = λ bs. t;
}

abbrev pub json : Json
json = reads none

listed-trees : (ts : List Tree) → listed (trees ts) ≡ ts
listed-trees [] = refl
listed-trees (t ∷ ts) = ap (λ us. t ∷ us) (listed-trees ts)

find-fields :
    (fs : List (String × Tree)) (k : String) (t : Tree)
    → lookup k fs ≡ some t
    → find (fields fs) k ≡ t
find-fields [] k t e = cc
find-fields ((j, u) ∷ fs) k t e =
    let ih = find-fields fs k t in
    elim (Bool-cases (str_eq j k)) [
      | inl h ↦ let e' : some u ≡ some t = rw h at e in rw h cc
      | inr h ↦ let e' : lookup k fs ≡ some t = rw h at e in rw h (ih e')
    ]

pub reads-IsJson : (t : Option Tree) → IsJson (reads t)
reads-IsJson t = record {
  to_number-number = λ n h. refl;
  to_boolean-boolean = λ b. refl;
  to_text-text = λ bs. refl;
  to_array-array = λ vs. ap some (listed-trees vs);
  at-object = find-fields;
}

pub no_qpi-FitsQpi : FitsQpi no_qpi
no_qpi-FitsQpi = record {
  lid = omega arith;
  qpn = omega arith;
  psn = omega arith;
  rkey = omega arith;
  vaddr = omega arith;
}

fits_tablet :
    (t : TabletInfo)
    → t.id < 2 ^ 32
    → t.server_id < 2 ^ 32
    → t.links 0 < 2 ^ 32
    → t.qpis 0 ≡ no_qpi
    → FitsTablet t
fits_tablet t h₁ h₂ h₃ e = record {
  id = h₁;
  server_id = h₂;
  qpis = below_one (λ i. FitsQpi (t.qpis i)) (rw e no_qpi-FitsQpi);
  links = below_one (λ i. t.links i < 2 ^ 32) h₃;
}

tablets-Fits : (i : ℕ) → i < num_tablet_and_backups → FitsTablet (two_servers.tablets i)
unfolding add_server add_tablet for_below calc_tablet_id
tablets-Fits zero h =
    fits_tablet (two_servers.tablets 0) (omega arith) (omega arith) (omega arith) refl
tablets-Fits (suc zero) h =
    fits_tablet (two_servers.tablets 1) (omega arith) (omega arith) (omega arith) refl
tablets-Fits (suc (suc zero)) h =
    fits_tablet (two_servers.tablets 2) (omega arith) (omega arith) (omega arith) refl
tablets-Fits (suc (suc (suc zero))) h =
    fits_tablet (two_servers.tablets 3) (omega arith) (omega arith) (omega arith) refl
tablets-Fits (suc (suc (suc (suc i)))) h = absurd (omega arith)

fits_server :
    (s : ServerInfo)
    → s.id < 2
    → s.ib_addr ≡ no_address
    → s.tablets 0 < 4
    → s.tablets 1 < 4
    → FitsServer s
fits_server s h e t₀ t₁ = record {
  id = omega arith;
  ib_port = rw e (omega arith);
  lid = rw e (omega arith);
  qpn = rw e (omega arith);
  tablets = below_two (λ i. s.tablets i < 2 ^ 32) (omega arith) (omega arith);
}

servers-Fits : (i : ℕ) → i < num_servers → FitsServer (two_servers.servers i)
unfolding add_server add_tablet for_below calc_tablet_id
servers-Fits =
    below_two (λ i. FitsServer (two_servers.servers i))
      (fits_server (two_servers.servers 0) (omega arith) refl (omega arith) (omega arith))
      (fits_server (two_servers.servers 1) (omega arith) refl (omega arith) (omega arith))

keys-Fits : (i : ℕ) → i < num_tablets → two_servers.key_tablet_map i < 2 ^ 32
unfolding add_server add_tablet for_below calc_tablet_id
keys-Fits = below_two (λ i. two_servers.key_tablet_map i < 2 ^ 32) (omega arith) (omega arith)

pub two_servers-FitsIndex : FitsIndex two_servers
two_servers-FitsIndex = record { keys = keys-Fits; tablets = tablets-Fits; servers = servers-Fits }

index-round_trip_example :
    (jm : IndexManager) × (index_from_json json no_tablet no_server two_servers
        (index_to_json json two_servers)
      ≡ some jm)
    × SameIndex two_servers jm
index-round_trip_example =
    index-round_trip json (reads-IsJson none) no_tablet no_server two_servers two_servers
      two_servers-FitsIndex
