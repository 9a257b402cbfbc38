-- ===== src/Tests/Buckets.antt =====
-- A bucket with one object, and requests on it.
use nvds.Base.{ℕ, ◌^◌, ◌≡◌, refl, true, false, some, List, [], ◌∷◌, arith, All, length, ◌≤◌}
use nvds.Nvm.{Memory, poke, peek, get16, get32, bytes32, memcmp}
use nvds.Nvm.Words.{bytes_eq}
use nvds.Modification.{Modification, modification, ModificationList, covered}
use nvds.Index.{TabletInfo}
use nvds.Command.{
  Allocator, ok, out_of_fuel, final, pure, ◌>>=◌, ◌>>◌, assert, read32, read16, write, copy_in,
  compare_bytes, set_modifications,
}
use nvds.Command.Logged.{SourceOf}
use nvds.Request.{Kind, Status, Request, IsRequest, response}
use nvds.Tablet.{slot_of, object, same_key, put_search, overwrite, put, get, del}
use nvds.Tablet.Chain.{Entry, Chain, lookup}
use nvds.Tablet.Lookup.{answer, logging, get-lookup, del-diverges}
use nvds.Replication.{
  rdma_writes, at_base, merge_modifications, merge_loop, sort, sweep, sync, Verbs,
}
use nvds.Replication.Merge.{IsMerged, merge_modifications-IsMerged}
use nvds.Replication.Sync.{IsRegion, posted_on, requests, sync-first_range}
use nvds.Server.{operate, serve_request}
use nvds.Server.Replicated.{serve_request-logs, serve_request-replicated}

-- The key is the bytes 1 2, and hashes to 7.
abbrev req : Kind → List ℕ → ℕ → Request
req kind val val_len = record {
  kind = kind;
  key_len = 2;
  val_len = val_len;
  key_hash = 7;
  contents = 1 ∷ 2 ∷ val;
}

abbrev get_it : Request
get_it = req Kind.get [] 0

abbrev stored : Request
stored = req Kind.put (30 ∷ 40 ∷ 50 ∷ []) 3

abbrev memory : Memory
memory =
    poke (poke (poke (λ _. 0) (slot_of stored) (bytes32 1000)) 1000 (object 0 stored)) 1016
      stored.contents

abbrev pub state : Allocator
state = record { base = 4096; cnt_writes = 0; modifications = []; memory = memory }

abbrev pub entry : Entry
entry = record { addr = 1000; key = 1 ∷ 2 ∷ []; val = 30 ∷ 40 ∷ 50 ∷ [] }

pub entry-Chain : Chain memory (get32 memory (slot_of get_it)) (entry ∷ [])
unfolding poke peek get16 get32
entry-Chain = (
  refl,
  record {
    not_null = omega arith;
    inside = omega arith;
    key_len = refl;
    val_len = refl;
    key_bytes = refl;
    val_bytes = refl;
  },
  refl,
)

req-IsRequest : IsRequest get_it
req-IsRequest = record { sized = refl }

get-lookup_example :
    get 2 (response Kind.get Status.ok) get_it [] state
    ≡ ok
        (answer (response Kind.get Status.ok) (lookup (1 ∷ 2 ∷ []) (entry ∷ [])))
        (logging state [])
get-lookup_example =
    get-lookup 2 (response Kind.get Status.ok) get_it [] (entry ∷ []) state req-IsRequest refl
      entry-Chain (omega arith)

abbrev add_it : Request
add_it = req Kind.add (9 ∷ []) 1

-- Another key in the same bucket
abbrev del_other : Request
del_other = record { kind = Kind.del; key_len = 1; val_len = 0; key_hash = 7; contents = 5 ∷ [] }

del-diverges_example : del 1000 del_other [] state ≡ out_of_fuel (logging state [])
unfolding bytes_eq
del-diverges_example =
    del-diverges 1000 del_other [] entry [] state (record { sized = refl }) refl entry-Chain refl

-- A shorter value for the key
abbrev put_it : Request
put_it = req Kind.put (60 ∷ []) 1

abbrev backup : TabletInfo
backup = record {
  id = 1;
  server_id = 0;
  is_backup = true;
  qpis = λ _. record { lid = 0; qpn = 0; psn = 0; rkey = 5; vaddr = 2 ^ 40 };
  links = λ _. 2;
}

program : Unit {0}
unfolding poke peek get16 get32 memcmp ◌>>=◌ ◌>>◌ pure assert read32 read16 write copy_in
    compare_bytes set_modifications same_key put_search overwrite put operate serve_request
    merge_modifications merge_loop sort sweep sync
program = tt

abbrev first_change : Modification
first_change = modification 1006 5102 2

abbrev changes : ModificationList
changes = first_change ∷ modification 1018 5114 1 ∷ []

put_changes : (final (serve_request 2 put_it state)).modifications ≡ changes
unfolding program
put_changes = refl

region : IsRegion 4096 (backup.qpis 0).vaddr
region = record { local = omega arith; remote = omega arith }

serve_request-logs_example :
    ((x : ℕ)
      → covered x (final (serve_request 2 put_it state)).modifications ≡ false
      → (final (serve_request 2 put_it state)).memory x ≡ state.memory x)
    × All (SourceOf 4096) (final (serve_request 2 put_it state)).modifications
serve_request-logs_example = serve_request-logs 2 put_it state

serve_request-replicated_example :
    (out : ModificationList) × (merge_modifications changes ≡ some out)
    × ((x : ℕ)
        → rdma_writes
            (at_base 4096 (final (serve_request 2 put_it state)).memory)
            (2 ^ 40)
            (requests 3 backup out)
            memory
            x
          ≡ (final (serve_request 2 put_it state)).memory x)
serve_request-replicated_example =
    serve_request-replicated 2 put_it state first_change (modification 1018 5114 1 ∷ []) 3 backup
      memory put_changes (omega arith) region (λ x. refl)

merge_modifications-IsMerged_example :
    (out : ModificationList) × (merge_modifications changes ≡ some out)
    × IsMerged 4096 changes out
    × (length out ≤ 2)
merge_modifications-IsMerged_example =
    merge_modifications-IsMerged 4096 first_change (modification 1018 5114 1 ∷ []) (omega arith)
      (omega arith)

abbrev far_change : Modification
far_change = modification 2000 6096 4

merged_apart :
    merge_modifications (far_change ∷ first_change ∷ []) ≡ some (first_change ∷ far_change ∷ [])
unfolding program
merged_apart = refl

abbrev verbs : Verbs
verbs = record { post_send = λ k ws. 0; completion = λ k. 0 }

-- The byte 2001 was modified, and stays what it was at the backup.
sync-first_range_example :
    rdma_writes
      (at_base 4096 (λ _. 77))
      (2 ^ 40)
      (posted_on 0 (sync verbs 3 (backup ∷ []) (far_change ∷ first_change ∷ [])).0)
      (λ _. 0)
      2001
    ≡ 0
sync-first_range_example =
    sync-first_range verbs 3 4096 backup (far_change ∷ first_change ∷ []) first_change
      (far_change ∷ []) (λ _. 77) (λ _. 0) 2001 (record { posts = λ k ws. refl }) region refl
      merged_apart (λ e. absurd (omega arith)) (omega arith) refl
