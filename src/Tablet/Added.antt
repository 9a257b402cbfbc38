-- ===== src/Tablet/Added.antt =====
-- `Add`, and `Put` of a key that is not there (src/tablet.cc), on a tablet.
use nvds.Base.{ℕ, ◌+◌, ◌≤◌, ◌<◌, ◌≡◌, List, arith, length, Bool-cases, inl, inr, ap, true, false}
use nvds.Nvm.{get32}
use nvds.Modification.{ModificationList}
use nvds.Command.{Allocator, Run, ok, ◌>>=◌, ◌>>◌, assert, set_modifications}
use nvds.Allocator.{max_block_size}
use nvds.Allocator.Tiling.{Blocks}
use nvds.Allocator.Heap.Served.{CanServe, rounded}
use nvds.Request.{Request, IsRequest, Status, Kind, key, is_add}
use nvds.Tablet.{slot_of, insert_head, add}
use nvds.Tablet.Chain.{Entry, Chain}
use nvds.Tablet.Lookup.{logging, read32-slot, has_key, add_search-has_key, add-has_key}
use nvds.Tablet.Table.{HasTable}
use nvds.Tablet.Link.{bucket, needed}
use nvds.Tablet.Insert.{Inserted, insert_head-Inserted}

-- How `Add` ends: the key is there and nothing changes but the list in use, or it is inserted.
pub data Added (g : Blocks) (t : ℕ → List Entry) (r : Request) (s : Allocator)
    : Run Status → Type 0 where
  there : has_key (key r) (t (bucket r)) ≡ true → Added g t r s (ok Status.error s)
  absent :
      {run : Run Status}
      → has_key (key r) (t (bucket r)) ≡ false
      → Inserted g t r run
      → Added g t r s run

module _ (g : Blocks) (t : ℕ → List Entry) (rounds : ℕ) (r : Request) (ms : ModificationList)
    (s : Allocator) (table : HasTable g s.memory t) (w : IsRequest r)
    (fits : needed r + 4 ≤ max_block_size) (can : CanServe g s.memory (rounded (needed r)))
    (h : length (t (bucket r)) < rounds) where
  bucket-Chain : Chain s.memory (get32 s.memory (slot_of r)) (t (bucket r))
  bucket-Chain = table.buckets (bucket r) (omega arith)

  inserts : Inserted g t r (insert_head r (slot_of r) (get32 s.memory (slot_of r)) (logging s ms))
  inserts = insert_head-Inserted g (logging s ms) t r table w fits can

  -- Let a tablet hold the table `t`, on which `Alloc` meets none of its faults, and let the object of
  -- a request fit into a block. Then `Add` with more rounds than the bucket has entries answers
  -- with an error if the bucket has the key, and changes nothing but the list in use; else it
  -- puts the request's entry before the others of its bucket and leaves all other buckets as they
  -- were, or an assertion fails, only where no free block has room for the object, and the table is
  -- as it was.
  pub add-Added : r.kind ≡ Kind.add → Added g t r (logging s ms) (add rounds r ms s)
  unfolding add ◌>>=◌ ◌>>◌ set_modifications assert
  add-Added k = elim (Bool-cases (has_key (key r) (t (bucket r)))) [
    | inl there_is ↦
        rw (add-has_key rounds r ms (t (bucket r)) s w k bucket-Chain there_is h) (there there_is)
    | inr none_is ↦
        rw
          (
            ap is_add k,
            read32-slot r (logging s ms),
            add_search-has_key rounds r (t (bucket r)) (get32 s.memory (slot_of r)) (logging s ms) w
                bucket-Chain h,
            none_is,
          )
          (absent none_is inserts)
  ]
