-- ===== src/Tablet.antt =====
-- A tablet (src/tablet.h, src/tablet.cc): a chained hash table behind the allocator's heap. Each
-- loop over a bucket's list takes the number of rounds that it may make.
pub mod Added
pub mod Blank
pub mod Create
pub mod Chain
pub mod Connect
pub mod Insert
pub mod Link
pub mod Logged
pub mod Lookup
pub mod Overwrite
pub mod Table
pub mod Written
use nvds.Base.{
  ℕ, zero, suc, ◌+◌, ◌*◌, ◌%◌, not, Option, none, some, List, ◌++◌, ltb, ◌==◌, if◌then◌else◌, add32,
  take, Bool,
}
use nvds.Modification.{ModificationList}
use nvds.Nvm.{bytes16, bytes32, bytes64, is_eq}
use nvds.Command.{
  Cmd, pure, ◌>>=◌, ◌>>◌, assert, stuck, read32, read16, write, write32, copy_in, copy_out,
  compare_bytes, set_modifications,
}
use nvds.Allocator
use nvds.Allocator.{alloc, free}
use nvds.Request.{Status, Request, Response, key, val, is_put, is_add, is_get, is_del, response}

abbrev pub hash_table_size : ℕ
hash_table_size = 1000003

-- `offsetof(NVMTablet, hash_table)`
abbrev pub hash_table_field : ℕ
hash_table_field = Allocator.size

-- `sizeof(NVMObject)`, and `OFFSETOF_NVMOBJECT`; `next` stands at 0
abbrev pub object_size : ℕ
object_size = 16

abbrev pub key_len_field : ℕ → ℕ
key_len_field obj = add32 4 obj

abbrev pub val_len_field : ℕ → ℕ
val_len_field obj = add32 6 obj

abbrev pub data_field : ℕ → ℕ
data_field obj = add32 16 obj

-- The bytes of the `NVMObject` that `Put` and `Add` write
abbrev pub object : ℕ → Request → List ℕ
object next r = bytes32 next ++ (bytes16 r.key_len ++ (bytes16 r.val_len ++ bytes64 r.key_hash))

abbrev pub slot_of : Request → ℕ
slot_of r = hash_table_field + 4 * (r.key_hash % hash_table_size)

-- The test that the four operations make of a list's object `p`
unfoldable pub same_key : Request → ℕ → Cmd Bool
same_key r p = do
  len ← read16 (key_len_field p)
  if r.key_len == len
      then (do c ← compare_bytes (data_field p) (key r); pure (is_eq c))
      else pure Bool.false

-- The common end of `Put` and `Add`: the new object goes to the head of the bucket's list.
unfoldable pub insert_head : Request → ℕ → ℕ → Cmd Status
insert_head r slot head = do
  p ← alloc (object_size + r.key_len + r.val_len)
  assert (not (p == 0))
  write p (object head r)
  copy_in (data_field p) (take (r.key_len + r.val_len) r.contents)
  write32 slot p
  pure Status.ok

-- `Put` on a key that is there. `q` is the slot or the object before `p`.
unfoldable pub overwrite : Request → ℕ → ℕ → Cmd Status
overwrite r q p = do
  old_len ← read16 (val_len_field p)
  if ltb r.val_len old_len
      then (do
        write (val_len_field p) (bytes16 r.val_len)
        copy_in (add32 (data_field p) r.key_len) (val r)
        pure Status.ok)
      else do
        next ← read32 p
        free p
        p' ← alloc (object_size + r.key_len + r.val_len)
        assert (not (p' == 0))
        write p' (object next r)
        copy_in (data_field p') (take (r.key_len + r.val_len) r.contents)
        write32 q p'
        pure Status.ok

-- The loop of `Put`: the object that holds the key, and what points to it
unfoldable pub put_search : ℕ → Request → ℕ → ℕ → Cmd (Option (ℕ × ℕ))
put_search zero r q p = stuck
put_search (suc rounds) r q p = if p == 0 then pure none else do
  same ← same_key r p
  if same then pure (some (q, p)) else do next ← read32 p; put_search rounds r p next

unfoldable pub put : ℕ → Request → ModificationList → Cmd Status
put rounds r modifications = do
  set_modifications modifications
  assert (is_put r.kind)
  head ← read32 (slot_of r)
  found ← put_search rounds r (slot_of r) head
  elim found [ none ↦ insert_head r (slot_of r) head | some (q, p) ↦ overwrite r q p ]

-- The loop of `Add`: whether the key is there
unfoldable pub add_search : ℕ → Request → ℕ → Cmd Bool
add_search zero r p = stuck
add_search (suc rounds) r p = if p == 0 then pure Bool.false else do
  same ← same_key r p
  if same then pure Bool.true else do next ← read32 p; add_search rounds r next

unfoldable pub add : ℕ → Request → ModificationList → Cmd Status
add rounds r modifications = do
  set_modifications modifications
  assert (is_add r.kind)
  head ← read32 (slot_of r)
  found ← add_search rounds r head
  if found then pure Status.error else insert_head r (slot_of r) head

-- The loop of `Get`
unfoldable pub get_loop : ℕ → Response → Request → ℕ → Cmd (Status × Response)
get_loop zero resp r p = stuck
get_loop (suc rounds) resp r p = if p == 0 then pure (Status.error, resp) else do
  same ← same_key r p
  if same
      then (do
        len ← read16 (val_len_field p)
        bytes ← copy_out (add32 (data_field p) r.key_len) len
        pure (Status.ok, record resp { val = bytes; val_len = len }))
      else do next ← read32 p; get_loop rounds resp r next

unfoldable pub get : ℕ → Response → Request → ModificationList → Cmd (Status × Response)
get rounds resp r modifications = do
  set_modifications modifications
  assert (is_get r.kind)
  p ← read32 (slot_of r)
  get_loop rounds resp r p

-- The loop of `Del`. Nothing in its body changes `q` or `p`.
unfoldable pub del_loop : ℕ → Request → ℕ → ℕ → Cmd Status
del_loop zero r q p = stuck
del_loop (suc rounds) r q p = if p == 0 then pure Status.error else do
  same ← same_key r p
  if same
      then (do next ← read32 p; write32 q next; free p; pure Status.ok)
      else del_loop rounds r q p

unfoldable pub del : ℕ → Request → ModificationList → Cmd Status
del rounds r modifications = do
  set_modifications modifications
  assert (is_del r.kind)
  p ← read32 (slot_of r)
  del_loop rounds r (slot_of r) p
