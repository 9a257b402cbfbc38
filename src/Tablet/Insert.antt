-- ===== src/Tablet/Insert.antt =====
-- The common end of `Put` and `Add` (src/tablet.cc) on a tablet: a new object at the head of a bucket.
use nvds.Base.{
  ℕ, ◌+◌, ◌^◌, ◌≤◌, ◌<◌, ◌≡◌, refl, List, ◌∷◌, arith, take, ◌==◌, update, true, add32, not,
}
use nvds.Nvm.{poke, get32, bytes32}
use nvds.Command.{
  Allocator, Run, ok, assert_failed, pure, ◌>>=◌, ◌>>◌, assert, write-ok, copy_in, store,
}
use nvds.Allocator.{max_block_size, alloc}
use nvds.Allocator.Tiling.{Blocks}
use nvds.Allocator.Heap.{Held}
use nvds.Allocator.Heap.Allocated.{NoSpace}
use nvds.Allocator.Heap.Served.{CanServe, Returned, null, pointer, rounded, alloc-Returned}
use nvds.Request.{Request, IsRequest, Status}
use nvds.Tablet.{object, slot_of, insert_head}
use nvds.Tablet.Chain.{Entry}
use nvds.Tablet.Table.{HasTable}
use nvds.Tablet.Link.{bucket, needed, linked-HasTable, kept-HasTable}
use nvds.Tablet.Written.{entry, written}

-- How an insertion into the table `t` with the blocks `g` ends: where no free block
-- has room for the object, an assertion fails and the table is as it was; else the request's
-- entry is the first of its bucket, and every other is as it was.
pub data Inserted (g : Blocks) (t : ℕ → List Entry) (r : Request) : Run Status → Type 0 where
  no_space :
      (s' : Allocator)
      → NoSpace g (rounded (needed r))
      → HasTable g s'.memory t
      → Inserted g t r (assert_failed s')
  inserted :
      (g' : Blocks) (p : ℕ) (s' : Allocator)
      → HasTable g' s'.memory (update t (bucket r) (entry p r ∷ t (bucket r)))
      → Inserted g t r (ok Status.ok s')

-- `insert_head` after `Alloc` returned `p`
insert_head-done :
    (r : Request) (q h p : ℕ) (s s' : Allocator)
    → alloc (needed r) s ≡ ok p s'
    → 0 < p
    → p + 16 < 2 ^ 32
    → 0 < q
    → (s'' : Allocator) × (insert_head r q h s ≡ ok Status.ok s'')
      × (s''.memory ≡ poke (written s'.memory p h r) q (bytes32 p))
unfolding insert_head ◌>>=◌ ◌>>◌ assert copy_in pure
insert_head-done r q h p s s' ran some low at_q =
    let some' : not (p == 0) ≡ true = ground (arith, some) in
    let at_data : add32 16 p ≡ 16 + p = omega arith in
    let bytes = take (r.key_len + r.val_len) r.contents in
    let s₁ : Allocator = record (store p (object h r) s') { cnt_writes = s'.cnt_writes + 1 } in
    let s₂ = store (16 + p) bytes s₁ in
    (
      record (store q (bytes32 p) s₂) { cnt_writes = s₂.cnt_writes + 1 },
      rw (ran, some', write-ok p (object h r) s' some, at_data, write-ok q (bytes32 p) s₂ at_q)
          refl,
      refl,
    )

insert_head-null :
    (r : Request) (q h : ℕ) (s s' : Allocator)
    → alloc (needed r) s ≡ ok 0 s'
    → insert_head r q h s ≡ assert_failed s'
unfolding insert_head ◌>>=◌ ◌>>◌ assert
insert_head-null r q h s s' ran = rw ran refl

module _ (g : Blocks) (s : Allocator) (t : ℕ → List Entry) (r : Request)
    (table : HasTable g s.memory t) (w : IsRequest r) (fits : needed r + 4 ≤ max_block_size) where
  insert_after :
      (p : ℕ) (s' : Allocator)
      → alloc (needed r) s ≡ ok p s'
      → ((x : ℕ) → Held g x → s'.memory x ≡ s.memory x)
      → Returned g (rounded (needed r)) s'.memory p
      → Inserted g t r (insert_head r (slot_of r) (get32 s.memory (slot_of r)) s)
  insert_after p s' ran kept (null none h) =
      rw (insert_head-null r (slot_of r) _ s s' ran)
        (no_space s' none (kept-HasTable g s.memory s'.memory t table h kept))
  insert_after p s' ran kept (pointer a g' h' part last) =
      let here : 0 < g'.sizes a = omega (arith, part.size) in
      let bounds = h'.heap.tiling.bounds a here in
      let (s'', done, memory) =
        insert_head-done r (slot_of r) (get32 s.memory (slot_of r)) (a + 4) s s' ran (omega arith)
          (omega (arith, bounds)) (omega arith) in
      rw done (
        inserted g' (a + 4) s'' (
          rw memory (
            linked-HasTable g g' s.memory s'.memory t r (rounded (needed r)) a table h' w part
              (omega arith) (omega (arith, fits)) (omega (arith, fits)) kept)))

  -- On a tablet on which `Alloc` meets none of its faults, the common end of `Put` and `Add` inserts
  -- the request's object.
  pub insert_head-Inserted :
      CanServe g s.memory (rounded (needed r))
      → Inserted g t r (insert_head r (slot_of r) (get32 s.memory (slot_of r)) s)
  insert_head-Inserted can =
      let (p, s', ran, kept, returned) =
        alloc-Returned g s (needed r) table.heap (omega arith) fits can in
      insert_after p s' ran kept returned
