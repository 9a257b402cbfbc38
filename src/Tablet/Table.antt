-- ===== src/Tablet/Table.antt =====
-- A tablet (`NVMTablet` of src/tablet.h) as a whole: the heap of its allocator, and the buckets of its
-- hash table, whose objects lie in blocks in use.
use nvds.Base.{ℕ, ◌+◌, ◌*◌, ◌≤◌, ◌<◌, ◌≡◌, List, [], ◌∷◌, arith, length, All, false, ◌∙◌}
use nvds.Nvm.{Memory, get32}
use nvds.Nvm.Parts.{Agree, get16-Agree, get32-Agree, peek-Agree}
use nvds.Allocator.Tiling.{Blocks}
use nvds.Allocator.Heap.{Used}
use nvds.Allocator.Heap.Served.{HasHeap}
use nvds.Tablet.{hash_table_field, hash_table_size}
use nvds.Tablet.Chain.{Entry, Stored, Chain}

-- The object of an entry lies in a block in use, past its header.
pub record Housed (g : Blocks) (e : Entry) : Type 0 where
  pub block : ℕ
  pub some : 0 < g.sizes block
  pub used : g.free block ≡ false
  pub above : block + 4 ≤ e.addr
  pub below : e.addr + 16 + length e.key + length e.val ≤ block + g.sizes block

-- The offset of a bucket's head
abbrev pub slot : ℕ → ℕ
slot i = hash_table_field + 4 * i

-- The memory holds a heap with the blocks `g`, and in each bucket `i` the entries `t i`.
pub record HasTable (g : Blocks) (m : Memory) (t : ℕ → List Entry) : Type 0 where
  pub heap : HasHeap g m
  pub buckets : (i : ℕ) → i < hash_table_size → Chain m (get32 m (slot i)) (t i)
  pub housed : (i : ℕ) → i < hash_table_size → All (Housed g) (t i)

-- Where the bytes of the blocks in use are as they were, so are the entries.
module _ (g : Blocks) (m m' : Memory) (same : (x : ℕ) → Used g x → m' x ≡ m x) where
  agree :
      (e : Entry) (a n : ℕ)
      → Housed g e
      → e.addr ≤ a
      → a + n ≤ e.addr + 16 + length e.key + length e.val
      → Agree m m' a n
  agree e a n h l r x from to = same x (record {
    block = h.block;
    some = h.some;
    used = h.used;
    above = omega (arith, h.above);
    below = omega (arith, h.below);
  })

  Stored-same : (e : Entry) → Housed g e → Stored m e → Stored m' e
  Stored-same e h st = record {
    not_null = st.not_null;
    inside = st.inside;
    key_len =
        get16-Agree m m' (4 + e.addr) (agree e _ 2 h (omega arith) (omega arith)) ∙ st.key_len;
    val_len =
        get16-Agree m m' (6 + e.addr) (agree e _ 2 h (omega arith) (omega arith)) ∙ st.val_len;
    key_bytes =
        peek-Agree m m' (length e.key) (16 + e.addr)
          (agree e _ (length e.key) h (omega arith) (omega arith))
        ∙ st.key_bytes;
    val_bytes =
        peek-Agree m m' (length e.val) (16 + e.addr + length e.key)
          (agree e _ (length e.val) h (omega arith) (omega arith))
        ∙ st.val_bytes;
  }

  pub Chain-same : (es : List Entry) (p : ℕ) → All (Housed g) es → Chain m p es → Chain m' p es
  Chain-same [] p h c = c
  Chain-same (e ∷ es) p h c =
      let next : get32 m' e.addr ≡ get32 m e.addr =
        get32-Agree m m' e.addr (agree e _ 4 h.0 (omega arith) (omega arith)) in
      (c.0, Stored-same e h.0 c.1, rw next (Chain-same es (get32 m e.addr) h.1 c.2))
