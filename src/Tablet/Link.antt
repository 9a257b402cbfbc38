-- ===== src/Tablet/Link.antt =====
-- The tablet after a new object was written to a block and made the head of its bucket (src/tablet.cc).
use nvds.Base.{
  ℕ, ◌+◌, ◌%◌, ◌^◌, ◌≤◌, ◌<◌, ◌≡◌, ◌≢◌, refl, List, [], ◌∷◌, arith, length, take, ◌∙◌, ◌==◌,
  Bool-cases, update, All, inl, inr,
}
use nvds.Nvm.{Memory, poke, get32, bytes32}
use nvds.Nvm.Words.{poke_outside, get32-poke-Apart, get32-poke_self}
use nvds.Nvm.Parts.{get32-Agree}
use nvds.Allocator.{max_block_size}
use nvds.Allocator.Tiling.{Blocks}
use nvds.Allocator.Heap.{Held, Used}
use nvds.Allocator.Heap.Allocated.{Allocated}
use nvds.Allocator.Heap.Served.{HasHeap}
use nvds.Allocator.Heap.Fresh.{new-Apart}
use nvds.Allocator.Heap.Stored.{stored-HasHeap, beyond-HasHeap}
use nvds.Request.{Request, IsRequest}
use nvds.Tablet.{hash_table_size, object_size, object, slot_of}
use nvds.Tablet.Chain.{Entry, Chain, length-key, length-take}
use nvds.Tablet.Table.{Housed, slot, HasTable, Chain-same}
use nvds.Tablet.Written.{entry, written, length-take-drop, get32-written, Stored-written}

-- The bucket of a request's key
abbrev pub bucket : Request → ℕ
bucket r = r.key_hash % hash_table_size

-- The size of the object of a request
abbrev pub needed : Request → ℕ
needed r = object_size + r.key_len + r.val_len

Chain-small : (m : Memory) (p : ℕ) (es : List Entry) → Chain m p es → p < 2 ^ 32
Chain-small m p [] c = omega (arith, c)
Chain-small m p (e ∷ es) c = omega (arith, c.0, c.1.inside)

module _ (g g' : Blocks) (m : Memory) (n a : ℕ) (part : Allocated g n a g') where
  Housed-kept : (e : Entry) → Housed g e → Housed g' e
  Housed-kept e h =
      let same = part.others h.block h.some h.used in
      record {
        block = h.block;
        some = omega (arith, h.some, same.0);
        used = same.1;
        above = h.above;
        below = omega (arith, h.below, same.0);
      }

  All-Housed-kept : (es : List Entry) → All (Housed g) es → All (Housed g') es
  All-Housed-kept [] h = h
  All-Housed-kept (e ∷ es) h = (Housed-kept e h.0, All-Housed-kept es h.1)

-- The memory `m` with the blocks `g` holds the table `t`; the block of `n` bytes at `a` was handed out
-- in `m'` with the blocks `g'`.
module _ (g g' : Blocks) (m m' : Memory) (t : ℕ → List Entry) (r : Request) (n a : ℕ)
    (table : HasTable g m t) (h' : HasHeap g' m') (w : IsRequest r) (part : Allocated g n a g')
    (big : 32 ≤ n) (room : needed r + 4 ≤ n) (small : n ≤ max_block_size)
    (kept : (x : ℕ) → Held g x → m' x ≡ m x) where
  abbrev head : ℕ
  head = get32 m (slot (bucket r))

  abbrev stored : Memory
  stored = written m' (a + 4) head r

  abbrev pub linked : Memory
  linked = poke stored (slot_of r) (bytes32 (a + 4))

  here : 0 < g'.sizes a
  here = omega (arith, part.size, big)

  in_table : bucket r < hash_table_size
  in_table = omega arith

  length-data : length (take (r.key_len + r.val_len) r.contents) ≡ r.key_len + r.val_len
  length-data = length-take (r.key_len + r.val_len) r.contents (omega (arith, w.sized))

  stored-Held : (x : ℕ) → Held g x → stored x ≡ m x
  stored-Held x h =
      let away = new-Apart g g' m m' n a in
      poke_outside _ (16 + (a + 4)) (take (r.key_len + r.val_len) r.contents) x
        (away _ _ table.heap h' big part (omega arith) (omega (arith, length-data, room)) x h)
      ∙ (poke_outside m' (a + 4) (object head r) x
            (away _ _ table.heap h' big part (omega arith) (omega (arith, room)) x h)
          ∙ kept x h)

  stored-heap : HasHeap g' stored
  stored-heap =
      let size = part.size in
      let first =
        stored-HasHeap g' m' h' a (a + 4) (object head r) here part.used (omega arith)
          (omega (arith, room, size)) in
      stored-HasHeap g' _ first a (16 + (a + 4)) _ here part.used (omega arith)
        (omega (arith, room, size, length-data))

  linked-heap : HasHeap g' linked
  linked-heap = beyond-HasHeap g' stored (slot_of r) (bytes32 (a + 4)) stored-heap (omega arith)

  linked-Used : (x : ℕ) → Used g' x → linked x ≡ stored x
  linked-Used x u =
      poke_outside stored (slot_of r) (bytes32 (a + 4)) x
        (inr (omega (arith, u.below, h'.heap.tiling.bounds u.block u.some)))

  new-Housed : Housed g' (entry (a + 4) r)
  new-Housed =
      let kl = length-key r w in
      let vl = length-take-drop r.key_len r.val_len r.contents w.sized in
      record {
        block = a;
        some = here;
        used = part.used;
        above = omega arith;
        below = omega (arith, kl, vl, room, part.size);
      }

  new-All : All (Housed g') (entry (a + 4) r ∷ t (bucket r))
  new-All = (
    new-Housed,
    All-Housed-kept g g' m n a part (t (bucket r)) (table.housed (bucket r) in_table),
  )

  -- The entries that were there are there still.
  old-Chain : (i p : ℕ) → i < hash_table_size → Chain m p (t i) → Chain linked p (t i)
  old-Chain i p h c =
      Chain-same g' stored linked linked-Used (t i) p
        (All-Housed-kept g g' m n a part (t i) (table.housed i h))
        (Chain-same g m stored (λ x u. stored-Held x (inl u)) (t i) p (table.housed i h) c)

  slot-other : (i : ℕ) → i ≢ bucket r → get32 linked (slot i) ≡ get32 m (slot i)
  slot-other i h =
      get32-poke-Apart stored (slot_of r) (bytes32 (a + 4)) (slot i) (ground (arith, h))
      ∙ get32-Agree m stored (slot i) (λ x l k. stored-Held x (inr (omega (arith, l))))

  new-Chain : Chain linked (get32 linked (slot (bucket r))) (entry (a + 4) r ∷ t (bucket r))
  new-Chain =
      let bounds = h'.heap.tiling.bounds a here in
      let size = part.size in
      let at_slot : get32 linked (slot (bucket r)) ≡ a + 4 =
        get32-poke_self stored (slot_of r) (a + 4) (omega (arith, bounds)) in
      let old = table.buckets (bucket r) in_table in
      let fits =
        Stored-written m' (a + 4) head r w (omega arith) (omega (arith, bounds, room, size))
          (omega (arith, room, small)) (omega (arith, room, small)) in
      let next = get32-written m' (a + 4) head r (Chain-small m head (t (bucket r)) old) in
      let kept_old =
        Chain-same g m stored (λ x u. stored-Held x (inl u)) (t (bucket r)) head
          (table.housed (bucket r) in_table) old in
      let whole : Chain stored (a + 4) (entry (a + 4) r ∷ t (bucket r)) =
        (refl, fits, rw next kept_old) in
      rw at_slot (
        Chain-same g' stored linked linked-Used (entry (a + 4) r ∷ t (bucket r)) (a + 4) new-All
          whole)

  pub linked-HasTable : HasTable g' linked (update t (bucket r) (entry (a + 4) r ∷ t (bucket r)))
  linked-HasTable = record {
    heap = linked-heap;
    buckets = λ i h. elim (Bool-cases (i == bucket r)) [
      | inl same ↦
          let at_bucket : i ≡ bucket r = ground (arith, same) in rw same (rw at_bucket new-Chain)
      | inr other ↦
          rw (other, slot-other i (λ z. ground (arith, z, other)))
            (old-Chain i _ h (table.buckets i h))
    ];
    housed = λ i h. elim (Bool-cases (i == bucket r)) [
      | inl same ↦ rw same new-All
      | inr other ↦ rw other (All-Housed-kept g g' m n a part (t i) (table.housed i h))
    ];
  }

-- The table is as it was where `Alloc` returned null.
pub kept-HasTable :
    (g : Blocks) (m m' : Memory) (t : ℕ → List Entry)
    → HasTable g m t
    → HasHeap g m'
    → ((x : ℕ) → Held g x → m' x ≡ m x)
    → HasTable g m' t
kept-HasTable g m m' t table h kept = record {
  heap = h;
  buckets = λ i k.
      let at_slot : get32 m' (slot i) ≡ get32 m (slot i) =
        get32-Agree m m' (slot i) (λ x l u. kept x (inr (omega (arith, l)))) in
      rw at_slot (
        Chain-same g m m' (λ x u. kept x (inl u)) (t i) (get32 m (slot i)) (table.housed i k)
          (table.buckets i k));
  housed = table.housed;
}
