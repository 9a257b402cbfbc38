-- ===== src/Allocator/Heap/Loose.antt =====
-- A heap some of whose free blocks were taken off their lists, as `FreeBlock` (src/allocator.cc) does
-- with the neighbours that it joins.
use nvds.Base.{ℕ, ◌+◌, ◌≡◌, ◌≢◌, inl, inr, arith, refl, ◌∙◌, true, update}
use nvds.Allocator.Words.{Words, IsListOffset, IsBlockOffset}
use nvds.Allocator.Words.Runs.{Open}
use nvds.Allocator.Lists.{IsLists, removed, removed-IsLists}
use nvds.Allocator.Tiling.{Blocks}
use nvds.Allocator.Heap.{
  IsHeap, list_of, listed, list-IsListOffset, block-IsBlockOffset, after-IsBlockOffset,
}
use nvds.Allocator.Heap.Links.{listed-free}
use nvds.Allocator.Heap.Steps.{Removable}
use nvds.Allocator.Heap.Push.{Pushable}

module _ (g : Blocks) (w₀ : Words) (heap : IsHeap g w₀) (Kept : ℕ → Type 0)
    (heads : (i : ℕ) → IsListOffset i → Open Kept i)
    (fields : (c : ℕ) → g.free c ≡ true → Open Kept (c + 4) × Open Kept (c + 8)) where
  pub record IsLoose (l : ℕ → ℕ) (w : Words) : Type 0 where
    pub lists : IsLists l w
    pub listed : (c : ℕ) → l c ≢ 0 → l c ≡ listed g c
    pub header : (c : ℕ) → w.header c ≡ w₀.header c
    pub footer : (c : ℕ) → w.footer c ≡ w₀.footer c

  pub all-IsLoose : IsLoose (listed g) w₀
  all-IsLoose = record {
    lists = heap.lists;
    listed = λ c h. refl;
    header = λ c. refl;
    footer = λ c. refl;
  }

  module _ (l : ℕ → ℕ) (w : Words) (loose : IsLoose l w) where
    loose-free : (c : ℕ) → l c ≢ 0 → g.free c ≡ true
    loose-free c h = listed-free g w₀ heap c (λ z. h (loose.listed c h ∙ z))

    loose-block : (c : ℕ) → l c ≢ 0 → IsBlockOffset c
    loose-block c h = block-IsBlockOffset g w₀ heap.tiling c (heap.tiling.block c (loose-free c h))

    neighbour : (a c : ℕ) → l a ≢ 0 → l c ≡ l a → l c ≢ 0
    neighbour a c h e z = h (cc)

    pub loose-Removable : (a : ℕ) → l a ≢ 0 → Removable Kept w a (g.sizes a)
    loose-Removable a h =
        let t = heap.tiling in
        let free = loose-free a h in
        let some = t.block a free in
        let big = t.bounds a some in
        let list : IsListOffset (list_of (g.sizes a)) =
          rw free at (list-IsListOffset g w₀ t a free) in
        record {
          block = block-IsBlockOffset g w₀ t a some;
          big = omega (arith, big);
          after = after-IsBlockOffset g w₀ t a some;
          free = rw (loose.header (a + g.sizes a)) (rw free at (t.tag a some));
          list = list;
          open_list = heads (list_of (g.sizes a)) list;
          prev = elim (loose.lists.prevs a h) [
            | inl e ↦ inl e.0
            | inr e ↦
                let c = neighbour a (w.prev a) h e.0 in
                inr (loose-block (w.prev a) c, (fields (w.prev a) (loose-free (w.prev a) c)).1)
          ];
          next = elim (loose.lists.nexts a h) [
            | inl e ↦ inl e
            | inr e ↦
                let c = neighbour a (w.next a) h e.0 in
                inr (loose-block (w.next a) c, (fields (w.next a) (loose-free (w.next a) c)).0)
          ];
        }

    pub removed-IsLoose :
        (a : ℕ) → l a ≢ 0 → IsLoose (update l a 0) (removed (list_of (g.sizes a)) a w)
    removed-IsLoose a h =
        let same : l a ≡ list_of (g.sizes a) = rw (loose-free a h) at (loose.listed a h) in
        record {
          lists = rw same at (removed-IsLists l w loose.lists a h);
          listed = λ c k. ground (arith, k, loose.listed c);
          header = loose.header;
          footer = loose.footer;
        }

    pub loose-Pushable :
        (i a : ℕ)
        → IsListOffset i
        → IsBlockOffset a
        → Open Kept (a + 4)
        → Open Kept (a + 8)
        → Pushable Kept w i a
    loose-Pushable i a list block o₄ o₈ = record {
      block = block;
      open_prev = o₄;
      open_next = o₈;
      list = list;
      open_list = heads i list;
      head = elim (loose.lists.heads i list) [
        | inl e ↦ inl e
        | inr e ↦
            let c : l (w.head i) ≢ 0 = λ z. omega (arith, list, z, e.0) in
            inr (loose-block (w.head i) c, (fields (w.head i) (loose-free (w.head i) c)).0)
      ];
    }
