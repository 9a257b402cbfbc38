-- ===== src/Allocator/Heap/Finish.antt =====
-- What `FreeBlock` (src/allocator.cc) does after its two tests: the size is written if it changed, and
-- the block is tagged free and pushed on its list.
use nvds.Base.{
  ℕ, ◌+◌, ◌-◌, ◌%◌, ◌≤◌, ◌<◌, ◌≡◌, ◌≢◌, inl, inr, arith, refl, false, ◌==◌, Bool-cases, add32,
  sub32, update,
}
use nvds.Command.{◌>>◌, write32}
use nvds.Allocator.{mask, or_tag, read_the_prev_free_tag, update_size, push_free}
use nvds.Allocator.Words.{Words, IsBlockOffset, IsFooterOffset, first_block, end}
use nvds.Allocator.Words.Runs.{
  Open, Runs, Runs-bind, Runs-then, Runs-pure, write-header, write-footer,
}
use nvds.Allocator.Lists.{IsLists, IsLists-Same, pushed, pushed-IsLists}
use nvds.Allocator.Tiling.{Blocks, given_words, SameTags, IsTiling-Same}
use nvds.Allocator.Heap.{
  IsHeap, Held, list_of, listed, list_of-IsListOffset, Open-inside, Open-after,
}
use nvds.Allocator.Heap.Steps.{Runs-prev_tag}
use nvds.Allocator.Heap.Push.{Pushable, Runs-push_free}
use nvds.Allocator.Heap.Loose.{loose-Pushable}
use nvds.Allocator.Heap.Merge.{Others, Loose, Open-heads, Open-fields}
use nvds.Allocator.Heap.Freed.{Leads, resized}

module _ (g : Blocks) (w : Words) (heap : IsHeap g w) (a : ℕ) (here : 0 < g.sizes a)
    (used : g.free a ≡ false) where
  resized-lists :
      (l : ℕ → ℕ) (at total c : ℕ) (v : Words)
      → IsLists l v
      → IsLists l (given_words c (resized g w heap a here used at total v))
  resized-lists l at total c v t =
      IsLists-Same l l v _
        (elim (Bool-cases (total == g.sizes a)) [
          | inl e ↦
              rw e (record {
                listed = λ b. refl;
                head = λ i. refl;
                prev = λ b. refl;
                next = λ b. refl;
              })
          | inr e ↦
              rw e (record {
                listed = λ b. refl;
                head = λ i. refl;
                prev = λ b. refl;
                next = λ b. refl;
              })
        ])
        t

  resized-tags :
      (l : ℕ → ℕ) (at total : ℕ) (v : Words)
      → Loose g w heap a here used l v
      → SameTags
          (given_words (at + total) (resized g w heap a here used at total w))
          (given_words (at + total) (resized g w heap a here used at total v))
  resized-tags l at total v loose = record {
    header = λ c. ground (arith, loose.header c, loose.header at, loose.header (at + total));
    footer = λ c. ground (arith, loose.footer c);
  }

  module _ (at total : ℕ) (l : ℕ → ℕ) (v : Words) (loose : Loose g w heap a here used l v)
      (leads : Leads g w heap a here used at total l) where
    at-bounds :
        (first_block ≤ at) × (at % 16 ≡ 4) × (32 ≤ total) × (total % 16 ≡ 0) × (at + total ≤ end)
    at-bounds =
        let t = leads.tiling in
        let big = t.bounds at (t.block at leads.free) in ground (arith, big, leads.size)

    pub freed-IsHeap : IsHeap leads.blocks (
        pushed
          (list_of total)
          at
          (given_words (at + total) (resized g w heap a here used at total v)))
    freed-IsHeap = record {
      tiling =
          IsTiling-Same leads.blocks
            (given_words (at + total) (resized g w heap a here used at total v)) _
            (record { header = λ c. refl; footer = λ c. refl })
            (IsTiling-Same leads.blocks _ _ (resized-tags l at total v loose) leads.tiling);
      lists =
          IsLists-Same (update l at (list_of total)) (listed leads.blocks) _ _
            (record { listed = leads.listed; head = λ i. refl; prev = λ b. refl; next = λ b. refl })
            (pushed-IsLists l _ (resized-lists l at total (at + total) v loose.lists)
              (list_of total) at
              (list_of-IsListOffset total (omega (arith, at-bounds)) (omega (arith, at-bounds)))
              leads.loose (λ z. omega (arith, at-bounds, z)));
    }

    -- What is open in the heap after is open now.
    weaken : (c : ℕ) → Open (Held leads.blocks) c → Open (Others g w heap a here used) c
    weaken c o x (inr past) = o x (inr past)
    weaken c o x (inl u) =
        let apart : u.block ≢ a = λ z. ground (arith, u.used, z) in
        let busy : g.free u.block ≡ false = ground (arith, u.used, apart) in
        let same = leads.freed.others u.block u.some busy apart in
        o x (
          inl (record {
            block = u.block;
            some = omega (arith, u.some, same.0);
            used = same.1;
            above = u.above;
            below = omega (arith, u.below, same.0);
          }))

    Open-within : (c : ℕ) → at ≤ c → c + 4 ≤ at + total → Open (Others g w heap a here used) c
    Open-within c l h =
        weaken c
          (Open-inside leads.blocks _ leads.tiling at c leads.free l (omega (arith, leads.size)))

    Runs-update_size :
        Runs
          (Others g w heap a here used)
          (update_size at total (g.sizes a))
          v
          tt
          (resized g w heap a here used at total v)
    unfolding update_size
    Runs-update_size = elim (Bool-cases (total == g.sizes a)) [
      | inl e ↦ rw e (Runs-pure (Others g w heap a here used) tt v)
      | inr e ↦
          let k = Others g w heap a here used in
          let block : IsBlockOffset at =
            (omega (arith, at-bounds), omega (arith, at-bounds), omega (arith, at-bounds)) in
          let foot : IsFooterOffset (at + total - 4) =
            (omega (arith, at-bounds), omega (arith, at-bounds), omega (arith, at-bounds)) in
          let at_foot : sub32 (add32 at total) 4 ≡ at + total - 4 = omega (arith, at-bounds) in
          rw (e, at_foot)
            (Runs-bind k (read_the_prev_free_tag at) _ v v _ _ _ (Runs-prev_tag k at v block) (
              Runs-then k (write32 at (or_tag (mask (v.header at)) total)) _ v _ _ _
                (write-header k at (or_tag (mask (v.header at)) total) v block
                  (ground (arith, at-bounds))
                  (Open-within at (omega arith) (omega (arith, at-bounds))))
                (write-footer k (at + total - 4) total _ foot (omega (arith, at-bounds)) (
                  Open-within (at + total - 4) (omega (arith, at-bounds))
                    (omega (arith, at-bounds))))))
    ]

    Runs-Pushable :
        Pushable
          (Others g w heap a here used)
          (resized g w heap a here used at total v)
          (list_of total)
          at
    Runs-Pushable =
        let k = Others g w heap a here used in
        let block : IsBlockOffset at =
          (omega (arith, at-bounds), omega (arith, at-bounds), omega (arith, at-bounds)) in
        let list =
          list_of-IsListOffset total (omega (arith, at-bounds)) (omega (arith, at-bounds)) in
        let p : Pushable k v (list_of total) at =
          loose-Pushable g w heap k (Open-heads g w heap a here used)
            (Open-fields g w heap a here used) l v loose (list_of total) at list block
            (Open-within (at + 4) (omega arith) (omega (arith, at-bounds)))
            (Open-within (at + 8) (omega arith) (omega (arith, at-bounds))) in
        elim (Bool-cases (total == g.sizes a)) [
          | inl e ↦ rw e p
          | inr e ↦ rw e (record {
            block = p.block;
            open_prev = p.open_prev;
            open_next = p.open_next;
            list = p.list;
            open_list = p.open_list;
            head = p.head;
          })
        ]

    -- The rest of `FreeBlock` after the two tests
    pub Runs-finish :
        Runs
          (Others g w heap a here used)
          (update_size at total (g.sizes a) >> push_free at total)
          v
          tt
          (pushed
            (list_of total)
            at
            (given_words (at + total) (resized g w heap a here used at total v)))
    Runs-finish =
        let k = Others g w heap a here used in
        let u = resized g w heap a here used at total v in
        let after : IsBlockOffset (at + total) =
          (omega (arith, at-bounds), omega (arith, at-bounds), omega (arith, at-bounds)) in
        let size = leads.size in
        let o : Open k (at + total) = weaken (at + total) (
          rw size at
            (Open-after leads.blocks _ leads.tiling at (leads.tiling.block at leads.free))) in
        let p = Runs-Pushable in
        Runs-then k (update_size at total (g.sizes a)) _ v u _ _ Runs-update_size
          (Runs-push_free k u at total (omega (arith, at-bounds)) after o p)
