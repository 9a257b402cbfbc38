-- ===== src/Allocator/Heap/Stored.antt =====
-- What a tablet writes to a block in use does not disturb the heap.
use nvds.Base.{
  ℕ, ◌+◌, ◌-◌, ◌≤◌, ◌<◌, ◌≡◌, ◌≢◌, inl, inr, arith, refl, ◌∙◌, true, false, List, length,
}
use nvds.Nvm.{Memory, get32, poke}
use nvds.Nvm.Words.{Apart, get32-poke-Apart}
use nvds.Allocator.{size}
use nvds.Allocator.Words.{Words, Shows, IsListOffset, end}
use nvds.Allocator.Lists.{IsLists}
use nvds.Allocator.Tiling.{Blocks, IsTiling}
use nvds.Allocator.Heap.{
  IsHeap, listed, list-IsListOffset, block-IsBlockOffset, after-IsBlockOffset,
  footer-IsFooterOffset,
}
use nvds.Allocator.Heap.Links.{listed-free}
use nvds.Allocator.Heap.Served.{HasHeap}

-- The words of a memory
abbrev pub words_of : Memory → Words
words_of m = record {
  head = get32 m;
  prev = λ b. get32 m (b + 4);
  next = λ b. get32 m (b + 8);
  header = get32 m;
  footer = get32 m;
}

words_of-Shows : (m : Memory) → Shows m (words_of m)
words_of-Shows m = record {
  head = λ i h. refl;
  prev = λ b h. refl;
  next = λ b h. refl;
  header = λ b h. refl;
  footer = λ c h. refl;
}

-- The words that a heap depends on are the same in both.
pub record SameHeap (g : Blocks) (v w : Words) : Type 0 where
  pub head : (i : ℕ) → IsListOffset i → w.head i ≡ v.head i
  pub prev : (a : ℕ) → g.free a ≡ true → w.prev a ≡ v.prev a
  pub next : (a : ℕ) → g.free a ≡ true → w.next a ≡ v.next a
  pub header : (a : ℕ) → 0 < g.sizes a → w.header a ≡ v.header a
  pub after : (a : ℕ) → 0 < g.sizes a → w.header (a + g.sizes a) ≡ v.header (a + g.sizes a)
  pub footer :
      (a : ℕ) → g.free a ≡ true → w.footer (a + g.sizes a - 4) ≡ v.footer (a + g.sizes a - 4)
  pub last : w.header end ≡ v.header end

module _ (g : Blocks) (v w : Words) (s : SameHeap g v w) (heap : IsHeap g v) where
  same-IsTiling : IsTiling g w
  same-IsTiling =
      let t = heap.tiling in
      record {
        block = t.block;
        bounds = t.bounds;
        apart = t.apart;
        next = t.next;
        size = λ a h. rw (s.header a h) (t.size a h);
        tag = λ a h. rw (s.after a h) (t.tag a h);
        footer = λ a h. rw (s.footer a h) (t.footer a h);
        tagged = λ a h k. t.tagged a h (rw (s.header a h) at k);
        last = rw s.last t.last;
      }

  linked : (a c : ℕ) → listed g a ≢ 0 → listed g c ≡ listed g a → g.free c ≡ true
  linked a c h e = listed-free g v heap c (λ z. h (cc))

  same-IsLists : IsLists (listed g) w
  same-IsLists =
      let l = heap.lists in
      record {
        null = l.null;
        heads = λ i h. rw (s.head i h) (elim (l.heads i h) [
          | inl e ↦ inl e
          | inr e ↦
              let free = listed-free g v heap (v.head i) (λ z. omega (arith, h, z, e.0)) in
              inr (e.0, rw (s.prev (v.head i) free) e.1)
        ]);
        prevs = λ a h.
            let free = listed-free g v heap a h in
            let list = list-IsListOffset g v heap.tiling a free in
            rw (s.prev a free) (elim (l.prevs a h) [
              | inl e ↦ inl (e.0, s.head (listed g a) list ∙ e.1)
              | inr e ↦ inr (e.0, s.next (v.prev a) (linked a (v.prev a) h e.0) ∙ e.1)
            ]);
        rank = l.rank;
        ordered = λ a h. rw (s.prev a (listed-free g v heap a h)) (l.ordered a h);
        nexts = λ a h. rw (s.next a (listed-free g v heap a h)) (elim (l.nexts a h) [
          | inl e ↦ inl e
          | inr e ↦ inr (e.0, rw (s.prev (v.next a) (linked a (v.next a) h e.0)) e.1)
        ]);
      }

module _ (g : Blocks) (m : Memory) (h : HasHeap g m) (a c : ℕ) (bs : List ℕ) (here : 0 < g.sizes a)
    (used : g.free a ≡ false) (above : a + 4 ≤ c) (below : c + length bs ≤ a + g.sizes a) where
  away : (x v : ℕ) → Apart c (length bs) x 4 → get32 m x ≡ v → get32 (poke m c bs) x ≡ v
  away x v apart e = get32-poke-Apart m c bs x apart ∙ e

  -- A word that is in no block in use, or is the header of one
  header-away : (b : ℕ) → 0 < g.sizes b → Apart c (length bs) b 4
  header-away b k =
      let t = h.heap.tiling in
      ground (
        arith,
        above,
        below,
        k,
        here,
        t.apart a b here k,
        t.apart b a k here,
        t.bounds a here,
        t.bounds b k,
      )

  after-away : (b : ℕ) → 0 < g.sizes b → Apart c (length bs) (b + g.sizes b) 4
  after-away b k =
      let t = h.heap.tiling in
      elim (t.next b k) [
        | inl e ↦ inl (omega (arith, e, below, t.bounds a here))
        | inr some ↦ header-away (b + g.sizes b) some
      ]

  free-away : (b x : ℕ) → g.free b ≡ true → b ≤ x → x + 4 ≤ b + g.sizes b → Apart c (length bs) x 4
  free-away b x free l r =
      let t = h.heap.tiling in
      let k = t.block b free in
      ground
        (arith, above, below, k, here, free, used, t.apart a b here k, t.apart b a k here, l, r)

  stored-SameHeap : SameHeap g h.words (words_of (poke m c bs))
  stored-SameHeap =
      let w = h.words in
      let t = h.heap.tiling in
      record {
        head = λ i k.
            away i (w.head i) (inr (omega (arith, above, t.bounds a here, k))) (h.shows.head i k);
        prev = λ b f.
            let big = t.bounds b (t.block b f) in
            away (b + 4) (w.prev b) (free-away b (b + 4) f (omega arith) (omega (arith, big)))
              (h.shows.prev b (block-IsBlockOffset g w t b (t.block b f)));
        next = λ b f.
            let big = t.bounds b (t.block b f) in
            away (b + 8) (w.next b) (free-away b (b + 8) f (omega arith) (omega (arith, big)))
              (h.shows.next b (block-IsBlockOffset g w t b (t.block b f)));
        header = λ b k.
            away b (w.header b) (header-away b k)
              (h.shows.header b (block-IsBlockOffset g w t b k));
        after = λ b k.
            away (b + g.sizes b) (w.header (b + g.sizes b)) (after-away b k)
              (h.shows.header (b + g.sizes b) (after-IsBlockOffset g w t b k));
        footer = λ b f.
            let k = t.block b f in
            let big = t.bounds b k in
            away (b + g.sizes b - 4) (w.footer (b + g.sizes b - 4))
              (free-away b (b + g.sizes b - 4) f (omega (arith, big)) (omega (arith, big)))
              (h.shows.footer (b + g.sizes b - 4) (
                footer-IsFooterOffset g w t b (g.sizes b) k (omega (arith, big)) (omega arith)
                  (omega (arith, big))));
        last =
            away end (w.header end) (inl (omega (arith, below, t.bounds a here)))
              (h.shows.header end (omega arith, omega arith, refl));
      }

  -- Bytes that are stored in a block in use, past its header, leave the memory a heap with the same
  -- blocks; the block's last word may be among them.
  pub stored-HasHeap : HasHeap g (poke m c bs)
  stored-HasHeap = record {
    words = words_of (poke m c bs);
    shows = words_of-Shows (poke m c bs);
    heap = record {
      tiling = same-IsTiling g h.words (words_of (poke m c bs)) stored-SameHeap h.heap;
      lists = same-IsLists g h.words (words_of (poke m c bs)) stored-SameHeap h.heap;
    };
  }

-- Bytes that are stored past the 64 MB leave it a heap too.
pub beyond-HasHeap :
    (g : Blocks) (m : Memory) (c : ℕ) (bs : List ℕ)
    → HasHeap g m
    → size ≤ c
    → HasHeap g (poke m c bs)
beyond-HasHeap g m c bs h past =
    let away : (x v : ℕ) → x + 4 ≤ size → get32 m x ≡ v → get32 (poke m c bs) x ≡ v =
      λ x v l e. get32-poke-Apart m c bs x (inr (omega (arith, l, past))) ∙ e in
    let shows = h.shows in
    record {
      words = h.words;
      shows = record {
        head = λ i k. away i (h.words.head i) (omega (arith, k)) (shows.head i k);
        prev = λ b k. away (b + 4) (h.words.prev b) (omega (arith, k)) (shows.prev b k);
        next = λ b k. away (b + 8) (h.words.next b) (omega (arith, k)) (shows.next b k);
        header = λ b k. away b (h.words.header b) (omega (arith, k)) (shows.header b k);
        footer = λ b k. away b (h.words.footer b) (omega (arith, k)) (shows.footer b k);
      };
      heap = h.heap;
    }
