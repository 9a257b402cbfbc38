-- ===== src/Allocator/Lists.antt =====
-- The free lists of the allocator (src/allocator.cc): doubly linked lists whose heads are words, with 0
-- for the end, and the two steps that change them.
use nvds.Base.{zero, suc, inl, inr, ◌<◌, ℕ, ◌≡◌, ◌≢◌, ◌⊎◌, arith, ◌==◌, if◌then◌else◌, update}
use nvds.Allocator.Words.{Words, IsListOffset}

-- `listed a` is the offset of the list that the block `a` is in, or 0.
pub record IsLists (listed : ℕ → ℕ) (w : Words) : Type 0 where
  pub null : listed 0 ≡ 0
  pub heads :
      (i : ℕ)
      → IsListOffset i
      → (w.head i ≡ 0) ⊎ ((listed (w.head i) ≡ i) × (w.prev (w.head i) ≡ 0))
  pub prevs :
      (a : ℕ)
      → listed a ≢ 0
      → ((w.prev a ≡ 0) × (w.head (listed a) ≡ a))
        ⊎ ((listed (w.prev a) ≡ listed a) × (w.next (w.prev a) ≡ a))
  pub nexts :
      (a : ℕ)
      → listed a ≢ 0
      → (w.next a ≡ 0) ⊎ ((listed (w.next a) ≡ listed a) × (w.prev (w.next a) ≡ a))
  -- A block's number in its list grows from the head on, so that no list is a cycle.
  pub rank : ℕ → ℕ
  pub ordered : (a : ℕ) → listed a ≢ 0 → (w.prev a ≡ 0) ⊎ (rank (w.prev a) < rank a)

-- The block `a` is taken out of the list at `i`.
abbrev pub removed : (i a : ℕ) → Words → Words
removed i a w = record w {
  head = if w.prev a == 0 then update w.head i (w.next a) else w.head;
  next = if w.prev a == 0 then w.next else update w.next (w.prev a) (w.next a);
  prev = if w.next a == 0 then w.prev else update w.prev (w.next a) (w.prev a);
}

-- The block `a` becomes the head of the list at `i`.
abbrev pub pushed : (i a : ℕ) → Words → Words
pushed i a w =
    let h = w.head i in
    let prev = update w.prev a 0 in
    record w {
      head = update w.head i a;
      next = update w.next a h;
      prev = if h == 0 then prev else update prev h a;
    }

-- The list of a block is not empty.
head-some :
    (listed : ℕ → ℕ) (w : Words) (l : IsLists listed w) (n a : ℕ)
    → l.rank a < n
    → listed a ≢ 0
    → w.head (listed a) ≢ 0
head-some listed w l zero a h here = absurd (omega (arith, h))
head-some listed w l (suc n) a h here = elim (l.prevs a here) [
  | inl (first, e) ↦ λ z. here (ground (arith, l.null, e, z))
  | inr (same, e) ↦
      let there : listed (w.prev a) ≢ 0 = λ z. here (ground (arith, same, z)) in
      let less : l.rank (w.prev a) < n = ground (arith, l.ordered a here, l.null, there, h) in
      let ih = head-some listed w l n (w.prev a) less there in λ z. ih (rw same z)
]

pub listed-head :
    (listed : ℕ → ℕ) (w : Words) (l : IsLists listed w) (a : ℕ)
    → listed a ≢ 0
    → w.head (listed a) ≢ 0
listed-head listed w l a here = head-some listed w l (suc (l.rank a)) a (omega arith) here

module _ (listed : ℕ → ℕ) (w : Words) (l : IsLists listed w) (a : ℕ) (here : listed a ≢ 0) where
  pub removed-IsLists : IsLists (update listed a 0) (removed (listed a) a w)
  removed-IsLists = record {
    null = ground (arith, l.null, here);
    heads = λ j h. ground (arith, l.null, l.heads j h, l.prevs a here, l.nexts a here, h);
    prevs = λ b h. ground (arith, l.null, l.prevs b, l.nexts b, l.prevs a here, l.nexts a here, h);
    nexts = λ b h. ground (arith, l.null, l.prevs b, l.nexts b, l.prevs a here, l.nexts a here, h);
    rank = l.rank;
    ordered =
        λ b h. ground (arith, l.null, l.prevs b, l.nexts a here, l.ordered b, l.ordered a here, h);
  }

module _ (listed : ℕ → ℕ) (w : Words) (l : IsLists listed w) (i a : ℕ) (list : IsListOffset i)
    (free : listed a ≡ 0) (some : a ≢ 0) where
  pub pushed-IsLists : IsLists (update listed a i) (pushed i a w)
  pushed-IsLists = record {
    null = ground (arith, l.null, some);
    heads = λ j h. ground (arith, l.null, l.heads j h, l.heads i list, free, some, h);
    prevs =
        λ b h. ground (arith, l.null, l.prevs b, l.nexts b, l.heads i list, free, some, h, list);
    nexts =
        λ b h. ground (arith, l.null, l.prevs b, l.nexts b, l.heads i list, free, some, h, list);
    rank = update (λ b. suc (l.rank b)) a 0;
    ordered = λ b h. ground (arith, l.null, l.prevs b, l.ordered b, l.heads i list, free, some, h);
  }

-- Lists that are the same, block by block and word by word
pub record SameLists (k l : ℕ → ℕ) (v w : Words) : Type 0 where
  pub listed : (a : ℕ) → l a ≡ k a
  pub head : (i : ℕ) → w.head i ≡ v.head i
  pub prev : (a : ℕ) → w.prev a ≡ v.prev a
  pub next : (a : ℕ) → w.next a ≡ v.next a

pub IsLists-Same : (k l : ℕ → ℕ) (v w : Words) → SameLists k l v w → IsLists k v → IsLists l w
IsLists-Same k l v w s t = record {
  null = ground (arith, s.listed 0, t.null);
  heads = λ i h. ground (arith, t.heads i h, s.head i, s.listed (v.head i), s.prev (v.head i), h);
  prevs = λ a h. ground (
    arith,
    t.prevs a,
    s.listed a,
    s.prev a,
    s.head (l a),
    s.listed (v.prev a),
    s.next (v.prev a),
    h,
  );
  nexts = λ a h.
      ground (arith, t.nexts a, s.listed a, s.next a, s.listed (v.next a), s.prev (v.next a), h);
  rank = t.rank;
  ordered = λ a h. ground (arith, t.ordered a, s.listed a, s.prev a, h);
}
