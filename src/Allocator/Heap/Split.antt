-- ===== src/Allocator/Heap/Split.antt =====
-- What `SplitBlock` (src/allocator.cc) does to the words of a heap.
use nvds.Base.{
  ℕ, ◌+◌, ◌-◌, ◌^◌, ◌≤◌, ◌<◌, ◌≡◌, inl, inr, arith, true, false, not, ltb, ◌==◌, if◌then◌else◌,
  add32, sub32, update,
}
use nvds.Command.{Cmd, pure, assert, ◌>>=◌, ◌>>◌, read32, write32}
use nvds.Allocator.{
  prev_field, next_field, mask, set_mask, or_tag, reset_the_free_tag, read_the_prev_free_tag,
  free_list_by_block_size, split_block, link_back,
}
use nvds.Allocator.Words.{Words, IsBlockOffset, IsFooterOffset}
use nvds.Allocator.Words.Runs.{
  Open, Runs, Runs-bind, Runs-then, Runs-pure, Runs-assert, read-head, read-next, write-head,
  write-prev, write-next, write-header, write-footer,
}
use nvds.Allocator.Lists.{pushed}
use nvds.Allocator.Tiling.{taken_words, split_words}
use nvds.Allocator.Heap.{list_of}
use nvds.Allocator.Heap.Steps.{Runs-reset_tag, Runs-prev_tag, Runs-free_list}
use nvds.Allocator.Heap.Take.{Takeable, popped, next-fits}
use nvds.Allocator.Heap.Push.{Pushable, head-fits, Runs-link_back}

module _ (Kept : ℕ → Type 0) where
  -- What splitting `a` into `n` and `k` bytes relies on
  pub record Splittable (w : Words) (a n k : ℕ) : Type 0 where
    pub big : (32 ≤ n) × (32 ≤ k) × (n + k < 2 ^ 30)
    pub take : Takeable Kept w (list_of (n + k)) a (n + k)
    pub front_footer : IsFooterOffset (a + n - 4)
    pub open_front_footer : Open Kept (a + n - 4)
    pub open_block : Open Kept a
    pub rest : IsBlockOffset (a + n)
    pub open_rest : Open Kept (a + n)
    pub rest_footer : IsFooterOffset (a + n + k - 4)
    pub open_rest_footer : Open Kept (a + n + k - 4)
    pub push : Pushable Kept (popped (list_of (n + k)) a w) (list_of n) a

  -- The front's header and footer
  abbrev front : (a n : ℕ) → Words → Words
  front a n w = record w {
    header = update w.header a (or_tag (mask (w.header a)) n);
    footer = update w.footer (a + n - 4) n;
  }

  Runs-pop :
      (w : Words) (i a n : ℕ)
      → Takeable Kept w i a n
      → Runs Kept
          (if not (w.next a == 0) then write32 (prev_field (w.next a)) 0 else pure tt)
          (record w { head = update w.head i (w.next a) })
          tt
          (popped i a w)
  Runs-pop w i a n t = elim t.next [
    | inl e ↦ let null : (w.next a == 0) ≡ true = ground arith in rw null (Runs-pure Kept tt _)
    | inr k ↦
        let block : (w.next a == 0) ≡ false = ground (arith, k.0) in
        rw block (write-prev Kept (w.next a) 0 _ k.0 (omega arith) k.1)
  ]

  -- The front of the block is pushed on its list, and `rest` follows.
  Runs-push :
      {B : Type 0}
      → (u u' : Words) (j a : ℕ) (rest : Cmd B) (b : B) → Pushable Kept u j a
      → Runs Kept rest (pushed j a u) b u'
      → Runs Kept
          (write32 (prev_field a) 0
            >> (write32 (next_field a) (u.head j)
                >> (write32 j a >> (link_back (u.head j) a >> rest))))
          u
          b
          u'
  Runs-push u u' j a rest b p r =
      let fits : a < 2 ^ 32 = omega (arith, p.block) in
      Runs-then Kept (write32 (prev_field a) 0) _ u _ _ _
        (write-prev Kept a 0 u p.block (omega arith) p.open_prev)
        (Runs-then Kept (write32 (next_field a) (u.head j)) _ _ _ _ _
          (write-next Kept a (u.head j) _ p.block (head-fits Kept u j a p) p.open_next)
          (Runs-then Kept (write32 j a) _ _ _ _ _ (write-head Kept j a _ p.list fits p.open_list)
            (Runs-then Kept (link_back (u.head j) a) _ _ _ _ _ (Runs-link_back Kept u j a p) r)))

  -- The rest of the block is handed out.
  Runs-hand_out :
      (w u : Words) (a n k : ℕ)
      → Splittable w a n k
      → Runs Kept
          (write32 (a + n) (set_mask k)
            >> (write32 (a + n + k - 4) k >> (reset_the_free_tag (a + n) k >> pure (a + n))))
          u
          (a + n)
          (taken_words (a + n + k) (record u {
            header = update u.header (a + n) (set_mask k);
            footer = update u.footer (a + n + k - 4) k;
          }))
  Runs-hand_out w u a n k s =
      let after = s.take.after in
      let there : IsBlockOffset (a + n + k) = (omega arith, omega arith, omega arith) in
      let sum : a + (n + k) ≡ a + n + k = omega arith in
      let open_ : Open Kept (a + n + k) = rw sum at s.take.open_after in
      Runs-then Kept (write32 (a + n) (set_mask k)) _ u _ _ _
        (write-header Kept (a + n) (set_mask k) u s.rest (omega arith) s.open_rest)
        (Runs-then Kept (write32 (a + n + k - 4) k) _ _ _ _ _
          (write-footer Kept (a + n + k - 4) k _ s.rest_footer (omega (arith, s.big))
            s.open_rest_footer)
          (Runs-then Kept (reset_the_free_tag (a + n) k) _ _ _ _ _
            (Runs-reset_tag Kept (a + n) k _ there open_) (Runs-pure Kept (a + n) _)))

  -- The front's size is written to its header and its footer, and `rest` follows.
  Runs-front :
      {B : Type 0}
      → (w u u' : Words) (a n k : ℕ) (rest : Cmd B) (b : B) → Splittable w a n k
      → Runs Kept rest (front a n u) b u'
      → Runs Kept
          (read_the_prev_free_tag a
            >>= (λ tag. write32 a (or_tag tag n) >> (write32 (a + n - 4) n >> rest)))
          u
          b
          u'
  Runs-front w u u' a n k rest b s r =
      Runs-bind Kept (read_the_prev_free_tag a) _ u u _ _ _ (Runs-prev_tag Kept a u s.take.block) (
        Runs-then Kept (write32 a (or_tag (mask (u.header a)) n)) _ u _ _ _
          (write-header Kept a (or_tag (mask (u.header a)) n) u s.take.block (ground (arith, s.big))
            s.open_block)
          (Runs-then Kept (write32 (a + n - 4) n) _ _ _ _ _
            (write-footer Kept (a + n - 4) n _ s.front_footer (omega (arith, s.big))
              s.open_front_footer)
            r))

  pub Runs-split_block :
      (w : Words) (a n k : ℕ)
      → Splittable w a n k
      → Runs Kept
          (split_block a (n + k) k)
          w
          (a + n)
          (split_words a n k (pushed (list_of n) a (popped (list_of (n + k)) a w)))
  unfolding split_block
  Runs-split_block w a n k s =
      let i = list_of (n + k) in
      let j = list_of n in
      let t = s.take in
      let w₁ = popped i a w in
      let pu : Pushable Kept (front a n w₁) j a = record {
        block = s.push.block;
        open_prev = s.push.open_prev;
        open_next = s.push.open_next;
        list = s.push.list;
        open_list = s.push.open_list;
        head = s.push.head;
      } in
      let rest : n + k - k ≡ n = omega arith in
      let bigger : ltb k (n + k) ≡ true = ground (arith, s.big) in
      let at_rest : add32 a n ≡ a + n = omega (arith, s.rest) in
      let at_end : add32 a (n + k) ≡ a + n + k = omega (arith, t.after) in
      let at_front_footer : sub32 (a + n) 4 ≡ a + n - 4 = omega (arith, s.rest) in
      let at_rest_footer : sub32 (a + n + k) 4 ≡ a + n + k - 4 = omega (arith, t.after) in
      rw (split_block, rest, at_rest, at_end, at_front_footer, at_rest_footer)
        (Runs-bind Kept (read32 (next_field a)) _ w w _ _ _ (read-next Kept a w t.block) (
          Runs-bind Kept (free_list_by_block_size (n + k)) _ w w _ _ _
            (Runs-free_list Kept (n + k) w (omega (arith, s.big)))
            (Runs-then Kept (assert (ltb k (n + k))) _ w w _ _ (Runs-assert Kept _ w bigger) (
              Runs-then Kept (write32 i (w.next a)) _ w _ _ _
                (write-head Kept i (w.next a) w t.list (next-fits Kept w i a (n + k) t)
                  (t.open_lists i t.list))
                (Runs-then Kept _ _ _ _ _ _ (Runs-pop w i a (n + k) t) (
                  Runs-front w w₁ _ a n k _ _ s (
                    Runs-bind Kept (free_list_by_block_size n) _ _ _ _ _ _
                      (Runs-free_list Kept n (front a n w₁) (omega (arith, s.big)))
                      (Runs-bind Kept (read32 j) _ _ _ _ _ _
                        (read-head Kept j (front a n w₁) s.push.list)
                        (Runs-push (front a n w₁) _ j a _ _ pu
                          (Runs-hand_out w (pushed j a (front a n w₁)) a n k s))))))))))
