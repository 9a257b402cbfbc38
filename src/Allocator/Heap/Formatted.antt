-- ===== src/Allocator/Heap/Formatted.antt =====
-- The heap that `Format` of src/allocator.cc makes: one free block, in the last free list.
use nvds.Base.{
  ℕ, ◌+◌, ◌-◌, ◌≤◌, ◌≡◌, inl, arith, refl, ◌∙◌, ltb, ◌==◌, if◌then◌else◌, add32, sub32, update, [],
}
use nvds.Nvm.{Memory, get32}
use nvds.Command.{Allocator, ok, ◌>>◌, write32, set_modifications}
use nvds.Allocator.{size, format, clear_mask, last_free_list, set_the_free_tag}
use nvds.Allocator.Words.{
  Words, Shows, IsListOffset, IsBlockOffset, IsFooterOffset, first_block, end,
}
use nvds.Allocator.Words.Runs.{Runs, Runs-then, write-head, write-header, write-footer}
use nvds.Allocator.Tiling.{Blocks, given_words}
use nvds.Allocator.Heap.{IsHeap}
use nvds.Allocator.Heap.Steps.{Runs-set_tag}
use nvds.Allocator.Heap.Served.{HasHeap}

-- The size of the one block
abbrev pub whole : ℕ
whole = 67108560

abbrev pub one_block : Blocks
one_block = record { sizes = update (λ a. 0) first_block whole; free = λ a. a == first_block }

abbrev pub zeros : Words
zeros = record { head = λ i. 0; prev = λ a. 0; next = λ a. 0; header = λ a. 0; footer = λ c. 0 }

abbrev pub formatted : Words
formatted = given_words end (record zeros {
  head = update (λ i. 0) last_free_list first_block;
  header = update (λ a. 0) first_block whole;
  footer = update (λ c. 0) (end - 4) whole;
})

pub formatted-IsHeap : IsHeap one_block formatted
formatted-IsHeap = record {
  tiling = record {
    block = λ a h. ground arith;
    bounds = λ a h. ground arith;
    apart = λ a b h k l. ground arith;
    next = λ a h. ground arith;
    size = λ a h. ground arith;
    tag = λ a h. ground arith;
    footer = λ a h. ground arith;
    tagged = λ a h k. absurd (k (ground (arith, h)));
    last = refl;
  };
  lists = record {
    null = refl;
    heads = λ i h. ground arith;
    prevs = λ a h. ground arith;
    nexts = λ a h. ground arith;
    rank = λ a. 0;
    ordered = λ a h. inl refl;
  };
}

-- The bytes past the 64 MB
abbrev Beyond : ℕ → Type 0
Beyond x = size ≤ x

zeroed-Shows : (m : Memory) → Shows (λ x. if ltb x size then 0 else m x) zeros
unfolding get32
zeroed-Shows m = record {
  head = λ i h. ground (arith, h);
  prev = λ b h. ground (arith, h);
  next = λ b h. ground (arith, h);
  header = λ b h. ground (arith, h);
  footer = λ c h. ground (arith, h);
}

Runs-first_block :
    Runs Beyond
      (write32 last_free_list first_block
        >> (write32 first_block (clear_mask whole)
            >> (write32 (sub32 (add32 first_block whole) 4) whole
                >> set_the_free_tag first_block whole)))
      zeros
      tt
      formatted
Runs-first_block =
    let list : IsListOffset last_free_list = (omega arith, omega arith, refl) in
    let first : IsBlockOffset first_block = (omega arith, omega arith, refl) in
    let last : IsFooterOffset (end - 4) = (omega arith, omega arith, refl) in
    let tag : IsBlockOffset end = (omega arith, omega arith, refl) in
    Runs-then Beyond (write32 last_free_list first_block) _ zeros _ _ _
      (write-head Beyond last_free_list first_block zeros list (omega arith)
        (λ x h. inl (omega arith)))
      (Runs-then Beyond (write32 first_block whole) _ _ _ _ _
        (write-header Beyond first_block whole _ first (omega arith) (λ x h. inl (omega arith)))
        (Runs-then Beyond (write32 (end - 4) whole) _ _ _ _ _
          (write-footer Beyond (end - 4) whole _ last (omega arith) (λ x h. inl (omega arith)))
          (Runs-set_tag Beyond first_block whole _ tag (λ x h. inl (omega arith)))))

-- `Format` fails no assertion and leaves a heap of one free block, which fills the 64 MB but for the
-- heads of the free lists, the last free tag and at most 15 bytes; the bytes past the 64 MB, where
-- the hash table is, stay as they were.
pub format-HasHeap :
    (s : Allocator)
    → (s' : Allocator) × (format s ≡ ok tt s')
      × HasHeap one_block s'.memory
      × ((x : ℕ) → s'.memory (size + x) ≡ s.memory (size + x))
unfolding format set_modifications ◌>>◌
format-HasHeap s =
    let start : Allocator = record s {
      modifications = [];
      memory = λ x. if ltb x size then 0 else s.memory x;
    } in
    let (s', ran, shows, kept) = Runs-first_block start (zeroed-Shows s.memory) in
    (
      s',
      ran,
      record { words = formatted; shows = shows; heap = formatted-IsHeap },
      λ x. kept (size + x) (omega arith) ∙ ground arith,
    )
