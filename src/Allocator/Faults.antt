-- ===== src/Allocator/Faults.antt =====
-- Heaps on which the allocator does not do what its callers rely on.
use nvds.Base.{ℕ, ◌+◌, ◌*◌, ◌^◌, ◌≤◌, ◌<◌, ◌≡◌, ◌≢◌, arith, add32, ◌∙◌, subst}
use native.Mathlib.Decide.{ℕ_discrete}
use nvds.Nvm.{Memory, get32, bytes32, poke}
use nvds.Nvm.Words.{get32-poke-Apart, get32-poke_self}
use nvds.Command.{Allocator, ok, pure, ◌>>=◌, ◌>>◌, write32, store, read32-ok, write-ok}
use nvds.Allocator.{num_free_lists, clear_mask, take_head, reset_the_free_tag}

-- The state after `write32 offset v`
abbrev pub wrote : ℕ → ℕ → Allocator → Allocator
wrote offset v s = record s {
  cnt_writes = s.cnt_writes + 1;
  modifications = (store offset (bytes32 v) s).modifications;
  memory = poke s.memory offset (bytes32 v);
}

pub write32-ok :
    (offset v : ℕ) (s : Allocator) → 0 < offset → write32 offset v s ≡ ok tt (wrote offset v s)
write32-ok offset v s h = write-ok offset (bytes32 v) s h

reset_the_free_tag-ok :
    (blk n : ℕ) (s : Allocator)
    → 0 < blk
    → blk + n < 2 ^ 32
    → reset_the_free_tag blk n s ≡ ok tt (wrote (blk + n) (clear_mask (get32 s.memory (blk + n))) s)
unfolding reset_the_free_tag ◌>>=◌
reset_the_free_tag-ok blk n s pos fits =
    let at_next : add32 blk n ≡ blk + n = omega arith in
    rw (at_next, read32-ok (blk + n) s (omega arith), write32-ok (blk + n) _ s (omega arith))

-- `take_head` on a block with no successor in its free list
take_head-last_ok :
    (free_list head n : ℕ) (s : Allocator)
    → 0 < free_list
    → 0 < head
    → head + n + 8 < 2 ^ 32
    → get32 s.memory (head + 8) ≡ 0
    → take_head free_list head n s
      ≡ ok head (
          wrote 4 0
            (wrote free_list 0 (wrote (head + n) (clear_mask (get32 s.memory (head + n))) s)))
unfolding take_head ◌>>=◌ ◌>>◌ pure
take_head-last_ok free_list head n s fl pos fits last =
    let at_next : add32 head 8 ≡ head + 8 = omega arith in
    rw (
      at_next,
      read32-ok (head + 8) s (omega arith),
      last,
      reset_the_free_tag-ok head n s pos (omega arith),
      write32-ok free_list 0 _ fl,
      write32-ok 4 0 _ (omega arith),
    )

-- `AllocBlock` of a whole block that has no successor in its free list, for which `next_blk` is 0,
-- clears the word at the offset 4, the head of the list of 32-byte blocks. The block's own list
-- becomes empty, as it must; every other list keeps its head.
pub take_head-loses_list :
    (k head n : ℕ) (s : Allocator)
    → 0 < k
    → k < num_free_lists
    → 4 * num_free_lists ≤ head
    → head + n + 8 < 2 ^ 32
    → get32 s.memory (head + 8) ≡ 0
    → (t : Allocator) × (take_head (4 * k) head n s ≡ ok head t)
      × (get32 t.memory 4 ≡ 0)
      × (get32 t.memory (4 * k) ≡ 0)
      × ((j : ℕ)
          → 2 ≤ j
          → j < num_free_lists
          → j ≢ k
          → get32 t.memory (4 * j) ≡ get32 s.memory (4 * j))
take_head-loses_list k head n s pos lt low fits last =
    let m₁ : Memory = poke s.memory (head + n) (bytes32 (clear_mask (get32 s.memory (head + n)))) in
    let m₂ : Memory = poke m₁ (4 * k) (bytes32 0) in
    (
      wrote 4 0 (wrote (4 * k) 0 (wrote (head + n) (clear_mask (get32 s.memory (head + n))) s)),
      take_head-last_ok (4 * k) head n s (omega arith) (omega arith) fits last,
      get32-poke_self m₂ 4 0 (omega arith),
      elim (ℕ_discrete k 1) [
        | yes one ↦
            let at_k : 4 ≡ 4 * k = omega (arith, one) in
            subst (λ x. get32 (poke m₂ 4 (bytes32 0)) x ≡ 0) at_k
              (get32-poke_self m₂ 4 0 (omega arith))
        | no other ↦
            get32-poke-Apart m₂ 4 (bytes32 0) (4 * k) (omega arith)
            ∙ get32-poke_self m₁ (4 * k) 0 (omega arith)
      ],
      λ j two below other.
          get32-poke-Apart m₂ 4 (bytes32 0) (4 * j) (omega arith)
          ∙ (get32-poke-Apart m₁ (4 * k) (bytes32 0) (4 * j) (omega arith)
              ∙ get32-poke-Apart s.memory (head + n)
                  (bytes32 (clear_mask (get32 s.memory (head + n)))) (4 * j) (omega arith)),
    )
