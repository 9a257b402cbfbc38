-- ===== src/Allocator/Sizes.antt =====
-- Block sizes, their free lists, and the search for a free list that is not empty.
use nvds.Base.{
  ℕ, zero, suc, ◌+◌, ◌-◌, ◌*◌, ◌/◌, ◌≤◌, ◌<◌, ◌≡◌, refl, arith, ltb, ◌==◌, true, Bool-cases, inl,
  inr, add32, ◌⊎◌,
}
use native.Mathlib.Decide.{ℕ_discrete}
use nvds.Nvm.{get32}
use nvds.Command.{Allocator, ok, assert_failed, pure, ◌>>=◌, ◌>>◌, assert, read32, read32-ok}
use nvds.Allocator.{
  max_block_size, num_free_lists, last_free_list, roundup_block_size, free_list_by_block_size,
  block_size_by_free_list, find_free_list, alloc, alloc_block,
}

-- A size up to the largest is rounded up to the least multiple of 16 that is not smaller; a larger
-- one fails the assertion.
pub roundup_block_size-least :
    (n : ℕ) (s : Allocator)
    → (n ≤ max_block_size
        → (m : ℕ) × (roundup_block_size n s ≡ ok (16 * m) s) × (n ≤ 16 * m) × (16 * m < n + 16))
      × (max_block_size < n → roundup_block_size n s ≡ assert_failed s)
unfolding roundup_block_size pure assert ◌>>◌
roundup_block_size-least n s =
    (λ h. ((n + 15) / 16, ground arith, omega arith, omega arith), λ h. ground arith)

-- The free list of a block size up to the largest, a multiple of 16, gives that size back; it is an
-- offset among the lists of single sizes, a multiple of 4.
pub block_size-round_trip :
    (m : ℕ) (s : Allocator)
    → 0 < m
    → 16 * m ≤ max_block_size
    → (free_list_by_block_size (16 * m) s ≡ ok (4 * (m - 1)) s)
      × (block_size_by_free_list (4 * (m - 1)) s ≡ ok (16 * m) s)
      × (4 * (m - 1) < last_free_list)
unfolding free_list_by_block_size block_size_by_free_list pure assert ◌>>◌
block_size-round_trip m s pos le = (ground arith, ground arith, omega arith)

alloc_block-16 : (s : Allocator) → alloc_block 16 s ≡ assert_failed s
unfolding alloc_block find_free_list free_list_by_block_size read32 pure assert ◌>>=◌ ◌>>◌
alloc_block-16 s = refl

roundup_block_size-16 :
    (n : ℕ) (s : Allocator) → n ≤ 12 → roundup_block_size (add32 n 4) s ≡ ok 16 s
unfolding roundup_block_size pure assert ◌>>◌
roundup_block_size-16 n s h = ground arith

-- A request for at most 12 bytes fails an assertion on every heap: the free list of 16-byte blocks
-- has the offset 0, which `Read` refuses.
pub alloc-small : (n : ℕ) (s : Allocator) → n ≤ 12 → alloc n s ≡ assert_failed s
unfolding alloc assert ◌>>=◌ ◌>>◌
alloc-small n s h = rw (roundup_block_size-16 n s h, alloc_block-16 s)

-- From the offset of a free list on, the search finds the first list that is not empty, with its
-- head, or reaches the end; it makes at most one round more than there are lists, and writes
-- nothing.
pub record Searched (s : Allocator) (from found head : ℕ) : Type 0 where
  pub from_le : from ≤ found
  pub empty_before : (k : ℕ) → from ≤ 4 * k → 4 * k < found → get32 s.memory (4 * k) ≡ 0
  pub outcome :
      ((found ≡ 4 * num_free_lists) × (head ≡ 0))
      ⊎ ((found < 4 * num_free_lists) × (head ≡ get32 s.memory found) × (0 < head))

-- A round at an empty list
find_free_list-next :
    (rounds k head found h : ℕ) (s : Allocator)
    → 0 < k
    → k < num_free_lists
    → get32 s.memory (4 * k) ≡ 0
    → find_free_list rounds (4 * (k + 1)) 0 s ≡ ok (found, h) s
    → find_free_list (suc rounds) (4 * k) head s ≡ ok (found, h) s
unfolding find_free_list ◌>>=◌
find_free_list-next rounds k head found h s pos lt empty e =
    let more : ltb (4 * k) (num_free_lists * 4) ≡ true = ground arith in
    let next : add32 (4 * k) 4 ≡ 4 * (k + 1) = omega arith in
    rw (more, read32-ok (4 * k) s (omega arith), empty, next) e

find_free_list-Searched :
    (rounds k head : ℕ) (s : Allocator)
    → 0 < k
    → k ≤ num_free_lists
    → num_free_lists < k + rounds
    → (k ≡ num_free_lists → head ≡ 0)
    → (found : ℕ) × (h : ℕ) × (find_free_list rounds (4 * k) head s ≡ ok (found, h) s)
      × Searched s (4 * k) found h
unfolding find_free_list pure ◌>>=◌
find_free_list-Searched zero k head s pos le fuel last = absurd (omega arith)
find_free_list-Searched (suc rounds) k head s pos le fuel last =
    elim (Bool-cases (ltb (4 * k) (num_free_lists * 4))) [
      | inr end ↦ (
        4 * k,
        head,
        rw end,
        record {
          from_le = omega arith;
          empty_before = λ j a b. absurd (omega arith);
          outcome = inl (ground arith, last (ground arith));
        },
      )
      | inl more ↦ elim (Bool-cases (get32 s.memory (4 * k) == 0)) [
        | inl empty ↦
            let empty_here : get32 s.memory (4 * k) ≡ 0 = ground arith in
            let r =
              find_free_list-Searched rounds (k + 1) 0 s (omega arith) (ground arith) (omega arith)
                (λ _. refl) in
            (
              r.0,
              r.1,
              find_free_list-next rounds k head r.0 r.1 s pos (ground arith) empty_here r.2,
              record {
                from_le = omega (arith, r.3.from_le);
                empty_before = λ j a b. elim (ℕ_discrete j k) [
                  | yes same ↦ rw same empty_here
                  | no other ↦ r.3.empty_before j (omega arith) b
                ];
                outcome = r.3.outcome;
              },
            )
        | inr full ↦ (
          4 * k,
          get32 s.memory (4 * k),
          rw (more, read32-ok (4 * k) s (omega arith), full),
          record {
            from_le = omega arith;
            empty_before = λ j a b. absurd (omega arith);
            outcome = inr (ground arith, refl, ground arith);
          },
        )
      ]
    ]

-- With the rounds that `AllocBlock` has, the search from the list of a size that is neither 16 nor
-- less ends: at the first list that is not empty, with its head, or past the last list.
pub find_free_list-total :
    (k : ℕ) (s : Allocator)
    → 0 < k
    → k < num_free_lists
    → (found : ℕ) × (head : ℕ) × (find_free_list (num_free_lists + 1) (4 * k) 0 s
        ≡ ok (found, head) s)
      × Searched s (4 * k) found head
find_free_list-total k s pos lt =
    find_free_list-Searched (num_free_lists + 1) k 0 s pos (omega arith) (omega arith) (λ _. refl)
