-- ===== src/Allocator/Heap/Find.antt =====
-- The search of `AllocBlock` (src/allocator.cc) in a heap.
use nvds.Base.{
  ℕ, zero, suc, ◌+◌, ◌*◌, ◌%◌, ◌≤◌, ◌<◌, ◌≡◌, ◌≢◌, ◌⊎◌, inl, inr, arith, refl, true, false, ltb,
  ◌==◌, Bool-cases, add32,
}
use nvds.Command.{read32}
use nvds.Allocator.{find_free_list}
use nvds.Allocator.Words.{Words, IsListOffset, first_block}
use nvds.Allocator.Words.Runs.{Runs, Runs-bind, Runs-pure, read-head}

-- What the search finds: the head of a list from `first` on, or nothing
pub record Found (w : Words) (first i h : ℕ) : Type 0 where
  pub from : first ≤ i
  pub list : IsListOffset i
  pub head : w.head i ≡ h
  pub some : h ≢ 0

-- The lists from `first` on are empty.
abbrev pub Empty : Words → ℕ → Type 0
Empty w first = (j : ℕ) → IsListOffset j → first ≤ j → w.head j ≡ 0

-- What the search returns: a head, or null if there is none
abbrev pub SearchEnd : (w : Words) (first i h : ℕ) → Type 0
SearchEnd w first i h = ((h ≡ 0) × Empty w first) ⊎ Found w first i h

later :
    {w : Words}
    → (i i' h' : ℕ) → i % 4 ≡ 0
    → w.head i ≡ 0
    → SearchEnd w (i + 4) i' h'
    → SearchEnd w i i' h'
later i i' h' m empty (inl (e, none)) = inl (
  e,
  λ j list from. elim (Bool-cases (j == i)) [
    | inl same ↦ let at : j ≡ i = ground (arith, same) in rw at empty
    | inr other ↦
        let apart : j ≢ i = λ z. ground (arith, z, other) in
        none j list (omega (arith, apart, from, m, list))
  ],
)
later i i' h' m empty (inr f) =
    inr (record { from = omega (arith, f.from); list = f.list; head = f.head; some = f.some })

module _ (Kept : ℕ → Type 0) (w : Words) where
  -- A round of the loop, where the list at `i` is not the last
  round-next :
      (rounds i h : ℕ) (r : ℕ × ℕ)
      → IsListOffset i
      → w.head i ≡ 0
      → Runs Kept (find_free_list rounds (i + 4) 0) w r w
      → Runs Kept (find_free_list (suc rounds) i h) w r w
  unfolding find_free_list
  round-next rounds i h r list empty rest =
      let inside : ltb i first_block ≡ true = ground (arith, list) in
      let at_next : add32 i 4 ≡ i + 4 = omega (arith, list) in
      let null : (w.head i == 0) ≡ true = ground (arith, empty) in
      rw inside (
        Runs-bind Kept (read32 i) _ w w w (w.head i) r (read-head Kept i w list)
          (rw (empty, at_next) rest))

  round-here :
      (rounds i h : ℕ)
      → IsListOffset i
      → w.head i ≢ 0
      → Runs Kept (find_free_list (suc rounds) i h) w (i, w.head i) w
  unfolding find_free_list
  round-here rounds i h list some =
      let inside : ltb i first_block ≡ true = ground (arith, list) in
      let block : (w.head i == 0) ≡ false = ground (arith, some) in
      rw inside (
        Runs-bind Kept (read32 i) _ w w w (w.head i) (i, w.head i) (read-head Kept i w list)
          (rw block (Runs-pure Kept (i, w.head i) w)))

  round-past :
      (rounds i : ℕ) → first_block ≤ i → Runs Kept (find_free_list (suc rounds) i 0) w (i, 0) w
  unfolding find_free_list
  round-past rounds i past =
      let outside : ltb i first_block ≡ false = ground (arith, past) in
      rw outside (Runs-pure Kept (i, 0) w)

  pub Runs-find :
      (rounds i h : ℕ)
      → 0 < i
      → i ≤ first_block
      → i % 4 ≡ 0
      → first_block + 4 ≤ i + 4 * rounds
      → (i < first_block) ⊎ (h ≡ 0)
      → (i' : ℕ) × (h' : ℕ) × Runs Kept (find_free_list rounds i h) w (i', h') w
        × SearchEnd w i i' h'
  unfolding find_free_list
  Runs-find zero i h pos le m enough start = absurd (omega arith)
  Runs-find (suc rounds) i h pos le m enough start = elim (Bool-cases (ltb i first_block)) [
    | inl lt ↦
        let list : IsListOffset i = (pos, ground arith, m) in
        elim (Bool-cases (w.head i == 0)) [
          | inl e ↦
              let empty : w.head i ≡ 0 = ground (arith, e) in
              let (i', h', run, found) =
                Runs-find rounds (i + 4) 0 (omega arith) (omega (arith, list)) (omega arith)
                  (omega arith) (inr refl) in
              (i', h', round-next rounds i h (i', h') list empty run, later i i' h' m empty found)
          | inr e ↦
              let some : w.head i ≢ 0 = λ z. ground (arith, z, e) in
              (
                i,
                w.head i,
                round-here rounds i h list some,
                inr (record { from = omega arith; list = list; head = refl; some = some }),
              )
        ]
    | inr ge ↦
        let past : first_block ≤ i = ground arith in
        let null : h ≡ 0 = ground (arith, start) in
        (
          i,
          0,
          rw null (round-past rounds i past),
          inl (refl, λ j list from. absurd (omega (arith, list, from, past))),
        )
  ]
