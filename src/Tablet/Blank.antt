-- ===== src/Tablet/Blank.antt =====
-- The tablet that `Format` (src/allocator.cc) leaves where the hash table's memory is zero.
use nvds.Base.{ℕ, ◌+◌, ◌-◌, ◌≤◌, ◌≡◌, ◌∙◌, refl, List, [], arith, subst}
use nvds.Nvm.{get32}
use nvds.Nvm.Parts.{get32-Agree}
use nvds.Command.{Allocator, ok}
use nvds.Allocator.{size, format}
use nvds.Allocator.Heap.Formatted.{one_block, format-HasHeap}
use nvds.Tablet.Chain.{Entry}
use nvds.Tablet.Table.{HasTable, slot}

abbrev pub no_entries : ℕ → List Entry
no_entries i = []

get32-zeros : (a : ℕ) → get32 (λ x. 0) a ≡ 0
unfolding get32
get32-zeros a = refl

-- `Format` makes a tablet without entries if the bytes past the 64 MB are zero.
pub format-HasTable :
    (s : Allocator)
    → ((x : ℕ) → s.memory (size + x) ≡ 0)
    → (s' : Allocator) × (format s ≡ ok tt s') × HasTable one_block s'.memory no_entries
format-HasTable s zero_table =
    let (s', ran, heap, kept) = format-HasHeap s in
    let zero_at : (x : ℕ) → size ≤ x → s'.memory x ≡ 0 = λ x h.
      let at_x : size + (x - size) ≡ x = omega (arith, h) in
      subst (λ y. s'.memory y ≡ 0) at_x (kept (x - size) ∙ zero_table (x - size)) in
    (
      s',
      ran,
      record {
        heap = heap;
        buckets = λ i h.
            get32-Agree (λ x. 0) s'.memory (slot i) (λ x l k. zero_at x (omega (arith, l)))
            ∙ get32-zeros (slot i);
        housed = λ i h. tt;
      },
    )
