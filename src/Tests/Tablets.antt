-- ===== src/Tests/Tablets.antt =====
-- A tablet without entries, to which one is added.
use nvds.Base.{refl, arith, [], ◌∷◌}
use nvds.Command.{Allocator}
use nvds.Request.{Request, Kind}
use nvds.Allocator.Heap.Formatted.{one_block}
use nvds.Allocator.Heap.Served.{CanServe}
use nvds.Tablet.{add}
use nvds.Tablet.Lookup.{logging}
use nvds.Tablet.Table.{HasTable}
use nvds.Tablet.Blank.{no_entries, format-HasTable}
use nvds.Tablet.Added.{Added, add-Added}

abbrev zeros : Allocator
zeros = record { base = 4096; cnt_writes = 0; modifications = []; memory = λ x. 0 }

abbrev blank : Allocator
blank = (format-HasTable zeros (λ x. refl)).0

blank-HasTable : HasTable one_block blank.memory no_entries
blank-HasTable = (format-HasTable zeros (λ x. refl)).2

blank-CanServe : CanServe one_block blank.memory 32
blank-CanServe = record {
  no_remainder_16 = λ b f e. ground (arith, f, e);
  tight = λ b f e. ground (arith, f, e);
}

abbrev req : Kind → Request
req k = record { kind = k; key_len = 1; val_len = 2; key_hash = 7; contents = 1 ∷ 8 ∷ 9 ∷ [] }

add-Added_example :
    Added one_block no_entries (req Kind.add) (logging blank []) (add 1 (req Kind.add) [] blank)
add-Added_example =
    add-Added one_block no_entries 1 (req Kind.add) [] blank blank-HasTable
      (record { sized = refl }) (omega arith) blank-CanServe (omega arith) refl
