-- ===== src/Tests/Writes.antt =====
-- `Put` of a shorter value on a bucket of two objects.
use nvds.Base.{ℕ, ◌≡◌, refl, arith, true, false, some, List, [], ◌∷◌, inr}
use nvds.Nvm.{Memory, poke, peek, get16, get32, bytes32}
use nvds.Nvm.Words.{bytes_eq}
use nvds.Command.{Allocator, ok}
use nvds.Request.{Request, Status, Kind}
use nvds.Tablet.{slot_of, object, put}
use nvds.Tablet.Chain.{Entry, Chain, lookup}
use nvds.Tablet.Lookup.{has_key}
use nvds.Tablet.Overwrite.{put-in_place}

abbrev req : ℕ → List ℕ → ℕ → Request
req k v n = record { kind = Kind.put; key_len = 1; val_len = n; key_hash = 7; contents = k ∷ v }

abbrev memory : Memory
memory =
    poke
      (poke
        (poke
          (poke (poke (λ _. 0) (slot_of (req 1 [] 0)) (bytes32 1000)) 1000
            (object 2000 (req 1 (9 ∷ []) 1)))
          1016 (1 ∷ 9 ∷ []))
        2000 (object 0 (req 2 (5 ∷ 6 ∷ []) 2)))
      2016 (2 ∷ 5 ∷ 6 ∷ [])

abbrev state : Allocator
state = record { base = 4096; cnt_writes = 0; modifications = []; memory = memory }

abbrev first : Entry
first = record { addr = 1000; key = 1 ∷ []; val = 9 ∷ [] }

abbrev second : Entry
second = record { addr = 2000; key = 2 ∷ []; val = 5 ∷ 6 ∷ [] }

abbrev update : Request
update = req 2 (8 ∷ []) 1

two-Chain : Chain memory (get32 memory (slot_of update)) (first ∷ second ∷ [])
unfolding poke peek get16 get32
two-Chain = (
  refl,
  record {
    not_null = omega arith;
    inside = omega arith;
    key_len = refl;
    val_len = refl;
    key_bytes = refl;
    val_bytes = refl;
  },
  (
    refl,
    record {
      not_null = omega arith;
      inside = omega arith;
      key_len = refl;
      val_len = refl;
      key_bytes = refl;
      val_bytes = refl;
    },
    refl,
  ),
)

none_before : has_key (2 ∷ []) (first ∷ []) ≡ false
unfolding has_key bytes_eq
none_before = refl

same : bytes_eq (2 ∷ []) (2 ∷ []) ≡ true
unfolding bytes_eq
same = refl

abbrev new : List Entry
new = first ∷ record second { val = 8 ∷ [] } ∷ []

put-in_place_example :
    (s' : Allocator) × (put 3 update [] state ≡ ok Status.ok s')
    × Chain s'.memory (get32 s'.memory (slot_of update)) new
    × (lookup (2 ∷ []) new ≡ some (8 ∷ []))
    × ((k : List ℕ) → bytes_eq (2 ∷ []) k ≡ false → lookup k new ≡ lookup k (first ∷ second ∷ []))
put-in_place_example =
    put-in_place 3 update [] (first ∷ []) [] second state (record { sized = refl }) refl
      (omega arith) two-Chain (inr (omega arith), tt) tt none_before same (omega arith)
      (omega arith)
