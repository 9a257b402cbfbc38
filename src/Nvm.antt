-- ===== src/Nvm.antt =====
-- A tablet's memory as bytes at offsets from `base_`, and its little-endian words.
pub mod Parts
pub mod Words
use nvds.Base.{
  ℕ, zero, suc, ◌+◌, ◌-◌, ◌*◌, ◌/◌, ◌%◌, ◌^◌, Bool, ◌&&◌, List, [], ◌∷◌, leb, ltb, if◌then◌else◌,
  length, get_or,
}
use Prim.Native.Nat.{compare, Ordering}

abbrev pub Memory : Type 0
Memory = ℕ → ℕ

-- The bytes `bs` are stored from offset `a` on.
unfoldable pub poke : Memory → ℕ → List ℕ → Memory
poke m a bs x = if leb a x && ltb x (a + length bs) then get_or bs (x - a) 0 else m x

-- The `n` bytes from offset `a` on.
unfoldable pub peek : Memory → ℕ → ℕ → List ℕ
peek m a zero = []
peek m a (suc n) = m a ∷ peek m (a + 1) n

abbrev pub bytes16 : ℕ → List ℕ
bytes16 v = (v % 256) ∷ (v / 256 % 256) ∷ []

abbrev pub bytes32 : ℕ → List ℕ
bytes32 v = (v % 256) ∷ (v / 2 ^ 8 % 256) ∷ (v / 2 ^ 16 % 256) ∷ (v / 2 ^ 24 % 256) ∷ []

abbrev pub bytes64 : ℕ → List ℕ
bytes64 v =
    (v % 256)
    ∷ (v / 2 ^ 8 % 256)
    ∷ (v / 2 ^ 16 % 256)
    ∷ (v / 2 ^ 24 % 256)
    ∷ (v / 2 ^ 32 % 256)
    ∷ (v / 2 ^ 40 % 256)
    ∷ (v / 2 ^ 48 % 256)
    ∷ (v / 2 ^ 56 % 256)
    ∷ []

unfoldable pub get16 : Memory → ℕ → ℕ
get16 m a = m a + 256 * m (a + 1)

unfoldable pub get32 : Memory → ℕ → ℕ
get32 m a = m a + 2 ^ 8 * m (a + 1) + 2 ^ 16 * m (a + 2) + 2 ^ 24 * m (a + 3)

-- `memcmp`: the order of the first bytes that differ, `eq` for its result 0.
unfoldable pub memcmp : List ℕ → List ℕ → Ordering
memcmp [] ys = Ordering.eq
memcmp (x ∷ xs) [] = Ordering.eq
memcmp (x ∷ xs) (y ∷ ys) =
    let rest = memcmp xs ys in
    elim (compare x y) [
      | Ordering.lt ↦ Ordering.lt
      | Ordering.eq ↦ rest
      | Ordering.gt ↦ Ordering.gt
    ]

abbrev pub is_eq : Ordering → Bool
is_eq Ordering.lt = Bool.false
is_eq Ordering.eq = Bool.true
is_eq Ordering.gt = Bool.false
