-- ===== src/Modification.antt =====
-- The log of memory modifications (src/modification.h): where a write went, how long it was, and
-- the address that it is read back from when it is replicated.
use nvds.Base.{ℕ, ◌+◌, Bool, false, ◌&&◌, ◌||◌, List, [], ◌∷◌, leb, ltb}

-- `struct Modification`
pub record Modification : Type 0 where
  pub des : ℕ
  pub len : ℕ
  pub src : ℕ

-- `Modification(uint32_t des, uint64_t src, uint32_t len)`
abbrev pub modification : ℕ → ℕ → ℕ → Modification
modification des src len = record { des = des; len = len; src = src }

-- `operator<`
abbrev pub before : Modification → Modification → Bool
before a b = ltb a.des b.des

abbrev pub ModificationList : Type 0
ModificationList = List Modification

-- The byte `x` lies in `[des, des + len)`.
abbrev pub within : ℕ → Modification → Bool
within x m = leb m.des x && ltb x (m.des + m.len)

-- Some modification of the list holds the byte `x`.
abbrev pub covered : ℕ → ModificationList → Bool
covered x [] = false
covered x (m ∷ ms) = within x m || covered x ms
