-- ===== src/Command.antt =====
-- The state of an `Allocator` (src/allocator.h) and the commands that read and write it. A command
-- ends with a result, by a failed `assert`, or because a loop used up its rounds; in each case the
-- state that it leaves is kept.
pub mod Ends
pub mod Logged
use nvds.Base.{
  ℕ, ◌+◌, ◌%◌, ◌^◌, ◌<◌, ◌≡◌, arith, Bool, true, false, List, [], ◌∷◌, ◌++◌, ◌==◌, if◌then◌else◌,
  length,
}
use nvds.Modification.{modification, ModificationList}
use nvds.Nvm.{Memory, poke, peek, get16, get32, bytes32, memcmp}
use Prim.Native.Nat.{Ordering}

-- `modifications_` is the list that the last `set_modifications` names; what `memory` holds at
-- `x` is the byte at the address `base_ + x`.
pub record Allocator : Type 0 where
  pub base : ℕ
  pub cnt_writes : ℕ
  pub modifications : ModificationList
  pub memory : Memory

pub data Run (A : Type 0) : Type 0 where
  ok : A → Allocator → Run A
  assert_failed : Allocator → Run A
  out_of_fuel : Allocator → Run A

abbrev pub Cmd : Type 0 → Type 0
Cmd A = Allocator → Run A

abbrev pub final : {A : Type 0} → Run A → Allocator
final (ok a s) = s
final (assert_failed s) = s
final (out_of_fuel s) = s

abbrev pub and_then : {A B : Type 0} → Run A → (A → Cmd B) → Run B
and_then (ok a s) f = f a s
and_then (assert_failed s) f = assert_failed s
and_then (out_of_fuel s) f = out_of_fuel s

unfoldable pub pure : {A : Type 0} → A → Cmd A
pure a s = ok a s

infixl 5 ◌>>=◌ ◌>>◌
unfoldable pub ◌>>=◌ : {A B : Type 0} → Cmd A → (A → Cmd B) → Cmd B
◌>>=◌ m f s = and_then (m s) f

unfoldable pub ◌>>◌ : {B : Type 0} → Cmd (Unit {0}) → Cmd B → Cmd B
◌>>◌ m f s = and_then (m s) (λ _. f)

-- `assert(b)`
unfoldable pub assert : Bool → Cmd (Unit {0})
assert true s = ok tt s
assert false s = assert_failed s

unfoldable pub stuck : {A : Type 0} → Cmd A
stuck s = out_of_fuel s

-- `Read<uint32_t>` and `Read<uint16_t>`
unfoldable pub read32 : ℕ → Cmd ℕ
read32 offset s = if offset == 0 then assert_failed s else ok (get32 s.memory offset) s

unfoldable pub read16 : ℕ → Cmd ℕ
read16 offset s = if offset == 0 then assert_failed s else ok (get16 s.memory offset) s

-- The bytes `bs` are stored at `offset` and the modification is logged.
abbrev pub store : ℕ → List ℕ → Allocator → Allocator
store offset bs s = record s {
  modifications =
      s.modifications ++ (modification offset ((s.base + offset) % 2 ^ 64) (length bs) ∷ []);
  memory = poke s.memory offset bs;
}

-- `Write<T>`, `bs` being the bytes of `val`
unfoldable pub write : ℕ → List ℕ → Cmd (Unit {0})
write offset bs s =
    if offset == 0
    then assert_failed s
    else ok tt (record (store offset bs s) { cnt_writes = s.cnt_writes + 1 })

abbrev pub write32 : ℕ → ℕ → Cmd (Unit {0})
write32 offset v = write offset (bytes32 v)

-- `Memcpy(uint32_t des, const char* src, uint32_t len)`, `bs` being the `len` bytes at `src`
unfoldable pub copy_in : ℕ → List ℕ → Cmd (Unit {0})
copy_in des bs s = ok tt (store des bs s)

-- `Memcpy(uint32_t des, uint32_t src, uint32_t len)`
unfoldable pub copy_within : ℕ → ℕ → ℕ → Cmd (Unit {0})
copy_within des src len s = ok tt (store des (peek s.memory src len) s)

-- `Memcpy(char* des, uint32_t src, uint32_t len)`: the bytes that reach `des`
unfoldable pub copy_out : ℕ → ℕ → Cmd (List ℕ)
copy_out src len s = ok (peek s.memory src len) s

-- `Memcmp(uint32_t lhs, const char* rhs, uint32_t len)`, `rhs` being the `len` bytes there
unfoldable pub compare_bytes : ℕ → List ℕ → Cmd Ordering
compare_bytes lhs rhs s = ok (memcmp (peek s.memory lhs (length rhs)) rhs) s

-- `set_modifications` with an empty list, as the server's worker passes it
unfoldable pub set_modifications : ModificationList → Cmd (Unit {0})
set_modifications ms s = ok tt (record s { modifications = ms })

-- At an offset that is not null the commands succeed.
pub read32-ok :
    (offset : ℕ) (s : Allocator) → 0 < offset → read32 offset s ≡ ok (get32 s.memory offset) s
unfolding read32
read32-ok offset s h = ground arith

pub read16-ok :
    (offset : ℕ) (s : Allocator) → 0 < offset → read16 offset s ≡ ok (get16 s.memory offset) s
unfolding read16
read16-ok offset s h = ground arith

pub write-ok :
    (offset : ℕ) (bs : List ℕ) (s : Allocator)
    → 0 < offset
    → write offset bs s ≡ ok tt (record (store offset bs s) { cnt_writes = s.cnt_writes + 1 })
unfolding write
write-ok offset bs s h = ground arith
