-- ===== src/Nvm/Words.antt =====
-- Words and runs of bytes read back after a write: at the same place, and at one that is disjoint.
use nvds.Base.{
  ℕ, zero, suc, ◌+◌, ◌^◌, ◌≤◌, ◌<◌, ◌≡◌, refl, ◌⊎◌, ◌↔◌, List, [], ◌∷◌, arith, true, false, length,
  ap, Bool, ◌&&◌, ◌==◌, ◌≢◌, Bool-cases, inl, inr,
}
use nvds.Nvm.{Memory, poke, peek, bytes32, get16, get32, memcmp, is_eq}

-- `[a, a + n)` and `[b, b + k)` have no byte in common.
abbrev pub Apart : ℕ → ℕ → ℕ → ℕ → Type 0
Apart a n b k = (a + n ≤ b) ⊎ (b + k ≤ a)

pub poke_outside :
    (m : Memory) (a : ℕ) (bs : List ℕ) (x : ℕ) → Apart a (length bs) x 1 → poke m a bs x ≡ m x
unfolding poke
poke_outside m a bs x h = ground arith

pub get32-poke-Apart :
    (m : Memory) (a : ℕ) (bs : List ℕ) (b : ℕ)
    → Apart a (length bs) b 4
    → get32 (poke m a bs) b ≡ get32 m b
unfolding get32
get32-poke-Apart m a bs b h = ground (
  arith,
  poke_outside m a bs b,
  poke_outside m a bs (b + 1),
  poke_outside m a bs (b + 2),
  poke_outside m a bs (b + 3),
)

pub get16-poke-Apart :
    (m : Memory) (a : ℕ) (bs : List ℕ) (b : ℕ)
    → Apart a (length bs) b 2
    → get16 (poke m a bs) b ≡ get16 m b
unfolding get16
get16-poke-Apart m a bs b h = ground (arith, poke_outside m a bs b, poke_outside m a bs (b + 1))

pub peek-poke-Apart :
    (m : Memory) (a : ℕ) (bs : List ℕ) (b n : ℕ)
    → Apart a (length bs) b n
    → peek (poke m a bs) b n ≡ peek m b n
unfolding peek
peek-poke-Apart m a bs b zero h = refl
peek-poke-Apart m a bs b (suc n) h =
    ground (arith, poke_outside m a bs b, peek-poke-Apart m a bs (b + 1) n)

pub get32-poke_self : (m : Memory) (a v : ℕ) → v < 2 ^ 32 → get32 (poke m a (bytes32 v)) a ≡ v
unfolding get32 poke
get32-poke_self m a v h = ground arith

-- Equality of byte strings, and what `memcmp` says of it.
unfoldable pub bytes_eq : List ℕ → List ℕ → Bool
bytes_eq [] [] = true
bytes_eq [] (y ∷ ys) = false
bytes_eq (x ∷ xs) [] = false
bytes_eq (x ∷ xs) (y ∷ ys) = (x == y) && bytes_eq xs ys

pub bytes_eq_iff : (xs ys : List ℕ) → (bytes_eq xs ys ≡ true) ↔ (xs ≡ ys)
unfolding bytes_eq
bytes_eq_iff [] [] = (λ _. refl, λ _. refl)
bytes_eq_iff [] (y ∷ ys) = (λ h. cc, λ h. cc)
bytes_eq_iff (x ∷ xs) [] = (λ h. cc, λ h. cc)
bytes_eq_iff (x ∷ xs) (y ∷ ys) =
    let ih = bytes_eq_iff xs ys in (λ h. ground (arith, ih), λ h. ground (arith, ih))

pub memcmp-bytes_eq :
    (xs ys : List ℕ) → length xs ≡ length ys → is_eq (memcmp xs ys) ≡ bytes_eq xs ys
unfolding memcmp bytes_eq
memcmp-bytes_eq [] [] h = refl
memcmp-bytes_eq [] (y ∷ ys) h = absurd (omega arith)
memcmp-bytes_eq (x ∷ xs) [] h = absurd (omega arith)
memcmp-bytes_eq (x ∷ xs) (y ∷ ys) h = ground (arith, memcmp-bytes_eq xs ys)

pub bytes_eq-length : (xs ys : List ℕ) → bytes_eq xs ys ≡ true → length xs ≡ length ys
bytes_eq-length xs ys h = ap length ((bytes_eq_iff xs ys).0 h)

pub length-peek : (m : Memory) (a n : ℕ) → length (peek m a n) ≡ n
unfolding peek
length-peek m a zero = refl
length-peek m a (suc n) = ap suc (length-peek m (a + 1) n)

pub bytes_eq-ne_length : (xs ys : List ℕ) → length xs ≢ length ys → bytes_eq xs ys ≡ false
bytes_eq-ne_length xs ys h = elim (Bool-cases (bytes_eq xs ys)) [
  | inl e ↦ absurd (h (bytes_eq-length xs ys e))
  | inr e ↦ e
]
