-- ===== src/Nvm/Parts.antt =====
-- Runs of bytes that are stored or read in parts, and memories that agree on a run.
use nvds.Base.{
  ℕ, zero, suc, ◌+◌, ◌-◌, ◌≤◌, ◌<◌, ◌≡◌, refl, List, [], ◌∷◌, ◌++◌, arith, length, length-append,
  get_or, ltb, leb, ◌^◌, subst, true,
}
use nvds.Nvm.{Memory, poke, peek, get16, get32, bytes16}

get_or-left : (xs ys : List ℕ) (i : ℕ) → i < length xs → get_or (xs ++ ys) i 0 ≡ get_or xs i 0
get_or-left [] ys i h = absurd (omega arith)
get_or-left (x ∷ xs) ys zero h = refl
get_or-left (x ∷ xs) ys (suc i) h = get_or-left xs ys i (omega arith)

get_or-right :
    (xs ys : List ℕ) (i : ℕ) → length xs ≤ i → get_or (xs ++ ys) i 0 ≡ get_or ys (i - length xs) 0
get_or-right [] ys i h = let none : i - 0 ≡ i = omega arith in rw none refl
get_or-right (x ∷ xs) ys zero h = absurd (omega arith)
get_or-right (x ∷ xs) ys (suc i) h =
    let both : suc i - suc (length xs) ≡ i - length xs = omega arith in
    rw both (get_or-right xs ys i (omega arith))

-- A run is stored as its parts one after the other.
poke-append_at :
    (m : Memory) (a : ℕ) (xs ys : List ℕ) (x : ℕ)
    → poke m a (xs ++ ys) x ≡ poke (poke m a xs) (a + length xs) ys x
unfolding poke
poke-append_at m a xs ys x =
    ground (arith, length-append xs ys, get_or-left xs ys (x - a), get_or-right xs ys (x - a))

pub poke-append :
    (m : Memory) (a : ℕ) (xs ys : List ℕ)
    → poke m a (xs ++ ys) ≡ poke (poke m a xs) (a + length xs) ys
poke-append m a xs ys i x = poke-append_at m a xs ys x i

pub get16-poke_self : (m : Memory) (a v : ℕ) → v < 2 ^ 16 → get16 (poke m a (bytes16 v)) a ≡ v
unfolding get16 poke
get16-poke_self m a v h = ground arith

peek-get_or :
    (f : Memory) (a : ℕ) (bs : List ℕ)
    → ((i : ℕ) → i < length bs → f (a + i) ≡ get_or bs i 0)
    → peek f a (length bs) ≡ bs
unfolding peek
peek-get_or f a [] h = refl
peek-get_or f a (x ∷ xs) h =
    let first : f a ≡ x = subst (λ n. f n ≡ x) (omega arith) (h 0 (omega arith)) in
    rw
      (
        first,
        peek-get_or f (a + 1) xs (λ i k.
            let next : a + 1 + i ≡ a + suc i = omega arith in rw next (h (suc i) (omega arith))),
      )
      refl

pub peek-poke_self : (m : Memory) (a : ℕ) (bs : List ℕ) → peek (poke m a bs) a (length bs) ≡ bs
unfolding poke
peek-poke_self m a bs = peek-get_or (poke m a bs) a bs (λ i h. at i h)
  where
    at : (i : ℕ) → i < length bs → poke m a bs (a + i) ≡ get_or bs i 0
    at i h =
        let offset : a + i - a ≡ i = omega arith in
        let low : leb a (a + i) ≡ true = ground arith in
        let high : ltb (a + i) (a + length bs) ≡ true = ground arith in rw (low, high, offset) refl

-- Two memories agree on the `n` bytes from `a` on.
abbrev pub Agree : Memory → Memory → ℕ → ℕ → Type 0
Agree m m' a n = (x : ℕ) → a ≤ x → x < a + n → m' x ≡ m x

module _ (m m' : Memory) where
  pub get16-Agree : (a : ℕ) → Agree m m' a 2 → get16 m' a ≡ get16 m a
  unfolding get16
  get16-Agree a h = rw (h a (omega arith) (omega arith), h (a + 1) (omega arith) (omega arith)) refl

  pub get32-Agree : (a : ℕ) → Agree m m' a 4 → get32 m' a ≡ get32 m a
  unfolding get32
  get32-Agree a h =
      rw
        (
          h a (omega arith) (omega arith),
          h (a + 1) (omega arith) (omega arith),
          h (a + 2) (omega arith) (omega arith),
          h (a + 3) (omega arith) (omega arith),
        )
        refl

  pub peek-Agree : (n a : ℕ) → Agree m m' a n → peek m' a n ≡ peek m a n
  unfolding peek
  peek-Agree zero a h = refl
  peek-Agree (suc n) a h =
      rw
        (
          h a (omega arith) (omega arith),
          peek-Agree n (a + 1) (λ x k l. h x (omega arith) (omega arith)),
        )
        refl
