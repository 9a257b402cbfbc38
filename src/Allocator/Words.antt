-- ===== src/Allocator/Words.antt =====
-- The words that the allocator (src/allocator.cc) keeps in a tablet: the heads of its free lists, and
-- the header, the fields `prev` and `next` and the footer of a block. They lie apart, since a block
-- begins 4 bytes past a multiple of 16.
pub mod Runs
use nvds.Base.{
  ℕ, ◌+◌, ◌-◌, ◌%◌, ◌^◌, ◌≤◌, ◌<◌, ◌≡◌, ◌⊎◌, ◌≢◌, inl, inr, arith, Bool, Bool-cases, ==_iff, ◌==◌,
  ltb, if◌then◌else◌, update, refl,
}
use nvds.Nvm.{Memory, poke, get32, bytes32}
use nvds.Nvm.Words.{Apart, get32-poke-Apart, get32-poke_self}

-- The word after the last block, which holds the last free tag
abbrev pub end : ℕ
end = 67108852

abbrev pub first_block : ℕ
first_block = 292

abbrev pub IsListOffset : ℕ → Type 0
IsListOffset i = (0 < i) × (i < first_block) × (i % 4 ≡ 0)

abbrev pub IsBlockOffset : ℕ → Type 0
IsBlockOffset b = (first_block ≤ b) × (b ≤ end) × (b % 16 ≡ 4)

abbrev pub IsFooterOffset : ℕ → Type 0
IsFooterOffset c = (first_block < c) × (c < end) × (c % 16 ≡ 0)

-- The words by their kinds; `prev`, `next` and `header` are by the offset of the block.
pub record Words : Type 0 where
  pub head : ℕ → ℕ
  pub prev : ℕ → ℕ
  pub next : ℕ → ℕ
  pub header : ℕ → ℕ
  pub footer : ℕ → ℕ

pub record Shows (m : Memory) (w : Words) : Type 0 where
  pub head : (i : ℕ) → IsListOffset i → get32 m i ≡ w.head i
  pub prev : (b : ℕ) → IsBlockOffset b → get32 m (b + 4) ≡ w.prev b
  pub next : (b : ℕ) → IsBlockOffset b → get32 m (b + 8) ≡ w.next b
  pub header : (b : ℕ) → IsBlockOffset b → get32 m b ≡ w.header b
  pub footer : (c : ℕ) → IsFooterOffset c → get32 m c ≡ w.footer c

other :
    (m : Memory) (a v b r : ℕ) → Apart a 4 b 4 → get32 m b ≡ r → get32 (poke m a (bytes32 v)) b ≡ r
other m a v b r h e = cc (get32-poke-Apart m a (bytes32 v) b h)

-- A word of one kind, read at `k + j` for the place `j`, after `v` was stored at the place `i`
same_kind :
    (m : Memory) (f : ℕ → ℕ) (i v j k : ℕ)
    → v < 2 ^ 32
    → (i ≡ j) ⊎ Apart (i + k) 4 (j + k) 4
    → get32 m (j + k) ≡ f j
    → get32 (poke m (i + k) (bytes32 v)) (j + k) ≡ update f i v j
same_kind m f i v j k fits (inl e) h =
    let self = get32-poke_self m (j + k) v fits in ground (arith, e, self)
same_kind m f i v j k fits (inr apart) h =
    let ne : (j == i) ≡ Bool.false = ground (arith, apart) in
    rw ne (other m (i + k) v (j + k) (f j) apart h)

-- Two places of words of one kind are the same or apart.
same_or_Apart : (i j k : ℕ) → i % 4 ≡ j % 4 → (i ≡ j) ⊎ Apart (i + k) 4 (j + k) 4
same_or_Apart i j k h = elim (Bool-cases (i == j)) [
  | inl e ↦ inl ((==_iff i j).0 e)
  | inr e ↦ elim (Bool-cases (ltb i j)) [
    | inl l ↦ inr (inl (ground arith))
    | inr g ↦ inr (inr (ground arith))
  ]
]

same_field :
    (m : Memory) (f : ℕ → ℕ) (i v j k : ℕ)
    → v < 2 ^ 32
    → i % 4 ≡ j % 4
    → get32 m (j + k) ≡ f j
    → get32 (poke m (i + k) (bytes32 v)) (j + k) ≡ update f i v j
same_field m f i v j k fits h = same_kind m f i v j k fits (same_or_Apart i j k h)

same_word :
    (m : Memory) (f : ℕ → ℕ) (i v j : ℕ)
    → v < 2 ^ 32
    → i % 4 ≡ j % 4
    → get32 m j ≡ f j
    → get32 (poke m i (bytes32 v)) j ≡ update f i v j
same_word m f i v j fits h e =
    let at_i : i + 0 ≡ i = omega arith in
    let at_j : j + 0 ≡ j = omega arith in
    let e' : get32 m (j + 0) ≡ f j = rw at_j e in
    rw (at_i, at_j) at (same_field m f i v j 0 fits h e')

-- Two places that differ modulo 4 words
Apart-by : {a b : ℕ} → (a % 4 ≡ b % 4) × (a % 16 ≢ b % 16) → Apart a 4 b 4
Apart-by {a} {b} h = elim (Bool-cases (ltb a b)) [
  | inl l ↦ inl (ground arith)
  | inr g ↦ inr (ground arith)
]

module _ (m : Memory) (w : Words) (s : Shows m w) (v : ℕ) (fits : v < 2 ^ 32) where
  pub Shows-head :
      (i : ℕ)
      → IsListOffset i
      → Shows (poke m i (bytes32 v)) (record w { head = update w.head i v })
  Shows-head i (pos, low, aligned) = record {
    head = λ j h. same_word m w.head i v j fits (omega arith) (s.head j h);
    prev = λ b h. other m i v (b + 4) _ (inl (omega arith)) (s.prev b h);
    next = λ b h. other m i v (b + 8) _ (inl (omega arith)) (s.next b h);
    header = λ b h. other m i v b _ (inl (omega arith)) (s.header b h);
    footer = λ c h. other m i v c _ (inl (omega arith)) (s.footer c h);
  }

  pub Shows-prev :
      (a : ℕ)
      → IsBlockOffset a
      → Shows (poke m (a + 4) (bytes32 v)) (record w { prev = update w.prev a v })
  Shows-prev a (low, high, aligned) = record {
    head = λ i h. other m (a + 4) v i _ (inr (omega arith)) (s.head i h);
    prev = λ b h. same_field m w.prev a v b 4 fits (omega arith) (s.prev b h);
    next = λ b h. other m (a + 4) v (b + 8) _ (Apart-by (omega arith)) (s.next b h);
    header = λ b h. other m (a + 4) v b _ (Apart-by (omega arith)) (s.header b h);
    footer = λ c h. other m (a + 4) v c _ (Apart-by (omega arith)) (s.footer c h);
  }

  pub Shows-next :
      (a : ℕ)
      → IsBlockOffset a
      → Shows (poke m (a + 8) (bytes32 v)) (record w { next = update w.next a v })
  Shows-next a (low, high, aligned) = record {
    head = λ i h. other m (a + 8) v i _ (inr (omega arith)) (s.head i h);
    prev = λ b h. other m (a + 8) v (b + 4) _ (Apart-by (omega arith)) (s.prev b h);
    next = λ b h. same_field m w.next a v b 8 fits (omega arith) (s.next b h);
    header = λ b h. other m (a + 8) v b _ (Apart-by (omega arith)) (s.header b h);
    footer = λ c h. other m (a + 8) v c _ (Apart-by (omega arith)) (s.footer c h);
  }

  pub Shows-header :
      (a : ℕ)
      → IsBlockOffset a
      → Shows (poke m a (bytes32 v)) (record w { header = update w.header a v })
  Shows-header a (low, high, aligned) = record {
    head = λ i h. other m a v i _ (inr (omega arith)) (s.head i h);
    prev = λ b h. other m a v (b + 4) _ (Apart-by (omega arith)) (s.prev b h);
    next = λ b h. other m a v (b + 8) _ (Apart-by (omega arith)) (s.next b h);
    header = λ b h. same_word m w.header a v b fits (omega arith) (s.header b h);
    footer = λ c h. other m a v c _ (Apart-by (omega arith)) (s.footer c h);
  }

  pub Shows-footer :
      (a : ℕ)
      → IsFooterOffset a
      → Shows (poke m a (bytes32 v)) (record w { footer = update w.footer a v })
  Shows-footer a (low, high, aligned) = record {
    head = λ i h. other m a v i _ (inr (omega arith)) (s.head i h);
    prev = λ b h. other m a v (b + 4) _ (Apart-by (omega arith)) (s.prev b h);
    next = λ b h. other m a v (b + 8) _ (Apart-by (omega arith)) (s.next b h);
    header = λ b h. other m a v b _ (Apart-by (omega arith)) (s.header b h);
    footer = λ c h. same_word m w.footer a v c fits (omega arith) (s.footer c h);
  }
