-- ===== src/Index/KeyHash.antt =====
-- Which index of the key map a key hash has.
use nvds.Base.{
  ℕ, zero, suc, ◌+◌, ◌-◌, ◌*◌, ◌^◌, ◌≤◌, ◌<◌, ◌≡◌, ◌↔◌, refl, arith, ltb, Bool-cases, inl, inr,
}
use native.Mathlib.Decide.{dec_lt}
use nvds.Index.{round_to, to_double_from, to_double, key_index, num_tablets}

-- A number that the last place does not reach is rounded to a multiple of a larger one.
skip :
    (k unit n : ℕ)
    → 2 ^ 53 * unit ≤ n
    → to_double_from (suc k) unit n ≡ to_double_from k (2 * unit) n
unfolding to_double_from
skip k unit n h = ground arith

stop : (k unit n : ℕ) → n < 2 ^ 53 * unit → to_double_from (suc k) unit n ≡ round_to unit n
unfolding to_double_from
stop k unit n h = ground arith

-- Rounding adds at most the last place.
round_to-le : (unit n : ℕ) → 0 < unit → round_to unit n ≤ n + unit
round_to-le unit n h = grind arith

-- The last places that are tried, from `unit` on, are at most `top`.
abbrev UpTo : ℕ → ℕ → ℕ → Type 0
UpTo top zero unit = (0 < unit) × (unit ≤ top)
UpTo top (suc k) unit = ((0 < unit) × (unit ≤ top)) × UpTo top k (2 * unit)

to_double_from-le : (top k unit n : ℕ) → UpTo top k unit → to_double_from k unit n ≤ n + top
unfolding to_double_from
to_double_from-le top zero unit n u = omega (arith, round_to-le unit n u.0)
to_double_from-le top (suc k) unit n u = elim (Bool-cases (ltb n (2 ^ 53 * unit))) [
  | inl near ↦ rw near (omega (arith, round_to-le unit n u.0.0))
  | inr far ↦ rw far (to_double_from-le top k (2 * unit) n u.1)
]

to_double-le : (n : ℕ) → to_double n ≤ n + 2048
unfolding to_double
to_double-le n = to_double_from-le 2048 11 1 n (omega arith)

to_double_high : (n : ℕ) → 2 ^ 63 ≤ n → to_double n ≡ round_to 2048 n
unfolding to_double
to_double_high n h =
    rw
      (
        skip 10 1 n (omega arith),
        skip 9 2 n (omega arith),
        skip 8 4 n (omega arith),
        skip 7 8 n (omega arith),
        skip 6 16 n (omega arith),
        skip 5 32 n (omega arith),
        skip 4 64 n (omega arith),
        skip 3 128 n (omega arith),
        skip 2 256 n (omega arith),
        skip 1 512 n (omega arith),
        skip 0 1024 n (omega arith),
      )
      (unfold to_double_from in refl)

to_double_middle : (n : ℕ) → 2 ^ 62 ≤ n → n < 2 ^ 63 → to_double n ≡ round_to 1024 n
unfolding to_double
to_double_middle n h k =
    rw
      (
        skip 10 1 n (omega arith),
        skip 9 2 n (omega arith),
        skip 8 4 n (omega arith),
        skip 7 8 n (omega arith),
        skip 6 16 n (omega arith),
        skip 5 32 n (omega arith),
        skip 4 64 n (omega arith),
        skip 3 128 n (omega arith),
        skip 2 256 n (omega arith),
        skip 1 512 n (omega arith),
      )
      (stop 0 1024 n k)

-- The index of a 64-bit key hash is 0, 1 or 2, by two thresholds that lie half of a last place below
-- the halves of the hash space: hashes within 1024 of `2 ^ 64` have the index 2.
pub key_index-thresholds :
    (n : ℕ)
    → n < 2 ^ 64
    → (n < 2 ^ 63 - 512 → key_index n ≡ 0)
      × (2 ^ 63 - 512 ≤ n → n < 2 ^ 64 - 1024 → key_index n ≡ 1)
      × (2 ^ 64 - 1024 ≤ n → key_index n ≡ 2)
unfolding key_index
key_index-thresholds n h = elim (dec_lt n (2 ^ 62)) [
  | yes low ↦
      (λ _. omega (arith, to_double-le n), λ a. absurd (omega arith), λ a. absurd (omega arith))
  | no not_low ↦ elim (dec_lt n (2 ^ 63)) [
    | yes middle ↦
        let e = to_double_middle n (omega arith) middle in
        rw e (ground arith, ground arith, ground arith)
    | no high ↦
        let e = to_double_high n (omega arith) in rw e (ground arith, ground arith, ground arith)
  ]
]

-- The key map has an entry for a 64-bit key hash exactly when the hash is below `2 ^ 64 - 1024`.
pub key_index-in_range : (n : ℕ) → n < 2 ^ 64 → (key_index n < num_tablets) ↔ (n < 2 ^ 64 - 1024)
key_index-in_range n h =
    let t = key_index-thresholds n h in
    (
      λ small. elim (dec_lt n (2 ^ 64 - 1024)) [
        | yes p ↦ p
        | no p ↦ absurd (omega (arith, t.2 (omega arith)))
      ],
      λ p. elim (dec_lt n (2 ^ 63 - 512)) [
        | yes q ↦ omega (arith, t.0 q)
        | no q ↦ omega (arith, t.1 (omega arith) p)
      ],
    )
