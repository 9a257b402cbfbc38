-- ===== src/Replication/Sort.antt =====
-- The sorting loops of `MergeModifications` order the modifications by destination and keep them.
use nvds.Base.{
  ℕ, zero, suc, ◌≤◌, ◌≡◌, refl, Bool, true, false, [], ◌∷◌, arith, length, All, if◌then◌else◌, ap,
}
use nvds.Modification.{Modification, ModificationList, before, covered}
use nvds.Replication.{sweep, sort}

-- Each modification's destination is at most that of those after it.
abbrev pub Sorted : ModificationList → Type 0
Sorted [] = Unit
Sorted (m ∷ ms) = All (λ n. m.des ≤ n.des) ms × Sorted ms

length-sweep : (x : Modification) (ms : ModificationList) → length (sweep x ms).1 ≡ length ms
unfolding sweep
length-sweep x [] = refl
length-sweep x (y ∷ ys) = ap suc (length-sweep (if before y x then y else x) ys)

sweep-covered :
    (x : Modification) (ms : ModificationList) (b : ℕ)
    → covered b ((sweep x ms).0 ∷ (sweep x ms).1) ≡ covered b (x ∷ ms)
unfolding sweep
sweep-covered x [] b = refl
sweep-covered x (y ∷ ys) b = ground (arith, sweep-covered (if before y x then y else x) ys b)

if-P :
    (P : Modification → Type 0) (b : Bool) {x y : Modification} → P x → P y → P (if b then x else y)
if-P P true px py = px
if-P P false px py = py

sweep-All :
    (P : Modification → Type 0) (x : Modification) (ms : ModificationList)
    → P x
    → All P ms
    → P (sweep x ms).0 × All P (sweep x ms).1
unfolding sweep
sweep-All P x [] px h = (px, tt)
sweep-All P x (y ∷ ys) px h =
    let ih = sweep-All P (if before y x then y else x) ys (if-P P (before y x) h.0 px) h.1 in
    (ih.0, (if-P P (before y x) px h.0, ih.1))

-- The sweep brings the smallest destination to the front.
sweep-least :
    (x : Modification) (ms : ModificationList)
    → ((sweep x ms).0.des ≤ x.des) × All (λ n. (sweep x ms).0.des ≤ n.des) (sweep x ms).1
unfolding sweep
sweep-least x [] = (omega arith, tt)
sweep-least x (y ∷ ys) =
    let ih = sweep-least (if before y x then y else x) ys in
    (ground (arith, ih.0), (ground (arith, ih.0), ih.1))

pub sort-covered : (n : ℕ) (ms : ModificationList) (b : ℕ) → covered b (sort n ms) ≡ covered b ms
unfolding sort
sort-covered zero ms b = refl
sort-covered (suc n) [] b = refl
sort-covered (suc n) (x ∷ xs) b =
    ground (arith, sort-covered n (sweep x xs).1 b, sweep-covered x xs b)

pub sort-All :
    (P : Modification → Type 0) (n : ℕ) (ms : ModificationList) → All P ms → All P (sort n ms)
unfolding sort
sort-All P zero ms h = h
sort-All P (suc n) [] h = h
sort-All P (suc n) (x ∷ xs) h =
    let kept = sweep-All P x xs h.0 h.1 in (kept.0, sort-All P n (sweep x xs).1 kept.1)

pub length-sort : (n : ℕ) (ms : ModificationList) → length (sort n ms) ≡ length ms
unfolding sort
length-sort zero ms = refl
length-sort (suc n) [] = refl
length-sort (suc n) (x ∷ xs) = omega (arith, length-sort n (sweep x xs).1, length-sweep x xs)

pub sort-Sorted : (n : ℕ) (ms : ModificationList) → length ms ≤ n → Sorted (sort n ms)
unfolding sort
sort-Sorted zero [] h = tt
sort-Sorted zero (x ∷ xs) h = absurd (omega arith)
sort-Sorted (suc n) [] h = tt
sort-Sorted (suc n) (x ∷ xs) h = (
  sort-All _ n (sweep x xs).1 (sweep-least x xs).1,
  sort-Sorted n (sweep x xs).1 (omega (arith, length-sweep x xs)),
)
