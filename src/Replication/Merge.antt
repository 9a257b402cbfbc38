-- ===== src/Replication/Merge.antt =====
-- What `MergeModifications` makes of a list: ranges in order, more than the gap apart, that hold
-- every byte of the list, each to be read from where its first byte is.
use nvds.Base.{
  ℕ, suc, ◌+◌, ◌-◌, ◌%◌, ◌^◌, ◌≤◌, ◌<◌, ◌≡◌, refl, max, true, false, some, [], ◌∷◌, arith, length,
  All, ltb, leb, Bool-cases, inl, inr, sub32, ◌||◌, ◌&&◌, ◌∙◌,
}
use nvds.Modification.{Modification, ModificationList, covered}
use nvds.Command.Logged.{SourceOf}
use nvds.Replication.{sort, gap, end_of, merge_loop, merge_ordered, merge_modifications}
use nvds.Replication.Sort.{Sorted, sort-covered, sort-All, length-sort, sort-Sorted}

-- The range ends inside the 32-bit offsets.
abbrev pub Fits : Modification → Type 0
Fits m = m.des + m.len < 2 ^ 32

-- The ranges follow `end` in order, each beginning more than the gap after the end before it.
abbrev pub Follows : ℕ → ModificationList → Type 0
Follows end [] = Unit
Follows end (m ∷ ms) = (end + gap < m.des) × Follows (m.des + m.len) ms

abbrev pub Separated : ModificationList → Type 0
Separated [] = Unit
Separated (m ∷ ms) = Follows (m.des + m.len) ms

-- The loop's variables: the range that is open, and the rest of the list.
record IsOpen (begin end : ℕ) (ms : ModificationList) : Type 0 where
  ordered : begin ≤ end
  fits : end < 2 ^ 32
  sorted : Sorted ms
  all_fit : All Fits ms

-- A range of the list opens, or the open range grows by it.
IsOpen-next :
    {begin end : ℕ} (m : Modification) (ms : ModificationList)
    → IsOpen begin end (m ∷ ms)
    → IsOpen m.des (end_of m) ms
IsOpen-next m ms o = record {
  ordered = omega (arith, o.all_fit.0);
  fits = omega arith;
  sorted = o.sorted.1;
  all_fit = o.all_fit.1;
}

IsOpen-grow :
    {begin end : ℕ} (m : Modification) (ms : ModificationList)
    → IsOpen begin end (m ∷ ms)
    → IsOpen begin (max end (end_of m)) ms
IsOpen-grow m ms o = record {
  ordered = omega (arith, o.ordered);
  fits = omega (arith, o.fits);
  sorted = o.sorted.1;
  all_fit = o.all_fit.1;
}

merge_loop-covered :
    (begin src end : ℕ) (ms : ModificationList) (b : ℕ)
    → IsOpen begin end ms
    → All (λ n. begin ≤ n.des) ms
    → ((leb begin b && ltb b end) || covered b ms) ≡ true
    → covered b (merge_loop begin src end ms) ≡ true
unfolding merge_loop
merge_loop-covered begin src end [] b o later h =
    let len : sub32 end begin ≡ end - begin = omega (arith, o.fits, o.ordered) in
    rw len (ground (arith, o.ordered))
merge_loop-covered begin src end (m ∷ ms) b o later h =
    let len : sub32 end begin ≡ end - begin = omega (arith, o.fits, o.ordered) in
    let stop : end_of m ≡ m.des + m.len = omega (arith, o.all_fit.0) in
    elim (Bool-cases (ltb (end + gap) m.des)) [
      | inl far ↦
          rw (far, len)
            (ground (
              arith,
              o.ordered,
              stop,
              merge_loop-covered m.des m.src (end_of m) ms b (IsOpen-next m ms o) o.sorted.0,
            ))
      | inr near ↦ rw near (
          merge_loop-covered begin src (max end (end_of m)) ms b (IsOpen-grow m ms o) later.1
            (ground (arith, stop, later.0)))
    ]

merge_loop-Follows :
    (e begin src end : ℕ) (ms : ModificationList)
    → IsOpen begin end ms
    → e + gap < begin
    → Follows e (merge_loop begin src end ms)
unfolding merge_loop
merge_loop-Follows e begin src end [] o h = (h, tt)
merge_loop-Follows e begin src end (m ∷ ms) o h =
    let stop : begin + sub32 end begin ≡ end = omega (arith, o.fits, o.ordered) in
    elim (Bool-cases (ltb (end + gap) m.des)) [
      | inl far ↦ rw far (
        h,
        merge_loop-Follows (begin + sub32 end begin) m.des m.src (end_of m) ms (IsOpen-next m ms o)
            (ground (arith, stop)),
      )
      | inr near ↦
          rw near (merge_loop-Follows e begin src (max end (end_of m)) ms (IsOpen-grow m ms o) h)
    ]

merge_loop-Separated :
    (begin src end : ℕ) (ms : ModificationList)
    → IsOpen begin end ms
    → Separated (merge_loop begin src end ms)
unfolding merge_loop
merge_loop-Separated begin src end [] o = tt
merge_loop-Separated begin src end (m ∷ ms) o =
    let stop : begin + sub32 end begin ≡ end = omega (arith, o.fits, o.ordered) in
    elim (Bool-cases (ltb (end + gap) m.des)) [
      | inl far ↦ rw far (
          merge_loop-Follows _ m.des m.src (end_of m) ms (IsOpen-next m ms o)
            (ground (arith, stop)))
      | inr near ↦
          rw near (merge_loop-Separated begin src (max end (end_of m)) ms (IsOpen-grow m ms o))
    ]

merge_loop-SourceOf :
    (base begin src end : ℕ) (ms : ModificationList)
    → src ≡ (base + begin) % 2 ^ 64
    → All (SourceOf base) ms
    → All (SourceOf base) (merge_loop begin src end ms)
unfolding merge_loop
merge_loop-SourceOf base begin src end [] h k = (h, tt)
merge_loop-SourceOf base begin src end (m ∷ ms) h k = elim (Bool-cases (ltb (end + gap) m.des)) [
  | inl far ↦ rw far (h, merge_loop-SourceOf base m.des m.src (end_of m) ms k.0 k.1)
  | inr near ↦ rw near (merge_loop-SourceOf base begin src (max end (end_of m)) ms h k.1)
]

merge_loop-Fits :
    (begin src end : ℕ) (ms : ModificationList)
    → IsOpen begin end ms
    → All Fits (merge_loop begin src end ms)
unfolding merge_loop
merge_loop-Fits begin src end [] o = (omega (arith, o.fits, o.ordered), tt)
merge_loop-Fits begin src end (m ∷ ms) o = elim (Bool-cases (ltb (end + gap) m.des)) [
  | inl far ↦ rw far (
    omega (arith, o.fits, o.ordered),
    merge_loop-Fits m.des m.src (end_of m) ms (IsOpen-next m ms o),
  )
  | inr near ↦ rw near (merge_loop-Fits begin src (max end (end_of m)) ms (IsOpen-grow m ms o))
]

length-merge_loop :
    (begin src end : ℕ) (ms : ModificationList)
    → length (merge_loop begin src end ms) ≤ suc (length ms)
unfolding merge_loop
length-merge_loop begin src end [] = omega arith
length-merge_loop begin src end (m ∷ ms) = ground (
  arith,
  length-merge_loop m.des m.src (end_of m) ms,
  length-merge_loop begin src (max end (end_of m)) ms,
)

-- What merging promises of the list `out` that it makes of `ms`.
pub record IsMerged (base : ℕ) (ms out : ModificationList) : Type 0 where
  pub covers : (b : ℕ) → covered b ms ≡ true → covered b out ≡ true
  pub separated : Separated out
  pub fits : All Fits out
  pub sources : All (SourceOf base) out

merge_ordered-IsMerged :
    (base : ℕ) (m : Modification) (ms : ModificationList)
    → Sorted (m ∷ ms)
    → All Fits (m ∷ ms)
    → All (SourceOf base) (m ∷ ms)
    → IsMerged base (m ∷ ms) (merge_loop m.des m.src (end_of m) (m ∷ ms))
merge_ordered-IsMerged base m ms sorted fit src =
    let o : IsOpen m.des (end_of m) (m ∷ ms) = record {
      ordered = omega (arith, fit.0);
      fits = omega arith;
      sorted = sorted;
      all_fit = fit;
    } in
    record {
      covers = λ b h.
          merge_loop-covered m.des m.src (end_of m) (m ∷ ms) b o (omega arith, sorted.0)
            (ground (arith, h));
      separated = merge_loop-Separated m.des m.src (end_of m) (m ∷ ms) o;
      fits = merge_loop-Fits m.des m.src (end_of m) (m ∷ ms) o;
      sources = merge_loop-SourceOf base m.des m.src (end_of m) (m ∷ ms) src.0 src;
    }

-- The first element opens the first range, so no more ranges are made than there were.
length-merge_ordered :
    (m : Modification) (ms : ModificationList)
    → Fits m
    → length (merge_loop m.des m.src (end_of m) (m ∷ ms)) ≤ length (m ∷ ms)
unfolding merge_loop
length-merge_ordered m ms fit =
    let near : ltb (end_of m + gap) m.des ≡ false = ground (arith, fit) in
    rw near (length-merge_loop m.des m.src (max (end_of m) (end_of m)) ms)

-- A list of modifications that end inside the 32-bit offsets, each with its source, is merged into
-- ranges that hold all its bytes, are in order and more than the gap apart, have their sources, and
-- are no more than the modifications. Only the empty list is refused.
pub merge_modifications-IsMerged :
    (base : ℕ) (m : Modification) (ms : ModificationList)
    → All Fits (m ∷ ms)
    → All (SourceOf base) (m ∷ ms)
    → (out : ModificationList) × (merge_modifications (m ∷ ms) ≡ some out)
      × IsMerged base (m ∷ ms) out
      × (length out ≤ length (m ∷ ms))
unfolding merge_modifications
merge_modifications-IsMerged base m ms fit src =
    go (sort (length (m ∷ ms)) (m ∷ ms)) (length-sort (length (m ∷ ms)) (m ∷ ms))
      (sort-Sorted (length (m ∷ ms)) (m ∷ ms) (omega arith))
      (sort-All Fits (length (m ∷ ms)) (m ∷ ms) fit)
      (sort-All (SourceOf base) (length (m ∷ ms)) (m ∷ ms) src)
      (sort-covered (length (m ∷ ms)) (m ∷ ms))
  where
    go :
        (ls : ModificationList)
        → length ls ≡ length (m ∷ ms)
        → Sorted ls
        → All Fits ls
        → All (SourceOf base) ls
        → ((b : ℕ) → covered b ls ≡ covered b (m ∷ ms))
        → (out : ModificationList) × (merge_ordered ls ≡ some out)
          × IsMerged base (m ∷ ms) out
          × (length out ≤ length (m ∷ ms))
    go [] n sorted f k c = absurd (omega arith)
    go (l ∷ ls) n sorted f k c =
        let merged = merge_ordered-IsMerged base l ls sorted f k in
        (
          merge_loop l.des l.src (end_of l) (l ∷ ls),
          refl,
          record {
            covers = λ b h. merged.covers b (c b ∙ h);
            separated = merged.separated;
            fits = merged.fits;
            sources = merged.sources;
          },
          omega (arith, length-merge_ordered l ls f.0),
        )
