-- ===== src/Tablet/Written.antt =====
-- The object that `Put` and `Add` (src/tablet.cc) write to a block, read back.
use nvds.Base.{
  ℕ, ◌+◌, ◌^◌, ◌≤◌, ◌<◌, ◌≡◌, refl, List, [], ◌∷◌, ◌++◌, arith, length, take, drop, ◌∙◌, ap, sym,
  inr, zero, suc,
}
use nvds.Nvm.{Memory, poke, get32, bytes16, bytes32, bytes64}
use nvds.Nvm.Words.{get32-poke-Apart, get16-poke-Apart, peek-poke-Apart, get32-poke_self}
use nvds.Nvm.Parts.{poke-append, get16-poke_self, peek-poke_self}
use nvds.Allocator
use nvds.Request.{Request, IsRequest, key, val}
use nvds.Tablet.{object}
use nvds.Tablet.Chain.{Entry, Stored, length-key, length-take}

-- The entry for a request's object at `p`
abbrev pub entry : ℕ → Request → Entry
entry p r = record { addr = p; key = key r; val = val r }

abbrev pub written : Memory → (p next : ℕ) → Request → Memory
written m p next r =
    poke (poke m p (object next r)) (16 + p) (take (r.key_len + r.val_len) r.contents)

pub length-take-drop : (n k : ℕ) (xs : List ℕ) → length xs ≡ n + k → length (take k (drop n xs)) ≡ k
length-take-drop zero k xs h = length-take k xs (omega arith)
length-take-drop (suc n) k [] h = absurd (omega arith)
length-take-drop (suc n) k (x ∷ xs) h = length-take-drop n k xs (omega arith)

take-add :
    (n k : ℕ) (xs : List ℕ) → n + k ≤ length xs → take (n + k) xs ≡ take n xs ++ take k (drop n xs)
take-add zero k xs h = let none : 0 + k ≡ k = omega arith in rw none refl
take-add (suc n) k [] h = absurd (omega arith)
take-add (suc n) k (x ∷ xs) h =
    let next : suc n + k ≡ suc (n + k) = omega arith in
    rw next (ap (λ ys. x ∷ ys) (take-add n k xs (omega arith)))

module _ (m : Memory) (p next : ℕ) (r : Request) where
  object-parts :
      poke m p (object next r)
      ≡ poke
          (poke
            (poke (poke m p (bytes32 next)) (4 + p) (bytes16 r.key_len))
            (6 + p)
            (bytes16 r.val_len))
          (8 + p)
          (bytes64 r.key_hash)
  object-parts =
      let four : p + 4 ≡ 4 + p = omega arith in
      let six : 4 + p + 2 ≡ 6 + p = omega arith in
      let eight : 6 + p + 2 ≡ 8 + p = omega arith in
      let m₁ = poke m p (bytes32 next) in
      let m₂ = poke m₁ (4 + p) (bytes16 r.key_len) in
      rw
        (
          poke-append m p (bytes32 next)
              (bytes16 r.key_len ++ (bytes16 r.val_len ++ bytes64 r.key_hash)),
          four,
          poke-append m₁ (4 + p) (bytes16 r.key_len) (bytes16 r.val_len ++ bytes64 r.key_hash),
          six,
          poke-append m₂ (6 + p) (bytes16 r.val_len) (bytes64 r.key_hash),
          eight,
        )
        refl

  -- The object's `next` field
  pub get32-written : next < 2 ^ 32 → get32 (written m p next r) p ≡ next
  get32-written small =
      get32-poke-Apart _ (16 + p) (take (r.key_len + r.val_len) r.contents) p (inr (omega arith))
      ∙ (rw object-parts (
          get32-poke-Apart _ (8 + p) (bytes64 r.key_hash) p (inr (omega arith))
          ∙ (get32-poke-Apart _ (6 + p) (bytes16 r.val_len) p (inr (omega arith))
              ∙ (get32-poke-Apart _ (4 + p) (bytes16 r.key_len) p (inr (omega arith))
                  ∙ get32-poke_self m p next small))))

  module _ (w : IsRequest r) where
    data-parts :
        (f : Memory)
        → poke f (16 + p) (take (r.key_len + r.val_len) r.contents)
          ≡ poke (poke f (16 + p) (key r)) (16 + p + length (key r)) (val r)
    data-parts f =
        rw (take-add r.key_len r.val_len r.contents (omega (arith, w.sized)))
          (poke-append f (16 + p) (key r) (val r))

    -- The memory that an object was written to has it.
    pub Stored-written :
        0 < p
        → p + 16 + r.key_len + r.val_len ≤ Allocator.size
        → r.key_len < 2 ^ 16
        → r.val_len < 2 ^ 16
        → Stored (written m p next r) (entry p r)
    Stored-written some fits small_key small_val =
        let kl = length-key r w in
        let vl = length-take-drop r.key_len r.val_len r.contents w.sized in
        let bytes = take (r.key_len + r.val_len) r.contents in
        record {
          not_null = some;
          inside = omega (arith, kl, vl, fits);
          key_len =
              get16-poke-Apart _ (16 + p) bytes (4 + p) (inr (omega arith))
              ∙ (rw object-parts (
                  get16-poke-Apart _ (8 + p) (bytes64 r.key_hash) (4 + p) (inr (omega arith))
                  ∙ (get16-poke-Apart _ (6 + p) (bytes16 r.val_len) (4 + p) (inr (omega arith))
                      ∙ (get16-poke_self _ (4 + p) r.key_len small_key ∙ sym kl))));
          val_len =
              get16-poke-Apart _ (16 + p) bytes (6 + p) (inr (omega arith))
              ∙ (rw object-parts (
                  get16-poke-Apart _ (8 + p) (bytes64 r.key_hash) (6 + p) (inr (omega arith))
                  ∙ (get16-poke_self _ (6 + p) r.val_len small_val ∙ sym vl)));
          key_bytes = rw (data-parts (poke m p (object next r))) (
              peek-poke-Apart _ (16 + p + length (key r)) (val r) (16 + p) (length (key r))
                (inr (omega arith))
              ∙ peek-poke_self _ (16 + p) (key r));
          val_bytes =
              rw (data-parts (poke m p (object next r)))
                (peek-poke_self _ (16 + p + length (key r)) (val r));
        }
