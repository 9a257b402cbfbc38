-- ===== src/Tablet/Chain.antt =====
-- What a bucket's list in memory stands for: the objects that the `next` offsets lead through, with
-- their keys and values.
use nvds.Base.{
  ℕ, zero, suc, ◌+◌, ◌≤◌, ◌<◌, ◌≡◌, refl, Option, none, some, List, [], ◌∷◌, arith, ◌==◌,
  if◌then◌else◌, length, take, add32, ◌∙◌, ap, sym, ==_iff, Bool-cases, inl, inr,
}
use nvds.Nvm.{Memory, peek, get16, get32}
use nvds.Nvm.Words.{bytes_eq, memcmp-bytes_eq, bytes_eq-ne_length}
use nvds.Command.{Allocator, ok, pure, ◌>>=◌, read16-ok, compare_bytes}
use nvds.Allocator
use nvds.Request.{Request, IsRequest, key}
use nvds.Tablet.{same_key}

pub record Entry : Type 0 where
  pub addr : ℕ
  pub key : List ℕ
  pub val : List ℕ

-- `e` is stored in memory, inside the allocator's 64 MB.
pub record Stored (m : Memory) (e : Entry) : Type 0 where
  pub not_null : 0 < e.addr
  pub inside : e.addr + 16 + length e.key + length e.val ≤ Allocator.size
  pub key_len : get16 m (4 + e.addr) ≡ length e.key
  pub val_len : get16 m (6 + e.addr) ≡ length e.val
  pub key_bytes : peek m (16 + e.addr) (length e.key) ≡ e.key
  pub val_bytes : peek m (16 + e.addr + length e.key) (length e.val) ≡ e.val

-- From `p` on, `next` leads through the entries `es` to the null offset.
abbrev pub Chain : Memory → ℕ → List Entry → Type 0
Chain m p [] = p ≡ 0
Chain m p (e ∷ es) = (p ≡ e.addr) × Stored m e × Chain m (get32 m e.addr) es

-- The abstract map: the value of the first entry that has the key
unfoldable pub lookup : List ℕ → List Entry → Option (List ℕ)
lookup k [] = none
lookup k (e ∷ es) = if bytes_eq e.key k then some e.val else lookup k es

-- A null offset ends the list, and no other.
pub Chain-nil : (m : Memory) (es : List Entry) → Chain m 0 es → es ≡ []
Chain-nil m [] c = refl
Chain-nil m (e ∷ es) c = absurd (omega (arith, c.1.not_null))

pub length-take : {A : Type 0} (n : ℕ) (xs : List A) → n ≤ length xs → length (take n xs) ≡ n
length-take zero xs h = refl
length-take (suc n) [] h = absurd (omega arith)
length-take (suc n) (x ∷ xs) h = ap suc (length-take n xs (omega arith))

pub length-key : (r : Request) → IsRequest r → length (key r) ≡ r.key_len
length-key r w = length-take r.key_len r.contents (omega (arith, w.sized))

-- The test of the key at a stored object compares the keys.
pub same_key_lem :
    (r : Request) (e : Entry) (s : Allocator)
    → IsRequest r
    → Stored s.memory e
    → same_key r e.addr s ≡ ok (bytes_eq e.key (key r)) s
unfolding same_key ◌>>=◌ compare_bytes pure
same_key_lem r e s w st =
    let at_len : add32 4 e.addr ≡ 4 + e.addr = omega (arith, st.inside) in
    let at_data : add32 16 e.addr ≡ 16 + e.addr = omega (arith, st.inside) in
    let sized = length-key r w in
    rw (at_len, at_data, read16-ok (4 + e.addr) s (omega arith), st.key_len)
      (elim (Bool-cases (r.key_len == length e.key)) [
        | inl same ↦
            let n : length (key r) ≡ length e.key = sized ∙ (==_iff _ _).0 same in
            rw (same, n, st.key_bytes, memcmp-bytes_eq e.key (key r) (sym n))
        | inr diff ↦ rw (diff, bytes_eq-ne_length e.key (key r) (ground (arith, sized)))
      ])
