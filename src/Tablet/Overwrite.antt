-- ===== src/Tablet/Overwrite.antt =====
-- `Put` on a key that is there with a longer value (src/tablet.cc): the object is overwritten in
-- place.
use nvds.Base.{
  ℕ, zero, suc, ◌+◌, ◌^◌, ◌<◌, ◌≡◌, refl, true, false, some, List, [], ◌∷◌, ◌++◌, arith, ◌==◌, ltb,
  length, add32, inl, ap, ◌∙◌, All,
}
use nvds.Nvm.{Memory, poke, peek, get16, get32, bytes16}
use nvds.Nvm.Words.{bytes_eq, Apart, get32-poke-Apart, get16-poke-Apart, peek-poke-Apart}
use nvds.Nvm.Parts.{get16-poke_self, peek-poke_self}
use nvds.Modification.{ModificationList}
use nvds.Command.{
  Allocator, ok, pure, ◌>>=◌, ◌>>◌, assert, read32-ok, read16-ok, write-ok, copy_in, store,
  set_modifications,
}
use nvds.Request.{Request, IsRequest, Status, key, val, Kind, is_put}
use nvds.Tablet.{slot_of, put_search, overwrite, put}
use nvds.Tablet.Chain.{Entry, Stored, Chain, lookup, same_key_lem}
use nvds.Tablet.Written.{length-take-drop}
use nvds.Tablet.Lookup.{logging, read32-slot, has_key, key_len-entry}

-- The bytes of two objects are apart.
abbrev pub AwayFrom : Entry → Entry → Type 0
AwayFrom e f =
    Apart e.addr (16 + length e.key + length e.val) f.addr (16 + length f.key + length f.val)

-- The memory after the length and then the value were overwritten
abbrev overwritten : Memory → Entry → List ℕ → Memory
overwritten m e v = poke (poke m (6 + e.addr) (bytes16 (length v))) (16 + e.addr + length e.key) v

abbrev with_val : Entry → List ℕ → Entry
with_val e v = record e { val = v }

module _ (m : Memory) (e : Entry) (v : List ℕ) (shorter : length v < length e.val) where
  -- What lies apart from the object's bytes after its `next` field is as before.
  get32-overwritten :
      (b : ℕ)
      → Apart (6 + e.addr) (10 + length e.key + length e.val) b 4
      → get32 (overwritten m e v) b ≡ get32 m b
  get32-overwritten b h =
      get32-poke-Apart _ (16 + e.addr + length e.key) v b (ground arith)
      ∙ get32-poke-Apart m (6 + e.addr) (bytes16 (length v)) b (ground arith)

  get16-overwritten :
      (b : ℕ)
      → Apart (6 + e.addr) (10 + length e.key + length e.val) b 2
      → get16 (overwritten m e v) b ≡ get16 m b
  get16-overwritten b h =
      get16-poke-Apart _ (16 + e.addr + length e.key) v b (ground arith)
      ∙ get16-poke-Apart m (6 + e.addr) (bytes16 (length v)) b (ground arith)

  peek-overwritten :
      (b n : ℕ)
      → Apart (6 + e.addr) (10 + length e.key + length e.val) b n
      → peek (overwritten m e v) b n ≡ peek m b n
  peek-overwritten b n h =
      peek-poke-Apart _ (16 + e.addr + length e.key) v b n (ground arith)
      ∙ peek-poke-Apart m (6 + e.addr) (bytes16 (length v)) b n (ground arith)

  Stored-other : (f : Entry) → AwayFrom e f → Stored m f → Stored (overwritten m e v) f
  Stored-other f h st = record {
    not_null = st.not_null;
    inside = st.inside;
    key_len = get16-overwritten (4 + f.addr) (ground arith) ∙ st.key_len;
    val_len = get16-overwritten (6 + f.addr) (ground arith) ∙ st.val_len;
    key_bytes = peek-overwritten (16 + f.addr) (length f.key) (ground arith) ∙ st.key_bytes;
    val_bytes =
        peek-overwritten (16 + f.addr + length f.key) (length f.val) (ground arith) ∙ st.val_bytes;
  }

  Stored-self : length v < 2 ^ 16 → Stored m e → Stored (overwritten m e v) (with_val e v)
  Stored-self small st = record {
    not_null = st.not_null;
    inside = omega (arith, st.inside);
    key_len =
        get16-poke-Apart _ (16 + e.addr + length e.key) v (4 + e.addr) (ground arith)
        ∙ get16-poke-Apart m (6 + e.addr) (bytes16 (length v)) (4 + e.addr) (ground arith)
        ∙ st.key_len;
    val_len =
        get16-poke-Apart _ (16 + e.addr + length e.key) v (6 + e.addr) (ground arith)
        ∙ get16-poke_self m (6 + e.addr) (length v) small;
    key_bytes =
        peek-poke-Apart _ (16 + e.addr + length e.key) v (16 + e.addr) (length e.key) (ground arith)
        ∙ peek-poke-Apart m (6 + e.addr) (bytes16 (length v)) (16 + e.addr) (length e.key)
            (ground arith)
        ∙ st.key_bytes;
    val_bytes = peek-poke_self _ (16 + e.addr + length e.key) v;
  }

  Chain-others :
      (es : List Entry) (p : ℕ)
      → All (AwayFrom e) es
      → Chain m p es
      → Chain (overwritten m e v) p es
  Chain-others [] p a c = c
  Chain-others (f ∷ es) p a c =
      let next : get32 (overwritten m e v) f.addr ≡ get32 m f.addr =
        get32-overwritten f.addr (ground (arith, a.0)) in
      (c.0, Stored-other f a.0 c.1, rw next (Chain-others es (get32 m f.addr) a.1 c.2))

  -- The list as a whole, the object among it
  Chain-overwritten :
      (before after : List Entry) (p : ℕ)
      → length v < 2 ^ 16
      → All (AwayFrom e) before
      → All (AwayFrom e) after
      → Chain m p (before ++ (e ∷ after))
      → Chain (overwritten m e v) p (before ++ (with_val e v ∷ after))
  Chain-overwritten [] after p small a b c =
      let next : get32 (overwritten m e v) e.addr ≡ get32 m e.addr =
        get32-overwritten e.addr (ground arith) in
      (c.0, Stored-self small c.1, rw next (Chain-others after (get32 m e.addr) b c.2))
  Chain-overwritten (f ∷ before) after p small a b c =
      let next : get32 (overwritten m e v) f.addr ≡ get32 m f.addr =
        get32-overwritten f.addr (ground (arith, a.0)) in
      (
        c.0,
        Stored-other f a.0 c.1,
        rw next (Chain-overwritten before after (get32 m f.addr) small a.1 b c.2),
      )

-- The search of `Put` stops at the first object that has the key.
put_search-found :
    (rounds : ℕ) (r : Request) (before after : List Entry) (e : Entry) (q p : ℕ) (s : Allocator)
    → IsRequest r
    → Chain s.memory p (before ++ (e ∷ after))
    → has_key (key r) before ≡ false
    → bytes_eq e.key (key r) ≡ true
    → length before < rounds
    → (q' : ℕ) × (put_search rounds r q p s ≡ ok (some (q', e.addr)) s)
unfolding put_search has_key ◌>>=◌ pure
put_search-found zero r before after e q p s w c none_before same h = absurd (omega arith)
put_search-found (suc k) r [] after e q p s w c none_before same h =
    let ne : (e.addr == 0) ≡ false = ground (arith, c.1.not_null) in
    (q, rw (c.0, ne, same_key_lem r e s w c.1, same) refl)
put_search-found (suc k) r (f ∷ before) after e q p s w c none_before same h =
    let ne : (f.addr == 0) ≡ false = ground (arith, c.1.not_null) in
    let diff : bytes_eq f.key (key r) ≡ false = ground (arith, none_before) in
    let further : has_key (key r) before ≡ false = ground (arith, none_before) in
    let ih =
      put_search-found k r before after e f.addr (get32 s.memory f.addr) s w c.2 further same
        (omega arith) in
    (ih.0, rw (c.0, ne, same_key_lem r f s w c.1, diff, read32-ok f.addr s c.1.not_null) ih.1)

lookup-before :
    (k : List ℕ) (before after : List Entry)
    → has_key k before ≡ false
    → lookup k (before ++ after) ≡ lookup k after
unfolding lookup has_key
lookup-before k [] after h = refl
lookup-before k (f ∷ before) after h = ground (arith, lookup-before k before after)

lookup-other :
    (k : List ℕ) (before after : List Entry) (e : Entry) (v : List ℕ)
    → bytes_eq e.key k ≡ false
    → lookup k (before ++ (with_val e v ∷ after)) ≡ lookup k (before ++ (e ∷ after))
unfolding lookup
lookup-other k [] after e v h = rw h refl
lookup-other k (f ∷ before) after e v h = rw (lookup-other k before after e v h) refl

Stored-of :
    (before after : List Entry) (e : Entry) (m : Memory) (p : ℕ)
    → Chain m p (before ++ (e ∷ after))
    → Stored m e
Stored-of [] after e m p c = c.1
Stored-of (f ∷ before) after e m p c = Stored-of before after e m (get32 m f.addr) c.2

-- What `Put` does to an object that has the key and a longer value
overwrite-in_place :
    (r : Request) (e : Entry) (q : ℕ) (s : Allocator)
    → IsRequest r
    → Stored s.memory e
    → r.key_len ≡ length e.key
    → length (val r) ≡ r.val_len
    → r.val_len < length e.val
    → (s' : Allocator) × (overwrite r q e.addr s ≡ ok Status.ok s')
      × (s'.memory ≡ overwritten s.memory e (val r))
unfolding overwrite ◌>>=◌ ◌>>◌ copy_in pure
overwrite-in_place r e q s w st kl vl shorter =
    let at_len : add32 6 e.addr ≡ 6 + e.addr = omega (arith, st.inside) in
    let at_val : add32 (add32 16 e.addr) r.key_len ≡ 16 + e.addr + length e.key =
      omega (arith, kl, st.inside) in
    let less : ltb r.val_len (length e.val) ≡ true = ground arith in
    let written : Allocator = record (store (6 + e.addr) (bytes16 r.val_len) s) {
      cnt_writes = s.cnt_writes + 1;
    } in
    (
      store (16 + e.addr + length e.key) (val r) written,
      rw
          (
            at_len,
            read16-ok (6 + e.addr) s (omega arith),
            st.val_len,
            less,
            write-ok (6 + e.addr) (bytes16 r.val_len) s (omega arith),
            at_val,
          )
          refl,
      rw vl refl,
    )

put-step :
    (rounds : ℕ) (r : Request) (ms : ModificationList) (s s' : Allocator) (q p : ℕ)
    → r.kind ≡ Kind.put
    → put_search rounds r (slot_of r) (get32 s.memory (slot_of r)) (logging s ms)
      ≡ ok (some (q, p)) (logging s ms)
    → overwrite r q p (logging s ms) ≡ ok Status.ok s'
    → put rounds r ms s ≡ ok Status.ok s'
unfolding put ◌>>=◌ ◌>>◌ set_modifications assert
put-step rounds r ms s s' q p k found done =
    rw (ap is_put k, read32-slot r (logging s ms), found) done

-- `Put` of a key that the bucket's list has, first at the object `e` and with a value longer than
-- the request's, when `e` overlaps no other object of the list: it returns `OK` and leaves the list
-- with the same objects, `e`'s value replaced by the request's; so the map has the new value at the
-- key, and at every other key what it had.
pub put-in_place :
    (rounds : ℕ) (r : Request) (ms : ModificationList) (before after : List Entry) (e : Entry)
    (s : Allocator)
    → IsRequest r
    → r.kind ≡ Kind.put
    → r.val_len < 2 ^ 16
    → Chain s.memory (get32 s.memory (slot_of r)) (before ++ (e ∷ after))
    → All (AwayFrom e) before
    → All (AwayFrom e) after
    → has_key (key r) before ≡ false
    → bytes_eq e.key (key r) ≡ true
    → r.val_len < length e.val
    → length before < rounds
    → let new = before ++ (record e { val = val r } ∷ after) in
      (s' : Allocator) × (put rounds r ms s ≡ ok Status.ok s')
      × Chain s'.memory (get32 s'.memory (slot_of r)) new
      × (lookup (key r) new ≡ some (val r))
      × ((k : List ℕ) → bytes_eq e.key k ≡ false → lookup k new ≡ lookup k (before ++ (e ∷ after)))
unfolding lookup
put-in_place rounds r ms before after e s w k small c a b none_before same shorter h =
    let t = logging s ms in
    let vl : length (val r) ≡ r.val_len = length-take-drop r.key_len r.val_len r.contents w.sized in
    let found =
      put_search-found rounds r before after e (slot_of r) (get32 s.memory (slot_of r)) t w c
        none_before same h in
    let st = Stored-of before after e s.memory (get32 s.memory (slot_of r)) c in
    let result = overwrite-in_place r e found.0 t w st (key_len-entry r e w same) vl shorter in
    let shorter' : length (val r) < length e.val = omega arith in
    let slot : get32 result.0.memory (slot_of r) ≡ get32 s.memory (slot_of r) = rw result.2 (
      get32-overwritten s.memory e (val r) shorter' (slot_of r) (inl (omega (arith, st.inside)))) in
    (
      result.0,
      put-step rounds r ms s result.0 found.0 e.addr k found.1 result.1,
      rw (slot, result.2)
          (Chain-overwritten s.memory e (val r) shorter' before after (get32 s.memory (slot_of r))
            (omega arith) a b c),
      lookup-before (key r) before (with_val e (val r) ∷ after) none_before ∙ rw same refl,
      λ k' d. lookup-other k' before after e (val r) d,
    )
