-- ===== src/Tablet/Lookup.antt =====
-- `Get`, the search of `Add` and that of `Put` against the list of entries, and the loop of `Del`.
use nvds.Base.{
  ℕ, zero, suc, ◌+◌, ◌<◌, ◌≡◌, refl, Bool, true, false, Option, none, some, List, [], ◌∷◌, arith,
  ◌==◌, length, add32, Bool-cases, inl, inr, ap, sym, ◌∙◌, ◌||◌,
}
use nvds.Nvm.{get32}
use nvds.Nvm.Words.{bytes_eq, bytes_eq_iff}
use nvds.Modification.{ModificationList}
use nvds.Command.{
  Allocator, ok, out_of_fuel, pure, ◌>>=◌, ◌>>◌, assert, stuck, read32, read32-ok, read16-ok,
  copy_out, set_modifications,
}
use nvds.Request.{Request, IsRequest, Response, Status, key, Kind, is_get, is_add, is_del}
use nvds.Tablet.{slot_of, get_loop, get, add_search, add, del_loop, del}
use nvds.Tablet.Chain.{Entry, Stored, Chain, lookup, length-key, same_key_lem}

-- The state in which an operation's list of modifications is the one that it was given.
abbrev pub logging : Allocator → ModificationList → Allocator
logging s ms = record s { modifications = ms }

-- What `Get` answers for a value that the map has, or has not.
abbrev pub answer : Response → Option (List ℕ) → Status × Response
answer resp none = (Status.error, resp)
answer resp (some v) = (Status.ok, record resp { val = v; val_len = length v })

pub key_len-entry :
    (r : Request) (e : Entry)
    → IsRequest r
    → bytes_eq e.key (key r) ≡ true
    → r.key_len ≡ length e.key
key_len-entry r e w same = sym (length-key r w) ∙ ap length (sym ((bytes_eq_iff _ _).0 same))

get_loop-lookup :
    (rounds : ℕ) (resp : Response) (r : Request) (es : List Entry) (p : ℕ) (s : Allocator)
    → IsRequest r
    → Chain s.memory p es
    → length es < rounds
    → get_loop rounds resp r p s ≡ ok (answer resp (lookup (key r) es)) s
unfolding get_loop lookup ◌>>=◌ pure copy_out
get_loop-lookup zero resp r es p s w c h = absurd (omega arith)
get_loop-lookup (suc k) resp r [] p s w c h = rw c
get_loop-lookup (suc k) resp r (e ∷ es) p s w (at_e, st, rest) h =
    let ne : (e.addr == 0) ≡ false = ground (arith, st.not_null) in
    let at_len : add32 6 e.addr ≡ 6 + e.addr = omega (arith, st.inside) in
    rw (at_e, ne, same_key_lem r e s w st)
      (elim (Bool-cases (bytes_eq e.key (key r))) [
        | inl same ↦
            let n = key_len-entry r e w same in
            let at_val : add32 (add32 16 e.addr) r.key_len ≡ 16 + e.addr + length e.key =
              omega (arith, n, st.inside) in
            rw (
              same,
              at_len,
              read16-ok (6 + e.addr) s (omega arith),
              st.val_len,
              at_val,
              st.val_bytes,
            )
        | inr diff ↦
            rw (diff, read32-ok e.addr s st.not_null)
              (get_loop-lookup k resp r es (get32 s.memory e.addr) s w rest (omega arith))
      ])

pub read32-slot :
    (r : Request) (s : Allocator) → read32 (slot_of r) s ≡ ok (get32 s.memory (slot_of r)) s
read32-slot r s = read32-ok (slot_of r) s (omega arith)

-- `Get` on the key of a request whose bucket holds the entries `es` answers with the value that
-- `lookup` finds, or with an error if there is none, and changes nothing but the list in use.
pub get-lookup :
    (rounds : ℕ) (resp : Response) (r : Request) (ms : ModificationList) (es : List Entry)
    (s : Allocator)
    → IsRequest r
    → r.kind ≡ Kind.get
    → Chain s.memory (get32 s.memory (slot_of r)) es
    → length es < rounds
    → get rounds resp r ms s ≡ ok (answer resp (lookup (key r) es)) (logging s ms)
unfolding get ◌>>=◌ ◌>>◌ set_modifications assert
get-lookup rounds resp r ms es s w k c h =
    rw (ap is_get k, read32-slot r (logging s ms))
      (get_loop-lookup rounds resp r es (get32 s.memory (slot_of r)) (logging s ms) w c h)

-- Whether an entry of the list has the key
unfoldable pub has_key : List ℕ → List Entry → Bool
has_key k [] = false
has_key k (e ∷ es) = bytes_eq e.key k || has_key k es

pub add_search-has_key :
    (rounds : ℕ) (r : Request) (es : List Entry) (p : ℕ) (s : Allocator)
    → IsRequest r
    → Chain s.memory p es
    → length es < rounds
    → add_search rounds r p s ≡ ok (has_key (key r) es) s
unfolding add_search has_key ◌>>=◌ pure
add_search-has_key zero r es p s w c h = absurd (omega arith)
add_search-has_key (suc k) r [] p s w c h = rw c
add_search-has_key (suc k) r (e ∷ es) p s w (at_e, st, rest) h =
    let ne : (e.addr == 0) ≡ false = ground (arith, st.not_null) in
    rw (at_e, ne, same_key_lem r e s w st)
      (elim (Bool-cases (bytes_eq e.key (key r))) [
        | inl same ↦ rw same
        | inr diff ↦
            rw (diff, read32-ok e.addr s st.not_null)
              (add_search-has_key k r es (get32 s.memory e.addr) s w rest (omega arith))
      ])

-- `Add` on a key that an entry of its bucket has answers with an error and writes nothing.
pub add-has_key :
    (rounds : ℕ) (r : Request) (ms : ModificationList) (es : List Entry) (s : Allocator)
    → IsRequest r
    → r.kind ≡ Kind.add
    → Chain s.memory (get32 s.memory (slot_of r)) es
    → has_key (key r) es ≡ true
    → length es < rounds
    → add rounds r ms s ≡ ok Status.error (logging s ms)
unfolding add ◌>>=◌ ◌>>◌ set_modifications assert pure
add-has_key rounds r ms es s w k c there h = rw (
  ap is_add k,
  read32-slot r (logging s ms),
  add_search-has_key rounds r es (get32 s.memory (slot_of r)) (logging s ms) w c h,
  there,
)

-- The loop of `Del` makes any number of rounds on a first object with another key.
del_loop-diverges :
    (rounds : ℕ) (r : Request) (e : Entry) (q : ℕ) (s : Allocator)
    → IsRequest r
    → Stored s.memory e
    → bytes_eq e.key (key r) ≡ false
    → del_loop rounds r q e.addr s ≡ out_of_fuel s
unfolding del_loop ◌>>=◌ stuck
del_loop-diverges zero r e q s w st diff = refl
del_loop-diverges (suc k) r e q s w st diff =
    let ne : (e.addr == 0) ≡ false = ground (arith, st.not_null) in
    rw (ne, same_key_lem r e s w st, diff) (del_loop-diverges k r e q s w st diff)

-- `Del` on a key that the first object of its bucket does not have never returns, however many
-- rounds it makes, be the key further down the list or in it nowhere.
pub del-diverges :
    (rounds : ℕ) (r : Request) (ms : ModificationList) (e : Entry) (es : List Entry) (s : Allocator)
    → IsRequest r
    → r.kind ≡ Kind.del
    → Chain s.memory (get32 s.memory (slot_of r)) (e ∷ es)
    → bytes_eq e.key (key r) ≡ false
    → del rounds r ms s ≡ out_of_fuel (logging s ms)
unfolding del ◌>>=◌ ◌>>◌ set_modifications assert
del-diverges rounds r ms e es s w k (at_e, st, rest) diff =
    rw (ap is_del k, read32-slot r (logging s ms), at_e)
      (del_loop-diverges rounds r e (slot_of r) (logging s ms) w st diff)
