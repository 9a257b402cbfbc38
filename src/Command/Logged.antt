-- ===== src/Command/Logged.antt =====
-- Every command of the allocator logs what it writes: a byte that no logged modification holds is
-- the byte that was there before.
use nvds.Base.{
  ℕ, ◌+◌, ◌%◌, ◌^◌, ◌≡◌, refl, sym, Bool, true, false, ◌||◌, List, [], ◌∷◌, ◌++◌, arith, ◌∙◌,
  append_assoc, append-nil, ◌==◌, if◌then◌else◌, length, All, All-append, Bool-cases, inl, inr,
}
use nvds.Modification.{Modification, modification, ModificationList, covered}
use nvds.Nvm.{poke, peek}
use nvds.Command.{
  Allocator, Run, ok, assert_failed, out_of_fuel, Cmd, final, and_then, pure, ◌>>=◌, ◌>>◌, assert,
  stuck, read32, read16, store, write, copy_in, copy_within, copy_out, compare_bytes,
}

pub covered-append :
    (x : ℕ) (ms ns : ModificationList) → covered x (ms ++ ns) ≡ (covered x ms || covered x ns)
covered-append x [] ns = refl
covered-append x (m ∷ ms) ns = ground (arith, covered-append x ms ns)

-- The source address of a modification is the destination's, relative to `base_`.
abbrev pub SourceOf : ℕ → Modification → Type 0
SourceOf base m = m.src ≡ (base + m.des) % 2 ^ 64

-- The run from `s` to `s'` appended `news` to the log, and wrote only there.
pub record Logged (s s' : Allocator) : Type 0 where
  pub news : ModificationList
  pub base : s'.base ≡ s.base
  pub appended : s'.modifications ≡ s.modifications ++ news
  pub sources : All (SourceOf s.base) news
  pub elsewhere : (x : ℕ) → covered x news ≡ false → s'.memory x ≡ s.memory x

pub Logged-refl : (s : Allocator) → Logged s s
Logged-refl s = record {
  news = [];
  base = refl;
  appended = sym (append-nil s.modifications);
  sources = tt;
  elsewhere = λ x h. refl;
}

pub Logged-trans : {s t u : Allocator} → Logged s t → Logged t u → Logged s u
Logged-trans {s} {t} {u} a b = record {
  news = a.news ++ b.news;
  base = b.base ∙ a.base;
  appended = rw (b.appended, a.appended) (append_assoc s.modifications a.news b.news);
  sources = All-append _ a.news b.news a.sources (rw a.base at b.sources);
  elsewhere = λ x h. ground (arith, covered-append x a.news b.news, a.elsewhere x, b.elsewhere x);
}

pub Logged-store : (offset : ℕ) (bs : List ℕ) (s : Allocator) → Logged s (store offset bs s)
unfolding poke
Logged-store offset bs s = record {
  news = modification offset ((s.base + offset) % 2 ^ 64) (length bs) ∷ [];
  base = refl;
  appended = refl;
  sources = (refl, tt);
  elsewhere = λ x h. ground arith;
}

-- A command that logs all its writes, however it ends.
pub record Logs {A : Type 0} (m : Cmd A) : Type 0 where
  pub apply : (s : Allocator) → Logged s (final (m s))

pub Logs-pure : {A : Type 0} (a : A) → Logs (pure a)
unfolding pure
Logs-pure a = record { apply = Logged-refl }

pub Logs-stuck : (A : Type 0) → Logs (stuck {A = A})
unfolding stuck
Logs-stuck A = record { apply = Logged-refl }

pub Logs->>= :
    {A B : Type 0} {m : Cmd A} {f : A → Cmd B} → Logs m → ((a : A) → Logs (f a)) → Logs (m >>= f)
unfolding ◌>>=◌
Logs->>= {m} {f} hm hf = record { apply = λ s. go s (m s) (hm.apply s) }
  where
    go : (s : Allocator) (r : Run _) → Logged s (final r) → Logged s (final (and_then r f))
    go s (ok a t) h = Logged-trans h ((hf a).apply t)
    go s (assert_failed t) h = h
    go s (out_of_fuel t) h = h

pub Logs->> : {B : Type 0} {m : Cmd (Unit {0})} {f : Cmd B} → Logs m → Logs f → Logs (m >> f)
unfolding ◌>>=◌ ◌>>◌
Logs->> hm hf = record { apply = (Logs->>= hm (λ _. hf)).apply }

pub Logs-if : {A : Type 0} (b : Bool) {m n : Cmd A} → Logs m → Logs n → Logs (if b then m else n)
Logs-if true h k = h
Logs-if false h k = k

pub Logs-assert : (b : Bool) → Logs (assert b)
unfolding assert
Logs-assert true = record { apply = Logged-refl }
Logs-assert false = record { apply = Logged-refl }

pub Logs-read32 : (offset : ℕ) → Logs (read32 offset)
unfolding read32
Logs-read32 offset = record {
  apply = λ s. elim (Bool-cases (offset == 0)) [
    | inl e ↦ rw e (Logged-refl s)
    | inr e ↦ rw e (Logged-refl s)
  ];
}

pub Logs-read16 : (offset : ℕ) → Logs (read16 offset)
unfolding read16
Logs-read16 offset = record {
  apply = λ s. elim (Bool-cases (offset == 0)) [
    | inl e ↦ rw e (Logged-refl s)
    | inr e ↦ rw e (Logged-refl s)
  ];
}

pub Logs-write : (offset : ℕ) (bs : List ℕ) → Logs (write offset bs)
unfolding write
Logs-write offset bs = record {
  apply = λ s. elim (Bool-cases (offset == 0)) [
    | inl e ↦ rw e (Logged-refl s)
    | inr e ↦ rw e (count _ (Logged-store offset bs s))
  ];
}
  where
    count : {s t : Allocator} (n : ℕ) → Logged s t → Logged s (record t { cnt_writes = n })
    count n l = record {
      news = l.news;
      base = l.base;
      appended = l.appended;
      sources = l.sources;
      elsewhere = l.elsewhere;
    }

pub Logs-copy_in : (des : ℕ) (bs : List ℕ) → Logs (copy_in des bs)
unfolding copy_in
Logs-copy_in des bs = record { apply = Logged-store des bs }

pub Logs-copy_within : (des src len : ℕ) → Logs (copy_within des src len)
unfolding copy_within
Logs-copy_within des src len = record { apply = λ s. Logged-store des (peek s.memory src len) s }

pub Logs-copy_out : (src len : ℕ) → Logs (copy_out src len)
unfolding copy_out
Logs-copy_out src len = record { apply = Logged-refl }

pub Logs-compare_bytes : (lhs : ℕ) (rhs : List ℕ) → Logs (compare_bytes lhs rhs)
unfolding compare_bytes
Logs-compare_bytes lhs rhs = record { apply = Logged-refl }

pub ruleset logs = (
  Logs->>=, Logs->>, Logs-if, Logs-pure, Logs-assert, Logs-read32, Logs-read16, Logs-write,
  Logs-copy_in, Logs-copy_within, Logs-copy_out, Logs-compare_bytes,
)
