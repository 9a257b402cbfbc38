-- ===== src/Command/Ends.antt =====
-- Commands that use up no rounds, and commands that never succeed.
use nvds.Base.{ℕ, ◌≡◌, refl, Bool, true, false, List, arith, if◌then◌else◌}
use nvds.Command.{
  Allocator, Run, ok, assert_failed, out_of_fuel, Cmd, and_then, pure, ◌>>=◌, ◌>>◌, assert, read32,
  write,
}

abbrev pub is_stuck : {A : Type 0} → Run A → Bool
is_stuck (ok a s) = false
is_stuck (assert_failed s) = false
is_stuck (out_of_fuel s) = true

abbrev pub is_failed : {A : Type 0} → Run A → Bool
is_failed (ok a s) = false
is_failed (assert_failed s) = true
is_failed (out_of_fuel s) = false

-- On every state the command succeeds or fails an assertion.
pub record Ends {A : Type 0} (m : Cmd A) : Type 0 where
  pub apply : (s : Allocator) → is_stuck (m s) ≡ false

-- On every state the command fails an assertion.
pub record Fails {A : Type 0} (m : Cmd A) : Type 0 where
  pub apply : (s : Allocator) → is_failed (m s) ≡ true

pub Ends-pure : {A : Type 0} (a : A) → Ends (pure a)
unfolding pure
Ends-pure a = record { apply = λ s. refl }

pub Ends->>= :
    {A B : Type 0} {m : Cmd A} {f : A → Cmd B} → Ends m → ((a : A) → Ends (f a)) → Ends (m >>= f)
unfolding ◌>>=◌
Ends->>= {m} {f} hm hf = record { apply = λ s. go (m s) (hm.apply s) }
  where
    go : (r : Run _) → is_stuck r ≡ false → is_stuck (and_then r f) ≡ false
    go (ok a t) h = (hf a).apply t
    go (assert_failed t) h = h
    go (out_of_fuel t) h = cc

pub Ends->> : {B : Type 0} {m : Cmd (Unit {0})} {f : Cmd B} → Ends m → Ends f → Ends (m >> f)
unfolding ◌>>=◌ ◌>>◌
Ends->> hm hf = record { apply = (Ends->>= hm (λ _. hf)).apply }

pub Ends-if : {A : Type 0} (b : Bool) {m n : Cmd A} → Ends m → Ends n → Ends (if b then m else n)
Ends-if true h k = h
Ends-if false h k = k

pub Ends-assert : (b : Bool) → Ends (assert b)
unfolding assert
Ends-assert true = record { apply = λ s. refl }
Ends-assert false = record { apply = λ s. refl }

pub Ends-read32 : (offset : ℕ) → Ends (read32 offset)
unfolding read32
Ends-read32 offset = record { apply = λ s. ground arith }

pub Ends-write : (offset : ℕ) (bs : List ℕ) → Ends (write offset bs)
unfolding write
Ends-write offset bs = record { apply = λ s. ground arith }

pub ruleset ends = (Ends->>=, Ends->>, Ends-if, Ends-pure, Ends-assert, Ends-read32, Ends-write)

pub Fails->>=-first : {A B : Type 0} {m : Cmd A} (f : A → Cmd B) → Fails m → Fails (m >>= f)
unfolding ◌>>=◌
Fails->>=-first {m} f hm = record { apply = λ s. go (m s) (hm.apply s) }
  where
    go : (r : Run _) → is_failed r ≡ true → is_failed (and_then r f) ≡ true
    go (ok a t) h = cc
    go (assert_failed t) h = h
    go (out_of_fuel t) h = cc

pub Fails->>= :
    {A B : Type 0} {m : Cmd A} {f : A → Cmd B} → Ends m → ((a : A) → Fails (f a)) → Fails (m >>= f)
unfolding ◌>>=◌
Fails->>= {m} {f} hm hf = record { apply = λ s. go (m s) (hm.apply s) }
  where
    go : (r : Run _) → is_stuck r ≡ false → is_failed (and_then r f) ≡ true
    go (ok a t) h = (hf a).apply t
    go (assert_failed t) h = refl
    go (out_of_fuel t) h = cc

pub Fails->> : {B : Type 0} {m : Cmd (Unit {0})} {f : Cmd B} → Ends m → Fails f → Fails (m >> f)
unfolding ◌>>=◌ ◌>>◌
Fails->> hm hf = record { apply = (Fails->>= hm (λ _. hf)).apply }
