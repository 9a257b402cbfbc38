-- ===== src/Allocator/Words/Runs.antt =====
-- Commands of the allocator by what they do to its words. A run changes no byte that is kept.
use nvds.Base.{ℕ, ◌+◌, ◌^◌, ◌<◌, ◌≡◌, refl, ◌∙◌, arith, true, Bool, update}
use nvds.Nvm.{Memory, poke, get32, bytes32}
use nvds.Nvm.Words.{Apart, poke_outside}
use nvds.Command.{
  Allocator, Cmd, ok, pure, assert, ◌>>=◌, ◌>>◌, read32, write32, read32-ok, write-ok,
}
use nvds.Allocator.{prev_field, next_field}
use nvds.Allocator.Words.{
  Words, Shows, IsListOffset, IsBlockOffset, IsFooterOffset, Shows-head, Shows-prev, Shows-next,
  Shows-header, Shows-footer,
}

module _ (Kept : ℕ → Type 0) where
  -- The word at `c` has no byte that is kept.
  abbrev pub Open : ℕ → Type 0
  Open c = (x : ℕ) → Kept x → Apart c 4 x 1

  -- The command returns `a` and takes the words `w` to `w'`.
  abbrev pub Runs : {A : Type 0} → Cmd A → Words → A → Words → Type 0
  Runs c w a w' =
      (s : Allocator)
      → Shows s.memory w
      → (s' : Allocator) × (c s ≡ ok a s')
        × Shows s'.memory w'
        × ((x : ℕ) → Kept x → s'.memory x ≡ s.memory x)

  pub Runs-bind :
      {A B : Type 0}
      → (c : Cmd A) (f : A → Cmd B) (w w₁ w₂ : Words) (a : A) (b : B) → Runs c w a w₁
      → Runs (f a) w₁ b w₂
      → Runs (c >>= f) w b w₂
  unfolding ◌>>=◌
  Runs-bind c f w w₁ w₂ a b h k s v =
      let (s₁, ran, v₁, kept₁) = h s v in
      let (s₂, ran₂, v₂, kept₂) = k s₁ v₁ in (s₂, rw ran ran₂, v₂, λ x e. kept₂ x e ∙ kept₁ x e)

  pub Runs-then :
      {B : Type 0}
      → (c : Cmd (Unit {0})) (f : Cmd B) (w w₁ w₂ : Words) (b : B) → Runs c w tt w₁
      → Runs f w₁ b w₂
      → Runs (c >> f) w b w₂
  unfolding ◌>>◌
  Runs-then c f w w₁ w₂ b h k s v =
      let (s₁, ran, v₁, kept₁) = h s v in
      let (s₂, ran₂, v₂, kept₂) = k s₁ v₁ in (s₂, rw ran ran₂, v₂, λ x e. kept₂ x e ∙ kept₁ x e)

  pub Runs-pure : {A : Type 0} → (a : A) (w : Words) → Runs (pure a) w a w
  unfolding pure
  Runs-pure a w s v = (s, refl, v, λ x e. refl)

  pub Runs-assert : (b : Bool) (w : Words) → b ≡ true → Runs (assert b) w tt w
  unfolding assert
  Runs-assert b w e s v = (s, rw e refl, v, λ x k. refl)

  -- A read of a word of the words `w`
  Runs-read :
      (c v : ℕ) (w : Words)
      → 0 < c
      → ((m : Memory) → Shows m w → get32 m c ≡ v)
      → Runs (read32 c) w v w
  Runs-read c v w pos f s shows =
      (s, rw (read32-ok c s pos) (rw (f s.memory shows) refl), shows, λ x k. refl)

  Runs-write :
      (c v : ℕ) (w w' : Words)
      → 0 < c
      → Open c
      → ((m : Memory) → Shows m w → Shows (poke m c (bytes32 v)) w')
      → Runs (write32 c v) w tt w'
  Runs-write c v w w' pos open_ f s shows = (
    _,
    write-ok c (bytes32 v) s pos,
    f s.memory shows,
    λ x k. poke_outside s.memory c (bytes32 v) x (open_ x k),
  )

  pub read-head : (i : ℕ) (w : Words) → IsListOffset i → Runs (read32 i) w (w.head i) w
  read-head i w h = Runs-read i (w.head i) w (omega arith) (λ m s. s.head i h)

  pub write-head :
      (i v : ℕ) (w : Words)
      → IsListOffset i
      → v < 2 ^ 32
      → Open i
      → Runs (write32 i v) w tt (record w { head = update w.head i v })
  write-head i v w h fits o =
      Runs-write i v w _ (omega arith) o (λ m s. Shows-head m w s v fits i h)

  pub read-prev :
      (b : ℕ) (w : Words) → IsBlockOffset b → Runs (read32 (prev_field b)) w (w.prev b) w
  read-prev b w h =
      let at_field : prev_field b ≡ b + 4 = omega arith in
      rw at_field (Runs-read (b + 4) (w.prev b) w (omega arith) (λ m s. s.prev b h))

  pub write-prev :
      (b v : ℕ) (w : Words)
      → IsBlockOffset b
      → v < 2 ^ 32
      → Open (b + 4)
      → Runs (write32 (prev_field b) v) w tt (record w { prev = update w.prev b v })
  write-prev b v w h fits o =
      let at_field : prev_field b ≡ b + 4 = omega arith in
      rw at_field (Runs-write (b + 4) v w _ (omega arith) o (λ m s. Shows-prev m w s v fits b h))

  pub read-next :
      (b : ℕ) (w : Words) → IsBlockOffset b → Runs (read32 (next_field b)) w (w.next b) w
  read-next b w h =
      let at_field : next_field b ≡ b + 8 = omega arith in
      rw at_field (Runs-read (b + 8) (w.next b) w (omega arith) (λ m s. s.next b h))

  pub write-next :
      (b v : ℕ) (w : Words)
      → IsBlockOffset b
      → v < 2 ^ 32
      → Open (b + 8)
      → Runs (write32 (next_field b) v) w tt (record w { next = update w.next b v })
  write-next b v w h fits o =
      let at_field : next_field b ≡ b + 8 = omega arith in
      rw at_field (Runs-write (b + 8) v w _ (omega arith) o (λ m s. Shows-next m w s v fits b h))

  pub read-header : (b : ℕ) (w : Words) → IsBlockOffset b → Runs (read32 b) w (w.header b) w
  read-header b w h = Runs-read b (w.header b) w (omega arith) (λ m s. s.header b h)

  pub write-header :
      (b v : ℕ) (w : Words)
      → IsBlockOffset b
      → v < 2 ^ 32
      → Open b
      → Runs (write32 b v) w tt (record w { header = update w.header b v })
  write-header b v w h fits o =
      Runs-write b v w _ (omega arith) o (λ m s. Shows-header m w s v fits b h)

  pub read-footer : (c : ℕ) (w : Words) → IsFooterOffset c → Runs (read32 c) w (w.footer c) w
  read-footer c w h = Runs-read c (w.footer c) w (omega arith) (λ m s. s.footer c h)

  pub write-footer :
      (c v : ℕ) (w : Words)
      → IsFooterOffset c
      → v < 2 ^ 32
      → Open c
      → Runs (write32 c v) w tt (record w { footer = update w.footer c v })
  write-footer c v w h fits o =
      Runs-write c v w _ (omega arith) o (λ m s. Shows-footer m w s v fits c h)
