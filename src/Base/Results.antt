-- ===== src/Base/Results.antt =====
-- Rust's `Result`, with `?` as bind, and the same over a world that a call may change.
use mathlib.Core.Path.{◌≡◌, refl, ap}
use mathlib.Core.Logic.{◌⊎◌, inl, inr}
use native.Mathlib.Omega.{arith}
use mathlib.Core.Option.{Option, none, some}

pub data Result {ℓ} (E : Type 0) (A : Type ℓ) : Type ℓ where
  ok : A → Result E A
  err : E → Result E A

-- `?`: the first error ends the function.
infixl 5 ◌>>=◌ ◌>>◌
abbrev pub ◌>>=◌ {ℓ κ} :
    {E : Type 0} {A : Type ℓ} {B : Type κ} → Result E A → (A → Result E B) → Result E B
ok value >>= next = next value
err cause >>= next = err cause

abbrev pub ◌>>◌ {ℓ} : {E : Type 0} {B : Type ℓ} → Result E (Unit {0}) → Result E B → Result E B
before >> after = before >>= λ done. after

-- `Option::ok_or_else`.
abbrev pub ok_or {ℓ} : {E : Type 0} {A : Type ℓ} → Option A → E → Result E A
ok_or none e = err e
ok_or (some a) e = ok a

-- `Result::map_err`.
abbrev pub map_err {ℓ} : {E F : Type 0} {A : Type ℓ} → (E → F) → Result E A → Result F A
map_err f (ok a) = ok a
map_err f (err e) = err (f e)

pub >>=-eq-ok {ℓ κ} :
    {E : Type 0} {A : Type ℓ} {B : Type κ} (m : Result E A) (f : A → Result E B) {b : B}
    → (m >>= f) ≡ ok b
    → (a : A) × (m ≡ ok a) × (f a ≡ ok b)
>>=-eq-ok (ok value) next run = (value, refl, run)
>>=-eq-ok (err cause) next run = cc

pub ok-injective {ℓ} :
    {E : Type 0} {A : Type ℓ} {a b : A} → ◌≡◌ {A = Result E A} (ok a) (ok b) → a ≡ b
ok-injective h = cc h

pub some-injective {ℓ} : {A : Type ℓ} {a b : A} → some a ≡ some b → a ≡ b
some-injective h = cc h

-- A call that reads and changes a world `W`, such as a cache or the network.
abbrev pub Call : Type 0 → Type 0 → Type 0 → Type 0
Call W E A = W → Result E A × W

-- What follows a call runs in the world that the call left, and only if the call succeeded.
abbrev pub and_then : {W E A B : Type 0} → Result E A × W → (A → Call W E B) → Result E B × W
and_then (ok a, w) k = k a w
and_then (err e, w) k = (err e, w)

-- A chain that returned has its first step's result, of which the rest can be told.
pub >>=-returned {ℓ κ μ} :
    {E : Type 0} {A : Type ℓ} {B : Type κ} {C : Type μ} (m : Result E A) (f : A → Result E B)
    {b : B}
    → (m >>= f) ≡ ok b
    → ((a : A) → m ≡ ok a → f a ≡ ok b → C)
    → C
>>=-returned m f h rest = let (a, e, g) = >>=-eq-ok m f h in rest a e g

pub ok_or-eq-ok {ℓ} :
    {E : Type 0} {A : Type ℓ} (o : Option A) (e : E) {a : A} → ok_or o e ≡ ok a → o ≡ some a
ok_or-eq-ok none e h = cc
ok_or-eq-ok (some a) e h = cc

module _ {W E A B : Type 0} where
  pub and_then-eq-ok :
      (r : Result E A × W) (k : A → Call W E B) (b : B) (w : W)
      → and_then r k ≡ (ok b, w)
      → (a : A) × (v : W) × (r ≡ (ok a, v)) × (k a v ≡ (ok b, w))
  and_then-eq-ok (ok a, v) k b w h = (a, v, refl, h)
  and_then-eq-ok (err e, v) k b w h = cc

  pub and_then-eq-err :
      (r : Result E A × W) (k : A → Call W E B) (e : E) (w : W)
      → and_then r k ≡ (err e, w)
      → (r ≡ (err e, w)) ⊎ ((a : A) × (v : W) × (r ≡ (ok a, v)) × (k a v ≡ (err e, w)))
  and_then-eq-err (ok a, v) k e w h = inr (a, v, refl, h)
  and_then-eq-err (err x, v) k e w h = inl (ground arith)

  pub and_then-ok :
      (r : Result E A × W) (k : A → Call W E B) (a : A) → r.0 ≡ ok a → and_then r k ≡ k a r.1
  and_then-ok (ok b, w) k a h = ap (λ x. k x w) (ok-injective h)
  and_then-ok (err e, w) k a h = cc

  pub and_then_cong :
      (r : Result E A × W) (k l : A → Call W E B)
      → ((a : A) (w : W) → k a w ≡ l a w)
      → and_then r k ≡ and_then r l
  and_then_cong (ok a, w) k l h = h a w
  and_then_cong (err e, w) k l h = refl
