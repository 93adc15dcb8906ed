-- ===== src/Common/Outcomes.antt =====
-- The outcome of a Rust call: a value, an error, or a panic. `out_of_fuel` is no Rust outcome: it
-- says that a model function was given too little fuel.
use mathlib.Core.Path.{◌≡◌, refl, subst}
use mathlib.Core.Logic.{◌≢◌}
use mathlib.Core.Bool.{Bool, true, false}
use torrent_rust_cli.Common.Tests.{if◌then◌else◌}

pub data Outcome {ℓ κ} (E : Type ℓ) (A : Type κ) : Type (ℓ ⊔ κ) where
  ok : A → Outcome E A
  err : E → Outcome E A
  panic out_of_fuel : Outcome E A

infixl 5 ◌>>=◌
abbrev pub ◌>>=◌ {ℓ κ κ'} :
    {E : Type ℓ} {A : Type κ} {B : Type κ'} → Outcome E A → (A → Outcome E B) → Outcome E B
ok a >>= f = f a
err e >>= f = err e
panic >>= f = panic
out_of_fuel >>= f = out_of_fuel

-- `map_err`, as the `?` operator applies it.
abbrev pub map_err {ℓ ℓ' κ} :
    {E : Type ℓ} {F : Type ℓ'} {A : Type κ} → (E → F) → Outcome E A → Outcome F A
map_err g (ok a) = ok a
map_err g (err e) = err (g e)
map_err g panic = panic
map_err g out_of_fuel = out_of_fuel

-- The run had enough fuel, and `P` holds of its value if it has one.
pub data Settles {ℓ κ κ'} {E : Type ℓ} {A : Type κ} (P : A → Type κ')
    : Outcome E A → Type (ℓ ⊔ κ ⊔ κ') where
  returns : {a : A} → P a → Settles P (ok a)
  fails : {e : E} → Settles P (err e)
  panics : Settles P panic

module _ {ℓ κ κ'} {E : Type ℓ} {A : Type κ} {P : A → Type κ'} where
  pub Settles-ok : {r : Outcome E A} {a : A} → Settles P r → r ≡ ok a → P a
  Settles-ok (returns h) e = subst P (cc) h
  Settles-ok fails e = cc
  Settles-ok panics e = cc

  pub Settles-out_of_fuel : {r : Outcome E A} → Settles P r → r ≢ out_of_fuel
  Settles-out_of_fuel (returns h) = cc
  Settles-out_of_fuel fails = cc
  Settles-out_of_fuel panics = cc

  pub Settles-if :
      (b : Bool) {x y : Outcome E A}
      → (b ≡ true → Settles P x)
      → (b ≡ false → Settles P y)
      → Settles P (if b then x else y)
  Settles-if true hx hy = hx refl
  Settles-if false hx hy = hy refl

  pub Settles-bind {λ' μ} :
      {B : Type λ'} {Q : B → Type μ} {r : Outcome E A} {f : A → Outcome E B}
      → Settles P r
      → ((a : A) → P a → Settles Q (f a))
      → Settles Q (r >>= f)
  Settles-bind (returns {a} h) k = k a h
  Settles-bind fails k = fails
  Settles-bind panics k = panics

  pub Settles-weaken {μ} :
      {Q : A → Type μ} {r : Outcome E A} → Settles P r → ((a : A) → P a → Q a) → Settles Q r
  Settles-weaken (returns {a} h) k = returns (k a h)
  Settles-weaken fails k = fails
  Settles-weaken panics k = panics

-- `P` holds of the value if there is one.
abbrev pub Yields {ℓ κ κ'} : {E : Type ℓ} {A : Type κ} → (A → Type κ') → Outcome E A → Type κ'
Yields P (ok a) = P a
Yields P (err e) = Unit
Yields P panic = Unit
Yields P out_of_fuel = Unit

module _ {E A : Type 0} where
  pub Yields-bind :
      {B : Type 0} (P : A → Type 0) (Q : B → Type 0) (r : Outcome E A) (f : A → Outcome E B)
      → Yields P r
      → ((a : A) → P a → Yields Q (f a))
      → Yields Q (r >>= f)
  Yields-bind P Q (ok a) f h k = k a h
  Yields-bind P Q (err e) f h k = tt
  Yields-bind P Q panic f h k = tt
  Yields-bind P Q out_of_fuel f h k = tt

  pub Yields-ok : (P : A → Type 0) (r : Outcome E A) (a : A) → Yields P r → r ≡ ok a → P a
  Yields-ok P r a h e = subst (Yields P) e h

  -- Of any outcome it is known where its value comes from.
  pub Yields-self : (r : Outcome E A) → Yields (λ a. r ≡ ok a) r
  Yields-self (ok a) = refl
  Yields-self (err e) = tt
  Yields-self panic = tt
  Yields-self out_of_fuel = tt

  pub bind-ok :
      {B : Type 0} (r : Outcome E A) (f : A → Outcome E B) (b : B)
      → r >>= f ≡ ok b
      → (a : A) × (r ≡ ok a) × (f a ≡ ok b)
  bind-ok (ok a) f b e = (a, refl, e)
  bind-ok (err x) f b e = cc
  bind-ok panic f b e = cc
  bind-ok out_of_fuel f b e = cc

  pub map_err-ok :
      {F : Type 0} (g : E → F) (r : Outcome E A) (a : A) → map_err g r ≡ ok a → r ≡ ok a
  map_err-ok g (ok b) a e = cc
  map_err-ok g (err x) a e = cc
  map_err-ok g panic a e = cc
  map_err-ok g out_of_fuel a e = cc
