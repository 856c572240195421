-- ===== src/Common/Outcome.antt =====
-- The result of fallible code: a value, an error of the caller's type, or a panic (an index out of
-- range, an `assert!`, an `unwrap` on nothing), which no `?` catches.
use mathlib.Core.Path.{◌≡◌, refl}
use mathlib.Core.Logic.{◌≢◌}
use mathlib.Core.Bool.{Bool, true, false}
use mathlib.Core.Option.{Option, none, some}
use meshly_core.Common.Tests.{if◌then◌else◌}

pub data Result {ℓ κ} (E : Type κ) (A : Type ℓ) : Type (ℓ ⊔ κ) where
  panic : Result E A
  err : E → Result E A
  ok : A → Result E A

-- `?`: the first error or panic is the result of the chain.
module _ {ℓ κ μ} {E : Type κ} {A : Type ℓ} {B : Type μ} where
  infixl 5 ◌>>=◌
  abbrev pub ◌>>=◌ : Result E A → (A → Result E B) → Result E B
  panic >>= next = panic
  err x >>= next = err x
  ok a >>= next = next a

-- `check()?; rest`
module _ {ℓ κ} {E : Type κ} {B : Type ℓ} where
  infixl 5 ◌>>◌
  abbrev pub ◌>>◌ : Result E (Unit {0}) → Result E B → Result E B
  check >> rest = check >>= λ done. rest

-- `if bad { return Err(e) }`
abbrev pub reject_if {κ} : {E : Type κ} → Bool → E → Result E (Unit {0})
reject_if true e = err e
reject_if false e = ok tt

-- `ok_or`, and `map_err(|_| e)` where the called code is modelled by an option
abbrev pub ok_or {ℓ κ} : {E : Type κ} {A : Type ℓ} → Option A → E → Result E A
ok_or (some a) e = ok a
ok_or none e = err e

module _ {ℓ κ μ} {E : Type κ} {A : Type ℓ} {B : Type μ} where
  pub >>=-eq-ok :
      (m : Result E A) (next : A → Result E B) {result : B}
      → (m >>= next) ≡ ok result
      → (a : A) × (m ≡ ok a) × (next a ≡ ok result)
  >>=-eq-ok panic next h = cc
  >>=-eq-ok (err x) next h = cc
  >>=-eq-ok (ok a) next h = (a, refl, h)

  -- A chain panics only where one of its steps does.
  pub >>=-ne-panic :
      (m : Result E A) (f : A → Result E B)
      → m ≢ panic
      → ((a : A) → m ≡ ok a → f a ≢ panic)
      → (m >>= f) ≢ panic
  >>=-ne-panic (ok a) f hm hf = hf a refl
  >>=-ne-panic (err e) f hm hf = λ h. cc
  >>=-ne-panic panic f hm hf = λ h. hm refl

module _ {ℓ κ} {E : Type κ} {A : Type ℓ} where
  -- A guard that was passed.
  pub reject_if-passed :
      (b : Bool) (e : E) (m : Result E A) {a : A}
      → (reject_if b e >> m) ≡ ok a
      → (b ≡ false) × (m ≡ ok a)
  reject_if-passed true e m h = cc
  reject_if-passed false e m h = (refl, h)

  pub reject_if-ne-panic :
      (b : Bool) (e : E) (m : Result E A) → m ≢ panic → (reject_if b e >> m) ≢ panic
  reject_if-ne-panic true e m h = λ p. cc
  reject_if-ne-panic false e m h = h

module _ {ℓ κ μ} {E : Type κ} {F : Type μ} {A : Type ℓ} where
  abbrev pub map_err : (E → F) → Result E A → Result F A
  map_err f (ok a) = ok a
  map_err f (err e) = err (f e)
  map_err f panic = panic

module _ {ℓ κ} {E : Type κ} {A : Type ℓ} where
  pub ok_injective : {a b : A} → ◌≡◌ {A = Result E A} (ok a) (ok b) → a ≡ b
  ok_injective h = cc h

module _ {ℓ κ μ} {E : Type κ} {F : Type μ} {A : Type ℓ} where
  pub map_err-eq-ok : (f : E → F) (m : Result E A) {a : A} → map_err f m ≡ ok a → m ≡ ok a
  map_err-eq-ok f (ok a) h = cc
  map_err-eq-ok f (err e) h = cc
  map_err-eq-ok f panic h = cc

module _ {ℓ κ} {E : Type κ} {A : Type ℓ} where
  -- A branch that cannot panic is not the one that did.
  pub skip_branch :
      (b : Bool) (x y : Result E A) → x ≢ panic → (if b then x else y) ≡ panic → y ≡ panic
  skip_branch true x y h p = absurd (h p)
  skip_branch false x y h p = p

  pub ok_or-ne-panic : (o : Option A) (e : E) → ok_or o e ≢ panic
  ok_or-ne-panic (some a) e p = cc
  ok_or-ne-panic none e p = cc

  pub ok-ne-panic : (a : A) → ◌≢◌ {A = Result E A} (ok a) panic
  ok-ne-panic a h = cc
