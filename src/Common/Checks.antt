-- ===== src/Common/Checks.antt =====
-- Validation by guards that stop at the first failure: `for` loops that return an error, and the
-- duplicate test with a `HashSet` of what has been seen.
use mathlib.Core.Path.{◌≡◌, refl}
use mathlib.Core.Logic.{◌↔◌}
use mathlib.Core.Bool.{Bool, true, false}
use mathlib.Core.List.{List, [], ◌∷◌, map}
use native.Mathlib.Omega.{arith}
use meshly_core.Common.Lists.{All}
use meshly_core.Common.Tests.{Eq, eq_iff}
use meshly_core.Common.Outcome.{Result, ok, err, panic, ◌>>◌, reject_if}
use meshly_core.Common.Map.{member}

-- Which guard let everything through.
abbrev pub Passes : {E : Type 0} → Result E (Unit {0}) → Type 0
Passes m = m ≡ ok tt

module _ {E : Type 0} where
  pub then_iff : (m k : Result E (Unit {0})) → Passes (m >> k) ↔ (Passes m × Passes k)
  then_iff (ok tt) k = (λ h. (refl, h), λ h. h.1)
  then_iff (err e) k = (λ h. cc h, λ h. cc h.0)
  then_iff panic k = (λ h. cc h, λ h. cc h.0)

  pub reject_iff : (b : Bool) (e : E) → Passes (reject_if b e) ↔ (b ≡ false)
  reject_iff true e = (λ h. cc, λ h. cc)
  reject_iff false e = (λ h. refl, λ h. refl)

module _ {E A : Type 0} where
  abbrev pub each : (A → Result E (Unit {0})) → List A → Result E (Unit {0})
  each f [] = ok tt
  each f (x ∷ xs) = f x >> each f xs

  pub each_iff :
      (f : A → Result E (Unit {0})) (xs : List A) → Passes (each f xs) ↔ All (λ x. Passes (f x)) xs
  each_iff f [] = (λ h. tt, λ h. refl)
  each_iff f (x ∷ xs) = (
    λ h. let (a, b) = (then_iff (f x) (each f xs)).0 h in (a, (each_iff f xs).0 b),
    λ h. (then_iff (f x) (each f xs)).1 (h.0, (each_iff f xs).1 h.1),
  )

module _ {A : Type 0} {P Q : A → Type 0} where
  pub All-map : (xs : List A) → ((x : A) → P x → Q x) → All P xs → All Q xs
  All-map [] f h = tt
  All-map (x ∷ xs) f h = (f x h.0, All-map xs f h.1)

module _ {K : Type 0} ⦃e : Eq K⦄ where
  -- No two elements are the same.
  abbrev pub Distinct : List K → Type 0
  Distinct [] = Unit
  Distinct (k ∷ ks) = (member k ks ≡ false) × Distinct ks

  -- What has been seen so far does not come again.
  abbrev pub Fresh : List K → List K → Type 0
  Fresh seen [] = Unit
  Fresh seen (k ∷ ks) = (member k seen ≡ false) × Fresh (k ∷ seen) ks

  abbrev pub Apart : List K → List K → Type 0
  Apart seen ks = All (λ k. member k seen ≡ false) ks

  Apart-cons :
      (k : K) (seen ks : List K) → Apart (k ∷ seen) ks → (member k ks ≡ false) × Apart seen ks
  Apart-cons k seen [] h = (refl, tt)
  Apart-cons k seen (j ∷ ks) h =
      let (a, b) = Apart-cons k seen ks h.1 in
      (ground (arith, eq_iff k j, eq_iff j k, h.0), (ground (arith, h.0), b))

  cons-Apart :
      (k : K) (seen ks : List K) → member k ks ≡ false → Apart seen ks → Apart (k ∷ seen) ks
  cons-Apart k seen [] a h = tt
  cons-Apart k seen (j ∷ ks) a h =
      (ground (arith, eq_iff k j, eq_iff j k, h.0), cons-Apart k seen ks (ground arith) h.1)

  Fresh-Distinct : (seen ks : List K) → Fresh seen ks → Distinct ks × Apart seen ks
  Fresh-Distinct seen [] h = (tt, tt)
  Fresh-Distinct seen (k ∷ ks) h =
      let (d, a) = Fresh-Distinct (k ∷ seen) ks h.1 in
      let (new, apart) = Apart-cons k seen ks a in ((new, d), (h.0, apart))

  Distinct-Fresh : (seen ks : List K) → Distinct ks → Apart seen ks → Fresh seen ks
  Distinct-Fresh seen [] d a = tt
  Distinct-Fresh seen (k ∷ ks) d a =
      (a.0, Distinct-Fresh (k ∷ seen) ks d.1 (cons-Apart k seen ks d.0 a.1))

  Apart-nil : (ks : List K) → Apart [] ks
  Apart-nil [] = tt
  Apart-nil (k ∷ ks) = (refl, Apart-nil ks)

  pub Fresh-iff : (ks : List K) → Fresh [] ks ↔ Distinct ks
  Fresh-iff ks = (λ h. (Fresh-Distinct [] ks h).0, λ d. Distinct-Fresh [] ks d (Apart-nil ks))

module _ {A K E : Type 0} ⦃e : Eq K⦄ where
  -- `for x in xs { if !seen.insert(key(x)) { return Err(dup(x)) } }`
  abbrev pub unique : (A → K) → (A → E) → List K → List A → Result E (Unit {0})
  unique key dup seen [] = ok tt
  unique key dup seen (x ∷ xs) =
      reject_if (member (key x) seen) (dup x) >> unique key dup (key x ∷ seen) xs

  unique-Fresh :
      (key : A → K) (dup : A → E) (seen : List K) (xs : List A)
      → Passes (unique key dup seen xs) ↔ Fresh seen (map key xs)
  unique-Fresh key dup seen [] = (λ h. tt, λ h. refl)
  unique-Fresh key dup seen (x ∷ xs) =
      let guard = reject_if (member (key x) seen) (dup x) in
      let rest = unique key dup (key x ∷ seen) xs in
      (
        λ h.
            let (a, b) = (then_iff guard rest).0 h in
            (
              (reject_iff (member (key x) seen) (dup x)).0 a,
              (unique-Fresh key dup (key x ∷ seen) xs).0 b,
            ),
        λ h. (then_iff guard rest).1 (
          (reject_iff (member (key x) seen) (dup x)).1 h.0,
          (unique-Fresh key dup (key x ∷ seen) xs).1 h.1,
        ),
      )

  pub unique_iff :
      (key : A → K) (dup : A → E) (xs : List A)
      → Passes (unique key dup [] xs) ↔ Distinct (map key xs)
  unique_iff key dup xs = (
    λ h. (Fresh-iff (map key xs)).0 ((unique-Fresh key dup [] xs).0 h),
    λ d. (unique-Fresh key dup [] xs).1 ((Fresh-iff (map key xs)).1 d),
  )
