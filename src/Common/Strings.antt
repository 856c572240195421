-- ===== src/Common/Strings.antt =====
-- Functions of Rust's `str` on the bytes of a text.
use Prim.Native.Nat.{ℕ, zero, suc, ◌+◌, ◌/◌, ◌%◌}
use mathlib.Core.Path.{◌≡◌, refl}
use mathlib.Core.Bool.{Bool, true, false, ◌&&◌, ◌||◌}
use mathlib.Core.List.{[], ◌∷◌, ◌++◌}
use native.Mathlib.Omega.{arith}
use meshly_core.Common.Tests.{ltb, nat_beq, nat_eq, if◌then◌else◌}
use meshly_core.Common.Encoding.{Text}

-- `str::starts_with` and `str::contains`
abbrev pub starts_with : Text → Text → Bool
starts_with [] s = true
starts_with (x ∷ xs) [] = false
starts_with (x ∷ xs) (y ∷ ys) = nat_beq x y && starts_with xs ys

abbrev pub contains : Text → Text → Bool
contains part [] = starts_with part []
contains part (x ∷ xs) = starts_with part (x ∷ xs) || contains part xs

pub starts_with-append : (p rest : Text) → starts_with p (p ++ rest) ≡ true
starts_with-append [] rest = refl
starts_with-append (x ∷ p) rest = ground (arith, starts_with-append p rest)

pub contains-append : (p rest : Text) → contains p (p ++ rest) ≡ true
contains-append [] [] = refl
contains-append [] (x ∷ rest) = refl
contains-append (x ∷ p) rest = ground (arith, starts_with-append (x ∷ p) rest)

-- The digits of a number before some text, on enough fuel.
abbrev pub digits : ℕ → ℕ → Text → Text
digits zero n rest = rest
digits (suc fuel) n rest =
    let more = digits fuel (n / 10) ((48 + n % 10) ∷ rest) in
    if ltb n 10 then (48 + n) ∷ rest else more

-- `to_string` of a number: one less than 2 ^ 64 has at most 20 digits.
unfoldable pub decimal : ℕ → Text
decimal n = digits 20 n []
