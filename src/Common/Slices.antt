-- ===== src/Common/Slices.antt =====
-- Rust's `bytes[i]` and `bytes[i..j]`, which panic out of range.
use Prim.Native.Nat.{zero, suc, ℕ, ◌+◌, ◌-◌, ◌≤◌, ◌<◌}
use mathlib.Core.Path.{refl, ◌≡◌, ap, ◌∙◌}
use mathlib.Core.Logic.{◌≢◌}
use mathlib.Core.Bool.{◌&&◌}
use mathlib.Core.Option.{Option, none, some}
use mathlib.Core.List.{[], List, ◌∷◌, ◌++◌}
use native.Mathlib.Omega.{arith}
use meshly_core.Common.Tests.{leb, if◌then◌else◌}
use meshly_core.Common.Lists.{
  length, take, drop, get_elem?, length-append, take-append, drop-append, get_elem?-append,
  get_elem?-lt,
}
use meshly_core.Common.Outcome.{Result, ok, panic}

module _ {ℓ κ} {A : Type ℓ} {E : Type κ} where
  abbrev or_panic : Option A → Result E A
  or_panic none = panic
  or_panic (some x) = ok x

  unfoldable pub index : List A → ℕ → Result E A
  index xs i = or_panic (get_elem? xs i)

  unfoldable pub slice : List A → ℕ → ℕ → Result E (List A)
  slice xs i j = if leb i j && leb j (length xs) then ok (take (j - i) (drop i xs)) else panic

module _ {A E : Type 0} where
  pub index-at :
      (xs before : List A) (x : A) (after : List A) (i : ℕ)
      → xs ≡ before ++ (x ∷ after)
      → i ≡ length before
      → index {E = E} xs i ≡ ok x
  unfolding index
  index-at xs before x after i p q = rw (p, q, get_elem?-append before after x)

  pub index-lt : (xs : List A) (i : ℕ) → i < length xs → (x : A) × (index {E = E} xs i ≡ ok x)
  unfolding index
  index-lt xs i h = let (x, e) = get_elem?-lt xs i h in (x, rw e)

  pub index-ne-panic : (xs : List A) (i : ℕ) → i < length xs → index {E = E} xs i ≢ panic
  index-ne-panic xs i h p = let (x, e) = index-lt xs i h in cc (e, p)

  pub slice_in_range :
      (xs : List A) (i j : ℕ)
      → i ≤ j
      → j ≤ length xs
      → slice {E = E} xs i j ≡ ok (take (j - i) (drop i xs))
  unfolding slice
  slice_in_range xs i j h k = ground arith

  pub slice_past_end : (xs : List A) (i j : ℕ) → length xs < j → slice {E = E} xs i j ≡ panic
  unfolding slice
  slice_past_end xs i j h = ground arith

  pub slice-at :
      (xs before part after : List A) (i j : ℕ)
      → xs ≡ before ++ (part ++ after)
      → i ≡ length before
      → j ≡ i + length part
      → slice {E = E} xs i j ≡ ok part
  slice-at xs before part after i j p q r =
      let whole : length xs ≡ length before + (length part + length after) =
        ap length p
        ∙ length-append before (part ++ after)
        ∙ ap (λ n. length before + n) (length-append part after) in
      let width : j - i ≡ length part = omega arith in
      slice_in_range xs i j (omega arith) (omega arith)
      ∙ rw (width, q, p, drop-append before (part ++ after), take-append part after)

  pub index_past_end : (xs : List A) (i : ℕ) → length xs ≤ i → index {E = E} xs i ≡ panic
  unfolding index
  index_past_end [] i h = refl
  index_past_end (x ∷ xs) zero h = absurd (omega arith)
  index_past_end (x ∷ xs) (suc i) h = index_past_end xs i (omega arith)

  pub slice-ne-panic :
      (xs : List A) (i j : ℕ) → i ≤ j → j ≤ length xs → slice {E = E} xs i j ≢ panic
  slice-ne-panic xs i j h k p = cc (slice_in_range xs i j h k, p)
