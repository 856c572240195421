-- ===== src/RateLimit/Waits.antt =====
-- Which acquisitions do not end.
use meshly_core.Common.{
  ℕ, ◌^◌, ◌≤◌, ◌<◌, ◌≡◌, refl, ◌∙◌, inl, inr, true, false, ◌||◌, List, [], ◌∷◌, arith, leb, nat_beq,
  Bool-cases, nat_eq, list_eq, All,
}
use meshly_core.RateLimit.{Floats, Bucket, Wake, new_bucket, refill, waiting, acquire_loop, acquire}

-- What IEEE 754 says of binary64: a `min` is not above its second argument, when that is a number, and
-- integers up to 2^53 are exact, so that they compare as they do.
pub record IsFloats {F64 : Type 0} (fl : Floats F64) : Type 0 where
  pub ge-min_of :
      (x : F64) (cap n : ℕ)
      → fl.ge (fl.min_of x (fl.as_f64 cap)) (fl.as_f64 n) ≡ true
      → fl.ge (fl.as_f64 cap) (fl.as_f64 n) ≡ true
  pub ge-as_f64 : (a b : ℕ) → a ≤ 2 ^ 53 → b ≤ 2 ^ 53 → fl.ge (fl.as_f64 a) (fl.as_f64 b) ≡ leb b a

module _ {F64 : Type 0} (fl : Floats F64) (ieee : IsFloats fl) where
  -- Whether the bucket does not have what the request wants.
  abbrev Short : ℕ → Bucket F64 → Type 0
  Short n b = fl.ge b.available (fl.as_f64 n) ≡ false

  above : (n bps : ℕ) → bps < n → n ≤ 2 ^ 53 → fl.ge (fl.as_f64 bps) (fl.as_f64 n) ≡ false
  above n bps slow size =
      ieee.ge-as_f64 bps n (omega (arith, slow, size)) size ∙ ground (arith, slow)

  capped :
      (n bps : ℕ) (x : F64)
      → bps < n
      → n ≤ 2 ^ 53
      → fl.ge (fl.min_of x (fl.as_f64 bps)) (fl.as_f64 n) ≡ false
  capped n bps x slow size = elim (Bool-cases (fl.ge (fl.min_of x (fl.as_f64 bps)) (fl.as_f64 n))) [
    | inl enough ↦ absurd (cc (ieee.ge-min_of x bps n enough, above n bps slow size))
    | inr short ↦ short
  ]

  refill-Short :
      (n : ℕ) (w : Wake) (b : Bucket F64)
      → n ≤ 2 ^ 53
      → w.bps < n
      → Short n b
      → Short n (refill fl w b)
  unfolding refill
  refill-Short n w b size slow short = elim (Bool-cases (nat_beq w.bps 0)) [
    | inl off ↦ simp off short
    | inr on ↦ simp on (capped n w.bps _ slow size)
  ]

  acquire_loop-waits :
      (n : ℕ) (ws : List Wake) (b : Bucket F64)
      → n ≤ 2 ^ 53
      → All (λ (w : Wake). w.bps < n) ws
      → Short n b
      → (b' : Bucket F64) × (acquire_loop fl n ws b ≡ waiting b')
  unfolding acquire_loop
  acquire_loop-waits n [] b size slow short = (b, refl)
  acquire_loop-waits n (w ∷ ws) b size slow short =
      let still = refill-Short n w b size slow.0 short in
      let (b', later) = acquire_loop-waits n ws (refill fl w b) size slow.1 still in
      (b', rw still later)

  -- A call that asks a fresh bucket of a rate other than 0 for more bytes than it has in a second, and for
  -- at most 2^53, waits as long as every value that it reads from the handle is below the size of the
  -- request, 0 included: no sequence of rounds lets it return, in the arithmetic of any `f64` that is exact on
  -- integers up to 2^53 and whose `min` is not above its second argument.
  pub acquire-waits :
      (bps n now : ℕ) (ws : List Wake)
      → 0 < bps
      → bps < n
      → n ≤ 2 ^ 53
      → All (λ (w : Wake). w.bps < n) ws
      → (b' : Bucket F64) × (acquire fl bps n ws (new_bucket fl now bps) ≡ waiting b')
  unfolding new_bucket acquire
  acquire-waits bps n now ws on large size slow =
      let (b', stays) =
        acquire_loop-waits n ws (new_bucket fl now bps) size slow (above n bps large size) in
      (b', rw busy stays)
    where
      busy : (nat_beq bps 0 || nat_beq n 0) ≡ false
      busy = ground (arith, on, large)
