-- ===== src/RateLimit/Tests.antt =====
-- Runs of the bucket with an exact arithmetic in units of 10^-9, and the theorem at a concrete rate.
use meshly_core.Common.{
  ℕ, ◌+◌, ◌-◌, ◌*◌, ◌/◌, min, ◌≡◌, refl, true, some, List, [], ◌∷◌, arith, leb, nat_eq, list_eq,
}
use meshly_core.RateLimit.{
  Floats, Bucket, Wake, new_bucket, waiting, acquire, Chunk, throttled, copy_throttled, buffer_size,
}
use meshly_core.RateLimit.Waits.{IsFloats, acquire-waits}

abbrev giga : ℕ
giga = 1000000000

abbrev exact : Floats ℕ
exact = record {
  as_f64 = λ n. n * giga;
  as_secs_f64 = λ t. t;
  add = λ a b. a + b;
  sub = λ a b. a - b;
  mul = λ a b. a * b / giga;
  min_of = λ a b. min a b;
  ge = λ a b. leb b a;
}

exact-IsFloats : IsFloats exact
exact-IsFloats = record {
  ge-min_of = λ x cap n h. ground (arith, h);
  ge-as_f64 = λ a b small large. ground arith;
}

abbrev at : ℕ → ℕ → Wake
at now bps = record { now = now; bps = bps }

-- Two rounds, a second and an hour after the start, at 1000 bytes a second.
abbrev slow_rounds : List Wake
slow_rounds = at giga 1000 ∷ at (3600 * giga) 1000 ∷ []

abbrev full_read : Chunk
full_read = record { read = some buffer_size; bps = 1000; wrote = true }

abbrev small_read : Chunk
small_read = record { read = some 600; bps = 1000; wrote = true }

full_read_waits : (copy_throttled exact 0 1000 (full_read ∷ []) slow_rounds).how ≡ throttled
unfolding copy_throttled
full_read_waits = refl

two_reads : (copy_throttled exact 0 1000 (small_read ∷ small_read ∷ []) slow_rounds).total ≡ 1200
unfolding copy_throttled
two_reads = refl

-- A full buffer at 1000 bytes a second, and the handle set to 0 after a second.
acquire-waits_example :
    (b' : Bucket ℕ) × (acquire exact 1000 buffer_size
        (at giga 1000 ∷ at (3600 * giga) 0 ∷ [])
        (new_bucket exact 0 1000)
      ≡ waiting b')
acquire-waits_example =
    acquire-waits exact exact-IsFloats 1000 buffer_size 0 (at giga 1000 ∷ at (3600 * giga) 0 ∷ [])
      (omega arith) (omega arith) (omega arith) (omega arith, (omega arith, tt))
