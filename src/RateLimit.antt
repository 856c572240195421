-- ===== src/RateLimit.antt =====
-- crates/server/src/ratelimit.rs: the token bucket behind `copy_throttled`. Times are nanoseconds, and the
-- arithmetic of `f64` is a parameter.
pub mod Waits
mod Tests
use meshly_core.Common.{
  ℕ, zero, suc, ◌+◌, ◌-◌, ◌*◌, min, Bool, ◌||◌, Option, none, some, List, [], ◌∷◌, arith, leb,
  nat_beq, if◌then◌else◌, nat_eq, list_eq, ok, err, panic,
}

-- The operations of `f64` that the file uses: `as f64`, `as_secs_f64` of so many nanoseconds, `+`, `-`, `*`,
-- `min` and `>=`.
pub record Floats (F64 : Type 0) : Type 0 where
  pub as_f64 : ℕ → F64
  pub as_secs_f64 : ℕ → F64
  pub add : F64 → F64 → F64
  pub sub : F64 → F64 → F64
  pub mul : F64 → F64 → F64
  pub min_of : F64 → F64 → F64
  pub ge : F64 → F64 → Bool

-- `Bucket`. Its handle is not a field: what `load` gives is in a `Wake`.
pub record Bucket (F64 : Type 0) : Type 0 where
  pub available : F64
  pub last_refill : ℕ

-- One round of `acquire`'s loop: when `refill` reads the clock, and what it reads from the handle.
pub record Wake : Type 0 where
  pub now : ℕ
  pub bps : ℕ

-- What a call of `acquire` has come to when these rounds are over: it returned with the bucket after it,
-- and the rounds that it did not need, or it is still waiting.
pub data Progress (F64 : Type 0) : Type 0 where
  acquired : (bucket : Bucket F64) (unused : List Wake) → Progress F64
  waiting : (bucket : Bucket F64) → Progress F64

-- The buffer of `copy_throttled`: the most that it acquires at once.
abbrev pub buffer_size : ℕ
buffer_size = 16 * 1024

-- What the loop of `copy_throttled` meets: what the reader gives (an error, or a number of bytes, 0 at
-- the end), what `acquire` then reads from the handle, and whether the writer takes the bytes.
pub record Chunk : Type 0 where
  pub read : Option ℕ
  pub bps : ℕ
  pub wrote : Bool

-- `fed` when the chunks are over and the next read is awaited, `throttled` when `acquire` waits.
pub data CopyEnd : Type 0 where
  finished : CopyEnd
  failed : CopyEnd
  fed : CopyEnd
  throttled : CopyEnd

-- How the copy stands, with the bytes that have been written and the bucket.
pub record Copied (F64 : Type 0) : Type 0 where
  pub how : CopyEnd
  pub total : ℕ
  pub bucket : Bucket F64

module _ {F64 : Type 0} (fl : Floats F64) where
  -- `Bucket::new` at a time and a value of the handle.
  unfoldable pub new_bucket : ℕ → ℕ → Bucket F64
  new_bucket now bps = record { available = fl.as_f64 bps; last_refill = now }

  unfoldable pub refill : Wake → Bucket F64 → Bucket F64
  refill w b = if nat_beq w.bps 0 then b else record {
    available =
        fl.min_of
          (fl.add b.available (fl.mul (fl.as_secs_f64 (w.now - b.last_refill)) (fl.as_f64 w.bps)))
          (fl.as_f64 w.bps);
    last_refill = w.now;
  }

  unfoldable pub acquire_loop : ℕ → List Wake → Bucket F64 → Progress F64
  unfolding refill
  acquire_loop n [] b = waiting b
  acquire_loop n (w ∷ ws) b =
      let full = refill w b in
      let rest = acquire_loop n ws full in
      if fl.ge full.available (fl.as_f64 n)
      then acquired (record full { available = fl.sub full.available (fl.as_f64 n) }) ws
      else rest

  -- `bps` is what `acquire` reads from the handle before its loop.
  unfoldable pub acquire : ℕ → ℕ → List Wake → Bucket F64 → Progress F64
  unfolding acquire_loop
  acquire bps n ws b = if nat_beq bps 0 || nat_beq n 0 then acquired b ws else acquire_loop n ws b

  abbrev pub stopped : CopyEnd → ℕ → Bucket F64 → Copied F64
  stopped how total b = record { how = how; total = total; bucket = b }

  -- The loop's body behind the read of `n` bytes; `next` goes on with the loop.
  unfoldable pub write_chunk :
      ℕ → Bucket F64 → Bool → (List Wake → Bucket F64 → Copied F64) → ℕ → Progress F64 → Copied F64
  write_chunk total b wrote next zero p = stopped finished total b
  write_chunk total b wrote next (suc n) (waiting b') = stopped throttled total b'
  write_chunk total b wrote next (suc n) (acquired b' rest) =
      if wrote then next rest b' else stopped failed total b'

  unfoldable pub copy_loop : List Chunk → ℕ → List Wake → Bucket F64 → Copied F64
  unfolding acquire write_chunk
  copy_loop [] total ws b = stopped fed total b
  copy_loop (c ∷ cs) total ws b = elim c.read [
    | none ↦ stopped failed total b
    | some n ↦
        write_chunk total b c.wrote (λ rest b'. copy_loop cs (total + n) rest b') n
          (acquire c.bps n ws b)
  ]

  -- The handle is at `bps` when the bucket is made, at `now`.
  unfoldable pub copy_throttled : ℕ → ℕ → List Chunk → List Wake → Copied F64
  unfolding copy_loop new_bucket
  copy_throttled now bps chunks wakes = copy_loop chunks 0 wakes (new_bucket now bps)
