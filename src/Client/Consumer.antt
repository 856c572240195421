-- ===== src/Client/Consumer.antt =====
-- The dial loop of a consumed service: `dial_stream`, `ensure_provider_id` and `is_auth_error` of
-- crates/client/src/consume.rs, with the backoff that crates/client/src/main.rs clamps.

pub mod Backoff
pub mod Rounds
pub mod Cache
mod Tests
use mathlib.Core.Option
use meshly_core.Common.{
  ℕ, ◌*◌, ◌%◌, ◌^◌, min, Bool, Option, none, some, List, [], ◌∷◌, ltb, if◌then◌else◌, nat_eq,
  list_eq, Result, ok, err, panic, Text, text,
}
use meshly_core.Client.{ClientError}
use meshly_core.Client.Dial.{DialError, Way, direct, relay}
use meshly_core.Client.Status.{RuntimeStatus, set_consumer_state, dialing, live, failed}

pub record ReconnectConfig : Type 0 where
  pub initial_backoff_ms : ℕ
  pub max_backoff_ms : ℕ
  pub prefer_direct : Bool

-- `clamp_backoff` of main.rs.
unfoldable pub clamp_backoff : ℕ → ℕ → ℕ
clamp_backoff configured floor = if ltb configured floor then floor else configured

unfoldable pub clamped : ReconnectConfig → ReconnectConfig
unfolding clamp_backoff
clamped r = record {
  initial_backoff_ms = clamp_backoff r.initial_backoff_ms 10;
  max_backoff_ms = clamp_backoff r.max_backoff_ms 100;
  prefer_direct = r.prefer_direct;
}

-- What the calls of one round of the loop give, if they are made, and the time.
pub record Round (Peer : Type 0) : Type 0 where
  pub subscribed : Result ClientError Peer
  pub dialed : Peer → Result DialError (Unit {0})
  pub relayed : Peer → Result DialError (Unit {0})
  pub now : ℕ

pub record Dialing (Peer : Type 0) : Type 0 where
  pub cached_provider : Option Peer
  pub backoff_ms : ℕ
  pub status : RuntimeStatus

-- The loop returns a stream or the error of a subscription, or sleeps and goes on; `unfinished` is where it
-- stands when the rounds looked at are over.
pub data Progress (Peer : Type 0) : Type 0 where
  connected : Way → Peer → Dialing Peer → Progress Peer
  no_provider_id : ClientError → Dialing Peer → Progress Peer
  panicked : Progress Peer
  retries : (slept : ℕ) → Dialing Peer → Progress Peer
  unfinished : Dialing Peer → Progress Peer

module _ {Peer : Type 0} where
  unfoldable pub ensure_provider_id :
      Result ClientError Peer → Option Peer → Result ClientError Peer × Option Peer
  ensure_provider_id subscribed (some id) = (ok id, some id)
  ensure_provider_id (ok id) none = (ok id, some id)
  ensure_provider_id (err e) none = (err e, none)
  ensure_provider_id panic none = (panic, none)

  unfoldable pub invalidate_provider_cache : Option Peer → Option Peer
  invalidate_provider_cache cached = none

-- `(backoff_ms * 2).min(max)`, in 64 bits
abbrev pub next_backoff : ℕ → ℕ → ℕ
next_backoff max_backoff_ms backoff_ms = min (backoff_ms * 2 % 2 ^ 64) max_backoff_ms

abbrev pub after_round :
    {Peer : Type 0}
    → (Dialing Peer → List ℕ × Progress Peer)
    → Progress Peer
    → List ℕ × Progress Peer
after_round rest (retries slept s) = let (sleeps, end) = rest s in (slept ∷ sleeps, end)
after_round rest end = ([], end)

module _ {Peer : Type 0} (show_error : DialError → Text) (is_auth_error : DialError → Bool)
    (name : Text) (prefer_direct : Bool) (max_backoff_ms : ℕ) where
  -- A stream is there.
  abbrev came_up : Way → Text → ℕ → Peer → Dialing Peer → Progress Peer
  came_up way mode now p s =
      connected way p
        (record s { status = set_consumer_state now name live (some mode) none s.status })

  abbrev pub after_relay : Result DialError (Unit {0}) → ℕ → Peer → Dialing Peer → Progress Peer
  after_relay (ok done) now p s = came_up relay (text "relay") now p s
  after_relay (err e) now p s = retries s.backoff_ms (record s {
    status = set_consumer_state now name failed none (some (show_error e)) s.status;
    backoff_ms = next_backoff max_backoff_ms s.backoff_ms;
  })
  after_relay panic now p s = panicked

  unfoldable pub try_relay : Round Peer → Peer → Dialing Peer → Progress Peer
  try_relay r p s = after_relay (r.relayed p) r.now p s

  -- An error that looks like a refused proof makes the cached id stale.
  abbrev pub after_direct :
      Result DialError (Unit {0}) → Round Peer → Peer → Dialing Peer → Progress Peer
  after_direct (ok done) r p s = came_up direct (text "direct") r.now p s
  after_direct (err e) r p s = try_relay r p (record s {
    cached_provider =
        if is_auth_error e then invalidate_provider_cache s.cached_provider else s.cached_provider;
  })
  after_direct panic r p s = panicked

  unfoldable pub try_direct : Round Peer → Peer → Dialing Peer → Progress Peer
  unfolding try_relay
  try_direct r p s = after_direct (r.dialed p) r p s

  abbrev pub with_provider :
      Round Peer → Result ClientError Peer × Option Peer → Dialing Peer → Progress Peer
  with_provider r (ok p, cached) s =
      if prefer_direct
      then try_direct r p (record s { cached_provider = cached })
      else try_relay r p (record s { cached_provider = cached })
  with_provider r (err e, cached) s = no_provider_id e s
  with_provider r (panic, cached) s = panicked

  unfoldable pub dial_round : Round Peer → Dialing Peer → Progress Peer
  unfolding ensure_provider_id try_direct try_relay
  dial_round r s = with_provider r (ensure_provider_id r.subscribed s.cached_provider) s

  -- The loop over these rounds: how long it has slept, and where it stands after them.
  unfoldable pub dial_rounds : List (Round Peer) → Dialing Peer → List ℕ × Progress Peer
  unfolding dial_round
  dial_rounds [] s = ([], unfinished s)
  dial_rounds (r ∷ rs) s = after_round (λ s'. dial_rounds rs s') (dial_round r s)

-- `dial_stream`, with the cache of the service's state.
module _ {Peer : Type 0} (show_error : DialError → Text) (is_auth_error : DialError → Bool) where
  unfoldable pub dial_stream :
      Text
      → ReconnectConfig
      → ℕ
      → Option Peer
      → RuntimeStatus
      → List (Round Peer)
      → List ℕ × Progress Peer
  unfolding dial_rounds set_consumer_state
  dial_stream name config now cached status rounds =
      dial_rounds show_error is_auth_error name config.prefer_direct config.max_backoff_ms rounds
        (record {
          cached_provider = cached;
          backoff_ms = config.initial_backoff_ms;
          status = set_consumer_state now name dialing none none status;
        })
